-- ===== src/Shards/Exhausted.antt =====
-- A call that no peer answers leaves the circuits of all peers open.
use Prim.Native.String.{String}
use decentralized_llm.Base.{
  ◌<◌, ◌≡◌, refl, sym, ap, subst, ◌∙◌, inl, inr, Option, none, some, List, [], ◌∷◌, arith,
  Option-cases, Bool-cases,
}
use decentralized_llm.Base.Dict.{Dict, lookup, insert, lookup-insert, string_eq}
use decentralized_llm.CircuitBreaker.{
  CircuitState, closed, opened, half_open, Config, Breaker, init, refresh,
}
use decentralized_llm.Shards.{
  MultiPeer, connect, ordered_peers, Visit, Answer, all_failed, keep_breaker, take_answer,
  visit_when, visit, pass_on, forward_peers, forward,
}
use decentralized_llm.Shards.Opening.{IsOpen, refresh-config, remote_forward-IsOpen}

-- every breaker has a positive threshold
abbrev pub ArePositive : Dict String Breaker → Type 0
ArePositive breakers =
    (q : String) (b : Breaker) → lookup q breakers ≡ some b → 0 < b.config.failure_threshold

-- the circuit of a peer is open
abbrev pub IsOpenAt : String → Dict String Breaker → Type 0
IsOpenAt q breakers = (b : Breaker) × (lookup q breakers ≡ some b) × (b.state ≡ opened)

abbrev pub AreOpen : List String → Dict String Breaker → Type 0
AreOpen [] breakers = Unit
AreOpen (p ∷ ps) breakers = IsOpenAt p breakers × AreOpen ps breakers

-- an open breaker is put in the place of `c`
abbrev IsReplaced : String → Breaker → (before after : Dict String Breaker) → Type 0
IsReplaced p c before after =
    (d : Breaker) × (after ≡ insert p d before) × (d.state ≡ opened) × (d.config ≡ c.config)

insert-ArePositive :
    (p : String) (d : Breaker) (breakers : Dict String Breaker)
    → 0 < d.config.failure_threshold
    → ArePositive breakers
    → ArePositive (insert p d breakers)
insert-ArePositive p d breakers positive others q b known = elim (Bool-cases (string_eq.beq p q)) [
  | inl here ↦ ground (arith, here, known, lookup-insert p q d breakers, positive)
  | inr other ↦ others q b (sym (lookup-insert p q d breakers ∙ rw other refl) ∙ known)
]

-- the breakers that a new client makes
pub connect-ArePositive :
    (config : Config) (peers : List String) (breakers : Dict String Breaker)
    → 0 < config.failure_threshold
    → ArePositive breakers
    → ArePositive (connect config peers breakers)
unfolding connect init
connect-ArePositive config [] breakers positive others = others
connect-ArePositive config (p ∷ peers) breakers positive others =
    connect-ArePositive config peers (insert p (init config) breakers) positive
      (insert-ArePositive p (init config) breakers positive others)

insert-IsOpenAt :
    (p q : String) (d : Breaker) (breakers : Dict String Breaker)
    → d.state ≡ opened
    → IsOpenAt q breakers
    → IsOpenAt q (insert p d breakers)
insert-IsOpenAt p q d breakers is_open (b, known, was_open) =
    elim (Bool-cases (string_eq.beq p q)) [
      | inl here ↦ (d, lookup-insert p q d breakers ∙ rw here refl, is_open)
      | inr other ↦ (b, lookup-insert p q d breakers ∙ rw other known, was_open)
    ]

insert-IsOpenAt_self :
    (p : String) (d : Breaker) (breakers : Dict String Breaker)
    → d.state ≡ opened
    → IsOpenAt p (insert p d breakers)
insert-IsOpenAt_self p d breakers is_open =
    (d, lookup-insert p p d breakers ∙ rw ((string_eq.beq_iff p p).1 refl) refl, is_open)

keep_breaker-IsReplaced :
    (p : String) (c : Breaker) (o : Option Breaker) (breakers : Dict String Breaker)
    → IsOpen c.config o
    → IsReplaced p c breakers (keep_breaker p o breakers)
unfolding keep_breaker
keep_breaker-IsReplaced p c none breakers h = absurd h
keep_breaker-IsReplaced p c (some d) breakers h = (d, refl, h.0, h.1)

module _ {A : Type 0} (world : String → Visit A) where
  visit_when-IsReplaced :
      (state : CircuitState) (p : String) (b : Breaker) (m : MultiPeer)
      → b.state ≡ state
      → 0 < b.config.failure_threshold
      → (visit_when state p (world p) b m).0 ≡ none
      → IsReplaced p b m.circuit_breakers (visit_when state p (world p) b m).1.circuit_breakers
  unfolding visit_when take_answer
  visit_when-IsReplaced opened p b m same positive silent = (b, refl, same, refl)
  visit_when-IsReplaced closed p b m same positive silent =
      keep_breaker-IsReplaced p b _ m.circuit_breakers (
        (remote_forward-IsOpen p ((world p).attempt ∷ []) (world p).after b m.peer_manager
            positive).1
          silent)
  visit_when-IsReplaced half_open p b m same positive silent =
      keep_breaker-IsReplaced p b _ m.circuit_breakers (
        (remote_forward-IsOpen p ((world p).attempt ∷ []) (world p).after b m.peer_manager
            positive).1
          silent)

  pass_on-failed :
      (o : Option A) (m : MultiPeer) (rest : Answer A × MultiPeer)
      → (pass_on o m rest).0 ≡ all_failed
      → (o ≡ none) × (pass_on o m rest ≡ rest)
  unfolding pass_on
  pass_on-failed (some x) m rest failed = absurd (ground arith)
  pass_on-failed none m rest failed = (refl, refl)

  -- what a call leaves that no peer of the list answers
  abbrev IsExhausted : List String → (before after : MultiPeer) → Type 0
  IsExhausted ps before after =
      AreOpen ps after.circuit_breakers
      × ((q : String) → IsOpenAt q before.circuit_breakers → IsOpenAt q after.circuit_breakers)

  step :
      (p : String) (ps : List String) (c : Breaker) (m m' : MultiPeer) (r : Answer A × MultiPeer)
      → IsReplaced p c m.circuit_breakers m'.circuit_breakers
      → 0 < c.config.failure_threshold
      → ArePositive m.circuit_breakers
      → (ArePositive m'.circuit_breakers → IsExhausted ps m' r.1)
      → IsExhausted (p ∷ ps) m r.1
  step p ps c m m' r (d, replaced, is_open, config) positive others later =
      let positive' : 0 < d.config.failure_threshold =
        subst (λ (k : Config). 0 < k.failure_threshold) (sym config) positive in
      let (all_open, kept) = later (
        subst ArePositive (sym replaced)
          (insert-ArePositive p d m.circuit_breakers positive' others)) in
      (
        (
          kept p (
              subst (IsOpenAt p) (sym replaced)
                (insert-IsOpenAt_self p d m.circuit_breakers is_open)),
          all_open,
        ),
        λ q was_open. kept q (
            subst (IsOpenAt q) (sym replaced)
              (insert-IsOpenAt p q d m.circuit_breakers is_open was_open)),
      )

  forward_peers-IsExhausted :
      (ps : List String) (m : MultiPeer)
      → ArePositive m.circuit_breakers
      → (forward_peers world ps m).0 ≡ all_failed
      → IsExhausted ps m (forward_peers world ps m).1
  unfolding forward_peers visit
  forward_peers-IsExhausted [] m positive failed = (tt, λ q was_open. was_open)
  forward_peers-IsExhausted (p ∷ ps) m positive failed =
      elim (Option-cases (lookup p m.circuit_breakers)) [
        | inl unknown ↦ absurd (ground (arith, unknown))
        | inr (b, known) ↦
            let b' : Breaker = refresh (world p).looked b in
            let r : Option A × MultiPeer = visit_when b'.state p (world p) b' m in
            let rest : Answer A × MultiPeer = forward_peers world ps r.1 in
            let unrolled : forward_peers world (p ∷ ps) m ≡ pass_on r.0 r.1 rest =
              rw (known, forward_peers) refl in
            let (silent, passed) =
              pass_on-failed r.0 r.1 rest (ap (λ k. k.0) (sym unrolled) ∙ failed) in
            let on : 0 < b'.config.failure_threshold =
              subst (λ (k : Config). 0 < k.failure_threshold)
                (sym (refresh-config (world p).looked b)) (positive p b known) in
            subst (λ k. IsExhausted (p ∷ ps) m k.1) (sym (unrolled ∙ passed))
              (step p ps b' m r.1 rest (visit_when-IsReplaced b'.state p b' m refl on silent) on
                positive
                (λ positive'.
                  forward_peers-IsExhausted ps r.1 positive'
                    (ap (λ k. k.0) (sym (unrolled ∙ passed)) ∙ failed)))
      ]

  -- With breakers of positive thresholds, a call that all peers failed leaves the circuit of every
  -- peer that it went through open.
  pub forward-AreOpen :
      (m : MultiPeer)
      → ArePositive m.circuit_breakers
      → (forward world m).0 ≡ all_failed
      → AreOpen (ordered_peers m) (forward world m).1.circuit_breakers
  unfolding forward
  forward-AreOpen m positive failed =
      (forward_peers-IsExhausted (ordered_peers m) m positive failed).0
