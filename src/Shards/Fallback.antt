-- ===== src/Shards/Fallback.antt =====
-- The call that goes through the peers in order.
use Prim.Native.String.{String}
use decentralized_llm.Base.{
  ◌≡◌, refl, sym, ap, ◌∙◌, ◌⊎◌, inl, inr, Option, none, some, true, false, List, [], ◌∷◌,
  Option-cases, Bool-cases, if◌then◌else◌,
}
use decentralized_llm.Base.Dict.{lookup, lookup-insert, string_eq}
use decentralized_llm.CircuitBreaker.{CircuitState, closed, opened, half_open, Breaker, refresh}
use decentralized_llm.Shards.{
  MultiPeer, ordered_peers, Visit, Answer, take_answer, visit_when, visit, pass_on, forward_peers,
  forward,
}
use decentralized_llm.Shards.Routing.{
  still_open, or_else, first_answer, visit_when-answer_when, IsKept, first_answer-IsKept,
  keep_breaker-IsKept,
}

module _ {A : Type 0} (world : String → Visit A) where
  visit_when-IsKept :
      (state : CircuitState) (endpoint q : String) (b c : Breaker) (m : MultiPeer)
      → b.state ≡ state
      → (b.state ≡ opened → b ≡ c)
      → lookup endpoint m.circuit_breakers ≡ some c
      → (visit_when state endpoint (world endpoint) b m).0 ≡ none
      → IsKept
          (world q).attempt.outcome
          (lookup q m.circuit_breakers)
          (lookup q (visit_when state endpoint (world endpoint) b m).1.circuit_breakers)
  unfolding visit_when take_answer
  visit_when-IsKept opened endpoint q b c m same was_open known silent =
      inl (
        lookup-insert endpoint q b m.circuit_breakers
        ∙ back (Bool-cases (string_eq.beq endpoint q)))
    where
      back :
          (string_eq.beq endpoint q ≡ true) ⊎ (string_eq.beq endpoint q ≡ false)
          → (if string_eq.beq endpoint q then some b else lookup q m.circuit_breakers)
            ≡ lookup q m.circuit_breakers
      back (inr other) = rw other refl
      back (inl here) = rw here (
          ap some (was_open same)
          ∙ sym known
          ∙ ap (λ k. lookup k m.circuit_breakers) ((string_eq.beq_iff endpoint q).0 here))
  visit_when-IsKept closed endpoint q b c m same was_open known silent =
      keep_breaker-IsKept endpoint q world c _ m.circuit_breakers known
        (sym (visit_when-answer_when closed endpoint (world endpoint) b m same) ∙ silent)
  visit_when-IsKept half_open endpoint q b c m same was_open known silent =
      keep_breaker-IsKept endpoint q world c _ m.circuit_breakers known
        (sym (visit_when-answer_when half_open endpoint (world endpoint) b m same) ∙ silent)

  -- the two sides of one step of the loop
  pass_on-or_else :
      (o : Option A) (m : MultiPeer) (rest : Answer A × MultiPeer) (answer : Option A)
      (spec : Answer A)
      → o ≡ answer
      → (o ≡ none → rest.0 ≡ spec)
      → (pass_on o m rest).0 ≡ or_else answer spec
  unfolding pass_on
  pass_on-or_else (some x) m rest answer spec same later = ap (λ a. or_else a spec) same
  pass_on-or_else none m rest answer spec same later = later refl ∙ ap (λ a. or_else a spec) same

  forward_peers-first_answer :
      (ps : List String) (m : MultiPeer)
      → (forward_peers world ps m).0 ≡ first_answer world ps m.circuit_breakers
  unfolding forward_peers first_answer visit
  forward_peers-first_answer [] m = refl
  forward_peers-first_answer (p ∷ ps) m = elim (Option-cases (lookup p m.circuit_breakers)) [
    | inl unknown ↦ rw (unknown, forward_peers) refl
    | inr (b, known) ↦
        let b' : Breaker = refresh (world p).looked b in
        let r : Option A × MultiPeer = visit_when b'.state p (world p) b' m in
        rw (known, forward_peers)
          (pass_on-or_else r.0 r.1 (forward_peers world ps r.1) _ _
            (visit_when-answer_when b'.state p (world p) b' m refl)
            (λ silent.
              forward_peers-first_answer ps r.1
              ∙ first_answer-IsKept world ps m.circuit_breakers r.1.circuit_breakers (λ q.
                visit_when-IsKept b'.state p q b' b m refl (still_open (world p).looked b) known
                  silent)))
  ]

  -- Going through the peers in order of reputation gives the answer of the first one, of the
  -- breakers as they stood at the start, whose circuit lets the call through and whose shard
  -- answers: it is not changed by what the calls before do to the breakers and the peers.
  pub forward-first_answer :
      (m : MultiPeer)
      → (forward world m).0 ≡ first_answer world (ordered_peers m) m.circuit_breakers
  unfolding forward
  forward-first_answer m = forward_peers-first_answer (ordered_peers m) m
