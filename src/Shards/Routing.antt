-- ===== src/Shards/Routing.antt =====
-- Which peer's answer a call gets.
use Prim.Native.String.{String}
use decentralized_llm.Base.{
  ℕ, ◌≡◌, ◌≢◌, refl, sym, ap, ◌∙◌, ◌⊎◌, inl, inr, Option, none, some, List, [], ◌∷◌, arith,
  Bool-cases,
}
use decentralized_llm.Base.Dict.{Dict, lookup, lookup-insert, string_eq}
use decentralized_llm.CircuitBreaker.{
  CircuitState, closed, opened, half_open, Breaker, refresh, Outcome, returned, failed, raised, ran,
  call_when, call,
}
use decentralized_llm.Peers.{Peers}
use decentralized_llm.Shards.{
  Attempt, mark_suspected, try_once, after_attempt, attempt_all, give_up, remote_forward, MultiPeer,
  Visit, Answer, answered, all_failed, no_breaker, keep_breaker, take_answer, visit_when,
}

refresh_again : (now : ℕ) (b : Breaker) → b.state ≢ opened → refresh now b ≡ b
unfolding refresh
refresh_again now b h = ground arith

pub still_open : (now : ℕ) (b : Breaker) → (refresh now b).state ≡ opened → refresh now b ≡ b
unfolding refresh
still_open now b h = ground arith

module _ {A : Type 0} where
  abbrev pub answer_of : Outcome A → Option A
  answer_of (returned x) = some x
  answer_of failed = none
  answer_of raised = none

  -- what a circuit in this state lets through
  abbrev pub answer_when : CircuitState → Outcome A → Option A
  answer_when opened outcome = none
  answer_when closed outcome = answer_of outcome
  answer_when half_open outcome = answer_of outcome

  abbrev pub or_else : Option A → Answer A → Answer A
  or_else (some x) rest = answered x
  or_else none rest = rest

  abbrev pub choose : Option Breaker → Visit A → Answer A → Answer A
  choose none v rest = no_breaker
  choose (some b) v rest = or_else (answer_when (refresh v.looked b).state v.attempt.outcome) rest

  -- The peers in order, seen from the breakers at the start of the call: the first whose circuit lets
  -- the call through and whose shard answers.
  unfoldable pub first_answer : (String → Visit A) → List String → Dict String Breaker → Answer A
  first_answer world [] breakers = all_failed
  first_answer world (p ∷ ps) breakers =
      choose (lookup p breakers) (world p) (first_answer world ps breakers)

  call-ran :
      (a : Attempt A) (b : Breaker)
      → b.state ≢ opened
      → (call a.now a.later a.outcome b).0 ≡ ran a.outcome
  unfolding call call_when
  call-ran a b h =
      ap (λ (c : Breaker). (call_when c.state a.later a.outcome c).0) (refresh_again a.now b h)
      ∙ through b.state h
    where
      through :
          (state : CircuitState)
          → state ≢ opened
          → (call_when state a.later a.outcome b).0 ≡ ran a.outcome
      through opened h = absurd (h refl)
      through closed h = refl
      through half_open h = refl

  give_up-answer_of :
      (endpoint : String) (after : ℕ) (outcome : Outcome A) (o : Option Breaker)
      (peers : Option Peers) (rest : Option Breaker × Option Peers)
      → (give_up after (after_attempt endpoint (ran outcome) o peers (none, rest))).0
        ≡ answer_of outcome
  unfolding give_up after_attempt
  give_up-answer_of endpoint after (returned x) o peers rest = refl
  give_up-answer_of endpoint after failed o peers rest = refl
  give_up-answer_of endpoint after raised o peers rest = refl

  remote_forward-answer_of :
      (endpoint : String) (a : Attempt A) (after : ℕ) (b : Breaker) (peers : Option Peers)
      → b.state ≢ opened
      → (remote_forward endpoint (a ∷ []) after (some b) peers).0 ≡ answer_of a.outcome
  unfolding remote_forward attempt_all try_once
  remote_forward-answer_of endpoint a after b peers h =
      ap
        (λ called.
          (give_up after (
            after_attempt endpoint called (try_once a (some b)).1 peers
              (attempt_all endpoint [] (try_once a (some b)).1 (mark_suspected endpoint peers)))).0)
        (call-ran a b h)
      ∙ give_up-answer_of endpoint after a.outcome _ peers _

  pub visit_when-answer_when :
      (state : CircuitState) (endpoint : String) (v : Visit A) (b : Breaker) (m : MultiPeer)
      → b.state ≡ state
      → (visit_when state endpoint v b m).0 ≡ answer_when state v.attempt.outcome
  unfolding visit_when take_answer
  visit_when-answer_when opened endpoint v b m same = refl
  visit_when-answer_when closed endpoint v b m same =
      remote_forward-answer_of endpoint v.attempt v.after b m.peer_manager (ground (arith, same))
  visit_when-answer_when half_open endpoint v b m same =
      remote_forward-answer_of endpoint v.attempt v.after b m.peer_manager (ground (arith, same))

  -- a breaker is as it was, or that of a peer whose shard does not answer
  abbrev pub IsKept : Outcome A → (before after : Option Breaker) → Type 0
  IsKept outcome before after =
      (after ≡ before)
      ⊎ ((b : Breaker) × (c : Breaker) × (before ≡ some b)
          × (after ≡ some c)
          × (answer_of outcome ≡ none))

  choose-IsKept :
      (v : Visit A) (before after : Option Breaker) (rest : Answer A)
      → IsKept v.attempt.outcome before after
      → choose after v rest ≡ choose before v rest
  choose-IsKept v before after rest (inl same) = ap (λ o. choose o v rest) same
  choose-IsKept v before after rest (inr (b, c, known, known', silent)) =
      ap (λ o. choose o v rest) known'
      ∙ skips c
      ∙ sym (skips b)
      ∙ ap (λ o. choose o v rest) (sym known)
    where
      no_answer : (state : CircuitState) → answer_when state v.attempt.outcome ≡ none
      no_answer opened = refl
      no_answer closed = silent
      no_answer half_open = silent

      skips : (d : Breaker) → choose (some d) v rest ≡ rest
      skips d = ap (λ o. or_else o rest) (no_answer (refresh v.looked d).state)

  pub first_answer-IsKept :
      (world : String → Visit A) (ps : List String) (before after : Dict String Breaker)
      → ((q : String) → IsKept (world q).attempt.outcome (lookup q before) (lookup q after))
      → first_answer world ps after ≡ first_answer world ps before
  unfolding first_answer
  first_answer-IsKept world [] before after kept = refl
  first_answer-IsKept world (p ∷ ps) before after kept =
      choose-IsKept (world p) (lookup p before) (lookup p after) _ (kept p)
      ∙ ap (choose (lookup p before) (world p)) (first_answer-IsKept world ps before after kept)

  pub keep_breaker-IsKept :
      (endpoint q : String) (world : String → Visit A) (b : Breaker) (o : Option Breaker)
      (breakers : Dict String Breaker)
      → lookup endpoint breakers ≡ some b
      → answer_of (world endpoint).attempt.outcome ≡ none
      → IsKept
          (world q).attempt.outcome
          (lookup q breakers)
          (lookup q (keep_breaker endpoint o breakers))
  unfolding keep_breaker
  keep_breaker-IsKept endpoint q world b none breakers known silent = inl refl
  keep_breaker-IsKept endpoint q world b (some c) breakers known silent =
      elim (Bool-cases (string_eq.beq endpoint q)) [
        | inr other ↦ inl (lookup-insert endpoint q c breakers ∙ rw other refl)
        | inl same ↦
            let here : endpoint ≡ q = (string_eq.beq_iff endpoint q).0 same in
            inr (
              b,
              c,
              ap (λ k. lookup k breakers) (sym here) ∙ known,
              lookup-insert endpoint q c breakers ∙ rw same refl,
              ap (λ k. answer_of (world k).attempt.outcome) (sym here) ∙ silent,
            )
      ]
