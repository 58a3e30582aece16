-- ===== src/Speculative.antt =====
-- node/speculative_decoder.py: `SpeculativeDecoder`, for one sequence. What torch computes is a
-- parameter: the token that the draft model samples, the acceptance test of a draft, the correction
-- token, the bonus token, and the token that the target model samples, each from the context.
mod Tests
pub mod Budget
use Prim.Native.Nat.{min}
use decentralized_llm.Base.{
  ℕ, zero, suc, ◌+◌, ◌-◌, Option, none, some, Bool, true, false, List, [], ◌∷◌, ◌++◌, ltb, ◌==◌,
  if◌then◌else◌, length, take, Result, ok, raise, runtime_error,
}

pub record DecodeStats : Type 0 where
  pub total_draft_tokens : ℕ
  pub accepted_tokens : ℕ
  pub rejected_tokens : ℕ
  pub correction_tokens : ℕ

abbrev pub no_stats : DecodeStats
no_stats = record {
  total_draft_tokens = 0;
  accepted_tokens = 0;
  rejected_tokens = 0;
  correction_tokens = 0;
}

-- `update`
unfoldable pub update_stats : (accepted rejected corrections : ℕ) → DecodeStats → DecodeStats
update_stats accepted rejected corrections s = record {
  total_draft_tokens = s.total_draft_tokens + (accepted + rejected);
  accepted_tokens = s.accepted_tokens + accepted;
  rejected_tokens = s.rejected_tokens + rejected;
  correction_tokens = s.correction_tokens + corrections;
}

-- what `verify_and_accept` returns
pub record Verdict : Type 0 where
  pub collected : List ℕ
  pub n_accepted : ℕ
  pub n_rejected : ℕ
  pub n_corrections : ℕ

pub record Models : Type 0 where
  pub draft_token : (context : List ℕ) → ℕ
  pub accepts : (context drafts : List ℕ) (i : ℕ) → Bool
  pub correction : (context drafts : List ℕ) (i : ℕ) → ℕ
  pub bonus : (context drafts : List ℕ) → ℕ
  pub target_token : (context : List ℕ) → ℕ
  pub eos_token_id : Option ℕ

-- the loop of `verify_and_accept` over the drafts that are left, from the place `i`
unfoldable pub accept_from : Models → (context drafts : List ℕ) (i : ℕ) (left : List ℕ) → Verdict
accept_from m context drafts i [] = record {
  collected = m.bonus context drafts ∷ [];
  n_accepted = 0;
  n_rejected = 0;
  n_corrections = 0;
}
accept_from m context drafts i (x ∷ left) =
    let rest = accept_from m context drafts (i + 1) left in
    if m.accepts context drafts i
    then record rest { collected = x ∷ rest.collected; n_accepted = rest.n_accepted + 1 }
    else record {
      collected = m.correction context drafts i ∷ [];
      n_accepted = 0;
      n_rejected = 1;
      n_corrections = 1;
    }

unfoldable pub verify_and_accept : Models → (context drafts : List ℕ) → Verdict
unfolding accept_from
verify_and_accept m context drafts = accept_from m context drafts 0 drafts

-- the loop of `generate_draft`
unfoldable pub generate_draft : Models → (k : ℕ) → (context : List ℕ) → List ℕ
generate_draft m zero context = []
generate_draft m (suc k) context =
    let token = m.draft_token context in token ∷ generate_draft m k (context ++ token ∷ [])

-- `(new_tokens == eos_token_id).any()`
unfoldable pub has_token : ℕ → List ℕ → Bool
has_token eos [] = false
has_token eos (x ∷ xs) = let rest = has_token eos xs in if x == eos then true else rest

unfoldable pub eos_hit : Models → List ℕ → Bool
unfolding has_token
eos_hit m tokens = elim m.eos_token_id [ none ↦ false | some eos ↦ has_token eos tokens ]

-- the loop of the fallback: the new tokens
unfoldable pub decode_vanilla : Models → (max_tokens : ℕ) → (context : List ℕ) → List ℕ
unfolding eos_hit
decode_vanilla m zero context = []
decode_vanilla m (suc left) context =
    let token = m.target_token context in
    let rest = decode_vanilla m left (context ++ token ∷ []) in
    if eos_hit m (token ∷ []) then token ∷ [] else token ∷ rest

-- one round of the speculative loop: the tokens kept, and the verdict
unfoldable pub decode_round : Models → (k budget_left : ℕ) → (context : List ℕ) → List ℕ × Verdict
unfolding verify_and_accept generate_draft
decode_round m k budget_left context =
    let verdict = verify_and_accept m context (generate_draft m k context) in
    (take budget_left verdict.collected, verdict)

-- the speculative loop, on fuel, with `left` tokens of the budget; a round without drafts raises,
-- since `torch.cat` has nothing to join
unfoldable pub decode_loop :
    Models
    → (draft_steps fuel left : ℕ) → (context : List ℕ) → DecodeStats
    → Option (Result (List ℕ × DecodeStats))
unfolding decode_round update_stats eos_hit
decode_loop m draft_steps zero left context stats =
    if ltb 0 left then none else some (ok ([], stats))
decode_loop m draft_steps (suc fuel) left context stats =
    let (kept, v) = decode_round m (min draft_steps left) left context in
    let stats' = update_stats v.n_accepted v.n_rejected v.n_corrections stats in
    let rest = decode_loop m draft_steps fuel (left - length kept) (context ++ kept) stats' in
    if ltb 0 left
    then if min draft_steps left == 0
      then some (raise runtime_error)
      else if eos_hit m kept
      then some (ok (kept, stats'))
      else elim rest [
        | none ↦ none
        | some (raise e) ↦ some (raise e)
        | some (ok (tokens, last)) ↦ some (ok (kept ++ tokens, last))
      ]
    else some (ok ([], stats))

-- `decode_speculative`, with a draft model or without; the budget is fuel enough
unfoldable pub decode_speculative :
    Models
    → (has_draft : Bool) → (max_tokens draft_steps : ℕ) → (input_ids : List ℕ)
    → Option (Result (List ℕ × DecodeStats))
unfolding decode_loop decode_vanilla
decode_speculative m has_draft max_tokens draft_steps input_ids =
    if has_draft
    then decode_loop m draft_steps max_tokens max_tokens input_ids no_stats
    else some (ok (decode_vanilla m max_tokens input_ids, no_stats))
