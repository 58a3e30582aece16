-- ===== src/Batching/Step.antt =====
-- `step` of node/continuous_batcher.py.
pub mod Tokens
use decentralized_llm.Base.{
  ℕ, zero, suc, ◌+◌, List, [], ◌∷◌, ◌++◌, leb, ◌==◌, if◌then◌else◌, length, Result, ok, raise,
  value_error,
}
use decentralized_llm.Base.Counts.{update}
use decentralized_llm.Batching.Blocks.{ensure_capacity}
use decentralized_llm.Batching.State.{
  SequenceState, running, Sequence, num_generated_tokens, total_tokens, Batcher, finish,
}

-- `seq.generated_tokens.append(token_id)`, and the best-effort growth
unfoldable pub append_token : Batcher → ℕ → (token_id : ℕ) → Batcher
unfolding ensure_capacity
append_token b id token_id =
    let s = b.seqs id in
    let s' : Sequence = record s { generated_tokens = s.generated_tokens ++ token_id ∷ [] } in
    record b {
      seqs = update b.seqs id s';
      block_table = (ensure_capacity b.block_table id (total_tokens s')).1;
    }

unfoldable pub finish_if_done : Batcher → ℕ → Batcher
unfolding finish
finish_if_done b id =
    if leb (b.seqs id).max_tokens (num_generated_tokens (b.seqs id)) then finish b id else b

-- the body of the loop: what it adds to `tokens_this_step`, and the object
unfoldable pub step_one : Batcher → ℕ → (token_id : ℕ) → ℕ × Batcher
unfolding append_token finish_if_done
step_one b id token_id = elim (b.seqs id).state [
  | running ↦ (1, finish_if_done (append_token b id token_id) id)
  | _ ↦ (0, b)
]

unfoldable pub step_all : Batcher → List ℕ → List ℕ → ℕ × Batcher
unfolding step_one
step_all b [] tokens = (0, b)
step_all b (id ∷ ids) [] = (0, b)
step_all b (id ∷ ids) (token ∷ tokens) =
    let (n, b') = step_one b id token in let (m, b'') = step_all b' ids tokens in (n + m, b'')

unfoldable pub step : Batcher → (batch generated_token_ids : List ℕ) → Result (Unit {0}) × Batcher
unfolding step_all
step b batch generated_token_ids =
    if length batch == length generated_token_ids
    then (let (tokens_this_step, b') = step_all b batch generated_token_ids in
        (
          ok tt,
          record b' {
            stats = record b'.stats {
              total_tokens_generated = b'.stats.total_tokens_generated + tokens_this_step;
              step_token_counts = b'.stats.step_token_counts ++ tokens_this_step ∷ [];
            };
          },
        ))
    else (raise value_error, b)
