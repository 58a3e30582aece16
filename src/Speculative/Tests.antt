-- ===== src/Speculative/Tests.antt =====
-- A draft model that counts up, and a target that accepts the first draft of a round.
use decentralized_llm.Base.{◌≡◌, refl, arith, some, [], ◌∷◌, length, ◌==◌, ok, true}
use decentralized_llm.Speculative.{Models, no_stats, accept_from, decode_loop, decode_speculative}
use decentralized_llm.Speculative.Budget.{
  Judged, accept_from-counts, Decoded, decode_speculative-Decoded,
}

abbrev models : Models
models = record {
  draft_token = λ context. length context;
  accepts = λ context drafts i. i == 0;
  correction = λ context drafts i. 50;
  bonus = λ context drafts. 60;
  target_token = λ context. length context;
  eos_token_id = some 1;
}

-- the end token comes first in the round, and the round's other token is kept
goes_past_end :
    decode_loop models 2 4 4 (9 ∷ []) no_stats
    ≡ some (
        ok (
          1 ∷ 50 ∷ [],
          record {
            total_draft_tokens = 2;
            accepted_tokens = 1;
            rejected_tokens = 1;
            correction_tokens = 1;
          },
        ))
unfolding decode_loop
goes_past_end = refl

accept_from-counts_example :
    Judged (5 ∷ 6 ∷ []) (accept_from models (9 ∷ []) (5 ∷ 6 ∷ []) 0 (5 ∷ 6 ∷ []))
accept_from-counts_example = accept_from-counts models (9 ∷ []) (5 ∷ 6 ∷ []) 0 (5 ∷ 6 ∷ [])

decode_speculative-Decoded_example : Decoded models 4 (decode_speculative models true 4 2 (9 ∷ []))
decode_speculative-Decoded_example =
    decode_speculative-Decoded models true 4 2 (9 ∷ []) (omega arith)
