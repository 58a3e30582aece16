-- ===== src/Commitment/Votes.antt =====
-- node/zk_verifier.py, `InferenceVerifier.aggregate_verifications`.
use decentralized_llm.Base.{
  ℕ, ◌+◌, ◌*◌, Option, none, some, Bool, false, ◌&&◌, List, [], ◌∷◌, ltb, leb, if◌then◌else◌,
  length,
}
use decentralized_llm.Base.Bytes.{bytes_beq, bytes_eq}
use decentralized_llm.Base.Dict.{Dict, lookup, insert}
use decentralized_llm.Commitment.{ComputeCommitment}

-- `vote_counts.get(h, 0) + 1`
unfoldable pub one_more : Option ℕ → ℕ
one_more none = 1
one_more (some n) = n + 1

-- the loop of the counts, from those of the items before
unfoldable pub count_votes : List (List ℕ) → Dict (List ℕ) ℕ → Dict (List ℕ) ℕ
unfolding insert lookup one_more
count_votes [] votes = votes
count_votes (h ∷ hs) votes = count_votes hs (insert h (one_more (lookup h votes)) votes)

-- `max` by the counts, the first of equals: `best` is the best key before
unfoldable pub most_votes : (best : List ℕ × ℕ) → Dict (List ℕ) ℕ → List ℕ × ℕ
most_votes best [] = best
most_votes best ((h, n) ∷ votes) = most_votes (if ltb best.1 n then (h, n) else best) votes

pub record Aggregated : Type 0 where
  -- the numerator and the denominator of `consensus_score`
  pub agreeing : ℕ
  pub total : ℕ
  pub outlier_nodes : List (List ℕ)
  pub is_honest : Bool

unfoldable pub output_hashes : List ComputeCommitment → List (List ℕ)
output_hashes [] = []
output_hashes (c ∷ cs) = c.output_hash ∷ output_hashes cs

unfoldable pub outliers : (majority_hash : List ℕ) → List ComputeCommitment → List (List ℕ)
outliers majority_hash [] = []
outliers majority_hash (c ∷ cs) =
    if bytes_beq c.output_hash majority_hash
    then outliers majority_hash cs
    else c.node_id ∷ outliers majority_hash cs

-- the result for a winner; the quotient is compared with 2 / 3 by products
unfoldable pub aggregate_by : (winner : Option (List ℕ × ℕ)) → List ComputeCommitment → Aggregated
unfolding outliers
aggregate_by none cs = record { agreeing = 0; total = 1; outlier_nodes = []; is_honest = false }
aggregate_by (some (majority_hash, majority_count)) cs = record {
  agreeing = majority_count;
  total = length cs;
  outlier_nodes = outliers majority_hash cs;
  is_honest = leb (2 * length cs) (3 * majority_count) && ltb 0 (length cs);
}

unfoldable pub winner_of : Dict (List ℕ) ℕ → Option (List ℕ × ℕ)
unfolding most_votes
winner_of [] = none
winner_of (best ∷ votes) = some (most_votes best votes)

unfoldable pub aggregate_verifications : List ComputeCommitment → Aggregated
unfolding aggregate_by winner_of count_votes output_hashes
aggregate_verifications cs = aggregate_by (winner_of (count_votes (output_hashes cs) [])) cs
