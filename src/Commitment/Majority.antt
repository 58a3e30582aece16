-- ===== src/Commitment/Majority.antt =====
-- The winner of the votes is a most frequent output hash.
use decentralized_llm.Base.{
  ℕ, suc, ◌+◌, ◌*◌, ◌≤◌, ◌<◌, ◌≡◌, refl, sym, ap, ◌∙◌, inl, inr, Option, none, some, List, [], ◌∷◌,
  arith, length, ltb, leb, if◌then◌else◌, if_ind, Bool-cases, subst,
}
use decentralized_llm.Base.Bytes.{bytes_beq, bytes_beq_iff, bytes_eq}
use decentralized_llm.Base.Dict.{Dict, lookup, insert, lookup-insert, IsDict, insert-IsDict}
use decentralized_llm.Commitment.{ComputeCommitment}
use decentralized_llm.Commitment.Votes.{
  one_more, count_votes, most_votes, Aggregated, output_hashes, outliers, aggregate_by, winner_of,
  aggregate_verifications,
}

-- how often a hash stands in the list
unfoldable pub supporters : List ℕ → List (List ℕ) → ℕ
supporters h [] = 0
supporters h (x ∷ xs) = if bytes_beq x h then suc (supporters h xs) else supporters h xs

-- the number of votes of a key
abbrev votes_of : Option ℕ → ℕ
votes_of none = 0
votes_of (some n) = n

one_more_lem : (o : Option ℕ) → one_more o ≡ suc (votes_of o)
unfolding one_more
one_more_lem none = refl
one_more_lem (some n) = omega arith

votes_of-count_votes :
    (h : List ℕ) (hs : List (List ℕ)) (votes : Dict (List ℕ) ℕ)
    → votes_of (lookup h (count_votes hs votes)) ≡ votes_of (lookup h votes) + supporters h hs
unfolding count_votes supporters
votes_of-count_votes h [] votes = omega arith
votes_of-count_votes h (x ∷ hs) votes = ground (
  arith,
  votes_of-count_votes h hs (insert x (one_more (lookup x votes)) votes),
  lookup-insert x h (one_more (lookup x votes)) votes,
  bytes_beq_iff x h,
  one_more_lem (lookup h votes),
)

count_votes-IsDict :
    (hs : List (List ℕ)) (votes : Dict (List ℕ) ℕ) → IsDict votes → IsDict (count_votes hs votes)
unfolding count_votes
count_votes-IsDict [] votes h = h
count_votes-IsDict (x ∷ hs) votes h =
    count_votes-IsDict hs _ (insert-IsDict x (one_more (lookup x votes)) votes h)

votes_of-cons :
    (h x : List ℕ) (n : ℕ) (votes : Dict (List ℕ) ℕ) (k : ℕ)
    → n ≤ k
    → votes_of (lookup h votes) ≤ k
    → votes_of (lookup h ((x, n) ∷ votes)) ≤ k
unfolding lookup
votes_of-cons h x n votes k here all =
    if_ind (λ o. votes_of o ≤ k) (bytes_beq x h) _ _ (λ e. here) (λ e. all)

lookup_first : (x : List ℕ) (n : ℕ) (votes : Dict (List ℕ) ℕ) → lookup x ((x, n) ∷ votes) ≡ some n
unfolding lookup
lookup_first x n votes = ground (arith, bytes_beq_iff x x)

lookup_later :
    (x h : List ℕ) (n m : ℕ) (votes : Dict (List ℕ) ℕ)
    → lookup x votes ≡ none
    → lookup h votes ≡ some m
    → lookup h ((x, n) ∷ votes) ≡ some m
unfolding lookup
lookup_later x h n m votes new found = elim (Bool-cases (bytes_beq x h)) [
  | inl same ↦ absurd (
      ground
        (arith, new, found, ap (λ k. lookup k votes) {x = x} {y = h} ((bytes_beq_iff x h).0 same)))
  | inr other ↦ rw other found
]

-- the best entry has at least as many votes as each, and is one of them or the one before
most_votes-best :
    (h : List ℕ) (best : List ℕ × ℕ) (votes : Dict (List ℕ) ℕ)
    → (best.1 ≤ (most_votes best votes).1) × (votes_of (lookup h votes) ≤ (most_votes best votes).1)
unfolding most_votes lookup
most_votes-best h best [] = (omega arith, omega arith)
most_votes-best h best ((x, n) ∷ votes) =
    if_ind
      (λ (b : List ℕ × ℕ).
        (best.1 ≤ (most_votes b votes).1)
        × (votes_of (if bytes_beq x h then some n else lookup h votes) ≤ (most_votes b votes).1))
      (ltb best.1 n) _ _
      (λ more. step (x, n) (most_votes-best h (x, n) votes) (ground arith) (omega arith))
      (λ less. step best (most_votes-best h best votes) (omega arith) (ground arith))
  where
    step :
        (b : List ℕ × ℕ)
        → (b.1 ≤ (most_votes b votes).1) × (votes_of (lookup h votes) ≤ (most_votes b votes).1)
        → best.1 ≤ b.1
        → n ≤ b.1
        → (best.1 ≤ (most_votes b votes).1)
          × (votes_of (if bytes_beq x h then some n else lookup h votes) ≤ (most_votes b votes).1)
    step b (over, all) before here =
        (omega arith, votes_of-cons h x n votes (most_votes b votes).1 (omega arith) all)

-- the best entry is one of the dictionary, if the one before is
most_votes-lookup :
    (all : Dict (List ℕ) ℕ) (best : List ℕ × ℕ) (votes : Dict (List ℕ) ℕ)
    → lookup best.0 all ≡ some best.1
    → ((h : List ℕ) (n : ℕ) → lookup h votes ≡ some n → lookup h all ≡ some n)
    → IsDict votes
    → lookup (most_votes best votes).0 all ≡ some (most_votes best votes).1
unfolding most_votes
most_votes-lookup all best [] known inside distinct = known
most_votes-lookup all best ((x, n) ∷ votes) known inside distinct =
    if_ind (λ (b : List ℕ × ℕ). lookup (most_votes b votes).0 all ≡ some (most_votes b votes).1)
      (ltb best.1 n) _ _
      (λ more.
        most_votes-lookup all (x, n) votes (inside x n (lookup_first x n votes))
          (λ h m found. inside h m (lookup_later x h n m votes distinct.0 found)) distinct.1)
      (λ less.
        most_votes-lookup all best votes known
          (λ h m found. inside h m (lookup_later x h n m votes distinct.0 found)) distinct.1)

length-outliers :
    (h : List ℕ) (cs : List ComputeCommitment)
    → length (outliers h cs) + supporters h (output_hashes cs) ≡ length cs
unfolding outliers supporters output_hashes
length-outliers h [] = refl
length-outliers h (c ∷ cs) = ground (arith, length-outliers h cs)

-- what aggregation promises for a majority hash `h`
abbrev pub IsMajority : (h : List ℕ) → List ComputeCommitment → Aggregated → Type 0
IsMajority h cs r =
    (r.agreeing ≡ supporters h (output_hashes cs))
    × (r.total ≡ length cs)
    × ((g : List ℕ) → supporters g (output_hashes cs) ≤ r.agreeing)
    × (r.outlier_nodes ≡ outliers h cs)
    × (length r.outlier_nodes + r.agreeing ≡ r.total)
    × (r.is_honest ≡ leb (2 * r.total) (3 * r.agreeing))

winner_of-IsMajority :
    (cs : List ComputeCommitment) (d : Dict (List ℕ) ℕ)
    → 0 < length cs
    → ((h : List ℕ) → votes_of (lookup h d) ≡ supporters h (output_hashes cs))
    → IsDict d
    → (h : List ℕ) × IsMajority h cs (aggregate_by (winner_of d) cs)
unfolding aggregate_by winner_of supporters output_hashes lookup
winner_of-IsMajority [] d some_commitment counted distinct = absurd (omega arith)
winner_of-IsMajority (c ∷ cs) [] some_commitment counted distinct =
    absurd (ground (arith, counted c.output_hash, bytes_beq_iff c.output_hash c.output_hash))
winner_of-IsMajority (c ∷ cs) (best ∷ votes) some_commitment counted distinct =
    let winner : List ℕ × ℕ = most_votes best votes in
    let known : lookup winner.0 (best ∷ votes) ≡ some winner.1 =
      most_votes-lookup (best ∷ votes) best votes (lookup_first best.0 best.1 votes)
        (λ h m found. lookup_later best.0 h best.1 m votes distinct.0 found) distinct.1 in
    let agreeing : winner.1 ≡ supporters winner.0 (output_hashes (c ∷ cs)) =
      ap votes_of (sym known) ∙ counted winner.0 in
    let bound : (g : List ℕ) → supporters g (output_hashes (c ∷ cs)) ≤ winner.1 = λ g.
      subst (λ k. k ≤ winner.1) (counted g)
        (votes_of-cons g best.0 best.1 votes winner.1 (most_votes-best g best votes).0
          (most_votes-best g best votes).1) in
    (
      winner.0,
      (
        agreeing,
        refl,
        bound,
        refl,
        omega (arith, agreeing, length-outliers winner.0 (c ∷ cs)),
        ground arith,
      ),
    )

-- With at least one commitment, aggregation finds an output hash that no other one outvotes: it
-- counts its commitments of all, lists the nodes of the others, and calls the result honest
-- exactly if they are at least two thirds.
pub aggregate_verifications-IsMajority :
    (c : ComputeCommitment) (cs : List ComputeCommitment)
    → (h : List ℕ) × IsMajority h (c ∷ cs) (aggregate_verifications (c ∷ cs))
unfolding aggregate_verifications lookup
aggregate_verifications-IsMajority c cs =
    winner_of-IsMajority (c ∷ cs) (count_votes (output_hashes (c ∷ cs)) []) (omega arith)
      (λ h. votes_of-count_votes h (output_hashes (c ∷ cs)) [] ∙ omega arith)
      (count_votes-IsDict (output_hashes (c ∷ cs)) [] tt)
