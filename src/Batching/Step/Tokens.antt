-- ===== src/Batching/Step/Tokens.antt =====
-- What a call of `step` does to the sequences of its batch, and to the pool.
use decentralized_llm.Base.{
  ℕ, zero, suc, ◌+◌, ◌≤◌, ◌≡◌, ◌≢◌, refl, ap, ◌∙◌, some, List, [], ◌∷◌, ◌++◌, arith, length, true,
  ◌==◌, leb, if◌then◌else◌, get_elem?, ok, if_ind,
}
use decentralized_llm.Base.Counts.{count, count-get_elem?}
use decentralized_llm.Batching.Blocks.Laws.{IsValid, ensure_capacity-IsValid, free-Freed}
use decentralized_llm.Batching.State.{
  Stats, SequenceState, waiting, running, finished, preempted, Sequence, num_generated_tokens,
  Batcher, finish,
}
use decentralized_llm.Batching.Step.{append_token, finish_if_done, step_one, step_all, step}

-- a sequence after it has got a token
abbrev pub after_token : Sequence → (token : ℕ) → Sequence
after_token s token =
    let s' : Sequence = record s { generated_tokens = s.generated_tokens ++ token ∷ [] } in
    if leb s.max_tokens (num_generated_tokens s') then record s' { state = finished } else s'

finish_if_done-IsValid :
    (b : Batcher) (id : ℕ) → IsValid b.block_table → IsValid (finish_if_done b id).block_table
unfolding finish_if_done finish
finish_if_done-IsValid b id v =
    if_ind {A = Batcher} (λ b'. IsValid b'.block_table)
      (leb (b.seqs id).max_tokens (num_generated_tokens (b.seqs id))) _ _
      (λ done. (free-Freed b.block_table v id).1.valid) (λ going. v)

-- 1 for a running sequence
abbrev pub is_running : SequenceState → ℕ
is_running running = 1
is_running _ = 0

module _ (b : Batcher) (id token : ℕ) where
  step_one-IsValid : IsValid b.block_table → IsValid (step_one b id token).1.block_table
  unfolding step_one append_token
  step_one-IsValid v = go (b.seqs id).state refl
    where
      go : (s : SequenceState) → (b.seqs id).state ≡ s → IsValid (step_one b id token).1.block_table
      go running e =
          rw (e, step_one)
            (finish_if_done-IsValid (append_token b id token) id (
              ensure_capacity-IsValid b.block_table v id (
                length (b.seqs id).prompt_tokens
                + length ((b.seqs id).generated_tokens ++ token ∷ []))))
      go waiting e = rw (e, step_one) v
      go finished e = rw (e, step_one) v
      go preempted e = rw (e, step_one) v

  step_one-other : (q : ℕ) → q ≢ id → (step_one b id token).1.seqs q ≡ b.seqs q
  unfolding step_one append_token finish_if_done finish
  step_one-other q differ = ground arith

  step_one-token :
      (b.seqs id).state ≡ running
      → ((step_one b id token).0 ≡ 1)
        × ((step_one b id token).1.seqs id ≡ after_token (b.seqs id) token)
  unfolding step_one append_token finish_if_done finish
  step_one-token runs = ground arith

  step_one-count : (step_one b id token).0 ≡ is_running (b.seqs id).state
  unfolding step_one
  step_one-count = ground arith

  step_one-stats : (step_one b id token).1.stats ≡ b.stats
  unfolding step_one append_token finish_if_done finish
  step_one-stats = ground arith

-- how many of the sequences run
unfoldable pub running_in : Batcher → List ℕ → ℕ
running_in b [] = 0
running_in b (id ∷ ids) = is_running (b.seqs id).state + running_in b ids

running_in-same :
    (b b' : Batcher) (ids : List ℕ)
    → ((q : ℕ) → 1 ≤ count q ids → b'.seqs q ≡ b.seqs q)
    → running_in b' ids ≡ running_in b ids
unfolding running_in count
running_in-same b b' [] same = refl
running_in-same b b' (id ∷ ids) same =
    let rest = running_in-same b b' ids (λ q within. same q (omega arith)) in
    let first : b'.seqs id ≡ b.seqs id = same id (ground arith) in
    omega (arith, rest, ap (λ s. is_running s.state) first)

step_all-other :
    (b : Batcher) (ids tokens : List ℕ) (q : ℕ)
    → count q ids ≡ 0
    → (step_all b ids tokens).1.seqs q ≡ b.seqs q
unfolding step_all count
step_all-other b [] tokens q absent = refl
step_all-other b (id ∷ ids) [] q absent = refl
step_all-other b (id ∷ ids) (t ∷ tokens) q absent =
    step_all-other (step_one b id t).1 ids tokens q (omega arith)
    ∙ step_one-other b id t q (ground arith)

step_all-IsValid :
    (b : Batcher) (ids tokens : List ℕ)
    → IsValid b.block_table
    → IsValid (step_all b ids tokens).1.block_table
unfolding step_all
step_all-IsValid b [] tokens v = v
step_all-IsValid b (id ∷ ids) [] v = v
step_all-IsValid b (id ∷ ids) (t ∷ tokens) v =
    step_all-IsValid (step_one b id t).1 ids tokens (step_one-IsValid b id t v)

step_all-token :
    (b : Batcher) (ids tokens : List ℕ) (i q t : ℕ)
    → count q ids ≤ 1
    → get_elem? ids i ≡ some q
    → get_elem? tokens i ≡ some t
    → (b.seqs q).state ≡ running
    → (step_all b ids tokens).1.seqs q ≡ after_token (b.seqs q) t
unfolding step_all count
step_all-token b [] tokens i q t once at given runs = absurd (ground arith)
step_all-token b (id ∷ ids) [] i q t once at given runs = absurd (ground arith)
step_all-token b (id ∷ ids) (u ∷ tokens) zero q t once at given runs =
    let this : id ≡ q = ground arith in
    let token : u ≡ t = ground arith in
    rw⁻¹ (this, token)
      (step_all-other (step_one b id u).1 ids tokens id (ground arith)
        ∙ (step_one-token b id u (ap (λ x. (b.seqs x).state) this ∙ runs)).1)
step_all-token b (id ∷ ids) (u ∷ tokens) (suc i) q t once at given runs =
    let within = count-get_elem? ids i {b = q} at in
    let same = step_one-other b id u q (ground arith) in
    step_all-token (step_one b id u).1 ids tokens i q t (omega arith) at given
      (ap (λ s. s.state) same ∙ runs)
    ∙ ap (λ s. after_token s t) same

step_all-count :
    (b : Batcher) (ids tokens : List ℕ)
    → ((q : ℕ) → count q ids ≤ 1)
    → length ids ≡ length tokens
    → (step_all b ids tokens).0 ≡ running_in b ids
unfolding step_all running_in count
step_all-count b [] tokens once same = refl
step_all-count b (id ∷ ids) [] once same = absurd (omega arith)
step_all-count b (id ∷ ids) (t ∷ tokens) once same =
    let rest =
      step_all-count (step_one b id t).1 ids tokens (λ q. omega (arith, once q)) (omega arith) in
    let kept =
      running_in-same b (step_one b id t).1 ids
        (λ q within. step_one-other b id t q (ground (arith, once q))) in
    omega (arith, rest, kept, step_one-count b id t)

step_all-stats : (b : Batcher) (ids tokens : List ℕ) → (step_all b ids tokens).1.stats ≡ b.stats
unfolding step_all
step_all-stats b [] tokens = refl
step_all-stats b (id ∷ ids) [] = refl
step_all-stats b (id ∷ ids) (t ∷ tokens) =
    step_all-stats (step_one b id t).1 ids tokens ∙ step_one-stats b id t

-- what a call of `step` on a batch without repetition, with a token for each sequence, does
pub record Stepped (b : Batcher) (batch tokens : List ℕ) (b' : Batcher) : Type 0 where
  pub valid : IsValid b'.block_table
  pub token :
      (i q t : ℕ)
      → get_elem? batch i ≡ some q
      → get_elem? tokens i ≡ some t
      → (b.seqs q).state ≡ running
      → b'.seqs q ≡ after_token (b.seqs q) t
  pub other : (q : ℕ) → count q batch ≡ 0 → b'.seqs q ≡ b.seqs q
  pub counted : b'.stats.step_token_counts ≡ b.stats.step_token_counts ++ running_in b batch ∷ []

-- From a valid pool, and for a batch without repetition that has as many sequences as there are
-- tokens, step returns: the pool is valid; each sequence of the batch that runs has got its own
-- token and is finished once it has its maximum; sequences outside the batch are unchanged; and
-- the tokens recorded for the step are the running sequences of the batch.
pub step-Stepped :
    (b : Batcher) (batch tokens : List ℕ)
    → IsValid b.block_table
    → ((q : ℕ) → count q batch ≤ 1)
    → length batch ≡ length tokens
    → (b' : Batcher) × (step b batch tokens ≡ (ok tt, b')) × Stepped b batch tokens b'
unfolding step
step-Stepped b batch tokens v once same = rw same_length (
  _,
  refl,
  record {
    valid = step_all-IsValid b batch tokens v;
    token = λ i q t at given runs. step_all-token b batch tokens i q t (once q) at given runs;
    other = λ q absent. step_all-other b batch tokens q absent;
    counted =
        ap (λ (s : Stats). s.step_token_counts ++ (step_all b batch tokens).0 ∷ [])
          (step_all-stats b batch tokens)
        ∙ ap (λ n. b.stats.step_token_counts ++ n ∷ []) (step_all-count b batch tokens once same);
  },
)
  where
    same_length : (length batch == length tokens) ≡ true
    same_length = ground (arith, same)
