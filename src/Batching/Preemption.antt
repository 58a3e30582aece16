-- ===== src/Batching/Preemption.antt =====
-- What the preemptions of `_preempt_to_free` do to the pool and to the running sequences.
use decentralized_llm.Base.{
  ℕ, ◌+◌, ◌≤◌, ◌≡◌, refl, ◌∙◌, Option, List, [], ◌∷◌, arith, length, leb, if_ind,
}
use decentralized_llm.Base.Counts.{count}
use decentralized_llm.Batching.Blocks.{num_blocks_for}
use decentralized_llm.Batching.Blocks.Laws.{IsValid, free-Freed}
use decentralized_llm.Batching.State.{
  total_tokens, Batcher, preempt, preempt_loop, preempt_to_free, candidates_but, sort_by,
  yields_before,
}
use decentralized_llm.Batching.Sorting.{remove_id_lem, count-sort_by}

-- `b'` is `b` with some of the candidates preempted, and `freed' - freed` blocks given back.
pub record Shrinks (candidates : List ℕ) (b b' : Batcher) (freed freed' : ℕ) : Type 0 where
  pub valid : IsValid b'.block_table
  pub size : b'.block_table.block_size ≡ b.block_table.block_size
  pub capacity : b'.max_batch_size ≡ b.max_batch_size
  pub budget : b'.max_tokens_per_step ≡ b.max_tokens_per_step
  pub subset : (q : ℕ) → count q b'.running_ids ≤ count q b.running_ids
  pub fewer : length b'.running_ids ≤ length b.running_ids
  pub gained : length b.block_table.free_blocks + freed' ≤ length b'.block_table.free_blocks + freed
  pub others :
      (q : ℕ)
      → count q candidates ≡ 0
      → num_blocks_for b'.block_table q ≡ num_blocks_for b.block_table q
  pub kept :
      (q : ℕ)
      → 1 ≤ count q b'.running_ids
      → num_blocks_for b'.block_table q ≡ num_blocks_for b.block_table q
  pub tokens : (q : ℕ) → total_tokens (b'.seqs q) ≡ total_tokens (b.seqs q)

-- One preemption gives back the blocks of its sequence.
pub preempt-Shrinks :
    (b : Batcher) (id freed : ℕ)
    → IsValid b.block_table
    → Shrinks (id ∷ []) b (preempt b id) freed (freed + num_blocks_for b.block_table id)
unfolding preempt count
preempt-Shrinks b id freed v =
    let after = (free-Freed b.block_table v id).1 in
    record {
      valid = after.valid;
      size = after.size;
      capacity = refl;
      budget = refl;
      subset = λ q. (remove_id_lem id b.running_ids q).0;
      fewer = (remove_id_lem id b.running_ids id).2;
      gained = omega (arith, after.returned);
      others = λ q ne. after.others q (ground arith);
      kept = λ q within. after.others q (ground (arith, (remove_id_lem id b.running_ids id).1));
      tokens = λ q. ground arith;
    }

pub Shrinks-refl :
    (candidates : List ℕ) (b : Batcher) (freed : ℕ)
    → IsValid b.block_table
    → Shrinks candidates b b freed freed
Shrinks-refl candidates b freed v = record {
  valid = v;
  size = refl;
  capacity = refl;
  budget = refl;
  subset = λ q. omega arith;
  fewer = omega arith;
  gained = omega arith;
  others = λ q ne. refl;
  kept = λ q within. refl;
  tokens = λ q. refl;
}

Shrinks-cons :
    (id : ℕ) (candidates : List ℕ) {b c d : Batcher} {m n k : ℕ}
    → Shrinks (id ∷ []) b c m n
    → Shrinks candidates c d n k
    → Shrinks (id ∷ candidates) b d m k
unfolding count
Shrinks-cons id candidates x y = record {
  valid = y.valid;
  size = y.size ∙ x.size;
  capacity = y.capacity ∙ x.capacity;
  budget = y.budget ∙ x.budget;
  subset = λ q. omega (arith, x.subset q, y.subset q);
  fewer = omega (arith, x.fewer, y.fewer);
  gained = omega (arith, x.gained, y.gained);
  others = λ q ne. y.others q (omega arith) ∙ x.others q (omega arith);
  kept = λ q within. y.kept q within ∙ x.kept q (omega (arith, y.subset q));
  tokens = λ q. y.tokens q ∙ x.tokens q;
}

-- The loop over the candidates.
preempt_loop-Shrinks :
    (target freed : ℕ) (candidates : List ℕ) (b : Batcher)
    → IsValid b.block_table
    → let (freed', b') = preempt_loop target freed candidates b in
      Shrinks candidates b b' freed freed'
unfolding preempt_loop
preempt_loop-Shrinks target freed [] b v = Shrinks-refl [] b freed v
preempt_loop-Shrinks target freed (id ∷ candidates) b v =
    let freed' = freed + num_blocks_for b.block_table id in
    let one = preempt-Shrinks b id freed v in
    if_ind Done (leb target freed) (freed, b) (preempt_loop target freed' candidates (preempt b id))
      (λ _. Shrinks-refl (id ∷ candidates) b freed v)
      (λ _.
        Shrinks-cons id candidates one
          (preempt_loop-Shrinks target freed' candidates (preempt b id) one.valid))
  where
    Done : ℕ × Batcher → Type 0
    Done (n, b') = Shrinks (id ∷ candidates) b b' freed n

-- `_preempt_to_free` reports at most what it gave back, and touches no excluded sequence and none
-- that does not run.
pub preempt_to_free-Shrinks :
    (b : Batcher) (target : ℕ) (exclude : Option ℕ)
    → IsValid b.block_table
    → let (freed', b') = preempt_to_free b target exclude in
      Shrinks (candidates_but exclude b.running_ids) b b' 0 freed'
unfolding preempt_to_free
preempt_to_free-Shrinks b target exclude v =
    let chosen = candidates_but exclude b.running_ids in
    let sorted = sort_by (yields_before b.seqs) chosen in
    let loop = preempt_loop-Shrinks target 0 sorted b v in
    record {
      valid = loop.valid;
      size = loop.size;
      capacity = loop.capacity;
      budget = loop.budget;
      subset = loop.subset;
      fewer = loop.fewer;
      gained = loop.gained;
      others = λ q ne. loop.others q (count-sort_by (yields_before b.seqs) chosen q ∙ ne);
      kept = loop.kept;
      tokens = loop.tokens;
    }
