-- ===== src/Batching/Schedule/Bounds.antt =====
-- Steps 2 and 3 of `schedule`: after step 2 each running sequence has blocks for its next token.
use native.Mathlib.Decide.{dec_lt}
use Prim.Native.Nat.{min}
use decentralized_llm.Base.{
  ℕ, ◌+◌, ◌-◌, ◌*◌, ◌≤◌, ◌==◌, ◌≡◌, refl, ap, ◌∙◌, some, List, [], ◌∷◌, arith, length, leb, ltb,
  Bool-cases, inl, inr, if_ind, ok, length-take,
}
use decentralized_llm.Base.Counts.{hit, count, count-take-le}
use decentralized_llm.Batching.Blocks
use decentralized_llm.Batching.Blocks.{BlockTable, num_blocks_for, blocks_needed}
use decentralized_llm.Batching.Blocks.Laws.{IsValid, Grown, needs, allocate-Grown, allocate_refused}
use decentralized_llm.Batching.State.{
  total_tokens, Batcher, preempt, candidates_but, preempt_to_free, arrives_before, sort_by,
}
use decentralized_llm.Batching.Sorting.{count-sort_by, length-sort_by, remove_id_lem}
use decentralized_llm.Batching.Preemption.{Shrinks, preempt-Shrinks, preempt_to_free-Shrinks}
use decentralized_llm.Batching.Schedule.{
  grow_with, grow_after, grow_one, grow_all, select_batch, schedule,
}
use decentralized_llm.Batching.Schedule.Admission.{IsReady, admit-Admitted}

-- the blocks that a sequence lacks for its next token
abbrev pub lacks : Batcher → ℕ → ℕ
lacks b q = needs b.block_table q (total_tokens (b.seqs q) + 1)

-- `b'` is `b` after step 2 for the sequences `ids`.
pub record Grows (ids : List ℕ) (b b' : Batcher) : Type 0 where
  pub valid : IsValid b'.block_table
  pub capacity : b'.max_batch_size ≡ b.max_batch_size
  pub budget : b'.max_tokens_per_step ≡ b.max_tokens_per_step
  pub subset : (q : ℕ) → count q b'.running_ids ≤ count q b.running_ids
  pub fewer : length b'.running_ids ≤ length b.running_ids
  pub own : (q : ℕ) → 1 ≤ count q ids → 1 ≤ count q b'.running_ids → lacks b' q ≡ 0
  pub rest : (q : ℕ) → 1 ≤ count q b'.running_ids → lacks b' q ≤ lacks b q

-- what a sequence lacks, by the block size and its own blocks
needs-same :
    (t t' : BlockTable) (q tokens n : ℕ)
    → t'.block_size ≡ t.block_size
    → num_blocks_for t' q ≡ num_blocks_for t q + n
    → needs t' q tokens ≡ needs t q tokens - n
unfolding num_blocks_for blocks_needed
needs-same t t' q tokens n same own = rw (same, own) (omega arith)

Grown-needs :
    (t t' : BlockTable) (s n q tokens : ℕ)
    → Grown t t' s n
    → needs t' q tokens ≤ needs t q tokens - n * hit q s
Grown-needs t t' s n q tokens g = elim (Bool-cases (q == s)) [
  | inl same ↦
      let e : q ≡ s = ground arith in
      rw (e) (ground (arith, needs-same t t' s tokens n g.size g.own))
  | inr differ ↦
      ground (arith, needs-same t t' q tokens 0 g.size (omega (arith, g.others q (ground arith))))
]

-- the blocks granted are those that the sequence lacked
Grown-Grows :
    (id : ℕ) (b : Batcher) (table : BlockTable) (extra : ℕ)
    → extra ≡ lacks b id
    → Grown b.block_table table id extra
    → Grows (id ∷ []) b (record b { block_table = table })
unfolding count
Grown-Grows id b table extra e g = record {
  valid = g.valid;
  capacity = refl;
  budget = refl;
  subset = λ q. omega arith;
  fewer = omega arith;
  own = λ q within there.
      ground (arith, Grown-needs b.block_table table id extra q (total_tokens (b.seqs q) + 1) g);
  rest = λ q there.
      omega (arith, Grown-needs b.block_table table id extra q (total_tokens (b.seqs q) + 1) g);
}

after-lacks :
    {candidates : List ℕ} (b c : Batcher) (q : ℕ) {k n : ℕ}
    → Shrinks candidates b c 0 k
    → 1 ≤ count q c.running_ids
    → n ≤ lacks c q
    → n ≤ lacks b q
after-lacks b c q x there h =
    let same =
      needs-same b.block_table c.block_table q (total_tokens (b.seqs q) + 1) 0 x.size
        (omega (arith, x.kept q there)) in
    omega (arith, h, same, ap (λ n. needs c.block_table q (n + 1)) (x.tokens q))

module _ (id : ℕ) where
  -- a sequence that gives up its place
  Grows-preempt : (b : Batcher) → IsValid b.block_table → Grows (id ∷ []) b (preempt b id)
  unfolding preempt count num_blocks_for blocks_needed
  Grows-preempt b v =
      let x = preempt-Shrinks b id 0 v in
      record {
        valid = x.valid;
        capacity = refl;
        budget = refl;
        subset = x.subset;
        fewer = x.fewer;
        own = λ q within there. absurd (ground (arith, (remove_id_lem id b.running_ids id).1));
        rest = λ q there. rw (x.kept q there, x.tokens q) (omega arith);
      }

  -- the allocation of step 2 and its handler
  grow_with-Grows :
      (b : Batcher) (extra : ℕ)
      → IsValid b.block_table
      → extra ≡ lacks b id
      → Grows (id ∷ []) b (grow_with b id (Blocks.allocate b.block_table id extra))
  unfolding grow_with count num_blocks_for blocks_needed
  grow_with-Grows b extra v e = elim (dec_lt (length b.block_table.free_blocks) extra) [
    | yes short ↦
        rw (allocate_refused b.block_table v id extra short, grow_with) (Grows-preempt b v)
    | no room ↦
        let (blocks, table, returned, g) = allocate-Grown b.block_table v id extra (omega arith) in
        rw (returned, grow_with) (Grown-Grows id b table extra e g)
  ]

  Grows-after :
      {candidates : List ℕ} (b c d : Batcher) {k : ℕ}
      → Shrinks candidates b c 0 k
      → Grows (id ∷ []) c d
      → Grows (id ∷ []) b d
  Grows-after b c d x y = record {
    valid = y.valid;
    capacity = y.capacity ∙ x.capacity;
    budget = y.budget ∙ x.budget;
    subset = λ q. omega (arith, x.subset q, y.subset q);
    fewer = omega (arith, x.fewer, y.fewer);
    own = y.own;
    rest = λ q there. after-lacks b c q x (omega (arith, y.subset q)) (y.rest q there);
  }

  preempted-lacks :
      (b c : Batcher) {k : ℕ}
      → Shrinks (candidates_but (some id) b.running_ids) b c 0 k
      → lacks c id ≡ lacks b id
  unfolding candidates_but
  preempted-lacks b c x =
      let own = x.others id (remove_id_lem id b.running_ids id).1 in
      let same =
        needs-same b.block_table c.block_table id (total_tokens (b.seqs id) + 1) 0 x.size
          (omega (arith, own)) in
      omega (arith, same, ap (λ n. needs c.block_table id (n + 1)) (x.tokens id))

  grow_after-Grows :
      (b : Batcher) (extra : ℕ)
      → IsValid b.block_table
      → extra ≡ lacks b id
      → Grows (id ∷ []) b (grow_after id extra (preempt_to_free b extra (some id)))
  unfolding grow_after
  grow_after-Grows b extra v e =
      let (freed, c) = preempt_to_free b extra (some id) in
      let x = preempt_to_free-Shrinks b extra (some id) v in
      if_ind (Grows (id ∷ []) b) (ltb freed extra) _ _
        (λ short. Grows-after b c _ x (Grows-preempt c x.valid))
        (λ enough.
          Grows-after b c _ x
            (grow_with-Grows c extra x.valid (omega (arith, preempted-lacks b c x))))

  grow_one-Grows : (b : Batcher) → IsValid b.block_table → Grows (id ∷ []) b (grow_one b id)
  unfolding grow_one count
  grow_one-Grows b v =
      let needed = blocks_needed b.block_table (total_tokens (b.seqs id) + 1) in
      let have = num_blocks_for b.block_table id in
      if_ind (Grows (id ∷ []) b) (leb needed have) _ _
        (λ enough. record {
          valid = v;
          capacity = refl;
          budget = refl;
          subset = λ q. omega arith;
          fewer = omega arith;
          own = λ q within there. let e : q ≡ id = ground arith in rw (e) (ground arith);
          rest = λ q there. omega arith;
        })
        (λ more.
          if_ind (Grows (id ∷ []) b) (ltb (length b.block_table.free_blocks) (needed - have)) _ _
            (λ short. grow_after-Grows b (needed - have) v refl)
            (λ fits. grow_with-Grows b (needed - have) v refl))

-- The loop of step 2.
grow_all-Grows : (ids : List ℕ) (b : Batcher) → IsValid b.block_table → Grows ids b (grow_all ids b)
unfolding grow_all count
grow_all-Grows [] b v = record {
  valid = v;
  capacity = refl;
  budget = refl;
  subset = λ q. omega arith;
  fewer = omega arith;
  own = λ q within there. absurd (omega arith);
  rest = λ q there. omega arith;
}
grow_all-Grows (id ∷ ids) b v =
    let x = grow_one-Grows id b v in
    let y = grow_all-Grows ids (grow_one b id) x.valid in
    record {
      valid = y.valid;
      capacity = y.capacity ∙ x.capacity;
      budget = y.budget ∙ x.budget;
      subset = λ q. omega (arith, x.subset q, y.subset q);
      fewer = omega (arith, x.fewer, y.fewer);
      own = λ q within there. elim (Bool-cases (q == id)) [
        | inl same ↦
            omega (arith, x.own q (ground arith) (omega (arith, y.subset q)), y.rest q there)
        | inr differ ↦ y.own q (ground arith) there
      ];
      rest = λ q there. omega (arith, x.rest q (omega (arith, y.subset q)), y.rest q there);
    }

-- what a call of `schedule` promises of the batch and of the object
pub record Scheduled (b : Batcher) (batch : List ℕ) (b' : Batcher) : Type 0 where
  pub valid : IsValid b'.block_table
  pub bound : length b'.running_ids ≤ b.max_batch_size
  pub size : length batch ≡ min b.max_tokens_per_step (length b'.running_ids)
  pub run : (q : ℕ) → count q batch ≤ count q b'.running_ids
  pub room : (q : ℕ) → 1 ≤ count q b'.running_ids → lacks b' q ≡ 0
  pub known :
      (q : ℕ) → 1 ≤ count q b'.running_ids → 1 ≤ count q b.waiting_queue + count q b.running_ids

-- From a valid pool, at most max_batch_size running sequences and no sequence that both waits and
-- runs, schedule returns a batch: the pool is valid, at most max_batch_size sequences run, the
-- batch has as many as the token budget admits, each of them runs, every running sequence has the
-- blocks for its next token, and it was waiting or running before.
pub schedule-Scheduled :
    (now : ℕ) (b : Batcher)
    → IsReady b
    → (batch : List ℕ) × (b' : Batcher) × (schedule now b ≡ (ok batch, b')) × Scheduled b batch b'
unfolding schedule select_batch
schedule-Scheduled now b h =
    let (c, returned, x) = admit-Admitted b h in
    let d = grow_all c.running_ids c in
    let y = grow_all-Grows c.running_ids c x.valid in
    let sorted = sort_by (arrives_before d.seqs) d.running_ids in
    rw (returned, schedule)
      (
        _,
        _,
        refl,
        record {
          valid = y.valid;
          bound = omega (arith, x.bound, y.fewer);
          size = omega (
            arith,
            length-take d.max_tokens_per_step sorted,
            length-sort_by (arrives_before d.seqs) d.running_ids,
            x.budget,
            y.budget,
          );
          run = λ q. omega (
            arith,
            count-take-le d.max_tokens_per_step sorted q,
            count-sort_by (arrives_before d.seqs) d.running_ids q,
          );
          room = λ q there. y.own q (omega (arith, y.subset q)) there;
          known = λ q there. x.known q (omega (arith, y.subset q));
        },
      )
