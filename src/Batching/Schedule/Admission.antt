-- ===== src/Batching/Schedule/Admission.antt =====
-- Step 1 of `schedule`: from queues that have no sequence in common with the running ones, the
-- admission loop returns, keeps the pool valid and the batch size within its bound.
use decentralized_llm.Base.{
  ℕ, ◌+◌, ◌≤◌, ◌<◌, ◌≡◌, refl, ◌∙◌, none, List, [], ◌∷◌, arith, length, leb, ltb, Bool-cases, inl,
  inr, if_ind, Result, ok, length-append,
}
use decentralized_llm.Base.Counts.{sign, count, count-append}
use decentralized_llm.Batching.Blocks.{num_blocks_for, blocks_needed}
use decentralized_llm.Batching.Blocks.Laws.{IsValid, needs, ensure_capacity-Grown}
use decentralized_llm.Batching.State.{
  total_tokens, Batcher, candidates_but, insert_id, preempt_to_free, arrives_before, sort_by,
}
use decentralized_llm.Batching.Sorting.{count-sort_by, insert_id_lem}
use decentralized_llm.Batching.Preemption.{Shrinks, Shrinks-refl, preempt_to_free-Shrinks}
use decentralized_llm.Batching.Schedule.{
  Admitting, admit_fitting, keep_waiting, admit_after, admit_one, admit_all, register_all, rebuild,
  admit,
}

-- What the loop keeps: `todo` are the sequences still to look at.
pub record Admits (start : Batcher) (todo : List ℕ) (a : Admitting) : Type 0 where
  pub valid : IsValid a.batcher.block_table
  pub capacity : a.batcher.max_batch_size ≡ start.max_batch_size
  pub budget : a.batcher.max_tokens_per_step ≡ start.max_tokens_per_step
  pub bound : length a.batcher.running_ids + length a.admitted ≤ start.max_batch_size
  pub split :
      (q : ℕ)
      → count q a.still_waiting + count q a.admitted + count q todo ≡ count q start.waiting_queue
  pub subset : (q : ℕ) → count q a.batcher.running_ids ≤ count q start.running_ids
  pub apart : (q : ℕ) → 1 ≤ count q todo → count q a.batcher.running_ids ≡ 0

-- The loop's body has returned, and the invariant holds.
record Returned (start : Batcher) (todo : List ℕ) (r : Result (Unit {0}) × Admitting) : Type 0 where
  next : Admitting
  returned : r ≡ (ok tt, next)
  admits : Admits start todo next

module _ (start : Batcher) (id : ℕ) (todo : List ℕ) where
  admit_fitting-Returned :
      (a : Admitting)
      → Admits start (id ∷ todo) a
      → needs a.batcher.block_table id (total_tokens (a.batcher.seqs id) + 1)
        ≤ length a.batcher.block_table.free_blocks
      → length a.batcher.running_ids + length a.admitted < start.max_batch_size
      → Returned start todo (admit_fitting a id)
  unfolding admit_fitting count
  admit_fitting-Returned a h room below =
      let (table, grown, g) =
        ensure_capacity-Grown a.batcher.block_table h.valid id
          (total_tokens (a.batcher.seqs id) + 1) room in
      rw (grown, admit_fitting)
        (record {
          next = _;
          returned = refl;
          admits = record {
            valid = g.valid;
            capacity = h.capacity;
            budget = h.budget;
            bound = omega (arith, length-append a.admitted (id ∷ []));
            split = λ q. omega (arith, h.split q, count-append q a.admitted (id ∷ []));
            subset = h.subset;
            apart = λ q within. h.apart q (omega arith);
          };
        })

  -- the sequence goes on waiting
  wait-Admits :
      (a : Admitting) (b' : Batcher) {candidates : List ℕ} {n k : ℕ}
      → Admits start (id ∷ todo) a
      → Shrinks candidates a.batcher b' n k
      → Admits start todo (keep_waiting (record a { batcher = b' }) id)
  unfolding count
  wait-Admits a b' h x = record {
    valid = x.valid;
    capacity = x.capacity ∙ h.capacity;
    budget = x.budget ∙ h.budget;
    bound = omega (arith, x.fewer, h.bound);
    split = λ q. omega (arith, h.split q, count-append q a.still_waiting (id ∷ []));
    subset = λ q. omega (arith, x.subset q, h.subset q);
    apart = λ q within. omega (arith, x.subset q, h.apart q (omega arith));
  }

  -- after the preemptions the sequence still has its own blocks
  preempted-Admits :
      (a : Admitting) (b' : Batcher) {candidates : List ℕ} {n k : ℕ}
      → Admits start (id ∷ todo) a
      → Shrinks candidates a.batcher b' n k
      → Admits start (id ∷ todo) (record a { batcher = b' })
  preempted-Admits a b' h x = record {
    valid = x.valid;
    capacity = x.capacity ∙ h.capacity;
    budget = x.budget ∙ h.budget;
    bound = omega (arith, x.fewer, h.bound);
    split = h.split;
    subset = λ q. omega (arith, x.subset q, h.subset q);
    apart = λ q within. omega (arith, x.subset q, h.apart q within);
  }

  preempted-room :
      (a : Admitting) (b' : Batcher) {k : ℕ}
      → Admits start (id ∷ todo) a
      → Shrinks a.batcher.running_ids a.batcher b' 0 k
      → needs a.batcher.block_table id (total_tokens (a.batcher.seqs id) + 1) ≤ k
      → needs b'.block_table id (total_tokens (b'.seqs id) + 1) ≤ length b'.block_table.free_blocks
  unfolding count blocks_needed num_blocks_for
  preempted-room a b' h x enough =
      rw (x.size, x.tokens id, x.others id (h.apart id (ground arith)))
        (omega (arith, x.gained, enough))

  admit_after-Returned :
      (a : Admitting)
      → Admits start (id ∷ todo) a
      → length a.batcher.running_ids + length a.admitted < start.max_batch_size
      → let extra = needs a.batcher.block_table id (total_tokens (a.batcher.seqs id) + 1) in
        Returned start todo (admit_after a id extra (preempt_to_free a.batcher extra none))
  unfolding admit_after candidates_but
  admit_after-Returned a h below =
      let extra = needs a.batcher.block_table id (total_tokens (a.batcher.seqs id) + 1) in
      let (freed, b') = preempt_to_free a.batcher extra none in
      let x = preempt_to_free-Shrinks a.batcher extra none h.valid in
      elim (Bool-cases (ltb freed extra)) [
        | inl short ↦
            rw (short, admit_after)
              (record { next = _; returned = refl; admits = wait-Admits a b' h x })
        | inr enough ↦
            rw (enough, admit_after)
              (admit_fitting-Returned (record a { batcher = b' }) (preempted-Admits a b' h x)
                (preempted-room a b' h x (ground arith)) (omega (arith, x.fewer)))
      ]

  admit_one-Returned :
      (a : Admitting) → Admits start (id ∷ todo) a → Returned start todo (admit_one a id)
  unfolding admit_one
  admit_one-Returned a h =
      let b = a.batcher in
      let extra = needs b.block_table id (total_tokens (b.seqs id) + 1) in
      if_ind (Returned start todo) (leb b.max_batch_size (length b.running_ids + length a.admitted))
        _ _
        (λ full. record {
          next = _;
          returned = refl;
          admits = wait-Admits a b h (Shrinks-refl [] b 0 h.valid);
        })
        (λ below.
          let room : length b.running_ids + length a.admitted < start.max_batch_size =
            ground (arith, h.capacity) in
          if_ind (Returned start todo) (ltb (length b.block_table.free_blocks) extra) _ _
            (λ short. admit_after-Returned a h room)
            (λ fits. admit_fitting-Returned a h (ground arith) room))

-- The loop over the queue returns, and looks at every sequence.
admit_all-Returned :
    (start : Batcher) (ids : List ℕ) (a : Admitting)
    → Admits start ids a
    → Returned start [] (admit_all ids (ok tt, a))
unfolding admit_all
admit_all-Returned start [] a h = record { next = a; returned = refl; admits = h }
admit_all-Returned start (id ∷ ids) a h =
    let one = admit_one-Returned start id ids a h in
    rw (one.returned, admit_all) (admit_all-Returned start ids one.next one.admits)

register_all_lem :
    (admitted ids : List ℕ) (q : ℕ)
    → (sign (count q (register_all admitted ids)) ≡ sign (count q admitted + count q ids))
      × (length (register_all admitted ids) ≤ length admitted + length ids)
unfolding register_all count
register_all_lem [] ids q = ground arith
register_all_lem (id ∷ admitted) ids q =
    ground (arith, register_all_lem admitted (insert_id id ids) q, insert_id_lem id ids q)

-- `b'` is `b` after the admission: the queue of `b` is shared out. Of a sequence that the admission
-- preempts nothing is said: the code drops it from the queues.
pub record Admitted (b b' : Batcher) : Type 0 where
  pub valid : IsValid b'.block_table
  pub capacity : b'.max_batch_size ≡ b.max_batch_size
  pub budget : b'.max_tokens_per_step ≡ b.max_tokens_per_step
  pub bound : length b'.running_ids ≤ b.max_batch_size
  pub unlost :
      (q : ℕ) → 1 ≤ count q b.waiting_queue → 1 ≤ count q b'.waiting_queue + count q b'.running_ids
  pub known :
      (q : ℕ) → 1 ≤ count q b'.running_ids → 1 ≤ count q b.waiting_queue + count q b.running_ids

-- what the scheduler relies on between two steps
pub record IsReady (b : Batcher) : Type 0 where
  pub valid : IsValid b.block_table
  pub bound : length b.running_ids ≤ b.max_batch_size
  pub apart : (q : ℕ) → 1 ≤ count q b.waiting_queue → count q b.running_ids ≡ 0

-- From a valid pool, at most max_batch_size running sequences and no sequence that both waits and
-- runs, the admission step returns with a valid pool and at most max_batch_size running sequences;
-- each sequence that waited waits or runs, and each that runs waited or ran before.
pub admit-Admitted :
    (b : Batcher) → IsReady b → (b' : Batcher) × (admit b ≡ (ok tt, b')) × Admitted b b'
unfolding admit count
admit-Admitted b h =
    let queue = sort_by (arrives_before b.seqs) b.waiting_queue in
    let sorted : (q : ℕ) → count q queue ≡ count q b.waiting_queue =
      count-sort_by (arrives_before b.seqs) b.waiting_queue in
    let loop =
      admit_all-Returned b queue (record { batcher = b; admitted = []; still_waiting = [] })
        (record {
          valid = h.valid;
          capacity = refl;
          budget = refl;
          bound = omega (arith, h.bound);
          split = λ q. omega (arith, sorted q);
          subset = λ q. omega arith;
          apart = λ q within. h.apart q (omega (arith, sorted q));
        }) in
    let a = loop.next in
    let x = loop.admits in
    rw (loop.returned, rebuild)
      (
        _,
        refl,
        record {
          valid = x.valid;
          capacity = x.capacity;
          budget = x.budget;
          bound = omega (arith, x.bound, (register_all_lem a.admitted a.batcher.running_ids 0).1);
          unlost = λ q within.
              ground (arith, x.split q, (register_all_lem a.admitted a.batcher.running_ids q).0);
          known = λ q within. ground (
            arith,
            x.split q,
            x.subset q,
            (register_all_lem a.admitted a.batcher.running_ids q).0,
          );
        },
      )
