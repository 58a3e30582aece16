-- ===== src/Jobs/Prices.antt =====
-- Runs where different jobs have different payments: no job is lost, and the polls do not end.
use decentralized_llm.Base.{
  ℕ, suc, ◌≤◌, ◌<◌, ◌≡◌, refl, ap, ◌∙◌, List, [], ◌∷◌, arith, length, if_ind, Result, ok, raise,
  true, false, ◌==◌, if◌then◌else◌,
}
use decentralized_llm.Base.Dict.{nat_eq, contains, insert}
use decentralized_llm.Jobs.Heap.{OpenJob, heappush, Popped, empty, popped, dropped, heappop}
use decentralized_llm.Jobs.Heap.Tally.{
  tally, tally_cons, tally-heappush, tally_popped, heappop-tally,
}
use decentralized_llm.Jobs.Heap.Ties.{payment, AreDistinct, heappush-ok, IsTaken, heappop-IsTaken}
use decentralized_llm.Jobs.{Node, put_after, enqueue, poll, get_after, start_next, finish}
use decentralized_llm.Jobs.Once.{
  times, IsOnce, enqueue-marked, enqueue-IsOnce, start_next-IsOnce, finish-IsOnce,
}

put_after-polling :
    (n : Node) (r : Result (Unit {0}) × List OpenJob)
    → r.0 ≡ ok tt
    → (put_after n r).polling ≡ n.polling
unfolding put_after
put_after-polling n (ok _, heap) fine = refl
put_after-polling n (raise e, heap) fine = absurd (ground (arith, fine))

get_after-lost :
    (n : Node) (taken : Popped)
    → IsTaken n.job_queue taken
    → ((get_after n taken).lost ≡ n.lost)
      × (0 < length n.job_queue → length (get_after n taken).handled ≡ suc (length n.handled))
unfolding get_after
get_after-lost n empty h = (refl, λ some_job. absurd (omega (arith, h, some_job)))
get_after-lost n (popped job heap) h = (refl, λ some_job. refl)
get_after-lost n (dropped e job heap) h = absurd h

module _ (price : ℕ → ℕ) (apart : (i j : ℕ) → price i ≡ price j → i ≡ j) where
  unfoldable pub mispriced : OpenJob → ℕ
  mispriced job = if job.payment_amount == price job.job_id then 0 else 1

  -- each job pays its price
  abbrev pub ArePriced : List OpenJob → Type 0
  ArePriced jobs = tally mispriced 1 jobs ≡ 0

  payment-none :
      (id : ℕ) (jobs : List OpenJob)
      → ArePriced jobs
      → times id jobs ≡ 0
      → tally payment (price id) jobs ≡ 0
  unfolding tally mispriced
  payment-none id [] p h = refl
  payment-none id (x ∷ jobs) p h = ground (arith, apart x.job_id id, payment-none id jobs)

  once-AreDistinct :
      (jobs : List OpenJob) → ArePriced jobs → ((id : ℕ) → times id jobs ≤ 1) → AreDistinct jobs
  unfolding tally mispriced
  once-AreDistinct [] p once value = omega arith
  once-AreDistinct (x ∷ jobs) p once value =
      let same_id = once x.job_id in
      ground (
        arith,
        once x.job_id,
        payment-none x.job_id jobs,
        once-AreDistinct jobs (ground arith) (λ id. ground (arith, once id)) value,
      )

  -- the node is sound: nothing is lost, the polls go on, and queued jobs pay their prices
  pub record IsSound (n : Node) : Type 0 where
    pub once : IsOnce n
    pub priced : ArePriced n.job_queue
    pub lost : n.lost ≡ []
    pub polling : n.polling ≡ true

  queue-AreDistinct : (n : Node) → IsSound n → AreDistinct n.job_queue
  queue-AreDistinct n v = once-AreDistinct n.job_queue v.priced (λ id. ground (arith, v.once id))

  put_after-lost :
      (n : Node) (r : Result (Unit {0}) × List OpenJob)
      → ((put_after n r).lost ≡ n.lost) × ((put_after n r).job_queue ≡ r.1)
  unfolding put_after
  put_after-lost n (ok _, heap) = (refl, refl)
  put_after-lost n (raise e, heap) = (refl, refl)

  one-AreDistinct :
      (job : OpenJob) (n : Node)
      → ArePriced (job ∷ [])
      → IsSound n
      → contains job.job_id n.active_jobs ≡ false
      → AreDistinct (job ∷ n.job_queue)
  one-AreDistinct job n pays v new =
      once-AreDistinct (job ∷ n.job_queue)
        (omega (arith, tally_cons mispriced 1 job n.job_queue, pays, v.priced))
        (λ id. ground (
          arith,
          enqueue-marked job n id v.once new,
          tally_cons (λ (j : OpenJob). j.job_id) id job n.job_queue,
        ))

  -- what `enqueue` keeps beside the places of the jobs
  Keeps : Node → Type 0
  Keeps m = ArePriced m.job_queue × (m.lost ≡ []) × (m.polling ≡ true)

  enqueue-Keeps :
      (job : OpenJob) (n : Node) → ArePriced (job ∷ []) → IsSound n → Keeps (enqueue job n)
  unfolding enqueue Keeps
  enqueue-Keeps job n pays v =
      if_ind Keeps (contains job.job_id n.active_jobs) _ _ (λ known. (v.priced, v.lost, v.polling))
        (λ new.
          let n' : Node = record n { active_jobs = insert job.job_id true n.active_jobs } in
          let (lost, queue) = put_after-lost n' (heappush n.job_queue job) in
          (
            omega (
              arith,
              ap (tally mispriced 1) queue,
              tally-heappush mispriced 1 n.job_queue job,
              v.priced,
              pays,
            ),
            lost ∙ v.lost,
            put_after-polling n' (heappush n.job_queue job)
                  (heappush-ok n.job_queue job (one-AreDistinct job n pays v new))
                ∙ v.polling,
          ))

  enqueue-IsSound :
      (job : OpenJob) (n : Node) → ArePriced (job ∷ []) → IsSound n → IsSound (enqueue job n)
  unfolding Keeps
  enqueue-IsSound job n pays v =
      let (priced, lost, polling) = enqueue-Keeps job n pays v in
      record { once = enqueue-IsOnce job n v.once; priced = priced; lost = lost; polling = polling }

  poll-IsSound :
      (open_jobs : List OpenJob) (n : Node)
      → ArePriced open_jobs
      → IsSound n
      → IsSound (poll open_jobs n)
  unfolding poll
  poll-IsSound [] n pay v = v
  poll-IsSound (job ∷ jobs) n pay v =
      let both = tally_cons mispriced 1 job jobs in
      poll-IsSound jobs _ (omega (arith, both, pay)) (
        if_ind IsSound n.polling _ _ (λ on. enqueue-IsSound job n (omega (arith, both, pay)) v)
          (λ off. v))

  get_after-Keeps :
      (n : Node) (taken : Popped)
      → tally_popped mispriced 1 taken ≡ 0
      → IsSound n
      → ArePriced (get_after n taken).job_queue × ((get_after n taken).polling ≡ true)
  unfolding get_after
  get_after-Keeps n empty h v = (v.priced, v.polling)
  get_after-Keeps n (popped job heap) h v =
      (omega (arith, h, tally_cons mispriced 1 job heap), v.polling)
  get_after-Keeps n (dropped e job heap) h v =
      (omega (arith, h, tally_cons mispriced 1 job heap), v.polling)

  start_next-IsSound : (n : Node) → IsSound n → IsSound (start_next n)
  unfolding start_next
  start_next-IsSound n v =
      let taken = heappop n.job_queue in
      let (lost, _) =
        get_after-lost n taken (heappop-IsTaken n.job_queue (queue-AreDistinct n v)) in
      let (priced, polling) =
        get_after-Keeps n taken (heappop-tally mispriced 1 n.job_queue ∙ v.priced) v in
      record {
        once = start_next-IsOnce n v.once;
        priced = priced;
        lost = lost ∙ v.lost;
        polling = polling;
      }

  finish-IsSound :
      (job_id : ℕ) (n : Node) → 1 ≤ times job_id n.handled → IsSound n → IsSound (finish job_id n)
  unfolding finish
  finish-IsSound job_id n is_handled v = record {
    once = finish-IsOnce job_id n is_handled v.once;
    priced = v.priced;
    lost = v.lost;
    polling = v.polling;
  }

  -- a run in which every open job pays its price
  pub data PricedRun (start : Node) : Node → Type 0 where
    begin : PricedRun start start
    polled :
        (n : Node) (open_jobs : List OpenJob)
        → ArePriced open_jobs
        → PricedRun start n
        → PricedRun start (poll open_jobs n)
    started : (n : Node) → PricedRun start n → PricedRun start (start_next n)
    finished :
        (n : Node) (job_id : ℕ)
        → 1 ≤ times job_id n.handled
        → PricedRun start n
        → PricedRun start (finish job_id n)

  PricedRun-IsSound : (start n : Node) → IsSound start → PricedRun start n → IsSound n
  PricedRun-IsSound start _ v begin = v
  PricedRun-IsSound start _ v (polled n open_jobs pay r) =
      poll-IsSound open_jobs n pay (PricedRun-IsSound start n v r)
  PricedRun-IsSound start _ v (started n r) = start_next-IsSound n (PricedRun-IsSound start n v r)
  PricedRun-IsSound start _ v (finished n job_id is_handled r) =
      finish-IsSound job_id n is_handled (PricedRun-IsSound start n v r)

  -- If different jobs have different prices, and every job pays its price: in any interleaving of
  -- polls and workers, from a node without lost jobs where each marked job is queued or handled
  -- once, no get loses a job and no put ends the polls, so each marked job is queued or handled
  -- once; and a worker that takes a job then handles one more, if any is queued.
  pub PricedRun-lossless :
      (start n : Node)
      → IsSound start
      → PricedRun start n
      → IsOnce n
        × (n.lost ≡ [])
        × (n.polling ≡ true)
        × (0 < length n.job_queue → length (start_next n).handled ≡ suc (length n.handled))
  unfolding start_next
  PricedRun-lossless start n v r =
      let w = PricedRun-IsSound start n v r in
      let taken = heappop-IsTaken n.job_queue (queue-AreDistinct n w) in
      (w.once, w.lost, w.polling, (get_after-lost n (heappop n.job_queue) taken).1)
