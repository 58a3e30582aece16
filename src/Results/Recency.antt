-- ===== src/Results/Recency.antt =====
-- The size of the cache, and what is found after a call of `put`.
use Prim.Native.String.{String}
use decentralized_llm.Base.{
  ℕ, suc, ◌+◌, ◌≤◌, ◌<◌, ◌≡◌, refl, ◌∙◌, Option, some, Bool, false, [], ◌∷◌, arith, ltb, leb,
  if◌then◌else◌, length, length-append, Result, ok, Option-cases, inl, inr, if_ind,
}
use decentralized_llm.Base.Dict.{Eq, Dict, lookup, erase, contains}
use decentralized_llm.Base.Sizes.{length-erase, length-erase_known}
use decentralized_llm.Results.{
  CachedResult, ResultCache, put_last, get, pop_first, store_new, put, invalidate,
}

module _ {K : Type 0} ⦃e : Eq K⦄ where
  lookup-put_last :
      (k j : K) (v : CachedResult) (d : Dict K CachedResult)
      → lookup j (put_last k v d) ≡ (if e.beq k j then some v else lookup j d)
  unfolding put_last erase lookup
  lookup-put_last k j v [] = refl
  lookup-put_last k j v ((i, w) ∷ d) =
      ground
        (arith, lookup-put_last k j v d, e.beq_iff i k, e.beq_iff k i, e.beq_iff k j, e.beq_iff i j)

  length-put_last :
      (k : K) (v : CachedResult) (d : Dict K CachedResult)
      → length (put_last k v d) ≤ suc (length d)
  unfolding put_last
  length-put_last k v d = omega (arith, length-append (erase k d) ((k, v) ∷ []), length-erase k d)

  length-put_last_known :
      (k : K) (v : CachedResult) (d : Dict K CachedResult) {w : CachedResult}
      → lookup k d ≡ some w
      → length (put_last k v d) ≤ length d
  unfolding put_last
  length-put_last_known k v d {w} known =
      omega (arith, length-append (erase k d) ((k, v) ∷ []), length-erase_known k d {v = w} known)

  abbrev pub IsBounded : ResultCache K → Type 0
  IsBounded c = length c.cache ≤ c.max_size

  get-IsBounded :
      (now : ℕ) (key : K) (c : ResultCache K) → IsBounded c → IsBounded (get now key c).1
  unfolding get
  get-IsBounded now key c h = elim (Option-cases (lookup key c.cache)) [
    | inl unknown ↦ rw (unknown, get) h
    | inr (v, known) ↦
        rw (known, get)
          (if_ind {A = Option String × ResultCache K} (λ r. IsBounded r.1)
            (ltb (v.created_at + c.ttl) now) _ _ (λ old. omega (arith, length-erase key c.cache))
            (λ fresh. omega (arith, length-put_last_known key _ c.cache {w = v} known)))
  ]

  store_popped-IsBounded :
      (key : K) (v : CachedResult) (c : ResultCache K) (d : Dict K CachedResult)
      → IsBounded c
      → length d ≤ c.max_size
      → IsBounded (store_new key v c (pop_first d)).1
  unfolding store_new pop_first
  store_popped-IsBounded key v c [] h fits = h
  store_popped-IsBounded key v c (x ∷ d) h fits = omega (arith, length-put_last key v d)

  put-IsBounded :
      (now : ℕ) (key : K) (text : String) (c : ResultCache K)
      → IsBounded c
      → IsBounded (put now key text c).1
  unfolding put store_new
  put-IsBounded now key text c h = elim (Option-cases (lookup key c.cache)) [
    | inr (v, known) ↦
        rw (known, put) (omega (arith, length-put_last_known key _ c.cache {w = v} known))
    | inl unknown ↦
        let entry : CachedResult = record { result_text = text; created_at = now; hit_count = 0 } in
        rw (unknown, put)
          (if_ind (λ r. IsBounded (store_new key entry c r).1) (leb c.max_size (length c.cache)) _ _
            (λ full. store_popped-IsBounded key entry c c.cache h h)
            (λ room.
              omega
                (arith, length-put_last key entry c.cache, below c.max_size (length c.cache) room)))
  ]
    where
      below : (n m : ℕ) → leb n m ≡ false → m < n
      below n m h = ground arith

  invalidate-IsBounded :
      (key : K) (c : ResultCache K) → IsBounded c → IsBounded (invalidate key c).1
  unfolding invalidate
  invalidate-IsBounded key c h =
      if_ind {A = Bool × ResultCache K} (λ r. IsBounded r.1) (contains key c.cache) _ _
        (λ known. omega (arith, length-erase key c.cache)) (λ unknown. h)

  -- A call of get, put or invalidate on a cache within its size leaves it within its size, also
  -- where put raises.
  pub calls-IsBounded :
      (now : ℕ) (key : K) (text : String) (c : ResultCache K)
      → IsBounded c
      → IsBounded (get now key c).1
        × IsBounded (put now key text c).1
        × IsBounded (invalidate key c).1
  calls-IsBounded now key text c h =
      (get-IsBounded now key c h, put-IsBounded now key text c h, invalidate-IsBounded key c h)

  get-fresh :
      (later : ℕ) (key : K) (c : ResultCache K) (v : CachedResult)
      → lookup key c.cache ≡ some v
      → later ≤ v.created_at + c.ttl
      → (get later key c).0 ≡ some v.result_text
  unfolding get
  get-fresh later key c v known fresh =
      let young : ltb (v.created_at + c.ttl) later ≡ false = ground arith in
      rw (known, get) (rw young refl)

  put_last-here :
      (key : K) (v : CachedResult) (d : Dict K CachedResult)
      → lookup key (put_last key v d) ≡ some v
  put_last-here key v d = lookup-put_last key key v d ∙ rw ((e.beq_iff key key).1 refl) refl

  -- what `put` promises of its result
  abbrev Stored : (later : ℕ) → K → String → Result (Unit {0}) × ResultCache K → Type 0
  Stored later key text (result, c) = (result ≡ ok tt) × ((get later key c).0 ≡ some text)

  store_popped-Stored :
      (now later : ℕ) (key : K) (text : String) (hits : ℕ) (c : ResultCache K)
      (d : Dict K CachedResult)
      → 0 < length d
      → later ≤ now + c.ttl
      → Stored later key text (
          store_new key
            (record { result_text = text; created_at = now; hit_count = hits })
            c
            (pop_first d))
  unfolding store_new pop_first
  store_popped-Stored now later key text hits c [] some_entry fresh = absurd (omega arith)
  store_popped-Stored now later key text hits c (x ∷ d) some_entry fresh =
      (refl, get-fresh later key _ _ (put_last-here key _ d) fresh)

  -- On a cache with room for one entry put returns, and the result is found under its key for the
  -- time to live.
  pub put-get :
      (now later : ℕ) (key : K) (text : String) (c : ResultCache K)
      → 0 < c.max_size
      → later ≤ now + c.ttl
      → let (result, c') = put now key text c in
        (result ≡ ok tt) × ((get later key c').0 ≡ some text)
  unfolding put store_new
  put-get now later key text c room fresh = elim (Option-cases (lookup key c.cache)) [
    | inr (v, known) ↦
        rw (known, put) (refl, get-fresh later key _ _ (put_last-here key _ c.cache) fresh)
    | inl unknown ↦
        let entry : CachedResult = record { result_text = text; created_at = now; hit_count = 0 } in
        rw (unknown, put)
          (if_ind (λ r. Stored later key text (store_new key entry c r))
            (leb c.max_size (length c.cache)) _ _
            (λ full.
              store_popped-Stored now later key text 0 c c.cache (ground (arith, full)) fresh)
            (λ below. (refl, get-fresh later key _ _ (put_last-here key entry c.cache) fresh)))
  ]
