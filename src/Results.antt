-- ===== src/Results.antt =====
-- node/result_cache.py: `ResultCache`. `make_key`, the hash of model name and prompt, is applied by
-- the caller here: the operations take the key. The `OrderedDict` is an association list whose first
-- entry is the least recently used one.
mod Tests
pub mod Recency
use Prim.Native.String.{String}
use decentralized_llm.Base.{
  ℕ, zero, suc, ◌+◌, Option, none, some, Bool, true, false, List, [], ◌∷◌, ◌++◌, ltb, leb,
  if◌then◌else◌, length, Result, ok, raise, key_error,
}
use decentralized_llm.Base.Dict.{Eq, Dict, lookup, contains, erase}

pub record CachedResult : Type 0 where
  pub result_text : String
  pub created_at : ℕ
  pub hit_count : ℕ

pub record ResultCache (K : Type 0) : Type 0 where
  pub max_size : ℕ
  pub ttl : ℕ
  pub cache : Dict K CachedResult

module _ {K : Type 0} ⦃e : Eq K⦄ where
  -- `__init__`
  unfoldable pub init : (max_size ttl_seconds : ℕ) → ResultCache K
  init max_size ttl_seconds = record { max_size = max_size; ttl = ttl_seconds; cache = [] }

  -- an entry that is the most recently used one now
  unfoldable pub put_last : K → CachedResult → Dict K CachedResult → Dict K CachedResult
  unfolding erase
  put_last key entry d = erase key d ++ (key, entry) ∷ []

  unfoldable pub get : (now : ℕ) → K → ResultCache K → Option String × ResultCache K
  unfolding put_last
  get now key c = elim (lookup key c.cache) [
    | none ↦ (none, c)
    | some entry ↦
        if ltb (entry.created_at + c.ttl) now
        then (none, record c { cache = erase key c.cache })
        else (let entry' : CachedResult = record entry { hit_count = entry.hit_count + 1 } in
            (some entry.result_text, record c { cache = put_last key entry' c.cache }))
  ]

  -- `popitem(last=False)`
  unfoldable pub pop_first : Dict K CachedResult → Result (Dict K CachedResult)
  pop_first [] = raise key_error
  pop_first (x ∷ d) = ok d

  unfoldable pub store_new :
      K
      → CachedResult
      → ResultCache K
      → Result (Dict K CachedResult)
      → Result (Unit {0}) × ResultCache K
  unfolding put_last
  store_new key entry c (raise err) = (raise err, c)
  store_new key entry c (ok d) = (ok tt, record c { cache = put_last key entry d })

  unfoldable pub put :
      (now : ℕ) → K → (result_text : String) → ResultCache K → Result (Unit {0}) × ResultCache K
  unfolding store_new pop_first
  put now key result_text c = elim (lookup key c.cache) [
    | some entry ↦
        let entry' : CachedResult = record entry { result_text = result_text; created_at = now } in
        (ok tt, record c { cache = put_last key entry' c.cache })
    | none ↦
        let entry : CachedResult = record {
          result_text = result_text;
          created_at = now;
          hit_count = 0;
        } in
        store_new key entry c
          (if leb c.max_size (length c.cache) then pop_first c.cache else ok c.cache)
  ]

  unfoldable pub invalidate : K → ResultCache K → Bool × ResultCache K
  invalidate key c =
      if contains key c.cache then (true, record c { cache = erase key c.cache }) else (false, c)

  unfoldable pub clear : ResultCache K → ResultCache K
  clear c = record c { cache = [] }
