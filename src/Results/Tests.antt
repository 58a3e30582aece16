-- ===== src/Results/Tests.antt =====
-- A cache of one entry.
use decentralized_llm.Base.{ℕ, ◌≡◌, refl, none, some, arith, ok, raise, key_error}
use decentralized_llm.Base.Dict.{nat_eq, lookup, erase}
use decentralized_llm.Results.{ResultCache, init, get, put, invalidate}
use decentralized_llm.Results.Recency.{IsBounded, calls-IsBounded, put-get}

abbrev small : ResultCache ℕ
unfolding put init
small = (put 0 7 "seven" (init 1 10)).1

evicts : (get 1 7 (put 1 8 "eight" small).1).0 ≡ none
unfolding get put init lookup erase
evicts = refl

expires : (get 11 7 small).0 ≡ none
unfolding get put init lookup erase
expires = refl

-- a cache of no entries cannot store
no_room : (put {K = ℕ} 0 7 "seven" (init 0 10)).0 ≡ raise key_error
unfolding put init lookup
no_room = refl

calls-IsBounded_example :
    IsBounded (get 1 7 small).1
    × IsBounded (put 1 7 "new" small).1
    × IsBounded (invalidate 7 small).1
unfolding small put init lookup erase
calls-IsBounded_example = calls-IsBounded 1 7 "new" small (omega arith)

put-get_example :
    let (result, c') = put 1 8 "eight" small in (result ≡ ok tt) × ((get 5 8 c').0 ≡ some "eight")
unfolding small put init lookup
put-get_example = put-get 1 5 8 "eight" small (omega arith) (omega arith)
