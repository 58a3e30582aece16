-- ===== src/Adapters/Loading.antt =====
-- `load` keeps the slots valid, also where it evicts one.
use Prim.Native.String.{String}
use decentralized_llm.Base.{
  ℕ, ◌<◌, ◌≡◌, refl, ◌∙◌, inl, inr, Option, some, true, false, arith, leb, length, Result, ok,
  raise, if_ind, Option-cases,
}
use decentralized_llm.Base.Dict.{lookup, insert, string_eq}
use decentralized_llm.Base.Sizes.{length-insert, length-insert_known}
use decentralized_llm.Adapters.{
  AdapterSpec, Weights, AdapterSlot, Manager, loaded, evict_lru, put_slot, load_new, touch, load,
}
use decentralized_llm.Adapters.Slots.{
  AreSlots, IsValid, insert-AreSlots, evict_lru-IsValid, evict_lru-room, evict_lru-max_loaded,
}

-- a slot is put in, where there is room
put_slot-IsValid :
    (now : ℕ) (q : String) (spec : AdapterSpec) (res : Result Weights) (m : Manager)
    → length m.slots < m.max_loaded
    → IsValid m
    → IsValid (put_slot now q spec res m).1
unfolding put_slot
put_slot-IsValid now q spec (raise e) m room v = v
put_slot-IsValid now q spec (ok weights) m room v =
    insert-AreSlots m.max_loaded m.slots m.active_id m.active_id q _ refl
      (omega (
        arith,
        length-insert q
            (record {
              spec = spec;
              is_loaded = true;
              load_time = now;
              last_used = now;
              weights = weights;
            })
            m.slots,
      ))
      v (λ a h other. h)

-- what is changed in a known slot keeps it loaded
pub known-AreSlots :
    (m : Manager) (active : Option String) (q : String) (slot slot' : AdapterSlot)
    → lookup q m.slots ≡ some slot
    → slot'.is_loaded ≡ slot.is_loaded
    → IsValid m
    → ((a : String) → active ≡ some a → string_eq.beq q a ≡ false → m.active_id ≡ some a)
    → AreSlots m.max_loaded (insert q slot' m.slots) active
known-AreSlots m active q slot slot' known same v others =
    insert-AreSlots m.max_loaded m.slots m.active_id active q slot'
      (same ∙ v.all_loaded q slot known)
      (omega (arith, length-insert_known q slot' m.slots {u = slot} known, v.fits)) v others

touch-IsValid :
    (now : ℕ) (q : String) (m : Manager) → IsValid m → IsValid (touch now q (lookup q m.slots) m)
unfolding touch
touch-IsValid now q m v = elim (Option-cases (lookup q m.slots)) [
  | inl unknown ↦ rw (unknown, touch) v
  | inr (slot, known) ↦
      rw (known, touch)
        (known-AreSlots m m.active_id q slot (record slot { last_used = now }) known refl v
          (λ a h other. h))
]

module _ (load_weights : AdapterSpec → Result Weights) where
  load_new-IsValid :
      (now : ℕ) (q : String) (spec : AdapterSpec) (m : Manager)
      → IsValid m
      → IsValid (load_new load_weights now q spec m).1
  unfolding load_new
  load_new-IsValid now q spec m v =
      if_ind (λ k. IsValid (put_slot now q spec (load_weights spec) k).1)
        (leb m.max_loaded (length m.slots)) _ _
        (λ full.
          put_slot-IsValid now q spec (load_weights spec) (evict_lru m)
            (omega (
              arith,
              evict_lru-room m v (enough (length m.slots) m.max_loaded full v.positive),
              evict_lru-max_loaded m,
              v.fits,
            ))
            (evict_lru-IsValid m v))
        (λ free.
          put_slot-IsValid now q spec (load_weights spec) m
            (below (length m.slots) m.max_loaded free) v)
    where
      below : (n k : ℕ) → leb k n ≡ false → n < k
      below n k h = ground arith

      enough : (n k : ℕ) → leb k n ≡ true → 0 < k → 0 < n
      enough n k h p = ground arith

  pub load-IsValid :
      (now : ℕ) (q : String) (m : Manager) → IsValid m → IsValid (load load_weights now q m).1
  unfolding load
  load-IsValid now q m v = elim (Option-cases (lookup q m.registry)) [
    | inl unknown ↦ rw (unknown, load) v
    | inr (spec, known) ↦
        rw (known, load)
          (if_ind {A = Result (Unit {0}) × Manager} (λ r. IsValid r.1) (loaded (lookup q m.slots)) _
            _ (λ hit. touch-IsValid now q m v) (λ miss. load_new-IsValid now q spec m v))
  ]
