-- ===== src/Adapters/Runs.antt =====
-- What every run of calls keeps of the slots.
use Prim.Native.String.{String}
use decentralized_llm.Base.{
  ℕ, ◌≡◌, refl, sym, ap, subst, ◌∙◌, inl, inr, Option, none, some, true, false, List, [], ◌∷◌,
  arith, ◌==◌, Result, ok, raise, if_ind, some_inj, Option-cases,
}
use decentralized_llm.Base.Dict.{lookup, contains, string_eq}
use decentralized_llm.Adapters.{
  AdapterSpec, Weights, AdapterSlot, Manager, loaded, register, unload, load,
}
use decentralized_llm.Adapters.Hooks.{
  remove_hooks, deactivate, add_hook, attach, set_active, activate_slot, activate, activate_after,
  deactivate_current, swap,
}
use decentralized_llm.Adapters.Slots.{AreSlots, IsValid, register-IsValid, unload-IsValid}
use decentralized_llm.Adapters.Loading.{known-AreSlots, load-IsValid}

remove_hooks-IsValid : (m : Manager) → IsValid m → IsValid (remove_hooks m)
unfolding remove_hooks
remove_hooks-IsValid m v = v

deactivate-IsValid : (m : Manager) → IsValid m → IsValid (deactivate m)
unfolding deactivate remove_hooks
deactivate-IsValid m v = record {
  positive = v.positive;
  fits = v.fits;
  all_loaded = v.all_loaded;
  active_loaded = λ a h. absurd (ground arith);
}

-- the hooks are no part of the slots
abbrev AreSame : Manager → Manager → Type 0
AreSame m k = (k.slots ≡ m.slots) × (k.max_loaded ≡ m.max_loaded) × (k.active_id ≡ m.active_id)

attach-AreSame :
    (q : String) (weights : Weights) (names : List String) (m : Manager)
    → AreSame m (attach q weights names m).1
unfolding attach add_hook
attach-AreSame q weights [] m = (refl, refl, refl)
attach-AreSame q weights (name ∷ names) m = elim (Option-cases (lookup name weights)) [
  | inl unknown ↦ rw (unknown, attach) (attach-AreSame q weights names m)
  | inr (false, known) ↦ rw (known, attach) (refl, refl, refl)
  | inr (true, known) ↦ rw (known, attach) (attach-AreSame q weights names (add_hook q m))
]

AreSame-IsValid : (m k : Manager) → AreSame m k → IsValid m → IsValid k
AreSame-IsValid m k (slots, max_loaded, active) v =
    subst (λ s. AreSlots k.max_loaded s k.active_id) (sym slots)
      (subst (λ n. AreSlots n m.slots k.active_id) (sym max_loaded)
        (subst (λ a. AreSlots m.max_loaded m.slots a) (sym active) v))

set_active-IsValid :
    (now : ℕ) (q : String) (slot : AdapterSlot) (m : Manager) (res : Result (Unit {0}))
    (k : Manager)
    → IsValid m
    → lookup q m.slots ≡ some slot
    → AreSame m k
    → IsValid (set_active now q slot (res, k)).1
unfolding set_active
set_active-IsValid now q slot m (raise e) k v known same = AreSame-IsValid m k same v
set_active-IsValid now q slot m (ok done) k v known same =
    known-AreSlots k (some q) q slot (record slot { last_used = now })
      (ap (lookup q) same.0 ∙ known) refl (AreSame-IsValid m k same v)
      (λ a h other.
        absurd (ground (arith, other, ap (string_eq.beq q) (some_inj h), string_eq.beq_iff q q)))

activate_slot-IsValid :
    (now : ℕ) (q : String) (slot : AdapterSlot) (m : Manager)
    → IsValid m
    → lookup q m.slots ≡ some slot
    → IsValid (activate_slot now q slot m).1
unfolding activate_slot
activate_slot-IsValid now q slot m v known =
    if_ind {A = Result (Unit {0}) × Manager} (λ r. IsValid r.1) (slot.spec.lora_rank == 0) _ _
      (λ no_rank. v)
      (λ rank.
        set_active-IsValid now q slot m (attach q slot.weights m.modules m).0
          (attach q slot.weights m.modules m).1 v known (attach-AreSame q slot.weights m.modules m))

activate-IsValid : (now : ℕ) (q : String) (m : Manager) → IsValid m → IsValid (activate now q m).1
unfolding activate remove_hooks
activate-IsValid now q m v = elim (Option-cases (lookup q m.slots)) [
  | inl unknown ↦ rw (unknown, activate) v
  | inr (slot, known) ↦
      rw (known, activate)
        (if_ind {A = Result (Unit {0}) × Manager} (λ r. IsValid r.1) slot.is_loaded _ _
          (λ is_on. activate_slot-IsValid now q slot (remove_hooks m) v known) (λ off. v))
]

activate_after-IsValid :
    (now : ℕ) (q : String) (r : Result (Unit {0}) × Manager)
    → IsValid r.1
    → IsValid (activate_after now q r).1
unfolding activate_after
activate_after-IsValid now q (raise e, m) v = v
activate_after-IsValid now q (ok done, m) v = activate-IsValid now q m v

deactivate_current-IsValid :
    (o : Option String) (m : Manager) → IsValid m → IsValid (deactivate_current o m)
unfolding deactivate_current
deactivate_current-IsValid none m v = v
deactivate_current-IsValid (some a) m v = deactivate-IsValid m v

module _ (load_weights : AdapterSpec → Result Weights) where
  swap-IsValid :
      (now : ℕ) (from_id : Option String) (to_id : String) (m : Manager)
      → IsValid m
      → IsValid (swap load_weights now from_id to_id m).1
  unfolding swap
  swap-IsValid now from_id to_id m v =
      let m' : Manager = deactivate_current m.active_id m in
      let v' : IsValid m' = deactivate_current-IsValid m.active_id m v in
      if_ind {A = Result (Unit {0}) × Manager} (λ r. IsValid r.1) (contains to_id m.registry) _ _
        (λ known. activate_after-IsValid now to_id _ (
          if_ind {A = Result (Unit {0}) × Manager} (λ r. IsValid r.1)
            (loaded (lookup to_id m'.slots)) _ _ (λ on. v')
            (λ off. load-IsValid load_weights now to_id m' v')))
        (λ unknown. v)

  -- any run of calls, also of those that raise
  pub data Run (start : Manager) : Manager → Type 0 where
    begin : Run start start
    registered : (m : Manager) (spec : AdapterSpec) → Run start m → Run start (register spec m)
    loaded_one :
        (m : Manager) (now : ℕ) (q : String) → Run start m → Run start (load load_weights now q m).1
    unloaded : (m : Manager) (q : String) → Run start m → Run start (unload q m)
    activated : (m : Manager) (now : ℕ) (q : String) → Run start m → Run start (activate now q m).1
    deactivated : (m : Manager) → Run start m → Run start (deactivate m)
    swapped :
        (m : Manager) (now : ℕ) (from_id : Option String) (to_id : String)
        → Run start m
        → Run start (swap load_weights now from_id to_id m).1

  -- In any run of register, load, unload, activate, deactivate and swap, also where they raise,
  -- from a manager where this holds, the slots are at most max_loaded, which is positive, each
  -- slot is loaded, and the active adapter has a slot.
  pub Run-IsValid : (start m : Manager) → IsValid start → Run start m → IsValid m
  Run-IsValid start _ v begin = v
  Run-IsValid start _ v (registered m spec r) = register-IsValid spec m (Run-IsValid start m v r)
  Run-IsValid start _ v (loaded_one m now q r) =
      load-IsValid load_weights now q m (Run-IsValid start m v r)
  Run-IsValid start _ v (unloaded m q r) = unload-IsValid q m (Run-IsValid start m v r)
  Run-IsValid start _ v (activated m now q r) = activate-IsValid now q m (Run-IsValid start m v r)
  Run-IsValid start _ v (deactivated m r) = deactivate-IsValid m (Run-IsValid start m v r)
  Run-IsValid start _ v (swapped m now from_id to_id r) =
      swap-IsValid now from_id to_id m (Run-IsValid start m v r)
