-- ===== src/Adapters/Hooks.antt =====
-- node/adapter_manager.py: `activate`, `deactivate` and `swap`.
use Prim.Native.String.{String}
use decentralized_llm.Base.{
  ℕ, suc, Option, none, some, true, false, List, [], ◌∷◌, ◌++◌, ◌==◌, if◌then◌else◌, Result, ok,
  raise, key_error, zero_division,
}
use decentralized_llm.Base.Dict.{Dict, lookup, contains, insert, erase, nat_eq, string_eq}
use decentralized_llm.Adapters.{AdapterSpec, Weights, AdapterSlot, Manager, loaded, load}

-- `_remove_hooks`
unfoldable pub remove_all : List ℕ → Dict ℕ String → Dict ℕ String
unfolding erase
remove_all [] hooks = hooks
remove_all (h ∷ handles) hooks = remove_all handles (erase h hooks)

unfoldable pub remove_hooks : Manager → Manager
unfolding remove_all
remove_hooks m = record m { hooks = remove_all m.hook_handles m.hooks; hook_handles = [] }

unfoldable pub deactivate : Manager → Manager
unfolding remove_hooks
deactivate m = record (remove_hooks m) { active_id = none }

-- `register_forward_hook`
unfoldable pub add_hook : String → Manager → Manager
add_hook adapter_id m = record m {
  hooks = (m.next_handle, adapter_id) ∷ m.hooks;
  hook_handles = m.hook_handles ++ m.next_handle ∷ [];
  next_handle = suc m.next_handle;
}

-- the loop of `activate` over the modules of the model
unfoldable pub attach :
    (adapter_id : String) → Weights → List String → Manager → Result (Unit {0}) × Manager
unfolding add_hook lookup
attach adapter_id weights [] m = (ok tt, m)
attach adapter_id weights (name ∷ names) m = elim (lookup name weights) [
  | none ↦ attach adapter_id weights names m
  | some false ↦ (raise key_error, m)
  | some true ↦ attach adapter_id weights names (add_hook adapter_id m)
]

-- the end of `activate`
unfoldable pub set_active :
    (now : ℕ) (adapter_id : String)
    → AdapterSlot
    → Result (Unit {0}) × Manager
    → Result (Unit {0}) × Manager
unfolding insert
set_active now adapter_id slot (raise e, m) = (raise e, m)
set_active now adapter_id slot (ok done, m) =
    let slot' : AdapterSlot = record slot { last_used = now } in
    (ok tt, record m { active_id = some adapter_id; slots = insert adapter_id slot' m.slots })

-- once the hooks are removed; the scaling divides by the rank
unfoldable pub activate_slot :
    (now : ℕ) (adapter_id : String) → AdapterSlot → Manager → Result (Unit {0}) × Manager
unfolding set_active attach
activate_slot now adapter_id slot m =
    if slot.spec.lora_rank == 0
    then (raise zero_division, m)
    else set_active now adapter_id slot (attach adapter_id slot.weights m.modules m)

unfoldable pub activate : (now : ℕ) (adapter_id : String) → Manager → Result (Unit {0}) × Manager
unfolding activate_slot remove_hooks lookup
activate now adapter_id m = elim (lookup adapter_id m.slots) [
  | none ↦ (raise key_error, m)
  | some slot ↦
      if slot.is_loaded
      then activate_slot now adapter_id slot (remove_hooks m)
      else (raise key_error, m)
]

unfoldable pub activate_after :
    (now : ℕ) (adapter_id : String) → Result (Unit {0}) × Manager → Result (Unit {0}) × Manager
unfolding activate
activate_after now adapter_id (raise e, m) = (raise e, m)
activate_after now adapter_id (ok done, m) = activate now adapter_id m

unfoldable pub deactivate_current : Option String → Manager → Manager
unfolding deactivate
deactivate_current none m = m
deactivate_current (some a) m = deactivate m

module _ (load_weights : AdapterSpec → Result Weights) where
  -- `swap`, which holds its lock throughout; `from_id` decides nothing, since any active adapter is
  -- deactivated
  unfoldable pub swap :
      (now : ℕ) (from_id : Option String) (to_id : String) → Manager → Result (Unit {0}) × Manager
  unfolding activate_after deactivate_current load
  swap now from_id to_id m =
      if contains to_id m.registry
      then (let m' = deactivate_current m.active_id m in
          activate_after now to_id (
            if loaded (lookup to_id m'.slots) then (ok tt, m') else load load_weights now to_id m'))
      else (raise key_error, m)
