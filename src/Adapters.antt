-- ===== src/Adapters.antt =====
-- node/adapter_manager.py: `AdapterManager`. The model is its module names and the hooks that are
-- registered on it; the weights of a checkpoint come from disk, as a parameter.
mod Tests
pub mod Hooks
pub mod Slots
pub mod Loading
pub mod Runs
use Prim.Native.String.{String}
use decentralized_llm.Base.{
  ℕ, suc, ◌+◌, Option, none, some, Bool, true, false, not, ◌&&◌, List, [], ◌∷◌, ◌++◌, ltb, leb,
  ◌==◌, if◌then◌else◌, length, Result, ok, raise, key_error, zero_division,
}
use decentralized_llm.Base.Dict.{Eq, Dict, lookup, contains, insert, erase, nat_eq, string_eq}

pub record AdapterSpec : Type 0 where
  pub adapter_id : String
  pub lora_rank : ℕ
  pub checkpoint_path : String

-- the names of the modules with weights, and whether both matrices are there
abbrev pub Weights : Type 0
Weights = Dict String Bool

pub record AdapterSlot : Type 0 where
  pub spec : AdapterSpec
  pub is_loaded : Bool
  pub load_time : ℕ
  pub last_used : ℕ
  pub weights : Weights

-- the manager, and the model with the hooks on it: each hook has a handle and an adapter
pub record Manager : Type 0 where
  pub max_loaded : ℕ
  pub registry : Dict String AdapterSpec
  pub slots : Dict String AdapterSlot
  pub active_id : Option String
  pub hook_handles : List ℕ
  pub modules : List String
  pub hooks : Dict ℕ String
  pub next_handle : ℕ

-- `self._active_id == adapter_id`
unfoldable pub is_active : Option String → String → Bool
is_active none adapter_id = false
is_active (some a) adapter_id = string_eq.beq a adapter_id

-- `adapter_id in self._slots and self._slots[adapter_id].is_loaded`
unfoldable pub loaded : Option AdapterSlot → Bool
loaded none = false
loaded (some slot) = slot.is_loaded

unfoldable pub register : AdapterSpec → Manager → Manager
unfolding insert
register spec m = record m { registry = insert spec.adapter_id spec m.registry }

unfoldable pub unload : String → Manager → Manager
unfolding is_active loaded lookup erase
unload adapter_id m =
    if loaded (lookup adapter_id m.slots)
    then (if is_active m.active_id adapter_id
        then record m { active_id = none; hook_handles = []; slots = erase adapter_id m.slots }
        else record m { slots = erase adapter_id m.slots })
    else m

-- `adapter_id` against the least recently used of the later ones; the first of equals wins
unfoldable pub earlier : String × ℕ → Option (String × ℕ) → String × ℕ
earlier s none = s
earlier s (some t) = if ltb t.1 s.1 then t else s

-- the least recently used slot but `skip`
unfoldable pub least_used : (skip : Option String) → Dict String AdapterSlot → Option (String × ℕ)
unfolding is_active earlier
least_used skip [] = none
least_used skip ((adapter_id, slot) ∷ slots) =
    let rest = least_used skip slots in
    if is_active skip adapter_id then rest else some (earlier (adapter_id, slot.last_used) rest)

unfoldable pub unload_found : Option (String × ℕ) → Manager → Manager
unfolding unload
unload_found none m = m
unload_found (some s) m = unload s.0 m

-- `_evict_lru`: another slot than the active one, if there is one
unfoldable pub evict_lru : Manager → Manager
unfolding unload_found least_used
evict_lru m = elim (least_used m.active_id m.slots) [
  | some s ↦ unload_found (some s) m
  | none ↦ unload_found (least_used none m.slots) m
]

-- the end of `load`
unfoldable pub put_slot :
    (now : ℕ) (adapter_id : String)
    → AdapterSpec
    → Result Weights
    → Manager
    → Result (Unit {0}) × Manager
unfolding insert
put_slot now adapter_id spec (raise e) m = (raise e, m)
put_slot now adapter_id spec (ok weights) m =
    let slot : AdapterSlot = record {
      spec = spec;
      is_loaded = true;
      load_time = now;
      last_used = now;
      weights = weights;
    } in
    (ok tt, record m { slots = insert adapter_id slot m.slots })

-- a cache hit
unfoldable pub touch : (now : ℕ) (adapter_id : String) → Option AdapterSlot → Manager → Manager
unfolding insert
touch now adapter_id none m = m
touch now adapter_id (some slot) m =
    let slot' : AdapterSlot = record slot { last_used = now } in
    record m { slots = insert adapter_id slot' m.slots }

module _ (load_weights : AdapterSpec → Result Weights) where
  unfoldable pub load_new :
      (now : ℕ) (adapter_id : String) → AdapterSpec → Manager → Result (Unit {0}) × Manager
  unfolding put_slot evict_lru
  load_new now adapter_id spec m =
      put_slot now adapter_id spec (load_weights spec)
        (if leb m.max_loaded (length m.slots) then evict_lru m else m)

  unfoldable pub load : (now : ℕ) (adapter_id : String) → Manager → Result (Unit {0}) × Manager
  unfolding load_new touch loaded lookup
  load now adapter_id m = elim (lookup adapter_id m.registry) [
    | none ↦ (raise key_error, m)
    | some spec ↦
        if loaded (lookup adapter_id m.slots)
        then (ok tt, touch now adapter_id (lookup adapter_id m.slots) m)
        else load_new now adapter_id spec m
  ]
