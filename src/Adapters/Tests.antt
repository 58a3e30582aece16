-- ===== src/Adapters/Tests.antt =====
-- One slot and two adapters.
use decentralized_llm.Base.{◌≡◌, refl, arith, none, [], ◌∷◌, true, Result, ok}
use decentralized_llm.Base.Dict.{lookup, insert, erase}
use decentralized_llm.Adapters.{AdapterSpec, Weights, Manager, register, unload}
use decentralized_llm.Adapters.Hooks.{swap}
use decentralized_llm.Adapters.Slots.{IsValid}
use decentralized_llm.Adapters.Runs.{begin, registered, swapped, Run-IsValid}

abbrev spec : AdapterSpec
spec = record { adapter_id = "a"; lora_rank = 8; checkpoint_path = "" }

-- each checkpoint has both matrices of one module
abbrev disk : AdapterSpec → Result Weights
disk s = ok (("q_proj", true) ∷ [])

abbrev start : Manager
start = record {
  max_loaded = 1;
  registry = [];
  slots = [];
  active_id = none;
  hook_handles = [];
  modules = "q_proj" ∷ "v_proj" ∷ [];
  hooks = [];
  next_handle = 0;
}

start-IsValid : IsValid start
unfolding lookup
start-IsValid = record {
  positive = omega arith;
  fits = omega arith;
  all_loaded = λ q slot known. absurd (ground arith);
  active_loaded = λ a h. absurd (ground arith);
}

abbrev swapped_in : Manager
swapped_in = (swap disk 5 none "a" (register spec start)).1

-- unloading the active adapter forgets the handle of its hook, which stays on the model
leaves_hook :
    ((unload "a" swapped_in).hooks ≡ (0, "a") ∷ [])
    × ((unload "a" swapped_in).hook_handles ≡ [])
    × ((unload "a" swapped_in).active_id ≡ none)
unfolding swap register unload lookup insert erase
leaves_hook = (refl, refl, refl)

Run-IsValid_example : IsValid swapped_in
Run-IsValid_example =
    Run-IsValid disk start swapped_in start-IsValid
      (swapped (register spec start) 5 none "a" (registered start spec begin))
