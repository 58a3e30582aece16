-- ===== src/Adapters/Slots.antt =====
-- The slots stay within their number, and the active adapter is loaded.
use Prim.Native.String.{String}
use decentralized_llm.Base.{
  ℕ, ◌≤◌, ◌<◌, ◌≡◌, refl, sym, ap, ◌∙◌, inl, inr, Option, none, some, true, false, [], ◌∷◌, arith,
  ltb, length, if_true, if_false, some_inj, if_ind, Option-cases, Bool-cases,
}
use decentralized_llm.Base.Dict.{
  Dict, lookup, insert, erase, lookup-insert, lookup-erase, string_eq,
}
use decentralized_llm.Base.Sizes.{length-erase, length-erase_known}
use decentralized_llm.Adapters.{
  AdapterSpec, AdapterSlot, Manager, is_active, loaded, register, unload, earlier, least_used,
  unload_found, evict_lru,
}

-- the parts of a manager that the slots are about: `active` is the active adapter
pub record AreSlots (max : ℕ) (slots : Dict String AdapterSlot) (active : Option String)
    : Type 0 where
  pub positive : 0 < max
  pub fits : length slots ≤ max
  pub all_loaded :
      (q : String) (slot : AdapterSlot) → lookup q slots ≡ some slot → slot.is_loaded ≡ true
  pub active_loaded :
      (a : String) → active ≡ some a → (slot : AdapterSlot) × (lookup a slots ≡ some slot)

abbrev pub IsValid : Manager → Type 0
IsValid m = AreSlots m.max_loaded m.slots m.active_id

erase-AreSlots :
    (max : ℕ) (slots : Dict String AdapterSlot) (active active' : Option String) (q : String)
    → AreSlots max slots active
    → ((a : String) → active' ≡ some a → (active ≡ some a) × (string_eq.beq q a ≡ false))
    → AreSlots max (erase q slots) active'
erase-AreSlots max slots active active' q v others = record {
  positive = v.positive;
  fits = omega (arith, length-erase q slots, v.fits);
  all_loaded = λ r slot known. ground (arith, lookup-erase q r slots, v.all_loaded r slot, known);
  active_loaded = λ a is_a.
      let (before, other) = others a is_a in
      let (slot, known) = v.active_loaded a before in
      (slot, lookup-erase q a slots ∙ rw other known);
}

pub insert-AreSlots :
    (max : ℕ) (slots : Dict String AdapterSlot) (active active' : Option String) (q : String)
    (slot : AdapterSlot)
    → slot.is_loaded ≡ true
    → length (insert q slot slots) ≤ max
    → AreSlots max slots active
    → ((a : String) → active' ≡ some a → string_eq.beq q a ≡ false → active ≡ some a)
    → AreSlots max (insert q slot slots) active'
insert-AreSlots max slots active active' q slot is_on fits v others = record {
  positive = v.positive;
  fits = fits;
  all_loaded =
      λ r s known. ground (arith, lookup-insert q r slot slots, v.all_loaded r s, known, is_on);
  active_loaded = λ a is_a. elim (Bool-cases (string_eq.beq q a)) [
    | inl same ↦ (slot, lookup-insert q a slot slots ∙ rw same refl)
    | inr other ↦
        let (s, known) = v.active_loaded a (others a is_a other) in
        (s, lookup-insert q a slot slots ∙ rw other known)
  ];
}

pub register-IsValid : (spec : AdapterSpec) (m : Manager) → IsValid m → IsValid (register spec m)
unfolding register
register-IsValid spec m v = v

pub unload-IsValid : (q : String) (m : Manager) → IsValid m → IsValid (unload q m)
unfolding unload is_active
unload-IsValid q m v =
    if_ind IsValid (loaded (lookup q m.slots)) _ _
      (λ is_on.
        if_ind IsValid (is_active m.active_id q) _ _
          (λ active.
            erase-AreSlots m.max_loaded m.slots m.active_id none q v (λ a h. absurd (ground arith)))
          (λ other. erase-AreSlots m.max_loaded m.slots m.active_id m.active_id q v (λ a h. (
            h,
            ground (
              arith,
              other,
              ap (λ o. is_active o q) h,
              string_eq.beq_iff q a,
              string_eq.beq_iff a q,
            ),
          ))))
      (λ off. v)

-- an unloaded slot makes room
unload-room :
    (q : String) (m : Manager) (slot : AdapterSlot)
    → lookup q m.slots ≡ some slot
    → slot.is_loaded ≡ true
    → length (unload q m).slots < length m.slots
unfolding unload loaded
unload-room q m slot known is_on =
    let on : loaded (lookup q m.slots) ≡ true = ap loaded known ∙ is_on in
    rw on (
      if_ind (λ (k : Manager). length k.slots < length m.slots) (is_active m.active_id q) _ _
        (λ active. length-erase_known q m.slots {v = slot} known)
        (λ other. length-erase_known q m.slots {v = slot} known))

unload-max_loaded : (q : String) (m : Manager) → (unload q m).max_loaded ≡ m.max_loaded
unfolding unload
unload-max_loaded q m = ground arith

earlier_other :
    (q : String) (used : ℕ) (rest : Option (String × ℕ)) (s : String × ℕ)
    → earlier (q, used) rest ≡ s
    → string_eq.beq q s.0 ≡ false
    → rest ≡ some s
unfolding earlier
earlier_other q used none s e other =
    absurd (ground (arith, other, ap (λ t. t.0) e, string_eq.beq_iff q s.0))
earlier_other q used (some t) s e other = elim (Bool-cases (ltb t.1 used)) [
  | inl less ↦ ap some (sym (if_true (ltb t.1 used) t (q, used) less) ∙ e)
  | inr more ↦ absurd (
      ground (
        arith,
        other,
        ap (λ (u : String × ℕ). u.0) (sym (if_false (ltb t.1 used) t (q, used) more) ∙ e),
        string_eq.beq_iff q s.0,
      ))
]

-- a found slot is one of the slots
least_used-known :
    (skip : Option String) (slots : Dict String AdapterSlot) (s : String × ℕ)
    → least_used skip slots ≡ some s
    → (slot : AdapterSlot) × (lookup s.0 slots ≡ some slot)
unfolding least_used lookup
least_used-known skip [] s found = absurd (ground arith)
least_used-known skip ((q, slot) ∷ slots) s found = elim (Bool-cases (string_eq.beq q s.0)) [
  | inl same ↦ (slot, rw same refl)
  | inr other ↦
      let later : least_used skip slots ≡ some s = elim (Bool-cases (is_active skip q)) [
        | inl skipped ↦ sym (if_true (is_active skip q) (least_used skip slots) _ skipped) ∙ found
        | inr kept ↦
            earlier_other q slot.last_used (least_used skip slots) s
              (some_inj (sym (if_false (is_active skip q) (least_used skip slots) _ kept) ∙ found))
              other
      ] in
      let (t, known) = least_used-known skip slots s later in (t, rw other known)
]

unload_found-IsValid :
    (o : Option (String × ℕ)) (m : Manager) → IsValid m → IsValid (unload_found o m)
unfolding unload_found
unload_found-IsValid none m v = v
unload_found-IsValid (some s) m v = unload-IsValid s.0 m v

unload_found-room :
    (skip : Option String) (s : String × ℕ) (m : Manager)
    → IsValid m
    → least_used skip m.slots ≡ some s
    → length (unload_found (some s) m).slots < length m.slots
unfolding unload_found
unload_found-room skip s m v found =
    let (slot, known) = least_used-known skip m.slots s found in
    unload-room s.0 m slot known (v.all_loaded s.0 slot known)

-- without an adapter to skip there is one to unload
least_used-some :
    (slots : Dict String AdapterSlot)
    → 0 < length slots
    → (s : String × ℕ) × (least_used none slots ≡ some s)
unfolding least_used is_active
least_used-some [] h = absurd (omega arith)
least_used-some ((q, slot) ∷ slots) h = (earlier (q, slot.last_used) (least_used none slots), refl)

pub evict_lru-IsValid : (m : Manager) → IsValid m → IsValid (evict_lru m)
unfolding evict_lru
evict_lru-IsValid m v = elim (Option-cases (least_used m.active_id m.slots)) [
  | inl none_other ↦ rw (none_other, evict_lru) (unload_found-IsValid (least_used none m.slots) m v)
  | inr (s, found) ↦ rw (found, evict_lru) (unload_found-IsValid (some s) m v)
]

pub evict_lru-room :
    (m : Manager) → IsValid m → 0 < length m.slots → length (evict_lru m).slots < length m.slots
unfolding evict_lru
evict_lru-room m v some_slot = elim (Option-cases (least_used m.active_id m.slots)) [
  | inl none_other ↦
      let (s, found) = least_used-some m.slots some_slot in
      rw (none_other, evict_lru) (rw found (unload_found-room none s m v found))
  | inr (s, found) ↦ rw (found, evict_lru) (unload_found-room m.active_id s m v found)
]

pub evict_lru-max_loaded : (m : Manager) → (evict_lru m).max_loaded ≡ m.max_loaded
unfolding evict_lru unload_found
evict_lru-max_loaded m = elim (Option-cases (least_used m.active_id m.slots)) [
  | inl none_other ↦ rw (none_other, evict_lru) (kept (least_used none m.slots))
  | inr (s, found) ↦ rw (found, evict_lru) (unload-max_loaded s.0 m)
]
  where
    kept : (o : Option (String × ℕ)) → (unload_found o m).max_loaded ≡ m.max_loaded
    kept none = refl
    kept (some s) = unload-max_loaded s.0 m
