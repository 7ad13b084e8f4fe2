-- ===== src/Pci/Search.antt =====
-- The search for a class of devices, drivers/pci.c.
use artyom_x.Base.{
  ℕ, ◌≤◌, ◌<◌, ◌≡◌, inl, inr, refl, sym, ◌∙◌, Bool, true, false, ◌&&◌, not, Option, none, some, ltb,
  ◌==◌, if◌then◌else◌, Bool-cases, dec_lt, arith, and_false,
}
use mathlib.Core.Option.{some-injective, some-ne-none}
use artyom_x.Pci.Loop.{Ends, without, at, first_from-Ends}
use artyom_x.Pci.{
  Config, Place, is_class, func_count, pci_read16, pci_read32, try_func, try_slot, try_bus,
  pci_find_class,
}

-- A test that answers a place.
not_chosen : (m : Bool) (p : Place) → (if m then some p else none) ≡ none → m ≡ false
not_chosen true p e = absurd (some-ne-none p e)
not_chosen false p e = refl

chosen : (m : Bool) (p q : Place) → (if m then some p else none) ≡ some q → (m ≡ true) × (p ≡ q)
chosen true p q e = (refl, some-injective p q e)
chosen false p q e = absurd (some-ne-none q (sym e))

module _ (class_code subclass prog_if : ℕ) (c : Config) where
  -- Is the function there, looked at, and of the class?
  abbrev pub is_match : ℕ → ℕ → ℕ → Bool
  is_match bus slot func =
      not (pci_read16 bus slot 0 0 c == 0xFFFF)
      && (ltb func (func_count bus slot c)
          && (not (pci_read16 bus slot func 0 c == 0xFFFF)
              && is_class class_code subclass prog_if (pci_read32 bus slot func 0x08 c)))

  -- What the search answers: the first function of the class in the order of bus, slot and function.
  pub data Finds : Option Place → Type 0 where
    nowhere :
        ((bus slot func : ℕ) → bus < 256 → slot < 32 → is_match bus slot func ≡ false) → Finds none
    first :
        (bus slot func : ℕ)
        → bus < 256
        → slot < 32
        → is_match bus slot func ≡ true
        → ((f : ℕ) → f < func → is_match bus slot f ≡ false)
        → ((s f : ℕ) → s < slot → is_match bus s f ≡ false)
        → ((b s f : ℕ) → b < bus → s < 32 → is_match b s f ≡ false)
        → Finds (some (bus, slot, func))

  -- One function of a slot that is there.
  try_func-match :
      (bus slot func : ℕ)
      → pci_read16 bus slot 0 0 c == 0xFFFF ≡ false
      → func < func_count bus slot c
      → try_func class_code subclass prog_if c bus slot func
        ≡ (if is_match bus slot func then some (bus, slot, func) else none)
  unfolding try_func
  try_func-match bus slot func there inside =
      let count : ltb func (func_count bus slot c) ≡ true = ground (arith, inside) in
      elim (Bool-cases (pci_read16 bus slot func 0 c == 0xFFFF)) [
        | inl absent ↦ rw (there, count, absent) refl
        | inr present ↦ rw (there, count, present) refl
      ]

  -- Functions behind the last.
  no_func : (bus slot f : ℕ) → func_count bus slot c ≤ f → is_match bus slot f ≡ false
  no_func bus slot f l =
      let behind : ltb f (func_count bus slot c) ≡ false = ground (arith, l) in
      rw behind (and_false _)

  data SlotFinds (bus slot : ℕ) : Option Place → Type 0 where
    none_here : ((f : ℕ) → is_match bus slot f ≡ false) → SlotFinds bus slot none
    here :
        (func : ℕ)
        → is_match bus slot func ≡ true
        → ((f : ℕ) → f < func → is_match bus slot f ≡ false)
        → SlotFinds bus slot (some (bus, slot, func))

  func-SlotFinds :
      (bus slot : ℕ) {r : Option Place}
      → pci_read16 bus slot 0 0 c == 0xFFFF ≡ false
      → Ends (func_count bus slot c) 0 (try_func class_code subclass prog_if c bus slot) r
      → SlotFinds bus slot r
  func-SlotFinds bus slot there (without h) = none_here (λ f.
      elim (dec_lt f (func_count bus slot c)) [
        | yes l ↦
            not_chosen _ (bus, slot, f)
              (sym (try_func-match bus slot f there l) ∙ h f (omega arith) (omega arith))
        | no l ↦ no_func bus slot f (omega arith)
      ])
  func-SlotFinds bus slot there (at k a low high hit before) =
      let p =
        chosen _ (bus, slot, k) a (sym (try_func-match bus slot k there (omega arith)) ∙ hit) in
      rw (← p.1) (
        here k p.0 (λ f l.
          not_chosen _ (bus, slot, f)
            (sym (try_func-match bus slot f there (omega arith)) ∙ before f (omega arith) l)))

  try_slot-SlotFinds :
      (bus slot : ℕ) → SlotFinds bus slot (try_slot class_code subclass prog_if c bus slot)
  unfolding try_slot
  try_slot-SlotFinds bus slot = elim (Bool-cases (pci_read16 bus slot 0 0 c == 0xFFFF)) [
    | inl absent ↦ rw absent (none_here (λ f. rw absent refl))
    | inr there ↦ rw there (
        func-SlotFinds bus slot there (
          first_from-Ends (func_count bus slot c) 0
            (try_func class_code subclass prog_if c bus slot)))
  ]

  -- From the answer of a slot.
  slot_none :
      {bus slot : ℕ} {r : Option Place}
      → SlotFinds bus slot r
      → r ≡ none
      → (f : ℕ) → is_match bus slot f ≡ false
  slot_none (none_here h) e = h
  slot_none (here func m before) e = absurd (some-ne-none _ e)

  data BusFinds (bus : ℕ) : Option Place → Type 0 where
    none_there : ((slot f : ℕ) → slot < 32 → is_match bus slot f ≡ false) → BusFinds bus none
    there :
        (slot func : ℕ)
        → slot < 32
        → is_match bus slot func ≡ true
        → ((f : ℕ) → f < func → is_match bus slot f ≡ false)
        → ((s f : ℕ) → s < slot → is_match bus s f ≡ false)
        → BusFinds bus (some (bus, slot, func))

  try_bus-BusFinds : (bus : ℕ) → BusFinds bus (try_bus class_code subclass prog_if c bus)
  unfolding try_bus
  try_bus-BusFinds bus = of (first_from-Ends 32 0 (try_slot class_code subclass prog_if c bus))
    where
      of :
          {r : Option Place}
          → Ends 32 0 (try_slot class_code subclass prog_if c bus) r
          → BusFinds bus r
      of (without h) =
          none_there
            (λ s f l. slot_none (try_slot-SlotFinds bus s) (h s (omega arith) (omega arith)) f)
      of (at k a low high hit before) =
          slot_hit k a (try_slot-SlotFinds bus k) hit (omega arith)
            (λ s f l. slot_none (try_slot-SlotFinds bus s) (before s (omega arith) l) f)
        where
          slot_hit :
              (slot : ℕ) (p : Place) {r : Option Place}
              → SlotFinds bus slot r
              → r ≡ some p
              → slot < 32
              → ((s f : ℕ) → s < slot → is_match bus s f ≡ false)
              → BusFinds bus (some p)
          slot_hit slot p (none_here h) e l b = absurd (some-ne-none p (sym e))
          slot_hit slot p (here func m first_here) e l b =
              rw (← some-injective (bus, slot, func) p e) (there slot func l m first_here b)

  bus_none :
      {bus : ℕ} {r : Option Place}
      → BusFinds bus r
      → r ≡ none
      → (s f : ℕ) → s < 32
      → is_match bus s f ≡ false
  bus_none (none_there h) e = h
  bus_none (there slot func l m a b) e = absurd (some-ne-none _ e)

  bus_hit :
      (bus : ℕ) (p : Place) {r : Option Place}
      → BusFinds bus r
      → r ≡ some p
      → bus < 256
      → ((b s f : ℕ) → b < bus → s < 32 → is_match b s f ≡ false)
      → Finds (some p)
  bus_hit bus p (none_there h) e l b = absurd (some-ne-none p (sym e))
  bus_hit bus p (there slot func l' m a b') e l b =
      rw (← some-injective (bus, slot, func) p e) (first bus slot func l l' m a b' b)

  -- The search answers the first function that is there and of the class, in the order of bus, slot and
  -- function, and none exactly where there is no such function; functions behind the first are looked at
  -- in a device that says it has several.
  pub pci_find_class-Finds : Finds (pci_find_class class_code subclass prog_if c)
  unfolding pci_find_class
  pci_find_class-Finds = of (first_from-Ends 256 0 (try_bus class_code subclass prog_if c))
    where
      of : {r : Option Place} → Ends 256 0 (try_bus class_code subclass prog_if c) r → Finds r
      of (without h) =
          nowhere
            (λ b s f l l'. bus_none (try_bus-BusFinds b) (h b (omega arith) (omega arith)) s f l')
      of (at k a low high hit before) =
          bus_hit k a (try_bus-BusFinds k) hit (omega arith)
            (λ b s f l l'. bus_none (try_bus-BusFinds b) (before b (omega arith) l) s f l')
