-- ===== src/Dev/Table.antt =====
-- `dev_register`, `dev_find` and `dev_unregister` of fs/dev.c on the same table.
use artyom_x.Base.{
  ℕ, ◌≤◌, ◌<◌, ◌≡◌, ◌≢◌, ◌∙◌, refl, true, false, none, some, List, [], ◌∷◌, ◌++◌, arith, leb, ◌==◌,
  if◌then◌else◌, Bool-cases, inl, inr, length, length-append,
}
use artyom_x.Libc.{strcmp, ℤ, pos, negsuc}
use artyom_x.Libc.Strings.{strcmp_equal}
use artyom_x.Dev.{Device, dev_find, is_taken, dev_register, dev_unregister}

find-append :
    (name : List ℕ) (d : Device) (devices : List Device)
    → is_taken name devices ≡ false
    → dev_find name (devices ++ (d ∷ [])) ≡ (if strcmp d.name name == 0 then some d else none)
unfolding dev_find is_taken
find-append name d [] = λ free. refl
find-append name d (x ∷ devices) = elim (Bool-cases (strcmp x.name name == 0)) [
  | inl e ↦ rw e (λ free. absurd (ground arith))
  | inr ne ↦ rw ne (λ free. find-append name d devices free)
]

find_other :
    (name : List ℕ) (d : Device) (devices : List Device)
    → (strcmp d.name name == 0) ≡ false
    → dev_find name (devices ++ (d ∷ [])) ≡ dev_find name devices
unfolding dev_find
find_other name d [] ne = rw ne refl
find_other name d (x ∷ devices) ne = rw (find_other name d devices ne) refl

-- No device of the table is at the address.
unfoldable pub IsNew : ℕ → List Device → Type 0
IsNew a [] = Unit
IsNew a (d ∷ devices) = ((d.address == a) ≡ false) × IsNew a devices

unregister-append :
    (d : Device) (devices : List Device)
    → IsNew d.address devices
    → (d.node == 0) ≡ false
    → dev_unregister d.address (devices ++ (d ∷ [])) ≡ (pos 0, devices, some d.node)
unfolding dev_unregister IsNew
unregister-append d [] new nz =
    let here : (d.address == d.address) ≡ true = ground arith in rw (here, nz) refl
unregister-append d (x ∷ devices) new nz = rw (new.0, unregister-append d devices new.1 nz) refl

-- How `dev_register` ends: a table that is full, a name that is there, no memory for the node, or the
-- device is found by its name, all other names are found as before, and `dev_unregister` undoes it.
pub data Enrols (node : ℕ) (dev : Device) (devices : List Device) : ℤ × List Device → Type 0 where
  full : 64 ≤ length devices → Enrols node dev devices (negsuc 0, devices)
  taken : is_taken dev.name devices ≡ true → Enrols node dev devices (negsuc 1, devices)
  no_memory : node ≡ 0 → Enrols node dev devices (negsuc 2, devices)
  registered :
      {after : List Device}
      → length after ≤ 64
      → dev_find dev.name after ≡ some (record dev { node = node })
      → ((name : List ℕ) → strcmp dev.name name ≢ 0 → dev_find name after ≡ dev_find name devices)
      → dev_unregister dev.address after ≡ (pos 0, devices, some node)
      → Enrols node dev devices (pos 0, after)

-- `dev_register` refuses for a reason and changes nothing, or the device is then found by its name, every
-- other name is found as before, the table holds at most 64, and `dev_unregister` restores it and
-- frees the node. The device is not in the table yet.
pub dev_register-Enrols :
    (node : ℕ) (dev : Device) (devices : List Device)
    → IsNew dev.address devices
    → Enrols node dev devices (dev_register node dev devices)
unfolding dev_register
dev_register-Enrols node dev devices new = elim (Bool-cases (leb 64 (length devices))) [
  | inl f ↦ rw f (full (ground arith))
  | inr room ↦ elim (Bool-cases (is_taken dev.name devices)) [
    | inl t ↦ rw (room, t) (taken t)
    | inr free ↦ elim (Bool-cases (node == 0)) [
      | inl z ↦ rw (room, free, z) (no_memory (ground arith))
      | inr nz ↦
          let d : Device = record dev { node = node } in
          let same : (strcmp dev.name dev.name == 0) ≡ true =
            ground (arith, (strcmp_equal dev.name dev.name).1 refl) in
          rw (room, free, nz)
            (registered
              (omega (
                arith,
                length-append devices (d ∷ []),
                (let below : length devices < 64 = ground arith in below),
              ))
              (find-append dev.name d devices free ∙ rw same refl)
              (λ name ne. find_other name d devices (ground arith))
              (unregister-append d devices new nz))
    ]
  ]
]
