-- ===== src/Dev.antt =====
-- The device table, fs/dev.c. `devices` is the list of the `num_devices` pointers with what they point
-- to; what `malloc` answers is an argument, and what is freed is a result. An int is a `ℤ`.
mod Table
mod Tests
use artyom_x.Base.{
  ℕ, zero, suc, ◌+◌, ◌*◌, ◌/◌, ◌%◌, ◌^◌, ◌&&◌, ◌||◌, Bool, true, false, not, Option, none, some,
  List, [], ◌∷◌, ◌++◌, leb, ltb, ◌==◌, if◌then◌else◌, bit_xor, length,
}
use artyom_x.Libc.{Memory, strcmp, store, memset, ℤ, pos, negsuc}

abbrev pub max_devices : ℕ
max_devices = 64

-- A `device_t` and the address where it is; `node` is 0 where it has none.
pub record Device : Type 0 where
  pub address : ℕ
  pub name : List ℕ
  pub major : ℕ
  pub minor : ℕ
  pub node : ℕ

pub dev_find : List ℕ → List Device → Option Device
dev_find name [] = none
dev_find name (d ∷ devices) =
    let rest = dev_find name devices in if strcmp d.name name == 0 then some d else rest

pub dev_find_by_major_minor : ℕ → ℕ → List Device → Option Device
dev_find_by_major_minor major minor [] = none
dev_find_by_major_minor major minor (d ∷ devices) =
    let rest = dev_find_by_major_minor major minor devices in
    if (d.major == major) && (d.minor == minor) then some d else rest

pub devfs_finddir : List ℕ → List Device → Option ℕ
devfs_finddir name [] = none
devfs_finddir name (d ∷ devices) =
    let rest = devfs_finddir name devices in if strcmp name d.name == 0 then some d.node else rest

-- The loop that looks for the name.
pub is_taken : List ℕ → List Device → Bool
is_taken name [] = false
is_taken name (d ∷ devices) =
    let rest = is_taken name devices in if strcmp d.name name == 0 then true else rest

pub dev_register : ℕ → Device → List Device → ℤ × List Device
dev_register node dev devices =
    if leb max_devices (length devices)
    then (negsuc 0, devices)
    else if is_taken dev.name devices
    then (negsuc 1, devices)
    else if node == 0
    then (negsuc 2, devices)
    else (pos 0, devices ++ (record dev { node = node } ∷ []))

-- The loop from the entry on: the answer, the table, and the node that is freed.
pub dev_unregister : ℕ → List Device → ℤ × List Device × Option ℕ
dev_unregister dev [] = (negsuc 0, [], none)
dev_unregister dev (d ∷ devices) =
    let (answer, rest, freed) = dev_unregister dev devices in
    if d.address == dev
    then (pos 0, devices, if d.node == 0 then none else some d.node)
    else (answer, d ∷ rest, freed)

-- The devices that are there from the start: what they answer and the memory.
pub null_read : ℕ → ℕ → Memory → ℕ × Memory
null_read size buffer mem = (0, mem)

pub null_write : ℕ → ℕ → Memory → ℕ × Memory
null_write size buffer mem = (size, mem)

pub zero_read : ℕ → ℕ → Memory → ℕ × Memory
zero_read size buffer mem = (size, memset buffer 0 size mem)

-- The seed after a step, which is also the answer.
pub random_next : ℕ → ℕ
random_next seed =
    let a = bit_xor seed (seed * 2 ^ 13 % 2 ^ 32) in
    let b = bit_xor a (a / 2 ^ 17) in bit_xor b (b * 2 ^ 5 % 2 ^ 32)
