-- ===== src/Pci.antt =====
-- The configuration space of PCI, drivers/pci.c. What the ports 0xCF8 and 0xCFC reach is a function from
-- addresses to 32-bit words.
pub mod Registers
pub mod Loop
pub mod Search
mod Tests
use artyom_x.Base.{
  ℕ, zero, suc, ◌+◌, ◌-◌, ◌*◌, ◌/◌, ◌%◌, ◌^◌, ◌&&◌, ◌||◌, Bool, true, false, not, Option, none,
  some, ltb, leb, ◌==◌, if◌then◌else◌, bit_or,
}

abbrev pub Config : Type 0
Config = ℕ → ℕ

unfoldable pub pci_make_addr : ℕ → ℕ → ℕ → ℕ → ℕ
pci_make_addr bus slot func offset =
    bit_or (2 ^ 31)
      (bit_or (bus * 2 ^ 16) (bit_or (slot * 2 ^ 11) (bit_or (func * 2 ^ 8) (offset / 4 * 4))))

abbrev pub pci_read32 : ℕ → ℕ → ℕ → ℕ → Config → ℕ
pci_read32 bus slot func offset c = c (pci_make_addr bus slot func offset)

unfoldable pub pci_write32 : ℕ → ℕ → ℕ → ℕ → ℕ → Config → Config
pci_write32 bus slot func offset value c a =
    if a == pci_make_addr bus slot func offset then value else c a

-- The position of an offset in its word, in bits.
abbrev pub shift16 : ℕ → ℕ
shift16 offset = offset / 2 % 2 * 16

unfoldable pub pci_read16 : ℕ → ℕ → ℕ → ℕ → Config → ℕ
pci_read16 bus slot func offset c =
    pci_read32 bus slot func (offset / 4 * 4) c / 2 ^ shift16 offset % 2 ^ 16

unfoldable pub pci_read8 : ℕ → ℕ → ℕ → ℕ → Config → ℕ
pci_read8 bus slot func offset c =
    pci_read32 bus slot func (offset / 4 * 4) c / 2 ^ (offset % 4 * 8) % 2 ^ 8

-- `(v & ~(0xFFFF << shift)) | (value << shift)`.
abbrev pub with_half : ℕ → ℕ → ℕ → ℕ
with_half shift value v = v - v / 2 ^ shift % 2 ^ 16 * 2 ^ shift + value * 2 ^ shift

unfoldable pub pci_write16 : ℕ → ℕ → ℕ → ℕ → ℕ → Config → Config
pci_write16 bus slot func offset value c =
    let v = pci_read32 bus slot func (offset / 4 * 4) c in
    pci_write32 bus slot func (offset / 4 * 4) (with_half (shift16 offset) value v) c

unfoldable pub or_else {ℓ} : {A : Type ℓ} → Option A → Option A → Option A
or_else none rest = rest
or_else (some a) rest = some a

-- A loop from `i` on that returns at its first result.
unfoldable pub first_from {ℓ} : {A : Type ℓ} → ℕ → ℕ → (ℕ → Option A) → Option A
first_from zero i body = none
first_from (suc n) i body = or_else (body i) (first_from n (i + 1) body)

abbrev pub Place : Type 0
Place = ℕ × ℕ × ℕ

-- Is there a function, and of the class? A `prog_if` of 0xFF is any.
unfoldable pub is_class : ℕ → ℕ → ℕ → ℕ → Bool
is_class class_code subclass prog_if classreg =
    (classreg / 2 ^ 24 % 2 ^ 8 == class_code)
    && ((classreg / 2 ^ 16 % 2 ^ 8 == subclass)
        && ((prog_if == 0xFF) || (classreg / 2 ^ 8 % 2 ^ 8 == prog_if)))

unfoldable pub func_count : ℕ → ℕ → Config → ℕ
func_count bus slot c = if leb 128 (pci_read8 bus slot 0 0x0E c) then 8 else 1

module _ (class_code subclass prog_if : ℕ) (c : Config) where
  unfoldable pub try_func : ℕ → ℕ → ℕ → Option Place
  try_func bus slot func =
      if pci_read16 bus slot func 0 c == 0xFFFF
      then none
      else if is_class class_code subclass prog_if (pci_read32 bus slot func 0x08 c)
      then some (bus, slot, func)
      else none

  unfoldable pub try_slot : ℕ → ℕ → Option Place
  try_slot bus slot =
      if pci_read16 bus slot 0 0 c == 0xFFFF
      then none
      else first_from (func_count bus slot c) 0 (try_func bus slot)

  unfoldable pub try_bus : ℕ → Option Place
  try_bus bus = first_from 32 0 (try_slot bus)

  unfoldable pub pci_find_class : Option Place
  pci_find_class = first_from 256 0 try_bus
