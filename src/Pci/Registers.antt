-- ===== src/Pci/Registers.antt =====
-- Reads and writes of half words in the configuration space, drivers/pci.c.
use artyom_x.Base.{
  ℕ, ◌*◌, ◌/◌, ◌%◌, ◌^◌, ◌<◌, ◌≡◌, ◌⊎◌, inl, inr, refl, true, ◌==◌, if◌then◌else◌, Bool-cases,
  arith,
}
use artyom_x.Pci.{
  Config, pci_make_addr, pci_read32, pci_write32, pci_read16, pci_write16, shift16, with_half,
}

pci_write32-read : (b s f o v : ℕ) (c : Config) → pci_read32 b s f o (pci_write32 b s f o v c) ≡ v
unfolding pci_write32
pci_write32-read b s f o v c =
    let same : (pci_make_addr b s f o == pci_make_addr b s f o) ≡ true = ground arith in
    rw same refl

-- The two halves of a word.
half_cases : (o : ℕ) → (shift16 o ≡ 0) ⊎ (shift16 o ≡ 16)
half_cases o = elim (Bool-cases (o / 2 % 2 == 0)) [
  | inl e ↦ inl (ground (arith, e))
  | inr e ↦ inr (ground (arith, e))
]

with_half_read :
    (s s' value v : ℕ)
    → (s ≡ 0) ⊎ (s ≡ 16)
    → (s' ≡ 0) ⊎ (s' ≡ 16)
    → value < 2 ^ 16
    → v < 2 ^ 32
    → with_half s value v / 2 ^ s' % 2 ^ 16 ≡ (if s' == s then value else v / 2 ^ s' % 2 ^ 16)
with_half_read s s' value v (inl a) (inl b) p q = rw (a, b) (omega arith)
with_half_read s s' value v (inl a) (inr b) p q = rw (a, b) (omega arith)
with_half_read s s' value v (inr a) (inl b) p q = rw (a, b) (omega arith)
with_half_read s s' value v (inr a) (inr b) p q = rw (a, b) (omega arith)

-- A half word that is written is read back, and the other half of its word keeps what it had.
pub pci_write16-read16 :
    (b s f o o' value : ℕ) (c : Config)
    → value < 2 ^ 16
    → pci_read32 b s f (o / 4 * 4) c < 2 ^ 32
    → o / 4 ≡ o' / 4
    → pci_read16 b s f o' (pci_write16 b s f o value c)
      ≡ (if shift16 o' == shift16 o then value else pci_read16 b s f o' c)
unfolding pci_read16 pci_write16
pci_write16-read16 b s f o o' value c p q e =
    let v = pci_read32 b s f (o / 4 * 4) c in
    rw (← e, pci_write32-read b s f (o / 4 * 4) (with_half (shift16 o) value v) c)
      (with_half_read (shift16 o) (shift16 o') value v (half_cases o) (half_cases o') p q)
