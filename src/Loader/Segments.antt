-- ===== src/Loader/Segments.antt =====
-- The segments of an image that fs/loader.c loads: what its buffer holds, and that it is large enough.
pub mod Place
pub mod Buffer
pub mod Load
use artyom_x.Base.{
  ℕ, zero, suc, ◌+◌, ◌-◌, ◌*◌, ◌/◌, ◌%◌, ◌^◌, ◌≤◌, ◌<◌, ◌≡◌, ◌≢◌, ◌⊎◌, inl, inr, ◌∙◌, refl, ap,
  true, false, not, Option, some, none, List, [], ◌∷◌, ltb, leb, ◌==◌, ◌&&◌, ◌||◌, if◌then◌else◌,
  Bool-cases, arith,
}
use artyom_x.Libc.{Memory, memset, memmove}
use artyom_x.Libc.Copy.{within, Moved, memmove-Moved, memset-sets}
use artyom_x.Loader.Image.{Phdr, phdr_at, phdr_size, pt_load}
use artyom_x.Loader.{load_segment, minus64}

-- Where the image and the buffer are.
pub record Layout : Type 0 where
  pub elf_start : ℕ
  pub image : ℕ
  pub exec : ℕ
  pub load_addr : ℕ
  pub size : ℕ

pub record IsLayout (l : Layout) : Type 0 where
  pub image_fits : l.elf_start + l.image < 2 ^ 64
  pub buffer_fits : l.exec + l.size < 2 ^ 64
  pub apart : (l.elf_start + l.image ≤ l.exec) ⊎ (l.exec + l.size ≤ l.elf_start)

-- A segment in the image, with a place in the buffer.
pub record IsFit (l : Layout) (p : Phdr) : Type 0 where
  pub above : l.load_addr ≤ p.vaddr
  pub below : p.vaddr + p.memsz ≤ l.load_addr + l.size
  pub in_words : p.vaddr + p.memsz < 2 ^ 64
  pub small : p.memsz < 2 ^ 32
  pub sized : p.filesz ≤ p.memsz
  pub in_image : p.offset + p.filesz ≤ l.image

-- Where a segment goes in the buffer.
abbrev pub place_of : Layout → Phdr → ℕ
place_of l p = l.exec + (p.vaddr - l.load_addr)

-- The byte at `i` behind the load of a segment: of the file, or 0, or as before.
unfoldable pub segment_byte : Layout → Memory → Phdr → ℕ → ℕ → ℕ
segment_byte l mem p i prior =
    if within (place_of l p) p.filesz i
    then mem (l.elf_start + p.offset + (i - place_of l p))
    else if within (place_of l p) p.memsz i
    then 0
    else prior

-- The zeroes behind the bytes of the file, as one range.
joined_range :
    (t f m i x prior : ℕ)
    → f ≤ m
    → (if within (t + f) (m - f) i then 0 else if within t f i then x else prior)
      ≡ (if within t f i then x else if within t m i then 0 else prior)
joined_range t f m i x prior h = elim (Bool-cases (within t f i)) [
  | inl w ↦ let out : within (t + f) (m - f) i ≡ false = ground (arith, h) in rw (w, out) refl
  | inr w ↦ elim (Bool-cases (within t m i)) [
    | inl u ↦
        let inside : within (t + f) (m - f) i ≡ true = ground (arith, h) in rw (w, u, inside) refl
    | inr u ↦ let out : within (t + f) (m - f) i ≡ false = ground (arith, h) in rw (w, u, out) refl
  ]
]

no_zeroes :
    (t f m i x prior : ℕ)
    → f ≡ m
    → (if within t f i then x else prior)
      ≡ (if within t f i then x else if within t m i then 0 else prior)
no_zeroes t f m i x prior e = elim (Bool-cases (within t f i)) [
  | inl w ↦ rw w refl
  | inr w ↦ rw (← e, w) refl
]

module _ (l : Layout) (v : IsLayout l) (p : Phdr) (f : IsFit l p) (mem : Memory) where
  target : (l.exec + minus64 p.vaddr l.load_addr) % 2 ^ 64 ≡ place_of l p
  target = omega (arith, v.buffer_fits, f.above, f.below, f.in_words)

  copied :
      (i : ℕ)
      → (if p.filesz == 0
            then mem
            else memmove (place_of l p) (l.elf_start + p.offset) p.filesz mem)
          i
        ≡ (if within (place_of l p) p.filesz i
            then mem (l.elf_start + p.offset + (i - place_of l p))
            else mem i)
  unfolding Moved
  copied i = elim (Bool-cases (p.filesz == 0)) [
    | inl z ↦ let out : within (place_of l p) p.filesz i ≡ false = ground arith in rw (z, out) refl
    | inr nz ↦ rw nz (memmove-Moved (place_of l p) (l.elf_start + p.offset) p.filesz mem i)
  ]

  pub load_segment-bytes :
      (i : ℕ) → load_segment l.elf_start l.exec l.load_addr p mem i ≡ segment_byte l mem p i (mem i)
  unfolding load_segment segment_byte
  load_segment-bytes i =
      let start : (l.elf_start + p.offset) % 2 ^ 64 ≡ l.elf_start + p.offset =
        omega (arith, v.image_fits, f.in_image) in
      let count : p.filesz % 2 ^ 32 ≡ p.filesz = omega (arith, f.sized, f.small) in
      let rest : (p.memsz - p.filesz) % 2 ^ 32 ≡ p.memsz - p.filesz = omega (arith, f.small) in
      let end : (place_of l p + p.filesz) % 2 ^ 64 ≡ place_of l p + p.filesz =
        omega (arith, v.buffer_fits, f.above, f.below, f.sized) in
      elim (Bool-cases (ltb p.filesz p.memsz)) [
        | inl more ↦
            rw (more, target, start, count, rest, end)
              (memset-sets (place_of l p + p.filesz) 0 (p.memsz - p.filesz) _ i
                ∙ rw (copied i) (joined_range (place_of l p) p.filesz p.memsz i _ (mem i) f.sized))
        | inr all ↦
            rw (all, target, start, count)
              (copied i
                ∙ no_zeroes (place_of l p) p.filesz p.memsz i _ (mem i) (ground (arith, f.sized)))
      ]
