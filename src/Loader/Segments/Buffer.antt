-- ===== src/Loader/Segments/Buffer.antt =====
-- The buffer that fs/loader.c takes for the segments of an image has room for them.
use artyom_x.Base.{
  ℕ, zero, suc, ◌+◌, ◌-◌, ◌%◌, ◌^◌, ◌≤◌, ◌<◌, ◌≡◌, inl, inr, refl, true, false, List, [], ◌∷◌, ltb,
  ◌==◌, if◌then◌else◌, Bool-cases, arith,
}
use artyom_x.Libc.{Memory}
use artyom_x.Loader.Image.{Phdr, phdr_at, pt_load}
use artyom_x.Loader.{extent, page_down, buffer_size}
use artyom_x.Loader.Segments.{Layout}
use artyom_x.Loader.Segments.Place.{headers, AllFit}

-- A segment whose bytes are in the image and whose sizes agree; the buffer is not asked for yet.
pub record IsSound (image : ℕ) (p : Phdr) : Type 0 where
  pub in_words : p.vaddr + p.memsz < 2 ^ 64
  pub small : p.memsz < 2 ^ 32
  pub sized : p.filesz ≤ p.memsz
  pub in_image : p.offset + p.filesz ≤ image

unfoldable pub AllSound : ℕ → List Phdr → Type 0
AllSound image [] = Unit
AllSound image (p ∷ ps) = ((p.type == pt_load) ≡ true → IsSound image p) × AllSound image ps

-- All segments lie between two addresses.
AllBetween : ℕ → ℕ → List Phdr → Type 0
AllBetween lo hi [] = Unit
AllBetween lo hi (p ∷ ps) =
    ((p.type == pt_load) ≡ true → (lo ≤ p.vaddr) × (p.vaddr + p.memsz ≤ hi)) × AllBetween lo hi ps

record Covers (lo hi : ℕ) (ps : List Phdr) (range : ℕ × ℕ) : Type 0 where
  low : range.0 ≤ lo
  high : hi ≤ range.1
  all : AllBetween range.0 range.1 ps

-- A round of the loop, at a segment to load.
extent_load :
    (n a lo hi : ℕ) (mem : Memory)
    → ((phdr_at mem a).type == pt_load) ≡ true
    → (phdr_at mem a).vaddr + (phdr_at mem a).memsz < 2 ^ 64
    → let p = phdr_at mem a in
      extent (suc n) a mem (lo, hi)
      ≡ extent n (a + 56) mem (
        if ltb p.vaddr lo then p.vaddr else lo,
        if ltb hi (p.vaddr + p.memsz) then p.vaddr + p.memsz else hi,
      )
unfolding extent
extent_load n a lo hi mem t h =
    let p = phdr_at mem a in
    let whole : (p.vaddr + p.memsz) % 2 ^ 64 ≡ p.vaddr + p.memsz = omega (arith, h) in
    rw (t, whole) refl

extent_skip :
    (n a lo hi : ℕ) (mem : Memory)
    → ((phdr_at mem a).type == pt_load) ≡ false
    → extent (suc n) a mem (lo, hi) ≡ extent n (a + 56) mem (lo, hi)
unfolding extent
extent_skip n a lo hi mem t = rw t refl

extent_end : (a lo hi : ℕ) (mem : Memory) → extent zero a mem (lo, hi) ≡ (lo, hi)
unfolding extent
extent_end a lo hi mem = refl

extent-Covers :
    (n a image lo hi : ℕ) (mem : Memory)
    → AllSound image (headers n a mem)
    → Covers lo hi (headers n a mem) (extent n a mem (lo, hi))
unfolding headers AllSound AllBetween
extent-Covers zero a image lo hi mem s =
    rw (extent_end a lo hi mem) (record { low = omega arith; high = omega arith; all = tt })
extent-Covers (suc n) a image lo hi mem s =
    let p = phdr_at mem a in
    elim (Bool-cases (p.type == pt_load)) [
      | inl t ↦
          let end = p.vaddr + p.memsz in
          let less = if ltb p.vaddr lo then p.vaddr else lo in
          let more = if ltb hi end then end else hi in
          let below : (less ≤ p.vaddr) × (less ≤ lo) = ground arith in
          let above : (end ≤ more) × (hi ≤ more) = ground arith in
          let r = extent-Covers n (a + 56) image less more mem s.1 in
          rw (extent_load n a lo hi mem t (s.0 t).in_words) (record {
            low = omega (arith, r.low, below.1);
            high = omega (arith, r.high, above.1);
            all = ((λ _. (omega (arith, r.low, below.0), omega (arith, r.high, above.0))), r.all);
          })
      | inr t ↦
          let r = extent-Covers n (a + 56) image lo hi mem s.1 in
          rw (extent_skip n a lo hi mem t)
            (record { low = r.low; high = r.high; all = ((λ e. absurd (ground arith)), r.all) })
    ]

-- The pages between the ends, and one more for the part of a page below the first.
pub buffer_size_value :
    (lo hi : ℕ)
    → lo ≤ hi
    → hi < lo + 2 ^ 31
    → hi < 2 ^ 64
    → (buffer_size (lo, hi) ≡ page_down (hi - lo + 4095) + 4096)
      × (hi ≤ page_down lo + buffer_size (lo, hi))
unfolding buffer_size
buffer_size_value lo hi order near word =
    let span : (hi + 2 ^ 64 - lo) % 2 ^ 64 ≡ hi - lo = omega (arith, order, word) in
    let up : (hi - lo + 4095) % 2 ^ 64 ≡ hi - lo + 4095 = omega (arith, near) in
    let whole : (page_down (hi - lo + 4095) + 4096) % 2 ^ 64 ≡ page_down (hi - lo + 4095) + 4096 =
      omega (arith, near) in
    rw (span, up, whole) (refl, omega (arith, order))

-- With the buffer, every sound segment fits.
between-AllFit :
    (l : Layout) (lo hi : ℕ) (ps : List Phdr)
    → l.load_addr ≡ page_down lo
    → hi ≤ page_down lo + l.size
    → AllSound l.image ps
    → AllBetween lo hi ps
    → AllFit l ps
unfolding AllSound AllBetween AllFit
between-AllFit l lo hi [] e h s b = tt
between-AllFit l lo hi (p ∷ ps) e h s b = (
  (λ t. record {
    above = omega (arith, e, (b.0 t).0);
    below = omega (arith, e, h, (b.0 t).1);
    in_words = (s.0 t).in_words;
    small = (s.0 t).small;
    sized = (s.0 t).sized;
    in_image = (s.0 t).in_image;
  }),
  between-AllFit l lo hi ps e h s.1 b.1,
)

-- Every sound segment fits the buffer for the extent of all.
pub extent-AllFit :
    (l : Layout) (n a : ℕ) (mem : Memory)
    → AllSound l.image (headers n a mem)
    → let range = extent n a mem (2 ^ 64 - 1, 0) in
      (l.load_addr ≡ page_down range.0)
        × (l.size ≡ buffer_size range)
        × (range.0 ≤ range.1)
        × (range.1 < range.0 + 2 ^ 31)
        × (range.1 < 2 ^ 64)
      → AllFit l (headers n a mem)
extent-AllFit l n a mem s (low, size, order, near, word) =
    let range = extent n a mem (2 ^ 64 - 1, 0) in
    let c = extent-Covers n a l.image (2 ^ 64 - 1) 0 mem s in
    let b = buffer_size_value range.0 range.1 order near word in
    between-AllFit l range.0 range.1 (headers n a mem) low (omega (arith, b.1, size)) s c.all
