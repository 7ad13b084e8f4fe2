-- ===== src/Loader/Segments/Place.antt =====
-- The loop over the segments in fs/loader.c: what the buffer holds behind it.
use artyom_x.Base.{
  ℕ, zero, suc, ◌+◌, ◌-◌, ◌*◌, ◌≤◌, ◌<◌, ◌≡◌, ◌⊎◌, inl, inr, ◌∙◌, refl, ap, true, false, some, List,
  [], ◌∷◌, ltb, ◌==◌, if◌then◌else◌, Bool-cases, arith,
}
use artyom_x.Libc.{Memory}
use artyom_x.Libc.Copy.{within}
use artyom_x.Loader.Image.{Phdr, phdr_at, phdr_size, pt_load}
use artyom_x.Loader.Words.{Same, Same-part, phdr_at-Same}
use artyom_x.Loader.{load_segment, load_segments}
use artyom_x.Loader.Segments.{Layout, IsLayout, IsFit, place_of, segment_byte, load_segment-bytes}

-- The program headers, and the byte that a place of memory has when they are loaded one behind the other.
unfoldable pub headers : ℕ → ℕ → Memory → List Phdr
headers zero a mem = []
headers (suc n) a mem = phdr_at mem a ∷ headers n (a + phdr_size) mem

unfoldable pub placed : Layout → Memory → List Phdr → ℕ → ℕ → ℕ
placed l mem [] i prior = prior
placed l mem (p ∷ ps) i prior =
    placed l mem ps i (if p.type == pt_load then segment_byte l mem p i prior else prior)

unfoldable pub AllFit : Layout → List Phdr → Type 0
AllFit l [] = Unit
AllFit l (p ∷ ps) = ((p.type == pt_load) ≡ true → IsFit l p) × AllFit l ps

module _ (l : Layout) (v : IsLayout l) (mem : Memory) where
  segment_byte-Same :
      (p : Phdr) (cur : Memory) (i prior : ℕ)
      → IsFit l p
      → Same l.elf_start l.image mem cur
      → segment_byte l cur p i prior ≡ segment_byte l mem p i prior
  unfolding segment_byte
  segment_byte-Same p cur i prior f h = elim (Bool-cases (within (place_of l p) p.filesz i)) [
    | inl w ↦ rw w (
        h.alike (l.elf_start + p.offset + (i - place_of l p)) (omega arith)
          (ground (arith, f.in_image)))
    | inr w ↦ rw w refl
  ]

  segment_byte-outside :
      (p : Phdr) (i prior : ℕ)
      → IsFit l p
      → (i < l.exec) ⊎ (l.exec + l.size ≤ i)
      → segment_byte l mem p i prior ≡ prior
  unfolding segment_byte
  segment_byte-outside p i prior f out =
      let no_file : within (place_of l p) p.filesz i ≡ false =
        ground (arith, f.above, f.below, f.sized) in
      let no_zero : within (place_of l p) p.memsz i ≡ false = ground (arith, f.above, f.below) in
      rw (no_file, no_zero) refl

  pub placed-outside :
      (ps : List Phdr) (i prior : ℕ)
      → AllFit l ps
      → (i < l.exec) ⊎ (l.exec + l.size ≤ i)
      → placed l mem ps i prior ≡ prior
  unfolding placed AllFit
  placed-outside [] i prior f out = refl
  placed-outside (p ∷ ps) i prior f out = elim (Bool-cases (p.type == pt_load)) [
    | inl t ↦ rw (t, segment_byte-outside p i prior (f.0 t) out) (placed-outside ps i prior f.1 out)
    | inr t ↦ rw t (placed-outside ps i prior f.1 out)
  ]

  -- The image stays as it is, so that the headers are read from it as they were.
  still-Same :
      (p : Phdr) (cur : Memory)
      → IsFit l p
      → Same l.elf_start l.image mem cur
      → Same l.elf_start l.image mem (load_segment l.elf_start l.exec l.load_addr p cur)
  still-Same p cur f h = record {
    alike = λ i x y.
        load_segment-bytes l v p f cur i
        ∙ segment_byte-Same p cur i (cur i) f h
        ∙ segment_byte-outside p i (cur i) f (ground (arith, v.apart))
        ∙ h.alike i x y;
  }

  pub load_segments-placed :
      (n a : ℕ) (cur : Memory)
      → Same l.elf_start l.image mem cur
      → l.elf_start ≤ a
      → a + n * 56 ≤ l.elf_start + l.image
      → AllFit l (headers n a mem)
      → (new : Memory) × (load_segments n a l.elf_start l.exec l.load_addr cur ≡ some new)
        × ((i : ℕ) → new i ≡ placed l mem (headers n a mem) i (cur i))
  unfolding load_segments headers placed AllFit
  load_segments-placed zero a cur h x y f = (cur, refl, λ i. refl)
  load_segments-placed (suc n) a cur h x y f =
      let p = phdr_at mem a in
      let same : phdr_at cur a ≡ p = phdr_at-Same a mem cur (Same-part h x (omega arith)) in
      elim (Bool-cases (p.type == pt_load)) [
        | inl t ↦
            let fit = f.0 t in
            let sized : ltb p.memsz p.filesz ≡ false = ground (arith, fit.sized) in
            let r =
              load_segments-placed n (a + 56) (load_segment l.elf_start l.exec l.load_addr p cur)
                (still-Same p cur fit h) (omega arith) (omega (arith, y)) f.1 in
            let one : (i : ℕ)
                → load_segment l.elf_start l.exec l.load_addr p cur i
                  ≡ (if p.type == pt_load then segment_byte l mem p i (cur i) else cur i) =
              λ i.
                rw t
                  (load_segment-bytes l v p fit cur i ∙ segment_byte-Same p cur i (cur i) fit h) in
            (
              r.0,
              rw (same, t, sized) r.1,
              λ i. r.2 i ∙ ap (placed l mem (headers n (a + 56) mem) i) (one i),
            )
        | inr t ↦
            let r = load_segments-placed n (a + 56) cur h (omega arith) (omega (arith, y)) f.1 in
            let none_here : (i : ℕ)
                → cur i ≡ (if p.type == pt_load then segment_byte l mem p i (cur i) else cur i) =
              λ i. rw t refl in
            (
              r.0,
              rw (same, t) r.1,
              λ i. r.2 i ∙ ap (placed l mem (headers n (a + 56) mem) i) (none_here i),
            )
      ]
