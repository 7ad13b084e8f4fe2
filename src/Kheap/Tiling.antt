-- ===== src/Kheap/Tiling.antt =====
-- The blocks of an arena of mm/kheap.c: they tile it, no two free ones are adjacent, and the used
-- ones are what callers hold.
use artyom_x.Base.{
  ℕ, ◌+◌, ◌%◌, ◌≡◌, ◌⊎◌, inl, inr, ◌&&◌, refl, Bool, true, false, List, [], ◌∷◌, ◌++◌,
}
use artyom_x.Kheap.{Block, Arena, header_size, arena_header_size}

-- The blocks follow one another from `a` to `e` with no gap.
abbrev pub Tiles : ℕ → List Block → ℕ → Type 0
Tiles a [] e = a ≡ e
Tiles a (b ∷ bs) e = (b.addr ≡ a) × Tiles (a + header_size + b.size) bs e

-- No free block follows a free block; `before` says whether the one in front is free.
abbrev pub IsCoalesced : Bool → List Block → Type 0
IsCoalesced before [] = Unit
IsCoalesced before (b ∷ bs) = (before && b.free ≡ false) × IsCoalesced b.free bs

-- Every size is a multiple of 16.
abbrev pub IsAligned : List Block → Type 0
IsAligned [] = Unit
IsAligned (b ∷ bs) = (b.size % 16 ≡ 0) × IsAligned bs

-- The blocks that are handed out.
abbrev pub keep : Bool → Block → List Block → List Block
keep true b bs = bs
keep false b bs = b ∷ bs

abbrev pub used : List Block → List Block
used [] = []
used (b ∷ bs) = keep b.free b (used bs)

pub record IsArena (a : Arena) : Type 0 where
  pub tiles :
      Tiles (a.addr + arena_header_size) a.blocks (a.addr + arena_header_size + a.total_size)
  pub coalesced : IsCoalesced false a.blocks
  pub aligned : IsAligned a.blocks
  pub base : a.addr % 16 ≡ 0

abbrev pub AllArenas : List Arena → Type 0
AllArenas [] = Unit
AllArenas (a ∷ more) = IsArena a × AllArenas more

abbrev pub all_used : List Arena → List Block
all_used [] = []
all_used (a ∷ more) = used a.blocks ++ all_used more

abbrev pub all_blocks : List Arena → List Block
all_blocks [] = []
all_blocks (a ∷ more) = a.blocks ++ all_blocks more

-- The block is in the list.
abbrev pub Stands : Block → List Block → Type 0
Stands b [] = ⊥
Stands b (c ∷ cs) = (b ≡ c) ⊎ Stands b cs

pub Stands-append_left : (b : Block) (xs ys : List Block) → Stands b xs → Stands b (xs ++ ys)
Stands-append_left b [] ys h = absurd h
Stands-append_left b (x ∷ xs) ys (inl e) = inl e
Stands-append_left b (x ∷ xs) ys (inr h) = inr (Stands-append_left b xs ys h)

pub Stands-append_right : (b : Block) (xs ys : List Block) → Stands b ys → Stands b (xs ++ ys)
Stands-append_right b [] ys h = h
Stands-append_right b (x ∷ xs) ys h = inr (Stands-append_right b xs ys h)

-- `ys` is `xs` with `x` put in at one place.
pub data Inserted (x : Block) : List Block → List Block → Type 0 where
  here : {xs : List Block} → Inserted x xs (x ∷ xs)
  there : {y : Block} {xs ys : List Block} → Inserted x xs ys → Inserted x (y ∷ xs) (y ∷ ys)

pub Inserted-append_left :
    {x : Block} {xs ys : List Block} (zs : List Block)
    → Inserted x xs ys
    → Inserted x (zs ++ xs) (zs ++ ys)
Inserted-append_left [] i = i
Inserted-append_left (z ∷ zs) i = there (Inserted-append_left zs i)

pub Inserted-append_right :
    {x : Block} {xs ys : List Block} (zs : List Block)
    → Inserted x xs ys
    → Inserted x (xs ++ zs) (ys ++ zs)
Inserted-append_right zs here = here
Inserted-append_right zs (there i) = there (Inserted-append_right zs i)

pub Inserted-keep :
    {x : Block} {xs ys : List Block} (b : Block) (free : Bool)
    → Inserted x xs ys
    → Inserted x (keep free b xs) (keep free b ys)
Inserted-keep b true i = i
Inserted-keep b false i = there i

pub IsCoalesced-any :
    (before : Bool) (bs : List Block) → IsCoalesced before bs → IsCoalesced false bs
IsCoalesced-any before [] c = tt
IsCoalesced-any before (b ∷ bs) c = (refl, c.1)

pub Tiles-start : {a a' : ℕ} (e : ℕ) (bs : List Block) → a ≡ a' → Tiles a bs e → Tiles a' bs e
Tiles-start e bs p t = rw (← p) t
