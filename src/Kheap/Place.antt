-- ===== src/Kheap/Place.antt =====
-- The search for a block and its placement in mm/kheap.c: what one block of the heap turns into.
use artyom_x.Base.{
  ℕ, ◌+◌, ◌-◌, ◌%◌, ◌≤◌, ◌≡◌, ◌&&◌, refl, Bool, true, false, some, List, [], ◌∷◌, ◌++◌, arith, ltb,
  leb, Bool-cases, Option-cases, inl, inr,
}
use artyom_x.Kheap.{
  Block, Arena, payload, header_size, split_block, place, push_block, alloc_blocks, set_blocks,
  alloc_arenas,
}
use artyom_x.Kheap.Tiling.{
  Tiles, IsCoalesced, IsAligned, used, AllArenas, all_used, Inserted, here, Inserted-keep,
  IsCoalesced-any, Tiles-start, Inserted-append_left, Inserted-append_right,
}

-- One block for `size` bytes with payload `p` has been taken from the free blocks of `bs`.
pub record Placed (size p : ℕ) (bs cs : List Block) : Type 0 where
  pub tiles : (a e : ℕ) → Tiles a bs e → Tiles a cs e
  pub coalesced : (before : Bool) → IsCoalesced before bs → IsCoalesced before cs
  pub aligned : size % 16 ≡ 0 → IsAligned bs → IsAligned cs
  pub start : (a e : ℕ) → a % 16 ≡ 0 → Tiles a bs e → IsAligned bs → p % 16 ≡ 0
  pub block : Block
  pub fresh : Inserted block (used bs) (used cs)
  pub address : payload block ≡ p
  pub fits : size ≤ block.size

pub place-Placed :
    (size : ℕ) (b : Block) (bs : List Block)
    → b.free ≡ true
    → size ≤ b.size
    → Placed size (payload b) (b ∷ bs) (place b size ++ bs)
unfolding place split_block
place-Placed size b bs f h =
    let wide : ltb b.size size ≡ false = ground arith in
    elim (Bool-cases (leb (b.size - size) (header_size + 16))) [
      | inl whole ↦
          rw (wide, whole)
            (record {
              tiles = λ a e t. (t.0, t.1);
              coalesced = λ before c. (ground arith, IsCoalesced-any b.free bs c.1);
              aligned = λ m c. c;
              start = λ a e m t c. omega (arith, t.0);
              block = record b { free = false };
              fresh = rw f here;
              address = refl;
              fits = h;
            })
      | inr split ↦
          rw (wide, split)
            (record {
              tiles = λ a e t. (t.0, (omega (arith, t.0), Tiles-start e bs (ground arith) t.1));
              coalesced = λ before c. (ground arith, (refl, rw f at c.1));
              aligned = λ m c. (m, (omega (arith, c.0), c.1));
              start = λ a e m t c. omega (arith, t.0);
              block = record b { size = size; free = false };
              fresh = rw f here;
              address = refl;
              fits = omega arith;
            })
    ]

cons-Placed :
    {size p : ℕ} {bs cs : List Block} (b : Block)
    → Placed size p bs cs
    → Placed size p (b ∷ bs) (b ∷ cs)
cons-Placed b r = record {
  tiles = λ a e t. (t.0, r.tiles _ e t.1);
  coalesced = λ before c. (c.0, r.coalesced b.free c.1);
  aligned = λ m c. (c.0, r.aligned m c.1);
  start = λ a e m t c. r.start _ e (omega (arith, c.0)) t.1 c.1;
  block = r.block;
  fresh = Inserted-keep b b.free r.fresh;
  address = r.address;
  fits = r.fits;
}

alloc_blocks-Placed :
    (size p : ℕ) (bs cs : List Block) → alloc_blocks size bs ≡ some (p, cs) → Placed size p bs cs
unfolding alloc_blocks push_block
alloc_blocks-Placed size p [] cs = λ found. cc
alloc_blocks-Placed size p (b ∷ bs) cs = elim (Bool-cases (b.free && leb size b.size)) [
  | inl fit ↦ rw fit (λ found.
      let at : payload b ≡ p = ground arith in
      let after : place b size ++ bs ≡ cs = ground arith in
      rw (← at, ← after) (place-Placed size b bs (ground arith) (ground arith)))
  | inr no_fit ↦ rw no_fit (elim (Option-cases (alloc_blocks size bs)) [
    | inl miss ↦ rw miss (λ found. cc)
    | inr (r, hit) ↦ rw hit (λ found.
        let at : r.0 ≡ p = ground arith in
        let after : b ∷ r.1 ≡ cs = ground arith in
        rw (← at, ← after) (cons-Placed b (alloc_blocks-Placed size r.0 bs r.1 hit)))
  ])
]

-- One block for `size` bytes with payload `p` has been taken from the arenas.
pub record PlacedIn (size p : ℕ) (xs ys : List Arena) : Type 0 where
  pub valid : size % 16 ≡ 0 → AllArenas xs → AllArenas ys
  pub start : AllArenas xs → p % 16 ≡ 0
  pub block : Block
  pub fresh : Inserted block (all_used xs) (all_used ys)
  pub address : payload block ≡ p
  pub fits : size ≤ block.size

pub head-PlacedIn :
    {size p : ℕ} (a : Arena) (bs : List Block) (more : List Arena)
    → Placed size p a.blocks bs
    → PlacedIn size p (a ∷ more) (record a { blocks = bs } ∷ more)
head-PlacedIn a bs more r = record {
  valid = λ m v. (
    record {
      tiles = r.tiles _ _ v.0.tiles;
      coalesced = r.coalesced false v.0.coalesced;
      aligned = r.aligned m v.0.aligned;
      base = v.0.base;
    },
    v.1,
  );
  start = λ v. r.start _ _ (omega (arith, v.0.base)) v.0.tiles v.0.aligned;
  block = r.block;
  fresh = Inserted-append_right (all_used more) r.fresh;
  address = r.address;
  fits = r.fits;
}

tail-PlacedIn :
    {size p : ℕ} {xs ys : List Arena} (a : Arena)
    → PlacedIn size p xs ys
    → PlacedIn size p (a ∷ xs) (a ∷ ys)
tail-PlacedIn a r = record {
  valid = λ m v. (v.0, r.valid m v.1);
  start = λ v. r.start v.1;
  block = r.block;
  fresh = Inserted-append_left (used a.blocks) r.fresh;
  address = r.address;
  fits = r.fits;
}

pub alloc_arenas-PlacedIn :
    (size p : ℕ) (xs ys : List Arena) → alloc_arenas size xs ≡ some (p, ys) → PlacedIn size p xs ys
unfolding alloc_arenas set_blocks
alloc_arenas-PlacedIn size p [] ys = λ found. cc
alloc_arenas-PlacedIn size p (a ∷ xs) ys = elim (Option-cases (alloc_blocks size a.blocks)) [
  | inr (r, hit) ↦ rw hit (λ found.
      let at : r.0 ≡ p = ground arith in
      let after : ◌≡◌ {A = List Arena} (record a { blocks = r.1 } ∷ xs) ys = ground arith in
      rw (← at, ← after) (head-PlacedIn a r.1 xs (alloc_blocks-Placed size r.0 a.blocks r.1 hit)))
  | inl miss ↦ rw miss (elim (Option-cases (alloc_arenas size xs)) [
    | inl none_left ↦ rw none_left (λ found. cc)
    | inr (r, hit) ↦ rw hit (λ found.
        let at : r.0 ≡ p = ground arith in
        let after : a ∷ r.1 ≡ ys = ground arith in
        rw (← at, ← after) (tail-PlacedIn a (alloc_arenas-PlacedIn size r.0 xs r.1 hit)))
  ])
]
