-- ===== src/Kheap/Free.antt =====
-- `kfree` of mm/kheap.c: it takes back one block, joins it with its free neighbours, and leaves the
-- other blocks as they are.
use artyom_x.Base.{
  ℕ, ◌≡◌, ◌≢◌, ◌⊎◌, ap, Bool, true, false, some, List, [], ◌∷◌, ◌++◌, arith, ◌==◌, if◌then◌else◌,
  Bool-cases, Option-cases, inl, inr,
}
use artyom_x.Kheap.{
  Block, Arena, Heap, payload, coalesce_next, coalesce_prev, heads, behind, free_blocks,
  free_arenas, set_freed, kfree,
}
use artyom_x.Kheap.Tiling.{
  keep, used, AllArenas, all_used, Inserted-append_left, Inserted-append_right, all_blocks, Stands,
  Stands-append_left, Stands-append_right,
}
use artyom_x.Kheap.Malloc.{IsHeap}
use artyom_x.Kheap.Coalesce.{ReleasedIf, Released, free_blocks-Frees}

Released-append_right :
    (free : Bool) (b : Block) (xs ys zs : List Block)
    → ReleasedIf free b xs ys
    → ReleasedIf free b (xs ++ zs) (ys ++ zs)
Released-append_right false b xs ys zs i = Inserted-append_right zs i
Released-append_right true b xs ys zs e = ap (λ l. l ++ zs) e

Released-append_left :
    (free : Bool) (b : Block) (xs ys zs : List Block)
    → ReleasedIf free b xs ys
    → ReleasedIf free b (zs ++ xs) (zs ++ ys)
Released-append_left false b xs ys zs i = Inserted-append_left zs i
Released-append_left true b xs ys zs e = ap (λ l. zs ++ l) e

-- The block with payload `ptr` that stands in the arenas `xs` is free in `ys`.
pub record FreesIn (ptr : ℕ) (xs ys : List Arena) : Type 0 where
  pub valid : AllArenas xs → AllArenas ys
  pub block : Block
  pub stands : Stands block (all_blocks xs)
  pub address : payload block ≡ ptr
  pub released : Released block (all_used ys) (all_used xs)

pub free_arenas-FreesIn :
    (ptr : ℕ) (xs ys : List Arena) → free_arenas ptr xs ≡ some ys → FreesIn ptr xs ys
unfolding free_arenas set_freed
free_arenas-FreesIn ptr [] ys = λ found. cc
free_arenas-FreesIn ptr (a ∷ xs) ys = elim (Option-cases (free_blocks ptr a.blocks)) [
  | inr (bs, hit) ↦ rw hit (λ found.
      let after : ◌≡◌ {A = List Arena} (record a { blocks = bs } ∷ xs) ys = ground arith in
      let f = free_blocks-Frees ptr a.blocks bs hit in
      rw (← after) (record {
        valid = λ v. (
          record {
            tiles = f.tiles _ _ v.0.tiles;
            coalesced = f.coalesced _ _ v.0.tiles v.0.coalesced;
            aligned = f.aligned v.0.aligned;
            base = v.0.base;
          },
          v.1,
        );
        block = f.block;
        stands = Stands-append_left f.block a.blocks (all_blocks xs) f.stands;
        address = f.address;
        released =
            Released-append_right f.block.free f.block (used bs) (used a.blocks) (all_used xs)
              f.released;
      }))
  | inl miss ↦ rw miss (elim (Option-cases (free_arenas ptr xs)) [
    | inl none_left ↦ rw none_left (λ found. cc)
    | inr (r, hit) ↦ rw hit (λ found.
        let after : a ∷ r ≡ ys = ground arith in
        let f = free_arenas-FreesIn ptr xs r hit in
        rw (← after) (record {
          valid = λ v. (v.0, f.valid v.1);
          block = f.block;
          stands = Stands-append_right f.block a.blocks (all_blocks xs) f.stands;
          address = f.address;
          released =
              Released-append_left f.block.free f.block (all_used r) (all_used xs) (used a.blocks)
                f.released;
        }))
  ])
]

-- Where `kfree` of a pointer other than 0 finds its block, that block is taken out of the blocks
-- that are handed out, if it was one of them, and all others stay as they are; every arena stays
-- tiled by its blocks, and no two free blocks stand side by side.
pub kfree-FreesIn :
    (ptr : ℕ) {h h' : Heap}
    → IsHeap h
    → ptr ≢ 0
    → kfree ptr h ≡ some h'
    → IsHeap h' × FreesIn ptr h.arenas h'.arenas
unfolding kfree
kfree-FreesIn ptr {h} {h'} v nz =
    let real : (ptr == 0) ≡ false = ground arith in
    rw real (elim (Option-cases (free_arenas ptr h.arenas)) [
      | inl miss ↦ rw miss (λ found. cc)
      | inr (r, hit) ↦ rw hit (λ found.
          let after : record h { arenas = r } ≡ h' = ground arith in
          let f = free_arenas-FreesIn ptr h.arenas r hit in
          rw (← after) (
            record { arenas = f.valid v.arenas; pages = v.pages },
            record {
              valid = f.valid;
              block = f.block;
              stands = f.stands;
              address = f.address;
              released = f.released;
            },
          ))
    ])

-- A block with the payload is in the list.
abbrev pub Has : ℕ → List Block → Type 0
Has ptr [] = ⊥
Has ptr (b ∷ bs) = (payload b ≡ ptr) ⊎ Has ptr bs

Has-keep :
    (ptr : ℕ) (free : Bool) (b : Block) (bs : List Block)
    → Has ptr (keep free b bs)
    → (payload b ≡ ptr) ⊎ Has ptr bs
Has-keep ptr true b bs h = inr h
Has-keep ptr false b bs h = h

Has-append : (ptr : ℕ) (xs ys : List Block) → Has ptr (xs ++ ys) → Has ptr xs ⊎ Has ptr ys
Has-append ptr [] ys h = inr h
Has-append ptr (x ∷ xs) ys (inl e) = inl (inl e)
Has-append ptr (x ∷ xs) ys (inr h) = elim (Has-append ptr xs ys h) [
  | inl a ↦ inl (inr a)
  | inr b ↦ inr b
]

free_blocks_finds :
    (ptr : ℕ) (bs : List Block)
    → Has ptr (used bs)
    → (cs : List Block) × (free_blocks ptr bs ≡ some cs)
unfolding free_blocks behind
free_blocks_finds ptr [] h = absurd h
free_blocks_finds ptr (b ∷ bs) h = elim (Bool-cases (payload b == ptr)) [
  | inl e ↦ (coalesce_next (record b { free = true }) bs, rw e)
  | inr ne ↦ elim (Has-keep ptr b.free b (used bs) h) [
    | inl e ↦ absurd (ground arith)
    | inr rest ↦
        let r = free_blocks_finds ptr bs rest in
        (if heads ptr bs then coalesce_prev b r.0 else b ∷ r.0, rw (ne, r.1))
  ]
]

pub free_arenas_finds :
    (ptr : ℕ) (xs : List Arena)
    → Has ptr (all_used xs)
    → (ys : List Arena) × (free_arenas ptr xs ≡ some ys)
unfolding free_arenas set_freed
free_arenas_finds ptr [] h = absurd h
free_arenas_finds ptr (a ∷ xs) h = elim (Option-cases (free_blocks ptr a.blocks)) [
  | inr (bs, hit) ↦ (record a { blocks = bs } ∷ xs, rw hit)
  | inl miss ↦ elim (Has-append ptr (used a.blocks) (all_used xs) h) [
    | inl inside ↦ absurd (ground (arith, (free_blocks_finds ptr a.blocks inside).1))
    | inr rest ↦ let r = free_arenas_finds ptr xs rest in (a ∷ r.0, rw (miss, r.1))
  ]
]
