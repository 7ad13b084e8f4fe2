-- ===== src/Kheap/Coalesce.antt =====
-- The release of a block in an arena of mm/kheap.c and the joining with its neighbours.
use artyom_x.Base.{
  ℕ, ◌+◌, ◌≡◌, ◌&&◌, refl, ap, Bool, true, false, some, List, [], ◌∷◌, arith, ◌==◌, if◌then◌else◌,
  Bool-cases, Option-cases, inl, inr,
}
use artyom_x.Kheap.{Block, payload, coalesce_next, coalesce_prev, heads, behind, free_blocks}
use artyom_x.Kheap.Tiling.{
  Tiles, IsCoalesced, IsAligned, keep, used, Inserted, here, Inserted-keep, IsCoalesced-any,
  Tiles-start, Stands,
}

abbrev HeadFree : List Block → Type 0
HeadFree [] = ⊥
HeadFree (b ∷ bs) = b.free ≡ true

-- `zs` is `b ∷ bs`, the block `b` free in it, with what follows it joined on.
record Joined (b : Block) (bs zs : List Block) : Type 0 where
  pub tiles : (a e : ℕ) → Tiles a (b ∷ bs) e → Tiles a zs e
  pub coalesced :
      (a e : ℕ) (before : Bool) → Tiles a (b ∷ bs) e → IsCoalesced before bs → IsCoalesced false zs
  pub aligned : IsAligned (b ∷ bs) → IsAligned zs
  pub same_used : used zs ≡ used bs
  pub head_free : HeadFree zs

coalesce_next-Joined :
    (b : Block) (bs : List Block) → b.free ≡ true → Joined b bs (coalesce_next b bs)
unfolding coalesce_next
coalesce_next-Joined b [] f = record {
  tiles = λ a e t. t;
  coalesced = λ a e before t c. (refl, tt);
  aligned = λ m. m;
  same_used = rw f;
  head_free = f;
}
coalesce_next-Joined b (n ∷ bs) f = elim (Bool-cases (n.free && (payload b + b.size == n.addr))) [
  | inl join ↦
      let nf : n.free ≡ true = ground arith in
      rw join (record {
        tiles = λ a e t. (t.0, Tiles-start e bs (omega arith) t.1.1);
        coalesced = λ a e before t c. (refl, rw f (rw nf at c.1));
        aligned = λ m. (omega (arith, m.0, m.1.0), m.1.1);
        same_used = rw (f, nf);
        head_free = f;
      })
  | inr apart ↦ rw apart (record {
    tiles = λ a e t. t;
    coalesced = λ a e before t c. (refl, (ground (arith, t.0, t.1.0), c.1));
    aligned = λ m. m;
    same_used = rw f;
    head_free = f;
  })
]

-- What a block in front does with a list whose first block has just been freed.
record Merged (p : Block) (cs zs : List Block) : Type 0 where
  pub tiles : (a e : ℕ) → Tiles a (p ∷ cs) e → Tiles a zs e
  pub coalesced :
      (a e : ℕ) (before : Bool)
      → Tiles a (p ∷ cs) e
      → before && p.free ≡ false
      → IsCoalesced false cs
      → IsCoalesced before zs
  pub aligned : IsAligned (p ∷ cs) → IsAligned zs
  pub same_used : used zs ≡ used (p ∷ cs)

coalesce_prev-Merged :
    (p : Block) (cs : List Block) → HeadFree cs → Merged p cs (coalesce_prev p cs)
unfolding coalesce_prev
coalesce_prev-Merged p [] f = absurd f
coalesce_prev-Merged p (b ∷ cs) f = elim (Bool-cases (p.free && (payload p + p.size == b.addr))) [
  | inl join ↦
      let pf : p.free ≡ true = ground arith in
      rw join (record {
        tiles = λ a e t. (t.0, Tiles-start e cs (omega arith) t.1.1);
        coalesced = λ a e before t o c. (o, rw pf (rw f at c.1));
        aligned = λ m. (omega (arith, m.0, m.1.0), m.1.1);
        same_used = rw (pf, f);
      })
  | inr apart ↦ rw apart (record {
    tiles = λ a e t. t;
    coalesced = λ a e before t o c. (o, (ground (arith, t.0, t.1.0), c.1));
    aligned = λ m. m;
    same_used = refl;
  })
]

-- `xs` is `ys` without the block `b`, if that was handed out, and `ys` if it was free before.
abbrev pub ReleasedIf : Bool → Block → List Block → List Block → Type 0
ReleasedIf false b xs ys = Inserted b xs ys
ReleasedIf true b xs ys = xs ≡ ys

abbrev pub Released : Block → List Block → List Block → Type 0
Released b xs ys = ReleasedIf b.free b xs ys

Released-keep :
    (free kept : Bool) (b p : Block) (xs ys : List Block)
    → ReleasedIf free b xs ys
    → ReleasedIf free b (keep kept p xs) (keep kept p ys)
Released-keep false kept b p xs ys i = Inserted-keep p kept i
Released-keep true kept b p xs ys e = ap (keep kept p) e

Released-here : (free : Bool) (b : Block) (xs : List Block) → ReleasedIf free b xs (keep free b xs)
Released-here false b xs = here
Released-here true b xs = refl

-- The block with payload `ptr` of `bs` is free in `cs`.
pub record Frees (ptr : ℕ) (bs cs : List Block) : Type 0 where
  pub tiles : (a e : ℕ) → Tiles a bs e → Tiles a cs e
  pub coalesced : (a e : ℕ) → Tiles a bs e → IsCoalesced false bs → IsCoalesced false cs
  pub behind_any :
      heads ptr bs ≡ false
      → (a e : ℕ) (before : Bool) → Tiles a bs e
      → IsCoalesced before bs
      → IsCoalesced before cs
  pub head_free : heads ptr bs ≡ true → HeadFree cs
  pub aligned : IsAligned bs → IsAligned cs
  pub block : Block
  pub stands : Stands block bs
  pub address : payload block ≡ ptr
  pub released : Released block (used cs) (used bs)

free_head-Frees :
    (b : Block) (bs : List Block)
    → Frees (payload b) (b ∷ bs) (coalesce_next (record b { free = true }) bs)
unfolding heads
free_head-Frees b bs =
    let j = coalesce_next-Joined (record b { free = true }) bs refl in
    record {
      tiles = λ a e t. j.tiles a e (t.0, t.1);
      coalesced = λ a e t c. j.coalesced a e b.free (t.0, t.1) c.1;
      behind_any = λ no_head. absurd (ground arith);
      head_free = λ yes_head. j.head_free;
      aligned = λ m. j.aligned (m.0, m.1);
      block = b;
      stands = inl refl;
      address = refl;
      released = rw j.same_used (Released-here b.free b (used bs));
    }

behind-Frees :
    (ptr : ℕ) (p : Block) (bs cs : List Block)
    → (payload p == ptr) ≡ false
    → Frees ptr bs cs
    → Frees ptr (p ∷ bs) (if heads ptr bs then coalesce_prev p cs else p ∷ cs)
unfolding heads
behind-Frees ptr p bs cs ne f = elim (Bool-cases (heads ptr bs)) [
  | inl at_head ↦
      let m = coalesce_prev-Merged p cs (f.head_free at_head) in
      rw at_head (record {
        tiles = λ a e t. m.tiles a e (t.0, f.tiles _ e t.1);
        coalesced = λ a e t c.
            m.coalesced a e false (t.0, f.tiles _ e t.1) c.0
              (f.coalesced _ e t.1 (IsCoalesced-any p.free bs c.1));
        behind_any = λ no_head a e before t c.
            m.coalesced a e before (t.0, f.tiles _ e t.1) c.0
              (f.coalesced _ e t.1 (IsCoalesced-any p.free bs c.1));
        head_free = λ yes_head. cc;
        aligned = λ l. m.aligned (l.0, f.aligned l.1);
        block = f.block;
        stands = inr f.stands;
        address = f.address;
        released =
            rw m.same_used
              (Released-keep f.block.free p.free f.block p (used cs) (used bs) f.released);
      })
  | inr deeper ↦ rw deeper (record {
    tiles = λ a e t. (t.0, f.tiles _ e t.1);
    coalesced = λ a e t c. (c.0, f.behind_any deeper _ e p.free t.1 c.1);
    behind_any = λ no_head a e before t c. (c.0, f.behind_any deeper _ e p.free t.1 c.1);
    head_free = λ yes_head. cc;
    aligned = λ l. (l.0, f.aligned l.1);
    block = f.block;
    stands = inr f.stands;
    address = f.address;
    released = Released-keep f.block.free p.free f.block p (used cs) (used bs) f.released;
  })
]

pub free_blocks-Frees :
    (ptr : ℕ) (bs cs : List Block) → free_blocks ptr bs ≡ some cs → Frees ptr bs cs
unfolding free_blocks behind
free_blocks-Frees ptr [] cs = λ found. cc
free_blocks-Frees ptr (b ∷ bs) cs = elim (Bool-cases (payload b == ptr)) [
  | inl e ↦ rw e (λ found.
      let at : payload b ≡ ptr = ground arith in
      let after : coalesce_next (record b { free = true }) bs ≡ cs = ground arith in
      rw (← at, ← after) (free_head-Frees b bs))
  | inr ne ↦ rw ne (elim (Option-cases (free_blocks ptr bs)) [
    | inl miss ↦ rw miss (λ found. cc)
    | inr (r, hit) ↦ rw hit (λ found.
        let after : (if heads ptr bs then coalesce_prev b r else b ∷ r) ≡ cs = ground arith in
        rw (← after) (behind-Frees ptr b bs r ne (free_blocks-Frees ptr bs r hit)))
  ])
]
