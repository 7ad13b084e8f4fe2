-- ===== src/Kheap/Apart.antt =====
-- The blocks of the arenas of mm/kheap.c take up no byte twice: the blocks of one arena stand one behind
-- the other, and the arenas are apart.
use artyom_x.Base.{
  ℕ, ◌+◌, ◌≤◌, ◌≡◌, ◌⊎◌, inl, inr, refl, sym, ap, subst, ◌∙◌, Bool, true, false, List, [], ◌∷◌,
  ◌++◌, arith,
}
use artyom_x.Kheap.{Block, Arena, payload, header_size, arena_header_size}
use artyom_x.Kheap.Tiling.{
  Tiles, AllArenas, used, keep, all_used, all_blocks, Stands, Inserted, here, there,
}

-- The two blocks, headers and all, share no byte.
abbrev pub Clear : Block → Block → Type 0
Clear b c = (payload b + b.size ≤ c.addr) ⊎ (payload c + c.size ≤ b.addr)

abbrev pub ClearOf : Block → List Block → Type 0
ClearOf b [] = Unit
ClearOf b (c ∷ cs) = Clear b c × ClearOf b cs

abbrev pub AllClear : List Block → Type 0
AllClear [] = Unit
AllClear (b ∷ bs) = ClearOf b bs × AllClear bs

-- Where an arena begins, and how many bytes it has with its header.
abbrev pub spans : List Arena → List (ℕ × ℕ)
spans [] = []
spans (a ∷ more) = (a.addr, arena_header_size + a.total_size) ∷ spans more

abbrev pub ApartOf : ℕ → ℕ → List (ℕ × ℕ) → Type 0
ApartOf lo n [] = Unit
ApartOf lo n ((lo', n') ∷ more) = ((lo + n ≤ lo') ⊎ (lo' + n' ≤ lo)) × ApartOf lo n more

abbrev pub AllApart : List (ℕ × ℕ) → Type 0
AllApart [] = Unit
AllApart ((lo, n) ∷ more) = ApartOf lo n more × AllApart more

-- Every block of the list lies between the two addresses.
abbrev Inside : ℕ → ℕ → List Block → Type 0
Inside lo hi [] = Unit
Inside lo hi (b ∷ bs) = (lo ≤ b.addr) × (payload b + b.size ≤ hi) × Inside lo hi bs

Inside-weaken : (lo lo' hi : ℕ) (bs : List Block) → lo ≤ lo' → Inside lo' hi bs → Inside lo hi bs
Inside-weaken lo lo' hi [] h i = tt
Inside-weaken lo lo' hi (b ∷ bs) h i =
    (omega (arith, h, i.0), i.1, Inside-weaken lo lo' hi bs h i.2)

Tiles-le : (a e : ℕ) (bs : List Block) → Tiles a bs e → a ≤ e
Tiles-le a e [] t = omega arith
Tiles-le a e (b ∷ bs) t = omega (arith, Tiles-le (a + header_size + b.size) e bs t.1)

Tiles-Inside : (a e : ℕ) (bs : List Block) → Tiles a bs e → Inside a e bs
Tiles-Inside a e [] t = tt
Tiles-Inside a e (b ∷ bs) t = (
  omega (arith, t.0),
  omega (arith, t.0, Tiles-le (a + header_size + b.size) e bs t.1),
  Inside-weaken a (a + header_size + b.size) e bs (omega arith)
      (Tiles-Inside (a + header_size + b.size) e bs t.1),
)

Inside-ClearOf :
    (lo hi : ℕ) (b : Block) (bs : List Block)
    → (payload b + b.size ≤ lo) ⊎ (hi ≤ b.addr)
    → Inside lo hi bs
    → ClearOf b bs
Inside-ClearOf lo hi b [] h i = tt
Inside-ClearOf lo hi b (c ∷ cs) (inl h) i =
    (inl (omega (arith, h, i.0)), Inside-ClearOf lo hi b cs (inl h) i.2)
Inside-ClearOf lo hi b (c ∷ cs) (inr h) i =
    (inr (omega (arith, h, i.1)), Inside-ClearOf lo hi b cs (inr h) i.2)

Tiles-AllClear : (a e : ℕ) (bs : List Block) → Tiles a bs e → AllClear bs
Tiles-AllClear a e [] t = tt
Tiles-AllClear a e (b ∷ bs) t = (
  Inside-ClearOf (a + header_size + b.size) e b bs (inl (omega (arith, t.0)))
      (Tiles-Inside (a + header_size + b.size) e bs t.1),
  Tiles-AllClear (a + header_size + b.size) e bs t.1,
)

ClearOf-append :
    (b : Block) (xs ys : List Block) → ClearOf b xs → ClearOf b ys → ClearOf b (xs ++ ys)
ClearOf-append b [] ys p q = q
ClearOf-append b (x ∷ xs) ys p q = (p.0, ClearOf-append b xs ys p.1 q)

-- A block between the two addresses is clear of all blocks of arenas that are apart from them.
arenas-ClearOf :
    (lo n : ℕ) (b : Block) (xs : List Arena)
    → lo ≤ b.addr
    → payload b + b.size ≤ lo + n
    → AllArenas xs
    → ApartOf lo n (spans xs)
    → ClearOf b (all_blocks xs)
arenas-ClearOf lo n b [] l h v p = tt
arenas-ClearOf lo n b (a ∷ xs) l h v p =
    ClearOf-append b a.blocks (all_blocks xs)
      (Inside-ClearOf (a.addr + arena_header_size) (a.addr + arena_header_size + a.total_size) b
        a.blocks (side p.0) (Tiles-Inside _ _ a.blocks v.0.tiles))
      (arenas-ClearOf lo n b xs l h v.1 p.1)
  where
    side :
        (lo + n ≤ a.addr) ⊎ (a.addr + (arena_header_size + a.total_size) ≤ lo)
        → (payload b + b.size ≤ a.addr + arena_header_size)
          ⊎ (a.addr + arena_header_size + a.total_size ≤ b.addr)
    side (inl q) = inl (omega (arith, q, h))
    side (inr q) = inr (omega (arith, q, l))

AllClear-append :
    (lo n : ℕ) (bs : List Block) (xs : List Arena)
    → Inside lo (lo + n) bs
    → AllClear bs
    → AllArenas xs
    → ApartOf lo n (spans xs)
    → AllClear (all_blocks xs)
    → AllClear (bs ++ all_blocks xs)
AllClear-append lo n [] xs i c v p rest = rest
AllClear-append lo n (b ∷ bs) xs i c v p rest = (
  ClearOf-append b bs (all_blocks xs) c.0 (arenas-ClearOf lo n b xs i.0 i.1 v p),
  AllClear-append lo n bs xs i.2 c.1 v p rest,
)

-- No two blocks of the arenas share a byte.
pub all_blocks-AllClear :
    (xs : List Arena) → AllArenas xs → AllApart (spans xs) → AllClear (all_blocks xs)
all_blocks-AllClear [] v p = tt
all_blocks-AllClear (a ∷ xs) v p =
    let lo = a.addr + arena_header_size in
    let end : lo + a.total_size ≡ a.addr + (arena_header_size + a.total_size) = omega arith in
    AllClear-append a.addr (arena_header_size + a.total_size) a.blocks xs
      (Inside-weaken a.addr lo _ a.blocks (omega arith)
        (rw end at (Tiles-Inside lo (lo + a.total_size) a.blocks v.0.tiles)))
      (Tiles-AllClear _ _ a.blocks v.0.tiles) v.1 p.0 (all_blocks-AllClear xs v.1 p.1)

keep-append :
    (free : Bool) (x : Block) (xs ys zs : List Block)
    → zs ≡ xs ++ ys
    → keep free x zs ≡ keep free x xs ++ ys
keep-append true x xs ys zs e = e
keep-append false x xs ys zs e = ap (λ l. x ∷ l) e

used-append : (xs ys : List Block) → used (xs ++ ys) ≡ used xs ++ used ys
used-append [] ys = refl
used-append (x ∷ xs) ys = keep-append x.free x (used xs) (used ys) _ (used-append xs ys)

pub used-all_blocks : (xs : List Arena) → used (all_blocks xs) ≡ all_used xs
used-all_blocks [] = refl
used-all_blocks (a ∷ xs) =
    used-append a.blocks (all_blocks xs) ∙ ap (λ l. used a.blocks ++ l) (used-all_blocks xs)

ClearOf-keep :
    (free : Bool) (b x : Block) (bs : List Block)
    → Clear b x
    → ClearOf b bs
    → ClearOf b (keep free x bs)
ClearOf-keep true b x bs h c = c
ClearOf-keep false b x bs h c = (h, c)

ClearOf-used : (b : Block) (bs : List Block) → ClearOf b bs → ClearOf b (used bs)
ClearOf-used b [] c = tt
ClearOf-used b (x ∷ bs) c = ClearOf-keep x.free b x (used bs) c.0 (ClearOf-used b bs c.1)

AllClear-keep :
    (free : Bool) (x : Block) (bs : List Block)
    → ClearOf x bs
    → AllClear bs
    → AllClear (keep free x bs)
AllClear-keep true x bs h c = c
AllClear-keep false x bs h c = (h, c)

AllClear-used : (bs : List Block) → AllClear bs → AllClear (used bs)
AllClear-used [] c = tt
AllClear-used (x ∷ bs) c =
    AllClear-keep x.free x (used bs) (ClearOf-used x bs c.0) (AllClear-used bs c.1)

-- No two blocks that are handed out share a byte.
pub all_used-AllClear :
    (xs : List Arena) → AllArenas xs → AllApart (spans xs) → AllClear (all_used xs)
all_used-AllClear xs v p =
    rw (used-all_blocks xs) at (AllClear-used (all_blocks xs) (all_blocks-AllClear xs v p))

pub ClearOf-Stands : (b c : Block) (bs : List Block) → ClearOf b bs → Stands c bs → Clear b c
ClearOf-Stands b c [] p h = absurd h
ClearOf-Stands b c (x ∷ bs) p (inl e) = rw e p.0
ClearOf-Stands b c (x ∷ bs) p (inr h) = ClearOf-Stands b c bs p.1 h

Clear-sym : (b c : Block) → Clear b c → Clear c b
Clear-sym b c (inl h) = inr h
Clear-sym b c (inr h) = inl h

pub Inserted-Stands : {b : Block} {xs ys : List Block} → Inserted b xs ys → Stands b ys
Inserted-Stands here = inl refl
Inserted-Stands (there i) = inr (Inserted-Stands i)

-- A block that is new in such a list is clear of all that were there.
pub Inserted-ClearOf :
    {b : Block} {xs ys : List Block} → Inserted b xs ys → AllClear ys → ClearOf b xs
Inserted-ClearOf here c = c.0
Inserted-ClearOf {b} (there {y} {xs} {ys} i) c =
    (Clear-sym y b (ClearOf-Stands y b ys c.0 (Inserted-Stands i)), Inserted-ClearOf i c.1)

Clear-addr_ne : (b c : Block) → b.addr ≡ c.addr → Clear b c → ⊥
Clear-addr_ne b c e (inl h) = omega (arith, e, h)
Clear-addr_ne b c e (inr h) = omega (arith, e, h)

-- In such a list the address of a block says which it is.
pub Stands-unique :
    (b c : Block) (bs : List Block)
    → AllClear bs
    → Stands b bs
    → Stands c bs
    → b.addr ≡ c.addr
    → b ≡ c
Stands-unique b c [] p h k e = absurd h
Stands-unique b c (x ∷ bs) p (inl h) (inl k) e = h ∙ sym k
Stands-unique b c (x ∷ bs) p (inl h) (inr k) e =
    absurd
      (Clear-addr_ne x c (sym (ap (λ (r : Block). r.addr) h) ∙ e) (ClearOf-Stands x c bs p.0 k))
Stands-unique b c (x ∷ bs) p (inr h) (inl k) e =
    absurd
      (Clear-addr_ne x b (sym (ap (λ (r : Block). r.addr) k) ∙ sym e) (ClearOf-Stands x b bs p.0 h))
Stands-unique b c (x ∷ bs) p (inr h) (inr k) e = Stands-unique b c bs p.1 h k e

tail_eq : {x y : Block} {xs ys : List Block} → x ∷ xs ≡ y ∷ ys → xs ≡ ys
tail_eq e = cc

uncons :
    {b y : Block} {xs ys zs : List Block}
    → Inserted b xs ys
    → ys ≡ y ∷ zs
    → ((y ≡ b) × (xs ≡ zs)) ⊎ ((rest : List Block) × (xs ≡ y ∷ rest) × Inserted b rest zs)
uncons here e = inl (cc, cc)
uncons {b} (there {y = x} {xs = rest} {ys = ys} i) e =
    inr (rest, cc, subst (λ l. Inserted b rest l) (tail_eq e) i)

in_nothing : {b : Block} {xs ys : List Block} → Inserted b xs ys → ys ≡ [] → ⊥
in_nothing here e = cc
in_nothing (there i) e = cc

-- What is left when a block is taken out of such a list.
pub Inserted-unique :
    {b : Block} {xs zs : List Block} (ys : List Block)
    → AllClear ys
    → Inserted b xs ys
    → Inserted b zs ys
    → xs ≡ zs
Inserted-unique [] c i j = absurd (in_nothing i refl)
Inserted-unique {b} {xs} {zs} (y ∷ ys) c i j = elim (uncons i refl) [
  | inl (e, p) ↦ elim (uncons j refl) [
    | inl (e', q) ↦ p ∙ sym q
    | inr (rest, q, k) ↦ absurd (
        Clear-addr_ne y b (ap (λ (r : Block). r.addr) e)
          (ClearOf-Stands y b ys c.0 (Inserted-Stands k)))
  ]
  | inr (rest, p, k) ↦ elim (uncons j refl) [
    | inl (e', q) ↦ absurd (
        Clear-addr_ne y b (ap (λ (r : Block). r.addr) e')
          (ClearOf-Stands y b ys c.0 (Inserted-Stands k)))
    | inr (rest', q, k') ↦ p ∙ ap (λ l. y ∷ l) (Inserted-unique ys c.1 k k') ∙ sym q
  ]
]

Stands-keep :
    (free : Bool) (b x : Block) (bs : List Block)
    → x.free ≡ free
    → Stands b (keep free x bs)
    → ((b ≡ x) × (b.free ≡ false)) ⊎ Stands b bs
Stands-keep true b x bs f h = inr h
Stands-keep false b x bs f (inl e) = inl (e, ap (λ (r : Block). r.free) e ∙ f)
Stands-keep false b x bs f (inr h) = inr h

-- A block that is handed out stands in its arena and is not free.
pub Stands-used :
    (b : Block) (bs : List Block) → Stands b (used bs) → Stands b bs × (b.free ≡ false)
Stands-used b [] h = absurd h
Stands-used b (x ∷ bs) h = elim (Stands-keep x.free b x (used bs) refl h) [
  | inl (e, f) ↦ (inl e, f)
  | inr rest ↦ let r = Stands-used b bs rest in (inr r.0, r.1)
]
