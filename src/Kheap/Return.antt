-- ===== src/Kheap/Return.antt =====
-- `kfree` of mm/kheap.c gives back what `kmalloc` handed out, and nothing else.
use artyom_x.Base.{
  ℕ, ◌≡◌, inl, inr, refl, sym, ap, subst, ◌∙◌, false, some, List, [], ◌∷◌, arith, ◌==◌,
}
use artyom_x.Kheap.{Block, Arena, Heap, payload, kfree}
use artyom_x.Kheap.Tiling.{all_used, all_blocks, Stands, Inserted}
use artyom_x.Kheap.Apart.{
  all_blocks-AllClear, used-all_blocks, Stands-used, Stands-unique, all_used-AllClear,
  Inserted-unique,
}
use artyom_x.Kheap.Malloc.{IsHeap}
use artyom_x.Kheap.Granted.{IsGranted, free_arenas-spans, same_spans-IsGranted}
use artyom_x.Kheap.Coalesce.{ReleasedIf}
use artyom_x.Kheap.Free.{FreesIn, Has, free_arenas_finds, free_arenas-FreesIn}

Stands-Has : (b : Block) (bs : List Block) → Stands b bs → Has (payload b) bs
Stands-Has b [] h = absurd h
Stands-Has b (x ∷ bs) (inl e) = inl (ap (λ (r : Block). payload r) (sym e))
Stands-Has b (x ∷ bs) (inr h) = inr (Stands-Has b bs h)

-- The block that `kfree` finds at the payload of one that is handed out is that one.
module _ (b : Block) {h : Heap} (v : IsHeap h) {hhdm : ℕ} (g : IsGranted hhdm h)
    (held : Stands b (all_used h.arenas)) where
  stands : Stands b (all_blocks h.arenas) × (b.free ≡ false)
  stands = Stands-used b (all_blocks h.arenas) (rw (used-all_blocks h.arenas) held)

  same_block : {ys : List Arena} (f : FreesIn (payload b) h.arenas ys) → f.block ≡ b
  same_block f =
      Stands-unique f.block b (all_blocks h.arenas) (all_blocks-AllClear h.arenas v.arenas g.apart)
        f.stands stands.0 (omega (arith, f.address))

  taken_out :
      {ys : List Arena}
      → FreesIn (payload b) h.arenas ys
      → Inserted b (all_used ys) (all_used h.arenas)
  taken_out {ys} f =
      let e = same_block f in
      let not_free : f.block.free ≡ false = ap (λ (r : Block). r.free) e ∙ stands.1 in
      subst (λ r. Inserted r (all_used ys) (all_used h.arenas)) e
        (subst (λ u. ReleasedIf u f.block (all_used ys) (all_used h.arenas)) not_free f.released)

-- What `kfree` has done: the block is no longer handed out, and all the others are as they were.
pub record TakesBack (hhdm : ℕ) (b : Block) (h h' : Heap) : Type 0 where
  pub valid : IsHeap h'
  pub granted : IsGranted hhdm h'
  pub taken : Inserted b (all_used h'.arenas) (all_used h.arenas)

-- `kfree` of the payload of a block that is handed out finds it and takes it back: it is no longer one
-- of the blocks that are handed out, and all the others stay as they are. Every arena stays tiled by its
-- blocks with no two free ones side by side, and the arenas stay apart and in their pages.
pub kfree-TakesBack :
    (hhdm : ℕ) (b : Block) {h : Heap}
    → IsHeap h
    → IsGranted hhdm h
    → Stands b (all_used h.arenas)
    → (h' : Heap) × (kfree (payload b) h ≡ some h') × TakesBack hhdm b h h'
unfolding kfree
kfree-TakesBack hhdm b {h} v g held =
    let real : (payload b == 0) ≡ false = ground arith in
    let found = free_arenas_finds (payload b) h.arenas (Stands-Has b (all_used h.arenas) held) in
    let f = free_arenas-FreesIn (payload b) h.arenas found.0 found.1 in
    (
      record h { arenas = found.0 },
      rw (real, found.1) refl,
      record {
        valid = record { arenas = f.valid v.arenas; pages = v.pages };
        granted =
            same_spans-IsGranted found.0 (free_arenas-spans (payload b) h.arenas found.0 found.1) g;
        taken = taken_out b v g held f;
      },
    )

-- What `kmalloc` hands out, `kfree` takes back: the same blocks are handed out as before.
pub given_back :
    {hhdm : ℕ} {b : Block} (h h' h'' : Heap)
    → IsHeap h'
    → IsGranted hhdm h'
    → Inserted b (all_used h.arenas) (all_used h'.arenas)
    → TakesBack hhdm b h' h''
    → all_used h''.arenas ≡ all_used h.arenas
given_back h h' h'' v g i t =
    Inserted-unique (all_used h'.arenas) (all_used-AllClear h'.arenas v.arenas g.apart) t.taken i
