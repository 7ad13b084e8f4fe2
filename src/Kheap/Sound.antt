-- ===== src/Kheap/Sound.antt =====
-- The whole invariant of the heap of mm/kheap.c, for those who call it with any size and any pointer.
use artyom_x.Base.{
  ℕ, ◌+◌, ◌*◌, ◌%◌, ◌≤◌, ◌≡◌, false, some, arith, ◌==◌, Bool-cases, Option-cases, inl, inr,
}
use artyom_x.Pmm.{page_size, max_pages, u64_mod}
use artyom_x.Kheap.{Heap, free_arenas, kmalloc, kfree}
use artyom_x.Kheap.Malloc.{IsHeap}
use artyom_x.Kheap.Granted.{IsGranted, kmalloc-HandsOut, free_arenas-spans, same_spans-IsGranted}
use artyom_x.Kheap.Free.{kfree-FreesIn}

-- The direct map of the tracked pages is aligned and ends within 64 bits; the arenas are well formed,
-- apart and in pages that are in use.
pub record IsSound (hhdm : ℕ) (h : Heap) : Type 0 where
  pub base : hhdm % 16 ≡ 0
  pub map_fits : hhdm + max_pages * page_size ≤ u64_mod
  pub heap : IsHeap h
  pub granted : IsGranted hhdm h

pub kmalloc-IsSound :
    {hhdm : ℕ} (bytes : ℕ) {h : Heap}
    → IsSound hhdm h
    → bytes + 8208 ≤ u64_mod
    → IsSound hhdm (kmalloc hhdm bytes h).1
unfolding kmalloc
kmalloc-IsSound {hhdm} bytes {h} v small = elim (Bool-cases (bytes == 0)) [
  | inl z ↦ rw z v
  | inr nz ↦
      elim (kmalloc-HandsOut hhdm bytes v.heap v.granted v.base v.map_fits (ground arith) small) [
        | inl failed ↦ rw (failed.1) v
        | inr r ↦ record {
          base = v.base;
          map_fits = v.map_fits;
          heap = r.serves.valid;
          granted = r.granted;
        }
      ]
]

kfree-IsGranted :
    {hhdm : ℕ} (p : ℕ) {h h' : Heap}
    → IsGranted hhdm h
    → (p == 0) ≡ false
    → kfree p h ≡ some h'
    → IsGranted hhdm h'
unfolding kfree
kfree-IsGranted p {h} {h'} g real = rw real (elim (Option-cases (free_arenas p h.arenas)) [
  | inl miss ↦ rw miss (λ found. cc)
  | inr (r, hit) ↦ rw hit (λ found.
      let after : record h { arenas = r } ≡ h' = ground arith in
      rw (← after) (same_spans-IsGranted r (free_arenas-spans p h.arenas r hit) g))
])

kfree_nothing : (h : Heap) → kfree 0 h ≡ some h
unfolding kfree
kfree_nothing h = λ i. some h

pub kfree-IsSound :
    {hhdm : ℕ} (p : ℕ) {h h' : Heap} → IsSound hhdm h → kfree p h ≡ some h' → IsSound hhdm h'
kfree-IsSound p {h} {h'} v = elim (Bool-cases (p == 0)) [
  | inl z ↦ λ found.
      let z' : p ≡ 0 = ground arith in
      let same : h ≡ h' = cc (kfree_nothing h, z', found) in rw (← same) v
  | inr real ↦ λ found. record {
    base = v.base;
    map_fits = v.map_fits;
    heap = (kfree-FreesIn p v.heap (λ e. ground arith) found).0;
    granted = kfree-IsGranted p v.granted real found;
  }
]
