-- ===== src/Kheap/Tests.antt =====
-- The heap of mm/kheap.c with one arena of 64 KiB, and no pages below it.
use artyom_x.Base.{ℕ, ◌≡◌, ◌⊎◌, inl, refl, true, some, [], ◌∷◌, arith}
use artyom_x.Pmm.{pmm_init}
use artyom_x.Kheap.{
  Heap, split_block, place, push_block, alloc_blocks, set_blocks, alloc_arenas, kmalloc,
  coalesce_next, coalesce_prev, heads, behind, free_blocks, set_freed, free_arenas, kfree,
}
use artyom_x.Kheap.Fixture.{no_map, blank, first, third, heap, heap-IsHeap, heap-IsGranted}
use artyom_x.Kheap.Granted.{HandsOut, kmalloc-HandsOut}
use artyom_x.Kheap.Return.{TakesBack, kfree-TakesBack}

run_malloc : ℕ → Heap → ℕ × Heap
unfolding kmalloc alloc_arenas set_blocks alloc_blocks push_block place split_block
run_malloc bytes h = kmalloc 0 bytes h

-- The request is rounded to 64 bytes, and the rest of the free block, 64 bytes, is split off.
malloc_runs : (run_malloc 50 heap).0 ≡ 0x100b0
unfolding run_malloc
malloc_runs = refl

kmalloc-HandsOut_example :
    let (p, h) = kmalloc 0 50 heap in ((p ≡ 0) × (h ≡ heap)) ⊎ HandsOut 0 50 p heap h
kmalloc-HandsOut_example =
    kmalloc-HandsOut 0 50 heap-IsHeap heap-IsGranted refl (omega arith) (omega arith) (omega arith)

-- The heap after the first block is freed: it joins the free one behind it.
abbrev joined : Heap
joined = record {
  arenas =
      record {
        addr = 0x10000;
        total_size = 65520;
        blocks = record { addr = 0x10010; size = 288; free = true } ∷ third ∷ [];
      }
      ∷ [];
  pmm = pmm_init no_map blank;
}

free_runs : kfree 0x10030 heap ≡ some joined
unfolding kfree free_arenas set_freed free_blocks behind heads coalesce_next coalesce_prev
free_runs = refl

kfree-TakesBack_example : (h' : Heap) × (kfree 0x10030 heap ≡ some h') × TakesBack 0 first heap h'
kfree-TakesBack_example = kfree-TakesBack 0 first heap-IsHeap heap-IsGranted (inl refl)
