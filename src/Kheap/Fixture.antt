-- ===== src/Kheap/Fixture.antt =====
-- A heap for the tests: that of mm/kheap.c with one arena of 64 KiB, and no pages below it.
use artyom_x.Base.{◌≡◌, ◌≢◌, refl, true, false, [], ◌∷◌, arith}
use artyom_x.Pmm.{Pmm, Mbi, pmm_init}
use artyom_x.Pmm.MemoryMap.{mmap_entries}
use artyom_x.Pmm.Init.{pmm_init-IsValid, pmm_init_pages}
use artyom_x.Kheap.{
  Block, Heap, split_block, place, push_block, alloc_blocks, set_blocks, alloc_arenas, kmalloc,
}
use artyom_x.Kheap.Malloc.{IsHeap}
use artyom_x.Kheap.Granted.{IsGranted}

abbrev pub no_map : Mbi
no_map = record { flags = 0; mmap_length = 0; mmap_addr = 0; mmap = λ i. 0 }

abbrev pub blank : Pmm
blank = record { bitmap = λ i. 0; highest_page = 0; free_count = 0; last_hint = 0 }

-- A used block of 96 bytes, a free one of 160, and the rest used.
abbrev pub first : Block
first = record { addr = 0x10010; size = 96; free = false }

abbrev pub second : Block
second = record { addr = 0x10090; size = 160; free = true }

abbrev pub third : Block
third = record { addr = 0x10150; size = 65168; free = false }

abbrev pub heap : Heap
heap = record {
  arenas = record { addr = 0x10000; total_size = 65520; blocks = first ∷ second ∷ third ∷ [] } ∷ [];
  pmm = pmm_init no_map blank;
}

pub heap-IsHeap : IsHeap heap
unfolding mmap_entries
heap-IsHeap = record {
  arenas = (
    record {
      tiles = omega arith;
      coalesced = (refl, (refl, (refl, tt)));
      aligned = omega arith;
      base = refl;
    },
    tt,
  );
  pages = (pmm_init-IsValid no_map blank (λ i. omega arith) tt).0;
}

-- The pages 16 to 31.
pub heap-IsGranted : IsGranted 0 heap
unfolding mmap_entries
heap-IsGranted = record {
  apart = (tt, tt);
  in_pages = (
    record {
      first = 16;
      count = 16;
      address = omega arith;
      bytes = omega arith;
      some_pages = omega arith;
      tracked = omega arith;
      in_use = λ q a b. ground (arith, pmm_init_pages no_map blank (λ i. omega arith) tt q);
    },
    tt,
  );
}

-- It has room for an open file.
pub file_block : (kmalloc 0 16 heap).0 ≢ 0
unfolding kmalloc alloc_arenas set_blocks alloc_blocks push_block place split_block
file_block = omega arith

-- One arena with one free block in it, and room for two pages.
abbrev pub roomy : Heap
roomy = record {
  arenas =
      record {
        addr = 0x20000;
        total_size = 65520;
        blocks = record { addr = 0x20010; size = 65488; free = true } ∷ [];
      }
      ∷ [];
  pmm = pmm_init no_map blank;
}

pub roomy-IsHeap : IsHeap roomy
unfolding mmap_entries
roomy-IsHeap = record {
  arenas = (
    record { tiles = omega arith; coalesced = (refl, tt); aligned = omega arith; base = refl },
    tt,
  );
  pages = (pmm_init-IsValid no_map blank (λ i. omega arith) tt).0;
}

pub two_pages : (kmalloc 0 8192 roomy).0 ≡ 0x20030
unfolding kmalloc alloc_arenas set_blocks alloc_blocks push_block place split_block
two_pages = refl
