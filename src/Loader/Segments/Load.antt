-- ===== src/Loader/Segments/Load.antt =====
-- `image_load64` of fs/loader.c up to the relocations.
use artyom_x.Base.{ℕ, ◌+◌, ◌-◌, ◌*◌, ◌%◌, ◌^◌, ◌≤◌, ◌<◌, ◌≡◌, List, if◌then◌else◌}
use artyom_x.Libc.{Memory, memset}
use artyom_x.Libc.Copy.{within}
use artyom_x.Kheap.{kmalloc}
use artyom_x.Kheap.Malloc.{IsHeap, Serves}
use artyom_x.Monitor.{Console}
use artyom_x.Loader.Image.{e_phoff, e_phnum, bytes_at}
use artyom_x.Loader.{Loader, Outcome, answers, extent, buffer_size, page_down, finish64}
use artyom_x.Loader.Segments.{Layout, IsLayout}
use artyom_x.Loader.Segments.Place.{headers, placed}
use artyom_x.Loader.Segments.Buffer.{AllSound}

-- The extent of the segments of an image, and the buffer that `kmalloc` gives for it.
abbrev pub range_of : Memory → ℕ → ℕ × ℕ
range_of mem elf_start =
    extent (e_phnum mem elf_start) (elf_start + e_phoff mem elf_start) mem (2 ^ 64 - 1, 0)

abbrev pub layout_of : ℕ → ℕ → ℕ → Loader → Layout
layout_of hhdm elf_start image s =
    let range = range_of s.memory elf_start in
    record {
      elf_start = elf_start;
      image = image;
      exec = (kmalloc hhdm (buffer_size range) s.heap).0;
      load_addr = page_down range.0;
      size = buffer_size range;
    }

abbrev pub headers_of : Memory → ℕ → List artyom_x.Loader.Image.Phdr
headers_of mem elf_start = headers (e_phnum mem elf_start) (elf_start + e_phoff mem elf_start) mem

-- An image of `image` bytes with its headers in it, sound segments within 2 GiB, and a buffer apart
-- from it.
pub record IsLoadable (hhdm elf_start image : ℕ) (s : Loader) : Type 0 where
  pub heap : IsHeap s.heap
  pub base : hhdm % 16 ≡ 0
  pub header : 64 ≤ image
  pub table : e_phoff s.memory elf_start + e_phnum s.memory elf_start * 56 ≤ image
  pub sound : AllSound image (headers_of s.memory elf_start)
  pub order : (range_of s.memory elf_start).0 ≤ (range_of s.memory elf_start).1
  pub span : (range_of s.memory elf_start).1 < (range_of s.memory elf_start).0 + 2 ^ 31
  pub in_words : (range_of s.memory elf_start).1 < 2 ^ 64
  pub layout : IsLayout (layout_of hhdm elf_start image s)

-- How the load of the segments ends, as a condition on `image_load64`.
pub data Loads (hhdm elf_start image : ℕ) (s : Loader) : Outcome → Type 0 where
  no_memory :
      {c : Console}
      → (layout_of hhdm elf_start image s).exec ≡ 0
      → Loads hhdm elf_start image s (answers 0 (record s { console = c }))
  loads :
      (t : Loader)
      → Serves
          (layout_of hhdm elf_start image s).size
          (layout_of hhdm elf_start image s).exec
          s.heap
          t.heap
      → ((i : ℕ)
          → t.memory i
            ≡ placed (layout_of hhdm elf_start image s) s.memory (headers_of s.memory elf_start) i (
                if within
                  (layout_of hhdm elf_start image s).exec
                  (layout_of hhdm elf_start image s).size
                  i
                then 0
                else s.memory i))
      → t.console ≡ s.console
      → Loads hhdm elf_start image s (
          finish64 elf_start
            (layout_of hhdm elf_start image s).exec
            (layout_of hhdm elf_start image s).load_addr
            t)

module _ (hhdm elf_start image : ℕ) (s : Loader) (v : IsLoadable hhdm elf_start image s) where
  abbrev layout : Layout
  layout = layout_of hhdm elf_start image s

  abbrev cleared : Memory
  cleared = memset layout.exec 0 layout.size s.memory
