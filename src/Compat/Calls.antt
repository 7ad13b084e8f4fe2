-- ===== src/Compat/Calls.antt =====
-- The system calls of kernel/compat.c on files and memory.
use artyom_x.Base.{
  ℕ, ◌+◌, ◌*◌, ◌%◌, ◌^◌, ◌≤◌, ◌<◌, ◌≡◌, ◌≢◌, inl, inr, refl, true, false, none, some, List, arith,
  leb, ltb, ◌==◌, if◌then◌else◌, ◌&&◌, ◌||◌,
}
use artyom_x.Libc.{pos}
use artyom_x.Libc.Copy.{within, memset-sets}
use artyom_x.Pmm.{page_size, max_pages, u64_mod}
use artyom_x.Kheap.{Block, Heap, kmalloc, kfree}
use artyom_x.Kheap.Tiling.{Inserted, all_used}
use artyom_x.Kheap.Apart.{Inserted-Stands}
use artyom_x.Kheap.Malloc.{IsHeap, Serves, kmalloc-Serves}
use artyom_x.Kheap.Granted.{IsGranted, HandsOut, kmalloc-HandsOut}
use artyom_x.Kheap.Return.{kfree-TakesBack, given_back}
use artyom_x.Vfs.{Vfs, finddir_fs}
use artyom_x.Syscalls.{set_file, Sys, File, returns, is_minus, open_path, open_node, open_file}
use artyom_x.Compat.{
  Kernel, sys_open_compat, sys_close_compat, close_file, freed_as, sys_brk_compat, first_brk,
  sys_mmap_compat,
}

-- A file has been opened and closed: the descriptor is not given out again, and the block of the file
-- is the one that was new, so the blocks that are handed out are those from before.
pub record OpenedClosed (hhdm fd : ℕ) (s t u : Sys) : Type 0 where
  pub gone : u.files fd ≡ none
  pub others : (i : ℕ) → i ≢ fd → u.files i ≡ s.files i
  pub next : u.current_fd ≡ fd + 1
  pub block : Block
  pub taken : Inserted block (all_used s.heap.arenas) (all_used t.heap.arenas)
  pub given_back : all_used u.heap.arenas ≡ all_used s.heap.arenas
  pub heap : IsHeap u.heap
  pub granted : IsGranted hhdm u.heap

-- The block that `kmalloc` hands out for a file.
kmalloc-HandsOut_file :
    (hhdm : ℕ) {h : Heap}
    → IsHeap h
    → IsGranted hhdm h
    → hhdm % 16 ≡ 0
    → hhdm + max_pages * page_size ≤ u64_mod
    → (kmalloc hhdm 16 h).0 ≢ 0
    → HandsOut hhdm 16 (kmalloc hhdm 16 h).0 h (kmalloc hhdm 16 h).1
kmalloc-HandsOut_file hhdm v g base map_fits success =
    elim (kmalloc-HandsOut hhdm 16 v g base map_fits (omega arith) (omega arith)) [
      | inl failed ↦ absurd (success failed.0)
      | inr r ↦ r
    ]

closes :
    (fd : ℕ) (f : File) (s : Sys) (g : Heap)
    → fd < 16384
    → s.files fd ≡ some f
    → kfree f.address s.heap ≡ some g
    → sys_close_compat fd s
      ≡ some (pos 0, record s { files = λ i. if i == fd then none else s.files i; heap = g })
unfolding sys_close_compat close_file freed_as
closes fd f s g below open_now freed =
    let in_table : (is_minus fd || leb 16384 fd) ≡ false = ground arith in
    rw (in_table, open_now, freed) refl

-- What is opened can be closed: the call answers 0, and the block that the file had taken from the heap
-- is given back, so that the same blocks are handed out as before; the heap stays well formed, and all
-- other descriptors are as before. The path is there, the table and the heap have room, and the heap is
-- well formed. (The direct map starts at a multiple of 16 and ends within 64 bits.)
pub sys_close_compat-open :
    (vfs : Vfs) (fs_root hhdm : ℕ) (path : List ℕ) (flags node : ℕ) (s : Sys)
    → finddir_fs vfs fs_root path ≡ some node
    → s.current_fd < 16384
    → IsHeap s.heap
    → IsGranted hhdm s.heap
    → hhdm % 16 ≡ 0
    → hhdm + max_pages * page_size ≤ u64_mod
    → (kmalloc hhdm 16 s.heap).0 ≢ 0
    → (t : Sys) × (u : Sys) × (sys_open_compat vfs fs_root hhdm path flags s
        ≡ returns (pos s.current_fd) t)
      × (sys_close_compat s.current_fd t ≡ some (pos 0, u))
      × OpenedClosed hhdm s.current_fd s t u
unfolding open_path open_node open_file
sys_close_compat-open vfs fs_root hhdm path flags node s hit room v g base map_fits success =
    let open_now : (((kmalloc hhdm 16 s.heap).0 == 0) || leb 16384 s.current_fd) ≡ false =
      ground arith in
    let here : (s.current_fd == s.current_fd) ≡ true = ground arith in
    let p = (kmalloc hhdm 16 s.heap).0 in
    let out = kmalloc-HandsOut_file hhdm v g base map_fits success in
    let back =
      kfree-TakesBack hhdm out.serves.block out.serves.valid out.granted
        (Inserted-Stands out.serves.fresh) in
    let f : File = record { address = p; node = node; position = 0; flags = flags } in
    let t : Sys =
      set_file s.current_fd f
        (record s { current_fd = s.current_fd + 1; heap = (kmalloc hhdm 16 s.heap).1 }) in
    let u : Sys = record t {
      files = λ i. if i == s.current_fd then none else t.files i;
      heap = back.0;
    } in
    rw (hit, open_now)
      (
        t,
        u,
        refl,
        closes s.current_fd f t back.0 room (rw here refl) (rw (out.serves.address) at (back.1)),
        record {
          gone = rw here refl;
          others = λ i ne. let other : (i == s.current_fd) ≡ false = ground arith in rw other refl;
          next = refl;
          block = out.serves.block;
          taken = out.serves.fresh;
          given_back =
              given_back s.heap t.heap back.0 out.serves.valid out.granted out.serves.fresh back.2;
          heap = back.2.valid;
          granted = back.2.granted;
        },
      )

-- What `sys_mmap_compat` has done for a length: nothing, or there is a new block of the length
-- in 32 bits, cleared, and no other byte has changed.
pub data Maps (len : ℕ) (s : Sys) : ℕ → Sys → Type 0 where
  failed : Maps len s 0 s
  mapped :
      {p : ℕ} {t : Sys}
      → Serves (len % 2 ^ 32) p s.heap t.heap
      → ((i : ℕ) → t.memory i ≡ (if within p (len % 2 ^ 32) i then 0 else s.memory i))
      → Maps len s p t

-- `sys_mmap_compat` keeps the heap well formed: it answers 0 and changes nothing, or a new block of as
-- many bytes as the low half of the length says, all 0, and no byte outside them changes. The
-- low half of the length is not 0.
pub sys_mmap_compat-Maps :
    (hhdm len : ℕ) (s : Sys)
    → IsHeap s.heap
    → hhdm % 16 ≡ 0
    → len % 2 ^ 32 ≢ 0
    → let (p, t) = sys_mmap_compat hhdm len s in Maps len s p t
unfolding sys_mmap_compat
sys_mmap_compat-Maps hhdm len s v base some_asked =
    let n = len % 2 ^ 32 in
    elim (kmalloc-Serves hhdm n v base some_asked (omega arith)) [
      | inl (zero_p, same) ↦ rw (zero_p, same) failed
      | inr r ↦
          let real : ((kmalloc hhdm n s.heap).0 == 0) ≡ false = ground (arith, r.address) in
          rw real (mapped r (λ i. memset-sets (kmalloc hhdm n s.heap).0 0 n s.memory i))
    ]

brk_moves :
    (hhdm addr : ℕ) (k : Kernel)
    → k.cur_brk ≢ 0
    → k.cur_brk < addr
    → addr < k.cur_brk + 0x100000
    → k.cur_brk + 0x100000 < 2 ^ 64
    → sys_brk_compat hhdm addr k ≡ record k { cur_brk = addr }
unfolding sys_brk_compat first_brk
brk_moves hhdm addr k started above below low =
    let real : (k.cur_brk == 0) ≡ false = ground arith in
    let whole : (k.cur_brk + 0x100000) % 2 ^ 64 ≡ k.cur_brk + 0x100000 = omega (arith, low) in
    let inside : (ltb k.cur_brk addr && ltb addr (k.cur_brk + 0x100000)) ≡ true = ground arith in
    rw (real, whole, inside) refl

-- The first break is the start of 1 MiB of the heap; each call may move it by almost as much from where
-- it is then, so that the second leaves the block.
pub sys_brk_compat_passes_end :
    (hhdm : ℕ) (k : Kernel)
    → k.cur_brk ≢ 0
    → k.cur_brk + 0x200000 < 2 ^ 64
    → let k1 = sys_brk_compat hhdm (k.cur_brk + 0xFFFFF) k in
      let k2 = sys_brk_compat hhdm (k.cur_brk + 0x1FFFFE) k1 in k2.cur_brk ≡ k.cur_brk + 0x1FFFFE
sys_brk_compat_passes_end hhdm k started low =
    let k1 = record k { cur_brk = k.cur_brk + 0xFFFFF } in
    let first =
      brk_moves hhdm (k.cur_brk + 0xFFFFF) k started (omega arith) (omega arith) (omega arith) in
    let second =
      brk_moves hhdm (k.cur_brk + 0x1FFFFE) k1 (ground arith) (omega arith) (omega arith)
        (omega arith) in
    rw (first, second) refl
