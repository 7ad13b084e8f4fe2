-- ===== src/Compat.antt =====
-- Programs of other systems, kernel/compat.c: the format of an image, the patching of its system
-- calls, and the calls themselves. `buf`, `code` and `addr` are addresses; an int is its 32-bit word.
mod Places
mod Patch
mod Calls
mod Output
pub mod Input
pub mod Dispatch
mod Tests
use artyom_x.Base.{
  ℕ, zero, suc, ◌+◌, ◌-◌, ◌*◌, ◌/◌, ◌%◌, ◌^◌, ◌&&◌, ◌||◌, Bool, true, false, Option, none, some,
  List, [], ◌∷◌, ltb, leb, ◌==◌, if◌then◌else◌,
}
use artyom_x.Libc.{Memory, store, memset, ℤ, pos, negsuc}
use artyom_x.Kheap.{Heap, kmalloc, kfree}
use artyom_x.Monitor.{Console, monitor_put}
use artyom_x.Keyboard.{Keyboard}
use artyom_x.Vfs.{Vfs}
use artyom_x.Syscalls.{Sys, File, Result, max_files, is_minus, open_path}

pub data Format : Type 0 where
  native linux32 linux64 darwin : Format

-- `m[0]` of a `uint32_t *`, the low byte first.
abbrev pub word_at : Memory → ℕ → ℕ
word_at mem a = mem a + mem (a + 1) * 2 ^ 8 + mem (a + 2) * 2 ^ 16 + mem (a + 3) * 2 ^ 24

abbrev pub is_macho64 : Memory → ℕ → Bool
is_macho64 mem buf = (word_at mem buf == 0xfeedfacf) || (word_at mem buf == 0xcffaedfe)

abbrev pub is_macho32 : Memory → ℕ → Bool
is_macho32 mem buf = (word_at mem buf == 0xfeedface) || (word_at mem buf == 0xcefaedfe)

abbrev pub is_elf_any : Memory → ℕ → Bool
is_elf_any mem buf =
    (mem buf == 0x7F) && ((mem (buf + 1) == 69) && ((mem (buf + 2) == 76) && (mem (buf + 3) == 70)))

pub compat_detect_format : Memory → ℕ → ℕ → Format
compat_detect_format mem buf size =
    if ltb size 16
    then native
    else if is_macho64 mem buf
    then darwin
    else if is_macho32 mem buf
    then darwin
    else if is_elf_any mem buf && (mem (buf + 4) == 2)
    then linux64
    else if is_elf_any mem buf && (mem (buf + 4) == 1)
    then linux32
    else native

-- The body of the loop at the address of `p[i]`, and the loop with the rounds left.
pub patch_at : ℕ → ℕ → Memory → Memory
patch_at p int_no mem =
    if (mem p == 0x0F) && (mem (p + 1) == 0x05)
    then store (store mem p 0xCD) (p + 1) int_no
    else mem

pub patch_loop : ℕ → ℕ → ℕ → Memory → Memory
patch_loop zero p int_no mem = mem
patch_loop (suc n) p int_no mem = patch_loop n (p + 1) int_no (patch_at p int_no mem)

pub compat_patch_syscalls : ℕ → ℕ → ℕ → Memory → Memory
compat_patch_syscalls code size patch_int mem = patch_loop (size - 1) code (patch_int % 256) mem

-- What the calls change: the files, heap and memory, the screen, the keyboard, and
-- `cur_brk`.
pub record Kernel : Type 0 where
  pub sys : Sys
  pub console : Console
  pub cur_brk : ℕ
  pub keyboard : Keyboard

-- The loop over the bytes with the rounds left: the count of those put.
pub put_bytes : ℕ → ℕ → Memory → Console → ℕ × Console
put_bytes zero buf mem c = (0, c)
put_bytes (suc n) buf mem c =
    let (k, c') = put_bytes n (buf + 1) mem (monitor_put (mem buf) c) in
    if mem buf == 0 then (0, c) else (suc k, c')

pub sys_write_compat : ℕ → ℕ → ℕ → Kernel → ℤ × Kernel
sys_write_compat fd buf len k =
    let (n, c) = put_bytes (if is_minus len then 0 else len) buf k.sys.memory k.console in
    if (fd == 1) || (fd == 2) then (pos n, record k { console = c }) else (negsuc 0, k)

-- Word for word `open` of lib/syscalls.c.
abbrev pub sys_open_compat : Vfs → ℕ → ℕ → List ℕ → ℕ → Sys → Result
sys_open_compat = open_path

-- `none` where `free` is given an address that is none of the heap's.
pub freed_as : Sys → Option Heap → Option (ℤ × Sys)
freed_as s none = none
freed_as s (some h) = some (pos 0, record s { heap = h })

pub close_file : ℕ → Option File → Sys → Option (ℤ × Sys)
close_file fd none s = some (negsuc 0, s)
close_file fd (some f) s =
    freed_as (record s { files = λ i. if i == fd then none else s.files i })
      (kfree f.address s.heap)

pub sys_close_compat : ℕ → Sys → Option (ℤ × Sys)
sys_close_compat fd s =
    if is_minus fd || leb max_files fd then some (negsuc 0, s) else close_file fd (s.files fd) s

-- The pointer answered is `cur_brk` afterwards.
pub first_brk : ℕ → Kernel → Kernel
first_brk hhdm k =
    let (p, h) = kmalloc hhdm 0x100000 k.sys.heap in
    if k.cur_brk == 0 then record k { cur_brk = p; sys = record k.sys { heap = h } } else k

pub sys_brk_compat : ℕ → ℕ → Kernel → Kernel
sys_brk_compat hhdm addr k0 =
    let k = first_brk hhdm k0 in
    if ltb k.cur_brk addr && ltb addr ((k.cur_brk + 0x100000) % 2 ^ 64)
    then record k { cur_brk = addr }
    else k

pub sys_mmap_compat : ℕ → ℕ → Sys → ℕ × Sys
sys_mmap_compat hhdm len s =
    let n = len % 2 ^ 32 in
    let (p, h) = kmalloc hhdm n s.heap in
    (p, record s { heap = h; memory = if p == 0 then s.memory else memset p 0 n s.memory })

pub sys_munmap_compat : ℕ → Sys → Option (ℤ × Sys)
sys_munmap_compat addr s = if addr == 0 then some (negsuc 0, s) else freed_as s (kfree addr s.heap)
