-- ===== src/Syscalls.antt =====
-- The system calls on files, lib/syscalls.c: the table of open files. An `int` argument is its 32-bit
-- word, and `fs_root` is the address of the root node.
pub mod Dirents
mod Read
mod Tests
use artyom_x.Base.{
  ℕ, zero, suc, ◌+◌, ◌-◌, ◌%◌, ◌^◌, ◌&&◌, ◌||◌, Bool, true, false, not, Option, none, some, List,
  [], ◌∷◌, ltb, leb, ◌==◌, if◌then◌else◌,
}
use artyom_x.Libc.{Memory, ℤ, pos, negsuc}
use artyom_x.Kheap.{Heap, kmalloc}
use artyom_x.Vfs.{Vfs, read_fs, write_fs, is_directory, finddir_fs}

abbrev pub max_files : ℕ
max_files = 16384

-- A `file_t` and the address where it is.
pub record File : Type 0 where
  pub address : ℕ
  pub node : ℕ
  pub position : ℕ
  pub flags : ℕ

pub record Sys : Type 0 where
  pub files : ℕ → Option File
  pub current_fd : ℕ
  pub heap : Heap
  pub memory : Memory

-- A call returns an int, or it has gone through NULL or past the end of `files`.
pub data Result : Type 0 where
  fault : Result
  returns : ℤ → Sys → Result

abbrev pub u32 : ℕ → ℕ
u32 n = n % 2 ^ 32

abbrev pub is_minus : ℕ → Bool
is_minus n = leb (2 ^ 31) n

-- The int of a 32-bit word.
abbrev pub to_int : ℕ → ℤ
to_int n = if is_minus n then negsuc (2 ^ 32 - n - 1) else pos n

-- `files[fd] = f`.
abbrev pub set_file : ℕ → File → Sys → Sys
set_file fd f s = record s { files = λ i. if i == fd then some f else s.files i }

-- `if (ret > 0) f->pos += ret; return ret;`
pub moved_on : ℕ → File → ℕ × Memory → Sys → Result
moved_on fd f (ret, mem) s =
    let s' = record s { memory = mem } in
    let further = record f { position = u32 (f.position + ret) } in
    returns (to_int ret) (if (ret == 0) || is_minus ret then s' else set_file fd further s')

pub read_open : Vfs → ℕ → ℕ → ℕ → Option File → Sys → Result
read_open vfs fd buf nbytes none s = returns (negsuc 0) s
read_open vfs fd buf nbytes (some f) s =
    if is_directory vfs f.node
    then returns (negsuc 0) s
    else moved_on fd f (read_fs vfs f.node f.position nbytes buf s.memory) s

pub read : Vfs → ℕ → ℕ → ℕ → Sys → Result
read vfs fd buf nbytes s =
    if (nbytes == 0) || is_minus nbytes
    then returns (pos 0) s
    else if leb max_files fd
    then fault
    else read_open vfs fd buf nbytes (s.files fd) s

-- `while (start < nbytes && buf[start] == 0) start++;` with the rounds left.
pub skip_zeroes : Memory → ℕ → ℕ → ℕ
skip_zeroes mem buf zero = 0
skip_zeroes mem buf (suc n) =
    let rest = skip_zeroes mem (buf + 1) n in if mem buf == 0 then suc rest else 0

pub write_open : Vfs → ℕ → ℕ → ℕ → Option File → Sys → Result
write_open vfs fd buf nbytes none s = returns (negsuc 0) s
write_open vfs fd buf nbytes (some f) s =
    let start = if is_minus nbytes then 0 else skip_zeroes s.memory buf nbytes in
    moved_on fd f (write_fs vfs f.node f.position (nbytes - start) (buf + start) s.memory) s

pub write : Vfs → ℕ → ℕ → ℕ → Sys → Result
write vfs fd buf nbytes s =
    if leb max_files fd then fault else write_open vfs fd buf nbytes (s.files fd) s

-- The new file, with what `malloc` answers.
unfoldable pub open_file : ℕ → ℕ → ℕ × Heap → Sys → Result
open_file node flags (p, h) s =
    let fd = s.current_fd in
    if (p == 0) || leb max_files fd
    then fault
    else returns (pos fd) (
        set_file fd (record { address = p; node = node; position = 0; flags = flags })
          (record s { current_fd = fd + 1; heap = h }))

unfoldable pub open_node : ℕ → ℕ → Option ℕ → Sys → Result
open_node hhdm flags none s = returns (negsuc 0) s
open_node hhdm flags (some node) s = open_file node flags (kmalloc hhdm 16 s.heap) s

unfoldable pub open_path : Vfs → ℕ → ℕ → List ℕ → ℕ → Sys → Result
open_path vfs fs_root hhdm path flags s = open_node hhdm flags (finddir_fs vfs fs_root path) s
