-- ===== src/Initrd.antt =====
-- The initial ramdisk, fs/initrd.c: reading a file and finding one by its name. A file header is
-- what the disk holds of a file, a node what the kernel keeps of it.
pub mod Read
mod Find
mod Tests
use artyom_x.Base.{
  ℕ, zero, suc, ◌+◌, ◌-◌, ◌%◌, ◌^◌, ◌&&◌, Bool, true, false, Option, none, some, List, [], ◌∷◌, ltb,
  ◌==◌, if◌then◌else◌, get_or,
}
use artyom_x.Libc.{Memory, memcpy, strcmp}

pub record FileHeader : Type 0 where
  pub offset : ℕ
  pub length : ℕ

abbrev pub no_header : FileHeader
no_header = record { offset = 0; length = 0 }

-- The size of a read after the two tests, in 32 bits.
pub clamp_size : ℕ → ℕ → ℕ → ℕ
clamp_size length offset size =
    if ltb length ((offset + size) % 2 ^ 32) then length - offset else size

-- A read of the file with this header; `base` is the address of the disk.
pub read_file : FileHeader → ℕ → ℕ → ℕ → ℕ → Memory → ℕ × Memory
read_file header base offset size buffer mem =
    let n = clamp_size header.length offset size in
    if ltb header.length offset
    then (0, mem)
    else (n, memcpy buffer ((base + header.offset + offset) % 2 ^ 64) n mem)

-- `node` is given by its inode.
pub initrd_read : List FileHeader → ℕ → ℕ → ℕ → ℕ → ℕ → Memory → ℕ × Memory
initrd_read file_headers base inode offset size buffer mem =
    read_file (get_or file_headers inode no_header) base offset size buffer mem

-- A node that a look-up can answer.
pub data Node : Type 0 where
  root_node dev_node : Node
  file : ℕ → Node

abbrev pub dev_name : List ℕ
dev_name = 100 ∷ 101 ∷ 118 ∷ []

abbrev pub initrd_name : List ℕ
initrd_name = 105 ∷ 110 ∷ 105 ∷ 116 ∷ 114 ∷ 100 ∷ []

-- The loop over the names of the files from number `i` on.
pub find_file : List ℕ → List (List ℕ) → ℕ → Option Node
find_file name [] i = none
find_file name (f ∷ files) i =
    let rest = find_file name files (i + 1) in if strcmp name f == 0 then some (file i) else rest

abbrev pub is_root : Node → Bool
is_root root_node = true
is_root _ = false

pub initrd_finddir : List (List ℕ) → Node → List ℕ → Option Node
initrd_finddir files node name =
    if is_root node && (strcmp name dev_name == 0)
    then some dev_node
    else if is_root node && (strcmp name initrd_name == 0)
    then some root_node
    else find_file name files 0
