-- ===== src/Vfs.antt =====
-- The virtual file system, fs/fs.c: a node's operations, each of which it may lack. A node is given by
-- its address, and `Vfs` is what the nodes at the addresses hold.
use artyom_x.Base.{ℕ, ◌%◌, Bool, Option, none, some, List, ◌==◌, if◌then◌else◌}
use artyom_x.Libc.{Memory}

abbrev pub fs_directory : ℕ
fs_directory = 2

-- A read or a write: offset, size and buffer, the count of bytes and the memory afterwards.
abbrev pub Transfer : Type 0
Transfer = ℕ → ℕ → ℕ → Memory → ℕ × Memory

-- A directory entry. The `strcpy` of lib/libc.c wants a name to have a first character.
pub record Dirent : Type 0 where
  pub first : ℕ
  pub more : List ℕ
  pub ino : ℕ

pub record FsNode : Type 0 where
  pub flags : ℕ
  pub read : Option Transfer
  pub write : Option Transfer
  pub readdir : Option (ℕ → Option Dirent)
  pub finddir : Option (List ℕ → Option ℕ)

abbrev pub Vfs : Type 0
Vfs = ℕ → FsNode

-- A callback, or 0 where there is none.
unfoldable pub transfer : Option Transfer → Transfer
transfer none offset size buffer mem = (0, mem)
transfer (some f) offset size buffer mem = f offset size buffer mem

unfoldable pub read_fs : Vfs → ℕ → Transfer
read_fs vfs node = transfer (vfs node).read

pub write_fs : Vfs → ℕ → Transfer
write_fs vfs node = transfer (vfs node).write

-- `(node->flags&0x7) == FS_DIRECTORY`.
abbrev pub is_directory : Vfs → ℕ → Bool
is_directory vfs node = (vfs node).flags % 8 == fs_directory

unfoldable pub look_up : Option (List ℕ → Option ℕ) → List ℕ → Option ℕ
look_up none name = none
look_up (some f) name = f name

unfoldable pub finddir_fs : Vfs → ℕ → List ℕ → Option ℕ
finddir_fs vfs node name = if is_directory vfs node then look_up (vfs node).finddir name else none

unfoldable pub entry_at : Option (ℕ → Option Dirent) → ℕ → Option Dirent
entry_at none index = none
entry_at (some f) index = f index

unfoldable pub readdir_fs : Vfs → ℕ → ℕ → Option Dirent
readdir_fs vfs node index =
    if is_directory vfs node then entry_at (vfs node).readdir index else none
