-- ===== src/Syscalls/Tests.antt =====
-- A ramdisk of two files, one of them open, and a directory, for lib/syscalls.c.
use artyom_x.Base.{
  ℕ, ◌-◌, ◌%◌, ◌≡◌, ◌==◌, refl, Option, none, some, List, [], ◌∷◌, arith, inl, if◌then◌else◌,
}
use artyom_x.Libc.{Memory, pos}
use artyom_x.Initrd.{FileHeader}
use artyom_x.Vfs.{Vfs, Dirent, readdir_fs, entry_at}
use artyom_x.Syscalls.{Sys, File, returns, read}
use artyom_x.Syscalls.Dirents.{getdents}
use artyom_x.Syscalls.Dirents.Listing.{AllShort, Lists, getdents-Lists}
use artyom_x.Syscalls.Read.{Reads, file_node, read-Reads}

abbrev headers : List FileHeader
headers = record { offset = 64; length = 10 } ∷ record { offset = 80; length = 100 } ∷ []

abbrev disk : Memory
disk = λ a. a % 256

abbrev vfs : Vfs
vfs = λ a.
    if a == 7
    then (record {
      flags = 2;
      read = none;
      write = none;
      readdir = none;
      finddir = some (λ name. some 8);
    })
    else file_node headers 4096 (a - 8)

abbrev open_one : File
open_one = record { address = 0x10000; node = 9; position = 90; flags = 0 }

abbrev before : Sys
before = record {
  files = λ i. if i == 3 then some open_one else none;
  current_fd = 4;
  heap = record {
    arenas = [];
    pmm = record { bitmap = λ i. 0; highest_page = 0; free_count = 0; last_hint = 0 };
  };
  memory = disk;
}

read-Reads_example :
    (t : Sys) × (read vfs 3 1000 20 before ≡ returns (pos 10) t)
    × Reads 3 1000 4266 10 open_one before t
read-Reads_example =
    read-Reads vfs headers 4096 1 open_one 3 1000 20 before refl refl (omega arith) (omega arith)
      (omega arith) (omega arith) (omega arith) (inl (omega arith))

-- A directory of one name, "ab".
abbrev folder : ℕ → Option Dirent
folder i = if i == 0 then some (record { first = 97; more = 98 ∷ []; ino = 5 }) else none

abbrev tree : Vfs
tree = λ a. record { flags = 2; read = none; write = none; readdir = some folder; finddir = none }

tree-AllShort : AllShort tree 7
unfolding readdir_fs entry_at
tree-AllShort i d hit = ground arith

abbrev open_folder : File
open_folder = record { address = 0x10000; node = 7; position = 0; flags = 0 }

abbrev reading : Sys
reading = record before { files = λ i. if i == 3 then some open_folder else none }

getdents-Lists_example :
    (w : ℕ) × (t : Sys) × (getdents tree 3 1000 100 reading ≡ some (returns (pos w) t))
    × Lists tree 3 1000 100 open_folder reading w t
getdents-Lists_example =
    getdents-Lists tree 3 1000 100 open_folder reading refl (omega arith) refl tree-AllShort
      (omega arith)
