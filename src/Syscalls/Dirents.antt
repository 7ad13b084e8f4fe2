-- ===== src/Syscalls/Dirents.antt =====
-- `getdents` of lib/syscalls.c: the entries of a directory, one record behind another.
pub mod Record
pub mod Listing
use artyom_x.Base.{
  ℕ, zero, suc, ◌+◌, ◌/◌, ◌*◌, ◌%◌, ◌^◌, Option, none, some, List, [], ◌∷◌, ltb, leb, if◌then◌else◌,
  length,
}
use artyom_x.Libc.{Memory, store, ℤ, pos, negsuc}
use artyom_x.Vfs.{Vfs, Dirent, is_directory, readdir_fs}
use artyom_x.Syscalls.{Sys, File, Result, fault, returns, max_files, u32, set_file}

pub write_bytes : ℕ → List ℕ → Memory → Memory
write_bytes a [] mem = mem
write_bytes a (b ∷ bs) mem = write_bytes (a + 1) bs (store mem a b)

-- `namelen`, and the length of a record, rounded up to 4.
abbrev pub name_length : Dirent → ℕ
name_length d = suc (length d.more)

abbrev pub record_length : Dirent → ℕ
record_length d = (4 + 2 + 1 + name_length d + 1 + 3) / 4 * 4

-- The four assignments at `buf + written`; the name comes without a final 0.
pub put_record : ℕ → Dirent → Memory → Memory
put_record a d mem =
    let n = record_length d in
    let ino =
      d.ino % 256 ∷ d.ino / 2 ^ 8 % 256 ∷ d.ino / 2 ^ 16 % 256 ∷ d.ino / 2 ^ 24 % 256 ∷ [] in
    let reclen = n % 256 ∷ n / 2 ^ 8 % 256 ∷ [] in
    write_bytes (a + 7) (d.first ∷ d.more)
      (write_bytes (a + 6) (0 ∷ []) (write_bytes (a + 4) reclen (write_bytes a ino mem)))

-- The loop on fuel, with the entry that `readdir_fs` answers: `written`, `f->pos` and the memory when
-- it breaks.
pub getdents_loop : ℕ → Vfs → ℕ → ℕ → ℕ → ℕ → ℕ → Memory → Option (ℕ × ℕ × Memory)
getdents_loop zero vfs node size buf written position mem = none
getdents_loop (suc fuel) vfs node size buf written position mem =
    elim (readdir_fs vfs node position) [
      | none ↦ some (written, position, mem)
      | some d ↦
          let n = u32 (written + record_length d) in
          let rest =
            getdents_loop fuel vfs node size buf n (u32 (position + 1))
              (put_record (buf + written) d mem) in
          if ltb size n then some (written, position, mem) else rest
    ]

pub listed : ℕ → File → Sys → Option (ℕ × ℕ × Memory) → Option Result
listed fd f s none = none
listed fd f s (some (written, position, mem)) = some (
    returns (pos written)
      (set_file fd (record f { position = position }) (record s { memory = mem })))

pub getdents_file : Vfs → ℕ → ℕ → ℕ → Option File → Sys → Option Result
getdents_file vfs fd buf size none s = some fault
getdents_file vfs fd buf size (some f) s =
    if is_directory vfs f.node
    then listed fd f s (getdents_loop (size + 1) vfs f.node size buf 0 f.position s.memory)
    else some (returns (negsuc 1) s)

-- `none` where the fuel, a round for every byte and one, does not last.
pub getdents : Vfs → ℕ → ℕ → ℕ → Sys → Option Result
getdents vfs fd buf size s =
    if leb max_files fd then some fault else getdents_file vfs fd buf size (s.files fd) s
