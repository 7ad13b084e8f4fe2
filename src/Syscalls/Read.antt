-- ===== src/Syscalls/Read.antt =====
-- `read` of lib/syscalls.c on a file of the initial ramdisk, through fs/fs.c and fs/initrd.c.
use artyom_x.Base.{
  ℕ, ◌+◌, ◌^◌, ◌≤◌, ◌<◌, ◌≡◌, ◌≢◌, ◌⊎◌, inl, inr, refl, true, false, none, some, List, arith, leb,
  ◌==◌, ◌||◌, Bool-cases, get_or,
}
use artyom_x.Libc.{Memory, pos}
use artyom_x.Libc.Copy.{Moved}
use artyom_x.Vfs.{Vfs, FsNode, transfer, read_fs}
use artyom_x.Initrd.{FileHeader, no_header, initrd_read}
use artyom_x.Initrd.Read.{left_of, initrd_read-Moved}
use artyom_x.Syscalls.{Sys, File, returns, read, read_open, moved_on, is_minus, u32}

-- The node of a file of the ramdisk.
abbrev pub file_node : List FileHeader → ℕ → ℕ → FsNode
file_node headers base inode = record {
  flags = 1;
  read = some (initrd_read headers base inode);
  write = none;
  readdir = none;
  finddir = none;
}

-- Where the bytes of a file of the ramdisk from a position on are, and how many of them a read
-- of `nbytes` can have.
abbrev pub source : List FileHeader → ℕ → ℕ → ℕ → ℕ
source headers base inode position = base + (get_or headers inode no_header).offset + position

abbrev pub available : List FileHeader → ℕ → ℕ → ℕ → ℕ
available headers inode position nbytes = left_of (get_or headers inode no_header) position nbytes

-- `n` bytes have come from `from` on into the buffer, and the open file has moved on by as many.
pub record Reads (fd buf from n : ℕ) (f : File) (s t : Sys) : Type 0 where
  pub bytes : Moved buf from n s.memory t.memory
  pub moved : t.files fd ≡ some (record f { position = f.position + n })
  pub others : (i : ℕ) → i ≢ fd → t.files i ≡ s.files i

-- What `moved_on` makes of a count that fits an int.
moved_on-Reads :
    (fd buf from : ℕ) (f : File) (s : Sys) (r : ℕ × Memory) (n : ℕ)
    → s.files fd ≡ some f
    → n < 2 ^ 31
    → f.position + n < 2 ^ 32
    → r.0 ≡ n
    → Moved buf from n s.memory r.1
    → (t : Sys) × (moved_on fd f r s ≡ returns (pos n) t) × Reads fd buf from n f s t
unfolding moved_on
moved_on-Reads fd buf from f s (ret, mem) n open_now small fits same bytes =
    let nonneg : is_minus n ≡ false = ground arith in
    let whole : u32 (f.position + n) ≡ f.position + n = omega (arith, fits) in
    rw (same, nonneg)
      (elim (Bool-cases (n == 0)) [
        | inl nothing ↦
            let still : f.position + n ≡ f.position = ground arith in
            rw nothing (
              record s { memory = mem },
              refl,
              record { bytes = bytes; moved = rw (still) open_now; others = λ i ne. refl },
            )
        | inr some_read ↦
            rw (some_read, whole)
              (
                _,
                refl,
                record {
                  bytes = bytes;
                  moved = let here : (fd == fd) ≡ true = ground arith in rw here refl;
                  others = λ i ne. let other : (i == fd) ≡ false = ground arith in rw other refl;
                },
              )
      ])

-- `read` of an open file of the ramdisk answers how many bytes it has delivered: those of the file
-- from the position on, as many as asked for and as are left; the position moves on by as many, and
-- no other file does. The file is open and its node is one of the ramdisk; the end of the read fits
-- in 32 bits, and the buffer does not begin inside the bytes that are read.
pub read-Reads :
    (vfs : Vfs) (headers : List FileHeader) (base inode : ℕ) (f : File) (fd buf nbytes : ℕ)
    (s : Sys)
    → s.files fd ≡ some f
    → vfs f.node ≡ file_node headers base inode
    → fd < 16384
    → 0 < nbytes
    → nbytes < 2 ^ 31
    → f.position + nbytes < 2 ^ 32
    → source headers base inode f.position < 2 ^ 64
    → (buf ≤ source headers base inode f.position)
      ⊎ (source headers base inode f.position + available headers inode f.position nbytes ≤ buf)
    → let n = available headers inode f.position nbytes in
      (t : Sys) × (read vfs fd buf nbytes s ≡ returns (pos n) t)
      × Reads fd buf (source headers base inode f.position) n f s t
unfolding read read_open read_fs transfer
read-Reads vfs headers base inode f fd buf nbytes s open_now ramdisk low some_asked small fits high
      apart =
    let n = available headers inode f.position nbytes in
    let r = initrd_read-Moved headers base inode f.position nbytes buf s.memory fits high apart in
    let asked : ((nbytes == 0) || is_minus nbytes) ≡ false = ground arith in
    let inside : leb 16384 fd ≡ false = ground arith in
    let few : n ≤ nbytes = ground arith in
    rw (asked, inside, open_now, ramdisk)
      (moved_on-Reads fd buf (source headers base inode f.position) f s
        (initrd_read headers base inode f.position nbytes buf s.memory) n open_now
        (omega (arith, few, small)) (omega (arith, few, fits)) r.0 r.1)
