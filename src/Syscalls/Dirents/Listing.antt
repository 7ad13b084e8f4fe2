-- ===== src/Syscalls/Dirents/Listing.antt =====
-- `getdents` of lib/syscalls.c: which entries it lists, and that it ends and stays in its buffer.
use artyom_x.Base.{
  ℕ, zero, suc, ◌+◌, ◌-◌, ◌%◌, ◌^◌, ◌≤◌, ◌<◌, ◌≡◌, ◌≢◌, ◌∙◌, inl, inr, refl, true, false, Option,
  none, some, arith, ltb, leb, ◌==◌, Bool-cases, Option-cases,
}
use artyom_x.Libc.{Memory, pos}
use artyom_x.Vfs.{Vfs, Dirent, is_directory, readdir_fs}
use artyom_x.Syscalls.{Sys, File, returns, u32, set_file}
use artyom_x.Syscalls.Dirents.{
  name_length, record_length, put_record, getdents_loop, listed, getdents_file, getdents,
}
use artyom_x.Syscalls.Dirents.Record.{
  plain, Outside, put_record-Outside, HoldsRecord, put_record-HoldsRecord,
}

-- From one position and count of bytes to another: the records of the entries, which `mem` holds from
-- `buf` on, one behind the other, until there is none or the next does not fit.
pub data Listing (vfs : Vfs) (node size buf : ℕ) (mem : Memory) : ℕ → ℕ → ℕ → ℕ → Type 0 where
  at_end : {p w : ℕ} → readdir_fs vfs node p ≡ none → Listing vfs node size buf mem p w p w
  no_space :
      {p w : ℕ} {d : Dirent}
      → readdir_fs vfs node p ≡ some d
      → size < w + record_length d
      → Listing vfs node size buf mem p w p w
  entry :
      {p w p' w' : ℕ} {d : Dirent}
      → readdir_fs vfs node p ≡ some d
      → w + record_length d ≤ size
      → HoldsRecord (buf + w) d mem
      → Listing vfs node size buf mem (u32 (p + 1)) (w + record_length d) p' w'
      → Listing vfs node size buf mem p w p' w'

-- A name has at most the 127 bytes of the field less its final 0.
abbrev pub AllShort : Vfs → ℕ → Type 0
AllShort vfs node = (i : ℕ) (d : Dirent) → readdir_fs vfs node i ≡ some d → name_length d ≤ 127

-- How the loop ends.
record Ends (vfs : Vfs) (node size buf w p : ℕ) (mem : Memory) (r : Option (ℕ × ℕ × Memory))
    : Type 0 where
  written : ℕ
  position : ℕ
  memory : Memory
  ended : r ≡ some (written, position, memory)
  listing : Listing vfs node size buf memory p w position written
  grown : w ≤ written
  within_size : written ≤ size
  outside : Outside (buf + w) (written - w) mem memory

all_of : (n : ℕ) → n - 0 ≡ n
all_of n = omega arith

same_Outside : (a n : ℕ) (mem : Memory) → Outside a n mem mem
unfolding Outside
same_Outside a n mem i h = refl

module _ (vfs : Vfs) (node size buf : ℕ) (short : AllShort vfs node) (small : size < 2 ^ 31) where
  beyond :
      (w : ℕ) (d : Dirent) (mem : Memory) (written : ℕ) (new : Memory)
      → w + record_length d ≤ written
      → Outside
          (buf + (w + record_length d))
          (written - (w + record_length d))
          (put_record (buf + w) d mem)
          new
      → Outside (buf + w) (written - w) mem new
  unfolding Outside
  beyond w d mem written new grown rest i h =
      rest i (ground arith) ∙ put_record-Outside (buf + w) d mem i (ground arith)

  kept_record :
      (w : ℕ) (d : Dirent) (mem : Memory) (written : ℕ) (new : Memory)
      → Outside
          (buf + (w + record_length d))
          (written - (w + record_length d))
          (put_record (buf + w) d mem)
          new
      → (i : ℕ) → i < record_length d
      → new (buf + w + i) ≡ put_record (buf + w) d mem (buf + w + i)
  unfolding Outside
  kept_record w d mem written new rest i h = rest (buf + w + i) (inl (omega arith))

  loop-Ends :
      (fuel w p : ℕ) (mem : Memory)
      → w ≤ size
      → size < w + fuel
      → Ends vfs node size buf w p mem (getdents_loop fuel vfs node size buf w p mem)
  unfolding getdents_loop
  loop-Ends zero w p mem fits enough = absurd (omega (arith, fits, enough))
  loop-Ends (suc fuel) w p mem fits enough = elim (Option-cases (readdir_fs vfs node p)) [
    | inl miss ↦ rw (miss, getdents_loop) (stop (at_end miss))
    | inr (d, hit) ↦
        let n = w + record_length d in
        let length_fits = short p d hit in
        let whole : n % 2 ^ 32 ≡ n = omega (arith, small, fits, length_fits) in
        elim (Bool-cases (ltb size n)) [
          | inl over ↦ rw (hit, getdents_loop, whole, over) (stop (no_space hit (ground arith)))
          | inr inside ↦
              let below : n ≤ size = ground arith in
              let r =
                loop-Ends fuel n (u32 (p + 1)) (put_record (buf + w) d mem) below
                  (omega (arith, enough)) in
              rw (hit, getdents_loop, whole, inside)
                (record {
                  written = r.written;
                  position = r.position;
                  memory = r.memory;
                  ended = r.ended;
                  listing =
                      entry hit below
                        (put_record-HoldsRecord (buf + w) d mem r.memory length_fits
                          (kept_record w d mem r.written r.memory r.outside))
                        r.listing;
                  grown = omega (arith, r.grown);
                  within_size = r.within_size;
                  outside = beyond w d mem r.written r.memory r.grown r.outside;
                })
        ]
  ]
    where
      stop :
          Listing vfs node size buf mem p w p w → Ends vfs node size buf w p mem (some (w, p, mem))
      stop l = record {
        written = w;
        position = p;
        memory = mem;
        ended = refl;
        listing = l;
        grown = omega arith;
        within_size = fits;
        outside = same_Outside (buf + w) (w - w) mem;
      }

-- The directory has been listed from the position of the file on.
pub record Lists (vfs : Vfs) (fd buf size : ℕ) (f : File) (s : Sys) (written : ℕ) (t : Sys)
    : Type 0 where
  pub position : ℕ
  pub listing : Listing vfs f.node size buf t.memory f.position 0 position written
  pub moved : t.files fd ≡ some (record f { position = position })
  pub others : (i : ℕ) → i ≢ fd → t.files i ≡ s.files i
  pub within_size : written ≤ size
  pub outside : Outside buf written s.memory t.memory

-- `getdents` of an open directory ends, whatever `readdir` answers, as a record for every byte of the
-- buffer is more than there can be. It answers how many bytes it has written, at most `size`: the records
-- of the entries from the position on, one behind the other, until there is none or the next does not
-- fit. Behind the call the memory holds in each record the number of the entry, the length of the
-- record, the type 0 and the name; the position is that of the next entry, and no byte outside changes. The size is below 2^31,
-- and no name is longer than its field.
pub getdents-Lists :
    (vfs : Vfs) (fd buf size : ℕ) (f : File) (s : Sys)
    → s.files fd ≡ some f
    → fd < 16384
    → is_directory vfs f.node ≡ true
    → AllShort vfs f.node
    → size < 2 ^ 31
    → (w : ℕ) × (t : Sys) × (getdents vfs fd buf size s ≡ some (returns (pos w) t))
      × Lists vfs fd buf size f s w t
unfolding getdents getdents_file listed
getdents-Lists vfs fd buf size f s open_now low directory short small =
    let r =
      loop-Ends vfs f.node size buf short small (size + 1) 0 f.position s.memory (omega arith)
        (omega arith) in
    let inside : leb 16384 fd ≡ false = ground arith in
    let here : (fd == fd) ≡ true = ground arith in
    let f' = record f { position = r.position } in
    let t = set_file fd f' (record s { memory = r.memory }) in
    (
      r.written,
      t,
      rw (inside, open_now, directory, r.ended) refl,
      record {
        position = r.position;
        listing = r.listing;
        moved = rw here refl;
        others = λ i ne. let other : (i == fd) ≡ false = ground arith in rw other refl;
        within_size = r.within_size;
        outside = rw (plain buf, all_of r.written) at (r.outside);
      },
    )
