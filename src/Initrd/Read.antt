-- ===== src/Initrd/Read.antt =====
-- `initrd_read` of fs/initrd.c: the bytes that it delivers, and where the bound fails.
use artyom_x.Base.{
  ℕ, ◌+◌, ◌-◌, ◌%◌, ◌^◌, ◌≤◌, ◌<◌, ◌≡◌, ◌⊎◌, refl, true, false, List, ltb, if◌then◌else◌, arith,
  get_or, Bool-cases, inl, inr,
}
use artyom_x.Libc.{Memory}
use artyom_x.Libc.Copy.{Moved, memcpy-Moved, unmoved}
use artyom_x.Initrd.{FileHeader, no_header, clamp_size, read_file, initrd_read}

-- The bytes of a file from an offset on, at most `size` of them.
abbrev pub left_of : FileHeader → ℕ → ℕ → ℕ
left_of h offset size = if ltb (h.length - offset) size then h.length - offset else size

clamped :
    (length offset size : ℕ)
    → offset ≤ length
    → offset + size < 2 ^ 32
    → clamp_size length offset size ≡ (if ltb (length - offset) size then length - offset else size)
unfolding clamp_size
clamped length offset size a b =
    let fits : (offset + size) % 2 ^ 32 ≡ offset + size = omega (arith, b) in
    rw fits (elim (Bool-cases (ltb (length - offset) size)) [
      | inl few ↦ let past : ltb length (offset + size) ≡ true = ground arith in rw (few, past) refl
      | inr all ↦
          let within_file : ltb length (offset + size) ≡ false = ground arith in
          rw (all, within_file) refl
    ])

read_file-Moved :
    (h : FileHeader) (base offset size buffer : ℕ) (mem : Memory)
    → offset + size < 2 ^ 32
    → base + h.offset + offset < 2 ^ 64
    → (buffer ≤ base + h.offset + offset)
      ⊎ (base + h.offset + offset + left_of h offset size ≤ buffer)
    → let (m, after) = read_file h base offset size buffer mem in
      (m ≡ left_of h offset size)
      × Moved buffer (base + h.offset + offset) (left_of h offset size) mem after
unfolding read_file
read_file-Moved h base offset size buffer mem a b apart = elim (Bool-cases (ltb h.length offset)) [
  | inl behind ↦
      let none_left : left_of h offset size ≡ 0 = ground arith in
      rw (behind, none_left) (refl, nothing)
  | inr inside ↦
      let n = clamped h.length offset size (ground arith) a in
      let addr : (base + h.offset + offset) % 2 ^ 64 ≡ base + h.offset + offset =
        omega (arith, b) in
      rw (inside, n, addr)
        (refl, memcpy-Moved buffer (base + h.offset + offset) (left_of h offset size) mem apart)
]
  where
    nothing : Moved buffer (base + h.offset + offset) 0 mem mem
    nothing = unmoved buffer (base + h.offset + offset) mem

-- A read whose end fits in 32 bits delivers the bytes of the file from the offset on, as many
-- as asked for and as are left, and writes nothing else, where the buffer does not overlap them.
pub initrd_read-Moved :
    (headers : List FileHeader) (base inode offset size buffer : ℕ) (mem : Memory)
    → offset + size < 2 ^ 32
    → base + (get_or headers inode no_header).offset + offset < 2 ^ 64
    → (buffer ≤ base + (get_or headers inode no_header).offset + offset)
      ⊎ (base
            + (get_or headers inode no_header).offset
            + offset
            + left_of (get_or headers inode no_header) offset size
          ≤ buffer)
    → let h = get_or headers inode no_header in
      let (m, after) = initrd_read headers base inode offset size buffer mem in
      (m ≡ left_of h offset size)
      × Moved buffer (base + h.offset + offset) (left_of h offset size) mem after
unfolding initrd_read
initrd_read-Moved headers base inode offset size buffer mem a b apart =
    read_file-Moved (get_or headers inode no_header) base offset size buffer mem a b apart

overrun :
    (h : FileHeader) (base offset size buffer : ℕ) (mem : Memory)
    → size < 2 ^ 32
    → 2 ^ 32 ≤ offset + size
    → offset ≤ h.length
    → h.length < 2 ^ 32
    → offset + size - 2 ^ 32 ≤ h.length
    → ((read_file h base offset size buffer mem).0 ≡ size) × (h.length - offset < size)
unfolding read_file clamp_size
overrun h base offset size buffer mem a b c d e =
    let inside : ltb h.length offset ≡ false = ground arith in
    let wraps : (offset + size) % 2 ^ 32 ≡ offset + size - 2 ^ 32 = omega (arith, a, b, c, d) in
    let passes : ltb h.length (offset + size - 2 ^ 32) ≡ false = ground arith in
    (rw (inside, wraps, passes) refl, omega (arith, a, b, c, d))

-- Where the end of a read wraps round in 32 bits to a place in the file, the whole size is
-- copied, past the end of the file.
pub initrd_read_overrun :
    (headers : List FileHeader) (base inode offset size buffer : ℕ) (mem : Memory)
    → size < 2 ^ 32
    → 2 ^ 32 ≤ offset + size
    → offset ≤ (get_or headers inode no_header).length
    → (get_or headers inode no_header).length < 2 ^ 32
    → offset + size - 2 ^ 32 ≤ (get_or headers inode no_header).length
    → ((initrd_read headers base inode offset size buffer mem).0 ≡ size)
      × ((get_or headers inode no_header).length - offset < size)
unfolding initrd_read
initrd_read_overrun headers base inode offset size buffer mem =
    overrun (get_or headers inode no_header) base offset size buffer mem
