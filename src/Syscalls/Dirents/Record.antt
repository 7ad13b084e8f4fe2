-- ===== src/Syscalls/Dirents/Record.antt =====
-- The records that `getdents` of lib/syscalls.c writes: what their bytes say, and that no other byte
-- changes.
use artyom_x.Base.{
  ℕ, zero, suc, ◌+◌, ◌*◌, ◌/◌, ◌%◌, ◌^◌, ◌≤◌, ◌<◌, ◌≡◌, ◌⊎◌, ◌∙◌, inl, refl, List, [], ◌∷◌, arith,
  length, get_or,
}
use artyom_x.Libc.{Memory, store}
use artyom_x.Libc.Copy.{stored, unstored}
use artyom_x.Vfs.{Dirent}
use artyom_x.Syscalls.Dirents.{write_bytes, name_length, record_length, put_record}

pub plain : (buf : ℕ) → buf + 0 ≡ buf
plain buf = omega arith

-- The two memories agree outside the `n` bytes from `a` on.
unfoldable pub Outside : ℕ → ℕ → Memory → Memory → Type 0
Outside a n mem new = (i : ℕ) → (i < a) ⊎ (a + n ≤ i) → new i ≡ mem i

write_bytes-Outside :
    (a : ℕ) (bs : List ℕ) (mem : Memory) → Outside a (length bs) mem (write_bytes a bs mem)
unfolding write_bytes Outside
write_bytes-Outside a [] mem i h = refl
write_bytes-Outside a (b ∷ bs) mem i h =
    write_bytes-Outside (a + 1) bs (store mem a b) i (ground arith)
    ∙ unstored mem a b i (λ e. ground arith)

pub put_record-Outside :
    (a : ℕ) (d : Dirent) (mem : Memory) → Outside a (record_length d) mem (put_record a d mem)
unfolding put_record Outside
put_record-Outside a d mem i h =
    write_bytes-Outside (a + 7) (d.first ∷ d.more) _ i (ground arith)
    ∙ write_bytes-Outside (a + 6) (_ ∷ []) _ i (ground arith)
    ∙ write_bytes-Outside (a + 4) (_ ∷ _ ∷ []) _ i (ground arith)
    ∙ write_bytes-Outside a (_ ∷ _ ∷ _ ∷ _ ∷ []) mem i (ground arith)

-- The record of an entry stands at `a`, its two numbers with the low byte first.
pub record HoldsRecord (a : ℕ) (d : Dirent) (mem : Memory) : Type 0 where
  pub ino :
      mem a + mem (a + 1) * 2 ^ 8 + mem (a + 2) * 2 ^ 16 + mem (a + 3) * 2 ^ 24 ≡ d.ino % 2 ^ 32
  pub reclen : mem (a + 4) + mem (a + 5) * 2 ^ 8 ≡ record_length d
  pub kind : mem (a + 6) ≡ 0
  pub name : (i : ℕ) → i < name_length d → mem (a + 7 + i) ≡ get_or (d.first ∷ d.more) i 0

write_bytes-get_or :
    (a : ℕ) (bs : List ℕ) (mem : Memory) (i : ℕ)
    → i < length bs
    → write_bytes a bs mem (a + i) ≡ get_or bs i 0
unfolding write_bytes Outside
write_bytes-get_or a [] mem i h = elim h [ ]
write_bytes-get_or a (b ∷ bs) mem zero h =
    write_bytes-Outside (a + 1) bs (store mem a b) (a + 0) (inl (omega arith))
    ∙ rw (plain a) (stored mem a b)
write_bytes-get_or a (b ∷ bs) mem (suc i) h =
    let shift : a + suc i ≡ a + 1 + i = omega arith in
    rw shift (write_bytes-get_or (a + 1) bs (store mem a b) i (omega arith))

-- The record is there in every memory that agrees with the one behind its write on its bytes.
module _ (a : ℕ) (d : Dirent) (mem new : Memory) (short : name_length d ≤ 127)
    (kept : (i : ℕ) → i < record_length d → new (a + i) ≡ put_record a d mem (a + i)) where
  abbrev behind_ino : Memory
  behind_ino =
      write_bytes a
        (d.ino % 256 ∷ d.ino / 2 ^ 8 % 256 ∷ d.ino / 2 ^ 16 % 256 ∷ d.ino / 2 ^ 24 % 256 ∷ []) mem

  abbrev behind_length : Memory
  behind_length =
      write_bytes (a + 4) (record_length d % 256 ∷ record_length d / 2 ^ 8 % 256 ∷ []) behind_ino

  abbrev behind_kind : Memory
  behind_kind = write_bytes (a + 6) (0 ∷ []) behind_length

  before_name : (i : ℕ) → i < 7 → new (a + i) ≡ behind_kind (a + i)
  unfolding put_record Outside
  before_name i h =
      kept i (omega arith)
      ∙ write_bytes-Outside (a + 7) (d.first ∷ d.more) behind_kind (a + i) (inl (omega arith))

  before_kind : (i : ℕ) → i < 6 → new (a + i) ≡ behind_length (a + i)
  unfolding Outside
  before_kind i h =
      before_name i (omega arith)
      ∙ write_bytes-Outside (a + 6) (0 ∷ []) behind_length (a + i) (inl (omega arith))

  ino_byte :
      (i : ℕ)
      → i < 4
      → new (a + i)
        ≡ get_or
            (d.ino % 256 ∷ d.ino / 2 ^ 8 % 256 ∷ d.ino / 2 ^ 16 % 256 ∷ d.ino / 2 ^ 24 % 256 ∷ [])
            i
            0
  unfolding Outside
  ino_byte i h =
      before_kind i (omega arith)
      ∙ write_bytes-Outside (a + 4) (_ ∷ _ ∷ []) behind_ino (a + i) (inl (omega arith))
      ∙ write_bytes-get_or a (_ ∷ _ ∷ _ ∷ _ ∷ []) mem i h

  length_byte :
      (i : ℕ)
      → i < 2
      → new (a + (4 + i)) ≡ get_or (record_length d % 256 ∷ record_length d / 2 ^ 8 % 256 ∷ []) i 0
  length_byte i h =
      let place : a + (4 + i) ≡ a + 4 + i = omega arith in
      before_kind (4 + i) (omega arith)
      ∙ rw place (write_bytes-get_or (a + 4) (_ ∷ _ ∷ []) behind_ino i h)

  name_byte : (i : ℕ) → i < name_length d → new (a + 7 + i) ≡ get_or (d.first ∷ d.more) i 0
  unfolding put_record
  name_byte i h =
      let place : a + 7 + i ≡ a + (7 + i) = omega arith in
      rw place (kept (7 + i) (omega arith))
      ∙ write_bytes-get_or (a + 7) (d.first ∷ d.more) behind_kind i h

  pub put_record-HoldsRecord : HoldsRecord a d new
  put_record-HoldsRecord = record {
    ino = omega (
      arith,
      rw (plain a) at (ino_byte 0 (omega arith)),
      ino_byte 1 (omega arith),
      ino_byte 2 (omega arith),
      ino_byte 3 (omega arith),
    );
    reclen = omega (arith, length_byte 0 (omega arith), length_byte 1 (omega arith), short);
    kind =
        before_name 6 (omega arith)
        ∙ rw (plain (a + 6)) at (write_bytes-get_or (a + 6) (0 ∷ []) behind_length 0 (omega arith));
    name = name_byte;
  }
