-- ===== src/Loader/Words.antt =====
-- The fields of fs/elf.h: a field is read alike where the bytes are alike, and reads back what was
-- written.
use artyom_x.Base.{ℕ, zero, suc, ◌+◌, ◌/◌, ◌%◌, ◌^◌, ◌≤◌, ◌<◌, ◌≡◌, ◌⊎◌, inl, ◌∙◌, refl, arith}
use artyom_x.Libc.{Memory, store}
use artyom_x.Libc.Copy.{stored, unstored}
use artyom_x.Loader.Image.{bytes_at, put_bytes_at, phdr_at}
use native.Mathlib.Nat.{pow-suc}

-- The bytes of `n` addresses from `a` on are those of `mem`.
pub record Same (a n : ℕ) (mem cur : Memory) : Type 0 where
  pub alike : (i : ℕ) → a ≤ i → i < a + n → cur i ≡ mem i

pub Same-part :
    {a n b m : ℕ} {mem cur : Memory} → Same a n mem cur → a ≤ b → b + m ≤ a + n → Same b m mem cur
Same-part h x y = record { alike = λ i u v. h.alike i (omega arith) (omega arith) }

pub bytes_at-Same :
    (n a : ℕ) (mem cur : Memory) → Same a n mem cur → bytes_at n cur a ≡ bytes_at n mem a
unfolding bytes_at
bytes_at-Same zero a mem cur h = refl
bytes_at-Same (suc n) a mem cur h =
    let first = h.alike a (omega arith) (omega arith) in
    let rest = bytes_at-Same n (a + 1) mem cur (Same-part h (omega arith) (omega arith)) in
    rw (first, rest) refl

pub phdr_at-Same : (a : ℕ) (mem cur : Memory) → Same a 56 mem cur → phdr_at cur a ≡ phdr_at mem a
unfolding phdr_at
phdr_at-Same a mem cur h =
    let type = bytes_at-Same 4 a mem cur (Same-part h (omega arith) (omega arith)) in
    let offset = bytes_at-Same 8 (a + 8) mem cur (Same-part h (omega arith) (omega arith)) in
    let vaddr = bytes_at-Same 8 (a + 16) mem cur (Same-part h (omega arith) (omega arith)) in
    let filesz = bytes_at-Same 8 (a + 32) mem cur (Same-part h (omega arith) (omega arith)) in
    let memsz = bytes_at-Same 8 (a + 40) mem cur (Same-part h (omega arith) (omega arith)) in
    rw (type, offset, vaddr, filesz, memsz) refl

-- A write of `n` bytes changes nothing outside them, and reads back in `n` bytes.
pub put_bytes_at-outside :
    (n a v : ℕ) (mem : Memory) (i : ℕ) → (i < a) ⊎ (a + n ≤ i) → put_bytes_at n a v mem i ≡ mem i
unfolding put_bytes_at
put_bytes_at-outside zero a v mem i h = refl
put_bytes_at-outside (suc n) a v mem i h =
    put_bytes_at-outside n (a + 1) (v / 256) (store mem a (v % 256)) i (ground arith)
    ∙ unstored mem a (v % 256) i (λ e. ground arith)

pub bytes_at-put_bytes_at :
    (n a v : ℕ) (mem : Memory) → v < 256 ^ n → bytes_at n (put_bytes_at n a v mem) a ≡ v
unfolding bytes_at put_bytes_at
bytes_at-put_bytes_at zero a v mem h = omega (arith, h)
bytes_at-put_bytes_at (suc n) a v mem h =
    let mem' = store mem a (v % 256) in
    let low =
      put_bytes_at-outside n (a + 1) (v / 256) mem' a (inl (omega arith))
      ∙ stored mem a (v % 256) in
    let high =
      bytes_at-put_bytes_at n (a + 1) (v / 256) mem' (omega (arith, rw (pow-suc 256 n) at h)) in
    rw (low, high) (omega arith)
