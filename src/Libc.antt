-- ===== src/Libc.antt =====
-- The C library of the kernel, lib/libc.c: memory, strings and numbers. Memory is a function from
-- addresses to bytes; an object does not wrap round the address space. A `char` is its code, and
-- what `write(1, …)` sends is a list of codes.
pub mod Copy
pub mod Compare
pub mod Decimal
pub mod Strings
pub mod Digits
mod Tests
use artyom_x.Base.{
  ℕ, zero, suc, ◌+◌, ◌-◌, ◌*◌, ◌/◌, ◌%◌, ◌^◌, ◌&&◌, ◌||◌, Bool, true, false, not, List, [], ◌∷◌,
  ◌++◌, ltb, leb, ◌==◌, if◌then◌else◌,
}

abbrev pub Memory : Type 0
Memory = ℕ → ℕ

-- `*a = v`.
abbrev pub store : Memory → ℕ → ℕ → Memory
store mem a v = λ i. if i == a then v else mem i

-- An int: a natural number, or `negsuc n` for -1 - n.
pub data ℤ : Type 0 where
  pos : ℕ → ℤ
  negsuc : ℕ → ℤ

-- `(int)a - (int)b` of two bytes.
abbrev pub difference : ℕ → ℕ → ℤ
difference a b = if leb b a then pos (a - b) else negsuc (b - a - 1)

pub memcmp : Memory → ℕ → ℕ → ℕ → ℤ
memcmp mem a b zero = pos 0
memcmp mem a b (suc num) =
    let rest = memcmp mem (a + 1) (b + 1) num in
    if mem a == mem b then rest else difference (mem a) (mem b)

-- Strings are given by their characters before the final 0.
pub strcmp : List ℕ → List ℕ → ℕ
strcmp [] [] = 0
strcmp [] (b ∷ str2) = 1
strcmp (a ∷ str1) [] = 1
strcmp (a ∷ str1) (b ∷ str2) = let rest = strcmp str1 str2 in if a == b then rest else 1

unfoldable pub memcpy : ℕ → ℕ → ℕ → Memory → Memory
memcpy dest src zero mem = mem
memcpy dest src (suc len) mem = memcpy (dest + 1) (src + 1) len (store mem dest (mem src))

unfoldable pub memset : ℕ → ℕ → ℕ → Memory → Memory
memset dest val zero mem = mem
memset dest val (suc len) mem = memset (dest + 1) val len (store mem dest val)

-- The loop from the end downwards.
pub copy_down : ℕ → ℕ → ℕ → Memory → Memory
copy_down d s zero mem = mem
copy_down d s (suc n) mem = copy_down d s n (store mem (d + n) (mem (s + n)))

-- The upward loop of `memmove` is that of `memcpy`.
pub memmove : ℕ → ℕ → ℕ → Memory → Memory
memmove d s n mem =
    if (d == s) || (n == 0)
    then mem
    else if ltb d s || leb (s + n) d
    then memcpy d s n mem
    else copy_down d s n mem

-- A 32-bit `int` is its word below.
abbrev pub int_word : ℕ → ℕ
int_word k = k % 2 ^ 32

-- `k = (k << 3) + (k << 1) + (*p) - '0'`.
pub atoi_step : ℕ → ℕ → ℕ
atoi_step k c = int_word (k * 8 + k * 2 + c + 2 ^ 32 - 48)

pub atoi_from : ℕ → List ℕ → ℕ
atoi_from k [] = k
atoi_from k (c ∷ cs) = let rest = atoi_from (atoi_step k c) cs in if c == 0 then k else rest

pub atoi : List ℕ → ℕ
atoi cs = atoi_from 0 cs

-- `(digit < 10) ? '0' + digit : 'a' + digit - 10`.
unfoldable pub digit_char : ℕ → ℕ
digit_char digit = if ltb digit 10 then 48 + digit else 97 + digit - 10

-- The loop that fills `buf`, with the bytes of the buffer that are left.
unfoldable pub digits : ℕ → ℕ → ℕ → List ℕ
digits zero num base = []
digits (suc room) num base =
    let rest = digits room (num / base) base in
    if num == 0 then [] else digit_char (num % base) ∷ rest

-- The loop that prints `buf` from its end.
pub print_buf : List ℕ → List ℕ
print_buf [] = []
print_buf (c ∷ cs) = print_buf cs ++ (c ∷ [])

unfoldable pub print_uint : ℕ → ℕ → List ℕ
print_uint num base = if num == 0 then 48 ∷ [] else print_buf (digits 32 num base)

-- The loop of `print_int`, which a negative `num` does not enter.
pub print_positive : ℕ → ℕ → List ℕ
print_positive num base = if leb (2 ^ 31) num then [] else print_buf (digits 32 num base)

pub print_int : ℕ → ℕ → List ℕ
print_int num base =
    if num == 0
    then 48 ∷ []
    else if leb (2 ^ 31) num && (base == 10)
    then 45 ∷ print_positive (int_word (2 ^ 32 - num)) base
    else print_positive num base
