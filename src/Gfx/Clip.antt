-- ===== src/Gfx/Clip.antt =====
-- The clipping of lib/gfxlib.c on one axis, and where it goes wrong.
use artyom_x.Base.{
  ℕ, ◌+◌, ◌-◌, ◌^◌, ◌≤◌, ◌<◌, ◌≡◌, inl, inr, refl, Bool, true, false, not, leb, ltb, arith, ◌&&◌,
  Bool-cases,
}
use artyom_x.Gfx.{word, is_negative, clip_high, clip, is_empty}

-- An int with 2^31 added, which puts the ints in the order of ℕ.
abbrev pub shifted : ℕ → ℕ
shifted x = word (x + 2 ^ 31)

-- The coordinate `i` stands in the `w` ones from the int `x` on.
abbrev pub covers : ℕ → ℕ → ℕ → Bool
covers x w i = leb (shifted x) (i + 2 ^ 31) && ltb (i + 2 ^ 31) (shifted x + w)

-- What a clipped range has to be: the part of the range that is on the screen.
pub record Clips (size x w : ℕ) (r : ℕ × ℕ) : Type 0 where
  pub fits : is_empty r.1 ≡ false → r.0 + r.1 ≤ size
  pub same :
      (i : ℕ) → i < size → covers x w i ≡ not (is_empty r.1) && (leb r.0 i && ltb i (r.0 + r.1))

-- From a result that is given by its numbers.
of_numbers :
    (size x w x' w' : ℕ)
    → size < 2 ^ 16
    → (w' < 2 ^ 31 → x' + w' ≤ size)
    → ((i : ℕ) → i < size → covers x w i ≡ not (is_empty w') && (leb x' i && ltb i (x' + w')))
    → Clips size x w (x', w')
of_numbers size x w x' w' a b c = record { fits = λ h. b (ground arith); same = c }

-- It starts left of the screen.
from_left :
    (size x w : ℕ)
    → size < 2 ^ 16
    → is_negative x ≡ true
    → x < 2 ^ 32
    → w < 2 ^ 31
    → 2 ^ 31 ≤ shifted x + w
    → Clips size x w (0, clip_high size 0 (word (w + x)))
from_left size x w a neg b c d =
    let edge : word (w + x) ≡ shifted x + w - 2 ^ 31 = ground arith in
    let same_edge : word (0 + (shifted x + w - 2 ^ 31)) ≡ shifted x + w - 2 ^ 31 = ground arith in
    rw edge (
      rw same_edge (elim (Bool-cases (ltb size (shifted x + w - 2 ^ 31))) [
        | inl over ↦
            let all : word (size + 2 ^ 32 - 0) ≡ size = omega (arith, a) in
            rw (over, all) (of_numbers size x w 0 size a (λ h. omega arith) (λ i l. ground arith))
        | inr under ↦ rw under (
            of_numbers size x w 0 (shifted x + w - 2 ^ 31) a (λ h. ground arith)
              (λ i l. ground arith))
      ]))

-- It starts on the screen or right of it.
from_inside :
    (size x w : ℕ)
    → size < 2 ^ 16
    → is_negative x ≡ false
    → w < 2 ^ 31
    → shifted x + w < 2 ^ 32
    → Clips size x w (x, clip_high size x w)
from_inside size x w a pos c e =
    let small : word (x + w) ≡ x + w = ground arith in
    rw small (elim (Bool-cases (ltb size (x + w))) [
      | inl over ↦ elim (Bool-cases (ltb x size)) [
        | inl on ↦
            let rest : word (size + 2 ^ 32 - x) ≡ size - x = ground arith in
            rw (over, rest)
              (of_numbers size x w x (size - x) a (λ h. ground arith) (λ i l. ground arith))
        | inr off ↦ rw over (
            of_numbers size x w x (word (size + 2 ^ 32 - x)) a (λ h. ground arith)
              (λ i l. ground arith))
      ]
      | inr under ↦ rw under (of_numbers size x w x w a (λ h. ground arith) (λ i l. ground arith))
    ])

-- A range that ends at or behind the start of the screen is clipped to its part on the screen.
pub clip-Clips :
    (size x w : ℕ)
    → size < 2 ^ 16
    → x < 2 ^ 32
    → w < 2 ^ 31
    → 2 ^ 31 ≤ shifted x + w
    → shifted x + w < 2 ^ 32
    → Clips size x w (clip size x w)
unfolding clip
clip-Clips size x w a b c d e = elim (Bool-cases (is_negative x)) [
  | inl neg ↦ rw neg (from_left size x w a neg b c d)
  | inr pos ↦ rw pos (from_inside size x w a pos c e)
]

-- A range that ends before the start of the screen is widened to all of the screen.
pub clip_off_left :
    (size x w : ℕ)
    → size < 2 ^ 16
    → x < 2 ^ 32
    → w < 2 ^ 31
    → shifted x + w < 2 ^ 31
    → clip size x w ≡ (0, size)
unfolding clip
clip_off_left size x w a b c d =
    let neg : is_negative x ≡ true = ground arith in
    let over : ltb size (word (0 + word (w + x))) ≡ true = ground arith in
    let all : word (size + 2 ^ 32 - 0) ≡ size = omega (arith, a) in rw (neg, over, all) refl
