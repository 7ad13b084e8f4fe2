-- ===== src/Libc/Compare.antt =====
-- `memcmp` of lib/libc.c against the first byte that differs.
use artyom_x.Base.{
  ℕ, zero, suc, ◌+◌, ◌-◌, ◌<◌, ◌≡◌, ◌≢◌, ◌∙◌, ◌⊎◌, refl, sym, ap, ◌==◌, arith, Bool-cases, dec_lt,
  inl, inr,
}
use artyom_x.Libc.{Memory, pos, difference, memcmp}

-- The bytes agree before offset `k`.
pub Agree : Memory → ℕ → ℕ → ℕ → Type 0
Agree mem a b k = (i : ℕ) → i < k → mem (a + i) ≡ mem (b + i)

next-Agree :
    (mem : Memory) (a b k : ℕ) → mem a ≡ mem b → Agree mem (a + 1) (b + 1) k → Agree mem a b (suc k)
unfolding Agree
next-Agree mem a b k now rest i h = elim (dec_lt 0 i) [
  | yes p ↦ ap mem (shift a i p) ∙ rest (i - 1) (omega arith) ∙ sym (ap mem (shift b i p))
  | no np ↦ let z : i ≡ 0 = omega arith in rw (z, plus_zero a, plus_zero b) now
]
  where
    shift : (x i : ℕ) → 0 < i → x + i ≡ x + 1 + (i - 1)
    shift x i p = omega arith

    plus_zero : (x : ℕ) → x + 0 ≡ x
    plus_zero x = omega arith

next : (a k : ℕ) → a + suc k ≡ a + 1 + k
next a k = omega arith

-- `memcmp` is 0 and the ranges agree, or it is the difference of the first bytes that differ, which
-- is not 0.
pub memcmp-first :
    (mem : Memory) (a b num : ℕ)
    → ((memcmp mem a b num ≡ pos 0) × Agree mem a b num)
      ⊎ ((k : ℕ) × (k < num)
          × Agree mem a b k
          × (mem (a + k) ≢ mem (b + k))
          × (memcmp mem a b num ≡ difference (mem (a + k)) (mem (b + k))))
unfolding memcmp Agree
memcmp-first mem a b zero = inl (refl, λ i h. absurd (omega arith))
memcmp-first mem a b (suc num) = elim (Bool-cases (mem a == mem b)) [
  | inr ne ↦
      let here : mem (a + 0) ≡ mem a = ap mem (omega arith) in
      let there : mem (b + 0) ≡ mem b = ap mem (omega arith) in
      inr (
        zero,
        omega arith,
        (λ i h. absurd (omega arith)),
        (λ e. ground (arith, here, there, e)),
        rw (ne, here, there) refl,
      )
  | inl eq ↦
      let now : mem a ≡ mem b = ground arith in
      elim (memcmp-first mem (a + 1) (b + 1) num) [
        | inl (zero_now, agree) ↦ inl (rw eq zero_now, next-Agree mem a b num now agree)
        | inr (k, l, before, differ, value) ↦ inr (
          suc k,
          omega arith,
          next-Agree mem a b k now before,
          rw (next a k, next b k) differ,
          rw (eq, next a k, next b k) value,
        )
      ]
]
