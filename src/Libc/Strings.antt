-- ===== src/Libc/Strings.antt =====
-- `strcmp` of lib/libc.c as a test for equality.
use artyom_x.Base.{ℕ, ◌≡◌, ◌↔◌, refl, true, List, [], ◌∷◌, ◌==◌, arith, Bool-cases, inl, inr}
use artyom_x.Libc.{strcmp}

same : (a b : List ℕ) → strcmp a b ≡ 0 → a ≡ b
unfolding strcmp
same [] [] = λ h. refl
same [] (b ∷ ys) = λ h. absurd (omega (arith, h))
same (a ∷ xs) [] = λ h. absurd (omega (arith, h))
same (a ∷ xs) (b ∷ ys) = elim (Bool-cases (a == b)) [
  | inl eq ↦ rw eq (λ h. let e : a ≡ b = ground arith in rw (e, same xs ys h) refl)
  | inr ne ↦ rw ne (λ h. absurd (omega (arith, h)))
]

alike : (a : List ℕ) → strcmp a a ≡ 0
unfolding strcmp
alike [] = refl
alike (a ∷ xs) = let e : (a == a) ≡ true = ground arith in rw (e, alike xs) refl

-- `strcmp` answers 0 for equal strings and for no others.
pub strcmp_equal : (a b : List ℕ) → (strcmp a b ≡ 0) ↔ (a ≡ b)
strcmp_equal a b = (same a b, λ e. rw e (alike b))
