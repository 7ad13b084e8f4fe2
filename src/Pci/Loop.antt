-- ===== src/Pci/Loop.antt =====
-- Loops that return at their first result, as in drivers/pci.c.
use artyom_x.Base.{
  ℕ, zero, suc, ◌+◌, ◌≤◌, ◌<◌, ◌≡◌, inl, inr, refl, Option, none, some, Option-cases, dec_lt, arith,
}
use artyom_x.Pci.{or_else, first_from}

-- How a loop of `n` rounds from `i` on ends.
pub data Ends {A : Type 0} (n i : ℕ) (body : ℕ → Option A) : Option A → Type 0 where
  without : ((k : ℕ) → i ≤ k → k < i + n → body k ≡ none) → Ends n i body none
  at :
      (k : ℕ) (a : A)
      → i ≤ k
      → k < i + n
      → body k ≡ some a
      → ((j : ℕ) → i ≤ j → j < k → body j ≡ none)
      → Ends n i body (some a)

split_first :
    {A : Type 0} (i : ℕ) (body : ℕ → Option A)
    → body i ≡ none
    → (k : ℕ) → i ≤ k
    → (i + 1 ≤ k → body k ≡ none)
    → body k ≡ none
split_first i body e k a h = elim (dec_lt i k) [
  | yes l ↦ h (omega arith)
  | no l ↦ let same : k ≡ i = omega arith in rw same e
]

-- One round in front.
later-Ends :
    {A : Type 0} (n i : ℕ) (body : ℕ → Option A) {r : Option A}
    → body i ≡ none
    → Ends n (i + 1) body r
    → Ends (suc n) i body r
later-Ends n i body e (without h) =
    without (λ k a b. split_first i body e k a (λ l. h k l (omega arith)))
later-Ends n i body e (at k a low high hit before) =
    at k a (omega arith) (omega arith) hit (λ j l u. split_first i body e j l (λ l'. before j l' u))

first_from_next :
    {A : Type 0} (n i : ℕ) (body : ℕ → Option A)
    → body i ≡ none
    → first_from (suc n) i body ≡ first_from n (i + 1) body
unfolding first_from or_else
first_from_next n i body e = rw e refl

first_from_hit :
    {A : Type 0} (n i : ℕ) (body : ℕ → Option A) {a : A}
    → body i ≡ some a
    → first_from (suc n) i body ≡ some a
unfolding first_from or_else
first_from_hit n i body e = rw e refl

pub first_from-Ends :
    {A : Type 0} (n i : ℕ) (body : ℕ → Option A) → Ends n i body (first_from n i body)
unfolding first_from
first_from-Ends zero i body = without (λ k a b. absurd (omega arith))
first_from-Ends (suc n) i body = elim (Option-cases (body i)) [
  | inl e ↦ rw (first_from_next n i body e) (later-Ends n i body e (first_from-Ends n (i + 1) body))
  | inr (a, e) ↦
      rw (first_from_hit n i body e)
        (at i a (omega arith) (omega arith) e (λ j l u. absurd (omega arith)))
]
