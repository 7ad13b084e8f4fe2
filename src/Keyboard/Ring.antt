-- ===== src/Keyboard/Ring.antt =====
-- The ring of drivers/keyboard.c as the line that it holds: `buffer` from `tail` on, round its end.
use artyom_x.Base.{
  ℕ, ◌+◌, ◌-◌, ◌%◌, ◌<◌, ◌≡◌, ap, ◌∙◌, List, [], ◌∷◌, ◌++◌, arith, get_or, set, length,
  get_or-set_ne,
}
use artyom_x.Keyboard.Queue.{Line, drop_last}

-- The characters of `q` stand in `buf` from index `t` on.
abbrev pub Holds : List ℕ → ℕ → Line → Type 0
Holds buf t [] = Unit
Holds buf t (x ∷ q) = (get_or buf t 0 ≡ x) × Holds buf ((t + 1) % 256) q

-- A write behind the line leaves it alone.
pub Holds-set :
    (buf : List ℕ) (t i v : ℕ) (q : Line)
    → t < 256
    → length q < 256
    → i ≡ (t + length q) % 256
    → Holds buf t q
    → Holds (set buf i v) t q
Holds-set buf t i v [] ht hl e h = tt
Holds-set buf t i v (x ∷ q) ht hl e h = (
  get_or-set_ne buf i t v 0 (omega arith) ∙ h.0,
  Holds-set buf ((t + 1) % 256) i v q (omega arith) (omega arith) (omega arith) h.1,
)

pub Holds-append :
    (buf : List ℕ) (t v : ℕ) (q : Line)
    → t < 256
    → get_or buf ((t + length q) % 256) 0 ≡ v
    → Holds buf t q
    → Holds buf t (q ++ (v ∷ []))
Holds-append buf t v [] ht e h = (ap (λ i. get_or buf i 0) (omega arith) ∙ e, tt)
Holds-append buf t v (x ∷ q) ht e h = (
  h.0,
  Holds-append buf ((t + 1) % 256) v q (omega arith) (ap (λ i. get_or buf i 0) (omega arith) ∙ e)
      h.1,
)

pub Holds-drop_last : (buf : List ℕ) (t : ℕ) (q : Line) → Holds buf t q → Holds buf t (drop_last q)
unfolding drop_last
Holds-drop_last buf t [] h = tt
Holds-drop_last buf t (x ∷ []) h = tt
Holds-drop_last buf t (x ∷ (y ∷ q)) h = (h.0, Holds-drop_last buf ((t + 1) % 256) (y ∷ q) h.1)

pub length-drop_last : (q : Line) → length (drop_last q) ≡ length q - 1
unfolding drop_last
length-drop_last [] = omega arith
length-drop_last (x ∷ []) = omega arith
length-drop_last (x ∷ (y ∷ q)) = omega (arith, length-drop_last (y ∷ q))
