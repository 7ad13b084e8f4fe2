-- ===== src/Libc/Copy.antt =====
-- `memcpy`, `memset` and `memmove` of lib/libc.c: what a byte of memory is afterwards.
use artyom_x.Base.{
  ℕ, zero, suc, ◌+◌, ◌-◌, ◌≤◌, ◌<◌, ◌≡◌, ◌≢◌, ◌∙◌, ◌⊎◌, inl, inr, refl, ap, ◌&&◌, ◌||◌, Bool, true,
  false, ltb, leb, ◌==◌, if◌then◌else◌, arith, Bool-cases, ℕ_discrete,
}
use artyom_x.Libc.{Memory, store, memcpy, memset, copy_down, memmove}

-- Is `i` one of the `n` addresses from `d` on?
abbrev pub within : ℕ → ℕ → ℕ → Bool
within d n i = leb d i && ltb i (d + n)

-- The target holds what the source held before, and the rest is as it was.
unfoldable pub Moved : ℕ → ℕ → ℕ → Memory → Memory → Type 0
Moved d s n mem new = (i : ℕ) → new i ≡ (if within d n i then mem (s + (i - d)) else mem i)

within_yes : (d n i : ℕ) → d ≤ i → i < d + n → within d n i ≡ true
within_yes d n i a b = ground arith

within_no : (d n i : ℕ) → (i < d) ⊎ (d + n ≤ i) → within d n i ≡ false
within_no d n i (inl a) = ground arith
within_no d n i (inr a) = ground arith

pub within_suc : (d n i : ℕ) → i ≢ d → within (d + 1) n i ≡ within d (suc n) i
within_suc d n i ne = elim (Bool-cases (within d (suc n) i)) [
  | inl w ↦ rw w (ground (arith, ne))
  | inr w ↦ rw w (ground (arith, ne))
]

pub stored : (mem : Memory) (a v : ℕ) → store mem a v a ≡ v
stored mem a v = let e : (a == a) ≡ true = ground arith in rw e refl

pub unstored : (mem : Memory) (a v i : ℕ) → i ≢ a → store mem a v i ≡ mem i
unstored mem a v i ne = let e : (i == a) ≡ false = ground arith in rw e refl

moved_on :
    (d s n i : ℕ)
    → (d ≤ s) ⊎ (s + suc n ≤ d)
    → i ≢ d
    → within d (suc n) i ≡ true
    → s + 1 + (i - (d + 1)) ≢ d
moved_on d s n i (inl h) ne w e = ground arith
moved_on d s n i (inr h) ne w e = ground arith

index : (d s n i : ℕ) → i ≢ d → within d (suc n) i ≡ true → s + 1 + (i - (d + 1)) ≡ s + (i - d)
index d s n i ne w = ground arith

-- A write to one target byte outside what is still to be copied, and then the rest.
pub memcpy-Moved :
    (d s n : ℕ) (mem : Memory) → (d ≤ s) ⊎ (s + n ≤ d) → Moved d s n mem (memcpy d s n mem)
unfolding memcpy Moved
memcpy-Moved d s zero mem h i = rw (within_no d 0 i (ground arith)) refl
memcpy-Moved d s (suc n) mem h i =
    let mem' = store mem d (mem s) in
    let rest = memcpy-Moved (d + 1) (s + 1) n mem' (ground arith) i in
    elim (ℕ_discrete i d) [
      | yes e ↦
          rest
          ∙ rw
              (
                within_no (d + 1) n i (inl (omega arith)),
                within_yes d (suc n) i (omega arith) (omega arith),
                e,
              )
              (stored mem d (mem s) ∙ ap mem (omega arith))
      | no ne ↦ elim (Bool-cases (within d (suc n) i)) [
        | inl inside ↦
            let e : within (d + 1) n i ≡ true = ground (arith, ne) in
            let away : s + 1 + (i - (d + 1)) ≢ d = moved_on d s n i h ne inside in
            rw inside
              (rest ∙ rw e (unstored mem d (mem s) _ away ∙ ap mem (index d s n i ne inside)))
        | inr outside ↦
            let e : within (d + 1) n i ≡ false = ground (arith, ne) in
            rw outside (rest ∙ rw e (unstored mem d (mem s) i ne))
      ]
    ]

copy_down-Moved : (d s n : ℕ) (mem : Memory) → s ≤ d → Moved d s n mem (copy_down d s n mem)
unfolding copy_down Moved
copy_down-Moved d s zero mem h i = rw (within_no d 0 i (ground arith)) refl
copy_down-Moved d s (suc n) mem h i =
    let mem' = store mem (d + n) (mem (s + n)) in
    let rest = copy_down-Moved d s n mem' h i in
    elim (ℕ_discrete i (d + n)) [
      | yes e ↦
          rest
          ∙ rw
              (
                within_no d n i (inr (omega arith)),
                within_yes d (suc n) i (omega arith) (omega arith),
                e,
              )
              (stored mem (d + n) (mem (s + n)) ∙ ap mem (omega arith))
      | no ne ↦ elim (Bool-cases (within d (suc n) i)) [
        | inl inside ↦
            let e : within d n i ≡ true = ground (arith, ne) in
            let away : s + (i - d) ≢ d + n = λ q. ground arith in
            rw inside (rest ∙ rw e (unstored mem (d + n) (mem (s + n)) _ away))
        | inr outside ↦
            let e : within d n i ≡ false = ground (arith, ne) in
            rw outside (rest ∙ rw e (unstored mem (d + n) (mem (s + n)) i ne))
      ]
    ]

same : (d s n : ℕ) (mem : Memory) → (d ≡ s) ⊎ (n ≡ 0) → Moved d s n mem mem
unfolding Moved
same d s n mem h i = elim (Bool-cases (within d n i)) [
  | inl w ↦ rw w (ap mem (stay h w))
  | inr w ↦ rw w refl
]
  where
    stay : (d ≡ s) ⊎ (n ≡ 0) → within d n i ≡ true → i ≡ s + (i - d)
    stay (inl e) w = ground arith
    stay (inr e) w = ground arith

pub unmoved : (d s : ℕ) (mem : Memory) → Moved d s 0 mem mem
unmoved d s mem = same d s 0 mem (inr refl)

-- `memmove` moves the `n` bytes as they were before the call, however the two ranges overlap, and
-- touches no other byte.
pub memmove-Moved : (d s n : ℕ) (mem : Memory) → Moved d s n mem (memmove d s n mem)
unfolding memmove Moved
memmove-Moved d s n mem = elim (Bool-cases ((d == s) || (n == 0))) [
  | inl still ↦ rw still (same d s n mem (ground arith))
  | inr moves ↦ elim (Bool-cases (ltb d s || leb (s + n) d)) [
    | inl up ↦ rw (moves, up) (memcpy-Moved d s n mem (ground arith))
    | inr down ↦ rw (moves, down) (copy_down-Moved d s n mem (ground arith))
  ]
]

-- `memset` sets exactly its range.
pub memset-sets :
    (d val n : ℕ) (mem : Memory) (i : ℕ)
    → memset d val n mem i ≡ (if within d n i then val else mem i)
unfolding memset
memset-sets d val zero mem i = rw (within_no d 0 i (ground arith)) refl
memset-sets d val (suc n) mem i =
    let rest = memset-sets (d + 1) val n (store mem d val) i in
    elim (ℕ_discrete i d) [
      | yes e ↦
          let after : within (d + 1) n i ≡ false = within_no (d + 1) n i (inl (omega arith)) in
          rw (within_yes d (suc n) i (omega arith) (omega arith))
            (rest ∙ rw after (ap (store mem d val) e ∙ stored mem d val))
      | no ne ↦ rest ∙ rw (within_suc d n i ne, unstored mem d val i ne) refl
    ]
