-- ===== src/Compat/Input/Line.antt =====
-- `sys_read_compat` of kernel/compat.c on the keyboard as a line: which characters it takes, and what
-- it stores.
pub mod Waiting
use artyom_x.Base.{
  ℕ, zero, suc, ◌+◌, ◌-◌, ◌≤◌, ◌<◌, ◌≡◌, ◌≢◌, ◌∙◌, refl, ap, sym, inl, inr, true, false, List, [],
  ◌∷◌, arith, ◌==◌, ◌&&◌, ◌||◌, leb, ltb, if◌then◌else◌, Bool-cases, ℕ_discrete, length, get_or,
}
use artyom_x.Libc.{Memory, store}
use artyom_x.Libc.Copy.{within, within_suc, stored, unstored}
use artyom_x.Keyboard.{Keyboard, is_buffer_empty, keyboard_read}
use artyom_x.Keyboard.Queue.{Line, read}
use artyom_x.Keyboard.Refine.{IsLine, keyboard_read-IsLine}
use artyom_x.Compat.Input.{drain}

-- The characters up to a newline or a 255, at most `room` of them, and what stays in the keyboard.
unfoldable pub line_of : ℕ → Line → Line
line_of zero q = []
line_of (suc room) [] = []
line_of (suc room) (x ∷ q) =
    let rest = line_of room q in if (x == 255) || (x == 10) then [] else x ∷ rest

unfoldable pub left_behind : ℕ → Line → Line
left_behind zero q = q
left_behind (suc room) [] = []
left_behind (suc room) (x ∷ q) =
    let rest = left_behind room q in if (x == 255) || (x == 10) then q else rest

-- The text and a 0 behind it stand at `a`, and all else is as it was.
unfoldable pub Wrote : ℕ → Line → Memory → Memory → Type 0
Wrote a text mem new =
    (i : ℕ)
    → new i ≡ (
        if within a (length text) i
        then get_or text (i - a) 0
        else if i == a + length text
        then 0
        else mem i)

pub record Drains (room a : ℕ) (q : Line) (mem : Memory) (r : ℕ × Keyboard × Memory) : Type 0 where
  pub count : r.0 ≡ length (line_of room q)
  pub rest : IsLine r.1 (left_behind room q)
  pub text : Wrote a (line_of room q) mem r.2

end_stored : (a : ℕ) (mem : Memory) → Wrote a [] mem (store mem a 0)
unfolding Wrote
end_stored a mem i =
    let out : within a 0 i ≡ false = ground arith in
    let end : a + 0 ≡ a = omega arith in rw (out, end) refl

one_more :
    (a x : ℕ) (text : Line) (mem new : Memory)
    → Wrote (a + 1) text (store mem a x) new
    → Wrote a (x ∷ text) mem new
unfolding Wrote
one_more a x text mem new rest i = elim (ℕ_discrete i a) [
  | yes e ↦
      let m = length text in
      let out : within (a + 1) m a ≡ false = ground arith in
      let inside : within a (suc m) a ≡ true = ground arith in
      let before : (a == a + 1 + m) ≡ false = ground arith in
      let first : a - a ≡ 0 = omega arith in
      rw (e, inside, first) (rest a ∙ rw (out, before) (stored mem a x))
  | no ne ↦
      let m = length text in
      let end : a + suc m ≡ a + 1 + m = omega arith in
      elim (Bool-cases (within a (suc m) i)) [
        | inl inside ↦
            let next : i - a ≡ suc (i - (a + 1)) = ground arith in
            rest i ∙ rw (within_suc a m i ne, inside, next) refl
        | inr out ↦ rest i ∙ rw (within_suc a m i ne, out, end, unstored mem a x i ne) refl
      ]
]

pub drain-Drains :
    (room a : ℕ) (q : Line) (kb : Keyboard) (mem : Memory)
    → IsLine kb q
    → Drains room a q mem (drain room a kb mem)
unfolding drain line_of left_behind read
drain-Drains zero a q kb mem v = record { count = refl; rest = v; text = end_stored a mem }
drain-Drains (suc room) a [] kb mem v =
    let empty : (kb.count == 0) ≡ true = ground (arith, v.counted) in
    rw empty (record { count = refl; rest = v; text = end_stored a mem })
drain-Drains (suc room) a (x ∷ q) kb mem v =
    let some_key : (kb.count == 0) ≡ false = ground (arith, v.counted) in
    let r = keyboard_read-IsLine (x ∷ q) v in
    elim (Bool-cases ((x == 255) || (x == 10))) [
      | inl stop ↦
          rw (some_key, r.0, stop)
            (record { count = rw stop refl; rest = rw stop r.1; text = rw stop (end_stored a mem) })
      | inr more ↦
          let d = drain-Drains room (a + 1) q (keyboard_read kb).1 (store mem a x) r.1 in
          rw (some_key, r.0, more)
            (record {
              count = rw more (ap suc d.count);
              rest = rw more d.rest;
              text = rw more (one_more a x (line_of room q) mem _ d.text);
            })
    ]
