-- ===== src/Keyboard/Enter.antt =====
-- The flag `is_enter_pressed` of drivers/keyboard.c.
use artyom_x.Base.{
  ℕ, ◌/◌, ◌%◌, ◌≡◌, refl, Bool, false, not, ◌&&◌, ◌==◌, if◌then◌else◌, arith, Bool-cases, inl, inr,
  get_or, ltb,
}
use artyom_x.Keyboard.{
  Keyboard, keyboard_map, keyboard_callback, handle_key, enter_key, backspace_key, char_key,
  append_key, drop_key, is_buffer_full,
}

-- Does the interrupt press Enter? The port has a code, and it is the code of Enter going down.
unfoldable pub presses_enter : ℕ → ℕ → Bool
presses_enter status code = not (status % 2 == 0) && (code == 0x1c)

handle_key_enter :
    (code : ℕ) (k : Keyboard)
    → (handle_key code k).0.is_enter_pressed ≡ (if code == 0x1c then 1 else k.is_enter_pressed)
unfolding handle_key enter_key backspace_key char_key append_key drop_key
handle_key_enter code k = elim (Bool-cases (code == 0x1c)) [
  | inl e ↦ rw e refl
  | inr ne ↦ elim (Bool-cases (code == 0x0e)) [
    | inl e ↦
        rw (ne, e) (elim (Bool-cases (ltb 0 k.count)) [ inl h ↦ rw h refl | inr h ↦ rw h refl ])
    | inr nb ↦ elim (Bool-cases (get_or keyboard_map code 0 == 0)) [
      | inl e ↦ rw (ne, nb, e) refl
      | inr nz ↦
          rw (ne, nb, nz)
            (elim (Bool-cases (is_buffer_full (record k { current_key = code }))) [
              | inl h ↦ rw h refl
              | inr h ↦ rw h refl
            ])
    ]
  ]
]

-- The flag after an interrupt.
pub keyboard_callback_enter :
    (status code : ℕ) (k : Keyboard)
    → (keyboard_callback status code k).0.is_enter_pressed
      ≡ (if presses_enter status code then 1 else k.is_enter_pressed)
unfolding keyboard_callback presses_enter
keyboard_callback_enter status code k = elim (Bool-cases (status % 2 == 0)) [
  | inl e ↦ rw e refl
  | inr ne ↦ elim (Bool-cases (code / 128 % 2 == 1)) [
    | inl e ↦ let other : (code == 0x1c) ≡ false = ground arith in rw (ne, e, other) refl
    | inr nr ↦ rw (ne, nr) (handle_key_enter code k)
  ]
]
