-- ===== src/Mouse/Packets.antt =====
-- What the interrupts of drivers/mouse.c make of the bytes of the mouse.
use artyom_x.Base.{
  ℕ, ◌+◌, ◌%◌, ◌≡◌, inl, inr, refl, ap, ◌∙◌, true, false, List, [], ◌∷◌, ◌++◌, ◌==◌, if◌then◌else◌,
  Bool-cases,
}
use artyom_x.Gfx.{word, int_sub}
use artyom_x.Mouse.{Mouse, sign_extend, take_report, received, mouse_handler}

-- The movement and the buttons that the rest of the kernel sees.
pub record Motion : Type 0 where
  pub dx : ℕ
  pub dy : ℕ
  pub buttons : ℕ

abbrev pub motion_of : Mouse → Motion
motion_of m = record { dx = m.mouse_dx; dy = m.mouse_dy; buttons = m.mouse_buttons }

-- A report of three bytes adds its signed movements, the second one upwards.
unfoldable pub add_report : ℕ → ℕ → ℕ → Motion → Motion
add_report buttons dx dy s = record {
  dx = word (s.dx + sign_extend dx);
  dy = int_sub s.dy (sign_extend dy);
  buttons = buttons % 8;
}

-- The bytes in threes; what is left over waits.
unfoldable pub decode : List ℕ → Motion → Motion
decode [] s = s
decode (a ∷ []) s = s
decode (a ∷ (b ∷ [])) s = s
decode (a ∷ (b ∷ (c ∷ rest))) s = decode rest (add_report a b c s)

-- An interrupt, with the status and the byte of the controller.
abbrev pub Irq : Type 0
Irq = ℕ × ℕ

-- The bytes that are there when their interrupt comes.
unfoldable pub delivered : List Irq → List ℕ
delivered [] = []
delivered ((status, byte) ∷ more) =
    let rest = delivered more in if status % 2 == 1 then byte ∷ rest else rest

unfoldable pub interrupts : List Irq → Mouse → Mouse
interrupts [] m = m
interrupts ((status, byte) ∷ more) m = interrupts more (mouse_handler status byte m)

-- The driver with `n` bytes of a packet.
abbrev pub waiting : ℕ → ℕ → ℕ → ℕ → Mouse → Mouse
waiting n p0 p1 p2 m = record m { cycle = n; packet = p0 ∷ (p1 ∷ (p2 ∷ [])) }

-- An interrupt without a byte, and with one.
handler_idle :
    (status byte : ℕ) (m : Mouse) → status % 2 == 1 ≡ false → mouse_handler status byte m ≡ m
unfolding mouse_handler
handler_idle status byte m e = rw e refl

handler_ready :
    (status byte : ℕ) (m : Mouse)
    → status % 2 == 1 ≡ true
    → mouse_handler status byte m ≡ received byte m
unfolding mouse_handler
handler_ready status byte m e = rw e refl

-- The byte of a packet by its place.
first_byte :
    (p0 p1 p2 byte : ℕ) (m : Mouse) → received byte (waiting 0 p0 p1 p2 m) ≡ waiting 1 byte p1 p2 m
unfolding received
first_byte p0 p1 p2 byte m = refl

second_byte :
    (p0 p1 p2 byte : ℕ) (m : Mouse) → received byte (waiting 1 p0 p1 p2 m) ≡ waiting 2 p0 byte p2 m
unfolding received
second_byte p0 p1 p2 byte m = refl

third_byte :
    (p0 p1 p2 byte : ℕ) (m : Mouse)
    → received byte (waiting 2 p0 p1 p2 m) ≡ waiting 0 p0 p1 byte (take_report p0 p1 byte m)
unfolding received take_report
third_byte p0 p1 p2 byte m = refl

take_report-motion_of :
    (a b c : ℕ) (m : Mouse) → motion_of (take_report a b c m) ≡ add_report a b c (motion_of m)
unfolding take_report add_report
take_report-motion_of a b c m = refl

-- One interrupt, by the two ways it goes on.
one_interrupt :
    (status byte : ℕ) (more : List Irq) (m n : Mouse) (begin : List ℕ) (s : Motion)
    → received byte m ≡ n
    → motion_of (interrupts more m) ≡ decode (begin ++ delivered more) s
    → motion_of (interrupts more n) ≡ decode (begin ++ (byte ∷ delivered more)) s
    → motion_of (interrupts ((status, byte) ∷ more) m)
      ≡ decode (begin ++ delivered ((status, byte) ∷ more)) s
unfolding interrupts delivered
one_interrupt status byte more m n begin s e idle ready = elim (Bool-cases (status % 2 == 1)) [
  | inr no_byte ↦
      rw no_byte
        (ap (λ u. motion_of (interrupts more u)) (handler_idle status byte m no_byte) ∙ idle)
  | inl a_byte ↦
      rw a_byte
        (ap (λ u. motion_of (interrupts more u)) (handler_ready status byte m a_byte ∙ e) ∙ ready)
]

decode_on :
    (more : List Irq) (m : Mouse) (p0 p1 p2 : ℕ)
    → (motion_of (interrupts more (waiting 0 p0 p1 p2 m)) ≡ decode (delivered more) (motion_of m))
      × (motion_of (interrupts more (waiting 1 p0 p1 p2 m))
          ≡ decode (p0 ∷ delivered more) (motion_of m))
      × (motion_of (interrupts more (waiting 2 p0 p1 p2 m))
          ≡ decode (p0 ∷ (p1 ∷ delivered more)) (motion_of m))
unfolding interrupts delivered decode
decode_on [] m p0 p1 p2 = (refl, refl, refl)
decode_on ((status, byte) ∷ more) m p0 p1 p2 =
    let here = decode_on more m p0 p1 p2 in
    (
      one_interrupt status byte more _ _ [] (motion_of m) (first_byte p0 p1 p2 byte m) here.0
          (decode_on more m byte p1 p2).1,
      one_interrupt status byte more _ _ (p0 ∷ []) (motion_of m) (second_byte p0 p1 p2 byte m)
          here.1 (decode_on more m p0 byte p2).2,
      one_interrupt status byte more _ _ (p0 ∷ (p1 ∷ [])) (motion_of m) (third_byte p0 p1 p2 byte m)
          here.2
          ((decode_on more (take_report p0 p1 byte m) p0 p1 byte).0
            ∙ ap (decode (delivered more)) (take_report-motion_of p0 p1 byte m)),
    )

-- Whatever interrupts come, with a byte or without, the movement and the buttons are those of the bytes
-- taken in threes, from a state where no packet has begun: each report adds its signed movements, and
-- bytes of a report that is not complete have no effect.
pub interrupts-decode :
    (more : List Irq) (p0 p1 p2 : ℕ) (m : Mouse)
    → motion_of (interrupts more (waiting 0 p0 p1 p2 m)) ≡ decode (delivered more) (motion_of m)
interrupts-decode more p0 p1 p2 m = (decode_on more m p0 p1 p2).0
