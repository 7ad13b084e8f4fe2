-- ===== src/Mouse/Hid/Scan.antt =====
-- The loop over the descriptors of a configuration in drivers/usb_hid_mouse.c.
use artyom_x.Base.{
  ℕ, zero, suc, ◌+◌, ◌*◌, ◌%◌, ◌^◌, ◌≤◌, ◌<◌, ◌≡◌, ◌≢◌, ◌&&◌, inl, inr, refl, Bool, true, false,
  none, ltb, leb, ◌==◌, if◌then◌else◌, Bool-cases, arith, elim_if,
}
use mathlib.Core.Option.{some-ne-none}
use artyom_x.Mouse.Hid.{Bytes, Found, not_yet, see_interface, see_endpoint, see, scan}

-- Two buffers that agree below a length.
abbrev pub Agree : ℕ → Bytes → Bytes → Type 0
Agree len b b' = (i : ℕ) → i < len → b i ≡ b' i

see_interface-Agree :
    (total_len : ℕ) (b b' : Bytes) (off : ℕ) (f : Found)
    → Agree total_len b b'
    → off + 9 ≤ total_len
    → see_interface b off f ≡ see_interface b' off f
unfolding see_interface
see_interface-Agree total_len b b' off f same l = rw (
  same (off + 2) (omega arith),
  same (off + 5) (omega arith),
  same (off + 6) (omega arith),
  same (off + 7) (omega arith),
)

see_endpoint-Agree :
    (total_len : ℕ) (b b' : Bytes) (off : ℕ) (f : Found)
    → Agree total_len b b'
    → off + 7 ≤ total_len
    → see_endpoint b off f ≡ see_endpoint b' off f
unfolding see_endpoint
see_endpoint-Agree total_len b b' off f same l = rw (
  same (off + 2) (omega arith),
  same (off + 3) (omega arith),
  same (off + 4) (omega arith),
  same (off + 4 + 1) (omega arith),
)

-- Two alternatives whose tests agree.
choose_alike :
    (p q : Bool) {x x' y y' : Found} (z : Found)
    → (p ≡ true → x ≡ x')
    → (q ≡ true → y ≡ y')
    → (if p then x else if q then y else z) ≡ (if p then x' else if q then y' else z)
choose_alike true q z e e' = e refl
choose_alike false true z e e' = e' refl
choose_alike false false z e e' = refl

see-Agree :
    (total_len : ℕ) (b b' : Bytes) (off : ℕ) (f : Found)
    → Agree total_len b b'
    → off + 2 ≤ total_len
    → see total_len b off f ≡ see total_len b' off f
unfolding see
see-Agree total_len b b' off f same l = rw (same (off + 1) (omega arith)) (
    choose_alike ((b' (off + 1) == 4) && leb (off + 9) total_len)
      ((b' (off + 1) == 5) && (f.in_target_iface && ((f.found_ep == 0) && leb (off + 7) total_len)))
      f (λ e. see_interface-Agree total_len b b' off f same (ground (arith, e)))
      (λ e. see_endpoint-Agree total_len b b' off f same (ground (arith, e))))

scan-Agree :
    (n total_len : ℕ) (b b' : Bytes) (off : ℕ) (f : Found)
    → Agree total_len b b'
    → scan n total_len b off f ≡ scan n total_len b' off f
unfolding scan
scan-Agree zero total_len b b' off f same = refl
scan-Agree (suc n) total_len b b' off f same = elim (Bool-cases (leb (off + 2) total_len)) [
  | inr behind ↦ rw behind
  | inl inside ↦
      let here : b off ≡ b' off = same off (ground (arith, inside)) in
      rw (
        inside,
        here,
        see-Agree total_len b b' off f same (ground (arith, inside)),
        scan-Agree n total_len b b' ((off + b' off) % 2 ^ 16) (see total_len b' off f) same,
      )
]

-- The loop ends within its fuel.
scan-ends :
    (n total_len : ℕ) (b : Bytes) (off : ℕ) (f : Found)
    → total_len ≤ 256
    → ((i : ℕ) → b i < 256)
    → total_len + 1 ≤ off + 2 * n
    → 1 ≤ n
    → scan n total_len b off f ≢ none
unfolding scan
scan-ends zero total_len b off f small bytes fuel pos = absurd (omega arith)
scan-ends (suc n) total_len b off f small bytes fuel pos =
    elim_if (λ r. r ≢ none) (leb (off + 2) total_len)
      (λ inside.
        elim_if (λ r. r ≢ none) (ltb (b off) 2) (λ short. some-ne-none f)
          (λ long.
            let big : 2 ≤ b off = ground (arith, long) in
            let whole : off + 2 ≤ total_len = ground (arith, inside) in
            let byte = bytes off in
            scan-ends n total_len b ((off + b off) % 2 ^ 16) (see total_len b off f) small bytes
              (omega (arith, big, whole, byte, fuel, small)) (omega (arith, whole, fuel))))
      (λ behind. some-ne-none f)

-- The loop over the descriptors ends after at most 128 rounds whatever a device sends, and reads no byte
-- behind the length it has been told, which is at most the 256 bytes of the buffer.
pub scan-safe :
    (total_len : ℕ) (b b' : Bytes)
    → total_len ≤ 256
    → ((i : ℕ) → b i < 256)
    → Agree total_len b b'
    → (scan 128 total_len b 9 not_yet ≢ none)
      × (scan 128 total_len b 9 not_yet ≡ scan 128 total_len b' 9 not_yet)
scan-safe total_len b b' small bytes same = (
  scan-ends 128 total_len b 9 not_yet small bytes (omega (arith, small)) (omega arith),
  scan-Agree 128 total_len b b' 9 not_yet same,
)
