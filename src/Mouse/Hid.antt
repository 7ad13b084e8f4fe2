-- ===== src/Mouse/Hid.antt =====
-- The USB mouse, drivers/usb_hid_mouse.c. The transfers of the USB core are arguments, `Bus`.
pub mod Scan
use artyom_x.Base.{
  ℕ, zero, suc, ◌+◌, ◌-◌, ◌*◌, ◌/◌, ◌%◌, ◌^◌, ◌&&◌, ◌||◌, Bool, true, false, not, Option, none,
  some, ltb, leb, ◌==◌, if◌then◌else◌,
}
use artyom_x.Mouse.{Mouse, take_report}

abbrev pub Bytes : Type 0
Bytes = ℕ → ℕ

-- `usb_setup_packet_t`.
pub record Setup : Type 0 where
  pub bm_request_type : ℕ
  pub b_request : ℕ
  pub w_value : ℕ
  pub w_index : ℕ
  pub w_length : ℕ

-- `usb_control_transfer` and `usb_transfer`: the bytes that came, or `none` on an error.
pub record Bus : Type 1 where
  pub State : Type 0
  pub control : ℕ → Setup → State → Option Bytes × State
  pub interrupt_in : ℕ → ℕ → ℕ → ℕ → ℕ → State → Option Bytes × ℕ × State

-- The static variables of the driver.
pub record Hid : Type 0 where
  pub mouse_attached : Bool
  pub mouse_addr : ℕ
  pub mouse_ep : ℕ
  pub mouse_ep_max_packet : ℕ
  pub mouse_toggle : ℕ
  pub cfgbuf : Bytes

-- The variables of the loop over the descriptors.
pub record Found : Type 0 where
  pub in_target_iface : Bool
  pub target_iface : ℕ
  pub found_ep : ℕ
  pub found_ep_max : ℕ

abbrev pub not_yet : Found
not_yet = record { in_target_iface = false; target_iface = 0; found_ep = 0; found_ep_max = 0 }

-- `cfgbuf[i] | (cfgbuf[i + 1] << 8)` of bytes.
abbrev pub half_at : Bytes → ℕ → ℕ
half_at b i = b i + b (i + 1) * 256

abbrev pub is_boot_mouse : Bytes → ℕ → Bool
is_boot_mouse b off = (b (off + 5) == 3) && ((b (off + 6) == 1) && (b (off + 7) == 2))

unfoldable pub see_interface : Bytes → ℕ → Found → Found
see_interface b off f =
    if is_boot_mouse b off
    then record f { in_target_iface = true; target_iface = b (off + 2) }
    else record f { in_target_iface = false }

-- An interrupt endpoint into the host.
abbrev pub is_interrupt_in : Bytes → ℕ → Bool
is_interrupt_in b off = (b (off + 2) / 128 % 2 == 1) && (b (off + 3) % 4 == 3)

unfoldable pub see_endpoint : Bytes → ℕ → Found → Found
see_endpoint b off f =
    let ep_max = half_at b (off + 4) in
    if is_interrupt_in b off
    then record f { found_ep = b (off + 2) % 16; found_ep_max = if ep_max == 0 then 8 else ep_max }
    else f

unfoldable pub see : ℕ → Bytes → ℕ → Found → Found
see total_len b off f =
    let btype = b (off + 1) in
    let is_endpoint =
      (btype == 5) && (f.in_target_iface && ((f.found_ep == 0) && leb (off + 7) total_len)) in
    if (btype == 4) && leb (off + 9) total_len
    then see_interface b off f
    else if is_endpoint
    then see_endpoint b off f
    else f

-- The loop, with fuel; `none` where that runs out.
unfoldable pub scan : ℕ → ℕ → Bytes → ℕ → Found → Option Found
scan zero total_len b off f = none
scan (suc n) total_len b off f =
    let rest = scan n total_len b ((off + b off) % 2 ^ 16) (see total_len b off f) in
    if leb (off + 2) total_len then (if ltb (b off) 2 then some f else rest) else some f

module _ (bus : Bus) where
  abbrev pub received_into : ℕ → Bytes → Bytes → Bytes
  received_into len new old i = if ltb i len then new i else old i

  abbrev pub get_config : ℕ → Setup
  get_config len = record {
    bm_request_type = 0x80;
    b_request = 6;
    w_value = 0x200;
    w_index = 0;
    w_length = len;
  }

  -- The second request, with the length that the first has found.
  unfoldable pub fetch_all : ℕ → ℕ → Bytes → bus.State → Option (ℕ × Bytes) × bus.State
  fetch_all addr len b s =
      let total_len = if ltb 256 len then 256 else len in
      let (answer, s') = bus.control addr (get_config total_len) s in
      let whole : Option (ℕ × Bytes) = elim answer [
        | none ↦ none
        | some new ↦ some (total_len, received_into total_len new b)
      ] in
      if ltb len 9 then (none, s) else (whole, s')

  unfoldable pub fetch_config_descriptor : ℕ → Bytes → bus.State → Option (ℕ × Bytes) × bus.State
  fetch_config_descriptor addr b s =
      let (answer, s') = bus.control addr (get_config 9) s in
      elim answer [
        | none ↦ (none, s')
        | some new ↦ let b' = received_into 9 new b in fetch_all addr (half_at b' 2) b' s'
      ]

  abbrev pub class_request : ℕ → ℕ → Setup
  class_request b iface = record {
    bm_request_type = 0x21;
    b_request = b;
    w_value = 0;
    w_index = iface;
    w_length = 0;
  }

  abbrev pub set_configuration : ℕ → Setup
  set_configuration value = record {
    bm_request_type = 0;
    b_request = 9;
    w_value = value;
    w_index = 0;
    w_length = 0;
  }

  -- Two requests whose answers are not looked at.
  unfoldable pub boot_protocol : ℕ → ℕ → bus.State → bus.State
  boot_protocol addr iface s =
      let s' = (bus.control addr (class_request 0x0B iface) s).1 in
      (bus.control addr (class_request 0x0A iface) s').1

  unfoldable pub attach : ℕ → Bytes → Found → Hid → bus.State → Bool × Hid × bus.State
  attach addr b f h s =
      let (answer, s') = bus.control addr (set_configuration (b 5)) s in
      let attached = record h {
        cfgbuf = b;
        mouse_attached = true;
        mouse_addr = addr;
        mouse_ep = f.found_ep;
        mouse_ep_max_packet = f.found_ep_max;
        mouse_toggle = 0;
      } in
      if f.found_ep == 0 then (false, record h { cfgbuf = b }, s) else elim answer [
        | none ↦ (false, record h { cfgbuf = b }, s')
        | some new ↦ (true, attached, boot_protocol addr f.target_iface s')
      ]

  -- Every descriptor has two bytes at least, so 128 rounds are enough.
  unfoldable pub attach_found : ℕ → Bytes → Option Found → Hid → bus.State → Bool × Hid × bus.State
  attach_found addr b none h s = (false, h, s)
  attach_found addr b (some f) h s = attach addr b f h s

  unfoldable pub usb_hid_mouse_try_attach : ℕ → Hid → bus.State → Bool × Hid × bus.State
  usb_hid_mouse_try_attach addr h s =
      let (fetched, s') = fetch_config_descriptor addr h.cfgbuf s in
      if h.mouse_attached then (false, h, s) else elim fetched [
        | none ↦ (false, h, s')
        | some (total_len, b) ↦ attach_found addr b (scan 128 total_len b 9 not_yet) h s'
      ]

  -- A report that came is added to the motion.
  unfoldable pub usb_hid_mouse_poll : Hid → Mouse → bus.State → Hid × Mouse × bus.State
  usb_hid_mouse_poll h m s =
      let len = if ltb 8 h.mouse_ep_max_packet then 8 else h.mouse_ep_max_packet in
      let len' = if ltb len 3 then 3 else len in
      let (answer, toggle, s') =
        bus.interrupt_in h.mouse_addr h.mouse_ep len' h.mouse_toggle h.mouse_ep_max_packet s in
      let h' = record h { mouse_toggle = toggle } in
      if not h.mouse_attached then (h, m, s) else elim answer [
        | none ↦ (h', m, s')
        | some report ↦ (h', take_report (report 0) (report 1) (report 2) m, s')
      ]
