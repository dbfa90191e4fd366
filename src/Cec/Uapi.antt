-- ===== src/Cec/Uapi.antt =====
-- src/visiontak_client/cec/uapi.py
-- An `|` of bit fields that do not overlap is written as their sum, a shift as a product or a quotient.
pub mod Laws
use visiontak_client.Prelude.{
  ℕ, zero, suc, ◌+◌, ◌*◌, ◌-◌, ◌/◌, ◌%◌, max, Option, none, some, List, [], ◌∷◌, leb, ltb,
  if◌then◌else◌, take, drop,
}

-- ctypes.sizeof and ctypes.alignment of a type.
pub record CType : Type 0 where
  pub sizeof : ℕ
  pub alignment : ℕ

abbrev pub scalar : ℕ → CType
scalar n = record { sizeof = n; alignment = n }

abbrev pub array : CType → ℕ → CType
array t n = record { sizeof = t.sizeof * n; alignment = t.alignment }

abbrev pub round_up : ℕ → ℕ → ℕ
round_up n a = (n + (a - 1)) / a * a

-- Where a structure ends once its fields are laid out, and the strictest alignment of them.
unfoldable pub fields_end : ℕ → List CType → ℕ
fields_end offset [] = offset
fields_end offset (t ∷ ts) = fields_end (round_up offset t.alignment + t.sizeof) ts

unfoldable pub strictest : List CType → ℕ
strictest [] = 1
strictest (t ∷ ts) = max t.alignment (strictest ts)

unfoldable pub largest : List CType → ℕ
largest [] = 0
largest (t ∷ ts) = max t.sizeof (largest ts)

-- ctypes.Structure and ctypes.Union, by the types of their fields.
unfoldable pub structure : List CType → CType
unfolding fields_end strictest
structure ts = record {
  sizeof = round_up (fields_end 0 ts) (strictest ts);
  alignment = strictest ts;
}

unfoldable pub union : List CType → CType
unfolding strictest largest
union ts = record { sizeof = round_up (largest ts) (strictest ts); alignment = strictest ts }

abbrev pub cec_caps : List CType
cec_caps = array (scalar 1) 32 ∷ array (scalar 1) 32 ∷ scalar 4 ∷ scalar 4 ∷ scalar 4 ∷ []

abbrev pub cec_msg : List CType
cec_msg =
    scalar 8
    ∷ scalar 8
    ∷ scalar 4
    ∷ scalar 4
    ∷ scalar 4
    ∷ scalar 4
    ∷ array (scalar 1) 16
    ∷ scalar 1
    ∷ scalar 1
    ∷ scalar 1
    ∷ scalar 1
    ∷ scalar 1
    ∷ scalar 1
    ∷ scalar 1
    ∷ []

abbrev pub cec_log_addrs : List CType
cec_log_addrs =
    array (scalar 1) 4
    ∷ scalar 2
    ∷ scalar 1
    ∷ scalar 1
    ∷ scalar 4
    ∷ scalar 4
    ∷ array (scalar 1) 15
    ∷ array (scalar 1) 4
    ∷ array (scalar 1) 4
    ∷ array (scalar 1) 4
    ∷ array (array (scalar 1) 12) 4
    ∷ []

abbrev pub cec_event_state_change : List CType
cec_event_state_change = scalar 2 ∷ scalar 2 ∷ scalar 2 ∷ []

unfoldable pub cec_event_raw : List CType
unfolding structure union
cec_event_raw =
    scalar 8
    ∷ scalar 4
    ∷ scalar 4
    ∷ union (structure cec_event_state_change ∷ scalar 4 ∷ array (scalar 1) 80 ∷ [])
    ∷ []

-- _ioc, with the type character given by its code
unfoldable pub ioc : ℕ → ℕ → ℕ → ℕ → ℕ
ioc direction type_char nr size = direction * 1073741824 + size * 65536 + type_char * 256 + nr

-- _IOC_WRITE, _IOC_READ and both
abbrev write : ℕ
write = 1

abbrev read : ℕ
read = 2

abbrev read_write : ℕ
read_write = 3

-- The requests that the backend makes.
unfoldable pub cec_adap_g_caps : ℕ
unfolding ioc structure
cec_adap_g_caps = ioc read_write 97 0 (structure cec_caps).sizeof

unfoldable pub cec_adap_g_phys_addr : ℕ
unfolding ioc
cec_adap_g_phys_addr = ioc read 97 1 (scalar 2).sizeof

unfoldable pub cec_adap_s_log_addrs : ℕ
unfolding ioc structure
cec_adap_s_log_addrs = ioc read_write 97 4 (structure cec_log_addrs).sizeof

unfoldable pub cec_transmit : ℕ
unfolding ioc structure
cec_transmit = ioc read_write 97 5 (structure cec_msg).sizeof

unfoldable pub cec_receive : ℕ
unfolding ioc structure
cec_receive = ioc read_write 97 6 (structure cec_msg).sizeof

unfoldable pub cec_dqevent : ℕ
unfolding ioc structure cec_event_raw
cec_dqevent = ioc read_write 97 7 (structure cec_event_raw).sizeof

unfoldable pub cec_s_mode : ℕ
unfolding ioc
cec_s_mode = ioc write 97 9 (scalar 4).sizeof

-- CecMsg, by the fields that the client reads or sets. `msg` has 16 bytes.
pub record CecMsg : Type 0 where
  pub len : ℕ
  pub msg : List ℕ

abbrev pub byte_at : ℕ → List ℕ → ℕ
byte_at i [] = 0
byte_at zero (b ∷ bs) = b
byte_at (suc i) (b ∷ bs) = byte_at i bs

unfoldable pub initiator : CecMsg → ℕ
initiator m = byte_at 0 m.msg / 16 % 16

unfoldable pub destination : CecMsg → ℕ
destination m = byte_at 0 m.msg % 16

unfoldable pub opcode : CecMsg → Option ℕ
opcode m = if leb 2 m.len then some (byte_at 1 m.msg) else none

unfoldable pub operands : CecMsg → List ℕ
operands m = if ltb 2 m.len then drop 2 (take m.len m.msg) else []

-- The constants that the backend uses.
abbrev pub unregistered : ℕ
unregistered = 15

abbrev pub tv : ℕ
tv = 0

abbrev pub broadcast : ℕ
broadcast = 15

abbrev pub invalid : ℕ
invalid = 0xffff

abbrev pub active_source : ℕ
active_source = 0x82

abbrev pub image_view_on : ℕ
image_view_on = 0x04

abbrev pub text_view_on : ℕ
text_view_on = 0x0d

abbrev pub standby : ℕ
standby = 0x36

abbrev pub set_stream_path : ℕ
set_stream_path = 0x86

abbrev pub user_control_pressed : ℕ
user_control_pressed = 0x44

abbrev pub user_control_released : ℕ
user_control_released = 0x45

abbrev pub set_osd_name : ℕ
set_osd_name = 0x47
