-- ===== src/Cec/Base.antt =====
-- src/visiontak_client/cec/base.py: the events of every backend, and the backend without an adapter.
use visiontak_client.Prelude.{
  ℕ, ◌+◌, ◌/◌, ◌%◌, Option, none, some, [], ◌∷◌, ◌++◌, Bool, Text, codes, ltb, if◌then◌else◌,
}
use visiontak_client.Cec.Kernel as K

pub data CecEventKind : Type 0 where
  key_press key_release standby wake active_source_lost adapter_ready adapter_lost : CecEventKind

pub record CecEvent : Type 0 where
  pub kind : CecEventKind
  pub key_code : Option ℕ
  pub detail : Text

-- The text of a kind.
unfoldable pub kind_value : CecEventKind → Text
kind_value CecEventKind.key_press = codes "key.press"
kind_value CecEventKind.key_release = codes "key.release"
kind_value CecEventKind.standby = codes "standby"
kind_value CecEventKind.wake = codes "wake"
kind_value CecEventKind.active_source_lost = codes "active_source.lost"
kind_value CecEventKind.adapter_ready = codes "adapter.ready"
kind_value CecEventKind.adapter_lost = codes "adapter.lost"

-- f"{n:04x}" for a number of 16 bits
abbrev pub hex_digit : ℕ → ℕ
hex_digit d = if ltb d 10 then 48 + d else 87 + d

unfoldable pub hex4 : ℕ → Text
hex4 n =
    hex_digit (n / 4096 % 16)
    ∷ hex_digit (n / 256 % 16)
    ∷ hex_digit (n / 16 % 16)
    ∷ hex_digit (n % 16)
    ∷ []

abbrev plain : CecEventKind → Text → CecEvent
plain kind detail = record { kind = kind; key_code = none; detail = detail }

-- The events of the kernel backend, with their details.
unfoldable pub event_of : K.CecEvent → CecEvent
unfolding hex4
event_of (K.key_press code) = record {
  kind = CecEventKind.key_press;
  key_code = some code;
  detail = [];
}
event_of K.key_release = plain CecEventKind.key_release []
event_of K.tv_standby = plain CecEventKind.standby (codes "tv standby")
event_of K.view_on = plain CecEventKind.wake (codes "tv view on")
event_of K.stream_path = plain CecEventKind.wake (codes "stream path")
event_of K.hdmi_unplugged = plain CecEventKind.adapter_lost (codes "hdmi unplugged")
event_of (K.active_source_lost addr) =
    plain CecEventKind.active_source_lost (codes "path 0x" ++ hex4 addr)
event_of (K.other_source addr) =
    plain CecEventKind.active_source_lost (codes "source 0x" ++ hex4 addr)
event_of (K.adapter_ready addr) = plain CecEventKind.adapter_ready (codes "phys 0x" ++ hex4 addr)

-- NullCecBackend: whether close() was called since open(). Its poll returns no events.
pub record NullBackend : Type 0 where
  pub reason : Text
  pub stopped : Bool
