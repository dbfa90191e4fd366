-- ===== src/Cec/Kernel.antt =====
-- src/visiontak_client/cec/kernel.py: the adapter at /dev/cec0. What the kernel answers to a system
-- call is an argument of the method that makes it.
pub mod Transmit
pub mod Messages
pub mod Safety
pub mod Runs
pub mod Link
use visiontak_client.Prelude.{
  ℕ, ◌+◌, ◌*◌, ◌/◌, ◌%◌, Bool, true, false, ◌&&◌, ◌||◌, not, Option, none, some, List, [], ◌∷◌,
  ◌++◌, Text, codes, ltb, leb, ◌==◌, if◌then◌else◌, take, replicate, length, is_empty,
}
use visiontak_client.Python.{
  Exception, Result, ok, raise, ◌>>=◌, value_error, index_error, os_error, cec_error, encode,
}
use visiontak_client.Cec.Uapi.{
  CecMsg, byte_at, opcode, operands, unregistered, tv, broadcast, invalid, active_source,
  image_view_on, text_view_on, standby, set_stream_path, user_control_pressed,
  user_control_released, set_osd_name,
}

-- CecEventKind and CecEvent of cec/base.py. A detail names the address that it is about.
pub data CecEvent : Type 0 where
  key_press : ℕ → CecEvent
  key_release tv_standby view_on stream_path hdmi_unplugged : CecEvent
  active_source_lost other_source adapter_ready : ℕ → CecEvent

-- KernelCecBackend: `sent` are the messages handed to CEC_TRANSMIT so far; `wake` says whether the
-- pipe that wakes poll() is open.
pub record Backend : Type 0 where
  pub osd_name : List ℕ
  pub fd : Option ℕ
  pub wake : Bool
  pub log_addr : ℕ
  pub phys_addr : ℕ
  pub sent : List CecMsg

-- KernelCecBackend(device, osd_name)
unfoldable pub init : Text → Result Backend
unfolding encode
init osd_name = do
  name ← encode osd_name
  ok (record {
    osd_name = take 14 name;
    fd = none;
    wake = false;
    log_addr = unregistered;
    phys_addr = invalid;
    sent = [];
  })

-- A method's effect on the backend, and what it returns or raises.
abbrev pub Outcome : Type 0 → Type 0
Outcome A = Backend × Result A

abbrev pub and_then : {A : Type 0} {B : Type 0} → Outcome A → (A → Backend → Outcome B) → Outcome B
and_then (b, ok x) f = f x b
and_then (b, raise e) f = (b, raise e)

-- _ioctl, by what the kernel answers: none is an OSError.
abbrev pub ioctl_on : {A : Type 0} → Option ℕ → Option A → Result A
ioctl_on none reply = raise cec_error
ioctl_on (some fd) none = raise os_error
ioctl_on (some fd) (some x) = ok x

unfoldable pub ioctl : {A : Type 0} → Option A → Backend → Result A
ioctl reply b = ioctl_on b.fd reply

-- _claim_logical_address, by log_addr[0] of the answer.
abbrev pub claimed : Backend → Result ℕ → Outcome Bool
claimed b (ok log_addr) = (record b { log_addr = log_addr }, ok true)
claimed b (raise os_error) = (b, ok false)
claimed b (raise e) = (b, raise e)

unfoldable pub claim_logical_address : Option ℕ → Backend → Outcome Bool
unfolding ioctl
claim_logical_address reply b =
    if b.phys_addr == invalid then (b, ok false) else claimed b (ioctl reply b)

-- What the kernel answers while open() runs: `names_decode` says whether the names of the driver and
-- of the adapter are UTF-8, capabilities has CEC_CAP_LOG_ADDRS at bit 2.
pub record OpenReplies : Type 0 where
  pub opened : Option ℕ
  pub capabilities : Option ℕ
  pub names_decode : Bool
  pub mode_set : Option ℕ
  pub phys_addr : Option ℕ
  pub log_addr : Option ℕ

abbrev pub with_phys_addr : Option ℕ → Backend → Result ℕ → Outcome Unit
with_phys_addr reply b (ok addr) =
    and_then (claim_logical_address reply (record b { phys_addr = addr })) (λ c b. (b, ok tt))
with_phys_addr reply b (raise e) = (b, raise e)

-- A name that does not decode is a UnicodeDecodeError, which is a ValueError.
abbrev pub with_caps : OpenReplies → Backend → Result ℕ → Outcome Unit
with_caps r b (ok caps) =
    if not r.names_decode
    then (b, raise value_error)
    else if caps / 4 % 2 == 1
    then and_then (b, ioctl r.mode_set b) (λ s b. with_phys_addr r.log_addr b (ioctl r.phys_addr b))
    else (b, raise cec_error)
with_caps r b (raise e) = (b, raise e)

abbrev pub with_fd : OpenReplies → Backend → Outcome Unit
with_fd r b = with_caps r b (ioctl r.capabilities b)

-- os.open: an OSError becomes a CecError.
abbrev pub with_opened : OpenReplies → Backend → Option ℕ → Outcome Unit
with_opened r b none = (b, raise cec_error)
with_opened r b (some fd) = with_fd r (record b { fd = some fd; wake = true })

-- open()
unfoldable pub open_adapter : OpenReplies → Backend → Outcome Unit
unfolding ioctl claim_logical_address
open_adapter r b = with_opened r b r.opened

-- close()
unfoldable pub close : Backend → Backend
close b = record b { fd = none; wake = false }
