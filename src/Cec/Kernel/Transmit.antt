-- ===== src/Cec/Kernel/Transmit.antt =====
-- src/visiontak_client/cec/kernel.py: _transmit, announce and send_osd_name.
pub mod Bounds
use visiontak_client.Prelude.{
  ℕ, ◌+◌, ◌*◌, ◌/◌, ◌%◌, Option, none, some, List, [], ◌∷◌, ◌++◌, ltb, ◌==◌, if◌then◌else◌,
  replicate, length, is_empty,
}
use visiontak_client.Python.{Result, ok, raise, ◌>>=◌, value_error, index_error, cec_error}
use visiontak_client.Cec.Uapi.{
  CecMsg, unregistered, tv, broadcast, invalid, active_source, image_view_on, set_osd_name,
}
use visiontak_client.Cec.Kernel.{Backend, Outcome, and_then}

-- bytes(values)
unfoldable pub as_bytes : List ℕ → Result (List ℕ)
as_bytes [] = ok []
as_bytes (b ∷ bs) = do rest ← as_bytes bs; if ltb b 256 then ok (b ∷ rest) else raise value_error

-- msg.msg[index] = byte, for each byte of the payload
unfoldable pub fill : List ℕ → List ℕ → Result (List ℕ)
fill msg [] = ok msg
fill [] (b ∷ bs) = raise index_error
fill (m ∷ msg) (b ∷ bs) = do rest ← fill msg bs; ok (b ∷ rest)

-- The message that _transmit builds from the claimed address.
unfoldable pub build : ℕ → ℕ → ℕ → List ℕ → Result CecMsg
unfolding as_bytes fill
build log_addr destination opcode operands = do
  header ← as_bytes ((log_addr * 16 + destination) ∷ opcode ∷ [])
  bytes ← fill (replicate 16 0) (header ++ operands)
  ok (record { len = length (header ++ operands); msg = bytes })

abbrev pub deliver : Option ℕ → CecMsg → Backend → Outcome Unit
deliver none m b = (b, raise cec_error)
deliver (some fd) m b = (record b { sent = b.sent ++ m ∷ [] }, ok tt)

-- The ioctl of _transmit: an OSError is logged only, a closed adapter is a CecError.
abbrev pub hand_over : Backend → Result CecMsg → Outcome Unit
hand_over b (ok m) = deliver b.fd m b
hand_over b (raise e) = (b, raise e)

unfoldable pub transmit : ℕ → ℕ → List ℕ → Backend → Outcome Unit
transmit destination opcode operands b =
    if b.log_addr == unregistered
    then (b, ok tt)
    else hand_over b (build b.log_addr destination opcode operands)

unfoldable pub send_osd_name : ℕ → Backend → Outcome Unit
unfolding transmit
send_osd_name destination b =
    if is_empty b.osd_name then (b, ok tt) else transmit destination set_osd_name b.osd_name b

-- The operands of <Active Source>.
abbrev pub address_bytes : ℕ → List ℕ
address_bytes addr = (addr / 256) ∷ (addr % 256) ∷ []

-- announce(); a physical address has 16 bits, so the two bytes of it are bytes.
unfoldable pub announce : Backend → Outcome Unit
announce b =
    if b.phys_addr == invalid
    then (b, ok tt)
    else and_then (transmit tv image_view_on [] b) (λ s b.
      and_then (transmit broadcast active_source (address_bytes b.phys_addr) b)
        (λ s b. send_osd_name tv b))
