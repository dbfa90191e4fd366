-- ===== src/Cec/Kernel/Messages.antt =====
-- src/visiontak_client/cec/kernel.py: poll, the queues of the adapter, and _decode.
use visiontak_client.Prelude.{
  ℕ, ◌+◌, ◌*◌, Bool, false, ◌&&◌, ◌||◌, not, Option, none, some, List, [], ◌∷◌, ◌++◌, leb, ◌==◌,
  if◌then◌else◌, length, is_empty,
}
use visiontak_client.Python.{ok, raise, os_error}
use visiontak_client.Cec.Uapi.{
  CecMsg, byte_at, opcode, operands, unregistered, invalid, active_source, image_view_on,
  text_view_on, standby, set_stream_path, user_control_pressed, user_control_released,
}
use visiontak_client.Cec.Kernel.{
  CecEvent, key_press, key_release, tv_standby, view_on, stream_path, hdmi_unplugged,
  active_source_lost, other_source, adapter_ready, Backend, Outcome, and_then,
  claim_logical_address,
}
use visiontak_client.Cec.Kernel.Transmit.{announce}

-- _on_state_change, by the answer to the claim of an address.
unfoldable pub on_state_change : ℕ → Option ℕ → Backend → Outcome (List CecEvent)
unfolding claim_logical_address
on_state_change phys_addr reply b =
    let moved = record b { phys_addr = phys_addr } in
    if phys_addr == invalid
    then (record moved { log_addr = unregistered }, ok (hdmi_unplugged ∷ []))
    else if b.phys_addr == phys_addr
    then (moved, ok [])
    else and_then (claim_logical_address reply moved) (λ is_claimed b.
      if is_claimed
      then and_then (announce b) (λ s b. (b, ok (adapter_ready phys_addr ∷ [])))
      else (b, ok []))

-- (operands[0] << 8) | operands[1]
abbrev pub requested : List ℕ → ℕ
requested ops = byte_at 0 ops * 256 + byte_at 1 ops

abbrev pub is_opcode : Option ℕ → ℕ → Bool
is_opcode none c = false
is_opcode (some o) c = o == c

-- _decode
unfoldable pub decode : CecMsg → Backend → Outcome (Option CecEvent)
unfolding opcode operands
decode m b =
    let op = opcode m in
    let ops = operands m in
    if is_opcode op user_control_pressed && not (is_empty ops)
    then (b, ok (some (key_press (byte_at 0 ops))))
    else if is_opcode op user_control_released
    then (b, ok (some key_release))
    else if is_opcode op standby
    then (b, ok (some tv_standby))
    else if is_opcode op image_view_on || is_opcode op text_view_on
    then (b, ok (some view_on))
    else if is_opcode op set_stream_path && leb 2 (length ops)
    then (if requested ops == b.phys_addr
        then and_then (announce b) (λ s b. (b, ok (some stream_path)))
        else (b, ok (some (active_source_lost (requested ops)))))
    else if is_opcode op active_source && leb 2 (length ops)
    then (if requested ops == b.phys_addr
        then (b, ok none)
        else (b, ok (some (other_source (requested ops)))))
    else (b, ok none)

-- What the adapter has queued: it ends empty, with EAGAIN, or with another OSError.
pub data Queue {ℓ} (A : Type ℓ) : Type ℓ where
  empty broken : Queue A
  next : A → Queue A → Queue A

-- An event of CEC_DQEVENT, and the answer to the claim that a new address leads to.
pub data Dequeued : Type 0 where
  state_change : ℕ → Option ℕ → Dequeued
  other : Dequeued

abbrev pub on_event : Dequeued → Backend → Outcome (List CecEvent)
on_event (state_change phys_addr reply) b = on_state_change phys_addr reply b
on_event other b = (b, ok [])

-- _drain_events and _drain_messages
unfoldable pub drain_events : Queue Dequeued → Backend → Outcome (List CecEvent)
unfolding on_state_change
drain_events empty b = (b, ok [])
drain_events broken b = (b, raise os_error)
drain_events (next e q) b =
    and_then (on_event e b) (λ new b. and_then (drain_events q b) (λ rest b. (b, ok (new ++ rest))))

abbrev pub as_list : Option CecEvent → List CecEvent
as_list none = []
as_list (some e) = e ∷ []

unfoldable pub drain_messages : Queue CecMsg → Backend → Outcome (List CecEvent)
unfolding decode
drain_messages empty b = (b, ok [])
drain_messages broken b = (b, raise os_error)
drain_messages (next m q) b =
    and_then (decode m b)
      (λ new b. and_then (drain_messages q b) (λ rest b. (b, ok (as_list new ++ rest))))

-- An entry of what poll() returns: the wake pipe, or the adapter with what its flags let be read.
pub data Ready : Type 0 where
  woken : Ready
  readable : Option (Queue Dequeued) → Option (Queue CecMsg) → Ready

abbrev pub drain_if :
    {A : Type 0}
    → (Queue A → Backend → Outcome (List CecEvent))
    → Option (Queue A)
    → Backend
    → Outcome (List CecEvent)
drain_if drain none b = (b, ok [])
drain_if drain (some q) b = drain q b

unfoldable pub serve : List Ready → Backend → Outcome (List CecEvent)
serve [] b = (b, ok [])
serve (woken ∷ ready) b = (b, ok [])
serve (readable pri in_ ∷ ready) b = and_then (drain_if drain_events pri b) (λ events b.
    and_then (drain_if drain_messages in_ b)
      (λ messages b. and_then (serve ready b) (λ rest b. (b, ok (events ++ messages ++ rest)))))

-- What the poll system call gives: EINTR, another OSError, or the ready descriptors.
pub data Polled : Type 0 where
  interrupted failed : Polled
  ready : List Ready → Polled

abbrev pub poll_on : Option ℕ → Polled → Backend → Outcome (List CecEvent)
poll_on none p b = (b, ok [])
poll_on (some fd) interrupted b = (b, ok [])
poll_on (some fd) failed b = (b, raise os_error)
poll_on (some fd) (ready r) b = serve r b

-- poll(timeout)
unfoldable pub poll : Polled → Backend → Outcome (List CecEvent)
unfolding serve
poll p b = poll_on b.fd p b
