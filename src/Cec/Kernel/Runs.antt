-- ===== src/Cec/Kernel/Runs.antt =====
-- Runs of the adapter of cec/kernel.py: its methods in any order, with any answers of the kernel.
use visiontak_client.Prelude.{
  not, ◌&&◌, ◌||◌, leb, ◌/◌, ◌%◌, Text, ℕ, ◌≡◌, true, false, arith, Option, none, some, List, [],
  ◌∷◌, length, length-take-le, if_keeps, inl, inr, is_empty, ◌==◌,
}
use mathlib.Core.Path.{subst}
use visiontak_client.Python.{Result, ok, raise, Result-cases, ok-injective, encode}
use visiontak_client.Cec.Uapi.{
  CecMsg, image_view_on, active_source, opcode, operands, user_control_pressed,
  user_control_released, standby, text_view_on, set_stream_path,
}
use visiontak_client.Cec.Kernel.{
  CecEvent, Backend, Outcome, and_then, ioctl, OpenReplies, open_adapter, close, with_phys_addr,
  init, ioctl_on, with_caps, with_opened,
}
use visiontak_client.Cec.Kernel.Transmit.{announce}
use visiontak_client.Cec.Kernel.Messages.{
  decode, Queue, empty, broken, next, Dequeued, state_change, other, on_event, drain_events,
  drain_messages, Ready, woken, readable, drain_if, serve, Polled, interrupted, failed, ready, poll,
  is_opcode, requested, poll_on,
}
use visiontak_client.Cec.Kernel.Safety.{
  IsValid, IsExpected, IsFine, and_then-IsFine, announce-IsFine, claim_logical_address-IsFine,
  at_address, on_state_change-IsFine,
}

module _ (Undecoded : Type 0) where
  decode-IsFine : (m : CecMsg) (b : Backend) → IsValid b → IsFine Undecoded (decode m b)
  unfolding decode
  decode-IsFine m b v =
      let op = opcode m in
      let ops = operands m in
      let P = IsFine {A = Option CecEvent} Undecoded in
      let own = requested ops == b.phys_addr in
      if_keeps P (is_opcode op user_control_pressed && not (is_empty ops)) (λ e. (v, tt))
        (λ e.
          if_keeps P (is_opcode op user_control_released) (λ e. (v, tt))
            (λ e.
              if_keeps P (is_opcode op standby) (λ e. (v, tt))
                (λ e.
                  if_keeps P (is_opcode op image_view_on || is_opcode op text_view_on)
                    (λ e. (v, tt))
                    (λ e.
                      if_keeps P (is_opcode op set_stream_path && leb 2 (length ops))
                        (λ e.
                          if_keeps P own
                            (λ e.
                              and_then-IsFine Undecoded _ _ (announce-IsFine Undecoded b v)
                                (λ s d x. (x, tt)))
                            (λ e. (v, tt)))
                        (λ e.
                          if_keeps P (is_opcode op active_source && leb 2 (length ops))
                            (λ e. if_keeps P own (λ e. (v, tt)) (λ e. (v, tt))) (λ e. (v, tt)))))))

  on_event-IsFine : (e : Dequeued) (b : Backend) → IsValid b → IsFine Undecoded (on_event e b)
  on_event-IsFine (state_change addr reply) b v = on_state_change-IsFine Undecoded addr reply b v
  on_event-IsFine other b v = (v, tt)

  drain_events-IsFine :
      (q : Queue Dequeued) (b : Backend) → IsValid b → IsFine Undecoded (drain_events q b)
  unfolding drain_events
  drain_events-IsFine empty b v = (v, tt)
  drain_events-IsFine broken b v = (v, tt)
  drain_events-IsFine (next e q) b v =
      and_then-IsFine Undecoded _ _ (on_event-IsFine e b v)
        (λ new c w. and_then-IsFine Undecoded _ _ (drain_events-IsFine q c w) (λ rest d x. (x, tt)))

  drain_messages-IsFine :
      (q : Queue CecMsg) (b : Backend) → IsValid b → IsFine Undecoded (drain_messages q b)
  unfolding drain_messages
  drain_messages-IsFine empty b v = (v, tt)
  drain_messages-IsFine broken b v = (v, tt)
  drain_messages-IsFine (next m q) b v =
      and_then-IsFine Undecoded _ _ (decode-IsFine m b v) (λ new c w.
        and_then-IsFine Undecoded _ _ (drain_messages-IsFine q c w) (λ rest d x. (x, tt)))

  pri-IsFine :
      (pri : Option (Queue Dequeued)) (b : Backend)
      → IsValid b
      → IsFine Undecoded (drain_if drain_events pri b)
  pri-IsFine none b v = (v, tt)
  pri-IsFine (some q) b v = drain_events-IsFine q b v

  in-IsFine :
      (q : Option (Queue CecMsg)) (b : Backend)
      → IsValid b
      → IsFine Undecoded (drain_if drain_messages q b)
  in-IsFine none b v = (v, tt)
  in-IsFine (some q) b v = drain_messages-IsFine q b v

  serve-IsFine : (r : List Ready) (b : Backend) → IsValid b → IsFine Undecoded (serve r b)
  unfolding serve
  serve-IsFine [] b v = (v, tt)
  serve-IsFine (woken ∷ r) b v = (v, tt)
  serve-IsFine (readable pri msgs ∷ r) b v =
      and_then-IsFine Undecoded _ _ (pri-IsFine pri b v) (λ events c w.
        and_then-IsFine Undecoded _ _ (in-IsFine msgs c w) (λ messages d x.
          and_then-IsFine Undecoded _ _ (serve-IsFine r d x) (λ rest e y. (y, tt))))

  poll_on-IsFine :
      (fd : Option ℕ) (p : Polled) (b : Backend) → IsValid b → IsFine Undecoded (poll_on fd p b)
  poll_on-IsFine none p b v = (v, tt)
  poll_on-IsFine (some fd) interrupted b v = (v, tt)
  poll_on-IsFine (some fd) failed b v = (v, tt)
  poll_on-IsFine (some fd) (ready r) b v = serve-IsFine r b v

  poll-IsFine : (p : Polled) (b : Backend) → IsValid b → IsFine Undecoded (poll p b)
  unfolding poll
  poll-IsFine p b v = poll_on-IsFine b.fd p b v

  ioctl_on-IsExpected :
      {A : Type 0} (log_addr : ℕ) (fd : Option ℕ) (reply : Option A)
      → IsExpected Undecoded log_addr (ioctl_on fd reply)
  ioctl_on-IsExpected log_addr none reply = tt
  ioctl_on-IsExpected log_addr (some fd) none = tt
  ioctl_on-IsExpected log_addr (some fd) (some x) = tt

  with_phys_addr-IsFine :
      (reply : Option ℕ) (b : Backend) (r : Result ℕ)
      → IsValid b
      → IsExpected Undecoded b.log_addr r
      → IsFine Undecoded (with_phys_addr reply b r)
  with_phys_addr-IsFine reply b (ok addr) v e =
      and_then-IsFine Undecoded _ _
        (claim_logical_address-IsFine Undecoded reply _ (at_address Undecoded addr b v))
        (λ c d x. (x, tt))
  with_phys_addr-IsFine reply b (raise q) v e = (v, e)

  with_caps-IsFine :
      (r : OpenReplies) (b : Backend) (caps : Result ℕ)
      → (r.names_decode ≡ false → Undecoded)
      → IsValid b
      → IsExpected Undecoded b.log_addr caps
      → IsFine Undecoded (with_caps r b caps)
  unfolding ioctl
  with_caps-IsFine r b (ok caps) u v e =
      if_keeps (IsFine {A = Unit} Undecoded) (not r.names_decode)
        (λ q. (v, inl (u (ground (arith, q)))))
        (λ n.
          if_keeps (IsFine {A = Unit} Undecoded) (caps / 4 % 2 == 1)
            (λ q.
              and_then-IsFine Undecoded _ _ (v, ioctl_on-IsExpected _ b.fd r.mode_set)
                (λ s c w.
                  with_phys_addr-IsFine r.log_addr c (ioctl r.phys_addr c) w
                    (ioctl_on-IsExpected _ c.fd r.phys_addr)))
            (λ q. (v, tt)))
  with_caps-IsFine r b (raise q) u v e = (v, e)

  with_opened-IsFine :
      (r : OpenReplies) (b : Backend) (fd : Option ℕ)
      → (r.names_decode ≡ false → Undecoded)
      → IsValid b
      → IsFine Undecoded (with_opened r b fd)
  unfolding ioctl
  with_opened-IsFine r b none u v = (v, tt)
  with_opened-IsFine r b (some fd) u v =
      with_caps-IsFine r (record b { fd = some fd; wake = true }) _ u
        (record { name_short = v.name_short; frames = v.frames })
        (ioctl_on-IsExpected _ (some fd) r.capabilities)

-- The methods that the reader calls, with the answers of the kernel.
pub data Step : Type 0 where
  opened : OpenReplies → Step
  polled : Polled → Step
  announced closed : Step

unfoldable pub step : Step → Backend → Outcome (List CecEvent)
step (opened r) b = and_then (open_adapter r b) (λ s c. (c, ok []))
step (polled p) b = poll p b
step announced b = and_then (announce b) (λ s c. (c, ok []))
step closed b = (close b, ok [])

-- open() meets a name of the driver that is not UTF-8.
abbrev pub IsUndecoded : Step → Type 0
IsUndecoded (opened r) = r.names_decode ≡ false
IsUndecoded s = ⊥

step-IsFine : (s : Step) (b : Backend) → IsValid b → IsFine (IsUndecoded s) (step s b)
unfolding step open_adapter close
step-IsFine (opened r) b v =
    and_then-IsFine _ _ _ (with_opened-IsFine _ r b r.opened (λ e. e) v) (λ s c w. (w, tt))
step-IsFine (polled p) b v = poll-IsFine _ p b v
step-IsFine announced b v = and_then-IsFine _ _ _ (announce-IsFine _ b v) (λ s c w. (w, tt))
step-IsFine closed b v = (record { name_short = v.name_short; frames = v.frames }, tt)

-- The reader goes on with the same backend after an error.
unfoldable pub run : List Step → Backend → Backend
run [] b = b
run (s ∷ ss) b = run ss (step s b).0

run-IsValid : (ss : List Step) (b : Backend) → IsValid b → IsValid (run ss b)
unfolding run
run-IsValid [] b v = v
run-IsValid (s ∷ ss) b v = run-IsValid ss (step s b).0 (step-IsFine s b v).0

init-IsValid : (name : Text) (b : Backend) → init name ≡ ok b → IsValid b
unfolding init
init-IsValid name b e = elim (Result-cases (encode name)) [
  | inl (bytes, q) ↦
      let is : init name ≡ ok b = e in
      let same = ok-injective (rw q at is) in
      subst IsValid same (record { name_short = length-take-le 14 bytes; frames = tt })
  | inr (x, q) ↦ cc (rw q at e)
]

-- However the backend is opened, polled, announced and closed, and whatever the kernel answers: after
-- any calls a further one raises an OSError or a CecError at most, or a ValueError, which comes from
-- open() where the name of the driver or of the adapter is not UTF-8 and else only while the logical
-- address that the kernel reported has more than four bits; never the IndexError of the message
-- array. Every message transmitted is a frame of 16 bytes of which at most 16 count, and the name sent
-- has at most 14.
pub run-step-IsFine :
    (name : Text) (b : Backend) (ss : List Step) (s : Step)
    → init name ≡ ok b
    → IsFine (IsUndecoded s) (step s (run ss b))
run-step-IsFine name b ss s e = step-IsFine s (run ss b) (run-IsValid ss b (init-IsValid name b e))
