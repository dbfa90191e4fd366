-- ===== src/Cec/Kernel/Safety.antt =====
-- What the methods of cec/kernel.py that transmit or claim an address keep, and what they may raise.
use visiontak_client.Prelude.{
  ℕ, ◌≤◌, ◌<◌, ◌≡◌, arith, Option, none, some, List, [], ◌∷◌, length, All, All-append, if_keeps,
  is_empty, ◌==◌, inl, inr, ◌⊎◌, Bool, ltb, Bool-cases,
}
use visiontak_client.Python.{Exception, Result, ok, raise, os_error, cec_error, value_error}
use visiontak_client.Cec.Uapi.{
  CecMsg, tv, broadcast, unregistered, invalid, image_view_on, active_source, set_osd_name,
}
use visiontak_client.Cec.Kernel.{
  CecEvent, Backend, Outcome, and_then, ioctl, claim_logical_address, claimed, ioctl_on,
}
use visiontak_client.Cec.Kernel.Transmit.{transmit, send_osd_name, announce, address_bytes, deliver}
use visiontak_client.Cec.Kernel.Transmit.Bounds.{build_reads_back, build_raises}
use visiontak_client.Cec.Kernel.Messages.{on_state_change}

-- A frame of 16 bytes.
abbrev pub IsFrame : CecMsg → Type 0
IsFrame m = (length m.msg ≡ 16) × (m.len ≤ 16)

pub record IsValid (b : Backend) : Type 0 where
  pub name_short : length b.osd_name ≤ 14
  pub frames : All IsFrame b.sent

-- No IndexError of the message array, and a ValueError only where `Undecoded` holds or the address
-- that the kernel reported has more than four bits.
abbrev pub IsAllowed : Type 0 → ℕ → Exception → Type 0
IsAllowed Undecoded log_addr os_error = Unit
IsAllowed Undecoded log_addr cec_error = Unit
IsAllowed Undecoded log_addr value_error = Undecoded ⊎ (16 ≤ log_addr)
IsAllowed Undecoded log_addr e = ⊥

abbrev pub IsExpected : {A : Type 0} → Type 0 → ℕ → Result A → Type 0
IsExpected Undecoded log_addr (ok x) = Unit
IsExpected Undecoded log_addr (raise e) = IsAllowed Undecoded log_addr e

abbrev pub IsFine : {A : Type 0} → Type 0 → Outcome A → Type 0
IsFine Undecoded o = IsValid o.0 × IsExpected Undecoded o.0.log_addr o.1

module _ (Undecoded : Type 0) where
  pub and_then-IsFine :
      {A : Type 0} {B : Type 0} (o : Outcome A) (f : A → Backend → Outcome B)
      → IsFine Undecoded o
      → ((x : A) (b : Backend) → IsValid b → IsFine Undecoded (f x b))
      → IsFine Undecoded (and_then o f)
  and_then-IsFine (b, ok x) f h k = k x b h.0
  and_then-IsFine (b, raise e) f h k = h

  deliver-IsFine :
      (fd : Option ℕ) (m : CecMsg) (b : Backend)
      → IsValid b
      → IsFrame m
      → IsFine Undecoded (deliver fd m b)
  deliver-IsFine none m b v fr = (v, tt)
  deliver-IsFine (some fd) m b v fr = (
    record {
      name_short = v.name_short;
      frames = All-append IsFrame b.sent (m ∷ []) v.frames (fr, tt);
    },
    tt,
  )

  transmit-IsFine :
      (dest op : ℕ) (ops : List ℕ) (b : Backend)
      → IsValid b
      → dest < 16
      → op < 256
      → length ops ≤ 14
      → IsFine Undecoded (transmit dest op ops b)
  unfolding transmit
  transmit-IsFine dest op ops b v d o n =
      if_keeps (IsFine {A = Unit} Undecoded) (b.log_addr == unregistered) (λ e. (v, tt))
        (λ k. elim (Bool-cases (ltb b.log_addr 16)) [
          | inl t ↦
              let fits : b.log_addr < 16 = ground (arith, t) in
              let (m, (e, (fr, q))) = build_reads_back b.log_addr dest op ops fits d o n in
              rw e (deliver-IsFine b.fd m b v fr)
          | inr t ↦
              let large : 16 ≤ b.log_addr = ground (arith, t) in
              rw (build_raises b.log_addr dest op ops large) (v, inr large)
        ])

  send_osd_name-IsFine : (b : Backend) → IsValid b → IsFine Undecoded (send_osd_name tv b)
  unfolding send_osd_name
  send_osd_name-IsFine b v =
      if_keeps (IsFine {A = Unit} Undecoded) (is_empty b.osd_name) (λ e. (v, tt))
        (λ e.
          transmit-IsFine tv set_osd_name b.osd_name b v (omega arith) (omega arith) v.name_short)

  pub announce-IsFine : (b : Backend) → IsValid b → IsFine Undecoded (announce b)
  unfolding announce
  announce-IsFine b v =
      if_keeps (IsFine {A = Unit} Undecoded) (b.phys_addr == invalid) (λ e. (v, tt))
        (λ e.
          and_then-IsFine _ _
            (transmit-IsFine tv image_view_on [] b v (omega arith) (omega arith) (omega arith))
            (λ s c w.
              and_then-IsFine _ _
                (transmit-IsFine broadcast active_source (address_bytes c.phys_addr) c w
                  (omega arith) (omega arith) (omega arith))
                (λ s d x. send_osd_name-IsFine d x)))

  claimed-IsFine :
      (fd reply : Option ℕ) (b : Backend)
      → IsValid b
      → IsFine Undecoded (claimed b (ioctl_on fd reply))
  claimed-IsFine none reply b v = (v, tt)
  claimed-IsFine (some fd) none b v = (v, tt)
  claimed-IsFine (some fd) (some log_addr) b v =
      (record { name_short = v.name_short; frames = v.frames }, tt)

  pub claim_logical_address-IsFine :
      (reply : Option ℕ) (b : Backend)
      → IsValid b
      → IsFine Undecoded (claim_logical_address reply b)
  unfolding claim_logical_address ioctl
  claim_logical_address-IsFine reply b v =
      if_keeps (IsFine {A = Bool} Undecoded) (b.phys_addr == invalid) (λ e. (v, tt))
        (λ e. claimed-IsFine b.fd reply b v)

  pub at_address : (addr : ℕ) (b : Backend) → IsValid b → IsValid (record b { phys_addr = addr })
  at_address addr b v = record { name_short = v.name_short; frames = v.frames }

  pub on_state_change-IsFine :
      (addr : ℕ) (reply : Option ℕ) (b : Backend)
      → IsValid b
      → IsFine Undecoded (on_state_change addr reply b)
  unfolding on_state_change
  on_state_change-IsFine addr reply b v =
      if_keeps (IsFine {A = List CecEvent} Undecoded) (addr == invalid)
        (λ e. (record { name_short = v.name_short; frames = v.frames }, tt))
        (λ e.
          if_keeps (IsFine {A = List CecEvent} Undecoded) (b.phys_addr == addr)
            (λ q. (at_address addr b v, tt))
            (λ q.
              and_then-IsFine _ _ (claim_logical_address-IsFine reply _ (at_address addr b v))
                (λ is_claimed c w.
                  if_keeps (IsFine {A = List CecEvent} Undecoded) is_claimed
                    (λ t. and_then-IsFine _ _ (announce-IsFine c w) (λ s d x. (x, tt)))
                    (λ t. (w, tt)))))
