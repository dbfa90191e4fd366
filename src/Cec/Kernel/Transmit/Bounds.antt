-- ===== src/Cec/Kernel/Transmit/Bounds.antt =====
-- The messages of cec/kernel.py fit the 16 bytes of a frame, and are read back as they were built.
use visiontak_client.Prelude.{
  ℕ, suc, ◌+◌, ◌*◌, ◌≤◌, ◌<◌, ◌≡◌, refl, arith, some, List, [], ◌∷◌, length, take, replicate, All,
  lt→ltb, ap, le→leb,
}
use visiontak_client.Python.{ok, raise, value_error}
use visiontak_client.Cec.Uapi.{CecMsg, initiator, destination, opcode, operands}
use visiontak_client.Cec.Kernel.Transmit.{as_bytes, fill, build}

as_bytes-eq : (bs : List ℕ) → All (λ b. b < 256) bs → as_bytes bs ≡ ok bs
unfolding as_bytes
as_bytes-eq [] h = refl
as_bytes-eq (b ∷ bs) h = rw (as_bytes-eq bs h.1, lt→ltb b 256 h.0) refl

-- A payload that is no longer than the message goes in, and is the front of the message then.
fill_fits :
    (msg bs : List ℕ)
    → length bs ≤ length msg
    → (r : List ℕ) × ((fill msg bs ≡ ok r) × ((length r ≡ length msg) × (take (length bs) r ≡ bs)))
unfolding fill
fill_fits msg [] h = (msg, (refl, (refl, refl)))
fill_fits [] (b ∷ bs) h = elim h [ ]
fill_fits (m ∷ msg) (b ∷ bs) h =
    let (r, (e, (n, t))) = fill_fits msg bs (omega arith) in
    (b ∷ r, (rw e refl, (ap suc n, ap (λ l. b ∷ l) t)))

operands_back :
    (header op : ℕ) (r ops : List ℕ)
    → take (length ops) r ≡ ops
    → operands (record { len = suc (suc (length ops)); msg = header ∷ op ∷ r }) ≡ ops
unfolding operands
operands_back header op r [] t = refl
operands_back header op r (o ∷ ops) t = rw (lt→ltb 2 (suc (suc (suc (length ops)))) (omega arith)) t

-- A message whose addresses have four bits, whose opcode is a byte and which has at most 14 operands
-- is built: it has 16 bytes, of which at most 16 count, and the properties of CecMsg read from it the
-- addresses, the opcode and the operands that _transmit was called with.
pub build_reads_back :
    (log_addr dest op : ℕ) (ops : List ℕ)
    → log_addr < 16
    → dest < 16
    → op < 256
    → length ops ≤ 14
    → (m : CecMsg) × ((build log_addr dest op ops ≡ ok m)
        × (((length m.msg ≡ 16) × (m.len ≤ 16))
            × ((initiator m ≡ log_addr)
                × ((destination m ≡ dest) × ((opcode m ≡ some op) × (operands m ≡ ops))))))
unfolding build fill initiator destination opcode
build_reads_back log_addr dest op ops l d o n =
    let (r, (e, (k, t))) = fill_fits (replicate 14 0) ops n in
    let header = as_bytes-eq ((log_addr * 16 + dest) ∷ op ∷ []) (omega arith, (o, tt)) in
    let m : CecMsg = record {
      len = suc (suc (length ops));
      msg = (log_addr * 16 + dest) ∷ op ∷ r;
    } in
    (
      m,
      (
        rw (header, e) refl,
        (
          (ap (λ (i : ℕ). suc (suc i)) k, omega arith),
          (
            omega arith,
            (
              omega arith,
              (
                rw (le→leb 2 (suc (suc (length ops))) (omega arith)) refl,
                operands_back (log_addr * 16 + dest) op r ops t,
              ),
            ),
          ),
        ),
      ),
    )

-- The address does not fit the four bits of the header.
pub build_raises :
    (log_addr dest op : ℕ) (ops : List ℕ)
    → 16 ≤ log_addr
    → build log_addr dest op ops ≡ raise value_error
unfolding build as_bytes
build_raises log_addr dest op ops h = ground arith
