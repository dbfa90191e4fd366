-- ===== src/Cec/Uapi/Laws.antt =====
-- What the kernel reads back from the ioctl numbers of cec/uapi.py.
use visiontak_client.Prelude.{ℕ, ◌<◌, ◌≡◌, ◌/◌, ◌%◌, refl, arith}
use visiontak_client.Cec.Uapi.{
  ioc, cec_adap_s_log_addrs, cec_transmit, cec_dqevent, structure, cec_event_raw, fields_end,
  strictest, union, largest,
}

-- From a request the four fields of the asm-generic layout are read back: the direction from bit 30,
-- the size from 14 bits at bit 16, the type from 8 bits at bit 8 and the number from the low 8 bits;
-- provided each field fits its bits.
pub ioc-fields :
    (direction type_char nr size : ℕ)
    → direction < 4
    → size < 16384
    → type_char < 256
    → nr < 256
    → (ioc direction type_char nr size / 1073741824 ≡ direction)
      × ((ioc direction type_char nr size / 65536 % 16384 ≡ size)
          × ((ioc direction type_char nr size / 256 % 256 ≡ type_char)
              × (ioc direction type_char nr size % 256 ≡ nr)))
unfolding ioc
ioc-fields direction type_char nr size d s t n =
    (omega arith, (omega arith, (omega arith, omega arith)))

transmit_number : cec_transmit ≡ 0xc0386105
unfolding cec_transmit ioc structure fields_end strictest
transmit_number = refl

dqevent_number : cec_dqevent ≡ 0xc0606107
unfolding cec_dqevent ioc structure fields_end strictest union largest cec_event_raw
dqevent_number = refl

s_log_addrs_number : cec_adap_s_log_addrs ≡ 0xc05c6104
unfolding cec_adap_s_log_addrs ioc structure fields_end strictest
s_log_addrs_number = refl
