-- ===== src/Tests/CecTests.antt =====
-- The kernel adapter at concrete answers of the kernel.
use visiontak_client.Prelude.{
  List, ◌++◌, ◌&&◌, ◌||◌, not, text_eq, true, ◌≡◌, ◌≤◌, ◌/◌, ◌%◌, refl, false, none, some, [], ◌∷◌,
  codes, arith, length,
}
use visiontak_client.Python.{ok, encode}
use visiontak_client.Cec.Uapi.{CecMsg, ioc, initiator, destination, opcode, operands, invalid}
use visiontak_client.Cec.Reader.{
  Reader, starting, goes_on, is_stopped, happens, Happening, Answer, libcec,
}
use visiontak_client.Cec.Reader.Lifetime.{IsOver, stop_reader-IsOver}
use visiontak_client.Cec.Uapi.Laws.{ioc-fields}
use visiontak_client.Cec.Choice.{create_backend, create_backend_choices, is_kernel, is_libcec}
use visiontak_client.Cec.Kernel.{Backend, init}
use visiontak_client.Cec.Kernel.Transmit.{build, transmit, announce, send_osd_name}
use visiontak_client.Cec.Kernel.Transmit.Bounds.{build_reads_back}
use visiontak_client.Cec.Kernel.Messages.{
  next, empty, state_change, ready, readable, on_state_change,
}
use visiontak_client.Cec.Kernel.Safety.{IsFine}
use visiontak_client.Cec.Kernel.Runs.{IsUndecoded, Step, run, step, run-step-IsFine}
use visiontak_client.Cec.Kernel.Link.{transmit-on_state_change_lost}
use visiontak_client.Cec.Libcec
use visiontak_client.Cec.Libcec.{Callback, key, command, called}
use visiontak_client.Cec.Libcec.Order.{meanings, poll-called}
use visiontak_client.Tests.Samples.{ascii}

ioc-fields_example :
    (ioc 3 97 5 56 / 1073741824 ≡ 3)
    × ((ioc 3 97 5 56 / 65536 % 16384 ≡ 56)
        × ((ioc 3 97 5 56 / 256 % 256 ≡ 97) × (ioc 3 97 5 56 % 256 ≡ 5)))
ioc-fields_example = ioc-fields 3 97 5 56 (omega arith) (omega arith) (omega arith) (omega arith)

build_reads_back_example :
    (m : CecMsg) × ((build 4 0 0x47 (codes "TV") ≡ ok m)
      × (((length m.msg ≡ 16) × (m.len ≤ 16))
          × ((initiator m ≡ 4)
              × ((destination m ≡ 0) × ((opcode m ≡ some 0x47) × (operands m ≡ codes "TV"))))))
build_reads_back_example =
    build_reads_back 4 0 0x47 (codes "TV") (omega arith) (omega arith) (omega arith) (omega arith)

-- A display without a link, and one that has been given an address.
abbrev unplugged : Backend
unplugged = record {
  osd_name = codes "TV";
  fd = none;
  wake = false;
  log_addr = 15;
  phys_addr = 0xffff;
  sent = [];
}

unplugged_starts : init (codes "TV") ≡ ok unplugged
unfolding init encode
unplugged_starts = refl

abbrev opening : Step
opening = Step.opened (record {
  opened = some 3;
  capabilities = some 0x3e;
  names_decode = true;
  mode_set = some 0x11;
  phys_addr = some 0x1000;
  log_addr = some 4;
})

abbrev plugging : Step
plugging =
    Step.polled (ready (readable (some (next (state_change 0x2000 (some 255)) empty)) none ∷ []))

run-step-IsFine_example :
    IsFine (IsUndecoded plugging) (step plugging (run (opening ∷ Step.announced ∷ []) unplugged))
run-step-IsFine_example =
    run-step-IsFine (codes "TV") unplugged (opening ∷ Step.announced ∷ []) plugging unplugged_starts

transmit-on_state_change_lost_example :
    (transmit 0 0x47 (codes "TV") (on_state_change invalid none unplugged).0
      ≡ ((on_state_change invalid none unplugged).0, ok tt))
    × ((announce (on_state_change invalid none unplugged).0
          ≡ ((on_state_change invalid none unplugged).0, ok tt))
        × (send_osd_name 0 (on_state_change invalid none unplugged).0
            ≡ ((on_state_change invalid none unplugged).0, ok tt)))
transmit-on_state_change_lost_example =
    transmit-on_state_change_lost none 0 0x47 (codes "TV") unplugged

-- The setting "auto" on a board with a device and without the module cec.
create_backend_choices_example :
    (is_kernel (create_backend (λ t. t) true false (codes "/dev/cec0") (codes "auto")) ≡ (
      (text_eq (codes "auto") (codes "kernel") || text_eq (codes "auto") (codes "auto")) && true))
    × (is_libcec (create_backend (λ t. t) true false (codes "/dev/cec0") (codes "auto")) ≡ (
        false
        && (text_eq (codes "auto") (codes "libcec")
            || (text_eq (codes "auto") (codes "auto") && not true))))
create_backend_choices_example =
    create_backend_choices (λ t. t) true false (codes "/dev/cec0") (codes "auto")

-- A press, its release, and a standby.
abbrev callbacks : List Callback
callbacks = key 4 0 ∷ key 4 120 ∷ command (codes "0f:36") ∷ []

poll-called_example :
    ((Libcec.poll (called ascii callbacks (Libcec.init [] (codes "TV")))).1
      ≡ (Libcec.init [] (codes "TV")).events ++ meanings ascii callbacks)
    × ((Libcec.poll (called ascii callbacks (Libcec.init [] (codes "TV")))).0.events ≡ [])
poll-called_example = poll-called ascii callbacks (Libcec.init [] (codes "TV"))

-- A reader of libcec, which starts at the second try and then gets a key.
abbrev reader : Reader Libcec.Backend
reader = record {
  backend = Libcec.init [] (codes "kiosk");
  stopping = false;
  phase = starting;
  handed = [];
}

abbrev missing : Answer
missing = record { imports = true; starts = false; callbacks = [] }

abbrev pressing : Answer
pressing = record { imports = true; starts = true; callbacks = Libcec.key 4 0 ∷ [] }

abbrev story : List (Happening (libcec ascii true))
story =
    goes_on missing
    ∷ goes_on missing
    ∷ goes_on pressing
    ∷ goes_on pressing
    ∷ goes_on pressing
    ∷ is_stopped
    ∷ []

stop_reader-IsOver_example :
    IsOver
      (happens
        (libcec ascii true)
        (is_stopped ∷ goes_on pressing ∷ goes_on missing ∷ goes_on missing ∷ [])
        reader).phase
stop_reader-IsOver_example = stop_reader-IsOver (libcec ascii true) reader missing missing pressing
