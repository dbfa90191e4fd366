-- ===== src/Cec/Kernel/Link.antt =====
-- cec/kernel.py without a link.
use visiontak_client.Prelude.{ℕ, ◌≡◌, refl, Option, List, if_keeps, is_empty}
use visiontak_client.Python.{ok}
use visiontak_client.Cec.Uapi.{invalid}
use visiontak_client.Cec.Kernel.{Backend, Outcome}
use visiontak_client.Cec.Kernel.Transmit.{transmit, announce, send_osd_name}
use visiontak_client.Cec.Kernel.Messages.{on_state_change}

-- Once the HDMI link is lost, _transmit, announce and send_osd_name put nothing on the bus, leave the
-- backend as it is and raise nothing, whatever they are called with and even if the adapter is closed.
pub transmit-on_state_change_lost :
    (reply : Option ℕ) (dest op : ℕ) (ops : List ℕ) (b : Backend)
    → (transmit dest op ops (on_state_change invalid reply b).0
        ≡ ((on_state_change invalid reply b).0, ok tt))
      × ((announce (on_state_change invalid reply b).0
            ≡ ((on_state_change invalid reply b).0, ok tt))
          × (send_osd_name dest (on_state_change invalid reply b).0
              ≡ ((on_state_change invalid reply b).0, ok tt)))
unfolding transmit announce send_osd_name on_state_change
transmit-on_state_change_lost reply dest op ops b = (
  refl,
  (
    refl,
    if_keeps (λ (o : Outcome Unit). o ≡ ((on_state_change invalid reply b).0, ok tt))
        (is_empty b.osd_name) (λ e. refl) (λ e. refl),
  ),
)
