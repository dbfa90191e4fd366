-- ===== src/Controller/System/Attached.antt =====
-- attach() of controller.py, where it returns.
use visiontak_client.Prelude.{◌≡◌, true, false, if◌then◌else◌, Bool, Text, pos}
use visiontak_client.Python.{Unicode, Result, ok, raise, ◌>>=◌, value_error, ok-injective}
use visiontak_client.Platform.{Platform}
use visiontak_client.Json.{Json}
use visiontak_client.Api.{ClientConfig, load}
use visiontak_client.Api.Request.{base_url}
use visiontak_client.Cec.Choice.{Chosen}
use visiontak_client.Ui.Window.Show.{set_dashboards_raises}
use visiontak_client.Controller.{Kiosk}
use visiontak_client.Controller.Refresh.{apply, schedule_refresh}
use visiontak_client.Controller.Carousel.{apply_rotation}
use visiontak_client.Controller.Enrolment.{start_registration}
use visiontak_client.Controller.Events.{attach, start_cec}

if-ends : {B : Type 0} (b : Bool) (x y : B) → (if b then raise value_error else ok x) ≡ ok y → x ≡ y
if-ends true x y e = cc e
if-ends false x y e = ok-injective e

checked-ends :
    {A B : Type 0} (m : Result A) (f : A → Bool) (g : A → B) (y : B)
    → (m >>= λ a. if f a then raise value_error else ok (g a)) ≡ ok y
    → (a : A) × (g a ≡ y)
checked-ends (ok a) f g y e = (a, if-ends (f a) (g a) y e)
checked-ends (raise x) f g y e = cc e

-- The cache has been read, and every call of attach is made.
pub attach-ends :
    (u : Unicode) (p : Platform) (repr : Json → Text) (loads : Text → Result Json) (chosen : Chosen)
    (k k' : Kiosk)
    → attach u p repr loads chosen k ≡ ok k'
    → (c : ClientConfig) × (apply_rotation
          (schedule_refresh (pos 1000) (start_registration (start_cec chosen (apply u p true c k))))
        ≡ k')
unfolding attach
attach-ends u p repr loads chosen k k' e =
    checked-ends (load u repr loads k.cache (base_url k.client))
      (λ c. set_dashboards_raises p c.dashboards k.window)
      (λ c.
        apply_rotation (
          schedule_refresh (pos 1000) (start_registration (start_cec chosen (apply u p true c k)))))
      k' e
