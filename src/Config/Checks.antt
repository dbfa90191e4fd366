-- ===== src/Config/Checks.antt =====
-- src/visiontak_client/config.py: Config.__post_init__ and _coerce.
use visiontak_client.Prelude.{
  zero, Bool, true, false, not, ◌&&◌, List, [], ◌∷◌, Text, codes, ℤ, pos, ltb_ℤ, ltb, if◌then◌else◌,
  length, contains,
}
use visiontak_client.Python.{Unicode, Result, ok, raise, ◌>>=◌, value_error, strip, int, encode}
use visiontak_client.Json.{Json, show}
use visiontak_client.Config.{Config}

-- bool(n)
abbrev pub is_nonzero : ℤ → Bool
is_nonzero (pos zero) = false
is_nonzero i = true

abbrev pub cec_backends : List Text
cec_backends = codes "auto" ∷ codes "kernel" ∷ codes "libcec" ∷ codes "none" ∷ []

abbrev pub accelerations : List Text
accelerations = codes "auto" ∷ codes "always" ∷ codes "never" ∷ []

-- An `if` that raises ValueError.
unfoldable pub refuse_if : Bool → Config → Result Config
refuse_if b c = if b then raise value_error else ok c

-- Config(**values): the record, once __post_init__ has passed.
unfoldable pub check : Config → Result Config
check c = do
  c ← refuse_if (is_nonzero c.refresh_interval && ltb_ℤ c.refresh_interval (pos 10)) c
  c ← refuse_if (is_nonzero c.rotate_interval && ltb_ℤ c.rotate_interval (pos 5)) c
  c ← refuse_if (not (contains c.cec_backend cec_backends)) c
  c ← refuse_if (ltb_ℤ c.max_live_views (pos 1)) c
  c ← refuse_if (not (contains c.hardware_acceleration accelerations)) c
  name ← encode c.osd_name
  refuse_if (ltb 14 (length name)) c

-- _BOOL_TRUE and _BOOL_FALSE
abbrev pub bool_true : List Text
bool_true = codes "1" ∷ codes "true" ∷ codes "yes" ∷ codes "on" ∷ []

abbrev pub bool_false : List Text
bool_false = codes "0" ∷ codes "false" ∷ codes "no" ∷ codes "off" ∷ []

module _ (u : Unicode) (repr : Json → Text) where
  -- _coerce, by the target type
  unfoldable pub coerce_bool : Json → Result Bool
  unfolding contains
  coerce_bool raw =
      let text = u.lower (strip (show repr raw)) in
      if contains text bool_true
      then ok true
      else if contains text bool_false
      then ok false
      else raise value_error

  unfoldable pub coerce_int : Json → Result ℤ
  coerce_int raw = int u (strip (show repr raw))

  unfoldable pub coerce_text : Json → Result Text
  coerce_text raw = ok (strip (show repr raw))
