-- ===== src/Ui/Policy.antt =====
-- src/visiontak_client/ui/policy.py: the navigation allowlist and the decide-policy handler.
pub mod Permits
use visiontak_client.Prelude.{
  Bool, true, false, not, ◌&&◌, ◌||◌, Option, none, some, List, [], ◌∷◌, ◌++◌, Text, codes, text_eq,
  ◌==◌, if◌then◌else◌, is_empty, contains, insert,
}
use visiontak_client.Python.{Unicode, Result, ok, raise, value_error, strip}
use visiontak_client.Platform.{Platform, Url}

pub record HostAllowlist : Type 0 where
  pub hosts : List Text
  pub allow_any : Bool

abbrev pub empty : HostAllowlist
empty = record { hosts = []; allow_any = false }

-- "//" in url
unfoldable pub has_slashes : Text → Bool
has_slashes [] = false
has_slashes (a ∷ []) = false
has_slashes (a ∷ b ∷ s) = (a == b'/' && b == b'/') || has_slashes (b ∷ s)

-- (parsed.hostname or "").lower()
unfoldable pub host_of : Unicode → Url → Text
host_of u url = elim url.hostname [ none ↦ [] | some h ↦ u.lower h ]

-- s.endswith(t)
unfoldable pub ends_with : Text → Text → Bool
ends_with t [] = text_eq [] t
ends_with t (c ∷ s) = text_eq (c ∷ s) t || ends_with t s

-- host == allowed or host.endswith("." + allowed), for some allowed host
unfoldable pub any_host : Text → List Text → Bool
any_host host [] = false
any_host host (allowed ∷ hosts) =
    (text_eq host allowed || ends_with (b'.' ∷ allowed) host) || any_host host hosts

abbrev pub always_allowed_schemes : List Text
always_allowed_schemes = codes "about" ∷ codes "data" ∷ codes "blob" ∷ []

-- The address that `allow` parses
abbrev pub with_slashes : Text → Text
with_slashes url = if has_slashes url then url else codes "//" ++ url

-- Whether `allow` raises the ValueError of urlparse
unfoldable pub allow_raises : Platform → Text → Bool
allow_raises p url = not (text_eq (strip url) (codes "*")) && p.refuses (with_slashes url)

module _ (u : Unicode) (p : Platform) where
  -- For an address at which it does not raise. `hostname` is tested before it is lowered.
  unfoldable pub allow : Text → HostAllowlist → HostAllowlist
  allow url a =
      if text_eq (strip url) (codes "*")
      then record a { allow_any = true }
      else elim (p.urlparse (with_slashes url)).hostname [
        | none ↦ a
        | some h ↦ if is_empty h then a else record a { hosts = insert (u.lower h) a.hosts }
      ]

  -- HostAllowlist(urls)
  unfoldable pub allow_all : List Text → HostAllowlist → HostAllowlist
  allow_all [] a = a
  allow_all (url ∷ urls) a = allow_all urls (allow url a)

  -- For an address that urlparse does not refuse.
  unfoldable pub permits : HostAllowlist → Text → Bool
  permits a url =
      if contains (p.urlparse url).scheme always_allowed_schemes
      then true
      else if a.allow_any
      then true
      else if is_empty (host_of u (p.urlparse url))
      then false
      else any_host (host_of u (p.urlparse url)) a.hosts

-- WebKit.PolicyDecisionType
pub data DecisionType : Type 0 where
  navigation_action new_window_action response : DecisionType

-- The handler's return value, and whether it called decision.ignore().
pub record Verdict : Type 0 where
  pub handled : Bool
  pub ignored : Bool

module _ (u : Unicode) (p : Platform) where
  unfoldable pub on_decide_policy : HostAllowlist → DecisionType → Text → Result Verdict
  on_decide_policy a DecisionType.response url = ok (record { handled = false; ignored = false })
  on_decide_policy a DecisionType.new_window_action url =
      ok (record { handled = true; ignored = true })
  on_decide_policy a DecisionType.navigation_action url =
      if p.refuses url
      then raise value_error
      else if permits u p a url
      then ok (record { handled = false; ignored = false })
      else ok (record { handled = true; ignored = true })
