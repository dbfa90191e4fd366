-- ===== src/Probe.antt =====
-- src/visiontak_client/probe.py: the checks, and the exit code. What is printed is left out.
pub mod Verdict
use visiontak_client.Prelude.{
  ℕ, zero, suc, ◌+◌, Bool, true, false, not, ◌&&◌, ◌||◌, Option, none, some, List, [], ◌∷◌, Text,
  codes, ◌==◌, if◌then◌else◌, is_empty, map,
}
use visiontak_client.Python.{
  Unicode, Result, ok, raise, ◌>>=◌, Exception, value_error, api_error, auth_error, occurs_in,
  strip,
}
use visiontak_client.Json.{Json}
use visiontak_client.Config.{Config, default_config}
use visiontak_client.Models.{view_url}
use visiontak_client.Api.{ClientConfig}
use visiontak_client.Api.Request.{Request, Response, base_url, request, fetch_client_config}

-- check_client_config, by what fetch_client_config gives
unfoldable pub check_client_config : Result ClientConfig → Result ℕ
check_client_config (ok c) = ok (if is_empty c.dashboards then 1 else 0)
check_client_config (raise auth_error) = ok 1
check_client_config (raise api_error) = ok 1
check_client_config (raise e) = raise e

-- What report_admin_exposure says of a path.
pub data Exposure : Type 0 where
  requires_token failing readable : Exposure

unfoldable pub exposure_of : Result Json → Result Exposure
exposure_of (ok j) = ok readable
exposure_of (raise auth_error) = ok requires_token
exposure_of (raise api_error) = ok failing
exposure_of (raise e) = raise e

pub record Arguments : Type 0 where
  pub base_url : Text
  pub token : Text
  pub insecure : Bool
  pub skip_pages : Bool

-- The settings of the client that probes.
unfoldable pub probe_config : Arguments → Config
probe_config args = record default_config {
  server_url = args.base_url;
  api_token = args.token;
  device_id = codes "probe";
  verify_tls = not args.insecure;
}

-- What opening and reading a page ends in: a URLError or an OSError with its text, an exception of
-- another kind, or the text of the page.
pub data Page : Type 0 where
  failing_with body : Text → Page
  escaping : Exception → Page

-- The title of a page, by what re.search finds in it.
abbrev pub title_or_none : Option Text → Text
title_or_none none = codes "(no title)"
title_or_none (some t) = strip t

-- What _fetch_title returns: the title and the error.
abbrev pub titled : (Text → Option Text) → Page → Result (Text × Text)
titled find_title (failing_with error) = ok ([], error)
titled find_title (body text) = ok (title_or_none (find_title text), [])
titled find_title (escaping e) = raise e

-- `accepts` says which addresses urllib.request.Request takes.
module _ (u : Unicode) (accepts : Text → Bool) (find_title : Text → Option Text)
    (repr : Json → Text) where
  unfoldable pub fetch_title : (Text → Page) → Text → Result (Text × Text)
  unfolding strip
  fetch_title fetch url = if accepts url then titled find_title (fetch url) else raise value_error

  -- A page that _fetch_title finds, by its title and error.
  unfoldable pub page_fails : Text × Text → Bool
  page_fails page = not (is_empty page.1) || occurs_in (codes "sign in") (u.lower page.0)

  unfoldable pub check_render_pages : (Text → Page) → Text → List Text → Result ℕ
  unfolding fetch_title
  check_render_pages fetch base_url [] = ok 0
  check_render_pages fetch base_url (id ∷ ids) = do
    page ← fetch_title fetch (view_url base_url id)
    failures ← check_render_pages fetch base_url ids
    ok (if page_fails page then suc failures else failures)

  -- The client of report_admin_exposure.
  abbrev without_token : Config → Config
  without_token config = record default_config {
    server_url = base_url config;
    api_token = [];
    device_id = codes "probe";
  }

  -- report_admin_exposure, over the exchanges with the server for each path
  unfoldable pub report_admin_exposure : (ℕ → Request → Response) → Config → Result (List Exposure)
  unfolding exposure_of
  report_admin_exposure exchange config = do
    dashboards ← exposure_of (
        request u accepts (exchange 0) (without_token config) (codes "GET")
          (codes "/api/v1/dashboards") none)
    layouts ← exposure_of (
        request u accepts (exchange 1) (without_token config) (codes "GET")
          (codes "/api/v1/layouts") none)
    ok (dashboards ∷ layouts ∷ [])

  -- The failures once the pages are checked too, unless the first check failed.
  abbrev pub and_pages : (Text → Page) → Bool → Result ClientConfig → Config → ℕ → Result ℕ
  and_pages fetch skip again config failures =
      if failures == 0 && not skip
      then (do
        c ← again
        bad ← check_render_pages fetch (base_url config) (map (λ d. d.id) c.dashboards)
        ok (failures + bad))
      else ok failures

  abbrev pub reported : Result (List Exposure) → ℕ → Result ℕ
  reported report failures = do _ ← report; ok (if failures == 0 then 0 else 1)

  -- main of the probe, by the exchanges in their order
  unfoldable pub probe : (Text → Page) → (ℕ → Request → Response) → Arguments → Result ℕ
  unfolding check_client_config report_admin_exposure probe_config
  probe fetch exchange args =
      let config = probe_config args in
      do
        failures ← check_client_config (fetch_client_config u accepts repr (exchange 0) config)
        total ←
            and_pages fetch args.skip_pages (fetch_client_config u accepts repr (exchange 1) config)
              config failures
        reported (report_admin_exposure (λ n. exchange (suc (suc n))) config) total
