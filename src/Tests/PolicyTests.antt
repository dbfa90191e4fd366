-- ===== src/Tests/PolicyTests.antt =====
-- The navigation policy at concrete inputs.
use visiontak_client.Prelude.{
  ◌≡◌, ◌↔◌, refl, true, false, [], ◌∷◌, Text, codes, contains, is_empty, text_eq,
}
use visiontak_client.Ui.Policy.{
  HostAllowlist, empty, allow, permits, host_of, any_host, ends_with, always_allowed_schemes,
  has_slashes,
}
use visiontak_client.Ui.Policy.Permits.{IsWithin, permits_iff, permits-allow, permits_listed}
use visiontak_client.Ui.Window.Show.{allow_dashboards}
use visiontak_client.Tests.Samples.{ascii, one_server, board, boards}

abbrev example_only : HostAllowlist
example_only = record { hosts = codes "example" ∷ []; allow_any = false }

abbrev page : Text
page = codes "http://a.example/view/a"

not_special : contains (one_server.urlparse page).scheme always_allowed_schemes ≡ false
unfolding contains text_eq
not_special = refl

permits_iff_example : (permits ascii one_server example_only page ≡ true) ↔ (
    (is_empty (host_of ascii (one_server.urlparse page)) ≡ false)
    × ((h : Text) × (contains h example_only.hosts ≡ true)
        × IsWithin (host_of ascii (one_server.urlparse page)) h))
permits_iff_example = permits_iff ascii one_server example_only page not_special refl

page_permitted : permits ascii one_server example_only page ≡ true
unfolding permits host_of any_host ends_with contains text_eq
page_permitted = refl

permits-allow_example :
    permits ascii one_server (allow ascii one_server (codes "*") example_only) page ≡ true
permits-allow_example = permits-allow ascii one_server (codes "*") page example_only page_permitted

slashes : has_slashes (codes "http://a.example/view/a") ≡ true
unfolding has_slashes
slashes = refl

permits_listed_example :
    permits ascii one_server
      (allow_dashboards ascii one_server boards empty)
      (codes "http://a.example/view/a")
    ≡ true
permits_listed_example =
    permits_listed ascii one_server boards 0 (board (codes "a")) (codes "a.example") empty refl
      slashes refl refl refl
