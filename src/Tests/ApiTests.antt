-- ===== src/Tests/ApiTests.antt =====
-- The cache at a concrete answer of the server.
use visiontak_client.Prelude.{Text, Bool, true, ◌≡◌, refl, some, [], ◌∷◌, codes, map, text_eq}
use visiontak_client.Python.{ok, rstrip_slash, rstrip_by}
use visiontak_client.Json.{Json, str, arr, obj, nil, cons, end, field, get, truthy, show}
use visiontak_client.Models.{
  Dashboard, is_enabled, pick, from_payload, as_order, sort_dashboards, insert_sorted, key_le,
  text_le, show_or, view_url,
}
use visiontak_client.Api.{
  ClientConfig, parse_client_config, unwrap_collection, first_list, parse_entries, keep_usable,
  default_of, text_if_truthy, cache_json, save, load,
}
use visiontak_client.Api.Cache.{without_group, load-save}
use visiontak_client.Models.Sorting.{InOrder, keep, same_key, sort_dashboards_sorts}
use visiontak_client.Config.{Config, default_config}
use visiontak_client.Api.Request.{Request, Response, http_error}
use visiontak_client.Api.Request.Errors.{IsSorted as IsAnswered}
use visiontak_client.Tests.Samples.{ascii, repr, base, board, boards}
use mathlib.Core.List.{Perm}

-- {"defaultDashboardId": "a", "allowedDashboards": [{"id": "b"}, {"id": "a", "name": "a"}]}
abbrev answer : Json
answer = obj (
    field (codes "defaultDashboardId") (str (codes "a")) (
      field (codes "allowedDashboards")
        (arr (
          cons (obj (field (codes "id") (str (codes "b")) end)) (
            cons
              (obj
                (field (codes "id") (str (codes "a")) (field (codes "name") (str (codes "a")) end)))
              nil)))
        end))

abbrev parsed : ClientConfig
parsed = record {
  dashboards = board (codes "a") ∷ board (codes "b") ∷ [];
  default_id = some (codes "a");
}

answer_is_read : parse_client_config ascii repr answer base ≡ ok parsed
unfolding parse_client_config unwrap_collection first_list get text_eq parse_entries is_enabled pick
    keep_usable from_payload truthy as_order sort_dashboards default_of insert_sorted show key_le
    text_le show_or view_url text_if_truthy rstrip_slash rstrip_by
answer_is_read = refl

load-save_example :
    load ascii repr (λ t. ok (cache_json parsed)) (save (λ j. codes "{}") parsed) base
    ≡ ok (record parsed { dashboards = map without_group parsed.dashboards })
load-save_example =
    load-save ascii repr (λ j. codes "{}") (λ t. ok (cache_json parsed)) answer base parsed
      (λ j. refl) answer_is_read refl

sort_dashboards_sorts_example :
    InOrder ascii (sort_dashboards ascii boards)
    × (Perm (sort_dashboards ascii boards) boards
        × ((k : Dashboard)
            → keep (same_key ascii k) (sort_dashboards ascii boards)
              ≡ keep (same_key ascii k) boards))
sort_dashboards_sorts_example = sort_dashboards_sorts ascii boards

-- A server that rejects every token.
abbrev rejecting : Request → Response
rejecting r = http_error 401

abbrev takes_all : Text → Bool
takes_all url = true

abbrev with_server : Config
with_server = record default_config { server_url = base }
