-- ===== src/Api/Cache.antt =====
-- The cache of api.py gives back what was saved.
use visiontak_client.Prelude.{
  ◌≡◌, refl, ◌∙◌, false, Option, none, some, List, [], ◌∷◌, map, Text, text_eq, if◌then◌else◌,
  is_empty, All,
}
use visiontak_client.Python.{Unicode, Result, ok, ◌>>=◌}
use visiontak_client.Json.{Json, Items, cons, get, truthy, show}
use visiontak_client.Models.{Dashboard, pick, is_enabled, from_payload, as_order, show_or, key_le}
use visiontak_client.Models.Sorting.{IsSorted, sort_dashboards-IsSorted_eq}
use visiontak_client.Api.{
  ClientConfig, first_list, unwrap_collection, keep_usable, parse_entries, default_of,
  text_if_truthy, parse_client_config, entry_json, entries_json, cache_json, default_json, save,
  load, recover,
}
use visiontak_client.Api.Parsing.{IsUsable, IsFull, IsWellFormed, parse_client_config-IsWellFormed}

-- The cache does not hold the group.
abbrev pub without_group : Dashboard → Dashboard
without_group d = record d { group = [] }

module _ (u : Unicode) (repr : Json → Text) where
  -- One entry that was written, parsed.
  entry_back :
      (base_url : Text) (d : Dashboard) (items : Items)
      → IsUsable base_url d
      → parse_entries u repr (cons (entry_json d) items) base_url
        ≡ (do ds ← parse_entries u repr items base_url; ok (without_group d ∷ ds))
  unfolding entry_json parse_entries is_enabled from_payload pick get text_eq truthy show show_or
      as_order keep_usable
  entry_back base_url d items h = rw (h.has_id, h.has_name, ← h.at_page) refl

  entries_back :
      (base_url : Text) (ds : List Dashboard)
      → All (IsUsable base_url) ds
      → parse_entries u repr (entries_json ds) base_url ≡ ok (map without_group ds)
  unfolding entries_json
  entries_back base_url [] h = unfold parse_entries in refl
  entries_back base_url (d ∷ ds) h =
      entry_back base_url d (entries_json ds) h.0 ∙ rw (entries_back base_url ds h.1) refl

  without_group-IsSorted : (ds : List Dashboard) → IsSorted u ds → IsSorted u (map without_group ds)
  unfolding key_le
  without_group-IsSorted [] h = tt
  without_group-IsSorted (d ∷ []) h = tt
  without_group-IsSorted (d ∷ e ∷ es) h = (h.0, without_group-IsSorted (e ∷ es) h.1)

  default_value :
      (o : Option Text)
      → IsFull o
      → (if truthy (default_json o) then some (show repr (default_json o)) else none) ≡ o
  unfolding truthy show
  default_value none h = refl
  default_value (some id) h = rw h refl

  unwrap_back :
      (c : ClientConfig) → unwrap_collection (cache_json c) ≡ ok (entries_json c.dashboards)
  unfolding unwrap_collection cache_json first_list get text_eq
  unwrap_back c = refl

  default_back :
      (c : ClientConfig) → IsFull c.default_id → default_of u repr (cache_json c) ≡ c.default_id
  unfolding default_of cache_json get text_eq text_if_truthy truthy show
  default_back c h = default_value c.default_id h

  parse_back :
      (base_url : Text) (c : ClientConfig)
      → IsWellFormed u base_url c
      → parse_client_config u repr (cache_json c) base_url
        ≡ ok (record c { dashboards = map without_group c.dashboards })
  unfolding parse_client_config
  parse_back base_url c h =
      rw (unwrap_back c, entries_back base_url c.dashboards h.usable)
        (rw
          (
            sort_dashboards-IsSorted_eq u (map without_group c.dashboards)
                (without_group-IsSorted c.dashboards h.sorted),
            default_back c h.default_full,
          )
          refl)

-- What the client shows from its cache is what the server sent: an answer that was parsed and saved
-- loads back with the same default, and the same dashboards in the same order, ids, names, addresses
-- and ranks, but without their groups; provided the file holds what json.dumps gave, json.loads reads
-- that back, and str() of a list or a dict is not empty.
pub load-save :
    (u : Unicode) (repr : Json → Text) (dumps : Json → Text) (loads : Text → Result Json)
    (payload : Json) (base_url : Text) (c : ClientConfig)
    → ((j : Json) → is_empty (repr j) ≡ false)
    → parse_client_config u repr payload base_url ≡ ok c
    → loads (dumps (cache_json c)) ≡ ok (cache_json c)
    → load u repr loads (save dumps c) base_url
      ≡ ok (record c { dashboards = map without_group c.dashboards })
unfolding load save recover
load-save u repr dumps loads payload base_url c full parsed read =
    rw
      (
        read,
        parse_back u repr base_url c
            (parse_client_config-IsWellFormed u repr full payload base_url c parsed),
      )
      refl
