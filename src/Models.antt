-- ===== src/Models.antt =====
-- src/visiontak_client/models.py
pub mod Sorting
use visiontak_client.Prelude.{
  ℕ, suc, ◌+◌, Bool, true, false, ◌&&◌, ◌||◌, Option, none, some, List, [], ◌∷◌, ◌++◌, Text, codes,
  text_eq, ℤ, pos, negsuc, ltb_ℤ, ltb, ◌==◌, if◌then◌else◌, is_empty,
}
use visiontak_client.Python.{
  Unicode, Result, ok, raise, value_error, ◌>>=◌, lstrip_by, strip, isdigit, int, rstrip_slash,
}
use visiontak_client.Json.{Json, null, bool, float, str, arr, obj, Fields, get, truthy, show}

pub record Dashboard : Type 0 where
  pub id : Text
  pub name : Text
  pub url : Text
  pub order : ℤ
  pub group : Text

-- _ALIASES
pub data Field : Type 0 where
  id_field name_field order_field enabled_field group_field : Field

abbrev pub aliases : Field → List Text
aliases Field.id_field = codes "id" ∷ codes "dashboardId" ∷ codes "dashboard_id" ∷ codes "uuid" ∷ []
aliases Field.name_field = codes "name" ∷ codes "title" ∷ codes "label" ∷ []
aliases Field.order_field =
    codes "sortOrder" ∷ codes "sort_order" ∷ codes "order" ∷ codes "position" ∷ []
aliases Field.enabled_field = codes "isEnabled" ∷ codes "is_enabled" ∷ codes "enabled" ∷ []
aliases Field.group_field =
    codes "group" ∷ codes "groupName" ∷ codes "group_name" ∷ codes "category" ∷ codes "folder" ∷ []

-- Is there a value, and is it not None?
abbrev present : Option Json → Bool
present none = false
present (some null) = false
present (some j) = true

abbrev value_of : Option Json → Json
value_of none = null
value_of (some j) = j

-- _pick, over the aliases of the field
unfoldable pub pick_from : List Text → Fields → Json
pick_from [] payload = null
pick_from (k ∷ ks) payload =
    if present (get k payload) then value_of (get k payload) else pick_from ks payload

unfoldable pub pick : Field → Fields → Json
unfolding pick_from
pick f payload = pick_from (aliases f) payload

abbrev pub view_path : Text
view_path = codes "/view"

unfoldable pub view_url : Text → Text → Text
view_url base_url dashboard_id = rstrip_slash base_url ++ view_path ++ b'/' ∷ dashboard_id

-- Absent means enabled.
abbrev flag : Json → Bool
flag null = true
flag j = truthy j

unfoldable pub is_enabled : Fields → Bool
is_enabled payload = flag (pick Field.enabled_field payload)

module _ (u : Unicode) (repr : Json → Text) where
  -- The last three lines of _as_order.
  unfoldable pub order_of_text : Text → Result ℤ
  order_of_text text =
      if isdigit u (lstrip_by (λ c. c == b'-') text) then int u text else ok (pos 0)

  unfoldable pub as_order : Json → Result ℤ
  as_order null = ok (pos 0)
  as_order (bool b) = ok (pos 0)
  as_order (Json.int i) = ok i
  as_order (float f) = f.trunc
  as_order j = order_of_text (strip (show repr j))

  -- str(x) if x else default
  unfoldable pub show_or : Text → Json → Text
  show_or default j = if truthy j then show repr j else default

  unfoldable pub from_payload : Fields → Text → Result Dashboard
  from_payload payload base_url =
      let raw_id = pick Field.id_field payload in
      if truthy raw_id
      then (do
        order ← as_order (pick Field.order_field payload)
        ok (record {
          id = show repr raw_id;
          name = show_or (show repr raw_id) (pick Field.name_field payload);
          url = view_url base_url (show repr raw_id);
          order = order;
          group = show_or [] (pick Field.group_field payload);
        }))
      else raise value_error

-- The order of texts by code points.
unfoldable pub text_le : Text → Text → Bool
text_le [] t = true
text_le (c ∷ s) [] = false
text_le (c ∷ s) (d ∷ t) = ltb c d || (c == d && text_le s t)

module _ (u : Unicode) where
  -- The key of a is at most that of b: (order, name.lower()).
  unfoldable pub key_le : Dashboard → Dashboard → Bool
  key_le a b =
      ltb_ℤ a.order b.order
      || (not_less b.order a.order && text_le (u.lower a.name) (u.lower b.name))
    where
      not_less : ℤ → ℤ → Bool
      not_less x y = if ltb_ℤ x y then false else true

  -- A dashboard in front of the first whose key is not smaller.
  unfoldable pub insert_sorted : Dashboard → List Dashboard → List Dashboard
  insert_sorted d [] = d ∷ []
  insert_sorted d (e ∷ es) = if key_le d e then d ∷ e ∷ es else e ∷ insert_sorted d es

  -- sorted(...), which is stable
  unfoldable pub sort_dashboards : List Dashboard → List Dashboard
  sort_dashboards [] = []
  sort_dashboards (d ∷ ds) = insert_sorted d (sort_dashboards ds)
