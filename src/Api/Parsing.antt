-- ===== src/Api/Parsing.antt =====
-- What parse_client_config of api.py gives: dashboards that are usable, sorted, and at their pages.
use visiontak_client.Prelude.{
  ℕ, ◌≡◌, refl, true, false, Option, none, some, List, [], ◌∷◌, Text, codes, arith, if_keeps,
  is_empty, All, Bool-cases, inl, inr, pos, negsuc, zero, suc, ◌+◌, ◌/◌, ◌%◌, ltb,
}
use mathlib.Core.Path.{subst}
use visiontak_client.Python.{
  Unicode, Result, ok, raise, Exception, value_error, json_error, ok-injective, Result-cases,
}
use visiontak_client.Json.{
  Json, null, bool, float, str, arr, obj, Items, nil, cons, Fields, get, truthy, show, show_ℤ,
  show_ℕ, digits_before,
}
use visiontak_client.Models.{
  Dashboard, Field, pick, is_enabled, from_payload, sort_dashboards, insert_sorted, key_le,
  view_url, as_order, show_or,
}
use visiontak_client.Models.Sorting.{IsSorted, sort_dashboards-keeps_all}
use visiontak_client.Api.{
  ClientConfig, unwrap_collection, keep_usable, parse_entries, default_of, text_if_truthy,
  parse_client_config,
}

abbrev Full : Text → Type 0
Full t = is_empty t ≡ false

digits_before_full :
    (fuel n : ℕ) (s : Text) → is_empty s ≡ false → is_empty (digits_before fuel n s) ≡ false
unfolding digits_before
digits_before_full zero n s h = h
digits_before_full (suc fuel) n s h =
    if_keeps Full (ltb n 10) (λ e. refl)
      (λ e. digits_before_full fuel (n / 10) ((48 + n % 10) ∷ s) refl)

show_ℕ_full : (n : ℕ) → is_empty (show_ℕ n) ≡ false
unfolding show_ℕ digits_before
show_ℕ_full n =
    if_keeps Full (ltb n 10) (λ e. refl)
      (λ e. digits_before_full n (n / 10) ((48 + n % 10) ∷ []) refl)

-- A dashboard with an id and a name, at the page that the server renders for it.
pub record IsUsable (base_url : Text) (d : Dashboard) : Type 0 where
  pub has_id : is_empty d.id ≡ false
  pub has_name : is_empty d.name ≡ false
  pub at_page : d.url ≡ view_url base_url d.id

-- A default dashboard id is not empty.
abbrev pub IsFull : Option Text → Type 0
IsFull none = Unit
IsFull (some id) = is_empty id ≡ false

pub record IsWellFormed (u : Unicode) (base_url : Text) (c : ClientConfig) : Type 0 where
  pub usable : All (IsUsable base_url) c.dashboards
  pub sorted : IsSorted u c.dashboards
  pub default_full : IsFull c.default_id

module _ (u : Unicode) (repr : Json → Text)
    (repr_full : (j : Json) → is_empty (repr j) ≡ false) where
  show_full : (j : Json) → truthy j ≡ true → is_empty (show repr j) ≡ false
  unfolding truthy show show_ℤ
  show_full null h = refl
  show_full (bool true) h = refl
  show_full (bool false) h = refl
  show_full (Json.int (pos n)) h = show_ℕ_full n
  show_full (Json.int (negsuc n)) h = refl
  show_full (float f) h = f.text_full
  show_full (str s) h = ground arith
  show_full (arr js) h = repr_full (arr js)
  show_full (obj fs) h = repr_full (obj fs)

  show_or_full :
      (default : Text) (j : Json)
      → is_empty default ≡ false
      → is_empty (show_or u repr default j) ≡ false
  unfolding show_or
  show_or_full default j h = if_keeps Full (truthy j) (λ e. show_full j e) (λ e. h)

  -- What from_payload returns is usable, and what it raises it does not return.
  from_payload-IsUsable :
      (payload : Fields) (base_url : Text) (d : Dashboard)
      → from_payload u repr payload base_url ≡ ok d
      → IsUsable base_url d
  unfolding from_payload
  from_payload-IsUsable payload base_url d =
      elim (Bool-cases (truthy (pick Field.id_field payload))) [
        | inl t ↦ rw t (elim (Result-cases (as_order u repr (pick Field.order_field payload))) [
          | inl (o, q) ↦ rw q (λ e. subst (IsUsable base_url) (ok-injective e) (record {
            has_id = show_full (pick Field.id_field payload) t;
            has_name =
                show_or_full _ (pick Field.name_field payload)
                  (show_full (pick Field.id_field payload) t);
            at_page = refl;
          }))
          | inr (x, q) ↦ rw q (λ e. cc e)
        ])
        | inr f ↦ rw f (λ e. cc e)
      ]

  keep_usable-All :
      (r : Result Dashboard) (rest : Result (List Dashboard)) (base_url : Text)
      (ds : List Dashboard)
      → ((d : Dashboard) → r ≡ ok d → IsUsable base_url d)
      → ((es : List Dashboard) → rest ≡ ok es → All (IsUsable base_url) es)
      → keep_usable u repr r rest ≡ ok ds
      → All (IsUsable base_url) ds
  unfolding keep_usable
  keep_usable-All (ok d) (ok es) base_url ds h k e =
      subst (All (IsUsable base_url)) (ok-injective e) (h d refl, k es refl)
  keep_usable-All (ok d) (raise x) base_url ds h k e = cc e
  keep_usable-All (raise value_error) rest base_url ds h k e = k ds e
  keep_usable-All (raise json_error) rest base_url ds h k e = k ds e
  keep_usable-All (raise _) rest base_url ds h k e = cc e

  parse_entries-All :
      (items : Items) (base_url : Text) (ds : List Dashboard)
      → parse_entries u repr items base_url ≡ ok ds
      → All (IsUsable base_url) ds
  unfolding parse_entries
  parse_entries-All nil base_url ds = λ e. subst (All (IsUsable base_url)) (ok-injective e) tt
  parse_entries-All (cons (obj entry) items) base_url ds =
      if_keeps (λ r. r ≡ ok ds → All (IsUsable base_url) ds) (is_enabled entry)
        (λ on.
          keep_usable-All (from_payload u repr entry base_url) (parse_entries u repr items base_url)
            base_url ds (from_payload-IsUsable entry base_url) (parse_entries-All items base_url))
        (λ off. parse_entries-All items base_url ds)
  parse_entries-All (cons _ items) base_url ds = parse_entries-All items base_url ds

  insert_sorted-All :
      (base_url : Text) (d : Dashboard) (ds : List Dashboard)
      → IsUsable base_url d
      → All (IsUsable base_url) ds
      → All (IsUsable base_url) (insert_sorted u d ds)
  unfolding insert_sorted
  insert_sorted-All base_url d [] h k = (h, tt)
  insert_sorted-All base_url d (e ∷ es) h k =
      if_keeps (All (IsUsable base_url)) (key_le u d e) (λ q. (h, k))
        (λ q. (k.0, insert_sorted-All base_url d es h k.1))

  sort-All :
      (base_url : Text) (ds : List Dashboard)
      → All (IsUsable base_url) ds
      → All (IsUsable base_url) (sort_dashboards u ds)
  unfolding sort_dashboards
  sort-All base_url [] h = tt
  sort-All base_url (d ∷ ds) h =
      insert_sorted-All base_url d (sort_dashboards u ds) h.0 (sort-All base_url ds h.1)

  text_if_truthy-IsFull : (o : Option Json) → IsFull (text_if_truthy u repr o)
  unfolding text_if_truthy
  text_if_truthy-IsFull none = tt
  text_if_truthy-IsFull (some j) = if_keeps IsFull (truthy j) (λ t. show_full j t) (λ f. tt)

  default_of-IsFull : (j : Json) → IsFull (default_of u repr j)
  unfolding default_of
  default_of-IsFull (obj payload) = text_if_truthy-IsFull (get (codes "defaultDashboardId") payload)
  default_of-IsFull _ = tt

  -- Whatever the server sends: if it is parsed, each dashboard has an id and a name that are not
  -- empty and the address of its page below the server, they are sorted, and a default id is not empty.
  pub parse_client_config-IsWellFormed :
      (payload : Json) (base_url : Text) (config : ClientConfig)
      → parse_client_config u repr payload base_url ≡ ok config
      → IsWellFormed u base_url config
  unfolding parse_client_config
  parse_client_config-IsWellFormed payload base_url config =
      elim (Result-cases (unwrap_collection payload)) [
        | inr (x, q) ↦ rw q (absurd_raise x)
        | inl (items, q) ↦ rw q (elim (Result-cases (parse_entries u repr items base_url)) [
          | inr (x, r) ↦ rw r (absurd_raise x)
          | inl (ds, r) ↦ rw r (λ e. subst (IsWellFormed u base_url) (ok-injective e) (record {
            usable = sort-All base_url ds (parse_entries-All items base_url ds r);
            sorted = (sort_dashboards-keeps_all u ds).0;
            default_full = default_of-IsFull payload;
          }))
        ])
      ]
    where
      absurd_raise : (x : Exception) → raise x ≡ ok config → IsWellFormed u base_url config
      absurd_raise x e = cc e
