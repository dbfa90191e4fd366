-- ===== src/Config/Persist/Durable.antt =====
-- What persist of config.py writes is what load of config.py reads.
use visiontak_client.Prelude.{
  ◌≡◌, none, refl, arith, Bool, true, false, Option, some, List, [], ◌∷◌, ◌++◌, Text, text_eq_refl,
  contains, is_empty, lookup, sym, inl, inr, ◌⊎◌, if◌then◌else◌,
}
use visiontak_client.Python.{
  Unicode, Result, ok, raise, json_error, ◌>>=◌, Result-cases, ok-injective, os_error,
}
use visiontak_client.Json.{Json, str, obj, Fields, field, end, get, null, arr, bool, float}
use visiontak_client.Config.Load.{
  field_names, snap_key, read_file, from_mapping, from_fields, entry, with_entry,
}
use visiontak_client.Config.Load.Precedence.{lookup-from_fields}
use visiontak_client.Config.Persist.{set_field, with_key, read_current, persist}

get-set_field : (k : Text) (j : Json) (fs : Fields) → get k (set_field k j fs) ≡ some j
unfolding get set_field
get-set_field k j end = ground (arith, text_eq_refl k)
get-set_field k j (field i v fs) = ground (arith, get-set_field k j fs)

-- A key that was set is the setting of its field.
lookup-mapped :
    (name value : Text) (j : Json) (new : Json) (values : List (Text × Json))
    → contains name field_names ≡ true
    → is_empty value ≡ false
    → with_key (snap_key name) value j ≡ ok new
    → from_mapping snap_key new ≡ ok values
    → lookup name values ≡ some (str value)
unfolding with_key from_mapping
lookup-mapped name [] j new values n v w m = cc v
lookup-mapped name (c ∷ value) null new values n v w m = cc w
lookup-mapped name (c ∷ value) (bool b) new values n v w m = cc w
lookup-mapped name (c ∷ value) (Json.int i) new values n v w m = cc w
lookup-mapped name (c ∷ value) (float f) new values n v w m = cc w
lookup-mapped name (c ∷ value) (str s) new values n v w m = cc w
lookup-mapped name (c ∷ value) (arr js) new values n v w m = cc w
lookup-mapped name (c ∷ value) (obj fs) new values n v w m =
    lookup-from_fields snap_key (set_field (snap_key name) (str (c ∷ value)) fs) name
      (str (c ∷ value)) field_names values (rw (ok-injective w) m) n
      (rw (get-set_field (snap_key name) (str (c ∷ value)) fs) refl)

-- Only a dict takes a key, so what with_key gives is one.
with_key-dict :
    (key value : Text) (j new : Json)
    → with_key key value j ≡ ok new
    → (fs : Fields) × (new ≡ obj fs)
unfolding with_key
with_key-dict key value null new w = cc w
with_key-dict key value (bool b) new w = cc w
with_key-dict key value (Json.int i) new w = cc w
with_key-dict key value (float f) new w = cc w
with_key-dict key value (str s) new w = cc w
with_key-dict key value (arr js) new w = cc w
with_key-dict key value (obj fs) new w = (set_field key (str value) fs, sym (ok-injective w))

from_fields-total :
    (key : Text → Text) (fs : Fields) (names : List Text)
    → (out : List (Text × Json)) × (from_fields key (obj fs) names ≡ ok out)
unfolding from_fields entry
from_fields-total key fs [] = ([], refl)
from_fields-total key fs (n ∷ names) =
    let (rest, e) = from_fields-total key fs names in
    (with_entry n (get (key n) fs) rest, rw e refl)

-- A file that persist can add to: none, one with a dict, or one that does not parse.
abbrev pub IsRecordable : (Text → Result Json) → Option Text → Type 0
IsRecordable loads none = Unit
IsRecordable loads (some text) =
    ((fs : Fields) × (loads text ≡ ok (obj fs))) ⊎ (loads text ≡ raise json_error)

module _ (repr : Json → Text) (loads : Text → Result Json) (dumps : Json → Text) where
  mapped :
      (new : Json)
      → ((fs : Fields) × (new ≡ obj fs))
      → (values : List (Text × Json)) × (from_mapping snap_key new ≡ ok values)
  unfolding from_mapping
  mapped new (fs, e) = rw e (from_fields-total snap_key fs field_names)

  read_back :
      (u : Unicode) (name value content : Text) (writable : Bool) (current new : Json)
      → contains name field_names ≡ true
      → is_empty value ≡ false
      → loads (dumps new ++ 10 ∷ []) ≡ ok new
      → with_key (snap_key name) value current ≡ ok new
      → (if writable then ok (dumps new ++ 10 ∷ []) else raise os_error) ≡ ok content
      → (values : List (Text × Json)) × ((read_file u repr loads (some content) ≡ ok values)
          × (lookup name values ≡ some (str value)))
  unfolding read_file
  read_back u name value content false current new n v l w e = cc e
  read_back u name value content true current new n v l w e =
      let (values, m) = mapped new (with_key-dict (snap_key name) value current new w) in
      let is : content ≡ dumps new ++ 10 ∷ [] = sym (ok-injective e) in
      (values, (rw (is, l) m, lookup-mapped name value current new values n v w m))

  recorded :
      (u : Unicode) (name value content : Text) (writable : Bool) (file : Option Text)
      → contains name field_names ≡ true
      → is_empty value ≡ false
      → ((j : Json)
          → (read_current loads file >>= with_key (snap_key name) value) ≡ ok j
          → loads (dumps j ++ 10 ∷ []) ≡ ok j)
      → persist loads dumps writable (snap_key name) value file ≡ ok content
      → (values : List (Text × Json)) × ((read_file u repr loads (some content) ≡ ok values)
          × (lookup name values ≡ some (str value)))
  unfolding persist
  recorded u name value content writable file n v l e =
      elim (Result-cases (read_current loads file)) [
        | inr (x, q) ↦ cc (rw q at e)
        | inl (current, q) ↦
            let f = rw q at e in
            elim (Result-cases (with_key (snap_key name) value current)) [
              | inr (x, w) ↦ cc (rw w at f)
              | inl (new, w) ↦
                  read_back u name value content writable current new n v (l new (rw (q, w) refl)) w
                    (rw w at f)
            ]
      ]

  persisted :
      (key value : Text) (file : Option Text)
      → IsRecordable loads file
      → (content : Text) × (persist loads dumps true key value file ≡ ok content)
  unfolding persist with_key
  persisted key value none r = (dumps (obj (set_field key (str value) end)) ++ 10 ∷ [], refl)
  persisted key value (some text) (inl (fs, e)) =
      (dumps (obj (set_field key (str value) fs)) ++ 10 ∷ [], rw e refl)
  persisted key value (some text) (inr e) =
      (dumps (obj (set_field key (str value) end)) ++ 10 ∷ [], rw e refl)

  -- Where the directory can be written, persist records a setting beside no file, a file with a dict or
  -- a corrupt text, and if the setting is not empty the next load reads it from the file for its field;
  -- provided json.loads reads back the document that json.dumps wrote.
  pub persist-read_file :
      (u : Unicode) (name value : Text) (file : Option Text)
      → contains name field_names ≡ true
      → is_empty value ≡ false
      → IsRecordable loads file
      → ((j : Json)
          → (read_current loads file >>= with_key (snap_key name) value) ≡ ok j
          → loads (dumps j ++ 10 ∷ []) ≡ ok j)
      → (content : Text) × ((persist loads dumps true (snap_key name) value file ≡ ok content)
          × ((values : List (Text × Json)) × ((read_file u repr loads (some content) ≡ ok values)
                × (lookup name values ≡ some (str value)))))
  persist-read_file u name value file n v r l =
      let (content, e) = persisted (snap_key name) value file r in
      (content, (e, recorded u name value content true file n v l e))
