-- ===== src/Json.antt =====
-- The values that json.loads returns, and what Python's bool(), str() and `d.get(k)` make of them.
use visiontak_client.Prelude.{
  ℕ, zero, suc, ◌+◌, ◌/◌, ◌%◌, ◌≡◌, Bool, true, false, not, Option, none, some, [], ◌∷◌, Text,
  codes, text_eq, ℤ, pos, negsuc, ltb, if◌then◌else◌, is_empty,
}
use visiontak_client.Python.{Result}

-- A float, by what bool(), str() and int() give of it; str() is never empty.
pub record Float : Type 0 where
  pub truth : Bool
  pub text : Text
  pub trunc : Result ℤ
  pub text_full : is_empty text ≡ false

mutual
  pub data Json : Type 0 where
    null : Json
    bool : Bool → Json
    int : ℤ → Json
    float : Float → Json
    str : Text → Json
    arr : Items → Json
    obj : Fields → Json

  pub data Items : Type 0 where
    nil : Items
    cons : Json → Items → Items

  pub data Fields : Type 0 where
    end : Fields
    field : Text → Json → Fields → Fields

-- bool(j)
unfoldable pub truthy : Json → Bool
truthy null = false
truthy (bool b) = b
truthy (int (pos zero)) = false
truthy (int (pos (suc n))) = true
truthy (int (negsuc n)) = true
truthy (float f) = f.truth
truthy (str s) = not (is_empty s)
truthy (arr nil) = false
truthy (arr (cons j js)) = true
truthy (obj end) = false
truthy (obj (field k j fs)) = true

-- d.get(k), none for a missing key
unfoldable pub get : Text → Fields → Option Json
get k end = none
get k (field j v fs) = if text_eq j k then some v else get k fs

-- The decimal digits of a number in front of a text; the fuel is above the number.
unfoldable pub digits_before : ℕ → ℕ → Text → Text
digits_before zero n s = s
digits_before (suc fuel) n s =
    let c = (48 + n % 10) ∷ s in
    let rest = digits_before fuel (n / 10) c in if ltb n 10 then c else rest

unfoldable pub show_ℕ : ℕ → Text
show_ℕ n = digits_before (suc n) n []

unfoldable pub show_ℤ : ℤ → Text
show_ℤ (pos n) = show_ℕ n
show_ℤ (negsuc n) = b'-' ∷ show_ℕ (suc n)

-- str(j), by the text that str() gives of a list or a dict.
unfoldable pub show : (Json → Text) → Json → Text
show repr null = codes "None"
show repr (bool true) = codes "True"
show repr (bool false) = codes "False"
show repr (int i) = show_ℤ i
show repr (float f) = f.text
show repr (str s) = s
show repr (arr js) = repr (arr js)
show repr (obj fs) = repr (obj fs)
