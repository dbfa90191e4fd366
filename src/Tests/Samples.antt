-- ===== src/Tests/Samples.antt =====
-- Sample values for the parameters of the model, and sample dashboards.
use visiontak_client.Prelude.{
  false, ℕ, ◌+◌, ◌-◌, ◌<◌, ◌≡◌, Bool, true, ◌&&◌, ◌||◌, Option, none, some, List, [], ◌∷◌, ◌++◌,
  Text, codes, pos, arith, leb, ltb, ◌==◌, if◌then◌else◌, map,
}
use visiontak_client.Python.{Unicode}
use visiontak_client.Platform.{Platform}
use visiontak_client.Json.{Json}
use visiontak_client.Models.{Dashboard}

abbrev pub digit_value : ℕ → Option ℕ
digit_value c = if leb 48 c then if ltb (c - 48) 10 then some (c - 48) else none else none

-- ASCII, with the superscript two as a digit that is not decimal.
abbrev pub is_digit_char : ℕ → Bool
is_digit_char c = (leb 48 c && ltb (c - 48) 10) || c == 178

abbrev pub lower_char : ℕ → ℕ
lower_char c = if leb 65 c && leb c 90 then c + 32 else c

pub digit_value_is_digit : (c v : ℕ) → digit_value c ≡ some v → is_digit_char c ≡ true
digit_value_is_digit c v h = ground arith

pub digit_value_ascii : (v : ℕ) → v < 10 → digit_value (48 + v) ≡ some v
digit_value_ascii v h = ground arith

pub digit_value-lt : (c v : ℕ) → digit_value c ≡ some v → v < 10
digit_value-lt c v h = ground arith

abbrev pub ascii : Unicode
ascii = record {
  is_digit = is_digit_char;
  decimal = digit_value;
  lower = map lower_char;
  decimal_is_digit = digit_value_is_digit;
  decimal_ascii = digit_value_ascii;
  decimal-lt = digit_value-lt;
}

-- Every address is of the host a.example.
abbrev pub one_server : Platform
one_server = record {
  refuses = λ url. false;
  urlparse = λ url. record { scheme = codes "http"; hostname = some (codes "a.example") };
  route = λ target. some (codes "10.0.0.9");
  exists = λ path. true;
}

abbrev pub repr : Json → Text
repr j = codes "[...]"

abbrev pub base : Text
base = codes "http://a.example"

abbrev pub board : Text → Dashboard
board id = record {
  id = id;
  name = id;
  url = base ++ codes "/view/" ++ id;
  order = pos 0;
  group = [];
}

abbrev pub boards : List Dashboard
boards = board (codes "a") ∷ board (codes "b") ∷ board (codes "c") ∷ board (codes "d") ∷ []
