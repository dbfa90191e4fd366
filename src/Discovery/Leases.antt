-- ===== src/Discovery/Leases.antt =====
-- src/visiontak_client/discovery.py: describe and discover_server_url, over the directories of leases.
pub mod First
use visiontak_client.Prelude.{
  ℕ, zero, suc, Bool, true, false, ◌&&◌, ◌||◌, Option, none, some, List, [], ◌∷◌, ◌++◌, Text, codes,
  leb, ◌==◌, if◌then◌else◌, is_empty, drop, length, map,
}
use visiontak_client.Python.{Unicode, Result, ok, raise, ◌>>=◌, strip, starts_with}
use visiontak_client.Json.{Json, str}
use visiontak_client.Models.{text_le}
use visiontak_client.Discovery.Payload.{parse_option}

-- What path.iterdir() gives: the name, whether it is a file, and the text that reading it gives, none
-- for an OSError.
pub record Entry : Type 0 where
  pub name : Text
  pub is_file : Bool
  pub content : Option Text

unfoldable pub insert_entry : Entry → List Entry → List Entry
insert_entry e [] = e ∷ []
insert_entry e (f ∷ fs) =
    let rest = insert_entry e fs in if text_le e.name f.name then e ∷ f ∷ fs else f ∷ rest

-- sorted(p for p in path.iterdir() if p.is_file())
unfoldable pub sorted_files : List Entry → List Entry
unfolding insert_entry
sorted_files [] = []
sorted_files (e ∷ es) =
    let rest = sorted_files es in if e.is_file then insert_entry e rest else rest

-- _lease_files, by the listing of each directory, none if it is no directory or cannot be listed: the
-- contents of the leases.
unfoldable pub lease_files : List (Option (List Entry)) → List (Option Text)
unfolding sorted_files
lease_files [] = []
lease_files (none ∷ dirs) = lease_files dirs
lease_files (some es ∷ dirs) = map (λ e. e.content) (sorted_files es) ++ lease_files dirs

-- The characters at which splitlines() splits.
abbrev is_break : ℕ → Bool
is_break c =
    (leb 10 c && leb c 13) || (leb 28 c && leb c 30) || c == 0x85 || c == 0x2028 || c == 0x2029

abbrev cons_line : ℕ → List Text → List Text
cons_line c [] = (c ∷ []) ∷ []
cons_line c (line ∷ lines) = (c ∷ line) ∷ lines

-- s.splitlines(); a line feed after a carriage return ends no other line.
unfoldable pub lines_from : Bool → Text → List Text
lines_from cr [] = []
lines_from cr (c ∷ s) =
    let rest = lines_from (c == 13) s in
    if cr && c == 10 then rest else if is_break c then [] ∷ rest else cons_line c rest

-- The value that a line gives, by each pattern of _KEY_PATTERNS in turn.
abbrev value_after : Text → Text → Option Text → Option Text
value_after key line otherwise =
    if starts_with key line then some (drop (length key) line) else otherwise

unfoldable pub value_of : Text → Option Text
unfolding starts_with
value_of line =
    value_after (codes "OPTION_225=") line
      (value_after (codes "PRIVATE_225=") line (value_after (codes "VENDOR_OPTION_225=") line none))

abbrev or_else : Option Text → Option Text → Option Text
or_else none o = o
or_else (some v) o = some v

unfoldable pub first_value : List Text → Option Text
unfolding value_of strip
first_value [] = none
first_value (line ∷ lines) = or_else (value_of (strip line)) (first_value lines)

-- The option that a lease carries.
unfoldable pub option_of : Text → Option Text
unfolding first_value lines_from
option_of content = first_value (lines_from false content)

pub record Discovery : Type 0 where
  pub url : Text
  pub detail : Text

module _ (u : Unicode) (is_printable : ℕ → Bool) (repr : Json → Text) where
  abbrev pub parsed : Text → Text → Discovery
  parsed value [] = record {
    url = [];
    detail = codes "DHCP option 225: unusable value " ++ repr (str value);
  }
  parsed value (c ∷ url) = record { url = c ∷ url; detail = codes "DHCP option 225: " ++ c ∷ url }

  unfoldable pub offered : Text → Result Discovery
  offered value = do url ← parse_option is_printable u value; ok (parsed value url)

  abbrev absent : ℕ → Discovery
  absent zero = record { url = []; detail = codes "DHCP option 225: not offered on this network" }
  absent (suc n) = record {
    url = [];
    detail = codes "DHCP option 225: lease unreadable — is network-setup-observe connected?";
  }

  abbrev pub offered_or : Option Text → Result Discovery → Result Discovery
  offered_or none r = r
  offered_or (some value) r = offered value

  -- The loop over the leases, by how many were unreadable so far.
  unfoldable pub walk : ℕ → List (Option Text) → Result Discovery
  unfolding option_of
  walk unreadable [] = ok (absent unreadable)
  walk unreadable (none ∷ leases) = walk (suc unreadable) leases
  walk unreadable (some content ∷ leases) = offered_or (option_of content) (walk unreadable leases)

  unfoldable pub describe : List (Option (List Entry)) → Result Discovery
  unfolding lease_files walk
  describe dirs =
      if is_empty (lease_files dirs)
      then ok (record { url = []; detail = codes "DHCP option 225: no lease found" })
      else walk 0 (lease_files dirs)

  unfoldable pub discover_server_url : List (Option (List Entry)) → Result Text
  unfolding describe
  discover_server_url dirs = do d ← describe dirs; ok d.url
