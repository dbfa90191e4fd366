-- ===== src/Tests/DiscoveryTests.antt =====
-- Discovery at a concrete lease.
use visiontak_client.Prelude.{
  ◌≡◌, refl, arith, Bool, true, ◌&&◌, leb, Option, none, some, List, [], ◌∷◌, codes, ℕ,
}
use visiontak_client.Discovery.Payload.{decode}
use visiontak_client.Discovery.Payload.Hex.{hex_of, is_graph, decode-hex_of}
use visiontak_client.Discovery.Leases.{Entry, lease_files, discover_server_url}
use visiontak_client.Discovery.Leases.First.{IsDiscovered, discover_server_url-IsDiscovered}
use visiontak_client.Tests.Samples.{ascii, repr}

abbrev is_shown : ℕ → Bool
is_shown c = leb 32 c && leb c 126

graph_is_shown : (c : ℕ) → is_graph c ≡ true → is_shown c ≡ true
graph_is_shown c e = ground (arith, e)

decode-hex_of_example : decode is_shown (hex_of (codes "10.0.0.5:3000")) ≡ codes "10.0.0.5:3000"
decode-hex_of_example =
    decode-hex_of is_shown (codes "10.0.0.5:3000") graph_is_shown (omega arith) refl

-- A lease that cannot be read, and one with the option.
abbrev leases : List (Option (List Entry))
leases =
    none
    ∷ some (
        record { name = codes "3"; is_file = true; content = some (codes "OPTION_225=10.0.0.5") }
        ∷ record { name = codes "2"; is_file = true; content = none }
        ∷ [])
    ∷ []

discover_server_url-IsDiscovered_example :
    IsDiscovered ascii is_shown repr
      (lease_files leases)
      (discover_server_url ascii is_shown repr leases)
discover_server_url-IsDiscovered_example =
    discover_server_url-IsDiscovered ascii is_shown repr leases
