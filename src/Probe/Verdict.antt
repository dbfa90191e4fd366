-- ===== src/Probe/Verdict.antt =====
-- What the exit code of probe.py says.
use visiontak_client.Prelude.{
  ℕ, ◌≡◌, Option, Bool, true, false, List, [], ◌∷◌, Text, ◌==◌, is_empty, ◌⊎◌, map,
}
use visiontak_client.Python.{Unicode, Result, ok, raise, ◌>>=◌, api_error, auth_error, Exception}
use visiontak_client.Json.{Json}
use visiontak_client.Config.{Config}
use visiontak_client.Models.{view_url}
use visiontak_client.Api.{ClientConfig}
use visiontak_client.Api.Request.{Request, base_url}
use visiontak_client.Probe.{Exposure, Page, fetch_title, page_fails, reported}

-- A list of pages none of which fails, and one in which some page does.
module _ (u : Unicode) (accepts : Text → Bool) (find_title : Text → Option Text)
    (repr : Json → Text) (fetch : Text → Page) where
  -- The page of a dashboard is fetched, and whether it fails.
  abbrev pub IsFetched : Text → Text → Bool → Type 0
  IsFetched base_url id fails =
      (page : Text × Text) × ((fetch_title u accepts find_title repr fetch (view_url base_url id)
          ≡ ok page)
        × (page_fails u accepts find_title repr page ≡ fails))

  abbrev pub AllLoad : Text → List Text → Type 0
  AllLoad base_url [] = Unit
  AllLoad base_url (id ∷ ids) = IsFetched base_url id false × AllLoad base_url ids

  abbrev pub SomeFails : Text → List Text → Type 0
  SomeFails base_url [] = ⊥
  SomeFails base_url (id ∷ ids) = IsFetched base_url id true ⊎ SomeFails base_url ids

  abbrev pub SomeRaises : Exception → Text → List Text → Type 0
  SomeRaises e base_url [] = ⊥
  SomeRaises e base_url (id ∷ ids) =
      (fetch_title u accepts find_title repr fetch (view_url base_url id) ≡ raise e)
      ⊎ SomeRaises e base_url ids

  -- What the count of the failures says.
  abbrev pub IsCount : Text → List Text → Result ℕ → Type 0
  IsCount base_url ids (ok n) =
      (((n == 0) ≡ true) × AllLoad base_url ids) ⊎ (((n == 0) ≡ false) × SomeFails base_url ids)
  IsCount base_url ids (raise e) = SomeRaises e base_url ids

  module _ (first again : Result ClientConfig) (report : Result (List Exposure)) (config : Config)
      (skip : Bool) where
    abbrev pub ids_of : ClientConfig → List Text
    ids_of c = map (λ d. d.id) c.dashboards

    -- Some dashboard is allowed, and the pages load, unless they are skipped.
    abbrev pub IsSound : Type 0
    IsSound =
        (c : ClientConfig) × ((first ≡ ok c)
          × ((is_empty c.dashboards ≡ false)
              × ((skip ≡ true)
                  ⊎ ((c' : ClientConfig) × ((again ≡ ok c')
                        × AllLoad (base_url config) (ids_of c'))))))

    -- The server refuses or fails, or no dashboard is allowed, or a page fails.
    abbrev pub IsFaulty : Type 0
    IsFaulty =
        (first ≡ raise auth_error)
        ⊎ ((first ≡ raise api_error)
            ⊎ ((c : ClientConfig) × ((first ≡ ok c)
                  × ((is_empty c.dashboards ≡ true)
                      ⊎ ((skip ≡ false)
                          × ((c' : ClientConfig) × ((again ≡ ok c')
                                × SomeFails (base_url config) (ids_of c'))))))))

    abbrev pub IsVerdict : Result ℕ → Type 0
    IsVerdict (ok n) = ((n ≡ 0) × IsSound) ⊎ ((n ≡ 1) × IsFaulty)
    IsVerdict (raise e) =
        (first ≡ raise e)
        ⊎ ((again ≡ raise e)
            ⊎ (((c' : ClientConfig) × ((again ≡ ok c')
                    × SomeRaises e (base_url config) (ids_of c')))
                ⊎ (report ≡ raise e)))

    abbrev ended : Result ℕ → Result ℕ
    ended r = r >>= λ t. reported u accepts find_title repr report t
