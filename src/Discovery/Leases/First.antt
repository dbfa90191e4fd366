-- ===== src/Discovery/Leases/First.antt =====
-- Which lease decides what describe of discovery.py returns.
use visiontak_client.Prelude.{
  ℕ, zero, suc, ◌≡◌, refl, sym, ap, Bool, true, Option, none, some, List, [], ◌∷◌, ◌++◌, Text,
  is_empty, if_keeps, ◌⊎◌, inl, inr,
}
use visiontak_client.Python.{Unicode, Result, ok, raise, ◌>>=◌, ok-injective}
use visiontak_client.Json.{Json}
use visiontak_client.Config.Address.Shape.{IsAddress, normalise_server_url-IsAddress}
use visiontak_client.Discovery.Payload.{parse_option, decode}
use visiontak_client.Discovery.Leases.{
  Entry, lease_files, option_of, Discovery, offered, offered_or, parsed, walk, describe,
  discover_server_url,
}

-- None of the leases can be read and carries the option.
abbrev pub IsSilent : List (Option Text) → Type 0
IsSilent [] = Unit
IsSilent (none ∷ leases) = IsSilent leases
IsSilent (some content ∷ leases) = (option_of content ≡ none) × IsSilent leases

IsSilent-empty : (leases : List (Option Text)) → is_empty leases ≡ true → IsSilent leases
IsSilent-empty [] e = tt
IsSilent-empty (l ∷ leases) e = cc e

module _ (u : Unicode) (is_printable : ℕ → Bool) (repr : Json → Text) where
  -- The option decides: an address, or nothing, or the exception that its parsing raises.
  abbrev pub IsDecided : Text → Result Text → Type 0
  IsDecided value (ok url) =
      (parse_option is_printable u value ≡ ok url) × ((url ≡ []) ⊎ IsAddress u url)
  IsDecided value (raise e) = parse_option is_printable u value ≡ raise e

  abbrev pub IsDiscovered : List (Option Text) → Result Text → Type 0
  IsDiscovered leases r =
      (IsSilent leases × (r ≡ ok []))
      ⊎ ((before after : List (Option Text)) × ((content value : Text) × ((leases
                ≡ before ++ some content ∷ after)
              × (IsSilent before × ((option_of content ≡ some value) × IsDecided value r)))))

  parse_option-IsAddress :
      (value url : Text) → parse_option is_printable u value ≡ ok url → (url ≡ []) ⊎ IsAddress u url
  unfolding parse_option
  parse_option-IsAddress value url =
      if_keeps (λ (r : Result Text). r ≡ ok url → (url ≡ []) ⊎ IsAddress u url)
        (is_empty (decode is_printable value)) (λ t e. inl (sym (ok-injective e)))
        (λ t e. normalise_server_url-IsAddress u (decode is_printable value) url e)

  decided :
      (value : Text) (r : Result Text)
      → parse_option is_printable u value ≡ r
      → IsDecided value ((r >>= λ url. ok (parsed u is_printable repr value url)) >>= λ d. ok d.url)
  decided value (raise e) q = q
  decided value (ok []) q = (q, inl refl)
  decided value (ok (c ∷ url)) q = (q, parse_option-IsAddress value (c ∷ url) q)

  offered-IsDecided :
      (value : Text) → IsDecided value (offered u is_printable repr value >>= λ d. ok d.url)
  unfolding offered
  offered-IsDecided value = decided value (parse_option is_printable u value) refl

  found :
      (content : Text) (leases : List (Option Text)) (o : Option Text) (r : Result Discovery)
      → option_of content ≡ o
      → IsDiscovered leases (r >>= λ d. ok d.url)
      → IsDiscovered (some content ∷ leases) (offered_or u is_printable repr o r >>= λ d. ok d.url)
  found content leases (some value) r q h =
      inr ([], leases, (content, value, (refl, (tt, (q, offered-IsDecided value)))))
  found content leases none r q (inl (s, e)) = inl ((q, s), e)
  found content leases none r q (inr (before, after, (c, value, (e, (s, (o, d)))))) =
      inr (
        some content ∷ before,
        after,
        (c, value, (ap (λ ls. some content ∷ ls) e, ((q, s), (o, d)))),
      )

  skipped :
      (leases : List (Option Text)) (r : Result Text)
      → IsDiscovered leases r
      → IsDiscovered (none ∷ leases) r
  skipped leases r (inl (s, e)) = inl (s, e)
  skipped leases r (inr (before, after, (c, value, (e, (s, (o, d)))))) =
      inr (none ∷ before, after, (c, value, (ap (λ ls. none ∷ ls) e, (s, (o, d)))))

  walk-IsDiscovered :
      (n : ℕ) (leases : List (Option Text))
      → IsDiscovered leases (walk u is_printable repr n leases >>= λ d. ok d.url)
  unfolding walk
  walk-IsDiscovered zero [] = inl (tt, refl)
  walk-IsDiscovered (suc n) [] = inl (tt, refl)
  walk-IsDiscovered n (none ∷ leases) = skipped leases _ (walk-IsDiscovered (suc n) leases)
  walk-IsDiscovered n (some content ∷ leases) =
      found content leases (option_of content) (walk u is_printable repr n leases) refl
        (walk-IsDiscovered n leases)

  -- discover_server_url goes by the first of the leases, in the order of _lease_files, that can be
  -- read and carries the option, even if its value is unusable: it returns a checked address or an
  -- empty text, or raises what the parsing of the value raises. Where no lease carries the option it
  -- returns an empty text.
  pub discover_server_url-IsDiscovered :
      (dirs : List (Option (List Entry)))
      → IsDiscovered (lease_files dirs) (discover_server_url u is_printable repr dirs)
  unfolding discover_server_url describe
  discover_server_url-IsDiscovered dirs =
      if_keeps (λ (r : Result Discovery). IsDiscovered (lease_files dirs) (r >>= λ d. ok d.url))
        (is_empty (lease_files dirs)) (λ e. inl (IsSilent-empty (lease_files dirs) e, refl))
        (λ e. walk-IsDiscovered 0 (lease_files dirs))
