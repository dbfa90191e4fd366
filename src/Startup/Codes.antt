-- ===== src/Startup/Codes.antt =====
-- The ends of main in __main__.py.
use visiontak_client.Prelude.{
  ◌≡◌, ◌∷◌, [], refl, Bool, true, false, ◌&&◌, Text, is_empty, if_keeps, ◌⊎◌, inl, inr, Option, not,
  ◌||◌, arith, ap, ◌∙◌, sym, contains, leb, length,
}
use visiontak_client.Python.{
  Unicode, Result, ok, raise, ◌>>=◌, json_error, value_error, Exception, Result-cases, ok-injective,
  strip,
}
use mathlib.Core.Path.{subst}
use visiontak_client.Config.{Config}
use visiontak_client.Config.Address.{ensure_device_id, weak_device_ids}
use visiontak_client.Enrol.{discover}
use visiontak_client.Startup.{
  Arguments, Outcome, exits, runs, found_server, first_boot, main, with_display,
}

-- The server that the application runs with: the one that the network offers, which may be none, where
-- the settings name none and let DHCP be asked, and else that of the settings.
abbrev pub IsBooted : Config → Result Text → Config → Type 0
IsBooted cfg offer booted =
    (((is_empty cfg.server_url && cfg.dhcp_discovery) ≡ true) × (offer ≡ ok booted.server_url))
    ⊎ (((is_empty cfg.server_url && cfg.dhcp_discovery) ≡ false)
        × (booted.server_url ≡ cfg.server_url))

both_empty : (s t : Text) → is_empty s ≡ true → is_empty t ≡ true → s ≡ t
both_empty [] [] e f = refl
both_empty [] (c ∷ t) e f = cc f
both_empty (c ∷ s) t e f = cc e

discovered :
    (c booted : Config) (offer : Result Text) (url : Text)
    → (is_empty c.server_url && c.dhcp_discovery) ≡ true
    → offer ≡ ok url
    → (discover url c).0 ≡ booted
    → IsBooted c offer booted
unfolding discover
discovered c booted offer url n o e = subst (IsBooted c offer) e (
    if_keeps (λ (r : Config × Option Text). IsBooted c offer r.0)
      (not (is_empty c.server_url) || is_empty url)
      (λ q.
        inl (n, o ∙ ap ok (both_empty url c.server_url (ground (arith, q, n)) (ground (arith, n)))))
      (λ q. inl (n, o)))

found-IsBooted :
    (c booted : Config) (offer : Result Text)
    → found_server offer c ≡ ok booted
    → IsBooted c offer booted
found-IsBooted c booted offer =
    if_keeps (λ (r : Result Config). r ≡ ok booted → IsBooted c offer booted)
      (is_empty c.server_url && c.dhcp_discovery)
      (λ t e. elim (Result-cases offer) [
        | inl (url, o) ↦ discovered c booted offer url t o (ok-injective (rw o at e))
        | inr (x, o) ↦ cc (rw o at e)
      ])
      (λ t e. inr (t, ap (λ (b : Config). b.server_url) (sym (ok-injective e))))

error_or : Exception → Result Config → Exception
error_or d (raise e) = e
error_or d (ok c) = d

raised : {a b : Exception} → ◌≡◌ {A = Result Config} (raise a) (raise b) → a ≡ b
unfolding error_or
raised {a} e = ap (error_or a) e

found-raises :
    (c : Config) (offer : Result Text) (e : Exception)
    → found_server offer c ≡ raise e
    → offer ≡ raise e
found-raises c offer e =
    if_keeps (λ (r : Result Config). r ≡ raise e → offer ≡ raise e)
      (is_empty c.server_url && c.dhcp_discovery)
      (λ t q. elim (Result-cases offer) [
        | inl (url, o) ↦ cc (rw o at q)
        | inr (x, o) ↦ o ∙ ap raise (raised (rw o at q))
      ])
      (λ t q. cc q)

module _ (u : Unicode) (uuid : Text) (offer : Result Text) where
  -- A fresh id touches no other setting.
  kept_by_id :
      (cfg booted : Config)
      → IsBooted (ensure_device_id u uuid cfg).0 offer booted
      → IsBooted cfg offer booted
  unfolding ensure_device_id
  kept_by_id cfg booted =
      if_keeps (λ (r : Config × Option Text). IsBooted r.0 offer booted → IsBooted cfg offer booted)
        (not (contains (u.lower (strip cfg.device_id)) (weak_device_ids u))
          && leb 8 (length (strip cfg.device_id)))
        (λ t h. h) (λ t h. h)

  first_boot-IsBooted :
      (cfg booted : Config) → first_boot u uuid offer cfg ≡ ok booted → IsBooted cfg offer booted
  unfolding first_boot
  first_boot-IsBooted cfg booted e =
      kept_by_id cfg booted (found-IsBooted (ensure_device_id u uuid cfg).0 booted offer e)

  first_boot-raises :
      (cfg : Config) (e : Exception) → first_boot u uuid offer cfg ≡ raise e → offer ≡ raise e
  unfolding first_boot
  first_boot-raises cfg e q = found-raises (ensure_device_id u uuid cfg).0 offer e q

  module _ (display : Bool) (args : Arguments) where
    -- The ends of main: the code 2 for settings that are refused, 0 for a check that passes, 1
    -- without a display, the application, or an exception.
    abbrev pub IsEnd : Result Config → Result Outcome → Type 0
    IsEnd loaded (ok (exits n)) =
        ((n ≡ 2) × ((loaded ≡ raise value_error) ⊎ (loaded ≡ raise json_error)))
        ⊎ (((cfg : Config) × (loaded ≡ ok cfg))
            × (((n ≡ 0) × (args.check_config ≡ true))
                ⊎ ((n ≡ 1) × ((args.check_config ≡ false) × (display ≡ false)))))
    IsEnd loaded (ok (runs booted)) =
        (args.check_config ≡ false)
        × ((display ≡ true) × ((cfg : Config) × ((loaded ≡ ok cfg) × IsBooted cfg offer booted)))
    IsEnd loaded (raise e) = (loaded ≡ raise e) ⊎ ((args.check_config ≡ false) × (offer ≡ raise e))

    displayed :
        (loaded : Result Config) (cfg booted : Config) (b : Bool)
        → display ≡ b
        → args.check_config ≡ false
        → loaded ≡ ok cfg
        → IsBooted cfg offer booted
        → IsEnd loaded (ok (with_display b booted))
    displayed loaded cfg booted true d c l h = (c, (d, (cfg, (l, h))))
    displayed loaded cfg booted false d c l h = inr ((cfg, l), inr (refl, (c, d)))

    booted-IsEnd :
        (loaded : Result Config) (cfg : Config) (r : Result Config)
        → first_boot u uuid offer cfg ≡ r
        → args.check_config ≡ false
        → loaded ≡ ok cfg
        → IsEnd loaded (r >>= λ booted. ok (with_display display booted))
    booted-IsEnd loaded cfg (ok booted) e c l =
        displayed loaded cfg booted display refl c l (first_boot-IsBooted cfg booted e)
    booted-IsEnd loaded cfg (raise x) e c l = inr (c, first_boot-raises cfg x e)

    -- main returns 2 only for settings that load refuses with a ValueError, a JSONDecodeError among
    -- them; 0 only for a check of settings that load gives, which asks neither the network nor the
    -- display; and 1 only without a compositor. Else the application runs: with the server that is
    -- offered, if the settings name none and let DHCP be asked, and with that of the settings otherwise.
    -- An exception comes from load, or from the offer where no check is asked for.
    pub main-IsEnd : (loaded : Result Config) → IsEnd loaded (main u uuid offer display args loaded)
    unfolding main
    main-IsEnd (ok cfg) =
        if_keeps (IsEnd (ok cfg)) args.check_config (λ c. inr ((cfg, refl), inl (refl, c)))
          (λ c. booted-IsEnd (ok cfg) cfg (first_boot u uuid offer cfg) refl c refl)
    main-IsEnd (raise value_error) = inl (refl, inl refl)
    main-IsEnd (raise json_error) = inl (refl, inr refl)
    main-IsEnd (raise e) = inl refl
