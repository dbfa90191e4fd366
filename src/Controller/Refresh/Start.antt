-- ===== src/Controller/Refresh/Start.antt =====
-- The dashboard that controller.py shows first.
use visiontak_client.Prelude.{
  ℕ, suc, ◌+◌, ◌%◌, ◌<◌, ◌≡◌, refl, arith, sym, ◌∙◌, ap, Bool, true, false, ◌&&◌, Option, none,
  some, List, [], ◌∷◌, map, Text, ℤ, pos, text_eq, text_eq_iff, contains, length, get_elem?,
  is_empty, if_keeps, not, Bool-cases, inl, inr, ◌⊎◌,
}
use mathlib.Core.Path.{subst}
use visiontak_client.Python.{Unicode}
use visiontak_client.Platform.{Platform}
use visiontak_client.Models.{Dashboard}
use visiontak_client.Api.{ClientConfig}
use visiontak_client.Ui.Window.{
  Window, dashboard_at, current_dashboard, sync_loading, update_info, toast,
}
use visiontak_client.Ui.Window.Show.{
  any_refused, set_dashboards_raises, show_at, show_index, set_dashboards, index_of,
}
use visiontak_client.Controller.{Kiosk}
use visiontak_client.Controller.Refresh.{wanted, select_start_dashboard, apply, start_at}

-- The index of an id that is listed.
index_of-finds :
    (id : Text) (j : ℕ) (ds : List Dashboard)
    → contains id (map (λ d. d.id) ds) ≡ true
    → (i : ℕ) × ((index_of id j ds ≡ some (i + j))
        × ((i < length ds) × ((d : Dashboard) × ((get_elem? ds i ≡ some d) × (d.id ≡ id)))))
unfolding index_of contains
index_of-finds id j [] c = cc c
index_of-finds id j (d ∷ ds) c = elim (Bool-cases (text_eq d.id id)) [
  | inl e ↦
      (0, (rw e (ap some (omega arith)), (omega arith, (d, (refl, (text_eq_iff d.id id).0 e)))))
  | inr e ↦
      let (i, (f, (lt, found))) = index_of-finds id (suc j) ds (rw e at c) in
      (suc i, (rw e (f ∙ ap some (omega arith)), (omega arith, found)))
]

not_empty : (ds : List Dashboard) (i : ℕ) → i < length ds → is_empty ds ≡ false
not_empty [] i h = elim h [ ]
not_empty (d ∷ ds) i h = refl

some_listed :
    (id : Text) (ds : List Dashboard)
    → contains id (map (λ d. d.id) ds) ≡ true
    → is_empty ds ≡ false
unfolding contains
some_listed id [] c = cc c
some_listed id (d ∷ ds) c = refl

empty_of : (b : Bool) (ds : List Dashboard) → (b && is_empty ds) ≡ true → is_empty ds ≡ true
empty_of b ds e = ground (arith, e)

-- Where a kiosk starts: with the dashboard of its own settings, or, if they name none, with that of
-- the server.
abbrev pub IsStart : Text → Option Text → Text → Type 0
IsStart start default id =
    (is_empty id ≡ false) × ((start ≡ id) ⊎ ((start ≡ []) × (default ≡ some id)))

wanted_start :
    (start : Text) (default : Option Text) (id : Text)
    → IsStart start default id
    → wanted start default ≡ some id
unfolding wanted
wanted_start start default id (n, inl e) = rw (e, n) refl
wanted_start start default id (n, inr (e, f)) = rw (e, f, n) refl

module _ (u : Unicode) (p : Platform) where
  abbrev Lists : Window → List Dashboard → Type 0
  Lists w ds = w.dashboards ≡ ds

  dashboards-show_at :
      (i : ℕ) (o : Option Dashboard) (w : Window) → (show_at u p i o w).dashboards ≡ w.dashboards
  unfolding show_at sync_loading update_info
  dashboards-show_at i none w = refl
  dashboards-show_at i (some d) w =
      if_keeps (λ (v : Window). v.dashboards ≡ w.dashboards) w.info_visible (λ q. refl) (λ q. refl)

  dashboards-show_index : (i : ℤ) (w : Window) → (show_index u p i w).dashboards ≡ w.dashboards
  unfolding show_index
  dashboards-show_index i w =
      if_keeps (λ (v : Window). v.dashboards ≡ w.dashboards) (is_empty w.dashboards) (λ e. refl)
        (λ e. dashboards-show_at _ _ w)

  -- The new list is taken over.
  dashboards-set_dashboards :
      (ds : List Dashboard) (w : Window)
      → w.needs_setup ≡ false
      → (set_dashboards u p ds w).dashboards ≡ ds
  unfolding set_dashboards toast
  dashboards-set_dashboards ds w s =
      if_keeps (λ (v : Window). v.dashboards ≡ ds) w.needs_setup (λ e. cc (s, e))
        (λ e.
          if_keeps (λ (v : Window). v.dashboards ≡ ds) (any_refused p ds) (λ q. refl)
            (λ q.
              if_keeps (λ (v : Window). v.dashboards ≡ ds) (is_empty ds) (λ q. refl)
                (λ q. dashboards-show_index _ _)))

  current-show_at :
      (i : ℕ) (d : Dashboard) (w : Window)
      → get_elem? w.dashboards i ≡ some d
      → current_dashboard (show_at u p i (some d) w) ≡ some d
  unfolding show_at sync_loading update_info current_dashboard
  current-show_at i d w e =
      if_keeps (λ (v : Window). dashboard_at v.current v.dashboards ≡ some d) w.info_visible
        (λ q. e) (λ q. e)

  current-show_index :
      (i : ℕ) (d : Dashboard) (w : Window)
      → get_elem? w.dashboards i ≡ some d
      → i < length w.dashboards
      → current_dashboard (show_index u p (pos i) w) ≡ some d
  unfolding show_index
  current-show_index i d w e lt =
      let P = λ (v : Window). current_dashboard v ≡ some d in
      let small : i % length w.dashboards ≡ i = grind arith in
      if_keeps P (is_empty w.dashboards) (λ q. cc (q, not_empty w.dashboards i lt))
        (λ q.
          subst (λ n. P (show_at u p n (get_elem? w.dashboards n) w)) (sym small)
            (rw e (current-show_at i d w e)))

  start_at-shows :
      (id : Text) (k : Kiosk)
      → contains id (map (λ d. d.id) k.window.dashboards) ≡ true
      → (d : Dashboard) × ((current_dashboard (start_at u p (some id) k).window ≡ some d)
          × (d.id ≡ id))
  start_at-shows id k c =
      let (i, (f, (lt, (d, (e, same))))) = index_of-finds id 0 k.window.dashboards c in
      let at : index_of id 0 k.window.dashboards ≡ some i = f ∙ ap some (omega arith) in
      (d, (rw at (current-show_index i d k.window e lt), same))

  -- When the first dashboards arrive, from the server or from the cache, the one that the settings
  -- name as the start is shown, or else, if they name none, the one that the server names; provided it is among
  -- them, the setup screen is not up and urlparse refuses the address of none of them.
  pub apply-shows_start :
      (from_cache : Bool) (c : ClientConfig) (id : Text) (k : Kiosk)
      → k.window.needs_setup ≡ false
      → is_empty k.window.dashboards ≡ true
      → IsStart k.config.start_dashboard c.default_id id
      → contains id (map (λ d. d.id) c.dashboards) ≡ true
      → any_refused p c.dashboards ≡ false
      → (d : Dashboard) × ((current_dashboard (apply u p from_cache c k).window ≡ some d)
          × (d.id ≡ id))
  unfolding apply select_start_dashboard set_dashboards_raises
  apply-shows_start from_cache c id k s n w m a =
      let P =
        λ (j : Kiosk). (d : Dashboard) × ((current_dashboard j.window ≡ some d) × (d.id ≡ id)) in
      if_keeps P (from_cache && is_empty c.dashboards)
        (λ e. cc (some_listed id c.dashboards m, empty_of from_cache c.dashboards e))
        (λ e.
          if_keeps P
            (is_empty k.window.dashboards && not (set_dashboards_raises p c.dashboards k.window))
            (λ q. rw (wanted_start k.config.start_dashboard c.default_id id w) (
              start_at-shows id
                (record k {
                  server_default = c.default_id;
                  window = set_dashboards u p c.dashboards k.window;
                })
                (rw (dashboards-set_dashboards c.dashboards k.window s) m)))
            (λ q. ground (arith, q, n, a)))
