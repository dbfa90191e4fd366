-- ===== src/Ui/Window/Invariant.antt =====
-- The invariant of the window of ui/kiosk_window.py: what is on screen is the current dashboard, its web
-- view is alive, no more views live than allowed, and the chooser lists the same dashboards.
use visiontak_client.Prelude.{
  ℕ, zero, suc, ◌≤◌, ◌≡◌, refl, ap, Bool, true, false, Option, none, some, List, [], ◌∷◌, map, Text,
  text_eq_iff, text_eq_refl, ℤ, pos, mod_ℤ, mod_ℤ-lt, arith, if_keeps, length, get_elem?,
  get_elem?-eq-some, is_empty, contains, has_key, has_key_of_lookup, Bool-cases, inl, inr,
}
use visiontak_client.Python.{Unicode}
use visiontak_client.Platform.{Platform}
use visiontak_client.Config.{Config}
use visiontak_client.Models.{Dashboard}
use visiontak_client.Ui.Menu.{Menu}
use visiontak_client.Ui.Menu.Laws as MenuLaws
use visiontak_client.Ui.Pool.{Pool, setup_screen, web_view, set_visible_child, view_for, live_limit}
use visiontak_client.Ui.Pool.Shape
use visiontak_client.Ui.Pool.Eviction.{view_for_alive, view_for-le-limit, has_key-view_for}
use visiontak_client.Ui.Window.{Window, dashboard_at, current_dashboard, update_info, sync_loading}
use visiontak_client.Ui.Window.Show.{show_at, show_index}

-- The fields that the invariant is about.
pub record Core : Type 0 where
  pub config : Config
  pub dashboards : List Dashboard
  pub pool : Pool
  pub current : ℤ
  pub menu : Menu
  pub needs_setup : Bool
  pub loading_visible : Bool

abbrev pub core : Window → Core
core w = record {
  config = w.config;
  dashboards = w.dashboards;
  pool = w.pool;
  current = w.current;
  menu = w.menu;
  needs_setup = w.needs_setup;
  loading_visible = w.loading_visible;
}

abbrev pub ids : List Dashboard → List Text
ids = map (λ d. d.id)

-- What is on screen for the current dashboard; there is none only if the list is empty.
abbrev pub Showing : Option Dashboard → List Dashboard → Pool → Bool → Type 0
Showing none ds pool cover = ds ≡ []
Showing (some d) ds pool cover =
    (pool.visible ≡ some (web_view d.id))
    × (has_key d.id pool.views ≡ true)
    × (cover ≡ contains d.id pool.loading_ids)

-- What holds also between the steps of one method.
pub record IsSound (config : Config) (dashboards : List Dashboard) (pool : Pool) (menu : Menu)
    : Type 0 where
  pub pool_valid : Shape.IsValid pool
  pub few : length pool.views ≤ live_limit config.max_live_views
  pub menu_valid : MenuLaws.IsValid menu
  pub menu_same : menu.dashboards ≡ dashboards
  -- every live view belongs to a listed dashboard
  pub live : (k : Text) → has_key k pool.views ≡ true → contains k (ids dashboards) ≡ true

abbrev pub Sound : Core → Type 0
Sound c = IsSound c.config c.dashboards c.pool c.menu

pub record IsReady (c : Core) : Type 0 where
  pub sound : Sound c
  pub in_setup : c.needs_setup ≡ true → (c.dashboards ≡ []) × (c.pool.visible ≡ some setup_screen)
  pub shown : Showing (dashboard_at c.current c.dashboards) c.dashboards c.pool c.loading_visible

-- The invariant of a window.
abbrev pub IsValid : Window → Type 0
IsValid w = IsReady (core w)

contains-ids :
    (ds : List Dashboard) (i : ℕ) (d : Dashboard)
    → get_elem? ds i ≡ some d
    → contains d.id (ids ds) ≡ true
unfolding contains
contains-ids [] i d h = cc
contains-ids (e ∷ ds) zero d h = ground (arith, text_eq_refl d.id)
contains-ids (e ∷ ds) (suc i) d h = ground (arith, contains-ids ds i d h)

-- The core after a dashboard is shown.
abbrev shown_core : ℕ → Dashboard → Core → Core
shown_core i d c =
    let pool =
      set_visible_child (web_view d.id) (view_for c.config.max_live_views (some d.id) d c.pool) in
    record c { current = pos i; pool = pool; loading_visible = contains d.id pool.loading_ids }

shown_core-IsReady :
    (i : ℕ) (d : Dashboard) (c : Core)
    → Sound c
    → c.needs_setup ≡ false
    → get_elem? c.dashboards i ≡ some d
    → IsReady (shown_core i d c)
unfolding set_visible_child
shown_core-IsReady i d c h n e =
    let alive = view_for_alive c.config.max_live_views d c.pool in
    record {
      sound = record {
        pool_valid =
            Shape.set_visible_child-IsValid (web_view d.id)
              (view_for c.config.max_live_views (some d.id) d c.pool)
              (Shape.view_for-IsValid c.config.max_live_views (some d.id) d c.pool h.pool_valid);
        few = view_for-le-limit c.config.max_live_views d c.pool h.pool_valid h.few;
        menu_valid = h.menu_valid;
        menu_same = h.menu_same;
        live = λ k q. ground (
          arith,
          has_key-view_for c.config.max_live_views d c.pool k h.pool_valid q,
          h.live k,
          text_eq_iff d.id k,
          contains-ids c.dashboards i d e,
        );
      };
      in_setup = λ s. cc (s, n);
      shown = rw e (refl, has_key_of_lookup d.id _ alive.0 alive.1, refl);
    }

-- A window with dashboards is past its setup.
pub not_setup : (w : Window) → IsValid w → is_empty w.dashboards ≡ false → w.needs_setup ≡ false
not_setup w h e = elim (Bool-cases w.needs_setup) [
  | inl s ↦ cc (e, ap is_empty (h.in_setup s).0)
  | inr s ↦ s
]

pub core-sync_loading :
    (w : Window) (d : Dashboard)
    → current_dashboard w ≡ some d
    → core (sync_loading w) ≡ record (core w) { loading_visible = contains d.id w.pool.loading_ids }
unfolding sync_loading
core-sync_loading w d e = rw (e, sync_loading) refl

module _ (u : Unicode) (p : Platform) where
  pub core-update_info : (w : Window) → core (update_info u p w) ≡ core w
  unfolding update_info
  core-update_info w = if_keeps (λ v. core v ≡ core w) w.info_visible (λ e. refl) (λ e. refl)

  core-show_at :
      (i : ℕ) (d : Dashboard) (w : Window)
      → get_elem? w.dashboards i ≡ some d
      → core (show_at u p i (some d) w) ≡ shown_core i d (core w)
  unfolding show_at set_visible_child
  core-show_at i d w e = rw core-update_info (core-sync_loading _ d (unfold current_dashboard in e))

  -- Showing an index makes a sound window ready.
  pub show_index-IsReady :
      (index : ℤ) (w : Window)
      → Sound (core w)
      → w.needs_setup ≡ false
      → is_empty w.dashboards ≡ false
      → IsValid (show_index u p index w)
  unfolding show_index
  show_index-IsReady index w h n e =
      let i = mod_ℤ index (length w.dashboards) in
      let inside = mod_ℤ-lt index (length w.dashboards) (MenuLaws.length-pos w.dashboards e) in
      let (d, found) = get_elem?-eq-some w.dashboards i inside in
      rw (e, found, core-show_at i d w found) (shown_core-IsReady i d (core w) h n found)

  -- Showing an index keeps a ready window ready.
  pub show_index-IsValid : (index : ℤ) (w : Window) → IsValid w → IsValid (show_index u p index w)
  show_index-IsValid index w h = elim (Bool-cases (is_empty w.dashboards)) [
    | inl e ↦ unfold show_index in rw e h
    | inr e ↦ show_index-IsReady index w h.sound (not_setup w h e) e
  ]
