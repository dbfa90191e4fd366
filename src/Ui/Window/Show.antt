-- ===== src/Ui/Window/Show.antt =====
-- src/visiontak_client/ui/kiosk_window.py: what is shown. show_index, set_dashboards and the signals of
-- a web view that loads.
use visiontak_client.Prelude.{
  ℕ, suc, Bool, false, not, ◌&&◌, ◌||◌, Option, none, some, List, [], ◌∷◌, ◌++◌, map, Text, codes,
  text_eq, ℤ, pos, negsuc, mod_ℤ, if◌then◌else◌, length, get_elem?, is_empty, insert, discard,
}
use visiontak_client.Python.{Unicode}
use visiontak_client.Platform.{Platform}
use visiontak_client.Models.{Dashboard}
use visiontak_client.Ui.Menu
use visiontak_client.Ui.Menu.{Menu}
use visiontak_client.Ui.Pool.{placeholder, web_view, set_visible_child, view_for, drop_stale_views}
use visiontak_client.Ui.Policy
use visiontak_client.Ui.Policy.{HostAllowlist}
use visiontak_client.Ui.Window.{Window, current_dashboard, toast, sync_loading, update_info}

-- The position of the first dashboard with an id, counted from `i`.
unfoldable pub index_of : Text → ℕ → List Dashboard → Option ℕ
index_of id i [] = none
index_of id i (d ∷ ds) = if text_eq d.id id then some i else index_of id (suc i) ds

-- Where the window goes when the list changes: back to the previous dashboard, or to the first.
unfoldable pub next_index : Option Dashboard → List Dashboard → ℕ
next_index none ds = 0
next_index (some d) ds = elim (index_of d.id 0 ds) [ none ↦ 0 | some i ↦ i ]

-- _on_load_changed, by whether the event is STARTED, FINISHED or another.
unfoldable pub on_load_started : Text → Window → Window
on_load_started id w =
    sync_loading (record w { pool = record w.pool { loading_ids = insert id w.pool.loading_ids } })

unfoldable pub on_load_finished : Text → Window → Window
on_load_finished id w =
    sync_loading (record w { pool = record w.pool { loading_ids = discard id w.pool.loading_ids } })

-- The dashboards before the first at whose URL allow() raises.
unfoldable pub accepted : Platform → List Dashboard → List Dashboard
accepted p [] = []
accepted p (d ∷ ds) = if Policy.allow_raises p d.url then [] else d ∷ accepted p ds

unfoldable pub any_refused : Platform → List Dashboard → Bool
any_refused p [] = false
any_refused p (d ∷ ds) = Policy.allow_raises p d.url || any_refused p ds

-- Whether set_dashboards raises the ValueError of urlparse.
unfoldable pub set_dashboards_raises : Platform → List Dashboard → Window → Bool
set_dashboards_raises p ds w = not w.needs_setup && any_refused p ds

module _ (u : Unicode) (p : Platform) where
  -- The lines of show_index after the index is reduced; it is in range, so there is a dashboard.
  unfoldable pub show_at : ℕ → Option Dashboard → Window → Window
  show_at i none w = w
  show_at i (some d) w = update_info u p (
      sync_loading (record w {
        current = pos i;
        pool =
            set_visible_child (web_view d.id)
              (view_for w.config.max_live_views (some d.id) d w.pool);
      }))

  unfoldable pub show_index : ℤ → Window → Window
  show_index index w =
      if is_empty w.dashboards
      then w
      else let i = mod_ℤ index (length w.dashboards) in show_at i (get_elem? w.dashboards i) w

  unfoldable pub allow_dashboards : List Dashboard → HostAllowlist → HostAllowlist
  allow_dashboards [] a = a
  allow_dashboards (d ∷ ds) a = allow_dashboards ds (Policy.allow u p d.url a)

  -- set_dashboards, with keep_current as every caller leaves it. Where a URL is refused it has taken
  -- the dashboards and the hosts before that one, and nothing else.
  unfoldable pub set_dashboards : List Dashboard → Window → Window
  set_dashboards ds w =
      let taken = record w {
        dashboards = ds;
        allowlist = allow_dashboards ds w.allowlist;
        menu = Menu.set_dashboards ds w.menu;
        pool = drop_stale_views (map (λ d. d.id) ds) w.pool;
      } in
      if w.needs_setup
      then w
      else if any_refused p ds
      then record w { dashboards = ds; allowlist = allow_dashboards (accepted p ds) w.allowlist }
      else if is_empty ds
      then toast (codes "No dashboards available")
          (record taken { pool = set_visible_child placeholder taken.pool; current = negsuc 0 })
      else show_index (pos (next_index (current_dashboard w) ds)) taken

  unfoldable pub host_or_uri : Text → Text
  host_or_uri uri = elim (p.urlparse uri).hostname [
    | none ↦ uri
    | some h ↦ if is_empty h then uri else h
  ]

  -- Without the toast where urlparse refuses the address.
  unfoldable pub on_load_failed : Text → Window → Window
  on_load_failed uri w =
      let cleared : Window = elim (current_dashboard w) [
        | none ↦ w
        | some d ↦ on_load_finished d.id w
      ] in
      if p.refuses uri
      then cleared
      else toast (codes "Could not load " ++ host_or_uri uri ++ codes " — retrying") cleared
