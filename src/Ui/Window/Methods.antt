-- ===== src/Ui/Window/Methods.antt =====
-- Every method of the window of ui/kiosk_window.py keeps the window's invariant.
use visiontak_client.Prelude.{
  ℕ, ◌≡◌, refl, ◌∙◌, Bool, true, false, Option, none, some, List, [], ◌∷◌, ◌++◌, Text, ℤ, pos,
  negsuc, ◌+ℤ◌, ltb, arith, if_keeps, length, is_empty, lookup, Option-cases, inl, inr, insert,
  discard,
}
use visiontak_client.Python.{Unicode}
use visiontak_client.Platform.{Platform}
use visiontak_client.Models.{Dashboard}
use visiontak_client.Actions.{Action, AnyAction, plain, digit}
use visiontak_client.Ui.Menu
use visiontak_client.Ui.Menu.{Menu}
use visiontak_client.Ui.Menu.Laws as MenuLaws
use visiontak_client.Ui.Pool.{Pool, placeholder, set_visible_child, drop_stale_views, reload}
use visiontak_client.Ui.Pool.Shape
use visiontak_client.Ui.Pool.Eviction.{has_key-drop_stale_views, length-drop_stale_views-le}
use visiontak_client.Ui.Window.{
  Window, dashboard_at, current_dashboard, update_info, sync_loading, toast, leave_setup,
  toggle_info, set_status,
}
use visiontak_client.Ui.Window.Show.{
  any_refused, set_dashboards, on_load_started, on_load_finished, on_load_failed, next_index,
  allow_dashboards,
}
use visiontak_client.Ui.Window.Handle.{
  toast_name, on_menu, menu_index, menu_step, on_menu_activate, activate_selected, activate, step,
  jump_to_digit, set_blanked, reload_current, handle_plain, handle_action, digit_index,
}
use visiontak_client.Ui.Window.Invariant.{
  core, ids, Showing, Sound, IsValid, core-update_info, core-sync_loading, show_index-IsReady,
  show_index-IsValid,
}

pub toast-IsValid : (message : Text) (w : Window) → IsValid w → IsValid (toast message w)
unfolding toast
toast-IsValid message w h = record { sound = h.sound; in_setup = h.in_setup; shown = h.shown }

pub toast_name-IsValid : (o : Option Dashboard) (w : Window) → IsValid w → IsValid (toast_name o w)
unfolding toast_name
toast_name-IsValid none w h = h
toast_name-IsValid (some d) w h = toast-IsValid d.name w h

-- A method of the chooser that keeps its invariant and its dashboards.
on_menu-IsValid :
    (f : Menu → Menu) (w : Window)
    → (MenuLaws.IsValid w.menu → MenuLaws.IsValid (f w.menu))
    → (f w.menu).dashboards ≡ w.menu.dashboards
    → IsValid w
    → IsValid (on_menu f w)
unfolding on_menu
on_menu-IsValid f w keeps same h = record {
  sound = record {
    pool_valid = h.sound.pool_valid;
    few = h.sound.few;
    menu_valid = keeps h.sound.menu_valid;
    menu_same = same ∙ h.sound.menu_same;
    live = h.sound.live;
  };
  in_setup = h.in_setup;
  shown = h.shown;
}

module _ (l : List Text) where
  abbrev with_loading : Window → Window
  with_loading w = record w { pool = record w.pool { loading_ids = l } }

  with_loading-IsValid : (p : Pool) → Shape.IsValid p → Shape.IsValid (record p { loading_ids = l })
  with_loading-IsValid p h = record {
    order_distinct = h.order_distinct;
    keys_distinct = h.keys_distinct;
    same = h.same;
    stacked = h.stacked;
    balanced = h.balanced;
  }

  with_loading-IsSound : (w : Window) → Sound (core w) → Sound (core (with_loading w))
  with_loading-IsSound w h = record {
    pool_valid = with_loading-IsValid w.pool h.pool_valid;
    few = h.few;
    menu_valid = h.menu_valid;
    menu_same = h.menu_same;
    live = h.live;
  }

  loading_none :
      (w : Window)
      → dashboard_at w.current w.dashboards ≡ none
      → IsValid w
      → IsValid (sync_loading (with_loading w))
  unfolding sync_loading
  loading_none w e h =
      let nothing : Showing none w.dashboards w.pool w.loading_visible = rw e at h.shown in
      record { sound = with_loading-IsSound w h.sound; in_setup = h.in_setup; shown = rw e nothing }

  loading_some :
      (d : Dashboard) (w : Window)
      → dashboard_at w.current w.dashboards ≡ some d
      → IsValid w
      → IsValid (sync_loading (with_loading w))
  loading_some d w e h =
      let shown : Showing (some d) w.dashboards w.pool w.loading_visible = rw e at h.shown in
      rw (core-sync_loading (with_loading w) d (unfold current_dashboard in e)) (record {
        sound = with_loading-IsSound w h.sound;
        in_setup = h.in_setup;
        shown = rw e (shown.0, shown.1, refl);
      })

dashboard_at-nil : (c : ℤ) (ds : List Dashboard) → ds ≡ [] → dashboard_at c ds ≡ none
dashboard_at-nil (pos i) ds e = rw e refl
dashboard_at-nil (negsuc n) ds e = refl

module _ (w : Window) (h : IsValid w) where
  close-IsValid : IsValid (on_menu Menu.close w)
  close-IsValid =
      on_menu-IsValid Menu.close w (MenuLaws.close-IsValid w.menu) (unfold Menu.close in refl) h

  open_at-IsValid : (i : ℕ) → IsValid (on_menu (Menu.open_at i) w)
  open_at-IsValid i =
      on_menu-IsValid (Menu.open_at i) w (MenuLaws.open_at-IsValid w.menu i)
        (MenuLaws.dashboards-open_at w.menu i) h

  toggle-IsValid : (i : ℕ) → IsValid (on_menu (Menu.toggle i) w)
  toggle-IsValid i =
      on_menu-IsValid (Menu.toggle i) w (MenuLaws.toggle-IsValid w.menu i)
        (MenuLaws.dashboards-toggle w.menu i) h

  move-IsValid : (delta : ℤ) → IsValid (on_menu (Menu.move delta) w)
  move-IsValid delta =
      on_menu-IsValid (Menu.move delta) w (MenuLaws.move-IsValid w.menu delta)
        (MenuLaws.dashboards-move w.menu delta) h

  pub menu_step-IsValid : (delta : ℤ) → IsValid (menu_step delta w)
  unfolding menu_step
  menu_step-IsValid delta =
      if_keeps IsValid w.menu.is_open (λ e. move-IsValid delta)
        (λ e. open_at-IsValid (menu_index w))

  pub set_blanked-IsValid : (b : Bool) → IsValid (set_blanked b w)
  unfolding set_blanked
  set_blanked-IsValid b = record { sound = h.sound; in_setup = h.in_setup; shown = h.shown }

  -- Another set of loading ids, once the cover is synchronised with it.
  loading-IsValid :
      (l : List Text)
      → IsValid (sync_loading (record w { pool = record w.pool { loading_ids = l } }))
  loading-IsValid l = elim (Option-cases (dashboard_at w.current w.dashboards)) [
    | inl e ↦ loading_none l w e h
    | inr (d, e) ↦ loading_some l d w e h
  ]

  pub on_load_started-IsValid : (id : Text) → IsValid (on_load_started id w)
  unfolding on_load_started
  on_load_started-IsValid id = loading-IsValid (insert id w.pool.loading_ids)

  pub on_load_finished-IsValid : (id : Text) → IsValid (on_load_finished id w)
  unfolding on_load_finished
  on_load_finished-IsValid id = loading-IsValid (discard id w.pool.loading_ids)

  -- Once the window has left its setup it shows the placeholder, as it has no dashboards yet.
  pub leave_setup-IsValid : IsValid (leave_setup w)
  unfolding leave_setup set_visible_child
  leave_setup-IsValid =
      if_keeps IsValid w.needs_setup
        (λ e.
          let nothing = (h.in_setup e).0 in
          record {
            sound = record {
              pool_valid = Shape.set_visible_child-IsValid placeholder w.pool h.sound.pool_valid;
              few = h.sound.few;
              menu_valid = h.sound.menu_valid;
              menu_same = h.sound.menu_same;
              live = h.sound.live;
            };
            in_setup = λ s. cc s;
            shown = rw (dashboard_at-nil w.current w.dashboards nothing) nothing;
          })
        (λ e. h)

reloaded-IsValid :
    (k : Text) (w : Window)
    → IsValid w
    → IsValid (record w { pool = record w.pool { calls = w.pool.calls ++ reload k ∷ [] } })
reloaded-IsValid k w h = record {
  sound = record {
    pool_valid = Shape.reload-IsValid k w.pool h.sound.pool_valid;
    few = h.sound.few;
    menu_valid = h.sound.menu_valid;
    menu_same = h.sound.menu_same;
    live = h.sound.live;
  };
  in_setup = h.in_setup;
  shown = Showing_calls (dashboard_at w.current w.dashboards) h.shown;
}
  where
    Showing_calls :
        (o : Option Dashboard)
        → Showing o w.dashboards w.pool w.loading_visible
        → Showing o w.dashboards
            (record w.pool { calls = w.pool.calls ++ reload k ∷ [] })
            w.loading_visible
    Showing_calls none s = s
    Showing_calls (some d) s = s

reload_current-IsValid : (w : Window) → IsValid w → IsValid (reload_current w)
unfolding reload_current
reload_current-IsValid w h = elim (Option-cases (current_dashboard w)) [
  | inl e ↦ rw (e, reload_current) h
  | inr (d, e) ↦
      rw (e, reload_current)
        (elim (Option-cases (lookup d.id w.pool.views)) [
          | inl f ↦ rw f h
          | inr (v, f) ↦ rw f (toast-IsValid _ _ (reloaded-IsValid d.id w h))
        ])
]

module _ (u : Unicode) (p : Platform) where
  update_info-IsValid : (w : Window) → IsValid w → IsValid (update_info u p w)
  update_info-IsValid w h = rw core-update_info h

  pub set_status-IsValid : (s : Text) (w : Window) → IsValid w → IsValid (set_status u p s w)
  unfolding set_status
  set_status-IsValid s w h = rw core-update_info h

  toggle_info-IsValid : (w : Window) → IsValid w → IsValid (toggle_info u p w)
  unfolding toggle_info
  toggle_info-IsValid w h = rw core-update_info h

  -- The window of set_dashboards before anything is shown.
  abbrev taken : List Dashboard → Window → Window
  taken ds w = record w {
    dashboards = ds;
    allowlist = allow_dashboards u p ds w.allowlist;
    menu = Menu.set_dashboards ds w.menu;
    pool = drop_stale_views (ids ds) w.pool;
  }

  taken-IsSound : (ds : List Dashboard) (w : Window) → IsValid w → Sound (core (taken ds w))
  taken-IsSound ds w h = record {
    pool_valid = Shape.drop_stale_views-IsValid (ids ds) w.pool h.sound.pool_valid;
    few = omega (arith, length-drop_stale_views-le (ids ds) w.pool, h.sound.few);
    menu_valid = MenuLaws.set_dashboards-IsValid ds w.menu;
    menu_same = MenuLaws.dashboards-set_dashboards ds w.menu;
    live = λ k e. ground (arith, has_key-drop_stale_views (ids ds) k w.pool h.sound.pool_valid, e);
  }

  emptied-IsValid :
      (ds : List Dashboard) (w : Window)
      → IsValid w
      → w.needs_setup ≡ false
      → is_empty ds ≡ true
      → IsValid (record (taken ds w) {
        pool = set_visible_child placeholder (drop_stale_views (ids ds) w.pool);
        current = negsuc 0;
      })
  unfolding set_visible_child
  emptied-IsValid [] w h past e =
      let s = taken-IsSound [] w h in
      record {
        sound = record {
          pool_valid = Shape.set_visible_child-IsValid placeholder _ s.pool_valid;
          few = s.few;
          menu_valid = s.menu_valid;
          menu_same = s.menu_same;
          live = s.live;
        };
        in_setup = λ s. cc (s, past);
        shown = refl;
      }
  emptied-IsValid (d ∷ ds) w h past e = cc e

  pub set_dashboards-IsValid :
      (ds : List Dashboard) (w : Window)
      → any_refused p ds ≡ false
      → IsValid w
      → IsValid (set_dashboards u p ds w)
  unfolding set_dashboards
  set_dashboards-IsValid ds w a h =
      if_keeps IsValid w.needs_setup (λ e. h)
        (λ past.
          if_keeps IsValid (any_refused p ds) (λ e. cc (a, e))
            (λ e.
              if_keeps IsValid (is_empty ds)
                (λ e. toast-IsValid _ _ (emptied-IsValid ds w h past e))
                (λ e.
                  show_index-IsReady u p (pos (next_index (current_dashboard w) ds)) (taken ds w)
                    (taken-IsSound ds w h) past e)))

  pub on_load_failed-IsValid :
      (uri : Text) (w : Window) → IsValid w → IsValid (on_load_failed u p uri w)
  unfolding on_load_failed
  on_load_failed-IsValid uri w h =
      let cleared : IsValid
          (elim (current_dashboard w) [ none ↦ w | some d ↦ on_load_finished d.id w ]) =
        elim (Option-cases (current_dashboard w)) [
          | inl e ↦ rw e h
          | inr (d, e) ↦ rw e (on_load_finished-IsValid w h d.id)
        ] in
      if_keeps IsValid (p.refuses uri) (λ e. cleared) (λ e. toast-IsValid _ _ cleared)

  pub on_menu_activate-IsValid :
      (i : ℕ) (w : Window) → IsValid w → IsValid (on_menu_activate u p i w)
  unfolding on_menu_activate
  on_menu_activate-IsValid i w h = show_index-IsValid u p (pos i) _ (close-IsValid w h)

  activate-IsValid : (w : Window) → IsValid w → IsValid (activate u p w)
  unfolding activate activate_selected
  activate-IsValid w h =
      if_keeps IsValid w.menu.is_open
        (λ e.
          if_keeps IsValid (is_empty w.menu.dashboards) (λ e. h)
            (λ e. on_menu_activate-IsValid w.menu.selected w h))
        (λ e. open_at-IsValid w h (menu_index w))

  step-IsValid : (delta : ℤ) (w : Window) → IsValid w → IsValid (step u p delta w)
  unfolding step
  step-IsValid delta w h =
      if_keeps IsValid w.menu.is_open (λ e. move-IsValid w h delta)
        (λ e.
          if_keeps IsValid (is_empty w.dashboards) (λ e. h)
            (λ e. toast_name-IsValid _ _ (show_index-IsValid u p (w.current +ℤ delta) w h)))

  jump_to_digit-IsValid : (d : ℕ) (w : Window) → IsValid w → IsValid (jump_to_digit u p d w)
  unfolding jump_to_digit
  jump_to_digit-IsValid d w h =
      if_keeps IsValid (ltb (digit_index d) (length w.dashboards))
        (λ e.
          toast_name-IsValid _ _
            (show_index-IsValid u p (pos (digit_index d)) _ (close-IsValid w h)))
        (λ e. h)

  handle_plain-IsValid : (a : Action) (w : Window) → IsValid w → IsValid (handle_plain u p a w)
  unfolding handle_plain
  handle_plain-IsValid Action.menu_toggle w h = toggle-IsValid w h (menu_index w)
  handle_plain-IsValid Action.menu_close w h = close-IsValid w h
  handle_plain-IsValid Action.menu_up w h = menu_step-IsValid w h (negsuc 0)
  handle_plain-IsValid Action.menu_down w h = menu_step-IsValid w h (pos 1)
  handle_plain-IsValid Action.menu_activate w h = activate-IsValid w h
  handle_plain-IsValid Action.dashboard_next w h = step-IsValid (pos 1) w h
  handle_plain-IsValid Action.dashboard_prev w h = step-IsValid (negsuc 0) w h
  handle_plain-IsValid Action.dashboard_reload w h = reload_current-IsValid w h
  handle_plain-IsValid Action.dashboard_home w h = show_index-IsValid u p (pos 0) w h
  handle_plain-IsValid Action.rotate_toggle w h = h
  handle_plain-IsValid Action.info_toggle w h = toggle_info-IsValid w h
  handle_plain-IsValid Action.blank_on w h = set_blanked-IsValid w h true
  handle_plain-IsValid Action.blank_off w h = set_blanked-IsValid w h false

  pub handle_action-IsValid :
      (a : AnyAction) (w : Window) → IsValid w → IsValid (handle_action u p a w)
  unfolding handle_action
  handle_action-IsValid (plain a) w h = handle_plain-IsValid a w h
  handle_action-IsValid (digit d) w h = jump_to_digit-IsValid d w h
