-- ===== src/Tests/WindowTests.antt =====
-- The window, the pool of web views, the chooser and the key map at concrete inputs.
use visiontak_client.Prelude.{
  ℕ, ◌+◌, ◌↔◌, Option, ◌≤◌, ◌≡◌, refl, text_eq, false, ◌&&◌, none, some, List, [], ◌∷◌, ◌++◌, codes,
  pos, negsuc, arith, length, contains, has_key, remove, is_empty, lookup, assign,
}
use visiontak_client.Config.{Config, default_config}
use visiontak_client.Actions.{Action, AnyAction, plain, digit}
use visiontak_client.Ui.Menu
use visiontak_client.Ui.Menu.{Menu}
use visiontak_client.Ui.Menu.Laws as MenuLaws
use visiontak_client.Ui.Pool
use visiontak_client.Ui.Pool.{Pool, View, live_limit, view_for, drop_stale_views}
use visiontak_client.Ui.Pool.Shape
use visiontak_client.Ui.Pool.Eviction.{has_key-drop_stale_views}
use visiontak_client.Ui.Pool.Recency.{keep_last, view_order-view_for}
use visiontak_client.Ui.Policy.{allow_raises}
use visiontak_client.Ui.Window.Show.{any_refused}
use visiontak_client.Ui.Window.Create.{create}
use visiontak_client.Ui.Window.Invariant
use visiontak_client.Ui.Window.Runs.{Call, run, run-IsValid}
use visiontak_client.Python.{ok, strip}
use visiontak_client.Cec.Keymap.{action_for}
use visiontak_client.Cec.Keymap.Laws.{action_for_digits, action_for_onto}
use visiontak_client.Tests.Samples.{ascii, one_server, base, board, boards}

abbrev configured : Config
configured = record default_config { server_url = base }

abbrev evening : List Call
evening =
    Call.dashboards boards
    ∷ Call.action (plain Action.dashboard_next)
    ∷ Call.action (digit 4)
    ∷ Call.action (plain Action.menu_toggle)
    ∷ Call.load_finished (codes "d")
    ∷ []

boards_accepted : any_refused one_server boards ≡ false
unfolding any_refused allow_raises text_eq strip
boards_accepted = refl

run-IsValid_example :
    Invariant.IsValid (run ascii one_server evening (create ascii one_server none configured))
run-IsValid_example =
    run-IsValid ascii one_server none configured evening
      (boards_accepted, (tt, (tt, (tt, (tt, tt)))))

-- One web view, of the dashboard a.
abbrev one_view : Pool
one_view = Pool.view_for (pos 1) (some (codes "a")) (board (codes "a")) Pool.init

one_view-IsValid : Shape.IsValid one_view
one_view-IsValid =
    Shape.view_for-IsValid (pos 1) (some (codes "a")) (board (codes "a")) Pool.init
      Shape.init-IsValid

one_view_few : length one_view.views ≤ live_limit (pos 1)
unfolding view_for live_limit lookup assign
one_view_few = omega arith

view_order-view_for_example :
    (view_for (pos 1) (some (codes "b")) (board (codes "b")) one_view).view_order
    ≡ keep_last (live_limit (pos 1)) (remove (codes "b") one_view.view_order ++ codes "b" ∷ [])
view_order-view_for_example =
    view_order-view_for (pos 1) (board (codes "b")) one_view one_view-IsValid one_view_few

has_key-drop_stale_views_example :
    has_key (codes "a") (drop_stale_views (codes "b" ∷ []) one_view).views
    ≡ (contains (codes "a") (codes "b" ∷ []) && has_key (codes "a") one_view.views)
has_key-drop_stale_views_example =
    has_key-drop_stale_views (codes "b" ∷ []) (codes "a") one_view one_view-IsValid

abbrev four : Menu
four = Menu.set_dashboards boards Menu.init

four_full : is_empty four.dashboards ≡ false
unfolding Menu.set_dashboards Menu.select
four_full = refl

selected-move-move_example :
    ((Menu.move (negsuc 0) (Menu.move (pos 1) four)).selected ≡ four.selected)
    × ((Menu.move (pos 1) (Menu.move (negsuc 0) four)).selected ≡ four.selected)
selected-move-move_example =
    MenuLaws.selected-move-move four (MenuLaws.set_dashboards-IsValid boards Menu.init) four_full

action_for_digits_example :
    ((r : Option AnyAction) × (action_for 0x25 ≡ ok r))
    × ((d : ℕ) → (action_for 0x25 ≡ ok (some (digit d))) ↔ ((d ≤ 9) × (0x25 ≡ 0x20 + d)))
action_for_digits_example = action_for_digits 0x25

action_for_onto_example : (code : ℕ) × (action_for code ≡ ok (some (plain Action.rotate_toggle)))
action_for_onto_example = action_for_onto Action.rotate_toggle
