-- ===== src/Cec/Keymap.antt =====
-- src/visiontak_client/cec/keymap.py
pub mod Laws
use visiontak_client.Prelude.{
  ℕ, suc, ◌-◌, Bool, ◌&&◌, Option, none, some, List, [], ◌∷◌, Text, codes, leb, ◌==◌, if◌then◌else◌,
  lookup, length, zero, get_elem?, take, ℤ, max_zero, text_eq,
}
use visiontak_client.Python.{Unicode, Result, ok, raise, ◌>>=◌, isdigit, int}
use visiontak_client.Actions.{Action, AnyAction, plain, digit_action}

-- KEYMAP, with the codes written out.
abbrev pub keymap : List (ℕ × Action)
keymap =
    (0x00, Action.menu_activate)
    ∷ (0x2b, Action.menu_activate)
    ∷ (0x01, Action.menu_up)
    ∷ (0x02, Action.menu_down)
    ∷ (0x37, Action.menu_up)
    ∷ (0x38, Action.menu_down)
    ∷ (0x03, Action.dashboard_prev)
    ∷ (0x04, Action.dashboard_next)
    ∷ (0x31, Action.dashboard_prev)
    ∷ (0x30, Action.dashboard_next)
    ∷ (0x4c, Action.dashboard_prev)
    ∷ (0x4b, Action.dashboard_next)
    ∷ (0x48, Action.dashboard_prev)
    ∷ (0x49, Action.dashboard_next)
    ∷ (0x0d, Action.menu_close)
    ∷ (0x09, Action.menu_toggle)
    ∷ (0x0a, Action.menu_toggle)
    ∷ (0x0b, Action.menu_toggle)
    ∷ (0x0c, Action.menu_toggle)
    ∷ (0x72, Action.menu_toggle)
    ∷ (0x73, Action.dashboard_reload)
    ∷ (0x74, Action.rotate_toggle)
    ∷ (0x71, Action.info_toggle)
    ∷ (0x44, Action.rotate_toggle)
    ∷ (0x46, Action.rotate_toggle)
    ∷ (0x45, Action.dashboard_home)
    ∷ (0x35, Action.info_toggle)
    ∷ (0x32, Action.dashboard_home)
    ∷ (0x6c, Action.blank_on)
    ∷ (0x6d, Action.blank_off)
    ∷ []

-- KEYMAP.get(key_code)
unfoldable pub keymap_get : ℕ → List (ℕ × Action) → Option Action
keymap_get code [] = none
keymap_get code ((k, a) ∷ m) = if k == code then some a else keymap_get code m

abbrev pub or_none : Option Action → Option AnyAction
or_none none = none
or_none (some a) = some (plain a)

unfoldable pub action_for : ℕ → Result (Option AnyAction)
unfolding keymap_get digit_action
action_for code =
    if leb 0x20 code && leb code 0x29
    then (do a ← digit_action (code - 0x20); ok (some a))
    else ok (or_none (keymap_get code keymap))

-- KEYBOARD_MAP
abbrev pub keyboard_map : List (Text × Action)
keyboard_map =
    (codes "Up", Action.menu_up)
    ∷ (codes "Down", Action.menu_down)
    ∷ (codes "Left", Action.dashboard_prev)
    ∷ (codes "Right", Action.dashboard_next)
    ∷ (codes "Return", Action.menu_activate)
    ∷ (codes "KP_Enter", Action.menu_activate)
    ∷ (codes "space", Action.menu_activate)
    ∷ (codes "Escape", Action.menu_close)
    ∷ (codes "BackSpace", Action.menu_close)
    ∷ (codes "m", Action.menu_toggle)
    ∷ (codes "Menu", Action.menu_toggle)
    ∷ (codes "r", Action.dashboard_reload)
    ∷ (codes "F5", Action.dashboard_reload)
    ∷ (codes "h", Action.dashboard_home)
    ∷ (codes "i", Action.info_toggle)
    ∷ (codes "p", Action.rotate_toggle)
    ∷ []

-- DigitAction(int(text)); `text` is all digits, so it has no sign.
digit_of : Unicode → Text → Result (Option AnyAction)
unfolding digit_action int
digit_of u text = do n ← int u text; a ← digit_action (max_zero n); ok (some a)

-- name[3:] if name.startswith("KP_")
keypad_rest : Text → Option Text
keypad_rest (a ∷ b ∷ c ∷ rest) = if a == b'K' && b == b'P' && c == b'_' then some rest else none
keypad_rest _ = none

keypad_digit : Unicode → Option Text → Bool
unfolding isdigit
keypad_digit u none = Bool.false
keypad_digit u (some rest) = isdigit u rest

rest_of : Option Text → Text
rest_of none = []
rest_of (some rest) = rest

unfoldable pub action_for_key_name : Unicode → Text → Result (Option AnyAction)
unfolding digit_of keypad_rest keypad_digit rest_of isdigit lookup
action_for_key_name u name =
    if length name == 1 && isdigit u name
    then digit_of u name
    else if keypad_digit u (keypad_rest name)
    then digit_of u (rest_of (keypad_rest name))
    else ok (or_none (lookup name keyboard_map))
