-- ===== src/Cec/Keymap/Laws.antt =====
-- What cec/keymap.py gives for the codes of a remote.
use visiontak_client.Prelude.{
  ℕ, ◌+◌, ◌-◌, ◌≤◌, ◌<◌, ◌≡◌, refl, ◌↔◌, ◌⊎◌, inl, inr, Option, none, some, arith, leb, Bool-cases,
  le→leb, lt→not-leb, ◌≢◌, ◌∙◌, ap, sym,
}
use visiontak_client.Python.{ok}
use visiontak_client.Actions.{Action, AnyAction, plain, digit, digit_action}
use visiontak_client.Cec.Keymap.{keymap, keymap_get, or_none, action_for}

-- The button of the remote that the tests press for each action.
abbrev button : Action → ℕ
button Action.menu_toggle = 0x09
button Action.menu_close = 0x0d
button Action.menu_up = 0x01
button Action.menu_down = 0x02
button Action.menu_activate = 0x00
button Action.dashboard_next = 0x04
button Action.dashboard_prev = 0x03
button Action.dashboard_reload = 0x73
button Action.dashboard_home = 0x45
button Action.rotate_toggle = 0x74
button Action.info_toggle = 0x71
button Action.blank_on = 0x6c
button Action.blank_off = 0x6d

-- Every action of the kiosk can be reached from the remote: some code resolves to it.
pub action_for_onto : (a : Action) → (code : ℕ) × (action_for code ≡ ok (some (plain a)))
unfolding action_for
action_for_onto Action.menu_toggle = (button Action.menu_toggle, refl)
action_for_onto Action.menu_close = (button Action.menu_close, refl)
action_for_onto Action.menu_up = (button Action.menu_up, refl)
action_for_onto Action.menu_down = (button Action.menu_down, refl)
action_for_onto Action.menu_activate = (button Action.menu_activate, refl)
action_for_onto Action.dashboard_next = (button Action.dashboard_next, refl)
action_for_onto Action.dashboard_prev = (button Action.dashboard_prev, refl)
action_for_onto Action.dashboard_reload = (button Action.dashboard_reload, refl)
action_for_onto Action.dashboard_home = (button Action.dashboard_home, refl)
action_for_onto Action.rotate_toggle = (button Action.rotate_toggle, refl)
action_for_onto Action.info_toggle = (button Action.info_toggle, refl)
action_for_onto Action.blank_on = (button Action.blank_on, refl)
action_for_onto Action.blank_off = (button Action.blank_off, refl)

-- The two branches of action_for, with the digit in range.
on_digit :
    (code : ℕ) → 0x20 ≤ code → code ≤ 0x29 → action_for code ≡ ok (some (digit (code - 0x20)))
unfolding action_for digit_action
on_digit code h k =
    rw (le→leb 0x20 code h, le→leb code 0x29 k, le→leb (code - 0x20) 9 (omega arith)) refl

on_other :
    (code : ℕ)
    → (code < 0x20) ⊎ (0x29 < code)
    → action_for code ≡ ok (or_none (keymap_get code keymap))
unfolding action_for digit_action
on_other code (inl h) = rw (lt→not-leb 0x20 code h) refl
on_other code (inr h) = elim (Bool-cases (leb 0x20 code)) [
  | inl e ↦ rw (e, lt→not-leb code 0x29 h) refl
  | inr e ↦ rw e refl
]

range-cases : (code : ℕ) → ((0x20 ≤ code) × (code ≤ 0x29)) ⊎ ((code < 0x20) ⊎ (0x29 < code))
range-cases code = grind arith

or_none-ne-digit : (o : Option Action) (d : ℕ) → ok (or_none o) ≢ ok (some (digit d))
or_none-ne-digit none d h = cc h
or_none-ne-digit (some a) d h = cc h

outside : (code d : ℕ) → (code < 0x20) ⊎ (0x29 < code) → d ≤ 9 → code ≡ 0x20 + d → ⊥
outside code d (inl h) fits is = omega arith
outside code d (inr h) fits is = omega arith

-- action_for never raises, and a code resolves to a digit d exactly when it is the code of the digit's
-- button, 0x20 + d with d at most 9.
pub action_for_digits :
    (code : ℕ)
    → ((r : Option AnyAction) × (action_for code ≡ ok r))
      × ((d : ℕ) → (action_for code ≡ ok (some (digit d))) ↔ ((d ≤ 9) × (code ≡ 0x20 + d)))
action_for_digits code = elim (range-cases code) [
  | inl (h, k) ↦ (
    (some (digit (code - 0x20)), on_digit code h k),
    λ d. (
      λ e. ground (arith, on_digit code h k, e),
      λ (fits, is). on_digit code h k ∙ ap (λ (n : ℕ). ok (some (digit n))) (omega arith),
    ),
  )
  | inr out ↦ (
    (or_none (keymap_get code keymap), on_other code out),
    λ d. (
      λ e. absurd (or_none-ne-digit (keymap_get code keymap) d (sym (on_other code out) ∙ e)),
      λ (fits, is). absurd (outside code d out fits is),
    ),
  )
]
