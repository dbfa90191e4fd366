-- ===== src/Controller/System/Clock.antt =====
-- The timeouts of the main loop: one for the toast at most, one for the carousel at most.
use visiontak_client.Prelude.{
  ℕ, ◌<◌, ◌≡◌, refl, arith, sym, ◌∙◌, ap, Bool, true, false, List, [], ◌∷◌, ◌==◌, ==_iff,
  if◌then◌else◌, if_keeps,
}
use visiontak_client.Ui.MainLoop
use visiontak_client.Ui.MainLoop.{MainLoop, Callback, drop_timer}
use visiontak_client.Ui.Window.Frame.{Frame, toasted, hidden, stop_toast}

abbrev pub same_callback : Callback → Callback → Bool
same_callback MainLoop.hide_toast MainLoop.hide_toast = true
same_callback MainLoop.rotate MainLoop.rotate = true
same_callback c d = false

-- The sources that call back to one function.
abbrev pub sources : Callback → List (ℕ × Callback) → List ℕ
sources c [] = []
sources c ((id, d) ∷ ts) = if same_callback c d then id ∷ sources c ts else sources c ts

-- The source that a field names; 0 names none.
abbrev pub named : ℕ → List ℕ
named id = if id == 0 then [] else id ∷ []

-- The timeouts are the toast's and the carousel's, and are told apart.
pub record Clock (rotate_source : ℕ) (l : MainLoop) (toast_source : ℕ) : Type 0 where
  pub toasts : sources MainLoop.hide_toast l.timers ≡ named toast_source
  pub carousel : sources MainLoop.rotate l.timers ≡ named rotate_source
  pub apart : rotate_source ≡ toast_source → toast_source ≡ 0
  pub positive : 0 < l.next
  pub toast_lt : toast_source < l.next
  pub rotate_lt : rotate_source < l.next

remove_id : ℕ → List ℕ → List ℕ
remove_id id [] = []
remove_id id (i ∷ is) = if i == id then remove_id id is else i ∷ remove_id id is

sources-drop_timer :
    (c : Callback) (id : ℕ) (ts : List (ℕ × Callback))
    → sources c (drop_timer id ts) ≡ remove_id id (sources c ts)
unfolding drop_timer remove_id
sources-drop_timer c id [] = refl
sources-drop_timer c id ((i, d) ∷ ts) = ground (arith, sources-drop_timer c id ts)

remove_named : (id : ℕ) → remove_id id (named id) ≡ []
unfolding remove_id
remove_named id = ground arith

remove_other : (id n : ℕ) → (n ≡ id → n ≡ 0) → remove_id id (named n) ≡ named n
unfolding remove_id
remove_other id n h = ground arith

removed_same :
    (c : Callback) (id : ℕ) (l : MainLoop)
    → sources c l.timers ≡ named id
    → sources c (MainLoop.source_remove id l).timers ≡ []
unfolding MainLoop.source_remove
removed_same c id l h = sources-drop_timer c id l.timers ∙ ap (remove_id id) h ∙ remove_named id

removed_other :
    (c : Callback) (id n : ℕ) (l : MainLoop)
    → (n ≡ id → n ≡ 0)
    → sources c l.timers ≡ named n
    → sources c (MainLoop.source_remove id l).timers ≡ named n
unfolding MainLoop.source_remove
removed_other c id n l a h =
    sources-drop_timer c id l.timers ∙ ap (remove_id id) h ∙ remove_other id n a

next_named : (n : ℕ) → 0 < n → n ∷ [] ≡ named n
next_named n h = ground arith

pub hidden-Clock :
    (r : ℕ) (f : Frame)
    → Clock r f.main_loop f.toast_source
    → Clock r (hidden f).main_loop (hidden f).toast_source
unfolding MainLoop.source_remove
hidden-Clock r f h = record {
  toasts = removed_same MainLoop.hide_toast f.toast_source f.main_loop h.toasts;
  carousel =
      removed_other MainLoop.rotate f.toast_source r f.main_loop (λ q. q ∙ h.apart q) h.carousel;
  apart = λ q. refl;
  positive = h.positive;
  toast_lt = h.positive;
  rotate_lt = h.rotate_lt;
}

-- The loop without the toast's timeout, whether there was one or not.
without_toast :
    (r : ℕ) (f : Frame)
    → Clock r f.main_loop f.toast_source
    → Clock r (stop_toast f) 0 × ((stop_toast f).next ≡ f.main_loop.next)
unfolding MainLoop.source_remove
without_toast r f h =
    if_keeps (λ l. Clock r l 0 × (l.next ≡ f.main_loop.next)) (f.toast_source == 0)
      (λ e.
        let none : f.toast_source ≡ 0 = (==_iff f.toast_source 0).0 e in
        (
          record {
            toasts = h.toasts ∙ ap named none;
            carousel = h.carousel;
            apart = λ q. refl;
            positive = h.positive;
            toast_lt = h.positive;
            rotate_lt = h.rotate_lt;
          },
          refl,
        ))
      (λ e. (hidden-Clock r f h, refl))

pub toasted-Clock :
    (r : ℕ) (f : Frame)
    → Clock r f.main_loop f.toast_source
    → Clock r (toasted f).main_loop (toasted f).toast_source
unfolding MainLoop.timeout_add
toasted-Clock r f h =
    let (c, e) = without_toast r f h in
    record {
      toasts =
          ap (λ l. (stop_toast f).next ∷ l) c.toasts ∙ next_named (stop_toast f).next c.positive;
      carousel = c.carousel;
      apart = λ q. absurd (omega (arith, c.rotate_lt, q));
      positive = omega arith;
      toast_lt = omega arith;
      rotate_lt = omega (arith, c.rotate_lt);
    }

-- A carousel that starts, and one that is cancelled.
pub cancelled-Clock :
    (r t : ℕ) (l : MainLoop) → Clock r l t → Clock 0 (MainLoop.source_remove r l) t
unfolding MainLoop.source_remove
cancelled-Clock r t l h = record {
  toasts = removed_other MainLoop.hide_toast r t l (λ q. h.apart (sym q)) h.toasts;
  carousel = removed_same MainLoop.rotate r l h.carousel;
  apart = λ q. sym q;
  positive = h.positive;
  toast_lt = h.toast_lt;
  rotate_lt = h.positive;
}

pub started-Clock :
    (t : ℕ) (l : MainLoop) → Clock 0 l t → Clock l.next (MainLoop.timeout_add MainLoop.rotate l) t
unfolding MainLoop.timeout_add
started-Clock t l h = record {
  toasts = h.toasts;
  carousel = ap (λ is. l.next ∷ is) h.carousel ∙ next_named l.next h.positive;
  apart = λ q. absurd (omega (arith, h.toast_lt, q));
  positive = omega arith;
  toast_lt = omega (arith, h.toast_lt);
  rotate_lt = omega arith;
}
