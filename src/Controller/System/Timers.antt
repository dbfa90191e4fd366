-- ===== src/Controller/System/Timers.antt =====
-- The timers of the controller: an id is given out once, and a timer that fires or is cancelled takes
-- no other with it.
use visiontak_client.Prelude.{
  ℕ, ◌<◌, ◌≤◌, ◌≡◌, refl, arith, true, false, ◌&&◌, List, [], ◌∷◌, ◌==◌, ==_iff, if_keeps,
  Bool-cases, ◌⊎◌, inl, inr, ◌≢◌, ◌∙◌,
}
use visiontak_client.Controller.{Timer, Job, refresh, registration, drop_timer}
use visiontak_client.Controller.System.{same_job, is_due}

-- The ids descend from below the next one.
abbrev pub IsFresh : ℕ → List (ℕ × Timer) → Type 0
IsFresh n [] = Unit
IsFresh n ((i, t) ∷ ts) = (i < n) × IsFresh i ts

IsFresh-weaken : (m n : ℕ) (ts : List (ℕ × Timer)) → m ≤ n → IsFresh m ts → IsFresh n ts
IsFresh-weaken m n [] le f = tt
IsFresh-weaken m n ((i, t) ∷ ts) le (lt, f) = (omega arith, f)

pub IsFresh-drop_timer :
    (n id : ℕ) (ts : List (ℕ × Timer)) → IsFresh n ts → IsFresh n (drop_timer id ts)
unfolding drop_timer
IsFresh-drop_timer n id [] f = tt
IsFresh-drop_timer n id ((i, t) ∷ ts) (lt, f) =
    if_keeps (IsFresh n) (i == id)
      (λ e. IsFresh-weaken i n (drop_timer id ts) (omega arith) (IsFresh-drop_timer i id ts f))
      (λ e. (lt, IsFresh-drop_timer i id ts f))

is_due_lt :
    (n id : ℕ) (j : Job) (ts : List (ℕ × Timer)) → IsFresh n ts → is_due id j ts ≡ true → id < n
is_due_lt n id j [] f e = cc e
is_due_lt n id j ((i, t) ∷ ts) (lt, f) e = elim (Bool-cases (i == id && same_job t.job j)) [
  | inl q ↦ ground (arith, q, lt)
  | inr q ↦ let below = is_due_lt i id j ts f (ground (arith, e, q)) in omega arith
]

not_later :
    (id i : ℕ) (j : Job) (ts : List (ℕ × Timer))
    → IsFresh i ts
    → (i == id) ≡ true
    → is_due id j ts ≡ true
    → ⊥
not_later id i j ts f s e =
    let below = is_due_lt i id j ts f e in let same = (==_iff i id).0 s in omega arith

not_both : (j : Job) → (same_job j registration ≡ false) ⊎ (same_job j refresh ≡ false)
not_both refresh = inl refl
not_both registration = inr refl

-- One id has one job.
one_job :
    (n id : ℕ) (ts : List (ℕ × Timer))
    → IsFresh n ts
    → is_due id registration ts ≡ true
    → is_due id refresh ts ≡ true
    → ⊥
one_job n id [] f e q = cc e
one_job n id ((i, t) ∷ ts) (lt, f) e q = elim (Bool-cases (i == id)) [
  | inr d ↦ one_job i id ts f (ground (arith, d, e)) (ground (arith, d, q))
  | inl s ↦ elim (not_both t.job) [
    | inl n ↦ not_later id i registration ts f s (ground (arith, s, n, e))
    | inr n ↦ not_later id i refresh ts f s (ground (arith, s, n, q))
  ]
]

due-drop_other :
    (id other : ℕ) (j : Job) (ts : List (ℕ × Timer))
    → id ≢ other
    → is_due other j (drop_timer id ts) ≡ is_due other j ts
unfolding drop_timer
due-drop_other id other j [] d = refl
due-drop_other id other j ((i, t) ∷ ts) d = ground (arith, due-drop_other id other j ts d)

-- The timer of a refresh stays when a poll fires.
pub refresh_stays :
    (n id other : ℕ) (ts : List (ℕ × Timer))
    → IsFresh n ts
    → is_due id registration ts ≡ true
    → is_due other refresh ts ≡ true
    → is_due other refresh (drop_timer id ts) ≡ true
refresh_stays n id other ts f e q =
    due-drop_other id other refresh ts (λ same. one_job n id ts f e (rw same q)) ∙ q

-- The timer of a poll stays when a refresh fires.
pub poll_stays :
    (n id other : ℕ) (ts : List (ℕ × Timer))
    → IsFresh n ts
    → is_due id refresh ts ≡ true
    → is_due other registration ts ≡ true
    → is_due other registration (drop_timer id ts) ≡ true
poll_stays n id other ts f e q =
    due-drop_other id other registration ts (λ same. one_job n id ts f (rw same q) e) ∙ q
