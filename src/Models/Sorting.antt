-- ===== src/Models/Sorting.antt =====
-- sort_dashboards of models.py sorts.
use visiontak_client.Prelude.{
  ◌≡◌, ◌<◌, ◌⊎◌, ◌∙◌, ℤ, pos, negsuc, ltb_ℤ, ltb, not, ◌&&◌, text_eq, text_eq_iff, sym, ap, Bool,
  if◌then◌else◌, refl, true, false, List, [], ◌∷◌, Text, arith, if_keeps, Bool-cases, inl, inr,
}
use mathlib.Core.List.{Perm}
use mathlib.Core.List.Perm
use visiontak_client.Python.{Unicode}
use visiontak_client.Models.{Dashboard, text_le, key_le, insert_sorted, sort_dashboards}

text_le_total : (s t : Text) → text_le s t ≡ false → text_le t s ≡ true
unfolding text_le
text_le_total [] t h = cc h
text_le_total (c ∷ s) [] h = refl
text_le_total (c ∷ s) (d ∷ t) h = ground (arith, text_le_total s t)

text_le_trans : (r s t : Text) → text_le r s ≡ true → text_le s t ≡ true → text_le r t ≡ true
unfolding text_le
text_le_trans [] s t h k = refl
text_le_trans (b ∷ r) [] t h k = cc h
text_le_trans (b ∷ r) (c ∷ s) [] h k = cc k
text_le_trans (b ∷ r) (c ∷ s) (d ∷ t) h k = ground (arith, text_le_trans r s t)

text_le_refl : (s : Text) → text_le s s ≡ true
unfolding text_le
text_le_refl [] = refl
text_le_refl (c ∷ s) = ground (arith, text_le_refl s)

text_le_same : (s t : Text) → s ≡ t → text_le s t ≡ true
text_le_same s t e = rw e (text_le_refl t)

-- The order of texts: the first character that differs decides.
abbrev pub IsLexLe : Text → Text → Type 0
IsLexLe [] t = Unit
IsLexLe (c ∷ s) [] = ⊥
IsLexLe (c ∷ s) (d ∷ t) = (c < d) ⊎ ((c ≡ d) × IsLexLe s t)

text_le-IsLexLe : (s t : Text) → text_le s t ≡ true → IsLexLe s t
unfolding text_le
text_le-IsLexLe [] t h = tt
text_le-IsLexLe (c ∷ s) [] h = cc h
text_le-IsLexLe (c ∷ s) (d ∷ t) h = elim (Bool-cases (ltb c d)) [
  | inl e ↦ inl (ground (arith, e))
  | inr e ↦ inr (ground (arith, h, e), text_le-IsLexLe s t (ground (arith, h, e)))
]

same_order : (a b : ℤ) → ltb_ℤ a b ≡ false → ltb_ℤ b a ≡ false → a ≡ b
same_order (pos a) (pos b) h g = ap pos (ground (arith, h, g))
same_order (pos a) (negsuc b) h g = ground (arith, h, g)
same_order (negsuc a) (pos b) h g = ground (arith, h, g)
same_order (negsuc a) (negsuc b) h g = ap negsuc (ground (arith, h, g))

-- The elements that pass a test.
abbrev pub keep : (Dashboard → Bool) → List Dashboard → List Dashboard
keep test [] = []
keep test (d ∷ ds) = if test d then d ∷ keep test ds else keep test ds

kept_head :
    (test : Dashboard → Bool) (d : Dashboard) (cs bs : List Dashboard)
    → keep test cs ≡ keep test bs
    → keep test (d ∷ cs) ≡ keep test (d ∷ bs)
kept_head test d cs bs e = rw e refl

module _ (u : Unicode) where
  key_le_total : (a b : Dashboard) → key_le u a b ≡ false → key_le u b a ≡ true
  unfolding key_le
  key_le_total a b h = ground (arith, text_le_total (u.lower a.name) (u.lower b.name))

  -- The orders of the server decide, and between equal ones the lowered names.
  abbrev pub IsBefore : Dashboard → Dashboard → Type 0
  IsBefore a b =
      (ltb_ℤ a.order b.order ≡ true)
      ⊎ ((a.order ≡ b.order) × IsLexLe (u.lower a.name) (u.lower b.name))

  key_le-IsBefore : (a b : Dashboard) → key_le u a b ≡ true → IsBefore a b
  unfolding key_le
  key_le-IsBefore a b h = elim (Bool-cases (ltb_ℤ a.order b.order)) [
    | inl e ↦ inl e
    | inr e ↦ inr (
      same_order a.order b.order e (ground (arith, h, e)),
      text_le-IsLexLe (u.lower a.name) (u.lower b.name) (ground (arith, h, e)),
    )
  ]

  abbrev pub InOrder : List Dashboard → Type 0
  InOrder [] = Unit
  InOrder (d ∷ []) = Unit
  InOrder (d ∷ e ∷ es) = IsBefore d e × InOrder (e ∷ es)

  -- Two dashboards that the sorting does not tell apart.
  abbrev pub same_key : Dashboard → Dashboard → Bool
  same_key a b =
      (not (ltb_ℤ a.order b.order) && not (ltb_ℤ b.order a.order))
      && text_eq (u.lower b.name) (u.lower a.name)

  same_key_le :
      (k a b : Dashboard) → same_key k a ≡ true → same_key k b ≡ true → key_le u a b ≡ true
  unfolding key_le
  same_key_le k a b h g =
      let ea = (text_eq_iff (u.lower a.name) (u.lower k.name)).0 (ground (arith, h)) in
      let eb = (text_eq_iff (u.lower b.name) (u.lower k.name)).0 (ground (arith, g)) in
      let names = text_le_same (u.lower a.name) (u.lower b.name) (ea ∙ sym eb) in
      ground (arith, h, g, names)

  -- Each neighbour's key is at most the next.
  abbrev pub IsSorted : List Dashboard → Type 0
  IsSorted [] = Unit
  IsSorted (d ∷ []) = Unit
  IsSorted (d ∷ e ∷ es) = (key_le u d e ≡ true) × IsSorted (e ∷ es)

  insert_sorted-IsSorted :
      (d : Dashboard) (es : List Dashboard) → IsSorted es → IsSorted (insert_sorted u d es)
  unfolding insert_sorted
  insert_sorted-IsSorted d [] h = tt
  insert_sorted-IsSorted d (e ∷ []) h =
      if_keeps IsSorted (key_le u d e) (λ k. (k, tt)) (λ k. (key_le_total d e k, tt))
  insert_sorted-IsSorted d (e ∷ f ∷ es) h =
      if_keeps IsSorted (key_le u d e) (λ k. (k, h))
        (λ k. elim (Bool-cases (key_le u d f)) [
          | inl q ↦ rw q (key_le_total d e k, (q, h.1))
          | inr q ↦
              let rest : IsSorted (f ∷ insert_sorted u d es) =
                rw q at (insert_sorted-IsSorted d (f ∷ es) h.1) in
              rw q (h.0, rest)
        ])

  insert_sorted-perm : (d : Dashboard) (es : List Dashboard) → Perm (insert_sorted u d es) (d ∷ es)
  unfolding insert_sorted
  insert_sorted-perm d [] = Perm.refl (d ∷ [])
  insert_sorted-perm d (e ∷ es) =
      if_keeps (λ l. Perm l (d ∷ e ∷ es)) (key_le u d e) (λ k. Perm.refl (d ∷ e ∷ es))
        (λ k. Perm.trans (Perm.cons e (insert_sorted-perm d es)) (Perm.swap d e es))

  -- A list that is sorted stays as it is: equal keys keep their order.
  pub sort_dashboards-IsSorted_eq : (ds : List Dashboard) → IsSorted ds → sort_dashboards u ds ≡ ds
  unfolding sort_dashboards insert_sorted
  sort_dashboards-IsSorted_eq [] h = refl
  sort_dashboards-IsSorted_eq (d ∷ []) h = refl
  sort_dashboards-IsSorted_eq (d ∷ e ∷ es) h =
      rw (sort_dashboards-IsSorted_eq (e ∷ es) h.1, h.0) refl

  pub sort_dashboards-keeps_all :
      (ds : List Dashboard) → IsSorted (sort_dashboards u ds) × Perm (sort_dashboards u ds) ds
  unfolding sort_dashboards
  sort_dashboards-keeps_all [] = (tt, Perm.refl [])
  sort_dashboards-keeps_all (d ∷ ds) =
      let (s, p) = sort_dashboards-keeps_all ds in
      (
        insert_sorted-IsSorted d (sort_dashboards u ds) s,
        Perm.trans (insert_sorted-perm d (sort_dashboards u ds)) (Perm.cons d p),
      )

  in_order : (ds : List Dashboard) → IsSorted ds → InOrder ds
  in_order [] h = tt
  in_order (d ∷ []) h = tt
  in_order (d ∷ e ∷ es) h = (key_le-IsBefore d e h.0, in_order (e ∷ es) h.1)

  -- Of two that pass one goes behind the other only if its key is greater.
  moved :
      (k d e : Dashboard) (es fs : List Dashboard)
      → keep (same_key k) fs ≡ keep (same_key k) (d ∷ es)
      → key_le u d e ≡ false
      → keep (same_key k) (e ∷ fs) ≡ keep (same_key k) (d ∷ e ∷ es)
  moved k d e es fs h q = elim (Bool-cases (same_key k d)) [
    | inr n ↦ rw (h, n) refl
    | inl y ↦ elim (Bool-cases (same_key k e)) [
      | inr n ↦ rw (h, n, y) refl
      | inl z ↦ cc (q, same_key_le k d e y z)
    ]
  ]

  -- A dashboard is inserted in front of those of its own key.
  keep-insert_sorted :
      (k d : Dashboard) (es : List Dashboard)
      → keep (same_key k) (insert_sorted u d es) ≡ keep (same_key k) (d ∷ es)
  unfolding insert_sorted
  keep-insert_sorted k d [] = refl
  keep-insert_sorted k d (e ∷ es) =
      if_keeps (λ l. keep (same_key k) l ≡ keep (same_key k) (d ∷ e ∷ es)) (key_le u d e)
        (λ q. refl) (λ q. moved k d e es (insert_sorted u d es) (keep-insert_sorted k d es) q)

  keep-sort_dashboards :
      (k : Dashboard) (ds : List Dashboard)
      → keep (same_key k) (sort_dashboards u ds) ≡ keep (same_key k) ds
  unfolding sort_dashboards
  keep-sort_dashboards k [] = refl
  keep-sort_dashboards k (d ∷ ds) =
      keep-insert_sorted k d (sort_dashboards u ds)
      ∙ kept_head (same_key k) d (sort_dashboards u ds) ds (keep-sort_dashboards k ds)

  -- The result of sort_dashboards is in order, by the orders and then by the first character in which
  -- the lowered names differ; it holds the same dashboards, each as often; and those that have the same
  -- order and lowered name stand as they stood.
  pub sort_dashboards_sorts :
      (ds : List Dashboard)
      → InOrder (sort_dashboards u ds)
        × (Perm (sort_dashboards u ds) ds
            × ((k : Dashboard) → keep (same_key k) (sort_dashboards u ds) ≡ keep (same_key k) ds))
  sort_dashboards_sorts ds =
      let (s, p) = sort_dashboards-keeps_all ds in
      (in_order (sort_dashboards u ds) s, (p, λ k. keep-sort_dashboards k ds))
