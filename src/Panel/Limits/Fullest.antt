-- ===== src/Panel/Limits/Fullest.antt =====
-- panel/limits.go: the window that a person's ceiling is checked against.
use clawdh.Base.{
  ℕ, zero, suc, ◌≤◌, ◌≡◌, refl, sym, subst, ◌⊎◌, inl, inr, String, List, [], ◌∷◌, Option, none,
  some, true, false, ◌==◌, ltb, eq_iff, split_if, get_elem?, lookup, Bool-cases, arith,
}
use mathlib.Core.Option.{some-injective}
use clawdh.Panel.Model.{Share, Data, live}
use clawdh.Panel.Limits.{
  Limit, AccountWindow, by_account, reading_of, fuller, fullest_from, ceiling_window,
}

-- A window that is found is as full as another.
Covers : Option AccountWindow → AccountWindow → Type 0
Covers r v = (w : AccountWindow) × (r ≡ some w) × (v.seven_d ≤ w.seven_d)

Covers-trans :
    (r : Option AccountWindow) (v w : AccountWindow)
    → v.seven_d ≤ w.seven_d
    → Covers r w
    → Covers r v
unfolding Covers
Covers-trans r v w h (x, e, k) = (x, e, omega (arith, h, k))

fuller_left : (v : AccountWindow) (found : Option AccountWindow) → Covers (fuller (some v) found) v
unfolding Covers fuller
fuller_left v none = (v, refl, omega arith)
fuller_left v (some w) =
    split_if (λ r. Covers r v) (ltb v.seven_d w.seven_d) (λ y. (w, refl, ground (arith, y)))
      (λ n. (v, refl, omega arith))

fuller_right : (best : Option AccountWindow) (w : AccountWindow) → Covers (fuller best (some w)) w
unfolding Covers fuller
fuller_right none w = (w, refl, omega arith)
fuller_right (some b) w =
    split_if (λ r. Covers r w) (ltb b.seven_d w.seven_d) (λ y. (w, refl, omega arith))
      (λ n. (b, refl, ground (arith, n)))

fuller_source :
    (best found : Option AccountWindow) (w : AccountWindow)
    → fuller best found ≡ some w
    → (best ≡ some w) ⊎ (found ≡ some w)
unfolding fuller
fuller_source best none w e = inl e
fuller_source none (some v) w e = inr e
fuller_source (some b) (some v) w e = elim (Bool-cases (ltb b.seven_d v.seven_d)) [
  | inl y ↦ inr (rw y at e)
  | inr n ↦ inl (rw n at e)
]

module _ (windows : List (String × AccountWindow)) (person_id : String) (now : ℕ) where
  fullest_from-Covers :
      (shares : List Share) (best : Option AccountWindow) (v : AccountWindow)
      → Covers best v
      → Covers (fullest_from windows person_id now best shares) v
  unfolding fullest_from Covers
  fullest_from-Covers [] best v h = h
  fullest_from-Covers (sh ∷ shares) best v (w, e, le) =
      let found = reading_of windows person_id now sh in
      fullest_from-Covers shares (fuller best found) v (
        Covers-trans (fuller best found) v w le
          (subst (λ b. Covers (fuller b found) w) (sym e) (fuller_left w found)))

  fullest_from_all :
      (shares : List Share) (best : Option AccountWindow) (i : ℕ) (sh : Share) (v : AccountWindow)
      → get_elem? shares i ≡ some sh
      → reading_of windows person_id now sh ≡ some v
      → Covers (fullest_from windows person_id now best shares) v
  unfolding fullest_from
  fullest_from_all [] best i sh v at found = cc
  fullest_from_all (s ∷ shares) best zero sh v at found =
      let same : reading_of windows person_id now s ≡ some v =
        subst (λ x. reading_of windows person_id now x ≡ some v) (sym (some-injective s sh at))
          found in
      fullest_from-Covers shares (fuller best (reading_of windows person_id now s)) v
        (subst (λ x. Covers (fuller best x) v) (sym same) (fuller_right best v))
  fullest_from_all (s ∷ shares) best (suc i) sh v at found =
      fullest_from_all shares (fuller best (reading_of windows person_id now s)) i sh v at found

  fullest_from_source :
      (shares : List Share) (best : Option AccountWindow) (w : AccountWindow)
      → fullest_from windows person_id now best shares ≡ some w
      → (best ≡ some w)
        ⊎ ((i : ℕ) × (sh : Share) × (get_elem? shares i ≡ some sh)
            × (reading_of windows person_id now sh ≡ some w))
  unfolding fullest_from
  fullest_from_source [] best w e = inl e
  fullest_from_source (s ∷ shares) best w e =
      let found = reading_of windows person_id now s in
      elim (fullest_from_source shares (fuller best found) w e) [
        | inr (i, sh, at, read) ↦ inr (suc i, sh, at, read)
        | inl h ↦ elim (fuller_source best found w h) [
          | inl l ↦ inl l
          | inr r ↦ inr (zero, s, refl, r)
        ]
      ]

-- What a share must be for its account's window to count: it is the person's, has not expired, and the account
-- has a reading.
abbrev pub Counts : List AccountWindow → String → ℕ → Share → AccountWindow → Type 0
Counts windows person_id now sh w =
    (sh.person_id ≡ person_id)
    × (live now sh ≡ true)
    × (lookup sh.account_id (by_account windows []) ≡ some w)

Counts-reading_of :
    (windows : List AccountWindow) (person_id : String) (now : ℕ) (sh : Share) (w : AccountWindow)
    → reading_of (by_account windows []) person_id now sh ≡ some w
    → Counts windows person_id now sh w
unfolding reading_of
Counts-reading_of windows person_id now sh w e = elim (Bool-cases (sh.person_id == person_id)) [
  | inr n ↦ let bad : Path (Option AccountWindow) none (some w) = rw (reading_of, n) at e in cc
  | inl y ↦ elim (Bool-cases (live now sh)) [
    | inr n ↦ let bad : Path (Option AccountWindow) none (some w) = rw (reading_of, y, n) at e in cc
    | inl l ↦ ((eq_iff sh.person_id person_id).0 y, l, rw (reading_of, y, l) at e)
  ]
]

reading_of-Counts :
    (windows : List AccountWindow) (person_id : String) (now : ℕ) (sh : Share) (w : AccountWindow)
    → Counts windows person_id now sh w
    → reading_of (by_account windows []) person_id now sh ≡ some w
unfolding reading_of
reading_of-Counts windows person_id now sh w (mine, l, e) =
    rw (reading_of, (eq_iff sh.person_id person_id).1 mine, l) e

-- The window that is found is that of an account which they can use.
pub ceiling_window-Counts :
    (d : Data) (windows : List AccountWindow) (now : ℕ) (l : Limit) (w : AccountWindow)
    → (l.subject_type == "account") ≡ false
    → ceiling_window d windows now l ≡ some w
    → (i : ℕ) × (sh : Share) × (get_elem? d.shares i ≡ some sh)
      × Counts windows l.subject_id now sh w
unfolding ceiling_window
ceiling_window-Counts d windows now l w person e =
    elim (fullest_from_source (by_account windows []) l.subject_id now d.shares none w
      (rw (ceiling_window, person) at e)) [
        | inl n ↦ let bad : Path (Option AccountWindow) none (some w) = n in cc
        | inr (i, sh, at, read) ↦ (i, sh, at, Counts-reading_of windows l.subject_id now sh w read)
      ]

-- Where a person can use an account with a reading now, their ceiling is checked against the window of one that
-- they can use, and which is no less full than that of any that they can use.
pub ceiling_window_lem :
    (d : Data) (windows : List AccountWindow) (now : ℕ) (l : Limit) (i : ℕ) (sh : Share)
    (v : AccountWindow)
    → (l.subject_type == "account") ≡ false
    → get_elem? d.shares i ≡ some sh
    → Counts windows l.subject_id now sh v
    → (w : AccountWindow) × (ceiling_window d windows now l ≡ some w)
      × (v.seven_d ≤ w.seven_d)
      × ((j : ℕ) × (other : Share) × (get_elem? d.shares j ≡ some other)
          × Counts windows l.subject_id now other w)
unfolding ceiling_window Covers
ceiling_window_lem d windows now l i sh v person at counts =
    let (w, found, fuller_than) = most in
    (w, found, fuller_than, ceiling_window-Counts d windows now l w person found)
  where
    most : Covers (ceiling_window d windows now l) v
    most =
        rw (ceiling_window, person)
          (fullest_from_all (by_account windows []) l.subject_id now d.shares none i sh v at
            (reading_of-Counts windows l.subject_id now sh v counts))
