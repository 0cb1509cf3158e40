-- ===== src/Panel/LoginEnds/Bands.antt =====
-- panel/loginend.go: when a login's end is announced.
use Prim.Native.Char.{Char}
use Prim.Native.String.append
use clawdh.Base.{
  ℕ, ◌+◌, ◌*◌, ◌≤◌, ◌<◌, ◌≡◌, ◌≢◌, ◌↔◌, ◌⊎◌, inl, inr, refl, ap, sym, ◌∙◌, String, false, ◌==◌,
  ◌<>◌, leb, if◌then◌else◌, split_if, Bool-cases, day, arith,
}
use clawdh.Panel.LoginEnds.{login_warn_within, login_ended_for, login_end_warning, band}

-- How far on the announcements of a login are, by the mark of the last.
rank : String → ℕ
rank b =
    if b == "7d"
    then 1
    else if b == "3d"
    then 2
    else if b == "1d"
    then 3
    else if b == "ended"
    then 4
    else 0

-- What a mark says of the time.
Marks : ℕ → ℕ → String → Type 0
Marks end now b =
    ((b ≡ "ended") × (end ≤ now) × (now ≤ end + 7 * day))
    ⊎ ((b ≡ "1d") × (now < end) × (end ≤ now + day))
    ⊎ ((b ≡ "3d") × (now + day < end) × (end ≤ now + 3 * day))
    ⊎ ((b ≡ "7d") × (now + 3 * day < end) × (end ≤ now + 7 * day))
    ⊎ ((b ≡ "") × ((now + 7 * day < end) ⊎ (end + 7 * day < now)))

band-Marks : (end now : ℕ) → Marks end now (band end now)
unfolding band Marks
band-Marks end now =
    split_if P (leb end now)
      (λ past.
        split_if P (leb now (end + login_ended_for))
          (λ y. inl (refl, ground (arith, past), ground (arith, y)))
          (λ n. inr (inr (inr (inr (refl, inr (ground (arith, n))))))))
      (λ ahead.
        split_if P (leb end (now + day))
          (λ y. inr (inl (refl, ground (arith, ahead), ground (arith, y))))
          (λ a.
            split_if P (leb end (now + 3 * day))
              (λ y. inr (inr (inl (refl, ground (arith, a), ground (arith, y)))))
              (λ b.
                split_if P (leb end (now + login_warn_within))
                  (λ y. inr (inr (inr (inl (refl, ground (arith, b), ground (arith, y))))))
                  (λ c. inr (inr (inr (inr (refl, inl (ground (arith, c))))))))))
  where
    P : String → Type 0
    P = Marks end now

-- The same of the mark's rank.
Ranks : ℕ → ℕ → ℕ → Type 0
Ranks end now r =
    ((r ≡ 4) × (end ≤ now) × (now ≤ end + 7 * day))
    ⊎ ((r ≡ 3) × (now < end) × (end ≤ now + day))
    ⊎ ((r ≡ 2) × (now + day < end) × (end ≤ now + 3 * day))
    ⊎ ((r ≡ 1) × (now + 3 * day < end) × (end ≤ now + 7 * day))
    ⊎ ((r ≡ 0) × ((now + 7 * day < end) ⊎ (end + 7 * day < now)))

rank-Ranks : (end now : ℕ) (b : String) → Marks end now b → Ranks end now (rank b)
unfolding Marks Ranks rank
rank-Ranks end now b (inl (e, h, k)) = inl (ap rank e, h, k)
rank-Ranks end now b (inr (inl (e, h, k))) = inr (inl (ap rank e, h, k))
rank-Ranks end now b (inr (inr (inl (e, h, k)))) = inr (inr (inl (ap rank e, h, k)))
rank-Ranks end now b (inr (inr (inr (inl (e, h, k))))) = inr (inr (inr (inl (ap rank e, h, k))))
rank-Ranks end now b (inr (inr (inr (inr (e, h))))) = inr (inr (inr (inr (ap rank e, h))))

Ranks-mono :
    (end now later a b : ℕ)
    → now ≤ later
    → later ≤ end + 7 * day
    → Ranks end now a
    → Ranks end later b
    → a ≤ b
unfolding Ranks
Ranks-mono end now later a b h k m n = ground (arith, h, k, m, n)

Marks-given :
    (end now : ℕ) (b : String)
    → Marks end now b
    → (b ≢ "") ↔ ((end ≤ now + 7 * day) × (now ≤ end + 7 * day))
unfolding Marks
Marks-given end now b (inl (e, h, k)) =
    (λ given. ground (arith, h, k), λ r q. let bad : Path String "ended" "" = sym e ∙ q in cc)
Marks-given end now b (inr (inl (e, h, k))) =
    (λ given. ground (arith, h, k), λ r q. let bad : Path String "1d" "" = sym e ∙ q in cc)
Marks-given end now b (inr (inr (inl (e, h, k)))) =
    (λ given. ground (arith, h, k), λ r q. let bad : Path String "3d" "" = sym e ∙ q in cc)
Marks-given end now b (inr (inr (inr (inl (e, h, k))))) =
    (λ given. ground (arith, h, k), λ r q. let bad : Path String "7d" "" = sym e ∙ q in cc)
Marks-given end now b (inr (inr (inr (inr (e, h))))) =
    (λ given. absurd (given e), λ r. absurd (out_of_range r))
  where
    out_of_range : (end ≤ now + 7 * day) × (now ≤ end + 7 * day) → ⊥
    out_of_range r = ground (arith, r, h)

text_given : (c : Char) (s t : String) → String.◌∷◌ c s <> t ≢ ""
text_given c s t e = let bad : String.◌∷◌ c (s <> t) ≡ "" = sym (append.cons c s t) ∙ e in cc

-- The board warns of a login from its last week on.
warning_lem : (end now : ℕ) → (login_end_warning end now ≢ "") ↔ (end ≤ now + 7 * day)
unfolding login_end_warning
warning_lem end now = elim (Bool-cases (leb end now)) [
  | inl past ↦
      rw (login_end_warning, past)
        (λ given. ground (arith, past), λ near. text_given "I" "ts login ended " _)
  | inr ahead ↦ elim (Bool-cases (leb end (now + login_warn_within))) [
    | inl y ↦
        rw (login_end_warning, ahead, y)
          (λ given. ground (arith, y), λ near. text_given "I" "ts login ends in " _)
    | inr n ↦
        rw (login_end_warning, ahead, n)
          (λ given. absurd (given refl), λ near e. absurd (far n near))
  ]
]
  where
    far : leb end (now + login_warn_within) ≡ false → end ≤ now + 7 * day → ⊥
    far n near = ground (arith, n, near)

-- The end of a login is announced exactly in the week before it and the week after, which is as long as the board
-- warns of it, except that the board goes on; and up to a week after the end, the marks of the announcements
-- only move on, from none over "7d", "3d" and "1d" to "ended".
band_lem :
    (end now later : ℕ)
    → now ≤ later
    → later ≤ end + 7 * day
    → ((band end now ≢ "") ↔ ((end ≤ now + 7 * day) × (now ≤ end + 7 * day)))
      × ((band end now ≢ "") ↔ ((login_end_warning end now ≢ "") × (now ≤ end + 7 * day)))
      × (rank (band end now) ≤ rank (band end later))
band_lem end now later h k = (
  given,
  (
    λ b. ((warning_lem end now).1 ((given.0 b).0), (given.0 b).1),
    λ w. given.1 ((warning_lem end now).0 w.0, w.1),
  ),
  Ranks-mono end now later (rank (band end now)) (rank (band end later)) h k
      (rank-Ranks end now (band end now) (band-Marks end now))
      (rank-Ranks end later (band end later) (band-Marks end later)),
)
  where
    given : (band end now ≢ "") ↔ ((end ≤ now + 7 * day) × (now ≤ end + 7 * day))
    given = Marks-given end now (band end now) (band-Marks end now)
