-- ===== src/Updating/Verified.antt =====
-- internal/updater/updater.go and replace_windows.go: what apply and the swap do to the installed program.
use clawdh.Base.{
  ℕ, ◌≡◌, refl, sym, ◌⊎◌, inl, inr, ◌<◌, String, Option, none, some, Bool, true, false, not, ◌&&◌,
  ◌==◌, leb, eq_iff, is_zero, lookup, Option-cases, split_if, arith,
}
use clawdh.Updating.Release.{
  Release, Web, Updater, Failure, Outcome, failed, done, Refusal, not_elevated, asset_name, get,
}
use clawdh.Updating.Checksums.{limited}
use clawdh.Updating.Swap.{
  Binary, Disk, Moves, Platform, unix, windows, Elevation, swapped, untouched, stranded,
  swapped_late, elevate, replace_in_place, replace_elevated, or_elevated, replace_binary,
}
use clawdh.Updating.Install.{
  Host, Machine, max_download_bytes, size, mode_for, touch, stamped, verify, with_disk, downloaded,
  apply, sweep_stale_downloads,
}

abbrev pub content_of : Disk → Option String
content_of d = elim d.binary [ some b ↦ some b.content | none ↦ none ]

abbrev pub Kept : Disk → Disk → Type 0
Kept before after = content_of after ≡ content_of before

-- Windows could not put the program back that it had moved aside.
abbrev pub Lost : Platform → Disk → Type 0
Lost p after =
    (after.binary ≡ none)
    × ((mv : Moves) × (p ≡ windows mv) × ((mv.restored ≡ false) ⊎ (mv.elevation ≡ stranded)))

-- The elevated script of Windows may swap the programs after the caller gave up on it.
abbrev pub IsLate : Platform → Type 0
IsLate p = (mv : Moves) × (p ≡ windows mv) × (mv.elevation ≡ swapped_late)

-- How a swap ends: with the new program in place, or, where it fails, with the old one, with none, or with the new
-- one that an elevated script has put there after all.
Swapped : Platform → Binary → Disk → Option Refusal × Disk → Type 0
Swapped p new before (none, after) = after.binary ≡ some new
Swapped p new before (some f, after) =
    Kept before after ⊎ Lost p after ⊎ (IsLate p × (after.binary ≡ some new))

elevate-Swapped :
    (m : Moves) (e : Elevation) (new : Binary) (before d : Disk)
    → m.elevation ≡ e
    → ((f : Refusal) → Swapped (windows m) new before (some f, d))
    → Swapped (windows m) new before (elevate e new d)
unfolding Swapped elevate
elevate-Swapped m swapped new before d e h = refl
elevate-Swapped m untouched new before d e h = h not_elevated
elevate-Swapped m stranded new before d e h = inr (inl (refl, (m, refl, inr e)))
elevate-Swapped m swapped_late new before d e h = inr (inr ((m, refl, e), refl))

replace_elevated-Swapped :
    (m : Moves) (new : Binary) (before d : Disk)
    → ((f : Refusal) → Swapped (windows m) new before (some f, d))
    → Swapped (windows m) new before (replace_elevated m new d)
unfolding Swapped replace_elevated
replace_elevated-Swapped m new before d h = elim (Option-cases d.binary) [
  | inl e ↦ rw (replace_elevated, e) (h not_elevated)
  | inr (b, e) ↦ rw (replace_elevated, e) (elevate-Swapped m m.elevation new before d refl h)
]

or_elevated-Swapped :
    (m : Moves) (new : Binary) (before : Disk) (t : Option Refusal × Disk)
    → Swapped (windows m) new before t
    → Swapped (windows m) new before (or_elevated m new t)
unfolding Swapped or_elevated
or_elevated-Swapped m new before (none, d) h = h
or_elevated-Swapped m new before (some f, d) h =
    split_if (Swapped (windows m) new before) m.denied
      (λ e.
        split_if (Swapped (windows m) new before) m.dir_writable (λ y. h)
          (λ n.
            split_if (Swapped (windows m) new before) m.interactive
              (λ y. replace_elevated-Swapped m new before d (λ g. h)) (λ k. h)))
      (λ n. h)

replace_binary-Swapped :
    (p : Platform) (new : Binary) (before : Disk)
    → Swapped p new before (replace_binary p new before)
unfolding Swapped replace_binary replace_in_place
replace_binary-Swapped (unix renames) new before =
    split_if (Swapped (unix renames) new before) renames (λ y. refl) (λ n. inl refl)
replace_binary-Swapped (windows m) new before =
    or_elevated-Swapped m new before (replace_in_place m new before) (
      split_if (Swapped (windows m) new before) m.aside
        (λ a.
          split_if (Swapped (windows m) new before) m.installed (λ y. refl)
            (λ n.
              split_if (Swapped (windows m) new before) m.restored (λ y. inl refl)
                (λ k. inr (inl (refl, (m, refl, inl k))))))
        (λ n. inl refl))

pub Kept-touch : (h : Host) (at : ℕ) (d : Disk) → Kept d (touch h at d)
unfolding touch
Kept-touch h at d = elim (Option-cases d.binary) [
  | inl e ↦ rw (touch, e) (rw (content_of, e) refl)
  | inr (b, e) ↦
      rw (touch, e, content_of)
        (split_if (λ t. content_of t ≡ some b.content) (not (is_zero at) && h.touches) (λ y. refl)
          (λ n. rw (content_of, e) refl))
]

-- A download that is installed has the digest that is expected, and did not run into the limit.
abbrev pub IsVerified : Host → ℕ → Release → String → Disk → Type 0
IsVerified h now r expected after =
    (c : Binary) × (after.binary ≡ some c)
    × (h.sha256 c.content ≡ expected)
    × (size c.content < max_download_bytes)
    × ((c.mod_time ≡ r.published_at) ⊎ (c.mod_time ≡ now))

Ending : Host → ℕ → Release → String → Disk → Option Failure × Disk → Type 0
Ending h now r expected before (none, after) = IsVerified h now r expected after
Ending h now r expected before (some f, after) =
    Kept before after
    ⊎ Lost h.platform after
    ⊎ (IsLate h.platform × IsVerified h now r expected after)

touch-IsVerified :
    (h : Host) (now : ℕ) (r : Release) (expected : String) (c : Binary) (d : Disk)
    → h.sha256 c.content ≡ expected
    → size c.content < max_download_bytes
    → c.mod_time ≡ now
    → d.binary ≡ some c
    → IsVerified h now r expected (touch h r.published_at d)
unfolding touch
touch-IsVerified h now r expected c d same small at e =
    rw (touch, e)
      (split_if (IsVerified h now r expected) (not (is_zero r.published_at) && h.touches)
        (λ y. (record c { mod_time = r.published_at }, refl, same, small, inl refl))
        (λ n. (c, e, same, small, inr at)))

stamped-Ending :
    (h : Host) (now : ℕ) (r : Release) (expected : String) (c : Binary) (before : Disk)
    (t : Option Refusal × Disk)
    → h.sha256 c.content ≡ expected
    → size c.content < max_download_bytes
    → c.mod_time ≡ now
    → Swapped h.platform c before t
    → Ending h now r expected before (stamped h r t)
unfolding Swapped Ending stamped
stamped-Ending h now r expected c before (none, d) same small at e =
    touch-IsVerified h now r expected c d same small at e
stamped-Ending h now r expected c before (some f, d) same small at (inl k) = inl k
stamped-Ending h now r expected c before (some f, d) same small at (inr (inl k)) = inr (inl k)
stamped-Ending h now r expected c before (some f, d) same small at (inr (inr k)) =
    inr (inr (k.0, (c, k.1, same, small, inr at)))

of_not : (b : Bool) → not b ≡ false → b ≡ true
of_not true e = refl
of_not false e = sym e

verify-Ending :
    (h : Host) (now : ℕ) (r : Release) (expected content : String) (d : Disk)
    → Ending h now r expected d (verify h now r expected content d)
unfolding Ending verify
verify-Ending h now r expected content d =
    split_if P (not h.written) (λ y. inl refl)
      (λ a.
        split_if P (leb max_download_bytes (size content)) (λ y. inl refl)
          (λ small.
            split_if P (not h.synced) (λ y. inl refl)
              (λ b.
                split_if P (not h.closed) (λ y. inl refl)
                  (λ c.
                    split_if P (not (h.sha256 content == expected)) (λ y. inl refl)
                      (λ same.
                        split_if P (not h.executable) (λ y. inl refl)
                          (λ e.
                            stamped-Ending h now r expected new d (replace_binary h.platform new d)
                              ((eq_iff (h.sha256 content) expected).0
                                (of_not (h.sha256 content == expected) same))
                              (ground (arith, small)) refl
                              (replace_binary-Swapped h.platform new d)))))))
  where
    P : Option Failure × Disk → Type 0
    P = Ending h now r expected d

    new : Binary
    new = record { content = content; mod_time = now; mode = mode_for d.binary }

unfoldable pub Applied : Host → ℕ → Release → String → Disk → Option Failure × Machine → Type 0
Applied h now r expected before (none, after) = IsVerified h now r expected after.disk
Applied h now r expected before (some f, after) =
    Kept before after.disk
    ⊎ Lost h.platform after.disk
    ⊎ (IsLate h.platform × IsVerified h now r expected after.disk)

with_disk-Applied :
    (h : Host) (now : ℕ) (r : Release) (u : Updater) (expected : String) (before : Disk)
    (t : Option Failure × Disk)
    → Ending h now r expected before t
    → Applied h now r expected before (with_disk u t)
unfolding Ending Applied with_disk
with_disk-Applied h now r u expected before (none, d) k = k
with_disk-Applied h now r u expected before (some f, d) k = k

downloaded-Applied :
    (h : Host) (now : ℕ) (r : Release) (expected : String) (d : Disk)
    (t : Outcome (Option String) × Updater)
    → Applied h now r expected d (downloaded h now r expected d t)
unfolding Applied downloaded
downloaded-Applied h now r expected d (failed f, u) = inl refl
downloaded-Applied h now r expected d (done none, u) = inl refl
downloaded-Applied h now r expected d (done (some raw), u) =
    with_disk-Applied h now r u expected d
      (verify h now r expected (limited max_download_bytes raw) d)
      (verify-Ending h now r expected (limited max_download_bytes raw) d)

Applied-swept :
    (h : Host) (now : ℕ) (r : Release) (expected : String) (d : Disk) (t : Option Failure × Machine)
    → Applied h now r expected (sweep_stale_downloads h now d) t
    → Applied h now r expected d t
unfolding Applied sweep_stale_downloads
Applied-swept h now r expected d (none, m) k = k
Applied-swept h now r expected d (some f, m) k = k

pub apply-Applied :
    (w : Web) (h : Host) (now : ℕ) (r : Release) (expected : String) (m : Machine)
    → Applied h now r expected m.disk (apply w h now r expected m)
unfolding Applied apply sweep_stale_downloads
apply-Applied w h now r expected m = elim (Option-cases (lookup (asset_name w) r.assets)) [
  | inl e ↦ rw (apply, e) (inl refl)
  | inr (url, e) ↦
      rw (apply, e)
        (split_if (Applied h now r expected m.disk) h.temp
          (λ y.
            Applied-swept h now r expected m.disk
              (downloaded h now r expected (sweep_stale_downloads h now m.disk)
                (get w now url m.updater))
              (downloaded-Applied h now r expected (sweep_stale_downloads h now m.disk)
                (get w now url m.updater)))
          (λ n. inl refl))
]
