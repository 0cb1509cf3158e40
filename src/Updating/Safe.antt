-- ===== src/Updating/Safe.antt =====
-- internal/updater/updater.go: what a check may do to the installed program.
use clawdh.Base.{
  ℕ, ◌≡◌, ◌≢◌, refl, sym, subst, ◌∙◌, ◌⊎◌, inl, inr, ◌<◌, String, Option, none, some, Bool, true,
  false, not, ◌&&◌, ◌||◌, ◌==◌, nat_eq, eq_iff, is_zero, has_prefix, lookup, Option-cases, split_if,
  arith,
}
use mathlib.Core.Option.{some-injective}
use clawdh.Updating.Release.{
  Release, Web, Updater, Response, Answer, answered, Failure, Outcome, failed, done, asset_name,
  unreachable, received, body_of, api_base_of, fetch, get, latest,
}
use clawdh.Updating.Checksums.{checksum_of, published, read_checksums, expected_checksum}
use clawdh.Updating.Swap.{Binary, Disk}
use clawdh.Updating.Install.{
  Host, Machine, is_newer, apply, applied, install, compare_with, move_to, check_and_apply,
}
use clawdh.Updating.Verified.{Kept, Lost, IsLate, Kept-touch, IsVerified, Applied, apply-Applied}

-- The digest is the one that the release publishes for this platform: the file of digests that it names
-- was read, and lists it.
abbrev pub IsPublished : Web → Release → String → Type 0
IsPublished w r expected =
    (url raw : String) × (answer : Response) × (lookup "checksums.txt" r.assets ≡ some url)
    × (w.net url "" ≡ answered answer)
    × (answer.status ≡ 200)
    × (answer.body ≡ some raw)
    × (checksum_of (asset_name w) raw ≡ some expected)

-- What a check that installs a release has made sure of.
abbrev pub Installed : Web → Host → ℕ → Machine → Release → Disk → Type 0
Installed w h now m r after =
    (u : Updater) × (b : Binary) × (expected : String) × (latest w now m.updater ≡ (done r, u))
    × (m.disk.binary ≡ some b)
    × ((b.mod_time < r.published_at) ⊎ (now < b.mod_time))
    × IsPublished w r expected
    × (h.sha256 b.content ≢ expected)
    × IsVerified h now r expected after

-- What a request and a download come from.
Received : Answer → Outcome Response × Updater → Type 0
Received a (failed f, v) = Unit
Received a (done r, v) = a ≡ answered r

Body : Answer → Outcome (Option String) × Updater → Type 0
Body a (failed f, v) = Unit
Body a (done body, v) = (r : Response) × (a ≡ answered r) × (r.status ≡ 200) × (r.body ≡ body)

received-Received :
    (api : Bool) (now : ℕ) (a : Answer) (u : Updater) → Received a (received api now a u)
unfolding Received received
received-Received api now unreachable u = tt
received-Received api now (answered r) u =
    split_if (Received (answered r))
      (nat_eq r.status 429 || (nat_eq r.status 403 && r.remaining == "0")) (λ y. tt)
      (λ a.
        split_if (Received (answered r)) (not (nat_eq r.status 200) && not (nat_eq r.status 304))
          (λ y. tt) (λ n. refl))

body_of-Body : (a : Answer) (t : Outcome Response × Updater) → Received a t → Body a (body_of t)
unfolding Received Body body_of
body_of-Body a (failed f, u) h = tt
body_of-Body a (done r, u) h =
    split_if (Body a) (nat_eq r.status 200) (λ y. (r, h, ground (arith, y), refl)) (λ n. tt)

Published : Web → Release → Outcome String × Updater → Type 0
Published w r (failed f, u) = Unit
Published w r (done expected, u) = IsPublished w r expected

read_checksums-Published :
    (w : Web) (r : Release) (url : String) (t : Outcome (Option String) × Updater)
    → lookup "checksums.txt" r.assets ≡ some url
    → Body (w.net url "") t
    → Published w r (read_checksums w t)
unfolding Body Published read_checksums published
read_checksums-Published w r url (failed f, u) e h = tt
read_checksums-Published w r url (done none, u) e h = tt
read_checksums-Published w r url (done (some raw), u) e (answer, asked, status, body) =
    elim (Option-cases (checksum_of (asset_name w) raw)) [
      | inl n ↦ rw (published, n) tt
      | inr (digest, k) ↦ rw (published, k) (url, raw, answer, e, asked, status, body, k)
    ]

expected_checksum-Published :
    (w : Web) (now : ℕ) (r : Release) (u : Updater) → Published w r (expected_checksum w now r u)
unfolding Published expected_checksum get fetch
expected_checksum-Published w now r u = elim (Option-cases (lookup "checksums.txt" r.assets)) [
  | inl e ↦ rw (expected_checksum, e) tt
  | inr (url, e) ↦
      rw (expected_checksum, e)
        (read_checksums-Published w r url (get w now url u) e (
          body_of-Body (w.net url "") (fetch w now url "" u)
            (received-Received (has_prefix url (api_base_of u)) now (w.net url "") u)))
]

-- What a check may do, by its result.
pub Safe : Web → Host → ℕ → Machine → Outcome (Option Release) × Machine → Type 0
Safe w h now m (failed f, after) =
    Kept m.disk after.disk
    ⊎ Lost h.platform after.disk
    ⊎ (IsLate h.platform × ((r : Release) × Installed w h now m r after.disk))
Safe w h now m (done none, after) = Kept m.disk after.disk
Safe w h now m (done (some r), after) = Installed w h now m r after.disk

applied-Safe :
    (w : Web) (h : Host) (now : ℕ) (m : Machine) (r : Release) (expected : String)
    (t : Option Failure × Machine)
    → (IsVerified h now r expected ((t.1).disk) → Installed w h now m r ((t.1).disk))
    → Applied h now r expected m.disk t
    → Safe w h now m (applied r t)
unfolding Safe Applied applied
applied-Safe w h now m r expected (none, after) f k = f k
applied-Safe w h now m r expected (some g, after) f (inl k) = inl k
applied-Safe w h now m r expected (some g, after) f (inr (inl k)) = inr (inl k)
applied-Safe w h now m r expected (some g, after) f (inr (inr k)) = inr (inr (k.0, (r, f k.1)))

install-Safe :
    (w : Web) (h : Host) (now : ℕ) (m : Machine) (r : Release) (b : Binary) (u : Updater)
    (t : Outcome String × Updater)
    → latest w now m.updater ≡ (done r, u)
    → m.disk.binary ≡ some b
    → is_newer now r b ≡ true
    → Published w r t
    → Safe w h now m (install w h now r b m.disk t)
unfolding Safe Published install is_newer
install-Safe w h now m r b u (failed f, v) found there newer k = inl refl
install-Safe w h now m r b u (done expected, v) found there newer k =
    split_if (Safe w h now m) (not h.readable) (λ y. inl refl)
      (λ a.
        split_if (Safe w h now m) (h.sha256 b.content == expected)
          (λ y. Kept-touch h r.published_at m.disk)
          (λ other.
            applied-Safe w h now m r expected
              (apply w h now r expected (record { updater = v; disk = m.disk }))
              (λ good. (
                u,
                b,
                expected,
                found,
                there,
                ground (arith, newer),
                k,
                (λ same.
                    let bad : Path Bool false true =
                      sym other ∙ (eq_iff (h.sha256 b.content) expected).1 same in
                    cc),
                good,
              ))
              (apply-Applied w h now r expected (record { updater = v; disk = m.disk }))))

compare_with-Safe :
    (w : Web) (h : Host) (now : ℕ) (m : Machine) (r : Release) (u : Updater) (o : Option Binary)
    → latest w now m.updater ≡ (done r, u)
    → m.disk.binary ≡ o
    → Safe w h now m (compare_with w h now m.disk r u o)
unfolding Safe compare_with
compare_with-Safe w h now m r u none e k = inl refl
compare_with-Safe w h now m r u (some b) e k =
    split_if (Safe w h now m) (is_zero r.published_at) (λ y. inl refl)
      (λ a.
        split_if (Safe w h now m) (is_newer now r b)
          (λ newer.
            install-Safe w h now m r b u (expected_checksum w now r u) e k newer
              (expected_checksum-Published w now r u))
          (λ n. refl))

move_to-Safe :
    (w : Web) (h : Host) (now : ℕ) (m : Machine) (t : Outcome Release × Updater)
    → latest w now m.updater ≡ t
    → Safe w h now m (move_to w h now m.disk t)
unfolding Safe move_to
move_to-Safe w h now m (failed f, u) e = inl refl
move_to-Safe w h now m (done r, u) e = compare_with-Safe w h now m r u m.disk.binary e refl

-- A check installs a release only if it is the latest, was published after the installed program was
-- written (or the program's time lies in the future), and the digest that it publishes for this platform is
-- that of what was downloaded, which is below the size limit, and not of the program that was there. A check that
-- fails leaves the program as it is, but for two ends of a swap on Windows: there is no program, where putting
-- the old one back failed too, in the swap or in its elevated retry; or such a release is there, where the
-- elevated retry has swapped the programs although the caller gave up on it.
pub check_and_apply-Safe :
    (w : Web) (h : Host) (now : ℕ) (m : Machine) → Safe w h now m (check_and_apply w h now m)
unfolding check_and_apply
check_and_apply-Safe w h now m = move_to-Safe w h now m (latest w now m.updater) refl

done-injective : (a b : Option Release) → Path (Outcome (Option Release)) (done a) (done b) → a ≡ b
done-injective a b e = cc

-- The program that a check has installed.
pub Safe-IsVerified :
    (w : Web) (h : Host) (now : ℕ) (m : Machine) (r : Release)
    (t : Outcome (Option Release) × Machine)
    → Safe w h now m t
    → t.0 ≡ done (some r)
    → (expected : String) × IsVerified h now r expected ((t.1).disk)
unfolding Safe
Safe-IsVerified w h now m r (failed f, after) k e = cc
Safe-IsVerified w h now m r (done none, after) k e =
    let bad : Path (Option Release) none (some r) = done-injective none (some r) e in cc
Safe-IsVerified w h now m r (done (some s), after) k e =
    let same : s ≡ r = some-injective s r (done-injective (some s) (some r) e) in
    subst (λ x. (expected : String) × IsVerified h now x expected after.disk) same (k.2, k.8)
