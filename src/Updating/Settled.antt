-- ===== src/Updating/Settled.antt =====
-- internal/updater/updater.go: a release that is installed is not installed over and over.
use clawdh.Base.{ℕ, ◌≡◌, ◌≢◌, ap, ◌∙◌, ◌≤◌, none, some, ◌⊎◌, arith}
use clawdh.Updating.Release.{Release, Web, Updater, done, latest}
use clawdh.Updating.Swap.{Binary, Disk}
use clawdh.Updating.Install.{Host, Machine, is_newer, compare_with, move_to, check_and_apply}
use clawdh.Updating.Safe.{Safe-IsVerified, check_and_apply-Safe}

compare_with_old :
    (w : Web) (h : Host) (later : ℕ) (d : Disk) (s : Release) (u : Updater) (b : Binary)
    → s.published_at ≢ 0
    → s.published_at ≤ b.mod_time
    → b.mod_time ≤ later
    → compare_with w h later d s u (some b) ≡ (done none, record { updater = u; disk = d })
unfolding compare_with is_newer
compare_with_old w h later d s u b set old past = ground arith

check_old :
    (w : Web) (h : Host) (later : ℕ) (m : Machine) (s : Release) (u : Updater) (b : Binary)
    → latest w later m.updater ≡ (done s, u)
    → m.disk.binary ≡ some b
    → s.published_at ≢ 0
    → s.published_at ≤ b.mod_time
    → b.mod_time ≤ later
    → check_and_apply w h later m ≡ (done none, record { updater = u; disk = m.disk })
unfolding check_and_apply move_to
check_old w h later m s u b found there set old past =
    ap (move_to w h later m.disk) found
    ∙ ap (compare_with w h later m.disk s u) there
    ∙ compare_with_old w h later m.disk s u b set old past

-- A check that installs a release leaves nothing to a later one which finds that release, or an older one, as
-- the latest: it ends without an error, and the program stays as it was left. The clock must not have gone
-- back, the release not lie in its future, and the later one have a time of publication.
pub check_and_apply_again :
    (w v : Web) (h g : Host) (now later : ℕ) (m n : Machine) (r s : Release) (u : Updater)
    → (check_and_apply w h now m).0 ≡ done (some r)
    → n.disk ≡ ((check_and_apply w h now m).1).disk
    → latest v later n.updater ≡ (done s, u)
    → s.published_at ≢ 0
    → s.published_at ≤ r.published_at
    → r.published_at ≤ now
    → now ≤ later
    → check_and_apply v g later n ≡ (done none, record { updater = u; disk = n.disk })
check_and_apply_again w v h g now later m n r s u installed same found set old begun past =
    let (expected, (c, there, sha, small, at)) =
      Safe-IsVerified w h now m r (check_and_apply w h now m) (check_and_apply-Safe w h now m)
        installed in
    check_old v g later n s u c found (ap (λ d. d.binary) same ∙ there) set (stamp_between c at).0
      (stamp_between c at).1
  where
    stamp_between :
        (c : Binary)
        → (c.mod_time ≡ r.published_at) ⊎ (c.mod_time ≡ now)
        → (s.published_at ≤ c.mod_time) × (c.mod_time ≤ later)
    stamp_between c at = ground (arith, at, old, begun, past)
