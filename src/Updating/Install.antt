-- ===== src/Updating/Install.antt =====
-- internal/updater/updater.go: a check, and the installation of what it finds. What the file system answers
-- and the hash are fields of the host. The temporary file is gone when apply returns, so that it does not
-- show in the disk.
use clawdh.Base.{
  ℕ, suc, ◌+◌, ◌*◌, ◌/◌, ◌%◌, ◌-◌, String, Option, none, some, Bool, false, not, ◌&&◌, ◌||◌, ◌==◌,
  ltb, leb, nat_eq, if◌then◌else◌, hour, is_zero, has_prefix, lookup, filter, trim_space,
}
use clawdh.Updating.Release.{
  Release, Web, Updater, Failure, Outcome, failed, done, no_binary, no_publish_time, unread_binary,
  no_asset, no_temp, not_downloaded, too_large, not_synced, not_closed, mismatch, not_executable,
  Refusal, not_installed, get, asset_name, latest,
}
use clawdh.Updating.Checksums.{limited, expected_checksum}
use clawdh.Updating.Swap.{Binary, Entry, Disk, Platform, replace_binary}

pub record Host : Type 0 where
  pub readable : Bool  -- the installed program can be read
  pub temp : Bool  -- a temporary file can be made
  pub written : Bool
  pub synced : Bool
  pub closed : Bool
  pub executable : Bool  -- its mode can be set
  pub touches : Bool  -- the program's time can be set
  pub removes : String → Bool
  pub sha256 : String → String
  pub platform : Platform

pub record Machine : Type 0 where
  pub updater : Updater
  pub disk : Disk

abbrev pub max_download_bytes : ℕ
max_download_bytes = 200 * 1_048_576

abbrev pub stale_download_age : ℕ
stale_download_age = hour

unfoldable pub is_stale : ℕ → Entry → Bool
is_stale now e = elim e.modified [
  | none ↦ false
  | some at ↦
      not e.is_dir && has_prefix e.name ".clawdh-update-" && leb stale_download_age (now - at)
]

unfoldable pub sweep_stale_downloads : Host → ℕ → Disk → Disk
unfolding is_stale
sweep_stale_downloads h now d = record d {
  entries = filter (λ e. not (is_stale now e && h.removes e.name)) d.entries;
}

-- touch, on the installed program.
unfoldable pub touch : Host → ℕ → Disk → Disk
touch h at d = elim d.binary [
  | none ↦ d
  | some b ↦
      if not (is_zero at) && h.touches
      then record d { binary = some (record b { mod_time = at }) }
      else d
]

-- `info.Mode().Perm() | 0o100`, or 0o755 where there is nothing to ask.
unfoldable pub mode_for : Option Binary → ℕ
mode_for none = 493
mode_for (some b) = if nat_eq (b.mode / 64 % 2) 1 then b.mode else b.mode + 64

unfoldable pub size : String → ℕ
size String.[] = 0
size (String.◌∷◌ c s) = suc (size s)

-- What is left to do after replaceBinary.
unfoldable pub stamped : Host → Release → Option Refusal × Disk → Option Failure × Disk
unfolding touch
stamped h r (some f, d) = (some (not_installed f), d)
stamped h r (none, d) = (none, touch h r.published_at d)

-- The part of apply from the end of the download on.
unfoldable pub verify : Host → ℕ → Release → String → String → Disk → Option Failure × Disk
unfolding size mode_for stamped replace_binary
verify h now r expected content d =
    if not h.written
    then (some not_downloaded, d)
    else if leb max_download_bytes (size content)
    then (some too_large, d)
    else if not h.synced
    then (some not_synced, d)
    else if not h.closed
    then (some not_closed, d)
    else if not (h.sha256 content == expected)
    then (some (mismatch expected (h.sha256 content)), d)
    else if not h.executable
    then (some not_executable, d)
    else stamped h r (
        replace_binary h.platform
          (record { content = content; mod_time = now; mode = mode_for d.binary }) d)

unfoldable pub with_disk : Updater → Option Failure × Disk → Option Failure × Machine
with_disk u (f, d) = (f, record { updater = u; disk = d })

unfoldable pub downloaded :
    Host
    → ℕ
    → Release
    → String
    → Disk
    → Outcome (Option String) × Updater
    → Option Failure × Machine
unfolding limited verify with_disk
downloaded h now r expected d (failed f, u) = (some f, record { updater = u; disk = d })
downloaded h now r expected d (done none, u) =
    (some not_downloaded, record { updater = u; disk = d })
downloaded h now r expected d (done (some raw), u) =
    with_disk u (verify h now r expected (limited max_download_bytes raw) d)

unfoldable pub apply : Web → Host → ℕ → Release → String → Machine → Option Failure × Machine
unfolding sweep_stale_downloads get downloaded asset_name
apply w h now r expected m = elim (lookup (asset_name w) r.assets) [
  | none ↦ (some no_asset, m)
  | some url ↦
      let d = sweep_stale_downloads h now m.disk in
      if h.temp
      then downloaded h now r expected d (get w now url m.updater)
      else (some no_temp, record m { disk = d })
]

unfoldable pub applied : Release → Option Failure × Machine → Outcome (Option Release) × Machine
applied r (some f, m) = (failed f, m)
applied r (none, m) = (done (some r), m)

-- The part of CheckAndApply behind the comparison of the times.
unfoldable pub install :
    Web
    → Host
    → ℕ
    → Release
    → Binary
    → Disk
    → Outcome String × Updater
    → Outcome (Option Release) × Machine
unfolding touch apply applied
install w h now r b d (failed f, u) = (failed f, record { updater = u; disk = d })
install w h now r b d (done expected, u) =
    if not h.readable
    then (failed unread_binary, record { updater = u; disk = d })
    else if h.sha256 b.content == expected
    then (done none, record { updater = u; disk = touch h r.published_at d })
    else applied r (apply w h now r expected (record { updater = u; disk = d }))

unfoldable pub is_newer : ℕ → Release → Binary → Bool
is_newer now r b = ltb now b.mod_time || ltb b.mod_time r.published_at

-- The part of CheckAndApply behind os.Stat.
unfoldable pub compare_with :
    Web → Host → ℕ → Disk → Release → Updater → Option Binary → Outcome (Option Release) × Machine
unfolding expected_checksum install is_newer
compare_with w h now d r u none = (failed no_binary, record { updater = u; disk = d })
compare_with w h now d r u (some b) =
    if is_zero r.published_at
    then (failed no_publish_time, record { updater = u; disk = d })
    else if is_newer now r b
    then install w h now r b d (expected_checksum w now r u)
    else (done none, record { updater = u; disk = d })

-- The part of CheckAndApply behind Latest.
unfoldable pub move_to :
    Web → Host → ℕ → Disk → Outcome Release × Updater → Outcome (Option Release) × Machine
unfolding compare_with
move_to w h now d (failed f, u) = (failed f, record { updater = u; disk = d })
move_to w h now d (done r, u) = compare_with w h now d r u d.binary

unfoldable pub check_and_apply : Web → Host → ℕ → Machine → Outcome (Option Release) × Machine
unfolding latest move_to
check_and_apply w h now m = move_to w h now m.disk (latest w now m.updater)

-- Note
unfoldable pub note : ℕ → Option Failure → Machine → Machine
note now err m = record m { updater = record m.updater { last_check = now; last_err = err } }

-- Validate
unfoldable pub validate : Updater → Bool
validate u = not (trim_space u.binary_path == "")
