-- ===== src/Updating/Checksums.antt =====
-- internal/updater/updater.go: the digest that a release publishes for this platform's binary.
use Prim.Native.Char.{code}
use Prim.Native.String
use clawdh.Base.{
  ℕ, zero, suc, String, List, [], ◌∷◌, Option, none, some, ◌==◌, nat_eq, if◌then◌else◌, trim_space,
  has_prefix, without_prefix, lookup,
}
use clawdh.Local.Names.{to_lower}
use clawdh.Switching.Triggers.{fields}
use clawdh.Updating.Release.{
  Release, Web, Updater, Outcome, failed, done, no_checksums, unread_checksums, no_checksum, get,
  asset_name,
}

-- io.LimitReader
unfoldable pub limited : ℕ → String → String
limited zero s = ""
limited (suc n) String.[] = ""
limited (suc n) (String.◌∷◌ c s) = String.◌∷◌ c (limited n s)

-- A character goes before the first line.
unfoldable pub onto_line : String → List String → List String
onto_line c [] = c ∷ []
onto_line c (l ∷ ls) = String.◌++◌ c l ∷ ls

-- strings.Split(s, "\n")
unfoldable pub split_lines : String → List String
unfolding onto_line
split_lines String.[] = "" ∷ []
split_lines (String.◌∷◌ c s) =
    let rest = split_lines s in
    if nat_eq (code c) 10 then "" ∷ rest else onto_line (String.◌∷◌ c "") rest

-- strings.TrimPrefix(name, "*")
unfoldable pub without_star : String → String
without_star name = if has_prefix name "*" then without_prefix name "*" else name

unfoldable pub digest_of : String → List String → Option String
unfolding without_star to_lower
digest_of want (digest ∷ name ∷ []) =
    if without_star name == want then some (to_lower digest) else none
digest_of want _ = none

-- The loop over the lines of checksums.txt.
unfoldable pub checksum_in : String → List String → Option String
unfolding digest_of fields
checksum_in want [] = none
checksum_in want (line ∷ lines) = elim (digest_of want (fields (trim_space line))) [
  | some digest ↦ some digest
  | none ↦ checksum_in want lines
]

unfoldable pub checksum_of : String → String → Option String
unfolding limited split_lines checksum_in
checksum_of want raw = checksum_in want (split_lines (limited 1_048_576 raw))

unfoldable pub published : Option String → Outcome String
published none = failed no_checksum
published (some digest) = done digest

unfoldable pub read_checksums : Web → Outcome (Option String) × Updater → Outcome String × Updater
unfolding checksum_of published asset_name
read_checksums w (failed f, u) = (failed f, u)
read_checksums w (done none, u) = (failed unread_checksums, u)
read_checksums w (done (some raw), u) = (published (checksum_of (asset_name w) raw), u)

unfoldable pub expected_checksum : Web → ℕ → Release → Updater → Outcome String × Updater
unfolding get read_checksums
expected_checksum w now r u = elim (lookup "checksums.txt" r.assets) [
  | none ↦ (failed no_checksums, u)
  | some url ↦ read_checksums w (get w now url u)
]
