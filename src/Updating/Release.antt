-- ===== src/Updating/Release.antt =====
-- internal/updater/updater.go: the request for the latest release, and what is remembered of the answers.
-- The network, and the decoder of the API's answer, are fields of the environment. The clock stands still
-- during one check.
use Prim.Native.Char.{code}
use clawdh.Base.{
  ℕ, ◌+◌, ◌*◌, String, List, [], ◌∷◌, Option, none, some, Bool, not, ◌&&◌, ◌||◌, ◌==◌, ◌<>◌, ltb,
  nat_eq, if◌then◌else◌, minute, is_zero, has_prefix, put,
}

-- An instant is 0 where Go's is the zero time.
pub record Release : Type 0 where
  pub name : String
  pub tag : String
  pub published_at : ℕ
  pub assets : List (String × String)

-- What latestFromAPI reads an answer into.
pub record Payload : Type 0 where
  pub name : String
  pub tag_name : String
  pub published_at : ℕ
  pub assets : List (String × String)

-- An http.Response with the headers that are read: `last_modified` is what http.ParseTime makes of the
-- header, 0 where it makes nothing of it; `body` is none where reading it fails.
pub record Response : Type 0 where
  pub status : ℕ
  pub etag : String
  pub remaining : String  -- X-RateLimit-Remaining
  pub last_modified : ℕ
  pub body : Option String

pub data Answer : Type 0 where
  unreachable : Answer
  answered : Response → Answer

-- Why replaceBinary did not put the new binary in place.
pub data Refusal : Type 0 where
  not_aside : Refusal
  not_renamed : Refusal
  not_restored : Refusal
  needs_rights : Refusal
  not_elevated : Refusal

pub data Failure : Type 0 where
  not_fetched : Failure
  rate_limited : Failure  -- ErrRateLimited
  http_status : ℕ → Failure
  web_silent : Failure → Failure
  bad_payload : Failure
  no_binary : Failure
  no_publish_time : Failure
  no_checksums : Failure
  unread_checksums : Failure
  no_checksum : Failure
  unread_binary : Failure
  no_asset : Failure
  no_temp : Failure
  not_downloaded : Failure
  too_large : Failure
  not_synced : Failure
  not_closed : Failure
  mismatch : String → String → Failure
  not_executable : Failure
  not_installed : Refusal → Failure  -- installError

pub data Outcome {ℓ} (A : Type ℓ) : Type ℓ where
  failed : Failure → Outcome A
  done : A → Outcome A

-- The fields that are set, then what is remembered; a failure stands for its text.
pub record Updater : Type 0 where
  pub repo : String
  pub api_base : String
  pub web_base : String
  pub binary_path : String
  pub etag : String
  pub cached : Option Release
  pub rate_limited_until : ℕ
  pub last_check : ℕ
  pub last_err : Option Failure

-- What answers the requests: `net` takes the URL and the value of If-None-Match.
pub record Web : Type 0 where
  pub net : String → String → Answer
  pub decode : Option String → Option Payload
  pub goos : String
  pub goarch : String

abbrev pub rate_limit_backoff : ℕ
rate_limit_backoff = 20 * minute

-- strings.TrimSuffix(base, "/")
unfoldable pub without_slash : String → String
without_slash String.[] = ""
without_slash (String.◌∷◌ c String.[]) = if nat_eq (code c) b'/' then "" else String.◌∷◌ c ""
without_slash (String.◌∷◌ c (String.◌∷◌ d s)) = String.◌∷◌ c (without_slash (String.◌∷◌ d s))

unfoldable pub api_base_of : Updater → String
unfolding without_slash
api_base_of u = if u.api_base == "" then "https://api.github.com" else without_slash u.api_base

unfoldable pub web_base_of : Updater → String
unfolding without_slash
web_base_of u = if u.web_base == "" then "https://github.com" else without_slash u.web_base

unfoldable pub repo_of : Updater → String
repo_of u = if u.repo == "" then "Saif0089/clawdh" else u.repo

unfoldable pub asset_name : Web → String
asset_name w =
    let name = "clawdh_" <> w.goos <> "_" <> w.goarch in
    if w.goos == "windows" then name <> ".exe" else name

-- The part of fetch behind the request.
unfoldable pub received : Bool → ℕ → Answer → Updater → Outcome Response × Updater
received api now unreachable u = (failed not_fetched, u)
received api now (answered r) u =
    if nat_eq r.status 429 || (nat_eq r.status 403 && r.remaining == "0")
    then (
      failed rate_limited,
      if api then record u { rate_limited_until = now + rate_limit_backoff } else u,
    )
    else if not (nat_eq r.status 200) && not (nat_eq r.status 304)
    then (failed (http_status r.status), u)
    else (done r, if api then record u { rate_limited_until = 0 } else u)

unfoldable pub fetch : Web → ℕ → String → String → Updater → Outcome Response × Updater
unfolding received api_base_of
fetch w now url etag u = received (has_prefix url (api_base_of u)) now (w.net url etag) u

-- The part of get behind fetch: the body of an answer with status 200.
unfoldable pub body_of : Outcome Response × Updater → Outcome (Option String) × Updater
body_of (failed f, u) = (failed f, u)
body_of (done r, u) =
    if nat_eq r.status 200 then (done r.body, u) else (failed (http_status r.status), u)

unfoldable pub get : Web → ℕ → String → Updater → Outcome (Option String) × Updater
unfolding fetch body_of
get w now url u = body_of (fetch w now url "" u)

-- The download link of a file of the latest release.
unfoldable pub link : Updater → String → String
unfolding web_base_of repo_of
link u name = web_base_of u <> "/" <> repo_of u <> "/releases/latest/download/" <> name

unfoldable pub web_release : Web → Updater → ℕ → Release
unfolding link asset_name
web_release w u at = record {
  name = "latest";
  tag = "latest";
  published_at = at;
  assets =
      put (asset_name w) (link u (asset_name w)) (("checksums.txt", link u "checksums.txt") ∷ []);
}

unfoldable pub web_answer : Web → Outcome Response × Updater → Outcome Release × Updater
unfolding web_release
web_answer w (failed f, u) = (failed (web_silent f), u)
web_answer w (done r, u) = (done (web_release w u r.last_modified), u)

unfoldable pub latest_from_web : Web → ℕ → Updater → Outcome Release × Updater
unfolding fetch link web_answer
latest_from_web w now u = web_answer w (fetch w now (link u "checksums.txt") "" u)

unfoldable pub with_assets :
    List (String × String) → List (String × String) → List (String × String)
with_assets [] m = m
with_assets ((name, url) ∷ rest) m = with_assets rest (put name url m)

unfoldable pub release_of : Payload → Release
unfolding with_assets
release_of p = record {
  name = if p.name == "" then p.tag_name else p.name;
  tag = p.tag_name;
  published_at = p.published_at;
  assets = with_assets p.assets [];
}

-- A release that is read from an answer is kept with its ETag.
unfoldable pub kept : Response → Option Payload → Updater → Outcome Release × Updater
unfolding release_of
kept r none u = (failed bad_payload, u)
kept r (some p) u = (done (release_of p), record u { etag = r.etag; cached = some (release_of p) })

unfoldable pub api_answer : Web → Outcome Response × Updater → Outcome Release × Updater
unfolding kept
api_answer w (failed f, u) = (failed f, u)
api_answer w (done r, u) =
    if nat_eq r.status 304
    then elim u.cached [ some c ↦ (done c, u) | none ↦ kept r (w.decode r.body) u ]
    else kept r (w.decode r.body) u

unfoldable pub latest_from_api : Web → ℕ → Updater → Outcome Release × Updater
unfolding fetch api_answer api_base_of repo_of
latest_from_api w now u =
    api_answer w
      (fetch w now (api_base_of u <> "/repos/" <> repo_of u <> "/releases/latest") u.etag u)

-- What follows an answer of the API: github.com is asked where the API refuses.
unfoldable pub or_from_web : Web → ℕ → Outcome Release × Updater → Outcome Release × Updater
unfolding latest_from_web
or_from_web w now (done r, u) = (done r, u)
or_from_web w now (failed rate_limited, u) = latest_from_web w now u
or_from_web w now (failed f, u) = (failed f, u)

unfoldable pub latest : Web → ℕ → Updater → Outcome Release × Updater
unfolding latest_from_web latest_from_api or_from_web
latest w now u =
    if not (is_zero u.rate_limited_until) && ltb now u.rate_limited_until
    then latest_from_web w now u
    else or_from_web w now (latest_from_api w now u)
