-- ===== src/Gateway/Headers.antt =====
-- internal/gateway/gateway.go and cache.go: what the gateway reads from and writes to a request's and a
-- reply's headers. Header names are in lower case, since net/http takes them in any; a header that
-- is not there is the empty text, as `Get` has it. The instants of a quota's reset are in nanoseconds.
use Prim.Native.Char.{code}
use Prim.Native.String
use clawdh.Base.{
  ℕ, zero, suc, ◌-◌, ◌/◌, String, Bool, true, false, not, ◌&&◌, ◌||◌, ◌==◌, ltb, leb, nat_eq,
  is_zero, if◌then◌else◌, ◌<>◌, trim_space, has_prefix, without_prefix, second,
}

abbrev pub Header : Type 0
Header = String → String

-- Header.Set, and Header.Del as the setting of the empty text.
unfoldable pub with_header : String → String → Header → Header
with_header name value h = λ other. if other == name then value else h other

unfoldable pub without_header : String → Header → Header
unfolding with_header
without_header name h = with_header name "" h

-- memberKey
unfoldable pub member_key : Header → String
member_key h =
    if has_prefix (h "authorization") "Bearer "
    then trim_space (without_prefix (h "authorization") "Bearer ")
    else trim_space (h "x-api-key")

-- The loop over what strings.Split cuts at commas: `acc` is what has been read of the current piece.
unfoldable pub has_beta_from : String → String → String → Bool
has_beta_from acc String.[] need = trim_space acc == need
has_beta_from acc (String.◌∷◌ c s) need = elim (nat_eq (code c) b',') [
  | true ↦ (trim_space acc == need) || has_beta_from "" s need
  | false ↦ has_beta_from (acc <> String.◌∷◌ c "") s need
]

-- Whether a piece of `have` is `need`.
unfoldable pub has_beta : String → String → Bool
unfolding has_beta_from
has_beta have need = has_beta_from "" have need

-- withBeta
unfoldable pub with_beta : String → String → String
unfolding has_beta
with_beta have need =
    if have == "" then need else if has_beta have need then have else have <> "," <> need

-- resetSeconds, at the time `now`
unfoldable pub reset_seconds : ℕ → ℕ → ℕ
reset_seconds now reset =
    if is_zero reset then 0 else let s = (reset - now) / second in if ltb s 1 then 1 else s

-- stripUnifiedRateLimit
unfoldable pub strip_unified_rate_limit : Header → Header
strip_unified_rate_limit h =
    λ name. if has_prefix name "anthropic-ratelimit-unified-" then "" else h name

is_session_char : ℕ → Bool
is_session_char c =
    (leb b'a' c && leb c b'z')
    || (leb b'A' c && leb c b'Z')
    || (leb b'0' c && leb c b'9')
    || nat_eq c b'-'
    || nat_eq c b'_'

unfoldable pub all_session_chars : String → Bool
unfolding is_session_char
all_session_chars String.[] = true
all_session_chars (String.◌∷◌ c s) = is_session_char (code c) && all_session_chars s

-- sessionID
unfoldable pub session_id : Header → String
unfolding all_session_chars
session_id h =
    let id = h "x-claude-code-session-id" in
    if is_zero (String.len id) || ltb 64 (String.len id)
    then ""
    else if all_session_chars id
    then id
    else ""

-- bytes.Count and bytes.ReplaceAll of a text that is not empty, from left to right: `skip` characters
-- of an occurrence are still to be passed over.
count_from : ℕ → String → String → ℕ
count_from skip String.[] old = 0
count_from zero (String.◌∷◌ c s) old = elim (has_prefix (String.◌∷◌ c s) old) [
  | true ↦ suc (count_from (String.count old - 1) s old)
  | false ↦ count_from 0 s old
]
count_from (suc skip) (String.◌∷◌ c s) old = count_from skip s old

replace_from : ℕ → String → String → String → String
replace_from skip String.[] old new = ""
replace_from zero (String.◌∷◌ c s) old new = elim (has_prefix (String.◌∷◌ c s) old) [
  | true ↦ new <> replace_from (String.count old - 1) s old new
  | false ↦ String.◌∷◌ c (replace_from 0 s old new)
]
replace_from (suc skip) (String.◌∷◌ c s) old new = replace_from skip s old new

abbrev pub bare_breakpoint : String
bare_breakpoint = "\"cache_control\":{\"type\":\"ephemeral\"}"

abbrev pub hour_breakpoint : String
hour_breakpoint = "\"cache_control\":{\"type\":\"ephemeral\",\"ttl\":\"1h\"}"

-- What the gateway gets of a request; `read_fails` is an error of io.ReadAll on the body.
pub record Request : Type 0 where
  pub method : String
  pub path : String
  pub header : Header
  pub body : String
  pub read_fails : Bool

-- withHourCache
unfoldable pub with_hour_cache : Request → Request
unfolding count_from replace_from with_beta with_header
with_hour_cache r =
    let bare = count_from 0 r.body bare_breakpoint in
    if not (r.method == "POST") || not (r.path == "/v1/messages")
    then r
    else if is_zero bare || not (nat_eq bare (count_from 0 r.body "\"cache_control\":"))
    then r
    else record r {
      header =
          with_header "anthropic-beta"
            (with_beta (r.header "anthropic-beta") "extended-cache-ttl-2025-04-11") r.header;
      body = replace_from 0 r.body bare_breakpoint hour_breakpoint;
    }

-- The `Director` that New sets.
unfoldable pub direct : String → Header → Header
unfolding with_header without_header with_beta
direct token h0 =
    let h1 = without_header "x-api-key" (with_header "authorization" ("Bearer " <> token) h0) in
    let h2 =
      (if h1 "anthropic-version" == ""
        then with_header "anthropic-version" "2023-06-01" h1
        else h1) in
    let h3 = with_header "anthropic-beta" (with_beta (h2 "anthropic-beta") "oauth-2025-04-20") h2 in
    without_header "accept-encoding" h3
