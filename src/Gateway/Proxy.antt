-- ===== src/Gateway/Proxy.antt =====
-- internal/gateway/gateway.go: the handler that New builds, with the reverse proxy inside it. What is
-- not part of the gateway is an argument: what a key resolves to and how an account's token is renewed
-- (the Upstream of the gateway, and whether it is a Renewer), the quotas (the Limiter, if there is
-- one), and Anthropic, from the forwarded headers and body to its reply, the n-th time it is asked.
-- The recorder, which only reads what passes, is left out.
use Prim.Native.String
use clawdh.Base.{
  ℕ, zero, suc, ◌*◌, ◌/◌, String, List, [], ◌∷◌, Option, none, some, Bool, true, false, not, ◌&&◌,
  ◌||◌, ◌==◌, ltb, leb, nat_eq, is_zero, if◌then◌else◌, itoa, second,
}
use clawdh.Gateway.Credentials.{Failure, is_login_expired, Answer, token, error}
use clawdh.Gateway.Headers.{
  Header, with_header, member_key, reset_seconds, strip_unified_rate_limit, Request,
  with_hour_cache, direct,
}

pub record Resolution : Type 0 where
  pub access_token : String
  pub label : String
  pub account_id : String
  pub person_id : String

-- What Upstream.Resolve gives: a resolution, ErrUnknownKey, or any other error.
pub data Resolved : Type 0 where
  resolved : Resolution → Resolved
  unknown_key : Resolved
  unusable : Failure → Resolved

-- QuotaStatus, whose `Fraction` is the quotient of `used` by `cap`.
pub record QuotaStatus : Type 0 where
  pub over : Bool
  pub used : ℕ
  pub cap : ℕ
  pub reset_at : ℕ
  pub message : String

abbrev pub no_quota : QuotaStatus
no_quota = record { over = false; used = 0; cap = 1; reset_at = 0; message = "" }

-- `st.Fraction >= warnFraction`
unfoldable pub is_warned : QuotaStatus → Bool
is_warned st = leb (3 * st.cap) (4 * st.used)

pub record Response : Type 0 where
  pub status : ℕ
  pub header : Header
  pub body : String

-- What the transport brings back from Anthropic.
pub data Exchange : Type 0 where
  replied : Response → Exchange
  canceled : Exchange
  unreachable : String → Exchange

-- What the member gets: one of the gateway's own answers or a reply of Anthropic's.
pub data Reply : Type 0 where
  denied : ℕ → String → String → Reply
  over_quota : ℕ → String → Reply
  upstream_failed : String → Reply
  passed : Response → Reply
  gone : Reply

-- A request as it goes out to Anthropic.
pub record Forwarded : Type 0 where
  pub header : Header
  pub body : String

abbrev pub max_request_body : ℕ
max_request_body = 64 * 1024 * 1024

-- expiredMessage
abbrev expired_message : String
expired_message =
    "The shared login for this account has reached the end of its sign-in. Claude logins last about four weeks, and the gateway cannot extend one. The account's owner needs to sign in to it again and add it to the panel."

-- collisionMessage
abbrev collision_message : String
collision_message =
    "The shared login for this account stopped working — usually because the same account is also being used directly on another machine, which invalidates the copy the gateway holds. The account's owner needs to add its login to the panel again."

-- loginMessage; `renewErr` may be nil, which is no expiry.
unfoldable pub login_message : Option Failure → String
login_message none = collision_message
login_message (some err) = if is_login_expired err then expired_message else collision_message

-- The headers that tell a member's standing.
unfoldable pub standing_header : QuotaStatus → Header → Header
unfolding strip_unified_rate_limit with_header is_warned
standing_header st h =
    let status = (if is_warned st then "allowed_warning" else "allowed") in
    let told =
      with_header "anthropic-ratelimit-unified-status" status (strip_unified_rate_limit h) in
    if is_zero st.reset_at
    then told
    else with_header "anthropic-ratelimit-unified-reset" (itoa (st.reset_at / second)) told

-- The part of ModifyResponse about the member's quota.
unfoldable pub with_standing : QuotaStatus → Response → Response
unfolding standing_header
with_standing st resp =
    if ltb 0 st.used || st.over
    then record resp { header = standing_header st resp.header }
    else resp

-- What ModifyResponse comes to: a reply for the member, or a replay with a renewed token.
pub data Verdict : Type 0 where
  answer : Reply → Verdict
  retry_with : String → Verdict

-- ModifyResponse's answer to a refused token, with what Renew gave.
unfoldable pub on_renewed : String → Answer → Verdict
unfolding login_message
on_renewed bad (token fresh) =
    if fresh == bad then answer (denied 502 "api_error" (login_message none)) else retry_with fresh
on_renewed bad (error err) = answer (denied 502 "api_error" (login_message (some err)))

-- The request as the Director leaves it.
unfoldable pub outgoing : String → Request → Forwarded
unfolding direct
outgoing bearer r = record { header = direct bearer r.header; body = r.body }

module _ (renew : Option (String → String → Answer)) (anthropic : ℕ → Forwarded → Exchange) where
  -- The `ModifyResponse` that New sets.
  unfoldable pub modify_response : Bool → Resolution → QuotaStatus → String → Response → Verdict
  unfolding on_renewed with_standing login_message
  modify_response retried res quota bad resp =
      if nat_eq resp.status 401 && not (res.account_id == "")
      then if retried then answer (denied 502 "api_error" (login_message none)) else elim renew [
        | none ↦ answer (denied 502 "api_error" (login_message none))
        | some renewed ↦ on_renewed bad (renewed res.account_id bad)
      ]
      else answer (passed (with_standing quota resp))

  -- The reverse proxy and its ErrorHandler: the requests that went out, and the member's answer,
  -- which there is none of when the fuel is used up.
  unfoldable pub proxy :
      ℕ → ℕ → Bool → Resolution → QuotaStatus → Request → String → List Forwarded × Option Reply
  unfolding modify_response outgoing
  proxy zero n retried res quota r bearer = ([], none)
  proxy (suc fuel) n retried res quota r bearer =
      let out = outgoing bearer r in
      elim (anthropic n out) [
        | canceled ↦ (out ∷ [], some gone)
        | unreachable err ↦ (out ∷ [], some (upstream_failed err))
        | replied resp ↦ elim (modify_response retried res quota bearer resp) [
          | answer reply ↦ (out ∷ [], some reply)
          | retry_with fresh ↦
              let again =
                proxy fuel (suc n) true res quota (record r { header = out.header }) fresh in
              (out ∷ again.0, again.1)
        ]
      ]

  -- The rest of the handler, behind the check of the quota.
  unfoldable pub forward : Resolution → QuotaStatus → Request → List Forwarded × Option Reply
  unfolding proxy
  forward res quota r = proxy 2 0 false res quota r res.access_token

  -- The gate of the quota.
  unfoldable pub at_quota : ℕ → QuotaStatus → Resolution → Request → List Forwarded × Option Reply
  unfolding forward reset_seconds
  at_quota now quota res r =
      if quota.over
      then ([], some (over_quota (reset_seconds now quota.reset_at) quota.message))
      else forward res quota r

  -- The handler behind the body.
  unfoldable pub limited :
      ℕ
      → Option (String → String → QuotaStatus)
      → Resolution
      → Request
      → List Forwarded × Option Reply
  unfolding forward at_quota
  limited now none res r = forward res no_quota r
  limited now (some status) res r =
      if not (res.person_id == "") || not (res.account_id == "")
      then at_quota now (status res.person_id res.account_id) res r
      else forward res no_quota r

  -- The handler behind a key that resolves.
  unfoldable pub admit :
      ℕ
      → Option (String → String → QuotaStatus)
      → Resolution
      → Request
      → List Forwarded × Option Reply
  unfolding with_hour_cache limited
  admit now limiter res r =
      if r.read_fails || ltb max_request_body (String.len r.body)
      then (
        [],
        some (
            denied 413 "invalid_request_error"
              "That request is too large for the gateway to forward."),
      )
      else limited now limiter res (with_hour_cache r)

  -- The handler behind Resolve.
  unfoldable pub on_resolved :
      ℕ
      → Option (String → String → QuotaStatus)
      → Resolved
      → Request
      → List Forwarded × Option Reply
  unfolding admit login_message
  on_resolved now limiter unknown_key r = (
    [],
    some (
        denied 401 "authentication_error"
          "Your access to this shared account was removed, or this key isn't one the gateway knows. Ask whoever shared it to give you access again — a running `clawdh shared` session reconnects on its own once they do; `clawdh list` shows what you can run."),
  )
  on_resolved now limiter (unusable err) r =
      ([], some (denied 502 "api_error" (login_message (some err))))
  on_resolved now limiter (resolved res) r = admit now limiter res r

  -- The handler that New returns: what goes out to Anthropic, in order, and what the member gets.
  unfoldable pub serve :
      ℕ
      → (String → Resolved)
      → Option (String → String → QuotaStatus)
      → Request
      → List Forwarded × Option Reply
  unfolding member_key on_resolved
  serve now resolve limiter r =
      if member_key r.header == ""
      then (
        [],
        some (
            denied 401 "authentication_error"
              "No gateway key was sent. Run this account through clawdh (`clawdh shared <name>`), which supplies your key."),
      )
      else on_resolved now limiter (resolve (member_key r.header)) r
