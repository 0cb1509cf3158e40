-- ===== src/Tests/Gateway.antt =====
-- The gateway's theorems on a login whose stored copy is old, and on a member whose account's token
-- Anthropic refuses once.
use clawdh.Base.{
  ℕ, zero, suc, ◌≡◌, refl, String, [], Option, some, false, ◌==◌, if◌then◌else◌, Bool-cases, inl,
  inr, subst, has_prefix, trim_space, without_prefix,
}
use clawdh.Gateway.Credentials.{Credential, Reply, granted, Manager, Answer, token}
use clawdh.Gateway.Headers.{Header, Request, member_key}
use clawdh.Gateway.Proxy.{
  Resolution, Resolved, resolved, unknown_key, QuotaStatus, Exchange, replied, Forwarded, serve,
}
use clawdh.Gateway.Serving.{Exchanged}
use clawdh.Gateway.Admission.{Served, serve-Served, serve-forwards}

abbrev held : Manager
held = record {
  cred = record { access_token = "at1"; refresh_token = "rt1"; expires_at = 100 };
  persisted = [];
  sent = [];
}

abbrev spent : Credential
spent = record { access_token = "at0"; refresh_token = "rt0"; expires_at = 50 }

abbrev service : String → Reply
service t = granted "at2" "rt2" 3600

abbrev clock : ℕ → ℕ
clock n = 70

abbrev headers : Header
headers name = if name == "authorization" then "Bearer k1" else ""

abbrev question : Request
question = record {
  method = "POST";
  path = "/v1/messages";
  header = headers;
  body = "{}";
  read_fails = false;
}

abbrev anns : Resolution
anns = record { access_token = "at1"; label = "max"; account_id = "a1"; person_id = "p1" }

abbrev resolve : String → Resolved
resolve key = if key == "k1" then resolved anns else unknown_key

abbrev with_status : ℕ → Exchange
with_status n = replied (record { status = n; header = λ name. ""; body = "" })

-- The first request is refused.
abbrev anthropic : ℕ → Forwarded → Exchange
anthropic zero out = with_status 401
anthropic (suc n) out = with_status 200

abbrev renewing : Option (String → String → Answer)
renewing = some (λ account bad. token "at2")

abbrev quota : Option (String → String → QuotaStatus)
quota =
    some
      (λ person account. record { over = false; used = 80; cap = 100; reset_at = 0; message = "" })

resolve-known :
    (key : String) (res : Resolution) → resolve key ≡ resolved res → res.account_id == "" ≡ false
resolve-known key res e = elim (Bool-cases (key == "k1")) [
  | inl h ↦
      let same : resolved anns ≡ resolved res = rw h at e in
      let account : anns ≡ res = cc same in subst (λ x. x.account_id == "" ≡ false) account refl
  | inr h ↦ let other : unknown_key ≡ resolved res = rw h at e in cc other
]

serve-Served_example :
    Served renewing anthropic 60 resolve quota
      (member_key headers)
      (serve renewing anthropic 60 resolve quota question)
serve-Served_example = serve-Served renewing anthropic 60 resolve quota question resolve-known

serve-forwards_example :
    Exchanged anthropic anns (serve renewing anthropic 60 resolve quota question)
unfolding member_key has_prefix trim_space without_prefix
serve-forwards_example =
    serve-forwards renewing anthropic 60 resolve quota question anns refl refl refl refl refl

abbrev asked : String
asked = "context-1m, files-api"
