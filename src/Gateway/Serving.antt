-- ===== src/Gateway/Serving.antt =====
-- What the handler of internal/gateway/gateway.go promises to a member and to the owner of a login.
use clawdh.Base.{
  ℕ, suc, ◌≡◌, refl, ◌⊎◌, inl, inr, String, List, [], ◌∷◌, Option, none, some, Option-cases,
  Bool-cases, true, false, ◌||◌, ◌==◌, ltb, nat_eq, ◌<>◌,
}
use clawdh.Gateway.Credentials.{Answer, token, error}
use clawdh.Gateway.Headers.{Header, with_header, without_header, Request, direct}
use clawdh.Gateway.Proxy.{
  Resolution, QuotaStatus, Response, Exchange, replied, canceled, unreachable, Reply, denied,
  over_quota, upstream_failed, passed, gone, Forwarded, with_standing, Verdict, answer, retry_with,
  on_renewed, modify_response, outgoing, proxy, forward,
}

-- An answer, and not a refusal of Anthropic's.
abbrev pub NotRefused : Option Reply → Type 0
NotRefused none = ⊥
NotRefused (some (passed resp)) = nat_eq resp.status 401 ≡ false
NotRefused (some (denied status kind message)) = Unit
NotRefused (some (over_quota seconds message)) = Unit
NotRefused (some (upstream_failed err)) = Unit
NotRefused (some gone) = Unit

-- A refusal of Anthropic's.
abbrev pub Refusal : Exchange → Type 0
Refusal (replied resp) = nat_eq resp.status 401 ≡ true
Refusal canceled = ⊥
Refusal (unreachable err) = ⊥

-- The forwarded request carries the token `t` in place of the member's key.
abbrev pub Swapped : String → Forwarded → Type 0
Swapped t out = (out.header "x-api-key" ≡ "") × (out.header "authorization" ≡ "Bearer " <> t)

direct-Swapped :
    (t : String) (h : Header)
    → (direct t h "x-api-key" ≡ "") × (direct t h "authorization" ≡ "Bearer " <> t)
unfolding direct with_header without_header
direct-Swapped t h = elim (Bool-cases (h "anthropic-version" == "")) [
  | inl e ↦ rw e (refl, refl)
  | inr e ↦ rw e (refl, refl)
]

outgoing-Swapped : (t : String) (r : Request) → Swapped t (outgoing t r)
unfolding outgoing
outgoing-Swapped t r = direct-Swapped t r.header

with_standing-status :
    (st : QuotaStatus) (resp : Response) → (with_standing st resp).status ≡ resp.status
unfolding with_standing
with_standing-status st resp = elim (Bool-cases (ltb 0 st.used || st.over)) [
  | inl e ↦ rw e refl
  | inr e ↦ rw e refl
]

-- What goes out for a member and what comes back: one request, with the token of the resolution;
-- or two, when Anthropic refused the first one's token, the second with another token. In
-- either case the member gets an answer that is not Anthropic's refusal.
abbrev pub Exchanged :
    (ℕ → Forwarded → Exchange) → Resolution → List Forwarded × Option Reply → Type 0
Exchanged anthropic res (outs, reply) =
    NotRefused reply
    × (((a : Forwarded) × (outs ≡ a ∷ []) × Swapped res.access_token a)
        ⊎ ((a : Forwarded) × (b : Forwarded) × (t : String) × (outs ≡ a ∷ b ∷ [])
            × Swapped res.access_token a
            × Swapped t b
            × (t == res.access_token ≡ false)
            × Refusal (anthropic 0 a)))

module _ (renew : Option (String → String → Answer)) (anthropic : ℕ → Forwarded → Exchange) where
  -- A verdict that answers the member without passing on a refusal.
  Final : Verdict → Type 0
  Final v = (reply : Reply) × (v ≡ answer reply) × NotRefused (some reply)

  passed-Final :
      (quota : QuotaStatus) (resp : Response)
      → nat_eq resp.status 401 ≡ false
      → Final (answer (passed (with_standing quota resp)))
  unfolding Final
  passed-Final quota resp e =
      (passed (with_standing quota resp), refl, rw (with_standing-status quota resp) e)

  retried-Final :
      (res : Resolution) (quota : QuotaStatus) (bad : String) (resp : Response)
      → res.account_id == "" ≡ false
      → Final (modify_response renew anthropic true res quota bad resp)
  unfolding modify_response Final
  retried-Final res quota bad resp known = elim (Bool-cases (nat_eq resp.status 401)) [
    | inl e ↦ rw (e, known) (_, refl, tt)
    | inr e ↦ rw e (passed-Final quota resp e)
  ]

  on_renewed-cases :
      (bad : String) (a : Answer)
      → Final (on_renewed bad a)
        ⊎ ((fresh : String) × (on_renewed bad a ≡ retry_with fresh) × (fresh == bad ≡ false))
  unfolding on_renewed Final
  on_renewed-cases bad (error err) = inl (_, refl, tt)
  on_renewed-cases bad (token fresh) = elim (Bool-cases (fresh == bad)) [
    | inl e ↦ rw e (inl (_, refl, tt))
    | inr e ↦ rw e (inr (fresh, refl, e))
  ]

  modify_response-cases :
      (res : Resolution) (quota : QuotaStatus) (bad : String) (resp : Response)
      → res.account_id == "" ≡ false
      → Final (modify_response renew anthropic false res quota bad resp)
        ⊎ ((fresh : String) × (modify_response renew anthropic false res quota bad resp
              ≡ retry_with fresh)
            × (fresh == bad ≡ false)
            × (nat_eq resp.status 401 ≡ true))
  unfolding modify_response Final
  modify_response-cases res quota bad resp known = elim (Bool-cases (nat_eq resp.status 401)) [
    | inr e ↦ rw e (inl (passed-Final quota resp e))
    | inl e ↦ elim (Option-cases renew) [
      | inl f ↦ rw (e, known, f) (inl (_, refl, tt))
      | inr (renewed, f) ↦
          rw (e, known, f) (go e (on_renewed-cases bad (renewed res.account_id bad)))
    ]
  ]
    where
      go :
          nat_eq resp.status 401 ≡ true
          → {v : Verdict}
          → (Final v ⊎ ((fresh : String) × (v ≡ retry_with fresh) × (fresh == bad ≡ false)))
          → Final v
            ⊎ ((fresh : String) × (v ≡ retry_with fresh) × (fresh == bad ≡ false) × (true ≡ true))
      go e (inl f) = inl f
      go e (inr (fresh, f, g)) = inr (fresh, f, g, refl)

  proxy-retried :
      (fuel n : ℕ) (res : Resolution) (quota : QuotaStatus) (r : Request) (bearer : String)
      → res.account_id == "" ≡ false
      → (reply : Reply) × (proxy renew anthropic (suc fuel) n true res quota r bearer
          ≡ (outgoing bearer r ∷ [], some reply))
        × NotRefused (some reply)
  unfolding proxy Final
  proxy-retried fuel n res quota r bearer known = go (anthropic n (outgoing bearer r)) refl
    where
      go :
          (e : Exchange)
          → anthropic n (outgoing bearer r) ≡ e
          → (reply : Reply) × (proxy renew anthropic (suc fuel) n true res quota r bearer
              ≡ (outgoing bearer r ∷ [], some reply))
            × NotRefused (some reply)
      go canceled h = rw (proxy, h) (gone, refl, tt)
      go (unreachable err) h = rw (proxy, h) (upstream_failed err, refl, tt)
      go (replied resp) h =
          let (reply, f, g) = retried-Final res quota bearer resp known in
          rw (proxy, h, f) (reply, refl, g)

  proxy-again :
      (fuel n : ℕ) (res : Resolution) (quota : QuotaStatus) (r : Request) (bearer : String)
      (resp : Response) (fresh : String)
      → anthropic n (outgoing bearer r) ≡ replied resp
      → modify_response renew anthropic false res quota bearer resp ≡ retry_with fresh
      → proxy renew anthropic (suc fuel) n false res quota r bearer ≡ (
          let again =
            proxy renew anthropic fuel
              (suc n)
              true
              res
              quota
              (record r { header = (outgoing bearer r).header })
              fresh in
          (outgoing bearer r ∷ again.0, again.1))
  unfolding proxy
  proxy-again fuel n res quota r bearer resp fresh h f = rw (proxy, h, f) refl

  pub forward-Exchanged :
      (res : Resolution) (quota : QuotaStatus) (r : Request)
      → res.account_id == "" ≡ false
      → Exchanged anthropic res (forward renew anthropic res quota r)
  unfolding forward proxy Final
  forward-Exchanged res quota r known = go (anthropic 0 out) refl
    where
      out : Forwarded
      out = outgoing res.access_token r

      one : Swapped res.access_token out
      one = outgoing-Swapped res.access_token r

      go :
          (e : Exchange)
          → anthropic 0 out ≡ e
          → Exchanged anthropic res (forward renew anthropic res quota r)
      go canceled h = rw (forward, proxy, h) (tt, inl (out, refl, one))
      go (unreachable err) h = rw (forward, proxy, h) (tt, inl (out, refl, one))
      go (replied resp) h = elim (modify_response-cases res quota res.access_token resp known) [
        | inl (reply, f, g) ↦ rw (forward, proxy, h, f) (g, inl (out, refl, one))
        | inr (fresh, f, g, k) ↦
            let r' = (record r { header = out.header }) in
            let (reply, e, l) = proxy-retried 0 1 res quota r' fresh known in
            let refusal : Refusal (anthropic 0 out) = rw h k in
            rw (proxy-again 1 0 res quota r res.access_token resp fresh h f, e)
              (
                l,
                inr (
                  out,
                  outgoing fresh r',
                  fresh,
                  refl,
                  one,
                  outgoing-Swapped fresh r',
                  g,
                  refusal,
                ),
              )
      ]
