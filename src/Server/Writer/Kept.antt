-- ===== src/Server/Writer/Kept.antt =====
-- cmd/clawdh-server/dbwriter.go: the rotated credentials, from the request to the database.
use clawdh.Base.{
  ℕ, ◌≡◌, refl, sym, ap, ◌∙◌, subst, ◌⊎◌, inl, inr, String, List, [], ◌∷◌, ◌++◌, Option, none, some,
  Option-cases, Bool-cases, Bool, true, false, arith, leb, length, nat_eq, ◌&&◌, ◌==◌, lookup, put,
  lookup-put, lookup-delete, eq_iff, if◌then◌else◌,
}
use mathlib.Core.Option.{some-injective}
use mathlib.Core.List.{Mem, mem-append_left, mem-append_right, mem-cons_self}
use clawdh.Gateway.Credentials.{Credential}
use clawdh.Server.Writer.{
  same_credential, Windows, Usage, PendingEvent, Writer, credential, window, collision, event,
  make_room, begin, max_pending_events, forget_credential, forget_window, forget_collision,
}
use clawdh.Server.Writer.Run.{
  State, initial, Request, rotates, reads, collides, uses, hand_over, write_next, leave, Action,
  asks, begins, writes, leaves, act,
}

-- The newest credential of the account that the requests have handed over.
unfoldable pub rotated : String → Action → Option Credential → Option Credential
rotated id (asks (rotates i c)) o = if i == id then some c else o
rotated id _ o = o

unfoldable pub newest : String → List Action → Option Credential → Option Credential
unfolding rotated
newest id [] o = o
newest id (a ∷ rest) o = newest id rest (rotated id a o)

-- The actions, one after the other.
unfoldable pub run : List Action → State → State
run [] s = s
run (a ∷ rest) s = run rest (act a s)

abbrev pub Logins : Type 0
Logins = List (String × Credential)

-- It is queued, or stored, or storeCredential had no use for it.
unfoldable pub KeptIn : String → Logins → Logins → Logins → Option Credential → Type 0
KeptIn id queued stored declined none = Unit
KeptIn id queued stored declined (some c) =
    (lookup id queued ≡ some c) ⊎ Mem (id, c) stored ⊎ Mem (id, c) declined

same_credential_lem : (a b : Credential) → same_credential a b ≡ true → a ≡ b
unfolding same_credential
same_credential_lem a b h =
    let x : a.access_token ≡ b.access_token =
      ground (arith, eq_iff a.access_token b.access_token) in
    let y : a.refresh_token ≡ b.refresh_token =
      ground (arith, eq_iff a.refresh_token b.refresh_token) in
    let z : a.expires_at ≡ b.expires_at = ground arith in cc

-- A rotation is queued.
put-KeptIn :
    (id i : String) (c : Credential) (queued stored declined : Logins) (o : Option Credential)
    → KeptIn id queued stored declined o
    → KeptIn id (put i c queued) stored declined (if i == id then some c else o)
unfolding KeptIn
put-KeptIn id i c queued stored declined none k = elim (Bool-cases (i == id)) [
  | inl y ↦
      rw y (inl (lookup-put i id c queued ∙ ap (λ b. if b then some c else lookup id queued) y))
  | inr n ↦ rw n tt
]
put-KeptIn id i c queued stored declined (some d) k = elim (Bool-cases (i == id)) [
  | inl y ↦
      rw y (inl (lookup-put i id c queued ∙ ap (λ b. if b then some c else lookup id queued) y))
  | inr n ↦ rw n (elim k [
    | inl q ↦
        inl (lookup-put i id c queued ∙ ap (λ b. if b then some c else lookup id queued) n ∙ q)
    | inr m ↦ inr m
  ])
]

-- What the queue of credentials holds once one is stored.
lookup-forget_credential :
    (id i : String) (c d : Credential) (w : Writer)
    → lookup id w.creds ≡ some d
    → (lookup id (forget_credential i c w).creds ≡ some d) ⊎ ((i ≡ id) × (c ≡ d))
unfolding forget_credential
lookup-forget_credential id i c d w q = elim (Option-cases (lookup i w.creds)) [
  | inl e ↦ rw (forget_credential, e) (inl q)
  | inr (cur, e) ↦
      rw (forget_credential, e)
        (elim (Bool-cases (same_credential cur c)) [
          | inl y ↦ rw y (elim (Bool-cases (i == id)) [
            | inl same ↦
                let at : i ≡ id = ground (arith, eq_iff i id) in
                inr (
                  at,
                  sym (same_credential_lem cur c y)
                      ∙ some-injective cur d (sym e ∙ ap (λ k. lookup k w.creds) at ∙ q),
                )
            | inr other ↦ inl (
                lookup-delete i id w.creds
                ∙ ap (λ b. if b then none else lookup id w.creds) other
                ∙ q)
          ])
          | inr n ↦ rw n (inl q)
        ])
]

one-Mem :
    (id i : String) (c d : Credential)
    → i ≡ id
    → c ≡ d
    → Mem {A = String × Credential} (id, d) ((i, c) ∷ [])
one-Mem id i c d at same =
    subst (λ j. Mem {A = String × Credential} (j, d) ((i, c) ∷ [])) at
      (subst (λ b. Mem {A = String × Credential} (i, b) ((i, c) ∷ [])) same mem-cons_self)

-- A credential is stored or declined, and forgotten where it is still the one that is queued.
store-KeptIn :
    (id i : String) (c : Credential) (w : Writer) (took : Bool) (stored declined : Logins)
    (o : Option Credential)
    → KeptIn id w.creds stored declined o
    → KeptIn id
        (forget_credential i c w).creds
        (if took then stored ++ (i, c) ∷ [] else stored)
        (if took then declined else declined ++ (i, c) ∷ [])
        o
unfolding KeptIn
store-KeptIn id i c w took stored declined none k = tt
store-KeptIn id i c w true stored declined (some d) (inr (inl m)) =
    inr (inl (mem-append_left ((i, c) ∷ []) m))
store-KeptIn id i c w false stored declined (some d) (inr (inl m)) = inr (inl m)
store-KeptIn id i c w true stored declined (some d) (inr (inr m)) = inr (inr m)
store-KeptIn id i c w false stored declined (some d) (inr (inr m)) =
    inr (inr (mem-append_left ((i, c) ∷ []) m))
store-KeptIn id i c w true stored declined (some d) (inl q) =
    elim (lookup-forget_credential id i c d w q) [
      | inl e ↦ inl e
      | inr e ↦ inr (inl (mem-append_right stored (one-Mem id i c d e.0 e.1)))
    ]
store-KeptIn id i c w false stored declined (some d) (inl q) =
    elim (lookup-forget_credential id i c d w q) [
      | inl e ↦ inl e
      | inr e ↦ inr (inr (mem-append_right declined (one-Mem id i c d e.0 e.1)))
    ]

-- Another entry that is forgotten leaves the credentials.
forget_window-creds :
    (id : String) (win : Windows) (w : Writer) → (forget_window id win w).creds ≡ w.creds
unfolding forget_window
forget_window-creds id win w = elim (Option-cases (lookup id w.windows)) [
  | inl e ↦ rw (forget_window, e) refl
  | inr (cur, e) ↦
      rw (forget_window, e)
        (elim (Bool-cases
          (nat_eq cur.seven_d win.seven_d && nat_eq cur.seven_d_reset win.seven_d_reset)) [
            | inl y ↦ rw y refl
            | inr n ↦ rw n refl
          ])
]

forget_collision-creds :
    (id note : String) (w : Writer) → (forget_collision id note w).creds ≡ w.creds
unfolding forget_collision
forget_collision-creds id note w = elim (Option-cases (lookup id w.collisions)) [
  | inl e ↦ rw (forget_collision, e) refl
  | inr (cur, e) ↦
      rw (forget_collision, e)
        (elim (Bool-cases (cur == note)) [ inl y ↦ rw y refl | inr n ↦ rw n refl ])
]

event-creds : (ev : Usage) (w : Writer) → (event ev w).creds ≡ w.creds
unfolding event make_room
event-creds ev w = elim (Bool-cases (leb max_pending_events (length w.events))) [
  | inl full ↦ rw full refl
  | inr room ↦ rw room refl
]

abbrev Kept : String → State → Option Credential → Type 0
Kept id s o = KeptIn id s.writer.creds s.creds s.declined o

module _ (id : String) where
  hand_over-KeptIn :
      (r : Request) (w : Writer) (stored declined : Logins) (o : Option Credential)
      → KeptIn id w.creds stored declined o
      → KeptIn id (hand_over r w).creds stored declined (rotated id (asks r) o)
  unfolding hand_over rotated credential window collision
  hand_over-KeptIn (rotates i c) w stored declined o k =
      put-KeptIn id i c w.creds stored declined o k
  hand_over-KeptIn (reads i win) w stored declined o k = k
  hand_over-KeptIn (collides i note) w stored declined o k = k
  hand_over-KeptIn (uses ev) w stored declined o k =
      subst (λ q. KeptIn id q stored declined o) (sym (event-creds ev w)) k

  write_next-Kept :
      (took : Bool) (cs : List (String × Credential)) (ws : List (String × Windows))
      (ns : List (String × String)) (es : List PendingEvent) (n : ℕ) (s : State)
      (o : Option Credential)
      → Kept id s o
      → Kept id (write_next took cs ws ns es n s) o
  unfolding write_next
  write_next-Kept took ((i, c) ∷ cs) ws ns es n s o k =
      store-KeptIn id i c s.writer took s.creds s.declined o k
  write_next-Kept took [] ((i, win) ∷ ws) ns es n s o k =
      subst (λ q. KeptIn id q s.creds s.declined o) (sym (forget_window-creds i win s.writer)) k
  write_next-Kept took [] [] ((i, note) ∷ ns) es n s o k =
      subst (λ q. KeptIn id q s.creds s.declined o) (sym (forget_collision-creds i note s.writer)) k
  write_next-Kept took [] [] [] (e ∷ es) n s o k = k
  write_next-Kept took [] [] [] [] n s o k = k

  leave-Kept :
      (cs : List (String × Credential)) (ws : List (String × Windows)) (ns : List (String × String))
      (n : ℕ) (s : State) (o : Option Credential)
      → Kept id s o
      → Kept id (leave cs ws ns n s) o
  unfolding leave
  leave-Kept [] [] [] n s o k = k
  leave-Kept [] [] (x ∷ ns) n s o k = k
  leave-Kept [] (x ∷ ws) ns n s o k = k
  leave-Kept (x ∷ cs) ws ns n s o k = k

  act-Kept :
      (a : Action) (s : State) (o : Option Credential)
      → Kept id s o
      → Kept id (act a s) (rotated id a o)
  unfolding act rotated
  act-Kept (asks r) s o k = hand_over-KeptIn r s.writer s.creds s.declined o k
  act-Kept begins s o k = elim (Option-cases s.batch) [
    | inl e ↦ rw (act, e, begin) k
    | inr (b, e) ↦ rw (act, e) k
  ]
  act-Kept (writes took) s o k = elim (Option-cases s.batch) [
    | inl e ↦ rw (act, e) k
    | inr (b, e) ↦
        rw (act, e) (write_next-Kept took b.creds b.windows b.collisions b.events b.written s o k)
  ]
  act-Kept leaves s o k = elim (Option-cases s.batch) [
    | inl e ↦ rw (act, e) k
    | inr (b, e) ↦ rw (act, e) (leave-Kept b.creds b.windows b.collisions b.written s o k)
  ]

  run-Kept :
      (actions : List Action) (s : State) (o : Option Credential)
      → Kept id s o
      → Kept id (run actions s) (newest id actions o)
  unfolding run newest
  run-Kept [] s o k = k
  run-Kept (a ∷ rest) s o k = run-Kept rest (act a s) (rotated id a o) (act-Kept a s o k)

-- No rotation is lost in the queue: after any requests and any steps of flushes from the start, failed writes and
-- flushes cut short among them, the newest credential that was handed over for an account is still queued for
-- it, or has been stored, or storeCredential was given it and returned without an error and without storing it.
pub run-KeptIn :
    (id : String) (actions : List Action)
    → KeptIn id
        (run actions initial).writer.creds
        (run actions initial).creds
        (run actions initial).declined
        (newest id actions none)
unfolding KeptIn
run-KeptIn id actions = run-Kept id actions initial none tt
