-- ===== src/Panel/Answer.antt =====
-- What a decision of the panel comes to: a value, or a refusal with the HTTP status and the sentence
-- that the handler answers with.
use clawdh.Base.{ℕ, String, ◌≡◌, refl, subst, Bool, true, false, Option, none, some}

pub data Result {ℓ} (A : Type ℓ) : Type ℓ where
  ok : A → Result A
  refuse : ℕ → String → Result A

infixl 5 ◌>>=◌ ◌>>◌
abbrev pub ◌>>=◌ {ℓ κ} : {A : Type ℓ} {B : Type κ} → Result A → (A → Result B) → Result B
ok a >>= f = f a
refuse status message >>= f = refuse status message

abbrev pub ◌>>◌ {ℓ} : {B : Type ℓ} → Result (Unit {0}) → Result B → Result B
m >> k = m >>= λ _. k

-- `if bad { return errors.New(message) }`
abbrev pub refuse_if : Bool → ℕ → String → Result (Unit {0})
refuse_if true status message = refuse status message
refuse_if false status message = ok tt

-- `x, ok := find(); if !ok { return errors.New(message) }`
abbrev pub or_refuse {ℓ} : {A : Type ℓ} → Option A → ℕ → String → Result A
or_refuse none status message = refuse status message
or_refuse (some a) status message = ok a

-- What a decision that goes through leaves satisfies `P`.
abbrev pub Ensures {ℓ κ} : {A : Type ℓ} → (A → Type κ) → Result A → Type κ
Ensures P (ok a) = P a
Ensures P (refuse status message) = Unit

pub Ensures-refuse_if {ℓ κ} :
    {A : Type ℓ} (P : A → Type κ) (b : Bool) (status : ℕ) (message : String) (k : Result A)
    → (b ≡ false → Ensures P k)
    → Ensures P (refuse_if b status message >> k)
Ensures-refuse_if P true status message k h = tt
Ensures-refuse_if P false status message k h = h refl

pub Ensures-or_refuse {ℓ κ μ} :
    {A : Type ℓ} {B : Type κ} (P : B → Type μ) (o : Option A) (status : ℕ) (message : String)
    (f : A → Result B)
    → ((a : A) → o ≡ some a → Ensures P (f a))
    → Ensures P (or_refuse o status message >>= f)
Ensures-or_refuse P none status message f h = tt
Ensures-or_refuse P (some a) status message f h = h a refl

pub Ensures-bind {ℓ κ μ} :
    {A : Type ℓ} {B : Type κ} (P : B → Type μ) (m : Result A) (f : A → Result B)
    → ((a : A) → m ≡ ok a → Ensures P (f a))
    → Ensures P (m >>= f)
Ensures-bind P (ok a) f h = h a refl
Ensures-bind P (refuse status message) f h = tt

pub Ensures-ok {ℓ κ} :
    {A : Type ℓ} (P : A → Type κ) (r : Result A) {a : A} → Ensures P r → r ≡ ok a → P a
Ensures-ok P r {a} h e = subst (Ensures P) e h
