-- ===== src/Gateway/Betas.antt =====
-- The anthropic-beta header that withBeta of internal/gateway/gateway.go makes.
use Prim.Native.Char.{Char, char, code}
use Prim.Native.String.append
use clawdh.Base.{
  ◌≡◌, refl, ap, ◌∙◌, inl, inr, String, Bool, Bool-cases, true, false, ◌||◌, ◌==◌, arith, nat_eq,
  ◌<>◌, trim_space, eq_iff,
}
use clawdh.Gateway.Headers.{has_beta_from, has_beta, with_beta}

at_comma :
    (acc t b : String)
    → has_beta_from acc ("," <> t) b ≡ (trim_space acc == b) || has_beta_from "" t b
unfolding has_beta_from
at_comma acc t b =
    ap (λ x. has_beta_from acc x b)
      (append.cons (char 44 tt) "" t ∙ ap (String.◌∷◌ (char 44 tt)) (append.nil t))

or_right : (a b : Bool) → b ≡ true → a || b ≡ true
or_right a b h = ground arith

or_left : (a b : Bool) → a ≡ true → a || b ≡ true
or_left a b h = ground arith

or_mono : (a b c : Bool) → (b ≡ true → c ≡ true) → a || b ≡ true → a || c ≡ true
or_mono true b c f h = refl
or_mono false b c f h = f h

-- What is behind a further comma is found.
has_beta_from-append :
    (acc s t b : String) → has_beta t b ≡ true → has_beta_from acc (s <> "," <> t) b ≡ true
unfolding has_beta_from has_beta
has_beta_from-append acc String.[] t b h =
    rw (append.nil ("," <> t)) (at_comma acc t b ∙ or_right (trim_space acc == b) _ h)
has_beta_from-append acc (String.◌∷◌ c s) t b h = elim (Bool-cases (nat_eq (code c) b',')) [
  | inl e ↦
      rw (append.cons c s ("," <> t), has_beta_from, e)
        (or_right (trim_space acc == b) _ (has_beta_from-append "" s t b h))
  | inr e ↦
      rw (append.cons c s ("," <> t), has_beta_from, e)
        (has_beta_from-append (acc <> String.◌∷◌ c "") s t b h)
]

-- What is in front of a further comma is still found.
has_beta_from-keep :
    (acc s t b : String) → has_beta_from acc s b ≡ true → has_beta_from acc (s <> "," <> t) b ≡ true
unfolding has_beta_from
has_beta_from-keep acc String.[] t b h =
    rw (append.nil ("," <> t)) (at_comma acc t b ∙ or_left (trim_space acc == b) _ h)
has_beta_from-keep acc (String.◌∷◌ c s) t b h = elim (Bool-cases (nat_eq (code c) b',')) [
  | inl e ↦
      rw (append.cons c s ("," <> t), has_beta_from, e)
        (or_mono (trim_space acc == b) (has_beta_from "" s b) _ (has_beta_from-keep "" s t b)
          (rw (has_beta_from, e) at h))
  | inr e ↦
      rw (append.cons c s ("," <> t), has_beta_from, e)
        (has_beta_from-keep (acc <> String.◌∷◌ c "") s t b (rw (has_beta_from, e) at h))
]

cons-ne : (c : Char) (s : String) → String.◌∷◌ c s == "" ≡ false
cons-ne c s = elim (Bool-cases (String.◌∷◌ c s == "")) [
  | inl e ↦ let same : String.◌∷◌ c s ≡ String.[] = (eq_iff (String.◌∷◌ c s) "").0 e in cc same
  | inr e ↦ e
]

append-ne : (s t : String) → s == "" ≡ false → (s <> t) == "" ≡ false
append-ne String.[] t h = cc h
append-ne (String.◌∷◌ c s) t h = rw (append.cons c s t) (cons-ne c (s <> t))

with_beta-found :
    (have need : String)
    → have == "" ≡ false
    → has_beta have need ≡ true
    → with_beta have need ≡ have
unfolding with_beta
with_beta-found have need h e = rw (with_beta, h, e) refl

-- For a header that is not empty, and a beta that is not empty and that is found where it stands alone:
-- the header sent on names that beta and every beta that the client's header named, and a second
-- pass, as on the replay of a request, changes nothing.
pub with_beta_lem :
    (have need b : String)
    → has_beta need need ≡ true
    → need == "" ≡ false
    → have == "" ≡ false
    → has_beta have b ≡ true
    → (has_beta (with_beta have need) need ≡ true)
      × (has_beta (with_beta have need) b ≡ true)
      × (with_beta (with_beta have need) need ≡ with_beta have need)
unfolding with_beta has_beta
with_beta_lem have need b h ne he hb = elim (Bool-cases (has_beta have need)) [
  | inl e ↦ rw (with_beta, he, e) (e, hb, with_beta-found have need he e)
  | inr e ↦
      let found = has_beta_from-append "" have need need h in
      rw (with_beta, he, e)
        (
          found,
          has_beta_from-keep "" have need b hb,
          with_beta-found (have <> "," <> need) need (append-ne have ("," <> need) he) found,
        )
]
