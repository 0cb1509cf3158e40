-- ===== src/Base/Decimal.antt =====
-- Numbers in decimal, read back.
use Prim.Native.Char.{Char, char, code}
use Prim.Native.Nat.{ℕ, zero, suc, ◌+◌, ◌*◌, ◌/◌, ◌%◌, ◌-◌, ◌<◌}
use Prim.Native.String.append
use Prim.Native.String.{String}
use mathlib.Core.Path.{◌≡◌, ap, ◌∙◌}
use mathlib.Core.Logic.{inl, inr}
use native.Mathlib.Omega.{arith}
use clawdh.Base.Tests.{Bool-cases, ltb}
use clawdh.Base.Texts.{◌<>◌, digit, itoa_loop, itoa, without_prefix}

-- The number that the digits of a text continue.
unfoldable pub read_on : ℕ → String → ℕ
read_on v String.[] = v
read_on v (String.◌∷◌ c s) = read_on (10 * v + (code c - b'0')) s

one :
    (v : ℕ) (c : Char) (s : String)
    → read_on v (String.◌∷◌ c "" <> s) ≡ read_on (10 * v + (code c - b'0')) s
unfolding read_on
one v c s = ap (read_on v) (append.cons c "" s ∙ ap (String.◌∷◌ c) (append.nil s))

read_on-digit : (v n : ℕ) (s : String) → n < 10 → read_on v (digit n <> s) ≡ read_on (10 * v + n) s
unfolding read_on digit
read_on-digit v zero s h = one v (char 48 tt) s
read_on-digit v (suc zero) s h = one v (char 49 tt) s
read_on-digit v (suc (suc zero)) s h = one v (char 50 tt) s
read_on-digit v (suc (suc (suc zero))) s h = one v (char 51 tt) s
read_on-digit v (suc (suc (suc (suc zero)))) s h = one v (char 52 tt) s
read_on-digit v (suc (suc (suc (suc (suc zero))))) s h = one v (char 53 tt) s
read_on-digit v (suc (suc (suc (suc (suc (suc zero)))))) s h = one v (char 54 tt) s
read_on-digit v (suc (suc (suc (suc (suc (suc (suc zero))))))) s h = one v (char 55 tt) s
read_on-digit v (suc (suc (suc (suc (suc (suc (suc (suc zero)))))))) s h = one v (char 56 tt) s
read_on-digit v (suc (suc (suc (suc (suc (suc (suc (suc (suc zero))))))))) s h =
    one v (char 57 tt) s
read_on-digit v (suc (suc (suc (suc (suc (suc (suc (suc (suc (suc n)))))))))) s h = ground arith

read_on-itoa_loop :
    (fuel n : ℕ) (acc : String) → n < fuel → read_on 0 (itoa_loop fuel n acc) ≡ read_on n acc
unfolding itoa_loop
read_on-itoa_loop zero n acc h = ground arith
read_on-itoa_loop (suc fuel) n acc h = elim (Bool-cases (ltb n 10)) [
  | inl small ↦
      rw small (read_on-digit 0 n acc (ground arith) ∙ ap (λ k. read_on k acc) (omega arith))
  | inr large ↦ rw large (
      read_on-itoa_loop fuel (n / 10) (digit (n % 10) <> acc) (ground arith)
      ∙ read_on-digit (n / 10) (n % 10) acc (omega arith)
      ∙ ap (λ k. read_on k acc) (omega arith))
]

-- A number is read back from its digits.
pub read_on-itoa : (n : ℕ) → read_on 0 (itoa n) ≡ n
unfolding itoa read_on
read_on-itoa n = read_on-itoa_loop (suc n) n "" (omega arith)

-- A prefix that is there goes.
pub without_prefix-append : (s t : String) → without_prefix (s <> t) s ≡ t
unfolding without_prefix
without_prefix-append String.[] t = append.nil t
without_prefix-append (String.◌∷◌ c s) t = rw (append.cons c s t) (without_prefix-append s t)
