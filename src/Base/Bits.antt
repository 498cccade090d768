-- ===== src/Base/Bits.antt =====
-- Masks as arithmetic, over bytes and over addresses.
use neschan.Base.Tests.{◌==◌, ==_iff}
use neschan.Base.Word.{not8}
use neschan.Base.Table.{all_below, all_below_sound}
use Prim.Native.Nat.{ℕ, ◌+◌, ◌-◌, ◌*◌, ◌/◌, ◌%◌, ◌^◌, ◌<◌, bit_and, bit_or}
use mathlib.Core.Path.{◌≡◌, refl}
use mathlib.Core.Bool.{true}

-- Bit `k` of a number.
abbrev pub bit_at : ℕ → ℕ → ℕ
bit_at p k = p / 2 ^ k % 2

-- Equality of two functions at every number below a bound, by evaluation.
pub equal_below :
    (n : ℕ) (f g : ℕ → ℕ) (x : ℕ) → all_below n (λ a. f a == g a) ≡ true → x < n → f x ≡ g x
equal_below n f g x table h = (==_iff (f x) (g x)).0 (all_below_sound n (λ a. f a == g a) x table h)

-- A table of two arguments.
pub equal_below₂ :
    (n m : ℕ) (f g : ℕ → ℕ → ℕ) (x y : ℕ)
    → all_below n (λ a. all_below m (λ b. f a b == g a b)) ≡ true
    → x < n
    → y < m
    → f x y ≡ g x y
equal_below₂ n m f g x y table hx hy =
    equal_below m (f x) (g x) y
      (all_below_sound n (λ a. all_below m (λ b. f a b == g a b)) x table hx) hy

pub or_bit : (k p : ℕ) → k < 8 → p < 256 → bit_or p (2 ^ k) ≡ p - bit_at p k * 2 ^ k + 2 ^ k
or_bit k p hk hp =
    equal_below₂ 8 256 (λ k p. bit_or p (2 ^ k)) (λ k p. p - bit_at p k * 2 ^ k + 2 ^ k) k p
      (unfold all_below in refl) hk hp

pub and_not_bit : (k p : ℕ) → k < 8 → p < 256 → bit_and p (not8 (2 ^ k)) ≡ p - bit_at p k * 2 ^ k
and_not_bit k p hk hp =
    equal_below₂ 8 256 (λ k p. bit_and p (not8 (2 ^ k))) (λ k p. p - bit_at p k * 2 ^ k) k p
      (unfold all_below in refl) hk hp

pub and_bit : (k p : ℕ) → k < 8 → p < 256 → bit_and p (2 ^ k) ≡ bit_at p k * 2 ^ k
and_bit k p hk hp =
    equal_below₂ 8 256 (λ k p. bit_and p (2 ^ k)) (λ k p. bit_at p k * 2 ^ k) k p
      (unfold all_below in refl) hk hp
