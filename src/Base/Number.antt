-- ===== src/Base/Number.antt =====
-- A `float` as the program uses it: an abstract type with its literals, operations and comparisons.
-- A literal such as 1e-9 is `ratio 1 1000000000`. The program divides only by values that its
-- models keep positive, so a division by zero is not modelled.
use Prim.Native.Nat.{ℕ, zero, suc, ◌+◌, ◌-◌, ◌*◌, ◌/◌}
use mathlib.Core.Bool.{Bool, true, false, not, ◌&&◌}
use mathlib.Core.Path.{◌≡◌}
use mathlib.Core.List.{List, [], ◌∷◌}
use native.Mathlib.Omega.{arith}
use taoli.Base.Tests.{ltb, leb, if◌then◌else◌}

pub record Float {ℓ} (W : Type ℓ) : Type ℓ where
  pub ratio : ℕ → ℕ → W
  pub add : W → W → W
  pub sub : W → W → W
  pub mul : W → W → W
  pub div : W → W → W
  pub lt : W → W → Bool
  pub le : W → W → Bool

module _ {ℓ} {W : Type ℓ} ⦃f : Float W⦄ where
  infixl 65 ◌⊕◌ ◌⊖◌
  infixl 70 ◌⊗◌ ◌⊘◌
  infix 50 ◌<?◌ ◌≤?◌
  abbrev pub ◌⊕◌ : W → W → W
  a ⊕ b = f.add a b

  abbrev pub ◌⊖◌ : W → W → W
  a ⊖ b = f.sub a b

  abbrev pub ◌⊗◌ : W → W → W
  a ⊗ b = f.mul a b

  abbrev pub ◌⊘◌ : W → W → W
  a ⊘ b = f.div a b

  abbrev pub ◌<?◌ : W → W → Bool
  a <? b = f.lt a b

  abbrev pub ◌≤?◌ : W → W → Bool
  a ≤? b = f.le a b

  infix 50 ◌==?◌
  abbrev pub ◌==?◌ : W → W → Bool
  a ==? b = a ≤? b && b ≤? a

  abbrev pub of_nat : ℕ → W
  of_nat n = f.ratio n 1

  abbrev pub nought : W
  nought = f.ratio 0 1

  abbrev pub negate : W → W
  negate a = nought ⊖ a

  -- `abs(a)`, and Python's `min(a, b)` and `max(a, b)`, which keep `a` on a tie.
  abbrev pub abs : W → W
  abs a = if a <? nought then negate a else a

  abbrev pub min_of : W → W → W
  min_of a b = if b <? a then b else a

  abbrev pub max_of : W → W → W
  max_of a b = if a <? b then b else a

  abbrev pub sum_from : W → List W → W
  sum_from acc [] = acc
  sum_from acc (x ∷ xs) = sum_from (acc ⊕ x) xs

  -- `max(x, *xs)` and `min(x, *xs)`.
  abbrev pub max_list : W → List W → W
  max_list best [] = best
  max_list best (x ∷ xs) = max_list (max_of best x) xs

  abbrev pub min_list : W → List W → W
  min_list best [] = best
  min_list best (x ∷ xs) = min_list (min_of best x) xs

-- What comparisons promise on values that are not NaN, as `a <= a` tells.
pub record IsOrdered {ℓ} (W : Type ℓ) ⦃f : Float W⦄ : Type ℓ where
  pub lt_iff : (a b : W) → f.le a a ≡ true → f.le b b ≡ true → f.lt a b ≡ not (f.le b a)
  pub le_refl_left : (a b : W) → f.le a b ≡ true → f.le a a ≡ true
  pub le_refl_right : (a b : W) → f.le a b ≡ true → f.le b b ≡ true
  pub le_trans : (a b c : W) → f.le a b ≡ true → f.le b c ≡ true → f.le a c ≡ true

-- Integers; `negsuc n` is -(n + 1).
pub data ℤ : Type 0 where
  pos : ℕ → ℤ
  negsuc : ℕ → ℤ

-- The integer is at least 1.
abbrev pub is_positive : ℤ → Bool
is_positive (pos zero) = false
is_positive (pos (suc n)) = true
is_positive (negsuc n) = false

abbrev pub of_int {ℓ} : {W : Type ℓ} ⦃f : Float W⦄ → ℤ → W
of_int (pos n) = of_nat n
of_int (negsuc n) = negate (of_nat (suc n))

abbrev pos_part : ℤ → ℕ
pos_part (pos n) = n
pos_part (negsuc n) = 0

abbrev neg_part : ℤ → ℕ
neg_part (pos n) = 0
neg_part (negsuc n) = suc n

abbrev sub_ℕ : ℕ → ℕ → ℤ
sub_ℕ a b = if leb b a then pos (a - b) else negsuc (b - a - 1)

abbrev scaled : (ℕ → ℕ → ℕ) → ℤ → ℤ → ℤ
scaled op (pos a) (pos b) = pos (op a b)
scaled op (pos a) (negsuc b) = sub_ℕ 0 (op a (suc b))
scaled op (negsuc a) (pos b) = sub_ℕ 0 (op (suc a) b)
scaled op (negsuc a) (negsuc b) = pos (op (suc a) (suc b))

-- A value of the interface: an integer counts millionths.
instance abbrev pub fixed_float : Float ℤ
fixed_float = record {
  ratio = λ n d. pos (n * 1000000 / d);
  add = λ a b. sub_ℕ (pos_part a + pos_part b) (neg_part a + neg_part b);
  sub = λ a b. sub_ℕ (pos_part a + neg_part b) (neg_part a + pos_part b);
  mul = scaled (λ a b. a * b / 1000000);
  div = scaled (λ a b. a * 1000000 / b);
  lt = λ a b. ltb (pos_part a + neg_part b) (pos_part b + neg_part a);
  le = λ a b. leb (pos_part a + neg_part b) (pos_part b + neg_part a);
}

pub ℤ-IsOrdered : IsOrdered ℤ
ℤ-IsOrdered = record {
  lt_iff = λ a b h k. ground arith;
  le_refl_left = λ a b h. ground arith;
  le_refl_right = λ a b h. ground arith;
  le_trans = λ a b c h k. ground arith;
}
