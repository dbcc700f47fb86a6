-- ===== src/SpreadEngine/Build/Keys.antt =====
-- The order of identities, by which spread_engine.py gives the two directions of a pair one key.
use Prim.Native.Nat.{ℕ, compare as compare_ℕ, Ordering}
use Prim.Native.Char.{code}
use Prim.Native.String.{String, [], ◌∷◌, compare, then as or_then}
use Prim.Native.String.compare
use text.Mathlib.Text.{is_eq, is_lt}
use taoli.SpreadEngine.Build.{texts_beq, texts_beq_iff, texts_le, pair_key}
use taoli.Base.{
  false, not, ◌==◌, string_eq, List, [] as nil, ◌∷◌ as cons, arith, ◌≡◌, refl, sym, ap, ◌∙◌,
  Bool-cases, inl, inr,
}

flip : Ordering → Ordering
flip Ordering.lt = Ordering.gt
flip Ordering.eq = Ordering.eq
flip Ordering.gt = Ordering.lt

compare_ℕ-flip : (m n : ℕ) → compare_ℕ n m ≡ flip (compare_ℕ m n)
unfolding flip
compare_ℕ-flip m n = ground arith

then-flip : (o r : Ordering) → or_then (flip o) (flip r) ≡ flip (or_then o r)
unfolding flip
then-flip Ordering.lt r = refl
then-flip Ordering.eq r = refl
then-flip Ordering.gt r = refl

compare-flip : (s t : String) → compare t s ≡ flip (compare s t)
unfolding flip
compare-flip [] [] = rw compare.nil-nil refl
compare-flip [] (d ∷ t) = rw (compare.nil-cons d t, compare.cons-nil d t) refl
compare-flip (c ∷ s) [] = rw (compare.nil-cons c s, compare.cons-nil c s) refl
compare-flip (c ∷ s) (d ∷ t) =
    rw
      (
        compare.cons-cons c d s t,
        compare.cons-cons d c t s,
        compare_ℕ-flip (code c) (code d),
        compare-flip s t,
      )
      (then-flip (compare_ℕ (code c) (code d)) (compare s t))

is_eq-flip : (o : Ordering) → is_eq (flip o) ≡ is_eq o
unfolding flip
is_eq-flip Ordering.lt = refl
is_eq-flip Ordering.eq = refl
is_eq-flip Ordering.gt = refl

is_lt-flip : (o : Ordering) → is_eq o ≡ false → is_lt (flip o) ≡ not (is_lt o)
unfolding flip
is_lt-flip Ordering.lt h = refl
is_lt-flip Ordering.eq h = sym h
is_lt-flip Ordering.gt h = refl

==_sym : (s t : String) → (t == s) ≡ (s == t)
==_sym s t = ap is_eq (compare-flip s t) ∙ is_eq-flip (compare s t)

is_lt-sym : (s t : String) → (s == t) ≡ false → is_lt (compare t s) ≡ not (is_lt (compare s t))
is_lt-sym s t h = ap is_lt (compare-flip s t) ∙ is_lt-flip (compare s t) h

-- Of two different tuples exactly one comes first.
texts_le-flip :
    (xs ys : List String) → texts_beq xs ys ≡ false → texts_le ys xs ≡ not (texts_le xs ys)
unfolding texts_le
texts_le-flip nil nil h = ground (arith, h)
texts_le-flip nil (cons y ys) h = refl
texts_le-flip (cons x xs) nil h = refl
texts_le-flip (cons x xs) (cons y ys) h = elim (Bool-cases (x == y)) [
  | inl same ↦ rw (==_sym x y, same) (texts_le-flip xs ys (ground (arith, same, h)))
  | inr other ↦ rw (==_sym x y, other) (is_lt-sym x y other)
]

pub pair_key_comm : (xs ys : List String) → pair_key ys xs ≡ pair_key xs ys
pair_key_comm xs ys = elim (Bool-cases (texts_beq xs ys)) [
  | inl same ↦ cc ((texts_beq_iff xs ys).0 same)
  | inr other ↦ elim (Bool-cases (texts_le xs ys)) [
    | inl first ↦ rw (texts_le-flip xs ys other, first) refl
    | inr second ↦ rw (texts_le-flip xs ys other, second) refl
  ]
]
