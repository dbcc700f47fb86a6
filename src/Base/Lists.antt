-- ===== src/Base/Lists.antt =====
-- Lists measured by native numbers, and the list operations of the source language.
use Prim.Native.Nat.{ℕ, zero, suc, ◌+◌, ◌-◌, ◌≤◌, min}
use mathlib.Core.Path.{◌≡◌, refl, ap}
use mathlib.Core.Bool.{Bool, true, false, ◌||◌}
use mathlib.Core.Option.{Option, none, some}
use mathlib.Core.List.{List, [], ◌∷◌, ◌++◌, map}
use native.Mathlib.Omega.{arith}
use taoli.Base.Tests.{if◌then◌else◌, HasEq, ◌==◌, Bool-cases}
use mathlib.Core.Logic.{inl, inr}

module _ {ℓ} {A : Type ℓ} where
  abbrev pub length : List A → ℕ
  length [] = 0
  length (x ∷ xs) = suc (length xs)

  abbrev pub take : ℕ → List A → List A
  take zero xs = []
  take (suc n) [] = []
  take (suc n) (x ∷ xs) = x ∷ take n xs

  abbrev pub drop : ℕ → List A → List A
  drop zero xs = xs
  drop (suc n) [] = []
  drop (suc n) (x ∷ xs) = drop n xs

  -- `xs[-n:]` for a positive `n`; a `deque(maxlen=n)` after an append is this suffix.
  abbrev pub last_n : ℕ → List A → List A
  last_n n xs = drop (length xs - n) xs

  abbrev pub All {κ} : (A → Type κ) → List A → Type κ
  All P [] = Unit
  All P (x ∷ xs) = P x × All P xs

  -- `any(test(x) for x in xs)` and `[x for x in xs if test(x)]`.
  abbrev pub any : (A → Bool) → List A → Bool
  any test [] = false
  any test (x ∷ xs) = test x || any test xs

  abbrev pub keep_if : (A → Bool) → List A → List A
  keep_if test [] = []
  keep_if test (x ∷ xs) = let rest = keep_if test xs in if test x then x ∷ rest else rest

  abbrev pub is_empty : List A → Bool
  is_empty [] = true
  is_empty (x ∷ xs) = false

  abbrev pub get_last? : List A → Option A
  get_last? [] = none
  get_last? (x ∷ []) = some x
  get_last? (x ∷ y ∷ xs) = get_last? (y ∷ xs)

-- `a in xs`.
abbrev pub contains {ℓ} : {A : Type ℓ} ⦃e : HasEq A⦄ → A → List A → Bool
contains a [] = false
contains a (x ∷ xs) = a == x || contains a xs

abbrev pub somes {ℓ} : {A : Type ℓ} → List (Option A) → List A
somes [] = []
somes (none ∷ xs) = somes xs
somes (some a ∷ xs) = a ∷ somes xs

module _ {ℓ} {A : Type ℓ} where
  pub length-append : (xs ys : List A) → length (xs ++ ys) ≡ length xs + length ys
  length-append [] ys = omega arith
  length-append (x ∷ xs) ys = omega (arith, length-append xs ys)

  pub length-take : (n : ℕ) (xs : List A) → length (take n xs) ≡ min n (length xs)
  length-take zero xs = omega arith
  length-take (suc n) [] = omega arith
  length-take (suc n) (x ∷ xs) = omega (arith, length-take n xs)

  pub length-drop : (n : ℕ) (xs : List A) → length (drop n xs) ≡ length xs - n
  length-drop zero xs = omega arith
  length-drop (suc n) [] = omega arith
  length-drop (suc n) (x ∷ xs) = omega (arith, length-drop n xs)

  pub length-last_n : (n : ℕ) (xs : List A) → length (last_n n xs) ≡ min n (length xs)
  length-last_n n xs = omega (arith, length-drop (length xs - n) xs)

  pub length-keep_if : (test : A → Bool) (xs : List A) → length (keep_if test xs) ≤ length xs
  length-keep_if test [] = omega arith
  length-keep_if test (x ∷ xs) = ground (arith, length-keep_if test xs)

module _ {ℓ κ} {A : Type ℓ} (P : A → Type κ) where
  pub All-append : (xs ys : List A) → All P xs → All P ys → All P (xs ++ ys)
  All-append [] ys h k = k
  All-append (x ∷ xs) ys h k = (h.0, All-append xs ys h.1 k)

  pub All-take : (n : ℕ) (xs : List A) → All P xs → All P (take n xs)
  All-take zero xs h = tt
  All-take (suc n) [] h = tt
  All-take (suc n) (x ∷ xs) h = (h.0, All-take n xs h.1)

  pub All-imp {ι} : (Q : A → Type ι) (xs : List A) → ((a : A) → P a → Q a) → All P xs → All Q xs
  All-imp Q [] f h = tt
  All-imp Q (x ∷ xs) f h = (f x h.0, All-imp Q xs f h.1)

  pub All-both {ι} : (Q : A → Type ι) (xs : List A) → All P xs → All Q xs → All (λ a. P a × Q a) xs
  All-both Q [] h k = tt
  All-both Q (x ∷ xs) h k = ((h.0, k.0), All-both Q xs h.1 k.1)

module _ {ℓ κ} {A : Type ℓ} (P : A → Type κ) (test : A → Bool) where
  pub All-keep_if : (xs : List A) → All (λ x. test x ≡ true → P x) xs → All P (keep_if test xs)
  All-keep_if [] h = tt
  All-keep_if (x ∷ xs) h = ground (arith, h.0, All-keep_if xs h.1)

-- How often a key stands in a list, and lists in which every key stands once at most.
abbrev pub count {ℓ} : {K : Type ℓ} ⦃e : HasEq K⦄ → K → List K → ℕ
count k [] = 0
count k (x ∷ xs) = (if k == x then 1 else 0) + count k xs

abbrev pub IsDistinct {ℓ} : {K : Type ℓ} ⦃e : HasEq K⦄ → List K → Type ℓ
IsDistinct {K = K} xs = (k : K) → count k xs ≤ 1

module _ {ℓ} {K : Type ℓ} ⦃e : HasEq K⦄ where
  pub count-append : (k : K) (xs ys : List K) → count k (xs ++ ys) ≡ count k xs + count k ys
  count-append k [] ys = omega arith
  count-append k (x ∷ xs) ys = omega (arith, count-append k xs ys)

  count-take-drop :
      (k : K) (n : ℕ) (xs : List K) → count k (take n xs) + count k (drop n xs) ≡ count k xs
  count-take-drop k zero xs = omega arith
  count-take-drop k (suc n) [] = omega arith
  count-take-drop k (suc n) (x ∷ xs) = omega (arith, count-take-drop k n xs)

  pub rotate-IsDistinct :
      (n : ℕ) (xs : List K) → IsDistinct xs → IsDistinct (drop n xs ++ take n xs)
  rotate-IsDistinct n xs h k =
      omega (arith, h k, count-append k (drop n xs) (take n xs), count-take-drop k n xs)

  -- What holds of every key but one holds throughout a list without that key.
  pub All-of_count {κ} :
      (P : K → Type κ) (k : K) (xs : List K)
      → ((j : K) → (k == j) ≡ false → P j)
      → count k xs ≡ 0
      → All P xs
  All-of_count P k [] h none_of = tt
  All-of_count P k (x ∷ xs) h none_of = elim (Bool-cases (k == x)) [
    | inl same ↦ ground (arith, same, none_of)
    | inr other ↦ (h x other, All-of_count P k xs h (ground (arith, other, none_of)))
  ]

module _ {ℓ} {A : Type ℓ} where
  pub keep_if-congr :
      (test test' : A → Bool) (xs : List A)
      → All (λ x. test x ≡ test' x) xs
      → keep_if test xs ≡ keep_if test' xs
  keep_if-congr test test' [] h = refl
  keep_if-congr test test' (x ∷ xs) h = rw (h.0, keep_if-congr test test' xs h.1) refl

  pub keep_if-ext :
      (test test' : A → Bool) (xs : List A)
      → ((x : A) → test x ≡ test' x)
      → keep_if test xs ≡ keep_if test' xs
  keep_if-ext test test' [] h = refl
  keep_if-ext test test' (x ∷ xs) h = rw (h x, keep_if-ext test test' xs h) refl

  pub take-nil : (n : ℕ) → take {A = A} n [] ≡ []
  take-nil zero = refl
  take-nil (suc n) = refl

  pub take-cons : (n : ℕ) (x : A) (xs : List A) → 1 ≤ n → take n (x ∷ xs) ≡ x ∷ take (n - 1) xs
  take-cons zero x xs h = ground (arith, h)
  take-cons (suc n) x xs h = ap (λ m. x ∷ take m xs) (omega arith)

  pub append_one-append :
      (xs : List A) (x : A) (ys : List A) → (xs ++ (x ∷ [])) ++ ys ≡ xs ++ (x ∷ ys)
  append_one-append [] x ys = refl
  append_one-append (z ∷ xs) x ys = ap (λ zs. z ∷ zs) (append_one-append xs x ys)

module _ {ℓ} {A : Type ℓ} where
  pub any-append :
      (test : A → Bool) (xs ys : List A) → any test (xs ++ ys) ≡ (any test xs || any test ys)
  any-append test [] ys = refl
  any-append test (x ∷ xs) ys = ground (arith, any-append test xs ys)

  pub any-map {κ} :
      {B : Type κ} (test : B → Bool) (f : A → B) (xs : List A)
      → any test (map f xs) ≡ any (λ x. test (f x)) xs
  any-map test f [] = refl
  any-map test f (x ∷ xs) = ap (λ b. test (f x) || b) (any-map test f xs)

  pub any-ext :
      (test test' : A → Bool) (xs : List A)
      → ((x : A) → test x ≡ test' x)
      → any test xs ≡ any test' xs
  any-ext test test' [] h = refl
  any-ext test test' (x ∷ xs) h = rw (h x, any-ext test test' xs h) refl

  -- A filter that keeps what passes the test does not change whether something does.
  pub any-keep_if :
      (test kept : A → Bool) (xs : List A)
      → ((x : A) → test x ≡ true → kept x ≡ true)
      → any test (keep_if kept xs) ≡ any test xs
  any-keep_if test kept [] h = refl
  any-keep_if test kept (x ∷ xs) h = ground (arith, h x, any-keep_if test kept xs h)

  pub any-keep_if-false :
      (test kept : A → Bool) (xs : List A)
      → any test xs ≡ false
      → any test (keep_if kept xs) ≡ false
  any-keep_if-false test kept [] h = refl
  any-keep_if-false test kept (x ∷ xs) h = ground (arith, h, any-keep_if-false test kept xs)

  -- A change of the elements that fails no more, or passes no more, than they do.
  pub any-map-false {κ} :
      {B : Type κ} (test : A → Bool) (test' : B → Bool) (f : A → B) (xs : List A)
      → ((x : A) → test x ≡ false → test' (f x) ≡ false)
      → any test xs ≡ false
      → any test' (map f xs) ≡ false
  any-map-false test test' f [] h k = refl
  any-map-false test test' f (x ∷ xs) h k = ground (arith, h x, k, any-map-false test test' f xs h)

  pub any-map-true {κ} :
      {B : Type κ} (test : A → Bool) (test' : B → Bool) (f : A → B) (xs : List A)
      → ((x : A) → test x ≡ true → test' (f x) ≡ true)
      → any test xs ≡ true
      → any test' (map f xs) ≡ true
  any-map-true test test' f [] h k = k
  any-map-true test test' f (x ∷ xs) h k = ground (arith, h x, k, any-map-true test test' f xs h)

  pub any-imp-false :
      (test test' : A → Bool) (xs : List A)
      → ((x : A) → test x ≡ false → test' x ≡ false)
      → any test xs ≡ false
      → any test' xs ≡ false
  any-imp-false test test' [] h k = refl
  any-imp-false test test' (x ∷ xs) h k = ground (arith, h x, k, any-imp-false test test' xs h)

  pub any-imp-true :
      (test test' : A → Bool) (xs : List A)
      → ((x : A) → test x ≡ true → test' x ≡ true)
      → any test xs ≡ true
      → any test' xs ≡ true
  any-imp-true test test' [] h k = k
  any-imp-true test test' (x ∷ xs) h k = ground (arith, h x, k, any-imp-true test test' xs h)

  pub any-never : (xs : List A) → any (λ x. false) xs ≡ false
  any-never [] = refl
  any-never (x ∷ xs) = any-never xs

  pub keep_if-append :
      (test : A → Bool) (xs ys : List A)
      → keep_if test (xs ++ ys) ≡ keep_if test xs ++ keep_if test ys
  keep_if-append test [] ys = refl
  keep_if-append test (x ∷ xs) ys = ground (arith, keep_if-append test xs ys)
