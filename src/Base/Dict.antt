-- ===== src/Base/Dict.antt =====
-- Python's `dict` and `OrderedDict`: an association list in insertion order.
use mathlib.Core.Path.{◌≡◌, refl}
use mathlib.Core.Bool.{Bool, true}
use mathlib.Core.Option.{Option, none, some}
use mathlib.Core.List.{List, [], ◌∷◌, ◌++◌}
use Prim.Native.Nat.{◌+◌, ◌≤◌}
use native.Mathlib.Omega.{arith}
use mathlib.Core.Logic.{inl, inr}
use taoli.Base.Tests.{
  HasEq, ◌==◌, ==_iff, ==_self, if◌then◌else◌, is_some, Option-cases, Bool-cases,
}
use taoli.Base.Lists.{length, keep_if}

abbrev pub Dict {ℓ κ} : Type ℓ → Type κ → Type (ℓ ⊔ κ)
Dict K V = List (K × V)

module _ {ℓ κ} {K : Type ℓ} {V : Type κ} where
  abbrev pub keys : Dict K V → List K
  keys [] = []
  keys ((j, v) ∷ d) = j ∷ keys d

  -- `next(iter(d))`
  abbrev pub first_key : Dict K V → Option K
  first_key [] = none
  first_key ((j, v) ∷ d) = some j

module _ {ℓ κ} {K : Type ℓ} {V : Type κ} ⦃e : HasEq K⦄ where
  unfoldable pub get : K → Dict K V → Option V
  get k [] = none
  get k ((j, v) ∷ d) = if j == k then some v else get k d

  -- `d[k] = v`: a new key goes to the end, an old one keeps its place.
  unfoldable pub set : K → V → Dict K V → Dict K V
  set k v [] = (k, v) ∷ []
  set k v ((j, w) ∷ d) = let rest = set k v d in if j == k then (j, v) ∷ d else (j, w) ∷ rest

  -- `d.pop(k, None)`.
  unfoldable pub pop : K → Dict K V → Dict K V
  pop k [] = []
  pop k ((j, w) ∷ d) = let rest = pop k d in if j == k then rest else (j, w) ∷ rest

  abbrev pub has : K → Dict K V → Bool
  has k d = is_some (get k d)

  -- `d.move_to_end(k)` on a key that is there.
  unfoldable pub move_to_end : K → Dict K V → Dict K V
  unfolding get pop
  move_to_end k d = elim (get k d) [ none ↦ d | some v ↦ pop k d ++ ((k, v) ∷ []) ]

  pub get-set :
      (k j : K) (v : V) (d : Dict K V) → get j (set k v d) ≡ (if k == j then some v else get j d)
  unfolding get set
  get-set k j v [] = refl
  get-set k j v ((i, w) ∷ d) = ground (arith, ==_iff k j, ==_iff i k, ==_iff i j, get-set k j v d)

  pub get-pop : (k j : K) (d : Dict K V) → get j (pop k d) ≡ (if k == j then none else get j d)
  unfolding get pop
  get-pop k j [] = ground arith
  get-pop k j ((i, w) ∷ d) = ground (arith, ==_iff k j, ==_iff i k, ==_iff i j, get-pop k j d)

  pub length-set-le : (k : K) (v : V) (d : Dict K V) → length (set k v d) ≤ length d + 1
  unfolding set
  length-set-le k v [] = omega arith
  length-set-le k v ((i, w) ∷ d) = ground (arith, length-set-le k v d)

  pub length-pop-le : (k : K) (d : Dict K V) → length (pop k d) ≤ length d
  unfolding pop
  length-pop-le k [] = omega arith
  length-pop-le k ((i, w) ∷ d) = ground (arith, length-pop-le k d)

  pub length-pop-lt : (k : K) (d : Dict K V) → has k d ≡ true → length (pop k d) + 1 ≤ length d
  unfolding get pop
  length-pop-lt k [] h = cc
  length-pop-lt k ((i, w) ∷ d) h = ground (arith, length-pop-le k d, length-pop-lt k d)

  -- No key stands twice.
  abbrev pub NoDup : Dict K V → Type κ
  NoDup [] = Unit
  NoDup ((j, v) ∷ d) = (get j d ≡ none) × NoDup d

  pub pop-NoDup : (k : K) (d : Dict K V) → NoDup d → NoDup (pop k d)
  unfolding pop
  pop-NoDup k [] h = tt
  pop-NoDup k ((i, w) ∷ d) h = ground (arith, pop-NoDup k d h.1, get-pop k i d)

  pub set-NoDup : (k : K) (v : V) (d : Dict K V) → NoDup d → NoDup (set k v d)
  unfolding set get
  set-NoDup k v [] h = (refl, tt)
  set-NoDup k v ((i, w) ∷ d) h =
      ground (arith, set-NoDup k v d h.1, get-set k i v d, ==_iff i k, ==_iff k i)

  pub pop-eq_of_none : (k : K) (d : Dict K V) → get k d ≡ none → pop k d ≡ d
  unfolding get pop
  pop-eq_of_none k [] h = refl
  pop-eq_of_none k ((i, w) ∷ d) h = ground (arith, pop-eq_of_none k d)

  pub has-first_key : (k : K) (d : Dict K V) → first_key d ≡ some k → has k d ≡ true
  unfolding get
  has-first_key k [] h = cc
  has-first_key k ((i, w) ∷ d) h = ground (arith, ==_iff i k)

  pub length-pop_first :
      (k : K) (d : Dict K V) → first_key d ≡ some k → length (pop k d) + 1 ≤ length d
  length-pop_first k d h = length-pop-lt k d (has-first_key k d h)

  get-append_one :
      (k j : K) (v : V) (d : Dict K V)
      → get j (d ++ ((k, v) ∷ []))
        ≡ elim (get j d) [ none ↦ if k == j then some v else none | some w ↦ some w ]
  unfolding get
  get-append_one k j v [] = refl
  get-append_one k j v ((i, w) ∷ d) = ground (arith, get-append_one k j v d)

  pub get-move_to_end : (k j : K) (d : Dict K V) → get j (move_to_end k d) ≡ get j d
  unfolding move_to_end
  get-move_to_end k j d = elim (Option-cases (get k d)) [
    | inl missing ↦ rw (move_to_end, missing)
    | inr (v, found) ↦
        ground (arith, found, get-append_one k j v (pop k d), get-pop k j d, ==_iff k j)
  ]

  append_one-NoDup :
      (k : K) (v : V) (d : Dict K V) → NoDup d → get k d ≡ none → NoDup (d ++ ((k, v) ∷ []))
  unfolding get
  append_one-NoDup k v [] h free = (refl, tt)
  append_one-NoDup k v ((i, w) ∷ d) h free =
      ground (
        arith,
        append_one-NoDup k v d h.1,
        get-append_one k i v d,
        ==_iff k i,
        ==_iff i k,
        h.0,
        free,
      )

  pub move_to_end-NoDup : (k : K) (d : Dict K V) → NoDup d → NoDup (move_to_end k d)
  unfolding move_to_end
  move_to_end-NoDup k d h = elim (Option-cases (get k d)) [
    | inl missing ↦ rw (move_to_end, missing) h
    | inr (v, found) ↦
        ground
          (arith, found, append_one-NoDup k v (pop k d) (pop-NoDup k d h), get-pop k k d, ==_self k)
  ]

  -- A filter keeps what is found and passes its test.
  pub get-keep_if :
      (test : K × V → Bool) (k : K) (v : V) (d : Dict K V)
      → get k d ≡ some v
      → test (k, v) ≡ true
      → get k (keep_if test d) ≡ some v
  unfolding get
  get-keep_if test k v [] h t = h
  get-keep_if test k v ((j, w) ∷ d) h t = elim (Bool-cases (j == k)) [
    | inl same ↦
        let found : some w ≡ some v = rw same at h in
        let passes : test (j, w) ≡ true = cc ((==_iff j k).0 same) in rw (passes, same) found
    | inr other ↦ ground (arith, other, h, get-keep_if test k v d)
  ]
