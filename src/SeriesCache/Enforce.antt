-- ===== src/SeriesCache/Enforce.antt =====
-- The two loops of `_enforce` end within their fuel and reach their limits.
use taoli.Base.{
  ℕ, zero, suc, ◌+◌, ◌≤◌, ◌<◌, String, ◌≡◌, refl, true, some, [], ◌∷◌, arith, if◌then◌else◌, ◌==◌,
  ==_self, ==_iff, length, nat_eq, string_eq, pair_eq, Bool-cases, inl, inr, ltb, ◌∙◌,
}
use taoli.Base.Dict
use taoli.Base.Dict.{Dict}
use taoli.Base.Number.{Float}
use taoli.SeriesCache.{Limits, Store, removed, remove, trim_keys, trim_points}
use taoli.SeriesCache.Invariant.{
  IsConsistent, sum_points, removed-IsConsistent, data_of-mark_evicted,
}
use taoli.SeriesCache.Sweep.{remove_of_entry, entry_of_series}

module _ {W A : Type 0} (c : ℕ) (key : String) (s : Store W A) where
  data_of-removed :
      (n d : ℕ)
      → ((removed c key true n s).caches d).data_of
        ≡ (if c == d then Dict.pop key (s.caches c).data_of else (s.caches d).data_of)
  unfolding removed
  data_of-removed n d = ground (
    arith,
    data_of-mark_evicted key (record (s.caches c) { data_of = Dict.pop key (s.caches c).data_of }),
  )

  length-removed :
      (n d : ℕ) → length ((removed c key true n s).caches d).data_of ≤ length (s.caches d).data_of
  length-removed n d =
      ground (arith, data_of-removed n d, Dict.length-pop-le key (s.caches c).data_of, ==_iff c d)

  length-removed_first :
      (n : ℕ)
      → Dict.first_key (s.caches c).data_of ≡ some key
      → length ((removed c key true n s).caches c).data_of + 1 ≤ length (s.caches c).data_of
  length-removed_first n first =
      ground (
        arith,
        data_of-removed n c,
        ==_self c,
        Dict.length-pop_first key (s.caches c).data_of first,
      )

  length-entries-removed :
      (n : ℕ)
      → Dict.first_key s.entries ≡ some (c, key)
      → length (removed c key true n s).entries + 1 ≤ length s.entries
  unfolding removed
  length-entries-removed n first = Dict.length-pop_first (c, key) s.entries first

sum_points-nil : {W : Type 0} (d : Dict (ℕ × String) (W × ℕ)) → length d ≤ 0 → sum_points d ≡ 0
unfolding sum_points
sum_points-nil [] h = refl
sum_points-nil (x ∷ d) h = absurd (omega arith)

-- An entry is there while the total is positive.
first_entry :
    {W : Type 0} (d : Dict (ℕ × String) (W × ℕ))
    → 0 < sum_points d
    → (c : ℕ) × (key : String) × (e : W × ℕ) × (Dict.first_key d ≡ some (c, key))
      × (Dict.get (c, key) d ≡ some e)
unfolding sum_points Dict.get
first_entry [] pos = absurd (omega arith)
first_entry (((c, key), e) ∷ d) pos = (c, key, e, refl, rw (==_self {A = ℕ × String}))

first_of_nonempty :
    {V : Type 0} (d : Dict String V) → 0 < length d → (key : String) × (Dict.first_key d ≡ some key)
first_of_nonempty [] pos = absurd (omega arith)
first_of_nonempty ((key, v) ∷ d) pos = (key, refl)

module _ {W A : Type 0} ⦃f : Float W⦄ (max_points : ℕ) (limits : ℕ → Limits W) where
  trim_keys-step :
      (fuel c : ℕ) (key : String) (s t : Store W A)
      → ltb (limits c).max_keys (length (s.caches c).data_of) ≡ true
      → Dict.first_key (s.caches c).data_of ≡ some key
      → remove c key true s ≡ some t
      → trim_keys max_points limits (suc fuel) c s ≡ trim_keys max_points limits fuel c t
  unfolding trim_keys
  trim_keys-step fuel c key s t over first gone = ground (arith, over, first, gone)

  trim_points-step :
      (fuel c : ℕ) (key : String) (s t : Store W A)
      → ltb max_points s.total_points ≡ true
      → Dict.first_key s.entries ≡ some (c, key)
      → remove c key true s ≡ some t
      → trim_points max_points limits (suc fuel) s ≡ trim_points max_points limits fuel t
  unfolding trim_points
  trim_points-step fuel c key s t over first gone = ground (arith, over, first, gone)

  pub trim_keys_lem :
      (fuel c : ℕ) (s : Store W A)
      → IsConsistent s
      → length (s.caches c).data_of ≤ fuel
      → (t : Store W A) × (trim_keys max_points limits fuel c s ≡ some t)
        × IsConsistent t
        × (length (t.caches c).data_of ≤ (limits c).max_keys)
  unfolding trim_keys
  trim_keys_lem zero c s h small = (s, ground arith, h, omega arith)
  trim_keys_lem (suc fuel) c s h small =
      elim (Bool-cases (ltb (limits c).max_keys (length (s.caches c).data_of))) [
        | inl over ↦
            let (key, first) = first_of_nonempty (s.caches c).data_of (ground arith) in
            let (e, g) =
              entry_of_series c key true s h (Dict.has-first_key key (s.caches c).data_of first) in
            let (t, eq, ok, fits) =
              trim_keys_lem fuel c (removed c key true e.1 s)
                (removed-IsConsistent c key true s h g)
                (omega (arith, length-removed_first c key s e.1 first)) in
            (
              t,
              trim_keys-step fuel c key s _ over first (remove_of_entry c key true s h g) ∙ eq,
              ok,
              fits,
            )
        | inr done ↦ (s, ground (arith, done), h, ground arith)
      ]

  pub trim_points_lem :
      (fuel : ℕ) (s : Store W A)
      → IsConsistent s
      → length s.entries ≤ fuel
      → (t : Store W A) × (trim_points max_points limits fuel s ≡ some t)
        × IsConsistent t
        × (t.total_points ≤ max_points)
        × ((d : ℕ) → length (t.caches d).data_of ≤ length (s.caches d).data_of)
  unfolding trim_points
  trim_points_lem zero s h small =
      let none_left : s.total_points ≤ max_points =
        omega (arith, h.total, sum_points-nil s.entries small) in
      (s, ground arith, h, none_left, λ d. omega arith)
  trim_points_lem (suc fuel) s h small = elim (Bool-cases (ltb max_points s.total_points)) [
    | inl over ↦
        let (c, key, e, first, g) = first_entry s.entries (ground (arith, h.total)) in
        let s' = removed c key true e.1 s in
        let (t, eq, ok, fits, shrunk) =
          trim_points_lem fuel s' (removed-IsConsistent c key true s h g)
            (omega (arith, length-entries-removed c key s e.1 first)) in
        (
          t,
          trim_points-step fuel c key s _ over first (remove_of_entry c key true s h g) ∙ eq,
          ok,
          fits,
          λ d. omega (arith, shrunk d, length-removed c key s e.1 d),
        )
    | inr done ↦ (s, ground (arith, done), h, ground arith, λ d. omega arith)
  ]
