-- ===== src/SeriesCache/Operations.antt =====
-- The public methods of realtime_series_cache.py on a consistent store.
use taoli.Base.{
  ℕ, ◌≤◌, String, ◌≡◌, true, false, none, some, arith, if◌then◌else◌, ◌==◌, ==_self, ==_iff, length,
  nat_eq, string_eq, pair_eq, Bool-cases, inl, inr, Option-cases, length-keep_if, not,
}
use taoli.Base.Dict
use taoli.Base.Dict.{Dict}
use taoli.Base.Number.{Float}
use taoli.SeriesCache.{
  SeriesValue, point_count, Limits, Store, removed, remove, stored, enforce, set_item, get_item,
  touch, touched,
}
use taoli.SeriesCache.Invariant.{
  IsConsistent, sum_points-set, sum_points-set_old, sum_points-move_to_end, removed-IsConsistent,
}
use taoli.SeriesCache.Sweep.{remove_of_entry, entry_of_series, entry-removed, is_idle, expire_lem}
use taoli.SeriesCache.Enforce.{trim_keys_lem, trim_points_lem}

module _ {W A : Type 0} where
  stored-IsConsistent :
      (c : ℕ) (key : String) (value : SeriesValue A) (now : W) (s : Store W A)
      → IsConsistent s
      → Dict.get (c, key) s.entries ≡ none
      → IsConsistent (stored c key value now s)
  unfolding stored
  stored-IsConsistent c key value now s h free = record {
    agree = λ d j. ground (
      arith,
      h.agree d j,
      Dict.get-set (c, key) (d, j) (now, point_count value) s.entries,
      Dict.get-set key j value (s.caches c).data_of,
      ==_iff c d,
    );
    total = omega (arith, h.total, sum_points-set (c, key) (now, point_count value) s.entries free);
    distinct = Dict.set-NoDup (c, key) (now, point_count value) s.entries h.distinct;
    series_distinct = λ d. ground (
      arith,
      h.series_distinct d,
      Dict.set-NoDup key value (s.caches c).data_of (h.series_distinct c),
    );
    markers = λ d. ground (
      arith,
      h.markers d,
      h.markers c,
      length-keep_if (λ (k : String). not (k == key)) (s.caches c).evicted,
    );
  }

  -- The removal of an older series under the key, or nothing.
  clear_way :
      (c : ℕ) (key : String) (s : Store W A)
      → IsConsistent s
      → (t : Store W A) × ((if Dict.has key (s.caches c).data_of
            then remove c key false s
            else some s)
          ≡ some t)
        × IsConsistent t
        × (Dict.get (c, key) t.entries ≡ none)
  clear_way c key s h = elim (Bool-cases (Dict.has key (s.caches c).data_of)) [
    | inl old ↦
        let (e, g) = entry_of_series c key true s h old in
        (
          removed c key false e.1 s,
          rw old (remove_of_entry c key false s h g),
          removed-IsConsistent c key false s h g,
          ground (arith, entry-removed c key false s e.1 c key, ==_self c, ==_self key),
        )
    | inr fresh ↦ (s, rw fresh, h, ground (arith, h.agree c key))
  ]

module _ {W A : Type 0} ⦃f : Float W⦄ (max_points : ℕ) (limits : ℕ → Limits W) where
  enforce_lem :
      (c : ℕ) (s : Store W A)
      → IsConsistent s
      → (t : Store W A) × (enforce max_points limits c s ≡ some t)
        × IsConsistent t
        × (t.total_points ≤ max_points)
        × (length (t.caches c).data_of ≤ (limits c).max_keys)
  unfolding enforce
  enforce_lem c s h =
      let (s₁, e₁, h₁, keys_fit) =
        trim_keys_lem max_points limits (length (s.caches c).data_of) c s h (omega arith) in
      let (s₂, e₂, h₂, points_fit, shrunk) =
        trim_points_lem max_points limits (length s₁.entries) s₁ h₁ (omega arith) in
      (s₂, ground (arith, e₁, e₂), h₂, points_fit, omega (arith, shrunk c, keys_fit))

  -- On a consistent store a write does not raise, its loops end, and it leaves a consistent store in
  -- which the budget's total is within `max_points` and the written cache within its `max_keys`.
  pub set_item-IsConsistent :
      (c : ℕ) (key : String) (value : SeriesValue A) (now : W) (s : Store W A)
      → IsConsistent s
      → (t : Store W A) × (set_item max_points limits c key value now s ≡ some t)
        × IsConsistent t
        × (t.total_points ≤ max_points)
        × (length (t.caches c).data_of ≤ (limits c).max_keys)
  unfolding set_item
  set_item-IsConsistent c key value now s h =
      let (s₁, e₁, swept) = expire_lem max_points limits now s h in
      let (s₂, e₂, h₂, free) = clear_way c key s₁ swept.consistent in
      let (t, e₃, h₃, points_fit, keys_fit) =
        enforce_lem c (stored c key value now s₂)
          (stored-IsConsistent c key value now s₂ h₂ free) in
      (t, rw (e₁, e₂) e₃, h₃, points_fit, keys_fit)

  touched-IsConsistent :
      (c : ℕ) (key : String) (now : W) (s : Store W A) {e : W × ℕ}
      → IsConsistent s
      → Dict.get (c, key) s.entries ≡ some e
      → IsConsistent (touched c key now e.1 s)
  unfolding touched
  touched-IsConsistent c key now s {e} h g =
      let renewed = Dict.set (c, key) (now, e.1) s.entries in
      let distinct = Dict.set-NoDup (c, key) (now, e.1) s.entries h.distinct in
      record {
        agree = λ d j. ground (
          arith,
          g,
          h.agree d j,
          Dict.get-move_to_end (c, key) (d, j) renewed,
          Dict.get-set (c, key) (d, j) (now, e.1) s.entries,
          ==_iff c d,
          ==_iff key j,
          Dict.get-move_to_end key j (s.caches c).data_of,
        );
        total = omega (
          arith,
          h.total,
          sum_points-move_to_end (c, key) renewed distinct,
          sum_points-set_old (c, key) (now, e.1) s.entries g,
        );
        distinct = Dict.move_to_end-NoDup (c, key) renewed distinct;
        series_distinct = λ d. ground (
          arith,
          h.series_distinct d,
          Dict.move_to_end-NoDup key (s.caches c).data_of (h.series_distinct c),
        );
        markers = λ d. ground (arith, h.markers d, h.markers c);
      }

  -- On a consistent store a read returns the series under the key unless its entry has been idle for
  -- the cache's time to live, and keeps the store consistent. (`some (t, none)` is the `KeyError` of a
  -- missing key; no other exception is raised.)
  pub get_item_lem :
      (c : ℕ) (key : String) (now : W) (s : Store W A)
      → IsConsistent s
      → (t : Store W A) × (get_item max_points limits c key now s
          ≡ some (
            t,
            if is_idle limits now c (Dict.get (c, key) s.entries)
                then none
                else Dict.get key (s.caches c).data_of,
          ))
        × IsConsistent t
  unfolding get_item touch
  get_item_lem c key now s h =
      let (s₁, e₁, swept) = expire_lem max_points limits now s h in
      elim (Option-cases (Dict.get key (s₁.caches c).data_of)) [
        | inl missing ↦ (s₁, rw e₁ (ground (arith, missing, swept.series c key)), swept.consistent)
        | inr (value, found) ↦
            let (e, g) = entry_of_series c key true s₁ swept.consistent (rw found) in
            (
              touched c key now e.1 s₁,
              rw e₁ (ground (arith, found, g, swept.series c key)),
              touched-IsConsistent c key now s₁ swept.consistent g,
            )
      ]
