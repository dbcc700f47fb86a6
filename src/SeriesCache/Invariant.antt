-- ===== src/SeriesCache/Invariant.antt =====
-- What holds of the store of realtime_series_cache.py between two calls, and how `_remove` keeps it.
use taoli.Base.{
  ℕ, ◌+◌, ◌-◌, ◌≤◌, String, ◌≡◌, refl, Bool, Option, none, some, List, [], ◌∷◌, ◌++◌, arith, ◌==◌,
  ==_iff, length, nat_eq, string_eq, pair_eq, Bool-cases, inl, inr, length-append, length-keep_if,
  keep_if, not, Option-cases,
}
use taoli.Base.Dict
use taoli.Base.Dict.{Dict}
use taoli.SeriesCache.{
  SeriesValue, point_count, Cache, Store, max_eviction_markers, empty_store, mark_evicted,
  drop_first, removed,
}

abbrev pub points_of : {W : Type 0} → Option (W × ℕ) → Option ℕ
points_of none = none
points_of (some (accessed_at, n)) = some n

abbrev pub count_of : {A : Type 0} → Option (SeriesValue A) → Option ℕ
count_of none = none
count_of (some value) = some (point_count value)

unfoldable pub sum_points : {W : Type 0} → Dict (ℕ × String) (W × ℕ) → ℕ
sum_points [] = 0
sum_points ((key, (accessed_at, n)) ∷ rest) = n + sum_points rest

module _ {W : Type 0} where
  sum_points-append :
      (k : ℕ × String) (e : W × ℕ) (d : Dict (ℕ × String) (W × ℕ))
      → sum_points (d ++ ((k, e) ∷ [])) ≡ sum_points d + e.1
  unfolding sum_points
  sum_points-append k e [] = omega arith
  sum_points-append k e (x ∷ d) = omega (arith, sum_points-append k e d)

-- The entries are the series of the caches with their sizes, each once; the total is their sum; the
-- markers stay within their limit.
pub record IsConsistent {W A : Type 0} (s : Store W A) : Type 0 where
  pub agree :
      (c : ℕ) (key : String)
      → points_of (Dict.get (c, key) s.entries) ≡ count_of (Dict.get key (s.caches c).data_of)
  pub total : s.total_points ≡ sum_points s.entries
  pub distinct : Dict.NoDup s.entries
  pub series_distinct : (c : ℕ) → Dict.NoDup (s.caches c).data_of
  pub markers : (c : ℕ) → length (s.caches c).evicted ≤ max_eviction_markers

pub empty_store-IsConsistent : {W A : Type 0} → IsConsistent {W = W} {A = A} empty_store
unfolding sum_points Dict.get
empty_store-IsConsistent = record {
  agree = λ c key. refl;
  total = refl;
  distinct = tt;
  series_distinct = λ c. tt;
  markers = λ c. omega arith;
}

module _ {W : Type 0} where
  pub sum_points-pop :
      (k : ℕ × String) (d : Dict (ℕ × String) (W × ℕ)) {e : W × ℕ}
      → Dict.NoDup d
      → Dict.get k d ≡ some e
      → sum_points (Dict.pop k d) + e.1 ≡ sum_points d
  unfolding sum_points Dict.get Dict.pop
  sum_points-pop k [] h g = cc
  sum_points-pop k ((j, (t, n)) ∷ d) {e} h g = elim (Bool-cases (j == k)) [
    | inl same ↦ ground (arith, ==_iff j k, Dict.pop-eq_of_none k d, same, h.0)
    | inr other ↦ ground (arith, sum_points-pop k d {e = e} h.1)
  ]

  pub sum_points-set :
      (k : ℕ × String) (e : W × ℕ) (d : Dict (ℕ × String) (W × ℕ))
      → Dict.get k d ≡ none
      → sum_points (Dict.set k e d) ≡ sum_points d + e.1
  unfolding sum_points Dict.get Dict.set
  sum_points-set k e [] g = omega arith
  sum_points-set k e ((j, (t, n)) ∷ d) g = ground (arith, sum_points-set k e d)

length-drop_first : (ks : List String) → length (drop_first ks) ≡ length ks - 1
unfolding drop_first
length-drop_first [] = omega arith
length-drop_first (k ∷ ks) = omega arith

module _ {A : Type 0} where
  pub data_of-mark_evicted :
      (key : String) (cache : Cache A) → (mark_evicted key cache).data_of ≡ cache.data_of
  unfolding mark_evicted
  data_of-mark_evicted key cache = ground arith

  pub mark_evicted_bounded :
      (key : String) (cache : Cache A)
      → length cache.evicted ≤ max_eviction_markers
      → length (mark_evicted key cache).evicted ≤ max_eviction_markers
  unfolding mark_evicted
  mark_evicted_bounded key cache h =
      let kept = keep_if (λ (k : String). not (k == key)) cache.evicted in
      ground (
        arith,
        length-keep_if (λ (k : String). not (k == key)) cache.evicted,
        length-append kept (key ∷ []),
        length-drop_first (kept ++ (key ∷ [])),
      )

module _ {W A : Type 0} where
  pub removed-IsConsistent :
      (c : ℕ) (key : String) (evicted : Bool) (s : Store W A) {e : W × ℕ}
      → IsConsistent s
      → Dict.get (c, key) s.entries ≡ some e
      → IsConsistent (removed c key evicted e.1 s)
  unfolding removed
  removed-IsConsistent c key evicted s {e} h g = record {
    agree = λ d j. ground (
      arith,
      Dict.get-pop (c, key) (d, j) s.entries,
      Dict.get-pop key j (s.caches c).data_of,
      h.agree d j,
      data_of-mark_evicted key
          (record (s.caches c) { data_of = Dict.pop key (s.caches c).data_of }),
      ==_iff c d,
    );
    total = omega (arith, h.total, sum_points-pop (c, key) s.entries h.distinct g);
    distinct = Dict.pop-NoDup (c, key) s.entries h.distinct;
    series_distinct = λ d. ground (
      arith,
      data_of-mark_evicted key
          (record (s.caches c) { data_of = Dict.pop key (s.caches c).data_of }),
      Dict.pop-NoDup key (s.caches c).data_of (h.series_distinct c),
      h.series_distinct d,
    );
    markers = λ d. ground (
      arith,
      mark_evicted_bounded key (record (s.caches c) { data_of = Dict.pop key (s.caches c).data_of })
          (h.markers c),
      h.markers d,
      h.markers c,
    );
  }

module _ {W : Type 0} where
  pub sum_points-move_to_end :
      (k : ℕ × String) (d : Dict (ℕ × String) (W × ℕ))
      → Dict.NoDup d
      → sum_points (Dict.move_to_end k d) ≡ sum_points d
  unfolding Dict.move_to_end
  sum_points-move_to_end k d h = elim (Option-cases (Dict.get k d)) [
    | inl missing ↦ rw (Dict.move_to_end, missing)
    | inr (e, found) ↦
        ground
          (arith, found, sum_points-append k e (Dict.pop k d), sum_points-pop k d {e = e} h found)
  ]

  pub sum_points-set_old :
      (k : ℕ × String) (e : W × ℕ) (d : Dict (ℕ × String) (W × ℕ)) {old : W × ℕ}
      → Dict.get k d ≡ some old
      → sum_points (Dict.set k e d) + old.1 ≡ sum_points d + e.1
  unfolding sum_points Dict.get Dict.set
  sum_points-set_old k e [] g = cc
  sum_points-set_old k e ((j, x) ∷ d) {old} g = ground (arith, sum_points-set_old k e d {old = old})
