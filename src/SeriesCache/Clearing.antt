-- ===== src/SeriesCache/Clearing.antt =====
-- `clear` of realtime_series_cache.py on a consistent store.
use taoli.Base.{
  ℕ, String, ◌≡◌, ◌≢◌, refl, true, false, none, some, [], ◌∷◌, arith, ==_self, ==_iff, nat_eq,
  string_eq, pair_eq, ◌∙◌, ap,
}
use mathlib.Core.Path.{subst}
use taoli.Base.Dict
use taoli.Base.Dict.{Dict}
use taoli.SeriesCache.{
  SeriesValue, Store, removed, update, empty_cache, reset_markers, clear, clear_keys,
}
use taoli.SeriesCache.Invariant.{IsConsistent, removed-IsConsistent}
use taoli.SeriesCache.Sweep.{remove_of_entry, entry_of_series}

module _ {V : Type 0} (key : String) (value : V) (old : Dict String V) where
  first-has : Dict.has key ((key, value) ∷ old) ≡ true
  unfolding Dict.get
  first-has = ground (arith, ==_self key)

  pop-first : Dict.get key old ≡ none → Dict.pop key ((key, value) ∷ old) ≡ old
  unfolding Dict.pop
  pop-first free = ground (arith, ==_self key, Dict.pop-eq_of_none key old free)

module _ {W A : Type 0} where
  removed_data_of :
      (c : ℕ) (key : String) (n : ℕ) (s : Store W A)
      → ((removed c key false n s).caches c).data_of ≡ Dict.pop key (s.caches c).data_of
  unfolding removed
  removed_data_of c key n s = ground (arith, ==_self c)

  removed_other :
      (c d : ℕ) (key : String) (n : ℕ) (s : Store W A)
      → c ≢ d
      → (removed c key false n s).caches d ≡ s.caches d
  unfolding removed
  removed_other c d key n s other = ground (arith, ==_iff c d)

  clear_keys_lem :
      (c : ℕ) (old : Dict String (SeriesValue A)) (s : Store W A)
      → (s.caches c).data_of ≡ old
      → IsConsistent s
      → (t : Store W A) × (clear_keys c (Dict.keys old) s ≡ some t)
        × IsConsistent t
        × ((t.caches c).data_of ≡ [])
        × ((d : ℕ) → c ≢ d → t.caches d ≡ s.caches d)
  unfolding clear_keys
  clear_keys_lem c [] s is h = (s, refl, h, is, λ d other. refl)
  clear_keys_lem c ((key, value) ∷ old) s is h =
      let distinct : Dict.NoDup ((key, value) ∷ old) =
        subst (λ d. Dict.NoDup d) is (h.series_distinct c) in
      let there : Dict.has key (s.caches c).data_of ≡ true = rw is (first-has key value old) in
      let (e, g) = entry_of_series c key false s h there in
      let s' = removed c key false e.1 s in
      let is' : (s'.caches c).data_of ≡ old =
        removed_data_of c key e.1 s ∙ ap (Dict.pop key) is ∙ pop-first key value old distinct.0 in
      let (t, eq, ok, gone, same) =
        clear_keys_lem c old s' is' (removed-IsConsistent c key false s h g) in
      (
        t,
        rw (remove_of_entry c key false s h g) eq,
        ok,
        gone,
        λ d other. same d other ∙ removed_other c d key e.1 s other,
      )

  -- On a consistent store `clear` does not raise; it leaves its cache as a new one, the other caches
  -- as they were, and the store consistent.
  pub clear_lem :
      (c : ℕ) (s : Store W A)
      → IsConsistent s
      → (t : Store W A) × (clear c s ≡ some t)
        × IsConsistent t
        × ((d : ℕ) → t.caches d ≡ update s.caches c empty_cache d)
  unfolding clear reset_markers
  clear_lem c s h =
      let (s₁, eq, ok, gone, same) = clear_keys_lem c (s.caches c).data_of s refl h in
      (
        reset_markers c s₁,
        rw eq refl,
        record {
          agree = λ d j. ground (arith, ok.agree d j, ==_iff c d);
          total = ok.total;
          distinct = ok.distinct;
          series_distinct = λ d. ground (arith, ok.series_distinct d, ok.series_distinct c);
          markers = λ d. ground (arith, ok.markers d);
        },
        λ d. ground (arith, gone, same d, ==_iff c d),
      )
