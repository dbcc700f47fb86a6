-- ===== src/Examples/SeriesCache.antt =====
-- The cache of series with a budget of five points.
use taoli.Base.{ℕ, ◌≤◌, ◌≡◌, none, some, [], ◌∷◌, length, if◌then◌else◌, nat_eq, string_eq, pair_eq}
use taoli.Base.Dict
use taoli.Base.Number.{ℤ, pos, fixed_float}
use taoli.SeriesCache.{
  SeriesValue, points, Limits, Store, empty_store, empty_cache, update, set_item, get_item, clear,
}
use taoli.SeriesCache.Invariant.{IsConsistent, empty_store-IsConsistent}
use taoli.SeriesCache.Sweep.{is_idle}
use taoli.SeriesCache.Operations.{set_item-IsConsistent, get_item_lem}
use taoli.SeriesCache.Clearing.{clear_lem}

abbrev two_keys : ℕ → Limits ℤ
two_keys c = record { max_keys = 2; idle_ttl_seconds = pos 60000000 }

abbrev three_points : SeriesValue ℕ
three_points = points (7 ∷ 8 ∷ 9 ∷ [])

abbrev no_series : Store ℤ ℕ
no_series = empty_store

first_write :
    (t : Store ℤ ℕ) × (set_item 5 two_keys 0 "BTC" three_points (pos 0) no_series ≡ some t)
    × IsConsistent t
    × (t.total_points ≤ 5)
    × (length (t.caches 0).data_of ≤ 2)
first_write =
    set_item-IsConsistent 5 two_keys 0 "BTC" three_points (pos 0) no_series empty_store-IsConsistent

abbrev one_series : Store ℤ ℕ
one_series = first_write.0

set_item-IsConsistent_example :
    (t : Store ℤ ℕ) × (set_item 5 two_keys 0 "ETH" three_points (pos 1000000) one_series ≡ some t)
    × IsConsistent t
    × (t.total_points ≤ 5)
    × (length (t.caches 0).data_of ≤ 2)
set_item-IsConsistent_example =
    set_item-IsConsistent 5 two_keys 0 "ETH" three_points (pos 1000000) one_series first_write.2

get_item_lem_example :
    (t : Store ℤ ℕ) × (get_item 5 two_keys 0 "BTC" (pos 1000000) one_series
      ≡ some (
        t,
        if is_idle two_keys (pos 1000000) 0 (Dict.get (0, "BTC") one_series.entries)
            then none
            else Dict.get "BTC" (one_series.caches 0).data_of,
      ))
    × IsConsistent t
get_item_lem_example = get_item_lem 5 two_keys 0 "BTC" (pos 1000000) one_series first_write.2

clear_lem_example :
    (t : Store ℤ ℕ) × (clear 0 one_series ≡ some t)
    × IsConsistent t
    × ((d : ℕ) → t.caches d ≡ update one_series.caches 0 empty_cache d)
clear_lem_example = clear_lem 0 one_series first_write.2
