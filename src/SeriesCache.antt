-- ===== src/SeriesCache.antt =====
-- backend/app/services/realtime_series_cache.py: caches of point series that share one budget of
-- points. The budget and its caches refer to one another, so the state is one store: the budget's
-- fields, and the caches by their identity. What `__init__` fixes is a parameter: `max_points`, and
-- the limits of each cache. A `KeyError` that leaves a method is `none`.
pub mod Invariant
pub mod Sweep
pub mod Enforce
pub mod Operations
pub mod Clearing
use taoli.Base.{
  ℕ, zero, suc, ◌+◌, ◌-◌, String, Bool, true, false, Option, none, some, List, [], ◌∷◌, ◌++◌, ltb,
  if◌then◌else◌, ◌==◌, ◌>>=◌, keep_if, contains, length, not, nat_eq, string_eq, pair_eq,
}
use taoli.Base.Dict
use taoli.Base.Dict.{Dict}
use taoli.Base.Number.{Float, ◌⊖◌, ◌≤?◌, nought}

-- A list of points, or lists of points by leg.
pub data SeriesValue (A : Type 0) : Type 0 where
  points : List A → SeriesValue A
  legs : Dict String (List A) → SeriesValue A

count_legs : {A : Type 0} → Dict String (List A) → ℕ
count_legs [] = 0
count_legs ((key, ps) ∷ rest) = length ps + count_legs rest

pub point_count : {A : Type 0} → SeriesValue A → ℕ
unfolding count_legs
point_count (points ps) = length ps
point_count (legs d) = count_legs d

pub record Limits (W : Type 0) : Type 0 where
  pub max_keys : ℕ
  pub idle_ttl_seconds : W

pub record Cache (A : Type 0) : Type 0 where
  pub data_of : Dict String (SeriesValue A)
  pub evicted : List String
  pub forgotten_evictions : Bool

pub record Store (W A : Type 0) : Type 0 where
  pub total_points : ℕ
  pub entries : Dict (ℕ × String) (W × ℕ)
  pub caches : ℕ → Cache A

abbrev pub max_eviction_markers : ℕ
max_eviction_markers = 128

abbrev pub max_keys_default : ℕ
max_keys_default = 128

abbrev pub update : {C : Type 0} → (ℕ → C) → ℕ → C → ℕ → C
update f c x d = if c == d then x else f d

abbrev pub empty_cache : {A : Type 0} → Cache A
empty_cache = record { data_of = []; evicted = []; forgotten_evictions = false }

abbrev pub empty_store : {W A : Type 0} → Store W A
empty_store = record { total_points = 0; entries = []; caches = λ _. empty_cache }

-- `max_keys < 0` cannot happen here; a time to live that is not positive is refused.
pub new_limits : {W : Type 0} ⦃f : Float W⦄ → ℕ → W → Option (Limits W)
new_limits max_keys ttl =
    if ttl ≤? nought then none else some (record { max_keys = max_keys; idle_ttl_seconds = ttl })

pub drop_first : List String → List String
drop_first [] = []
drop_first (k ∷ ks) = ks

-- The eviction marker moves to the end, and the oldest marker beyond the limit is dropped.
pub mark_evicted : {A : Type 0} → String → Cache A → Cache A
unfolding drop_first
mark_evicted key cache =
    let marks = keep_if (λ k. not (k == key)) cache.evicted ++ (key ∷ []) in
    if ltb max_eviction_markers (length marks)
    then record cache { evicted = drop_first marks; forgotten_evictions = true }
    else record cache { evicted = marks }

-- What `_remove` leaves, where `gone` points were recorded for the entry.
pub removed : {W A : Type 0} → ℕ → String → Bool → ℕ → Store W A → Store W A
unfolding mark_evicted
removed c key evicted gone s =
    let cache = s.caches c in
    let left = record cache { data_of = Dict.pop key cache.data_of } in
    record s {
      total_points = s.total_points - gone;
      entries = Dict.pop (c, key) s.entries;
      caches = update s.caches c (if evicted then mark_evicted key left else left);
    }

-- `_remove`: both the entry and the series must be there.
pub remove : {W A : Type 0} → ℕ → String → Bool → Store W A → Option (Store W A)
remove c key evicted s = do
  entry ← Dict.get (c, key) s.entries
  series ← Dict.get key (s.caches c).data_of
  some (removed c key evicted entry.1 s)

-- What `_touch` leaves, where `n` points are recorded for the entry.
pub touched : {W A : Type 0} → ℕ → String → W → ℕ → Store W A → Store W A
touched c key now n s =
    let cache = s.caches c in
    record s {
      entries = Dict.move_to_end (c, key) (Dict.set (c, key) (now, n) s.entries);
      caches = update s.caches c (record cache { data_of = Dict.move_to_end key cache.data_of });
    }

-- `_touch`: the entry must be there.
pub touch : {W A : Type 0} → ℕ → String → W → Store W A → Option (Store W A)
touch c key now s = do entry ← Dict.get (c, key) s.entries; some (touched c key now entry.1 s)

-- What `__setitem__` writes once an older series under the key is gone.
pub stored : {W A : Type 0} → ℕ → String → SeriesValue A → W → Store W A → Store W A
stored c key value now s =
    let cache = s.caches c in
    record s {
      total_points = s.total_points + point_count value;
      entries = Dict.set (c, key) (now, point_count value) s.entries;
      caches = update s.caches c (record cache {
        data_of = Dict.set key value cache.data_of;
        evicted = keep_if (λ k. not (k == key)) cache.evicted;
      });
    }

module _ {W A : Type 0} ⦃f : Float W⦄ (max_points : ℕ) (limits : ℕ → Limits W) where
  -- The loop of `_expire`, over the entries as they were at its start.
  pub expire_from : W → Dict (ℕ × String) (W × ℕ) → Store W A → Option (Store W A)
  expire_from now [] s = some s
  expire_from now (((c, key), (accessed_at, n)) ∷ rest) s =
      (if (limits c).idle_ttl_seconds ≤? now ⊖ accessed_at then remove c key true s else some s)
      >>= λ s'. expire_from now rest s'

  pub expire : W → Store W A → Option (Store W A)
  unfolding expire_from
  expire now s = expire_from now s.entries s

  -- `while len(cache) > cache.max_keys` of `_enforce`. The fuel is the number of series.
  pub trim_keys : ℕ → ℕ → Store W A → Option (Store W A)
  trim_keys zero c s =
      if ltb (limits c).max_keys (length (s.caches c).data_of) then none else some s
  trim_keys (suc fuel) c s = elim (ltb (limits c).max_keys (length (s.caches c).data_of)) [
    | false ↦ some s
    | true ↦ Dict.first_key (s.caches c).data_of >>= λ key.
        remove c key true s >>= λ s'. trim_keys fuel c s'
  ]

  -- `while self.total_points > self.max_points` of `_enforce`. The fuel is the number of entries.
  pub trim_points : ℕ → Store W A → Option (Store W A)
  trim_points zero s = if ltb max_points s.total_points then none else some s
  trim_points (suc fuel) s = elim (ltb max_points s.total_points) [
    | false ↦ some s
    | true ↦ Dict.first_key s.entries >>= λ oldest.
        remove oldest.0 oldest.1 true s >>= λ s'. trim_points fuel s'
  ]

  pub enforce : ℕ → Store W A → Option (Store W A)
  enforce c s = do
    s' ← trim_keys (length (s.caches c).data_of) c s
    trim_points (length s'.entries) s'

  -- `__getitem__`: the store after the sweep, and the series or a `KeyError`.
  pub get_item : ℕ → String → W → Store W A → Option (Store W A × Option (SeriesValue A))
  get_item c key now s = do
    s' ← expire now s
    elim (Dict.get key (s'.caches c).data_of) [
      | none ↦ some (s', none)
      | some value ↦ touch c key now s' >>= λ s''. some (s'', some value)
    ]

  -- `__setitem__`. `_copy_series` copies containers, which are values here.
  pub set_item : ℕ → String → SeriesValue A → W → Store W A → Option (Store W A)
  set_item c key value now s = do
    s₁ ← expire now s
    s₂ ← if Dict.has key (s₁.caches c).data_of then remove c key false s₁ else some s₁
    enforce c (stored c key value now s₂)

-- The loop of `clear`, over the keys as they were at its start.
pub clear_keys : {W A : Type 0} → ℕ → List String → Store W A → Option (Store W A)
clear_keys c [] s = some s
clear_keys c (key ∷ keys) s = remove c key false s >>= λ s'. clear_keys c keys s'

pub reset_markers : {W A : Type 0} → ℕ → Store W A → Store W A
reset_markers c s =
    let cache = s.caches c in
    record s {
      caches = update s.caches c (record cache { evicted = []; forgotten_evictions = false });
    }

pub clear : {W A : Type 0} → ℕ → Store W A → Option (Store W A)
clear c s = do s' ← clear_keys c (Dict.keys (s.caches c).data_of) s; some (reset_markers c s')

pub data RestartStatus : Type 0 where
  evicted_before unknown : RestartStatus

pub restart_status : {A : Type 0} → Cache A → String → Option RestartStatus
restart_status cache key =
    if contains key cache.evicted
    then some evicted_before
    else if cache.forgotten_evictions
    then some unknown
    else none
