-- ===== src/SeriesCache/Sweep.antt =====
-- `_remove` and `_expire` of realtime_series_cache.py on a consistent store.
use taoli.Base.{
  ℕ, String, ◌≡◌, refl, Bool, true, false, Option, none, some, [], ◌∷◌, ◌&&◌, arith, if◌then◌else◌,
  ◌==◌, ==_iff, ==_self, nat_eq, string_eq, pair_eq, Bool-cases, inl, inr, Option-cases,
}
use taoli.Base.Dict
use taoli.Base.Dict.{Dict}
use taoli.Base.Number.{Float, ◌⊖◌, ◌≤?◌}
use taoli.SeriesCache.{Limits, Store, removed, remove, expire_from, expire}
use taoli.SeriesCache.Invariant.{IsConsistent, removed-IsConsistent, data_of-mark_evicted}

module _ {W A : Type 0} (c : ℕ) (key : String) (evicted : Bool) (s : Store W A) where
  -- An entry has a series, so `_remove` of it does not raise.
  pub remove_of_entry :
      {e : W × ℕ}
      → IsConsistent s
      → Dict.get (c, key) s.entries ≡ some e
      → remove c key evicted s ≡ some (removed c key evicted e.1 s)
  unfolding remove
  remove_of_entry h g = ground (arith, h.agree c key)

  -- A series has an entry.
  pub entry_of_series :
      IsConsistent s
      → Dict.has key (s.caches c).data_of ≡ true
      → (e : W × ℕ) × (Dict.get (c, key) s.entries ≡ some e)
  entry_of_series h g = elim (Option-cases (Dict.get (c, key) s.entries)) [
    | inl missing ↦ absurd (ground (arith, h.agree c key))
    | inr found ↦ found
  ]

  pub series-removed :
      (gone d : ℕ) (j : String)
      → Dict.get j ((removed c key evicted gone s).caches d).data_of
        ≡ (if c == d && key == j then none else Dict.get j (s.caches d).data_of)
  unfolding removed
  series-removed gone d j = ground (
    arith,
    Dict.get-pop key j (s.caches c).data_of,
    data_of-mark_evicted key (record (s.caches c) { data_of = Dict.pop key (s.caches c).data_of }),
    ==_iff c d,
  )

  pub entry-removed :
      (gone d : ℕ) (j : String)
      → Dict.get (d, j) (removed c key evicted gone s).entries
        ≡ (if c == d && key == j then none else Dict.get (d, j) s.entries)
  unfolding removed
  entry-removed gone d j = Dict.get-pop (c, key) (d, j) s.entries

-- Whether an entry has been idle for its cache's time to live.
abbrev pub is_idle : {W : Type 0} ⦃f : Float W⦄ → (ℕ → Limits W) → W → ℕ → Option (W × ℕ) → Bool
is_idle limits now c none = false
is_idle limits now c (some (accessed_at, n)) = (limits c).idle_ttl_seconds ≤? now ⊖ accessed_at

module _ {W A : Type 0} ⦃f : Float W⦄ (max_points : ℕ) (limits : ℕ → Limits W) where
  -- `t` is `s` without the idle ones of the entries `old`.
  pub record Swept (now : W) (old : Dict (ℕ × String) (W × ℕ)) (s t : Store W A) : Type 0 where
    pub consistent : IsConsistent t
    pub entry :
        (c : ℕ) (key : String)
        → Dict.get (c, key) t.entries ≡ (
            if is_idle limits now c (Dict.get (c, key) old)
            then none
            else Dict.get (c, key) s.entries)
    pub series :
        (c : ℕ) (key : String)
        → Dict.get key (t.caches c).data_of ≡ (
            if is_idle limits now c (Dict.get (c, key) old)
            then none
            else Dict.get key (s.caches c).data_of)

  expire_from_lem :
      (now : W) (old : Dict (ℕ × String) (W × ℕ)) (s : Store W A)
      → Dict.NoDup old
      → ((k : ℕ × String) (e : W × ℕ) → Dict.get k old ≡ some e → Dict.get k s.entries ≡ some e)
      → IsConsistent s
      → (t : Store W A) × (expire_from max_points limits now old s ≡ some t) × Swept now old s t
  unfolding expire_from Dict.get
  expire_from_lem now [] s distinct there h =
      (s, refl, record { consistent = h; entry = λ c k. refl; series = λ c k. refl })
  expire_from_lem now (((c, key), (at, n)) ∷ old) s distinct there h =
      elim (Bool-cases ((limits c).idle_ttl_seconds ≤? now ⊖ at)) [
        | inl idle ↦
            let g : Dict.get (c, key) s.entries ≡ some (at, n) =
              there (c, key) (at, n) (rw (==_self {A = ℕ × String})) in
            let (t, e, swept) =
              expire_from_lem now old (removed c key true n s) distinct.1
                (λ k e g. ground (
                  arith,
                  entry-removed c key true s n k.0 k.1,
                  there k e,
                  ==_iff c k.0,
                  ==_iff key k.1,
                  distinct.0,
                  g,
                ))
                (removed-IsConsistent c key true s h g) in
            (
              t,
              rw (idle, remove_of_entry c key true s h g) e,
              record {
                consistent = swept.consistent;
                entry = λ d j. ground (
                  arith,
                  idle,
                  entry-removed c key true s n d j,
                  swept.entry d j,
                  ==_iff c d,
                  ==_iff key j,
                  distinct.0,
                );
                series = λ d j. ground (
                  arith,
                  idle,
                  series-removed c key true s n d j,
                  swept.series d j,
                  ==_iff c d,
                  ==_iff key j,
                  distinct.0,
                );
              },
            )
        | inr live ↦
            let (t, e, swept) =
              expire_from_lem now old s distinct.1
                (λ k e g.
                  ground (arith, there k e, ==_iff {A = ℕ × String} (c, key) k, distinct.0, g))
                h in
            (
              t,
              rw live e,
              record {
                consistent = swept.consistent;
                entry = λ d j.
                    ground (arith, live, swept.entry d j, ==_iff c d, ==_iff key j, distinct.0);
                series = λ d j.
                    ground (arith, live, swept.series d j, ==_iff c d, ==_iff key j, distinct.0);
              },
            )
      ]

  pub expire_lem :
      (now : W) (s : Store W A)
      → IsConsistent s
      → (t : Store W A) × (expire max_points limits now s ≡ some t) × Swept now s.entries s t
  unfolding expire
  expire_lem now s h = expire_from_lem now s.entries s h.distinct (λ k e g. g) h
