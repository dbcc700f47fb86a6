-- ===== src/Snapshots/Versions.antt =====
-- Annotations are published only while their source list is current (snapshot_store.py).
use taoli.Base.{
  ℕ, ◌+◌, ◌≤◌, String, Bool, true, false, ◌||◌, List, [], ◌∷◌, if◌then◌else◌, ◌==◌, nat_eq, ltb,
  Bool-cases, inl, inr, ◌≡◌, arith,
}
use taoli.Base.Dict.{Dict}
use taoli.Models.Identity.{Time}
use taoli.Snapshots.{
  SnapshotStore, set_markets, set_all_markets, set_opportunities, set_opportunities_if_version,
  set_exchange_errors, mark_published,
}

-- A call of a method that changes the store.
pub data Call (M O : Type 0) : Type 0 where
  markets_set all_markets_set : List M → Call M O
  opportunities_set : List O → Call M O
  opportunities_set_if : List O → ℕ → Call M O
  errors_set : Dict String String → Call M O
  published : Time → Call M O

module _ {M O : Type 0} where
  pub apply_call : Call M O → SnapshotStore M O → SnapshotStore M O
  unfolding set_markets set_all_markets set_opportunities set_opportunities_if_version
      set_exchange_errors mark_published
  apply_call (markets_set markets) s = set_markets markets s
  apply_call (all_markets_set markets) s = set_all_markets markets s
  apply_call (opportunities_set os) s = set_opportunities os s
  apply_call (opportunities_set_if os expected) s = (set_opportunities_if_version os expected s).0
  apply_call (errors_set errors) s = set_exchange_errors errors s
  apply_call (published now) s = mark_published now s

  pub apply_calls : List (Call M O) → SnapshotStore M O → SnapshotStore M O
  apply_calls [] s = s
  apply_calls (call ∷ calls) s = apply_calls calls (apply_call call s)

  -- The call replaces the list of opportunities.
  abbrev pub replaces : Call M O → SnapshotStore M O → Bool
  replaces (opportunities_set os) s = true
  replaces (opportunities_set_if os expected) s = s.opportunities_version == expected
  replaces _ s = false

  pub replaces_any : List (Call M O) → SnapshotStore M O → Bool
  replaces_any [] s = false
  replaces_any (call ∷ calls) s = replaces call s || replaces_any calls (apply_call call s)

  apply_call-version :
      (call : Call M O) (s : SnapshotStore M O)
      → (apply_call call s).opportunities_version
        ≡ s.opportunities_version + (if replaces call s then 1 else 0)
  unfolding apply_call
  apply_call-version call s = ground arith

  apply_calls-version :
      (calls : List (Call M O)) (s : SnapshotStore M O)
      → (s.opportunities_version ≤ (apply_calls calls s).opportunities_version)
        × (ltb s.opportunities_version (apply_calls calls s).opportunities_version
            ≡ replaces_any calls s)
  unfolding apply_calls replaces_any
  apply_calls-version [] s = (omega arith, ground arith)
  apply_calls-version (call ∷ calls) s =
      let ih = apply_calls-version calls (apply_call call s) in
      let next = apply_call-version call s in
      elim (Bool-cases (replaces call s)) [
        | inl e ↦ (omega (arith, ih.0, next), ground (arith, e, ih.0, ih.1, next))
        | inr e ↦ (omega (arith, ih.0, next), ground (arith, e, ih.0, ih.1, next))
      ]

  -- With the version that was read before a sequence of calls, a list is published after it exactly if
  -- no call of the sequence replaced the opportunities; else the store stays as it is.
  pub set_opportunities_if_version_lem :
      (calls : List (Call M O)) (os : List O) (s : SnapshotStore M O)
      → let after = apply_calls calls s in
        set_opportunities_if_version os s.opportunities_version after
        ≡ (if replaces_any calls s then (after, false) else (set_opportunities os after, true))
  unfolding set_opportunities_if_version
  set_opportunities_if_version_lem calls os s =
      let (grown, told) = apply_calls-version calls s in ground (arith, grown, told)
