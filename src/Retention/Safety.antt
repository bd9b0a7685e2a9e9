-- ===== src/Retention/Safety.antt =====
-- What the retention policy of apps/engine/src/retention.rs may do to a shape.
use electric_circuits.Prelude.{
  ℕ, ◌+◌, ◌-◌, filter, ◌≤◌, ◌≡◌, ◌⊎◌, inl, inr, refl, true, false, Option, none, some, List, [],
  ◌∷◌, arith, All, All-append, All-Memᴰ, All-filter, All-filter_test, All-both, All-imp, Memᴰ,
  Bool-cases, ltb,
}
use electric_circuits.Value.{Text}
use electric_circuits.Retention.{
  RetentionConfig, SweepShape, EvictReason, SweepPlan, Sweep, is_some, is_zero, goes_dormant,
  dormancy_tier, evict_shape, apply_verdict, evict_tier, replay_verdict, ttl_verdict,
  unparkable_verdict, is_parked, capacity_loop, budget_loop, retire_tiers, lru_of, capacity_tier,
  budget_tier, run_sweep, plan_sweep,
}
use electric_circuits.Retention.Queue.{All-sort_idle}

module _ (cfg : RetentionConfig) (shapes : List SweepShape) where
  -- Dormant, or a shape that cannot park and that nobody subscribes to or has read for long.
  abbrev pub Retirable : SweepShape → Type 0
  Retirable s =
      (is_some s.dormant_for ≡ true)
      ⊎ ((s.dormancy_eligible ≡ false)
          × (s.in_transition ≡ false)
          × (s.refcount ≡ 0)
          × (cfg.idle_timeout + cfg.dormant_ttl ≤ s.idle))

  abbrev pub Parkable : SweepShape → Type 0
  Parkable s =
      (s.dormancy_eligible ≡ true)
      × (s.in_transition ≡ false)
      × (is_some s.dormant_for ≡ false)
      × (s.refcount ≡ 0)
      × (cfg.idle_timeout ≤ s.idle)

  abbrev pub MayEvict : Text × EvictReason → Type 0
  MayEvict e = (s : SweepShape) × Memᴰ s shapes × (s.id ≡ e.0) × Retirable s

  abbrev pub MayPark : Text → Type 0
  MayPark id = (s : SweepShape) × Memᴰ s shapes × (s.id ≡ id) × Parkable s

  -- What a plan may hold.
  pub record IsSafe (plan : SweepPlan) : Type 0 where
    pub parks : All MayPark plan.deactivate
    pub evicts : All MayEvict plan.evict

  evict_shape-IsSafe :
      (r : EvictReason) (s : SweepShape) (st : Sweep)
      → Memᴰ s shapes
      → Retirable s
      → IsSafe st.plan
      → IsSafe (evict_shape r s st).plan
  unfolding evict_shape
  evict_shape-IsSafe r s st m t h = record {
    parks = h.parks;
    evicts = All-append MayEvict st.plan.evict ((s.id, r) ∷ []) h.evicts ((s, m, refl, t), tt);
  }

  evict_tier-IsSafe :
      (verdict : SweepShape → Option EvictReason)
      → ((s : SweepShape) (r : EvictReason) → verdict s ≡ some r → Retirable s)
      → (xs : List SweepShape) (st : Sweep) → All (λ s. Memᴰ s shapes) xs
      → IsSafe st.plan
      → IsSafe (evict_tier verdict xs st).plan
  unfolding evict_tier
  evict_tier-IsSafe verdict ok [] st m h = h
  evict_tier-IsSafe verdict ok (s ∷ xs) st m h =
      evict_tier-IsSafe verdict ok xs (apply_verdict (verdict s) s st) m.1 (step (verdict s) (ok s))
    where
      step :
          (v : Option EvictReason)
          → ((r : EvictReason) → v ≡ some r → Retirable s)
          → IsSafe (apply_verdict v s st).plan
      step none f = h
      step (some r) f = evict_shape-IsSafe r s st m.0 (f r refl) h

  replay_verdict-Retirable :
      (s : SweepShape) (r : EvictReason) → replay_verdict cfg s ≡ some r → Retirable s
  unfolding replay_verdict
  replay_verdict-Retirable s r h = ground arith

  ttl_verdict-Retirable :
      (s : SweepShape) (r : EvictReason) → ttl_verdict cfg s ≡ some r → Retirable s
  unfolding ttl_verdict
  ttl_verdict-Retirable s r h = ground arith

  unparkable_verdict-Retirable :
      (s : SweepShape) (r : EvictReason) → unparkable_verdict cfg s ≡ some r → Retirable s
  unfolding unparkable_verdict
  unparkable_verdict-Retirable s r h = ground arith

  goes_dormant-Parkable : (s : SweepShape) → goes_dormant cfg s ≡ true → Parkable s
  unfolding goes_dormant
  goes_dormant-Parkable s h = ground arith

  dormancy_tier-MayPark :
      (xs : List SweepShape) → All (λ s. Memᴰ s shapes) xs → All MayPark (dormancy_tier cfg xs)
  unfolding dormancy_tier
  dormancy_tier-MayPark [] m = tt
  dormancy_tier-MayPark (s ∷ xs) m = elim (Bool-cases (goes_dormant cfg s)) [
    | inl e ↦ rw e ((s, m.0, refl, goes_dormant-Parkable s e), dormancy_tier-MayPark xs m.1)
    | inr e ↦ rw e (dormancy_tier-MayPark xs m.1)
  ]

  retire_tiers-IsSafe : IsSafe (retire_tiers cfg shapes).plan
  unfolding retire_tiers
  retire_tiers-IsSafe =
      let replayed =
        evict_tier-IsSafe (replay_verdict cfg) replay_verdict-Retirable shapes _ (All-Memᴰ shapes)
          (record {
            parks = elim (Bool-cases (is_zero cfg.idle_timeout)) [
              | inl e ↦ rw e tt
              | inr e ↦ rw e (dormancy_tier-MayPark shapes (All-Memᴰ shapes))
            ];
            evicts = tt;
          }) in
      elim (Bool-cases (is_zero cfg.dormant_ttl)) [
        | inl e ↦ rw e replayed
        | inr e ↦ rw e (
            evict_tier-IsSafe (unparkable_verdict cfg) unparkable_verdict-Retirable shapes _
              (All-Memᴰ shapes)
              (evict_tier-IsSafe (ttl_verdict cfg) ttl_verdict-Retirable shapes _ (All-Memᴰ shapes)
                replayed))
      ]

  abbrev Parked : SweepShape → Type 0
  Parked s = Memᴰ s shapes × (is_some s.dormant_for ≡ true)

  is_parked-dormant :
      (evicted : List Text) (s : SweepShape)
      → is_parked evicted s ≡ true
      → is_some s.dormant_for ≡ true
  is_parked-dormant evicted s h = ground arith

  lru_of-Parked : (st : Sweep) → All Parked (lru_of st shapes)
  unfolding lru_of
  lru_of-Parked st =
      let p = is_parked st.evicted in
      All-sort_idle Parked (filter p shapes) (
        All-both (λ s. Memᴰ s shapes) (λ s. is_some s.dormant_for ≡ true) (filter p shapes)
          (All-filter (λ s. Memᴰ s shapes) p shapes (All-Memᴰ shapes))
          (All-imp (λ s. p s ≡ true) (λ s. is_some s.dormant_for ≡ true) (filter p shapes)
            (is_parked-dormant st.evicted) (All-filter_test p shapes)))

  capacity_loop-IsSafe :
      (cap count : ℕ) (lru : List SweepShape) (st : Sweep)
      → All Parked lru
      → IsSafe st.plan
      → IsSafe (capacity_loop cap count lru st).0.plan
        × All Parked (capacity_loop cap count lru st).1
  unfolding capacity_loop
  capacity_loop-IsSafe cap count [] st m h = elim (Bool-cases (ltb cap count)) [
    | inl e ↦ rw e (record { parks = h.parks; evicts = h.evicts }, tt)
    | inr e ↦ rw e (h, tt)
  ]
  capacity_loop-IsSafe cap count (s ∷ lru) st m h =
      let next =
        capacity_loop-IsSafe cap (count - 1) lru (evict_shape EvictReason.max_shapes s st) m.1
          (evict_shape-IsSafe EvictReason.max_shapes s st m.0.0 (inl m.0.1) h) in
      elim (Bool-cases (ltb cap count)) [ inl e ↦ rw e next | inr e ↦ rw e (h, m) ]

  budget_loop-IsSafe :
      (budget total : ℕ) (lru : List SweepShape) (st : Sweep)
      → All Parked lru
      → IsSafe st.plan
      → IsSafe (budget_loop budget total lru st).plan
  unfolding budget_loop
  budget_loop-IsSafe budget total [] st m h = elim (Bool-cases (ltb budget total)) [
    | inl e ↦ rw e (record { parks = h.parks; evicts = h.evicts })
    | inr e ↦ rw e h
  ]
  budget_loop-IsSafe budget total (s ∷ lru) st m h =
      let next =
        budget_loop-IsSafe budget (total - s.stream_bytes) lru
          (evict_shape EvictReason.disk_budget s st) m.1
          (evict_shape-IsSafe EvictReason.disk_budget s st m.0.0 (inl m.0.1) h) in
      elim (Bool-cases (ltb budget total)) [ inl e ↦ rw e next | inr e ↦ rw e h ]

  capacity_tier-IsSafe :
      (st : Sweep)
      → IsSafe st.plan
      → IsSafe (capacity_tier cfg shapes st).0.plan × All Parked (capacity_tier cfg shapes st).1
  unfolding capacity_tier
  capacity_tier-IsSafe st h = elim (Bool-cases (ltb 0 cfg.max_shapes)) [
    | inl e ↦ rw e (capacity_loop-IsSafe _ _ (lru_of st shapes) st (lru_of-Parked st) h)
    | inr e ↦ rw e (h, lru_of-Parked st)
  ]

  budget_tier-IsSafe :
      (lru : List SweepShape) (st : Sweep)
      → All Parked lru
      → IsSafe st.plan
      → IsSafe (budget_tier cfg shapes lru st).plan
  unfolding budget_tier
  budget_tier-IsSafe lru st m h = elim (Bool-cases (ltb 0 cfg.disk_budget_bytes)) [
    | inl e ↦ rw e (budget_loop-IsSafe _ _ lru st m h)
    | inr e ↦ rw e h
  ]

  -- Whatever the configuration and the pressure, a sweep parks only settled, unsubscribed, parkable
  -- shapes that have been idle for the idle timeout, and evicts only dormant shapes or unparkable
  -- ones that nobody subscribes to and that were idle for the whole grace.
  pub plan_sweep-IsSafe : IsSafe (plan_sweep cfg shapes)
  unfolding plan_sweep run_sweep
  plan_sweep-IsSafe =
      let st = retire_tiers cfg shapes in
      let capped = capacity_tier-IsSafe st retire_tiers-IsSafe in
      budget_tier-IsSafe (capacity_tier cfg shapes st).1 (capacity_tier cfg shapes st).0 capped.1
        capped.0
