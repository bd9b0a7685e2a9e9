-- ===== src/Retention/Capacity.antt =====
-- The shape cap and the disk budget of apps/engine/src/retention.rs: a sweep meets each, or has
-- nothing dormant left to evict and says so.
use electric_circuits.Prelude.{
  ℕ, suc, ◌+◌, ◌-◌, ◌≤◌, ◌≡◌, ◌⊎◌, inl, inr, refl, ap, true, false, Option, none, some, List, [],
  ◌∷◌, arith, length, All, All-imp, All-Memᴰ, add_present, add_absent, Memᴰ, member, add, list_ord,
  nat_ord, Bool-cases, ltb,
}
use electric_circuits.Value.{Text}
use electric_circuits.Retention.{
  RetentionConfig, SweepShape, EvictReason, Sweep, is_parked, evict_shape, apply_verdict,
  evict_tier, replay_verdict, ttl_verdict, unparkable_verdict, is_zero, capacity_loop, budget_loop,
  retire_tiers, survivors, total_bytes,
}
use electric_circuits.Retention.Survivors.{DistinctIds, Queue, Queue-step, weigh, weigh-add}

-- No dormant shape is left that is not planned for eviction.
abbrev pub NothingParked : List SweepShape → List Text → Type 0
NothingParked shapes ev = All (λ s. is_parked ev s ≡ false) shapes

length-weigh : (xs : List SweepShape) → weigh (λ s. 1) xs ≡ length xs
unfolding weigh
length-weigh [] = refl
length-weigh (s ∷ xs) = omega (arith, length-weigh xs)

bytes-weigh : (xs : List SweepShape) → weigh (λ s. s.stream_bytes) xs ≡ total_bytes xs
unfolding weigh total_bytes
bytes-weigh [] = refl
bytes-weigh (s ∷ xs) = omega (arith, bytes-weigh xs)

All-out :
    (ev : List Text) (xs : List SweepShape)
    → All (λ s. (is_parked ev s ≡ false) ⊎ Memᴰ s []) xs
    → NothingParked xs ev
All-out ev xs h =
    All-imp (λ s. (is_parked ev s ≡ false) ⊎ Memᴰ s []) (λ s. is_parked ev s ≡ false) xs out h
  where
    out : (s : SweepShape) → (is_parked ev s ≡ false) ⊎ Memᴰ s [] → is_parked ev s ≡ false
    out s (inl e) = e
    out s (inr m) = elim m [ ]

none_evicted : (xs : List SweepShape) → length (survivors [] xs) ≡ length xs
unfolding survivors
none_evicted [] = refl
none_evicted (s ∷ xs) = ap suc (none_evicted xs)

module _ (shapes : List SweepShape) (distinct : DistinctIds shapes) where
  -- The set `evicted` counts the shapes that do not survive.
  abbrev pub Counted : List Text → Type 0
  Counted ev = length (survivors ev shapes) + length ev ≡ length shapes

  survivors-add :
      (s : SweepShape) (ev : List Text)
      → Memᴰ s shapes
      → member s.id ev ≡ false
      → length (survivors ev shapes) ≡ suc (length (survivors (add s.id ev) shapes))
  survivors-add s ev m h = omega (
    arith,
    weigh-add (λ s. 1) s ev shapes distinct m h,
    length-weigh (survivors ev shapes),
    length-weigh (survivors (add s.id ev) shapes),
  )

  bytes-add :
      (s : SweepShape) (ev : List Text)
      → Memᴰ s shapes
      → member s.id ev ≡ false
      → total_bytes (survivors ev shapes)
        ≡ s.stream_bytes + total_bytes (survivors (add s.id ev) shapes)
  bytes-add s ev m h = omega (
    arith,
    weigh-add (λ s. s.stream_bytes) s ev shapes distinct m h,
    bytes-weigh (survivors ev shapes),
    bytes-weigh (survivors (add s.id ev) shapes),
  )

  add-Counted :
      (s : SweepShape) (ev : List Text) → Memᴰ s shapes → Counted ev → Counted (add s.id ev)
  add-Counted s ev m c = elim (Bool-cases (member s.id ev)) [
    | inl e ↦ rw (add_present s.id ev e) c
    | inr e ↦ omega (arith, c, survivors-add s ev m e, ap length (add_absent s.id ev e))
  ]

  evict_tier-Counted :
      (verdict : SweepShape → Option EvictReason) (xs : List SweepShape) (st : Sweep)
      → All (λ s. Memᴰ s shapes) xs
      → Counted st.evicted
      → Counted (evict_tier verdict xs st).evicted
  unfolding evict_tier
  evict_tier-Counted verdict [] st m c = c
  evict_tier-Counted verdict (s ∷ xs) st m c =
      evict_tier-Counted verdict xs (apply_verdict (verdict s) s st) m.1 (step (verdict s))
    where
      step : (v : Option EvictReason) → Counted (apply_verdict v s st).evicted
      step none = c
      step (some r) = add-Counted s st.evicted m.0 c

  survivors-none : length (survivors [] shapes) ≡ length shapes
  survivors-none = none_evicted shapes

  pub retire_tiers-Counted : (cfg : RetentionConfig) → Counted (retire_tiers cfg shapes).evicted
  unfolding retire_tiers
  retire_tiers-Counted cfg =
      let every = All-Memᴰ shapes in
      let replayed =
        evict_tier-Counted (replay_verdict cfg) shapes _ every (omega (arith, survivors-none)) in
      elim (Bool-cases (is_zero cfg.dormant_ttl)) [
        | inl e ↦ rw e replayed
        | inr e ↦ rw e (
            evict_tier-Counted (unparkable_verdict cfg) shapes _ every
              (evict_tier-Counted (ttl_verdict cfg) shapes _ every replayed))
      ]

  -- The cap is met, or every dormant shape is planned for eviction and the flag says so.
  abbrev pub MeetsCap : ℕ → Sweep → Type 0
  MeetsCap cap st =
      (length (survivors st.evicted shapes) ≤ cap)
      ⊎ ((st.plan.over_capacity ≡ true) × NothingParked shapes st.evicted)

  pub capacity_loop-MeetsCap :
      (cap count : ℕ) (lru : List SweepShape) (st : Sweep)
      → Queue shapes lru st.evicted
      → count ≡ length (survivors st.evicted shapes)
      → MeetsCap cap (capacity_loop cap count lru st).0
        × Queue shapes (capacity_loop cap count lru st).1 (capacity_loop cap count lru st).0.evicted
  unfolding capacity_loop
  capacity_loop-MeetsCap cap count [] st q c = elim (Bool-cases (ltb cap count)) [
    | inl e ↦ rw e (inr (refl, All-out st.evicted shapes q.complete), q)
    | inr e ↦ rw e (inl (ground arith), q)
  ]
  capacity_loop-MeetsCap cap count (s ∷ lru) st q c =
      let next =
        capacity_loop-MeetsCap cap (count - 1) lru (evict_shape EvictReason.max_shapes s st)
          (Queue-step q)
          (omega (arith, c, survivors-add s st.evicted q.waiting.0.0 q.waiting.0.1)) in
      elim (Bool-cases (ltb cap count)) [ inl e ↦ rw e next | inr e ↦ rw e (inl (ground arith), q) ]

  abbrev pub MeetsBudget : ℕ → Sweep → Type 0
  MeetsBudget budget st =
      (total_bytes (survivors st.evicted shapes) ≤ budget)
      ⊎ ((st.plan.over_budget ≡ true) × NothingParked shapes st.evicted)

  pub budget_loop-MeetsBudget :
      (budget total : ℕ) (lru : List SweepShape) (st : Sweep)
      → Queue shapes lru st.evicted
      → total ≡ total_bytes (survivors st.evicted shapes)
      → MeetsBudget budget (budget_loop budget total lru st)
  unfolding budget_loop
  budget_loop-MeetsBudget budget total [] st q c = elim (Bool-cases (ltb budget total)) [
    | inl e ↦ rw e (inr (refl, All-out st.evicted shapes q.complete))
    | inr e ↦ rw e (inl (ground arith))
  ]
  budget_loop-MeetsBudget budget total (s ∷ lru) st q c =
      let next =
        budget_loop-MeetsBudget budget (total - s.stream_bytes) lru
          (evict_shape EvictReason.disk_budget s st) (Queue-step q)
          (omega (arith, c, bytes-add s st.evicted q.waiting.0.0 q.waiting.0.1)) in
      elim (Bool-cases (ltb budget total)) [ inl e ↦ rw e next | inr e ↦ rw e (inl (ground arith)) ]
