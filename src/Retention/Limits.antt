-- ===== src/Retention/Limits.antt =====
-- The limits that a whole sweep of apps/engine/src/retention.rs enforces, read off its plan.
use electric_circuits.Prelude.{
  ℕ, ◌-◌, ◌≤◌, ◌<◌, ◌≡◌, ◌⊎◌, inl, inr, refl, ◌∙◌, sym, true, Option, none, some, List, [], ◌∷◌,
  map, arith, length, member, member-add, member-snoc, list_ord, nat_ord, Bool-cases, ltb, lt→ltb,
}
use mathlib.Core.List.{map-append}
use electric_circuits.Value.{Text}
use electric_circuits.Retention.{
  RetentionConfig, SweepShape, EvictReason, SweepPlan, Sweep, evict_shape, apply_verdict,
  evict_tier, replay_verdict, ttl_verdict, unparkable_verdict, is_zero, capacity_loop, budget_loop,
  retire_tiers, capacity_tier, budget_tier, run_sweep, plan_sweep, survivors, total_bytes,
}
use electric_circuits.Retention.Survivors.{DistinctIds, Queue, survivors-cons}
use electric_circuits.Retention.Queue.{lru_of-Queue}
use electric_circuits.Retention.Capacity.{
  NothingParked, MeetsCap, MeetsBudget, capacity_loop-MeetsCap, budget_loop-MeetsBudget,
  retire_tiers-Counted,
}

-- The ids that a plan evicts.
abbrev pub evicts_of : SweepPlan → List Text
evicts_of plan = map (λ e. e.0) plan.evict

-- The set `evicted` is that of the ids in the plan.
abbrev Agrees : Sweep → Type 0
Agrees st = (x : Text) → member x st.evicted ≡ member x (evicts_of st.plan)

evict_shape-Agrees :
    (r : EvictReason) (s : SweepShape) (st : Sweep) → Agrees st → Agrees (evict_shape r s st)
unfolding evict_shape
evict_shape-Agrees r s st h x =
    member-add s.id x st.evicted
    ∙ rw (map-append (λ (e : Text × EvictReason). e.0) st.plan.evict ((s.id, r) ∷ []))
        (rw (member-snoc x s.id (evicts_of st.plan), h x) refl)

evict_tier-Agrees :
    (verdict : SweepShape → Option EvictReason) (xs : List SweepShape) (st : Sweep)
    → Agrees st
    → Agrees (evict_tier verdict xs st)
unfolding evict_tier
evict_tier-Agrees verdict [] st h = h
evict_tier-Agrees verdict (s ∷ xs) st h =
    evict_tier-Agrees verdict xs (apply_verdict (verdict s) s st) (step (verdict s))
  where
    step : (v : Option EvictReason) → Agrees (apply_verdict v s st)
    step none = h
    step (some r) = evict_shape-Agrees r s st h

retire_tiers-Agrees :
    (cfg : RetentionConfig) (shapes : List SweepShape) → Agrees (retire_tiers cfg shapes)
unfolding retire_tiers
retire_tiers-Agrees cfg shapes =
    let replayed = evict_tier-Agrees (replay_verdict cfg) shapes _ (λ x. refl) in
    elim (Bool-cases (is_zero cfg.dormant_ttl)) [
      | inl e ↦ rw e replayed
      | inr e ↦ rw e (
          evict_tier-Agrees (unparkable_verdict cfg) shapes _
            (evict_tier-Agrees (ttl_verdict cfg) shapes _ replayed))
    ]

capacity_loop-Agrees :
    (cap count : ℕ) (lru : List SweepShape) (st : Sweep)
    → Agrees st
    → Agrees (capacity_loop cap count lru st).0
unfolding capacity_loop
capacity_loop-Agrees cap count [] st h = elim (Bool-cases (ltb cap count)) [
  | inl e ↦ rw e h
  | inr e ↦ rw e h
]
capacity_loop-Agrees cap count (s ∷ lru) st h =
    let next =
      capacity_loop-Agrees cap (count - 1) lru (evict_shape EvictReason.max_shapes s st)
        (evict_shape-Agrees EvictReason.max_shapes s st h) in
    elim (Bool-cases (ltb cap count)) [ inl e ↦ rw e next | inr e ↦ rw e h ]

budget_loop-Agrees :
    (budget total : ℕ) (lru : List SweepShape) (st : Sweep)
    → Agrees st
    → Agrees (budget_loop budget total lru st)
unfolding budget_loop
budget_loop-Agrees budget total [] st h = elim (Bool-cases (ltb budget total)) [
  | inl e ↦ rw e h
  | inr e ↦ rw e h
]
budget_loop-Agrees budget total (s ∷ lru) st h =
    let next =
      budget_loop-Agrees budget (total - s.stream_bytes) lru
        (evict_shape EvictReason.disk_budget s st)
        (evict_shape-Agrees EvictReason.disk_budget s st h) in
    elim (Bool-cases (ltb budget total)) [ inl e ↦ rw e next | inr e ↦ rw e h ]

-- What the last tier leaves of the state before it: more is evicted, and the cap's flag stays.
record Extends (st st' : Sweep) : Type 0 where
  keeps : (x : Text) → member x st.evicted ≡ true → member x st'.evicted ≡ true
  flag : st'.plan.over_capacity ≡ st.plan.over_capacity

budget_loop-Extends :
    (budget total : ℕ) (lru : List SweepShape) (st : Sweep)
    → Extends st (budget_loop budget total lru st)
unfolding budget_loop
budget_loop-Extends budget total [] st = elim (Bool-cases (ltb budget total)) [
  | inl e ↦ rw e (record { keeps = λ x h. h; flag = refl })
  | inr e ↦ rw e (record { keeps = λ x h. h; flag = refl })
]
budget_loop-Extends budget total (s ∷ lru) st =
    let next =
      budget_loop-Extends budget (total - s.stream_bytes) lru
        (evict_shape EvictReason.disk_budget s st) in
    elim (Bool-cases (ltb budget total)) [
      | inl e ↦ rw e (record {
        keeps = λ x h. next.keeps x (member-add s.id x st.evicted ∙ ground (arith, h));
        flag = next.flag;
      })
      | inr e ↦ rw e (record { keeps = λ x h. h; flag = refl })
    ]

survivors-shrink :
    (ev ev' : List Text) (xs : List SweepShape)
    → ((x : Text) → member x ev ≡ true → member x ev' ≡ true)
    → length (survivors ev' xs) ≤ length (survivors ev xs)
survivors-shrink ev ev' [] h = unfold survivors in omega arith
survivors-shrink ev ev' (s ∷ xs) h =
    ground
      (arith, h s.id, survivors-cons ev s xs, survivors-cons ev' s xs, survivors-shrink ev ev' xs h)

NothingParked-grow :
    (ev ev' : List Text) (xs : List SweepShape)
    → ((x : Text) → member x ev ≡ true → member x ev' ≡ true)
    → NothingParked xs ev
    → NothingParked xs ev'
NothingParked-grow ev ev' [] h p = tt
NothingParked-grow ev ev' (s ∷ xs) h p =
    (ground (arith, h s.id, p.0), NothingParked-grow ev ev' xs h p.1)

survivors-cong :
    (ev ev' : List Text) (xs : List SweepShape)
    → ((x : Text) → member x ev ≡ member x ev')
    → survivors ev xs ≡ survivors ev' xs
survivors-cong ev ev' [] h = unfold survivors in refl
survivors-cong ev ev' (s ∷ xs) h =
    ground
      (arith, h s.id, survivors-cons ev s xs, survivors-cons ev' s xs, survivors-cong ev ev' xs h)

module _ (cfg : RetentionConfig) (shapes : List SweepShape) (distinct : DistinctIds shapes) where
  capacity_tier-MeetsCap :
      0 < cfg.max_shapes
      → MeetsCap shapes distinct cfg.max_shapes
          (capacity_tier cfg shapes (retire_tiers cfg shapes)).0
  unfolding capacity_tier
  capacity_tier-MeetsCap pos =
      rw (lt→ltb 0 cfg.max_shapes pos)
        (capacity_loop-MeetsCap shapes distinct cfg.max_shapes _ _ _
          (lru_of-Queue (retire_tiers cfg shapes) shapes distinct)
          (omega (arith, retire_tiers-Counted shapes distinct cfg))).0

  capacity_tier-Queue :
      Queue shapes
        (capacity_tier cfg shapes (retire_tiers cfg shapes)).1
        (capacity_tier cfg shapes (retire_tiers cfg shapes)).0.evicted
  unfolding capacity_tier
  capacity_tier-Queue =
      let queue = lru_of-Queue (retire_tiers cfg shapes) shapes distinct in
      elim (Bool-cases (ltb 0 cfg.max_shapes)) [
        | inl e ↦
            rw e
              (capacity_loop-MeetsCap shapes distinct cfg.max_shapes _ _ _ queue
                (omega (arith, retire_tiers-Counted shapes distinct cfg))).1
        | inr e ↦ rw e queue
      ]

  capacity_tier-Agrees : Agrees (capacity_tier cfg shapes (retire_tiers cfg shapes)).0
  unfolding capacity_tier
  capacity_tier-Agrees = elim (Bool-cases (ltb 0 cfg.max_shapes)) [
    | inl e ↦ rw e (capacity_loop-Agrees _ _ _ _ (retire_tiers-Agrees cfg shapes))
    | inr e ↦ rw e (retire_tiers-Agrees cfg shapes)
  ]

  budget_tier-Agrees :
      (lru : List SweepShape) (st : Sweep) → Agrees st → Agrees (budget_tier cfg shapes lru st)
  unfolding budget_tier
  budget_tier-Agrees lru st h = elim (Bool-cases (ltb 0 cfg.disk_budget_bytes)) [
    | inl e ↦ rw e (budget_loop-Agrees _ _ lru st h)
    | inr e ↦ rw e h
  ]

  budget_tier-Extends :
      (lru : List SweepShape) (st : Sweep) → Extends st (budget_tier cfg shapes lru st)
  unfolding budget_tier
  budget_tier-Extends lru st = elim (Bool-cases (ltb 0 cfg.disk_budget_bytes)) [
    | inl e ↦ rw e (budget_loop-Extends _ _ lru st)
    | inr e ↦ rw e (record { keeps = λ x h. h; flag = refl })
  ]

  budget_tier-MeetsBudget :
      (lru : List SweepShape) (st : Sweep)
      → 0 < cfg.disk_budget_bytes
      → Queue shapes lru st.evicted
      → MeetsBudget shapes distinct cfg.disk_budget_bytes (budget_tier cfg shapes lru st)
  unfolding budget_tier
  budget_tier-MeetsBudget lru st pos q =
      rw (lt→ltb 0 cfg.disk_budget_bytes pos)
        (budget_loop-MeetsBudget shapes distinct cfg.disk_budget_bytes _ lru st q refl)

  run_sweep-Agrees : Agrees (run_sweep cfg shapes)
  unfolding run_sweep
  run_sweep-Agrees = budget_tier-Agrees _ _ capacity_tier-Agrees

  run_sweep-MeetsCap :
      0 < cfg.max_shapes → MeetsCap shapes distinct cfg.max_shapes (run_sweep cfg shapes)
  unfolding run_sweep
  run_sweep-MeetsCap pos =
      let st = (capacity_tier cfg shapes (retire_tiers cfg shapes)).0 in
      let more = budget_tier-Extends (capacity_tier cfg shapes (retire_tiers cfg shapes)).1 st in
      let st' = budget_tier cfg shapes (capacity_tier cfg shapes (retire_tiers cfg shapes)).1 st in
      elim (capacity_tier-MeetsCap pos) [
        | inl h ↦ inl (omega (arith, h, survivors-shrink st.evicted st'.evicted shapes more.keeps))
        | inr h ↦
            inr (more.flag ∙ h.0, NothingParked-grow st.evicted st'.evicted shapes more.keeps h.1)
      ]

  run_sweep-MeetsBudget :
      0 < cfg.disk_budget_bytes
      → MeetsBudget shapes distinct cfg.disk_budget_bytes (run_sweep cfg shapes)
  unfolding run_sweep
  run_sweep-MeetsBudget pos = budget_tier-MeetsBudget _ _ pos capacity_tier-Queue

  abbrev unplanned : List SweepShape
  unplanned = survivors (evicts_of (plan_sweep cfg shapes)) shapes

  unplanned-survivors : unplanned ≡ survivors (run_sweep cfg shapes).evicted shapes
  unfolding plan_sweep
  unplanned-survivors =
      survivors-cong (evicts_of (run_sweep cfg shapes).plan) (run_sweep cfg shapes).evicted shapes
        (λ x. sym (run_sweep-Agrees x))

  NothingParked-plan :
      NothingParked shapes (run_sweep cfg shapes).evicted
      → NothingParked shapes (evicts_of (plan_sweep cfg shapes))
  unfolding plan_sweep
  NothingParked-plan =
      NothingParked-grow (run_sweep cfg shapes).evicted (evicts_of (run_sweep cfg shapes).plan)
        shapes (λ x h. sym (run_sweep-Agrees x) ∙ h)

  -- With a shape cap and distinct ids, a sweep brings the number of shapes that its plan keeps to
  -- the cap, or it raises the capacity flag and its plan evicts every dormant shape.
  pub plan_sweep-capacity :
      0 < cfg.max_shapes
      → (length (survivors (evicts_of (plan_sweep cfg shapes)) shapes) ≤ cfg.max_shapes)
        ⊎ (((plan_sweep cfg shapes).over_capacity ≡ true)
            × NothingParked shapes (evicts_of (plan_sweep cfg shapes)))
  plan_sweep-capacity pos = elim (run_sweep-MeetsCap pos) [
    | inl h ↦ inl (rw unplanned-survivors h)
    | inr h ↦ inr (unfold plan_sweep in h.0, NothingParked-plan h.1)
  ]

  -- With a disk budget and distinct ids, a sweep brings the bytes of the streams that its plan keeps
  -- within the budget, or it raises the budget flag and its plan evicts every dormant shape.
  pub plan_sweep-budget :
      0 < cfg.disk_budget_bytes
      → (total_bytes (survivors (evicts_of (plan_sweep cfg shapes)) shapes) ≤ cfg.disk_budget_bytes)
        ⊎ (((plan_sweep cfg shapes).over_budget ≡ true)
            × NothingParked shapes (evicts_of (plan_sweep cfg shapes)))
  plan_sweep-budget pos = elim (run_sweep-MeetsBudget pos) [
    | inl h ↦ inl (rw unplanned-survivors h)
    | inr h ↦ inr (unfold plan_sweep in h.0, NothingParked-plan h.1)
  ]
