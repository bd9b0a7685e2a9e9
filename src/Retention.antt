-- ===== src/Retention.antt =====
-- apps/engine/src/retention.rs: the retention policy of shapes. A duration is a number of
-- nanoseconds; a `u64` product saturates.
pub mod Safety
pub mod Survivors
pub mod Queue
pub mod Capacity
pub mod Limits
mod Examples
use electric_circuits.Prelude.{
  ℕ, suc, ◌+◌, ◌-◌, ◌*◌, ◌^◌, min, max, Bool, true, false, not, Option, none, some, List, [], ◌∷◌,
  ◌++◌, length, filter, leb, ltb, member, add, if◌then◌else◌, list_ord, nat_ord,
}
use electric_circuits.Value.{Text}

pub record RetentionConfig : Type 0 where
  pub idle_timeout : ℕ
  pub subscription_lease_timeout : ℕ
  pub dormant_ttl : ℕ
  pub replay_min_bytes : ℕ
  pub replay_multiplier : ℕ
  pub max_shapes : ℕ
  pub disk_budget_bytes : ℕ
  pub sweep_interval : ℕ
  pub reactivation_join_timeout : ℕ
  pub pending_buffer_max_bytes : ℕ

abbrev pub u64_max : ℕ
u64_max = 18446744073709551615

abbrev pub saturating_mul : ℕ → ℕ → ℕ
saturating_mul a b = min (a * b) u64_max

abbrev pub unwrap_or : ℕ → Option ℕ → ℕ
unwrap_or d none = d
unwrap_or d (some n) = n

unfoldable pub replay_budget : RetentionConfig → Option ℕ → ℕ
replay_budget cfg backfill_bytes =
    max cfg.replay_min_bytes (saturating_mul (unwrap_or 0 backfill_bytes) cfg.replay_multiplier)

pub record SweepShape : Type 0 where
  pub id : Text
  pub refcount : ℕ
  pub idle : ℕ
  pub dormant_for : Option ℕ
  pub in_transition : Bool
  pub dormancy_eligible : Bool
  pub stream_bytes : ℕ
  pub replay_span_bytes : Option ℕ
  pub replay_span_deferred : Bool
  pub backfill_bytes : Option ℕ

pub data EvictReason : Type 0 where
  dormant_ttl max_shapes disk_budget change_log_retention replay_over_budget : EvictReason

pub record SweepPlan : Type 0 where
  pub deactivate : List Text
  pub evict : List (Text × EvictReason)
  pub over_capacity : Bool
  pub over_budget : Bool

abbrev pub default_plan : SweepPlan
default_plan = record { deactivate = []; evict = []; over_capacity = false; over_budget = false }

-- The plan under construction, and the set `evicted` of the ids planned for eviction.
pub record Sweep : Type 0 where
  pub plan : SweepPlan
  pub evicted : List Text

abbrev pub is_zero : ℕ → Bool
is_zero n = leb n 0

abbrev pub is_some : Option ℕ → Bool
is_some none = false
is_some (some n) = true

-- `is_some_and(|d| d >= bound)`
abbrev pub at_least : Option ℕ → ℕ → Bool
at_least none bound = false
at_least (some d) bound = leb bound d

-- `plan.evict.push((s.id.clone(), reason)); evicted.insert(&s.id);`
unfoldable pub evict_shape : EvictReason → SweepShape → Sweep → Sweep
evict_shape reason s st = record {
  plan = record st.plan { evict = st.plan.evict ++ (s.id, reason) ∷ [] };
  evicted = add s.id st.evicted;
}

-- Tier 0.
unfoldable pub goes_dormant : RetentionConfig → SweepShape → Bool
goes_dormant cfg s =
    if s.dormancy_eligible
    then if s.in_transition
      then false
      else if is_some s.dormant_for
      then false
      else if is_zero s.refcount
      then leb cfg.idle_timeout s.idle
      else false
    else false

unfoldable pub dormancy_tier : RetentionConfig → List SweepShape → List Text
unfolding goes_dormant
dormancy_tier cfg [] = []
dormancy_tier cfg (s ∷ shapes) =
    let rest = dormancy_tier cfg shapes in if goes_dormant cfg s then s.id ∷ rest else rest

-- The parked cursors that can no longer be replayed.
unfoldable pub replay_verdict : RetentionConfig → SweepShape → Option EvictReason
unfolding replay_budget
replay_verdict cfg s =
    if is_some s.dormant_for
    then if s.replay_span_deferred
      then none
      else if not (is_some s.replay_span_bytes)
      then some change_log_retention
      else if ltb (replay_budget cfg s.backfill_bytes) (unwrap_or 0 s.replay_span_bytes)
      then some replay_over_budget
      else none
    else none

-- Tier 1, dormant shapes.
unfoldable pub ttl_verdict : RetentionConfig → SweepShape → Option EvictReason
ttl_verdict cfg s = if at_least s.dormant_for cfg.dormant_ttl then some dormant_ttl else none

-- Tier 1, the shapes that cannot park.
unfoldable pub unparkable_verdict : RetentionConfig → SweepShape → Option EvictReason
unparkable_verdict cfg s =
    if s.dormancy_eligible
    then none
    else if s.in_transition
    then none
    else if is_zero s.refcount
    then if leb (cfg.idle_timeout + cfg.dormant_ttl) s.idle then some dormant_ttl else none
    else none

abbrev pub apply_verdict : Option EvictReason → SweepShape → Sweep → Sweep
apply_verdict none s st = st
apply_verdict (some reason) s st = evict_shape reason s st

-- One `for s in shapes` loop of the policy.
unfoldable pub evict_tier : (SweepShape → Option EvictReason) → List SweepShape → Sweep → Sweep
unfolding evict_shape
evict_tier verdict [] st = st
evict_tier verdict (s ∷ shapes) st = evict_tier verdict shapes (apply_verdict (verdict s) s st)

-- `sort_by_key(|s| Reverse(s.idle))`, a stable sort.
unfoldable pub insert_idle : SweepShape → List SweepShape → List SweepShape
insert_idle s [] = s ∷ []
insert_idle s (r ∷ rs) =
    let rest = insert_idle s rs in if leb r.idle s.idle then s ∷ r ∷ rs else r ∷ rest

unfoldable pub sort_idle : List SweepShape → List SweepShape
unfolding insert_idle
sort_idle [] = []
sort_idle (s ∷ shapes) = insert_idle s (sort_idle shapes)

abbrev pub is_parked : List Text → SweepShape → Bool
is_parked evicted s = if is_some s.dormant_for then not (member s.id evicted) else false

-- Tier 2: the `while count > cfg.max_shapes` loop, which draws from `lru`.
unfoldable pub capacity_loop : ℕ → ℕ → List SweepShape → Sweep → Sweep × List SweepShape
unfolding evict_shape
capacity_loop cap count [] st =
    if ltb cap count
    then (record st { plan = record st.plan { over_capacity = true } }, [])
    else (st, [])
capacity_loop cap count (s ∷ lru) st =
    let next = capacity_loop cap (count - 1) lru (evict_shape max_shapes s st) in
    if ltb cap count then next else (st, s ∷ lru)

-- Tier 3: the `while total > cfg.disk_budget_bytes` loop, over what tier 2 left of `lru`.
unfoldable pub budget_loop : ℕ → ℕ → List SweepShape → Sweep → Sweep
unfolding evict_shape
budget_loop budget total [] st =
    if ltb budget total then record st { plan = record st.plan { over_budget = true } } else st
budget_loop budget total (s ∷ lru) st =
    let next = budget_loop budget (total - s.stream_bytes) lru (evict_shape disk_budget s st) in
    if ltb budget total then next else st

unfoldable pub survivors : List Text → List SweepShape → List SweepShape
unfolding member
survivors evicted shapes = filter (λ s. not (member s.id evicted)) shapes

unfoldable pub total_bytes : List SweepShape → ℕ
total_bytes [] = 0
total_bytes (s ∷ shapes) = s.stream_bytes + total_bytes shapes

-- The plan after tiers 0 and 1.
unfoldable pub retire_tiers : RetentionConfig → List SweepShape → Sweep
retire_tiers cfg shapes =
    let start : Sweep = record {
      plan = record default_plan {
        deactivate = if is_zero cfg.idle_timeout then [] else dormancy_tier cfg shapes;
      };
      evicted = [];
    } in
    let st = evict_tier (replay_verdict cfg) shapes start in
    if is_zero cfg.dormant_ttl
    then st
    else evict_tier (unparkable_verdict cfg) shapes (evict_tier (ttl_verdict cfg) shapes st)

unfoldable pub lru_of : Sweep → List SweepShape → List SweepShape
lru_of st shapes = sort_idle (filter (is_parked st.evicted) shapes)

unfoldable pub capacity_tier : RetentionConfig → List SweepShape → Sweep → Sweep × List SweepShape
capacity_tier cfg shapes st =
    if ltb 0 cfg.max_shapes
    then capacity_loop cfg.max_shapes (length shapes - length st.evicted) (lru_of st shapes) st
    else (st, lru_of st shapes)

unfoldable pub budget_tier : RetentionConfig → List SweepShape → List SweepShape → Sweep → Sweep
budget_tier cfg shapes lru st =
    if ltb 0 cfg.disk_budget_bytes
    then budget_loop cfg.disk_budget_bytes (total_bytes (survivors st.evicted shapes)) lru st
    else st

unfoldable pub run_sweep : RetentionConfig → List SweepShape → Sweep
run_sweep cfg shapes =
    let (st, lru) = capacity_tier cfg shapes (retire_tiers cfg shapes) in
    budget_tier cfg shapes lru st

unfoldable pub plan_sweep : RetentionConfig → List SweepShape → SweepPlan
plan_sweep cfg shapes = (run_sweep cfg shapes).plan
