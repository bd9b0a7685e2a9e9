-- ===== src/Retention/Examples.antt =====
-- A sweep over three shapes: one in use, one dormant for long, one idle.
use electric_circuits.Prelude.{
  ◌≤◌, ◌≡◌, ◌⊎◌, refl, true, false, none, some, List, [], ◌∷◌, length, arith, list_ord, nat_ord,
}
use electric_circuits.Retention.{RetentionConfig, SweepShape, plan_sweep, survivors}
use electric_circuits.Retention.Safety.{IsSafe, plan_sweep-IsSafe}
use electric_circuits.Retention.Survivors.{DistinctIds}
use electric_circuits.Retention.Capacity.{NothingParked}
use electric_circuits.Retention.Limits.{evicts_of, plan_sweep-capacity}

abbrev small : RetentionConfig
small = record {
  idle_timeout = 10;
  subscription_lease_timeout = 5;
  dormant_ttl = 100;
  replay_min_bytes = 50;
  replay_multiplier = 2;
  max_shapes = 2;
  disk_budget_bytes = 60;
  sweep_interval = 1;
  reactivation_join_timeout = 1;
  pending_buffer_max_bytes = 1000;
}

abbrev in_use : SweepShape
in_use = record {
  id = b'a' ∷ [];
  refcount = 1;
  idle = 500;
  dormant_for = none;
  in_transition = false;
  dormancy_eligible = true;
  stream_bytes = 40;
  replay_span_bytes = none;
  replay_span_deferred = false;
  backfill_bytes = some 30;
}

abbrev asleep : SweepShape
asleep = record in_use {
  id = b'b' ∷ [];
  refcount = 0;
  dormant_for = some 20;
  replay_span_bytes = some 10;
}

abbrev unwatched : SweepShape
unwatched = record in_use { id = b'c' ∷ []; refcount = 0; idle = 15 }

abbrev three : List SweepShape
three = in_use ∷ asleep ∷ unwatched ∷ []

three-DistinctIds : DistinctIds three
three-DistinctIds = ((refl, (refl, tt)), ((refl, tt), (tt, tt)))

plan_sweep-IsSafe_example : IsSafe small three (plan_sweep small three)
plan_sweep-IsSafe_example = plan_sweep-IsSafe small three

plan_sweep-capacity_example :
    (length (survivors (evicts_of (plan_sweep small three)) three) ≤ 2)
    ⊎ (((plan_sweep small three).over_capacity ≡ true)
        × NothingParked three (evicts_of (plan_sweep small three)))
plan_sweep-capacity_example = plan_sweep-capacity small three three-DistinctIds (omega arith)
