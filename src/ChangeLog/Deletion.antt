-- ===== src/ChangeLog/Deletion.antt =====
-- apps/engine/src/changelog.rs, `plan_segment_deletion`: which closed segments a sweep deletes and
-- which dormant shapes it evicts first. Times are whole seconds, as the state keeps them.
use electric_circuits.Prelude.{
  ℕ, ◌+◌, ◌-◌, Bool, false, not, ◌&&◌, Option, none, some, List, [], ◌∷◌, map, filter, ltb, leb,
  Map, lookup, nat_ord, min, if◌then◌else◌,
}
use electric_circuits.Value.{Text}

pub record SegmentPin : Type 0 where
  pub shape_id : Text
  pub segment : ℕ
  pub evictable : Bool

pub record SegmentPlan : Type 0 where
  pub evict : List Text
  pub delete : List ℕ

-- Segment `n` was rotated out when its successor became current.
unfoldable pub rotated_out_at : Map ℕ ℕ → ℕ → ℕ → Option ℕ
rotated_out_at segments current n = if leb current n then none else lookup (n + 1) segments

-- `now.saturating_sub(at) >= retain`
abbrev pub past : ℕ → ℕ → Option ℕ → Bool
past retain now none = false
past retain now (some at) = leb retain (now - at)

unfoldable pub stale : Map ℕ ℕ → ℕ → ℕ → ℕ → SegmentPin → Bool
unfolding rotated_out_at
stale segments current retain now pin =
    pin.evictable && ltb 0 retain && past retain now (rotated_out_at segments current pin.segment)

-- The lowest of the checkpoint and the segments of the pins.
unfoldable pub min_needed : ℕ → List SegmentPin → ℕ
min_needed checkpoint [] = checkpoint
min_needed checkpoint (pin ∷ pins) = min pin.segment (min_needed checkpoint pins)

-- The keys of the ordered map, which are its segments.
abbrev pub keys : Map ℕ ℕ → List ℕ
keys segments = map (λ e. e.0) segments

unfoldable pub plan_segment_deletion : Map ℕ ℕ → ℕ → ℕ → List SegmentPin → ℕ → ℕ → SegmentPlan
unfolding stale min_needed
plan_segment_deletion segments current checkpoint pins retain now =
    let alive = filter (λ pin. not (stale segments current retain now pin)) pins in
    record {
      evict = map (λ pin. pin.shape_id) (filter (stale segments current retain now) pins);
      delete = filter (λ n. ltb n (min_needed checkpoint alive) && ltb n current) (keys segments);
    }
