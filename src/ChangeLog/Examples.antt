-- ===== src/ChangeLog/Examples.antt =====
-- Runs of the change log of apps/engine/src/changelog.rs on a server that does not fail.
use electric_circuits.Prelude.{
  ℕ, zero, suc, ◌+◌, ◌≡◌, ◌≢◌, ◌↔◌, ◌⊎◌, refl, sym, true, false, none, some, List, [], ◌∷◌, Map,
  lookup, Memᴰ, nat_ord, arith, some_none,
}
use electric_circuits.Envelope.{Envelope}
use electric_circuits.ChangeLog.Position.{Pointer, rotation_envelope}
use electric_circuits.ChangeLog.Writer.{Log, resolve_current, append_commit, rotate}
use electric_circuits.ChangeLog.Walk.{ClosedUpTo, Answers, resolve_current-finds}
use electric_circuits.ChangeLog.Rotation.{rotate-restarts}
use electric_circuits.ChangeLog.Appending.{Committed, append_commit-Committed}
use electric_circuits.ChangeLog.Deletion.{SegmentPin, plan_segment_deletion, rotated_out_at, keys}
use electric_circuits.ChangeLog.Deletable.{Unneeded, plan_segment_deletion-exact}
use electric_circuits.ChangeLog.Sample.{Store, client, server}

-- Segment 0 is closed, and segment 1 is open; the writer still stands at 0.
abbrev stored : Store
stored zero = some (true, [])
stored (suc zero) = some (false, [])
stored (suc (suc n)) = none

abbrev behind : Log Store
behind = record {
  state = record { current = 0; starts = (0, 100) ∷ []; tail = none };
  storage = stored;
  records = [];
}

abbrev at_one : Log Store
at_one = record behind { state = record { current = 1; starts = (1, 200) ∷ []; tail = none } }

abbrev json : Pointer ℕ
json = record { value_of = λ n. n; segment = λ n. some n; next = λ n. none }

abbrev clock : ℕ → ℕ
clock n = 300 + n

abbrev change : Envelope ℕ
change = record (rotation_envelope json 7) { type_ = [] }

top_absent : server.status stored 4294967295 ≡ none
top_absent = refl

acknowledged : (append_commit client clock (change ∷ []) behind).0 ≡ true
unfolding append_commit
acknowledged = refl

append_commit-Committed_example :
    Committed client server stored 0
      (change ∷ [])
      (append_commit client clock (change ∷ []) behind).1
append_commit-Committed_example =
    append_commit-Committed client server clock change [] behind (omega arith) top_absent
      acknowledged

two_absent : server.status stored 2 ≢ some true
two_absent e = some_none (sym e)

answers : (s : Store) → Answers client server s
answers s n e = some_none e

rotate-restarts_example :
    (to : ℕ) × (resolve_current client 1 true (rotate client json 500 at_one).1.storage ≡ some to)
    × (server.status (rotate client json 500 at_one).1.storage to ≡ some false)
    × ((to ≡ 1) ⊎ (to ≡ 2))
rotate-restarts_example =
    rotate-restarts client server json 500 at_one (omega arith) refl two_absent
      (answers (rotate client json 500 at_one).1.storage)

rotated : (rotate client json 500 at_one).0 ≡ true
unfolding rotate
rotated = refl

top_open : server.status stored 4294967295 ≢ some true
top_open e = some_none (sym e)

walked : resolve_current client 0 true stored ≡ some 1
unfolding resolve_current
walked = refl

zero_closed : ClosedUpTo client server stored 0 1
zero_closed zero h k = refl
zero_closed (suc n) h k = absurd (omega arith)

resolve_current-finds_example : resolve_current client 0 true stored ≡ some 1
resolve_current-finds_example =
    resolve_current-finds client server stored 0 1 true (answers stored) (omega arith) (omega arith)
      (omega arith) zero_closed refl

-- Segment 0 is pinned by a dormant shape past the window, and segment 1 by a reactivating one.
abbrev segments : Map ℕ ℕ
segments = (0, 10) ∷ (1, 20) ∷ (2, 30) ∷ []

abbrev pins : List SegmentPin
pins =
    record { shape_id = b'a' ∷ []; segment = 0; evictable = true }
    ∷ record { shape_id = b'b' ∷ []; segment = 1; evictable = false }
    ∷ []

plan_segment_deletion-exact_example :
    Memᴰ 0 (plan_segment_deletion segments 2 2 pins 50 100).delete
    ↔ (Memᴰ 0 (keys segments) × Unneeded segments 2 2 pins 50 100 0)
plan_segment_deletion-exact_example = plan_segment_deletion-exact segments 2 2 pins 50 100 0

evicted : Memᴰ (b'a' ∷ []) (plan_segment_deletion segments 2 2 pins 50 100).evict
unfolding plan_segment_deletion rotated_out_at lookup
evicted = Memᴰ.head refl
