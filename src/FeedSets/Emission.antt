-- ===== src/FeedSets/Emission.antt =====
-- apps/engine/src/subquery.rs, the emission of one shape: the candidates are evaluated one by one
-- against the feed (phase 1), then the upserts and after them the deletes are put on the stream
-- (phase 3). No query-back of the shape is in flight, so no recency is recorded.
use electric_circuits.Prelude.{
  ℕ, Bool, ◌&&◌, Option, none, some, List, [], ◌∷◌, ◌++◌, map, if◌then◌else◌, list_ord, nat_ord,
}
use electric_circuits.Value.{ℤ, Text}
use electric_circuits.PkDict.Intern.{PkDict, get, get_or_insert}
use electric_circuits.FeedSets.FeedSet.{Bitmap, FeedSet, insert_pk, remove_pk}

-- What the emission changes of the registry.
pub record Registry (B : Type 0) : Type 0 where
  pub dict : PkDict
  pub feeds : FeedSet B

pub data Decision (R : Type 0) : Type 0 where
  skipped : Decision R
  upserted : R → Decision R
  deleted : Text → Decision R

pub record Staged (R B : Type 0) : Type 0 where
  pub members : List R
  pub deletes : List Text
  pub registry : Registry B

-- `key` is the schema's `key_string`, and `matches` the shape's predicate in the current membership.
module _ {R B : Type 0} (bm : Bitmap B) (key : R → Option Text) (matches : R → Bool)
    (feed : ℤ) where
  abbrev pub enter : R → Text → Registry B → Decision R × Registry B
  enter row pk r =
      let interned = get_or_insert pk r.dict in
      (upserted row, record { dict = interned.1; feeds = (insert_pk bm feed interned.0 r.feeds).1 })

  -- The dictionary is probed without minting.
  abbrev pub leave : Text → Registry B → Option ℕ → Decision R × Registry B
  leave pk r none = (skipped, r)
  leave pk r (some id) =
      let gate = remove_pk bm feed id r.feeds in
      (if gate.0 then deleted pk else skipped, record r { feeds = gate.1 })

  abbrev pub decide_keyed : R → Bool → Registry B → Option Text → Decision R × Registry B
  decide_keyed row exists r none = (skipped, r)
  decide_keyed row exists r (some pk) =
      if exists && matches row then enter row pk r else leave pk r (get pk r.dict)

  unfoldable pub decide : R × Bool → Registry B → Decision R × Registry B
  decide (row, exists) r = decide_keyed row exists r (key row)

  abbrev pub stage : Decision R → Staged R B → Staged R B
  stage skipped s = s
  stage (upserted row) s = record s { members = row ∷ s.members }
  stage (deleted pk) s = record s { deletes = pk ∷ s.deletes }

  unfoldable pub evaluate : List (R × Bool) → Registry B → Staged R B
  evaluate [] r = record { members = []; deletes = []; registry = r }
  evaluate (c ∷ cs) r = stage (decide c r).0 (evaluate cs (decide c r).1)

pub data Event (R : Type 0) : Type 0 where
  upsert : R → Event R
  delete_key : Text → Event R

-- Phase 3: the envelopes of the members, then those of the deletes.
unfoldable pub events : {R B : Type 0} → Staged R B → List (Event R)
events s = map upsert s.members ++ map delete_key s.deletes
