-- ===== src/Routing/Bound.antt =====
-- apps/engine/src/subq_index.rs: the posting lists, bitmaps and `Bound`. The bitmaps of the roaring
-- crate are an interface.
use electric_circuits.Prelude.{
  ℕ, ◌≡◌, Bool, true, false, ◌&&◌, ◌||◌, List, nat_ord, if◌then◌else◌, member,
}
use electric_circuits.FeedSets.FeedSet.{Bitmap}

-- What the index calls of a bitmap besides `insert` and `remove`; `union` is `|=`.
pub record BitmapScan (B : Type 0) : Type 0 where
  pub is_empty : B → Bool
  pub union : B → B → B
  pub iter : B → List ℕ

pub record BitmapScanLaws {B : Type 0} (bm : Bitmap B) (scans : BitmapScan B) : Type 0 where
  pub is_empty_contains : (b : B) (q : ℕ) → bm.contains b q ≡ true → scans.is_empty b ≡ false
  pub union_contains :
      (b c : B) (q : ℕ) → bm.contains (scans.union b c) q ≡ (bm.contains b q || bm.contains c q)
  pub iter_contains : (b : B) (q : ℕ) → bm.contains b q ≡ member q (scans.iter b)

pub record Bound (B : Type 0) : Type 0 where
  pub strict : B
  pub inclusive : B

module _ {B : Type 0} (bm : Bitmap B) where
  abbrev pub with_id : ℕ → B → B
  with_id id b = (bm.insert_id id b).1

  abbrev pub without_id : ℕ → B → B
  without_id id b = (bm.remove_id id b).1

  abbrev pub empty_bound : Bound B
  empty_bound = record { strict = bm.empty; inclusive = bm.empty }

  abbrev pub bound_insert : Bool → ℕ → Bound B → Bound B
  bound_insert strict id b =
      if strict
      then record { strict = with_id id b.strict; inclusive = b.inclusive }
      else record { strict = b.strict; inclusive = with_id id b.inclusive }

  abbrev pub bound_remove : ℕ → Bound B → Bound B
  bound_remove id b = record {
    strict = without_id id b.strict;
    inclusive = without_id id b.inclusive;
  }

module _ {B : Type 0} (scans : BitmapScan B) where
  abbrev pub bound_is_empty : Bound B → Bool
  bound_is_empty b = scans.is_empty b.strict && scans.is_empty b.inclusive

  abbrev pub absorb : B → B → B
  absorb b out = scans.union out b

  abbrev pub absorb_bound : Bool → Bound B → B → B
  absorb_bound at_bound b out =
      scans.union (if at_bound then out else scans.union out b.strict) b.inclusive
