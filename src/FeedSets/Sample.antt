-- ===== src/FeedSets/Sample.antt =====
-- Bitmaps for runs: lists of ids.
use electric_circuits.Prelude.{
  ℕ, ◌≡◌, refl, false, not, List, [], nat_ord, member, add, delete, member-add, member-delete,
}
use electric_circuits.FeedSets.FeedSet.{Bitmap, BitmapLaws}

abbrev pub ids : Bitmap (List ℕ)
ids = record {
  empty = [];
  contains = λ b q. member q b;
  insert_id = λ q b. (not (member q b), add q b);
  remove_id = λ q b. (member q b, delete q b);
}

empty_lem : (q : ℕ) → member q [] ≡ false
unfolding member
empty_lem q = refl

pub ids-Laws : BitmapLaws ids
ids-Laws = record {
  contains_empty = empty_lem;
  contains_insert = λ id q b. member-add id q b;
  insert_new = λ id b. refl;
  contains_remove = λ id q b. member-delete id q b;
  remove_present = λ id b. refl;
}
