-- ===== src/Routing/Bitmaps.antt =====
-- apps/engine/src/subq_index.rs: what inserting and removing an id leave of the other ids of a posting
-- list.
use electric_circuits.Prelude.{
  true_false, ℕ, ◌≡◌, refl, ◌∙◌, inl, inr, Bool, true, false, ◌&&◌, Option, none, some, arith, ◌==◌,
  ◌⊎◌, ◌>>=◌, nat_ord, if◌then◌else◌,
}
use electric_circuits.FeedSets.FeedSet.{Bitmap, BitmapLaws}
use electric_circuits.Routing.Postings.{or_default, kept}
use electric_circuits.Routing.Scan.{Monotone}
use electric_circuits.Routing.Bound.{
  BitmapScan, BitmapScanLaws, Bound, with_id, without_id, empty_bound, bound_insert, bound_remove,
  bound_is_empty, absorb, absorb_bound,
}

module _ {B : Type 0} (bm : Bitmap B) where
  abbrev pub listed : ℕ → Option B → Bool
  listed id none = false
  listed id (some b) = bm.contains b id

  abbrev pub side : Bool → Bound B → B
  side strict b = if strict then b.strict else b.inclusive

  abbrev pub listed_bound : ℕ → Bool → Option (Bound B) → Bool
  listed_bound id strict none = false
  listed_bound id strict (some b) = bm.contains (side strict b) id

  module _ (laws : BitmapLaws bm) where
    pub contains-with :
        (new id : ℕ) (b : B) → bm.contains b id ≡ true → bm.contains (with_id bm new b) id ≡ true
    contains-with new id b h = laws.contains_insert new id b ∙ rw h (ground arith)

    pub contains-with_there : (id : ℕ) (b : B) → bm.contains (with_id bm id b) id ≡ true
    contains-with_there id b = laws.contains_insert id id b ∙ ground arith

    pub contains-without :
        (gone id : ℕ) (b : B)
        → (gone == id) ≡ false
        → bm.contains b id ≡ true
        → bm.contains (without_id bm gone b) id ≡ true
    contains-without gone id b other h = laws.contains_remove gone id b ∙ rw other h

    pub listed-with :
        (new id : ℕ) (p : Option B)
        → listed id p ≡ true
        → listed id (some (with_id bm new (or_default bm.empty p))) ≡ true
    listed-with new id none h = cc
    listed-with new id (some b) h = contains-with new id b h

    pub listed_bound-insert :
        (new id : ℕ) (t strict : Bool) (p : Option (Bound B))
        → listed_bound id strict p ≡ true
        → listed_bound id strict (some (bound_insert bm t new (or_default (empty_bound bm) p)))
          ≡ true
    listed_bound-insert new id t strict none h = cc
    listed_bound-insert new id true true (some b) h = contains-with new id b.strict h
    listed_bound-insert new id true false (some b) h = h
    listed_bound-insert new id false true (some b) h = h
    listed_bound-insert new id false false (some b) h = contains-with new id b.inclusive h

    pub bound_insert-there :
        (id : ℕ) (strict : Bool) (b : Bound B)
        → bm.contains (side strict (bound_insert bm strict id b)) id ≡ true
    bound_insert-there id true b = contains-with_there id b.strict
    bound_insert-there id false b = contains-with_there id b.inclusive

    module _ (scans : BitmapScan B) (scan_laws : BitmapScanLaws bm scans) where
      pub listed-without :
          (gone id : ℕ) (p : Option B)
          → (gone == id) ≡ false
          → listed id p ≡ true
          → listed id (p >>= kept scans.is_empty (without_id bm gone)) ≡ true
      listed-without gone id none other h = h
      listed-without gone id (some b) other h =
          let still = contains-without gone id b other h in
          rw (scan_laws.is_empty_contains (without_id bm gone b) id still) still

      pub side-not_empty :
          (id : ℕ) (strict : Bool) (b : Bound B)
          → bm.contains (side strict b) id ≡ true
          → bound_is_empty scans b ≡ false
      side-not_empty id true b h = rw (scan_laws.is_empty_contains b.strict id h) refl
      side-not_empty id false b h = rw (scan_laws.is_empty_contains b.inclusive id h) (ground arith)

      pub side-remove :
          (gone id : ℕ) (strict : Bool) (b : Bound B)
          → (gone == id) ≡ false
          → bm.contains (side strict b) id ≡ true
          → bm.contains (side strict (bound_remove bm gone b)) id ≡ true
      side-remove gone id true b other h = contains-without gone id b.strict other h
      side-remove gone id false b other h = contains-without gone id b.inclusive other h

      pub listed_bound-remove :
          (gone id : ℕ) (strict : Bool) (p : Option (Bound B))
          → (gone == id) ≡ false
          → listed_bound id strict p ≡ true
          → listed_bound id strict (p >>= kept (bound_is_empty scans) (bound_remove bm gone)) ≡ true
      listed_bound-remove gone id strict none other h = h
      listed_bound-remove gone id strict (some b) other h =
          let still = side-remove gone id strict b other h in
          rw (side-not_empty id strict (bound_remove bm gone b) still) still

      -- What the probe of a delta takes up.
      pub union-keeps :
          (id : ℕ) (b c : B)
          → (bm.contains b id ≡ true) ⊎ (bm.contains c id ≡ true)
          → bm.contains (scans.union b c) id ≡ true
      union-keeps id b c h = scan_laws.union_contains b c id ∙ ground arith

      pub keeps_absorb : (id : ℕ) → Monotone (λ b. bm.contains b id) (absorb scans)
      keeps_absorb id b out h = union-keeps id out b (inl h)

      pub keeps_bound :
          (id : ℕ) (at : Bool) → Monotone (λ b. bm.contains b id) (absorb_bound scans at)
      keeps_bound id true b out h = union-keeps id out b.inclusive (inl h)
      keeps_bound id false b out h =
          union-keeps id (scans.union out b.strict) b.inclusive
            (inl (union-keeps id out b.strict (inl h)))

      pub absorb_bound-takes :
          (id : ℕ) (at strict : Bool) (b : Bound B) (out : B)
          → bm.contains (side strict b) id ≡ true
          → (at && strict) ≡ false
          → bm.contains (absorb_bound scans at b out) id ≡ true
      absorb_bound-takes id at false b out h a =
          union-keeps id (if at then out else scans.union out b.strict) b.inclusive (inr h)
      absorb_bound-takes id false true b out h a =
          union-keeps id (scans.union out b.strict) b.inclusive
            (inl (union-keeps id out b.strict (inr h)))
      absorb_bound-takes id true true b out h a = absurd (true_false refl a)

      pub listed-some :
          (id : ℕ) (p : Option B)
          → listed id p ≡ true
          → (b : B) × (p ≡ some b) × (bm.contains b id ≡ true)
      listed-some id none h = cc
      listed-some id (some b) h = (b, refl, h)

      pub listed_bound-some :
          (id : ℕ) (strict : Bool) (p : Option (Bound B))
          → listed_bound id strict p ≡ true
          → (b : Bound B) × (p ≡ some b) × (bm.contains (side strict b) id ≡ true)
      listed_bound-some id strict none h = cc
      listed_bound-some id strict (some b) h = (b, refl, h)
