-- ===== src/Routing/Buckets.antt =====
-- apps/engine/src/subq_index.rs: where a table's index has an id, and that the other ids stay there.
use electric_circuits.Prelude.{
  true_false, ℕ, ◌≡◌, refl, ◌∙◌, ap, inl, inr, Bool, true, false, ◌&&◌, Option, none, some, [], ◌∷◌,
  arith, Ord, ◌==◌, lookup, ◌⊎◌, nat_ord,
}
use electric_circuits.Value.{Value}
use electric_circuits.Predicate.Ast.{AccessLeaf, lower, upper}
use electric_circuits.FeedSets.FeedSet.{Bitmap, BitmapLaws}
use electric_circuits.Routing.Postings.{
  Postings, posting, or_default, is_empty, posting-file_there, posting-file_keeps,
}
use electric_circuits.Routing.Probe.{Posted}
use electric_circuits.Routing.Tidy.{posting-retract_tidy_keeps}
use electric_circuits.Routing.Bound.{
  BitmapScan, BitmapScanLaws, with_id, without_id, empty_bound, bound_insert, bound_remove,
  bound_is_empty, absorb, absorb_bound,
}
use electric_circuits.Routing.Subquery.{TableIndex, table_is_empty, bucket_insert, bucket_remove}
use electric_circuits.Routing.Bitmaps.{
  union-keeps, absorb_bound-takes, listed-some, listed_bound-some, listed, listed_bound,
  contains-with, contains-with_there, contains-without, listed-with, listed_bound-insert,
  bound_insert-there, listed-without, listed_bound-remove,
}

some_entries :
    (a b c d : Bool)
    → (a ≡ false) ⊎ ((b ≡ false) ⊎ ((c ≡ false) ⊎ (d ≡ false)))
    → (a && (b && (c && d))) ≡ false
some_entries a b c d h = ground arith

-- A map with a posting is not empty.
posting-entries :
    {F P : Type 0} ⦃o : Ord F⦄ (seen : Option P → Bool) (c : ℕ) (w : Value F) (m : Postings F P)
    → seen none ≡ false
    → seen (posting c w m) ≡ true
    → is_empty m ≡ false
unfolding lookup
posting-entries seen c w [] n h = absurd (true_false h n)
posting-entries seen c w (e ∷ m) n h = refl

module _ {F B : Type 0} ⦃o : Ord F⦄ (bm : Bitmap B) where
  -- The id is listed under the leaf.
  abbrev pub under : ℕ → Option (AccessLeaf F) → TableIndex F B → Bool
  under id none t = bm.contains t.scan id
  under id (some (AccessLeaf.eq col v)) t = listed bm id (posting col v t.eq)
  under id (some (lower col v strict)) t = listed_bound bm id strict (posting col v t.lower)
  under id (some (upper col v strict)) t = listed_bound bm id strict (posting col v t.upper)

  module _ (scans : BitmapScan B) (laws : BitmapLaws bm) where
    pub bucket_insert-keeps :
        (new id : ℕ) (l k : Option (AccessLeaf F)) (t : TableIndex F B)
        → under id k t ≡ true
        → under id k (bucket_insert bm scans new l t) ≡ true
    bucket_insert-keeps new id (some (AccessLeaf.eq col v)) (some (AccessLeaf.eq c w)) t h =
        posting-file_keeps (listed bm id) c w t.eq bm.empty (with_id bm new) col v
          (listed-with bm laws new id) h
    bucket_insert-keeps new id (some (lower col v s)) (some (lower c w strict)) t h =
        posting-file_keeps (listed_bound bm id strict) c w t.lower (empty_bound bm)
          (bound_insert bm s new) col v (listed_bound-insert bm laws new id s strict) h
    bucket_insert-keeps new id (some (upper col v s)) (some (upper c w strict)) t h =
        posting-file_keeps (listed_bound bm id strict) c w t.upper (empty_bound bm)
          (bound_insert bm s new) col v (listed_bound-insert bm laws new id s strict) h
    bucket_insert-keeps new id none none t h = contains-with bm laws new id t.scan h
    bucket_insert-keeps new id none (some (AccessLeaf.eq c w)) t h = h
    bucket_insert-keeps new id none (some (lower c w strict)) t h = h
    bucket_insert-keeps new id none (some (upper c w strict)) t h = h
    bucket_insert-keeps new id _ _ t h = h

    pub bucket_insert-files :
        (id : ℕ) (l : Option (AccessLeaf F)) (t : TableIndex F B)
        → under id l (bucket_insert bm scans id l t) ≡ true
    bucket_insert-files id none t = contains-with_there bm laws id t.scan
    bucket_insert-files id (some (AccessLeaf.eq col v)) t =
        ap (listed bm id) (posting-file_there bm.empty (with_id bm id) col v t.eq)
        ∙ contains-with_there bm laws id (or_default bm.empty (posting col v t.eq))
    bucket_insert-files id (some (lower col v strict)) t =
        ap (listed_bound bm id strict)
          (posting-file_there (empty_bound bm) (bound_insert bm strict id) col v t.lower)
        ∙ bound_insert-there bm laws id strict (or_default (empty_bound bm) (posting col v t.lower))
    bucket_insert-files id (some (upper col v strict)) t =
        ap (listed_bound bm id strict)
          (posting-file_there (empty_bound bm) (bound_insert bm strict id) col v t.upper)
        ∙ bound_insert-there bm laws id strict (or_default (empty_bound bm) (posting col v t.upper))

    module _ (scan_laws : BitmapScanLaws bm scans) where
      pub bucket_remove-keeps :
          (gone id : ℕ) (l k : Option (AccessLeaf F)) (t : TableIndex F B)
          → (gone == id) ≡ false
          → under id k t ≡ true
          → under id k (bucket_remove bm scans gone l t) ≡ true
      bucket_remove-keeps gone id (some (AccessLeaf.eq col v)) (some (AccessLeaf.eq c w)) t other
            h =
          posting-retract_tidy_keeps (listed bm id) c w t.eq scans.is_empty (without_id bm gone) col
            v (λ p q. listed-without bm laws scans scan_laws gone id p other q) h
      bucket_remove-keeps gone id (some (lower col v s)) (some (lower c w strict)) t other h =
          posting-retract_tidy_keeps (listed_bound bm id strict) c w t.lower (bound_is_empty scans)
            (bound_remove bm gone) col v
            (λ p q. listed_bound-remove bm laws scans scan_laws gone id strict p other q) h
      bucket_remove-keeps gone id (some (upper col v s)) (some (upper c w strict)) t other h =
          posting-retract_tidy_keeps (listed_bound bm id strict) c w t.upper (bound_is_empty scans)
            (bound_remove bm gone) col v
            (λ p q. listed_bound-remove bm laws scans scan_laws gone id strict p other q) h
      bucket_remove-keeps gone id none none t other h =
          contains-without bm laws gone id t.scan other h
      bucket_remove-keeps gone id none (some (AccessLeaf.eq c w)) t other h = h
      bucket_remove-keeps gone id none (some (lower c w strict)) t other h = h
      bucket_remove-keeps gone id none (some (upper c w strict)) t other h = h
      bucket_remove-keeps gone id _ _ t other h = h

      pub under-not_empty :
          (id : ℕ) (k : Option (AccessLeaf F)) (t : TableIndex F B)
          → under id k t ≡ true
          → table_is_empty bm scans t ≡ false
      under-not_empty id none t h =
          some_entries (is_empty t.eq) (is_empty t.lower) (is_empty t.upper) (scans.is_empty t.scan)
            (inr (inr (inr (scan_laws.is_empty_contains t.scan id h))))
      under-not_empty id (some (AccessLeaf.eq col v)) t h =
          some_entries (is_empty t.eq) (is_empty t.lower) (is_empty t.upper) (scans.is_empty t.scan)
            (inl (posting-entries (listed bm id) col v t.eq refl h))
      under-not_empty id (some (lower col v strict)) t h =
          some_entries (is_empty t.eq) (is_empty t.lower) (is_empty t.upper) (scans.is_empty t.scan)
            (inr (inl (posting-entries (listed_bound bm id strict) col v t.lower refl h)))
      under-not_empty id (some (upper col v strict)) t h =
          some_entries (is_empty t.eq) (is_empty t.lower) (is_empty t.upper) (scans.is_empty t.scan)
            (inr (inr (inl (posting-entries (listed_bound bm id strict) col v t.upper refl h))))

      pub under-Posted :
          (id : ℕ) (l : AccessLeaf F) (t : TableIndex F B)
          → under id (some l) t ≡ true
          → Posted
              (absorb scans)
              (absorb_bound scans)
              t.eq
              t.lower
              t.upper
              (λ b. bm.contains b id)
              l
      under-Posted id (AccessLeaf.eq col v) t h =
          let (b, found, c) = listed-some bm laws scans scan_laws id (posting col v t.eq) h in
          (b, found, λ seen. union-keeps bm laws scans scan_laws id seen b (inr c))
      under-Posted id (lower col v strict) t h =
          let (b, found, c) =
            listed_bound-some bm laws scans scan_laws id strict (posting col v t.lower) h in
          (
            b,
            found,
            λ at seen a. absorb_bound-takes bm laws scans scan_laws id at strict b seen c a,
          )
      under-Posted id (upper col v strict) t h =
          let (b, found, c) =
            listed_bound-some bm laws scans scan_laws id strict (posting col v t.upper) h in
          (
            b,
            found,
            λ at seen a. absorb_bound-takes bm laws scans scan_laws id at strict b seen c a,
          )
