-- ===== src/Routing/Held.antt =====
-- apps/engine/src/subq_index.rs: where the index has a shape, and that `insert` and `remove` of other
-- shapes leave it there.
use electric_circuits.Prelude.{
  true_false, ℕ, ◌<◌, ◌≡◌, refl, ◌∙◌, sym, ap, inl, inr, Bool, true, false, Option, none, some,
  arith, Ord, ◌==◌, ==_eq, ==_refl, nat_ord, list_ord, if◌then◌else◌, Map, lookup, lookup-insert,
  lookup-remove, length, Bool-cases,
}
use electric_circuits.Value.{Text}
use electric_circuits.Predicate.Ast.{AccessLeaf, CompiledPredicate}
use electric_circuits.Predicate.Access.{access_leaf}
use electric_circuits.FeedSets.FeedSet.{Bitmap, BitmapLaws}
use electric_circuits.Routing.Postings.{or_default}
use electric_circuits.Routing.Bound.{BitmapScan, BitmapScanLaws}
use electric_circuits.Routing.Subquery.{
  TableIndex, Placement, SubqueryShapeIndex, table_is_empty, bucket_insert, bucket_remove,
  empty_table, drop_empty, tables_remove, unfile, unfile_known, index_remove, intern_from,
  index_insert,
}
use electric_circuits.Routing.Buckets.{
  under, bucket_insert-keeps, bucket_insert-files, bucket_remove-keeps, under-not_empty,
}
use electric_circuits.Routing.Interning.{Named-apart}
use electric_circuits.Routing.Named.{
  NamedIndex, intern_from-Named, intern_from-forward, intern_from-placed, intern_from-tables,
  index_remove-Named, index_remove-length,
}

module _ {F B : Type 0} ⦃o : Ord F⦄ (bm : Bitmap B) (scans : BitmapScan B) where
  abbrev pub in_bucket : ℕ → Option (AccessLeaf F) → Option (TableIndex F B) → Bool
  in_bucket id leaf none = false
  in_bucket id leaf (some t) = under bm id leaf t

  -- The shape has an id, which is placed, and listed where it is placed.
  abbrev pub Held : SubqueryShapeIndex F B → Text → Text → Option (AccessLeaf F) → Type 0
  Held idx s table leaf =
      (id : ℕ) × (lookup s idx.forward ≡ some id)
      × (lookup id idx.placed ≡ some (record { table = table; leaf = leaf }))
      × (in_bucket id leaf (lookup table idx.tables) ≡ true)

  module _ (laws : BitmapLaws bm) where
    or_default-keeps :
        (new id : ℕ) (l k : Option (AccessLeaf F)) (t : Option (TableIndex F B))
        → in_bucket id k t ≡ true
        → under bm id k (bucket_insert bm scans new l (or_default (empty_table bm scans) t)) ≡ true
    or_default-keeps new id l k none h = cc
    or_default-keeps new id l k (some t) h = bucket_insert-keeps bm scans laws new id l k t h

    pub index_insert-Held :
        (name table : Text) (pred : CompiledPredicate F) (idx : SubqueryShapeIndex F B)
        → Held (index_insert bm scans name table pred idx) name table (access_leaf pred)
    unfolding index_insert
    index_insert-Held name table pred idx =
        let idx' = index_remove bm scans name idx in
        let r = intern_from name idx'.free idx' in
        let leaf = access_leaf pred in
        let bucket =
          bucket_insert bm scans r.0 leaf
            (or_default (empty_table bm scans) (lookup table r.1.tables)) in
        (
          r.0,
          intern_from-forward name name idx'.free idx'
              ∙ ap (λ b. if b then some r.0 else lookup name idx'.forward) (==_refl name),
          lookup-insert r.0 r.0 (record { table = table; leaf = leaf }) r.1.placed
              ∙ ap
                  (λ b.
                    if b
                    then some (record { table = table; leaf = leaf })
                    else lookup r.0 r.1.placed)
                  (==_refl r.0),
          ap (in_bucket r.0 leaf) (
                lookup-insert table table bucket r.1.tables
                ∙ ap (λ b. if b then some bucket else lookup table r.1.tables) (==_refl table))
              ∙ bucket_insert-files bm scans laws r.0 leaf
                  (or_default (empty_table bm scans) (lookup table r.1.tables)),
        )

    pub index_insert-keeps :
        (name s table t : Text) (pred : CompiledPredicate F) (leaf : Option (AccessLeaf F))
        (idx : SubqueryShapeIndex F B)
        → (name == s) ≡ false
        → length idx.reverse < 4294967296
        → NamedIndex idx
        → Held (index_remove bm scans name idx) s t leaf
        → Held (index_insert bm scans name table pred idx) s t leaf
    unfolding index_insert
    index_insert-keeps name s table t pred leaf idx other room named (id, known, placed, listed) =
        let idx' = index_remove bm scans name idx in
        let r = intern_from name idx'.free idx' in
        let new_leaf = access_leaf pred in
        let bucket =
          bucket_insert bm scans r.0 new_leaf
            (or_default (empty_table bm scans) (lookup table r.1.tables)) in
        let still =
          intern_from-forward name s idx'.free idx'
          ∙ ap (λ b. if b then some r.0 else lookup s idx'.forward) other
          ∙ known in
        let mine =
          intern_from-forward name name idx'.free idx'
          ∙ ap (λ b. if b then some r.0 else lookup name idx'.forward) (==_refl name) in
        let apart =
          Named-apart r.1.forward r.1.reverse r.1.free name s r.0 id
            (intern_from-Named name idx'.free idx'
              (omega (arith, index_remove-length bm scans name idx))
              (index_remove-Named bm scans name idx named))
            mine still other in
        let listed' =
          ap (λ m. in_bucket id leaf (lookup t m)) (intern_from-tables name idx'.free idx')
          ∙ listed in
        (
          id,
          still,
          lookup-insert r.0 id (record { table = table; leaf = new_leaf }) r.1.placed
              ∙ ap
                  (λ b.
                    if b
                    then some (record { table = table; leaf = new_leaf })
                    else lookup id r.1.placed)
                  apart
              ∙ ap (lookup id) (intern_from-placed name idx'.free idx')
              ∙ placed,
          ap (in_bucket id leaf) (lookup-insert table t bucket r.1.tables)
              ∙ (elim (Bool-cases (table == t)) [
                | inl e ↦ rw e (
                    or_default-keeps r.0 id new_leaf leaf (lookup table r.1.tables) (
                      ap (λ q. in_bucket id leaf (lookup q r.1.tables)) (==_eq table t e)
                      ∙ listed'))
                | inr e ↦ rw e listed'
              ]),
        )

    module _ (scan_laws : BitmapScanLaws bm scans) where
      drop_empty-keeps :
          (id : ℕ) (leaf : Option (AccessLeaf F)) (table t : Text) (bucket : TableIndex F B)
          (tables : Map Text (TableIndex F B))
          → ((table == t) ≡ true → under bm id leaf bucket ≡ true)
          → in_bucket id leaf (lookup t tables) ≡ true
          → in_bucket id leaf (lookup t (drop_empty bm scans table bucket tables)) ≡ true
      drop_empty-keeps id leaf table t bucket tables still h =
          elim (Bool-cases (table_is_empty bm scans bucket)) [
            | inl e ↦ rw e (
                ap (in_bucket id leaf) (lookup-remove table t tables)
                ∙ (elim (Bool-cases (table == t)) [
                  | inl d ↦ absurd (
                      true_false e
                        (under-not_empty bm scans laws scan_laws id leaf bucket (still d)))
                  | inr d ↦ rw d h
                ]))
            | inr e ↦ rw e (
                ap (in_bucket id leaf) (lookup-insert table t bucket tables)
                ∙ (elim (Bool-cases (table == t)) [ inl d ↦ rw d (still d) | inr d ↦ rw d h ]))
          ]

      tables_remove-keeps :
          (gone id : ℕ) (l leaf : Option (AccessLeaf F)) (table t : Text)
          (found : Option (TableIndex F B)) (tables : Map Text (TableIndex F B))
          → (gone == id) ≡ false
          → lookup table tables ≡ found
          → in_bucket id leaf (lookup t tables) ≡ true
          → in_bucket id leaf (lookup t (tables_remove bm scans gone l table found tables)) ≡ true
      tables_remove-keeps gone id l leaf table t none tables other e h = h
      tables_remove-keeps gone id l leaf table t (some bucket) tables other e h =
          drop_empty-keeps id leaf table t (bucket_remove bm scans gone l bucket) tables
            (λ d.
              bucket_remove-keeps bm scans laws scan_laws gone id l leaf bucket other
                (ap (in_bucket id leaf) (sym e ∙ ap (λ q. lookup q tables) (==_eq table t d)) ∙ h))
            h

      unfile-keeps :
          (name s t : Text) (gone : ℕ) (at : Option (Placement F)) (leaf : Option (AccessLeaf F))
          (idx : SubqueryShapeIndex F B)
          → (name == s) ≡ false
          → lookup name idx.forward ≡ some gone
          → NamedIndex idx
          → Held idx s t leaf
          → Held (unfile bm scans name gone at idx) s t leaf
      unfile-keeps name s t gone none leaf idx other e named held = held
      unfile-keeps name s t gone (some at) leaf idx other e named (id, known, placed, listed) =
          let apart =
            Named-apart idx.forward idx.reverse idx.free name s gone id named e known other in
          (
            id,
            lookup-remove name s idx.forward
                ∙ ap (λ b. if b then none else lookup s idx.forward) other
                ∙ known,
            lookup-remove gone id idx.placed
                ∙ ap (λ b. if b then none else lookup id idx.placed) apart
                ∙ placed,
            tables_remove-keeps gone id at.leaf leaf at.table t (lookup at.table idx.tables)
                idx.tables apart refl listed,
          )

      unfile_known-keeps :
          (name s t : Text) (known : Option ℕ) (leaf : Option (AccessLeaf F))
          (idx : SubqueryShapeIndex F B)
          → (name == s) ≡ false
          → lookup name idx.forward ≡ known
          → NamedIndex idx
          → Held idx s t leaf
          → Held (unfile_known bm scans name known idx) s t leaf
      unfile_known-keeps name s t none leaf idx other e named held = held
      unfile_known-keeps name s t (some gone) leaf idx other e named held =
          unfile-keeps name s t gone (lookup gone idx.placed) leaf idx other e named held

      pub index_remove-keeps :
          (name s t : Text) (leaf : Option (AccessLeaf F)) (idx : SubqueryShapeIndex F B)
          → (name == s) ≡ false
          → NamedIndex idx
          → Held idx s t leaf
          → Held (index_remove bm scans name idx) s t leaf
      unfolding index_remove
      index_remove-keeps name s t leaf idx other named held =
          unfile_known-keeps name s t (lookup name idx.forward) leaf idx other refl named held
