-- ===== src/Routing/Named.antt =====
-- apps/engine/src/subq_index.rs: `insert`, `remove` and `intern` keep the ids distinct.
use electric_circuits.Prelude.{
  ℕ, suc, ◌<◌, ◌≤◌, ◌%◌, ◌≡◌, refl, sym, subst, Option, none, some, List, [], ◌∷◌, ◌++◌, arith, Ord,
  ◌==◌, nat_ord, list_ord, if◌then◌else◌, lookup, insert, lookup-insert, length, length-append,
}
use electric_circuits.Value.{Text}
use electric_circuits.Predicate.Ast.{CompiledPredicate}
use electric_circuits.FeedSets.FeedSet.{Bitmap}
use electric_circuits.Routing.Bound.{BitmapScan}
use electric_circuits.Routing.Subquery.{
  Placement, SubqueryShapeIndex, unfile, unfile_known, index_remove, intern_from, index_insert,
}
use electric_circuits.Routing.Interning.{Named, reuse-Named, fresh-Named, free-Named, length-set_at}

small_mod : (n : ℕ) → n < 4294967296 → n % 4294967296 ≡ n
small_mod n h = omega arith

module _ {F B : Type 0} where
  abbrev pub NamedIndex : SubqueryShapeIndex F B → Type 0
  NamedIndex idx = Named idx.forward idx.reverse idx.free

  pub intern_from-Named :
      (name : Text) (free : List ℕ) (idx : SubqueryShapeIndex F B)
      → length idx.reverse < 4294967296
      → Named idx.forward idx.reverse free
      → NamedIndex (intern_from name free idx).1
  intern_from-Named name [] idx room named =
      subst (λ id. Named (insert name id idx.forward) (idx.reverse ++ some name ∷ []) [])
        (sym (small_mod (length idx.reverse) room)) (fresh-Named idx.forward idx.reverse name named)
  intern_from-Named name (id ∷ free) idx room named =
      reuse-Named idx.forward idx.reverse free name id named

  pub intern_from-forward :
      (name s : Text) (free : List ℕ) (idx : SubqueryShapeIndex F B)
      → lookup s (intern_from name free idx).1.forward
        ≡ (if name == s then some (intern_from name free idx).0 else lookup s idx.forward)
  intern_from-forward name s [] idx =
      lookup-insert name s (length idx.reverse % 4294967296) idx.forward
  intern_from-forward name s (id ∷ free) idx = lookup-insert name s id idx.forward

  pub intern_from-placed :
      (name : Text) (free : List ℕ) (idx : SubqueryShapeIndex F B)
      → (intern_from name free idx).1.placed ≡ idx.placed
  intern_from-placed name [] idx = refl
  intern_from-placed name (id ∷ free) idx = refl

  pub intern_from-tables :
      (name : Text) (free : List ℕ) (idx : SubqueryShapeIndex F B)
      → (intern_from name free idx).1.tables ≡ idx.tables
  intern_from-tables name [] idx = refl
  intern_from-tables name (id ∷ free) idx = refl

  pub intern_from-length :
      (name : Text) (free : List ℕ) (idx : SubqueryShapeIndex F B)
      → length (intern_from name free idx).1.reverse ≤ suc (length idx.reverse)
  intern_from-length name [] idx = omega (arith, length-append idx.reverse (some name ∷ []))
  intern_from-length name (id ∷ free) idx = omega (arith, length-set_at id (some name) idx.reverse)

module _ {F B : Type 0} ⦃o : Ord F⦄ (bm : Bitmap B) (scans : BitmapScan B) where
  unfile-Named :
      (name : Text) (id : ℕ) (at : Option (Placement F)) (idx : SubqueryShapeIndex F B)
      → lookup name idx.forward ≡ some id
      → NamedIndex idx
      → NamedIndex (unfile bm scans name id at idx)
  unfile-Named name id none idx known named = named
  unfile-Named name id (some at) idx known named =
      free-Named idx.forward idx.reverse idx.free name id known named

  unfile_known-Named :
      (name : Text) (known : Option ℕ) (idx : SubqueryShapeIndex F B)
      → lookup name idx.forward ≡ known
      → NamedIndex idx
      → NamedIndex (unfile_known bm scans name known idx)
  unfile_known-Named name none idx e named = named
  unfile_known-Named name (some id) idx e named =
      unfile-Named name id (lookup id idx.placed) idx e named

  pub index_remove-Named :
      (name : Text) (idx : SubqueryShapeIndex F B)
      → NamedIndex idx
      → NamedIndex (index_remove bm scans name idx)
  unfolding index_remove
  index_remove-Named name idx named =
      unfile_known-Named name (lookup name idx.forward) idx refl named

  unfile-length :
      (name : Text) (id : ℕ) (at : Option (Placement F)) (idx : SubqueryShapeIndex F B)
      → length (unfile bm scans name id at idx).reverse ≡ length idx.reverse
  unfile-length name id none idx = refl
  unfile-length name id (some at) idx = length-set_at id none idx.reverse

  unfile_known-length :
      (name : Text) (known : Option ℕ) (idx : SubqueryShapeIndex F B)
      → length (unfile_known bm scans name known idx).reverse ≡ length idx.reverse
  unfile_known-length name none idx = refl
  unfile_known-length name (some id) idx = unfile-length name id (lookup id idx.placed) idx

  pub index_remove-length :
      (name : Text) (idx : SubqueryShapeIndex F B)
      → length (index_remove bm scans name idx).reverse ≡ length idx.reverse
  unfolding index_remove
  index_remove-length name idx = unfile_known-length name (lookup name idx.forward) idx

  pub index_insert-Named :
      (name table : Text) (pred : CompiledPredicate F) (idx : SubqueryShapeIndex F B)
      → length idx.reverse < 4294967296
      → NamedIndex idx
      → NamedIndex (index_insert bm scans name table pred idx)
  unfolding index_insert
  index_insert-Named name table pred idx room named =
      let idx' = index_remove bm scans name idx in
      intern_from-Named name idx'.free idx' (omega (arith, index_remove-length name idx))
        (index_remove-Named name idx named)

  pub index_insert-length :
      (name table : Text) (pred : CompiledPredicate F) (idx : SubqueryShapeIndex F B)
      → length (index_insert bm scans name table pred idx).reverse ≤ suc (length idx.reverse)
  unfolding index_insert
  index_insert-length name table pred idx =
      let idx' = index_remove bm scans name idx in
      omega (arith, intern_from-length name idx'.free idx', index_remove-length name idx)
