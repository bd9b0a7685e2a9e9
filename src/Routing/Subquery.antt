-- ===== src/Routing/Subquery.antt =====
-- apps/engine/src/subq_index.rs: `SubqueryShapeIndex`, whose posting lists are bitmaps of interned
-- ids.
use electric_circuits.Prelude.{
  ℕ, zero, suc, ◌%◌, ◌^◌, Bool, true, false, ◌&&◌, Option, none, some, List, [], ◌∷◌, ◌++◌, Ord,
  nat_ord, list_ord, if◌then◌else◌, Map, lookup, insert, remove, length, get_elem?,
}
use electric_circuits.Value.{Text, Value, value_ord}
use electric_circuits.Predicate.Ast.{AccessLeaf, CompiledPredicate}
use electric_circuits.Predicate.Access.{access_leaf}
use electric_circuits.FeedSets.FeedSet.{Bitmap}
use electric_circuits.Output.Codec.{Delta}
use electric_circuits.Routing.Postings.{Postings, file, or_default, is_empty}
use electric_circuits.Routing.Tidy.{retract_tidy}
use electric_circuits.Routing.Probe.{probe}
use electric_circuits.Routing.Bound.{
  BitmapScan, Bound, with_id, without_id, empty_bound, bound_insert, bound_remove, bound_is_empty,
  absorb, absorb_bound,
}

pub record TableIndex (F B : Type 0) : Type 0 where
  pub eq : Postings F B
  pub lower : Postings F (Bound B)
  pub upper : Postings F (Bound B)
  pub scan : B

pub record Placement (F : Type 0) : Type 0 where
  pub table : Text
  pub leaf : Option (AccessLeaf F)

-- The end of the source's `free` is the head of the list.
pub record SubqueryShapeIndex (F B : Type 0) : Type 0 where
  pub forward : Map Text ℕ
  pub reverse : List (Option Text)
  pub free : List ℕ
  pub tables : Map Text (TableIndex F B)
  pub placed : Map ℕ (Placement F)

abbrev pub default : {F B : Type 0} → SubqueryShapeIndex F B
default = record { forward = []; reverse = []; free = []; tables = []; placed = [] }

-- `self.reverse[id] = name`
abbrev pub set_at {ℓ} : {A : Type ℓ} → ℕ → A → List A → List A
set_at i a [] = []
set_at zero a (x ∷ xs) = a ∷ xs
set_at (suc i) a (x ∷ xs) = x ∷ set_at i a xs

abbrev pub resolve_one : Option (Option Text) → List Text → List Text
resolve_one (some (some shape_id)) rest = shape_id ∷ rest
resolve_one _ rest = rest

-- `filter_map` through the reverse table.
abbrev pub resolve : List (Option Text) → List ℕ → List Text
resolve reverse [] = []
resolve reverse (id ∷ ids) = resolve_one (get_elem? reverse id) (resolve reverse ids)

module _ {F B : Type 0} where
  abbrev pub interned :
      Text → ℕ → List (Option Text) → List ℕ → SubqueryShapeIndex F B → ℕ × SubqueryShapeIndex F B
  interned shape_id id reverse free idx = (
    id,
    record {
      forward = insert shape_id id idx.forward;
      reverse = reverse;
      free = free;
      tables = idx.tables;
      placed = idx.placed;
    },
  )

  abbrev pub intern_from : Text → List ℕ → SubqueryShapeIndex F B → ℕ × SubqueryShapeIndex F B
  intern_from shape_id (id ∷ free) idx =
      interned shape_id id (set_at id (some shape_id) idx.reverse) free idx
  intern_from shape_id [] idx =
      interned shape_id (length idx.reverse % 2 ^ 32) (idx.reverse ++ some shape_id ∷ []) [] idx

  abbrev pub intern : Text → SubqueryShapeIndex F B → ℕ × SubqueryShapeIndex F B
  intern shape_id idx = intern_from shape_id idx.free idx

  abbrev pub is_present : Option (TableIndex F B) → Bool
  is_present none = false
  is_present (some t) = true

  abbrev pub has_table : Text → SubqueryShapeIndex F B → Bool
  has_table table idx = is_present (lookup table idx.tables)

module _ {F B : Type 0} ⦃o : Ord F⦄ (bm : Bitmap B) (scans : BitmapScan B) where
  abbrev pub empty_table : TableIndex F B
  empty_table = record { eq = []; lower = []; upper = []; scan = bm.empty }

  abbrev pub table_is_empty : TableIndex F B → Bool
  table_is_empty t =
      is_empty t.eq && (is_empty t.lower && (is_empty t.upper && scans.is_empty t.scan))

  abbrev pub bucket_insert : ℕ → Option (AccessLeaf F) → TableIndex F B → TableIndex F B
  bucket_insert id (some (AccessLeaf.eq col value)) t = record {
    eq = file bm.empty (with_id bm id) col value t.eq;
    lower = t.lower;
    upper = t.upper;
    scan = t.scan;
  }
  bucket_insert id (some (AccessLeaf.lower col value strict)) t = record {
    eq = t.eq;
    lower = file (empty_bound bm) (bound_insert bm strict id) col value t.lower;
    upper = t.upper;
    scan = t.scan;
  }
  bucket_insert id (some (AccessLeaf.upper col value strict)) t = record {
    eq = t.eq;
    lower = t.lower;
    upper = file (empty_bound bm) (bound_insert bm strict id) col value t.upper;
    scan = t.scan;
  }
  bucket_insert id none t = record {
    eq = t.eq;
    lower = t.lower;
    upper = t.upper;
    scan = with_id bm id t.scan;
  }

  abbrev pub remove_bound : Postings F (Bound B) → ℕ → Value F → ℕ → Postings F (Bound B)
  remove_bound m col value id = retract_tidy (bound_is_empty scans) (bound_remove bm id) col value m

  abbrev pub bucket_remove : ℕ → Option (AccessLeaf F) → TableIndex F B → TableIndex F B
  bucket_remove id (some (AccessLeaf.eq col value)) t = record {
    eq = retract_tidy scans.is_empty (without_id bm id) col value t.eq;
    lower = t.lower;
    upper = t.upper;
    scan = t.scan;
  }
  bucket_remove id (some (AccessLeaf.lower col value strict)) t = record {
    eq = t.eq;
    lower = remove_bound t.lower col value id;
    upper = t.upper;
    scan = t.scan;
  }
  bucket_remove id (some (AccessLeaf.upper col value strict)) t = record {
    eq = t.eq;
    lower = t.lower;
    upper = remove_bound t.upper col value id;
    scan = t.scan;
  }
  bucket_remove id none t = record {
    eq = t.eq;
    lower = t.lower;
    upper = t.upper;
    scan = without_id bm id t.scan;
  }

  abbrev pub drop_empty :
      Text → TableIndex F B → Map Text (TableIndex F B) → Map Text (TableIndex F B)
  drop_empty table bucket tables =
      if table_is_empty bucket then remove table tables else insert table bucket tables

  abbrev pub tables_remove :
      ℕ
      → Option (AccessLeaf F)
      → Text
      → Option (TableIndex F B)
      → Map Text (TableIndex F B)
      → Map Text (TableIndex F B)
  tables_remove id leaf table none tables = tables
  tables_remove id leaf table (some bucket) tables =
      drop_empty table (bucket_remove id leaf bucket) tables

  abbrev pub unfile :
      Text → ℕ → Option (Placement F) → SubqueryShapeIndex F B → SubqueryShapeIndex F B
  unfile shape_id id none idx = idx
  unfile shape_id id (some at) idx = record {
    forward = remove shape_id idx.forward;
    reverse = set_at id none idx.reverse;
    free = id ∷ idx.free;
    tables = tables_remove id at.leaf at.table (lookup at.table idx.tables) idx.tables;
    placed = remove id idx.placed;
  }

  abbrev pub unfile_known : Text → Option ℕ → SubqueryShapeIndex F B → SubqueryShapeIndex F B
  unfile_known shape_id none idx = idx
  unfile_known shape_id (some id) idx = unfile shape_id id (lookup id idx.placed) idx

  unfoldable pub index_remove : Text → SubqueryShapeIndex F B → SubqueryShapeIndex F B
  index_remove shape_id idx = unfile_known shape_id (lookup shape_id idx.forward) idx

  abbrev pub file_shape :
      ℕ → Text → Option (AccessLeaf F) → SubqueryShapeIndex F B → SubqueryShapeIndex F B
  file_shape id table leaf idx = record {
    forward = idx.forward;
    reverse = idx.reverse;
    free = idx.free;
    tables =
        insert table (bucket_insert id leaf (or_default empty_table (lookup table idx.tables)))
          idx.tables;
    placed = insert id (record { table = table; leaf = leaf }) idx.placed;
  }

  unfoldable pub index_insert :
      Text → Text → CompiledPredicate F → SubqueryShapeIndex F B → SubqueryShapeIndex F B
  unfolding index_remove
  index_insert shape_id table pred idx =
      let r = intern shape_id (index_remove shape_id idx) in
      file_shape r.0 table (access_leaf pred) r.1

  abbrev pub bucket_candidates : Delta F → List (Option Text) → Option (TableIndex F B) → List Text
  bucket_candidates delta reverse none = []
  bucket_candidates delta reverse (some t) =
      resolve reverse
        (scans.iter (probe (absorb scans) (absorb_bound scans) t.eq t.lower t.upper delta t.scan))

  unfoldable pub candidates : Text → Delta F → SubqueryShapeIndex F B → List Text
  candidates table delta idx = bucket_candidates delta idx.reverse (lookup table idx.tables)
