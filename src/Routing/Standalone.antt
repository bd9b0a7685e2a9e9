-- ===== src/Routing/Standalone.antt =====
-- apps/engine/src/engine/executors.rs: `StandaloneIndex`, with `insert`, `remove`, `remove_bound`
-- and `candidates`.
use electric_circuits.Prelude.{
  ℕ, Bool, not, ◌&&◌, Option, none, some, List, [], ◌∷◌, ◌++◌, Ord, ◌==◌, nat_ord, list_ord,
  bool_ord, Map, lookup, insert, remove, add, filter, map,
}
use electric_circuits.Value.{Text, Value, value_ord}
use electric_circuits.Predicate.Ast.{AccessLeaf, CompiledPredicate}
use electric_circuits.Predicate.Access.{access_leaf}
use electric_circuits.Output.Codec.{Delta}
use electric_circuits.Routing.Postings.{Postings, file, retract, is_empty}
use electric_circuits.Routing.Probe.{probe}

-- A shape id in a bound's posting list, with `strict`.
abbrev pub PostedBound : Type 0
PostedBound = Text × Bool

pub record StandaloneIndex (F : Type 0) : Type 0 where
  pub eq : Postings F (List Text)
  pub lower : Postings F (List PostedBound)
  pub upper : Postings F (List PostedBound)
  pub scan : List Text
  pub placed : Map Text (Option (AccessLeaf F))

abbrev pub default : {F : Type 0} → StandaloneIndex F
default = record { eq = []; lower = []; upper = []; scan = []; placed = [] }

-- `HashSet::extend`.
abbrev pub extend : List Text → List Text → List Text
extend [] out = out
extend (sid ∷ sids) out = extend sids (add sid out)

-- `sids.iter().filter(|(_, strict)| !(at_bound && *strict)).map(|(s, _)| s)`
abbrev pub reached : Bool → List PostedBound → List Text
reached at_bound sids = map (λ s. s.0) (filter (λ s. not (at_bound && s.1)) sids)

abbrev pub extend_bound : Bool → List PostedBound → List Text → List Text
extend_bound at_bound sids out = extend (reached at_bound sids) out

abbrev pub retain : Text → List Text → List Text
retain sid sids = filter (λ s. not (s == sid)) sids

abbrev pub retain_bound : Text → List PostedBound → List PostedBound
retain_bound sid sids = filter (λ s. not (s.0 == sid)) sids

module _ {F : Type 0} ⦃o : Ord F⦄ where
  abbrev pub file_leaf : Text → Option (AccessLeaf F) → StandaloneIndex F → StandaloneIndex F
  file_leaf sid (some (AccessLeaf.eq col value)) idx = record {
    eq = file [] (λ sids. sids ++ sid ∷ []) col value idx.eq;
    lower = idx.lower;
    upper = idx.upper;
    scan = idx.scan;
    placed = idx.placed;
  }
  file_leaf sid (some (AccessLeaf.lower col value strict)) idx = record {
    eq = idx.eq;
    lower = file [] (λ sids. sids ++ (sid, strict) ∷ []) col value idx.lower;
    upper = idx.upper;
    scan = idx.scan;
    placed = idx.placed;
  }
  file_leaf sid (some (AccessLeaf.upper col value strict)) idx = record {
    eq = idx.eq;
    lower = idx.lower;
    upper = file [] (λ sids. sids ++ (sid, strict) ∷ []) col value idx.upper;
    scan = idx.scan;
    placed = idx.placed;
  }
  file_leaf sid none idx = record {
    eq = idx.eq;
    lower = idx.lower;
    upper = idx.upper;
    scan = idx.scan ++ sid ∷ [];
    placed = idx.placed;
  }

  abbrev pub with_placed : Map Text (Option (AccessLeaf F)) → StandaloneIndex F → StandaloneIndex F
  with_placed placed idx = record {
    eq = idx.eq;
    lower = idx.lower;
    upper = idx.upper;
    scan = idx.scan;
    placed = placed;
  }

  unfoldable pub index_insert : Text → CompiledPredicate F → StandaloneIndex F → StandaloneIndex F
  index_insert sid pred idx =
      let leaf = access_leaf pred in
      let idx = file_leaf sid leaf idx in with_placed (insert sid leaf idx.placed) idx

  abbrev pub remove_bound :
      Postings F (List PostedBound) → ℕ → Value F → Text → Postings F (List PostedBound)
  remove_bound m col value sid = retract is_empty (retain_bound sid) col value m

  abbrev pub unfile_leaf : Text → Option (AccessLeaf F) → StandaloneIndex F → StandaloneIndex F
  unfile_leaf sid (some (AccessLeaf.eq col value)) idx = record {
    eq = retract is_empty (retain sid) col value idx.eq;
    lower = idx.lower;
    upper = idx.upper;
    scan = idx.scan;
    placed = idx.placed;
  }
  unfile_leaf sid (some (AccessLeaf.lower col value strict)) idx = record {
    eq = idx.eq;
    lower = remove_bound idx.lower col value sid;
    upper = idx.upper;
    scan = idx.scan;
    placed = idx.placed;
  }
  unfile_leaf sid (some (AccessLeaf.upper col value strict)) idx = record {
    eq = idx.eq;
    lower = idx.lower;
    upper = remove_bound idx.upper col value sid;
    scan = idx.scan;
    placed = idx.placed;
  }
  unfile_leaf sid none idx = record {
    eq = idx.eq;
    lower = idx.lower;
    upper = idx.upper;
    scan = retain sid idx.scan;
    placed = idx.placed;
  }

  abbrev pub remove_placed :
      Text → Option (Option (AccessLeaf F)) → StandaloneIndex F → StandaloneIndex F
  remove_placed sid none idx = idx
  remove_placed sid (some leaf) idx = unfile_leaf sid leaf (with_placed (remove sid idx.placed) idx)

  unfoldable pub index_remove : Text → StandaloneIndex F → StandaloneIndex F
  index_remove sid idx = remove_placed sid (lookup sid idx.placed) idx

  -- The set starts with the shapes of `scan`.
  unfoldable pub candidates : StandaloneIndex F → Delta F → List Text
  candidates idx delta =
      probe extend extend_bound idx.eq idx.lower idx.upper delta (extend idx.scan [])
