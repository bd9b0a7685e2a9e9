-- ===== src/Predicate/Compile.antt =====
-- apps/engine/src/predicate.rs: the JSON form of a predicate and its compilation against a table, on the
-- paths that reject subqueries; `none` is an error.
use electric_circuits.Prelude.{ℕ, Bool, Option, none, some, ◌>>=◌, get_elem?, list_ord, nat_ord}
use electric_circuits.Value.{Text, Value}
use electric_circuits.Value.Encoding.{JsonLib, literal_from_json}
use electric_circuits.Schema.Compile.{TableSchema, column_index}
use electric_circuits.Predicate.Ast.{
  LeafOp, CompiledPredicate, match_all, and, or, Predicates, nil, cons,
}

-- A `Vec<PredicateJson>` is `JsonPredicates`.
mutual
  pub data PredicateJson (J : Type 0) : Type 0 where
    leaf : Text → LeafOp → J → PredicateJson J
    is_null : Text → Bool → PredicateJson J
    and_json : JsonPredicates J → PredicateJson J
    or_json : JsonPredicates J → PredicateJson J
    not_json : PredicateJson J → PredicateJson J
    in_json : Text → SubqueryJson J → Bool → PredicateJson J

  pub data JsonPredicates (J : Type 0) : Type 0 where
    no_more : JsonPredicates J
    also : PredicateJson J → JsonPredicates J → JsonPredicates J

  -- The inner table, the projected column and the inner predicate.
  pub data SubqueryJson (J : Type 0) : Type 0 where
    select : Text → Text → SubqueryJson J
    select_where : Text → Text → PredicateJson J → SubqueryJson J

module _ {J F : Type 0} (lib : JsonLib J F) (ts : TableSchema) where
  -- A literal of the type of its column.
  abbrev pub literal_at : ℕ → J → Option (Value F)
  literal_at i value = get_elem? ts.columns i >>= λ c. literal_from_json lib value c.1

  -- `compile_with` with the collector `NoSubqueries`, which fails.
  unfoldable mutual
    pub compile : PredicateJson J → Option (CompiledPredicate F)
    compile (leaf col op value) = do
      i ← column_index ts col
      v ← literal_at i value
      some (CompiledPredicate.cmp i op v)
    compile (PredicateJson.is_null col want) =
        column_index ts col >>= λ i. some (CompiledPredicate.is_null i want)
    compile (and_json ps) = compile_all ps >>= λ qs. some (and qs)
    compile (or_json ps) = compile_all ps >>= λ qs. some (or qs)
    compile (not_json p) = compile p >>= λ q. some (CompiledPredicate.not q)
    compile (in_json col subquery negated) = column_index ts col >>= λ i. none

    pub compile_all : JsonPredicates J → Option (Predicates F)
    compile_all no_more = some nil
    compile_all (also p ps) = do q ← compile p; qs ← compile_all ps; some (cons q qs)

  abbrev pub compile_opt : Option (PredicateJson J) → Option (CompiledPredicate F)
  compile_opt none = some match_all
  compile_opt (some p) = compile p
