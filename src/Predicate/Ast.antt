-- ===== src/Predicate/Ast.antt =====
-- apps/engine/src/predicate.rs: the compiled predicate, SQL's three truth values, the necessary
-- conjunct, and the interface to the subquery nodes; apps/engine/src/fault.rs: the injected fault.
use electric_circuits.Prelude.{ℕ, Bool}
use electric_circuits.Value.{Value, Text}

pub data LeafOp : Type 0 where
  eq neq lt lte gt gte like : LeafOp

-- `SubquerySig`, a string.
abbrev pub SubquerySig : Type 0
SubquerySig = Text

-- A `Vec<CompiledPredicate>` is `Predicates`.
mutual
  pub data CompiledPredicate (F : Type 0) : Type 0 where
    match_all : CompiledPredicate F
    cmp : ℕ → LeafOp → Value F → CompiledPredicate F
    is_null : ℕ → Bool → CompiledPredicate F
    and : Predicates F → CompiledPredicate F
    or : Predicates F → CompiledPredicate F
    not : CompiledPredicate F → CompiledPredicate F
    in_subquery : ℕ → SubquerySig → Bool → CompiledPredicate F

  pub data Predicates (F : Type 0) : Type 0 where
    nil : Predicates F
    cons : CompiledPredicate F → Predicates F → Predicates F

pub data Tri : Type 0 where
  true false unknown : Tri

pub data AccessLeaf (F : Type 0) : Type 0 where
  eq : ℕ → Value F → AccessLeaf F
  lower : ℕ → Value F → Bool → AccessLeaf F
  upper : ℕ → Value F → Bool → AccessLeaf F

-- The trait `SubqueryEval`: membership in a node's set, and whether that set holds a NULL.
pub record SubqueryEval (F : Type 0) : Type 0 where
  pub contains : SubquerySig → Value F → Bool
  pub has_null : SubquerySig → Bool

-- `fault::active()`, read once from the environment; `none` unless a test injects a fault.
pub data Fault : Type 0 where
  none drop_deletes off_by_one_cmp : Fault
