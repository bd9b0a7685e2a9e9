-- ===== src/Predicate/Eval.antt =====
-- apps/engine/src/predicate.rs: `Tri`, `ordering`, `cmp`, `eval_ctx`, `matches_ctx`.
use electric_circuits.Prelude.{
  Ordering, Bool, true, false, not as bool_not, Option, none, some, Ord, ◌==◌, is_lt, is_le, is_gt,
  is_ge, bool_cmp, list_cmp, nat_ord, bool_ord, if◌then◌else◌,
}
use electric_circuits.Value.{
  Value, Row, int, text, bool, float, int_cmp, is_null, cell_at, value_ord,
}
use electric_circuits.Predicate.Ast.{
  LeafOp, eq, neq, lt, lte, gt, gte, like, CompiledPredicate, match_all, and, or, in_subquery,
  SubquerySig, Predicates, nil, cons, Tri, unknown, SubqueryEval, Fault, off_by_one_cmp,
}
use electric_circuits.Predicate.Like.{like_match}

abbrev pub from_bool : Bool → Tri
from_bool b = if b then Tri.true else Tri.false

abbrev pub tri_not : Tri → Tri
tri_not Tri.true = Tri.false
tri_not Tri.false = Tri.true
tri_not unknown = unknown

abbrev is_off_by_one : Fault → Bool
is_off_by_one off_by_one_cmp = true
is_off_by_one _ = false

-- The four inequalities on an ordering; the fault makes `<=` and `>=` strict.
abbrev pub range_test : Fault → LeafOp → Ordering → Bool
range_test f lt o = is_lt o
range_test f lte o = if is_off_by_one f then is_lt o else is_le o
range_test f gt o = is_gt o
range_test f gte o = if is_off_by_one f then is_gt o else is_ge o
range_test f _ o = false

-- The matcher's result; `Predicate.Like.Total` proves that the fuel never runs out.
abbrev pub like_truth : Option Bool → Tri
like_truth none = unknown
like_truth (some b) = from_bool b

abbrev pub is_true : Tri → Bool
is_true Tri.true = true
is_true _ = false

module _ {F : Type 0} ⦃o : Ord F⦄ where
  abbrev pub ordering : Value F → Value F → Option Ordering
  ordering (int a) (int b) = some (int_cmp a b)
  ordering (float a) (float b) = some (o.cmp a b)
  ordering (text a) (text b) = some (list_cmp a b)
  ordering (bool a) (bool b) = some (bool_cmp a b)
  ordering _ _ = none

  abbrev pub like_cells : Value F → Value F → Tri
  like_cells (text c) (text p) = like_truth (like_match c p)
  like_cells _ _ = unknown

  -- The comparison of two cells of which neither is NULL.
  abbrev pub cmp_present : Fault → Value F → LeafOp → Value F → Tri
  cmp_present f cell eq value = from_bool (cell == value)
  cmp_present f cell neq value = from_bool (bool_not (cell == value))
  cmp_present f cell like value = like_cells cell value
  cmp_present f cell op value = elim (ordering cell value) [
    | none ↦ unknown
    | some r ↦ from_bool (range_test f op r)
  ]

  unfoldable pub cmp : Fault → Value F → LeafOp → Value F → Tri
  cmp f cell op value =
      if is_null cell
      then unknown
      else if is_null value
      then unknown
      else cmp_present f cell op value

  unfoldable pub in_set : SubqueryEval F → Value F → SubquerySig → Bool → Tri
  in_set ev cell sig negated =
      if is_null cell
      then unknown
      else if bool_not negated
      then from_bool (ev.contains sig cell)
      else if ev.has_null sig
      then unknown
      else from_bool (bool_not (ev.contains sig cell))

  -- `eval_ctx`, with the loops of its AND and OR arms, which leave at the first FALSE or TRUE.
  unfoldable mutual
    pub eval_ctx : Fault → SubqueryEval F → Row F → CompiledPredicate F → Tri
    eval_ctx f ev row match_all = Tri.true
    eval_ctx f ev row (CompiledPredicate.cmp col op value) = cmp f (cell_at row col) op value
    eval_ctx f ev row (CompiledPredicate.is_null col want) =
        from_bool (is_null (cell_at row col) == want)
    eval_ctx f ev row (and ps) = and_loop f ev row ps Tri.true
    eval_ctx f ev row (or ps) = or_loop f ev row ps Tri.false
    eval_ctx f ev row (CompiledPredicate.not p) = tri_not (eval_ctx f ev row p)
    eval_ctx f ev row (in_subquery col sig negated) = in_set ev (cell_at row col) sig negated

    pub and_loop : Fault → SubqueryEval F → Row F → Predicates F → Tri → Tri
    and_loop f ev row nil acc = acc
    and_loop f ev row (cons p ps) acc = elim (eval_ctx f ev row p) [
      | Tri.false ↦ Tri.false
      | unknown ↦ and_loop f ev row ps unknown
      | Tri.true ↦ and_loop f ev row ps acc
    ]

    pub or_loop : Fault → SubqueryEval F → Row F → Predicates F → Tri → Tri
    or_loop f ev row nil acc = acc
    or_loop f ev row (cons p ps) acc = elim (eval_ctx f ev row p) [
      | Tri.true ↦ Tri.true
      | unknown ↦ or_loop f ev row ps unknown
      | Tri.false ↦ or_loop f ev row ps acc
    ]

  unfoldable pub matches_ctx : Fault → SubqueryEval F → CompiledPredicate F → Row F → Bool
  matches_ctx f ev p row = is_true (eval_ctx f ev row p)

  -- `PanicEval`: only a predicate with a subquery asks it, and `matches` is not called for those.
  abbrev pub panic_eval : SubqueryEval F
  panic_eval = record { contains = λ sig v. false; has_null = λ sig. false }

  abbrev pub matches : Fault → CompiledPredicate F → Row F → Bool
  matches f p row = matches_ctx f panic_eval p row
