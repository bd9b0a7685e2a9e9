-- ===== src/Predicate/Examples.antt =====
-- Concrete runs of the predicate evaluator and of the structures derived from a predicate; a float
-- is a number here.
use electric_circuits.Prelude.{
  ℕ, ◌≡◌, ◌↔◌, refl, Bool, true, false, some, List, [], ◌∷◌, nat_ord, All, Memᴰ, inr, ◌==◌, ==_iff,
  ◌||◌, false_true,
}
use electric_circuits.Value.{Value, Row, int, text, pos, value_ord, cell_at, is_null}
use electric_circuits.Predicate.Ast.{
  LeafOp, CompiledPredicate, and, or, in_subquery, nil, cons, SubquerySig, Tri, unknown,
  SubqueryEval, Fault, lower,
}
use electric_circuits.Predicate.Eval.{cmp, in_set, eval_ctx, matches_ctx}
use electric_circuits.Predicate.Meaning.{IsTrue, IsFalse, Describes, IsPlain}
use electric_circuits.Predicate.Meaning.Exact.{eval_ctx-IsTrue}
use electric_circuits.Predicate.Access.{leaf_of, access_leaf, holds}
use electric_circuits.Predicate.Access.Sound.{access_leaf-holds}
use electric_circuits.Predicate.Template.{Pairs, equality_template}
use electric_circuits.Predicate.Template.Sorted.{Ascending}
use electric_circuits.Predicate.Template.Exact.{NonNull, equality_template-exact}
use electric_circuits.Predicate.Like.{like_match, percent, underscore}
use electric_circuits.Predicate.Like.Reference.{like_ref}
use electric_circuits.Predicate.Like.Total.{like_match-total}
use electric_circuits.Predicate.Like.Exact.{like_match-exact, like_match-percent_text}

abbrev no_nodes : SubqueryEval ℕ
no_nodes = record { contains = λ sig v. false; has_null = λ sig. true }

abbrev a_row : Row ℕ
a_row = int (pos 7) ∷ text (b'a' ∷ b'b' ∷ []) ∷ Value.null ∷ []

abbrev above_five : CompiledPredicate ℕ
above_five = CompiledPredicate.cmp 0 LeafOp.gt (int (pos 5))

abbrev null_column : CompiledPredicate ℕ
null_column = CompiledPredicate.cmp 2 LeafOp.eq (int (pos 1))

abbrev both_texts : CompiledPredicate ℕ
both_texts = and (
    cons (CompiledPredicate.cmp 1 LeafOp.eq (text (b'a' ∷ b'b' ∷ [])))
      (cons (CompiledPredicate.cmp 0 LeafOp.eq (int (pos 7))) nil))

-- A set with the element 7, in every node, and one with a NULL and the element 3.
abbrev just_seven : SubquerySig → List (Value ℕ)
just_seven sig = int (pos 7) ∷ []

abbrev seven_nodes : SubqueryEval ℕ
seven_nodes = record { contains = λ sig v. v == int (pos 7); has_null = λ sig. false }

in_one : (x y : Value ℕ) → ((x == y) ≡ true) ↔ Memᴰ x (y ∷ [])
in_one x y = (
  λ e. Memᴰ.head ((==_iff x y).0 e),
  λ m. elim m [ Memᴰ.head e ↦ (==_iff x y).1 e | Memᴰ.tail t ↦ elim t [ ] ],
)

seven_nodes-Describes : Describes seven_nodes just_seven
seven_nodes-Describes = (
  λ sig v. in_one v (int (pos 7)),
  λ sig. (λ e. absurd (false_true e), λ m. elim m [ Memᴰ.head e ↦ cc | Memᴰ.tail t ↦ elim t [ ] ]),
)

-- `c0 IN S AND NOT (c1 LIKE 'b%' OR c2 = 1)`
abbrev mixed : CompiledPredicate ℕ
mixed = and (
    cons (in_subquery 0 [] false) (
      cons
        (CompiledPredicate.not (
          or (
            cons (CompiledPredicate.cmp 1 LeafOp.like (text (b'b' ∷ percent ∷ [])))
              (cons null_column nil))))
        nil))

mixed-IsPlain : IsPlain just_seven a_row mixed
unfolding IsPlain
mixed-IsPlain = (inr (Memᴰ.head refl), (((refl, (refl, tt)), (tt, tt)), tt))

eval_ctx-IsTrue_example :
    ((eval_ctx Fault.none seven_nodes a_row mixed ≡ Tri.true) ↔ IsTrue just_seven a_row mixed)
    × ((eval_ctx Fault.none seven_nodes a_row mixed ≡ Tri.false) ↔ IsFalse just_seven a_row mixed)
eval_ctx-IsTrue_example =
    eval_ctx-IsTrue seven_nodes just_seven a_row mixed seven_nodes-Describes mixed-IsPlain

-- The NULL in the third column makes it UNKNOWN.
mixed-runs : eval_ctx Fault.none seven_nodes a_row mixed ≡ unknown
unfolding eval_ctx cmp in_set like_match
mixed-runs = refl

abbrev three_nodes : SubqueryEval ℕ
three_nodes = record { contains = λ sig v. v == int (pos 3) || is_null v; has_null = λ sig. true }

abbrev three_row : Row ℕ
three_row = int (pos 3) ∷ []

-- The set has a NULL and not the cell, so SQL says that IN is UNKNOWN, and so is its negation.
not_in_with_null :
    eval_ctx Fault.none three_nodes a_row (CompiledPredicate.not (in_subquery 0 [] false))
    ≡ Tri.true
unfolding eval_ctx in_set
not_in_with_null = refl

-- The set has a NULL and the cell, so SQL says that NOT IN is FALSE.
in_with_null : eval_ctx Fault.none three_nodes three_row (in_subquery 0 [] true) ≡ unknown
unfolding eval_ctx in_set
in_with_null = refl

above_five-matches : matches_ctx Fault.none no_nodes (and (cons above_five nil)) a_row ≡ true
unfolding matches_ctx eval_ctx cmp
above_five-matches = refl

above_five-leaf : access_leaf (and (cons above_five nil)) ≡ some (lower 0 (int (pos 5)) true)
unfolding access_leaf leaf_of
above_five-leaf = refl

access_leaf-holds_example : holds (lower 0 (int (pos 5)) true) a_row ≡ true
access_leaf-holds_example =
    access_leaf-holds Fault.none no_nodes a_row (and (cons above_five nil)) above_five-matches
      above_five-leaf

abbrev text_pairs : Pairs ℕ
text_pairs = (0, int (pos 7)) ∷ (1, text (b'a' ∷ b'b' ∷ [])) ∷ []

both_texts-template : equality_template both_texts ≡ some text_pairs
unfolding equality_template
both_texts-template = refl

equality_template-exact_example :
    Ascending text_pairs
    × All NonNull text_pairs
    × ((matches_ctx Fault.none no_nodes both_texts a_row ≡ true)
        ↔ All (λ kv. cell_at a_row kv.0 ≡ kv.1) text_pairs)
equality_template-exact_example =
    equality_template-exact Fault.none no_nodes a_row both_texts both_texts-template

abbrev abc : List ℕ
abc = b'a' ∷ b'b' ∷ b'c' ∷ []

abbrev any_then_c : List ℕ
any_then_c = percent ∷ underscore ∷ b'c' ∷ []

like_match-total_example : (b : Bool) × (like_match abc any_then_c ≡ some b)
like_match-total_example = like_match-total abc any_then_c

like_match-exact_example : like_match abc any_then_c ≡ some (like_ref any_then_c abc)
like_match-exact_example = like_match-exact abc any_then_c (refl, (refl, (refl, tt)))

like_match-percent_text_example :
    (like_match (percent ∷ b'a' ∷ abc) (percent ∷ []) ≡ some false)
    × (like_ref (percent ∷ []) (percent ∷ b'a' ∷ abc) ≡ true)
like_match-percent_text_example = like_match-percent_text b'a' abc

-- The matcher on the text `%ab` and the pattern `%`.
abc-runs : like_match abc any_then_c ≡ some true
unfolding like_match
abc-runs = refl
