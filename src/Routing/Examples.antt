-- ===== src/Routing/Examples.antt =====
-- Concrete runs of the routing indexes; a float is a number here.
use electric_circuits.Prelude.{
  ℕ, ◌≡◌, refl, Bool, true, false, none, some, List, [], ◌∷◌, nat_ord, list_ord, ◌++◌, ◌||◌, Memᴰ,
  arith, member, lookup, insert, add,
}
use electric_circuits.Value.{Text, int, pos, negsuc}
use electric_circuits.Predicate.Ast.{LeafOp, CompiledPredicate, and, nil, cons, Fault, SubqueryEval}
use electric_circuits.Output.Codec.{Delta}
use electric_circuits.Output.Standalone.{eval_standalone}
use electric_circuits.Routing.Standalone.{default, candidates, index_insert, index_remove}
use electric_circuits.Routing.Postings.{file, retract}
use electric_circuits.Routing.Scan.{eq_scan, literals, bound_scan}
use electric_circuits.Routing.Probe.{probe}
use electric_circuits.Predicate.Access.{access_leaf, leaf_of}
use electric_circuits.Routing.Complete.{
  Event, created, dropped, indexed, registered, candidates-suffice,
}
use electric_circuits.Routing.Registered.{FreshIds, candidates-registered}
use electric_circuits.Predicate.Eval.{matches_ctx, eval_ctx, cmp}
use electric_circuits.FeedSets.Sample.{ids, ids-Laws}
use electric_circuits.Routing.Bound.{BitmapScan, BitmapScanLaws}
use electric_circuits.Routing.Subquery
use electric_circuits.Routing.Subquery.{has_table}
use electric_circuits.Routing.Reached
use electric_circuits.Routing.Reached.{SubqueryEvent, candidates-reached}

abbrev shape_a : Text
shape_a = b'a' ∷ []

abbrev shape_b : Text
shape_b = b'b' ∷ []

abbrev shape_c : Text
shape_c = b'c' ∷ []

abbrev above_five : CompiledPredicate ℕ
above_five = CompiledPredicate.cmp 0 LeafOp.gt (int (pos 5))

abbrev is_three : CompiledPredicate ℕ
is_three = and (cons (CompiledPredicate.cmp 0 LeafOp.eq (int (pos 3))) nil)

abbrev history : List (Event ℕ)
history =
    created shape_a above_five
    ∷ created shape_b is_three
    ∷ created shape_c above_five
    ∷ dropped shape_a
    ∷ []

abbrev moved : Delta ℕ
moved = (int (pos 4) ∷ [], pos 1) ∷ (int (pos 3) ∷ [], pos 1) ∷ []

-- Of the two shapes left, one is probed.
history-runs : candidates (indexed history default) moved ≡ shape_b ∷ []
unfolding candidates indexed probe bound_scan index_remove lookup index_insert insert access_leaf
    leaf_of retract file literals eq_scan add
history-runs = refl

shape_c-registered : registered history (λ s. none) shape_c ≡ some above_five
unfolding registered
shape_c-registered = refl

shape_c-skipped : member shape_c (candidates (indexed history default) moved) ≡ false
unfolding member
shape_c-skipped = rw history-runs refl

candidates-suffice_example : eval_standalone Fault.none above_five moved ≡ []
candidates-suffice_example =
    candidates-suffice Fault.none history shape_c above_five moved shape_c-registered
      shape_c-skipped

abbrev no_ids : List ℕ → Bool
no_ids [] = true
no_ids (x ∷ xs) = false

abbrev id_scans : BitmapScan (List ℕ)
id_scans = record { is_empty = no_ids; union = λ b c. b ++ c; iter = λ b. b }

no_ids-member : (b : List ℕ) (q : ℕ) → member q b ≡ true → no_ids b ≡ false
unfolding member
no_ids-member [] q h = cc
no_ids-member (x ∷ b) q h = refl

member-append : (b c : List ℕ) (q : ℕ) → member q (b ++ c) ≡ (member q b || member q c)
unfolding member
member-append [] c q = refl
member-append (x ∷ b) c q = ground (arith, member-append b c q)

id_scans-Laws : BitmapScanLaws ids id_scans
id_scans-Laws = record {
  is_empty_contains = no_ids-member;
  union_contains = member-append;
  iter_contains = λ b q. refl;
}

abbrev users : Text
users = b'u' ∷ []

-- The id of the first shape is used again for the third.
abbrev subquery_history : List (SubqueryEvent ℕ)
subquery_history =
    SubqueryEvent.created shape_a users is_three
    ∷ SubqueryEvent.created shape_b users is_three
    ∷ SubqueryEvent.dropped shape_a
    ∷ SubqueryEvent.created shape_c users above_five
    ∷ []

abbrev left_range : Delta ℕ
left_range = (int (pos 6) ∷ [], negsuc 0) ∷ (int (pos 4) ∷ [], pos 1) ∷ []

abbrev no_nodes : SubqueryEval ℕ
no_nodes = record { contains = λ sig v. false; has_null = λ sig. false }

shape_c-outer : Reached.registered subquery_history (λ q. none) shape_c ≡ some (users, above_five)
unfolding Reached.registered
shape_c-outer = refl

old_row-matches : matches_ctx Fault.none no_nodes above_five (int (pos 6) ∷ []) ≡ true
unfolding matches_ctx eval_ctx cmp
old_row-matches = refl

-- The old image of a row that leaves the shape makes the shape a candidate.
candidates-reached_example :
    (has_table users (Reached.indexed ids id_scans subquery_history Subquery.default) ≡ true)
    × (member shape_c (
          Subquery.candidates ids id_scans users left_range
            (Reached.indexed ids id_scans subquery_history Subquery.default))
        ≡ true)
candidates-reached_example =
    candidates-reached ids id_scans ids-Laws id_scans-Laws Fault.none no_nodes (int (pos 6) ∷ [])
      (negsuc 0) left_range subquery_history shape_c users above_five (omega arith) shape_c-outer
      (Memᴰ.head refl) old_row-matches

history-FreshIds : FreshIds history (λ s. none)
history-FreshIds = (refl, (refl, (refl, tt)))

shape_b-candidate : member shape_b (candidates (indexed history default) moved) ≡ true
unfolding candidates indexed probe bound_scan index_remove lookup index_insert insert access_leaf
    leaf_of retract file literals eq_scan add member
shape_b-candidate = refl

candidates-registered_example :
    (pred : CompiledPredicate ℕ) × (registered history (λ s. none) shape_b ≡ some pred)
candidates-registered_example =
    candidates-registered history moved shape_b history-FreshIds shape_b-candidate
