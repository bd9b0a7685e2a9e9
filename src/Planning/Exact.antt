-- ===== src/Planning/Exact.antt =====
-- The constraints of apps/engine/src/engine/planning.rs against the compiled predicate.
use electric_circuits.Prelude.{
  subst, ℕ, ◌≡◌, ◌∙◌, sym, ap, Bool, true, false, not, ◌&&◌, Option, none, some, List, arith, Ord,
  ◌>>=◌, bind-some, nat_ord, list_ord, member, some_inj,
}
use electric_circuits.Value.{Value, null, Row, value_ord, cell_at}
use electric_circuits.Value.Encoding.{JsonLib}
use electric_circuits.Schema.Compile.{TableSchema}
use electric_circuits.Predicate.Ast.{CompiledPredicate, and, Predicates, nil, cons, Tri, Fault}
use electric_circuits.Predicate.Eval.{eval_ctx, matches_ctx, matches}
use electric_circuits.Predicate.Compile.{
  PredicateJson, and_json, JsonPredicates, no_more, also, compile, compile_all, compile_opt,
}
use electric_circuits.Planning.Counts.{
  Constraints, unconstrained, key_of, child_keys, place, plan_children, conjuncts, plan_circuit_agg,
  group_matches,
}
use electric_circuits.Planning.Holds.{
  Aligned, unconstrained-Aligned, satisfies, unconstrained-satisfies, group_matches-satisfies,
  place-satisfies,
}
use electric_circuits.Planning.Children.{all_true, and_loop-all, no_null_key, child_keys-matches}

module _ {J F : Type 0} ⦃o : Ord F⦄ (lib : JsonLib J F) (ts : TableSchema) where
  -- No key is NULL.
  abbrev pub Clean : JsonPredicates J → Type 0
  Clean no_more = Unit
  Clean (also child children) =
      (no_null_key {F = F} (child_keys lib ts child) ≡ true) × Clean children

  abbrev pub NoNullKeys : Option (PredicateJson J) → Type 0
  NoNullKeys none = Unit
  NoNullKeys (some p) = Clean (conjuncts p)

  not_false : (b : Bool) → not b ≡ true → b ≡ false
  not_false b h = ground arith

  and_join : (a b c d : Bool) → d ≡ a → (b && (a && c)) ≡ ((d && b) && c)
  and_join a b c d h = ground arith

  module _ (f : Fault) (row : Row F) where
    plan_children-satisfies :
        (gs : List ℕ) (children : JsonPredicates J) (cs next : Constraints F) (qs : Predicates F)
        → Aligned cs gs
        → plan_children lib ts gs children cs ≡ some next
        → compile_all lib ts children ≡ some qs
        → Clean children
        → Aligned next gs × (satisfies row next gs ≡ (all_true f row qs && satisfies row cs gs))
    unfolding plan_children compile
    plan_children-satisfies gs no_more cs next qs a e c clean = (
      subst (λ x. Aligned x gs) (some_inj e) a,
      ap (λ x. satisfies row x gs) (sym (some_inj e))
          ∙ ap (λ x. all_true f row x && satisfies row cs gs) (some_inj c),
    )
    plan_children-satisfies gs (also child children) cs next qs a e c clean =
        let (k, ek, e1) =
          bind-some (child_keys lib ts child)
            (λ k. place gs cs k >>= λ x. plan_children lib ts gs children x) e in
        let (mid, em, e2) =
          bind-some (place gs cs k) (λ x. plan_children lib ts gs children x) e1 in
        let (q, cq, c1) =
          bind-some (compile lib ts child)
            (λ q. compile_all lib ts children >>= λ r. some (cons q r)) c in
        let (rs, crs, c2) = bind-some (compile_all lib ts children) (λ r. some (cons q r)) c1 in
        let (a_mid, sat) = place-satisfies row gs cs mid k.0 k.1 a em in
        let (a_next, ih) = plan_children-satisfies gs children mid next rs a_mid e2 crs clean.1 in
        let hit =
          child_keys-matches lib ts f row child k q ek cq
            (not_false (member null k.1) (ap no_null_key (sym ek) ∙ clean.0)) in
        (
          a_next,
          ih
              ∙ ap (λ b. all_true f row rs && b) sat
              ∙ and_join (member (cell_at row k.0) k.1) (all_true f row rs) (satisfies row cs gs)
                  (matches f q row) hit
              ∙ ap (λ x. all_true f row x && satisfies row cs gs) (some_inj c2),
        )

    conjuncts-matches :
        (p : PredicateJson J) (q : CompiledPredicate F)
        → compile lib ts p ≡ some q
        → (qs : Predicates F) × (compile_all lib ts (conjuncts p) ≡ some qs)
          × (all_true f row qs ≡ matches f q row)
    unfolding compile matches_ctx eval_ctx
    conjuncts-matches (and_json ps) q c =
        let (qs, cqs, c1) = bind-some (compile_all lib ts ps) (λ r. some (and r)) c in
        (
          qs,
          cqs,
          sym (ap (λ x. matches f x row) (sym (some_inj c1)) ∙ and_loop-all f row qs Tri.true),
        )
    conjuncts-matches p q c =
        (cons q nil, ap (λ x. x >>= λ r. some (cons r nil)) c, and_true (matches f q row))
      where
        and_true : (b : Bool) → (b && true) ≡ b
        and_true b = ground arith

    and_same : (b c : Bool) → c ≡ true → (b && c) ≡ b
    and_same b c h = ground arith

    -- Where an aggregate can be served from the counts pipeline and no literal of its conditions is
    -- NULL, the counts that it adds up are those of the groups whose rows its predicate accepts.
    pub plan_circuit_agg-exact :
        (where_ : Option (PredicateJson J)) (gs : List ℕ) (constraints : Constraints F)
        (q : CompiledPredicate F)
        → plan_circuit_agg lib ts where_ gs ≡ some constraints
        → compile_opt lib ts where_ ≡ some q
        → NoNullKeys where_
        → group_matches constraints (key_of row gs) ≡ matches f q row
    unfolding plan_circuit_agg matches_ctx eval_ctx
    plan_circuit_agg-exact none gs constraints q e c clean =
        ap (λ x. group_matches x (key_of row gs)) (sym (some_inj e))
        ∙ group_matches-satisfies row (unconstrained gs) gs (unconstrained-Aligned F gs)
        ∙ unconstrained-satisfies row gs
        ∙ ap (λ x. matches f x row) (some_inj c)
    plan_circuit_agg-exact (some p) gs constraints q e c clean =
        let (qs, cqs, same) = conjuncts-matches p q c in
        let (a, sat) =
          plan_children-satisfies gs (conjuncts p) (unconstrained gs) constraints qs
            (unconstrained-Aligned F gs) e cqs clean in
        group_matches-satisfies row constraints gs a
        ∙ sat
        ∙ and_same (all_true f row qs) (satisfies row (unconstrained gs) gs)
            (unconstrained-satisfies row gs)
        ∙ same
