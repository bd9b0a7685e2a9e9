-- ===== src/Planning/Children.antt =====
-- apps/engine/src/engine/planning.rs: the keys of one conjunct against its compiled predicate.
use electric_circuits.Prelude.{
  true_false, ℕ, Ordering, is_eq, reverse_ord, ◌≡◌, refl, ◌∙◌, sym, ap, inl, inr, Bool, true, false,
  not, ◌&&◌, Option, none, some, List, [], ◌∷◌, arith, Ord, ◌==◌, ==_eq, ==_refl, ◌>>=◌, bind-some,
  nat_ord, list_ord, if◌then◌else◌, member, add, member-add, Bool-cases, some_inj, some_none,
}
use electric_circuits.Value.{
  Text, Value, null, int, text, bool, float, Row, value_ord, value_cmp, value_cmp_reverse, is_null,
  cell_at,
}
use electric_circuits.Value.Encoding.{JsonLib}
use electric_circuits.Schema.Compile.{TableSchema, column_index}
use electric_circuits.Predicate.Ast.{
  LeafOp, eq, CompiledPredicate, or, Predicates, nil, cons, Tri, unknown, Fault,
}
use electric_circuits.Predicate.Eval.{
  from_bool, is_true, cmp, eval_ctx, and_loop, or_loop, matches_ctx, panic_eval, matches,
}
use electric_circuits.Predicate.Compile.{
  PredicateJson, leaf, or_json, JsonPredicates, no_more, also, literal_at, compile, compile_all,
}
use electric_circuits.Planning.Counts.{same_column, or_keys, child_keys}

equal_lem :
    (nc nv b e : Bool)
    → nv ≡ false
    → b ≡ e
    → (nc ≡ true → e ≡ false)
    → is_true (if nc then unknown else if nv then unknown else from_bool b) ≡ e
equal_lem nc nv b e n same h = ground arith

if_either : (b : Bool) → (if b then true else true) ≡ true
if_either b = ground arith

is_eq_reverse : (r : Ordering) → is_eq (reverse_ord r) ≡ is_eq r
is_eq_reverse r = ground arith

module _ {F : Type 0} ⦃o : Ord F⦄ (f : Fault) (row : Row F) where
  abbrev pub all_true : Predicates F → Bool
  all_true nil = true
  all_true (cons p ps) = matches f p row && all_true ps

  abbrev pub any_true : Predicates F → Bool
  any_true nil = false
  any_true (cons p ps) = if matches f p row then true else any_true ps

  pub and_loop-all :
      (ps : Predicates F) (acc : Tri)
      → is_true (and_loop f panic_eval row ps acc) ≡ (is_true acc && all_true ps)
  unfolding eval_ctx matches_ctx
  and_loop-all nil acc = ground arith
  and_loop-all (cons p ps) acc = ground (arith, and_loop-all ps acc, and_loop-all ps unknown)

  or_loop-any :
      (ps : Predicates F) (acc : Tri)
      → is_true acc ≡ false
      → is_true (or_loop f panic_eval row ps acc) ≡ any_true ps
  unfolding eval_ctx matches_ctx
  or_loop-any nil acc h = h
  or_loop-any (cons p ps) acc h = ground (arith, or_loop-any ps acc, or_loop-any ps unknown)

  -- An equality with a literal other than NULL.
  cmp-equal :
      (col : ℕ) (v : Value F)
      → is_null v ≡ false
      → matches f (CompiledPredicate.cmp col eq v) row ≡ (v == cell_at row col)
  unfolding matches_ctx eval_ctx cmp
  cmp-equal col v n =
      let cell = cell_at row col in
      equal_lem (is_null cell) (is_null v) (cell == v) (v == cell) n
        (ap is_eq (value_cmp_reverse v cell) ∙ is_eq_reverse (value_cmp v cell))
        (λ c. elim (Bool-cases (v == cell)) [
          | inl e ↦ absurd (true_false (ap is_null (==_eq v cell e) ∙ c) n)
          | inr e ↦ e
        ])

-- A conjunct that the counts can serve, whose keys are not NULL.
abbrev pub no_null_key : {F : Type 0} ⦃o : Ord F⦄ → Option (ℕ × List (Value F)) → Bool
no_null_key none = true
no_null_key (some k) = not (member null k.1)

module _ {J F : Type 0} ⦃o : Ord F⦄ (lib : JsonLib J F) (ts : TableSchema) (f : Fault)
    (row : Row F) where
  member_null :
      (v : Value F) (keys : List (Value F))
      → member v keys ≡ true
      → member null keys ≡ false
      → is_null v ≡ false
  member_null null keys m n = absurd (true_false m n)
  member_null (int i) keys m n = refl
  member_null (text s) keys m n = refl
  member_null (bool b) keys m n = refl
  member_null (float x) keys m n = refl

  pub leaf-compile :
      (col : Text) (op : LeafOp) (value : J) {i : ℕ} {v : Value F}
      → column_index ts col ≡ some i
      → literal_at lib ts i value ≡ some v
      → compile lib ts (leaf col op value) ≡ some (CompiledPredicate.cmp i op v)
  unfolding compile
  leaf-compile col op value {i = i} at lit =
      ap (λ x. x >>= λ j. literal_at lib ts j value >>= λ u. some (CompiledPredicate.cmp j op u)) at
      ∙ ap (λ x. x >>= λ u. some (CompiledPredicate.cmp i op u)) lit

  if_same : (b : Bool) → b ≡ (if b then true else false)
  if_same b = ground arith

  leaf-keys :
      (col : Text) (value : J) (i : ℕ) (keys : List (Value F)) (q : CompiledPredicate F)
      → child_keys lib ts (leaf col eq value) ≡ some (i, keys)
      → compile lib ts (leaf col eq value) ≡ some q
      → member null keys ≡ false
      → matches f q row ≡ member (cell_at row i) keys
  unfolding member
  leaf-keys col value i keys q e c n =
      let (j, at, e1) =
        bind-some (column_index ts col) (λ j. literal_at lib ts j value >>= λ v. some (j, v ∷ []))
          e in
      let (v, lit, e2) = bind-some (literal_at lib ts j value) (λ v. some (j, v ∷ [])) e1 in
      let found = some_inj e2 in
      let ks = ap (λ (k : ℕ × List (Value F)). k.1) found in
      ap (λ p. matches f p row) (some_inj (sym c ∙ leaf-compile col eq value at lit))
      ∙ cmp-equal f row j v (
          member_null v (v ∷ []) (ap (λ b. if b then true else false) (==_refl v))
            (ap (member null) ks ∙ n))
      ∙ if_same (v == cell_at row j)
      ∙ ap (λ (k : ℕ × List (Value F)). member (cell_at row k.0) k.1) found

  if_some :
      {A : Type 0} (b : Bool) (x : Option A) {a : A}
      → (if b then x else none) ≡ some a
      → (b ≡ true) × (x ≡ some a)
  if_some true x e = (refl, e)
  if_some false x e = cc

  abbrev OrStep :
      Text → J → JsonPredicates J → Option ℕ → List (Value F) → ℕ × List (Value F) → Type 0
  OrStep col value cs idx acc k =
      (j : ℕ) × (v : Value F) × (column_index ts col ≡ some j)
      × (same_column idx j ≡ true)
      × (literal_at lib ts j value ≡ some v)
      × (or_keys lib ts cs (some j) (add v acc) ≡ some k)

  or_keys_step :
      (col : Text) (value : J) (cs : JsonPredicates J) (idx : Option ℕ) (acc : List (Value F))
      (k : ℕ × List (Value F))
      → or_keys lib ts (also (leaf col eq value) cs) idx acc ≡ some k
      → OrStep col value cs idx acc k
  unfolding or_keys
  or_keys_step col value cs idx acc k e =
      let (j, at, e1) =
        bind-some (column_index ts col)
          (λ j. (if same_column idx j then literal_at lib ts j value else none) >>= λ v.
            or_keys lib ts cs (some j) (add v acc))
          e in
      let (v, taken, e2) =
        bind-some (if same_column idx j then literal_at lib ts j value else none)
          (λ v. or_keys lib ts cs (some j) (add v acc)) e1 in
      let (same, lit) = if_some (same_column idx j) (literal_at lib ts j value) taken in
      (j, v, at, same, lit, e2)

  pub no_keys : {A : Type 0} {k : ℕ × List (Value F)} → none ≡ some k → A
  no_keys e = absurd (some_none (sym e))

  or_keys-grows :
      (cs : JsonPredicates J) (idx : Option ℕ) (acc : List (Value F)) (k : ℕ × List (Value F))
      (u : Value F)
      → or_keys lib ts cs idx acc ≡ some k
      → member u acc ≡ true
      → member u k.1 ≡ true
  unfolding or_keys
  or_keys-grows no_more idx acc k u e m =
      let (j, at, e1) = bind-some idx (λ j. some (j, acc)) e in
      ap (λ (x : ℕ × List (Value F)). member u x.1) (sym (some_inj e1)) ∙ m
  or_keys-grows (also (leaf col eq value) cs) idx acc k u e m =
      let (j, v, at, same, lit, rest) = or_keys_step col value cs idx acc k e in
      or_keys-grows cs (some j) (add v acc) k u rest
        (member-add v u acc ∙ ap (λ b. if v == u then true else b) m ∙ if_either (v == u))
  or_keys-grows (also _ cs) idx acc k u e m = no_keys e

  keys_lem :
      (b c a d : Bool)
      → d ≡ b
      → (if (if b then true else a) then true else c) ≡ (if a then true else if d then true else c)
  keys_lem b c a d h = ground arith

  or_keys-any :
      (cs : JsonPredicates J) (idx : Option ℕ) (acc : List (Value F)) (k : ℕ × List (Value F))
      (qs : Predicates F)
      → or_keys lib ts cs idx acc ≡ some k
      → compile_all lib ts cs ≡ some qs
      → member null k.1 ≡ false
      → (same_column idx k.0 ≡ true)
        × (member (cell_at row k.0) k.1
            ≡ (if member (cell_at row k.0) acc then true else any_true f row qs))
  unfolding or_keys compile
  or_keys-any no_more idx acc k qs e c n =
      let (j, at, e1) = bind-some idx (λ j. some (j, acc)) e in
      let found = some_inj e1 in
      (
        ap (λ x. same_column x k.0) at
            ∙ ap (λ (x : ℕ × List (Value F)). j == x.0) (sym found)
            ∙ ==_refl j,
        ap (λ (x : ℕ × List (Value F)). member (cell_at row k.0) x.1) (sym found)
            ∙ if_same (member (cell_at row k.0) acc)
            ∙ ap (λ x. if member (cell_at row k.0) acc then true else any_true f row x)
                (some_inj c),
      )
  or_keys-any (also (leaf col eq value) cs) idx acc k qs e c n =
      let (j, v, at, same, lit, rest) = or_keys_step col value cs idx acc k e in
      let (q, cq, c1) =
        bind-some (compile lib ts (leaf col eq value))
          (λ q. compile_all lib ts cs >>= λ r. some (cons q r)) c in
      let (rs, crs, c2) = bind-some (compile_all lib ts cs) (λ r. some (cons q r)) c1 in
      let (one, ih) = or_keys-any cs (some j) (add v acc) k rs rest crs n in
      let column = ==_eq j k.0 one in
      let v_null =
        member_null v k.1
          (or_keys-grows cs (some j) (add v acc) k v rest
            (member-add v v acc ∙ ap (λ b. if b then true else member v acc) (==_refl v)))
          n in
      let hit =
        ap (λ p. matches f p row) (some_inj (sym cq ∙ leaf-compile col eq value at lit))
        ∙ cmp-equal f row j v v_null
        ∙ ap (λ i. v == cell_at row i) column in
      (
        ap (same_column idx) (sym column) ∙ same,
        ih
            ∙ ap (λ b. if b then true else any_true f row rs) (member-add v (cell_at row k.0) acc)
            ∙ keys_lem (v == cell_at row k.0) (any_true f row rs) (member (cell_at row k.0) acc)
                (matches f q row) hit
            ∙ ap (λ x. if member (cell_at row k.0) acc then true else any_true f row x)
                (some_inj c2),
      )
  or_keys-any (also _ cs) idx acc k qs e c n = no_keys e

  -- A conjunct that is served accepts the rows whose cell is among its keys.
  pub child_keys-matches :
      (child : PredicateJson J) (k : ℕ × List (Value F)) (q : CompiledPredicate F)
      → child_keys lib ts child ≡ some k
      → compile lib ts child ≡ some q
      → member null k.1 ≡ false
      → matches f q row ≡ member (cell_at row k.0) k.1
  unfolding compile matches_ctx eval_ctx member
  child_keys-matches (leaf col eq value) k q e c n = leaf-keys col value k.0 k.1 q e c n
  child_keys-matches (or_json (also p cs)) k q e c n =
      let (qs, cqs, c1) = bind-some (compile_all lib ts (also p cs)) (λ r. some (or r)) c in
      ap (λ x. matches f x row) (sym (some_inj c1))
      ∙ or_loop-any f row qs Tri.false refl
      ∙ sym ((or_keys-any (also p cs) none [] k qs e cqs n).1)
  child_keys-matches _ k q e c n = no_keys e
