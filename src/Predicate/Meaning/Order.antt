-- ===== src/Predicate/Meaning/Order.antt =====
-- The order of two cells in apps/engine/src/predicate.rs against that of SQL, and when a truth value
-- agrees with what SQL says.
use electric_circuits.Prelude.{
  ◌≡◌, ◌⊎◌, ◌↔◌, inl, inr, refl, ap, subst, ◌∙◌, Ordering, Bool, true, false, not as bool_not,
  Option, none, some, [], ◌∷◌, Ord, arith, list_cmp, list_cmp_refl, list_cmp_reverse, bool_cmp,
  bool_cmp_refl, bool_cmp_reverse, nat_ord, reverse_ord, some_inj,
}
use electric_circuits.Value.{
  ℤ, pos, negsuc, Text, Value, null, int, text, bool, float, int_cmp, int_cmp_refl, int_cmp_reverse,
  value_ord, value_cmp_eq,
}
use electric_circuits.Predicate.Ast.{LeafOp, lt, lte, gt, gte, Tri, unknown, Fault}
use electric_circuits.Predicate.Eval.{from_bool, tri_not, range_test, ordering}
use electric_circuits.Predicate.Meaning.{IntLess, TextLess, BoolLess, Present, Same, Less}

-- A truth value is TRUE where the first holds and FALSE where the second does.
abbrev pub Agrees : Tri → Type 0 → Type 0 → Type 0
Agrees t T U = ((t ≡ Tri.true) ↔ T) × ((t ≡ Tri.false) ↔ U)

pub agrees_true : {T U : Type 0} → T → (U → ⊥) → Agrees Tri.true T U
agrees_true h n = ((λ e. h, λ h. refl), (λ e. cc, λ u. absurd (n u)))

pub agrees_false : {T U : Type 0} → (T → ⊥) → U → Agrees Tri.false T U
agrees_false n h = ((λ e. cc, λ u. absurd (n u)), (λ e. h, λ h. refl))

pub agrees_unknown : {T U : Type 0} → (T → ⊥) → (U → ⊥) → Agrees unknown T U
agrees_unknown n m = ((λ e. cc, λ u. absurd (n u)), (λ e. cc, λ u. absurd (m u)))

pub agrees_bool :
    {T U : Type 0} (b : Bool)
    → (b ≡ true → T)
    → (b ≡ false → U)
    → (T → U → ⊥)
    → Agrees (from_bool b) T U
agrees_bool true f g n = agrees_true (f refl) (n (f refl))
agrees_bool false f g n = agrees_false (λ t. n t (g refl)) (g refl)

pub agrees_not : {T U : Type 0} (t : Tri) → Agrees t T U → Agrees (tri_not t) U T
agrees_not Tri.true (h, k) = agrees_false (λ u. cc (k.1 u)) (h.0 refl)
agrees_not Tri.false (h, k) = agrees_true (k.0 refl) (λ t. cc (h.1 t))
agrees_not unknown (h, k) = agrees_unknown (λ u. cc (k.1 u)) (λ t. cc (h.1 t))

int_less : (a b : ℤ) → IntLess a b ↔ (int_cmp a b ≡ Ordering.lt)
int_less (pos a) (pos b) = (λ h. ground arith, λ h. ground arith)
int_less (pos a) (negsuc b) = (λ h. absurd h, λ h. cc)
int_less (negsuc a) (pos b) = (λ h. refl, λ h. tt)
int_less (negsuc a) (negsuc b) = (λ h. ground arith, λ h. ground arith)

text_less : (t u : Text) → TextLess t u ↔ (list_cmp t u ≡ Ordering.lt)
text_less [] [] = (λ h. absurd h, λ h. cc)
text_less (c ∷ t) [] = (λ h. absurd h, λ h. cc)
text_less [] (d ∷ u) = (λ h. refl, λ h. tt)
text_less (c ∷ t) (d ∷ u) =
    let (f, g) = text_less t u in (λ h. ground (arith, f), λ h. ground (arith, g))

bool_less : (a b : Bool) → BoolLess a b ↔ (bool_cmp a b ≡ Ordering.lt)
bool_less false true = (λ h. refl, λ h. tt)
bool_less false false = (λ h. absurd h, λ h. cc)
bool_less true true = (λ h. absurd h, λ h. cc)
bool_less true false = (λ h. absurd h, λ h. cc)

pub of_either_case : {A B C : Type 0} → (A → C) → (B → C) → A ⊎ B → C
of_either_case f g (inl a) = f a
of_either_case f g (inr b) = g b

pub not-from_bool : (b : Bool) → tri_not (from_bool b) ≡ from_bool (bool_not b)
not-from_bool true = refl
not-from_bool false = refl

pub no_either : {A B : Type 0} → (A → ⊥) → (B → ⊥) → A ⊎ B → ⊥
no_either f g (inl a) = f a
no_either f g (inr b) = g b

abbrev range_truth : LeafOp → Option Ordering → Tri
range_truth op r = elim r [ none ↦ unknown | some r ↦ from_bool (range_test Fault.none op r) ]

abbrev swapped : Option Ordering → Option Ordering
swapped none = none
swapped (some r) = some (reverse_ord r)

not-gt : (r : Option Ordering) → tri_not (range_truth gt r) ≡ range_truth lte r
not-gt none = refl
not-gt (some Ordering.lt) = refl
not-gt (some Ordering.eq) = refl
not-gt (some Ordering.gt) = refl

not-lt : (r : Option Ordering) → tri_not (range_truth lt r) ≡ range_truth gte r
not-lt none = refl
not-lt (some Ordering.lt) = refl
not-lt (some Ordering.eq) = refl
not-lt (some Ordering.gt) = refl

module _ {F : Type 0} ⦃o : Ord F⦄ where
  Less-ordering : (a b : Value F) → Less a b ↔ (ordering a b ≡ some Ordering.lt)
  Less-ordering (int a) (int b) =
      (λ h. ap some ((int_less a b).0 h), λ e. (int_less a b).1 (some_inj e))
  Less-ordering (text a) (text b) =
      (λ h. ap some ((text_less a b).0 h), λ e. (text_less a b).1 (some_inj e))
  Less-ordering (bool a) (bool b) =
      (λ h. ap some ((bool_less a b).0 h), λ e. (bool_less a b).1 (some_inj e))
  Less-ordering (float a) (float b) = (λ h. ap some h, λ e. some_inj e)
  Less-ordering _ _ = (λ h. absurd h, λ e. cc)

  ordering_null : (b : Value F) → ordering b null ≡ none
  ordering_null null = refl
  ordering_null _ = refl

  ordering-swap : (a b : Value F) → ordering b a ≡ swapped (ordering a b)
  ordering-swap (int a) (int b) = ap some (int_cmp_reverse a b)
  ordering-swap (text a) (text b) = ap some (list_cmp_reverse a b)
  ordering-swap (bool a) (bool b) = ap some (bool_cmp_reverse a b)
  ordering-swap (float a) (float b) = ap some (o.cmp_reverse a b)
  ordering-swap null b = ordering_null b
  ordering-swap _ _ = refl

  pub same : (a b : Value F) → ordering a b ≡ some Ordering.eq → Same a b
  same (int a) (int b) e = (tt, value_cmp_eq (int a) (int b) (some_inj e))
  same (text a) (text b) e = (tt, value_cmp_eq (text a) (text b) (some_inj e))
  same (bool a) (bool b) e = (tt, value_cmp_eq (bool a) (bool b) (some_inj e))
  same (float a) (float b) e = (tt, ap float (o.cmp_eq a b (some_inj e)))
  same _ _ e = cc

  same_to_itself : (a : Value F) → Present a → ordering a a ≡ some Ordering.eq
  same_to_itself (int a) h = ap some (int_cmp_refl a)
  same_to_itself (text a) h = ap some (list_cmp_refl a)
  same_to_itself (bool a) h = ap some (bool_cmp_refl a)
  same_to_itself (float a) h = ap some (o.cmp_refl a)
  same_to_itself null h = absurd h

  same-ordering : (a b : Value F) → Same a b → ordering a b ≡ some Ordering.eq
  same-ordering a b (h, e) = subst (λ c. ordering a c ≡ some Ordering.eq) e (same_to_itself a h)

  -- What a result of `ordering` says: of the three at most one holds.
  abbrev Placed : Value F → Value F → Option Ordering → Type 0
  Placed a b none = (Less a b → ⊥) × ((Less b a → ⊥) × (Same a b → ⊥))
  Placed a b (some Ordering.lt) = Less a b × ((Less b a → ⊥) × (Same a b → ⊥))
  Placed a b (some Ordering.eq) = (Less a b → ⊥) × ((Less b a → ⊥) × Same a b)
  Placed a b (some Ordering.gt) = (Less a b → ⊥) × (Less b a × (Same a b → ⊥))

  pub placed : (a b : Value F) (r : Option Ordering) → ordering a b ≡ r → Placed a b r
  placed a b none e = (
    λ l. cc (e, (Less-ordering a b).0 l),
    (λ g. cc (e, ordering-swap a b, (Less-ordering b a).0 g), λ s. cc (e, same-ordering a b s)),
  )
  placed a b (some Ordering.lt) e = (
    (Less-ordering a b).1 e,
    (λ g. cc (e, ordering-swap a b, (Less-ordering b a).0 g), λ s. cc (e, same-ordering a b s)),
  )
  placed a b (some Ordering.eq) e = (
    λ l. cc (e, (Less-ordering a b).0 l),
    (λ g. cc (e, ordering-swap a b, (Less-ordering b a).0 g), same a b e),
  )
  placed a b (some Ordering.gt) e = (
    λ l. cc (e, (Less-ordering a b).0 l),
    ((Less-ordering b a).1 (ordering-swap a b ∙ ap swapped e), λ s. cc (e, same-ordering a b s)),
  )

  module _ (a b : Value F) where
    pub lt_agrees :
        (r : Option Ordering)
        → Placed a b r
        → Agrees (range_truth lt r) (Less a b) (Less b a ⊎ Same a b)
    lt_agrees none (l, (g, s)) = agrees_unknown l (no_either g s)
    lt_agrees (some Ordering.lt) (l, (g, s)) = agrees_true l (no_either g s)
    lt_agrees (some Ordering.eq) (l, (g, s)) = agrees_false l (inr s)
    lt_agrees (some Ordering.gt) (l, (g, s)) = agrees_false l (inl g)

    pub gt_agrees :
        (r : Option Ordering)
        → Placed a b r
        → Agrees (range_truth gt r) (Less b a) (Less a b ⊎ Same a b)
    gt_agrees none (l, (g, s)) = agrees_unknown g (no_either l s)
    gt_agrees (some Ordering.lt) (l, (g, s)) = agrees_false g (inl l)
    gt_agrees (some Ordering.eq) (l, (g, s)) = agrees_false g (inr s)
    gt_agrees (some Ordering.gt) (l, (g, s)) = agrees_true g (no_either l s)

    -- `<=` is the negation of `>`, and `>=` that of `<`.
    pub lte_agrees :
        (r : Option Ordering)
        → Placed a b r
        → Agrees (range_truth lte r) (Less a b ⊎ Same a b) (Less b a)
    lte_agrees r h =
        subst (λ t. Agrees t (Less a b ⊎ Same a b) (Less b a)) (not-gt r)
          (agrees_not (range_truth gt r) (gt_agrees r h))

    pub gte_agrees :
        (r : Option Ordering)
        → Placed a b r
        → Agrees (range_truth gte r) (Less b a ⊎ Same a b) (Less a b)
    gte_agrees r h =
        subst (λ t. Agrees t (Less b a ⊎ Same a b) (Less a b)) (not-lt r)
          (agrees_not (range_truth lt r) (lt_agrees r h))
