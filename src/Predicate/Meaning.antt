-- ===== src/Predicate/Meaning.antt =====
-- What SQL says of the predicates of apps/engine/src/predicate.rs, apart from the code: when a
-- comparison, a membership and a predicate is TRUE of a row and when it is FALSE; otherwise it is
-- UNKNOWN. LIKE has no escape character, as the comment of the source has it.
pub mod Order
pub mod Leaves
pub mod Sets
pub mod Exact
use electric_circuits.Prelude.{
  ℕ, ◌<◌, ◌≡◌, ◌≢◌, ◌⊎◌, ◌↔◌, Ordering, Bool, true, false, not as bool_not, List, [], ◌∷◌, Memᴰ,
  All, Ord,
}
use electric_circuits.Value.{
  ℤ, pos, negsuc, Text, Value, Row, null, int, text, bool, float, cell_at,
}
use electric_circuits.Predicate.Ast.{
  LeafOp, eq, neq, lt, lte, gt, gte, like, CompiledPredicate, match_all, and, or, in_subquery,
  SubquerySig, Predicates, nil, cons, SubqueryEval,
}
use electric_circuits.Predicate.Like.Reference.{like_ref, NoPercent}

abbrev pub IntLess : ℤ → ℤ → Type 0
IntLess (pos a) (pos b) = a < b
IntLess (pos a) (negsuc b) = ⊥
IntLess (negsuc a) (pos b) = Unit
IntLess (negsuc a) (negsuc b) = b < a

-- The order of a dictionary, by the code points.
abbrev pub TextLess : Text → Text → Type 0
TextLess t [] = ⊥
TextLess [] (d ∷ u) = Unit
TextLess (c ∷ t) (d ∷ u) = (c < d) ⊎ ((c ≡ d) × TextLess t u)

abbrev pub BoolLess : Bool → Bool → Type 0
BoolLess false true = Unit
BoolLess _ _ = ⊥

abbrev pub LikeTrue : {F : Type 0} → Value F → Value F → Type 0
LikeTrue (text t) (text p) = like_ref p t ≡ true
LikeTrue _ _ = ⊥

abbrev pub LikeFalse : {F : Type 0} → Value F → Value F → Type 0
LikeFalse (text t) (text p) = like_ref p t ≡ false
LikeFalse _ _ = ⊥

abbrev pub Present : {F : Type 0} → Value F → Type 0
Present null = ⊥
Present _ = Unit

abbrev pub Same : {F : Type 0} → Value F → Value F → Type 0
Same a b = Present a × (a ≡ b)

abbrev pub Differ : {F : Type 0} → Value F → Value F → Type 0
Differ a b = Present a × Present b × (a ≢ b)

-- `v IN S` is the disjunction of the equalities with the elements of `S`.
abbrev pub InTrue : {F : Type 0} → Value F → List (Value F) → Type 0
InTrue {F} x s = (v : Value F) × (Memᴰ v s × Same x v)

abbrev pub InFalse : {F : Type 0} → Value F → List (Value F) → Type 0
InFalse x s = All (Differ x) s

-- `IS NULL` and `IS NOT NULL`.
abbrev pub NullTest : {F : Type 0} → Value F → Bool → Type 0
NullTest v true = v ≡ null
NullTest v false = Present v

module _ {F : Type 0} ⦃o : Ord F⦄ where
  -- Values of one kind are ordered; a float as its crate says.
  abbrev pub Less : Value F → Value F → Type 0
  Less (int a) (int b) = IntLess a b
  Less (text a) (text b) = TextLess a b
  Less (bool a) (bool b) = BoolLess a b
  Less (float a) (float b) = o.cmp a b ≡ Ordering.lt
  Less _ _ = ⊥

  abbrev pub CmpTrue : Value F → LeafOp → Value F → Type 0
  CmpTrue a eq b = Same a b
  CmpTrue a neq b = Differ a b
  CmpTrue a lt b = Less a b
  CmpTrue a lte b = Less a b ⊎ Same a b
  CmpTrue a gt b = Less b a
  CmpTrue a gte b = Less b a ⊎ Same a b
  CmpTrue a like b = LikeTrue a b

  abbrev pub CmpFalse : Value F → LeafOp → Value F → Type 0
  CmpFalse a eq b = Differ a b
  CmpFalse a neq b = Same a b
  CmpFalse a lt b = Less b a ⊎ Same a b
  CmpFalse a lte b = Less b a
  CmpFalse a gt b = Less a b ⊎ Same a b
  CmpFalse a gte b = Less a b
  CmpFalse a like b = LikeFalse a b

  -- The sets of the subqueries are lists of values here, NULLs included.
  unfoldable mutual
    pub IsTrue : (SubquerySig → List (Value F)) → Row F → CompiledPredicate F → Type 0
    IsTrue sets row match_all = Unit
    IsTrue sets row (CompiledPredicate.cmp col op value) = CmpTrue (cell_at row col) op value
    IsTrue sets row (CompiledPredicate.is_null col want) = NullTest (cell_at row col) want
    IsTrue sets row (and ps) = EveryTrue sets row ps
    IsTrue sets row (or ps) = SomeTrue sets row ps
    IsTrue sets row (CompiledPredicate.not p) = IsFalse sets row p
    IsTrue sets row (in_subquery col sig false) = InTrue (cell_at row col) (sets sig)
    IsTrue sets row (in_subquery col sig true) = InFalse (cell_at row col) (sets sig)

    pub IsFalse : (SubquerySig → List (Value F)) → Row F → CompiledPredicate F → Type 0
    IsFalse sets row match_all = ⊥
    IsFalse sets row (CompiledPredicate.cmp col op value) = CmpFalse (cell_at row col) op value
    IsFalse sets row (CompiledPredicate.is_null col want) =
        NullTest (cell_at row col) (bool_not want)
    IsFalse sets row (and ps) = SomeFalse sets row ps
    IsFalse sets row (or ps) = EveryFalse sets row ps
    IsFalse sets row (CompiledPredicate.not p) = IsTrue sets row p
    IsFalse sets row (in_subquery col sig false) = InFalse (cell_at row col) (sets sig)
    IsFalse sets row (in_subquery col sig true) = InTrue (cell_at row col) (sets sig)

    pub EveryTrue : (SubquerySig → List (Value F)) → Row F → Predicates F → Type 0
    EveryTrue sets row nil = Unit
    EveryTrue sets row (cons p ps) = IsTrue sets row p × EveryTrue sets row ps

    pub SomeTrue : (SubquerySig → List (Value F)) → Row F → Predicates F → Type 0
    SomeTrue sets row nil = ⊥
    SomeTrue sets row (cons p ps) = IsTrue sets row p ⊎ SomeTrue sets row ps

    pub EveryFalse : (SubquerySig → List (Value F)) → Row F → Predicates F → Type 0
    EveryFalse sets row nil = Unit
    EveryFalse sets row (cons p ps) = IsFalse sets row p × EveryFalse sets row ps

    pub SomeFalse : (SubquerySig → List (Value F)) → Row F → Predicates F → Type 0
    SomeFalse sets row nil = ⊥
    SomeFalse sets row (cons p ps) = IsFalse sets row p ⊎ SomeFalse sets row ps

-- The nodes answer for the sets.
abbrev pub Describes : {F : Type 0} → SubqueryEval F → (SubquerySig → List (Value F)) → Type 0
Describes {F} ev sets =
    ((sig : SubquerySig) (v : Value F) → (ev.contains sig v ≡ true) ↔ Memᴰ v (sets sig))
    × ((sig : SubquerySig) → (ev.has_null sig ≡ true) ↔ Memᴰ null (sets sig))

-- Where the matcher of LIKE is SQL's: the text has no `%`.
abbrev pub PlainCmp : {F : Type 0} → Value F → LeafOp → Value F → Type 0
PlainCmp (text t) like (text p) = NoPercent t
PlainCmp _ _ _ = Unit

-- Where the membership test is SQL's. For a NULL the set has an element; for another cell the set
-- has no NULL, or the cell is in it for `IN` and is not for `NOT IN`.
abbrev pub Decides : {F : Type 0} → Value F → List (Value F) → Bool → Type 0
Decides x s false = Memᴰ x s
Decides x s true = ¬ Memᴰ x s

abbrev pub PlainSet : {F : Type 0} → Value F → List (Value F) → Bool → Type 0
PlainSet null s negated = s ≢ []
PlainSet x s negated = (¬ Memᴰ null s) ⊎ Decides x s negated

module _ {F : Type 0} where
  -- The leaves of a predicate are within the two.
  unfoldable mutual
    pub IsPlain : (SubquerySig → List (Value F)) → Row F → CompiledPredicate F → Type 0
    IsPlain sets row match_all = Unit
    IsPlain sets row (CompiledPredicate.cmp col op value) = PlainCmp (cell_at row col) op value
    IsPlain sets row (CompiledPredicate.is_null col want) = Unit
    IsPlain sets row (and ps) = ArePlain sets row ps
    IsPlain sets row (or ps) = ArePlain sets row ps
    IsPlain sets row (CompiledPredicate.not p) = IsPlain sets row p
    IsPlain sets row (in_subquery col sig negated) = PlainSet (cell_at row col) (sets sig) negated

    pub ArePlain : (SubquerySig → List (Value F)) → Row F → Predicates F → Type 0
    ArePlain sets row nil = Unit
    ArePlain sets row (cons p ps) = IsPlain sets row p × ArePlain sets row ps
