-- ===== src/FeedSets/Flips.antt =====
-- apps/engine/src/engine/membership.rs, `fold_refcount_flips`: the reference counts of the values of
-- an inner set, and the flips where a count crosses zero. An addition wraps around as in a build
-- without overflow checks.
use electric_circuits.Prelude.{
  ◌≡◌, refl, ◌∙◌, sym, ap, subst, fun_ext, inl, inr, Bool, true, false, not, Option, none, some,
  zero, suc, List, [], ◌∷◌, ◌++◌, Ord, ◌==◌, ==_eq, if◌then◌else◌, Map, lookup, insert, remove,
  lookup-insert, lookup-remove, Bool-cases,
}
use electric_circuits.Value.Arith.{is_positive, or_zero, ◌+ℤ◌, wrap_i64}
use electric_circuits.Value.{ℤ, pos, negsuc, Value, value_ord}

pub data FlipDir : Type 0 where
  enter : FlipDir
  leave : FlipDir

pub record Flip (F : Type 0) : Type 0 where
  pub value : Value F
  pub dir : FlipDir

abbrev pub enters : FlipDir → Bool
enters FlipDir.enter = true
enters FlipDir.leave = false

-- The flip of a value that was in the set or not, and is now.
abbrev pub crossing : {F : Type 0} → Value F → Bool → Bool → List (Flip F)
crossing v false true = record { value = v; dir = FlipDir.enter } ∷ []
crossing v true false = record { value = v; dir = FlipDir.leave } ∷ []
crossing v _ _ = []

abbrev pub at_least_zero : ℤ → ℤ
at_least_zero n = if is_positive n then n else pos 0

or_zero_either :
    (same : Bool) (x y : Option ℤ)
    → or_zero (if same then x else y) ≡ (if same then or_zero x else or_zero y)
or_zero_either true x y = refl
or_zero_either false x y = refl

live_either :
    (same : Bool) (n m : ℤ)
    → is_positive (if same then at_least_zero n else m)
      ≡ (if same then is_positive n else is_positive m)
live_either true (pos zero) m = refl
live_either true (pos (suc n)) m = refl
live_either true (negsuc n) m = refl
live_either false n m = refl

module _ {F : Type 0} ⦃o : Ord F⦄ where
  abbrev pub count_of : Value F → Map (Value F) ℤ → ℤ
  count_of v groups = or_zero (lookup v groups)

  -- An entry that is not positive is removed.
  abbrev pub set_count : Value F → ℤ → Map (Value F) ℤ → Map (Value F) ℤ
  set_count v now groups = if is_positive now then insert v now groups else remove v groups

  unfoldable pub fold_refcount_flips :
      Map (Value F) ℤ → List (Value F × ℤ) → Map (Value F) ℤ × List (Flip F)
  fold_refcount_flips groups [] = (groups, [])
  fold_refcount_flips groups ((v, w) ∷ contributions) =
      let was = count_of v groups in
      let now = wrap_i64 (was +ℤ w) in
      let rest = fold_refcount_flips (set_count v now groups) contributions in
      (rest.0, crossing v (is_positive was) (is_positive now) ++ rest.1)

  -- The set that the counts stand for, and what the flips make of a set.
  abbrev pub live : Map (Value F) ℤ → Value F → Bool
  live groups q = is_positive (count_of q groups)

  abbrev pub flip_to : Value F → Bool → (Value F → Bool) → Value F → Bool
  flip_to v b view q = if v == q then b else view q

  unfoldable pub replay_flips : List (Flip F) → (Value F → Bool) → Value F → Bool
  replay_flips [] view = view
  replay_flips (f ∷ flips) view = replay_flips flips (flip_to f.value (enters f.dir) view)

  -- Only an absent value enters, and only a present one leaves.
  abbrev pub Alternate : List (Flip F) → (Value F → Bool) → Type 0
  Alternate [] view = Unit
  Alternate (f ∷ flips) view =
      (view f.value ≡ not (enters f.dir)) × Alternate flips (flip_to f.value (enters f.dir) view)

  -- The count of one value, on its own: it never falls below zero.
  unfoldable pub held : Value F → List (Value F × ℤ) → ℤ → ℤ
  held q [] n = n
  held q ((v, w) ∷ contributions) n =
      held q contributions (if v == q then at_least_zero (wrap_i64 (n +ℤ w)) else n)

  count_of-set_count :
      (v q : Value F) (now : ℤ) (groups : Map (Value F) ℤ)
      → count_of q (set_count v now groups)
        ≡ (if v == q then at_least_zero now else count_of q groups)
  count_of-set_count v q now groups = elim (Bool-cases (is_positive now)) [
    | inl up ↦
        ap (λ b. count_of q (if b then insert v now groups else remove v groups)) up
        ∙ ap or_zero (lookup-insert v q now groups)
        ∙ or_zero_either (v == q) (some now) (lookup q groups)
        ∙ ap (λ b. if v == q then if b then now else pos 0 else count_of q groups) (sym up)
    | inr down ↦
        ap (λ b. count_of q (if b then insert v now groups else remove v groups)) down
        ∙ ap or_zero (lookup-remove v q groups)
        ∙ or_zero_either (v == q) none (lookup q groups)
        ∙ ap (λ b. if v == q then if b then now else pos 0 else count_of q groups) (sym down)
  ]

  live-set_count :
      (v q : Value F) (now : ℤ) (groups : Map (Value F) ℤ)
      → live (set_count v now groups) q ≡ flip_to v (is_positive now) (live groups) q
  live-set_count v q now groups =
      ap is_positive (count_of-set_count v q now groups)
      ∙ live_either (v == q) now (count_of q groups)

  count_of-fold :
      (groups : Map (Value F) ℤ) (contributions : List (Value F × ℤ)) (q : Value F)
      → count_of q (fold_refcount_flips groups contributions).0
        ≡ held q contributions (count_of q groups)
  unfolding fold_refcount_flips held
  count_of-fold groups [] q = refl
  count_of-fold groups ((v, w) ∷ contributions) q =
      let now = wrap_i64 (count_of v groups +ℤ w) in
      count_of-fold (set_count v now groups) contributions q
      ∙ ap (held q contributions) (
          count_of-set_count v q now groups ∙ (elim (Bool-cases (v == q)) [
            | inl e ↦
                ap
                  (λ x.
                    if v == q
                    then at_least_zero (wrap_i64 (count_of x groups +ℤ w))
                    else count_of q groups)
                  (==_eq v q e)
            | inr n ↦
                ap (λ b. if b then at_least_zero now else count_of q groups) n
                ∙ sym (
                    ap
                      (λ b.
                        if b
                        then at_least_zero (wrap_i64 (count_of q groups +ℤ w))
                        else count_of q groups)
                      n)
          ]))

  live-step :
      (v : Value F) (now : ℤ) (groups : Map (Value F) ℤ)
      → live (set_count v now groups) ≡ flip_to v (is_positive now) (live groups)
  live-step v now groups = fun_ext (λ q. live-set_count v q now groups)

  -- A value that stays as it is.
  flip_to_same :
      (v : Value F) (b : Bool) (view : Value F → Bool) → view v ≡ b → flip_to v b view ≡ view
  flip_to_same v b view h = fun_ext (λ q. elim (Bool-cases (v == q)) [
    | inl e ↦ ap (λ c. if c then b else view q) e ∙ sym h ∙ ap view (==_eq v q e)
    | inr n ↦ ap (λ c. if c then b else view q) n
  ])

  replay_flips-crossing :
      (v : Value F) (was now : Bool) (rest : List (Flip F)) (view : Value F → Bool)
      → view v ≡ was
      → replay_flips (crossing v was now ++ rest) view ≡ replay_flips rest (flip_to v now view)
  unfolding replay_flips
  replay_flips-crossing v false true rest view h = refl
  replay_flips-crossing v true false rest view h = refl
  replay_flips-crossing v false false rest view h =
      ap (replay_flips rest) (sym (flip_to_same v false view h))
  replay_flips-crossing v true true rest view h =
      ap (replay_flips rest) (sym (flip_to_same v true view h))

  Alternate-crossing :
      (v : Value F) (was now : Bool) (rest : List (Flip F)) (view : Value F → Bool)
      → view v ≡ was
      → Alternate rest (flip_to v now view)
      → Alternate (crossing v was now ++ rest) view
  Alternate-crossing v false true rest view h alternate = (h, alternate)
  Alternate-crossing v true false rest view h alternate = (h, alternate)
  Alternate-crossing v false false rest view h alternate =
      subst (Alternate rest) (flip_to_same v false view h) alternate
  Alternate-crossing v true true rest view h alternate =
      subst (Alternate rest) (flip_to_same v true view h) alternate

  flips-live :
      (groups : Map (Value F) ℤ) (contributions : List (Value F × ℤ))
      → (replay_flips (fold_refcount_flips groups contributions).1 (live groups)
          ≡ live (fold_refcount_flips groups contributions).0)
        × Alternate (fold_refcount_flips groups contributions).1 (live groups)
  unfolding fold_refcount_flips replay_flips
  flips-live groups [] = (refl, tt)
  flips-live groups ((v, w) ∷ contributions) =
      let was = count_of v groups in
      let now = wrap_i64 (was +ℤ w) in
      let after = set_count v now groups in
      let rest = (fold_refcount_flips after contributions).1 in
      let (set, alternate) = flips-live after contributions in
      (
        replay_flips-crossing v (is_positive was) (is_positive now) rest (live groups) refl
            ∙ ap (replay_flips rest) (sym (live-step v now groups))
            ∙ set,
        Alternate-crossing v (is_positive was) (is_positive now) rest (live groups) refl
            (subst (Alternate rest) (live-step v now groups) alternate),
      )

  -- A batch adds up the count of each value on its own, at least zero after each contribution. Its
  -- flips turn the set of the counts before it into the set of those after it, and each of them
  -- changes the set: a value enters only where it is absent, and leaves only where it is present.
  pub fold_refcount_flips-held :
      (groups : Map (Value F) ℤ) (contributions : List (Value F × ℤ))
      → ((q : Value F)
          → count_of q (fold_refcount_flips groups contributions).0
            ≡ held q contributions (count_of q groups))
        × (replay_flips (fold_refcount_flips groups contributions).1 (live groups)
            ≡ live (fold_refcount_flips groups contributions).0)
        × Alternate (fold_refcount_flips groups contributions).1 (live groups)
  fold_refcount_flips-held groups contributions =
      let (set, alternate) = flips-live groups contributions in
      (count_of-fold groups contributions, set, alternate)
