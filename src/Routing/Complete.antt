-- ===== src/Routing/Complete.antt =====
-- The candidates of apps/engine/src/engine/executors.rs, `StandaloneIndex`, against the predicates
-- of the shapes.
use electric_circuits.Prelude.{
  true_false, subst, ◌≡◌, refl, ◌∙◌, sym, ap, inl, inr, Bool, true, false, Option, none, some, List,
  [], ◌∷◌, arith, Ord, ◌==◌, ==_eq, nat_ord, list_ord, bool_ord, if◌then◌else◌, Bool-cases, Memᴰ,
  member, filter, some_inj, some_none,
}
use electric_circuits.Value.{ℤ, Text, Row, value_ord}
use electric_circuits.Predicate.Ast.{
  AccessLeaf, lower, upper, CompiledPredicate, SubqueryEval, Fault,
}
use electric_circuits.Predicate.Eval.{matches_ctx, matches, panic_eval}
use electric_circuits.Predicate.Access.{access_leaf}
use electric_circuits.Predicate.Access.Sound.{access_leaf-holds}
use electric_circuits.Output.Codec.{Delta}
use electric_circuits.Routing.Postings.{posting}
use electric_circuits.Output.Standalone.{eval_standalone}
use electric_circuits.Routing.Probe.{Posted, probe-keeps, probe-finds}
use electric_circuits.Routing.Standalone.{
  StandaloneIndex, default, extend, reached, extend_bound, index_insert, index_remove, candidates,
}
use electric_circuits.Routing.Listed.{
  member-extend, member-reached, keeps_extend, keeps_bound, listed-some, listed_bound-some,
}
use electric_circuits.Routing.Filed.{
  under, Filed, index_insert-Filed, index_insert-keeps, index_remove-keeps,
}

-- What the engine does with the index: a shape is created with its predicate, or dropped.
pub data Event (F : Type 0) : Type 0 where
  created : Text → CompiledPredicate F → Event F
  dropped : Text → Event F

module _ {F : Type 0} ⦃o : Ord F⦄ where
  unfoldable pub indexed : List (Event F) → StandaloneIndex F → StandaloneIndex F
  indexed [] idx = idx
  indexed (created sid pred ∷ events) idx = indexed events (index_insert sid pred idx)
  indexed (dropped sid ∷ events) idx = indexed events (index_remove sid idx)

-- The shapes that are registered, by id.
abbrev pub Registry : Type 0 → Type 0
Registry F = Text → Option (CompiledPredicate F)

unfoldable pub registered : {F : Type 0} → List (Event F) → Registry F → Registry F
registered [] reg sid = reg sid
registered (created new pred ∷ events) reg sid =
    registered events (λ s. if new == s then some pred else reg s) sid
registered (dropped gone ∷ events) reg sid =
    registered events (λ s. if gone == s then none else reg s) sid

module _ {F : Type 0} ⦃o : Ord F⦄ where
  abbrev Tracks : StandaloneIndex F → Registry F → Type 0
  Tracks idx reg =
      (sid : Text) (pred : CompiledPredicate F)
      → reg sid ≡ some pred
      → Filed idx sid (access_leaf pred)

  insert-Tracks :
      (new : Text) (pred : CompiledPredicate F) (idx : StandaloneIndex F) (reg : Registry F)
      → Tracks idx reg
      → Tracks (index_insert new pred idx) (λ s. if new == s then some pred else reg s)
  insert-Tracks new pred idx reg tracks sid p at = elim (Bool-cases (new == sid)) [
    | inl e ↦
        subst (λ s. Filed (index_insert new pred idx) s (access_leaf p)) (==_eq new sid e)
          (subst (λ q. Filed (index_insert new pred idx) new (access_leaf q))
            (some_inj (ap (λ b. if b then some pred else reg sid) (sym e) ∙ at))
            (index_insert-Filed new pred idx))
    | inr e ↦
        index_insert-keeps new sid pred (access_leaf p) idx e
          (tracks sid p (ap (λ b. if b then some pred else reg sid) (sym e) ∙ at))
  ]

  remove-Tracks :
      (gone : Text) (idx : StandaloneIndex F) (reg : Registry F)
      → Tracks idx reg
      → Tracks (index_remove gone idx) (λ s. if gone == s then none else reg s)
  remove-Tracks gone idx reg tracks sid p at = elim (Bool-cases (gone == sid)) [
    | inl e ↦ absurd (some_none (sym at ∙ ap (λ b. if b then none else reg sid) e))
    | inr e ↦
        index_remove-keeps gone sid (access_leaf p) idx e
          (tracks sid p (ap (λ b. if b then none else reg sid) (sym e) ∙ at))
  ]

  indexed-Tracks :
      (events : List (Event F)) (idx : StandaloneIndex F) (reg : Registry F)
      → Tracks idx reg
      → Tracks (indexed events idx) (registered events reg)
  unfolding indexed registered
  indexed-Tracks [] idx reg tracks = tracks
  indexed-Tracks (created new pred ∷ events) idx reg tracks =
      indexed-Tracks events (index_insert new pred idx) (λ s. if new == s then some pred else reg s)
        (insert-Tracks new pred idx reg tracks)
  indexed-Tracks (dropped gone ∷ events) idx reg tracks =
      indexed-Tracks events (index_remove gone idx) (λ s. if gone == s then none else reg s)
        (remove-Tracks gone idx reg tracks)

  under-Posted :
      (idx : StandaloneIndex F) (sid : Text) (l : AccessLeaf F)
      → under idx sid (some l) ≡ true
      → Posted extend extend_bound idx.eq idx.lower idx.upper (member sid) l
  under-Posted idx sid (AccessLeaf.eq col v) u =
      let (sids, found, m) = listed-some sid (posting col v idx.eq) u in
      (sids, found, λ seen. member-extend sid sids seen ∙ ground arith)
  under-Posted idx sid (lower col v strict) u =
      let (sids, found, m) = listed_bound-some sid strict (posting col v idx.lower) u in
      (
        sids,
        found,
        λ at seen a.
            member-extend sid (reached at sids) seen
            ∙ ap (λ b. if b then true else member sid seen) (member-reached sid strict at sids m a),
      )
  under-Posted idx sid (upper col v strict) u =
      let (sids, found, m) = listed_bound-some sid strict (posting col v idx.upper) u in
      (
        sids,
        found,
        λ at seen a.
            member-extend sid (reached at sids) seen
            ∙ ap (λ b. if b then true else member sid seen) (member-reached sid strict at sids m a),
      )

  module _ (f : Fault) (ev : SubqueryEval F) (row : Row F) (w : ℤ) (delta : Delta F) where
    Filed-found :
        (idx : StandaloneIndex F) (sid : Text) (pred : CompiledPredicate F)
        (leaf : Option (AccessLeaf F))
        → access_leaf pred ≡ leaf
        → under idx sid leaf ≡ true
        → Memᴰ (row, w) delta
        → matches_ctx f ev pred row ≡ true
        → member sid (candidates idx delta) ≡ true
    unfolding candidates
    Filed-found idx sid pred none e u m matched =
        probe-keeps extend extend_bound idx.eq idx.lower idx.upper (member sid) (keeps_extend sid)
          (keeps_bound sid) delta (extend idx.scan [])
          (member-extend sid idx.scan [] ∙ ground arith)
    Filed-found idx sid pred (some l) e u m matched =
        probe-finds extend extend_bound idx.eq idx.lower idx.upper (member sid) (keeps_extend sid)
          (keeps_bound sid) row w l delta (extend idx.scan []) (under-Posted idx sid l u)
          (access_leaf-holds f ev row pred matched e) m

    -- After any sequence of creations and drops, a registered shape is a candidate for every delta
    -- that has a row which its predicate accepts.
    pub candidates_complete :
        (events : List (Event F)) (sid : Text) (pred : CompiledPredicate F)
        → registered events (λ s. none) sid ≡ some pred
        → Memᴰ (row, w) delta
        → matches_ctx f ev pred row ≡ true
        → member sid (candidates (indexed events default) delta) ≡ true
    candidates_complete events sid pred at m matched =
        let (placed, u) =
          indexed-Tracks events default (λ s. none) (λ s p h. absurd (some_none (sym h))) sid pred
            at in
        Filed-found (indexed events default) sid pred (access_leaf pred) refl u m matched

filter_none :
    {A : Type 0} (p : A → Bool) (xs : List A)
    → ((a : A) → Memᴰ a xs → p a ≡ false)
    → filter p xs ≡ []
filter_none p [] h = refl
filter_none p (x ∷ xs) h = rw (h x (Memᴰ.head refl)) (filter_none p xs (λ a m. h a (Memᴰ.tail m)))

module _ {F : Type 0} ⦃o : Ord F⦄ where
  -- After any sequence of creations and drops of shapes, a registered shape that is not among the
  -- candidates of a delta has no change in that delta: its evaluation gives the empty delta. So
  -- evaluating the candidates only leaves out nothing.
  pub candidates-suffice :
      (f : Fault) (events : List (Event F)) (sid : Text) (pred : CompiledPredicate F)
      (delta : Delta F)
      → registered events (λ s. none) sid ≡ some pred
      → member sid (candidates (indexed events default) delta) ≡ false
      → eval_standalone f pred delta ≡ []
  unfolding eval_standalone
  candidates-suffice f events sid pred delta at skipped =
      filter_none (λ t. matches f pred t.0) delta
        (λ t m. elim (Bool-cases (matches f pred t.0)) [
          | inl e ↦ absurd (
              true_false (candidates_complete f panic_eval t.0 t.1 delta events sid pred at m e)
                skipped)
          | inr e ↦ e
        ])
