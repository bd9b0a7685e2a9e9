-- ===== src/Routing/Registered.antt =====
-- The candidates of apps/engine/src/engine/executors.rs, `StandaloneIndex`, are registered shapes.
use electric_circuits.Prelude.{
  false_true, either_true, ◌≡◌, refl, ◌∙◌, sym, ap, inl, inr, Bool, true, false, Option, none, some,
  List, [], ◌∷◌, ◌&&◌, Ord, ◌==◌, ==_refl, nat_ord, list_ord, bool_ord, if◌then◌else◌, Bool-cases,
  bind-some, member, lookup, filter, not, map,
}
use electric_circuits.Value.{Text, value_ord}
use electric_circuits.Predicate.Ast.{AccessLeaf, lower, upper, CompiledPredicate}
use electric_circuits.Predicate.Access.{access_leaf}
use electric_circuits.Output.Codec.{Delta}
use electric_circuits.Routing.Standalone.{
  StandaloneIndex, PostedBound, default, extend, reached, extend_bound, index_insert, index_remove,
  candidates,
}
use electric_circuits.Routing.Listed.{listed, listed_bound, has_bound, member-extend}
use electric_circuits.Routing.Filed.{under}
use electric_circuits.Routing.Probed.{probe-Inv}
use electric_circuits.Routing.Complete.{Event, created, dropped, indexed, Registry, registered}
use electric_circuits.Routing.Exact.{Only, AllKeyed, Exact, insert-Exact, remove-Exact}

past_other :
    (sid s : Text) (strict keep : Bool) (sids : List PostedBound)
    → (s == sid) ≡ false
    → member sid (map (λ (x : PostedBound). x.0) (if keep then (s, strict) ∷ sids else sids)) ≡ true
    → member sid (map (λ (x : PostedBound). x.0) sids) ≡ true
unfolding member
past_other sid s strict true sids n h =
    ap (λ b. if b then true else member sid (map (λ (x : PostedBound). x.0) sids)) (sym n) ∙ h
past_other sid s strict false sids n h = h

reached-has :
    (sid : Text) (at : Bool) (sids : List PostedBound)
    → member sid (reached at sids) ≡ true
    → (strict : Bool) × (has_bound sid strict sids ≡ true)
unfolding member
reached-has sid at [] m = absurd (false_true m)
reached-has sid at ((s, t) ∷ sids) m = elim (Bool-cases (s == sid)) [
  | inl e ↦ (
    t,
    ap (λ b. if b && (t == t) then true else has_bound sid t sids) e
        ∙ ap (λ b. if b then true else has_bound sid t sids) (==_refl t),
  )
  | inr n ↦
      let others = filter (λ (x : PostedBound). not (at && x.1)) sids in
      let (strict, h) = reached-has sid at sids (past_other sid s t (not (at && t)) others n m) in
      (strict, ap (λ b. if b && (t == strict) then true else has_bound sid strict sids) n ∙ h)
]

module _ {F : Type 0} ⦃o : Ord F⦄ where
  -- No shape is created under the id of one that is registered.
  abbrev pub FreshIds : List (Event F) → Registry F → Type 0
  FreshIds [] reg = Unit
  FreshIds (created new pred ∷ events) reg =
      (reg new ≡ none) × FreshIds events (λ s. if new == s then some pred else reg s)
  FreshIds (dropped gone ∷ events) reg = FreshIds events (λ s. if gone == s then none else reg s)

  indexed-Exact :
      (events : List (Event F)) (idx : StandaloneIndex F) (reg : Registry F)
      → Exact idx reg
      → FreshIds events reg
      → Exact (indexed events idx) (λ s. registered events reg s)
  unfolding indexed registered
  indexed-Exact [] idx reg exact fresh = exact
  indexed-Exact (created new pred ∷ events) idx reg exact (here, fresh) =
      indexed-Exact events (index_insert new pred idx) (λ s. if new == s then some pred else reg s)
        (insert-Exact idx reg exact new pred here) fresh
  indexed-Exact (dropped gone ∷ events) idx reg exact fresh =
      indexed-Exact events (index_remove gone idx) (λ s. if gone == s then none else reg s)
        (remove-Exact idx reg exact gone) fresh

  module _ (idx : StandaloneIndex F) where
    abbrev Listed : List Text → Type 0
    Listed out =
        (sid : Text)
        → member sid out ≡ true
        → (k : Option (AccessLeaf F)) × (under idx sid k ≡ true)

    extend-Listed :
        (sids out : List Text)
        → ((sid : Text)
            → member sid sids ≡ true
            → (k : Option (AccessLeaf F)) × (under idx sid k ≡ true))
        → Listed out
        → Listed (extend sids out)
    extend-Listed sids out new old sid m =
        elim (either_true (member sid sids) (member sid out)
          (sym (member-extend sid sids out) ∙ m)) [ inl n ↦ new sid n | inr h ↦ old sid h ]

    candidates-Listed : AllKeyed idx → (delta : Delta F) → Listed (candidates idx delta)
    unfolding candidates member
    candidates-Listed (e, l, u) delta =
        probe-Inv Listed extend extend_bound idx.eq idx.lower idx.upper (e, l, u)
          (λ col v sids out posted old.
            extend-Listed sids out
              (λ sid m. (some (AccessLeaf.eq col v), ap (listed sid) posted ∙ m)) old)
          (λ at col v sids out posted old.
            extend-Listed (reached at sids) out
              (λ sid m.
                let (strict, h) = reached-has sid at sids m in
                (some (lower col v strict), ap (listed_bound sid strict) posted ∙ h))
              old)
          (λ at col v sids out posted old.
            extend-Listed (reached at sids) out
              (λ sid m.
                let (strict, h) = reached-has sid at sids m in
                (some (upper col v strict), ap (listed_bound sid strict) posted ∙ h))
              old)
          delta (extend idx.scan [])
          (extend-Listed idx.scan [] (λ sid m. (none, m)) (λ sid m. absurd (false_true m)))

  default-Only : Only {F = F} default
  unfolding lookup member
  default-Only sid none h = absurd (false_true h)
  default-Only sid (some (AccessLeaf.eq col v)) h = absurd (false_true h)
  default-Only sid (some (lower col v strict)) h = absurd (false_true h)
  default-Only sid (some (upper col v strict)) h = absurd (false_true h)

  default-Exact : Exact {F = F} default (λ s. none)
  unfolding lookup
  default-Exact = (default-Only, λ sid. refl, ((tt, tt), (tt, tt), (tt, tt)))

  -- After any sequence of creations and drops in which no id is created while it is registered,
  -- every candidate of a delta is a registered shape: a dropped shape is nowhere in the index.
  pub candidates-registered :
      (events : List (Event F)) (delta : Delta F) (sid : Text)
      → FreshIds events (λ s. none)
      → member sid (candidates (indexed events default) delta) ≡ true
      → (pred : CompiledPredicate F) × (registered events (λ s. none) sid ≡ some pred)
  candidates-registered events delta sid fresh m =
      let idx = indexed events default in
      let (only, placed, keyed) = indexed-Exact events default (λ s. none) default-Exact fresh in
      let (k, u) = candidates-Listed idx keyed delta sid m in
      let (pred, found, e) =
        bind-some (registered events (λ s. none) sid) (λ q. some (access_leaf q))
          (sym (placed sid) ∙ only sid k u) in
      (pred, found)
