-- ===== src/Predicate/Template/Sorted.antt =====
-- The sort of the template's pairs: it keeps what holds of all pairs, and without twins the
-- columns ascend strictly.
use electric_circuits.Prelude.{
  ℕ, ◌≤◌, ◌<◌, ◌≡◌, ◌↔◌, false, [], ◌∷◌, arith, All, leb, Bool-cases, inl, inr,
}
use electric_circuits.Value.{Value}
use electric_circuits.Predicate.Template.{Pairs, insert_pair, sort_pairs, has_twin}

module _ {F : Type 0} (Q : ℕ × Value F → Type 0) where
  All-insert_pair : (p : ℕ × Value F) (ps : Pairs F) → All Q (insert_pair p ps) ↔ All Q (p ∷ ps)
  unfolding insert_pair
  All-insert_pair (c, v) [] = (λ h. h, λ h. h)
  All-insert_pair (c, v) ((d, w) ∷ ps) = elim (Bool-cases (leb c d)) [
    | inl le ↦ rw le (λ h. h, λ h. h)
    | inr gt ↦ rw gt (
      λ h. let t = (All-insert_pair (c, v) ps).0 h.1 in (t.0, (h.0, t.1)),
      λ h. (h.1.0, (All-insert_pair (c, v) ps).1 (h.0, h.1.1)),
    )
  ]

  pub All-sort_pairs : (ps : Pairs F) → All Q (sort_pairs ps) ↔ All Q ps
  unfolding sort_pairs
  All-sort_pairs [] = (λ h. h, λ h. h)
  All-sort_pairs (p ∷ ps) =
      let ih = All-sort_pairs ps in
      let step = All-insert_pair p (sort_pairs ps) in
      (λ h. let t = step.0 h in (t.0, ih.0 t.1), λ h. step.1 (h.0, ih.1 h.1))

module _ {F : Type 0} where
  abbrev pub Ascending : Pairs F → Type 0
  Ascending [] = Unit
  Ascending ((c, v) ∷ []) = Unit
  Ascending ((c, v) ∷ (d, w) ∷ ps) = (c < d) × Ascending ((d, w) ∷ ps)

  abbrev Nondecreasing : Pairs F → Type 0
  Nondecreasing [] = Unit
  Nondecreasing ((c, v) ∷ []) = Unit
  Nondecreasing ((c, v) ∷ (d, w) ∷ ps) = (c ≤ d) × Nondecreasing ((d, w) ∷ ps)

  insert_pair-Nondecreasing :
      (p : ℕ × Value F) (ps : Pairs F) → Nondecreasing ps → Nondecreasing (insert_pair p ps)
  unfolding insert_pair
  insert_pair-Nondecreasing (c, v) [] h = tt
  insert_pair-Nondecreasing (c, v) ((d, w) ∷ []) h = ground arith
  insert_pair-Nondecreasing (c, v) ((d, w) ∷ (e, u) ∷ ps) h =
      ground (arith, insert_pair-Nondecreasing (c, v) ((e, u) ∷ ps))

  sort_pairs-Nondecreasing : (ps : Pairs F) → Nondecreasing (sort_pairs ps)
  unfolding sort_pairs
  sort_pairs-Nondecreasing [] = tt
  sort_pairs-Nondecreasing (p ∷ ps) =
      insert_pair-Nondecreasing p (sort_pairs ps) (sort_pairs-Nondecreasing ps)

  Nondecreasing-Ascending : (ps : Pairs F) → Nondecreasing ps → has_twin ps ≡ false → Ascending ps
  unfolding has_twin
  Nondecreasing-Ascending [] h t = tt
  Nondecreasing-Ascending ((c, v) ∷ []) h t = tt
  Nondecreasing-Ascending ((c, v) ∷ (d, w) ∷ ps) h t =
      ground (arith, Nondecreasing-Ascending ((d, w) ∷ ps))

  pub sort_pairs-Ascending :
      (ps : Pairs F) → has_twin (sort_pairs ps) ≡ false → Ascending (sort_pairs ps)
  sort_pairs-Ascending ps t =
      Nondecreasing-Ascending (sort_pairs ps) (sort_pairs-Nondecreasing ps) t
