-- ===== src/Retention/Survivors.antt =====
-- How evictions change what survives a sweep of apps/engine/src/retention.rs, when the shapes have
-- distinct ids.
use electric_circuits.Prelude.{
  ℕ, ◌+◌, ◌≡◌, ◌⊎◌, inl, inr, refl, ◌∙◌, sym, subst, false, List, [], ◌∷◌, arith, All, All-mem,
  All-imp, Memᴰ, member, add, member-add, ◌==◌, ==_iff, ==_refl, list_ord, nat_ord, if◌then◌else◌,
}
use electric_circuits.Value.{Text}
use electric_circuits.Retention.{SweepShape, is_parked, survivors}

-- Another shape than `s`.
abbrev pub Other : SweepShape → SweepShape → Type 0
Other s r = (s.id == r.id) ≡ false

abbrev pub DistinctIds : List SweepShape → Type 0
DistinctIds [] = Unit
DistinctIds (s ∷ xs) = All (Other s) xs × DistinctIds xs

unfoldable pub weigh : (SweepShape → ℕ) → List SweepShape → ℕ
weigh w [] = 0
weigh w (s ∷ xs) = w s + weigh w xs

pub Other-sym : (s r : SweepShape) → Other s r → Other r s
Other-sym s r h = ground (arith, ==_iff s.id r.id, ==_iff r.id s.id)

survivors-add_absent :
    (s : SweepShape) (ev : List Text) (xs : List SweepShape)
    → All (Other s) xs
    → survivors (add s.id ev) xs ≡ survivors ev xs
unfolding survivors
survivors-add_absent s ev [] h = refl
survivors-add_absent s ev (x ∷ xs) h =
    ground (arith, member-add s.id x.id ev, survivors-add_absent s ev xs h.1)

pub survivors-cons :
    (ev : List Text) (x : SweepShape) (xs : List SweepShape)
    → survivors ev (x ∷ xs) ≡ (if member x.id ev then survivors ev xs else x ∷ survivors ev xs)
unfolding survivors
survivors-cons ev x xs = ground arith

weigh-add_head :
    (w : SweepShape → ℕ) (x : SweepShape) (ev : List Text) (xs : List SweepShape)
    → All (Other x) xs
    → member x.id ev ≡ false
    → weigh w (survivors ev (x ∷ xs)) ≡ w x + weigh w (survivors (add x.id ev) (x ∷ xs))
unfolding weigh
weigh-add_head w x ev xs d h =
    rw
      (
        survivors-cons ev x xs,
        survivors-cons (add x.id ev) x xs,
        member-add x.id x.id ev,
        ==_refl x.id,
        survivors-add_absent x ev xs d,
        h,
      )
      refl

-- Evicting one more shape takes its weight away.
pub weigh-add :
    (w : SweepShape → ℕ) (s : SweepShape) (ev : List Text) (xs : List SweepShape)
    → DistinctIds xs
    → Memᴰ s xs
    → member s.id ev ≡ false
    → weigh w (survivors ev xs) ≡ w s + weigh w (survivors (add s.id ev) xs)
unfolding weigh
weigh-add w s ev [] d m h = elim m [ ]
weigh-add w s ev (x ∷ xs) d (Memᴰ.head e) h =
    subst (λ y. weigh w (survivors ev (x ∷ xs)) ≡ w y + weigh w (survivors (add y.id ev) (x ∷ xs)))
      (sym e) (weigh-add_head w x ev xs d.0 (subst (λ y. member y.id ev ≡ false) e h))
weigh-add w s ev (x ∷ xs) d (Memᴰ.tail m) h =
    let other : Other s x = Other-sym x s (All-mem (Other x) xs d.0 m) in
    ground (
      arith,
      survivors-cons ev x xs,
      survivors-cons (add s.id ev) x xs,
      member-add s.id x.id ev,
      weigh-add w s ev xs d.1 m h,
    )

-- The shapes that a loop of the sweep may still evict, as `lru` holds them: each is one of the
-- shapes and not planned for eviction yet, and every parked shape is among them.
pub record Queue (shapes lru : List SweepShape) (ev : List Text) : Type 0 where
  pub waiting : All (λ s. Memᴰ s shapes × (member s.id ev ≡ false)) lru
  pub distinct : DistinctIds lru
  pub complete : All (λ s. (is_parked ev s ≡ false) ⊎ Memᴰ s lru) shapes

waiting-step :
    (shapes : List SweepShape) (s : SweepShape) (ev : List Text) (lru : List SweepShape)
    → All (Other s) lru
    → All (λ s. Memᴰ s shapes × (member s.id ev ≡ false)) lru
    → All (λ r. Memᴰ r shapes × (member r.id (add s.id ev) ≡ false)) lru
waiting-step shapes s ev [] d h = tt
waiting-step shapes s ev (r ∷ lru) d h = (
  (h.0.0, member-add s.id r.id ev ∙ ground (arith, d.0, h.0.1)),
  waiting-step shapes s ev lru d.1 h.1,
)

is_parked-add :
    (s r : SweepShape) (ev : List Text) → is_parked ev r ≡ false → is_parked (add s.id ev) r ≡ false
is_parked-add s r ev h = ground (arith, member-add s.id r.id ev)

is_parked-add_self : (s : SweepShape) (ev : List Text) → is_parked (add s.id ev) s ≡ false
is_parked-add_self s ev = ground (arith, member-add s.id s.id ev, ==_refl s.id)

pub Queue-step :
    {shapes : List SweepShape} {s : SweepShape} {lru : List SweepShape} {ev : List Text}
    → Queue shapes (s ∷ lru) ev
    → Queue shapes lru (add s.id ev)
Queue-step {shapes} {s} {lru} {ev} q = record {
  waiting = waiting-step shapes s ev lru q.distinct.0 q.waiting.1;
  distinct = q.distinct.1;
  complete =
      All-imp (λ r. (is_parked ev r ≡ false) ⊎ Memᴰ r (s ∷ lru))
        (λ r. (is_parked (add s.id ev) r ≡ false) ⊎ Memᴰ r lru) shapes move q.complete;
}
  where
    move :
        (r : SweepShape)
        → (is_parked ev r ≡ false) ⊎ Memᴰ r (s ∷ lru)
        → (is_parked (add s.id ev) r ≡ false) ⊎ Memᴰ r lru
    move r (inl h) = inl (is_parked-add s r ev h)
    move r (inr (Memᴰ.head e)) =
        inl (subst (λ y. is_parked (add s.id ev) y ≡ false) (sym e) (is_parked-add_self s ev))
    move r (inr (Memᴰ.tail m)) = inr m
