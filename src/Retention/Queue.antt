-- ===== src/Retention/Queue.antt =====
-- The queue of dormant shapes that apps/engine/src/retention.rs draws from: the sort keeps the
-- shapes, and every parked shape is in it.
use electric_circuits.Prelude.{
  ◌≡◌, ◌⊎◌, inl, inr, refl, Bool, true, false, List, [], ◌∷◌, arith, filter, All, All-imp, All-both,
  All-filter, All-filter_test, All-Memᴰ, Memᴰ, member, Bool-cases, leb, list_ord, nat_ord,
}
use electric_circuits.Value.{Text}
use electric_circuits.Retention.{Sweep, SweepShape, insert_idle, sort_idle, is_parked, lru_of}
use electric_circuits.Retention.Survivors.{Other, Other-sym, DistinctIds, Queue}

module _ (P : SweepShape → Type 0) where
  All-insert_idle :
      (s : SweepShape) (rs : List SweepShape) → P s → All P rs → All P (insert_idle s rs)
  unfolding insert_idle
  All-insert_idle s [] h hs = (h, tt)
  All-insert_idle s (r ∷ rs) h hs = elim (Bool-cases (leb r.idle s.idle)) [
    | inl e ↦ rw e (h, hs)
    | inr e ↦ rw e (hs.0, All-insert_idle s rs h hs.1)
  ]

  pub All-sort_idle : (rs : List SweepShape) → All P rs → All P (sort_idle rs)
  unfolding sort_idle
  All-sort_idle [] h = tt
  All-sort_idle (r ∷ rs) h = All-insert_idle r (sort_idle rs) h.0 (All-sort_idle rs h.1)

insert_idle-DistinctIds :
    (s : SweepShape) (rs : List SweepShape)
    → All (Other s) rs
    → DistinctIds rs
    → DistinctIds (insert_idle s rs)
unfolding insert_idle
insert_idle-DistinctIds s [] h d = (tt, tt)
insert_idle-DistinctIds s (r ∷ rs) h d = elim (Bool-cases (leb r.idle s.idle)) [
  | inl e ↦ rw e (h, d)
  | inr e ↦
      rw e (
        All-insert_idle (Other r) s rs (Other-sym s r h.0) d.0,
        insert_idle-DistinctIds s rs h.1 d.1,
      )
]

sort_idle-DistinctIds : (rs : List SweepShape) → DistinctIds rs → DistinctIds (sort_idle rs)
unfolding sort_idle
sort_idle-DistinctIds [] d = tt
sort_idle-DistinctIds (r ∷ rs) d =
    insert_idle-DistinctIds r (sort_idle rs) (All-sort_idle (Other r) rs d.0)
      (sort_idle-DistinctIds rs d.1)

filter-DistinctIds :
    (p : SweepShape → Bool) (rs : List SweepShape) → DistinctIds rs → DistinctIds (filter p rs)
filter-DistinctIds p [] d = tt
filter-DistinctIds p (r ∷ rs) d = elim (Bool-cases (p r)) [
  | inl e ↦ rw e (All-filter (Other r) p rs d.0, filter-DistinctIds p rs d.1)
  | inr e ↦ rw e (filter-DistinctIds p rs d.1)
]

insert_idle-here : (s : SweepShape) (rs : List SweepShape) → Memᴰ s (insert_idle s rs)
unfolding insert_idle
insert_idle-here s [] = Memᴰ.head refl
insert_idle-here s (r ∷ rs) = elim (Bool-cases (leb r.idle s.idle)) [
  | inl e ↦ rw e (Memᴰ.head refl)
  | inr e ↦ rw e (Memᴰ.tail (insert_idle-here s rs))
]

insert_idle-there :
    (a s : SweepShape) (rs : List SweepShape) → Memᴰ a rs → Memᴰ a (insert_idle s rs)
unfolding insert_idle
insert_idle-there a s [] m = elim m [ ]
insert_idle-there a s (r ∷ rs) (Memᴰ.head h) = elim (Bool-cases (leb r.idle s.idle)) [
  | inl e ↦ rw e (Memᴰ.tail (Memᴰ.head h))
  | inr e ↦ rw e (Memᴰ.head h)
]
insert_idle-there a s (r ∷ rs) (Memᴰ.tail m) =
    let rest = insert_idle-there a s rs m in
    elim (Bool-cases (leb r.idle s.idle)) [
      | inl e ↦ rw e (Memᴰ.tail (Memᴰ.tail m))
      | inr e ↦ rw e (Memᴰ.tail rest)
    ]

mem-sort_idle : (a : SweepShape) (rs : List SweepShape) → Memᴰ a rs → Memᴰ a (sort_idle rs)
unfolding sort_idle
mem-sort_idle a [] m = elim m [ ]
mem-sort_idle a (r ∷ rs) (Memᴰ.head e) = rw e (insert_idle-here r (sort_idle rs))
mem-sort_idle a (r ∷ rs) (Memᴰ.tail m) = insert_idle-there a r (sort_idle rs) (mem-sort_idle a rs m)

mem-filter :
    (p : SweepShape → Bool) (a : SweepShape) (rs : List SweepShape)
    → Memᴰ a rs
    → (p a ≡ false) ⊎ Memᴰ a (filter p rs)
mem-filter p a [] m = elim m [ ]
mem-filter p a (r ∷ rs) (Memᴰ.head h) = elim (Bool-cases (p r)) [
  | inl e ↦ rw e (inr (Memᴰ.head h))
  | inr e ↦ rw h (inl e)
]
mem-filter p a (r ∷ rs) (Memᴰ.tail m) =
    let rest = mem-filter p a rs m in
    elim (Bool-cases (p r)) [ inl e ↦ rw e (step rest) | inr e ↦ rw e rest ]
  where
    step : (p a ≡ false) ⊎ Memᴰ a (filter p rs) → (p a ≡ false) ⊎ Memᴰ a (r ∷ filter p rs)
    step (inl e) = inl e
    step (inr m) = inr (Memᴰ.tail m)

is_parked-waits : (ev : List Text) (s : SweepShape) → is_parked ev s ≡ true → member s.id ev ≡ false
is_parked-waits ev s h = ground arith

pub lru_of-Queue :
    (st : Sweep) (shapes : List SweepShape)
    → DistinctIds shapes
    → Queue shapes (lru_of st shapes) st.evicted
unfolding lru_of
lru_of-Queue st shapes d =
    let p = is_parked st.evicted in
    record {
      waiting =
          All-sort_idle (λ s. Memᴰ s shapes × (member s.id st.evicted ≡ false)) (filter p shapes)
            (All-both (λ s. Memᴰ s shapes) (λ s. member s.id st.evicted ≡ false) (filter p shapes)
              (All-filter (λ s. Memᴰ s shapes) p shapes (All-Memᴰ shapes))
              (All-imp (λ s. p s ≡ true) (λ s. member s.id st.evicted ≡ false) (filter p shapes)
                (is_parked-waits st.evicted) (All-filter_test p shapes)));
      distinct = sort_idle-DistinctIds (filter p shapes) (filter-DistinctIds p shapes d);
      complete =
          All-imp (λ s. Memᴰ s shapes) (λ s. (p s ≡ false) ⊎ Memᴰ s (sort_idle (filter p shapes)))
            shapes queued (All-Memᴰ shapes);
    }
  where
    sorted :
        (s : SweepShape)
        → (is_parked st.evicted s ≡ false) ⊎ Memᴰ s (filter (is_parked st.evicted) shapes)
        → (is_parked st.evicted s ≡ false)
          ⊎ Memᴰ s (sort_idle (filter (is_parked st.evicted) shapes))
    sorted s (inl e) = inl e
    sorted s (inr m) = inr (mem-sort_idle s (filter (is_parked st.evicted) shapes) m)

    queued :
        (s : SweepShape)
        → Memᴰ s shapes
        → (is_parked st.evicted s ≡ false)
          ⊎ Memᴰ s (sort_idle (filter (is_parked st.evicted) shapes))
    queued s m = sorted s (mem-filter (is_parked st.evicted) s shapes m)
