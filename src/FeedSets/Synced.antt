-- ===== src/FeedSets/Synced.antt =====
-- apps/engine/src/subquery.rs: what the decision on one candidate does to the keys in the feed.
use electric_circuits.Prelude.{
  false_true, ℕ, suc, ◌+◌, ◌≤◌, ◌<◌, ◌≡◌, refl, ◌∙◌, sym, ap, inl, inr, Bool, true, false, ◌&&◌,
  Option, none, some, List, [], ◌∷◌, ◌++◌, arith, length, get_elem?, if◌then◌else◌, ◌==◌, ==_eq,
  ==_refl, list_ord, nat_ord, lookup, lookup-insert, Bool-cases, Option-cases, some_inj,
}
use electric_circuits.Value.{ℤ, int_ord, Text}
use electric_circuits.PkDict.Intern.{PkDict, get, get_or_insert, mint, fresh}
use electric_circuits.PkDict.Inverse.{Inverse, Minted, get_or_insert-Minted}
use electric_circuits.FeedSets.FeedSet.{
  Bitmap, BitmapLaws, FeedSet, insert_pk, remove_pk, contains, insert_pk-adds, remove_pk-gate,
}
use electric_circuits.FeedSets.Emission.{
  Registry, Decision, skipped, upserted, deleted, enter, leave, decide,
}

-- The other keys are as before.
other-get_or_insert :
    (pk q : Text) (d : PkDict)
    → (pk == q) ≡ false
    → lookup q (get_or_insert pk d).1.forward ≡ lookup q d.forward
unfolding get_or_insert mint
other-get_or_insert pk q d h = elim (Option-cases (lookup pk d.forward)) [
  | inl e ↦ rw e (rw e (lookup-insert pk q (fresh d) d.forward ∙ rw h refl))
  | inr (id, e) ↦ rw e refl
]

length-snoc : (xs : List Text) (x : Text) → length (xs ++ x ∷ []) ≡ suc (length xs)
length-snoc [] x = refl
length-snoc (y ∷ xs) x = ap suc (length-snoc xs x)

length-get_or_insert :
    (pk : Text) (d : PkDict) → length (get_or_insert pk d).1.reverse ≤ suc (length d.reverse)
unfolding get_or_insert mint
length-get_or_insert pk d = elim (Option-cases (lookup pk d.forward)) [
  | inl e ↦ rw e (rw e (omega (arith, length-snoc d.reverse pk)))
  | inr (id, e) ↦ rw e (omega arith)
]

module _ {R B : Type 0} (bm : Bitmap B) (key : R → Option Text) (matches : R → Bool)
    (feed : ℤ) where
  abbrev known : FeedSet B → Option ℕ → Bool
  known fs none = false
  known fs (some id) = contains bm feed id fs

  -- The key has been delivered and not taken back.
  abbrev pub in_feed : Registry B → Text → Bool
  in_feed r pk = known r.feeds (lookup pk r.dict.forward)

  put_known :
      (fs fs' : FeedSet B) (d : PkDict) (pk : Text) (id : ℕ) (v : Bool)
      → ((f : ℤ) (q : ℕ)
          → contains bm f q fs' ≡ (if (feed == f) && (id == q) then v else contains bm f q fs))
      → Inverse d
      → lookup pk d.forward ≡ some id
      → (q : Text)
      → known fs' (lookup q d.forward) ≡ (if pk == q then v else known fs (lookup q d.forward))
  put_known fs fs' d pk id v put inv h q = elim (Bool-cases (pk == q)) [
    | inl e ↦ rw e (
        ap (λ k. known fs' (lookup k d.forward)) (sym (==_eq pk q e))
        ∙ ap (known fs') h
        ∙ put feed id
        ∙ rw (==_refl feed) (rw (==_refl id) refl))
    | inr e ↦ rw e (other (lookup q d.forward) refl e)
  ]
    where
      same_key : (j : ℕ) → lookup q d.forward ≡ some j → id ≡ j → (pk == q) ≡ true
      same_key j ho e =
          sym (
            ap (λ k. pk == k)
              (some_inj (sym (inv.0 pk id h) ∙ ap (get_elem? d.reverse) e ∙ inv.0 q j ho)))
          ∙ ==_refl pk

      other : (o : Option ℕ) → lookup q d.forward ≡ o → (pk == q) ≡ false → known fs' o ≡ known fs o
      other none ho e = refl
      other (some j) ho e = put feed j ∙ (elim (Bool-cases (id == j)) [
        | inl same ↦ absurd (false_true (sym e ∙ same_key j ho (==_eq id j same)))
        | inr apart ↦ rw (==_refl feed) (rw apart refl)
      ])

  module _ (laws : BitmapLaws bm) where
    in_feed-enter :
        (row : R) (pk q : Text) (r : Registry B)
        → Inverse r.dict
        → length r.dict.reverse < 4294967296
        → in_feed (enter bm key matches feed row pk r).1 q ≡ (if pk == q then true else in_feed r q)
    in_feed-enter row pk q r inv room =
        enter_minted (get_or_insert pk r.dict) (get_or_insert-Minted pk r.dict room inv)
          (other-get_or_insert pk q r.dict)
      where
        enter_minted :
            (m : ℕ × PkDict)
            → Minted pk r.dict m
            → ((pk == q) ≡ false → lookup q m.1.forward ≡ lookup q r.dict.forward)
            → known (insert_pk bm feed m.0 r.feeds).1 (lookup q m.1.forward)
              ≡ (if pk == q then true else in_feed r q)
        enter_minted (id, d) (hi, he, hl, hr) others =
            put_known r.feeds (insert_pk bm feed id r.feeds).1 d pk id true
              (insert_pk-adds bm laws feed id r.feeds).1 hi hl q
            ∙ (elim (Bool-cases (pk == q)) [
              | inl e ↦ rw e refl
              | inr e ↦ rw e (ap (known r.feeds) (others e))
            ])

    in_feed-leave :
        (pk q : Text) (r : Registry B) (id : ℕ)
        → Inverse r.dict
        → lookup pk r.dict.forward ≡ some id
        → in_feed (record r { feeds = (remove_pk bm feed id r.feeds).1 }) q
          ≡ (if pk == q then false else in_feed r q)
    in_feed-leave pk q r id inv h =
        put_known r.feeds (remove_pk bm feed id r.feeds).1 r.dict pk id false
          (remove_pk-gate bm laws feed id r.feeds).1 inv h q

    -- What one decision does to the feed, and the tables of the dictionary.
    abbrev pub Outcome : R × Bool → Registry B → Decision R × Registry B → Type 0
    Outcome c r (skipped, r') = (q : Text) → in_feed r' q ≡ in_feed r q
    Outcome c r (upserted row, r') =
        (row ≡ c.0)
        × ((pk : Text) × (key row ≡ some pk)
            × ((q : Text) → in_feed r' q ≡ (if pk == q then true else in_feed r q)))
    Outcome c r (deleted pk, r') =
        (key c.0 ≡ some pk)
        × (in_feed r pk ≡ true)
        × ((q : Text) → in_feed r' q ≡ (if pk == q then false else in_feed r q))

    abbrev pub Room : ℕ → Registry B → Type 0
    Room n r = Inverse r.dict × (length r.dict.reverse + n < 4294967296)

    leave-Outcome :
        (row : R) (exists : Bool) (pk : Text) (r : Registry B) (o : Option ℕ)
        → Inverse r.dict
        → key row ≡ some pk
        → lookup pk r.dict.forward ≡ o
        → Outcome (row, exists) r (leave bm key matches feed pk r o)
    leave-Outcome row exists pk r none inv hk h = λ q. refl
    leave-Outcome row exists pk r (some id) inv hk h =
        gated (remove_pk bm feed id r.feeds).0 (remove_pk-gate bm laws feed id r.feeds).0
      where
        was : in_feed r pk ≡ contains bm feed id r.feeds
        was = ap (known r.feeds) h

        same :
            (q : Text)
            → in_feed r pk ≡ false
            → (if pk == q then false else in_feed r q) ≡ in_feed r q
        same q e = elim (Bool-cases (pk == q)) [
          | inl eq ↦ rw eq (sym e ∙ ap (in_feed r) (==_eq pk q eq))
          | inr ne ↦ rw ne refl
        ]

        gated :
            (b : Bool)
            → b ≡ contains bm feed id r.feeds
            → Outcome
                (row, exists)
                r
                (
                  if b then deleted pk else skipped,
                  record r { feeds = (remove_pk bm feed id r.feeds).1 },
                )
        gated true e = (hk, was ∙ sym e, λ q. in_feed-leave pk q r id inv h)
        gated false e = λ q. in_feed-leave pk q r id inv h ∙ same q (was ∙ sym e)

    pub decide-Outcome :
        (n : ℕ) (c : R × Bool) (r : Registry B)
        → Room (suc n) r
        → Outcome c r (decide bm key matches feed c r)
    unfolding decide
    decide-Outcome n (row, exists) r (inv, room) = elim (Option-cases (key row)) [
      | inl none_key ↦ rw none_key (λ q. refl)
      | inr (pk, hk) ↦ rw hk (verdict pk hk (exists && matches row))
    ]
      where
        verdict :
            (pk : Text)
            → key row ≡ some pk
            → (b : Bool)
            → Outcome
                (row, exists)
                r
                (if b
                  then enter bm key matches feed row pk r
                  else leave bm key matches feed pk r (get pk r.dict))
        verdict pk hk true = (refl, (pk, hk, λ q. in_feed-enter row pk q r inv (omega arith)))
        verdict pk hk false = leave-Outcome row exists pk r (get pk r.dict) inv hk refl

    pub decide-Room :
        (n : ℕ) (c : R × Bool) (r : Registry B)
        → Room (suc n) r
        → Room n (decide bm key matches feed c r).1
    unfolding decide
    decide-Room n (row, exists) r (inv, room) = elim (Option-cases (key row)) [
      | inl none_key ↦ rw none_key (inv, omega arith)
      | inr (pk, hk) ↦ rw hk (verdict pk (exists && matches row))
    ]
      where
        probed : (pk : Text) (o : Option ℕ) → Room n (leave bm key matches feed pk r o).1
        probed pk none = (inv, omega arith)
        probed pk (some id) = (inv, omega arith)

        verdict :
            (pk : Text) (b : Bool)
            → Room n
                (if b
                  then enter bm key matches feed row pk r
                  else leave bm key matches feed pk r (get pk r.dict)).1
        verdict pk true = (
          (get_or_insert-Minted pk r.dict (omega arith) inv).0,
          omega (arith, length-get_or_insert pk r.dict),
        )
        verdict pk false = probed pk (get pk r.dict)
