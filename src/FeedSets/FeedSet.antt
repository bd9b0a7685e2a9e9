-- ===== src/FeedSets/FeedSet.antt =====
-- apps/engine/src/subq_feed.rs, `FeedSet`: a bitmap of key ids for each feed. The bitmaps of the
-- roaring crate are an interface.
use electric_circuits.Prelude.{
  ℕ, ◌≡◌, refl, ◌∙◌, Bool, true, false, not, ◌&&◌, Option, none, some, ◌==◌, ==_eq, nat_ord, inl,
  inr, ap, sym, arith, if◌then◌else◌, Map, lookup, insert, remove, lookup-insert, lookup-remove,
  Bool-cases,
}
use electric_circuits.Value.{ℤ, int_ord}

-- The operations of a bitmap that the feeds call; `insert` and `remove` say whether they changed it.
pub record Bitmap (B : Type 0) : Type 0 where
  pub empty : B
  pub contains : B → ℕ → Bool
  pub insert_id : ℕ → B → Bool × B
  pub remove_id : ℕ → B → Bool × B

-- Their documented behaviour: that of a set.
pub record BitmapLaws {B : Type 0} (bm : Bitmap B) : Type 0 where
  pub contains_empty : (q : ℕ) → bm.contains bm.empty q ≡ false
  pub contains_insert :
      (id q : ℕ) (b : B)
      → bm.contains (bm.insert_id id b).1 q ≡ (if id == q then true else bm.contains b q)
  pub insert_new : (id : ℕ) (b : B) → (bm.insert_id id b).0 ≡ not (bm.contains b id)
  pub contains_remove :
      (id q : ℕ) (b : B)
      → bm.contains (bm.remove_id id b).1 q ≡ (if id == q then false else bm.contains b q)
  pub remove_present : (id : ℕ) (b : B) → (bm.remove_id id b).0 ≡ bm.contains b id

abbrev pub FeedSet : Type 0 → Type 0
FeedSet B = Map ℤ B

both : (a b : Bool) → (a && b) ≡ true → a ≡ true
both a b h = ground arith

module _ {B : Type 0} (bm : Bitmap B) where
  -- `entry(feed_id).or_default()`
  abbrev pub or_default : Option B → B
  or_default none = bm.empty
  or_default (some b) = b

  unfoldable pub insert_pk : ℤ → ℕ → FeedSet B → Bool × FeedSet B
  insert_pk feed pk fs =
      let r = bm.insert_id pk (or_default (lookup feed fs)) in (r.0, insert feed r.1 fs)

  abbrev pub remove_found : ℤ → ℕ → FeedSet B → Option B → Bool × FeedSet B
  remove_found feed pk fs none = (false, fs)
  remove_found feed pk fs (some b) = let r = bm.remove_id pk b in (r.0, insert feed r.1 fs)

  unfoldable pub remove_pk : ℤ → ℕ → FeedSet B → Bool × FeedSet B
  remove_pk feed pk fs = remove_found feed pk fs (lookup feed fs)

  abbrev pub contains_in : Option B → ℕ → Bool
  contains_in none pk = false
  contains_in (some b) pk = bm.contains b pk

  abbrev pub contains : ℤ → ℕ → FeedSet B → Bool
  contains feed pk fs = contains_in (lookup feed fs) pk

  unfoldable pub drop_feed : ℤ → FeedSet B → FeedSet B
  drop_feed feed fs = remove feed fs

  module _ (laws : BitmapLaws bm) where
    or_default-contains : (o : Option B) (q : ℕ) → bm.contains (or_default o) q ≡ contains_in o q
    or_default-contains none q = laws.contains_empty q
    or_default-contains (some b) q = refl

    -- The feed `feed` answers by `b`, the others as before.
    contains-put :
        (feed f : ℤ) (b : B) (q : ℕ) (fs : FeedSet B)
        → contains f q (insert feed b fs) ≡ (if feed == f then bm.contains b q else contains f q fs)
    contains-put feed f b q fs =
        ap (λ o. contains_in o q) (lookup-insert feed f b fs) ∙ branch (feed == f)
      where
        branch :
            (same : Bool)
            → contains_in (if same then some b else lookup f fs) q
              ≡ (if same then bm.contains b q else contains f q fs)
        branch true = refl
        branch false = refl

    put_lem :
        (feed f : ℤ) (b : B) (pk q : ℕ) (v : Bool) (fs : FeedSet B)
        → bm.contains b q ≡ (if pk == q then v else contains feed q fs)
        → contains f q (insert feed b fs)
          ≡ (if (feed == f) && (pk == q) then v else contains f q fs)
    put_lem feed f b pk q v fs h = contains-put feed f b q fs ∙ (elim (Bool-cases (feed == f)) [
      | inl e ↦ rw e (h ∙ ap (λ g. if pk == q then v else contains g q fs) (==_eq feed f e))
      | inr e ↦ rw e refl
    ])

    -- With bitmaps that behave as sets, an insertion says whether the key was new, and afterwards
    -- exactly the key is added, to that feed only.
    pub insert_pk-adds :
        (feed : ℤ) (pk : ℕ) (fs : FeedSet B)
        → ((insert_pk feed pk fs).0 ≡ not (contains feed pk fs))
          × ((f : ℤ) (q : ℕ)
              → contains f q (insert_pk feed pk fs).1
                ≡ (if (feed == f) && (pk == q) then true else contains f q fs))
    unfolding insert_pk
    insert_pk-adds feed pk fs = (
      laws.insert_new pk (or_default (lookup feed fs))
          ∙ ap not (or_default-contains (lookup feed fs) pk),
      λ f q. put_lem feed f (bm.insert_id pk (or_default (lookup feed fs))).1 pk q true fs (
          laws.contains_insert pk q (or_default (lookup feed fs))
          ∙ ap (λ b. if pk == q then true else b) (or_default-contains (lookup feed fs) q)),
    )

    remove_found-gate :
        (feed : ℤ) (pk : ℕ) (fs : FeedSet B) (o : Option B)
        → lookup feed fs ≡ o
        → ((remove_found feed pk fs o).0 ≡ contains feed pk fs)
          × ((f : ℤ) (q : ℕ)
              → contains f q (remove_found feed pk fs o).1
                ≡ (if (feed == f) && (pk == q) then false else contains f q fs))
    remove_found-gate feed pk fs none h = (
      ap (λ o. contains_in o pk) (sym h),
      λ f q. elim (Bool-cases ((feed == f) && (pk == q))) [
        | inl e ↦ rw e (
            ap (λ g. contains g q fs) (sym (==_eq feed f (both (feed == f) (pk == q) e)))
            ∙ ap (λ o. contains_in o q) h)
        | inr e ↦ rw e refl
      ],
    )
    remove_found-gate feed pk fs (some b) h = (
      laws.remove_present pk b ∙ ap (λ o. contains_in o pk) (sym h),
      λ f q. put_lem feed f (bm.remove_id pk b).1 pk q false fs (
          laws.contains_remove pk q b
          ∙ ap (λ o. if pk == q then false else contains_in o q) (sym h)),
    )

    -- With bitmaps that behave as sets, a removal says whether the feed had the key, so that a
    -- delete is emitted exactly then, and afterwards exactly the key is gone, from that feed only.
    pub remove_pk-gate :
        (feed : ℤ) (pk : ℕ) (fs : FeedSet B)
        → ((remove_pk feed pk fs).0 ≡ contains feed pk fs)
          × ((f : ℤ) (q : ℕ)
              → contains f q (remove_pk feed pk fs).1
                ≡ (if (feed == f) && (pk == q) then false else contains f q fs))
    unfolding remove_pk
    remove_pk-gate feed pk fs = remove_found-gate feed pk fs (lookup feed fs) refl

    -- A dropped feed has no key, and the other feeds keep theirs.
    pub contains-drop_feed :
        (feed f : ℤ) (q : ℕ) (fs : FeedSet B)
        → contains f q (drop_feed feed fs) ≡ (if feed == f then false else contains f q fs)
    unfolding drop_feed
    contains-drop_feed feed f q fs =
        ap (λ o. contains_in o q) (lookup-remove feed f fs) ∙ branch (feed == f)
      where
        branch :
            (same : Bool)
            → contains_in (if same then none else lookup f fs) q
              ≡ (if same then false else contains f q fs)
        branch true = refl
        branch false = refl
