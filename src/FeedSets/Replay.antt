-- ===== src/FeedSets/Replay.antt =====
-- The emission of apps/engine/src/subquery.rs against a reader that replays the stream.
use electric_circuits.Prelude.{
  true_false, ℕ, ◌+◌, ◌<◌, ◌≡◌, refl, ◌∙◌, sym, ap, inl, inr, Bool, true, false, Option, none, some,
  List, [], ◌∷◌, ◌++◌, map, arith, length, if◌then◌else◌, ◌==◌, ==_eq, list_ord, nat_ord, member,
  Bool-cases,
}
use electric_circuits.Value.{ℤ, Text}
use electric_circuits.PkDict.Inverse.{Inverse}
use electric_circuits.FeedSets.FeedSet.{Bitmap, BitmapLaws}
use electric_circuits.FeedSets.Emission.{
  Registry, Decision, skipped, upserted, deleted, Staged, decide, stage, evaluate, Event, upsert,
  delete_key, events,
}
use electric_circuits.FeedSets.Synced.{in_feed, Outcome, Room, decide-Outcome, decide-Room}

abbrev pub key_is : Text → Option Text → Bool
key_is q none = false
key_is q (some pk) = pk == q

-- The keys that a reader of the stream has.
abbrev pub View : Type 0
View = Text → Bool

split_if : (b x : Bool) → (if b then true else x) ≡ false → (b ≡ false) × (x ≡ false)
split_if b x h = ground arith

upserted_after :
    (m u k old new : Bool)
    → new ≡ (if k then true else old)
    → (if m then false else if (if k then true else u) then true else old)
      ≡ (if m then false else if u then true else new)
upserted_after m u k old new h = ground arith

deleted_after :
    (m u k old new : Bool)
    → new ≡ (if k then false else old)
    → (k ≡ true → u ≡ false)
    → (if (if k then true else m) then false else if u then true else old)
      ≡ (if m then false else if u then true else new)
deleted_after m u true old new h once = ground (arith, once refl)
deleted_after m u false old new h once = ground arith

kept_true :
    (k v old new : Bool) → new ≡ (if k then v else old) → new ≡ true → k ≡ false → old ≡ true
kept_true k v old new h t e = ground arith

if_false_true : (k m : Bool) → k ≡ false → (if k then true else m) ≡ true → m ≡ true
if_false_true k m e h = ground arith

module _ {R : Type 0} (key : R → Option Text) where
  abbrev pub apply : Event R → View → View
  apply (upsert row) v q = if key_is q (key row) then true else v q
  apply (delete_key pk) v q = if pk == q then false else v q

  unfoldable pub replay : List (Event R) → View → View
  replay [] v = v
  replay (e ∷ es) v = replay es (apply e v)

  unfoldable upserts : Text → List R → Bool
  upserts q [] = false
  upserts q (row ∷ rows) = if key_is q (key row) then true else upserts q rows

  unfoldable pub mentions : Text → List (R × Bool) → Bool
  mentions q [] = false
  mentions q (c ∷ cs) = if key_is q (key c.0) then true else mentions q cs

  -- No two candidates have the same key, as in what `latest_rows_by_pk` gives.
  abbrev pub OncePerKey : List (R × Bool) → Type 0
  OncePerKey [] = Unit
  OncePerKey (c ∷ cs) = ((pk : Text) → key c.0 ≡ some pk → mentions pk cs ≡ false) × OncePerKey cs

  replay-deletes :
      (ds : List Text) (v : View) (q : Text)
      → replay (map delete_key ds) v q ≡ (if member q ds then false else v q)
  unfolding replay member
  replay-deletes [] v q = refl
  replay-deletes (pk ∷ ds) v q = ground (arith, replay-deletes ds (apply (delete_key pk) v) q)

  replay-members :
      (rows : List R) (ds : List Text) (v : View) (q : Text)
      → replay (map upsert rows ++ map delete_key ds) v q
        ≡ (if member q ds then false else if upserts q rows then true else v q)
  unfolding replay upserts
  replay-members [] ds v q = replay-deletes ds v q
  replay-members (row ∷ rows) ds v q =
      ground (arith, replay-members rows ds (apply (upsert row) v) q)

  module _ {B : Type 0} (bm : Bitmap B) (laws : BitmapLaws bm) (matches : R → Bool) (feed : ℤ) where
    abbrev run : List (R × Bool) → Registry B → Staged R B
    run cs r = evaluate bm key matches feed cs r

    abbrev Fits : ℕ → Registry B → Type 0
    Fits n r = Room bm key matches feed laws n r

    -- What the staged upserts and deletes leave of the keys.
    abbrev after : Staged R B → View → View
    after s v q = if member q s.deletes then false else if upserts q s.members then true else v q

    -- A key that no candidate has is neither upserted nor deleted.
    abbrev Untouched : Text → Staged R B → Type 0
    Untouched q s = (upserts q s.members ≡ false) × (member q s.deletes ≡ false)

    stage-Untouched :
        (c : R × Bool) (r : Registry B) (d : Decision R × Registry B) (q : Text) (s : Staged R B)
        → Outcome bm key matches feed laws c r d
        → key_is q (key c.0) ≡ false
        → Untouched q s
        → Untouched q (stage bm key matches feed d.0 s)
    unfolding upserts member
    stage-Untouched c r (skipped, r') q s o h u = u
    stage-Untouched c r (upserted row, r') q s (eq, o) h (hu, hd) =
        (rw (ap (λ x. key_is q (key x)) eq) (rw h hu), hd)
    stage-Untouched c r (deleted pk, r') q s (hk, was, o) h (hu, hd) =
        (hu, rw (sym (ap (key_is q) hk) ∙ h) hd)

    run-Untouched :
        (cs : List (R × Bool)) (r : Registry B) (q : Text)
        → Fits (length cs) r
        → mentions q cs ≡ false
        → Untouched q (run cs r)
    unfolding evaluate mentions upserts member
    run-Untouched [] r q fits h = (refl, refl)
    run-Untouched (c ∷ cs) r q fits h =
        stage-Untouched c r (decide bm key matches feed c r) q
          (run cs (decide bm key matches feed c r).1)
          (decide-Outcome bm key matches feed laws (length cs) c r fits)
          (split_if (key_is q (key c.0)) (mentions q cs) h).0
          (run-Untouched cs (decide bm key matches feed c r).1 q
            (decide-Room bm key matches feed laws (length cs) c r fits)
            (split_if (key_is q (key c.0)) (mentions q cs) h).1)

    -- The staged envelopes give the feed's keys, and delete only keys that it had.
    abbrev Synced : Registry B → Staged R B → Type 0
    Synced r s =
        ((q : Text)
          → after s (in_feed bm key matches feed r) q ≡ in_feed bm key matches feed s.registry q)
        × ((q : Text) → member q s.deletes ≡ true → in_feed bm key matches feed r q ≡ true)

    stage-Synced :
        (c : R × Bool) (r : Registry B) (d : Decision R × Registry B) (s : Staged R B)
        → Outcome bm key matches feed laws c r d
        → ((pk : Text) → key c.0 ≡ some pk → Untouched pk s)
        → Synced d.1 s
        → Synced r (stage bm key matches feed d.0 s)
    unfolding upserts member
    stage-Synced c r (skipped, r') s o once h = (
      λ q.
          ap (λ b. if member q s.deletes then false else if upserts q s.members then true else b)
            (sym (o q))
          ∙ h.0 q,
      λ q m. sym (o q) ∙ h.1 q m,
    )
    stage-Synced c r (upserted row, r') s (eq, (pk, hk, o)) once h = (
      λ q.
          rw hk
            (upserted_after (member q s.deletes) (upserts q s.members) (pk == q) _ _ (o q) ∙ h.0 q),
      λ q m. kept_true (pk == q) true _ _ (o q) (h.1 q m) (elim (Bool-cases (pk == q)) [
        | inl e ↦ absurd (
            true_false m (
              ap (λ k. member k s.deletes) (sym (==_eq pk q e))
              ∙ (once pk (ap key (sym eq) ∙ hk)).1))
        | inr e ↦ e
      ]),
    )
    stage-Synced c r (deleted pk, r') s (hk, was, o) once h = (
      λ q.
          deleted_after (member q s.deletes) (upserts q s.members) (pk == q) _ _ (o q)
            (λ e. ap (λ k. upserts k s.members) (sym (==_eq pk q e)) ∙ (once pk hk).0)
          ∙ h.0 q,
      λ q m. elim (Bool-cases (pk == q)) [
        | inl e ↦ ap (in_feed bm key matches feed r) (sym (==_eq pk q e)) ∙ was
        | inr e ↦ kept_true (pk == q) false _ _ (o q) (h.1 q (if_false_true (pk == q) _ e m)) e
      ],
    )

    run-Synced :
        (cs : List (R × Bool)) (r : Registry B)
        → Fits (length cs) r
        → OncePerKey cs
        → Synced r (run cs r)
    unfolding evaluate upserts member
    run-Synced [] r fits once = (λ q. refl, λ q m. absurd (true_false m refl))
    run-Synced (c ∷ cs) r fits once =
        let fits' = decide-Room bm key matches feed laws (length cs) c r fits in
        stage-Synced c r (decide bm key matches feed c r)
          (run cs (decide bm key matches feed c r).1)
          (decide-Outcome bm key matches feed laws (length cs) c r fits)
          (λ pk hk. run-Untouched cs (decide bm key matches feed c r).1 pk fits' (once.0 pk hk))
          (run-Synced cs (decide bm key matches feed c r).1 fits' once.1)

    -- Where the bitmaps behave as sets, the tables of the dictionary are inverse with room for the
    -- candidates, no two candidates have the same key, and a reader has exactly the keys of the
    -- feed: after the emission the reader, having replayed the upserts and then the deletes, has
    -- exactly the keys of the feed again, and each delete is of a key that it had.
    pub evaluate-in_step :
        (cs : List (R × Bool)) (r : Registry B) (view : View)
        → Inverse r.dict
        → length r.dict.reverse + length cs < 4294967296
        → OncePerKey cs
        → ((q : Text) → view q ≡ in_feed bm key matches feed r q)
        → ((q : Text)
            → replay (events (evaluate bm key matches feed cs r)) view q
              ≡ in_feed bm key matches feed (evaluate bm key matches feed cs r).registry q)
          × ((q : Text)
              → member q (evaluate bm key matches feed cs r).deletes ≡ true
              → view q ≡ true)
    unfolding events
    evaluate-in_step cs r view inv room once same =
        let synced = run-Synced cs r (inv, room) once in
        let s = run cs r in
        (
          λ q.
              replay-members s.members s.deletes view q
              ∙ ap
                  (λ b.
                    if member q s.deletes then false else if upserts q s.members then true else b)
                  (same q)
              ∙ synced.0 q,
          λ q m. same q ∙ synced.1 q m,
        )
