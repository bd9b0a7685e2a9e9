-- ===== src/ChangeLog/Deletable.antt =====
-- apps/engine/src/changelog.rs, `plan_segment_deletion`: what is deleted is exactly what nothing
-- needs.
use electric_circuits.Prelude.{
  ℕ, ◌+◌, ◌-◌, ◌≤◌, ◌<◌, ◌≡◌, ◌↔◌, refl, Bool, true, false, not, ◌&&◌, Option, none, some, List, [],
  ◌∷◌, filter, ltb, leb, Map, lookup, nat_ord, All, Memᴰ, All-mem, Memᴰ-filter, Memᴰ-of_filter,
  Memᴰ-map, All-of, and_split, not_true, Bool-cases, inl, inr, arith, ltb→lt, lt→ltb, leb→le,
}
use electric_circuits.Value.{Text}
use electric_circuits.ChangeLog.Deletion.{
  SegmentPin, rotated_out_at, past, stale, min_needed, keys, plan_segment_deletion,
}

lt-min_needed :
    (n checkpoint : ℕ) (pins : List SegmentPin)
    → (n < min_needed checkpoint pins) ↔ ((n < checkpoint) × All (λ pin. n < pin.segment) pins)
unfolding min_needed
lt-min_needed n checkpoint [] = (λ h. (h, tt), λ h. h.0)
lt-min_needed n checkpoint (pin ∷ pins) =
    let (to, from) = lt-min_needed n checkpoint pins in
    (
      λ h. ((to (omega arith)).0, (omega arith, (to (omega arith)).1)),
      λ h. omega (arith, from (h.0, h.1.1), h.1.0),
    )

module _ (segments : Map ℕ ℕ) (current checkpoint : ℕ) (pins : List SegmentPin)
    (retain now : ℕ) where
  -- Nothing needs the segment: it is below the current one, the checkpoint, and the segment of every
  -- pin that is not stale.
  abbrev pub Unneeded : ℕ → Type 0
  Unneeded n =
      (n < current)
      × (n < checkpoint)
      × ((pin : SegmentPin)
          → Memᴰ pin pins
          → stale segments current retain now pin ≡ false
          → n < pin.segment)

  abbrev kept : SegmentPin → Bool
  kept pin = not (stale segments current retain now pin)

  abbrev deletable : ℕ → Bool
  deletable n = ltb n (min_needed checkpoint (filter kept pins)) && ltb n current

  deletable_sound : (n : ℕ) → deletable n ≡ true → Unneeded n
  deletable_sound n h =
      let (hm, hc) =
        and_split (ltb n (min_needed checkpoint (filter kept pins))) (ltb n current) h in
      let (hk, all) =
        (lt-min_needed n checkpoint (filter kept pins)).0
          (ltb→lt n (min_needed checkpoint (filter kept pins)) hm) in
      (
        ltb→lt n current hc,
        hk,
        λ pin m fresh.
            All-mem (λ q. n < q.segment) (filter kept pins) all
              (Memᴰ-filter kept pin pins (rw fresh refl) m),
      )

  deletable_complete : (n : ℕ) → Unneeded n → deletable n ≡ true
  deletable_complete n (hc, hk, hp) =
      rw
        (
          lt→ltb n current hc,
          lt→ltb n (min_needed checkpoint (filter kept pins)) (
              (lt-min_needed n checkpoint (filter kept pins)).1 (
                hk,
                All-of (λ q. n < q.segment) (filter kept pins)
                    (λ pin m.
                      let (mp, h) = Memᴰ-of_filter kept pin pins m in
                      hp pin mp (not_true (stale segments current retain now pin) h)),
              )),
        )
        refl

  -- A segment is deleted exactly where it is known, below the current one and the checkpoint, and
  -- below the segment of every pin that is not stale.
  pub plan_segment_deletion-exact :
      (n : ℕ)
      → Memᴰ n (plan_segment_deletion segments current checkpoint pins retain now).delete
        ↔ (Memᴰ n (keys segments) × Unneeded n)
  unfolding plan_segment_deletion
  plan_segment_deletion-exact n = (
    λ m. let (mk, h) = Memᴰ-of_filter deletable n (keys segments) m in (mk, deletable_sound n h),
    λ (mk, h). Memᴰ-filter deletable n (keys segments) (deletable_complete n h) mk,
  )

  past_cases :
      (o : Option ℕ) → past retain now o ≡ true → (at : ℕ) × (o ≡ some at) × (retain ≤ now - at)
  past_cases none h = absurd (ground arith)
  past_cases (some at) h = (at, refl, leb→le retain (now - at) h)

  rotated_out_at_cases :
      (n at : ℕ)
      → rotated_out_at segments current n ≡ some at
      → (n < current) × (lookup (n + 1) segments ≡ some at)
  unfolding rotated_out_at
  rotated_out_at_cases n at h = elim (Bool-cases (leb current n)) [
    | inl e ↦ absurd (ground arith)
    | inr e ↦ (ground arith, rw e at h)
  ]

  stale_cases :
      (pin : SegmentPin)
      → stale segments current retain now pin ≡ true
      → (pin.evictable ≡ true)
        × (pin.segment < current)
        × (at : ℕ) × (lookup (pin.segment + 1) segments ≡ some at)
        × (0 < retain)
        × (retain ≤ now - at)
  unfolding stale
  stale_cases pin h =
      let (h2, hp) =
        and_split (pin.evictable && ltb 0 retain)
          (past retain now (rotated_out_at segments current pin.segment)) h in
      let (he, hr) = and_split pin.evictable (ltb 0 retain) h2 in
      let (at, ho, ha) = past_cases (rotated_out_at segments current pin.segment) hp in
      let (hc, hl) = rotated_out_at_cases pin.segment at ho in
      (he, hc, at, hl, ltb→lt 0 retain hr, ha)

  -- A shape is evicted only for a pin of it that is evictable, on a segment below the current one
  -- whose successor began at least the retain window ago, where the window is not zero.
  pub plan_segment_deletion-evicts :
      (id : Text)
      → Memᴰ id (plan_segment_deletion segments current checkpoint pins retain now).evict
      → (pin : SegmentPin) × (at : ℕ) × Memᴰ pin pins
        × (pin.shape_id ≡ id)
        × (pin.evictable ≡ true)
        × (pin.segment < current)
        × (lookup (pin.segment + 1) segments ≡ some at)
        × (0 < retain)
        × (retain ≤ now - at)
  unfolding plan_segment_deletion
  plan_segment_deletion-evicts id m =
      let (pin, mf, e) =
        Memᴰ-map (λ q. q.shape_id) id (filter (stale segments current retain now) pins) m in
      let (mp, h) = Memᴰ-of_filter (stale segments current retain now) pin pins mf in
      let (he, hc, at, hl, hr, hp) = stale_cases pin h in (pin, at, mp, e, he, hc, hl, hr, hp)
