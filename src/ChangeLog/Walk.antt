-- ===== src/ChangeLog/Walk.antt =====
-- apps/engine/src/changelog.rs, `resolve_current`: the walk over closed segments stops at the open
-- one, and skips none.
use electric_circuits.Prelude.{
  ℕ, zero, suc, ◌+◌, ◌≤◌, ◌<◌, ◌^◌, ◌≡◌, ◌≢◌, ◌⊎◌, inl, inr, refl, ap, sym, ◌∙◌, subst, Bool, true,
  false, not, ◌&&◌, Option, none, some, Bool-cases, nat_cases, some_inj, some_none, ◌==◌, nat_ord,
  and_split, not_true, ==_eq, arith,
}
use electric_circuits.ChangeLog.Position.{next_segment}
use electric_circuits.ChangeLog.Writer.{
  DsClient, walk_head, found, next_segment_for_reader, resolve_loop, resolve_current,
}
use electric_circuits.ChangeLog.Server.{Server}

module _ {S J : Type 0} (ds : DsClient S J) (server : Server S J ds) (s : S) where
  -- Every segment from `from` up to `to` is closed.
  abbrev pub ClosedUpTo : ℕ → ℕ → Type 0
  ClosedUpTo from to = (k : ℕ) → from ≤ k → k < to → server.status s k ≡ some true

  -- Where the writer is: the open segment, or the first one where nothing was ever written.
  abbrev pub Writable : ℕ → Bool → ℕ → Type 0
  Writable from recorded to =
      (server.status s to ≡ some false)
      ⊎ ((server.status s to ≡ none) × (to ≡ from) × (recorded ≡ false))

  abbrev Reached : ℕ → Bool → ℕ → Option ℕ → Type 0
  Reached from recorded cur none = Unit
  Reached from recorded cur (some to) =
      (cur ≤ to) × (to < 2 ^ 32) × ClosedUpTo cur to × Writable from recorded to

  pub head_some : (n : ℕ) (h : Option Bool) → ds.head n s ≡ some h → server.status s n ≡ h
  head_some n h e = elim (server.head_status n s) [
    | inl hn ↦ absurd (some_none (sym e ∙ hn))
    | inr hs ↦ some_inj (sym hs ∙ e)
  ]

  first_boot :
      (from cur : ℕ) (recorded : Bool)
      → (cur == from && not recorded) ≡ true
      → (cur ≡ from) × (recorded ≡ false)
  first_boot from cur recorded h =
      let (he, hr) = and_split (cur == from) (not recorded) h in
      (==_eq cur from he, not_true recorded hr)

  Reached-back :
      (from cur n : ℕ) (recorded : Bool) (r : Option ℕ)
      → n ≡ cur + 1
      → server.status s cur ≡ some true
      → Reached from recorded n r
      → Reached from recorded cur r
  Reached-back from cur n recorded none en hc h = tt
  Reached-back from cur n recorded (some to) en hc (hn, hb, hk, hw) = (
    omega arith,
    hb,
    λ k h1 h2. elim (nat_cases cur k h1) [ inl e ↦ rw⁻¹ e hc | inr lt ↦ hk k (omega arith) h2 ],
    hw,
  )

  Reached-walk :
      (walk : ℕ → Option ℕ) (next : Option ℕ) (from cur : ℕ) (recorded : Bool)
      (h : Option (Option Bool))
      → ds.head cur s ≡ h
      → cur < 2 ^ 32
      → ((n : ℕ)
          → server.status s cur ≡ some true
          → next ≡ some n
          → (n ≡ cur + 1) × Reached from recorded n (walk n))
      → Reached from recorded cur (walk_head walk next cur (cur == from && not recorded) h)
  Reached-walk walk next from cur recorded none eh hc f = tt
  Reached-walk walk next from cur recorded (some none) eh hc f =
      elim (Bool-cases (cur == from && not recorded)) [
        | inr e ↦ rw e tt
        | inl e ↦ rw e (
          omega arith,
          hc,
          λ k h1 h2. absurd (omega arith),
          inr (
            head_some cur none eh,
            (first_boot from cur recorded e).0,
            (first_boot from cur recorded e).1,
          ),
        )
      ]
  Reached-walk walk next from cur recorded (some (some false)) eh hc f =
      (omega arith, hc, λ k h1 h2. absurd (omega arith), inl (head_some cur (some false) eh))
  Reached-walk walk none from cur recorded (some (some true)) eh hc f = tt
  Reached-walk walk (some n) from cur recorded (some (some true)) eh hc f =
      let (en, hr) = f n (head_some cur (some true) eh) refl in
      Reached-back from cur n recorded (walk n) en (head_some cur (some true) eh) hr

  found-next : (next n : ℕ) (h : Option (Option Bool)) → found next h ≡ some n → n ≡ next
  found-next next n none e = absurd (some_none (sym e))
  found-next next n (some none) e = absurd (some_none (sym e))
  found-next next n (some (some c)) e = sym (some_inj e)

  pub next_segment_lem : (n : ℕ) → n < 4294967295 → next_segment n ≡ n + 1
  next_segment_lem n h = omega arith

  below_top :
      (cur : ℕ)
      → server.status s 4294967295 ≢ some true
      → cur < 2 ^ 32
      → server.status s cur ≡ some true
      → cur < 4294967295
  below_top cur top hc h = elim (nat_cases cur 4294967295 (omega arith)) [
    | inl e ↦ absurd (top (ap (server.status s) (sym e) ∙ h))
    | inr lt ↦ lt
  ]

  resolve_loop-Reached :
      (n from cur : ℕ) (recorded : Bool)
      → server.status s 4294967295 ≢ some true
      → cur < 2 ^ 32
      → Reached from recorded cur (resolve_loop ds n from recorded s cur)
  unfolding resolve_loop next_segment_for_reader
  resolve_loop-Reached zero from cur recorded top hc = tt
  resolve_loop-Reached (suc n) from cur recorded top hc =
      Reached-walk (resolve_loop ds n from recorded s) (next_segment_for_reader ds cur s) from cur
        recorded (ds.head cur s) refl hc
        (λ m hcl hm.
          let em =
            found-next (next_segment cur) m (ds.head (next_segment cur) s) hm
            ∙ next_segment_lem cur (below_top cur top hc hcl) in
          (
            em,
            resolve_loop-Reached n from m recorded top
                (omega (arith, em, below_top cur top hc hcl)),
          ))

  -- Where the last segment that a `u32` can name is not closed, a segment that the walk gives is not
  -- below the one it starts at, is open (or absent, where nothing was ever recorded and the walk did
  -- not move), and every segment before it from the start on is closed: none is skipped.
  pub resolve_current-Reached :
      (from to : ℕ) (recorded : Bool)
      → server.status s 4294967295 ≢ some true
      → from < 2 ^ 32
      → resolve_current ds from recorded s ≡ some to
      → (from ≤ to) × (to < 2 ^ 32) × ClosedUpTo from to × Writable from recorded to
  unfolding resolve_current
  resolve_current-Reached from to recorded top hf h =
      subst (Reached from recorded from) h (resolve_loop-Reached 1000000 from from recorded top hf)

  abbrev pub Answers : Type 0
  Answers = (n : ℕ) → ds.head n s ≢ none

  head_answer : (n : ℕ) → Answers → ds.head n s ≡ some (server.status s n)
  head_answer n answers = elim (server.head_status n s) [
    | inl hn ↦ absurd (answers n hn)
    | inr hs ↦ hs
  ]

  next_present :
      (cur : ℕ) (c : Bool)
      → Answers
      → cur < 4294967295
      → server.status s (cur + 1) ≡ some c
      → next_segment_for_reader ds cur s ≡ some (cur + 1)
  unfolding next_segment_for_reader
  next_present cur c answers hc h =
      ap (λ n. found n (ds.head n s)) (next_segment_lem cur hc)
      ∙ ap (found (cur + 1)) (head_answer (cur + 1) answers ∙ ap some h)

  present :
      (to cur : ℕ)
      → ClosedUpTo (cur + 1) to
      → server.status s to ≡ some false
      → cur < to
      → (c : Bool) × (server.status s (cur + 1) ≡ some c)
  present to cur hk ho lt = elim (nat_cases (cur + 1) to (omega arith)) [
    | inl e ↦ (false, rw e ho)
    | inr lt2 ↦ (true, hk (cur + 1) (omega arith) lt2)
  ]

  resolve_loop-finds :
      (n from cur to : ℕ) (recorded : Bool)
      → Answers
      → cur ≤ to
      → to < cur + n
      → to < 2 ^ 32
      → ClosedUpTo cur to
      → server.status s to ≡ some false
      → resolve_loop ds n from recorded s cur ≡ some to
  unfolding resolve_loop
  resolve_loop-finds zero from cur to recorded answers hle hn hb hk ho = absurd (omega arith)
  resolve_loop-finds (suc n) from cur to recorded answers hle hn hb hk ho =
      elim (nat_cases cur to hle) [
        | inl e ↦
            ap
              (walk_head (resolve_loop ds n from recorded s) (next_segment_for_reader ds cur s) cur
                (cur == from && not recorded))
              (head_answer cur answers ∙ ap some (ap (server.status s) e ∙ ho))
            ∙ ap some e
        | inr lt ↦
            let (c, hp) = present to cur (λ k h1 h2. hk k (omega arith) h2) ho lt in
            ap
              (walk_head (resolve_loop ds n from recorded s) (next_segment_for_reader ds cur s) cur
                (cur == from && not recorded))
              (head_answer cur answers ∙ ap some (hk cur (omega arith) lt))
            ∙ ap
                (λ next.
                  walk_head (resolve_loop ds n from recorded s) next cur
                    (cur == from && not recorded) (some (some true)))
                (next_present cur c answers (omega arith) hp)
            ∙ resolve_loop-finds n from (cur + 1) to recorded answers (omega arith) (omega arith) hb
                (λ k h1 h2. hk k (omega arith) h2) ho
      ]

  -- Where the storage answers, the walk gives the open segment that has a number below 2^32, is less
  -- than a million segments ahead of the start, and from the start up to which every segment is
  -- closed.
  pub resolve_current-finds :
      (from to : ℕ) (recorded : Bool)
      → Answers
      → from ≤ to
      → to < from + 1000000
      → to < 2 ^ 32
      → ClosedUpTo from to
      → server.status s to ≡ some false
      → resolve_current ds from recorded s ≡ some to
  unfolding resolve_current
  resolve_current-finds from to recorded answers hle hn hb hk ho =
      resolve_loop-finds 1000000 from from to recorded answers hle hn hb hk ho
