-- ===== src/ChangeLog/Rotation.antt =====
-- apps/engine/src/changelog.rs, `rotate`: wherever a rotation stops, the walk of the next boot finds
-- the segment to write.
use electric_circuits.Prelude.{
  ℕ, ◌+◌, ◌≤◌, ◌<◌, ◌≡◌, ◌≢◌, ◌⊎◌, inl, inr, refl, ap, sym, ◌∙◌, subst, Bool, true, false, Option,
  some, [], ◌∷◌, arith,
}
use electric_circuits.ChangeLog.Position.{next_segment, Pointer, rotation_envelope}
use electric_circuits.ChangeLog.Writer.{
  DsClient, Log, closed_step, pointed_step, ensured_step, rotate, resolve_current,
}
use electric_circuits.ChangeLog.Server.{Server}
use electric_circuits.ChangeLog.Walk.{Answers, next_segment_lem, resolve_current-finds}

module _ {S J : Type 0} (ds : DsClient S J) (server : Server S J ds) (json : Pointer J) where
  -- The segment is open, or it is closed and the next one is open.
  abbrev pub Resolvable : S → ℕ → ℕ → Type 0
  Resolvable s from to =
      (server.status s from ≡ some false)
      ⊎ ((server.status s from ≡ some true) × (server.status s to ≡ some false))

  pub closed_step-storage :
      (to at : ℕ) (log : Log S) (r : Bool × S) → (closed_step ds json to at log r).1.storage ≡ r.1
  closed_step-storage to at log (false, s) = refl
  closed_step-storage to at log (true, s) = refl

  close_Resolvable :
      (from to : ℕ) (s : S)
      → to ≢ from
      → server.status s from ≡ some false
      → server.status s to ≡ some false
      → Resolvable (ds.close_stream from s).1 from to
  close_Resolvable from to s ne hf ht = elim (server.close_same from s) [
    | inl e ↦ inl (e ∙ hf)
    | inr e ↦ inr (e, server.close_other from to s ne ∙ ht)
  ]

  pointed_step-Resolvable :
      (from to at : ℕ) (log : Log S) (r : Bool × S)
      → to ≢ from
      → server.status r.1 from ≡ some false
      → server.status r.1 to ≡ some false
      → Resolvable (pointed_step ds json from to at log r).1.storage from to
  pointed_step-Resolvable from to at log (false, s) ne hf ht = inl hf
  pointed_step-Resolvable from to at log (true, s) ne hf ht =
      subst (λ z. Resolvable z from to)
        (sym (closed_step-storage to at log (ds.close_stream from s)))
        (close_Resolvable from to s ne hf ht)

  ensured_step-Resolvable :
      (from to at : ℕ) (log : Log S) (r : Bool × S)
      → to ≢ from
      → server.status r.1 from ≡ some false
      → (r.0 ≡ true → server.status r.1 to ≡ some false)
      → Resolvable (ensured_step ds json from to at log r).1.storage from to
  ensured_step-Resolvable from to at log (false, s) ne hf ht = inl hf
  ensured_step-Resolvable from to at log (true, s) ne hf ht =
      pointed_step-Resolvable from to at log (ds.append from (rotation_envelope json to ∷ []) s) ne
        (server.append_status from from (rotation_envelope json to ∷ []) s ∙ hf)
        (server.append_status from to (rotation_envelope json to ∷ []) s ∙ ht refl)

  open_of : (c : Bool) (st : Option Bool) → st ≢ some true → st ≡ some c → st ≡ some false
  open_of true st nt h = absurd (nt h)
  open_of false st nt h = h

  -- A successor that was absent or open is open once it is ensured.
  ensured_open :
      (to : ℕ) (s : S)
      → server.status s to ≢ some true
      → (ds.ensure_stream to s).0 ≡ true
      → server.status (ds.ensure_stream to s).1 to ≡ some false
  ensured_open to s nt ok = elim (server.ensure_same to s) [
    | inr h ↦ h.1
    | inl e ↦
        let (c, hc) = server.ensure_done to s ok in
        e ∙ open_of c (server.status s to) nt (sym e ∙ hc)
  ]

  pub rotate-Resolvable :
      (now : ℕ) (log : Log S)
      → next_segment log.state.current ≢ log.state.current
      → server.status log.storage log.state.current ≡ some false
      → server.status log.storage (next_segment log.state.current) ≢ some true
      → Resolvable
          (rotate ds json now log).1.storage
          log.state.current
          (next_segment log.state.current)
  unfolding rotate
  rotate-Resolvable now log ne hf nt =
      let from = log.state.current in
      let to = next_segment from in
      ensured_step-Resolvable from to now log (ds.ensure_stream to log.storage) ne
        (server.ensure_other to from log.storage (λ e. ne (sym e)) ∙ hf)
        (ensured_open to log.storage nt)

  pub next_differs : (n : ℕ) → n < 4294967295 → next_segment n ≢ n
  next_differs n h e = omega arith

  only : (from k : ℕ) → from ≤ k → k < from + 1 → k ≡ from
  only from k h1 h2 = omega arith

  abbrev Restart : S → ℕ → Type 0
  Restart s from =
      (to : ℕ) × (resolve_current ds from true s ≡ some to)
      × (server.status s to ≡ some false)
      × ((to ≡ from) ⊎ (to ≡ from + 1))

  Resolvable-Restart :
      (s : S) (from : ℕ)
      → from < 4294967295
      → Answers ds server s
      → Resolvable s from (from + 1)
      → Restart s from
  Resolvable-Restart s from hb answers (inl ho) = (
    from,
    resolve_current-finds ds server s from from true answers (omega arith) (omega arith)
        (omega arith) (λ k h1 h2. absurd (omega arith)) ho,
    ho,
    inl refl,
  )
  Resolvable-Restart s from hb answers (inr (hc, ho)) = (
    from + 1,
    resolve_current-finds ds server s from (from + 1) true answers (omega arith) (omega arith)
        (omega arith) (λ k h1 h2. ap (server.status s) (only from k h1 h2) ∙ hc) ho,
    ho,
    inr refl,
  )

  -- Wherever a rotation from an open segment with no closed successor stops, at an error of any of
  -- its calls, which may or may not have taken effect, or at its end, the walk from the old segment
  -- then finds an open segment, where the storage answers: the old one or its successor.
  pub rotate-restarts :
      (now : ℕ) (log : Log S)
      → log.state.current < 4294967295
      → server.status log.storage log.state.current ≡ some false
      → server.status log.storage (log.state.current + 1) ≢ some true
      → Answers ds server (rotate ds json now log).1.storage
      → (to : ℕ) × (resolve_current ds log.state.current true (rotate ds json now log).1.storage
          ≡ some to)
        × (server.status (rotate ds json now log).1.storage to ≡ some false)
        × ((to ≡ log.state.current) ⊎ (to ≡ log.state.current + 1))
  rotate-restarts now log hb ho hn answers =
      let next = next_segment_lem ds server log.storage log.state.current hb in
      Resolvable-Restart (rotate ds json now log).1.storage log.state.current hb answers (
        subst (Resolvable (rotate ds json now log).1.storage log.state.current) next (
          rotate-Resolvable now log (next_differs log.state.current hb) ho
            (λ e. hn (sym (ap (server.status log.storage) next) ∙ e))))
