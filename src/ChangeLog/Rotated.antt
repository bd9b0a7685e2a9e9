-- ===== src/ChangeLog/Rotated.antt =====
-- apps/engine/src/changelog.rs, `rotate`: what a rotation that succeeds has done.
use electric_circuits.Prelude.{
  ℕ, ◌+◌, ◌<◌, ◌≡◌, ◌≢◌, inl, inr, refl, ap, sym, ◌∙◌, subst, Bool, true, false, Option, some, [],
  ◌∷◌, arith,
}
use electric_circuits.ChangeLog.Position.{next_segment, Pointer, rotation_envelope}
use electric_circuits.ChangeLog.Writer.{
  began, DsClient, Log, closed_step, pointed_step, ensured_step, rotate,
}
use electric_circuits.ChangeLog.Server.{Server}
use electric_circuits.ChangeLog.Walk.{next_segment_lem}
use electric_circuits.ChangeLog.Rotation.{
  Resolvable, closed_step-storage, rotate-Resolvable, next_differs,
}

module _ {S J : Type 0} (ds : DsClient S J) (server : Server S J ds) (json : Pointer J) where
  -- The rotation is over: the log moved to `to`, which is recorded.
  abbrev Moved : ℕ → ℕ → Log S → Log S → Type 0
  Moved to at log log' = (log'.state.current ≡ to) × (log'.records ≡ (to, at) ∷ log.records)

  closed_step-moves :
      (to at : ℕ) (log : Log S) (r : Bool × S)
      → (closed_step ds json to at log r).0 ≡ true
      → (r.0 ≡ true) × Moved to at log (closed_step ds json to at log r).1
  unfolding began
  closed_step-moves to at log (false, s) h = absurd (ground arith)
  closed_step-moves to at log (true, s) h = (refl, (refl, refl))

  abbrev Closing : ℕ → ℕ → ℕ → Log S → Log S → S → Type 0
  Closing from to at log log' s =
      ((ds.close_stream from s).0 ≡ true)
      × (log'.storage ≡ (ds.close_stream from s).1)
      × Moved to at log log'

  pointed_step-moves :
      (from to at : ℕ) (log : Log S) (r : Bool × S)
      → (pointed_step ds json from to at log r).0 ≡ true
      → Closing from to at log (pointed_step ds json from to at log r).1 r.1
  pointed_step-moves from to at log (false, s) h = absurd (ground arith)
  pointed_step-moves from to at log (true, s) h =
      let (hc, hm) = closed_step-moves to at log (ds.close_stream from s) h in
      (hc, closed_step-storage ds server json to at log (ds.close_stream from s), hm)

  ensured_step-moves :
      (from to at : ℕ) (log : Log S) (r : Bool × S)
      → (ensured_step ds json from to at log r).0 ≡ true
      → (r.0 ≡ true)
        × Closing from to at log
            (ensured_step ds json from to at log r).1
            (ds.append from (rotation_envelope json to ∷ []) r.1).1
  ensured_step-moves from to at log (false, s) h = absurd (ground arith)
  ensured_step-moves from to at log (true, s) h = (
    refl,
    pointed_step-moves from to at log (ds.append from (rotation_envelope json to ∷ []) s) h,
  )

  true_false : {c : Option Bool} → c ≡ some true → c ≡ some false → ⊥
  true_false h k = cc

  settled :
      (s : S) (from to : ℕ)
      → server.status s from ≡ some true
      → Resolvable ds server json s from to
      → server.status s to ≡ some false
  settled s from to hc (inl ho) = absurd (true_false hc ho)
  settled s from to hc (inr (h, ht)) = ht

  abbrev Rotated : Log S → Log S → ℕ → ℕ → Type 0
  Rotated log log' now to =
      (server.status log'.storage log.state.current ≡ some true)
      × (server.status log'.storage to ≡ some false)
      × (log'.state.current ≡ to)
      × (log'.records ≡ (to, now) ∷ log.records)

  rotate-Rotated :
      (now : ℕ) (log : Log S)
      → next_segment log.state.current ≢ log.state.current
      → server.status log.storage log.state.current ≡ some false
      → server.status log.storage (next_segment log.state.current) ≢ some true
      → (rotate ds json now log).0 ≡ true
      → Rotated log (rotate ds json now log).1 now (next_segment log.state.current)
  unfolding rotate
  rotate-Rotated now log ne ho hn h =
      let from = log.state.current in
      let to = next_segment from in
      let (he, closing) = ensured_step-moves from to now log (ds.ensure_stream to log.storage) h in
      let (hc, hs, moved) = closing in
      let (hcur, hrec) = moved in
      let closed =
        ap (λ s. server.status s from) hs
        ∙ server.close_done from
            (ds.append from (rotation_envelope json to ∷ []) (ds.ensure_stream to log.storage).1).1
            hc in
      (
        closed,
        settled (rotate ds json now log).1.storage from to closed
            (rotate-Resolvable ds server json now log ne ho hn),
        hcur,
        hrec,
      )

  -- A rotation that returns with no error, from an open segment whose successor is not closed, has
  -- closed the segment, left its successor open, made it the current one, and recorded it once.
  pub rotate-moves :
      (now : ℕ) (log : Log S)
      → log.state.current < 4294967295
      → server.status log.storage log.state.current ≡ some false
      → server.status log.storage (log.state.current + 1) ≢ some true
      → (rotate ds json now log).0 ≡ true
      → (server.status (rotate ds json now log).1.storage log.state.current ≡ some true)
        × (server.status (rotate ds json now log).1.storage (log.state.current + 1) ≡ some false)
        × ((rotate ds json now log).1.state.current ≡ log.state.current + 1)
        × ((rotate ds json now log).1.records ≡ (log.state.current + 1, now) ∷ log.records)
  rotate-moves now log hb ho hn h =
      let next = next_segment_lem ds server log.storage log.state.current hb in
      subst (Rotated log (rotate ds json now log).1 now) next (
        rotate-Rotated now log (next_differs ds server json log.state.current hb) ho
          (λ e. hn (sym (ap (server.status log.storage) next) ∙ e)) h)
