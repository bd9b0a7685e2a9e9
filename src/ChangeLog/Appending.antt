-- ===== src/ChangeLog/Appending.antt =====
-- apps/engine/src/changelog.rs, `append_commit`: a commit that is acknowledged is in one segment, once.
use electric_circuits.Prelude.{
  ℕ, zero, suc, ◌+◌, ◌-◌, ◌≤◌, ◌<◌, ◌^◌, ◌≡◌, ◌≢◌, inl, inr, refl, ap, sym, ◌∙◌, subst, Bool, true,
  false, Option, none, some, List, ◌∷◌, ◌++◌, nat_cases, nat_split, some_none, arith,
}
use electric_circuits.Envelope.{Envelope}
use electric_circuits.ChangeLog.Position.{next_segment}
use electric_circuits.ChangeLog.Writer.{
  DsClient, Log, Appended, began, begin_segment, begin_all, forward, resolve_forward, try_again,
  appended, append_loop, append_commit, resolve_current,
}
use electric_circuits.ChangeLog.Server.{Server}
use electric_circuits.ChangeLog.Walk.{
  ClosedUpTo, Writable, next_segment_lem, resolve_current-Reached,
}

module _ {S J : Type 0} (ds : DsClient S J) (server : Server S J ds) where
  -- The storage is the one at the start, in status and contents.
  abbrev Same : S → S → Type 0
  Same s t =
      ((m : ℕ) → server.status s m ≡ server.status t m)
      × ((m : ℕ) → server.contents s m ≡ server.contents t m)

  begin_all-storage :
      (clock : ℕ → ℕ) (k n : ℕ) (log : Log S) → (begin_all ds clock k n log).storage ≡ log.storage
  unfolding begin_all
  begin_all-storage clock zero n log = refl
  begin_all-storage clock (suc k) n log =
      begin_all-storage clock k (n + 1) (begin_segment ds n (clock n) log)

  begin_all-current :
      (clock : ℕ → ℕ) (k n : ℕ) (log : Log S)
      → (begin_all ds clock (suc k) n log).state.current ≡ n + k
  unfolding begin_all began
  begin_all-current clock zero n log = omega arith
  begin_all-current clock (suc k) n log =
      begin_all-current clock k (n + 1) (begin_segment ds n (clock n) log) ∙ omega arith

  -- The commit is the last of the contents of the current segment, which was open and is reached from
  -- `lo` over closed segments only; no other segment changed.
  abbrev pub Committed : S → ℕ → List (Envelope J) → Log S → Type 0
  Committed s lo envs log =
      (server.status s log.state.current ≡ some false)
      × ClosedUpTo ds server s lo log.state.current
      × (server.contents log.storage log.state.current
          ≡ server.contents s log.state.current ++ envs)
      × ((m : ℕ) → m ≢ log.state.current → server.contents log.storage m ≡ server.contents s m)

  abbrev Acknowledged : S → ℕ → List (Envelope J) → Bool × Log S → Type 0
  Acknowledged s lo envs (false, log) = Unit
  Acknowledged s lo envs (true, log) = Committed s lo envs log

  abbrev Walked : S → ℕ → Log S → Type 0
  Walked s lo log =
      Same log.storage s
      × (lo ≤ log.state.current)
      × (log.state.current < 4294967295)
      × ClosedUpTo ds server s lo log.state.current

  begin_all-reaches :
      (clock : ℕ → ℕ) (d from to : ℕ) (log : Log S)
      → log.state.current ≡ from
      → to ≡ from + d
      → (begin_all ds clock d (from + 1) log).state.current ≡ to
  unfolding begin_all
  begin_all-reaches clock zero from to log hc ht = omega arith
  begin_all-reaches clock (suc k) from to log hc ht =
      begin_all-current clock k (from + 1) log ∙ omega arith

  forward_current :
      (clock : ℕ → ℕ) (to : ℕ) (log : Log S)
      → log.state.current < 4294967295
      → log.state.current ≤ to
      → (forward ds clock (some to) log).1.state.current ≡ to
  forward_current clock to log hb hle =
      ap (λ n. (begin_all ds clock (to + 1 - n) n log).state.current)
        (next_segment_lem ds server log.storage log.state.current hb)
      ∙ begin_all-reaches clock (to + 1 - (log.state.current + 1)) log.state.current to log refl
          (omega arith)

  below_absent :
      (s : S) (to : ℕ)
      → server.status s 4294967295 ≡ none
      → server.status s to ≡ some false
      → to < 2 ^ 32
      → to < 4294967295
  below_absent s to top ho hb = elim (nat_cases to 4294967295 (omega arith)) [
    | inl e ↦ absurd (some_none (sym ho ∙ ap (server.status s) e ∙ top))
    | inr lt ↦ lt
  ]

  Writable-open :
      (s : S) (from to : ℕ) → Writable ds server s from true to → server.status s to ≡ some false
  Writable-open s from to (inl h) = h
  Writable-open s from to (inr h) = absurd (ground (arith, h.2))

  joined :
      (s t : S) (lo mid to : ℕ)
      → Same t s
      → ClosedUpTo ds server s lo mid
      → ClosedUpTo ds server t mid to
      → ClosedUpTo ds server s lo to
  joined s t lo mid to hs h1 h2 k hk1 hk2 = elim (nat_split k mid) [
    | inl lt ↦ h1 k hk1 lt
    | inr le ↦ sym (hs.0 k) ∙ h2 k le hk2
  ]

  walk_on :
      (s : S) (lo to : ℕ) (clock : ℕ → ℕ) (log : Log S)
      → server.status s 4294967295 ≡ none
      → Walked s lo log
      → resolve_current ds log.state.current true log.storage ≡ some to
      → Walked s lo (forward ds clock (some to) log).1
  walk_on s lo to clock log top (hs, hl, hb, hk) er =
      let (hle, hlt, hcl, hw) =
        resolve_current-Reached ds server log.storage log.state.current to true
          (λ e. some_none (sym e ∙ hs.0 4294967295 ∙ top)) (omega arith) er in
      let ho = sym (hs.0 to) ∙ Writable-open log.storage log.state.current to hw in
      let hc = forward_current clock to log hb hle in
      let first = next_segment log.state.current in
      let store = begin_all-storage clock (to + 1 - first) first log in
      (
        (
          λ m. ap (λ t. server.status t m) store ∙ hs.0 m,
          λ m. ap (λ t. server.contents t m) store ∙ hs.1 m,
        ),
        omega arith,
        omega (arith, below_absent s to top ho hlt),
        subst (ClosedUpTo ds server s lo) (sym hc)
            (joined s log.storage lo log.state.current to hs hk hcl),
      )

  forward-Walked :
      (s : S) (lo : ℕ) (clock : ℕ → ℕ) (log : Log S) (r : Option ℕ) (next : Log S → Bool × Log S)
      (envs : List (Envelope J))
      → server.status s 4294967295 ≡ none
      → Walked s lo log
      → resolve_current ds log.state.current true log.storage ≡ r
      → ((log' : Log S) → Walked s lo log' → Acknowledged s lo envs (next log'))
      → Acknowledged s lo envs (try_again ds next (forward ds clock r log))
  forward-Walked s lo clock log none next envs top hw er f = tt
  forward-Walked s lo clock log (some to) next envs top hw er f =
      f (forward ds clock (some to) log).1 (walk_on s lo to clock log top hw er)

  -- What the server says of an append, by its answer.
  appended-Acknowledged :
      (s : S) (lo : ℕ) (clock : ℕ → ℕ) (log : Log S) (envs : List (Envelope J))
      (next : Log S → Bool × Log S) (r : Option Appended × S)
      → server.status s 4294967295 ≡ none
      → Walked s lo log
      → ds.append_checked log.state.current envs log.storage ≡ r
      → ((log' : Log S) → Walked s lo log' → Acknowledged s lo envs (next log'))
      → Acknowledged s lo envs (appended ds next clock log r)
  unfolding resolve_forward
  appended-Acknowledged s lo clock log envs next (none, t) top hw er f = tt
  appended-Acknowledged s lo clock log envs next (some (Appended.ok o), t) top (hs, hl, hb, hk) er
        f =
      let n = log.state.current in
      let (ho, hc) = server.checked_open n envs log.storage o (ap (λ p. p.0) er) in
      (
        sym (hs.0 n) ∙ ho,
        hk,
        sym (ap (λ p. server.contents p.1 n) er) ∙ hc ∙ ap (◌++ envs) (hs.1 n),
        λ m ne.
            sym (ap (λ p. server.contents p.1 m) er)
            ∙ server.checked_other n m envs log.storage ne
            ∙ hs.1 m,
      )
  appended-Acknowledged s lo clock log envs next (some (Appended.retired code), t) top
        (hs, hl, hb, hk) er f =
      forward-Walked s lo clock (record log { storage = t })
        (resolve_current ds log.state.current true t) next envs top
        (
          (
            λ m.
                sym (ap (λ p. server.status p.1 m) er)
                ∙ server.checked_status log.state.current m envs log.storage
                ∙ hs.0 m,
            λ m.
                sym (ap (λ p. server.contents p.1 m) er)
                ∙ server.checked_retired log.state.current m envs log.storage code
                    (ap (λ p. p.0) er)
                ∙ hs.1 m,
          ),
          hl,
          hb,
          hk,
        )
        refl f

  acknowledged :
      (s : S) (lo : ℕ) (envs : List (Envelope J)) (r : Bool × Log S)
      → r.0 ≡ true
      → Acknowledged s lo envs r
      → Committed s lo envs r.1
  acknowledged s lo envs (false, log) h k = absurd (ground arith)
  acknowledged s lo envs (true, log) h k = k

  append_loop-Acknowledged :
      (s : S) (lo : ℕ) (clock : ℕ → ℕ) (n : ℕ) (envs : List (Envelope J)) (log : Log S)
      → server.status s 4294967295 ≡ none
      → Walked s lo log
      → Acknowledged s lo envs (append_loop ds clock n envs log)
  unfolding append_loop
  append_loop-Acknowledged s lo clock zero envs log top hw = tt
  append_loop-Acknowledged s lo clock (suc n) envs log top hw =
      appended-Acknowledged s lo clock log envs (append_loop ds clock n envs)
        (ds.append_checked log.state.current envs log.storage) top hw refl
        (λ log' hw'. append_loop-Acknowledged s lo clock n envs log' top hw')

  -- A commit of at least one envelope that is acknowledged, where the last segment that a `u32` can
  -- name does not exist, is appended once, at the end of the segment that is then current; that
  -- segment was open and is reached from the earlier current one over closed segments only, and no
  -- other segment changed.
  pub append_commit-Committed :
      (clock : ℕ → ℕ) (env : Envelope J) (envs : List (Envelope J)) (log : Log S)
      → log.state.current < 4294967295
      → server.status log.storage 4294967295 ≡ none
      → (append_commit ds clock (env ∷ envs) log).0 ≡ true
      → Committed log.storage log.state.current
          (env ∷ envs)
          (append_commit ds clock (env ∷ envs) log).1
  unfolding append_commit
  append_commit-Committed clock env envs log hb top h =
      acknowledged log.storage log.state.current (env ∷ envs)
        (append_loop ds clock 8 (env ∷ envs) log) h
        (append_loop-Acknowledged log.storage log.state.current clock 8 (env ∷ envs) log top
          ((λ m. refl, λ m. refl), omega arith, hb, λ k h1 h2. absurd (omega arith)))
