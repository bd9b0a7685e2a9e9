-- ===== src/Shutdown/Wait.antt =====
-- apps/engine/src/shutdown.rs, `wait_for_parties`. What a poll sees is a parameter: whether no party
-- is outstanding, and the time. The loop has fuel.
use electric_circuits.Prelude.{
  true_false, ℕ, zero, suc, ◌+◌, ◌*◌, ◌/◌, ◌≤◌, ◌≡◌, refl, ◌∙◌, subst, inl, inr, Bool, true, false,
  Option, none, some, arith, leb, leb→le, nat_cases, if◌then◌else◌, Bool-cases,
}

seen :
    (b l : Bool) (rest : Option Bool)
    → b ≡ true
    → (if b then some true else if l then some false else rest) ≡ some b
seen b l rest e = rw e refl

timed :
    (b l : Bool) (rest : Option Bool)
    → b ≡ false
    → l ≡ true
    → (if b then some true else if l then some false else rest) ≡ some b
timed b l rest e t = rw e (rw t refl)

going :
    (b l : Bool) (rest : Option Bool)
    → b ≡ false
    → l ≡ false
    → (if b then some true else if l then some false else rest) ≡ rest
going b l rest e t = rw e (rw t refl)

at_least : (k : ℕ) → k ≤ k
at_least k = omega arith

too_late : (deadline now : ℕ) → suc now ≤ deadline → deadline ≤ now + 10 * 0 → ⊥
too_late deadline now h l = omega arith

one_sleep :
    (deadline now later fuel : ℕ)
    → now + 10 ≤ later
    → deadline ≤ now + 10 * suc fuel
    → deadline ≤ later + 10 * fuel
one_sleep deadline now later fuel h l = omega arith

module _ (idle : ℕ → Bool) (clock : ℕ → ℕ) where
  -- The poll `k` and those after it, with the milliseconds of `deadline`.
  unfoldable pub wait_loop : ℕ → ℕ → ℕ → Option Bool
  wait_loop zero deadline k = none
  wait_loop (suc fuel) deadline k =
      let rest = wait_loop fuel deadline (suc k) in
      if idle k then some true else if leb deadline (clock k) then some false else rest

  -- A poll follows a sleep of 10 milliseconds, so a round for each and one more suffice.
  abbrev pub wait_for_parties : ℕ → ℕ → Option Bool
  wait_for_parties started timeout = wait_loop (suc (timeout / 10 + 1)) (started + timeout) 0

  -- From the poll `k` on: the wait ends at the poll `j`, the first that saw no party or came at the
  -- deadline.
  abbrev pub Ends : ℕ → ℕ → Option Bool → Type 0
  Ends deadline k o =
      (j : ℕ) × (k ≤ j)
      × (o ≡ some (idle j))
      × (idle j ≡ false → deadline ≤ clock j)
      × ((i : ℕ) → k ≤ i → suc i ≤ j → (idle i ≡ false) × (suc (clock i) ≤ deadline))

  no_between : (k i : ℕ) → k ≤ i → suc i ≤ k → ⊥
  no_between k i h l = omega arith

  late : (deadline now : ℕ) → leb deadline now ≡ false → suc now ≤ deadline
  late deadline now h = ground arith

  -- The poll `k` ends the wait, or it goes on.
  poll-Ends :
      (fuel deadline k : ℕ)
      → (idle k ≡ false
          → leb deadline (clock k) ≡ false
          → Ends deadline k (wait_loop (suc fuel) deadline k))
      → Ends deadline k (wait_loop (suc fuel) deadline k)
  unfolding wait_loop
  poll-Ends fuel deadline k onwards = elim (Bool-cases (idle k)) [
    | inl e ↦ (
      k,
      at_least k,
      seen (idle k) (leb deadline (clock k)) (wait_loop fuel deadline (suc k)) e,
      λ c. absurd (true_false e c),
      λ i a b. absurd (no_between k i a b),
    )
    | inr e ↦ (elim (Bool-cases (leb deadline (clock k))) [
      | inl t ↦ (
        k,
        at_least k,
        timed (idle k) (leb deadline (clock k)) (wait_loop fuel deadline (suc k)) e t,
        λ c. leb→le deadline (clock k) t,
        λ i a b. absurd (no_between k i a b),
      )
      | inr t ↦ onwards e t
    ])
  ]

  onwards-Ends :
      (fuel deadline k : ℕ)
      → Ends deadline (suc k) (wait_loop fuel deadline (suc k))
      → idle k ≡ false
      → leb deadline (clock k) ≡ false
      → Ends deadline k (wait_loop (suc fuel) deadline k)
  unfolding wait_loop
  onwards-Ends fuel deadline k (j, le, eq, timeout, before) e t = (
    j,
    omega arith,
    going (idle k) (leb deadline (clock k)) (wait_loop fuel deadline (suc k)) e t ∙ eq,
    timeout,
    λ i a b. elim (nat_cases k i a) [
      | inl same ↦
          subst (λ n. (idle n ≡ false) × (suc (clock n) ≤ deadline)) same
            (e, late deadline (clock k) t)
      | inr more ↦ before i (omega arith) b
    ],
  )

  wait_loop-Ends :
      (fuel deadline k : ℕ)
      → ((i : ℕ) → clock i + 10 ≤ clock (suc i))
      → deadline ≤ clock k + 10 * fuel
      → Ends deadline k (wait_loop (suc fuel) deadline k)
  wait_loop-Ends zero deadline k sleeps h =
      poll-Ends zero deadline k
        (λ e t. absurd (too_late deadline (clock k) (late deadline (clock k) t) h))
  wait_loop-Ends (suc fuel) deadline k sleeps h = poll-Ends (suc fuel) deadline k (
      onwards-Ends (suc fuel) deadline k (
        wait_loop-Ends fuel deadline (suc k) sleeps
          (one_sleep deadline (clock k) (clock (suc k)) fuel (sleeps k) h)))

  -- Where each poll comes at least 10 milliseconds after the one before, the wait returns: it ends
  -- at the first poll that saw no party outstanding, with true, or that came at the deadline with
  -- one outstanding, with false.
  pub wait_for_parties-Ends :
      (started timeout : ℕ)
      → ((i : ℕ) → clock i + 10 ≤ clock (suc i))
      → started ≤ clock 0
      → Ends (started + timeout) 0 (wait_for_parties started timeout)
  wait_for_parties-Ends started timeout sleeps h =
      wait_loop-Ends (timeout / 10 + 1) (started + timeout) 0 sleeps (omega arith)
