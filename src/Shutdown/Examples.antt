-- ===== src/Shutdown/Examples.antt =====
-- Two parties and a signal; two calls of `begin` that overlap; a wait that sees the last party leave
-- at its third poll; a blank variable and a set one.
use electric_circuits.Prelude.{
  ℕ, suc, ◌+◌, ◌*◌, ◌≤◌, ◌≡◌, ◌⊎◌, refl, inl, inr, Bool, true, false, ◌==◌, Bool-cases, some, [],
  ◌∷◌, arith, leb, member, delete, list_ord, nat_ord,
}
use electric_circuits.Value.{Text}
use electric_circuits.Value.Decimal.{read_digits}
use electric_circuits.Shutdown.Token.{store_began, send_flip, party, drop_party}
use electric_circuits.Shutdown.Process.{
  returned, checked, stored, set_call, in_flight, told_first, Process, Step, Reach, boot,
  outstanding-guards, begin-once,
}
use electric_circuits.Shutdown.Wait.{wait_for_parties, Ends, wait_for_parties-Ends}
use electric_circuits.Shutdown.Grace.{trim_start, reverse, resolve_grace}

abbrev sequencer : Text
sequencer = b's' ∷ b'q' ∷ []

abbrev ingestor : Text
ingestor = b'i' ∷ b'n' ∷ []

abbrev one_party : Process
one_party = record boot { token = party sequencer boot.token; guards = sequencer ∷ [] }

abbrev two_parties : Process
two_parties = record one_party {
  token = party ingestor one_party.token;
  guards = ingestor ∷ sequencer ∷ [];
}

registered : Reach boot two_parties
unfolding member
registered =
    Reach.next (Reach.next Reach.start (Step.register sequencer refl)) (Step.register ingestor refl)

-- Thread 0 begins the shutdown at 100.
abbrev storing : Process
storing = record two_parties {
  token = store_began 100 two_parties.token;
  calls = set_call 0 stored (set_call 0 checked two_parties.calls);
}

abbrev signalled : Process
signalled = record storing {
  token = send_flip storing.token;
  calls = set_call 0 (returned true) storing.calls;
}

signals : Reach boot signalled
unfolding party
signals =
    Reach.next
      (Reach.next (Reach.next registered (Step.check_first 0 refl refl)) (Step.store 0 100 refl))
      (Step.send 0 refl)

signalled-flipped : signalled.token.flipped ≡ true
unfolding send_flip
signalled-flipped = refl

signalled-quiet : (u : ℕ) → in_flight (signalled.calls u) ≡ false
signalled-quiet u = elim (Bool-cases (u == 0)) [ inl e ↦ rw e refl | inr e ↦ rw e refl ]

-- Thread 1 is told that it was late, and the sequencer ends.
abbrev late : Process
late = record signalled { calls = set_call 1 (returned false) signalled.calls }

abbrev one_left : Process
one_left = record late {
  token = drop_party sequencer late.token;
  guards = delete sequencer late.guards;
}

winding_down : Reach signalled one_left
unfolding send_flip member
winding_down =
    Reach.next (Reach.next Reach.start (Step.check_late 1 refl refl)) (Step.finish sequencer refl)

outstanding-guards_example :
    member ingestor two_parties.token.outstanding ≡ member ingestor two_parties.guards
outstanding-guards_example = outstanding-guards two_parties ingestor registered

begin-once_example :
    (one_left.token.flipped ≡ true)
    × ((at : ℕ) × ((signalled.token.began_at ≡ some at) × (one_left.token.began_at ≡ some at)))
    × ((told_first (one_left.calls 1) ≡ false) ⊎ (told_first (signalled.calls 1) ≡ true))
begin-once_example =
    begin-once signalled one_left 1 signals signalled-flipped signalled-quiet winding_down

-- Both threads check before either flips the token.
abbrev both_checked : Process
both_checked = record boot { calls = set_call 1 checked (set_call 0 checked boot.calls) }

abbrev first_done : Process
first_done = record both_checked {
  token = send_flip (store_began 100 both_checked.token);
  calls = set_call 0 (returned true) (set_call 0 stored both_checked.calls);
}

abbrev both_done : Process
both_done = record first_done {
  token = send_flip (store_began 900 first_done.token);
  calls = set_call 1 (returned true) (set_call 1 stored first_done.calls);
}

overlap : Reach boot both_done
unfolding store_began send_flip
overlap =
    let checks =
      Reach.next (Reach.next Reach.start (Step.check_first 0 refl refl))
        (Step.check_first 1 refl refl) in
    let first = Reach.next (Reach.next checks (Step.store 0 100 refl)) (Step.send 0 refl) in
    Reach.next (Reach.next first (Step.store 1 900 refl)) (Step.send 1 refl)

-- Both are told that they were first, and the instant of the first one is lost.
both_first :
    (told_first (both_done.calls 0) ≡ true)
    × (told_first (both_done.calls 1) ≡ true)
    × (first_done.token.began_at ≡ some 100)
    × (both_done.token.began_at ≡ some 900)
unfolding store_began send_flip
both_first = (refl, refl, refl, refl)

abbrev idle : ℕ → Bool
idle k = leb 2 k

abbrev clock : ℕ → ℕ
clock k = 500 + k * 11

sleeps : (i : ℕ) → clock i + 10 ≤ clock (suc i)
sleeps i = omega arith

wait_for_parties-Ends_example : Ends idle clock 5500 0 (wait_for_parties idle clock 500 5000)
wait_for_parties-Ends_example = wait_for_parties-Ends idle clock 500 5000 sleeps (omega arith)

abbrev spaces : Text
spaces = 32 ∷ 9 ∷ []

abbrev seven : Text
seven = 32 ∷ b'7' ∷ []

resolved : resolve_grace (some seven) ≡ some 7
unfolding resolve_grace trim_start reverse read_digits
resolved = refl
