-- ===== src/Shutdown/Process.antt =====
-- apps/engine/src/shutdown.rs: the token with the guards that are alive and the calls of `begin` by
-- several threads, in every order of their sections, of registrations and of drops.
use electric_circuits.Prelude.{
  ℕ, ◌≡◌, ◌⊎◌, refl, ap, ◌∙◌, sym, inl, inr, Bool, true, false, some, List, [], ◌∷◌, member, delete,
  member-add, member-delete, list_ord, nat_ord, ◌==◌, Bool-cases, true_false, false_true,
  if◌then◌else◌,
}
use electric_circuits.Value.{Text}
use electric_circuits.Shutdown.Token.{
  Token, new_token, is_shutting_down, store_began, send_flip, party, drop_party,
}

-- Where the last call of `begin` by a thread is: none yet, past a check that saw the token clear,
-- past the store of the instant, or returned.
pub data Call : Type 0 where
  uncalled : Call
  checked : Call
  stored : Call
  returned : Bool → Call

abbrev pub in_flight : Call → Bool
in_flight checked = true
in_flight stored = true
in_flight _ = false

-- The call returned that it was the one that began the shutdown.
abbrev pub told_first : Call → Bool
told_first (returned first) = first
told_first _ = false

-- The guards that are alive; the components register under different names.
pub record Process : Type 0 where
  pub token : Token
  pub guards : List Text
  pub calls : ℕ → Call

abbrev pub set_call : ℕ → Call → (ℕ → Call) → ℕ → Call
set_call t c calls u = if u == t then c else calls u

-- `begin` is four of the steps: the check, on either result, the store and the flip.
pub data Step : Process → Process → Type 0 where
  check_first :
      {p : Process} (t : ℕ)
      → in_flight (p.calls t) ≡ false
      → is_shutting_down p.token ≡ false
      → Step p (record p { calls = set_call t checked p.calls })
  check_late :
      {p : Process} (t : ℕ)
      → in_flight (p.calls t) ≡ false
      → is_shutting_down p.token ≡ true
      → Step p (record p { calls = set_call t (returned false) p.calls })
  store :
      {p : Process} (t now : ℕ)
      → p.calls t ≡ checked
      → Step p (record p { token = store_began now p.token; calls = set_call t stored p.calls })
  send :
      {p : Process} (t : ℕ)
      → p.calls t ≡ stored
      → Step p (record p { token = send_flip p.token; calls = set_call t (returned true) p.calls })
  register :
      {p : Process} (name : Text)
      → member name p.guards ≡ false
      → Step p (record p { token = party name p.token; guards = name ∷ p.guards })
  finish :
      {p : Process} (name : Text)
      → member name p.guards ≡ true
      → Step p (record p { token = drop_party name p.token; guards = delete name p.guards })

pub data Reach (p : Process) : Process → Type 0 where
  start : Reach p p
  next : {q r : Process} → Reach p q → Step q r → Reach p r

abbrev pub boot : Process
boot = record { token = new_token; guards = []; calls = λ t. uncalled }

-- A name is outstanding where its guard is alive.
abbrev Tracks : Process → Type 0
Tracks p = (name : Text) → member name p.token.outstanding ≡ member name p.guards

Step-Tracks : {p q : Process} → Step p q → Tracks p → Tracks q
unfolding store_began send_flip party drop_party member
Step-Tracks (check_first t free clear) h name = h name
Step-Tracks (check_late t free late) h name = h name
Step-Tracks (store t now c) h name = h name
Step-Tracks (send t c) h name = h name
Step-Tracks (register {p} new fresh) h name =
    member-add new name p.token.outstanding ∙ rw (h name) refl
Step-Tracks (finish {p} old live) h name =
    member-delete old name p.token.outstanding ∙ rw (h name) (sym (member-delete old name p.guards))

Reach-Tracks : {p q : Process} → Reach p q → Tracks p → Tracks q
Reach-Tracks start h = h
Reach-Tracks (next r s) h = Step-Tracks s (Reach-Tracks r h)

-- In every state that is reached from the boot by calls of `begin` whose sections interleave,
-- registrations under a name that is not in use and drops of live guards, the parties outstanding
-- are exactly those with a live guard.
pub outstanding-guards :
    (p : Process) (name : Text)
    → Reach boot p
    → member name p.token.outstanding ≡ member name p.guards
outstanding-guards p name r = Reach-Tracks r (λ n. refl) name

-- What holds of the new call of a thread and of all calls holds of all calls with the new one.
set_call-every :
    (P : ℕ → Call → Type 0) (t : ℕ) (c : Call) (calls : ℕ → Call)
    → ((u : ℕ) → P u c)
    → ((u : ℕ) → P u (calls u))
    → (u : ℕ) → P u (set_call t c calls u)
set_call-every P t c calls hc h u = elim (Bool-cases (u == t)) [
  | inl e ↦ rw e (hc u)
  | inr e ↦ rw e (h u)
]

-- The token has an instant.
abbrev Timed : Process → Type 0
Timed p = (at : ℕ) × (p.token.began_at ≡ some at)

abbrev is_stored : Call → Bool
is_stored stored = true
is_stored _ = false

-- A token that is flipped, or about to be, has an instant.
abbrev IsTimed : Process → Type 0
IsTimed p = (p.token.flipped ≡ true → Timed p) × ((u : ℕ) → is_stored (p.calls u) ≡ true → Timed p)

Step-IsTimed : {p q : Process} → Step p q → IsTimed p → IsTimed q
unfolding store_began send_flip party drop_party
Step-IsTimed (check_first {p} t free clear) (hf, hs) = (
  hf,
  set_call-every (λ u c. is_stored c ≡ true → Timed p) t checked p.calls
      (λ u e. absurd (false_true e)) hs,
)
Step-IsTimed (check_late {p} t free late) (hf, hs) = (
  hf,
  set_call-every (λ u c. is_stored c ≡ true → Timed p) t (returned false) p.calls
      (λ u e. absurd (false_true e)) hs,
)
Step-IsTimed (store {p} t now c) (hf, hs) = (λ e. (now, refl), λ u e. (now, refl))
Step-IsTimed (send {p} t c) (hf, hs) =
    let timed : Timed p = hs t (ap is_stored c) in (λ e. timed, λ u e. timed)
Step-IsTimed (register {p} name fresh) h = h
Step-IsTimed (finish {p} name live) h = h

Reach-IsTimed : {p q : Process} → Reach p q → IsTimed p → IsTimed q
Reach-IsTimed start h = h
Reach-IsTimed (next r s) h = Step-IsTimed s (Reach-IsTimed r h)

-- The call of a thread is not in flight, and if it was told that it was first, so it was in `p`.
abbrev Settled : Process → ℕ → Call → Type 0
Settled p u c = (in_flight c ≡ false) × ((told_first c ≡ false) ⊎ (told_first (p.calls u) ≡ true))

abbrev Kept : Process → Process → Type 0
Kept p q =
    (q.token.flipped ≡ true)
    × (q.token.began_at ≡ p.token.began_at)
    × ((u : ℕ) → Settled p u (q.calls u))

Step-Kept : (p : Process) {q r : Process} → Step q r → Kept p q → Kept p r
unfolding store_began send_flip party drop_party
Step-Kept p (check_first t free clear) (hf, hb, hc) = absurd (true_false hf clear)
Step-Kept p (check_late {p = q} t free late) (hf, hb, hc) =
    (hf, hb, set_call-every (Settled p) t (returned false) q.calls (λ u. (refl, inl refl)) hc)
Step-Kept p (store t now c) (hf, hb, hc) = absurd (true_false (ap in_flight c) (hc t).0)
Step-Kept p (send t c) (hf, hb, hc) = absurd (true_false (ap in_flight c) (hc t).0)
Step-Kept p (register name fresh) h = h
Step-Kept p (finish name live) h = h

Reach-Kept : (p : Process) {q r : Process} → Reach q r → Kept p q → Kept p r
Reach-Kept p start h = h
Reach-Kept p (next r s) h = Step-Kept p s (Reach-Kept p r h)

settled : (c : Call) → in_flight c ≡ false → (told_first c ≡ false) ⊎ (told_first c ≡ true)
settled (returned true) h = inr refl
settled (returned false) h = inl refl
settled uncalled h = inl refl
settled checked h = inl refl
settled stored h = inl refl

-- From a state that is reached from the boot, in which the token is flipped and no call of `begin` is
-- in flight, the token stays flipped whatever follows, its instant is there and stays the same, and
-- a thread whose last call is told that it was the first was told so already in that state.
pub begin-once :
    (p later : Process) (t : ℕ)
    → Reach boot p
    → p.token.flipped ≡ true
    → ((u : ℕ) → in_flight (p.calls u) ≡ false)
    → Reach p later
    → (later.token.flipped ≡ true)
      × ((at : ℕ) × ((p.token.began_at ≡ some at) × (later.token.began_at ≡ some at)))
      × ((told_first (later.calls t) ≡ false) ⊎ (told_first (p.calls t) ≡ true))
begin-once p later t r flipped quiet r' =
    let timed =
      (Reach-IsTimed r (λ e. absurd (false_true e), λ u e. absurd (false_true e))).0 flipped in
    let (hf, hb, hc) =
      Reach-Kept p r' (flipped, refl, λ u. (quiet u, settled (p.calls u) (quiet u))) in
    (hf, (timed.0, (timed.1, hb ∙ timed.1)), (hc t).1)
