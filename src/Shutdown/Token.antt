-- ===== src/Shutdown/Token.antt =====
-- apps/engine/src/shutdown.rs, `ShutdownToken` and `ShutdownParty`. The state behind the locks is a
-- record; an instant is in milliseconds, and the set of names a list without repetition.
use electric_circuits.Prelude.{
  ℕ, ◌-◌, Bool, true, false, Option, none, some, List, [], add, delete, list_ord, nat_ord,
}
use electric_circuits.Value.{Text}

pub data ShutdownOutcome : Type 0 where
  complete : ShutdownOutcome
  forced : ShutdownOutcome
  catalog_incomplete : ShutdownOutcome

abbrev pub exit_code : ShutdownOutcome → ℕ
exit_code complete = 0
exit_code forced = 70
exit_code catalog_incomplete = 71

pub record Token : Type 0 where
  pub flipped : Bool
  pub outstanding : List Text
  pub began_at : Option ℕ

abbrev pub new_token : Token
new_token = record { flipped = false; outstanding = []; began_at = none }

abbrev pub is_shutting_down : Token → Bool
is_shutting_down t = t.flipped

-- What `begin` does after it saw the token clear: two sections, each under a lock of its own.
unfoldable pub store_began : ℕ → Token → Token
store_began now t = record t { began_at = some now }

unfoldable pub send_flip : Token → Token
send_flip t = record t { flipped = true }

-- An instant that is not before the other gives 0, as in `Instant::elapsed`.
abbrev pub since : ℕ → Option ℕ → Option ℕ
since now none = none
since now (some began) = some (now - began)

abbrev pub elapsed : ℕ → Token → Option ℕ
elapsed now t = since now t.began_at

-- The guard of a party is its name.
unfoldable pub party : Text → Token → Token
party name t = record t { outstanding = add name t.outstanding }

-- `Drop` of the guard.
unfoldable pub drop_party : Text → Token → Token
drop_party name t = record t { outstanding = delete name t.outstanding }
