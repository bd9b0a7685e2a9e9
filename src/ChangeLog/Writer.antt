-- ===== src/ChangeLog/Writer.antt =====
-- apps/engine/src/changelog.rs: the shared state of the log, and the writer that appends to its
-- current segment and rotates it. The durable-streams server is a parameter: a storage `S` and the
-- calls of its client. A stream is named by the segment whose path it has. The calls to the clock
-- read `now`, or `clock n` where segment `n` begins.
use electric_circuits.Prelude.{
  ℕ, zero, suc, ◌+◌, ◌-◌, Bool, true, false, not, ◌&&◌, Option, none, some, List, [], ◌∷◌, length,
  ◌==◌, nat_ord, if◌then◌else◌, Map, lookup, insert, remove,
}
use electric_circuits.Value.{Text}
use electric_circuits.Envelope.{Envelope}
use electric_circuits.ChangeLog.Position.{
  LogPosition, before_first, next_segment, Pointer, rotation_envelope, offset_bytes,
  ChangeLogConfig, should_rotate,
}

pub record ChangesState : Type 0 where
  pub current : ℕ
  pub starts : Map ℕ ℕ
  pub tail : Option Text

unfoldable pub position : ChangesState → LogPosition
position st = record {
  segment = st.current;
  offset = elim st.tail [ none ↦ before_first | some o ↦ o ];
}

abbrev pub retained : ChangesState → ℕ
retained st = length st.starts

abbrev pub adopt : ℕ → Map ℕ ℕ → Option Text → ChangesState → ChangesState
adopt current starts tail st = record { current = current; starts = starts; tail = tail }

unfoldable pub began : ℕ → ℕ → ChangesState → ChangesState
began segment at st = record {
  current = segment;
  starts = insert segment at st.starts;
  tail = none;
}

abbrev pub set_tail : Option Text → ChangesState → ChangesState
set_tail offset st = record st { tail = elim offset [ none ↦ st.tail | some o ↦ some o ] }

abbrev pub forget : ℕ → ChangesState → ChangesState
forget segment st = record st { starts = remove segment st.starts }

unfoldable pub current_age : ℕ → ChangesState → ℕ
current_age now st = elim (lookup st.current st.starts) [ none ↦ now - now | some at ↦ now - at ]

-- `Appended`
pub data Appended : Type 0 where
  ok : Option Text → Appended
  retired : ℕ → Appended

-- The calls of the client. A `false` or a `none` is an error, after which the storage may or may
-- not have changed. `head` gives whether the stream is closed, where there is one.
pub record DsClient (S : Type 0) (J : Type 0) : Type 0 where
  pub head : ℕ → S → Option (Option Bool)
  pub ensure_stream : ℕ → S → Bool × S
  pub append : ℕ → List (Envelope J) → S → Bool × S
  pub append_checked : ℕ → List (Envelope J) → S → Option Appended × S
  pub close_stream : ℕ → S → Bool × S
  pub appended_bytes : ℕ → S → ℕ

-- The writer's state, the storage, and the calls of `rotated` so far, the latest first.
pub record Log (S : Type 0) : Type 0 where
  pub state : ChangesState
  pub storage : S
  pub records : List (ℕ × ℕ)

-- What the walk does with the head of `cur`; `walk` is the walk from the next segment.
abbrev pub walk_head : (ℕ → Option ℕ) → Option ℕ → ℕ → Bool → Option (Option Bool) → Option ℕ
walk_head walk next cur first none = none
walk_head walk next cur first (some none) = if first then some cur else none
walk_head walk next cur first (some (some false)) = some cur
walk_head walk none cur first (some (some true)) = none
walk_head walk (some next) cur first (some (some true)) = walk next

abbrev pub found : ℕ → Option (Option Bool) → Option ℕ
found next none = none
found next (some none) = none
found next (some (some closed)) = some next

module _ {S J : Type 0} (ds : DsClient S J) where
  unfoldable pub next_segment_for_reader : ℕ → S → Option ℕ
  next_segment_for_reader closed s = found (next_segment closed) (ds.head (next_segment closed) s)

  unfoldable pub resolve_loop : ℕ → ℕ → Bool → S → ℕ → Option ℕ
  unfolding next_segment_for_reader
  resolve_loop zero from recorded s cur = none
  resolve_loop (suc n) from recorded s cur =
      walk_head (resolve_loop n from recorded s) (next_segment_for_reader cur s) cur
        (cur == from && not recorded) (ds.head cur s)

  unfoldable pub resolve_current : ℕ → Bool → S → Option ℕ
  unfolding resolve_loop
  resolve_current from recorded s = resolve_loop 1000000 from recorded s from

  abbrev pub begin_segment : ℕ → ℕ → Log S → Log S
  begin_segment segment at log = record log {
    state = began segment at log.state;
    records = (segment, at) ∷ log.records;
  }

  -- `for n in (from + 1)..=resolved`, as the number of rounds and the first segment.
  unfoldable pub begin_all : (ℕ → ℕ) → ℕ → ℕ → Log S → Log S
  unfolding began
  begin_all clock zero n log = log
  begin_all clock (suc k) n log = begin_all clock k (n + 1) (begin_segment n (clock n) log)

  abbrev pub forward : (ℕ → ℕ) → Option ℕ → Log S → Bool × Log S
  forward clock none log = (false, log)
  forward clock (some resolved) log =
      let first = next_segment log.state.current in
      (true, begin_all clock (resolved + 1 - first) first log)

  unfoldable pub resolve_forward : (ℕ → ℕ) → Log S → Bool × Log S
  unfolding resolve_current begin_all
  resolve_forward clock log = forward clock (resolve_current log.state.current true log.storage) log

  abbrev pub try_again : (Log S → Bool × Log S) → Bool × Log S → Bool × Log S
  try_again next (false, log) = (false, log)
  try_again next (true, log) = next log

  abbrev pub appended :
      (Log S → Bool × Log S) → (ℕ → ℕ) → Log S → Option Appended × S → Bool × Log S
  appended next clock log (none, s) = (false, record log { storage = s })
  appended next clock log (some (ok next_offset), s) =
      (true, record log { storage = s; state = set_tail next_offset log.state })
  appended next clock log (some (retired status), s) =
      try_again next (resolve_forward clock (record log { storage = s }))

  unfoldable pub append_loop : (ℕ → ℕ) → ℕ → List (Envelope J) → Log S → Bool × Log S
  unfolding resolve_forward
  append_loop clock zero envs log = (false, log)
  append_loop clock (suc n) envs log =
      appended (append_loop clock n envs) clock log
        (ds.append_checked log.state.current envs log.storage)

  -- `true`: appended. `false`: the error that the caller propagates.
  unfoldable pub append_commit : (ℕ → ℕ) → List (Envelope J) → Log S → Bool × Log S
  unfolding append_loop
  append_commit clock [] log = (true, log)
  append_commit clock (env ∷ envs) log = append_loop clock 8 (env ∷ envs) log

  module _ (json : Pointer J) where
    abbrev pub closed_step : ℕ → ℕ → Log S → Bool × S → Bool × Log S
    closed_step to at log (false, s) = (false, record log { storage = s })
    closed_step to at log (true, s) = (true, begin_segment to at (record log { storage = s }))

    abbrev pub pointed_step : ℕ → ℕ → ℕ → Log S → Bool × S → Bool × Log S
    pointed_step from to at log (false, s) = (false, record log { storage = s })
    pointed_step from to at log (true, s) = closed_step to at log (ds.close_stream from s)

    abbrev pub ensured_step : ℕ → ℕ → ℕ → Log S → Bool × S → Bool × Log S
    ensured_step from to at log (false, s) = (false, record log { storage = s })
    ensured_step from to at log (true, s) =
        pointed_step from to at log (ds.append from (rotation_envelope json to ∷ []) s)

    -- The successor, the pointer, the close, and the record, in this order.
    unfoldable pub rotate : ℕ → Log S → Bool × Log S
    rotate now log =
        let from = log.state.current in
        let to = next_segment from in ensured_step from to now log (ds.ensure_stream to log.storage)

    abbrev pub tail_bytes : Option Text → Option ℕ
    tail_bytes none = none
    tail_bytes (some o) = offset_bytes o

    unfoldable pub segment_bytes : ℕ → Log S → ℕ
    segment_bytes segment log = elim (tail_bytes log.state.tail) [
      | none ↦ ds.appended_bytes segment log.storage
      | some bytes ↦ bytes
    ]

    -- A failed rotation is logged, and what it did stays.
    unfoldable pub maybe_rotate : ChangeLogConfig → ℕ → Log S → Log S
    unfolding rotate segment_bytes should_rotate current_age
    maybe_rotate cfg now log =
        let bytes = segment_bytes log.state.current log in
        if bytes == 0
        then log
        else if not (should_rotate cfg bytes (current_age now log.state))
        then log
        else (rotate now log).1

    unfoldable pub force_rotate : ℕ → Log S → Log S
    unfolding rotate segment_bytes
    force_rotate now log =
        if segment_bytes log.state.current log == 0 then log else (rotate now log).1
