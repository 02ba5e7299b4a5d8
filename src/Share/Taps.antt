-- ===== src/Share/Taps.antt =====
-- crates/pcsuite-core/src/share.rs: `accept_loop`, which lets one session run at a time, and the two
-- tasks of a connection: the outer one, `handle_conn`, and the inner one, which it starts and which
-- hunts for the phone's server and pulls the batch. The handle of the inner one stands in an
-- `AbortOnDrop` until the connect frame has been read; from then on the outer task waits on it, and a
-- handle that is dropped then only lets the task go.
pub mod Alone
pub mod Commits
use pcsuite_rs.Base.{
  ℕ, suc, ◌≡◌, ◌≢◌, Bool, true, false, not, Option, none, some, ◌==◌, if◌then◌else◌,
}

-- `reading` the frame, `awaiting` the inner task, `over`, or aborted by the accept loop.
pub data Outer : Type 0 where
  reading awaiting over aborted : Outer

-- `absent`: the connection has no inner task.
pub data Inner : Type 0 where
  absent hunting pulling ended cancelled : Inner

pub record Conn : Type 0 where
  pub outer : Outer
  pub inner : Inner
  pub committed : Bool

-- `conns` are the connections below `next`, in the order in which they came.
pub record Taps : Type 0 where
  pub conns : ℕ → Conn
  pub next : ℕ
  pub current : Option ℕ

-- The inner task runs.
abbrev pub is_live : Inner → Bool
is_live hunting = true
is_live pulling = true
is_live _ = false

-- `handle.is_finished()`
abbrev pub is_finished : Outer → Bool
is_finished over = true
is_finished aborted = true
is_finished _ = false

-- `abort` of a task.
abbrev pub cancel : Inner → Inner
cancel i = if is_live i then cancelled else i

-- The outer task is dropped: its guard aborts the inner one if the handle is still in it.
abbrev pub dropped : Outer → Inner → Inner
dropped reading i = cancel i
dropped _ i = i

abbrev pub abort_conn : Conn → Conn
abort_conn c = record { outer = aborted; inner = dropped c.outer c.inner; committed = c.committed }

abbrev pub set_at {ℓ} : {A : Type ℓ} → ℕ → A → (ℕ → A) → ℕ → A
set_at i a f j = if j == i then a else f j

-- `busy`, and what it does to the session before, if there is one.
unfoldable pub take_from : Option ℕ → Taps → Bool × Taps
take_from none w = (false, w)
take_from (some i) w =
    if is_finished ((w.conns i).outer)
    then (false, record w { current = none })
    else if (w.conns i).committed
    then (true, w)
    else (false, record w { conns = set_at i (abort_conn (w.conns i)) w.conns; current = none })

abbrev pub take_current : Taps → Bool × Taps
take_current w = take_from w.current w

abbrev pub new_conn : Bool → Conn
new_conn run_session = record {
  outer = reading;
  inner = if run_session then hunting else absent;
  committed = false;
}

-- A connection is accepted.
unfoldable pub tap : Taps → Taps
tap w =
    let (busy, w') = take_current w in
    record {
      conns = set_at w'.next (new_conn (not busy)) w'.conns;
      next = suc w'.next;
      current = if busy then w'.current else some w'.next;
    }

-- What a connection's tasks do by themselves.
pub data Moves : Conn → Conn → Type 0 where
  -- The frame is read: the handle leaves the guard, and without a session the task answers and is over.
  reads_frame :
      (i : Inner) (c : Bool)
      → i ≢ absent
      → Moves
          (record { outer = reading; inner = i; committed = c })
          (record { outer = awaiting; inner = i; committed = c })
  answers_idle :
      (c : Bool)
      → Moves
          (record { outer = reading; inner = absent; committed = c })
          (record { outer = over; inner = absent; committed = c })
  -- No frame, or a wrong one: the guard is dropped.
  drops :
      (i : Inner) (c : Bool)
      → Moves
          (record { outer = reading; inner = i; committed = c })
          (record { outer = over; inner = cancel i; committed = c })
  -- The phone announces the task.
  commits :
      (o : Outer) (i : Inner) (c : Bool)
      → is_live i ≡ true
      → Moves
          (record { outer = o; inner = i; committed = c })
          (record { outer = o; inner = pulling; committed = true })
  ends :
      (o : Outer) (i : Inner) (c : Bool)
      → is_live i ≡ true
      → Moves
          (record { outer = o; inner = i; committed = c })
          (record { outer = o; inner = ended; committed = c })
  answers :
      (i : Inner) (c : Bool)
      → is_live i ≡ false
      → Moves
          (record { outer = awaiting; inner = i; committed = c })
          (record { outer = over; inner = i; committed = c })

pub data Step : Taps → Taps → Type 0 where
  tapped : (w : Taps) → Step w (tap w)
  moved :
      (w : Taps) (i : ℕ) (c : Conn)
      → Moves (w.conns i) c
      → Step w (record { conns = set_at i c w.conns; next = w.next; current = w.current })

pub data Reach : Taps → Taps → Type 0 where
  here : (w : Taps) → Reach w w
  then_step : (a : Taps) {b c : Taps} → Reach a b → Step b c → Reach a c

-- When the listener starts.
abbrev pub no_taps : Taps
no_taps = record {
  conns = λ i. record { outer = over; inner = absent; committed = false };
  next = 0;
  current = none;
}
