-- ===== src/AppServer/Steps.antt =====
-- The process and its requests as a step relation: any thread may take the next step.
use codex_waiting_plgin.AppServer.{
  Server, stop, mark_crashed, Sent, handle_stdout_line, send_request, end_request, may_send,
  is_hashable, dispatch, forget, register, key_of, broken_pipe, written, crashes, Lifecycle, object,
  ServerError, receive, is_accepted, is_response, initialized, Initialized, answered, no_answer,
  startable, remove, answer, fail_all, Pending, begin_start, begin_restart,
}
use codex_waiting_plgin.Prelude.{
  ℕ, ℤ, ◌||◌, ◌&&◌, ◌≡◌, not, true, Bool, arith, refl, suc, nat_eq, some, Option, if-keeps,
  is_positive, none, false, leb, ◌∷◌, String,
}
use codex_waiting_plgin.Protocol.Json.{Json, get_member}
use codex_waiting_plgin.AppServer.Waiters.{reply_id, id_key}
use codex_waiting_plgin.Prelude.Exec.{Outcome}

-- One step: a request is sent or ends, a message is read, the process crashes, or the owner stops it,
-- begins a start or a restart, or ends a start. The request `initialize` between is sent and ends like
-- another one. No thread stops the process while another one starts it: a start ends with a process
-- that is there.
pub data Step : Server → Server → Type 0 where
  sends :
      (s : Server) (timeout : ℤ) (early : Bool) (sent : Sent)
      → Step s (send_request timeout early sent s).1
  ends : (s : Server) (id : ℕ) → Step s (end_request id s).1
  reads : (s : Server) (message : Json) → Step s (handle_stdout_line message s)
  dies : (s : Server) → Step s (mark_crashed s)
  stops : (s : Server) → Step s (stop s)
  begins :
      (s : Server) (timeout : ℤ) (spawns : Bool) (instance_ : String)
      → Step s (begin_start timeout spawns instance_ s).1
  initializes :
      (s : Server) (reply : Initialized)
      → s.started && not s.closed ≡ true
      → Step s (initialized reply s).1
  restarts : (s : Server) (limit : ℕ) → Step s (begin_restart limit s).1

pub data Reach : Server → Server → Type 0 where
  here : {s : Server} → Reach s s
  later : {s t u : Server} → Reach s t → Step t u → Reach s u

-- READY and INITIALIZING stand for a process that is there and that the owner has not stopped.
abbrev pub is_live : Server → Bool
is_live s = not (may_send s.lifecycle) || (s.started && not s.closed)

-- A property of the counter and the waiters that what the operations do to them keeps.
pub record IsKept (P : ℕ → Pending → Type 0) : Type 0 where
  pub registers : (n : ℕ) (p : Pending) → P n p → P (suc n) ((suc n, none) ∷ p)
  pub removes : (n k : ℕ) (p : Pending) → P n p → P n (remove k p)
  pub fails : (n : ℕ) (p : Pending) → P n p → P n (fail_all p)
  pub answers :
      (n k : ℕ) (v : Json) (p : Pending) → reply_id v ≡ some k → P n p → P n (answer k v p)

may_send-crashes : (l : Lifecycle) → may_send (crashes l) ≡ false
may_send-crashes l = ground arith

module _ (P : ℕ → Pending → Type 0) (laws : IsKept P) where
  -- What holds of the object between the steps.
  abbrev pub IsServed : Server → Type 0
  IsServed s = (is_live s ≡ true) × P s.counter s.pending

  mark_crashed-IsServed : (s : Server) → IsServed s → IsServed (mark_crashed s)
  unfolding mark_crashed
  mark_crashed-IsServed s w =
      if-keeps IsServed s.closed w
        (rw (may_send-crashes s.lifecycle) refl, laws.fails s.counter s.pending w.1)

  forget-IsServed : (k : ℕ) (s : Server) → IsServed s → IsServed (forget k s)
  forget-IsServed k s w = (w.0, laws.removes s.counter k s.pending w.1)

  register-IsServed : (s : Server) → IsServed s → IsServed (register s)
  register-IsServed s w = (w.0, laws.registers s.counter s.pending w.1)

  abbrev Leaves : {A : Type 0} → Outcome ServerError A × Server → Type 0
  Leaves r = IsServed r.1

  module _ (timeout : ℤ) (early : Bool) (s : Server) (w : IsServed s) where
    unsent : IsServed (forget (suc s.counter) (register s))
    unsent = forget-IsServed (suc s.counter) (register s) (register-IsServed s w)

    broken : IsServed (forget (suc s.counter) (mark_crashed (register s)))
    broken =
        forget-IsServed (suc s.counter) (mark_crashed (register s))
          (mark_crashed-IsServed (register s) (register-IsServed s w))

    send_request-IsServed : (sent : Sent) → IsServed (send_request timeout early sent s).1
    unfolding send_request
    send_request-IsServed written = if-keeps Leaves (not (is_positive timeout)) w (
        if-keeps Leaves (not (may_send s.lifecycle) && not early) w
          (if-keeps Leaves (not s.started) unsent (register-IsServed s w)))
    send_request-IsServed broken_pipe = if-keeps Leaves (not (is_positive timeout)) w (
        if-keeps Leaves (not (may_send s.lifecycle) && not early) w
          (if-keeps Leaves (not s.started) unsent broken))

  dispatch-IsServed :
      (k : Option ℕ) (v : Json) (s : Server)
      → reply_id v ≡ k
      → IsServed s
      → IsServed (dispatch k v s)
  dispatch-IsServed none v s e w = w
  dispatch-IsServed (some k) v s e w = (w.0, laws.answers s.counter k v s.pending e w.1)

  receive-IsServed :
      (o : Option Json) (v : Json) (s : Server)
      → reply_id v ≡ id_key o
      → IsServed s
      → IsServed (receive o v s)
  receive-IsServed none v s e w = w
  receive-IsServed (some id) v s e w =
      if-keeps IsServed (is_hashable id) (dispatch-IsServed (key_of id) v s e w)
        (mark_crashed-IsServed s w)

  handle_stdout_line-IsServed :
      (message : Json) (s : Server) → IsServed s → IsServed (handle_stdout_line message s)
  unfolding handle_stdout_line
  handle_stdout_line-IsServed (object m) s w =
      if-keeps (λ o. IsServed (receive o (object m) s)) (is_response m)
        (receive-IsServed (get_member "id" m) (object m) s refl w) w
  handle_stdout_line-IsServed v s w = w

  stop-IsServed : (s : Server) → IsServed s → IsServed (stop s)
  unfolding stop
  stop-IsServed s w = if-keeps IsServed s.started (refl, w.1) (refl, w.1)

  initialized-IsServed :
      (r : Initialized) (s : Server)
      → s.started && not s.closed ≡ true
      → IsServed s
      → IsServed (initialized r s).1
  unfolding initialized
  initialized-IsServed (no_answer e) s h w = stop-IsServed s w
  initialized-IsServed (answered v) s h w =
      if-keeps Leaves (is_accepted v) (h, w.1) (stop-IsServed s w)

  begin_start-IsServed :
      (timeout : ℤ) (spawns : Bool) (instance_ : String) (s : Server)
      → IsServed s
      → IsServed (begin_start timeout spawns instance_ s).1
  unfolding begin_start
  begin_start-IsServed timeout spawns instance_ s w =
      if-keeps Leaves (not (is_positive timeout)) w (
        if-keeps Leaves (not (startable s.lifecycle)) w
          (if-keeps Leaves (not spawns) (refl, w.1) (refl, w.1)))

  begin_restart-IsServed :
      (limit : ℕ) (s : Server) → IsServed s → IsServed (begin_restart limit s).1
  unfolding begin_restart
  begin_restart-IsServed limit s w =
      let st = stop-IsServed (record s { restart_count = suc s.restart_count }) w in
      if-keeps Leaves (nat_eq limit 0) w
        (if-keeps Leaves (leb limit s.restart_count) w (refl, st.1))

  pub Step-IsServed : {s t : Server} → Step s t → IsServed s → IsServed t
  unfolding end_request
  Step-IsServed (sends s timeout early sent) w = send_request-IsServed timeout early s w sent
  Step-IsServed (ends s id) w = forget-IsServed id s w
  Step-IsServed (reads s message) w = handle_stdout_line-IsServed message s w
  Step-IsServed (dies s) w = mark_crashed-IsServed s w
  Step-IsServed (stops s) w = stop-IsServed s w
  Step-IsServed (begins s timeout spawns i) w = begin_start-IsServed timeout spawns i s w
  Step-IsServed (initializes s reply there) w = initialized-IsServed reply s there w
  Step-IsServed (restarts s limit) w = begin_restart-IsServed limit s w

  pub Reach-IsServed : {s t : Server} → Reach s t → IsServed s → IsServed t
  Reach-IsServed here w = w
  Reach-IsServed (later r st) w = Step-IsServed st (Reach-IsServed r w)
