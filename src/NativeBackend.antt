-- ===== src/NativeBackend.antt =====
-- snooze_controller/native_backend.py: the wait for a process that the App Server runs, over the event
-- log of app_server_process.py, a deque of limited length. `base64.b64decode` and the decoding of
-- UTF-8 are arguments; `params` that are no object, at which `.get` would raise, count as another
-- process's. The request of `start` is in Protocol/Requests.antt.
pub mod Bounded
pub mod Reading
use codex_waiting_plgin.Protocol.Json.{get_member, Json, text, object, boolean}
use codex_waiting_plgin.Prelude.{
  if◌then◌else◌, none, suc, Bool, ℕ, ◌==◌, ◌&&◌, ltb, ◌++◌, length, false, some, ◌∷◌, Option, not,
  zero, String, [], List,
}
use codex_waiting_plgin.Prelude.Exec.{ok, raised, Outcome}

-- What `_record` keeps of an event here.
pub record Event : Type 0 where
  pub kind : String
  pub method : String
  pub params : Json

-- `NativeProcessHandle`, its two buffers as lists of bytes.
pub record Handle : Type 0 where
  pub process_id : String
  pub stdout : List ℕ
  pub stderr : List ℕ

-- The dictionary that `wait` returns.
pub record Exit : Type 0 where
  pub process_handle : String
  pub exit_code : Option Json
  pub stdout : Json
  pub stderr : Json
  pub stdout_cap_reached : Json
  pub stderr_cap_reached : Json

-- `NativeBackendError` of `wait`.
pub data NativeError : Type 0 where
  wait_timed_out : NativeError

-- `self._events.append` of `deque(maxlen=limit)`: the oldest event goes where it is full.
abbrev pub drop_first : List Event → List Event
drop_first [] = []
drop_first (e ∷ es) = es

unfoldable pub push : ℕ → List Event → Event → List Event
push limit log e = if ltb (length log) limit then log ++ e ∷ [] else drop_first (log ++ e ∷ [])

unfoldable pub push_all : ℕ → List Event → List Event → List Event
push_all limit log [] = log
push_all limit log (e ∷ es) = push_all limit (push limit log e) es

abbrev is_text : String → Option Json → Bool
is_text s (some (text t)) = t == s
is_text s v = false

abbrev or_else : Json → Option Json → Json
or_else d none = d
or_else d (some v) = v

abbrev param : String → Json → Option Json
param k (object m) = get_member k m
param k v = none

abbrev pub drop : ℕ → List Event → List Event
drop zero es = es
drop (suc n) [] = []
drop (suc n) (e ∷ es) = drop n es

-- `event_index` after the events of a log were read from it on.
abbrev pub read_up_to : ℕ → List Event → ℕ
read_up_to index log = if ltb index (length log) then length log else index

abbrev pub found_or :
    Option Exit → Handle → Outcome NativeError Exit × Handle → Outcome NativeError Exit × Handle
found_or (some exit) h rest = (ok exit, h)
found_or none h rest = rest

-- A notification of this process.
abbrev is_own : Handle → Event → Bool
is_own h e = e.kind == "notification" && is_text h.process_id (param "processHandle" e.params)

pub data Meaning : Type 0 where
  skipped outputs exits : Meaning

abbrev pub meaning : Handle → Event → Meaning
meaning h e =
    if not (is_own h e)
    then skipped
    else if e.method == "process/outputDelta"
    then outputs
    else if e.method == "process/exited"
    then exits
    else skipped

abbrev pub by_meaning {ℓ} : {A : Type ℓ} → Meaning → A → A → A → A
by_meaning skipped a b c = a
by_meaning outputs a b c = b
by_meaning exits a b c = c

module _ (decode : Option Json → List ℕ) (utf8 : List ℕ → String) where
  -- `bytes(...).decode("utf-8", "replace") or params.get(key, "")`.
  abbrev output_text : List ℕ → String → Json → Json
  output_text bytes key params =
      if utf8 bytes == "" then or_else (text "") (param key params) else text (utf8 bytes)

  abbrev exit_of : Handle → Json → Exit
  exit_of h params = record {
    process_handle = h.process_id;
    exit_code = param "exitCode" params;
    stdout = output_text h.stdout "stdout" params;
    stderr = output_text h.stderr "stderr" params;
    stdout_cap_reached = or_else (boolean false) (param "stdoutCapReached" params);
    stderr_cap_reached = or_else (boolean false) (param "stderrCapReached" params);
  }

  abbrev with_output : Handle → Json → Handle
  with_output h params =
      let chunk = decode (param "deltaBase64" params) in
      if is_text "stderr" (param "stream" params)
      then record h { stderr = h.stderr ++ chunk }
      else record h { stdout = h.stdout ++ chunk }

  -- The inner loop of `wait`: the events in order, up to the exit.
  unfoldable pub read : List Event → Handle → Option Exit × Handle
  read [] h = (none, h)
  read (e ∷ es) h =
      let skip = read es h in
      let output = read es (with_output h e.params) in
      by_meaning (meaning h e) skip output (some (exit_of h e.params), h)

  -- `wait`, over the logs that its polls see before the deadline.
  unfoldable pub wait : List (List Event) → ℕ → Handle → Outcome NativeError Exit × Handle
  wait [] index h = (raised wait_timed_out, h)
  wait (log ∷ logs) index h =
      let p = read (drop index log) h in
      let rest = wait logs (read_up_to index log) p.1 in found_or p.0 p.1 rest
