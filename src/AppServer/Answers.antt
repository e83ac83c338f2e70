-- ===== src/AppServer/Answers.antt =====
-- What the requests of any threads are answered, through crashes, stops and starts of the process.
use codex_waiting_plgin.Prelude.{
  [], refl, ◌∷◌, ltb, nat_eq, arith, Option, ◌≡◌, Bool, some, true, none, ◌&&◌, ℕ, is_some, ◌||◌,
  false, ◌≤◌, ◌<◌, ℤ, is_positive, suc,
}
use codex_waiting_plgin.AppServer.{
  slot_of, answer, fail_all, exit_error, remove, Pending, offer, stop, restart, start, write_failed,
  register, end_request, Server, may_send, Startup, answered, initialized, new_server, written,
  send_request, is_accepted, mark_crashed, broken_pipe, timed_out, ready, waited, begin_start,
  begin_restart,
}
use codex_waiting_plgin.Protocol.Json.{Json}
use codex_waiting_plgin.Delivery.Sent.{is_ok}
use codex_waiting_plgin.AppServer.Waiters.{
  remove-Waiters, fail_all-Waiters, reply_id, slot_of-Answers, Waiters, answer-Waiters, Answers,
}
use codex_waiting_plgin.AppServer.Steps.{
  IsServed, Reach, IsKept, is_live, Reach-IsServed, dies, later,
}
use codex_waiting_plgin.Prelude.Exec.{ok, raised}

-- `waits id`: a waiter stands under the id.
abbrev pub waits : ℕ → Pending → Bool
waits k [] = false
waits k ((id, slot) ∷ rest) = nat_eq id k || waits k rest

-- No request up to the bound waits without an answer.
abbrev settled : ℕ → Pending → Bool
settled n [] = true
settled n ((id, slot) ∷ rest) = (ltb n id || is_some slot) && settled n rest

is_some-offer : (v : Json) (slot : Option Json) → is_some (offer v slot) ≡ true
is_some-offer v none = refl
is_some-offer v (some old) = refl

settled-fail_all : (n : ℕ) (p : Pending) → settled n (fail_all p) ≡ true
settled-fail_all n [] = refl
settled-fail_all n ((id, slot) ∷ rest) =
    ground (arith, is_some-offer (exit_error id) slot, settled-fail_all n rest)

settled-remove : (n k : ℕ) (p : Pending) → settled n p ≡ true → settled n (remove k p) ≡ true
settled-remove n k [] h = refl
settled-remove n k ((id, slot) ∷ rest) h = ground (arith, settled-remove n k rest)

settled-answer :
    (n k : ℕ) (v : Json) (p : Pending) → settled n p ≡ true → settled n (answer k v p) ≡ true
settled-answer n k v [] h = refl
settled-answer n k v ((id, slot) ∷ rest) h =
    ground (arith, is_some-offer v slot, settled-answer n k v rest)

settled-slot_of :
    (n k : ℕ) (p : Pending)
    → k ≤ n
    → settled n p ≡ true
    → waits k p ≡ true
    → is_some (slot_of k p) ≡ true
settled-slot_of n k [] le h w = absurd (ground arith)
settled-slot_of n k ((id, slot) ∷ rest) le h w = ground (arith, settled-slot_of n k rest le)

-- The waiters of a server: `n` is the counter.
abbrev Listed : ℕ → Pending → Type 0
Listed n p = Waiters (suc n) p

Listed-laws : IsKept Listed
Listed-laws = record {
  registers = λ n p w. (omega arith, tt, w);
  removes = λ n k p w. remove-Waiters (suc n) k p w;
  fails = λ n p w. fail_all-Waiters (suc n) p w;
  answers = λ n k v p e w. answer-Waiters (suc n) k v p e w;
}

-- From `m` on, the counter and no waiter up to `m` without an answer.
abbrev Settled : ℕ → ℕ → Pending → Type 0
Settled m n p = (m ≤ n) × (settled m p ≡ true)

Settled-laws : (m : ℕ) → IsKept (Settled m)
Settled-laws m = record {
  registers = λ n p w. (omega (arith, w.0), ground (arith, w.0, w.1));
  removes = λ n k p w. (w.0, settled-remove m k p w.1);
  fails = λ n p w. (w.0, settled-fail_all m p);
  answers = λ n k v p e w. (w.0, settled-answer m k v p w.1);
}

Reach-Listed : {s : Server} → Reach new_server s → IsServed Listed Listed-laws s
Reach-Listed r = Reach-IsServed Listed Listed-laws r (refl, tt)

waited-Answers :
    (id : ℕ) (v : Json) (o : Option Json) → Answers id o → waited o ≡ ok v → reply_id v ≡ some id
waited-Answers id v none a e = absurd (ground arith)
waited-Answers id v (some w) a e = ground arith

is_ok-waited : (o : Option Json) → is_ok (waited o) ≡ is_some o
is_ok-waited none = refl
is_ok-waited (some v) = refl

-- What a crash does to a server that its owner has not stopped.
mark_crashed-Settled :
    (s : Server)
    → s.closed ≡ false
    → Settled s.counter (mark_crashed s).counter (mark_crashed s).pending
unfolding mark_crashed
mark_crashed-Settled s h = ground (arith, settled-fail_all s.counter s.pending)

-- Whatever requests, messages, crashes, stops, starts and restarts there were, an answer that a
-- request returns carries the id of that request (`true` counts as 1 and `false` as 0).
pub own_answer :
    {s : Server} (id : ℕ) (v : Json)
    → Reach new_server s
    → (end_request id s).0 ≡ ok v
    → reply_id v ≡ some id
unfolding end_request
own_answer {s} id v r e =
    waited-Answers id v (slot_of id s.pending)
      (slot_of-Answers (suc s.counter) id s.pending (Reach-Listed r).1) e

-- After a crash of a server that is READY or INITIALIZING no request sent before it waits in vain:
-- in every later state, if it has not ended yet, it ends with an answer and not with the timeout.
pub crash_answers :
    {s t : Server} (id : ℕ)
    → Reach new_server s
    → may_send s.lifecycle ≡ true
    → id ≤ s.counter
    → Reach (mark_crashed s) t
    → waits id t.pending ≡ true
    → is_ok (end_request id t).0 ≡ true
unfolding end_request
crash_answers {s} {t} id r live le after w =
    let crashed_ = mark_crashed-Settled s (ground (arith, (Reach-Listed r).0)) in
    let served =
      Reach-IsServed (Settled s.counter) (Settled-laws s.counter) after
        ((Reach-Listed (later r (dies s))).0, crashed_) in
    rw (is_ok-waited (slot_of id t.pending))
      (settled-slot_of s.counter id t.pending le served.1.1 w)

-- The end of a process that the owner has stopped answers nothing: a request that had no answer
-- when `stop` was called ends with the timeout.
pub stop_leaves_waiting :
    (id : ℕ) (s : Server)
    → s.started ≡ true
    → slot_of id s.pending ≡ none
    → (end_request id (mark_crashed (stop s))).0 ≡ raised timed_out
unfolding end_request mark_crashed stop
stop_leaves_waiting id s h n = ground arith

-- In a READY or INITIALIZING server, in any state that can be reached, a request with a positive
-- timeout finds a process to write to: it gets the next id, or the write itself fails.
pub send_finds_process :
    {s : Server} (timeout : ℤ) (early : Bool)
    → Reach new_server s
    → may_send s.lifecycle ≡ true
    → is_positive timeout ≡ true
    → (send_request timeout early written s ≡ (ok (suc s.counter), register s))
      × ((send_request timeout early broken_pipe s).0 ≡ raised write_failed)
unfolding send_request
send_finds_process {s} timeout early r live pos_ = let l = (Reach-Listed r).0 in ground arith

-- A restart within the limit, from every lifecycle, FAILED included, ends READY with the process
-- there and counted, where the timeout is positive, the process starts and `initialize` is accepted.
pub restart_recovers :
    (timeout : ℤ) (limit : ℕ) (up : Startup) (v : Json) (s : Server)
    → is_positive timeout ≡ true
    → s.restart_count < limit
    → up.spawns ≡ true
    → up.reply ≡ answered v
    → is_accepted v ≡ true
    → let (o, t) = restart timeout limit up s in
      (o ≡ ok v)
      × (t.lifecycle ≡ ready)
      × (is_live t ≡ true)
      × (t.restart_count ≡ suc s.restart_count)
unfolding restart begin_restart start begin_start initialized stop
restart_recovers timeout limit up v s p lt sp re acc = ground arith
