-- ===== src/Registry/Writes.antt =====
-- What one call of the registry may write.
use codex_waiting_plgin.Prelude.{
  if-keeps, refl, [], not, String, true, ◌||◌, List, Option, none, some, ◌++◌, eq_refl, false, ◌∷◌,
  ◌==◌, Bool, ◌≡◌,
}
use codex_waiting_plgin.Registry.{
  new_handoff, Registration, RegistryError, changed_handoff, update_handoff_in, update_handoff,
  update_turn, HandoffField, new_thread, record_found, mark_state, change_handoff, ThreadRecord,
  record_handoff, update_found, record_in, Threads, append_turn, register_thread, Handoff, find_job,
  add_turn, with_turn, with_state,
}
use codex_waiting_plgin.Prelude.Exec.{Outcome}
use codex_waiting_plgin.Prelude.Dict.{get, put}
use codex_waiting_plgin.Protocol.Json.{Members}

pub data Call : Type 0 where
  registers : String → String → Registration → Call
  appends : String → String → String → String → Call
  changes_turn : String → String → String → Option String → Option String → Call
  marks : String → String → String → Option String → Call
  records : String → String → String → Option String → String → Members → String → Call
  updates : String → String → String → List HandoffField → Call

unfoldable pub run_call : Call → Threads → Threads
run_call (registers now thread r) l = (register_thread now thread r l).1
run_call (appends now thread turn status) l = (append_turn now thread turn status l).1
run_call (changes_turn now thread turn status completed) l =
    (update_turn now thread turn status completed l).1
run_call (marks now thread state instance_) l = (mark_state now thread state instance_ l).1
run_call (records now thread turn item job marker state) l =
    (record_handoff now thread turn item job marker state l).1
run_call (updates now thread job fs) l = (update_handoff now thread job fs l).1

unfoldable pub run_all : List Call → Threads → Threads
run_all [] l = l
run_all (c ∷ cs) l = run_all cs (run_call c l)

-- A call that registers the thread.
abbrev pub is_registration : String → Call → Bool
is_registration thread (registers now t r) = t == thread
is_registration thread c = false

-- What a call does to the handoffs of a thread.
pub data Change (thread : String) (hs : List Handoff) : List Handoff → Type 0 where
  same : Change thread hs hs
  added :
      (h : Handoff)
      → find_job h.job_id hs ≡ none
      → h.thread_id ≡ thread
      → Change thread hs (hs ++ h ∷ [])
  changed :
      (now job : String) (fs : List HandoffField) → Change thread hs (change_handoff now job fs hs)

pub data Write (c : Call) (l : Threads) : Threads → Type 0 where
  untouched : Write c l l
  resets :
      (thread : String) (r : ThreadRecord)
      → is_registration thread c ≡ true
      → r.handoffs ≡ []
      → Write c l (put thread r l)
  rewrites :
      (thread : String) (r w : ThreadRecord)
      → get thread l ≡ some r
      → Change thread r.handoffs w.handoffs
      → Write c l (put thread w l)

with_state-handoffs :
    (state : String) (i : Option String) (r : ThreadRecord)
    → (with_state state i r).handoffs ≡ r.handoffs
with_state-handoffs state none r = refl
with_state-handoffs state (some i) r = refl

module _ (c : Call) (now thread : String) (l : Threads) where
  -- A change of the record that leaves the handoffs.
  update-Write :
      (f : ThreadRecord → ThreadRecord)
      → ((r : ThreadRecord) → (f r).handoffs ≡ r.handoffs)
      → (o : Option ThreadRecord) → get thread l ≡ o
      → Write c l (update_found now thread f o l).1
  update-Write f keeps none g = untouched
  update-Write f keeps (some r) g =
      rewrites thread r (record (f r) { updated_at = now }) g (rw (keeps r) same)

  record-Write :
      (h : Handoff) (r : ThreadRecord) (o : Option Handoff)
      → h.thread_id ≡ thread
      → get thread l ≡ some r
      → find_job h.job_id r.handoffs ≡ o
      → Write c l (record_found now thread h r o l).1
  record-Write h r none own g n = rewrites thread r _ g (added h n own)
  record-Write h r (some x) own g n =
      if-keeps (λ (p : Outcome RegistryError Handoff × Threads). Write c l p.1)
        (not (x.turn_id == h.turn_id) || not (x.thread_id == thread)) untouched untouched

  record_in-Write :
      (h : Handoff) (o : Option ThreadRecord)
      → h.thread_id ≡ thread
      → get thread l ≡ o
      → Write c l (record_in now thread h o l).1
  record_in-Write h none own g = untouched
  record_in-Write h (some r) own g = record-Write h r (find_job h.job_id r.handoffs) own g refl

  changed-Write :
      (job : String) (fs : List HandoffField) (r : ThreadRecord) (o : Option Handoff)
      → get thread l ≡ some r
      → Write c l (changed_handoff now thread job fs r o l).1
  changed-Write job fs r none g = untouched
  changed-Write job fs r (some h) g = rewrites thread r _ g (changed now job fs)

  update_handoff_in-Write :
      (job : String) (fs : List HandoffField) (o : Option ThreadRecord)
      → get thread l ≡ o
      → Write c l (update_handoff_in now thread job fs o l).1
  update_handoff_in-Write job fs none g = untouched
  update_handoff_in-Write job fs (some r) g = changed-Write job fs r (find_job job r.handoffs) g

-- Every call writes nothing, or one record.
pub run_call-Write : (c : Call) (l : Threads) → Write c l (run_call c l)
unfolding run_call register_thread append_turn update_turn mark_state record_handoff update_handoff
run_call-Write (registers now thread r) l =
    if-keeps
      (λ (p : Outcome RegistryError ThreadRecord × Threads). Write (registers now thread r) l p.1)
      (thread == "" || r.app_server_instance == "") untouched
      (resets thread (new_thread now thread r) (eq_refl thread) refl)
run_call-Write (appends now thread turn status) l =
    update-Write _ now thread l (add_turn now turn status) (λ r. refl) (get thread l) refl
run_call-Write (changes_turn now thread turn status completed) l =
    update-Write _ now thread l (with_turn now turn status completed) (λ r. refl) (get thread l)
      refl
run_call-Write (marks now thread state i) l =
    update-Write _ now thread l (with_state state i) (with_state-handoffs state i) (get thread l)
      refl
run_call-Write (records now thread turn item job marker state) l =
    record_in-Write _ now thread l (new_handoff now thread turn item job marker state)
      (get thread l) refl refl
run_call-Write (updates now thread job fs) l =
    update_handoff_in-Write _ now thread l job fs (get thread l) refl
