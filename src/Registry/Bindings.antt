-- ===== src/Registry/Bindings.antt =====
-- The mapping of jobs to turns, under any calls of the registry.
use codex_waiting_plgin.Registry.Writes.{
  added, Change, same, changed, resets, is_registration, rewrites, run_call-Write, Call, run_all,
  Write, run_call, updates, untouched, marks, registers, records, changes_turn, appends,
}
use codex_waiting_plgin.Prelude.{
  refl, if-keeps, if◌then◌else◌, ◌∙◌, some, Option, arith, ◌==◌, ◌++◌, none, String, List, [], ◌≡◌,
  ◌∷◌, ap, Bool, ◌||◌, false, eq_iff, inl, true, inr, Bool-cases,
}
use codex_waiting_plgin.Protocol.Json.{Members, Json}
use codex_waiting_plgin.Registry.{
  delivery_field, turn_field, digest_field, event_field, error_field, find_job, HandoffField,
  Handoff, set_fields, change_handoff, turn_status_field, state_field, ThreadRecord, set_field,
  Threads,
}
use codex_waiting_plgin.Prelude.Dict.{put, get, get-put}

-- What is fixed of a handoff when it is recorded.
pub record Mapping : Type 0 where
  pub thread_id : String
  pub turn_id : String
  pub item_id : Option String
  pub job_id : String
  pub event_id : Option Json
  pub marker : Members
  pub created_at : String

abbrev pub mapping : Handoff → Mapping
mapping h = record {
  thread_id = h.thread_id;
  turn_id = h.turn_id;
  item_id = h.item_id;
  job_id = h.job_id;
  event_id = h.event_id;
  marker = h.marker;
  created_at = h.created_at;
}

abbrev pub mapped : String → List Handoff → Option Mapping
mapped k [] = none
mapped k (h ∷ hs) = if h.job_id == k then some (mapping h) else mapped k hs

-- The mapping of a job under a thread.
abbrev pub mapping_in : String → Option ThreadRecord → Option Mapping
mapping_in job none = none
mapping_in job (some r) = mapped job r.handoffs

mapping-set_field : (f : HandoffField) (h : Handoff) → mapping (set_field f h) ≡ mapping h
mapping-set_field (state_field v) h = refl
mapping-set_field (error_field v) h = refl
mapping-set_field (turn_status_field v) h = refl
mapping-set_field (event_field v) h = refl
mapping-set_field (digest_field v) h = refl
mapping-set_field (turn_field v) h = refl
mapping-set_field (delivery_field v) h = refl

pub mapping-set_fields :
    (fs : List HandoffField) (h : Handoff) → mapping (set_fields fs h) ≡ mapping h
mapping-set_fields [] h = refl
mapping-set_fields (f ∷ fs) h = mapping-set_fields fs (set_field f h) ∙ mapping-set_field f h

-- An update keeps every mapping.
mapped-change :
    (now job k : String) (fs : List HandoffField) (hs : List Handoff)
    → mapped k (change_handoff now job fs hs) ≡ mapped k hs
mapped-change now job k fs [] = refl
mapped-change now job k fs (y ∷ hs) =
    let head = ap (λ m. if m.job_id == k then some m else mapped k hs) (mapping-set_fields fs y) in
    let tail =
      ap (λ o. if y.job_id == k then some (mapping y) else o) (mapped-change now job k fs hs) in
    if-keeps (λ l. mapped k l ≡ mapped k (y ∷ hs)) (y.job_id == job) head tail

mapped-append :
    (k : String) (x : Handoff) (m : Mapping) (hs : List Handoff)
    → mapped k hs ≡ some m
    → mapped k (hs ++ x ∷ []) ≡ some m
mapped-append k x m [] e = absurd (ground arith)
mapped-append k x m (y ∷ hs) e = ground (arith, mapped-append k x m hs)

-- A job without a handoff has no mapping.
mapped-none : (k : String) (hs : List Handoff) → find_job k hs ≡ none → mapped k hs ≡ none
mapped-none k [] e = refl
mapped-none k (y ∷ hs) e = ground (arith, mapped-none k hs)

Change-mapped :
    {thread : String} {hs hs' : List Handoff} (k : String) (m : Mapping)
    → Change thread hs hs'
    → mapped k hs ≡ some m
    → mapped k hs' ≡ some m
Change-mapped k m same e = e
Change-mapped {thread} {hs} k m (added h n o) e = mapped-append k h m hs e
Change-mapped {thread} {hs} k m (changed now job fs) e = mapped-change now job k fs hs ∙ e

-- Each handoff under its own thread, and each job once.
abbrev pub AllOwned : String → List Handoff → Type 0
AllOwned thread [] = Unit {0}
AllOwned thread (h ∷ hs) = (h.thread_id ≡ thread) × (mapped h.job_id hs ≡ none) × AllOwned thread hs

mapped-append-none :
    (k : String) (x : Handoff) (hs : List Handoff)
    → mapped k hs ≡ none
    → (x.job_id == k) ≡ false
    → mapped k (hs ++ x ∷ []) ≡ none
mapped-append-none k x [] n d = ground arith
mapped-append-none k x (y ∷ hs) n d = ground (arith, mapped-append-none k x hs)

append-AllOwned :
    (thread : String) (x : Handoff) (hs : List Handoff)
    → mapped x.job_id hs ≡ none
    → x.thread_id ≡ thread
    → AllOwned thread hs
    → AllOwned thread (hs ++ x ∷ [])
append-AllOwned thread x [] n o a = (o, refl, tt)
append-AllOwned thread x (y ∷ hs) n o a = (
  a.0,
  mapped-append-none y.job_id x hs a.1
      (ground (arith, eq_iff x.job_id y.job_id, eq_iff y.job_id x.job_id)),
  append-AllOwned thread x hs (ground arith) o a.2,
)

change-AllOwned :
    (thread now job : String) (fs : List HandoffField) (hs : List Handoff)
    → AllOwned thread hs
    → AllOwned thread (change_handoff now job fs hs)
change-AllOwned thread now job fs [] a = tt
change-AllOwned thread now job fs (y ∷ hs) a =
    if-keeps (AllOwned thread) (y.job_id == job)
      (
        ap (λ m. m.thread_id) (mapping-set_fields fs y) ∙ a.0,
        ap (λ m. mapped m.job_id hs) (mapping-set_fields fs y) ∙ a.1,
        a.2,
      )
      (a.0, mapped-change now job y.job_id fs hs ∙ a.1, change-AllOwned thread now job fs hs a.2)

Change-AllOwned :
    {thread : String} {hs hs' : List Handoff}
    → Change thread hs hs'
    → AllOwned thread hs
    → AllOwned thread hs'
Change-AllOwned same a = a
Change-AllOwned {thread} {hs} (added h n o) a =
    append-AllOwned thread h hs (mapped-none h.job_id hs n) o a
Change-AllOwned {thread} {hs} (changed now job fs) a = change-AllOwned thread now job fs hs a

-- Each thread of the registry.
abbrev pub AllThreads : Threads → Type 0
AllThreads [] = Unit {0}
AllThreads ((thread, r) ∷ l) = AllOwned thread r.handoffs × AllThreads l

put-AllThreads :
    (thread : String) (r : ThreadRecord) (l : Threads)
    → AllOwned thread r.handoffs
    → AllThreads l
    → AllThreads (put thread r l)
put-AllThreads thread r [] o a = (o, tt)
put-AllThreads thread r ((t, x) ∷ l) o a =
    if-keeps AllThreads (t == thread) (o, a.1) (a.0, put-AllThreads thread r l o a.1)

get-AllOwned :
    (thread : String) (r : ThreadRecord) (l : Threads)
    → get thread l ≡ some r
    → AllThreads l
    → AllOwned thread r.handoffs
get-AllOwned thread r [] e a = absurd (ground arith)
get-AllOwned thread r ((t, x) ∷ l) e a = elim (Bool-cases (t == thread)) [
  | inl eq ↦
      let p : t ≡ thread = ground (arith, eq_iff t thread) in
      let q : x ≡ r = ground arith in rw⁻¹ p (rw q at a.0)
  | inr other ↦ get-AllOwned thread r l (ground arith) a.1
]

Write-AllThreads : {c : Call} {l l' : Threads} → Write c l l' → AllThreads l → AllThreads l'
Write-AllThreads untouched a = a
Write-AllThreads {c} {l} (resets thread r i e) a = put-AllThreads thread r l (rw e tt) a
Write-AllThreads {c} {l} (rewrites thread r w g ch) a =
    put-AllThreads thread w l (Change-AllOwned ch (get-AllOwned thread r l g a)) a

-- Whatever calls are made on a new registry, each thread holds a job at most once, and only handoffs
-- of its own.
pub run_all-AllThreads : (cs : List Call) (l : Threads) → AllThreads l → AllThreads (run_all cs l)
unfolding run_all
run_all-AllThreads [] l a = a
run_all-AllThreads (c ∷ cs) l a =
    run_all-AllThreads cs (run_call c l) (Write-AllThreads (run_call-Write c l) a)

registration_other :
    (c : Call) (t thread : String)
    → is_registration t c ≡ true
    → is_registration thread c ≡ false
    → (t == thread) ≡ false
registration_other (registers now u r) t thread i n =
    ground (arith, eq_iff u t, eq_iff t thread, eq_iff u thread)
registration_other (appends _ _ _ _) t thread i n = absurd (ground arith)
registration_other (changes_turn _ _ _ _ _) t thread i n = absurd (ground arith)
registration_other (marks _ _ _ _) t thread i n = absurd (ground arith)
registration_other (records _ _ _ _ _ _ _) t thread i n = absurd (ground arith)
registration_other (updates _ _ _ _) t thread i n = absurd (ground arith)

Write-mapping :
    {c : Call} {l l' : Threads} (thread job : String) (m : Mapping)
    → is_registration thread c ≡ false
    → Write c l l'
    → mapping_in job (get thread l) ≡ some m
    → mapping_in job (get thread l') ≡ some m
Write-mapping thread job m n untouched e = e
Write-mapping {c} {l} thread job m n (resets t r i h) e =
    rw (get-put t thread r l, registration_other c t thread i n) e
Write-mapping {c} {l} thread job m n (rewrites t r w g ch) e = elim (Bool-cases (t == thread)) [
  | inl eq ↦
      let h : get thread l ≡ some r = rw⁻¹ ((eq_iff t thread).0 eq) g in
      rw (get-put t thread w l, eq) (Change-mapped job m ch (rw h at e))
  | inr ne ↦ rw (get-put t thread w l, ne) e
]

-- Some call registers the thread.
abbrev pub any_registration : String → List Call → Bool
any_registration thread [] = false
any_registration thread (c ∷ cs) = is_registration thread c || any_registration thread cs

-- A job once recorded stays bound to its turn, its item, its marker and its event under any calls,
-- until its thread is registered anew.
pub run_all_mapping :
    (cs : List Call) (thread job : String) (m : Mapping) (l : Threads)
    → any_registration thread cs ≡ false
    → mapping_in job (get thread l) ≡ some m
    → mapping_in job (get thread (run_all cs l)) ≡ some m
unfolding run_all
run_all_mapping [] thread job m l n e = e
run_all_mapping (c ∷ cs) thread job m l n e =
    run_all_mapping cs thread job m (run_call c l) (ground arith)
      (Write-mapping thread job m (ground arith) (run_call-Write c l) e)
