-- ===== src/Examples/Registering.antt =====
-- A registry with one or two threads.
use codex_waiting_plgin.Prelude.{[], refl, ◌≡◌, true, none, some, List, ◌∷◌}
use codex_waiting_plgin.Registry.Writes.{appends, records, updates, registers, Call, run_all}
use codex_waiting_plgin.Registry.Bindings.{
  run_all_mapping, run_all-AllThreads, mapping, mapping_in, AllThreads,
}
use codex_waiting_plgin.Prelude.Exec.{raised, ok}
use codex_waiting_plgin.Protocol.Json.{Members, member, end, boolean, text}
use codex_waiting_plgin.Registry.{
  mapped_elsewhere, state_field, Threads, record_handoff, new_handoff, new_thread, Handoff,
}
use codex_waiting_plgin.Registry.Recording.{record_handoff_again, job_in_two_threads}
use codex_waiting_plgin.Prelude.Dict.{get}
use codex_waiting_plgin.Examples.{registration}

abbrev marker : Members
marker = member "codex_snooze" (boolean true) (member "completion_event_id" (text "e1") end)

-- The thread th1 holds the job j1; the thread th2 holds none.
abbrev mapping_of_j1 : Handoff
mapping_of_j1 = new_handoff "t1" "th1" "tu1" (some "i1") "j1" marker "HANDOFF_REQUESTED"

abbrev one_job : Threads
one_job =
    ("th1", record (new_thread "t0" "th1" registration) { handoffs = mapping_of_j1 ∷ [] })
    ∷ ("th2", new_thread "t0" "th2" registration)
    ∷ []

abbrev calls : List Call
calls =
    appends "t2" "th1" "tu2" "STARTED"
    ∷ records "t3" "th1" "tu2" none "j1" marker "HANDOFF_REQUESTED"
    ∷ updates "t4" "th1" "j1" (state_field "JOB_COMPLETED" ∷ [])
    ∷ registers "t5" "th2" registration
    ∷ []

run_all_mapping_example :
    mapping_in "j1" (get "th1" (run_all calls one_job)) ≡ some (mapping mapping_of_j1)
run_all_mapping_example = run_all_mapping calls "th1" "j1" (mapping mapping_of_j1) one_job refl refl

run_all-AllThreads_example : AllThreads (run_all calls one_job)
run_all-AllThreads_example = run_all-AllThreads calls one_job ((refl, refl, tt), (tt, tt))

abbrev none_yet : Threads
none_yet = ("th1", new_thread "t0" "th1" registration) ∷ []

record_handoff_again_example :
    let l' =
      (record_handoff "t1" "th1" "tu1" (some "i1") "j1" marker "HANDOFF_REQUESTED" none_yet).1 in
    record_handoff "t2" "th1" "tu2" none "j1" end "FAILED" l' ≡ (raised mapped_elsewhere, l')
record_handoff_again_example =
    record_handoff_again "t1" "t2" "th1" "tu1" "tu2" "j1" "HANDOFF_REQUESTED" "FAILED" (some "i1")
      none marker end mapping_of_j1 none_yet (unfold record_handoff in refl)

job_in_two_threads_example :
    let (o, l') = record_handoff "t2" "th2" "tu9" none "j1" marker "HANDOFF_REQUESTED" one_job in
    (o ≡ ok (new_handoff "t2" "th2" "tu9" none "j1" marker "HANDOFF_REQUESTED"))
    × (mapping_in "j1" (get "th1" l') ≡ some (mapping mapping_of_j1))
    × (mapping_in "j1" (get "th2" l')
        ≡ some (mapping (new_handoff "t2" "th2" "tu9" none "j1" marker "HANDOFF_REQUESTED")))
job_in_two_threads_example =
    job_in_two_threads "t2" "th1" "th2" "tu9" "j1" "HANDOFF_REQUESTED" none marker
      (new_thread "t0" "th2" registration) (mapping mapping_of_j1) one_job refl refl refl refl
