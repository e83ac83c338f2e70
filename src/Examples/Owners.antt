-- ===== src/Examples/Owners.antt =====
-- The ledger of owners with one job, and evidence for a backend.
use codex_waiting_plgin.Prelude.{
  [], String, List, if◌then◌else◌, ◌≡◌, some, refl, ◌==◌, none, ◌∷◌, ◌≢◌, Option, ◌↔◌,
}
use codex_waiting_plgin.Ownership.{
  select_backend, descendant_supervisor, Entry, foreground, thread_native_terminal,
  controller_command_exec, handoff_pending, supervisor_background, PendingHandoff,
  cli_resume_fallback,
}
use codex_waiting_plgin.Ownership.Traces.{AllOwned, perform_all-AllOwned, perform_all-Kept}
use codex_waiting_plgin.Ownership.Entries.{moves, creates, Call, Kept, perform_all}
use codex_waiting_plgin.Ownership.Selection.{select_backend_lem, AllPass}
use codex_waiting_plgin.Prelude.Dict.{get, put}

abbrev handoff : PendingHandoff
handoff = record {
  handoff_id = "h1";
  job_id = "j1";
  thread_id = "th1";
  turn_id = "tu1";
  expected_command_sha256 = "make";
  threshold_seconds = "10";
  backend = descendant_supervisor;
  state = foreground;
}

abbrev entry : Entry
entry = record { handoff = handoff; created_at = "t0"; updated_at = "t0" }

abbrev calls : List Call
calls =
    creates "t1" handoff
    ∷ moves "t2" "j1" foreground handoff_pending none
    ∷ moves "t3" "j1" handoff_pending supervisor_background (some descendant_supervisor)
    ∷ []

perform_all-Kept_example : Kept entry (get "j1" (perform_all calls (put "j1" entry [])))
perform_all-Kept_example = perform_all-Kept calls "j1" entry (put "j1" entry []) refl

none_yet : AllOwned []
none_yet k e g = cc

perform_all-AllOwned_example : AllOwned (perform_all calls [])
perform_all-AllOwned_example = perform_all-AllOwned calls [] (refl, (tt, (tt, tt))) none_yet

abbrev every : String → Option String
every k = some "PASS"

abbrev all_but_survival : String → Option String
all_but_survival k = if k == "job_survival" then none else some "PASS"

select_backend_lem_example :
    ((select_backend all_but_survival every ≡ thread_native_terminal) ↔ AllPass all_but_survival)
    × ((select_backend all_but_survival every ≡ descendant_supervisor)
        ↔ ((¬ (AllPass all_but_survival)) × AllPass every))
    × ((select_backend all_but_survival every ≡ cli_resume_fallback)
        ↔ ((¬ (AllPass all_but_survival)) × (¬ (AllPass every))))
    × (select_backend all_but_survival every ≢ controller_command_exec)
select_backend_lem_example = select_backend_lem all_but_survival every
