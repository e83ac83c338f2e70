-- ===== src/Gate/Safety.antt =====
-- What evidence each route of the gate rests on.
use codex_waiting_plgin.Gate.{
  direct_required, has, app_server_partial, choose_control_plane, all_pass, Flags,
  app_server_direct, passes, find, saw, Capability, choose_architecture, cli_resume_fallback,
}
use codex_waiting_plgin.Prelude.{
  ◌≡◌, ◌↔◌, String, arith, true, List, ◌||◌, false, ◌∷◌, refl, ◌≢◌, [],
}

-- The direct mode is chosen exactly where all eight flags are PASS, and the partial mode exactly
-- where not all are, but the App Server is controlled and the interrupt is PASS or PARTIAL.
pub choose_control_plane_lem :
    (flags : Flags)
    → ((choose_control_plane flags ≡ app_server_direct) ↔ (all_pass flags direct_required ≡ true))
      × ((choose_control_plane flags ≡ app_server_partial) ↔ (
          (all_pass flags direct_required ≡ false)
          × (has flags "app_server_control" "PASS" ≡ true)
          × ((has flags "turn_interrupt" "PASS" || has flags "turn_interrupt" "PARTIAL") ≡ true)))
unfolding choose_control_plane
choose_control_plane_lem flags = ground arith

all_pass_mono :
    (f g : Flags)
    → ((name : String) → has f name "PASS" ≡ true → has g name "PASS" ≡ true)
    → (names : List String) → all_pass f names ≡ true
    → all_pass g names ≡ true
all_pass_mono f g better [] h = refl
all_pass_mono f g better (name ∷ names) h =
    ground (arith, better name, all_pass_mono f g better names)

-- Evidence only helps: where every flag that is PASS stays PASS, the direct mode stays chosen.
pub direct_mono :
    (f g : Flags)
    → ((name : String) → has f name "PASS" ≡ true → has g name "PASS" ≡ true)
    → choose_control_plane f ≡ app_server_direct
    → choose_control_plane g ≡ app_server_direct
direct_mono f g better h =
    (choose_control_plane_lem g).0.1
      (all_pass_mono f g better direct_required ((choose_control_plane_lem f).0.0 h))

-- Delivery goes directly to the App Server only with six kinds of evidence together: the thread of
-- the Desktop, its sandbox policy and its approval policy restored by a resume, and PASS for delivery
-- to a busy thread, for the interrupt and for survival of it. The partial mode is never chosen here,
-- and the fallback exactly where delivery is not direct, and the resume is PASS and restores the
-- history.
pub choose_architecture_lem :
    (cs : List Capability)
    → let resume = find "codex_exec_resume" cs in
      ((choose_architecture cs ≡ app_server_direct) ↔ (
        (saw resume "desktop_ui_same_thread" ≡ true)
        × (saw resume "sandbox_policy_restored" ≡ true)
        × (saw resume "approval_policy_restored" ≡ true)
        × (passes (find "busy_thread_delivery" cs) ≡ true)
        × (passes (find "turn_interrupt" cs) ≡ true)
        × (passes (find "snooze_turn_interrupt_survival" cs) ≡ true)))
      × (choose_architecture cs ≢ app_server_partial)
      × ((choose_architecture cs ≡ cli_resume_fallback) ↔ (
          (choose_architecture cs ≢ app_server_direct)
          × (passes resume ≡ true)
          × (saw resume "conversation_history_restored" ≡ true)))
unfolding choose_architecture
choose_architecture_lem cs = ground arith
