-- ===== src/Ownership/Selection.antt =====
-- What evidence a backend is selected on.
use codex_waiting_plgin.Prelude.{
  Option, eq_iff, [], String, ◌≢◌, arith, true, false, ◌⊎◌, ◌≡◌, some, none, List, ◌∷◌, ◌↔◌,
  option_eq, contains, if◌then◌else◌, Bool, Bool-cases, refl, option_eq→eq, ◌&&◌, inr, inl,
}
use codex_waiting_plgin.Ownership.{
  controller_command_exec, unknown, required_evidence, Integrity, command_integrity,
  descendant_supervisor, ready, select_backend, pass, CommandHash, thread_native_terminal,
  cli_resume_fallback, Backend,
}

abbrev choice : Bool → Bool → Backend
choice a b =
    if a then thread_native_terminal else if b then descendant_supervisor else cli_resume_fallback

choice_lem :
    (a b : Bool)
    → ((choice a b ≡ thread_native_terminal) ↔ (a ≡ true))
      × ((choice a b ≡ descendant_supervisor) ↔ ((a ≡ false) × (b ≡ true)))
      × ((choice a b ≡ cli_resume_fallback) ↔ ((a ≡ false) × (b ≡ false)))
      × (choice a b ≢ controller_command_exec)
choice_lem a b = ground arith

-- The evidence has PASS under each of the eight keys.
pub record AllPass (evidence : String → Option String) : Type 0 where
  pub status : evidence "status" ≡ some "PASS"
  pub sandbox_parity : evidence "sandbox_parity" ≡ some "PASS"
  pub approval_parity : evidence "approval_parity" ≡ some "PASS"
  pub handoff_10s : evidence "handoff_10s" ≡ some "PASS"
  pub job_survival : evidence "job_survival" ≡ some "PASS"
  pub model_idle : evidence "model_idle" ≡ some "PASS"
  pub auto_continuation : evidence "auto_continuation" ≡ some "PASS"
  pub command_integrity : evidence "command_integrity" ≡ some "PASS"

passes_true :
    (evidence : String → Option String) (k : String) (b : Bool)
    → option_eq (evidence k) (some "PASS") && b ≡ true
    → (evidence k ≡ some "PASS") × (b ≡ true)
passes_true evidence k b h = (option_eq→eq (evidence k) (some "PASS") (ground arith), ground arith)

ready-AllPass :
    (evidence : String → Option String) → ready evidence required_evidence ≡ true → AllPass evidence
ready-AllPass evidence h =
    let a = passes_true evidence "status" _ h in
    let b = passes_true evidence "sandbox_parity" _ a.1 in
    let c = passes_true evidence "approval_parity" _ b.1 in
    let d = passes_true evidence "handoff_10s" _ c.1 in
    let e = passes_true evidence "job_survival" _ d.1 in
    let f = passes_true evidence "model_idle" _ e.1 in
    let g = passes_true evidence "auto_continuation" _ f.1 in
    let i = passes_true evidence "command_integrity" _ g.1 in
    record {
      status = a.0;
      sandbox_parity = b.0;
      approval_parity = c.0;
      handoff_10s = d.0;
      job_survival = e.0;
      model_idle = f.0;
      auto_continuation = g.0;
      command_integrity = i.0;
    }

AllPass-ready :
    (evidence : String → Option String) → AllPass evidence → ready evidence required_evidence ≡ true
AllPass-ready evidence p =
    rw
      (
        p.status, p.sandbox_parity, p.approval_parity, p.handoff_10s, p.job_survival, p.model_idle,
        p.auto_continuation, p.command_integrity,
      )
      refl

never_both : (b : Bool) → b ≡ true → b ≡ false → ⊥
never_both b y n = ground arith

ready_iff :
    (evidence : String → Option String)
    → (ready evidence required_evidence ≡ false) ↔ (¬ (AllPass evidence))
ready_iff evidence =
    let to = AllPass-ready evidence in
    let from = ready-AllPass evidence in
    let r = ready evidence required_evidence in
    (
      (λ e p. never_both r (to p) e),
      (λ n. elim (Bool-cases r) [ inl y ↦ absurd (n (from y)) | inr f ↦ f ]),
    )

-- A candidate is selected exactly where each of the eight keys of its evidence is PASS, the native
-- terminal before the descendant; else the fallback is, and the backend of the controller never.
pub select_backend_lem :
    (native descendant : String → Option String)
    → ((select_backend native descendant ≡ thread_native_terminal) ↔ AllPass native)
      × ((select_backend native descendant ≡ descendant_supervisor)
          ↔ ((¬ (AllPass native)) × AllPass descendant))
      × ((select_backend native descendant ≡ cli_resume_fallback)
          ↔ ((¬ (AllPass native)) × (¬ (AllPass descendant))))
      × (select_backend native descendant ≢ controller_command_exec)
unfolding select_backend
select_backend_lem native descendant =
    let n = ready_iff native in
    let d = ready_iff descendant in
    let (a, b, c, never) =
      choice_lem (ready native required_evidence) (ready descendant required_evidence) in
    (
      ((λ e. ready-AllPass native (a.0 e)), (λ p. a.1 (AllPass-ready native p))),
      (
        (λ e. (n.0 (b.0 e).0, ready-AllPass descendant (b.0 e).1)),
        (λ p. b.1 (n.1 p.0, AllPass-ready descendant p.1)),
      ),
      ((λ e. (n.0 (c.0 e).0, d.0 (c.0 e).1)), (λ p. c.1 (n.1 p.0, d.1 p.1))),
      never,
    )

ready_blocked :
    (evidence : String → Option String) (key : String) (keys : List String)
    → option_eq (evidence key) (some "PASS") ≡ false
    → contains key keys ≡ true
    → ready evidence keys ≡ false
ready_blocked evidence key [] h m = cc
ready_blocked evidence key (k ∷ ks) h m =
    ground (arith, eq_iff k key, ready_blocked evidence key ks h)

-- One required key that is not PASS in both bodies of evidence leaves only the fallback.
pub unproven_falls_back :
    (native descendant : String → Option String) (key key' : String)
    → contains key required_evidence ≡ true
    → contains key' required_evidence ≡ true
    → option_eq (native key) (some "PASS") ≡ false
    → option_eq (descendant key') (some "PASS") ≡ false
    → select_backend native descendant ≡ cli_resume_fallback
unfolding select_backend
unproven_falls_back native descendant key key' m m' h h' = rw (
  ready_blocked native key required_evidence h m,
  ready_blocked descendant key' required_evidence h' m',
)

-- The status is PASS exactly where the observed and the executed command are the requested one, and
-- UNKNOWN exactly where one of them was not seen; no status claims that the approval was proven.
pub command_integrity_lem :
    (sha256 : CommandHash) (requested : String) (observed executed : Option String) (i : Integrity)
    → command_integrity sha256 requested observed executed ≡ some i
    → ((i.status ≡ pass) ↔ ((observed ≡ some requested) × (executed ≡ some requested)))
      × ((i.status ≡ unknown) ↔ ((observed ≡ none) ⊎ (executed ≡ none)))
      × (i.approval_semantics_proven ≡ false)
unfolding command_integrity
command_integrity_lem sha256 requested none none i h = ground arith
command_integrity_lem sha256 requested none (some e) i h = ground arith
command_integrity_lem sha256 requested (some o) none i h = ground arith
command_integrity_lem sha256 requested (some o) (some e) i h =
    ground (arith, eq_iff o requested, eq_iff e requested)
