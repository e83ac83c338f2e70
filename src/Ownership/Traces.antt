-- ===== src/Ownership/Traces.antt =====
-- Sequences of calls of the ledger.
use codex_waiting_plgin.Prelude.{
  String, none, refl, ◌∷◌, [], List, Option, Bool-cases, some, inr, Option-cases, ◌≡◌, arith, ◌==◌,
  inl, false, ◌⊎◌, eq_refl,
}
use codex_waiting_plgin.Ownership.Entries.{
  moved-IsOwned, transition_cases, IsOwned, create-Kept, moves, creates, transition-Kept, Kept-refl,
  Call, Kept, perform, perform_all,
}
use codex_waiting_plgin.Ownership.{
  ownership_eq, Backend, OwnershipState, transition, Entry, foreground, swap_failed, Ledger, create,
  transition_error, try_transition, PendingHandoff, moved,
}
use codex_waiting_plgin.Prelude.Exec.{raised}
use codex_waiting_plgin.Prelude.Dict.{get-put, get, put}

perform-Kept :
    (c : Call) (k : String) (e : Entry) (l : Ledger)
    → get k l ≡ some e
    → Kept e (get k (perform c l))
unfolding perform
perform-Kept (creates now h) k e l g = create-Kept now k h e l g
perform-Kept (moves now job expected target backend) k e l g =
    transition-Kept now job k expected target backend e l g

Kept-trans : (e x : Entry) (o : Option Entry) → Kept e (some x) → Kept x o → Kept e o
Kept-trans e x none h k = absurd k
Kept-trans e x (some y) h k = ground arith

Kept-some : (e : Entry) (o : Option Entry) → Kept e o → (x : Entry) × (o ≡ some x)
Kept-some e none h = absurd h
Kept-some e (some x) h = (x, refl)

-- Whatever calls are made, and by whomever, the entry of a job stays that of the same handoff,
-- thread, turn, command and backend, and stays in COMPLETED or FAILED once it is there.
pub perform_all-Kept :
    (cs : List Call) (k : String) (e : Entry) (l : Ledger)
    → get k l ≡ some e
    → Kept e (get k (perform_all cs l))
unfolding perform_all
perform_all-Kept [] k e l g = rw g (Kept-refl e)
perform_all-Kept (c ∷ cs) k e l g =
    let step = perform-Kept c k e l g in
    let (x, gx) = Kept-some e (get k (perform c l)) step in
    Kept-trans e x _ (rw gx at step) (perform_all-Kept cs k x (perform c l) gx)

-- Every entry in a background state is owned by the backend of that state.
abbrev pub AllOwned : Ledger → Type 0
AllOwned l = (k : String) (e : Entry) → get k l ≡ some e → IsOwned e

-- A handoff is created in the foreground, as by its default value.
abbrev pub StartsInForeground : Call → Type 0
StartsInForeground (creates now h) = h.state ≡ foreground
StartsInForeground (moves now job expected target backend) = Unit {0}

abbrev pub AllStart : List Call → Type 0
AllStart [] = Unit {0}
AllStart (c ∷ cs) = StartsInForeground c × AllStart cs

put-AllOwned : (k : String) (e : Entry) (l : Ledger) → IsOwned e → AllOwned l → AllOwned (put k e l)
put-AllOwned k e l h all j x g = elim (Bool-cases (k == j)) [
  | inl same ↦ ground (arith, get-put k j e l)
  | inr other ↦ all j x (ground (arith, get-put k j e l))
]

create_cases :
    (now : String) (h : PendingHandoff) (l : Ledger)
    → let l' = (create now h l).1 in
      (l' ≡ l) ⊎ (l' ≡ put h.job_id (record { handoff = h; created_at = now; updated_at = now }) l)
unfolding create
create_cases now h l = elim (Option-cases (get h.job_id l)) [
  | inl n ↦ inr (rw n refl)
  | inr x ↦ inl (rw x.1 refl)
]

perform-AllOwned :
    (c : Call) (l : Ledger) → StartsInForeground c → AllOwned l → AllOwned (perform c l)
unfolding perform transition
perform-AllOwned (creates now h) l s all = elim (create_cases now h l) [
  | inl same ↦ rw same all
  | inr eq ↦ rw eq (put-AllOwned h.job_id _ l (ground arith) all)
]
perform-AllOwned (moves now job expected target backend) l s all =
    elim (transition_cases now job expected target backend l (get job l) refl) [
      | inl same ↦ rw same all
      | inr (x, gx, n, eq) ↦
          rw eq (put-AllOwned job _ l (moved-IsOwned now x expected target backend n) all)
    ]

-- In a ledger where every entry in a background state is owned by the backend of that state, as in the
-- empty one, this still holds after any calls that create their handoffs in the foreground: every job
-- in NATIVE_BACKGROUND belongs to the native terminal, and every job in SUPERVISOR_BACKGROUND to the
-- descendant supervisor.
pub perform_all-AllOwned :
    (cs : List Call) (l : Ledger) → AllStart cs → AllOwned l → AllOwned (perform_all cs l)
unfolding perform_all
perform_all-AllOwned [] l s all = all
perform_all-AllOwned (c ∷ cs) l s all =
    perform_all-AllOwned cs (perform c l) s.1 (perform-AllOwned c l s.0 all)

swap_fails :
    (now job : String) (expected target : OwnershipState) (backend : Option Backend) (e : Entry)
    (l : Ledger)
    → get job l ≡ some e
    → ownership_eq e.state expected ≡ false
    → transition now job expected target backend l ≡ (raised swap_failed, l)
unfolding transition
swap_fails now job expected target backend e l g h = rw g (ground arith)

transition_moves :
    (now job : String) (expected target : OwnershipState) (backend : Option Backend) (e : Entry)
    (l : Ledger)
    → get job l ≡ some e
    → transition_error e expected target backend ≡ none
    → (transition now job expected target backend l).1 ≡ put job (moved now target e) l
unfolding transition
transition_moves now job expected target backend e l g n = rw g (rw (n, try_transition) refl)

-- Compare-and-swap: where one transfer of a job from a state succeeds and leaves that state, a second
-- one that expects the same state fails, and writes nothing.
pub swap_once :
    (now now' job : String) (expected target target' : OwnershipState)
    (backend backend' : Option Backend) (e : Entry) (l : Ledger)
    → get job l ≡ some e
    → transition_error e expected target backend ≡ none
    → ownership_eq target expected ≡ false
    → let l' = (transition now job expected target backend l).1 in
      transition now' job expected target' backend' l' ≡ (raised swap_failed, l')
swap_once now now' job expected target target' backend backend' e l g n d =
    rw (transition_moves now job expected target backend e l g n) (
      swap_fails now' job expected target' backend' (moved now target e)
        (put job (moved now target e) l)
        (rw (get-put job job (moved now target e) l, eq_refl job) refl) d)
