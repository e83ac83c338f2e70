-- ===== src/Ownership/Entries.antt =====
-- The ledger of owners, under any sequence of calls by any number of controllers.
use codex_waiting_plgin.Prelude.{
  Option, Bool, ◌≡◌, eq_iff, String, true, some, refl, [], arith, none, List, ◌∷◌, inl, inr,
  Option-cases, ◌⊎◌,
}
use codex_waiting_plgin.Ownership.{
  native_background, PendingHandoff, Backend, Ledger, descendant_supervisor, thread_native_terminal,
  Entry, OwnershipState, transition, supervisor_background, create, transition_error, moved,
  try_transition, ownership_eq, backend_eq,
}
use codex_waiting_plgin.Prelude.Dict.{get-put, get, put}

-- A call of the ledger, with the time at which it is made.
pub data Call : Type 0 where
  creates : String → PendingHandoff → Call
  moves : String → String → OwnershipState → OwnershipState → Option Backend → Call

unfoldable pub perform : Call → Ledger → Ledger
perform (creates now h) l = (create now h l).1
perform (moves now job expected target backend) l = (transition now job expected target backend l).1

unfoldable pub perform_all : List Call → Ledger → Ledger
perform_all [] l = l
perform_all (c ∷ cs) l = perform_all cs (perform c l)

-- COMPLETED and FAILED have no successor; the other states are not held to one.
abbrev pub may_follow : OwnershipState → OwnershipState → Bool
may_follow OwnershipState.completed b = ownership_eq b OwnershipState.completed
may_follow OwnershipState.failed b = ownership_eq b OwnershipState.failed
may_follow a b = true

-- The entry is still that of the same handoff, job, thread, turn, command and backend, and a final
-- state is kept.
abbrev pub Kept : Entry → Option Entry → Type 0
Kept e none = ⊥
Kept e (some x) =
    (record x.handoff { state = e.state } ≡ e.handoff)
    × (x.created_at ≡ e.created_at)
    × (may_follow e.state x.state ≡ true)

pub Kept-refl : (e : Entry) → Kept e (some e)
Kept-refl e = ground arith

-- The backend that a state of background ownership belongs to is that of the entry.
abbrev owner_agrees : OwnershipState → Backend → Bool
owner_agrees native_background b = backend_eq b thread_native_terminal
owner_agrees supervisor_background b = backend_eq b descendant_supervisor
owner_agrees s b = true

abbrev pub IsOwned : Entry → Type 0
IsOwned e = owner_agrees e.state e.backend ≡ true

moved-Kept :
    (now : String) (e : Entry) (expected target : OwnershipState) (backend : Option Backend)
    → transition_error e expected target backend ≡ none
    → Kept e (some (moved now target e))
moved-Kept now e expected target backend h = ground arith

pub moved-IsOwned :
    (now : String) (e : Entry) (expected target : OwnershipState) (backend : Option Backend)
    → transition_error e expected target backend ≡ none
    → IsOwned (moved now target e)
moved-IsOwned now e expected native_background none h = ground arith
moved-IsOwned now e expected target backend h = ground arith

-- What one call leaves at a job: an entry that was there is kept or moved, and a new one is created.
pub create-Kept :
    (now k : String) (h : PendingHandoff) (e : Entry) (l : Ledger)
    → get k l ≡ some e
    → Kept e (get k (create now h l).1)
unfolding create
create-Kept now k h e l g = elim (Option-cases (get h.job_id l)) [
  | inl n ↦ rw (n, get-put) (ground (arith, eq_iff h.job_id k))
  | inr s ↦ rw (s.1, g) (Kept-refl e)
]

-- A transition changes nothing, or it moves the entry of its job after every test has passed.
abbrev pub Moves :
    String → String → OwnershipState → OwnershipState → Option Backend → Ledger → Ledger → Type 0
Moves now job expected target backend l l' =
    (e : Entry) × (get job l ≡ some e)
    × (transition_error e expected target backend ≡ none)
    × (l' ≡ put job (moved now target e) l)

pub transition_cases :
    (now job : String) (expected target : OwnershipState) (backend : Option Backend) (l : Ledger)
    (o : Option Entry)
    → get job l ≡ o
    → let l' = (try_transition now job expected target backend o l).1 in
      (l' ≡ l) ⊎ Moves now job expected target backend l l'
transition_cases now job expected target backend l none g = inl refl
transition_cases now job expected target backend l (some e) g =
    elim (Option-cases (transition_error e expected target backend)) [
      | inl n ↦ inr (e, g, n, rw (n, try_transition) refl)
      | inr x ↦ inl (rw (x.1, try_transition) refl)
    ]

pub transition-Kept :
    (now job k : String) (expected target : OwnershipState) (backend : Option Backend) (e : Entry)
    (l : Ledger)
    → get k l ≡ some e
    → Kept e (get k (transition now job expected target backend l).1)
unfolding transition
transition-Kept now job k expected target backend e l g =
    elim (transition_cases now job expected target backend l (get job l) refl) [
      | inl same ↦ rw (same, g) (Kept-refl e)
      | inr (x, gx, n, eq) ↦
          rw (eq, get-put)
            (ground (arith, eq_iff job k, g, gx, moved-Kept now x expected target backend n))
    ]
