-- ===== src/Store/States.antt =====
-- snooze_core/models.py (the enumerations) and the transition tables of snooze_core/store.py.
use codex_waiting_plgin.Prelude.{ℕ, Bool, true, false, nat_eq}

-- `ExecutionState`.
pub data ExecutionState : Type 0 where
  submitted starting running completed failed cancelled lost orphaned completed_stale :
      ExecutionState

-- `DeliveryState`; a clash of names is settled by `DeliveryState.failed`.
pub data DeliveryState : Type 0 where
  not_ready pending claimed sending sent_unconfirmed acked retry_wait failed : DeliveryState

-- `LoggingState`.
pub data LoggingState : Type 0 where
  fine truncated failed : LoggingState

abbrev execution_index : ExecutionState → ℕ
execution_index submitted = 0
execution_index starting = 1
execution_index running = 2
execution_index completed = 3
execution_index ExecutionState.failed = 4
execution_index cancelled = 5
execution_index lost = 6
execution_index orphaned = 7
execution_index completed_stale = 8

abbrev delivery_index : DeliveryState → ℕ
delivery_index not_ready = 0
delivery_index pending = 1
delivery_index claimed = 2
delivery_index sending = 3
delivery_index sent_unconfirmed = 4
delivery_index acked = 5
delivery_index retry_wait = 6
delivery_index DeliveryState.failed = 7

-- `==` on the members of an enumeration.
abbrev pub execution_eq : ExecutionState → ExecutionState → Bool
execution_eq a b = nat_eq (execution_index a) (execution_index b)

abbrev pub delivery_eq : DeliveryState → DeliveryState → Bool
delivery_eq a b = nat_eq (delivery_index a) (delivery_index b)

-- `target in EXECUTION_TRANSITIONS[current]`.
abbrev pub execution_transitions : ExecutionState → ExecutionState → Bool
execution_transitions submitted starting = true
execution_transitions submitted ExecutionState.failed = true
execution_transitions starting running = true
execution_transitions starting ExecutionState.failed = true
execution_transitions starting lost = true
execution_transitions running completed = true
execution_transitions running completed_stale = true
execution_transitions running ExecutionState.failed = true
execution_transitions running cancelled = true
execution_transitions running lost = true
execution_transitions running orphaned = true
execution_transitions _ _ = false

-- `target in DELIVERY_TRANSITIONS[current]`.
abbrev pub delivery_transitions : DeliveryState → DeliveryState → Bool
delivery_transitions not_ready pending = true
delivery_transitions pending claimed = true
delivery_transitions pending DeliveryState.failed = true
delivery_transitions claimed sending = true
delivery_transitions claimed pending = true
delivery_transitions claimed DeliveryState.failed = true
delivery_transitions sending sent_unconfirmed = true
delivery_transitions sending pending = true
delivery_transitions sending retry_wait = true
delivery_transitions sending DeliveryState.failed = true
delivery_transitions sent_unconfirmed acked = true
delivery_transitions sent_unconfirmed pending = true
delivery_transitions sent_unconfirmed retry_wait = true
delivery_transitions sent_unconfirmed claimed = true
delivery_transitions retry_wait pending = true
delivery_transitions retry_wait claimed = true
delivery_transitions retry_wait DeliveryState.failed = true
delivery_transitions DeliveryState.failed pending = true
delivery_transitions DeliveryState.failed claimed = true
delivery_transitions _ _ = false

-- `TERMINAL_EXECUTION_STATES` of recovery.py, and the set `terminal` of `cancel_job`.
abbrev pub is_terminal : ExecutionState → Bool
is_terminal submitted = false
is_terminal starting = false
is_terminal running = false
is_terminal _ = true
