-- ===== src/Examples/Messages.antt =====
-- Requests of the controller with concrete arguments.
use codex_waiting_plgin.Protocol.Requests.{interrupt_turn_params}
use codex_waiting_plgin.Protocol.Schema.{conforms}
use codex_waiting_plgin.Prelude.{◌≡◌}
use codex_waiting_plgin.Protocol.Messages.{message, turn_interrupt, conforms-message}
use codex_waiting_plgin.Protocol.Types.ClientRequests.{client_request}
use codex_waiting_plgin.Protocol.Types.Turns.{turn_interrupt_params}

conforms-message_example :
    conforms client_request (message 4 "turn/interrupt" (interrupt_turn_params "th1" "tu1"))
    ≡ conforms turn_interrupt_params (interrupt_turn_params "th1" "tu1")
conforms-message_example = conforms-message turn_interrupt 4 (interrupt_turn_params "th1" "tu1")
