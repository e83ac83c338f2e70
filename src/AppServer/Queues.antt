-- ===== src/AppServer/Queues.antt =====
-- The waiters of the requests, each with the answer that was put into its queue.
use codex_waiting_plgin.Prelude.{
  if◌then◌else◌, false, pos, ◌∷◌, Option, true, some, none, nat_eq, ℕ, [], negsuc, List,
}
use codex_waiting_plgin.Protocol.Json.{Json, object, number, member, boolean, text, end}

-- `_pending`: the waiters by request id, each a queue of at most one message.
abbrev pub Pending : Type 0
Pending = List (ℕ × Option Json)

-- The message that a crash puts into an empty queue; one that is full stays.
abbrev pub exit_error : ℕ → Json
exit_error id = object (
    member "id" (number (pos id)) (
      member "error"
        (object (
          member "code" (number (negsuc 32097))
            (member "message" (text "App Server process exited") end)))
        end))

abbrev pub offer : Json → Option Json → Option Json
offer v none = some v
offer v (some old) = some old

abbrev pub fail_all : Pending → Pending
fail_all [] = []
fail_all ((id, slot) ∷ rest) = (id, offer (exit_error id) slot) ∷ fail_all rest

-- The key under which `_pending` finds an id: Python takes `True` for 1 and `False` for 0.
abbrev pub key_of : Json → Option ℕ
key_of (number (pos n)) = some n
key_of (boolean true) = some 1
key_of (boolean false) = some 0
key_of v = none

abbrev pub answer : ℕ → Json → Pending → Pending
answer k v [] = []
answer k v ((id, slot) ∷ rest) =
    if nat_eq id k then (id, offer v slot) ∷ rest else (id, slot) ∷ answer k v rest

abbrev pub remove : ℕ → Pending → Pending
remove k [] = []
remove k ((id, slot) ∷ rest) = if nat_eq id k then rest else (id, slot) ∷ remove k rest

abbrev pub slot_of : ℕ → Pending → Option Json
slot_of k [] = none
slot_of k ((id, slot) ∷ rest) = if nat_eq id k then slot else slot_of k rest
