-- ===== src/Protocol/Requests.antt =====
-- snooze_controller/agent.py, handoff.py, native_backend.py, app_server_process.py: the parameters of
-- the requests that the controller sends.
use codex_waiting_plgin.Prelude.{
  true, ◌==◌, if◌then◌else◌, ℕ, Bool, List, some, pos, false, String, none, ◌∷◌, [], Option,
}
use codex_waiting_plgin.Protocol.Json.{
  Items, Json, Members, nil, object, member, cons, text, boolean, array, end, number,
}
use codex_waiting_plgin.Protocol.Types.Threads.{thread_id}
use codex_waiting_plgin.Protocol.Types.Approvals.{sandbox_policy}

-- `if value is not None: params[key] = value`.
abbrev pub given : String → Option Json → Members → Members
given k none m = m
given k (some v) m = member k v m

abbrev pub texts : List String → Items
texts [] = nil
texts (s ∷ r) = cons (text s) (texts r)

-- `if model: params["model"] = model`.
-- The model where the text is not empty.
abbrev pub nonempty : Option String → Option String
nonempty none = none
nonempty (some s) = if s == "" then none else some s

abbrev pub text_of : Option String → Option Json
text_of none = none
text_of (some s) = some (text s)

abbrev pub number_of : Option ℕ → Option Json
number_of none = none
number_of (some n) = some (number (pos n))

-- The parameters of `create_thread`.
unfoldable pub create_thread_params :
    String → Option String → Option Json → Option String → Option String → Option Json → Json
create_thread_params cwd sandbox approval_policy model instructions tools = object (
    member "cwd" (text cwd) (
      member "ephemeral" (boolean false) (
        given "sandbox" (text_of sandbox) (
          given "approvalPolicy" approval_policy (
            given "model" (text_of (nonempty model)) (
              given "developerInstructions" (text_of instructions)
                (given "dynamicTools" tools end)))))))

-- The parameters of `resume_thread`; `cwd` is the argument, or that of the record.
unfoldable pub resume_thread_params : String → Option String → Json
resume_thread_params thread_id cwd = object (
    member "threadId" (text thread_id)
      (member "excludeTurns" (boolean true) (given "cwd" (text_of cwd) end)))

-- The parameters of `start_turn`; `message_id` is the UUID of the message.
unfoldable pub start_turn_params :
    String → String → String → Option String → Option Json → Option Json → Json
start_turn_params thread_id words message_id cwd approval_policy sandbox_policy = object (
    member "threadId" (text thread_id) (
      member "input"
        (array (
          cons
            (object (
              member "type" (text "text")
                (member "text" (text words) (member "text_elements" (array nil) end))))
            nil))
        (member "clientUserMessageId" (text message_id) (
          given "cwd" (text_of cwd)
            (given "approvalPolicy" approval_policy (given "sandboxPolicy" sandbox_policy end))))))

-- The parameters of `interrupt_turn`.
unfoldable pub interrupt_turn_params : String → String → Json
interrupt_turn_params thread_id turn_id =
    object (member "threadId" (text thread_id) (member "turnId" (text turn_id) end))

-- The parameters of `command/exec` in `DynamicHandoffTool._run_through_server`.
unfoldable pub handoff_exec_params : List String → String → Json → Json
handoff_exec_params launch cwd sandbox_policy = object (
    member "command" (array (texts launch)) (
      member "cwd" (text cwd)
        (member "disableTimeout" (boolean true) (member "sandboxPolicy" sandbox_policy end))))

-- The policy that `DynamicHandoffTool.__init__` sets where none is given.
unfoldable pub default_sandbox_policy : String → Json
default_sandbox_policy cwd = object (
    member "type" (text "workspaceWrite")
      (member "writableRoots" (array (cons (text cwd) nil)) end))

-- The parameters of `process/spawn` in `NativeAppServerBackend.start`.
unfoldable pub spawn_params : List String → String → String → Option ℕ → Bool → ℕ → Json
spawn_params command cwd process_id timeout_ms stream_output output_bytes_cap = object (
    member "command" (array (texts command)) (
      member "cwd" (text cwd) (
        member "processHandle" (text process_id) (
          member "streamStdoutStderr" (boolean stream_output) (
            member "streamStdin" (boolean false) (
              member "tty" (boolean false) (
                member "outputBytesCap" (number (pos output_bytes_cap))
                  (given "timeoutMs" (number_of timeout_ms) end))))))))

-- The parameters of `initialize` in `AppServerProcess.start`.
unfoldable pub initialize_request : String → String → String → Bool → Json
initialize_request name title version experimental_api = object (
    member "clientInfo"
      (object (
        member "name" (text name)
          (member "title" (text title) (member "version" (text version) end))))
      (given "capabilities"
        (if experimental_api
          then some (object (member "experimentalApi" (boolean true) end))
          else none)
        end))
