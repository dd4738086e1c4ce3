-- ===== src/Detection/Stream/Failures.antt =====
-- Which streams make the session fail.
use traceroot.Prelude.{◌||◌, Option, some, none, List, [], false, ◌∷◌, Bool, true, is_some}
use traceroot.Detection.Run.{Text}
use traceroot.Detection.Stream.{
  trim, Reader, data_prefix, is_error_event, after_prefix, event_prefix, Parser, SessionEnd,
  AgentEvent, text_delta, message_end_error, other, agent_failed, no_output, result,
}

abbrev is_end_error : AgentEvent → Bool
is_end_error (text_delta delta) = false
is_end_error (message_end_error message) = true
is_end_error other = false

abbrev name_after : Text → Option Text → Option Text
name_after [] name = none
name_after (c ∷ s) name = name

-- One of the lines reports an error: it is a data line under the event `error`, or its data is the
-- end of a message with an error. An event stands until the next one or an empty line.
abbrev pub reports : Parser → Option Text → List Text → Bool
reports p name [] = false
reports p name (line ∷ lines) = elim (after_prefix event_prefix line) [
  | some event ↦ reports p (some (trim event)) lines
  | none ↦ elim (after_prefix data_prefix line) [
    | some raw ↦ (is_error_event name || is_end_error (p.event_of raw)) || reports p name lines
    | none ↦ reports p (name_after line name) lines
  ]
]

abbrev failed : Reader → Bool
failed r = is_some r.agent_error

abbrev pub has_failed : SessionEnd → Bool
has_failed (agent_failed e) = true
has_failed no_output = false
has_failed (result t) = false
