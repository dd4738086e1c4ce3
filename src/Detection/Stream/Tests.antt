-- ===== src/Detection/Stream/Tests.antt =====
-- A session whose frames arrive cut in the middle of a prefix, and one that reports an error.
use traceroot.Prelude.{◌∷◌, [], refl, none, List, ◌≡◌}
use traceroot.Detection.Run.{Text}
use traceroot.Detection.Stream.{
  read_session, Parser, on_chunk, AgentEvent, text_delta, other, agent_failed, result, reported,
}
use traceroot.Detection.Stream.Chunks.{concat, chunking}

-- every data line that is not empty is a delta of its own text
abbrev echo_event : Text → AgentEvent
echo_event [] = other
echo_event (c ∷ s) = text_delta (c ∷ s)

abbrev echo : Parser
echo = record { event_of = echo_event; message_of = λ raw. none }

-- `da`, `ta: hi` and a newline
abbrev cut_frame : List Text
cut_frame = (100 ∷ 97 ∷ []) ∷ (116 ∷ 97 ∷ 58 ∷ 32 ∷ 104 ∷ 105 ∷ []) ∷ (10 ∷ []) ∷ []

-- `event: error`, `data: no` and an empty line
abbrev error_frame : Text
error_frame =
    101 ∷ 118 ∷ 101 ∷ 110 ∷ 116 ∷ 58 ∷ 32 ∷ 101 ∷ 114 ∷ 114 ∷ 111 ∷ 114 ∷ 10 ∷ 100 ∷ 97 ∷ 116 ∷ 97
    ∷ 58 ∷ 32 ∷ 110 ∷ 111 ∷ 10 ∷ 10 ∷ []

cut_frame_result : read_session echo cut_frame ≡ result (104 ∷ 105 ∷ [])
unfolding read_session on_chunk
cut_frame_result = refl

error_frame_result :
    read_session echo (error_frame ∷ cut_frame) ≡ agent_failed (reported (110 ∷ 111 ∷ []))
unfolding read_session on_chunk
error_frame_result = refl

chunking_example : read_session echo cut_frame ≡ read_session echo (concat cut_frame ∷ [])
chunking_example = chunking echo cut_frame
