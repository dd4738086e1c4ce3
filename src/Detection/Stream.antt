-- ===== src/Detection/Stream.antt =====
-- The reader of the agent's event stream in `runRcaSession` of
-- frontend/worker/src/processors/detector-rca-processor.ts. A text is its list of code points. What
-- `JSON.parse` makes of a data line is the record `Parser`; the texts of the program's own errors
-- are constructors.
pub mod Chunks
pub mod Failures
pub mod Tests
use traceroot.Detection.Run.{Text}
use traceroot.Prelude.{
  none, if◌then◌else◌, ◌∷◌, leb, ◌++◌, all, Bool, true, ◌||◌, ◌==◌, ◌&&◌, List, [], false, Option,
  some, ℕ,
}

-- the code points that `trim` removes
unfoldable pub is_space : ℕ → Bool
is_space c =
    (leb 9 c && leb c 13)
    || c == 32
    || c == 160
    || c == 5760
    || (leb 8192 c && leb c 8202)
    || c == 8232
    || c == 8233
    || c == 8239
    || c == 8287
    || c == 12288
    || c == 65279

abbrev drop_space : Text → Text
drop_space [] = []
drop_space (c ∷ s) = elim (is_space c) [ true ↦ drop_space s | false ↦ c ∷ s ]

abbrev all_space : Text → Bool
all_space s = all is_space s

abbrev drop_space_end : Text → Text
drop_space_end [] = []
drop_space_end (c ∷ s) = let rest = drop_space_end s in if all_space (c ∷ s) then [] else c ∷ rest

unfoldable pub trim : Text → Text
unfolding is_space
trim s = drop_space_end (drop_space s)

-- `text.split("\n")`, its last part apart; `cur` is what has been read of the current line
abbrev pub cut : Text → Text → List Text × Text
cut [] cur = ([], cur)
cut (c ∷ s) cur = elim (c == 10) [
  | true ↦ (cur ∷ (cut s []).0, (cut s []).1)
  | false ↦ cut s (cur ++ c ∷ [])
]

-- the rest of a line behind a prefix, if it starts with it
abbrev pub after_prefix : Text → Text → Option Text
after_prefix [] line = some line
after_prefix (p ∷ ps) [] = none
after_prefix (p ∷ ps) (c ∷ s) = if p == c then after_prefix ps s else none

-- the agent's events that the reader looks at; anything else, and malformed data, is `other`
pub data AgentEvent : Type 0 where
  text_delta : Text → AgentEvent
  message_end_error : Option Text → AgentEvent
  other : AgentEvent

pub record Parser : Type 0 where
  pub event_of : Text → AgentEvent
  pub message_of : Text → Option Text  -- a non-empty `message`, where the data has one

pub data AgentError : Type 0 where
  reported : Text → AgentError
  unknown_agent_error : AgentError

-- The variables of the loop.
pub record Reader : Type 0 where
  pub rca_result : Text
  pub agent_error : Option AgentError
  pub event_name : Option Text
  pub remainder : Text

-- `a || "unknown agent error"`
abbrev or_unknown : Text → AgentError
or_unknown [] = unknown_agent_error
or_unknown (c ∷ s) = reported (c ∷ s)

abbrev or_raw : Option Text → Text → AgentError
or_raw (some message) raw = reported message
or_raw none raw = or_unknown raw

abbrev of_option : Option Text → AgentError
of_option none = unknown_agent_error
of_option (some message) = or_unknown message

abbrev event_prefix : Text
event_prefix = 101 ∷ 118 ∷ 101 ∷ 110 ∷ 116 ∷ 58 ∷ 32 ∷ []

abbrev data_prefix : Text
data_prefix = 100 ∷ 97 ∷ 116 ∷ 97 ∷ 58 ∷ 32 ∷ []

abbrev error_name : Text
error_name = 101 ∷ 114 ∷ 114 ∷ 111 ∷ 114 ∷ []

abbrev same_text : Text → Text → Bool
same_text [] [] = true
same_text (a ∷ s) (b ∷ t) = a == b && same_text s t
same_text _ _ = false

abbrev is_error_event : Option Text → Bool
is_error_event none = false
is_error_event (some name) = same_text name error_name

unfoldable pub on_event : AgentEvent → Reader → Reader
on_event (text_delta delta) r = record r { rca_result = r.rca_result ++ delta }
on_event (message_end_error message) r = record r { agent_error = some (of_option message) }
on_event other r = r

unfoldable pub on_data : Parser → Text → Reader → Reader
unfolding on_event
on_data p raw r =
    if is_error_event r.event_name
    then record r { agent_error = some (or_raw (p.message_of raw) raw) }
    else on_event (p.event_of raw) r

abbrev clear_event : Text → Reader → Reader
clear_event [] r = record r { event_name = none }
clear_event (c ∷ s) r = r

-- one complete line
unfoldable pub on_line : Parser → Text → Reader → Reader
unfolding on_data trim
on_line p line r = elim (after_prefix event_prefix line) [
  | some name ↦ record r { event_name = some (trim name) }
  | none ↦ elim (after_prefix data_prefix line) [
    | some raw ↦ on_data p raw r
    | none ↦ clear_event line r
  ]
]

abbrev pub on_lines : Parser → List Text → Reader → Reader
on_lines p [] r = r
on_lines p (line ∷ lines) r = on_lines p lines (on_line p line r)

-- one round of the loop
unfoldable pub on_chunk : Parser → Reader → Text → Reader
unfolding on_line
on_chunk p r chunk =
    let parts = cut (r.remainder ++ chunk) [] in
    record (on_lines p parts.0 r) { remainder = parts.1 }

unfoldable pub read_chunks : Parser → Reader → List Text → Reader
unfolding on_chunk
read_chunks p r [] = r
read_chunks p r (chunk ∷ chunks) = read_chunks p (on_chunk p r chunk) chunks

abbrev pub start_reader : Reader
start_reader = record { rca_result = []; agent_error = none; event_name = none; remainder = [] }

-- How the session ends, once its stream has.
pub data SessionEnd : Type 0 where
  agent_failed : AgentError → SessionEnd
  no_output : SessionEnd
  result : Text → SessionEnd

abbrev is_blank : Text → Bool
is_blank [] = true
is_blank (c ∷ s) = false

unfoldable pub finish : Reader → SessionEnd
unfolding trim
finish r = elim r.agent_error [
  | some e ↦ agent_failed e
  | none ↦ if is_blank (trim r.rca_result) then no_output else result r.rca_result
]

unfoldable pub read_session : Parser → List Text → SessionEnd
unfolding read_chunks finish
read_session p chunks = finish (read_chunks p start_reader chunks)
