-- ===== src/ApiClient/Trace.antt =====
-- `getTaskTrace` of frontend/src/api/client.ts. `parse` is `JSON.parse`, `none` where it throws, and
-- `to_text` is `String`.
use Prim.Native.Char.{code}
use langgraph_agent.Base.{
  split_lines, ℕ, String, Bool, true, not, ◌&&◌, Option, none, some, is_some, List, [], ◌∷◌, ◌<>◌,
  show, truthy, trim, eqb, eq_iff, ◌>>=◌, if◌then◌else◌, ◌≡◌, refl, arith,
}
use langgraph_agent.Types.{Json}
use langgraph_agent.ApiClient.Json.{member_of, as_text, is_truthy}
use langgraph_agent.FailureStates.Lists.{is_success}

-- An answer as it comes over the wire.
pub record TextResponse : Type 0 where
  pub status : ℕ
  pub text : String

-- The error that is thrown, or what the trace holds.
pub data TraceResult : Type 0 where
  trace_fetch_error : ℕ → String → TraceResult
  trace_read : List Json → String → TraceResult

module _ (parse : String → Option Json) (to_text : Json → String) where
  -- The event of a line, if it has one.
  unfoldable pub event_of_line : String → Option Json
  unfolding trim member_of as_text
  event_of_line line =
      if truthy (trim line)
      then parse (trim line)
        >>= (λ ev. if is_some (as_text (member_of "type" (some ev))) then some ev else none)
      else none

  abbrev pub push_event : Option Json → List Json → List Json
  push_event none events = events
  push_event (some ev) events = ev ∷ events

  unfoldable pub events_of_lines : List String → List Json
  unfolding event_of_line
  events_of_lines [] = []
  events_of_lines (line ∷ lines) = push_event (event_of_line line) (events_of_lines lines)

  -- The detail that an error body names, or the status.
  unfoldable pub error_message : TextResponse → String
  unfolding member_of is_truthy show ◌<>◌
  error_message res =
      let detail = parse res.text >>= (λ j. member_of "detail" (some j)) in
      elim detail [
        | none ↦ "HTTP " <> show res.status
        | some d ↦ if is_truthy (some d) then to_text d else "HTTP " <> show res.status
      ]

  unfoldable pub get_task_trace : TextResponse → TraceResult
  unfolding error_message events_of_lines split_lines
  get_task_trace res =
      if is_success res.status
      then trace_read (events_of_lines (split_lines res.text)) res.text
      else trace_fetch_error res.status (error_message res)

-- The lines of a file, each ended by a newline.
abbrev pub file_of : List String → String
file_of [] = ""
file_of (line ∷ lines) = line <> "\n" <> file_of lines

unfoldable pub is_line : String → Bool
is_line String.[] = true
is_line (String.◌∷◌ c s) = not (eqb (code c) 10) && is_line s

on_lines :
    (line rest : String)
    → is_line line ≡ true
    → split_lines (line <> "\n" <> rest) ≡ line ∷ split_lines rest
unfolding is_line split_lines ◌<>◌
on_lines String.[] rest h = refl
on_lines (String.◌∷◌ c s) rest h = ground (arith, on_lines s rest)

module _ (parse : String → Option Json) (to_text : Json → String) where
  -- Lines, and the events that were written in them: a line may also hold something that does not parse.
  pub data Holds : List String → List Json → Type 0 where
    nothing : Holds [] []
    written :
        {line : String} {lines : List String} {ev : Json} {events : List Json} (t : String)
        → is_line line ≡ true
        → parse (trim line) ≡ some ev
        → as_text (member_of "type" (some ev)) ≡ some t
        → Holds lines events
        → Holds (line ∷ lines) (ev ∷ events)
    broken :
        {line : String} {lines : List String} {events : List Json}
        → is_line line ≡ true
        → parse (trim line) ≡ none
        → Holds lines events
        → Holds (line ∷ lines) events

  event-written :
      parse "" ≡ none
      → (line : String) (ev : Json) (t : String) → parse (trim line) ≡ some ev
      → as_text (member_of "type" (some ev)) ≡ some t
      → event_of_line parse to_text line ≡ some ev
  unfolding event_of_line
  event-written empty line ev t p q = ground (arith, eq_iff (trim line) "")

  event-broken :
      (line : String) → parse (trim line) ≡ none → event_of_line parse to_text line ≡ none
  unfolding event_of_line
  event-broken line p = ground arith

  events-empty : events_of_lines parse to_text (split_lines "") ≡ []
  unfolding events_of_lines split_lines event_of_line trim
  events-empty = refl

  events-Holds :
      {lines : List String} {events : List Json}
      → parse "" ≡ none
      → Holds lines events
      → events_of_lines parse to_text (split_lines (file_of lines)) ≡ events
  unfolding events_of_lines split_lines
  events-Holds empty nothing = events-empty
  events-Holds empty (written {line} {lines} {ev} t inside p q rest) =
      rw
        (
          on_lines line (file_of lines) inside,
          event-written empty line ev t p q,
          events-Holds empty rest,
        )
        refl
  events-Holds empty (broken {line} {lines} inside p rest) =
      rw (on_lines line (file_of lines) inside, event-broken line p, events-Holds empty rest) refl

  -- A trace file is read back: from an answer of success, the events are those that its lines hold, in
  -- their order, whatever lines between them do not parse; and the raw text is the file's.
  pub get_task_trace-Holds :
      {lines : List String} {events : List Json} (status : ℕ)
      → parse "" ≡ none
      → Holds lines events
      → is_success status ≡ true
      → get_task_trace parse to_text (record { status = status; text = file_of lines })
        ≡ trace_read events (file_of lines)
  unfolding get_task_trace
  get_task_trace-Holds status empty holds ok = rw (ok, events-Holds empty holds) refl
