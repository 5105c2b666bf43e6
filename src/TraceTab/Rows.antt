-- ===== src/TraceTab/Rows.antt =====
-- What the replay of frontend/src/components/TraceTab.tsx shows of events: their categories, the rows
-- under a filter, the counts on the filters and a row's summary. `to_text` is `String`.
use langgraph_agent.Base.{
  ℕ, suc, ◌+◌, String, Bool, true, false, ◌||◌, Option, none, some, List, [], ◌∷◌, length, filter,
  ◌or◌, ◌==◌, ◌<>◌, if◌then◌else◌,
}
use langgraph_agent.Types.{Json, null, arr, obj}
use langgraph_agent.ApiClient.Json.{member_of, as_text, as_number}
use langgraph_agent.EventLabels.{compress_face_parts}

pub data TraceCategory : Type 0 where
  every tool compress task : TraceCategory

pub record TraceMeta : Type 0 where
  pub label : String
  pub badge : String
  pub category : TraceCategory

abbrev meta : String → String → TraceCategory → TraceMeta
meta label badge category = record { label = label; badge = badge; category = category }

-- `TYPE_META[type]`, for types that are not names of `Object.prototype`.
unfoldable pub type_meta : String → Option TraceMeta
type_meta t =
    if t == "task_created"
    then some (meta "任务创建" "bg-sky-500/15 text-sky-300 border-sky-500/40" task)
    else if t == "task_resumed"
    then some (meta "续跑/续说" "bg-emerald-500/15 text-emerald-300 border-emerald-500/40" task)
    else if t == "step_start"
    then some (meta "步骤开始" "bg-blue-500/15 text-blue-300 border-blue-500/40" task)
    else if t == "tool_call"
    then some (meta "工具调用" "bg-cyan-500/15 text-cyan-300 border-cyan-500/40" tool)
    else if t == "tool_result"
    then some (meta "工具结果" "bg-teal-500/15 text-teal-300 border-teal-500/40" tool)
    else if t == "context_compressed"
    then some (meta "上下文压缩" "bg-violet-500/15 text-violet-300 border-violet-500/40" compress)
    else if t == "artifact_created"
    then some (meta "产物" "bg-green-500/15 text-green-300 border-green-500/40" task)
    else if t == "final_answer"
    then some (meta "最终回答" "bg-green-500/15 text-green-300 border-green-500/40" task)
    else if t == "task_failed"
    then some (meta "失败" "bg-red-500/15 text-red-300 border-red-500/40" task)
    else if t == "task_interrupted"
    then some (meta "停下" "bg-amber-500/15 text-amber-300 border-amber-500/40" task)
    else if t == "trace_end"
    then some (meta "回放结束" "bg-slate-500/15 text-slate-300 border-slate-500/40" task)
    else if t == "heartbeat"
    then some (meta "心跳" "bg-slate-500/10 text-slate-400 border-slate-500/30" task)
    else none

-- `event.type`, which every event of a trace has.
unfoldable pub event_type : Json → String
unfolding member_of as_text
event_type ev = as_text (member_of "type" (some ev)) or ""

abbrev pub meta_category : Option TraceMeta → Option TraceCategory
meta_category none = none
meta_category (some m) = some m.category

-- `TYPE_META[event.type]?.category`
unfoldable pub category_of : Json → Option TraceCategory
unfolding type_meta event_type
category_of ev = meta_category (type_meta (event_type ev))

-- The badge of a row: a type without an entry is shown by its name.
unfoldable pub row_meta : Json → TraceMeta
unfolding type_meta event_type
row_meta ev =
    type_meta (event_type ev)
    or meta (event_type ev) "bg-slate-500/15 text-slate-300 border-slate-500/40" task

abbrev pub same_category : TraceCategory → TraceCategory → Bool
same_category TraceCategory.every TraceCategory.every = true
same_category TraceCategory.tool TraceCategory.tool = true
same_category TraceCategory.compress TraceCategory.compress = true
same_category TraceCategory.task TraceCategory.task = true
same_category _ _ = false

abbrev pub has_category : TraceCategory → Option TraceCategory → Bool
has_category f none = false
has_category f (some c) = same_category c f

pub record TraceRow : Type 0 where
  pub event : Json
  pub index : ℕ

-- `events.map((event, index) => ({ event, index }))`, from an index on.
unfoldable pub indexed : ℕ → List Json → List TraceRow
indexed i [] = []
indexed i (ev ∷ events) = record { event = ev; index = i } ∷ indexed (suc i) events

abbrev pub passes : TraceCategory → Json → Bool
passes f ev = same_category f TraceCategory.every || has_category f (category_of ev)

unfoldable pub filtered : TraceCategory → List Json → List TraceRow
unfolding indexed category_of
filtered f events = filter (λ row. passes f row.event) (indexed 0 events)

pub record TraceCounts : Type 0 where
  pub all_count : ℕ
  pub tool_count : ℕ
  pub compress_count : ℕ
  pub task_count : ℕ

-- `c[cat] += 1`, and `c[f]`
abbrev pub count_one : Option TraceCategory → TraceCounts → TraceCounts
count_one none c = c
count_one (some TraceCategory.every) c = record c { all_count = c.all_count + 1 }
count_one (some TraceCategory.tool) c = record c { tool_count = c.tool_count + 1 }
count_one (some TraceCategory.compress) c = record c { compress_count = c.compress_count + 1 }
count_one (some TraceCategory.task) c = record c { task_count = c.task_count + 1 }

abbrev pub count_of : TraceCategory → TraceCounts → ℕ
count_of TraceCategory.every c = c.all_count
count_of TraceCategory.tool c = c.tool_count
count_of TraceCategory.compress c = c.compress_count
count_of TraceCategory.task c = c.task_count

unfoldable pub count_events : List Json → TraceCounts → TraceCounts
unfolding category_of
count_events [] c = c
count_events (ev ∷ events) c = count_events events (count_one (category_of ev) c)

unfoldable pub counts : List Json → TraceCounts
unfolding count_events
counts events =
    count_events events
      (record { all_count = length events; tool_count = 0; compress_count = 0; task_count = 0 })

module _ (to_text : Json → String) where
  -- `String(v ?? "?")`
  abbrev pub text_or_unknown : Option Json → String
  text_or_unknown none = "?"
  text_or_unknown (some null) = "?"
  text_or_unknown (some v) = to_text v

  -- Of an object, by the event's type; the counts of a compression are numbers where they are present.
  unfoldable pub summary_of : String → Json → String
  unfolding member_of as_text as_number compress_face_parts ◌<>◌
  summary_of t d =
      if (t == "tool_call") || (t == "tool_result")
      then as_text (member_of "tool_name" (some d)) or ""
      else if t == "context_compressed"
      then "步骤 #"
        <> text_or_unknown (member_of "step_index" (some d))
        <> " "
        <> compress_face_parts (as_number (member_of "dropped" (some d)) or 0)
            (as_number (member_of "band_evicted" (some d)))
        <> "，策略 "
        <> text_or_unknown (member_of "strategy" (some d))
      else if t == "step_start"
      then "步骤 #" <> text_or_unknown (member_of "index" (some d))
      else ""

  abbrev pub summary_in : String → Option Json → String
  summary_in t (some (obj members)) = summary_of t (obj members)
  summary_in t (some (arr xs)) = summary_of t (arr xs)
  summary_in t _ = ""

  unfoldable pub summarize : Json → String
  unfolding summary_of event_type member_of
  summarize ev = summary_in (event_type ev) (member_of "data" (some ev))
