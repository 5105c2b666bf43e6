-- ===== src/Lib.antt =====
-- The browser client of langgraph-agent (frontend/src): what it keeps of the tasks that the backend
-- runs, and what its pages derive from that. The backend streams frames (server-sent events) and
-- answers REST requests; the client folds both into one store. This development models the store, the
-- reducer under it and the pure functions of frontend/src/lib that the pages call, and proves what
-- they promise each other.
--
-- The parts and their files:
-- - Base: Boolean tests, lists, texts, sorting and decimal digits, as the source uses them.
-- - Types: frontend/src/types/index.ts. `Types.Event.SseEvent` is a frame of the stream; its payload has
--   the members that the client reads, `rest` the others.
-- - Dict: a plain object used as a map from ids (`Record<string, V>`), with its laws.
-- - ReduceTask: frontend/src/store/reduceTask.ts. `apply_to_task` is `applyToTask`, `on_frame` its
--   `switch`, `merge_snapshot_unless_stale` and `merge_status_snapshot` the two merges of REST answers.
-- - TaskStore: frontend/src/store/taskStore.ts. `TaskState` is the state, `step` the methods as actions,
--   `Reachable` the states that any sequence of calls reaches; `apply_event` calls ReduceTask. `Spec` is
--   what the store promises of each task, `Refinement` that it keeps it.
-- - EventLedger: frontend/src/lib/eventLedger.ts, the frames that the event pane lists.
-- - TaskState, RequestPlan: frontend/src/lib/taskState.ts, requestPlan.ts and planVersion.ts.
-- - ModelStore: frontend/src/store/modelStore.ts, refreshes that overlap; `apiErrorText` of
--   frontend/src/api/client.ts.
-- - ModelCatalog: frontend/src/lib/modelCatalog.ts, entries, the provider form, discovery, failures.
-- - ComposerState, ComposerSend: frontend/src/lib/composerState.ts and
--   frontend/src/hooks/useComposerSend.ts; the second acts on the store and shows the first.
-- - ComposerControls: frontend/src/hooks/useComposerControls.ts, the switches of mode and model.
-- - AuthStore, Preview, EventLabels: frontend/src/store/authStore.ts and frontend/src/lib/preview.ts and
--   eventLabels.ts.
-- - FailureStates: frontend/src/lib/failureStates.ts, whose texts the store keeps per task.
-- - ApiClient: frontend/src/api/client.ts. `request_of` is the request of each call, `req_with_status`
--   the reads that keep the status, `get_task_trace` the trace.
-- - TaskView: frontend/src/pages/TaskView.tsx: `History` and `Snapshot` take the client's answers into the
--   store, `Refetch` is `onEvent`, `Dash` the tabs and drawers of the page.
-- - PlanPane: frontend/src/components/dash/PlanPane.tsx, from its effects and handlers to the client's
--   answers; `pane_step` is one call with the effects of the render after it.
-- - PlanToc: frontend/src/components/dash/planToc.ts, the outline of a plan; `Lines` and `Outline` say what
--   its lines are without the code's patterns.
-- - ProviderCard, ProviderDialog: the files of frontend/src/components/settings with these names; the
--   dialog validates by ModelCatalog, the card previews by it.
-- - Rounds, MarkerGroups: frontend/src/lib/rounds.ts and markers.ts, the conversation as it is shown.
-- - Grouping, Rail, FileGroups: frontend/src/components/rail/group.ts,
--   frontend/src/components/dash/fileGroup.ts and `basename` of frontend/src/lib/format.ts.
-- - DashTabs, Drawer, Focus, InertLedger, RequestGate, Workspaces: the modules of frontend/src/lib with
--   these names; Focus has keys.ts and toolInput.ts too.
-- - TraceTab: frontend/src/components/TraceTab.tsx. `TraceTab.Rows` has the table of types, the rows under
--   a filter, the counts and the summaries; `TraceTab.State` the load of a trace, the rows folded out, the
--   faces and the export. A load's `.then` and `.finally` are one step.
-- - DrawerFocus: frontend/src/hooks/useDrawerFocus.ts, over InertLedger and Focus. The document's structure
--   is an argument of every step, and an element that is inert takes no focus.
-- - FilePane: frontend/src/components/dash/FilePane.tsx, its effects, its timer and the answers.
-- - Tests: the theorems at concrete inputs.
--
-- How it is modelled. A function of the source is a function here, with its guards in their order. A
-- `set` of a store is a function from state to state. An asynchronous method is two functions, one up
-- to its `await` and one from the answer on, and a run interleaves them in any order. A member that may
-- be absent is an `Option`. The key `${type}:${JSON.stringify(data)}` of a frame is equality of type and
-- data. A JavaScript object's identity is not kept; where the store compares references,
-- `keeps_reference` says when the reducer returns the object that it was given. A text is its code
-- points. Numbers are natural numbers: indexes, counts, HTTP statuses and versions. Loops are recursion
-- on the list that the source walks, so they end; `show` prints a number with one unit of fuel more
-- than the number, and more fuel gives the same digits.
--
-- Not modelled: JSX rendering, effects but for those of the page, the plan pane, the file pane, the
-- trace replay and the drawers, DOM access, what `fetch` does to its answer, and `localStorage` but
-- for the token; the numbers of the wire other than natural ones; the backend (another language); the
-- copy of a third-party tool under .agents. The page's address and the document are parameters.
pub mod Base
pub mod TraceTab
pub mod FilePane
pub mod DrawerFocus
pub mod Types
pub mod Dict
pub mod ReduceTask
pub mod TaskState
pub mod RequestPlan
pub mod EventLedger
pub mod TaskStore
pub mod RequestGate
pub mod InertLedger
pub mod Rounds
pub mod MarkerGroups
pub mod Focus
pub mod Drawer
pub mod DashTabs
pub mod ModelCatalog
pub mod FailureStates
pub mod Workspaces
pub mod ComposerState
pub mod ModelStore
pub mod Grouping
pub mod Rail
pub mod FileGroups
pub mod ComposerSend
pub mod Tests
pub mod ComposerControls
pub mod EventLabels
pub mod Preview
pub mod AuthStore
pub mod ApiClient
pub mod TaskView
pub mod PlanPane
pub mod ProviderCard
pub mod ProviderDialog
pub mod PlanToc
