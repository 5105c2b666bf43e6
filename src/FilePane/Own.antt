-- ===== src/FilePane/Own.antt =====
-- Whose files frontend/src/components/dash/FilePane.tsx shows, and when it asks for them.
use langgraph_agent.Base.{
  ℕ, ◌+◌, ◌≤◌, String, Bool, true, false, ◌&&◌, none, some, List, [], ◌∷◌, ◌++◌, All, eqb, eqb_iff,
  ◌==◌, eq_iff, ◌≡◌, refl, sym, ◌∙◌, ap, arith, Bool-cases, Option-cases, inl, inr, if◌then◌else◌,
}
use mathlib.Core.Path.{subst}
use langgraph_agent.Types.{TaskStatus, pending, running, failed, interrupted}
use langgraph_agent.TaskState.{should_poll_files, is_running}
use langgraph_agent.FilePane.Reachable.{
  Asked, newest, older, FileReachable, opened, rendered, retried, ticked, answered, FilesOwn,
}
use langgraph_agent.FilePane.State.{
  FileState, FilesRequest, FilesReply, request, load_effect, clear_files, same_status, same_bool,
  file_props, initial_files, tick, settle_files, finish_files,
}

-- Props that are compared as the same poll in the same way.
same_poll :
    (a b : TaskStatus) (v w : Bool)
    → (same_status a b && same_bool v w) ≡ true
    → should_poll_files b w ≡ should_poll_files a v
unfolding should_poll_files is_running
same_poll pending pending v w h = ground arith
same_poll running running v w h = ground arith
same_poll failed failed v w h = ground arith
same_poll interrupted interrupted v w h = ground arith
same_poll _ _ v w h = ground arith

module _ (Gave : String → FilesReply → Type 0) where
  abbrev Known : String → ℕ → FilesRequest → Type 0
  Known id reads q = (q.read ≤ reads) × (q.read ≡ reads → q.task_id ≡ id)

  record FileSound (s : FileState) (sent : List FilesRequest) : Type 0 where
    known : All (Known s.task_id s.reads) sent
    own : FilesOwn Gave s
    polls : s.timer ≡ should_poll_files s.status s.visible

  Known-Asked :
      (id : String) (reads : ℕ) {sent : List FilesRequest} (q : FilesRequest)
      → Asked q sent
      → All (Known id reads) sent
      → Known id reads q
  Known-Asked id reads q newest known = known.0
  Known-Asked id reads q (older asked) known = Known-Asked id reads q asked known.1

  Known-later :
      (before id : String) (reads : ℕ) (sent : List FilesRequest)
      → All (Known before reads) sent
      → All (Known id (reads + 1)) sent
  Known-later before id reads [] known = tt
  Known-later before id reads (q ∷ sent) known = (
    (omega (arith, known.0.0), λ same. absurd (omega (arith, known.0.0, same))),
    Known-later before id reads sent known.1,
  )

  -- What a request of now, if it is sent, adds.
  Known-sending :
      (sends : Bool) (s : FileState) (sent : List FilesRequest)
      → All (Known s.task_id s.reads) sent
      → All (Known s.task_id s.reads) ((if sends then request s ∷ [] else []) ++ sent)
  Known-sending true s sent known = ((omega arith, λ same. refl), known)
  Known-sending false s sent known = known

  Known-first :
      (sends : Bool) (s : FileState)
      → All (Known s.task_id s.reads) (if sends then request s ∷ [] else [])
  Known-first true s = ((omega arith, λ same. refl), tt)
  Known-first false s = tt

  FileSound-load_effect :
      (before : String) (reads : ℕ) (s : FileState) (sent : List FilesRequest)
      → reads ≡ s.reads
      → All (Known before reads) sent
      → FilesOwn Gave s
      → FileSound (load_effect s).0 ((load_effect s).1 ++ sent)
  unfolding load_effect
  FileSound-load_effect before reads s sent same known own = record {
    known =
        Known-sending s.visible (load_effect s).0 sent
          (Known-later before s.task_id s.reads sent (rw (sym same) known));
    own = own;
    polls = refl;
  }

  FilesOwn-settle :
      (reply : FilesReply) (s : FileState)
      → Gave s.task_id reply
      → FilesOwn Gave s
      → FilesOwn Gave (settle_files reply s)
  FilesOwn-settle none s gave own = own
  FilesOwn-settle (some r) s gave own = elim (Option-cases r.body) [
    | inl nothing ↦ rw nothing own
    | inr found ↦ rw found.1 (inr (r, found.0, gave, found.1, refl, refl))
  ]

  -- An answer changes neither the props nor the effect.
  settle-same :
      (reply : FilesReply) (s : FileState)
      → ((settle_files reply s).task_id ≡ s.task_id)
        × ((settle_files reply s).reads ≡ s.reads)
        × ((settle_files reply s).timer ≡ s.timer)
        × ((settle_files reply s).status ≡ s.status)
        × ((settle_files reply s).visible ≡ s.visible)
  settle-same none s = (refl, refl, refl, refl, refl)
  settle-same (some r) s = elim (Option-cases r.body) [
    | inl nothing ↦ rw nothing (refl, refl, refl, refl, refl)
    | inr found ↦ rw found.1 (refl, refl, refl, refl, refl)
  ]

  FileSound-settle :
      (reply : FilesReply) (s : FileState) (sent : List FilesRequest)
      → Gave s.task_id reply
      → FileSound s sent
      → FileSound (settle_files reply s) sent
  FileSound-settle reply s sent gave sound =
      let same = settle-same reply s in
      record {
        known = rw (same.0, same.1) sound.known;
        own = FilesOwn-settle reply s gave sound.own;
        polls = same.2 ∙ sound.polls ∙ rw (same.3, same.4) refl;
      }

  FileSound-finish :
      (q : FilesRequest) (reply : FilesReply) (s : FileState) (sent : List FilesRequest)
      → Asked q sent
      → Gave q.task_id reply
      → FileSound s sent
      → FileSound (finish_files q.read reply s) sent
  unfolding finish_files
  FileSound-finish q reply s sent asked gave sound = elim (Bool-cases (eqb q.read s.reads)) [
    | inl same ↦
        let id =
          (Known-Asked s.task_id s.reads q asked sound.known).1 ((eqb_iff q.read s.reads).0 same) in
        rw same (FileSound-settle reply s sent (subst (λ t. Gave t reply) id gave) sound)
    | inr old ↦ rw old sound
  ]

  FileSound-same_task :
      (id : String) (status : TaskStatus) (visible : Bool) (s : FileState)
      (sent : List FilesRequest)
      → id ≡ s.task_id
      → FileSound s sent
      → let t = record s { task_id = id; status = status; visible = visible } in
        let after =
          if same_status status s.status && same_bool visible s.visible
          then (t, [])
          else load_effect t in
        FileSound after.0 (after.1 ++ sent)
  FileSound-same_task id status visible s sent same sound =
      elim (Bool-cases (same_status status s.status && same_bool visible s.visible)) [
        | inl kept ↦ rw kept (record {
          known = subst (λ t. All (Known t s.reads) sent) (sym same) sound.known;
          own = own;
          polls = sound.polls ∙ same_poll status s.status visible s.visible kept;
        })
        | inr changed ↦ rw changed (
            FileSound-load_effect s.task_id s.reads
              (record s { task_id = id; status = status; visible = visible }) sent refl sound.known
              own)
      ]
    where
      own : FilesOwn Gave (record s { task_id = id; status = status; visible = visible })
      own =
          subst (λ t. FilesOwn Gave (record s { task_id = t; status = status; visible = visible }))
            (sym same) sound.own

  FileSound-props :
      (id : String) (status : TaskStatus) (visible : Bool) (s : FileState)
      (sent : List FilesRequest)
      → FileSound s sent
      → FileSound (file_props id status visible s).0 ((file_props id status visible s).1 ++ sent)
  unfolding file_props clear_files
  FileSound-props id status visible s sent sound = elim (Bool-cases (id == s.task_id)) [
    | inl same ↦
        rw same (FileSound-same_task id status visible s sent ((eq_iff id s.task_id).0 same) sound)
    | inr other ↦ rw other (
        FileSound-load_effect s.task_id s.reads
          (clear_files (record s { task_id = id; status = status; visible = visible })) sent refl
          sound.known (inl (refl, refl)))
  ]

  FileReachable-Sound :
      {s : FileState} {sent : List FilesRequest} → FileReachable Gave s sent → FileSound s sent
  unfolding initial_files tick
  FileReachable-Sound (opened id status visible) = record {
    known = Known-first visible (initial_files id status visible).0;
    own = inl (refl, refl);
    polls = refl;
  }
  FileReachable-Sound (rendered {s} {sent} id status visible reached) =
      FileSound-props id status visible s sent (FileReachable-Sound reached)
  FileReachable-Sound (retried {s} {sent} may reached) =
      let sound = FileReachable-Sound reached in
      FileSound-load_effect s.task_id s.reads s sent refl sound.known sound.own
  FileReachable-Sound (ticked {s} {sent} reached) =
      let sound = FileReachable-Sound reached in
      record {
        known = Known-sending s.timer s sent sound.known;
        own = sound.own;
        polls = sound.polls;
      }
  FileReachable-Sound (answered {s} {sent} q reply asked gave reached) =
      FileSound-finish q reply s sent asked gave (FileReachable-Sound reached)

  -- However the pane's task, its status and its visibility changed, and in whatever order the requests of
  -- before are answered, the files shown are none or those of one answer about the task that is shown; and
  -- the pane asks again exactly while the task is running and the pane is visible.
  pub FileReachable-own :
      {s : FileState} {sent : List FilesRequest}
      → FileReachable Gave s sent
      → FilesOwn Gave s
        × ((tick s).1 ≡ (if should_poll_files s.status s.visible then request s ∷ [] else []))
  unfolding tick
  FileReachable-own {s} reached =
      let sound = FileReachable-Sound reached in
      (sound.own, ap (λ t. if t then request s ∷ [] else []) sound.polls)
