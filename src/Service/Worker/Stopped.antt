-- ===== src/Service/Worker/Stopped.antt =====
-- finishRun and a user's stop of the task (internal/app/service.go).
use ctf_agent.Base.{
  ◌≡◌, refl, sym, ap, ◌∙◌, inl, inr, true, false, ◌||◌, subst, Option, none, some, is_some, length,
  Bool-cases, Option-cases, arith, if◌then◌else◌,
}
use ctf_agent.Errors.{Err}
use ctf_agent.Names.{is_safe_task_id}
use ctf_agent.Service.{
  World, Supply, Service, append_log, logged, record_session, session_marked, publish_task_changed,
}
use ctf_agent.Service.Finish.{Label, label_text, stopped_task, task_was_stopped}
use ctf_agent.Service.Runs.{Outcome, HintRunner, run_until_solved}
use ctf_agent.Service.Session.{extract_opencode_session_id}
use ctf_agent.Service.Worker.{finish_run, end_rounds, task_word}
use ctf_agent.Service.Worker.Ends.{
  end_first_run, end_with_error, stopped_by_user, log_failed_status,
}
use ctf_agent.Store.{Store, Env, get}
use ctf_agent.Store.Changes.{set_session}
use ctf_agent.Store.Logs
use ctf_agent.Store.Marks.{mark_opencode_session}
use ctf_agent.Store.Moves.{Moves, stamped, update_moves, append_log-Moves, get_same, get-Changed}
use ctf_agent.Store.Results.{WriteupIo}
use ctf_agent.Task.{Task}
use ctf_agent.Text.{Text, is_empty}

abbrev pub Stopped : Text → Store → Type 0
Stopped id s = stopped_task (get id s) ≡ true

-- A stopped task has an id that Get accepts.
pub Stopped-safe : (id : Text) (s : Store) → Stopped id s → is_safe_task_id id ≡ true
unfolding get
Stopped-safe id s h = elim (Bool-cases (is_safe_task_id id)) [
  | inl safe ↦ safe
  | inr unsafe ↦ absurd (ground arith)
]

Stopped-Moves :
    (id : Text) (change : Task → Task) (s s' : Store)
    → ((t : Task) → stopped_task (some t) ≡ true → stopped_task (some (change t)) ≡ true)
    → Moves id change s s'
    → Stopped id s
    → Stopped id s'
Stopped-Moves id change s s' keeps (inl same) h = ap stopped_task (get_same id s s' same) ∙ h
Stopped-Moves id change s s' keeps (inr c) h =
    let (before, after) = get-Changed c (Stopped-safe id s h) in
    ap stopped_task after ∙ keeps c.old (ap stopped_task (sym before) ∙ h)

session-Stopped :
    (env : Env) (id session : Text) (s : Store)
    → Stopped id s
    → Stopped id (mark_opencode_session env id session s).0
unfolding mark_opencode_session set_session
session-Stopped env id session s h = elim (update_moves env id (set_session session) s) [
  | inl (same, e) ↦ ap stopped_task (get_same id s _ same) ∙ h
  | inr (c, e) ↦ Stopped-Moves id (stamped (set_session session)) s _ (λ t. λ k. k) (inr c) h
]

session_marked-Stopped :
    (id : Text) (r : Store × Option Err) (s : Service)
    → Stopped id r.0
    → Stopped id (session_marked id r s).store
unfolding publish_task_changed
session_marked-Stopped id (store, none) s h = h
session_marked-Stopped id (store, some e) s h = h

record_session-Stopped :
    (w : World) (id session : Text) (s : Service)
    → Stopped id s.store
    → Stopped id (record_session w id session s).store
unfolding record_session
record_session-Stopped w id session s h = elim (Bool-cases (is_empty session)) [
  | inl e ↦ rw (e, record_session) h
  | inr e ↦
      rw (e, record_session)
        (session_marked-Stopped id (mark_opencode_session w.env id session s.store) s
          (session-Stopped w.env id session s.store h))
]

logged-Stopped :
    (w : World) (id text : Text) (r : Store × Option Err) (s : Service)
    → Stopped id r.0
    → Stopped id (logged w id text r s).store
logged-Stopped w id text (store, some e) s h = h
logged-Stopped w id text (store, none) s h =
    record_session-Stopped w id (extract_opencode_session_id text) (record s { store = store }) h

-- The text that is logged does not matter.
pub append_log-Stopped :
    (w : World) (id text : Text) (s : Service)
    → Stopped id s.store
    → Stopped id (append_log w id text s).store
unfolding append_log
append_log-Stopped w id text s h =
    logged-Stopped w id text (Logs.append_log w.log id text s.store) s (
      Stopped-Moves id (Logs.grow (length text)) s.store _ (λ t. λ k. k)
        (append_log-Moves w.log id text s.store) h)

stopped_by_user-Stopped :
    (w : World) (id what : Text) (s : Service)
    → Stopped id s.store
    → Stopped id (stopped_by_user w id what s).store
unfolding stopped_by_user publish_task_changed
stopped_by_user-Stopped w id what s h = append_log-Stopped w id _ s h

end_with_error-Stopped :
    (w : Supply) (id what : Text) (e : Err) (s : Service)
    → Stopped id s.store
    → Stopped id (end_with_error w id what e s).store
unfolding end_with_error task_was_stopped
end_with_error-Stopped w id what e s h =
    rw (end_with_error, h) (stopped_by_user-Stopped (w 0) id what s h)

end_first_run-Stopped :
    (w : Supply) (id : Text) (label : Label) (e : Err) (s : Service)
    → Stopped id s.store
    → Stopped id (end_first_run w id label e s).store
unfolding end_first_run end_with_error log_failed_status task_was_stopped
end_first_run-Stopped w id label e s h =
    rw (end_first_run, h) (stopped_by_user-Stopped (w 0) id (label_text label) s h)

end_rounds-Stopped :
    (w : Supply) (io : WriteupIo) (id : Text) (label : Label) (o : Outcome) (s : Service)
    → Stopped id s.store
    → ((end_rounds w io id label o s).1 ≡ some false)
      × Stopped id (end_rounds w io id label o s).0.store
unfolding end_rounds task_was_stopped
end_rounds-Stopped w io id label o s h = elim (Option-cases o.error) [
  | inl e ↦ rw (end_rounds, e, h) (refl, stopped_by_user-Stopped (w 0) id task_word s h)
  | inr (x, e) ↦ rw (end_rounds, e) (refl, end_with_error-Stopped w id task_word x s h)
]

-- The service when the last runner of a run has answered.
unfoldable pub after_runners : Supply → HintRunner → Text → Outcome → Service
after_runners rounds run id first =
    if is_some first.error || task_was_stopped id first.service
    then first.service
    else (run_until_solved rounds run id first.result first.service).service

-- Whether the runners failed, timed out or found a flag: if the task had been stopped by the user
-- when the last of them answered, finishRun reports no completed run and leaves the task stopped.
pub finish_run_stopped :
    (w rounds : Supply) (run : HintRunner) (io : WriteupIo) (id : Text) (label : Label)
    (first : Outcome)
    → task_was_stopped id (after_runners rounds run id first) ≡ true
    → ((finish_run w rounds run io id label first).1 ≡ some false)
      × (task_was_stopped id (finish_run w rounds run io id label first).0 ≡ true)
unfolding finish_run after_runners task_was_stopped
finish_run_stopped w rounds run io id label first h = elim (Option-cases first.error) [
  | inr (x, e) ↦
      let same : after_runners rounds run id first ≡ first.service = rw (after_runners, e) refl in
      let stopped = subst (λ (x : Service). Stopped id x.store) same h in
      rw (finish_run, e) (refl, end_first_run-Stopped w id label x first.service stopped)
  | inl e ↦ elim (Bool-cases (task_was_stopped id first.service)) [
    | inl s ↦
        rw (finish_run, e, s)
          (refl, stopped_by_user-Stopped (w 0) id (label_text label) first.service s)
    | inr s ↦
        let o = run_until_solved rounds run id first.result first.service in
        let same : after_runners rounds run id first ≡ o.service = rw (after_runners, e, s) refl in
        let stopped = subst (λ (x : Service). Stopped id x.store) same h in
        rw (finish_run, e, s) (end_rounds-Stopped w io id label o o.service stopped)
  ]
]
