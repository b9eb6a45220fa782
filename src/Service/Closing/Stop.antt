-- ===== src/Service/Closing/Stop.antt =====
-- Whether a task that its user stops counts as stopped (internal/app/service.go).
use ctf_agent.Base.{
  ◌≡◌, refl, sym, ap, ◌∙◌, inl, inr, Bool, true, false, ◌||◌, Option, none, some, Bool-cases, arith,
}
use ctf_agent.Docker.{close_task_container}
use ctf_agent.Errors.{Err}
use ctf_agent.Names.{is_safe_task_id}
use ctf_agent.Service.{World, Supply, Service, publish_task_changed}
use ctf_agent.Service.Closing.{
  canceled_by_user, announce, queued_stopped, closed_by_user, is_closable, after_removal,
  close_found, close_read, stop_task,
}
use ctf_agent.Service.Finish.{stopped_task, task_was_stopped}
use ctf_agent.Service.Worker.Stopped.{Stopped, append_log-Stopped}
use ctf_agent.Store.{Store, Env, get, update}
use ctf_agent.Store.Changes.{stop, close_container, task_stopped_message, container_closed_message}
use ctf_agent.Store.Marks.{mark_stopped, mark_container_closed}
use ctf_agent.Store.Moves.{stamped, update_moves, get-Changed}
use ctf_agent.Task.{Task, is_queued, is_running, is_failed}
use ctf_agent.Text.{Text, text_eq_refl}

abbrev pub is_stoppable : Option Task → Bool
is_stoppable none = false
is_stoppable (some t) = is_queued t.status || is_running t.status || is_failed t.status

active_safe : (id : Text) (s : Store) → is_stoppable (get id s) ≡ true → is_safe_task_id id ≡ true
unfolding get
active_safe id s h = elim (Bool-cases (is_safe_task_id id)) [
  | inl safe ↦ safe
  | inr unsafe ↦ absurd (ground arith)
]

update-Stopped :
    (env : Env) (id : Text) (change : Task → Task) (s : Store)
    → ((t : Task) → is_stoppable (some t) ≡ true → stopped_task (some (stamped change t)) ≡ true)
    → is_stoppable (get id s) ≡ true
    → (update env id change s).1 ≡ none
    → Stopped id (update env id change s).0
update-Stopped env id change s k active done = elim (update_moves env id change s) [
  | inl (same, failed) ↦ absurd (ground arith)
  | inr (c, e) ↦
      let (before, after) = get-Changed c (active_safe id s active) in
      ap stopped_task after ∙ k c.old (ap is_stoppable (sym before) ∙ active)
]

mark_stopped-Stopped :
    (env : Env) (id : Text) (s : Store)
    → is_stoppable (get id s) ≡ true
    → (mark_stopped env id task_stopped_message s).1 ≡ none
    → Stopped id (mark_stopped env id task_stopped_message s).0
unfolding mark_stopped stop
mark_stopped-Stopped env id s =
    update-Stopped env id (stop env.now task_stopped_message) s
      (λ t h. ground (arith, text_eq_refl task_stopped_message))

mark_container_closed-Stopped :
    (env : Env) (id : Text) (s : Store)
    → is_stoppable (get id s) ≡ true
    → (mark_container_closed env id s).1 ≡ none
    → Stopped id (mark_container_closed env id s).0
unfolding mark_container_closed close_container
mark_container_closed-Stopped env id s =
    update-Stopped env id (close_container env.now) s
      (λ t h. ground (arith, text_eq_refl container_closed_message))

announce-Stopped :
    (w : World) (id line : Text) (r : Store × Option Err) (s : Service)
    → (r.1 ≡ none → Stopped id r.0)
    → (announce w id line r s).1 ≡ none
    → Stopped id (announce w id line r s).0.store
unfolding announce publish_task_changed
announce-Stopped w id line (store, some e) s k done = absurd (ground arith)
announce-Stopped w id line (store, none) s k done = append_log-Stopped w id line _ (k refl)

after_removal-Stopped :
    (w : Supply) (id : Text) (e : Option Err) (s : Service)
    → is_stoppable (get id s.store) ≡ true
    → (after_removal w id e s).1 ≡ none
    → Stopped id (after_removal w id e s).0.store
after_removal-Stopped w id (some e) s active done = absurd (ground arith)
after_removal-Stopped w id none s active done =
    announce-Stopped (w 2) id closed_by_user (mark_container_closed (w 1).env id s.store) s
      (mark_container_closed-Stopped (w 1).env id s.store active) done

close_found-Stopped :
    (w : Supply) (others : Service → Service) (id : Text) (t : Task) (s : Service)
    → is_stoppable (get id (others s).store) ≡ true
    → (close_found w others id t s).1 ≡ none
    → Stopped id (close_found w others id t s).0.store
unfolding close_found
close_found-Stopped w others id t s active =
    let s' = others s in
    elim (Bool-cases (is_queued t.status)) [
      | inl q ↦
          rw (close_found, q)
            (announce-Stopped (w 1) id queued_stopped
              (mark_stopped (w 0).env id task_stopped_message s'.store) s'
              (mark_stopped-Stopped (w 0).env id s'.store active))
      | inr q ↦ elim (Bool-cases (is_closable t)) [
        | inl c ↦
            rw (close_found, q, c)
              (after_removal-Stopped w id (close_task_container (w 0).docker t.container_name) s'
                active)
        | inr c ↦ rw (close_found, q, c) (λ done. absurd (ground arith))
      ]
    ]

close_read-Stopped :
    (w : Supply) (others : Service → Service) (id : Text) (t : Option Task) (s : Service)
    → is_stoppable (get id (others (canceled_by_user id s)).store) ≡ true
    → (close_read w others id t s).1 ≡ none
    → Stopped id (close_read w others id t s).0.store
close_read-Stopped w others id none s active done = absurd (ground arith)
close_read-Stopped w others id (some t) s active done =
    close_found-Stopped w others id t (canceled_by_user id s) active done

-- Where stopping a task succeeds, the task then counts as stopped by its user, provided that the
-- other goroutines, once its run is canceled and until docker has removed its container, leave the
-- task queued, running or failed.
pub stop_task_stops :
    (w : Supply) (others : Service → Service) (id : Text) (s : Service)
    → is_stoppable (get id (others (canceled_by_user id s)).store) ≡ true
    → (stop_task w others id s).1 ≡ none
    → task_was_stopped id (stop_task w others id s).0 ≡ true
unfolding stop_task task_was_stopped
stop_task_stops w others id s active done =
    close_read-Stopped w others id (get id s.store) s active done
