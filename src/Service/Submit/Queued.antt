-- ===== src/Service/Submit/Queued.antt =====
-- Submit and the queue (internal/app/service.go).
use ctf_agent.Base.{
  ◌≡◌, refl, ◌∙◌, inl, inr, Bool, true, false, not, ◌&&◌, ◌||◌, Option, none, some, is_some, [],
  ◌∷◌, ◌++◌, length, ltb, Bool-cases, if◌then◌else◌,
}
use ctf_agent.Config.{OpenCodeProviderConfig}
use ctf_agent.Errors.{Err, Result, ok, err}
use ctf_agent.Service.{
  World, Supply, Service, queue_capacity, session_marked, record_session, logged, append_log,
  publish_task_changed, queue_is_full, enqueue, active_opencode_provider,
}
use ctf_agent.Service.Session.{extract_opencode_session_id}
use ctf_agent.Service.Submit.{sent, added, admitted, submit, queued_log}
use ctf_agent.Store.{Store, add}
use ctf_agent.Store.Logs
use ctf_agent.Store.Marks.{mark_opencode_session}
use ctf_agent.Task.{Task}
use ctf_agent.Text.{Text, is_empty}

session_marked_queue :
    (id : Text) (r : Store × Option Err) (s : Service) → (session_marked id r s).queue ≡ s.queue
unfolding publish_task_changed
session_marked_queue id (store, none) s = refl
session_marked_queue id (store, some e) s = refl

record_session_queue :
    (w : World) (id session : Text) (s : Service) → (record_session w id session s).queue ≡ s.queue
unfolding record_session
record_session_queue w id session s = elim (Bool-cases (is_empty session)) [
  | inl e ↦ rw (record_session, e) refl
  | inr e ↦
      rw (record_session, e)
        (session_marked_queue id (mark_opencode_session w.env id session s.store) s)
]

logged_queue :
    (w : World) (id text : Text) (r : Store × Option Err) (s : Service)
    → (logged w id text r s).queue ≡ s.queue
logged_queue w id text (store, some e) s = refl
logged_queue w id text (store, none) s =
    record_session_queue w id (extract_opencode_session_id text) (record s { store = store })

pub append_log_queue :
    (w : World) (id text : Text) (s : Service) → (append_log w id text s).queue ≡ s.queue
unfolding append_log
append_log_queue w id text s = logged_queue w id text (Logs.append_log w.log id text s.store) s

-- The queue after a call with the given error, if any.
abbrev pub QueuedUnlessRefused : Text → Service → Service × Option Err → Type 0
QueuedUnlessRefused id s (s', e) = s'.queue ≡ (if is_some e then s.queue else s.queue ++ id ∷ [])

-- The queue after enqueue.
unfoldable Offered : Text → Service → Service × Bool → Type 0
Offered id s (s', b) = s'.queue ≡ (if b then s.queue ++ id ∷ [] else s.queue)

enqueue-Offered : (pick : Bool) (id : Text) (s : Service) → Offered id s (enqueue pick id s)
unfolding enqueue Offered
enqueue-Offered pick id s =
    elim (Bool-cases (ltb (length s.queue) (queue_capacity s) && (not s.stopped || pick))) [
      | inl e ↦ rw (enqueue, e) refl
      | inr e ↦ rw (enqueue, e) refl
    ]

sent_queued :
    (w : Supply) (id : Text) (s : Service) (r : Service × Bool)
    → Offered id s r
    → QueuedUnlessRefused id s (sent w id r)
unfolding sent publish_task_changed Offered
sent_queued w id s (s', true) h = append_log_queue (w 2) id (queued_log s') s' ∙ h
sent_queued w id s (s', false) h = h

added_queued :
    (w : Supply) (pick : Bool) (id : Text) (r : Store × Option Err) (s : Service)
    → QueuedUnlessRefused id s (added w pick (λ x. x) id r s)
unfolding publish_task_changed Offered
added_queued w pick id (store, some e) s = refl
added_queued w pick id (store, none) s =
    let s' = publish_task_changed id (record s { store = store }) in
    sent_queued w id s (enqueue pick id s') (enqueue-Offered pick id s')

admitted_queued :
    (w : Supply) (pick : Bool) (task : Task) (p : Result OpenCodeProviderConfig) (s : Service)
    → QueuedUnlessRefused task.id s (admitted w pick (λ x. x) task p s)
admitted_queued w pick task (err e) s = refl
admitted_queued w pick task (ok p) s = elim (Bool-cases (queue_is_full s)) [
  | inl e ↦ rw e refl
  | inr e ↦ rw e (added_queued w pick task.id (add (w 0).env (some task) s.store) s)
]

-- If no other goroutine comes between, Submit puts the id of the task at the end of the queue if it
-- returns no error, and leaves the queue as it was if it returns one.
pub submit_queues :
    (w : Supply) (pick : Bool) (task : Task) (s : Service)
    → (submit w pick (λ x. x) task s).0.queue
      ≡ (if is_some (submit w pick (λ x. x) task s).1 then s.queue else s.queue ++ task.id ∷ [])
unfolding submit
submit_queues w pick task s = admitted_queued w pick task (active_opencode_provider s) s
