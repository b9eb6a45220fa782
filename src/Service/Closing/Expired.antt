-- ===== src/Service/Closing/Expired.antt =====
-- What the cleaner leaves alone (internal/app/service.go).
use ctf_agent.Base.{
  ℕ, ◌≡◌, refl, ap, ◌∙◌, inl, inr, Bool, true, false, not, ◌&&◌, ◌||◌, Option, none, some, is_some,
  List, [], ◌∷◌, Bool-cases, arith, ◌==◌,
}
use ctf_agent.Docker.{DockerContainer, close_task_container}
use ctf_agent.Docker.Listing.{list_docker_containers}
use ctf_agent.Errors.{Err, Result, ok, err}
use ctf_agent.Map.{Map, lookup}
use ctf_agent.Service.{
  World, Supply, later, Service, publish_task_changed, append_log, logged, session_marked,
  record_session,
}
use ctf_agent.Service.Closing.{
  Pass, is_expired, is_past, retained_at, removed_expired, expired_line, clean_task, clean_tasks,
  cleaned, cleanup_expired_containers,
}
use ctf_agent.Service.Session.{extract_opencode_session_id}
use ctf_agent.Store.{Store}
use ctf_agent.Store.Changes.{set_session, close_container}
use ctf_agent.Store.Listing.{list_tasks}
use ctf_agent.Store.Listing.Sorted.{In}
use ctf_agent.Store.Logs
use ctf_agent.Store.Marks.{mark_opencode_session, mark_container_closed}
use ctf_agent.Store.Moves.{Moves-other, update_other, append_log-Moves}
use ctf_agent.Task.{Task, is_running}
use ctf_agent.Text.{Text, text_eq, is_empty}

-- The cleaner has no reason to touch the task: it keeps no container, or docker knows the container
-- and the task runs or its container has not been kept for the time of retention yet.
unfoldable pub is_spared : ℕ → ℕ → Map DockerContainer → Task → Bool
is_spared retention now containers t =
    not t.container_kept
    || (is_some (lookup t.container_name containers)
        && (is_running t.status || not (is_past retention now (retained_at t))))

abbrev Same : Text → Store → Store → Type 0
Same j s s' = lookup j s'.tasks ≡ lookup j s.tasks

session_marked_same :
    (id j : Text) (r : Store × Option Err) (s : Service) → (session_marked id r s).store ≡ r.0
unfolding publish_task_changed
session_marked_same id j (store, none) s = refl
session_marked_same id j (store, some e) s = refl

record_session_other :
    (w : World) (id session j : Text) (s : Service)
    → text_eq id j ≡ false
    → Same j s.store (record_session w id session s).store
unfolding record_session mark_opencode_session
record_session_other w id session j s e = elim (Bool-cases (is_empty session)) [
  | inl k ↦ rw (k, record_session) refl
  | inr k ↦
      rw (k, record_session)
        (ap (λ (x : Store). lookup j x.tasks)
            (session_marked_same id j (mark_opencode_session w.env id session s.store) s)
          ∙ update_other w.env id (set_session session) j s.store e)
]

logged_other :
    (w : World) (id text j : Text) (r : Store × Option Err) (s : Service)
    → text_eq id j ≡ false
    → Same j r.0 (logged w id text r s).store
logged_other w id text j (store, some x) s e = refl
logged_other w id text j (store, none) s e =
    record_session_other w id (extract_opencode_session_id text) j (record s { store = store }) e

append_log_other :
    (w : World) (id text j : Text) (s : Service)
    → text_eq id j ≡ false
    → Same j s.store (append_log w id text s).store
unfolding append_log
append_log_other w id text j s e =
    logged_other w id text j (Logs.append_log w.log id text s.store) s e
    ∙ Moves-other j s.store _ (append_log-Moves w.log id text s.store) e

removed_expired_other :
    (w : Supply) (id j : Text) (x : Option Err) (r : Pass)
    → text_eq id j ≡ false
    → Same j r.0.store (removed_expired w id x r).0.store
unfolding removed_expired mark_container_closed publish_task_changed
removed_expired_other w id j (some x) (s, n, called) e = refl
removed_expired_other w id j none (s, n, called) e =
    append_log_other (w 2) id expired_line j _ e
    ∙ update_other (w 1).env id (close_container (w 1).env.now) j s.store e

pub spared_same :
    (w : Supply) (retention now : ℕ) (containers : Map DockerContainer) (t : Task) (r : Pass)
    → is_spared retention now containers t ≡ true
    → clean_task w retention now containers t r ≡ r
unfolding clean_task is_spared is_expired
spared_same w retention now containers t (s, n, called) h = ground arith

clean_task_other :
    (w : Supply) (retention now : ℕ) (containers : Map DockerContainer) (t : Task) (r : Pass)
    (j : Text)
    → text_eq t.id j ≡ false
    → Same j r.0.store (clean_task w retention now containers t r).0.store
unfolding clean_task mark_container_closed
clean_task_other w retention now containers t (s, n, called) j e =
    elim (Bool-cases (is_empty t.container_name)) [
      | inl a ↦ rw (clean_task, a) refl
      | inr a ↦
          elim (Bool-cases
            (t.container_kept && not (is_some (lookup t.container_name containers)))) [
              | inl b ↦
                  rw (clean_task, a, b)
                    (update_other (w 1).env t.id (close_container (w 1).env.now) j s.store e)
              | inr b ↦
                  elim (Bool-cases
                    (is_expired retention now (is_some (lookup t.container_name containers)) t)) [
                      | inl c ↦
                          rw (clean_task, a, b, c)
                            (removed_expired_other w t.id j
                              (close_task_container (w 0).docker t.container_name)
                              (s, n, t.container_name ∷ called) e)
                      | inr c ↦ rw (clean_task, a, b, c) refl
                    ]
            ]
    ]

clean_tasks_spared :
    (w : Supply) (retention now : ℕ) (containers : Map DockerContainer) (l : List Task) (r : Pass)
    (j : Text)
    → ((t : Task) → In t l → text_eq t.id j ≡ true → is_spared retention now containers t ≡ true)
    → Same j r.0.store (clean_tasks w retention now containers l r).0.store
unfolding clean_tasks
clean_tasks_spared w retention now containers [] r j k = refl
clean_tasks_spared w retention now containers (t ∷ l) r j k =
    clean_tasks_spared (later 3 w) retention now containers l
      (clean_task w retention now containers t r) j (λ u i. k u (inr i))
    ∙ elim (Bool-cases (text_eq t.id j)) [
      | inl e ↦
          ap (λ (x : Pass). lookup j x.0.store.tasks)
            (spared_same w retention now containers t r (k t (inl refl) e))
      | inr e ↦ clean_task_other w retention now containers t r j e
    ]

cleaned_spared :
    (parse : Text → Result ℕ) (w strays : Supply) (now : ℕ) (found : Result (Map DockerContainer))
    (s : Service) (j : Text)
    → ((containers : Map DockerContainer) (t : Task)
        → found ≡ ok containers
        → In t (list_tasks s.store)
        → text_eq t.id j ≡ true
        → is_spared s.cfg.container_retention now containers t ≡ true)
    → Same j s.store (cleaned parse w strays now found s).0.store
cleaned_spared parse w strays now (err e) s j k = refl
cleaned_spared parse w strays now (ok containers) s j k =
    clean_tasks_spared w s.cfg.container_retention now containers (list_tasks s.store) (s, 0, []) j
      (λ t i e. k containers t refl i e)

-- The store holds a task as it was after the cleaner's pass if the pass has no reason to touch it,
-- given the containers that docker ps reports: it keeps no container, or its container is there and
-- the task runs or its container has been kept for less than the time of retention.
pub cleanup_spares :
    (parse : Text → Result ℕ) (first : World) (w strays : Supply) (s : Service) (j : Text)
    → ((containers : Map DockerContainer) (t : Task)
        → list_docker_containers first.docker ≡ ok containers
        → In t (list_tasks s.store)
        → text_eq t.id j ≡ true
        → is_spared s.cfg.container_retention first.env.now containers t ≡ true)
    → lookup j (cleanup_expired_containers parse first w strays s).0.store.tasks
      ≡ lookup j s.store.tasks
unfolding cleanup_expired_containers
cleanup_spares parse first w strays s j k = elim (Bool-cases (s.cfg.container_retention == 0)) [
  | inl e ↦ rw (cleanup_expired_containers, e) refl
  | inr e ↦
      rw (cleanup_expired_containers, e)
        (cleaned_spared parse w strays first.env.now (list_docker_containers first.docker) s j k)
]
