-- ===== src/Service/Closing/Removals.antt =====
-- Which containers the cleaner does not remove (internal/app/service.go).
use ctf_agent.Base.{
  ℕ, ◌≡◌, refl, ap, ◌∙◌, inl, inr, Bool, true, false, not, ◌&&◌, ◌||◌, Option, none, some, is_some,
  List, [], ◌∷◌, Bool-cases, arith, ◌==◌, if◌then◌else◌,
}
use ctf_agent.Docker.{DockerContainer, close_task_container}
use ctf_agent.Docker.Listing.{list_docker_containers}
use ctf_agent.Errors.{Err, Result, ok, err}
use ctf_agent.Map.{Map, lookup}
use ctf_agent.Service.{World, Supply, later, Service}
use ctf_agent.Service.Closing.{
  Pass, is_expired, removed_expired, clean_task, clean_tasks, cleaned, is_tracked, is_old_stray,
  clean_stray, clean_strays, cleanup_expired_containers,
}
use ctf_agent.Store.Listing.{list_tasks}
use ctf_agent.Store.Listing.Sorted.{In}
use ctf_agent.Task.{Task}
use ctf_agent.Text.{Text, text_eq, text_eq_sound, is_empty}
use ctf_agent.Service.Closing.Expired.{is_spared, spared_same}

unfoldable pub is_among : Text → List Text → Bool
is_among name [] = false
is_among name (other ∷ names) = text_eq other name || is_among name names

removed_expired_called :
    (w : Supply) (id : Text) (x : Option Err) (r : Pass) → (removed_expired w id x r).2 ≡ r.2
unfolding removed_expired
removed_expired_called w id (some e) (s, n, called) = refl
removed_expired_called w id none (s, n, called) = refl

clean_task_called :
    (w : Supply) (retention now : ℕ) (containers : Map DockerContainer) (t : Task) (r : Pass)
    (name : Text)
    → text_eq t.container_name name ≡ false
    → is_among name (clean_task w retention now containers t r).2 ≡ is_among name r.2
unfolding clean_task is_among
clean_task_called w retention now containers t (s, n, called) name e =
    elim (Bool-cases (is_empty t.container_name)) [
      | inl a ↦ rw (clean_task, a) refl
      | inr a ↦
          elim (Bool-cases
            (t.container_kept && not (is_some (lookup t.container_name containers)))) [
              | inl b ↦ rw (clean_task, a, b) refl
              | inr b ↦
                  elim (Bool-cases
                    (is_expired retention now (is_some (lookup t.container_name containers)) t)) [
                      | inl c ↦
                          rw (clean_task, a, b, c)
                            (ap (is_among name) (
                                removed_expired_called w t.id
                                  (close_task_container (w 0).docker t.container_name)
                                  (s, n, t.container_name ∷ called))
                              ∙ ap (λ x. x || is_among name called) e)
                      | inr c ↦ rw (clean_task, a, b, c) refl
                    ]
            ]
    ]

clean_tasks_called :
    (w : Supply) (retention now : ℕ) (containers : Map DockerContainer) (l : List Task) (r : Pass)
    (name : Text)
    → ((t : Task)
        → In t l
        → text_eq t.container_name name ≡ true
        → is_spared retention now containers t ≡ true)
    → is_among name (clean_tasks w retention now containers l r).2 ≡ is_among name r.2
unfolding clean_tasks
clean_tasks_called w retention now containers [] r name k = refl
clean_tasks_called w retention now containers (t ∷ l) r name k =
    clean_tasks_called (later 3 w) retention now containers l
      (clean_task w retention now containers t r) name (λ u i. k u (inr i))
    ∙ elim (Bool-cases (text_eq t.container_name name)) [
      | inl e ↦
          ap (λ (x : Pass). is_among name x.2)
            (spared_same w retention now containers t r (k t (inl refl) e))
      | inr e ↦ clean_task_called w retention now containers t r name e
    ]

stray_called :
    (parse : Text → Result ℕ) (w : Supply) (retention now : ℕ) (tasks : List Task) (other : Text)
    (r : ℕ × List Text) (name : Text)
    → is_tracked name tasks ≡ true
    → is_among name
        (if is_old_stray parse w retention now tasks other then clean_stray w other r else r).1
      ≡ is_among name r.1
unfolding is_old_stray clean_stray is_among
stray_called parse w retention now tasks other (n, called) name tracked =
    elim (Bool-cases (is_old_stray parse w retention now tasks other)) [
      | inr e ↦ rw e refl
      | inl e ↦
          let differs : text_eq other name ≡ false = elim (Bool-cases (text_eq other name)) [
            | inr f ↦ f
            | inl f ↦
                let same = ap (λ x. is_tracked x tasks) (text_eq_sound other name f) ∙ tracked in
                absurd (ground arith)
          ] in
          rw e (ap (λ x. x || is_among name called) differs)
    ]

clean_strays_called :
    (parse : Text → Result ℕ) (w : Supply) (retention now : ℕ) (tasks : List Task)
    (m : Map DockerContainer) (r : ℕ × List Text) (name : Text)
    → is_tracked name tasks ≡ true
    → is_among name (clean_strays parse w retention now tasks m r).1 ≡ is_among name r.1
unfolding clean_strays
clean_strays_called parse w retention now tasks [] r name tracked = refl
clean_strays_called parse w retention now tasks ((other, c) ∷ m) r name tracked =
    clean_strays_called parse (later 2 w) retention now tasks m _ name tracked
    ∙ stray_called parse w retention now tasks other r name tracked

cleaned_called :
    (parse : Text → Result ℕ) (w strays : Supply) (now : ℕ) (found : Result (Map DockerContainer))
    (s : Service) (name : Text)
    → is_tracked name (list_tasks s.store) ≡ true
    → ((containers : Map DockerContainer) (t : Task)
        → found ≡ ok containers
        → In t (list_tasks s.store)
        → text_eq t.container_name name ≡ true
        → is_spared s.cfg.container_retention now containers t ≡ true)
    → is_among name (cleaned parse w strays now found s).1 ≡ false
unfolding is_among
cleaned_called parse w strays now (err e) s name tracked k = refl
cleaned_called parse w strays now (ok containers) s name tracked k =
    clean_strays_called parse strays s.cfg.container_retention now (list_tasks s.store) containers _
      name tracked
    ∙ clean_tasks_called w s.cfg.container_retention now containers (list_tasks s.store) (s, 0, [])
        name (λ t i e. k containers t refl i e)

-- The cleaner's pass does not call for the removal of a container that a task names if, given the
-- containers that docker ps reports, it has no reason to touch any task that names it.
pub cleanup_spares_container :
    (parse : Text → Result ℕ) (first : World) (w strays : Supply) (s : Service) (name : Text)
    → is_tracked name (list_tasks s.store) ≡ true
    → ((containers : Map DockerContainer) (t : Task)
        → list_docker_containers first.docker ≡ ok containers
        → In t (list_tasks s.store)
        → text_eq t.container_name name ≡ true
        → is_spared s.cfg.container_retention first.env.now containers t ≡ true)
    → is_among name (cleanup_expired_containers parse first w strays s).1 ≡ false
unfolding cleanup_expired_containers is_among
cleanup_spares_container parse first w strays s name tracked k =
    elim (Bool-cases (s.cfg.container_retention == 0)) [
      | inl e ↦ rw (cleanup_expired_containers, e) refl
      | inr e ↦
          rw (cleanup_expired_containers, e)
            (cleaned_called parse w strays first.env.now (list_docker_containers first.docker) s
              name tracked k)
    ]
