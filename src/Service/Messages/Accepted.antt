-- ===== src/Service/Messages/Accepted.antt =====
-- When SendTaskMessage accepts a message (internal/app/service.go).
use ctf_agent.Base.{
  ◌≡◌, ◌↔◌, inl, inr, Bool, true, false, not, ◌&&◌, ◌||◌, none, some, length, ltb, arith,
  Bool-cases, Option-cases,
}
use ctf_agent.Map.{lookup}
use ctf_agent.Service.{
  World, Service, queue_capacity, enqueue, active_opencode_provider, reserve_task_message, is_busy,
}
use ctf_agent.Service.Messages.{
  refusal, after_enqueue, after_reserve, unless_refused, send_task_message, provider_error,
}
use ctf_agent.Store.{get}
use ctf_agent.Task.{Task}
use ctf_agent.Task.View.{Continuable}
use ctf_agent.Text.{Text, is_empty, trim_space}

-- What SendTaskMessage demands: a text, a task that can be continued, a provider, a slot of the
-- task, room in the queue of a service that is not stopping (or where select takes the send).
pub record Accepts (pick : Bool) (t : Task) (id text : Text) (s : Service) : Type 0 where
  pub written : is_empty (trim_space text) ≡ false
  pub continuable : Continuable t
  pub provider : provider_error (active_opencode_provider s) ≡ none
  pub free : is_busy (lookup id s.busy) ≡ false
  pub room : ltb (length s.queue) (queue_capacity s) ≡ true
  pub accepting : not s.stopped || pick ≡ true

refusal_sound :
    (t : Task) (text : Text) (s : Service)
    → refusal t text s ≡ none
    → (is_empty text ≡ false) × Continuable t × (provider_error (active_opencode_provider s) ≡ none)
unfolding refusal
refusal_sound t text s h = ground arith

refusal_complete :
    (t : Task) (text : Text) (s : Service)
    → is_empty text ≡ false
    → Continuable t
    → provider_error (active_opencode_provider s) ≡ none
    → refusal t text s ≡ none
unfolding refusal
refusal_complete t text s e c p = ground arith

reserved_iff :
    (w : World) (pick : Bool) (id text : Text) (s : Service)
    → ((after_reserve w pick id (reserve_task_message id text s)).1 ≡ none) ↔ (
        (is_busy (lookup id s.busy) ≡ false)
        × ((ltb (length s.queue) (queue_capacity s) && (not s.stopped || pick)) ≡ true))
unfolding after_reserve reserve_task_message enqueue after_enqueue
reserved_iff w pick id text s = elim (Bool-cases (is_busy (lookup id s.busy))) [
  | inl b ↦ rw (b, reserve_task_message, after_reserve) (ground arith)
  | inr b ↦ elim (Bool-cases (ltb (length s.queue) (queue_capacity s) && (not s.stopped || pick))) [
    | inl c ↦ rw (b, reserve_task_message, after_reserve, c, enqueue, after_enqueue) (ground arith)
    | inr c ↦ rw (b, reserve_task_message, after_reserve, c, enqueue, after_enqueue) (ground arith)
  ]
]

sound :
    (w : World) (pick : Bool) (id text : Text) (t : Task) (s : Service)
    → (unless_refused w pick (λ x. x) id (trim_space text) (refusal t (trim_space text) s) s).1
      ≡ none
    → Accepts pick t id text s
sound w pick id text t s = elim (Option-cases (refusal t (trim_space text) s)) [
  | inr (x, e) ↦ rw e (λ h. absurd (ground arith))
  | inl e ↦ rw e (λ h.
      let (written, continuable, provider) = refusal_sound t (trim_space text) s e in
      let (free, rest) = (reserved_iff w pick id (trim_space text) s).0 h in
      record {
        written = written;
        continuable = continuable;
        provider = provider;
        free = free;
        room = ground arith;
        accepting = ground arith;
      })
]

complete :
    (w : World) (pick : Bool) (id text : Text) (t : Task) (s : Service)
    → Accepts pick t id text s
    → (unless_refused w pick (λ x. x) id (trim_space text) (refusal t (trim_space text) s) s).1
      ≡ none
complete w pick id text t s a =
    rw (refusal_complete t (trim_space text) s a.written a.continuable a.provider) (
      (reserved_iff w pick id (trim_space text) s).1
        (a.free, (let r = a.room in let c = a.accepting in ground arith)))

-- If no other goroutine comes between, a message for a task that is there is accepted exactly when
-- the message is not blank, the task is neither queued nor running and has a kept container and a
-- session, the active provider is configured, no message for the task is under way, and the queue
-- has room and takes it.
pub send_task_message_iff :
    (w : World) (pick : Bool) (id text : Text) (t : Task) (s : Service)
    → get id s.store ≡ some t
    → ((send_task_message w pick (λ x. x) id text s).1 ≡ none) ↔ Accepts pick t id text s
unfolding send_task_message
send_task_message_iff w pick id text t s e =
    rw (send_task_message, e) (sound w pick id text t s, complete w pick id text t s)
