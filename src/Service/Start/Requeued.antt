-- ===== src/Service/Start/Requeued.antt =====
-- Which recovered tasks NewService queues (internal/app/service.go).
use mathlib.Core.List.{append_assoc, append-nil}
use ctf_agent.Base.{
  ℕ, suc, ◌+◌, ◌≡◌, ◌≤◌, refl, sym, subst, ap, ◌∙◌, inl, inr, Bool, true, false, Option, none, some,
  List, [], ◌∷◌, ◌++◌, length, length-append, ltb, Bool-cases, arith,
}
use ctf_agent.Errors.{Err}
use ctf_agent.Service.{
  World, Supply, later, Service, queue_capacity, enqueue, append_log, logged, record_session,
  session_marked, publish_task_changed,
}
use ctf_agent.Service.Session.{extract_opencode_session_id}
use ctf_agent.Service.Start.{requeued_after, requeue_all, recovered_line}
use ctf_agent.Store.{Store}
use ctf_agent.Store.Logs
use ctf_agent.Store.Marks.{mark_recovered, mark_opencode_session}
use ctf_agent.Text.{Text, is_empty}

-- What a log line leaves alone.
pub record Quiet (s s' : Service) : Type 0 where
  pub queue : s'.queue ≡ s.queue
  pub capacity : queue_capacity s' ≡ queue_capacity s
  pub stopped : s'.stopped ≡ s.stopped

session_marked-Quiet :
    (id : Text) (r : Store × Option Err) (s : Service) → Quiet s (session_marked id r s)
unfolding publish_task_changed
session_marked-Quiet id (store, none) s = record { queue = refl; capacity = refl; stopped = refl }
session_marked-Quiet id (store, some e) s = record { queue = refl; capacity = refl; stopped = refl }

record_session-Quiet :
    (w : World) (id session : Text) (s : Service) → Quiet s (record_session w id session s)
unfolding record_session
record_session-Quiet w id session s = elim (Bool-cases (is_empty session)) [
  | inl e ↦ rw e (record { queue = refl; capacity = refl; stopped = refl })
  | inr e ↦ rw e (session_marked-Quiet id (mark_opencode_session w.env id session s.store) s)
]

logged-Quiet :
    (w : World) (id text : Text) (r : Store × Option Err) (s : Service)
    → Quiet s (logged w id text r s)
logged-Quiet w id text (store, some e) s = record { queue = refl; capacity = refl; stopped = refl }
logged-Quiet w id text (store, none) s =
    let h =
      record_session-Quiet w id (extract_opencode_session_id text) (record s { store = store }) in
    record { queue = h.queue; capacity = h.capacity; stopped = h.stopped }

append_log-Quiet : (w : World) (id text : Text) (s : Service) → Quiet s (append_log w id text s)
unfolding append_log
append_log-Quiet w id text s = logged-Quiet w id text (Logs.append_log w.log id text s.store) s

-- The ids that MarkRecovered accepts, one after the other.
unfoldable pub accepted_ids : Supply → Bool → List Text → Service → List Text
unfolding requeued_after mark_recovered
accepted_ids w pick [] s = []
accepted_ids w pick (id ∷ ids) s =
    let rest =
      accepted_ids (later 2 w) pick ids
        (requeued_after (w 1) pick id (mark_recovered (w 0).env id s.store) s) in
    elim (mark_recovered (w 0).env id s.store).1 [ none ↦ id ∷ rest | some e ↦ rest ]

-- One turn with room in the queue.
abbrev Turned : Text → Service → Service → Option Err → Type 0
Turned id s s' e =
    (queue_capacity s' ≡ queue_capacity s)
    × (s'.stopped ≡ s.stopped)
    × (s'.queue ≡ elim e [ none ↦ s.queue ++ id ∷ [] | some x ↦ s.queue ])

room_fits : (n k : ℕ) → suc n ≤ k → ltb n k ≡ true
room_fits n k h = ground arith

enqueue_room :
    (pick : Bool) (id : Text) (s : Service)
    → s.stopped ≡ false
    → suc (length s.queue) ≤ queue_capacity s
    → enqueue pick id s ≡ (record s { queue = s.queue ++ id ∷ [] }, true)
unfolding enqueue
enqueue_room pick id s running room =
    let fits : ltb (length s.queue) (queue_capacity s) ≡ true =
      room_fits (length s.queue) (queue_capacity s) room in
    rw (running, fits, enqueue) refl

room_kept :
    (s s' : Service)
    → Quiet s s'
    → suc (length s.queue) ≤ queue_capacity s
    → suc (length s'.queue) ≤ queue_capacity s'
room_kept s s' q h =
    subst (λ k. suc (length s'.queue) ≤ k) (sym q.capacity)
      (subst (λ x. suc (length x) ≤ queue_capacity s) (sym q.queue) h)

turn :
    (w : World) (pick : Bool) (id : Text) (r : Store × Option Err) (s : Service)
    → s.stopped ≡ false
    → suc (length s.queue) ≤ queue_capacity s
    → Turned id s (requeued_after w pick id r s) r.1
unfolding requeued_after
turn w pick id (store, some e) s running room = (refl, refl, refl)
turn w pick id (store, none) s running room =
    let q = append_log-Quiet w id recovered_line (record s { store = store }) in
    let logged_service = append_log w id recovered_line (record s { store = store }) in
    let room' : suc (length logged_service.queue) ≤ queue_capacity logged_service =
      room_kept _ _ q room in
    let sent = enqueue_room pick id logged_service (q.stopped ∙ running) room' in
    (
      ap (λ r. queue_capacity r.0) sent ∙ q.capacity,
      ap (λ r. r.0.stopped) sent ∙ q.stopped,
      ap (λ r. r.0.queue) sent ∙ ap (λ x. x ++ id ∷ []) q.queue,
    )

requeue_step :
    (w : Supply) (pick : Bool) (id : Text) (ids : List Text) (s s' : Service) (e : Option Err)
    → Turned id s s' e
    → length s.queue + length (id ∷ ids) ≤ queue_capacity s
    → length s'.queue + length ids ≤ queue_capacity s'
requeue_step w pick id ids s s' none t h =
    let size = ap length t.2 ∙ length-append s.queue (id ∷ []) in
    let cap = t.0 in subst (λ k. length s'.queue + length ids ≤ k) (sym cap) (omega arith)
requeue_step w pick id ids s s' (some e) t h =
    let size = ap length t.2 in
    let cap = t.0 in subst (λ k. length s'.queue + length ids ≤ k) (sym cap) (omega arith)

joined :
    (q rest : List Text) (id : Text) (e : Option Err) (q' : List Text)
    → q' ≡ elim e [ none ↦ q ++ id ∷ [] | some x ↦ q ]
    → q' ++ rest ≡ q ++ (elim e [ none ↦ id ∷ rest | some x ↦ rest ])
joined q rest id none q' h = ap (λ x. x ++ rest) h ∙ append_assoc q (id ∷ []) rest
joined q rest id (some e) q' h = ap (λ x. x ++ rest) h

-- On a service that is not stopped and whose queue has room for all recoverable tasks, each task
-- that is marked as recovered gets into the queue, behind what is there and in the order of the
-- tasks.
pub requeue_all_queues :
    (w : Supply) (pick : Bool) (ids : List Text) (s : Service)
    → s.stopped ≡ false
    → length s.queue + length ids ≤ queue_capacity s
    → (requeue_all w pick ids s).queue ≡ s.queue ++ accepted_ids w pick ids s
unfolding requeue_all accepted_ids
requeue_all_queues w pick [] s running room = sym (append-nil s.queue)
requeue_all_queues w pick (id ∷ ids) s running room =
    let marked = mark_recovered (w 0).env id s.store in
    let s' = requeued_after (w 1) pick id marked s in
    let t = turn (w 1) pick id marked s running (omega arith) in
    let rest = accepted_ids (later 2 w) pick ids s' in
    requeue_all_queues (later 2 w) pick ids s' (t.1 ∙ running)
      (requeue_step w pick id ids s s' marked.1 t room)
    ∙ joined s.queue rest id marked.1 s'.queue t.2
