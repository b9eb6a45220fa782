-- ===== src/Http/Created.antt =====
-- What createTask leaves behind (internal/app/router.go).
use ctf_agent.Base.{
  ℕ, ◌≡◌, refl, sym, ◌∙◌, subst, ◌⊎◌, inl, inr, Bool, true, ◌||◌, Option, none, some, is_some, [],
  ◌∷◌, ◌++◌, ◌==◌, if◌then◌else◌, Bool-cases,
}
use ctf_agent.Config.{OpenCodeProviderConfig}
use ctf_agent.Errors.{Err, Result, ok, err}
use ctf_agent.Http.{
  Request, Response, Server, HttpIo, Form, FormResult, bad_form, form_too_large, parsed,
}
use ctf_agent.Http.Create.{
  new_task_id, form_refusal, trim_form, make_dirs, remove_all, new_task, submitted, submit_status,
  save_status, is_queue_full, is_too_large, submit_task, saved, prepared, with_provider, checked,
  create_from, create_task, attachments_at,
}
use ctf_agent.Map.{lookup, insert, lookup-delete}
use ctf_agent.Service.{Service, active_opencode_provider}
use ctf_agent.Service.Submit.{submit}
use ctf_agent.Service.Submit.Queued.{submit_queues}
use ctf_agent.Storage.{Saves, prepare_task_dirs, save_uploaded_files}
use ctf_agent.Task.{Task}
use ctf_agent.Text.{Text, text_eq_refl}

abbrev pub is_refusal : ℕ → Bool
is_refusal status = status == 400 || status == 413 || status == 429 || status == 500

-- The task is accepted and its id is at the end of the queue, or it is refused, the queue is as it
-- was and there are no attachments under the id.
abbrev pub AllOrNothing : Text → Server → Server × Response → Type 0
AllOrNothing id s (s', response) =
    ((response.status ≡ 202) × (s'.service.queue ≡ s.service.queue ++ id ∷ []))
    ⊎ ((is_refusal response.status ≡ true)
        × (s'.service.queue ≡ s.service.queue)
        × (lookup id s'.attachments ≡ none))

remove_all_attachments :
    (io : HttpIo) (id : Text) (s : Server)
    → io.remains ≡ none
    → lookup id (remove_all io id s).attachments ≡ none
unfolding remove_all
remove_all_attachments io id s h =
    rw h (lookup-delete id id s.attachments ∙ rw (text_eq_refl id) refl)

remove_all_queue :
    (io : HttpIo) (id : Text) (s : Server)
    → io.remains ≡ none
    → (remove_all io id s).service.queue ≡ s.service.queue
unfolding remove_all
remove_all_queue io id s h = rw h refl

submit_refusal : (e : Err) → is_refusal (submit_status e) ≡ true
submit_refusal e = elim (Bool-cases (is_queue_full e)) [ inl f ↦ rw f refl | inr f ↦ rw f refl ]

save_refusal : (e : Err) → is_refusal (save_status e) ≡ true
save_refusal e = elim (Bool-cases (is_too_large e)) [ inl f ↦ rw f refl | inr f ↦ rw f refl ]

submitted-AllOrNothing :
    (io : HttpIo) (t : Task) (s : Server) (r : Service × Option Err)
    → io.remains ≡ none
    → r.0.queue ≡ (if is_some r.1 then s.service.queue else s.service.queue ++ t.id ∷ [])
    → AllOrNothing t.id s (submitted io t s r)
unfolding submitted
submitted-AllOrNothing io t s (service, none) h q = inl (refl, q)
submitted-AllOrNothing io t s (service, some e) h q =
    let s' : Server = record s { service = service } in
    inr (submit_refusal e, remove_all_queue io t.id s' h ∙ q, remove_all_attachments io t.id s' h)

-- No other goroutine comes between.
abbrev Alone : HttpIo → Type 0
Alone io = io.others ≡ (λ x. x)

submit_task-AllOrNothing :
    (io : HttpIo) (t : Task) (s : Server)
    → io.remains ≡ none
    → Alone io
    → AllOrNothing t.id s (submit_task io t s)
unfolding submit submit_task submitted
submit_task-AllOrNothing io t s h alone =
    submitted-AllOrNothing io t s (submit io.supply io.pick io.others t s.service) h (
      subst
        (λ f. (submit io.supply io.pick f t s.service).0.queue ≡ (
          if is_some (submit io.supply io.pick f t s.service).1
          then s.service.queue
          else s.service.queue ++ t.id ∷ []))
        (sym alone) (submit_queues io.supply io.pick t s.service))

saved-AllOrNothing :
    (io : HttpIo) (id : Text) (f : Form) (dir : Text) (r : Saves) (s : Server)
    → io.remains ≡ none
    → Alone io
    → AllOrNothing id s (saved io id f dir r s)
unfolding new_task saved submit_task
saved-AllOrNothing io id f dir (files, count, none) s h alone =
    submit_task-AllOrNothing io (new_task io.now id f dir count)
      (record s { attachments = insert id files s.attachments }) h alone
saved-AllOrNothing io id f dir (files, count, some e) s h alone =
    let s' : Server = record s { attachments = insert id files s.attachments } in
    inr (save_refusal e, remove_all_queue io id s' h, remove_all_attachments io id s' h)

prepared-AllOrNothing :
    (io : HttpIo) (id : Text) (f : Form) (r : Result Text) (s : Server)
    → io.remains ≡ none
    → Alone io
    → lookup id s.attachments ≡ none
    → AllOrNothing id s (prepared io id f r s)
unfolding make_dirs save_uploaded_files prepared saved
prepared-AllOrNothing io id f (err e) s h alone fresh = inr (refl, refl, fresh)
prepared-AllOrNothing io id f (ok dir) s h alone fresh =
    saved-AllOrNothing io id f dir
      (save_uploaded_files f.files (attachments_at id (make_dirs id s))) (make_dirs id s) h alone

provided-AllOrNothing :
    (io : HttpIo) (f : Form) (p : Result OpenCodeProviderConfig) (s : Server)
    → io.remains ≡ none
    → Alone io
    → lookup (new_task_id io) s.attachments ≡ none
    → AllOrNothing (new_task_id io) s (with_provider io f p s)
unfolding new_task_id prepare_task_dirs with_provider prepared
provided-AllOrNothing io f (err e) s h alone fresh = inr (refl, refl, fresh)
provided-AllOrNothing io f (ok p) s h alone fresh =
    prepared-AllOrNothing io (new_task_id io) f
      (prepare_task_dirs io.made s.service.cfg.challenge_dir (new_task_id io)) s h alone fresh

checked-AllOrNothing :
    (io : HttpIo) (f : Form) (o : Option Text) (s : Server)
    → io.remains ≡ none
    → Alone io
    → lookup (new_task_id io) s.attachments ≡ none
    → AllOrNothing (new_task_id io) s (checked io f o s)
checked-AllOrNothing io f (some text) s h alone fresh = inr (refl, refl, fresh)
checked-AllOrNothing io f none s h alone fresh =
    provided-AllOrNothing io f (active_opencode_provider s.service) s h alone fresh

create_from-AllOrNothing :
    (io : HttpIo) (form : FormResult) (s : Server)
    → io.remains ≡ none
    → Alone io
    → lookup (new_task_id io) s.attachments ≡ none
    → AllOrNothing (new_task_id io) s (create_from io form s)
unfolding create_from
create_from-AllOrNothing io bad_form s h alone fresh = inr (refl, refl, fresh)
create_from-AllOrNothing io form_too_large s h alone fresh = inr (refl, refl, fresh)
create_from-AllOrNothing io (parsed f) s h alone fresh =
    checked-AllOrNothing io (trim_form f) (form_refusal (trim_form f)) s h alone fresh

-- If no other goroutine comes between, os.RemoveAll does not fail, and there are no attachments
-- under the new id before: createTask either answers 202 and the id is at the end of the queue, or
-- it answers 400, 413, 429 or 500, the queue is as it was, and there are no attachments under the
-- id. This holds for every form, every uploaded file and every other answer of the system.
pub create_task-AllOrNothing :
    (io : HttpIo) (r : Request) (s : Server)
    → io.remains ≡ none
    → io.others ≡ (λ x. x)
    → lookup (new_task_id io) s.attachments ≡ none
    → AllOrNothing (new_task_id io) s (create_task io r s)
unfolding create_task
create_task-AllOrNothing io r s h alone fresh = create_from-AllOrNothing io r.form s h alone fresh
