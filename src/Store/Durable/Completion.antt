-- ===== src/Store/Durable/Completion.antt =====
-- What readTask makes of a document that writeTask wrote (internal/app/store.go).
use ctf_agent.Base.{
  ◌≡◌, refl, sym, ap, ◌∙◌, ◌⊎◌, inl, inr, true, false, Option, none, some, [], ◌∷◌, Bool-cases, ℕ,
  length, is_some, if◌then◌else◌,
}
use ctf_agent.Disk.{Dir, complete, attachments_path, settle_flag, log_size_or}
use ctf_agent.Task.{Task, solved, is_solved}
use ctf_agent.Text.{Text, is_empty}

empty_text : (s : Text) → is_empty s ≡ true → s ≡ []
empty_text [] h = refl
empty_text (c ∷ s) h = absurd (cc)

-- What readTask makes of the document of `t`: the task itself, but that an empty attachments path is
-- filled in, that the log size is that of logs.txt if it is there, and that a task with a flag
-- counts as solved.
pub record Restored (root : Text) (dir : Dir) (t r : Task) : Type 0 where
  pub attachments :
      (r.attachments_dir ≡ t.attachments_dir)
      ⊎ ((t.attachments_dir ≡ []) × (r.attachments_dir ≡ attachments_path root t.id))
  pub log_size :
      ((dir.log.current ≡ none) × (r.log_size ≡ t.log_size))
      ⊎ ((text : Text) × (dir.log.current ≡ some text) × (r.log_size ≡ length text))
  pub outcome :
      (((t.flag ≡ none) ⊎ (is_solved t.status ≡ true))
        × (r ≡ record t { attachments_dir = r.attachments_dir; log_size = r.log_size }))
      ⊎ ((is_some t.flag ≡ true)
          × (is_solved t.status ≡ false)
          × (r ≡ record t {
            attachments_dir = r.attachments_dir;
            log_size = r.log_size;
            status = solved;
            error = none;
            container_kept = false;
          }))

attachments_kept :
    (root : Text) (t : Task)
    → let a =
        if is_empty t.attachments_dir then attachments_path root t.id else t.attachments_dir in
      (a ≡ t.attachments_dir) ⊎ ((t.attachments_dir ≡ []) × (a ≡ attachments_path root t.id))
attachments_kept root t = elim (Bool-cases (is_empty t.attachments_dir)) [
  | inl e ↦ rw e (inr (empty_text t.attachments_dir e, refl))
  | inr e ↦ rw e (inl refl)
]

size_kept :
    (current : Option Text) (n : ℕ)
    → ((current ≡ none) × (log_size_or current n ≡ n))
      ⊎ ((text : Text) × (current ≡ some text) × (log_size_or current n ≡ length text))
size_kept none n = inl (refl, refl)
size_kept (some text) n = inr (text, refl, refl)

settled :
    (root : Text) (dir : Dir) (t u : Task) (flag : Option Text)
    → u ≡ record t { attachments_dir = u.attachments_dir; log_size = u.log_size }
    → t.flag ≡ flag
    → (u.attachments_dir ≡ t.attachments_dir)
      ⊎ ((t.attachments_dir ≡ []) × (u.attachments_dir ≡ attachments_path root t.id))
    → ((dir.log.current ≡ none) × (u.log_size ≡ t.log_size))
      ⊎ ((text : Text) × (dir.log.current ≡ some text) × (u.log_size ≡ length text))
    → Restored root dir t (settle_flag flag u)
unfolding settle_flag
settled root dir t u none same e a n = record {
  attachments = a;
  log_size = n;
  outcome = inl (inl e, same);
}
settled root dir t u (some flag) same e a n = elim (Bool-cases (is_solved u.status)) [
  | inl s ↦
      let before = ap (λ x. is_solved x.status) (sym same) ∙ s in
      rw (s, settle_flag)
        (record { attachments = a; log_size = n; outcome = inl (inr before, same) })
  | inr s ↦
      let before = ap (λ x. is_solved x.status) (sym same) ∙ s in
      rw (s, settle_flag)
        (record {
          attachments = a;
          log_size = n;
          outcome = inr (
            ap is_some e,
            before,
            ap {A = Task} (λ x. record x { status = solved; error = none; container_kept = false })
                same,
          );
        })
]

pub complete-Restored :
    (root : Text) (dir : Dir) (t : Task) → Restored root dir t (complete root dir t)
unfolding complete
complete-Restored root dir t =
    settled root dir t _ t.flag refl refl (attachments_kept root t)
      (size_kept dir.log.current t.log_size)
