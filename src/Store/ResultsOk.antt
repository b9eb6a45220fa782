-- ===== src/Store/ResultsOk.antt =====
-- The methods about writeups, results and logs, and the invariant of the store
-- (internal/app/store.go).
use ctf_agent.Base.{
  ◌≡◌, refl, inl, inr, ◌&&◌, not, Option, none, some, [], ◌∷◌, arith, Bool-cases, Option-cases,
}
use ctf_agent.Disk.{Dir, Doc, dir_at}
use ctf_agent.Disk.Atomic.{Fault, sync_dir}
use ctf_agent.Disk.Files.{
  FileSlot, meta_file, backup_file, log_file, archive_file, plain_file, slot_of, put_file,
  remove_file, file_exists,
}
use ctf_agent.Errors.{Err}
use ctf_agent.Map.{Map, lookup, Entries, lookup-Entries, insert-Entries}
use ctf_agent.Names.{is_safe_task_id, is_safe_stored_filename}
use ctf_agent.Store.{Store, Env}
use ctf_agent.Store.Changes.{clear_results, has_results}
use ctf_agent.Store.Invariant.{DocOk, DirOk, StoreOk, dir_at-DirOk, write_in_place-StoreOk}
use ctf_agent.Store.Logs.{LogIo, append_files, append_found, append_log}
use ctf_agent.Store.Results.{
  set_dir, drop_file, after_fault, revoke_found, mark_false_live_capture, WriteupIo, write_named,
  save_name, save_found, save_writeup, ClearIo, Tally, ClearResult, clear_write, clear_one,
  clear_loop, clear_result_data,
}
use ctf_agent.Store.WellFormed.{WellFormed, revoke_capture-Keeps, clear_results-Keeps}
use ctf_agent.Task.{Task}
use ctf_agent.Text.{Text, is_empty}

set_dir-StoreOk :
    (id : Text) (dir : Dir) (s : Store) → DirOk id dir → StoreOk s → StoreOk (set_dir id dir s)
unfolding set_dir
set_dir-StoreOk id dir s d h = record {
  tasks = h.tasks;
  disk = insert-Entries DirOk id dir s.disk h.disk d;
}

remove_file-DirOk :
    (id : Text) (slot : FileSlot) (dir : Dir) → DirOk id dir → DirOk id (remove_file slot dir)
unfolding remove_file
remove_file-DirOk id meta_file dir d = record { meta = tt; backup = d.backup }
remove_file-DirOk id backup_file dir d = record { meta = d.meta; backup = tt }
remove_file-DirOk id log_file dir d = record { meta = d.meta; backup = d.backup }
remove_file-DirOk id (archive_file n) dir d = record { meta = d.meta; backup = d.backup }
remove_file-DirOk id (plain_file name) dir d = record { meta = d.meta; backup = d.backup }

put_file-DirOk :
    (id : Text) (slot : FileSlot) (content : Text) (doc : Doc) (dir : Dir)
    → DocOk id doc
    → DirOk id dir
    → DirOk id (put_file slot content doc dir)
unfolding put_file
put_file-DirOk id meta_file content doc dir k d = record { meta = k; backup = d.backup }
put_file-DirOk id backup_file content doc dir k d = record { meta = d.meta; backup = k }
put_file-DirOk id log_file content doc dir k d = record { meta = d.meta; backup = d.backup }
put_file-DirOk id (archive_file n) content doc dir k d = record { meta = d.meta; backup = d.backup }
put_file-DirOk id (plain_file name) content doc dir k d = record {
  meta = d.meta;
  backup = d.backup;
}

drop_file-StoreOk : (id name : Text) (s : Store) → StoreOk s → StoreOk (drop_file id name s)
unfolding drop_file
drop_file-StoreOk id name s h =
    set_dir-StoreOk id _ s (remove_file-DirOk id _ _ (dir_at-DirOk id s.disk h.disk)) h

revoke_found-StoreOk :
    (env : Env) (id message : Text) (s : Store) (found : Option Task)
    → lookup id s.tasks ≡ found
    → StoreOk s
    → StoreOk (revoke_found env id message found s).0
unfolding revoke_found
revoke_found-StoreOk env id message s none e h = h
revoke_found-StoreOk env id message s (some t) e h =
    let w =
      (revoke_capture-Keeps env.now message).at t
        (lookup-Entries WellFormed id s.tasks h.tasks e) in
    elim (Bool-cases
      (not (is_empty t.writeup_file_name) && is_safe_stored_filename t.writeup_file_name)) [
        | inl named ↦
            rw (named, revoke_found)
              (write_in_place-StoreOk env.io id _ _ w
                (drop_file-StoreOk id t.writeup_file_name s h))
        | inr unnamed ↦ rw (unnamed, revoke_found) (write_in_place-StoreOk env.io id _ _ w h)
      ]

pub revoke-StoreOk :
    (env : Env) (id message : Text) (s : Store)
    → StoreOk s
    → StoreOk (mark_false_live_capture env id message s).0
unfolding mark_false_live_capture
revoke-StoreOk env id message s h = elim (Bool-cases (is_safe_task_id id)) [
  | inr unsafe ↦ rw (unsafe, mark_false_live_capture) h
  | inl safe ↦
      rw (safe, mark_false_live_capture)
        (revoke_found-StoreOk env id message s (lookup id s.tasks) refl h)
]

after_fault-StoreOk :
    (fault : Fault) (written s : Store)
    → StoreOk written
    → StoreOk s
    → StoreOk (after_fault fault written s).0
unfolding after_fault
after_fault-StoreOk none written s w h = w
after_fault-StoreOk (some (sync_dir, text, removes)) written s w h = w
after_fault-StoreOk (some (step, text, removes)) written s w h = h

write_named-StoreOk :
    (io : WriteupIo) (id filename content : Text) (s : Store)
    → DocOk id io.as_doc
    → StoreOk s
    → StoreOk (write_named io id filename content s).0
unfolding write_named
write_named-StoreOk io id filename content s k h =
    after_fault-StoreOk io.fault _ s
      (set_dir-StoreOk id _ s
        (put_file-DirOk id _ content io.as_doc _ k (dir_at-DirOk id s.disk h.disk)) h)
      h

save_name-StoreOk :
    (env : Env) (id filename : Text) (t : Task) (r : Store × Option Err)
    → WellFormed id t
    → StoreOk r.0
    → StoreOk (save_name env id filename t r).0
save_name-StoreOk env id filename t (s, none) w h =
    write_in_place-StoreOk env.io id (record t { writeup_file_name = filename }) s
      (ground (arith, w)) h
save_name-StoreOk env id filename t (s, some e) w h = h

save_found-StoreOk :
    (env : Env) (io : WriteupIo) (id filename content : Text) (s : Store) (found : Option Task)
    → lookup id s.tasks ≡ found
    → DocOk id io.as_doc
    → StoreOk s
    → StoreOk (save_found env io id filename content found s).0
unfolding save_found
save_found-StoreOk env io id filename content s none e k h = h
save_found-StoreOk env io id filename content s (some t) e k h =
    save_name-StoreOk env id filename t _ (lookup-Entries WellFormed id s.tasks h.tasks e)
      (write_named-StoreOk io id filename content s k h)

pub save_writeup-StoreOk :
    (env : Env) (io : WriteupIo) (id filename content : Text) (s : Store)
    → DocOk id io.as_doc
    → StoreOk s
    → StoreOk (save_writeup env io id filename content s).0
unfolding save_writeup
save_writeup-StoreOk env io id filename content s k h =
    elim (Bool-cases (is_safe_stored_filename filename)) [
      | inr unsafe ↦ rw (unsafe, save_writeup) h
      | inl safe ↦
          rw (safe, save_writeup)
            (save_found-StoreOk env io id filename content s (lookup id s.tasks) refl k h)
    ]

clear_write-StoreOk :
    (io : ClearIo) (id : Text) (t : Task) (s : Store) (n : Tally)
    → WellFormed id t
    → StoreOk s
    → StoreOk (clear_write io id t s n).0
unfolding clear_write
clear_write-StoreOk io id t s n w h = elim (Bool-cases (has_results t)) [
  | inl some_results ↦
      rw (some_results, clear_write)
        (write_in_place-StoreOk io.write id (clear_results t) s (clear_results-Keeps.at t w) h)
  | inr no_results ↦ rw (no_results, clear_write) h
]

-- Where the writeup could be removed, or there is none.
clear_one-StoreOk :
    (io : ClearIo) (id : Text) (t : Task) (s : Store) (n : Tally)
    → io.remove ≡ none
    → WellFormed id t
    → StoreOk s
    → StoreOk (clear_one io id t s n).0
unfolding clear_one
clear_one-StoreOk io id t s n r w h =
    elim (Bool-cases
      (not (is_empty t.writeup_file_name) && is_safe_stored_filename t.writeup_file_name)) [
        | inr unnamed ↦ rw (unnamed, clear_one) (clear_write-StoreOk io id t s n w h)
        | inl named ↦
            elim (Bool-cases
              (file_exists (slot_of s.log_max_backups t.writeup_file_name) (dir_at t.id s.disk))) [
                | inl there ↦
                    rw (named, r, there, clear_one)
                      (clear_write-StoreOk io id t _ _ w
                        (drop_file-StoreOk t.id t.writeup_file_name s h))
                | inr gone ↦ rw (named, r, gone, clear_one) (clear_write-StoreOk io id t s n w h)
              ]
      ]

clear_loop-StoreOk :
    (io : Text → ClearIo) (tasks : Map Task) (r : ClearResult)
    → ((id : Text) → (io id).remove ≡ none)
    → Entries WellFormed tasks
    → StoreOk r.0
    → StoreOk (clear_loop io tasks r).0
unfolding clear_loop
clear_loop-StoreOk io [] r c w h = h
clear_loop-StoreOk io ((id, t) ∷ rest) (s, n, some e) c w h = h
clear_loop-StoreOk io ((id, t) ∷ rest) (s, n, none) c w h =
    clear_loop-StoreOk io rest (clear_one (io id) id t s n) c w.1
      (clear_one-StoreOk (io id) id t s n (c id) w.0 h)

pub clear_result_data-StoreOk :
    (io : Text → ClearIo) (s : Store)
    → ((id : Text) → (io id).remove ≡ none)
    → StoreOk s
    → StoreOk (clear_result_data io s).0
unfolding clear_result_data
clear_result_data-StoreOk io s c h = elim (Bool-cases (is_empty s.root)) [
  | inl no_root ↦ rw (no_root, clear_result_data) h
  | inr rooted ↦ rw (rooted, clear_result_data) (clear_loop-StoreOk io s.tasks _ c h.tasks h)
]

append_found-StoreOk :
    (io : LogIo) (id text : Text) (s : Store) (found : Option Task)
    → lookup id s.tasks ≡ found
    → StoreOk s
    → StoreOk (append_found io id text found s).0
unfolding append_found
append_found-StoreOk io id text s none e h = h
append_found-StoreOk io id text s (some t) e h =
    let d = dir_at-DirOk id s.disk h.disk in
    let disk =
      insert-Entries DirOk id _ s.disk h.disk (record { meta = d.meta; backup = d.backup }) in
    let w = lookup-Entries WellFormed id s.tasks h.tasks e in
    elim (Option-cases
      (append_files io s.log_max_bytes s.log_max_backups text (dir_at id s.disk).log).1) [
        | inr (x, f) ↦ rw (f, append_found) (record { tasks = h.tasks; disk = disk })
        | inl f ↦
            rw (f, append_found)
              (record {
                tasks = insert-Entries WellFormed id _ s.tasks h.tasks (ground (arith, w));
                disk = disk;
              })
      ]

pub append_log-StoreOk :
    (io : LogIo) (id text : Text) (s : Store) → StoreOk s → StoreOk (append_log io id text s).0
unfolding append_log
append_log-StoreOk io id text s h = append_found-StoreOk io id text s (lookup id s.tasks) refl h
