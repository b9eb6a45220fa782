-- ===== src/Storage/Saved.antt =====
-- What saveUploadedFiles leaves in the directory (internal/app/storage.go).
use ctf_agent.Base.{ℕ, ◌+◌, ◌≡◌, ◌≤◌, none, some, length}
use ctf_agent.Map.{Map, lookup}
use ctf_agent.Storage.{Saves}
use ctf_agent.Text.{Text}

-- Each file of the first directory is in the second with the same content.
abbrev pub KeepsFiles : Map Text → Map Text → Type 0
KeepsFiles files files' =
    (name content : Text) → lookup name files ≡ some content → lookup name files' ≡ some content

-- Saving keeps the files; where it reports no error, each file that it counts is a new one.
abbrev pub SavesOk : Map Text → ℕ → Saves → Type 0
SavesOk files count (files', count', e) =
    KeepsFiles files files'
    × (count ≤ count')
    × (e ≡ none → length files' + count ≡ length files + count')
