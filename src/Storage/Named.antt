-- ===== src/Storage/Named.antt =====
-- The names that safeFilename gives to uploaded files (internal/app/storage.go).
use ctf_agent.Text.{Text}
