-- ===== src/Config/Listen.antt =====
-- ValidateServerSecurity and isLoopbackListenAddr (internal/app/config.go).
use ctf_agent.Base.{Bool, false, not, ◌||◌, Option, none, some}
use ctf_agent.Config.{Config}
use ctf_agent.Text.{Text, utf8, is_blank, trim_space}
use ctf_agent.Text.Address.{split_host, is_loopback_ip}
use ctf_agent.Text.Cut.{equal_fold}

unfoldable pub is_loopback_host : Option Text → Bool
unfolding utf8
is_loopback_host none = false
is_loopback_host (some host) = equal_fold host (utf8 "localhost") || is_loopback_ip host

-- isLoopbackListenAddr
unfoldable pub is_loopback_listen_addr : Text → Bool
is_loopback_listen_addr addr = is_loopback_host (split_host (trim_space addr))

-- ValidateServerSecurity: true if it returns no error.
unfoldable pub validate_server_security : Config → Bool
validate_server_security cfg = not (is_blank cfg.access_token) || is_loopback_listen_addr cfg.addr
