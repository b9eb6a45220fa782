-- ===== src/Docker/Limits.antt =====
-- The memory and CPU limits of a container, and the detection of an out-of-memory kill
-- (internal/app/docker.go). Memory sizes are int64 and docker's values are positive, far below
-- 2^63, so nothing wraps.
use ctf_agent.Base.{
  ℕ, ◌+◌, ◌-◌, ◌*◌, ◌/◌, ◌≤◌, ◌≡◌, Bool, not, ◌&&◌, ◌++◌, arith, ltb, if◌then◌else◌,
}
use ctf_agent.Text.{Text, utf8, itoa}

pub record ResourceLimits : Type 0 where
  pub memory : Text
  pub cpus : Text

abbrev pub mib : ℕ
mib = 1048576

abbrev pub gib : ℕ
gib = 1073741824

-- The reserve and the two numbers of autoDockerResourceLimits, for memory of at least the reserve.
unfoldable pub reserve : ℕ → ℕ
reserve memory_bytes = if ltb (memory_bytes / 10) gib then gib else memory_bytes / 10

-- Where the memory is below the reserve the difference is negative in Go, and so below 512 as well.
unfoldable pub usable_mib : ℕ → ℕ
unfolding reserve
usable_mib memory_bytes =
    let usable = (memory_bytes - reserve memory_bytes) / mib in
    (if ltb usable 512 then 512 else usable) / 64 * 64

-- ncpu - 1 is 0 or negative for at most one CPU.
unfoldable pub usable_cpus : ℕ → ℕ
usable_cpus ncpu = if ltb (ncpu - 1) 1 then 1 else ncpu - 1

unfoldable pub auto_docker_resource_limits : ℕ → ℕ → ResourceLimits
unfolding usable_mib usable_cpus itoa utf8
auto_docker_resource_limits ncpu memory_bytes = record {
  memory = itoa (usable_mib memory_bytes) ++ utf8 "m";
  cpus = itoa (usable_cpus ncpu);
}

pub record OomSnapshot : Type 0 where
  pub kill_count : ℕ
  pub has_count : Bool
  pub killed : Bool
  pub has_state : Bool

unfoldable pub docker_oom_occurred : OomSnapshot → OomSnapshot → Bool
docker_oom_occurred before after =
    if before.has_count && after.has_count
    then ltb before.kill_count after.kill_count
    else before.has_state && after.has_state && not before.killed && after.killed

-- The automatic limits of every host: the memory is a multiple of 64 MiB of at least 512 MiB, and
-- there is at least one CPU.
pub auto_limits_at_least :
    (ncpu memory_bytes : ℕ)
    → (512 ≤ usable_mib memory_bytes)
      × (usable_mib memory_bytes ≡ usable_mib memory_bytes / 64 * 64)
      × (1 ≤ usable_cpus ncpu)
unfolding usable_mib usable_cpus reserve
auto_limits_at_least ncpu memory_bytes = ground arith

-- On a host of at least 2 GiB and two CPUs the automatic limits leave to the host a tenth of the
-- memory, at least 1 GiB of it, and one CPU.
pub auto_limits_leave_host :
    (ncpu memory_bytes : ℕ)
    → 2 * gib ≤ memory_bytes
    → 2 ≤ ncpu
    → (usable_mib memory_bytes * mib + gib ≤ memory_bytes)
      × (usable_mib memory_bytes * mib + memory_bytes / 10 ≤ memory_bytes)
      × (usable_cpus ncpu + 1 ≡ ncpu)
unfolding usable_mib usable_cpus reserve
auto_limits_leave_host ncpu memory_bytes m c = ground arith
