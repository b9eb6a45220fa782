-- ===== src/Docker/Listing.antt =====
-- ListDockerContainers and DockerContainerCreatedAt (internal/app/docker.go). What docker ps and
-- docker inspect answer is an argument, and so is the parsing of a date, which is time.Parse.
use ctf_agent.Base.{
  ℕ, zero, suc, not, Option, none, some, List, [], ◌∷◌, ◌++◌, if◌then◌else◌, reverse, ◌==◌,
}
use ctf_agent.Docker.{DockerContainer, Answer, command_error}
use ctf_agent.Errors.{unmanaged_container, system, Result, ok, err}
use ctf_agent.Map.{Map, insert}
use ctf_agent.Names.{is_managed_container_name}
use ctf_agent.Text.{Text, utf8, is_blank, is_empty, lower, trim_space, split, has_prefix}

-- strings.SplitN with a separator of one byte: at most `n + 1` parts.
unfoldable pub split_n_go : ℕ → ℕ → Text → Text → List Text
split_n_go sep n part [] = reverse part ∷ []
split_n_go sep zero part (c ∷ s) = (reverse part ++ c ∷ s) ∷ []
split_n_go sep (suc n) part (c ∷ s) =
    let cut = split_n_go sep n [] s in
    let on = split_n_go sep (suc n) (c ∷ part) s in if c == sep then reverse part ∷ cut else on

abbrev pub tab : ℕ
tab = 9

-- The part of a line with an index; a line that has too few parts is filled up with empty ones.
abbrev pub part : ℕ → List Text → Text
part n [] = []
part zero (p ∷ ps) = p
part (suc n) (p ∷ ps) = part n ps

unfoldable pub container_of_parts : List Text → DockerContainer
unfolding trim_space lower has_prefix utf8
container_of_parts parts =
    let status = trim_space (part 2 parts) in
    record {
      name = trim_space (part 0 parts);
      image = trim_space (part 1 parts);
      status = status;
      ports = trim_space (part 3 parts);
      size = trim_space (part 4 parts);
      is_up = has_prefix (utf8 "up ") (lower status);
    }

unfoldable pub put_container : DockerContainer → Map DockerContainer → Map DockerContainer
put_container c m = if is_empty c.name then m else insert c.name c m

unfoldable pub read_lines : List Text → Map DockerContainer → Map DockerContainer
unfolding put_container container_of_parts split_n_go
read_lines [] m = m
read_lines (line ∷ lines) m =
    read_lines lines
      (if is_blank line then m else put_container (container_of_parts (split_n_go tab 4 [] line)) m)

abbrev listed : Answer → Option Text → Result (Map DockerContainer)
listed answer (some text) = err (command_error answer text)
listed answer none = ok (read_lines (split b'\n' (trim_space answer.output)) [])

-- ListDockerContainers
unfoldable pub list_docker_containers : Answer → Result (Map DockerContainer)
unfolding read_lines
list_docker_containers answer = listed answer answer.failure

abbrev created : (Text → Result ℕ) → Answer → Option Text → Result ℕ
created parse answer (some text) = err (system (trim_space answer.output))
created parse answer none = parse (trim_space answer.output)

-- DockerContainerCreatedAt
unfoldable pub docker_container_created_at : (Text → Result ℕ) → Answer → Text → Result ℕ
docker_container_created_at parse answer name =
    if not (is_managed_container_name name)
    then err unmanaged_container
    else created parse answer answer.failure
