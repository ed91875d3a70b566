-- ===== src/Sysparse/Listings.antt =====
-- internal/telemd/sysparse.go: two other listings of the containers' processes, by a command for
-- each process and by the command line of docker, which the program does not call at present.
use telemd.Base.{
  ◌≡◌, refl, ◌∙◌, Option, none, some, List, [], ◌∷◌, ◌++◌, Text, codes, ◌>>=◌, get_elem?, arith,
  All, map,
}
use telemd.Base.Dict.{Dict}
use telemd.Base.Dict
use telemd.Go.Strconv.{WithErr}
use telemd.Go.Strings.{split, join}
use telemd.Go.Split.{Lacks, split-append, split_lacking, split-join, Lacks-append}
use telemd.Host.{Host, Moment, next}
use telemd.Cfg.Devices.{exec_command}
use telemd.Sysparse.{first_part}
use telemd.Sysparse.Containers.{all_pids}

abbrev pub nsenter_command : Text → Text
nsenter_command pid = codes "nsenter -t " ++ (pid ++ codes " -u hostname")

-- `if err == nil { pidMap[command] = pid }`
pub keep_named : WithErr Text → Text → Dict Text → Dict Text
keep_named (name, none) pid pids = Dict.insert name pid pids
keep_named (name, some err) pid pids = pids

-- The loop over the processes.
pub enter_all : Host → Moment → List Text → Dict Text → Dict Text
unfolding keep_named
enter_all H m [] pids = pids
enter_all H m (pid ∷ rest) pids =
    enter_all H (next m) rest (keep_named (exec_command H m (nsenter_command pid)) pid pids)

pub container_process_ids_using_nsenter : Host → Moment → Text → WithErr (Dict Text)
unfolding enter_all
container_process_ids_using_nsenter H m proc_folder = elim (all_pids H m proc_folder).1 [
  | some err ↦ ([], some err)
  | none ↦ (enter_all H (next m) (all_pids H m proc_folder).0 [], none)
]

abbrev pub docker_command : Text
docker_command = codes "docker ps -q | xargs docker inspect --format '{{ .Id }} {{ .State.Pid }}'"

-- The loop over the lines; `none` is the panic of a line without a blank.
pub docker_lines : List Text → Dict Text → Option (Dict Text)
docker_lines [] pids = some pids
docker_lines (line ∷ lines) pids = do
  pid ← get_elem? (split line b' ') 1
  docker_lines lines (Dict.insert (first_part (split line b' ')) pid pids)

pub container_process_ids_using_docker_cli : Host → Moment → Option (WithErr (Dict Text))
unfolding docker_lines
container_process_ids_using_docker_cli H m = elim (exec_command H m docker_command).1 [
  | some err ↦ some ([], some err)
  | none ↦ do
    pids ← docker_lines (split (exec_command H m docker_command).0 b'\n') []
    some (pids, none)
]

-- An id with its process, as docker prints it.
abbrev pub docker_line : Text × Text → Text
docker_line (id, pid) = id ++ (b' ' ∷ pid)

abbrev pub IsEntry : Text × Text → Type 0
IsEntry (id, pid) = Lacks b' ' id × Lacks b' ' pid × Lacks b'\n' id × Lacks b'\n' pid

abbrev pub insert_all : List (Text × Text) → Dict Text → Dict Text
insert_all [] pids = pids
insert_all ((id, pid) ∷ es) pids = insert_all es (Dict.insert id pid pids)

docker_lines-insert_all :
    (es : List (Text × Text)) (pids : Dict Text)
    → All IsEntry es
    → docker_lines (map docker_line es) pids ≡ some (insert_all es pids)
unfolding docker_lines
docker_lines-insert_all [] pids h = refl
docker_lines-insert_all ((id, pid) ∷ es) pids ((a, b, _, _), hs) =
    rw (split-append b' ' id pid a, split_lacking b' ' pid b)
      (docker_lines-insert_all es (Dict.insert id pid pids) hs)

docker_lines-Lacks :
    (es : List (Text × Text)) → All IsEntry es → All (Lacks b'\n') (map docker_line es)
docker_lines-Lacks [] h = tt
docker_lines-Lacks ((id, pid) ∷ es) ((_, _, c, d), hs) =
    (Lacks-append b'\n' id (b' ' ∷ pid) c (omega arith, d), docker_lines-Lacks es hs)

after_docker : WithErr Text → Option (WithErr (Dict Text))
after_docker (text, some err) = some ([], some err)
after_docker (text, none) = do pids ← docker_lines (split text b'\n') []; some (pids, none)

using_docker_cli-after_docker :
    (H : Host) (m : Moment)
    → container_process_ids_using_docker_cli H m ≡ after_docker (exec_command H m docker_command)
unfolding container_process_ids_using_docker_cli after_docker
using_docker_cli-after_docker H m = ground arith

-- What the listing should be: the entries, a later one of the same id before an earlier one. Where
-- there are none it is a panic.
abbrev pub docker_listing : List (Text × Text) → Option (WithErr (Dict Text))
docker_listing [] = none
docker_listing (e ∷ es) = some (insert_all (e ∷ es) [], none)

after_docker_entries :
    (x : Text × Text) (es : List (Text × Text))
    → All IsEntry (x ∷ es)
    → after_docker (join (map docker_line (x ∷ es)) (codes "\n"), none) ≡ docker_listing (x ∷ es)
unfolding after_docker
after_docker_entries x es h =
    rw
      (
        split-join b'\n' (docker_line x) (map docker_line es) (docker_lines-Lacks (x ∷ es) h),
        docker_lines-insert_all (x ∷ es) [] h,
      )
      refl

-- The output of docker for a list of containers, one line each with the id, a blank and the
-- process, is read back as that list; but where no container runs the output is empty, and the
-- listing panics.
pub container_process_ids_using_docker_cli_lem :
    (H : Host) (m : Moment) (es : List (Text × Text))
    → All IsEntry es
    → exec_command H m docker_command ≡ (join (map docker_line es) (codes "\n"), none)
    → container_process_ids_using_docker_cli H m ≡ docker_listing es
unfolding after_docker join docker_lines split
container_process_ids_using_docker_cli_lem H m [] h e =
    using_docker_cli-after_docker H m ∙ rw e refl
container_process_ids_using_docker_cli_lem H m (x ∷ es) h e =
    using_docker_cli-after_docker H m ∙ rw e (after_docker_entries x es h)
