-- ===== src/Sysparse/Containers.antt =====
-- internal/telemd/sysparse.go: processes, the containers they run in, and their network counters.
use telemd.Base.{
  ℕ, zero, suc, Bool, true, ◌&&◌, ◌||◌, not, Option, none, some, List, [], ◌∷◌, ◌++◌, Text, codes,
  if◌then◌else◌, ◌>>=◌, get_elem?, length, drop, take, ◌==◌, leb,
}
use telemd.Base.Int.{ℤ}
use telemd.Base.Dict.{Dict}
use telemd.Base.Dict
use telemd.Go.Strconv.{Err, message, WithErr}
use telemd.Go.Strings.{split, fields, has_prefix, contains, trim_prefix, trim_suffix}
use telemd.Host.{Host, Moment, next, Scan, not_opened, scanned}
use telemd.Fileio.{parse_int64}
use telemd.Cfg.Devices.{list_filter_dir}

-- `regexp.MatchString` of `^\d*`: no digit is needed, so every text matches.
abbrev pub is_digit : ℕ → Bool
is_digit c = leb b'0' c && leb c b'9'

unfoldable pub match_digits : Text → Bool
match_digits [] = true
match_digits (c ∷ s) = if is_digit c then match_digits s else true

unfoldable pub all_pids : Host → Moment → Text → WithErr (List Text)
unfolding list_filter_dir match_digits
all_pids H m proc_folder =
    list_filter_dir H m proc_folder (λ info. info.is_dir && match_digits info.name)

abbrev pub is_alnum : ℕ → Bool
is_alnum c = is_digit c || (leb b'A' c && leb c b'Z') || (leb b'a' c && leb c b'z')

-- How many bytes of the text's beginning, up to a number of them, are letters or digits.
alnum_run : ℕ → Text → ℕ
alnum_run zero s = 0
alnum_run (suc n) [] = 0
alnum_run (suc n) (c ∷ s) = let rest = alnum_run n s in if is_alnum c then suc rest else 0

-- `regexp.FindString` of `[0-9a-zA-Z]{32}`, which is empty where nothing matches.
unfoldable pub find_container_id : Text → Text
unfolding alnum_run
find_container_id [] = []
find_container_id (c ∷ s) =
    let later = find_container_id s in if alnum_run 32 (c ∷ s) == 32 then take 32 (c ∷ s) else later

-- What a line of /proc/<pid>/cgroup says: nothing, a container, or a panic.
pub data Line : Type 0 where
  nothing panics : Line
  container : Text → Line

abbrev pub part_or_panic : Option Text → Line
part_or_panic none = panics
part_or_panic (some id) = container id

pub cgroup_line : Text → Line
cgroup_line line =
    if contains line (codes "docker")
    then elim (get_elem? (split line b'/') 2) [
      | none ↦ panics
      | some part ↦
          if has_prefix part (codes "docker-")
          then container (trim_suffix (trim_prefix part (codes "docker-")) (codes ".scope"))
          else container part
    ]
    else if contains line (codes "kubepods") && not (contains line (codes "cri-containerd"))
    then part_or_panic (get_elem? (split line b'/') 4)
    else if leb 1 (length (find_container_id line))
    then container (find_container_id line)
    else nothing

-- The loop over the lines.
pub cgroup_lines : Text → List Text → Option (WithErr Text)
unfolding cgroup_line
cgroup_lines pid [] = some ([], some (message (codes "Did not find container for PID " ++ pid)))
cgroup_lines pid (line ∷ lines) = elim (cgroup_line line) [
  | nothing ↦ cgroup_lines pid lines
  | panics ↦ none
  | container id ↦ some (id, none)
]

cgroup_scan : Text → Scan → Option (WithErr Text)
cgroup_scan pid (not_opened err) = some ([], some err)
cgroup_scan pid (scanned lines err) = cgroup_lines pid lines

unfoldable pub get_container_id : Host → Moment → Text → Text → Option (WithErr Text)
unfolding cgroup_scan cgroup_lines
get_container_id H m pid proc_mount =
    cgroup_scan pid (H.read_file m (proc_mount ++ (b'/' ∷ (pid ++ codes "/cgroup"))))

-- `if _, ok := pidMap[containerId]; !ok { pidMap[containerId] = pid }`
unfoldable pub add_pid : Text → Text → Dict Text → Dict Text
add_pid id pid pids = elim (Dict.lookup id pids) [ none ↦ Dict.insert id pid pids | some _ ↦ pids ]

-- The loop over the processes.
unfoldable pub collect_pids : Host → Moment → Text → List Text → Dict Text → Option (Dict Text)
unfolding add_pid
collect_pids H m proc_mount [] pids = some pids
collect_pids H m proc_mount (pid ∷ rest) pids = elim (get_container_id H m pid proc_mount) [
  | none ↦ none
  | some (id, none) ↦ collect_pids H (next m) proc_mount rest (add_pid id pid pids)
  | some (_, some err) ↦ collect_pids H (next m) proc_mount rest pids
]

unfoldable pub container_process_ids : Host → Moment → Text → Option (WithErr (Dict Text))
unfolding collect_pids
container_process_ids H m proc_mount = elim (all_pids H m proc_mount).1 [
  | some err ↦ some ([], some err)
  | none ↦ do
    pids ← collect_pids H (next m) proc_mount (all_pids H m proc_mount).0 []
    some (pids, none)
]

-- One line of /proc/<pid>/net/dev behind the two headers: a device, received and sent.
pub data NetLine : Type 0 where
  net_panics : NetLine
  net_fails : Err → NetLine
  counters : Text → ℤ → ℤ → NetLine

pub net_line : Text → NetLine
net_line line =
    let words = fields line in
    elim (get_elem? words 0) [
      | none ↦ net_panics
      | some device ↦ elim (get_elem? words 1) [
        | none ↦ net_panics
        | some rx ↦ elim (parse_int64 rx).1 [
          | some err ↦ net_fails err
          | none ↦ elim (get_elem? words 9) [
            | none ↦ net_panics
            | some tx ↦ elim (parse_int64 tx).1 [
              | some err ↦ net_fails err
              | none ↦
                  counters (trim_suffix device (codes ":")) (parse_int64 rx).0 (parse_int64 tx).0
            ]
          ]
        ]
      ]
    ]

-- The two maps; they are nil where there is an error.
abbrev pub NetStats : Type 0
NetStats = Dict ℤ × Dict ℤ

pub net_lines : List Text → Option Err → Dict ℤ → Dict ℤ → Option (WithErr NetStats)
unfolding net_line
net_lines [] err rx tx = some ((rx, tx), err)
net_lines (line ∷ lines) err rx tx = elim (net_line line) [
  | net_panics ↦ none
  | net_fails e ↦ some (([], []), some e)
  | counters device irx itx ↦
      net_lines lines err (Dict.insert device irx rx) (Dict.insert device itx tx)
]

net_scan : Scan → Option (WithErr NetStats)
net_scan (not_opened err) = some (([], []), some err)
net_scan (scanned lines err) = net_lines (drop 2 lines) err [] []

unfoldable pub read_total_process_network_stats :
    Host → Moment → Text → Text → Option (WithErr NetStats)
unfolding net_scan net_lines
read_total_process_network_stats H m pid proc_mount =
    net_scan (H.read_file m (proc_mount ++ (b'/' ∷ (pid ++ codes "/net/dev"))))
