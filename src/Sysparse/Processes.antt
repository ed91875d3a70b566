-- ===== src/Sysparse/Processes.antt =====
-- Which process stands for a container.
use telemd.Base.{
  true, ◌&&◌, Option, none, some, List, [], ◌∷◌, Text, ◌>>=◌, ◌≡◌, refl, sym, ap, ◌∙◌, equal-eq,
  Bool-cases, Option-cases, inl, inr, arith, equal, if◌then◌else◌, >>=-eq-some, some-inj,
}
use telemd.Base.Dict.{Dict}
use telemd.Base.Dict
use mathlib.Core.Option.{or_else}
use telemd.Go.Strconv.{WithErr}
use telemd.Host.{Host, Moment, next, FileInfo}
use telemd.Cfg.Devices.{list_filter_dir, filter_names}
use telemd.Sysparse.Containers.{
  match_digits, all_pids, get_container_id, add_pid, collect_pids, container_process_ids,
}

pub directories : List FileInfo → List Text
directories [] = []
directories (f ∷ fs) = let rest = directories fs in if f.is_dir then f.name ∷ rest else rest

match_digits_lem : (s : Text) → match_digits s ≡ true
unfolding match_digits
match_digits_lem [] = refl
match_digits_lem (c ∷ s) = ground (arith, match_digits_lem s)

filter_names-directories :
    (fs : List FileInfo)
    → filter_names (λ info. info.is_dir && match_digits info.name) fs ≡ directories fs
unfolding filter_names directories
filter_names-directories [] = refl
filter_names-directories (f ∷ fs) =
    ground (arith, filter_names-directories fs, match_digits_lem f.name)

-- The containers that the directories under /proc are found in, with the directories.
abbrev pub keep_found : Text → Option (WithErr Text) → Dict Text → Dict Text
keep_found pid (some (id, none)) rest = (id, pid) ∷ rest
keep_found pid _ rest = rest

pub found_in : Host → Moment → Text → List Text → Dict Text
found_in H m proc_mount [] = []
found_in H m proc_mount (pid ∷ pids) =
    keep_found pid (get_container_id H m pid proc_mount) (found_in H (next m) proc_mount pids)

lookup-equal :
    (id other : Text) (d : Dict Text)
    → equal id other ≡ true
    → Dict.lookup other d ≡ Dict.lookup id d
lookup-equal id other d h = ap (λ k. Dict.lookup k d) (sym (equal-eq id other h))

lookup-add_pid :
    (id other pid : Text) (d : Dict Text) (later : Option Text)
    → or_else (Dict.lookup other (add_pid id pid d)) later
      ≡ or_else (Dict.lookup other d) (if equal id other then some pid else later)
unfolding add_pid or_else
lookup-add_pid id other pid d later = elim (Bool-cases (equal id other)) [
  | inl h ↦ ground (arith, lookup-equal id other d h, Dict.lookup-insert id other pid d)
  | inr h ↦ ground (arith, Dict.lookup-insert id other pid d)
]

or_else-none : (o : Option Text) → o ≡ or_else o none
unfolding or_else
or_else-none none = refl
or_else-none (some v) = refl

-- One turn of the loop.
after_id :
    Host → Moment → Text → Text → List Text → Dict Text → Option (WithErr Text) → Option (Dict Text)
after_id H m proc_mount pid pids d none = none
after_id H m proc_mount pid pids d (some (id, none)) =
    collect_pids H (next m) proc_mount pids (add_pid id pid d)
after_id H m proc_mount pid pids d (some (_, some err)) = collect_pids H (next m) proc_mount pids d

turn_of :
    (H : Host) (m : Moment) (proc_mount pid : Text) (pids : List Text) (d : Dict Text)
    → collect_pids H m proc_mount (pid ∷ pids) d
      ≡ after_id H m proc_mount pid pids d (get_container_id H m pid proc_mount)
unfolding collect_pids after_id
turn_of H m proc_mount pid pids d = ground arith

collect_pids-found_in :
    (H : Host) (m : Moment) (proc_mount : Text) (pids : List Text) (d d' : Dict Text) (id : Text)
    → collect_pids H m proc_mount pids d ≡ some d'
    → Dict.lookup id d' ≡ or_else (Dict.lookup id d) (Dict.lookup id (found_in H m proc_mount pids))
unfolding collect_pids found_in or_else Dict.lookup after_id
collect_pids-found_in H m proc_mount [] d d' id h =
    ap (Dict.lookup id) (some-inj (sym h)) ∙ or_else-none (Dict.lookup id d)
collect_pids-found_in H m proc_mount (pid ∷ pids) d d' id h =
    elim (Option-cases (get_container_id H m pid proc_mount)) [
      | inl e ↦ grind (arith, e, h, turn_of H m proc_mount pid pids d)
      | inr ((id', none), e) ↦
          let later = Dict.lookup id (found_in H (next m) proc_mount pids) in
          rw e (
            collect_pids-found_in H (next m) proc_mount pids (add_pid id' pid d) d' id (
              sym (ap (after_id H m proc_mount pid pids d) e)
              ∙ (sym (turn_of H m proc_mount pid pids d) ∙ h))
            ∙ lookup-add_pid id' id pid d later)
      | inr ((id', some err), e) ↦ rw e (
          collect_pids-found_in H (next m) proc_mount pids d d' id (
            sym (ap (after_id H m proc_mount pid pids d) e)
            ∙ (sym (turn_of H m proc_mount pid pids d) ∙ h)))
    ]

-- The listing of the directory under its error.
listed_ids : Host → Moment → Text → WithErr (List Text) → Option (WithErr (Dict Text))
listed_ids H m proc_mount (ids, some err) = some ([], some err)
listed_ids H m proc_mount (ids, none) = do
  pids ← collect_pids H (next m) proc_mount ids []
  some (pids, none)

container_process_ids-listed_ids :
    (H : Host) (m : Moment) (proc_mount : Text)
    → container_process_ids H m proc_mount ≡ listed_ids H m proc_mount (all_pids H m proc_mount)
unfolding container_process_ids listed_ids
container_process_ids-listed_ids H m proc_mount = ground arith

listed_ids-found_in :
    (H : Host) (m : Moment) (proc_mount : Text) (listed : WithErr (List Text)) (pids : Dict Text)
    (id : Text)
    → listed_ids H m proc_mount listed ≡ some (pids, none)
    → Dict.lookup id pids ≡ Dict.lookup id (found_in H (next m) proc_mount listed.0)
unfolding listed_ids or_else Dict.lookup
listed_ids-found_in H m proc_mount (ids, some err) pids id h = cc
listed_ids-found_in H m proc_mount (ids, none) pids id h =
    let (d, e, e') =
      >>=-eq-some (collect_pids H (next m) proc_mount ids []) (λ d. some (d, none)) h in
    collect_pids-found_in H (next m) proc_mount ids [] pids id
      (e ∙ ap (λ p. some p.0) (some-inj e'))

all_pids-directories :
    (H : Host) (m : Moment) (proc_mount : Text) (fs : List FileInfo)
    → H.read_dir m proc_mount ≡ (fs, none)
    → all_pids H m proc_mount ≡ (directories fs, none)
unfolding all_pids list_filter_dir
all_pids-directories H m proc_mount fs h = ground (arith, h, filter_names-directories fs)

-- If /proc can be listed and no line in it makes the search panic, each container gets the first
-- of the directories under /proc that is found in it, and no other container gets a process. All
-- directories are searched, also those whose names are not numbers.
pub container_process_ids-found_in :
    (H : Host) (m : Moment) (proc_mount : Text) (fs : List FileInfo) (pids : Dict Text) (id : Text)
    → H.read_dir m proc_mount ≡ (fs, none)
    → container_process_ids H m proc_mount ≡ some (pids, none)
    → Dict.lookup id pids ≡ Dict.lookup id (found_in H (next m) proc_mount (directories fs))
container_process_ids-found_in H m proc_mount fs pids id h h' =
    listed_ids-found_in H m proc_mount (directories fs, none) pids id
      (ap (listed_ids H m proc_mount) (sym (all_pids-directories H m proc_mount fs h))
        ∙ (sym (container_process_ids-listed_ids H m proc_mount) ∙ h'))
