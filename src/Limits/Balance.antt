-- ===== src/Limits/Balance.antt =====
-- Which CPUs each container runs on (`deviceTaskBalance`, lxd/devices.go). A container is a number, as
-- its pointer is in the maps of the code. Maps that are ranged over are lists in the order of the
-- iteration. What the control groups, the file of the isolated CPUs and the database say are arguments.
pub mod Even
pub mod Choice
pub mod Within
use lxd_pkg_ubuntu.Text.{int_in_slice}
use lxd_pkg_ubuntu.Prelude.{
  ℕ, zero, suc, ◌+◌, ◌-◌, Bool, true, false, not, ◌&&◌, ◌||◌, if◌then◌else◌, ◌==◌, ltb, leb, List,
  [], ◌∷◌, ◌++◌, map, length, Option, none, some, Result, ok, err, ◌>>=◌,
}
use lxd_pkg_ubuntu.Prelude.Int64.{sub64, lt64}
use lxd_pkg_ubuntu.Text.{parse_codes, trim_space}
use lxd_pkg_ubuntu.Limits.{Error}
use lxd_pkg_ubuntu.Limits.Cpuset.{parse_cpuset, show_int, join}

-- `deviceTaskCPU`; `strId` is the decimal text of `id`.
pub record TaskCpu : Type 0 where
  pub id : ℕ
  pub count : ℕ

abbrev pub bump : TaskCpu → TaskCpu
bump c = record c { count = c.count + 1 }

-- `sort.Sort(sortedUsage)`, by the counts. Go's sort fixes no order among equal counts.
unfoldable pub insert_cpu : TaskCpu → List TaskCpu → List TaskCpu
insert_cpu c [] = c ∷ []
insert_cpu c (d ∷ ds) = if ltb c.count d.count then c ∷ d ∷ ds else d ∷ insert_cpu c ds

unfoldable pub sort_cpus : List TaskCpu → List TaskCpu
unfolding insert_cpu
sort_cpus [] = []
sort_cpus (c ∷ cs) = insert_cpu c (sort_cpus cs)

-- A container that could be loaded.
pub record Task : Type 0 where
  pub key : ℕ
  pub limits_cpu : Option (List ℕ)
  pub running : Bool

-- The maps `fixedContainers`, from CPUs to containers, and `pinning`, from containers to CPUs.
abbrev pub Table : Type 0
Table = List (ℕ × List ℕ)

-- `m[k] = append(m[k], v)`
unfoldable pub append_to : ℕ → ℕ → Table → Table
append_to k v [] = (k, v ∷ []) ∷ []
append_to k v ((j, vs) ∷ m) = if j == k then (j, vs ++ v ∷ []) ∷ m else (j, vs) ∷ append_to k v m

-- `usage[id] = cpu`, for a CPU that nothing runs on.
unfoldable pub add_usage : ℕ → List TaskCpu → List TaskCpu
add_usage id [] = record { id = id; count = 0 } ∷ []
add_usage id (c ∷ cs) = if c.id == id then c ∷ cs else c ∷ add_usage id cs

unfoldable pub usage_of : List ℕ → List TaskCpu → List TaskCpu
unfolding add_usage
usage_of [] usage = usage
usage_of (id ∷ ids) usage = usage_of ids (add_usage id usage)

-- `for _, nr := range containerCpus`
unfoldable pub fix_on : List ℕ → List ℕ → ℕ → Table → Table
unfolding append_to
fix_on cpus [] key fixed = fixed
fix_on cpus (nr ∷ nrs) key fixed =
    fix_on cpus nrs key (if not (int_in_slice nr cpus) then fixed else append_to nr key fixed)

-- The limit: the effective CPUs where none is set.
unfoldable pub limit_of : List ℕ → Option (List ℕ) → List ℕ
limit_of effective none = effective
limit_of effective (some []) = effective
limit_of effective (some (c ∷ cs)) = c ∷ cs

abbrev min64 : ℕ → ℕ → ℕ
min64 x y = if lt64 x y then x else y

-- Both maps, after the loop over the containers; `none` is the return at a limit that is no cpuset.
unfoldable pub classify :
    List ℕ → List ℕ → List (Option Task) → Table → List (ℕ × ℕ) → Option (Table × List (ℕ × ℕ))
unfolding fix_on limit_of
classify effective cpus [] fixed balanced = some (fixed, balanced)
classify effective cpus (none ∷ ts) fixed balanced = classify effective cpus ts fixed balanced
classify effective cpus (some t ∷ ts) fixed balanced =
    let cpulimit = limit_of effective t.limits_cpu in
    let rest = λ (f : Table) (b : List (ℕ × ℕ)). classify effective cpus ts f b in
    if not t.running then rest fixed balanced else elim (parse_codes cpulimit) [
      | some count ↦ rest fixed (balanced ++ (t.key, min64 count (length cpus)) ∷ [])
      | none ↦ elim (parse_cpuset cpulimit) [
        | err _ ↦ none
        | ok nrs ↦ rest (fix_on cpus nrs t.key fixed) balanced
      ]
    ]

-- `usage[cpu]`
unfoldable pub has_cpu : ℕ → List TaskCpu → Bool
has_cpu cpu [] = false
has_cpu cpu (c ∷ cs) = c.id == cpu || has_cpu cpu cs

unfoldable pub bump_cpu : ℕ → List TaskCpu → List TaskCpu
bump_cpu cpu [] = []
bump_cpu cpu (c ∷ cs) = if c.id == cpu then bump c ∷ cs else c ∷ bump_cpu cpu cs

-- The containers that are fixed on one CPU.
unfoldable pub pin_all : ℕ → List ℕ → List TaskCpu × Table → List TaskCpu × Table
unfolding bump_cpu append_to
pin_all cpu [] (usage, pinning) = (usage, pinning)
pin_all cpu (ctn ∷ ctns) (usage, pinning) =
    pin_all cpu ctns (bump_cpu cpu usage, append_to ctn cpu pinning)

unfoldable pub pin_fixed : Table → List TaskCpu × Table → List TaskCpu × Table
unfolding pin_all has_cpu
pin_fixed [] s = s
pin_fixed ((cpu, ctns) ∷ fixed) s =
    pin_fixed fixed (if has_cpu cpu s.0 then pin_all cpu ctns s else s)

-- The loop over the sorted CPUs: the CPUs afterwards, and those that the container gets. It ends when
-- `count` is 0.
unfoldable pub take_cpus : ℕ → List TaskCpu → List TaskCpu × List ℕ
take_cpus count [] = ([], [])
take_cpus count (c ∷ cs) =
    let rest = take_cpus (sub64 count 1) cs in
    if count == 0 then (c ∷ cs, []) else (bump c ∷ rest.0, c.id ∷ rest.1)

unfoldable pub append_all : ℕ → List ℕ → Table → Table
unfolding append_to
append_all ctn [] pinning = pinning
append_all ctn (id ∷ ids) pinning = append_all ctn ids (append_to ctn id pinning)

unfoldable pub balance : List (ℕ × ℕ) → List TaskCpu × Table → List TaskCpu × Table
unfolding sort_cpus take_cpus append_all
balance [] s = s
balance ((ctn, count) ∷ balanced) (usage, pinning) =
    let taken = take_cpus count (sort_cpus usage) in
    balance balanced (taken.0, append_all ctn taken.1 pinning)

-- `sort.Strings(set)`
unfoldable pub text_lt : List ℕ → List ℕ → Bool
text_lt s [] = false
text_lt [] (d ∷ ds) = true
text_lt (c ∷ cs) (d ∷ ds) = if c == d then text_lt cs ds else ltb c d

unfoldable pub insert_text : List ℕ → List (List ℕ) → List (List ℕ)
unfolding text_lt
insert_text t [] = t ∷ []
insert_text t (u ∷ us) = if text_lt t u then t ∷ u ∷ us else u ∷ insert_text t us

unfoldable pub sort_texts : List (List ℕ) → List (List ℕ)
unfolding insert_text
sort_texts [] = []
sort_texts (t ∷ ts) = insert_text t (sort_texts ts)

-- The value of cpuset.cpus.
unfoldable pub set_text : List ℕ → List ℕ
unfolding sort_texts
set_text ids = join (sort_texts (map show_int ids))

-- The CPUs that are not isolated.
unfoldable pub not_isolated : List ℕ → List ℕ → List ℕ
not_isolated isolated [] = []
not_isolated isolated (id ∷ ids) =
    let rest = not_isolated isolated ids in if int_in_slice id isolated then rest else id ∷ rest

-- The content of the file, if it is there.
unfoldable pub isolated_cpus : Option (List ℕ) → Result Error (List ℕ)
isolated_cpus none = ok []
isolated_cpus (some buf) = elim (trim_space buf) [ [] ↦ ok [] | c ∷ cs ↦ parse_cpuset (c ∷ cs) ]

-- What is written: the CPUs of all containers together, and those of each container.
pub record Written : Type 0 where
  pub lxc : Option (List ℕ)
  pub pins : List (ℕ × List ℕ)

abbrev texts : Table → List (ℕ × List ℕ)
texts [] = []
texts ((ctn, ids) ∷ m) = (ctn, set_text ids) ∷ texts m

-- `pinning`, from the CPUs and both maps.
unfoldable pub pinning_of : List ℕ → Table × List (ℕ × ℕ) → Table
unfolding usage_of pin_fixed balance
pinning_of cpus (fixed, balanced) = (balance balanced (pin_fixed fixed (usage_of cpus [], []))).1

-- After the CPUs of all containers have been written.
unfoldable pub pins_of : List ℕ → List (Option Task) → Table
unfolding classify pinning_of
pins_of effective tasks = elim (parse_cpuset effective) [
  | err _ ↦ []
  | ok cpus ↦ elim (classify effective cpus tasks [] []) [ none ↦ [] | some m ↦ pinning_of cpus m ]
]

-- `deviceTaskBalance`, where there is a controller for CPUs. That a container has not stopped meanwhile
-- is asked again before its CPUs are written.
unfoldable pub device_task_balance : List ℕ → Option (List ℕ) → List (Option Task) → Written
unfolding not_isolated isolated_cpus pins_of
device_task_balance effective_cpus isolated tasks =
    let nothing : Written = record { lxc = none; pins = [] } in
    elim (parse_cpuset effective_cpus) [
      | err _ ↦ nothing
      | ok effective_int ↦ elim (isolated_cpus isolated) [
        | err _ ↦ nothing
        | ok isolated_int ↦
            let effective = join (map show_int (not_isolated isolated_int effective_int)) in
            record { lxc = some effective; pins = texts (pins_of effective tasks) }
      ]
    ]
