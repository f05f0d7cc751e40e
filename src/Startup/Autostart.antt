-- ===== src/Startup/Autostart.antt =====
-- The containers that are started with the daemon (`containersRestart` and `containerAutostartList`,
-- lxd/containers.go).
pub mod Order
use Prim.Native.String.{String}
use text.Mathlib.Text.{◌==◌ as str_eq}
use lxd_pkg_ubuntu.Prelude.{
  ℕ, Bool, true, false, not, ◌&&◌, ◌||◌, if◌then◌else◌, List, [], ◌∷◌, ◌++◌, Option, none, some,
}
use lxd_pkg_ubuntu.Prelude.Int64.{lt64}
use lxd_pkg_ubuntu.Text.{codes, parse_int, is_true}
use lxd_pkg_ubuntu.DaemonConfig.{parsed}
use lxd_pkg_ubuntu.Limits.Balance.{text_lt}

-- A container that has been loaded, with what its expanded configuration has under the keys
-- boot.autostart.priority, boot.autostart, boot.autostart.delay and volatile.last_state.power.
pub record Container : Type 0 where
  pub name : String
  pub priority : String
  pub autostart : String
  pub autostart_delay : String
  pub last_state : String
  pub is_running : Bool

-- `iOrderInt, _ := strconv.Atoi(iOrder)`
unfoldable pub order_of : Container → ℕ
order_of c = parsed (parse_int c.priority) (codes c.priority)

-- `Less`
unfoldable pub less : Container → Container → Bool
unfolding order_of
less c d =
    if not (str_eq c.priority d.priority)
    then lt64 (order_of d) (order_of c)
    else text_lt (codes c.name) (codes d.name)

-- `sort.Sort(containerAutostartList(containers))`
unfoldable pub insert : Container → List Container → List Container
unfolding less
insert c [] = c ∷ []
insert c (d ∷ ds) = if less c d then c ∷ d ∷ ds else d ∷ insert c ds

unfoldable pub sort : List Container → List Container
unfolding insert
sort [] = []
sort (c ∷ cs) = insert c (sort cs)

-- What is done: a container is started, or the daemon waits for a number of seconds.
pub data Action : Type 0 where
  start : Container → Action
  sleep : ℕ → Action

unfoldable pub waits : String → List Action
waits delay = elim (parse_int delay) [ none ↦ [] | some seconds ↦ sleep seconds ∷ [] ]

-- The test of the loop.
unfoldable pub starts : Container → Bool
starts c =
    (is_true c.autostart || (str_eq c.autostart "" && str_eq c.last_state "RUNNING"))
    && not c.is_running

-- The loop over the sorted containers.
unfoldable pub start_each : List Container → List Action
unfolding starts waits
start_each [] = []
start_each (c ∷ cs) =
    let rest = start_each cs in
    if starts c then start c ∷ (waits c.autostart_delay ++ rest) else rest

-- `containersRestart`; `none` is a container that cannot be loaded, an error before anything is done.
abbrev pub loaded : List (Option Container) → Option (List Container)
loaded [] = some []
loaded (none ∷ cs) = none
loaded (some c ∷ cs) = elim (loaded cs) [ none ↦ none | some ds ↦ some (c ∷ ds) ]

unfoldable pub containers_restart : List (Option Container) → Option (List Action)
unfolding sort start_each
containers_restart cs = elim (loaded cs) [ none ↦ none | some ds ↦ some (start_each (sort ds)) ]
