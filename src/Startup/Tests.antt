-- ===== src/Startup/Tests.antt =====
-- Runs of what the daemon does when it starts, and the theorems on it.
use lxd_pkg_ubuntu.DaemonConfig.{parsed}
use lxd_pkg_ubuntu.Prelude.Int64.{lt64}
use Prim.Native.String.{String}
use lxd_pkg_ubuntu.Prelude.{
  ℕ, ◌≡◌, refl, true, false, List, [], ◌∷◌, ◌++◌, none, some, Result, ok, err, leb, if◌then◌else◌,
}
use lxd_pkg_ubuntu.Text.{string_in_slice, parse_int, is_true}
use lxd_pkg_ubuntu.Startup.Retry.{DbError, is_locked, gave_up, retry}
use lxd_pkg_ubuntu.Startup.Patches.{State, Host, patch_failed, patches, patches_apply_all}
use lxd_pkg_ubuntu.Startup.Patches.Once.{pending, patches_apply_all-once}
use lxd_pkg_ubuntu.Startup.Autostart.{Container, Action, start, sleep, containers_restart}
use lxd_pkg_ubuntu.Startup.Autostart.Order.{Restarted, containers_restart_lem}

-- A database that is locked three times.
abbrev call : ℕ → Result DbError ℕ
call i = if leb 3 i then ok i else err is_locked

retry-three : retry 1000 call 0 ≡ ok 3
unfolding retry
retry-three = refl

retry-short : retry 3 call 0 ≡ err gave_up
unfolding retry
retry-short = refl

-- Patches that write down their names; one of them may fail.
abbrev host : Host (List String)
host = record {
  run = λ name ran. (ran ++ name ∷ [], true);
  read_fails = λ ran. false;
  mark_fails = λ name ran. false;
}

abbrev one_applied : State (List String)
one_applied = record { rows = "leftover_profile_config" ∷ []; world = [] }

patches-run :
    (patches_apply_all host patches one_applied).0.world
    ≡ "invalid_profile_names" ∷ "fix_uploaded_at" ∷ []
unfolding patches_apply_all string_in_slice
patches-run = refl

patches-fail :
    (patches_apply_all (record host { run = λ name ran. (ran, false) }) patches one_applied).1
    ≡ some patch_failed
unfolding patches_apply_all string_in_slice
patches-fail = refl

patches_apply_all-once_example :
    ((patches_apply_all host patches one_applied).0.rows
      ≡ one_applied.rows ++ pending one_applied.rows patches)
    × (false ≡ false
        → patches_apply_all host patches (patches_apply_all host patches one_applied).0
          ≡ ((patches_apply_all host patches one_applied).0, none))
unfolding patches_apply_all string_in_slice
patches_apply_all-once_example = patches_apply_all-once host patches one_applied refl

abbrev container : String → String → String → Container
container name priority autostart = record {
  name = name;
  priority = priority;
  autostart = autostart;
  autostart_delay = "5";
  last_state = "RUNNING";
  is_running = false;
}

abbrev three : List Container
three = container "a" "" "" ∷ container "b" "10" "1" ∷ container "c" "20" "false" ∷ []

restart-three :
    containers_restart (
      some (container "a" "" "")
      ∷ some (container "b" "10" "1")
      ∷ some (container "c" "20" "false")
      ∷ [])
    ≡ some (start (container "b" "10" "1") ∷ sleep 5 ∷ start (container "a" "" "") ∷ sleep 5 ∷ [])
unfolding containers_restart lt64 parsed parse_int is_true
restart-three = refl

restart-unloaded : containers_restart (some (container "a" "" "") ∷ none ∷ []) ≡ none
unfolding containers_restart
restart-unloaded = refl

containers_restart_lem_example :
    (actions : List Action) × (containers_restart (
        some (container "a" "" "")
        ∷ some (container "b" "10" "1")
        ∷ some (container "c" "20" "false")
        ∷ [])
      ≡ some actions)
    × Restarted three actions
containers_restart_lem_example =
    containers_restart_lem
      (some (container "a" "" "")
        ∷ some (container "b" "10" "1")
        ∷ some (container "c" "20" "false")
        ∷ [])
      three refl
