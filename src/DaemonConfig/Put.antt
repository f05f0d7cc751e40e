-- ===== src/DaemonConfig/Put.antt =====
-- The change of the daemon's configuration by a request (`api10Put`, lxd/api_1.0.go).
use Prim.Native.String.{String}
use text.Mathlib.Text.{◌==◌ as str_eq}
use lxd_pkg_ubuntu.Prelude.{Bool, false, not, ◌&&◌, if◌then◌else◌, [], ◌∷◌, Option, none, some}
use lxd_pkg_ubuntu.Prelude.Dict.{Dict, lookup, put}
use lxd_pkg_ubuntu.DaemonConfig.{Error, bad_value_type, unknown_key, Keys, State, Host, set}
use lxd_pkg_ubuntu.DaemonConfig.Init.{JsonValue, absent, string_value, flag}

-- `config[k]`, of the database and of a request.
abbrev pub old_value : String → Dict String → String
old_value k config = elim (lookup k config) [ none ↦ "" | some v ↦ v ]

abbrev pub requested : String → Dict JsonValue → JsonValue
requested k config = elim (lookup k config) [ none ↦ absent | some v ↦ v ]

-- Whether a value of a request is that text.
abbrev pub is_text : JsonValue → String → Bool
is_text (string_value t) v = str_eq t v
is_text _ v = false

abbrev pub is_true_flag : JsonValue → Bool
is_true_flag (flag b) = b
is_true_flag _ = false

unfoldable pub is_hidden : String → Keys → Bool
is_hidden name keys = elim (lookup name keys) [ none ↦ false | some k ↦ k.hidden_value ]

-- The special keys: `true` for a hidden key stands for its old value.
unfoldable pub reveal : Keys → Dict String → Dict JsonValue → Dict JsonValue
unfolding is_hidden
reveal keys old [] = []
reveal keys old ((k, v) ∷ config) =
    let rest = reveal keys old config in
    if is_hidden k keys && is_true_flag v
    then (k, string_value (old_value k old)) ∷ rest
    else (k, v) ∷ rest

-- The two loops of the difference.
unfoldable pub changed_old : Dict JsonValue → Dict String → Dict JsonValue → Dict JsonValue
changed_old config [] changed = changed
changed_old config ((k, v) ∷ old) changed =
    changed_old config old
      (if not (is_text (requested k config) v) then put k (requested k config) changed else changed)

unfoldable pub changed_new : Dict String → Dict JsonValue → Dict JsonValue → Dict JsonValue
changed_new old [] changed = changed
changed_new old ((k, v) ∷ config) changed =
    changed_new old config (if not (is_text v (old_value k old)) then put k v changed else changed)

unfoldable pub difference : Dict String → Dict JsonValue → Dict JsonValue
unfolding changed_old changed_new
difference old config = changed_new old config (changed_old config old [])

-- The text of a changed value; `nil` is the empty one.
abbrev pub text_of : JsonValue → Option String
text_of absent = some ""
text_of (string_value t) = some t
text_of _ = none

module _ {W : Type 0} (host : Host W) where
  -- One changed key.
  unfoldable pub change : String → JsonValue → State W → State W × Option Error
  unfolding set
  change key v s = elim (text_of v) [
    | none ↦ (s, some bad_value_type)
    | some value ↦ elim (lookup key s.keys) [
      | none ↦ (s, some unknown_key)
      | some _ ↦ set host key value s
    ]
  ]

  -- The loop over the changed keys, which ends at the first error.
  unfoldable pub change_all : Dict JsonValue → State W → State W × Option Error
  unfolding change
  change_all [] s = (s, none)
  change_all ((key, v) ∷ changed) s =
      let first = change key v s in
      let rest = change_all changed first.0 in elim first.1 [ some e ↦ first | none ↦ rest ]

  -- `api10Put`, once the request has been read; the map of changes is ranged over in the order of the
  -- list.
  unfoldable pub api10_put : Dict JsonValue → State W → State W × Option Error
  unfolding reveal difference change_all
  api10_put config s = change_all (difference s.table (reveal s.keys s.table config)) s
