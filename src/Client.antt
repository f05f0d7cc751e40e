-- ===== src/Client.antt =====
-- The command line client: the remote in a name (lxc/config/remote.go), the filters of `lxc list`
-- (lxc/list.go) and the aliases of commands (lxc/main.go). Regular expressions are an argument.
pub mod Remote
pub mod Alias
pub mod Filter
mod Tests
use Prim.Native.String.{String}
use text.Mathlib.Text.{◌==◌ as str_eq}
use lxd_pkg_ubuntu.Prelude.{
  ℕ, zero, suc, ◌+◌, ◌-◌, Bool, true, false, not, ◌&&◌, ◌||◌, if◌then◌else◌, ◌==◌, leb, ltb, List,
  [], ◌∷◌, ◌++◌, any, length, Option, none, some, Result, ok, err,
}
use lxd_pkg_ubuntu.Prelude.Dict.{Dict}
use lxd_pkg_ubuntu.Text.{codes, split, fields, cut, has_prefix, same_codes}

pub data Error : Type 0 where
  no_such_remote : Error

-- `_, ok := c.Remotes[name]`
unfoldable pub is_remote : List ℕ → List (List ℕ) → Bool
unfolding same_codes
is_remote name [] = false
is_remote name (r ∷ rs) = same_codes r name || is_remote name rs

-- `strings.Contains`, of one character.
abbrev pub has_code : ℕ → List ℕ → Bool
has_code x s = any (λ c. c == x) s

-- `ParseRemote`: the remote and the object.
unfoldable pub parse_remote :
    (default : List ℕ) → (remotes : List (List ℕ)) → List ℕ → Result Error (List ℕ × List ℕ)
unfolding is_remote
parse_remote default remotes raw = elim (cut 58 raw) [
  | none ↦ ok (default, raw)
  | some parts ↦
      if not (is_remote parts.0 remotes)
      then if has_code 47 raw && has_code 47 parts.0 then ok (default, raw) else err no_such_remote
      else ok (parts.0, parts.1)
]

-- The loop of `dotPrefixMatch`.
unfoldable pub all_prefixes : (full short : List (List ℕ)) → Bool
unfolding has_prefix
all_prefixes (f ∷ fs) (s ∷ ss) = has_prefix f s && all_prefixes fs ss
all_prefixes _ _ = true

-- `dotPrefixMatch`
unfoldable pub dot_prefix_match : (short full : List ℕ) → Bool
unfolding all_prefixes
dot_prefix_match short full =
    if not (length (fields 46 full) == length (fields 46 short))
    then false
    else all_prefixes (fields 46 full) (fields 46 short)

-- `regexpValue`
unfoldable pub anchored : List ℕ → List ℕ
anchored value =
    if not (has_code 94 value || has_code 36 value) then 94 ∷ (value ++ 36 ∷ []) else value

-- What the loop over the configuration comes to.
pub data Search : Type 0 where
  found not_found refused : Search

-- `config[key]`, which is the empty text for a key that is not there.
unfoldable pub config_value : List ℕ → List (List ℕ × List ℕ) → List ℕ
unfolding same_codes
config_value key [] = []
config_value key ((k, v) ∷ config) = if same_codes k key then v else config_value key config

module _ (compile : List ℕ → Option (List ℕ → Bool)) where
  -- The loop over the configuration of a container.
  unfoldable pub search : (key value : List ℕ) → List (List ℕ × List ℕ) → Search
  unfolding dot_prefix_match anchored same_codes
  search key value [] = not_found
  search key value ((k, v) ∷ config) =
      let rest = search key value config in
      if dot_prefix_match key k
      then elim (compile (anchored value)) [
        | none ↦ if same_codes value v then found else refused
        | some matches ↦ if matches v then found else rest
      ]
      else rest

  unfoldable pub matches_name : (filter name : List ℕ) → Bool
  unfolding anchored
  matches_name filter name = elim (compile (anchored filter)) [
    | none ↦ false
    | some matches ↦ matches name
  ]

  -- `shouldShow`, of a container with that name and that expanded configuration.
  unfoldable pub should_show : List (List ℕ) → (name : List ℕ) → List (List ℕ × List ℕ) → Bool
  unfolding search matches_name config_value same_codes has_prefix
  should_show [] name config = true
  should_show (filter ∷ filters) name config =
      let rest = should_show filters name config in
      elim (cut 61 filter) [
        | none ↦
            if matches_name filter name
            then true
            else if not (has_prefix name filter)
            then false
            else rest
        | some membs ↦ elim (search membs.0 membs.1 config) [
          | refused ↦ false
          | found ↦ if same_codes (config_value membs.0 config) membs.1 then true else rest
          | not_found ↦ same_codes (config_value membs.0 config) membs.1
        ]
      ]

-- The arguments start with the words of an alias.
unfoldable pub starts_with : (words args : List String) → Bool
starts_with [] args = true
starts_with (w ∷ ws) [] = false
starts_with (w ∷ ws) (a ∷ as_) = str_eq a w && starts_with ws as_

-- The first alias whose words the arguments start with, in the order of the map: its words and those of
-- its value.
unfoldable pub find_alias : Dict String → List String → Option (List String × List String)
unfolding starts_with split
find_alias [] args = none
find_alias ((k, v) ∷ aliases) args =
    let rest = find_alias aliases args in
    if starts_with (split 32 k) args then some (split 32 k, split 32 v) else rest

-- `args[n:]`
unfoldable pub from : ℕ → List String → List String
from zero args = args
from (suc n) [] = []
from (suc n) (a ∷ as_) = from n as_

-- The loop over the words of the value, from position i on: the words, and whether "@ARGS@" was among
-- them. The arguments are those after the name of the program.
unfoldable pub replace_args : ℕ → List String → List String → List String × Bool
unfolding from
replace_args i args [] = ([], false)
replace_args i args (w ∷ ws) =
    let rest = replace_args (i + 1) args ws in
    if str_eq w "@ARGS@" && leb i (length args)
    then (from i args ++ rest.0, true)
    else (w ∷ rest.0, rest.1)

-- `append(newArgs[:2], append([]string{"--no-alias"}, newArgs[2:]...)...)`; `none` is the panic where
-- there is no second argument.
unfoldable pub insert_no_alias : List String → Option (List String)
insert_no_alias (a ∷ b ∷ args) = some (a ∷ b ∷ "--no-alias" ∷ args)
insert_no_alias _ = none

-- What `expandAlias` comes to: nothing to expand, the new arguments, or the panic.
pub data Expansion : Type 0 where
  unexpanded panicked : Expansion
  expanded : List String → Expansion

abbrev pub expansion_of : Option (List String) → Expansion
expansion_of none = panicked
expansion_of (some args) = expanded args

-- `expandAlias`; `program` is the first of the arguments.
unfoldable pub expand_alias : Dict String → String → List String → Expansion
unfolding find_alias replace_args insert_no_alias
expand_alias aliases program args = elim (find_alias aliases args) [
  | none ↦ unexpanded
  | some alias ↦
      let replaced = replace_args 0 args alias.1 in
      expansion_of (
        insert_no_alias (
          program
          ∷ (if not replaced.1 then replaced.0 ++ from (length alias.0) args else replaced.0)))
]
