-- ===== src/Proxy.antt =====
-- Whether a request goes through a proxy (shared/proxy.go). Whether a host is a loopback address, the
-- parser of URLs and the environment are arguments.
pub mod Bypass
mod Tests
use lxd_pkg_ubuntu.Prelude.{
  ℕ, ◌+◌, ◌-◌, Bool, true, false, not, ◌&&◌, ◌||◌, if◌then◌else◌, ◌==◌, List, [], ◌∷◌, ◌++◌, any,
  map, Option, none, some,
}
use lxd_pkg_ubuntu.Text.{codes, fields, has_suffix, same_codes, lower_code, trim_space}

abbrev pub has_code : ℕ → List ℕ → Bool
has_code x s = any (λ c. c == x) s

-- `s[:strings.LastIndex(s, ":")]` and what follows the colon, if there is one.
unfoldable pub cut_last : List ℕ → Option (List ℕ × List ℕ)
cut_last [] = none
cut_last (c ∷ cs) =
    let rest = cut_last cs in
    elim rest [
      | some parts ↦ some (c ∷ parts.0, parts.1)
      | none ↦ if c == 58 then some ([], cs) else none
    ]

-- `hasPort`: there is a colon, and no bracket is closed after the last one.
unfoldable pub has_port : List ℕ → Bool
unfolding cut_last
has_port s = elim (cut_last s) [ none ↦ false | some parts ↦ not (has_code 93 parts.1) ]

-- The text before its last colon.
abbrev pub before_port : List ℕ → List ℕ
before_port s = elim (cut_last s) [ none ↦ s | some parts ↦ parts.0 ]

abbrev pub without_port : List ℕ → List ℕ
without_port s = if has_port s then before_port s else s

-- The text up to a closing bracket, and what follows it.
unfoldable pub cut_bracket : List ℕ → Option (List ℕ × List ℕ)
cut_bracket [] = none
cut_bracket (c ∷ cs) =
    let rest = cut_bracket cs in
    if c == 93
    then some ([], cs)
    else elim rest [ none ↦ none | some parts ↦ some (c ∷ parts.0, parts.1) ]

abbrev plain_host : List ℕ → List ℕ → Option (List ℕ)
plain_host host port =
    if has_code 58 host
      || has_code 91 host
      || has_code 91 port
      || has_code 93 host
      || has_code 93 port
    then none
    else some host

-- A host in brackets: the port follows the bracket and a colon.
abbrev bracket_port : List ℕ → List ℕ → Option (List ℕ)
bracket_port host [] = none
bracket_port host (c ∷ port) =
    if not (c == 58) || has_code 58 port || has_code 91 host || has_code 91 port || has_code 93 port
    then none
    else some host

-- The host of `net.SplitHostPort`; `none` is its error.
unfoldable pub split_host : List ℕ → Option (List ℕ)
unfolding cut_last cut_bracket
split_host [] = none
split_host (c ∷ cs) =
    if c == 91
    then elim (cut_bracket cs) [ none ↦ none | some parts ↦ bracket_port parts.0 parts.1 ]
    else elim (cut_last (c ∷ cs)) [ none ↦ none | some parts ↦ plain_host parts.0 parts.1 ]

-- What `useProxy` comes to. It panics where it looks at the first character of an entry that is empty.
pub data Answer : Type 0 where
  proxied direct panicked : Answer

-- `strings.ToLower(strings.TrimSpace(s))`
abbrev pub normal : List ℕ → List ℕ
normal s = map lower_code (trim_space s)

-- `strings.HasSuffix(addr, p) && addr[len(addr)-len(p)-1] == '.'`, where addr is not p.
abbrev pub is_below : (p addr : List ℕ) → Bool
is_below p addr = has_suffix addr (46 ∷ p)

-- An entry that is left once its port is gone.
unfoldable pub matches : (p addr : List ℕ) → Option Bool
unfolding same_codes
matches [] addr = none
matches (c ∷ cs) addr =
    if c == 46
    then some (has_suffix addr (c ∷ cs) || same_codes addr cs)
    else some (is_below (c ∷ cs) addr)

-- The loop over the entries.
unfoldable pub use_loop : (addr : List ℕ) → List (List ℕ) → Answer
unfolding matches has_port cut_last same_codes
use_loop addr [] = proxied
use_loop addr (entry ∷ entries) =
    let rest = use_loop addr entries in
    let p = without_port (normal entry) in
    elim (normal entry) [
      | [] ↦ rest
      | c ∷ cs ↦
          if same_codes addr p
          then direct
          else elim (matches p addr) [ none ↦ panicked | some hit ↦ if hit then direct else rest ]
    ]

module _ (is_loopback : List ℕ → Bool) where
  -- `useProxy`, with `no_proxy` as it is once the environment has been asked.
  unfoldable pub use_proxy : (addr no_proxy : List ℕ) → Answer
  unfolding use_loop split_host
  use_proxy [] no_proxy = proxied
  use_proxy (c ∷ cs) no_proxy = elim (split_host (c ∷ cs)) [
    | none ↦ direct
    | some host ↦
        if same_codes host (codes "localhost") || is_loopback host
        then direct
        else if same_codes no_proxy (codes "*")
        then direct
        else use_loop (without_port (normal (c ∷ cs))) (fields 44 no_proxy)
  ]
