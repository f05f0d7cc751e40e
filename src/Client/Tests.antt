-- ===== src/Client/Tests.antt =====
-- Runs of the client, and the theorems on it at concrete arguments.
use Prim.Native.String.{String}
use lxd_pkg_ubuntu.Prelude.{
  ℕ, ◌≡◌, refl, true, false, Bool, List, [], ◌∷◌, Option, none, ok, err, arith,
}
use lxd_pkg_ubuntu.Text.{codes, fields, cut}
use lxd_pkg_ubuntu.Prelude.Dict.{Dict}
use lxd_pkg_ubuntu.Client.{
  no_such_remote, parse_remote, dot_prefix_match, should_show, expanded, unexpanded, expand_alias,
  find_alias, from,
}
use lxd_pkg_ubuntu.Text.{fields}
use lxd_pkg_ubuntu.Client.Alias.{expand_alias-words, expand_alias-loses}

parse_remote-images :
    parse_remote (codes "local") (codes "images" ∷ []) (codes "images:ubuntu/xenial")
    ≡ ok (codes "images", codes "ubuntu/xenial")
unfolding parse_remote cut
parse_remote-images = refl

parse_remote-unknown : parse_remote (codes "local") [] (codes "images:ubuntu") ≡ err no_such_remote
unfolding parse_remote cut
parse_remote-unknown = refl

abbrev plain : List ℕ → Option (List ℕ → Bool)
plain _ = none

dot_prefix_match-short :
    dot_prefix_match (codes "s.privileged") (codes "security.privileged") ≡ true
unfolding dot_prefix_match fields
dot_prefix_match-short = refl

should_show-value :
    should_show plain
      (codes "u.blah=abc" ∷ [])
      (codes "web")
      ((codes "user.blah", codes "abc") ∷ [])
    ≡ true
unfolding should_show cut fields
should_show-value = refl

should_show-other :
    should_show plain
      (codes "u.blah=abc" ∷ [])
      (codes "web")
      ((codes "user.blah", codes "def") ∷ [])
    ≡ false
unfolding should_show cut fields
should_show-other = refl

should_show-prefix : should_show plain (codes "we" ∷ codes "db" ∷ []) (codes "web") [] ≡ false
unfolding should_show cut
should_show-prefix = refl

abbrev aliases : Dict String
aliases = ("ll", "list --fast") ∷ ("my list", "list -c n @ARGS@") ∷ ("all", "@ARGS@") ∷ []

expand_alias-none : expand_alias aliases "lxc" ("list" ∷ []) ≡ unexpanded
unfolding expand_alias
expand_alias-none = refl

expand_alias-repeats :
    expand_alias aliases "lxc" ("all" ∷ []) ≡ expanded ("lxc" ∷ "all" ∷ "--no-alias" ∷ [])
unfolding expand_alias
expand_alias-repeats = refl

expand_alias-words_example :
    expand_alias aliases "lxc" ("ll" ∷ "web" ∷ [])
    ≡ expanded ("lxc" ∷ "list" ∷ "--no-alias" ∷ "--fast" ∷ "web" ∷ [])
unfolding find_alias
expand_alias-words_example =
    expand_alias-words aliases "lxc" ("ll" ∷ []) ("web" ∷ []) "list" ("--fast" ∷ []) refl
      (refl, (refl, tt))

expand_alias-loses_example :
    expand_alias aliases "lxc" ("my" ∷ "list" ∷ "web" ∷ [])
    ≡ expanded ("lxc" ∷ "list" ∷ "--no-alias" ∷ "-c" ∷ "n" ∷ [])
unfolding find_alias from
expand_alias-loses_example =
    expand_alias-loses aliases "lxc" ("my" ∷ "list" ∷ []) ("web" ∷ []) "list" ("-c" ∷ "n" ∷ []) []
      refl (refl, (refl, (refl, tt))) tt (omega arith) (omega arith)
