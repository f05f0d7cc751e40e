-- ===== src/Images.antt =====
-- The images of a simplestreams server (shared/simplestreams/simplestreams.go): their order, their
-- aliases, and the search for one of them. The index that is downloaded is an argument.
pub mod Aliases
pub mod Listed
mod Tests
use lxd_pkg_ubuntu.Prelude.{
  ℕ, ◌-◌, Bool, true, false, not, ◌&&◌, if◌then◌else◌, ◌==◌, ltb, List, [], ◌∷◌, ◌++◌, Option, none,
  some, Result, ok, err, ◌>>=◌,
}
use lxd_pkg_ubuntu.Text.{codes, same_codes, has_prefix}
use lxd_pkg_ubuntu.Limits.Balance.{text_lt}

pub data Error : Type 0 where
  not_downloaded no_such_alias no_such_image ambiguous_image : Error

-- A `time.Time` after 1970.
pub record Time : Type 0 where
  pub seconds : ℕ
  pub nanoseconds : ℕ
  pub location : ℕ

-- `api.Image`, as far as it is used here. The time of the creation is there if it is set; aliases are
-- names, if there are any.
pub record Image : Type 0 where
  pub fingerprint : List ℕ
  pub architecture : List ℕ
  pub os : List ℕ
  pub release : List ℕ
  pub serial : List ℕ
  pub arch_property : List ℕ
  pub created_at : Option Time
  pub aliases : Option (List (List ℕ))

abbrev is_empty : List ℕ → Bool
is_empty [] = true
is_empty (c ∷ cs) = false

-- `==` of two times.
abbrev pub same_time : Time → Time → Bool
same_time t u = t.seconds == u.seconds && t.nanoseconds == u.nanoseconds && t.location == u.location

-- The order of the creation, newest first: by `==`, and then by the seconds.
unfoldable pub newer : Image → Image → Bool
unfolding text_lt
newer a b = elim a.created_at [
  | none ↦ true
  | some t ↦ elim b.created_at [
    | none ↦ false
    | some u ↦ if same_time t u then text_lt b.serial a.serial else ltb u.seconds t.seconds
  ]
]

-- Texts in their order, the empty one last.
unfoldable pub before : List ℕ → List ℕ → Bool
unfolding text_lt
before s t = if is_empty s then false else if is_empty t then true else text_lt s t

-- `Less`
unfoldable pub less : Image → Image → Bool
unfolding newer before same_codes
less a b =
    if same_codes a.os b.os
    then if same_codes a.release b.release then newer a b else before a.release b.release
    else before a.os b.os

-- `sort.Sort(ssSortImage(images))`
unfoldable pub insert : Image → List Image → List Image
unfolding less
insert a [] = a ∷ []
insert a (b ∷ bs) = if less a b then a ∷ b ∷ bs else b ∷ insert a bs

unfoldable pub sort : List Image → List Image
unfolding insert
sort [] = []
sort (a ∷ as_) = insert a (sort as_)

-- The map of aliases: fingerprints under names.
abbrev pub Aliases : Type 0
Aliases = List (List ℕ × List ℕ)

unfoldable pub target : List ℕ → Aliases → Option (List ℕ)
unfolding same_codes
target name [] = none
target name ((n, fp) ∷ aliases) = if same_codes n name then some fp else target name aliases

-- The default system of the server at that URL.
unfoldable pub default_os : List ℕ → List ℕ
unfolding has_prefix
default_os url =
    if has_prefix url (codes "https://cloud-images.ubuntu.com") then codes "ubuntu" else []

abbrev drop_text : List ℕ → List ℕ → List ℕ
drop_text s [] = s
drop_text [] (p ∷ ps) = []
drop_text (c ∷ s) (p ∷ ps) = drop_text s ps

-- `strings.TrimPrefix`
unfoldable pub trim_prefix : List ℕ → List ℕ → List ℕ
unfolding has_prefix
trim_prefix s prefix = if has_prefix s prefix then drop_text s prefix else s

-- The name that an alias gets.
unfoldable pub alias_name : (default : List ℕ) → List ℕ → List ℕ
unfolding trim_prefix
alias_name [] name = name
alias_name (c ∷ os) name = trim_prefix name ((c ∷ os) ++ 47 ∷ [])

-- `addAlias`: the new alias, if the name is free, and the map afterwards.
unfoldable pub add_alias : (default name fingerprint : List ℕ) → Aliases → Option (List ℕ) × Aliases
unfolding alias_name target
add_alias default name fingerprint aliases =
    let n = alias_name default name in
    elim (target n aliases) [
      | some _ ↦ (none, aliases)
      | none ↦ (some n, aliases ++ (n, fingerprint) ∷ [])
    ]

abbrev pub append_alias : List (List ℕ) → Option (List ℕ) → List (List ℕ)
append_alias l none = l
append_alias l (some a) = l ++ a ∷ []

-- The names that an image has for one entry: the short one on the daemon's own architecture, and the one
-- with the architecture.
unfoldable pub names_of : (local : List ℕ) → Image → List ℕ → List (List ℕ)
unfolding same_codes
names_of local image entry =
    let medium = (entry ++ (47 ∷ image.arch_property)) ∷ [] in
    if same_codes image.architecture local then entry ∷ medium else medium

-- The names of one entry, one after the other.
unfoldable pub add_names :
    (default : List ℕ)
    → List (List ℕ)
    → (fingerprint : List ℕ) → List (List ℕ) × Aliases
    → List (List ℕ) × Aliases
unfolding add_alias
add_names default [] fingerprint s = s
add_names default (name ∷ names) fingerprint (listed, aliases) =
    let added = add_alias default name fingerprint aliases in
    add_names default names fingerprint (append_alias listed added.0, added.1)

-- The loop over the entries of an image.
unfoldable pub add_entries :
    (local default : List ℕ)
    → Image
    → List (List ℕ)
    → List (List ℕ) × Aliases
    → List (List ℕ) × Aliases
unfolding names_of add_names
add_entries local default image [] s = s
add_entries local default image (entry ∷ entries) s =
    add_entries local default image entries
      (add_names default (names_of local image entry) image.fingerprint s)

-- The loop over the images; an image without aliases stays as it is.
unfoldable pub add_images : (local default : List ℕ) → List Image → Aliases → List Image × Aliases
unfolding add_entries
add_images local default [] aliases = ([], aliases)
add_images local default (image ∷ images) aliases = elim image.aliases [
  | none ↦ let rest = add_images local default images aliases in (image ∷ rest.0, rest.1)
  | some entries ↦
      let added = add_entries local default image entries ([], aliases) in
      let rest = add_images local default images added.1 in
      (record image { aliases = some added.0 } ∷ rest.0, rest.1)
]

-- `applyAliases`
unfoldable pub apply_aliases : (url local : List ℕ) → List Image → List Image × Aliases
unfolding sort default_os add_images
apply_aliases url local images = add_images local (default_os url) (sort images) []

-- The cache of a client.
abbrev pub Cache : Type 0
Cache = Option (List Image × Aliases)

-- `getImages`, and the cache afterwards; `download` is what parsing the index and the manifests gives.
unfoldable pub get_images :
    (url local : List ℕ)
    → (download : Option (List Image)) → Cache
    → Result Error (List Image × Aliases) × Cache
unfolding apply_aliases
get_images url local download (some cached) = (ok cached, some cached)
get_images url local none none = (err not_downloaded, none)
get_images url local (some images) none =
    let applied = apply_aliases url local images in (ok applied, some applied)

-- `GetAlias`: the fingerprint.
unfoldable pub get_alias :
    (name : List ℕ) → Result Error (List Image × Aliases) → Result Error (List ℕ)
unfolding target
get_alias name (err e) = err e
get_alias name (ok got) = elim (target name got.1) [ none ↦ err no_such_alias | some fp ↦ ok fp ]

-- The images whose fingerprint starts with a text.
unfoldable pub matches : List ℕ → List Image → List Image
unfolding has_prefix
matches fingerprint [] = []
matches fingerprint (i ∷ is) =
    let rest = matches fingerprint is in
    if has_prefix i.fingerprint fingerprint then i ∷ rest else rest

abbrev pub only : List Image → Result Error Image
only [] = err no_such_image
only (i ∷ []) = ok i
only (i ∷ j ∷ is) = err ambiguous_image

-- `GetImage`
unfoldable pub get_image :
    (fingerprint : List ℕ) → Result Error (List Image × Aliases) → Result Error Image
unfolding matches
get_image fingerprint (err e) = err e
get_image fingerprint (ok got) = only (matches fingerprint got.0)
