-- ===== src/Images/Aliases.antt =====
-- Which image an alias stands for.
use lxd_pkg_ubuntu.Prelude.{
  ℕ, ◌≡◌, ◌∙◌, ap, sym, refl, subst, inl, inr, List, [], ◌∷◌, ◌++◌, append_assoc, append-nil,
  Option, none, some, Bool-cases, Option-cases,
}
use lxd_pkg_ubuntu.Text.{same_codes}
use lxd_pkg_ubuntu.Text.Affix.{same_codes_eq}
use lxd_pkg_ubuntu.Images.{
  Image, sort, Aliases, target, default_os, alias_name, add_alias, append_alias, names_of,
  add_names, add_entries, add_images, apply_aliases,
}

abbrev first_some : Option (List ℕ) → Option (List ℕ) → Option (List ℕ)
first_some (some a) o = some a
first_some none o = o

pub target-append :
    (m : List ℕ) (as_ bs : Aliases) → target m (as_ ++ bs) ≡ first_some (target m as_) (target m bs)
unfolding target
target-append m [] bs = refl
target-append m ((n, f) ∷ as_) bs = elim (Bool-cases (same_codes n m)) [
  | inl y ↦ cc y
  | inr k ↦ let rest = target-append m as_ bs in cc (k, rest)
]

first_some-none : (o : Option (List ℕ)) → first_some o none ≡ o
first_some-none none = refl
first_some-none (some a) = refl

-- A taken name stays, and a free one is added at the end: as if it were added in both cases.
pub add_alias-target :
    (default name fp m : List ℕ) (as_ : Aliases)
    → target m (add_alias default name fp as_).1
      ≡ target m (as_ ++ (alias_name default name, fp) ∷ [])
unfolding add_alias target
add_alias-target default name fp m as_ =
    elim (Option-cases (target (alias_name default name) as_)) [
      | inl free ↦ cc free
      | inr taken ↦
          let (f, e) = taken in
          let n = alias_name default name in
          let whole = target-append m as_ ((n, fp) ∷ []) in
          elim (Bool-cases (same_codes n m)) [
            | inl y ↦
                let same : n ≡ m = same_codes_eq n m y in
                let there : target m as_ ≡ some f = subst (λ x. target x as_ ≡ some f) same e in
                cc (e, there, whole)
            | inr k ↦ let left = first_some-none (target m as_) in cc (e, k, whole, left)
          ]
    ]

-- What is claimed, in the order of the claims.
abbrev pub name_claims : (default : List ℕ) → List (List ℕ) → (fingerprint : List ℕ) → Aliases
name_claims default [] fp = []
name_claims default (n ∷ ns) fp = (alias_name default n, fp) ∷ name_claims default ns fp

abbrev pub entry_claims : (local default : List ℕ) → Image → List (List ℕ) → Aliases
entry_claims local default image [] = []
entry_claims local default image (e ∷ es) =
    name_claims default (names_of local image e) image.fingerprint
    ++ entry_claims local default image es

abbrev pub entries_of : Image → List (List ℕ)
entries_of i = elim i.aliases [ none ↦ [] | some es ↦ es ]

abbrev pub claims : (local default : List ℕ) → List Image → Aliases
claims local default [] = []
claims local default (i ∷ is) =
    entry_claims local default i (entries_of i) ++ claims local default is

-- An equal map answers equally after more is added.
swap_front :
    (m : List ℕ) (as_ bs cs : Aliases)
    → target m as_ ≡ target m bs
    → target m (as_ ++ cs) ≡ target m (bs ++ cs)
swap_front m as_ bs cs e =
    target-append m as_ cs ∙ ap (λ o. first_some o (target m cs)) e ∙ sym (target-append m bs cs)

pub add_names-target :
    (default : List ℕ) (names : List (List ℕ)) (fp m : List ℕ) (listed : List (List ℕ))
    (as_ : Aliases)
    → target m (add_names default names fp (listed, as_)).1
      ≡ target m (as_ ++ name_claims default names fp)
unfolding add_names
add_names-target default [] fp m listed as_ = ap (target m) (sym (append-nil as_))
add_names-target default (n ∷ ns) fp m listed as_ =
    let added = add_alias default n fp as_ in
    add_names-target default ns fp m (append_alias listed added.0) added.1
    ∙ swap_front m added.1 (as_ ++ (alias_name default n, fp) ∷ []) (name_claims default ns fp)
        (add_alias-target default n fp m as_)
    ∙ ap (target m) (append_assoc as_ ((alias_name default n, fp) ∷ []) (name_claims default ns fp))

pub add_entries-target :
    (local default : List ℕ) (i : Image) (es : List (List ℕ)) (m : List ℕ) (listed : List (List ℕ))
    (as_ : Aliases)
    → target m (add_entries local default i es (listed, as_)).1
      ≡ target m (as_ ++ entry_claims local default i es)
unfolding add_entries
add_entries-target local default i [] m listed as_ = ap (target m) (sym (append-nil as_))
add_entries-target local default i (e ∷ es) m listed as_ =
    let names = names_of local i e in
    let added = add_names default names i.fingerprint (listed, as_) in
    let cs = name_claims default names i.fingerprint in
    add_entries-target local default i es m added.0 added.1
    ∙ swap_front m added.1 (as_ ++ cs) (entry_claims local default i es)
        (add_names-target default names i.fingerprint m listed as_)
    ∙ ap (target m) (append_assoc as_ cs (entry_claims local default i es))

pub add_images-target :
    (local default : List ℕ) (is : List Image) (m : List ℕ) (as_ : Aliases)
    → target m (add_images local default is as_).1 ≡ target m (as_ ++ claims local default is)
unfolding add_images
add_images-target local default [] m as_ = ap (target m) (sym (append-nil as_))
add_images-target local default (i ∷ is) m as_ =
    by_entries i.aliases (add_images-target local default is m)
  where
    by_entries :
        (o : Option (List (List ℕ)))
        → ((bs : Aliases)
            → target m (add_images local default is bs).1
              ≡ target m (bs ++ claims local default is))
        → target m
            (elim o as (λ _. List Image × Aliases) [
              | none ↦
                  (i ∷ (add_images local default is as_).0, (add_images local default is as_).1)
              | some es ↦ (
                record i { aliases = some (add_entries local default i es ([], as_)).0 }
                    ∷ (add_images local default is (add_entries local default i es ([], as_)).1).0,
                (add_images local default is (add_entries local default i es ([], as_)).1).1,
              )
            ]).1
          ≡ target m (
              as_
              ++ (entry_claims local default i
                    (elim o as (λ _. List (List ℕ)) [ none ↦ [] | some es ↦ es ])
                  ++ claims local default is))
    by_entries none rest = rest as_
    by_entries (some es) rest =
        rest (add_entries local default i es ([], as_)).1
        ∙ swap_front m (add_entries local default i es ([], as_)).1
            (as_ ++ entry_claims local default i es) (claims local default is)
            (add_entries-target local default i es m [] as_)
        ∙ ap (target m)
            (append_assoc as_ (entry_claims local default i es) (claims local default is))

-- After `applyAliases` each name stands for the first image, in the order of the images, that claims it.
pub apply_aliases_exact :
    (url local name : List ℕ) (images : List Image)
    → target name (apply_aliases url local images).1
      ≡ target name (claims local (default_os url) (sort images))
unfolding apply_aliases
apply_aliases_exact url local name images =
    add_images-target local (default_os url) (sort images) name []
