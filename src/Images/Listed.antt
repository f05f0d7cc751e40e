-- ===== src/Images/Listed.antt =====
-- The aliases that the images list.
use lxd_pkg_ubuntu.Prelude.{
  ℕ, ◌≡◌, sym, refl, subst, List, [], ◌∷◌, ◌++◌, All, All-map, All-append, Option, none, some,
}
use lxd_pkg_ubuntu.Text.Affix.{same_codes_refl}
use lxd_pkg_ubuntu.Images.{
  Image, sort, Aliases, target, default_os, alias_name, add_alias, append_alias, names_of,
  add_names, add_entries, add_images, apply_aliases,
}
use lxd_pkg_ubuntu.Images.Aliases.{target-append, entries_of, claims, add_images-target}

-- All names stand for an image.
abbrev Stand : List ℕ → Aliases → List (List ℕ) → Type 0
Stand fp as_ names = All (λ n. target n as_ ≡ some fp) names

-- What stands for an image still does so in a map that answers like a longer one.
still :
    (n fp : List ℕ) (as_ bs cs : Aliases)
    → target n bs ≡ target n (as_ ++ cs)
    → target n as_ ≡ some fp
    → target n bs ≡ some fp
still n fp as_ bs cs e h = let whole = target-append n as_ cs in cc (e, whole, h)

add_alias-Stand :
    (default name fp : List ℕ) (listed : List (List ℕ)) (as_ : Aliases)
    → Stand fp as_ listed
    → Stand fp
        (add_alias default name fp as_).1
        (append_alias listed (add_alias default name fp as_).0)
unfolding add_alias target
add_alias-Stand default name fp listed as_ h = by_target (target (alias_name default name) as_) refl
  where
    by_target :
        (o : Option (List ℕ))
        → target (alias_name default name) as_ ≡ o
        → Stand fp
            (elim o as (λ _. Option (List ℕ) × Aliases) [
              | some _ ↦ (none, as_)
              | none ↦ (some (alias_name default name), as_ ++ (alias_name default name, fp) ∷ [])
            ]).1
            (append_alias listed
              (elim o as (λ _. Option (List ℕ) × Aliases) [
                | some _ ↦ (none, as_)
                | none ↦ (some (alias_name default name), as_ ++ (alias_name default name, fp) ∷ [])
              ]).0)
    by_target (some f) e = h
    by_target none e =
        let n = alias_name default name in
        let here = target-append n as_ ((n, fp) ∷ []) in
        let same = same_codes_refl n in
        All-append _ listed (n ∷ [])
          (All-map _ _ listed (λ m k. still m fp as_ (as_ ++ (n, fp) ∷ []) ((n, fp) ∷ []) refl k) h)
          (cc (here, e, same), tt)

add_names-Stand :
    (default : List ℕ) (names : List (List ℕ)) (fp : List ℕ) (listed : List (List ℕ))
    (as_ : Aliases)
    → Stand fp as_ listed
    → Stand fp
        (add_names default names fp (listed, as_)).1
        (add_names default names fp (listed, as_)).0
unfolding add_names
add_names-Stand default [] fp listed as_ h = h
add_names-Stand default (n ∷ ns) fp listed as_ h =
    add_names-Stand default ns fp _ _ (add_alias-Stand default n fp listed as_ h)

add_entries-Stand :
    (local default : List ℕ) (i : Image) (es : List (List ℕ)) (listed : List (List ℕ))
    (as_ : Aliases)
    → Stand i.fingerprint as_ listed
    → Stand i.fingerprint
        (add_entries local default i es (listed, as_)).1
        (add_entries local default i es (listed, as_)).0
unfolding add_entries
add_entries-Stand local default i [] listed as_ h = h
add_entries-Stand local default i (e ∷ es) listed as_ h =
    add_entries-Stand local default i es _ _
      (add_names-Stand default (names_of local i e) i.fingerprint listed as_ h)

-- An image whose listed aliases all stand for it.
abbrev pub IsListed : Aliases → Image → Type 0
IsListed as_ i = All (λ n. target n as_ ≡ some i.fingerprint) (entries_of i)

no_entries : (j : Image) → j.aliases ≡ none → (as_ : Aliases) → IsListed as_ j
no_entries j e as_ =
    subst
      (λ o.
        All (λ n. target n as_ ≡ some j.fingerprint)
          (elim o as (λ _. List (List ℕ)) [ none ↦ [] | some es ↦ es ]))
      (sym e) tt

add_images-IsListed :
    (local default : List ℕ) (is : List Image) (as_ : Aliases)
    → All (IsListed (add_images local default is as_).1) (add_images local default is as_).0
unfolding add_images
add_images-IsListed local default [] as_ = tt
add_images-IsListed local default (i ∷ is) as_ =
    by_entries i i.aliases refl (add_images-IsListed local default is)
  where
    by_entries :
        (j : Image) (o : Option (List (List ℕ)))
        → j.aliases ≡ o
        → ((bs : Aliases)
            → All (IsListed (add_images local default is bs).1) (add_images local default is bs).0)
        → All
            (IsListed
              (elim o as (λ _. List Image × Aliases) [
                | none ↦
                    (j ∷ (add_images local default is as_).0, (add_images local default is as_).1)
                | some es ↦ (
                  record j { aliases = some (add_entries local default j es ([], as_)).0 }
                      ∷ (add_images local default is
                          (add_entries local default j es ([], as_)).1).0,
                  (add_images local default is (add_entries local default j es ([], as_)).1).1,
                )
              ]).1)
            (elim o as (λ _. List Image × Aliases) [
              | none ↦
                  (j ∷ (add_images local default is as_).0, (add_images local default is as_).1)
              | some es ↦ (
                record j { aliases = some (add_entries local default j es ([], as_)).0 }
                    ∷ (add_images local default is (add_entries local default j es ([], as_)).1).0,
                (add_images local default is (add_entries local default j es ([], as_)).1).1,
              )
            ]).0
    by_entries j none e rest = (no_entries j e _, rest as_)
    by_entries j (some es) e rest =
        let added = add_entries local default j es ([], as_) in
        (
          All-map _ _ added.0
              (λ n k.
                still n j.fingerprint added.1 (add_images local default is added.1).1
                  (claims local default is) (add_images-target local default is n added.1) k)
              (add_entries-Stand local default j es [] as_ tt),
          rest added.1,
        )

-- After `applyAliases` each alias that an image lists stands for that image.
pub apply_aliases-IsListed :
    (url local : List ℕ) (images : List Image)
    → All (IsListed (apply_aliases url local images).1) (apply_aliases url local images).0
unfolding apply_aliases
apply_aliases-IsListed url local images =
    add_images-IsListed local (default_os url) (sort images) []
