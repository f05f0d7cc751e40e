-- ===== src/Images/Tests.antt =====
-- Runs on two images of one release, and the theorems on the aliases there.
use lxd_pkg_ubuntu.Prelude.{ℕ, ◌≡◌, refl, List, [], ◌∷◌, none, some, err}
use lxd_pkg_ubuntu.Text.{codes}
use lxd_pkg_ubuntu.Images.{
  ambiguous_image, no_such_alias, Image, sort, target, default_os, apply_aliases, get_images,
  get_alias, get_image,
}
use lxd_pkg_ubuntu.Images.Aliases.{claims, apply_aliases_exact}

abbrev image : (fingerprint : List ℕ) → ℕ → Image
image fp day = record {
  fingerprint = fp;
  architecture = codes "x86_64";
  os = codes "ubuntu";
  release = codes "xenial";
  serial = codes "1";
  arch_property = codes "amd64";
  created_at = some (record { seconds = day; nanoseconds = 0; location = 0 });
  aliases = some (codes "ubuntu/x" ∷ []);
}

abbrev url : List ℕ
url = codes "https://cloud-images.ubuntu.com/releases"

abbrev two : List Image
two = image (codes "aa1") 1 ∷ image (codes "aa2") 2 ∷ []

apply_aliases-newest :
    (apply_aliases url (codes "x86_64") two).1
    ≡ (codes "x", codes "aa2") ∷ (codes "x/amd64", codes "aa2") ∷ []
unfolding apply_aliases
apply_aliases-newest = refl

get_alias-missing :
    get_alias (codes "ubuntu/x") (get_images url (codes "x86_64") (some two) none).0
    ≡ err no_such_alias
unfolding get_alias get_images
get_alias-missing = refl

get_image-ambiguous :
    get_image (codes "aa") (get_images url (codes "x86_64") (some two) none).0 ≡ err ambiguous_image
unfolding get_image get_images
get_image-ambiguous = refl

apply_aliases_exact_example :
    target (codes "x") (apply_aliases url (codes "x86_64") two).1
    ≡ target (codes "x") (claims (codes "x86_64") (default_os url) (sort two))
apply_aliases_exact_example = apply_aliases_exact url (codes "x86_64") (codes "x") two
