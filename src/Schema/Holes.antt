-- ===== src/Schema/Holes.antt =====
-- The check for holes in the recorded versions.
use lxd_pkg_ubuntu.Prelude.{
  ◌∙◌, ℕ, suc, ◌≡◌, ◌↔◌, ap, inl, inr, refl, arith, ◌==◌, List, [], ◌∷◌, length, ok, Bool-cases,
}
use lxd_pkg_ubuntu.Schema.{check_schema_versions_have_no_holes}
use lxd_pkg_ubuntu.Schema.Rows.{from, no_holes-from}

accepted :
    (v : ℕ) (vs : List ℕ)
    → check_schema_versions_have_no_holes (v ∷ vs) ≡ ok tt
    → v ∷ vs ≡ from v (length (v ∷ vs))
unfolding check_schema_versions_have_no_holes
accepted v [] h = refl
accepted v (w ∷ vs) h = elim (Bool-cases (w == suc v)) [
  | inl y ↦
      let next : w ≡ suc v = ground (arith, y) in
      let rest = accepted w vs (cc (h, y)) in cc (rest, next)
  | inr n ↦ cc (h, n)
]

-- The check accepts recorded versions, of which there is at least one, exactly when they are
-- consecutive numbers from the first on.
pub check_schema_versions_exact :
    (v : ℕ) (vs : List ℕ)
    → check_schema_versions_have_no_holes (v ∷ vs) ≡ ok tt ↔ v ∷ vs ≡ from v (length (v ∷ vs))
check_schema_versions_exact v vs = (
  accepted v vs,
  λ e. ap check_schema_versions_have_no_holes e ∙ no_holes-from v (length (v ∷ vs)),
)
