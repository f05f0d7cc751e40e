-- ===== src/Schema/Rows.antt =====
-- The rows of the schema table, and what the driver is documented to do with them.
use lxd_pkg_ubuntu.Text.{int_in_slice}
use lxd_pkg_ubuntu.Prelude.{
  ℕ, zero, suc, ◌+◌, ◌≡◌, refl, arith, false, ◌&&◌, if◌then◌else◌, ltb, leb, List, [], ◌∷◌, length,
  ok,
}
use lxd_pkg_ubuntu.Schema

-- lo, lo + 1, and so on: n numbers.
abbrev pub from : ℕ → ℕ → List ℕ
from lo zero = []
from lo (suc n) = lo ∷ from (suc lo) n

-- A number among increasing ones.
abbrev pub put_row : ℕ → List ℕ → List ℕ
put_row v [] = v ∷ []
put_row v (w ∷ ws) = if ltb v w then v ∷ w ∷ ws else w ∷ put_row v ws

-- SQLite keeps the rows that the statements of the package write, gives them in the order that is
-- asked for, and has no rows of a table that is created; `rest` is all that the package's own
-- statements leave alone.
pub record Laws {D R : Type 0} (driver : Schema.Driver D) (rows : D → List ℕ) (rest : D → R)
    : Type 0 where
  pub selected : (d : D) (vs : List ℕ) → driver.select_versions d ≡ ok vs → vs ≡ rows d
  pub inserted :
      (v : ℕ) (d e : D)
      → driver.insert_version v d ≡ ok e
      → (rows e ≡ put_row v (rows d)) × (rest e ≡ rest d)
  pub created : (d e : D) → driver.create_table d ≡ ok e → (rows e ≡ rows d) × (rest e ≡ rest d)

pub put_row-from : (v lo n : ℕ) → v ≡ lo + n → put_row v (from lo n) ≡ from lo (suc n)
put_row-from v lo zero e = ground arith
put_row-from v lo (suc n) e = ground (arith, put_row-from v (suc lo) n (omega arith))

length-from : (lo n : ℕ) → length (from lo n) ≡ n
length-from lo zero = refl
length-from lo (suc n) = ground (arith, length-from (suc lo) n)

int_in_slice-from : (x lo n : ℕ) → int_in_slice x (from lo n) ≡ (leb lo x && ltb x (lo + n))
unfolding int_in_slice
int_in_slice-from x lo zero = ground arith
int_in_slice-from x lo (suc n) = ground (arith, int_in_slice-from x (suc lo) n)

pub no_holes-from : (lo n : ℕ) → Schema.check_schema_versions_have_no_holes (from lo n) ≡ ok tt
unfolding Schema.check_schema_versions_have_no_holes
no_holes-from lo zero = refl
no_holes-from lo (suc zero) = refl
no_holes-from lo (suc (suc n)) = ground (arith, no_holes-from (suc lo) (suc n))

last_version-from : (lo n : ℕ) → Schema.last_version lo (from (suc lo) n) ≡ lo + n
unfolding Schema.last_version
last_version-from lo zero = omega arith
last_version-from lo (suc n) = ground (arith, last_version-from (suc lo) n)

pub current_version-from : (k : ℕ) → Schema.current_version (from 1 k) ≡ ok k
unfolding Schema.current_version
current_version-from zero = refl
current_version-from (suc k) =
    let top = last_version-from 1 k in
    let whole = no_holes-from 1 (suc k) in ground (arith, top, whole)

-- Without a hole there is nothing to fix.
pub misses_31-from : (k : ℕ) → Schema.misses_31 (from 1 k) ≡ false
misses_31-from k =
    ground (arith, int_in_slice-from 30 1 k, int_in_slice-from 31 1 k, int_in_slice-from 32 1 k)
