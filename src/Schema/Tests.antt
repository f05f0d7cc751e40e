-- ===== src/Schema/Tests.antt =====
-- A small database for the driver, and the theorems on the schema at it.
use lxd_pkg_ubuntu.Text.{int_in_slice}
use lxd_pkg_ubuntu.Prelude.{
  Option-cases, ◌+◌, ℕ, zero, suc, ◌≡◌, refl, true, false, if◌then◌else◌, List, [], ◌∷◌, All,
  Option, none, some, Result, ok, err, Bool-cases, inl, inr,
}
use lxd_pkg_ubuntu.Schema.{
  Error, Driver, Connection, Schema, Update, check_schema_versions_have_no_holes, ensure,
  updates_from_map, missing_updates, update_failed, pending, current_version, last_version,
  update_of,
}
use lxd_pkg_ubuntu.Schema.Rows.{from, put_row, Laws}
use lxd_pkg_ubuntu.Schema.Steps.{Acts, effects}
use lxd_pkg_ubuntu.Schema.Ensure.{ensure_applies, without_31}
use lxd_pkg_ubuntu.Schema.Transaction.{Transactions}

-- The rows of the schema table, if it is there, and a number that the updates add to.
record Store : Type 0 where
  table : Option (List ℕ)
  total : ℕ

abbrev rows_of : Option (List ℕ) → List ℕ
rows_of none = []
rows_of (some vs) = vs

abbrev rows : Store → List ℕ
rows d = rows_of d.table

abbrev total_of : Store → ℕ
total_of d = d.total

abbrev with_table : Store → List ℕ → Store
with_table d vs = record { table = some vs; total = d.total }

abbrev count : Store → Result Error (List ℕ)
count d = elim d.table [ none ↦ ok (0 ∷ []) | some vs ↦ ok (1 ∷ []) ]

abbrev create : Store → Result Error Store
create d = elim d.table [ none ↦ ok (with_table d []) | some vs ↦ err Error.driver ]

abbrev read : Store → Result Error (List ℕ)
read d = elim d.table [ none ↦ err Error.driver | some vs ↦ ok vs ]

abbrev write : ℕ → Store → Result Error Store
write v d = elim d.table [
  | none ↦ err Error.driver
  | some vs ↦ if int_in_slice v vs then err Error.driver else ok (with_table d (put_row v vs))
]

abbrev store_driver : Driver Store
store_driver = record {
  count_tables = count;
  create_table = create;
  select_versions = read;
  insert_version = write;
  begin = λ c. if c.is_open then (c, false) else (record c { is_open = true }, true);
  roll_back = λ c. (record c { is_open = false }, true);
  commit = λ tx c. (record { stored = tx; is_open = false }, true);
}

abbrev closed : Store → Connection Store
closed d = record { stored = d; is_open = false }

store-begun :
    (c : Connection Store)
    → (store_driver.begin c).1 ≡ true
    → (store_driver.begin c).0 ≡ record { stored = c.stored; is_open = true }
store-begun c h = elim (Bool-cases c.is_open) [ inl y ↦ cc (y, h) | inr n ↦ cc n ]

store-refused :
    (c : Connection Store) → (store_driver.begin c).1 ≡ false → (store_driver.begin c).0 ≡ c
store-refused c h = elim (Bool-cases c.is_open) [ inl y ↦ cc y | inr n ↦ cc (n, h) ]

store-Transactions : Transactions store_driver
store-Transactions = record {
  begun = store-begun;
  refused = store-refused;
  rolled_back = λ c h. refl;
  stuck = λ c h. refl;
  committed = λ tx c h. refl;
  lost = λ tx c h. cc h;
}

read-rows : (d : Store) (vs : List ℕ) → read d ≡ ok vs → vs ≡ rows d
read-rows d vs h = elim (Option-cases d.table) [ inl y ↦ cc (h, y) | inr (a, y) ↦ cc (h, y) ]

write-rows :
    (v : ℕ) (d e : Store)
    → write v d ≡ ok e
    → (rows e ≡ put_row v (rows d)) × (total_of e ≡ total_of d)
write-rows v d e h = elim (Option-cases d.table) [
  | inl y ↦ cc (h, y)
  | inr (a, y) ↦ elim (Bool-cases (int_in_slice v a)) [
    | inl z ↦ cc (h, y, z)
    | inr z ↦ (cc (h, y, z), cc (h, y, z))
  ]
]

create-rows : (d e : Store) → create d ≡ ok e → (rows e ≡ rows d) × (total_of e ≡ total_of d)
create-rows d e h = elim (Option-cases d.table) [
  | inl y ↦ (cc (h, y), cc (h, y))
  | inr (a, y) ↦ cc (h, y)
]

store-Laws : Laws store_driver rows total_of
store-Laws = record { selected = read-rows; inserted = write-rows; created = create-rows }

abbrev plus : ℕ → Update Store
plus n d = ok (record { table = d.table; total = d.total + n })

abbrev by_run : Update Store → ℕ → ℕ
by_run u n = elim (u (record { table = none; total = n })) [ ok d ↦ d.total | err _ ↦ n ]

plus-Acts : (n : ℕ) → Acts rows total_of by_run (plus n)
plus-Acts n d e h = (cc h, cc h)

abbrev three : Schema Store
three = record { updates = plus 1 ∷ plus 10 ∷ plus 100 ∷ []; hook = none }

abbrev old_store : Store
old_store = record { table = some (1 ∷ []); total = 5 }

abbrev new_store : Store
new_store = record { table = some (1 ∷ 2 ∷ 3 ∷ []); total = 115 }

abbrev empty_store : Store
empty_store = record { table = none; total = 0 }

ensure-empty :
    ensure store_driver three (closed empty_store)
    ≡ (closed (record { table = some (1 ∷ 2 ∷ 3 ∷ []); total = 111 }), none)
unfolding ensure int_in_slice current_version pending
ensure-empty = refl

abbrev broken : Schema Store
broken = record { updates = plus 1 ∷ (λ d. err Error.driver) ∷ []; hook = none }

ensure-broken :
    ensure store_driver broken (closed empty_store) ≡ (closed empty_store, some update_failed)
unfolding ensure int_in_slice current_version pending
ensure-broken = refl

ensure-old : ensure store_driver three (closed old_store) ≡ (closed new_store, none)
unfolding ensure int_in_slice current_version check_schema_versions_have_no_holes last_version
    pending
ensure-old = refl

ensure_applies_example :
    (rows new_store ≡ from 1 3) × (total_of new_store ≡ effects by_run (pending 1 three.updates) 5)
ensure_applies_example =
    ensure_applies store_driver rows total_of store-Laws store-Transactions by_run three 1
      (closed old_store) (closed new_store) tt (plus-Acts 1, (plus-Acts 10, (plus-Acts 100, tt)))
      refl ensure-old

-- As many updates as are asked for, each of which adds 1.
abbrev ones : ℕ → List (Update Store)
ones zero = []
ones (suc n) = plus 1 ∷ ones n

ones-Acts : (n : ℕ) → All (Acts rows total_of by_run) (ones n)
ones-Acts zero = tt
ones-Acts (suc n) = (plus-Acts 1, ones-Acts n)

abbrev many : Schema Store
many = record { updates = ones 34; hook = none }

abbrev bad_store : Store
bad_store = record { table = some without_31; total = 0 }

abbrev repaired : Store
repaired = record { table = some (from 1 34); total = 2 }

ensure-bad : ensure store_driver many (closed bad_store) ≡ (closed repaired, none)
unfolding ensure int_in_slice current_version check_schema_versions_have_no_holes last_version
    pending
ensure-bad = refl

abbrev by_number : List (ℕ × ℕ)
by_number = (2, 20) ∷ (1, 10) ∷ (3, 30) ∷ []

updates_from_map-sorted : updates_from_map by_number ≡ ok (10 ∷ 20 ∷ 30 ∷ [])
unfolding updates_from_map update_of
updates_from_map-sorted = refl

abbrev with_gap : List (ℕ × ℕ)
with_gap = (2, 20) ∷ (1, 10) ∷ (4, 40) ∷ []

updates_from_map-gap : updates_from_map with_gap ≡ err missing_updates
unfolding updates_from_map update_of
updates_from_map-gap = refl
