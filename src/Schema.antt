-- ===== src/Schema.antt =====
-- The schema of the database and its updates (lxd/db/schema/schema.go, lxd/db/schema/query.go and
-- lxd/db/query/transaction.go). The driver, which runs the SQL statements, is an argument.
pub mod Rows
pub mod Steps
pub mod Transaction
pub mod Ensure
pub mod Holes
pub mod FromMap
pub mod Failure
mod Tests
use lxd_pkg_ubuntu.Text.{int_in_slice}
use lxd_pkg_ubuntu.Prelude.{
  ℕ, zero, suc, Bool, true, false, not, ◌&&◌, ◌||◌, if◌then◌else◌, ◌==◌, ltb, List, [], ◌∷◌, ◌++◌,
  length, Option, none, some, Result, ok, err, ◌>>=◌, ◌>>◌,
}

pub data Error : Type 0 where
  driver no_rows table_unknown table_not_created versions_unknown missing_updates : Error
  more_recent hook_failed update_failed version_not_inserted not_begun not_rolled_back : Error
  not_committed wrong_level : Error

-- A connection: what the database holds outside of transactions, and whether one is open on it.
pub record Connection (D : Type 0) : Type 0 where
  pub stored : D
  pub is_open : Bool

-- What the package asks of the driver; `D` is the database, as a transaction sees it. The last three
-- are calls of database/sql: the connection after each, and whether it succeeded. A commit is given
-- what the transaction holds.
pub record Driver (D : Type 0) : Type 0 where
  pub count_tables : D → Result Error (List ℕ)
  pub create_table : D → Result Error D
  pub select_versions : D → Result Error (List ℕ)
  pub insert_version : ℕ → D → Result Error D
  pub begin : Connection D → Connection D × Bool
  pub roll_back : Connection D → Connection D × Bool
  pub commit : D → Connection D → Connection D × Bool

-- An error wrapped in another one.
abbrev pub wrap : {A : Type 0} → Error → Result Error A → Result Error A
wrap e (ok a) = ok a
wrap e (err _) = err e

-- `checkSchemaVersionsHaveNoHoles`
unfoldable pub check_schema_versions_have_no_holes : List ℕ → Result Error Unit
check_schema_versions_have_no_holes [] = ok tt
check_schema_versions_have_no_holes (v ∷ []) = ok tt
check_schema_versions_have_no_holes (v ∷ w ∷ vs) =
    let rest = check_schema_versions_have_no_holes (w ∷ vs) in
    if w == suc v then rest else err missing_updates

-- `versions[len(versions)-1]`, for the list v ∷ vs.
unfoldable pub last_version : ℕ → List ℕ → ℕ
last_version v [] = v
last_version v (w ∷ vs) = last_version w vs

-- The highest recorded version.
unfoldable pub current_version : List ℕ → Result Error ℕ
current_version [] = ok 0
current_version (v ∷ vs) =
    check_schema_versions_have_no_holes (v ∷ vs) >>= λ _. ok (last_version v vs)

-- `updates[current:]`
unfoldable pub pending {ℓ} : {A : Type ℓ} → ℕ → List A → List A
pending zero updates = updates
pending (suc n) [] = []
pending (suc n) (u ∷ updates) = pending n updates

-- The test for the bad upgrades between 30 and 32.
abbrev pub misses_31 : List ℕ → Bool
misses_31 versions =
    int_in_slice 30 versions && int_in_slice 32 versions && not (int_in_slice 31 versions)

abbrev pub Update : Type 0 → Type 0
Update D = D → Result Error D

abbrev pub Hook : Type 0 → Type 0
Hook D = ℕ → D → Result Error D

-- `Schema`; the hook is the one that may be nil.
pub record Schema (D : Type 0) : Type 0 where
  pub updates : List (Update D)
  pub hook : Option (Hook D)

-- `sort.Sort(sort.IntSlice(versions))`
unfoldable pub insert_int : ℕ → List ℕ → List ℕ
insert_int v [] = v ∷ []
insert_int v (w ∷ ws) = if ltb v w then v ∷ w ∷ ws else w ∷ insert_int v ws

unfoldable pub sort_ints : List ℕ → List ℕ
unfolding insert_int
sort_ints [] = []
sort_ints (v ∷ vs) = insert_int v (sort_ints vs)

-- `versionsToUpdates[version]`; nil, which is no update, where there is none.
unfoldable pub update_of {ℓ} : {U : Type ℓ} → ℕ → List (ℕ × U) → Option U
update_of version [] = none
update_of version ((v, u) ∷ m) = if v == version then some u else update_of version m

abbrev versions_of {ℓ} : {U : Type ℓ} → List (ℕ × U) → List ℕ
versions_of [] = []
versions_of ((v, _) ∷ m) = v ∷ versions_of m

abbrev found : {U : Type 0} → Option U → Result Error U
found none = err missing_updates
found (some u) = ok u

-- The loop of `NewFromMap` over the sorted versions; the panic is an error.
unfoldable pub collect : {U : Type 0} → List (ℕ × U) → ℕ → List ℕ → Result Error (List U)
collect m next [] = ok []
collect m next (version ∷ versions) =
    let rest = collect m (suc next) versions in
    if version == next
    then (do update ← found (update_of version m); updates ← rest; ok (update ∷ updates))
    else err missing_updates

-- The updates that `NewFromMap` takes from its map.
unfoldable pub updates_from_map : {U : Type 0} → List (ℕ × U) → Result Error (List U)
unfolding collect sort_ints
updates_from_map m = collect m 1 (sort_ints (versions_of m))

-- `NewFromMap`
abbrev pub new_from_map : {D : Type 0} → List (ℕ × Update D) → Result Error (Schema D)
new_from_map m = updates_from_map m >>= λ updates. ok (record { updates = updates; hook = none })

module _ {D : Type 0} where
  -- `Schema.Add`
  unfoldable pub add : Schema D → Update D → Schema D
  add s update = record { updates = s.updates ++ (update ∷ []); hook = s.hook }

  abbrev pub run_hook : Option (Hook D) → ℕ → D → Result Error D
  run_hook none current tx = ok tx
  run_hook (some hook) current tx = wrap hook_failed (hook current tx)

  module _ (driver : Driver D) where
    -- `doesSchemaTableExist`
    unfoldable pub does_schema_table_exist : D → Result Error Bool
    does_schema_table_exist tx = driver.count_tables tx >>= λ counts. elim counts [
      | [] ↦ err no_rows
      | count ∷ _ ↦ ok (count == 1)
    ]

    -- `ensureSchemaTableExists`
    unfoldable pub ensure_schema_table_exists : D → Result Error D
    unfolding does_schema_table_exist
    ensure_schema_table_exists tx = do
      exists ← wrap table_unknown (does_schema_table_exist tx)
      if exists then ok tx else wrap table_not_created (driver.create_table tx)

    abbrev select : D → Result Error (List ℕ)
    select tx = wrap versions_unknown (driver.select_versions tx)

    abbrev insert : ℕ → D → Result Error D
    insert version tx = wrap version_not_inserted (driver.insert_version version tx)

    -- The loop over the missing updates.
    unfoldable pub apply_updates : Option (Hook D) → ℕ → List (Update D) → D → Result Error D
    apply_updates hook current [] tx = ok tx
    apply_updates hook current (update ∷ updates) tx = do
      hooked ← run_hook hook current tx
      updated ← wrap update_failed (update hooked)
      inserted ← insert (suc current) updated
      apply_updates hook (suc current) updates inserted

    -- The fix of the bad upgrades: the versions read, and the database.
    unfoldable pub fix_31 : List ℕ → D → Result Error (List ℕ × D)
    fix_31 versions tx =
        if misses_31 versions
        then (do inserted ← insert 31 tx; again ← select inserted; ok (again, inserted))
        else ok (versions, tx)

    -- What follows the fix: the check of the versions, and the missing updates.
    unfoldable pub apply_missing : Schema D → List ℕ → D → Result Error D
    unfolding apply_updates
    apply_missing s versions tx = do
      current ← current_version versions
      if ltb (length s.updates) current
          then err more_recent
          else if length s.updates == 0
          then ok tx
          else apply_updates s.hook current (pending current s.updates) tx

    -- `ensureUpdatesAreApplied`
    unfoldable pub ensure_updates_are_applied : Schema D → D → Result Error D
    unfolding fix_31 apply_missing
    ensure_updates_are_applied s tx = do
      versions ← select tx
      (fixed, tx1) ← fix_31 versions tx
      apply_missing s fixed tx1

    -- `rollback`: the connection, and the error that is left.
    unfoldable pub rollback : Connection D → Error → Connection D × Option Error
    rollback c reason =
        let done = driver.roll_back c in (done.0, some (if done.1 then reason else not_rolled_back))

    unfoldable pub commit : D → Connection D → Connection D × Option Error
    commit tx c =
        let done = driver.commit tx c in (done.0, if done.1 then none else some not_committed)

    -- `query.Transaction`. The function works on what the transaction sees, which is what is stored
    -- when it begins; its own changes reach the database by the commit only.
    unfoldable pub transaction : (D → Result Error D) → Connection D → Connection D × Option Error
    unfolding rollback commit
    transaction f c =
        let begun = driver.begin c in
        if begun.1
        then elim (f begun.0.stored) [
          | ok tx ↦ commit tx begun.0
          | err reason ↦ rollback begun.0 reason
        ]
        else (begun.0, some not_begun)

    abbrev ensure_steps : Schema D → D → Result Error D
    ensure_steps s tx = ensure_schema_table_exists tx >>= ensure_updates_are_applied s

    -- `Schema.Ensure`
    unfoldable pub ensure : Schema D → Connection D → Connection D × Option Error
    unfolding transaction ensure_schema_table_exists ensure_updates_are_applied
    ensure s c = transaction (ensure_steps s) c

    -- `checkAllUpdatesAreApplied`
    unfoldable pub check_all_updates_are_applied : List (Update D) → D → Result Error Unit
    check_all_updates_are_applied updates tx = select tx >>= λ versions. elim versions [
      | [] ↦ err no_rows
      | v ∷ vs ↦ (do
        check_schema_versions_have_no_holes (v ∷ vs)
        if last_version v vs == length updates then ok tt else err wrong_level)
    ]
