-- ===== src/DaemonConfig/Update.antt =====
-- What a change of one key does to the keys and to the table of the database.
use Prim.Native.String.{String}
use text.Mathlib.Text.{◌==◌ as str_eq}
use text.Mathlib.TextEquality.{eq_iff}
use mathlib.Core.Path.{PathP}
use lxd_pkg_ubuntu.DaemonConfig.{no_address}
use lxd_pkg_ubuntu.Prelude.{
  ◌≡◌, refl, sym, ap, ◌∙◌, subst, inl, inr, arith, Bool, true, false, if◌then◌else◌, [], ◌∷◌,
  Option, none, some, Result, ok, err, Bool-cases,
}
use lxd_pkg_ubuntu.Prelude.Dict.{
  Dict, lookup, remove, IsMap, lookup-put, lookup-remove, put-IsMap, remove-IsMap,
}
use lxd_pkg_ubuntu.DaemonConfig.{
  Error, Setter, no_setter, set_address, set_proxy, set_password, set_storage, Trigger, no_trigger,
  trigger_expiry, trigger_auto_update_interval, ConfigKey, Keys, get_of, set_current, State, Host,
  run_setter, run_trigger, config_value_set, store_value,
}
use lxd_pkg_ubuntu.DaemonConfig.Put.{old_value}

abbrev pub revalue : String → Option ConfigKey → Option ConfigKey
revalue v none = none
revalue v (some k) = some (record k { current_value = v })

pub lookup-set_current :
    (name j v : String) (keys : Keys)
    → lookup j (set_current name v keys)
      ≡ (if str_eq name j then revalue v (lookup j keys) else lookup j keys)
unfolding lookup set_current
lookup-set_current name j v [] = ground arith
lookup-set_current name j v ((i, k) ∷ keys) =
    ground (arith, eq_iff name j, eq_iff i name, eq_iff i j, lookup-set_current name j v keys)

-- The last of two writes to the cache stays.
pub set_current_twice :
    (name v w : String) (keys : Keys)
    → set_current name w (set_current name v keys) ≡ set_current name w keys
unfolding set_current
set_current_twice name v w [] = refl
set_current_twice name v w ((j, k) ∷ keys) = elim (Bool-cases (str_eq j name)) [
  | inl y ↦ rw (y, y) refl
  | inr n ↦ rw (n, n) (ap (λ l. (j, k) ∷ l) (set_current_twice name v w keys))
]

-- A write of the value that is there.
pub set_current_same :
    (name : String) (k : ConfigKey) (keys : Keys)
    → lookup name keys ≡ some k
    → set_current name k.current_value keys ≡ keys
unfolding set_current lookup
set_current_same name k [] h = refl
set_current_same name k ((j, i) ∷ keys) h = elim (Bool-cases (str_eq j name)) [
  | inl y ↦ let same : i ≡ k = ground (arith, y, h) in rw (y, same) refl
  | inr n ↦ rw n (ap (λ l. (j, i) ∷ l) (set_current_same name k keys (ground (arith, n, h))))
]

pub old_value-set :
    (key j v : String) (table : Dict String)
    → old_value j (config_value_set key v table) ≡ (if str_eq key j then v else old_value j table)
unfolding config_value_set
old_value-set key j v table =
    let cleared = lookup-remove key j table in
    let written = lookup-put key j v (remove key table) in
    ground (arith, eq_iff v "", cleared, written)

pub set-IsMap :
    (key v : String) (table : Dict String) → IsMap table → IsMap (config_value_set key v table)
unfolding config_value_set
set-IsMap key v table h = elim (Bool-cases (str_eq v "")) [
  | inl y ↦ rw y (remove-IsMap key table h)
  | inr n ↦ rw n (put-IsMap key v (remove key table) (remove-IsMap key table h))
]

abbrev pub is_password : Setter → Bool
is_password set_password = true
is_password _ = false

module _ {W : Type 0} where
  -- What is left of the keys and of the table once a setter has run.
  pub record Kept (name : String) (s s' : State W) : Type 0 where
    pub keys : (x : String) → set_current name x s'.keys ≡ set_current name x s.keys
    pub table : s'.table ≡ s.table

  -- A value that is stored, in the cache and in the database.
  pub record Wrote (name stored : String) (s s' : State W) : Type 0 where
    pub keys : s'.keys ≡ set_current name stored s.keys
    pub table :
        (j : String)
        → old_value j s'.table ≡ (if str_eq name j then stored else old_value j s.table)
    pub maps : IsMap s.table → IsMap s'.table

  -- The cache has what the database has.
  abbrev pub InStep : State W → Type 0
  InStep s =
      (name : String) (k : ConfigKey)
      → lookup name s.keys ≡ some k
      → k.current_value ≡ old_value name s.table

  trigger-keys :
      (t : Trigger) (s : State W)
      → ((run_trigger t s).keys ≡ s.keys) × ((run_trigger t s).table ≡ s.table)
  unfolding run_trigger
  trigger-keys no_trigger s = (refl, refl)
  trigger-keys trigger_expiry s = (refl, refl)
  trigger-keys trigger_auto_update_interval s = (refl, refl)

  module _ (host : Host W) where
    pub setter-Kept :
        (f : Setter) (name v : String) (s : State W) → Kept name s (run_setter host f name v s).0
    unfolding run_setter
    setter-Kept no_setter name v s = record { keys = λ x. refl; table = refl }
    setter-Kept set_address name v s = record { keys = λ x. refl; table = refl }
    setter-Kept set_proxy name v s = record { keys = λ x. refl; table = refl }
    setter-Kept set_password name v s = elim (Bool-cases (str_eq v "")) [
      | inl y ↦ rw y (record { keys = λ x. refl; table = refl })
      | inr n ↦ rw n (record { keys = λ x. refl; table = refl })
    ]
    setter-Kept set_storage name v s = record {
      keys =
          λ x. set_current_twice name (get_of name s.keys) x _ ∙ set_current_twice name v x s.keys;
      table = refl;
    }

    if_ok :
        (b : Bool) (v stored : String) (e : Error)
        → PathP (λ _. Result Error String) (if b then ok v else err e) (ok stored)
        → stored ≡ v
    if_ok true v stored e h = let g = sym h in cc g
    if_ok false v stored e h = cc h

    -- Only the setter of the password stores another value than the one asked for.
    pub setter-plain :
        (f : Setter) (name v stored : String) (s : State W)
        → (run_setter host f name v s).1 ≡ ok stored
        → is_password f ≡ false
        → stored ≡ v
    unfolding run_setter
    setter-plain no_setter name v stored s h p = if_ok true v stored no_address h
    setter-plain set_address name v stored s h p = if_ok _ v stored _ h
    setter-plain set_proxy name v stored s h p = if_ok true v stored no_address h
    setter-plain set_password name v stored s h p = cc p
    setter-plain set_storage name v stored s h p = if_ok _ v stored _ h

    pub store-Wrote :
        (name v : String) (t : Trigger) (s s' : State W)
        → Kept name s s'
        → (store_value host name t v s').1 ≡ none
        → Wrote name v s (store_value host name t v s').0
    unfolding store_value
    store-Wrote name v t s s' k h = elim (Bool-cases (host.write_fails name v s'.daemon.world)) [
      | inl y ↦ absurd (ground (arith, y, h))
      | inr n ↦ rw n (record {
        keys = (trigger-keys t _).0 ∙ k.keys v;
        table = λ j.
            ap (old_value j) (trigger-keys t _).1
            ∙ old_value-set name j v s'.table
            ∙ ap (λ m. if str_eq name j then v else old_value j m) k.table;
        maps = λ m.
            subst IsMap (sym (trigger-keys t _).1)
              (set-IsMap name v s'.table (subst IsMap (sym k.table) m));
      })
    ]
