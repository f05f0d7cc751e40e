-- ===== src/DaemonConfig/Failure.antt =====
-- What is left after a `Set` that fails.
use Prim.Native.String.{String}
use text.Mathlib.Text.{◌==◌ as str_eq}
use text.Mathlib.TextEquality.{eq_iff}
use lxd_pkg_ubuntu.Prelude.{
  ◌≡◌, refl, sym, ap, ◌∙◌, subst, inl, inr, arith, Bool, true, false, if◌then◌else◌, List, [], ◌∷◌,
  Option, none, some, Result, ok, err, Bool-cases,
}
use lxd_pkg_ubuntu.Prelude.Dict.{lookup}
use lxd_pkg_ubuntu.DaemonConfig.{
  Error, database_error, Validator, no_validator, validate_compression, validate_thin_pool_name,
  validate_volume_group_name, validate_pool_name, Trigger, Setter, no_setter, set_address,
  set_proxy, set_password, set_storage, ValueType, string_type, bool_type, int_type, ConfigKey, get,
  get_of, set_current, State, Host, run_validator, check_type, check_values, or_else, with_current,
  run_trigger, config_value_set, no_random, run_setter, validate, store_value, set_key, set,
}
use lxd_pkg_ubuntu.DaemonConfig.Update.{
  Kept, lookup-set_current, set_current_twice, set_current_same, is_password, setter-Kept,
  setter-plain,
}
use lxd_pkg_ubuntu.DaemonConfig.Consistent.{finished, checked, looked}

abbrev is_database_error : Error → Bool
is_database_error database_error = true
is_database_error _ = false

abbrev fails_so : Option Error → Bool
fails_so none = false
fails_so (some e) = is_database_error e

abbrev pub is_storage : Setter → Bool
is_storage set_storage = true
is_storage _ = false

module _ {W : Type 0} where
  pub record Failed (k : ConfigKey) (name value : String) (e : Error) (s s' : State W)
      : Type 0 where
    -- The database is as it was.
    pub table : s'.table ≡ s.table
    -- After any error but one of the database the keys are too.
    pub keys :
        is_database_error e ≡ false
        → (is_storage k.setter ≡ true → k.default_value ≡ "")
        → s'.keys ≡ s.keys
    -- After one of the database the cache has the new value.
    pub cached :
        is_database_error e ≡ true
        → is_password k.setter ≡ false
        → s'.keys ≡ set_current name value s.keys

  module _ (host : Host W) where
    validator-other :
        (v : Validator) (value : String) (s : State W)
        → fails_so (run_validator host v value s) ≡ false
    unfolding run_validator
    validator-other no_validator value s = refl
    validator-other validate_compression value s = ground arith
    validator-other validate_thin_pool_name value s = ground arith
    validator-other validate_volume_group_name value s = ground arith
    validator-other validate_pool_name value s = ground arith

    type-other : (t : ValueType) (value : String) → fails_so (check_type t value) ≡ false
    unfolding check_type
    type-other string_type value = refl
    type-other bool_type value = ground arith
    type-other int_type value = ground arith

    values-other : (vs : List String) (value : String) → fails_so (check_values vs value) ≡ false
    unfolding check_values
    values-other [] value = refl
    values-other (v ∷ vs) value = ground arith

    or-other :
        (o more : Option Error)
        → fails_so o ≡ false
        → fails_so more ≡ false
        → fails_so (or_else o more) ≡ false
    or-other (some e) more h k = h
    or-other none more h k = k

    validate-other :
        (k : ConfigKey) (value : String) (s : State W) → fails_so (validate host k value s) ≡ false
    unfolding validate
    validate-other k value s = elim (Bool-cases (str_eq value "")) [
      | inl y ↦ rw y (validator-other k.validator k.default_value s)
      | inr n ↦ rw n (
          or-other _ _ (type-other k.value_type value) (
            or-other _ _ (values-other k.valid_values value) (validator-other k.validator value s)))
    ]

    get_of-current :
        (k : ConfigKey) (name : String) (s : State W)
        → lookup name s.keys ≡ some k
        → k.default_value ≡ ""
        → get_of name s.keys ≡ k.current_value
    unfolding get_of get
    get_of-current k name s found d = ground (arith, found, d, eq_iff k.current_value "")

    -- A setter that fails puts back what it changed.
    setter-keys :
        (f : Setter) (k : ConfigKey) (name value : String) (e : Error) (s : State W)
        → lookup name s.keys ≡ some k
        → (is_storage f ≡ true → k.default_value ≡ "")
        → (run_setter host f name value s).1 ≡ err e
        → (run_setter host f name value s).0.keys ≡ s.keys
    unfolding run_setter
    setter-keys no_setter k name value e s found d h = refl
    setter-keys set_address k name value e s found d h = refl
    setter-keys set_proxy k name value e s found d h = refl
    setter-keys set_password k name value e s found d h = elim (Bool-cases (str_eq value "")) [
      | inl y ↦ rw y refl
      | inr n ↦ rw n refl
    ]
    setter-keys set_storage k name value e s found d h =
        set_current_twice name value (get_of name s.keys) s.keys
        ∙ ap (λ x. set_current name x s.keys) (get_of-current k name s found (d refl))
        ∙ set_current_same name k s.keys found

    hash-other :
        (o : Option String) (e : Error)
        → elim o as (λ _. Result Error String) [ none ↦ err no_random | some h ↦ ok h ] ≡ err e
        → is_database_error e ≡ false
    hash-other none e h = let g = sym h in cc g
    hash-other (some x) e h = cc h

    if_other :
        (b : Bool) (v : String) (e x : Error)
        → is_database_error x ≡ false
        → (if b then ok v else err x) ≡ err e
        → is_database_error e ≡ false
    if_other true v e x o h = cc h
    if_other false v e x o h = let g = sym h in cc (g, o)

    setter-other :
        (f : Setter) (name value : String) (e : Error) (s : State W)
        → (run_setter host f name value s).1 ≡ err e
        → is_database_error e ≡ false
    unfolding run_setter
    setter-other no_setter name value e s h = cc h
    setter-other set_address name value e s h = if_other _ value e _ refl h
    setter-other set_proxy name value e s h = cc h
    setter-other set_password name value e s h = ground (arith, h)
    setter-other set_storage name value e s h = if_other _ value e _ refl h

    abbrev attempted : String → String → Trigger → State W → Bool → State W × Option Error
    attempted name stored t s failed =
        if failed then (with_current name stored s, some database_error) else (
          run_trigger t (record (with_current name stored s) {
            table = config_value_set name stored s.table;
          }),
          none,
        )

    -- The end of `Set`.
    finished-Failed :
        (k : ConfigKey) (name value : String) (e : Error) (s : State W)
        (made : State W × Result Error String)
        → made ≡ run_setter host k.setter name value s
        → lookup name s.keys ≡ some k
        → (finished host name k made).1 ≡ some e
        → Failed k name value e s (finished host name k made).0
    unfolding store_value
    finished-Failed k name value e s (s', err x) m found h =
        let failed : (run_setter host k.setter name value s).1 ≡ err x = ap (λ p. p.1) (sym m) in
        let same : e ≡ x = let g = sym h in cc g in
        record {
          table = ap (λ p. p.0.table) m ∙ (setter-Kept host k.setter name value s).table;
          keys = λ o d. ap (λ p. p.0.keys) m ∙ setter-keys k.setter k name value x s found d failed;
          cached = λ y p.
              absurd (let o = setter-other k.setter name value x s failed in cc (o, y, same));
        }
    finished-Failed k name value e s (s', ok stored) m found h =
        store-Failed (host.write_fails name stored s'.daemon.world) h
      where
        kept : Kept name s s'
        kept = subst (λ p. Kept name s p.0) (sym m) (setter-Kept host k.setter name value s)

        as_asked : is_password k.setter ≡ false → stored ≡ value
        as_asked = setter-plain host k.setter name value stored s (ap (λ p. p.1) (sym m))

        store-Failed :
            (b : Bool)
            → (attempted name stored k.trigger s' b).1 ≡ some e
            → Failed k name value e s (attempted name stored k.trigger s' b).0
        store-Failed true h = record {
          table = kept.table;
          keys = λ o d. absurd (let g = sym h in cc (g, o));
          cached = λ y p. kept.keys stored ∙ ap (λ x. set_current name x s.keys) (as_asked p);
        }
        store-Failed false h = cc h

    checked-Failed :
        (k : ConfigKey) (name value : String) (e : Error) (s : State W) (o : Option Error)
        → o ≡ validate host k value s
        → lookup name s.keys ≡ some k
        → (checked host name k value s o).1 ≡ some e
        → Failed k name value e s (checked host name k value s o).0
    checked-Failed k name value e s (some x) v found h =
        let same : e ≡ x = let g = sym h in cc g in
        let other = validate-other k value s in
        record {
          table = refl;
          keys = λ o d. refl;
          cached = λ y p.
              absurd (let i : fails_so (some x) ≡ false = ap fails_so v ∙ other in cc (y, i, same));
        }
    checked-Failed k name value e s none v found h =
        finished-Failed k name value e s (run_setter host k.setter name value s) refl found h

    set_key-Failed :
        (k : ConfigKey) (name value : String) (e : Error) (s : State W)
        → lookup name s.keys ≡ some k
        → (set_key host name k value s).1 ≡ some e
        → Failed k name value e s (set_key host name k value s).0
    unfolding set_key
    set_key-Failed k name value e s found = either (str_eq k.current_value value)
      where
        either :
            (b : Bool)
            → (if b then (s, none) else checked host name k value s (validate host k value s)).1
              ≡ some e
            → Failed k name value e s
                (if b then (s, none) else checked host name k value s (validate host k value s)).0
        either true h = cc h
        either false h = checked-Failed k name value e s (validate host k value s) refl found h

    -- A `Set` that fails leaves the database as it was. If the error is not one of the database, and a key
    -- with a storage driver has no default, the cache is as it was too; if it is one of the database, the
    -- cache has the new value, unless it is a password.
    pub set-Failed :
        (k : ConfigKey) (name value : String) (e : Error) (s : State W)
        → lookup name s.keys ≡ some k
        → (set host name value s).1 ≡ some e
        → Failed k name value e s (set host name value s).0
    unfolding set
    set-Failed k name value e s found =
        subst
          (λ o.
            (looked host name value s o).1 ≡ some e
            → Failed k name value e s (looked host name value s o).0)
          (sym found) (set_key-Failed k name value e s found)

    set_same :
        (k : ConfigKey) (name value : String) (s : State W)
        → lookup name s.keys ≡ some k
        → k.current_value ≡ value
        → set host name value s ≡ (s, none)
    unfolding set set_key
    set_same k name value s found e =
        let y : str_eq k.current_value value ≡ true =
          ground (arith, eq_iff k.current_value value, e) in
        cc (found, y)

    -- When the database fails to write a key other than the password, the same `Set` succeeds the next
    -- time, changes nothing, and the database still has the old value.
    pub set_again :
        (k : ConfigKey) (name value : String) (s : State W)
        → lookup name s.keys ≡ some k
        → is_password k.setter ≡ false
        → (set host name value s).1 ≡ some database_error
        → (set host name value (set host name value s).0 ≡ ((set host name value s).0, none))
          × ((set host name value s).0.table ≡ s.table)
    set_again k name value s found p h =
        let f = set-Failed k name value database_error s found h in
        let here = lookup-set_current name name value s.keys in
        let now : lookup name (set host name value s).0.keys
            ≡ some (record k { current_value = value }) =
          rw (f.cached refl p) (ground (arith, here, found, eq_iff name name)) in
        (
          set_same (record k { current_value = value }) name value (set host name value s).0 now
              refl,
          f.table,
        )
