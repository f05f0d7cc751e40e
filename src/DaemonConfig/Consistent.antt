-- ===== src/DaemonConfig/Consistent.antt =====
-- The cache of the configuration keeps in step with the database.
use Prim.Native.String.{String}
use text.Mathlib.Text.{◌==◌ as str_eq}
use text.Mathlib.TextEquality.{eq_iff}
use lxd_pkg_ubuntu.Prelude.{
  ◌≡◌, refl, sym, ◌∙◌, subst, inl, inr, arith, Bool, true, false, if◌then◌else◌, Option, none, some,
  Result, ok, err, Option-cases,
}
use lxd_pkg_ubuntu.Prelude.Dict.{lookup}
use lxd_pkg_ubuntu.DaemonConfig.{
  Error, corrupted_cache, ConfigKey, set_current, State, Host, run_setter, validate, store_value,
  set_key, set,
}
use lxd_pkg_ubuntu.DaemonConfig.Put.{old_value}
use lxd_pkg_ubuntu.DaemonConfig.Update.{
  lookup-set_current, set_current_same, is_password, revalue, Kept, Wrote, InStep, setter-Kept,
  setter-plain, store-Wrote,
}

module _ {W : Type 0} where
  -- What a successful `Set` of a key has stored.
  pub record Done (k : ConfigKey) (name value : String) (s s' : State W) : Type 0 where
    pub stored : String
    pub wrote : Wrote name stored s s'
    pub plain : is_password k.setter ≡ false → stored ≡ value

  unchanged :
      (k : ConfigKey) (name value : String) (s : State W)
      → InStep s
      → lookup name s.keys ≡ some k
      → k.current_value ≡ value
      → Done k name value s s
  unchanged k name value s step found e = record {
    stored = k.current_value;
    wrote = record {
      keys = sym (set_current_same name k s.keys found);
      table = λ j. let there = step name k found in ground (arith, eq_iff name j, there);
      maps = λ m. m;
    };
    plain = λ p. e;
  }

  -- A written key is in step.
  Wrote-InStep :
      (name stored : String) (s s' : State W) → InStep s → Wrote name stored s s' → InStep s'
  Wrote-InStep name stored s s' step w j k found =
      let here = lookup-set_current name j stored s.keys in
      let found' : lookup j (set_current name stored s.keys) ≡ some k =
        subst (λ ks. lookup j ks ≡ some k) w.keys found in
      in_step (str_eq name j) (lookup j s.keys) (step j) (sym here ∙ found') ∙ sym (w.table j)
    where
      in_step :
          (b : Bool) (o : Option ConfigKey)
          → ((i : ConfigKey) → o ≡ some i → i.current_value ≡ old_value j s.table)
          → (if b then revalue stored o else o) ≡ some k
          → k.current_value ≡ (if b then stored else old_value j s.table)
      in_step true none f e = cc e
      in_step true (some i) f e = let g = sym e in cc g
      in_step false o f e = f k e

  module _ (host : Host W) where
    abbrev pub finished :
        String → ConfigKey → State W × Result Error String → State W × Option Error
    finished name k made = elim made.1 [
      | err e ↦ (made.0, some e)
      | ok stored ↦ store_value host name k.trigger stored made.0
    ]

    finished-Done :
        (name value : String) (k : ConfigKey) (s : State W) (made : State W × Result Error String)
        → Kept name s made.0
        → ((stored : String) → made.1 ≡ ok stored → is_password k.setter ≡ false → stored ≡ value)
        → (finished name k made).1 ≡ none
        → Done k name value s (finished name k made).0
    finished-Done name value k s (s', err e) kept plain h = cc h
    finished-Done name value k s (s', ok stored) kept plain h = record {
      stored = stored;
      wrote = store-Wrote host name stored k.trigger s s' kept h;
      plain = plain stored refl;
    }

    abbrev pub checked :
        String → ConfigKey → String → State W → Option Error → State W × Option Error
    checked name k value s o = elim o [
      | some e ↦ (s, some e)
      | none ↦ finished name k (run_setter host k.setter name value s)
    ]

    checked-Done :
        (name value : String) (k : ConfigKey) (s : State W) (o : Option Error)
        → (checked name k value s o).1 ≡ none
        → Done k name value s (checked name k value s o).0
    checked-Done name value k s (some e) h = cc h
    checked-Done name value k s none h =
        finished-Done name value k s (run_setter host k.setter name value s)
          (setter-Kept host k.setter name value s)
          (λ stored e p. setter-plain host k.setter name value stored s e p) h

    set_key-Done :
        (name value : String) (k : ConfigKey) (s : State W)
        → InStep s
        → lookup name s.keys ≡ some k
        → (set_key host name k value s).1 ≡ none
        → Done k name value s (set_key host name k value s).0
    unfolding set_key
    set_key-Done name value k s step found =
        either (str_eq k.current_value value) (λ y.
          unchanged k name value s step found (ground (arith, eq_iff k.current_value value, y)))
      where
        either :
            (b : Bool)
            → (b ≡ true → Done k name value s s)
            → (if b then (s, none) else checked name k value s (validate host k value s)).1 ≡ none
            → Done k name value s
                (if b then (s, none) else checked name k value s (validate host k value s)).0
        either true f h = f refl
        either false f h = checked-Done name value k s (validate host k value s) h

    abbrev pub looked : String → String → State W → Option ConfigKey → State W × Option Error
    looked name value s o = elim o [
      | none ↦ (s, some corrupted_cache)
      | some k ↦ set_key host name k value s
    ]

    -- A successful `Set` on a cache that is in step with the database stores one value under the name in
    -- both and touches nothing else, and except for a password the value is the one asked for.
    pub set-Done :
        (name value : String) (k : ConfigKey) (s : State W)
        → InStep s
        → lookup name s.keys ≡ some k
        → (set host name value s).1 ≡ none
        → Done k name value s (set host name value s).0
    unfolding set
    set-Done name value k s step found =
        subst
          (λ o. (looked name value s o).1 ≡ none → Done k name value s (looked name value s o).0)
          (sym found) (set_key-Done name value k s step found)

    -- A successful `Set` keeps the cache in step with the database.
    pub set-InStep :
        (name value : String) (s : State W)
        → InStep s
        → (set host name value s).1 ≡ none
        → InStep (set host name value s).0
    unfolding set
    set-InStep name value s step h = elim (Option-cases (lookup name s.keys)) [
      | inl none_found ↦ absurd (ground (arith, none_found, h))
      | inr found ↦
          let (k, e) = found in
          let d = set-Done name value k s step e h in Wrote-InStep name d.stored s _ step d.wrote
    ]
