-- ===== src/DaemonConfig/Applies.antt =====
-- A request that changes the configuration and succeeds.
use Prim.Native.String.{String}
use text.Mathlib.Text.{◌==◌ as str_eq}
use text.Mathlib.TextEquality.{eq_iff}
use lxd_pkg_ubuntu.Prelude.{
  ◌≡◌, ◌≢◌, refl, sym, ap, ◌∙◌, subst, inl, inr, arith, Bool, true, false, not, ◌&&◌, ◌||◌,
  if◌then◌else◌, [], ◌∷◌, Option, none, some, Bool-cases, Option-cases,
}
use lxd_pkg_ubuntu.Prelude.Dict.{Dict, lookup, IsMap}
use lxd_pkg_ubuntu.DaemonConfig.{Error, unknown_key, ConfigKey, Keys, State, Host, set}
use lxd_pkg_ubuntu.DaemonConfig.Init.{JsonValue, absent, string_value, flag, other, all_keys}
use lxd_pkg_ubuntu.DaemonConfig.Put.{
  old_value, requested, is_true_flag, is_hidden, reveal, difference, change, change_all, api10_put,
  text_of,
}
use lxd_pkg_ubuntu.DaemonConfig.Update.{is_password}
use lxd_pkg_ubuntu.DaemonConfig.Consistent.{set-Done}
use lxd_pkg_ubuntu.DaemonConfig.Restart.{
  as_stored, init-as_stored, Restartable, Restartable-InStep, set-Restartable,
}
use lxd_pkg_ubuntu.DaemonConfig.Difference.{difference-none, difference-some, difference-IsMap}

abbrev password_name : String
password_name = "core.trust_password"

-- Keys other than the one of the password store what they are given, and are shown.
abbrev IsPlain : ConfigKey → Type 0
IsPlain k = (is_password k.setter ≡ false) × (k.hidden_value ≡ false)

abbrev plain_but : Keys → Bool
plain_but [] = true
plain_but ((n, k) ∷ ks) =
    (str_eq n password_name || not (is_password k.setter || k.hidden_value)) && plain_but ks

key-IsPlain :
    (name : String) (t : Dict String) (ks : Keys) (k : ConfigKey)
    → plain_but ks ≡ true
    → str_eq name password_name ≡ false
    → lookup name (as_stored t ks) ≡ some k
    → IsPlain k
unfolding lookup
key-IsPlain name t [] k p n h = cc h
key-IsPlain name t ((j, i) ∷ ks) k p n h = elim (Bool-cases (str_eq j name)) [
  | inl y ↦
      let this : k ≡ record i { current_value = old_value j t } = ground (arith, y, h) in
      let apart : str_eq j password_name ≡ false = ground (arith, eq_iff j name, y, n) in
      rw this (ground (arith, p, apart), ground (arith, p, apart))
  | inr no_match ↦ key-IsPlain name t ks k (ground (arith, p)) n (ground (arith, no_match, h))
]

module _ {W : Type 0} where
  Restartable-IsPlain :
      (s : State W) (name : String) (k : ConfigKey)
      → Restartable s
      → str_eq name password_name ≡ false
      → lookup name s.keys ≡ some k
      → IsPlain k
  Restartable-IsPlain s name k r n found =
      key-IsPlain name s.table all_keys k refl n
        (subst (λ ks. lookup name ks ≡ some k) (r.keys ∙ init-as_stored s.table r.one_each) found)

  -- One changed key.
  record Changed (key : String) (v : JsonValue) (s s' : State W) : Type 0 where
    restartable : Restartable s'
    stored : String
    table :
        (j : String) → old_value j s'.table ≡ (if str_eq key j then stored else old_value j s.table)
    plain : str_eq key password_name ≡ false → text_of v ≡ some stored

  module _ (host : Host W) where
    set-Changed :
        (key : String) (v : JsonValue) (value : String) (s : State W) (o : Option ConfigKey)
        → text_of v ≡ some value
        → lookup key s.keys ≡ o
        → Restartable s
        → (elim o as (λ _. State W × Option Error) [
          | none ↦ (s, some unknown_key)
          | some _ ↦ set host key value s
        ]).1
          ≡ none
        → Changed key v s
            (elim o as (λ _. State W × Option Error) [
              | none ↦ (s, some unknown_key)
              | some _ ↦ set host key value s
            ]).0
    set-Changed key v value s none t found r h = cc h
    set-Changed key v value s (some k) t found r h =
        let d = set-Done host key value k s (Restartable-InStep s r) found h in
        record {
          restartable = set-Restartable host key value s r h;
          stored = d.stored;
          table = d.wrote.table;
          plain = λ n. t ∙ ap some (sym (d.plain (Restartable-IsPlain s key k r n found).0));
        }

    change-Changed :
        (key : String) (v : JsonValue) (s : State W)
        → Restartable s
        → (change host key v s).1 ≡ none
        → Changed key v s (change host key v s).0
    unfolding change
    change-Changed key absent s r h = set-Changed key absent "" s (lookup key s.keys) refl refl r h
    change-Changed key (string_value t) s r h =
        set-Changed key (string_value t) t s (lookup key s.keys) refl refl r h
    change-Changed key (flag b) s r h = cc h
    change-Changed key other s r h = cc h

    -- All changed keys.
    record ChangedAll (changed : Dict JsonValue) (s s' : State W) : Type 0 where
      restartable : Restartable s'
      others : (j : String) → lookup j changed ≡ none → old_value j s'.table ≡ old_value j s.table
      those :
          (j : String) (v : JsonValue)
          → str_eq j password_name ≡ false
          → lookup j changed ≡ some v
          → text_of v ≡ some (old_value j s'.table)

    more-ChangedAll :
        (key : String) (v : JsonValue) (changed : Dict JsonValue) (s s1 s' : State W)
        → lookup key changed ≡ none
        → Changed key v s s1
        → ChangedAll changed s1 s'
        → ChangedAll ((key, v) ∷ changed) s s'
    unfolding lookup
    more-ChangedAll key v changed s s1 s' fresh c a = record {
      restartable = a.restartable;
      others = λ j h. ground (arith, a.others j, c.table j, h);
      those = λ j w n h. elim (Bool-cases (str_eq key j)) [
        | inl y ↦
            let same : key ≡ j = ground (arith, eq_iff key j, y) in
            let this : w ≡ v = ground (arith, y, h) in
            let gone : lookup j changed ≡ none = subst (λ x. lookup x changed ≡ none) same fresh in
            let kept : old_value j s'.table ≡ c.stored =
              ground (arith, a.others j gone, c.table j, y) in
            ap text_of this
            ∙ c.plain (subst (λ x. str_eq x password_name ≡ false) (sym same) n)
            ∙ ap some (sym kept)
        | inr m ↦ a.those j w n (ground (arith, m, h))
      ];
    }

    none_there : (j : String) (v : JsonValue) → lookup j [] ≢ some v
    unfolding lookup
    none_there j v e = cc e

    change_all-ChangedAll :
        (changed : Dict JsonValue) (s : State W)
        → IsMap changed
        → Restartable s
        → (change_all host changed s).1 ≡ none
        → ChangedAll changed s (change_all host changed s).0
    unfolding change_all
    change_all-ChangedAll [] s m r h = record {
      restartable = r;
      others = λ j n. refl;
      those = λ j v n e. absurd (none_there j v e);
    }
    change_all-ChangedAll ((key, v) ∷ changed) s m r h =
        first_then (change host key v s) refl (λ s1 c g. change_all-ChangedAll changed s1 m.1 c g) h
      where
        rest : State W → State W × Option Error
        rest s1 = change_all host changed s1

        first_then :
            (c : State W × Option Error)
            → change host key v s ≡ c
            → ((s1 : State W)
                → Restartable s1
                → (rest s1).1 ≡ none
                → ChangedAll changed s1 (rest s1).0)
            → (elim c.1 as (λ _. State W × Option Error) [ some e ↦ c | none ↦ rest c.0 ]).1 ≡ none
            → ChangedAll
                ((key, v) ∷ changed)
                s
                (elim c.1 as (λ _. State W × Option Error) [ some e ↦ c | none ↦ rest c.0 ]).0
        first_then (s1, some e) f g h = cc h
        first_then (s1, none) f g h =
            let c : Changed key v s s1 =
              subst (λ p. Changed key v s p.0) f (change-Changed key v s r (ap (λ p. p.1) f)) in
            more-ChangedAll key v changed s s1 _ m.0 c (g s1 c.restartable h)

    reveal-IsMap-none :
        (j : String) (keys : Keys) (old : Dict String) (config : Dict JsonValue)
        → lookup j config ≡ none
        → lookup j (reveal keys old config) ≡ none
    unfolding reveal lookup
    reveal-IsMap-none j keys old [] h = refl
    reveal-IsMap-none j keys old ((k, v) ∷ config) h =
        let rest = reveal-IsMap-none j keys old config (ground (arith, h)) in
        ground (arith, h, rest)

    reveal-IsMap :
        (keys : Keys) (old : Dict String) (config : Dict JsonValue)
        → IsMap config
        → IsMap (reveal keys old config)
    unfolding reveal
    reveal-IsMap keys old [] m = tt
    reveal-IsMap keys old ((k, v) ∷ config) m =
        elim (Bool-cases (is_hidden k keys && is_true_flag v)) [
          | inl y ↦ rw y (reveal-IsMap-none k keys old config m.0, reveal-IsMap keys old config m.1)
          | inr n ↦ rw n (reveal-IsMap-none k keys old config m.0, reveal-IsMap keys old config m.1)
        ]

    reveal-plain :
        (j : String) (keys : Keys) (old : Dict String) (config : Dict JsonValue)
        → is_hidden j keys ≡ false
        → lookup j (reveal keys old config) ≡ lookup j config
    unfolding reveal lookup
    reveal-plain j keys old [] h = refl
    reveal-plain j keys old ((k, v) ∷ config) h =
        let rest = reveal-plain j keys old config h in
        elim (Bool-cases (str_eq k j)) [
          | inl y ↦
              let same : k ≡ j = ground (arith, eq_iff k j, y) in
              let shown : is_hidden k keys ≡ false =
                subst (λ x. is_hidden x keys ≡ false) (sym same) h in
              ground (arith, shown, y)
          | inr n ↦ ground (arith, n, rest)
        ]

    Restartable-shown :
        (s : State W) (j : String)
        → Restartable s
        → str_eq j password_name ≡ false
        → is_hidden j s.keys ≡ false
    unfolding is_hidden
    Restartable-shown s j r n = by_key (lookup j s.keys) refl
      where
        by_key :
            (o : Option ConfigKey)
            → lookup j s.keys ≡ o
            → elim o as (λ _. Bool) [ none ↦ false | some k ↦ k.hidden_value ] ≡ false
        by_key none e = refl
        by_key (some k) e = (Restartable-IsPlain s j k r n e).1

    put-ChangedAll :
        (config : Dict JsonValue) (s : State W)
        → IsMap config
        → Restartable s
        → (api10_put host config s).1 ≡ none
        → ChangedAll
            (difference s.table (reveal s.keys s.table config))
            s
            (api10_put host config s).0
    unfolding api10_put
    put-ChangedAll config s m r h =
        change_all-ChangedAll (difference s.table (reveal s.keys s.table config)) s
          (difference-IsMap s.table (reveal s.keys s.table config)) r h

    -- A request that succeeds, on a daemon whose keys are those that it would load from the database: so
    -- they are afterwards.
    pub api10_put-Restartable :
        (config : Dict JsonValue) (s : State W)
        → IsMap config
        → Restartable s
        → (api10_put host config s).1 ≡ none
        → Restartable (api10_put host config s).0
    api10_put-Restartable config s m r h = (put-ChangedAll config s m r h).restartable

    -- A request that succeeds, on a daemon whose keys are those that it would load from the database:
    -- under every name but that of the password the database then has the text that the request has
    -- there, and no text where the request has none or null.
    pub api10_put_applies :
        (config : Dict JsonValue) (s : State W) (name : String)
        → IsMap config
        → Restartable s
        → str_eq name "core.trust_password" ≡ false
        → (api10_put host config s).1 ≡ none
        → text_of (requested name config) ≡ some (old_value name (api10_put host config s).0.table)
    api10_put_applies config s name m r n h =
        let a = put-ChangedAll config s m r h in
        let revealed = reveal s.keys s.table config in
        let maps = reveal-IsMap s.keys s.table config m in
        let plain : requested name revealed ≡ requested name config =
          ap (λ o. elim o as (λ _. JsonValue) [ none ↦ absent | some v ↦ v ])
            (reveal-plain name s.keys s.table config (Restartable-shown s name r n)) in
        elim (Option-cases (lookup name (difference s.table revealed))) [
          | inl e ↦
              ap text_of (sym plain)
              ∙ difference-none name s.table revealed r.one_each maps e
              ∙ ap some (sym (a.others name e))
          | inr found ↦
              let (v, e) = found in
              ap text_of
                (sym plain ∙ sym (difference-some name s.table revealed v r.one_each maps e))
              ∙ a.those name v n e
        ]
