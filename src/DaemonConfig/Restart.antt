-- ===== src/DaemonConfig/Restart.antt =====
-- The daemon that is started again has the configuration it had.
use Prim.Native.String.{String}
use text.Mathlib.Text.{◌==◌ as str_eq}
use text.Mathlib.TextEquality.{eq_iff}
use lxd_pkg_ubuntu.Prelude.{
  ◌≡◌, refl, sym, ap, ◌∙◌, subst, inl, inr, arith, Bool, true, false, ◌&&◌, if◌then◌else◌, [], ◌∷◌,
  Option, none, some, Bool-cases, Option-cases,
}
use lxd_pkg_ubuntu.Prelude.Dict.{Dict, lookup, IsMap}
use lxd_pkg_ubuntu.DaemonConfig.{ConfigKey, Keys, set_current, State, Host, set}
use lxd_pkg_ubuntu.DaemonConfig.Init.{all_keys, load_values, daemon_config_init}
use lxd_pkg_ubuntu.DaemonConfig.Put.{old_value}
use lxd_pkg_ubuntu.DaemonConfig.Update.{lookup-set_current, Wrote, InStep}
use lxd_pkg_ubuntu.DaemonConfig.Consistent.{set-Done}

abbrev loaded : Dict String → Keys → Keys
loaded t [] = []
loaded t ((n, k) ∷ ks) =
    (n, record k { current_value = elim (lookup n t) [ none ↦ k.current_value | some v ↦ v ] })
    ∷ loaded t ks

abbrev pub as_stored : Dict String → Keys → Keys
as_stored t [] = []
as_stored t ((n, k) ∷ ks) = (n, record k { current_value = old_value n t }) ∷ as_stored t ks

loaded-nil : (ks : Keys) → loaded [] ks ≡ ks
unfolding lookup
loaded-nil [] = refl
loaded-nil ((n, k) ∷ ks) = ap (λ l. (n, k) ∷ l) (loaded-nil ks)

loaded-fresh :
    (k v : String) (t : Dict String) (ks : Keys)
    → lookup k ks ≡ none
    → loaded ((k, v) ∷ t) ks ≡ loaded t ks
unfolding lookup
loaded-fresh k v t [] h = refl
loaded-fresh k v t ((n, i) ∷ ks) h =
    let apart : str_eq k n ≡ false = ground (arith, h, eq_iff k n, eq_iff n k) in
    let rest = loaded-fresh k v t ks (ground (arith, h)) in rw (apart, rest) refl

set_current-none :
    (k j v : String) (ks : Keys) → lookup j ks ≡ none → lookup j (set_current k v ks) ≡ none
set_current-none k j v ks h = let here = lookup-set_current k j v ks in ground (arith, here, h)

set_current-IsMap : (k v : String) (ks : Keys) → IsMap ks → IsMap (set_current k v ks)
unfolding set_current
set_current-IsMap k v [] h = tt
set_current-IsMap k v ((j, i) ∷ ks) h = elim (Bool-cases (str_eq j k)) [
  | inl y ↦ rw y h
  | inr n ↦ rw n (set_current-none k j v ks h.0, set_current-IsMap k v ks h.1)
]

loaded-set :
    (k v : String) (t : Dict String) (ks : Keys)
    → lookup k t ≡ none
    → IsMap ks
    → loaded t (set_current k v ks) ≡ loaded ((k, v) ∷ t) ks
unfolding set_current lookup
loaded-set k v t [] f m = refl
loaded-set k v t ((j, i) ∷ ks) f m = elim (Bool-cases (str_eq j k)) [
  | inl y ↦
      let same : j ≡ k = ground (arith, eq_iff j k, y) in
      let here : str_eq k k ≡ true = ground (arith, eq_iff k k) in
      let rest = loaded-fresh k v t ks (subst (λ n. lookup n ks ≡ none) same m.0) in
      let gone : lookup j t ≡ none = subst (λ n. lookup n t ≡ none) (sym same) f in
      cc (y, same, here, gone, rest)
  | inr n ↦
      let apart : str_eq k j ≡ false = ground (arith, eq_iff j k, eq_iff k j, n) in
      rw (n, apart)
        (ap
          (λ l.
            (
              j,
              record i {
                current_value = elim (lookup j t) [ none ↦ i.current_value | some w ↦ w ];
              },
            )
            ∷ l)
          (loaded-set k v t ks f m.1))
]

load-loaded : (t : Dict String) (ks : Keys) → IsMap t → IsMap ks → load_values t ks ≡ loaded t ks
unfolding load_values
load-loaded [] ks h m = sym (loaded-nil ks)
load-loaded ((k, v) ∷ t) ks h m =
    load-loaded t (set_current k v ks) h.1 (set_current-IsMap k v ks m) ∙ loaded-set k v t ks h.0 m

abbrev is_none : Option ConfigKey → Bool
is_none none = true
is_none (some k) = false

abbrev are_distinct : Keys → Bool
are_distinct [] = true
are_distinct ((n, k) ∷ ks) = is_none (lookup n ks) && are_distinct ks

none_of : (o : Option ConfigKey) → is_none o ≡ true → o ≡ none
none_of none h = refl
none_of (some k) h = cc h

distinct-IsMap : (ks : Keys) → are_distinct ks ≡ true → IsMap ks
distinct-IsMap [] h = tt
distinct-IsMap ((n, k) ∷ ks) h =
    (none_of (lookup n ks) (ground (arith, h)), distinct-IsMap ks (ground (arith, h)))

all_keys-IsMap : IsMap all_keys
unfolding lookup
all_keys-IsMap = distinct-IsMap all_keys refl

-- What is loaded from a table.
pub init-as_stored : (t : Dict String) → IsMap t → daemon_config_init t ≡ as_stored t all_keys
unfolding daemon_config_init
init-as_stored t h = load-loaded t all_keys h all_keys-IsMap

as_stored-fresh :
    (name stored : String) (t t' : Dict String) (ks : Keys)
    → ((j : String) → old_value j t' ≡ (if str_eq name j then stored else old_value j t))
    → lookup name ks ≡ none
    → as_stored t' ks ≡ as_stored t ks
unfolding lookup
as_stored-fresh name stored t t' [] w h = refl
as_stored-fresh name stored t t' ((j, i) ∷ ks) w h =
    let apart : str_eq name j ≡ false = ground (arith, h, eq_iff name j, eq_iff j name) in
    let here : old_value j t' ≡ old_value j t = ground (arith, w j, apart) in
    let rest = as_stored-fresh name stored t t' ks w (ground (arith, h)) in cc (here, rest)

as_stored-Wrote :
    (name stored : String) (t t' : Dict String) (ks : Keys)
    → ((j : String) → old_value j t' ≡ (if str_eq name j then stored else old_value j t))
    → IsMap ks
    → as_stored t' ks ≡ set_current name stored (as_stored t ks)
unfolding set_current
as_stored-Wrote name stored t t' [] w m = refl
as_stored-Wrote name stored t t' ((j, i) ∷ ks) w m = elim (Bool-cases (str_eq j name)) [
  | inl y ↦
      let same : j ≡ name = ground (arith, eq_iff j name, y) in
      let there : str_eq name j ≡ true = ground (arith, eq_iff name j, same) in
      let here : old_value j t' ≡ stored = ground (arith, w j, there) in
      let rest = as_stored-fresh name stored t t' ks w (subst (λ n. lookup n ks ≡ none) same m.0) in
      cc (y, here, rest)
  | inr n ↦
      let apart : str_eq name j ≡ false = ground (arith, eq_iff j name, eq_iff name j, n) in
      let here : old_value j t' ≡ old_value j t = ground (arith, w j, apart) in
      let rest = as_stored-Wrote name stored t t' ks w m.1 in cc (n, here, rest)
]

lookup-as_stored :
    (name : String) (t : Dict String) (ks : Keys) (k : ConfigKey)
    → lookup name (as_stored t ks) ≡ some k
    → k.current_value ≡ old_value name t
unfolding lookup
lookup-as_stored name t [] k h = cc h
lookup-as_stored name t ((j, i) ∷ ks) k h = elim (Bool-cases (str_eq j name)) [
  | inl y ↦
      let same : j ≡ name = ground (arith, eq_iff j name, y) in
      let this : k ≡ record i { current_value = old_value j t } = ground (arith, y, h) in
      rw (this, same) refl
  | inr n ↦ lookup-as_stored name t ks k (ground (arith, n, h))
]

module _ {W : Type 0} where
  -- A start of the daemon on the table would load the keys that it has.
  pub record Restartable (s : State W) : Type 0 where
    pub one_each : IsMap s.table
    pub keys : s.keys ≡ daemon_config_init s.table

  pub Restartable-InStep : (s : State W) → Restartable s → InStep s
  Restartable-InStep s r name k found =
      lookup-as_stored name s.table all_keys k
        (subst (λ ks. lookup name ks ≡ some k) (r.keys ∙ init-as_stored s.table r.one_each) found)

  Wrote-Restartable :
      (name stored : String) (s s' : State W)
      → Restartable s
      → Wrote name stored s s'
      → Restartable s'
  Wrote-Restartable name stored s s' r w = record {
    one_each = w.maps r.one_each;
    keys =
        w.keys
        ∙ ap (set_current name stored) (r.keys ∙ init-as_stored s.table r.one_each)
        ∙ sym (as_stored-Wrote name stored s.table s'.table all_keys w.table all_keys-IsMap)
        ∙ sym (init-as_stored s'.table (w.maps r.one_each));
  }

  module _ (host : Host W) where
    pub set-Restartable :
        (name value : String) (s : State W)
        → Restartable s
        → (set host name value s).1 ≡ none
        → Restartable (set host name value s).0
    unfolding set
    set-Restartable name value s r h = elim (Option-cases (lookup name s.keys)) [
      | inl none_found ↦ absurd (ground (arith, none_found, h))
      | inr found ↦
          let (k, e) = found in
          let d = set-Done host name value k s (Restartable-InStep s r) e h in
          Wrote-Restartable name d.stored s _ r d.wrote
    ]
