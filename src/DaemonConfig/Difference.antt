-- ===== src/DaemonConfig/Difference.antt =====
-- The difference of the stored and the requested configuration.
use Prim.Native.String.{String}
use text.Mathlib.Text.{◌==◌ as str_eq}
use text.Mathlib.TextEquality.{eq_iff}
use lxd_pkg_ubuntu.Prelude.{
  ◌≡◌, refl, sym, ap, ◌∙◌, subst, inl, inr, arith, Bool, true, false, not, if◌then◌else◌, [], ◌∷◌,
  Option, none, some, Bool-cases,
}
use lxd_pkg_ubuntu.Prelude.Dict.{Dict, lookup, put, IsMap, lookup-put, put-IsMap}
use lxd_pkg_ubuntu.DaemonConfig.Init.{JsonValue, absent, string_value, flag, other}
use lxd_pkg_ubuntu.DaemonConfig.Put.{
  old_value, requested, is_text, changed_old, changed_new, difference, text_of,
}

abbrev differs : Option String → JsonValue → Bool
differs none v = false
differs (some t) v = not (is_text v t)

lookup-changed_old :
    (j : String) (config : Dict JsonValue) (old : Dict String) (changed : Dict JsonValue)
    → IsMap old
    → lookup j (changed_old config old changed) ≡ (
        if differs (lookup j old) (requested j config)
        then some (requested j config)
        else lookup j changed)
unfolding changed_old lookup
lookup-changed_old j config [] changed m = refl
lookup-changed_old j config ((k, v) ∷ old) changed m =
    let added = put k (requested k config) changed in
    let kept = lookup-changed_old j config old changed m.1 in
    let more = lookup-changed_old j config old added m.1 in
    let here = lookup-put k j (requested k config) changed in
    elim (Bool-cases (str_eq k j)) [
      | inl y ↦
          let same : k ≡ j = ground (arith, eq_iff k j, y) in
          let gone : lookup j old ≡ none = subst (λ n. lookup n old ≡ none) same m.0 in
          let asked : requested k config ≡ requested j config = ap (λ n. requested n config) same in
          elim (Bool-cases (is_text (requested k config) v)) [
            | inl t ↦
                let t' : is_text (requested j config) v ≡ true =
                  ap (λ r. is_text r v) (sym asked) ∙ t in
                cc (y, t, t', gone, kept)
            | inr f ↦
                let f' : is_text (requested j config) v ≡ false =
                  ap (λ r. is_text r v) (sym asked) ∙ f in
                cc (y, f, f', gone, more, here, asked)
          ]
      | inr n ↦ elim (Bool-cases (is_text (requested k config) v)) [
        | inl t ↦ cc (n, t, kept)
        | inr f ↦ cc (n, f, more, here)
      ]
    ]

abbrev renewed : Option JsonValue → String → Option JsonValue → Option JsonValue
renewed none old rest = rest
renewed (some v) old rest = if not (is_text v old) then some v else rest

lookup-changed_new :
    (j : String) (old : Dict String) (config changed : Dict JsonValue)
    → IsMap config
    → lookup j (changed_new old config changed)
      ≡ renewed (lookup j config) (old_value j old) (lookup j changed)
unfolding changed_new lookup
lookup-changed_new j old [] changed m = refl
lookup-changed_new j old ((k, v) ∷ config) changed m =
    let kept = lookup-changed_new j old config changed m.1 in
    let more = lookup-changed_new j old config (put k v changed) m.1 in
    let here = lookup-put k j v changed in
    elim (Bool-cases (str_eq k j)) [
      | inl y ↦
          let same : k ≡ j = ground (arith, eq_iff k j, y) in
          let gone : lookup j config ≡ none = subst (λ n. lookup n config ≡ none) same m.0 in
          let had : old_value k old ≡ old_value j old = ap (λ n. old_value n old) same in
          elim (Bool-cases (is_text v (old_value k old))) [
            | inl t ↦ cc (y, t, gone, kept, had)
            | inr f ↦ cc (y, f, gone, more, here, had)
          ]
      | inr n ↦ elim (Bool-cases (is_text v (old_value k old))) [
        | inl t ↦ cc (n, t, kept)
        | inr f ↦ cc (n, f, more, here)
      ]
    ]

is_text-text_of : (v : JsonValue) (t : String) → is_text v t ≡ true → text_of v ≡ some t
is_text-text_of absent t h = cc h
is_text-text_of (string_value u) t h = ap some (ground (arith, eq_iff u t, h))
is_text-text_of (flag b) t h = cc h
is_text-text_of other t h = cc h

put-grows :
    (k : String) (v : JsonValue) (b : Bool) (changed : Dict JsonValue)
    → IsMap changed
    → IsMap (if b then put k v changed else changed)
put-grows k v true changed m = put-IsMap k v changed m
put-grows k v false changed m = m

changed_old-IsMap :
    (config : Dict JsonValue) (old : Dict String) (changed : Dict JsonValue)
    → IsMap changed
    → IsMap (changed_old config old changed)
unfolding changed_old
changed_old-IsMap config [] changed m = m
changed_old-IsMap config ((k, v) ∷ old) changed m =
    changed_old-IsMap config old _
      (put-grows k (requested k config) (not (is_text (requested k config) v)) changed m)

changed_new-IsMap :
    (old : Dict String) (config changed : Dict JsonValue)
    → IsMap changed
    → IsMap (changed_new old config changed)
unfolding changed_new
changed_new-IsMap old [] changed m = m
changed_new-IsMap old ((k, v) ∷ config) changed m =
    changed_new-IsMap old config _ (put-grows k v (not (is_text v (old_value k old))) changed m)

pub difference-IsMap : (old : Dict String) (config : Dict JsonValue) → IsMap (difference old config)
unfolding difference
difference-IsMap old config = changed_new-IsMap old config _ (changed_old-IsMap config old [] tt)

-- A name that is not in the difference has the requested value already.
pub difference-none :
    (j : String) (old : Dict String) (config : Dict JsonValue)
    → IsMap old
    → IsMap config
    → lookup j (difference old config) ≡ none
    → text_of (requested j config) ≡ some (old_value j old)
unfolding difference lookup
difference-none j old config m n h =
    let new = lookup-changed_new j old config (changed_old config old []) n in
    let before = lookup-changed_old j config old [] m in
    cases (lookup j config) (lookup j old) (sym new ∙ h) before
  where
    cases :
        (c : Option JsonValue) (o : Option String) {changed : Option JsonValue}
        → renewed c (elim o [ none ↦ "" | some v ↦ v ]) changed ≡ none
        → changed ≡ (
            if differs o (elim c [ none ↦ absent | some v ↦ v ])
            then some (elim c [ none ↦ absent | some v ↦ v ])
            else none)
        → text_of (elim c [ none ↦ absent | some v ↦ v ]) ≡ some (elim o [ none ↦ "" | some v ↦ v ])
    cases none none r b = refl
    cases none (some t) r b = cc (r, b)
    cases (some v) none r b = is_text-text_of v "" (ground (arith, r))
    cases (some v) (some t) r b = is_text-text_of v t (ground (arith, r))

-- A name in the difference has the requested value there.
pub difference-some :
    (j : String) (old : Dict String) (config : Dict JsonValue) (v : JsonValue)
    → IsMap old
    → IsMap config
    → lookup j (difference old config) ≡ some v
    → v ≡ requested j config
unfolding difference lookup
difference-some j old config v m n h =
    let new = lookup-changed_new j old config (changed_old config old []) n in
    let before = lookup-changed_old j config old [] m in
    cases (lookup j config) (lookup j old) (sym new ∙ h) before
  where
    cases :
        (c : Option JsonValue) (o : Option String) {changed : Option JsonValue}
        → renewed c (elim o [ none ↦ "" | some v ↦ v ]) changed ≡ some v
        → changed ≡ (
            if differs o (elim c [ none ↦ absent | some v ↦ v ])
            then some (elim c [ none ↦ absent | some v ↦ v ])
            else none)
        → v ≡ elim c [ none ↦ absent | some v ↦ v ]
    cases none none r b = cc (r, b)
    cases none (some t) r b = cc (r, b)
    cases (some w) none r b = ground (arith, r, b)
    cases (some w) (some t) r b = ground (arith, r, b)
