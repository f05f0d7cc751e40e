-- ===== src/Expand/Layers.antt =====
-- The last layer that has a key decides on it.
use Prim.Native.String.{String}
use text.Mathlib.TextEquality.{eq_iff}
use mathlib.Core.List.{Memᴰ}
use lxd_pkg_ubuntu.Prelude.{
  ◌≡◌, ◌⊎◌, ◌∙◌, ap, refl, inl, inr, arith, Option, none, some, List, [], ◌∷◌, ◌++◌, All,
  All-append, subst, Option-cases, Result, ok, err, Result-cases,
}
use lxd_pkg_ubuntu.Prelude.Dict.{Dict, IsMap, lookup, put, lookup-put}
use lxd_pkg_ubuntu.Devices.{Devices}
use lxd_pkg_ubuntu.Expand.{
  Container, put_all, apply_profiles, expand, expand_config, expand_devices,
}

module _ {V : Type 0} where
  Lacks : String → Dict V → Type 0
  Lacks k layer = lookup k layer ≡ none

  -- The value is that of the last layer with the key.
  pub record IsLast (k : String) (v : V) (layers : List (Dict V)) : Type 0 where
    pub lower : List (Dict V)
    pub layer : Dict V
    pub upper : List (Dict V)
    pub parts : layers ≡ lower ++ layer ∷ upper
    pub found : lookup k layer ≡ some v
    pub free : All (λ l. lookup k l ≡ none) upper

  -- What stands under a key of a map that is stacked up from layers.
  abbrev pub Decided : String → List (Dict V) → Dict V → Type 0
  Decided k layers m =
      (All (λ l. lookup k l ≡ none) layers × (lookup k m ≡ none))
      ⊎ ((v : V) × IsLast k v layers × (lookup k m ≡ some v))

  abbrev or_else : Option V → Option V → Option V
  or_else none base = base
  or_else (some v) base = some v

  lookup-put_all :
      (from m : Dict V) (k : String)
      → IsMap from
      → lookup k (put_all from m) ≡ or_else (lookup k from) (lookup k m)
  unfolding put_all lookup
  lookup-put_all [] m k h = refl
  lookup-put_all ((j, v) ∷ from) m k h =
      lookup-put_all from (put j v m) k h.1 ∙ ground (arith, eq_iff j k, lookup-put j k v m, h.0)

  put_each : List (Dict V) → Dict V → Dict V
  put_each [] m = m
  put_each (l ∷ layers) m = put_each layers (put_all l m)

  lookup-put_each :
      (layers : List (Dict V)) (m : Dict V) (k : String)
      → All IsMap layers
      → (All (λ l. lookup k l ≡ none) layers × (lookup k (put_each layers m) ≡ lookup k m))
        ⊎ ((v : V) × IsLast k v layers × (lookup k (put_each layers m) ≡ some v))
  unfolding put_each
  lookup-put_each [] m k h = inl (tt, refl)
  lookup-put_each (l ∷ layers) m k h = elim (lookup-put_each layers (put_all l m) k h.1) [
    | inr (v, d, e) ↦ inr (
      v,
      record {
        lower = l ∷ d.lower;
        layer = d.layer;
        upper = d.upper;
        parts = ap (λ ls. l ∷ ls) d.parts;
        found = d.found;
        free = d.free;
      },
      e,
    )
    | inl (absent, e) ↦ elim (Option-cases (lookup k l)) [
      | inl n ↦ inl ((n, absent), e ∙ lookup-put_all l m k h.0 ∙ ap (λ o. or_else o (lookup k m)) n)
      | inr (v, p) ↦ inr (
        v,
        record { lower = []; layer = l; upper = layers; parts = refl; found = p; free = absent },
        e ∙ lookup-put_all l m k h.0 ∙ ap (λ o. or_else o (lookup k m)) p,
      )
    ]
  ]

  put_each-append :
      (layers : List (Dict V)) (m local : Dict V)
      → put_each (layers ++ local ∷ []) m ≡ put_all local (put_each layers m)
  unfolding put_each
  put_each-append [] m local = refl
  put_each-append (l ∷ layers) m local = put_each-append layers (put_all l m) local

  each-Decided :
      (layers : List (Dict V)) (local : Dict V) (k : String)
      → All IsMap (layers ++ local ∷ [])
      → Decided k (layers ++ local ∷ []) (put_all local (put_each layers []))
  unfolding lookup
  each-Decided layers local k maps =
      subst (Decided k (layers ++ local ∷ [])) (put_each-append layers [] local)
        (lookup-put_each (layers ++ local ∷ []) [] k maps)

  module _ {E : Type 0} (profile : String → Result E (Dict V)) where
    -- The maps of the profiles with these names.
    pub data AreLoaded : List String → List (Dict V) → Type 0 where
      nothing : AreLoaded [] []
      next :
          (name : String) (names : List String) (m : Dict V) (ms : List (Dict V))
          → profile name ≡ ok m
          → AreLoaded names ms
          → AreLoaded (name ∷ names) (m ∷ ms)

    -- A profile that cannot be read.
    abbrev pub Fails : List String → E → Type 0
    Fails names e = (name : String) × Memᴰ name names × (profile name ≡ err e)

    apply_profiles-cases :
        (names : List String) (m : Dict V)
        → ((layers : List (Dict V)) × AreLoaded names layers
            × (apply_profiles profile names m ≡ ok (put_each layers m)))
          ⊎ ((e : E) × Fails names e × (apply_profiles profile names m ≡ err e))
    unfolding apply_profiles put_each
    apply_profiles-cases [] m = inl ([], nothing, refl)
    apply_profiles-cases (name ∷ names) m = elim (Result-cases (profile name)) [
      | inr (e, p) ↦ inr (e, (name, Memᴰ.head refl, p), cc p)
      | inl (l, p) ↦ elim (apply_profiles-cases names (put_all l m)) [
        | inl (layers, d, q) ↦ inl (l ∷ layers, next name names l layers p d, cc (p, q))
        | inr (e, (n, i, f), q) ↦ inr (e, (n, Memᴰ.tail i, f), cc (p, q))
      ]
    ]

    loaded-IsMap :
        ((name : String) (m : Dict V) → profile name ≡ ok m → IsMap m)
        → {names : List String} {layers : List (Dict V)} → AreLoaded names layers
        → All IsMap layers
    loaded-IsMap maps nothing = tt
    loaded-IsMap maps (next name names m ms p d) = (maps name m p, loaded-IsMap maps d)

    -- What `expand` comes to: the layers are the profiles, in order, and the container's own values.
    expand-cases :
        (names : List String) (local : Dict V)
        → ((name : String) (m : Dict V) → profile name ≡ ok m → IsMap m)
        → IsMap local
        → ((layers : List (Dict V)) × AreLoaded names layers
            × ((m : Dict V) × (expand profile names local ≡ ok m)
                × ((k : String) → Decided k (layers ++ local ∷ []) m)))
          ⊎ ((e : E) × Fails names e × (expand profile names local ≡ err e))
    unfolding expand
    expand-cases names local maps own = elim (apply_profiles-cases names []) [
      | inr (e, f, p) ↦ inr (e, f, cc p)
      | inl (layers, d, p) ↦ inl (
        layers,
        d,
        (
          put_all local (put_each layers []),
          cc p,
          λ k.
              each-Decided layers local k
                (All-append IsMap layers (local ∷ []) (loaded-IsMap maps d) (own, tt)),
        ),
      )
    ]

-- Where the maps have one entry for each key, `expandConfig` either fails with the error of a profile
-- that cannot be read and leaves the container as it was, or it changes only the expanded
-- configuration, which has exactly the keys of the profiles and of the container itself, each with
-- the value of the last profile that has it, or with the container's own if there is one.
pub expand_config_exact :
    {E : Type 0} (profile_config : String → Result E (Dict String)) (c : Container)
    → ((name : String) (m : Dict String) → profile_config name ≡ ok m → IsMap m)
    → IsMap c.local_config
    → ((layers : List (Dict String)) × AreLoaded profile_config c.profiles layers
        × ((m : Dict String) × (expand_config profile_config c
              ≡ (record c { expanded_config = m }, none))
            × ((k : String) → Decided k (layers ++ c.local_config ∷ []) m)))
      ⊎ ((e : E) × Fails profile_config c.profiles e
          × (expand_config profile_config c ≡ (c, some e)))
unfolding expand_config
expand_config_exact profile_config c maps own =
    elim (expand-cases profile_config c.profiles c.local_config maps own) [
      | inl (layers, d, (m, p, k)) ↦ inl (layers, d, (m, cc p, k))
      | inr (e, f, p) ↦ inr (e, f, cc p)
    ]

-- The same for the devices.
pub expand_devices_exact :
    {E : Type 0} (profile_devices : String → Result E Devices) (c : Container)
    → ((name : String) (m : Devices) → profile_devices name ≡ ok m → IsMap m)
    → IsMap c.local_devices
    → ((layers : List Devices) × AreLoaded profile_devices c.profiles layers
        × ((m : Devices) × (expand_devices profile_devices c
              ≡ (record c { expanded_devices = m }, none))
            × ((k : String) → Decided k (layers ++ c.local_devices ∷ []) m)))
      ⊎ ((e : E) × Fails profile_devices c.profiles e
          × (expand_devices profile_devices c ≡ (c, some e)))
unfolding expand_devices
expand_devices_exact profile_devices c maps own =
    elim (expand-cases profile_devices c.profiles c.local_devices maps own) [
      | inl (layers, d, (m, p, k)) ↦ inl (layers, d, (m, cc p, k))
      | inr (e, f, p) ↦ inr (e, f, cc p)
    ]
