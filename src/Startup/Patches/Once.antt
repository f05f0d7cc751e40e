-- ===== src/Startup/Patches/Once.antt =====
-- Each patch is run once.
use Prim.Native.String.{String}
use text.Mathlib.TextEquality.{eq_iff}
use lxd_pkg_ubuntu.Prelude.{
  ◌≡◌, ◌∙◌, ap, sym, refl, subst, inl, inr, arith, Bool, true, false, ◌||◌, if◌then◌else◌, List, [],
  ◌∷◌, ◌++◌, append_assoc, append-nil, All, Option, none, some, Bool-cases,
}
use lxd_pkg_ubuntu.Text.{string_in_slice}
use lxd_pkg_ubuntu.Startup.Patches.{Error, State, Host, apply, apply_each, patches_apply_all}

-- The names that are not applied yet.
abbrev pub pending : (applied names : List String) → List String
pending applied [] = []
pending applied (n ∷ ns) =
    if string_in_slice n applied then pending applied ns else n ∷ pending applied ns

in-append :
    (n : String) (xs ys : List String)
    → string_in_slice n (xs ++ ys) ≡ (string_in_slice n xs || string_in_slice n ys)
unfolding string_in_slice
in-append n [] ys = refl
in-append n (x ∷ xs) ys = let rest = in-append n xs ys in ground (arith, rest)

abbrev In : List String → String → Type 0
In rows n = string_in_slice n rows ≡ true

in-self : (before names : List String) → All (In (before ++ names)) names
unfolding string_in_slice
in-self before [] = tt
in-self before (n ∷ ns) =
    let here = in-append n before (n ∷ ns) in
    (
      ground (arith, here, eq_iff n n),
      subst (λ l. All (In l) ns) (append_assoc before (n ∷ []) ns) (in-self (before ++ n ∷ []) ns),
    )

pick :
    (rows more : List String) (n : String) (ns : List String) (b : Bool)
    → string_in_slice n rows ≡ b
    → (All (In (rows ++ more)) (pending rows ns) → All (In (rows ++ more)) ns)
    → All (In (rows ++ more)) (if b then pending rows ns else n ∷ pending rows ns)
    → All (In (rows ++ more)) (n ∷ ns)
pick rows more n ns true e f k = let here = in-append n rows more in (ground (arith, here, e), f k)
pick rows more n ns false e f k = (k.0, f k.1)

-- All names are applied or pending.
all-in :
    (rows more names : List String)
    → All (In (rows ++ more)) (pending rows names)
    → All (In (rows ++ more)) names
all-in rows more [] h = tt
all-in rows more (n ∷ ns) h =
    pick rows more n ns (string_in_slice n rows) refl (all-in rows more ns) h

module _ {W : Type 0} (host : Host W) where
  apply-rows :
      (name : String) (s : State W)
      → (apply host name s).1 ≡ none
      → (apply host name s).0.rows ≡ s.rows ++ name ∷ []
  unfolding apply
  apply-rows name s h = elim (Bool-cases (host.run name s.world).1) [
    | inl y ↦ elim (Bool-cases (host.mark_fails name (host.run name s.world).0)) [
      | inl f ↦ absurd (ground (arith, h, y, f))
      | inr m ↦ cc (y, m)
    ]
    | inr n ↦ absurd (ground (arith, h, n))
  ]

  each-rows :
      (applied names : List String) (s : State W)
      → (apply_each host applied names s).1 ≡ none
      → (apply_each host applied names s).0.rows ≡ s.rows ++ pending applied names
  unfolding apply_each
  each-rows applied [] s h = sym (append-nil s.rows)
  each-rows applied (n ∷ ns) s h =
      by_row (string_in_slice n applied) (apply host n s) (apply-rows n s) (each-rows applied ns s)
        (each-rows applied ns (apply host n s).0) h
    where
      by_row :
          (b : Bool) (first : State W × Option Error)
          → (first.1 ≡ none → first.0.rows ≡ s.rows ++ n ∷ [])
          → ((apply_each host applied ns s).1 ≡ none
              → (apply_each host applied ns s).0.rows ≡ s.rows ++ pending applied ns)
          → ((apply_each host applied ns first.0).1 ≡ none
              → (apply_each host applied ns first.0).0.rows ≡ first.0.rows ++ pending applied ns)
          → (if b
              then apply_each host applied ns s
              else elim first.1 as (λ _. State W × Option Error) [
                | some e ↦ first
                | none ↦ apply_each host applied ns first.0
              ]).1
            ≡ none
          → (if b
              then apply_each host applied ns s
              else elim first.1 as (λ _. State W × Option Error) [
                | some e ↦ first
                | none ↦ apply_each host applied ns first.0
              ]).0.rows
            ≡ s.rows ++ (if b then pending applied ns else n ∷ pending applied ns)
      by_row true first f g k e = g e
      by_row false (s1, some x) f g k e = cc e
      by_row false (s1, none) f g k e =
          k e
          ∙ ap (λ l. l ++ pending applied ns) (f refl)
          ∙ append_assoc s.rows (n ∷ []) (pending applied ns)

  each-none :
      (applied names : List String) (s : State W)
      → All (In applied) names
      → apply_each host applied names s ≡ (s, none)
  unfolding apply_each
  each-none applied [] s h = refl
  each-none applied (n ∷ ns) s h = let rest = each-none applied ns s h.1 in cc (h.0, rest)

  -- When all patches have been applied without an error, those that were not in the table before are in it,
  -- after the others and in their order; and as long as the table can be read, applying them again runs
  -- none of them.
  pub patches_apply_all-once :
      (names : List String) (s : State W)
      → (patches_apply_all host names s).1 ≡ none
      → ((patches_apply_all host names s).0.rows ≡ s.rows ++ pending s.rows names)
        × (host.read_fails (patches_apply_all host names s).0.world ≡ false
            → patches_apply_all host names (patches_apply_all host names s).0
              ≡ ((patches_apply_all host names s).0, none))
  unfolding patches_apply_all
  patches_apply_all-once names s h = elim (Bool-cases (host.read_fails s.world)) [
    | inl y ↦ absurd (ground (arith, h, y))
    | inr n ↦
        let done = each-rows s.rows names s (ground (arith, h, n)) in
        rw n (
          done,
          λ r.
              let again =
                each-none (s.rows ++ pending s.rows names) names (apply_each host s.rows names s).0
                  (all-in s.rows (pending s.rows names) names
                    (in-self s.rows (pending s.rows names))) in
              cc (r, done, again),
        )
  ]
