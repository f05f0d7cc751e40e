-- ===== src/Proxy/Bypass.antt =====
-- The domains that are reached without a proxy.
use lxd_pkg_ubuntu.Prelude.{
  ℕ, ◌≡◌, ◌≢◌, ◌⊎◌, ◌↔◌, ◌∙◌, ap, sym, refl, inl, inr, arith, Bool, true, false, ◌||◌,
  if◌then◌else◌, ◌==◌, List, [], ◌∷◌, ◌++◌, All, Bool-cases,
}
use lxd_pkg_ubuntu.Text.{has_suffix, same_codes}
use lxd_pkg_ubuntu.Text.Affix.{same_codes_refl, same_codes_eq, has_suffix-append}
use lxd_pkg_ubuntu.Proxy.{has_port, normal, matches, Answer, proxied, direct, panicked, use_loop}

-- An entry that is the name of a domain: not empty, without a port, and with no dot in front.
pub record IsDomain (entry : List ℕ) : Type 0 where
  pub first : ℕ
  pub others : List ℕ
  pub name : normal entry ≡ first ∷ others
  pub no_port : has_port (first ∷ others) ≡ false
  pub no_dot : (first == 46) ≡ false

-- The address is the domain, or one below it.
abbrev pub IsIn : (addr entry : List ℕ) → Type 0
IsIn addr entry = (addr ≡ normal entry) ⊎ ((sub : List ℕ) × (addr ≡ sub ++ (46 ∷ normal entry)))

pub data SomeIn (addr : List ℕ) : List (List ℕ) → Type 0 where
  here :
      (entry : List ℕ) (entries : List (List ℕ)) → IsIn addr entry → SomeIn addr (entry ∷ entries)
  there :
      (entry : List ℕ) (entries : List (List ℕ))
      → SomeIn addr entries
      → SomeIn addr (entry ∷ entries)

suffix-some :
    (s : List ℕ) (c : ℕ) (t : List ℕ)
    → has_suffix s (c ∷ t) ≡ true
    → (sub : List ℕ) × (s ≡ sub ++ (c ∷ t))
unfolding has_suffix same_codes
suffix-some [] c t h = cc h
suffix-some (d ∷ ds) c t h = elim (Bool-cases (same_codes (d ∷ ds) (c ∷ t))) [
  | inl y ↦ ([], same_codes_eq (d ∷ ds) (c ∷ t) y)
  | inr n ↦ let (sub, e) = suffix-some ds c t (ground (arith, h, n)) in (d ∷ sub, ap (λ l. d ∷ l) e)
]

-- What one entry decides, as a test.
abbrev covers : (addr name : List ℕ) → Bool
covers addr name = same_codes addr name || has_suffix addr (46 ∷ name)

covers-IsIn : (addr entry : List ℕ) → covers addr (normal entry) ≡ true → IsIn addr entry
covers-IsIn addr entry h = elim (Bool-cases (same_codes addr (normal entry))) [
  | inl y ↦ inl (same_codes_eq addr (normal entry) y)
  | inr n ↦ inr (suffix-some addr 46 (normal entry) (ground (arith, h, n)))
]

IsIn-covers : (addr entry : List ℕ) → IsIn addr entry → covers addr (normal entry) ≡ true
IsIn-covers addr entry (inl e) =
    let same = same_codes_refl (normal entry) in rw e (ground (arith, same))
IsIn-covers addr entry (inr (sub, e)) =
    let suffix = has_suffix-append sub 46 (normal entry) in rw e (ground (arith, suffix))

-- One round of the loop.
loop_round :
    (addr entry : List ℕ) (entries : List (List ℕ))
    → IsDomain entry
    → use_loop addr (entry ∷ entries)
      ≡ (if covers addr (normal entry) then direct else use_loop addr entries)
unfolding use_loop matches
loop_round addr entry entries d =
    let n = d.name in
    let p = d.no_port in
    let dot = d.no_dot in
    elim (Bool-cases (same_codes addr (d.first ∷ d.others))) [
      | inl y ↦ cc (n, p, y)
      | inr k ↦ elim (Bool-cases (has_suffix addr (46 ∷ d.first ∷ d.others))) [
        | inl y ↦ cc (n, p, dot, k, y)
        | inr m ↦ cc (n, p, dot, k, m)
      ]
    ]

-- With the names of domains as entries, the loop never panics, and it finds an address to be reached
-- directly exactly if it is one of the domains or below one.
pub use_loop_exact :
    (addr : List ℕ) (entries : List (List ℕ))
    → All IsDomain entries
    → (use_loop addr entries ≢ panicked) × ((use_loop addr entries ≡ direct) ↔ SomeIn addr entries)
unfolding use_loop
use_loop_exact addr [] h = (λ e. cc e, (λ e. cc e, λ s. no_entry s))
  where
    no_entry : {x : Answer} → SomeIn addr [] → proxied ≡ x
    no_entry s = absurd (elim s [ ])
use_loop_exact addr (entry ∷ entries) h =
    by_entry (covers addr (normal entry)) refl (loop_round addr entry entries h.0)
      (use_loop_exact addr entries h.1)
  where
    by_entry :
        (b : Bool)
        → covers addr (normal entry) ≡ b
        → use_loop addr (entry ∷ entries) ≡ (if b then direct else use_loop addr entries)
        → (use_loop addr entries ≢ panicked)
          × ((use_loop addr entries ≡ direct) ↔ SomeIn addr entries)
        → (use_loop addr (entry ∷ entries) ≢ panicked)
          × ((use_loop addr (entry ∷ entries) ≡ direct) ↔ SomeIn addr (entry ∷ entries))
    by_entry true e r rest =
        (λ p. cc (r, p), (λ d. here entry entries (covers-IsIn addr entry e), λ s. r))
    by_entry false e r rest = (
      λ p. rest.0 (sym r ∙ p),
      (λ d. there entry entries (rest.1.0 (sym r ∙ d)), λ s. r ∙ rest.1.1 (later s)),
    )
      where
        later : SomeIn addr (entry ∷ entries) → SomeIn addr entries
        later (here _ _ i) = let c = IsIn-covers addr entry i in absurd (ground (arith, c, e))
        later (there _ _ s) = s
