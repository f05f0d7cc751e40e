-- ===== src/Prelude/Lists.antt =====
-- Lists: predicates by recursion, and measures over the native numbers.
use Prim.Native.Nat.{ℕ, suc, ◌+◌}
use mathlib.Core.Path.{◌≡◌, refl, sym, subst}
use mathlib.Core.List.{Memᴰ}
use mathlib.Core.List.{List, [], ◌∷◌, ◌++◌}
use mathlib.Core.Bool.{Bool, false, true, ◌||◌}
use mathlib.Core.Logic.{inl, inr}
use lxd_pkg_ubuntu.Prelude.Tests.{Bool-cases}
use native.Mathlib.Omega.{arith}

module _ {ℓ} {A : Type ℓ} where
  abbrev pub length : List A → ℕ
  length [] = 0
  length (x ∷ xs) = suc (length xs)

  -- Some member passes the test.
  abbrev pub any : (A → Bool) → List A → Bool
  any p [] = false
  any p (x ∷ xs) = p x || any p xs

  pub any-append : (p : A → Bool) (xs ys : List A) → any p (xs ++ ys) ≡ (any p xs || any p ys)
  any-append p [] ys = refl
  any-append p (x ∷ xs) ys = let rest = any-append p xs ys in ground (arith, rest)

  pub length-append : (xs ys : List A) → length (xs ++ ys) ≡ length xs + length ys
  length-append [] ys = omega arith
  length-append (x ∷ xs) ys = omega (arith, length-append xs ys)

module _ {ℓ κ} {A : Type ℓ} where
  -- A predicate of every member; it computes to tuples.
  abbrev pub All : (A → Type κ) → List A → Type κ
  All P [] = Unit
  All P (x ∷ xs) = P x × All P xs

  pub All-append : (P : A → Type κ) (xs ys : List A) → All P xs → All P ys → All P (xs ++ ys)
  All-append P [] ys hx hy = hy
  All-append P (x ∷ xs) ys hx hy = (hx.0, All-append P xs ys hx.1 hy)

  pub All-front : (P : A → Type κ) (xs ys : List A) → All P (xs ++ ys) → All P xs
  All-front P [] ys h = tt
  All-front P (x ∷ xs) ys h = (h.0, All-front P xs ys h.1)

  pub All-back : (P : A → Type κ) (xs ys : List A) → All P (xs ++ ys) → All P ys
  All-back P [] ys h = h
  All-back P (x ∷ xs) ys h = All-back P xs ys h.1

pub All-Memᴰ {ℓ κ} : {A : Type ℓ} (P : A → Type κ) {x : A} (l : List A) → All P l → Memᴰ x l → P x
All-Memᴰ P (y ∷ l) h (Memᴰ.head p) = subst P (sym p) h.0
All-Memᴰ P (y ∷ l) h (Memᴰ.tail m) = All-Memᴰ P l h.1 m
All-Memᴰ P [] h m = elim m [ ]

pub All-map {ℓ κ} :
    {A : Type ℓ} (P Q : A → Type κ) (l : List A) → ((x : A) → P x → Q x) → All P l → All Q l
All-map P Q [] f h = tt
All-map P Q (x ∷ l) f h = (f x h.0, All-map P Q l f h.1)

pub All-self {ℓ} : {A : Type ℓ} (l : List A) → All (λ x. Memᴰ x l) l
All-self [] = tt
All-self (x ∷ l) = (
  Memᴰ.head refl,
  All-map (λ y. Memᴰ y l) (λ y. Memᴰ y (x ∷ l)) l (λ y m. Memᴰ.tail m) (All-self l),
)

-- What the test says of every member, and of the member that passes it.
pub any-false {ℓ} :
    {A : Type ℓ} (p : A → Bool) (l : List A) → any p l ≡ false → All (λ x. p x ≡ false) l
any-false p [] h = tt
any-false p (x ∷ l) h = (ground arith, any-false p l (ground arith))

pub any-true {ℓ} :
    {A : Type ℓ} (p : A → Bool) (l : List A) → any p l ≡ true → (x : A) × Memᴰ x l × (p x ≡ true)
any-true p [] h = cc
any-true p (x ∷ l) h = elim (Bool-cases (p x)) [
  | inl y ↦ (x, Memᴰ.head refl, y)
  | inr n ↦ let (z, m, q) = any-true p l (ground arith) in (z, Memᴰ.tail m, q)
]

pub any_intro {ℓ} :
    {A : Type ℓ} (p : A → Bool) (x : A) (l : List A) → Memᴰ x l → p x ≡ true → any p l ≡ true
any_intro p x [] m h = elim m [ ]
any_intro p x (y ∷ l) (Memᴰ.head e) h = rw (← e, h)
any_intro p x (y ∷ l) (Memᴰ.tail m) h = rw (any_intro p x l m h) (ground arith)
