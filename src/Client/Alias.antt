-- ===== src/Client/Alias.antt =====
-- What an alias of a command is replaced by.
use Prim.Native.String.{String}
use text.Mathlib.Text.{◌==◌ as str_eq}
use Prim.Native.Char.{Char, code}
use lxd_pkg_ubuntu.Text.{add_char, split}
use lxd_pkg_ubuntu.Prelude.{
  ◌==◌, ◌≢◌, subst, ℕ, zero, suc, ◌+◌, ◌-◌, ◌≤◌, ◌≡◌, ◌∙◌, ap, refl, inl, inr, arith, Bool, true,
  false, not, ◌&&◌, if◌then◌else◌, leb, List, [], ◌∷◌, ◌++◌, length, All, Option, none, some,
  Bool-cases,
}
use lxd_pkg_ubuntu.Prelude.Dict.{Dict}
use lxd_pkg_ubuntu.Client.{
  Expansion, expanded, unexpanded, panicked, expansion_of, starts_with, find_alias, from,
  replace_args, insert_no_alias, expand_alias,
}

-- Not the place for the arguments.
abbrev pub IsWord : String → Type 0
IsWord w = str_eq w "@ARGS@" ≡ false

replace-words :
    (i : ℕ) (args ws : List String) → All IsWord ws → replace_args i args ws ≡ (ws, false)
unfolding replace_args
replace-words i args [] h = refl
replace-words i args (w ∷ ws) h = let rest = replace-words (i + 1) args ws h.1 in cc (h.0, rest)

replace-place :
    (i : ℕ) (args before after : List String)
    → All IsWord before
    → All IsWord after
    → i + length before ≤ length args
    → replace_args i args (before ++ ("@ARGS@" ∷ after))
      ≡ (before ++ (from (i + length before) args ++ after), true)
unfolding replace_args
replace-place i args [] after h k w =
    let rest = replace-words (i + 1) args after k in
    let there : leb i (length args) ≡ true = ground (arith, w) in
    let same : i + 0 ≡ i = omega arith in cc (rest, there, same)
replace-place i args (b ∷ before) after h k w =
    let rest = replace-place (i + 1) args before after h.1 k (omega (arith, w)) in
    let same : i + 1 + length before ≡ i + suc (length before) = omega arith in cc (h.0, rest, same)

from-append :
    (words rest : List String) (n : ℕ)
    → length words ≤ n
    → from n (words ++ rest) ≡ from (n - length words) rest
unfolding from
from-append [] rest n h = ap (λ k. from k rest) (omega arith)
from-append (w ∷ words) rest zero h = absurd (omega (arith, h))
from-append (w ∷ words) rest (suc n) h =
    from-append words rest n (omega (arith, h)) ∙ ap (λ k. from k rest) (omega arith)

from-words : (words rest : List String) → from (length words) (words ++ rest) ≡ rest
unfolding from
from-words [] rest = refl
from-words (w ∷ words) rest = from-words words rest

-- An alias without a place for the arguments, whose words the arguments start with: the first word of its
-- value, the option that forbids a second expansion, its other words, and the rest of the arguments.
pub expand_alias-words :
    (aliases : Dict String) (program : String) (words rest : List String) (w : String)
    (ws : List String)
    → find_alias aliases (words ++ rest) ≡ some (words, w ∷ ws)
    → All IsWord (w ∷ ws)
    → expand_alias aliases program (words ++ rest)
      ≡ expanded (program ∷ w ∷ "--no-alias" ∷ (ws ++ rest))
unfolding expand_alias insert_no_alias
expand_alias-words aliases program words rest w ws f h =
    let replaced = replace-words 0 (words ++ rest) (w ∷ ws) h in
    let left = from-words words rest in cc (f, replaced, left)

-- An alias whose value has @ARGS@ once, after a word, with at least as many words before it as the alias
-- has itself, where there are at least as many arguments, the alias among them, as words before @ARGS@:
-- of the arguments after the alias, as many as there are more words before @ARGS@ than in the alias are
-- lost.
pub expand_alias-loses :
    (aliases : Dict String) (program : String) (words rest : List String) (w : String)
    (before after : List String)
    → find_alias aliases (words ++ rest) ≡ some (words, (w ∷ before) ++ ("@ARGS@" ∷ after))
    → All IsWord (w ∷ before)
    → All IsWord after
    → length words ≤ suc (length before)
    → suc (length before) ≤ length (words ++ rest)
    → expand_alias aliases program (words ++ rest)
      ≡ expanded (
          program
          ∷ w
          ∷ "--no-alias"
          ∷ (before ++ (from (suc (length before) - length words) rest ++ after)))
unfolding expand_alias insert_no_alias
expand_alias-loses aliases program words rest w before after f h k enough room =
    let replaced = replace-place 0 (words ++ rest) (w ∷ before) after h k (omega (arith, room)) in
    let place : 0 + length (w ∷ before) ≡ suc (length before) = omega arith in
    let left = from-append words rest (suc (length before)) enough in cc (f, replaced, place, left)

abbrev is_empty {ℓ} : {A : Type ℓ} → List A → Bool
is_empty [] = true
is_empty (x ∷ xs) = false

add_char-some : (c : Char) (ws : List String) → is_empty (add_char c ws) ≡ false
unfolding add_char
add_char-some c [] = refl
add_char-some c (w ∷ ws) = refl

split-some : (sep : ℕ) (s : String) → is_empty (split sep s) ≡ false
unfolding split
split-some sep String.[] = refl
split-some sep (String.◌∷◌ c s) = elim (Bool-cases (code c == sep)) [
  | inl y ↦ rw y refl
  | inr n ↦ rw n (add_char-some c (split sep s))
]

starts-some :
    (words args : List String)
    → is_empty words ≡ false
    → starts_with words args ≡ true
    → is_empty args ≡ false
unfolding starts_with
starts-some [] args h k = cc h
starts-some (w ∷ words) [] h k = cc k
starts-some (w ∷ words) (a ∷ args) h k = refl

-- An alias that is found has a value with a word, and there is an argument.
find_alias-some :
    (aliases : Dict String) (args : List String) (found : List String × List String)
    → find_alias aliases args ≡ some found
    → (is_empty args ≡ false) × (is_empty found.1 ≡ false)
unfolding find_alias
find_alias-some [] args found h = cc h
find_alias-some ((k, v) ∷ aliases) args found h =
    elim (Bool-cases (starts_with (split 32 k) args)) [
      | inl y ↦
          let same : (split 32 k, split 32 v) ≡ found = ground (arith, y, h) in
          (
            starts-some (split 32 k) args (split-some 32 k) y,
            subst (λ f. is_empty f.1 ≡ false) same (split-some 32 v),
          )
      | inr n ↦ find_alias-some aliases args found (ground (arith, n, h))
    ]

append-some : (xs ys : List String) → is_empty xs ≡ false → is_empty (xs ++ ys) ≡ false
append-some [] ys h = cc h
append-some (x ∷ xs) ys h = refl

replace-some :
    (args ws : List String)
    → is_empty args ≡ false
    → is_empty ws ≡ false
    → is_empty (replace_args 0 args ws).0 ≡ false
unfolding replace_args from
replace-some args [] h k = cc k
replace-some args (w ∷ ws) h k = elim (Bool-cases (str_eq w "@ARGS@" && leb 0 (length args))) [
  | inl y ↦ rw y (append-some args _ h)
  | inr n ↦ rw n refl
]

insert-returns :
    (program : String) (args : List String)
    → is_empty args ≡ false
    → expansion_of (insert_no_alias (program ∷ args)) ≢ panicked
unfolding insert_no_alias
insert-returns program [] h e = cc h
insert-returns program (a ∷ args) h e = cc e

either_some :
    (b : Bool) (xs ys : List String)
    → is_empty xs ≡ false
    → is_empty ys ≡ false
    → is_empty (if b then xs else ys) ≡ false
either_some true xs ys h k = h
either_some false xs ys h k = k

-- The slice of the first two arguments is always there: no alias makes `expandAlias` panic.
pub expand_alias-returns :
    (aliases : Dict String) (program : String) (args : List String)
    → expand_alias aliases program args ≢ panicked
unfolding expand_alias
expand_alias-returns aliases program args = by_alias (find_alias aliases args) refl
  where
    by_alias :
        (o : Option (List String × List String))
        → find_alias aliases args ≡ o
        → elim o as (λ _. Expansion) [
          | none ↦ unexpanded
          | some alias ↦ expansion_of (
              insert_no_alias (
                program
                ∷ (if not (replace_args 0 args alias.1).1
                    then (replace_args 0 args alias.1).0 ++ from (length alias.0) args
                    else (replace_args 0 args alias.1).0)))
        ]
          ≢ panicked
    by_alias none e p = cc p
    by_alias (some alias) e p =
        let (some_arg, some_word) = find_alias-some aliases args alias e in
        let replaced = replace-some args alias.1 some_arg some_word in
        insert-returns program _
          (either_some (not (replace_args 0 args alias.1).1) _ _ (append-some _ _ replaced)
            replaced)
          p
