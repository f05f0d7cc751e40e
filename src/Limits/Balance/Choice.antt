-- ===== src/Limits/Balance/Choice.antt =====
-- The CPUs that one container gets.
use lxd_pkg_ubuntu.Prelude.{
  ℕ, zero, suc, ◌^◌, ◌≤◌, ◌<◌, ◌≡◌, inl, inr, refl, ap, arith, false, ◌==◌, ltb, ltb→lt, ◌∙◌, subst,
  sym, List, [], ◌∷◌, ◌++◌, length, All, All-map, Bool-cases, All-back,
}
use mathlib.Core.List.{Perm}
use mathlib.Core.List.Perm
use lxd_pkg_ubuntu.Prelude.Int64.{sub64}
use lxd_pkg_ubuntu.Limits.Balance.{TaskCpu, bump, insert_cpu, sort_cpus, take_cpus}

-- Sorting moves CPUs and changes none.
insert-Perm : (c : TaskCpu) (cs : List TaskCpu) → Perm (insert_cpu c cs) (c ∷ cs)
unfolding insert_cpu
insert-Perm c [] = Perm.refl (c ∷ [])
insert-Perm c (d ∷ ds) = elim (Bool-cases (ltb c.count d.count)) [
  | inl y ↦ rw y (Perm.refl (c ∷ d ∷ ds))
  | inr n ↦ rw n (Perm.trans (Perm.cons d (insert-Perm c ds)) (Perm.swap c d ds))
]

sort-Perm : (cs : List TaskCpu) → Perm (sort_cpus cs) cs
unfolding sort_cpus
sort-Perm [] = Perm.nil
sort-Perm (c ∷ cs) = Perm.trans (insert-Perm c (sort_cpus cs)) (Perm.cons c (sort-Perm cs))

abbrev pub IsSorted : List TaskCpu → Type 0
IsSorted [] = Unit
IsSorted (c ∷ cs) = All (λ d. c.count ≤ d.count) cs × IsSorted cs

insert-All :
    (P : TaskCpu → Type 0) (c : TaskCpu) (cs : List TaskCpu)
    → P c
    → All P cs
    → All P (insert_cpu c cs)
unfolding insert_cpu
insert-All P c [] p h = (p, tt)
insert-All P c (d ∷ ds) p h = elim (Bool-cases (ltb c.count d.count)) [
  | inl y ↦ rw y (p, h)
  | inr n ↦ rw n (h.0, insert-All P c ds p h.1)
]

insert-IsSorted : (c : TaskCpu) (cs : List TaskCpu) → IsSorted cs → IsSorted (insert_cpu c cs)
unfolding insert_cpu
insert-IsSorted c [] h = (tt, tt)
insert-IsSorted c (d ∷ ds) h = elim (Bool-cases (ltb c.count d.count)) [
  | inl y ↦
      rw y (
        (ground (arith, y), All-map _ _ ds (λ x k. omega (arith, ltb→lt c.count d.count y)) h.0),
        h,
      )
  | inr n ↦ rw n (insert-All _ c ds (ground (arith, n)) h.0, insert-IsSorted c ds h.1)
]

sort-IsSorted : (cs : List TaskCpu) → IsSorted (sort_cpus cs)
unfolding sort_cpus
sort-IsSorted [] = tt
sort-IsSorted (c ∷ cs) = insert-IsSorted c (sort_cpus cs) (sort-IsSorted cs)

abbrev pub ids : List TaskCpu → List ℕ
ids [] = []
ids (c ∷ cs) = c.id ∷ ids cs

abbrev pub bumped : List TaskCpu → List TaskCpu
bumped [] = []
bumped (c ∷ cs) = bump c ∷ bumped cs

-- How the CPUs are divided for a container that wants `count` of them.
pub record Divided (count : ℕ) (usage : List TaskCpu) : Type 0 where
  pub chosen : List TaskCpu
  pub others : List TaskCpu
  pub moved : Perm (chosen ++ others) usage
  pub as_many : length chosen ≡ count
  pub gets : take_cpus count (sort_cpus usage) ≡ (bumped chosen ++ others, ids chosen)
  pub least_used : All (λ o. All (λ c. c.count ≤ o.count) chosen) others

pub record Front (count : ℕ) (cs : List TaskCpu) : Type 0 where
  pub chosen : List TaskCpu
  pub others : List TaskCpu
  pub whole : chosen ++ others ≡ cs
  pub as_many : length chosen ≡ count
  pub gets : take_cpus count cs ≡ (bumped chosen ++ others, ids chosen)
  pub least_used : All (λ o. All (λ c. c.count ≤ o.count) chosen) others

one_less : (n : ℕ) → suc n < 2 ^ 62 → sub64 (suc n) 1 ≡ n
unfolding sub64
one_less n h = omega arith

length-insert : (c : TaskCpu) (cs : List TaskCpu) → length (insert_cpu c cs) ≡ suc (length cs)
unfolding insert_cpu
length-insert c [] = refl
length-insert c (d ∷ ds) = let rest = length-insert c ds in ground (arith, rest)

length-sort : (cs : List TaskCpu) → length (sort_cpus cs) ≡ length cs
unfolding sort_cpus
length-sort [] = refl
length-sort (c ∷ cs) = length-insert c (sort_cpus cs) ∙ ap suc (length-sort cs)

none_chosen : (cs : List TaskCpu) → All (λ o. All (λ (c : TaskCpu). c.count ≤ o.count) []) cs
none_chosen [] = tt
none_chosen (o ∷ os) = (tt, none_chosen os)

one_more :
    (c : TaskCpu) (chosen others : List TaskCpu)
    → All (λ o. c.count ≤ o.count) others
    → All (λ o. All (λ d. d.count ≤ o.count) chosen) others
    → All (λ o. All (λ d. d.count ≤ o.count) (c ∷ chosen)) others
one_more c chosen [] h k = tt
one_more c chosen (o ∷ os) h k = ((h.0, k.0), one_more c chosen os h.1 k.1)

take-step :
    (count : ℕ) (c : TaskCpu) (cs chosen others : List TaskCpu)
    → suc count < 2 ^ 62
    → take_cpus count cs ≡ (bumped chosen ++ others, ids chosen)
    → take_cpus (suc count) (c ∷ cs) ≡ (bumped (c ∷ chosen) ++ others, ids (c ∷ chosen))
unfolding take_cpus
take-step count c cs chosen others w h =
    let more : (suc count == 0) ≡ false = ground arith in rw (one_less count w, more, h) refl

take-Front :
    (count : ℕ) (cs : List TaskCpu)
    → count ≤ length cs
    → count < 2 ^ 62
    → IsSorted cs
    → Front count cs
unfolding take_cpus
take-Front zero [] h w s = record {
  chosen = [];
  others = [];
  whole = refl;
  as_many = refl;
  gets = refl;
  least_used = tt;
}
take-Front (suc count) [] h w s = absurd (omega (arith, h))
take-Front zero (c ∷ cs) h w s = record {
  chosen = [];
  others = c ∷ cs;
  whole = refl;
  as_many = refl;
  gets = refl;
  least_used = none_chosen (c ∷ cs);
}
take-Front (suc count) (c ∷ cs) h w s =
    let f = take-Front count cs (omega arith) (omega arith) s.1 in
    record {
      chosen = c ∷ f.chosen;
      others = f.others;
      whole = ap (λ l. c ∷ l) f.whole;
      as_many = omega (arith, f.as_many);
      gets = take-step count c cs f.chosen f.others w f.gets;
      least_used =
          one_more c f.chosen f.others
            (All-back (λ o. c.count ≤ o.count) f.chosen f.others
              (subst (All (λ o. c.count ≤ o.count)) (sym f.whole) s.0))
            f.least_used;
    }

-- A container that wants no more CPUs than there are gets exactly that many of them, no two of them
-- the same entry of the list, and none of those it does not get is used less than one of those it
-- gets; the use of each that it gets grows by one, and nothing else changes.
pub take_cpus-Divided :
    (count : ℕ) (usage : List TaskCpu) → count ≤ length usage → count < 2 ^ 62 → Divided count usage
take_cpus-Divided count usage h w =
    let f =
      take-Front count (sort_cpus usage) (omega (arith, length-sort usage)) w
        (sort-IsSorted usage) in
    record {
      chosen = f.chosen;
      others = f.others;
      moved = subst (λ l. Perm l usage) (sym f.whole) (sort-Perm usage);
      as_many = f.as_many;
      gets = f.gets;
      least_used = f.least_used;
    }
