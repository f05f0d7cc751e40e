-- ===== src/Limits/Balance/Even.antt =====
-- Balancing keeps the CPUs evenly used.
use lxd_pkg_ubuntu.Prelude.{
  ℕ, suc, ◌≡◌, ◌⊎◌, inl, inr, arith, true, false, ◌==◌, ltb, List, [], ◌∷◌, All, All-map,
  Bool-cases,
}
use lxd_pkg_ubuntu.Prelude.Int64.{sub64}
use lxd_pkg_ubuntu.Limits.Balance.{
  TaskCpu, insert_cpu, sort_cpus, take_cpus, balance, Table, append_all,
}

-- Every CPU has the use m or m + 1.
abbrev pub Level : ℕ → List TaskCpu → Type 0
Level m cs = All (λ c. (c.count ≡ m) ⊎ (c.count ≡ suc m)) cs

abbrev pub IsEven : List TaskCpu → Type 0
IsEven cs = (m : ℕ) × Level m cs

abbrev Flat : ℕ → List TaskCpu → Type 0
Flat m cs = All (λ c. c.count ≡ m) cs

-- Those with the use m come first.
abbrev Steps : ℕ → List TaskCpu → Type 0
Steps m [] = Unit
Steps m (c ∷ cs) = ((c.count ≡ m) × Steps m cs) ⊎ ((c.count ≡ suc m) × Flat (suc m) cs)

insert-Flat :
    (m : ℕ) (c : TaskCpu) (cs : List TaskCpu)
    → c.count ≡ suc m
    → Flat (suc m) cs
    → Flat (suc m) (insert_cpu c cs)
unfolding insert_cpu
insert-Flat m c [] h f = (h, tt)
insert-Flat m c (d ∷ ds) h f = elim (Bool-cases (ltb c.count d.count)) [
  | inl y ↦ rw y (h, f)
  | inr n ↦ rw n (f.0, insert-Flat m c ds h f.1)
]

Flat-Steps : (m : ℕ) (cs : List TaskCpu) → Flat (suc m) cs → Steps m cs
Flat-Steps m [] f = tt
Flat-Steps m (c ∷ cs) f = inr (f.0, f.1)

insert-low :
    (m : ℕ) (c : TaskCpu) (cs : List TaskCpu) → c.count ≡ m → Steps m cs → Steps m (insert_cpu c cs)
unfolding insert_cpu
insert-low m c [] h s = inl (h, tt)
insert-low m c (d ∷ ds) h (inl (e, s)) = elim (Bool-cases (ltb c.count d.count)) [
  | inl y ↦ rw y (inl (h, inl (e, s)))
  | inr n ↦ rw n (inl (e, insert-low m c ds h s))
]
insert-low m c (d ∷ ds) h (inr (e, f)) =
    let lower : ltb c.count d.count ≡ true = ground (arith, h, e) in rw lower (inl (h, inr (e, f)))

insert-high :
    (m : ℕ) (c : TaskCpu) (cs : List TaskCpu)
    → c.count ≡ suc m
    → Steps m cs
    → Steps m (insert_cpu c cs)
unfolding insert_cpu
insert-high m c [] h s = inr (h, tt)
insert-high m c (d ∷ ds) h (inl (e, s)) =
    let higher : ltb c.count d.count ≡ false = ground (arith, h, e) in
    rw higher (inl (e, insert-high m c ds h s))
insert-high m c (d ∷ ds) h (inr (e, f)) = elim (Bool-cases (ltb c.count d.count)) [
  | inl y ↦ rw y (inr (h, (e, f)))
  | inr n ↦ rw n (inr (e, insert-Flat m c ds h f))
]

sort-Steps : (m : ℕ) (cs : List TaskCpu) → Level m cs → Steps m (sort_cpus cs)
unfolding sort_cpus
sort-Steps m [] h = tt
sort-Steps m (c ∷ cs) h = elim h.0 [
  | inl low ↦ insert-low m c (sort_cpus cs) low (sort-Steps m cs h.1)
  | inr high ↦ insert-high m c (sort_cpus cs) high (sort-Steps m cs h.1)
]

-- Taking from equally used CPUs.
take-Flat : (m count : ℕ) (cs : List TaskCpu) → Flat m cs → Level m (take_cpus count cs).0
unfolding take_cpus
take-Flat m count [] f = tt
take-Flat m count (c ∷ cs) f = elim (Bool-cases (count == 0)) [
  | inl y ↦ rw y (inl f.0, All-map _ _ cs (λ x e. inl e) f.1)
  | inr n ↦ rw n (inr (omega (arith, f.0)), take-Flat m (sub64 count 1) cs f.1)
]

Steps-Level : (m : ℕ) (cs : List TaskCpu) → Steps m cs → Level m cs
Steps-Level m [] s = tt
Steps-Level m (c ∷ cs) (inl (e, s)) = (inl e, Steps-Level m cs s)
Steps-Level m (c ∷ cs) (inr (e, f)) = (inr e, All-map _ _ cs (λ x h. inr h) f)

take-Steps :
    (m count : ℕ) (cs : List TaskCpu)
    → Steps m cs
    → Level m (take_cpus count cs).0 ⊎ Level (suc m) (take_cpus count cs).0
unfolding take_cpus
take-Steps m count [] s = inl tt
take-Steps m count (c ∷ cs) (inl (e, s)) = elim (Bool-cases (count == 0)) [
  | inl y ↦ rw y (inl (inl e, Steps-Level m cs s))
  | inr n ↦ rw n (elim (take-Steps m (sub64 count 1) cs s) [
    | inl l ↦ inl (inr (omega (arith, e)), l)
    | inr l ↦ inr (inl (omega (arith, e)), l)
  ])
]
take-Steps m count (c ∷ cs) (inr (e, f)) = inr (take-Flat (suc m) count (c ∷ cs) (e, f))

-- One container.
take-IsEven :
    (count : ℕ) (cs : List TaskCpu) → IsEven cs → IsEven (take_cpus count (sort_cpus cs)).0
take-IsEven count cs (m, h) = elim (take-Steps m count (sort_cpus cs) (sort-Steps m cs h)) [
  | inl l ↦ (m, l)
  | inr l ↦ (suc m, l)
]

-- When the use of any two CPUs differs by at most one before containers are balanced, whatever their
-- counts and in whatever order they come, it does so afterwards.
pub balance-IsEven :
    (balanced : List (ℕ × ℕ)) (usage : List TaskCpu) (pinning : Table)
    → IsEven usage
    → IsEven (balance balanced (usage, pinning)).0
unfolding balance
balance-IsEven [] usage pinning h = h
balance-IsEven ((ctn, count) ∷ balanced) usage pinning h =
    balance-IsEven balanced (take_cpus count (sort_cpus usage)).0
      (append_all ctn (take_cpus count (sort_cpus usage)).1 pinning) (take-IsEven count usage h)
