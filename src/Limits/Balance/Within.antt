-- ===== src/Limits/Balance/Within.antt =====
-- Only CPUs that are available and not isolated are given to containers.
use lxd_pkg_ubuntu.Prelude.{
  ℕ, ◌^◌, ◌≡◌, inl, inr, refl, arith, Bool, true, false, if◌then◌else◌, ◌==◌, List, [], ◌∷◌, ◌++◌,
  map, All, Option, none, some, Result, ok, err, Bool-cases,
}
use lxd_pkg_ubuntu.Text.{int_in_slice}
use lxd_pkg_ubuntu.Prelude.Int64.{sub64}
use lxd_pkg_ubuntu.Prelude.{ltb, All-map, ◌∙◌, ap}
use lxd_pkg_ubuntu.Text.{fields, parse_codes}
use lxd_pkg_ubuntu.Limits.Cpuset.{parse_chunk, parse_chunks, decimal, show_int, join}
use lxd_pkg_ubuntu.Limits.Cpuset.Join.{Small, parse_cpuset-join}
use lxd_pkg_ubuntu.Limits.Balance.{not_isolated}
use lxd_pkg_ubuntu.Prelude.{ok_unique}
use lxd_pkg_ubuntu.Limits.{Error}
use lxd_pkg_ubuntu.Limits.Cpuset.{parse_cpuset}
use lxd_pkg_ubuntu.Limits.Balance.{
  TaskCpu, insert_cpu, sort_cpus, Task, Table, append_to, add_usage, usage_of, has_cpu, bump_cpu,
  pin_all, pin_fixed, take_cpus, append_all, balance, pinning_of, classify, pins_of,
}

-- A property of CPUs, kept by every step of the placement.
module _ (P : ℕ → Type 0) where
  abbrev UsageIn : List TaskCpu → Type 0
  UsageIn us = All (λ c. P c.id) us

  abbrev pub TableIn : Table → Type 0
  TableIn m = All (λ p. All P p.1) m

  append-In : (xs : List ℕ) (x : ℕ) → All P xs → P x → All P (xs ++ x ∷ [])
  append-In [] x h p = (p, tt)
  append-In (y ∷ ys) x h p = (h.0, append-In ys x h.1 p)

  append_to-In : (k v : ℕ) (m : Table) → P v → TableIn m → TableIn (append_to k v m)
  unfolding append_to
  append_to-In k v [] p h = ((p, tt), tt)
  append_to-In k v ((j, vs) ∷ m) p h = elim (Bool-cases (j == k)) [
    | inl y ↦ rw y (append-In vs v h.0 p, h.1)
    | inr n ↦ rw n (h.0, append_to-In k v m p h.1)
  ]

  append_all-In :
      (k : ℕ) (vs : List ℕ) (m : Table) → All P vs → TableIn m → TableIn (append_all k vs m)
  unfolding append_all
  append_all-In k [] m p h = h
  append_all-In k (v ∷ vs) m p h =
      append_all-In k vs (append_to k v m) p.1 (append_to-In k v m p.0 h)

  add_usage-In : (id : ℕ) (us : List TaskCpu) → P id → UsageIn us → UsageIn (add_usage id us)
  unfolding add_usage
  add_usage-In id [] p h = (p, tt)
  add_usage-In id (c ∷ cs) p h = elim (Bool-cases (c.id == id)) [
    | inl y ↦ rw y h
    | inr n ↦ rw n (h.0, add_usage-In id cs p h.1)
  ]

  usage_of-In : (ns : List ℕ) (us : List TaskCpu) → All P ns → UsageIn us → UsageIn (usage_of ns us)
  unfolding usage_of
  usage_of-In [] us p h = h
  usage_of-In (n ∷ ns) us p h = usage_of-In ns (add_usage n us) p.1 (add_usage-In n us p.0 h)

  bump_cpu-In : (cpu : ℕ) (us : List TaskCpu) → UsageIn us → UsageIn (bump_cpu cpu us)
  unfolding bump_cpu
  bump_cpu-In cpu [] h = tt
  bump_cpu-In cpu (c ∷ cs) h = elim (Bool-cases (c.id == cpu)) [
    | inl y ↦ rw y h
    | inr n ↦ rw n (h.0, bump_cpu-In cpu cs h.1)
  ]

  has_cpu-In : (cpu : ℕ) (us : List TaskCpu) → UsageIn us → has_cpu cpu us ≡ true → P cpu
  unfolding has_cpu
  has_cpu-In cpu [] h e = absurd (ground (arith, e))
  has_cpu-In cpu (c ∷ cs) h e = elim (Bool-cases (c.id == cpu)) [
    | inl y ↦ let same : c.id ≡ cpu = ground (arith, y) in rw (← same) h.0
    | inr n ↦ has_cpu-In cpu cs h.1 (ground (arith, e, n))
  ]

  -- The counts of the CPUs and the table, together.
  abbrev BothIn : List TaskCpu × Table → Type 0
  BothIn s = UsageIn s.0 × TableIn s.1

  pin_all-In :
      (cpu : ℕ) (ctns : List ℕ) (s : List TaskCpu × Table)
      → P cpu
      → BothIn s
      → BothIn (pin_all cpu ctns s)
  unfolding pin_all
  pin_all-In cpu [] (us, m) p h = h
  pin_all-In cpu (c ∷ cs) (us, m) p h =
      pin_all-In cpu cs (bump_cpu cpu us, append_to c cpu m) p
        (bump_cpu-In cpu us h.0, append_to-In c cpu m p h.1)

  either-In :
      (b : Bool) (s t : List TaskCpu × Table)
      → (b ≡ true → BothIn s)
      → BothIn t
      → BothIn (if b then s else t)
  either-In true s t h k = h refl
  either-In false s t h k = k

  pin_fixed-In : (fixed : Table) (s : List TaskCpu × Table) → BothIn s → BothIn (pin_fixed fixed s)
  unfolding pin_fixed
  pin_fixed-In [] s h = h
  pin_fixed-In ((cpu, ctns) ∷ fixed) s h =
      pin_fixed-In fixed _ (
        either-In (has_cpu cpu s.0) _ _ (λ y. pin_all-In cpu ctns s (has_cpu-In cpu s.0 h.0 y) h) h)

  insert_cpu-In :
      (c : TaskCpu) (cs : List TaskCpu) → P c.id → UsageIn cs → UsageIn (insert_cpu c cs)
  unfolding insert_cpu
  insert_cpu-In c [] p h = (p, tt)
  insert_cpu-In c (d ∷ ds) p h = elim (Bool-cases (ltb c.count d.count)) [
    | inl y ↦ rw y (p, h)
    | inr n ↦ rw n (h.0, insert_cpu-In c ds p h.1)
  ]

  sort_cpus-In : (cs : List TaskCpu) → UsageIn cs → UsageIn (sort_cpus cs)
  unfolding sort_cpus
  sort_cpus-In [] h = tt
  sort_cpus-In (c ∷ cs) h = insert_cpu-In c (sort_cpus cs) h.0 (sort_cpus-In cs h.1)

  take_cpus-In :
      (count : ℕ) (cs : List TaskCpu)
      → UsageIn cs
      → UsageIn (take_cpus count cs).0 × All P (take_cpus count cs).1
  unfolding take_cpus
  take_cpus-In count [] h = (tt, tt)
  take_cpus-In count (c ∷ cs) h = elim (Bool-cases (count == 0)) [
    | inl y ↦ rw y (h, tt)
    | inr n ↦ let rest = take_cpus-In (sub64 count 1) cs h.1 in rw n ((h.0, rest.0), (h.0, rest.1))
  ]

  balance-In :
      (wanted : List (ℕ × ℕ)) (s : List TaskCpu × Table) → BothIn s → BothIn (balance wanted s)
  unfolding balance
  balance-In [] s h = h
  balance-In ((ctn, count) ∷ wanted) (us, m) h =
      let taken = take_cpus-In count (sort_cpus us) (sort_cpus-In us h.0) in
      balance-In wanted _ (taken.0, append_all-In ctn _ m taken.1 h.1)

  pub pinning_of-In :
      (cpus : List ℕ) (m : Table × List (ℕ × ℕ)) → All P cpus → TableIn (pinning_of cpus m)
  unfolding pinning_of
  pinning_of-In cpus (fixed, balanced) p =
      (balance-In balanced _ (pin_fixed-In fixed _ (usage_of-In cpus [] p tt, tt))).1

  pins_of-In :
      (effective : List ℕ) (tasks : List (Option Task))
      → ((cpus : List ℕ) → parse_cpuset effective ≡ ok cpus → All P cpus)
      → TableIn (pins_of effective tasks)
  unfolding pins_of
  pins_of-In effective tasks h = by_cpus (parse_cpuset effective) refl
    where
      by_maps :
          (cpus : List ℕ)
          → All P cpus
          → (o : Option (Table × List (ℕ × ℕ)))
          → TableIn (elim o [ none ↦ [] | some m ↦ pinning_of cpus m ])
      by_maps cpus p none = tt
      by_maps cpus p (some m) = pinning_of-In cpus m p

      by_cpus :
          (r : Result Error (List ℕ))
          → parse_cpuset effective ≡ r
          → TableIn (elim r [
            | err _ ↦ []
            | ok cpus ↦ elim (classify effective cpus tasks [] []) [
              | none ↦ []
              | some m ↦ pinning_of cpus m
            ]
          ])
      by_cpus (err x) e = tt
      by_cpus (ok cpus) e = by_maps cpus (h cpus e) (classify effective cpus tasks [] [])

-- What the loop over the CPUs that are not isolated leaves.
abbrev pub IsFree : List ℕ → List ℕ → ℕ → Type 0
IsFree isolated effective id =
    (int_in_slice id effective ≡ true) × (int_in_slice id isolated ≡ false)

add_if :
    (P : ℕ → Type 0) (b : Bool) (id : ℕ) (ids : List ℕ)
    → (b ≡ false → P id)
    → All P ids
    → All P (if b then ids else id ∷ ids)
add_if P true id ids p h = h
add_if P false id ids p h = (p refl, h)

later-IsFree :
    (isolated : List ℕ) (id : ℕ) (ids : List ℕ) (k : ℕ)
    → IsFree isolated ids k
    → IsFree isolated (id ∷ ids) k
unfolding int_in_slice
later-IsFree isolated id ids k h = (ground (arith, h.0), h.1)

not_isolated-IsFree :
    (isolated ids : List ℕ) → All (IsFree isolated ids) (not_isolated isolated ids)
unfolding not_isolated int_in_slice
not_isolated-IsFree isolated [] = tt
not_isolated-IsFree isolated (id ∷ ids) =
    add_if (IsFree isolated (id ∷ ids)) (int_in_slice id isolated) id (not_isolated isolated ids)
      (λ n. (ground arith, n))
      (All-map _ _ (not_isolated isolated ids) (later-IsFree isolated id ids)
        (not_isolated-IsFree isolated ids))

not_isolated-Small : (isolated ids : List ℕ) → All Small ids → All Small (not_isolated isolated ids)
unfolding not_isolated
not_isolated-Small isolated [] h = tt
not_isolated-Small isolated (id ∷ ids) h =
    add_if Small (int_in_slice id isolated) id _ (λ n. h.0) (not_isolated-Small isolated ids h.1)

show-decimal : (ns : List ℕ) → All Small ns → map show_int ns ≡ map decimal ns
unfolding show_int
show-decimal [] h = refl
show-decimal (n ∷ ns) h =
    let small : ltb n (2 ^ 63) ≡ true = ground (arith, h.0) in
    let rest = show-decimal ns h.1 in cc (small, rest)

-- What is written for all containers is read back as the same CPUs, if there is one.
read_back :
    (ids cpus : List ℕ)
    → All Small ids
    → parse_cpuset (join (map show_int ids)) ≡ ok cpus
    → cpus ≡ ids
unfolding parse_cpuset join fields parse_chunks parse_chunk parse_codes
read_back [] cpus h e = cc e
read_back (n ∷ ns) cpus h e =
    ok_unique e
      (ap (λ t. parse_cpuset (join t)) (show-decimal (n ∷ ns) h) ∙ parse_cpuset-join n ns h)

-- When the effective CPUs are numbers that an int holds, each CPU that a container is pinned to, after
-- the CPUs that are not isolated have been written and read back, is an effective one and not an
-- isolated one, whatever the containers and their limits.
pub pins_of-IsFree :
    (isolated effective : List ℕ) (tasks : List (Option Task))
    → All Small effective
    → All
        (λ p. All (IsFree isolated effective) p.1)
        (pins_of (join (map show_int (not_isolated isolated effective))) tasks)
pins_of-IsFree isolated effective tasks h = pins_of-In (IsFree isolated effective) _ tasks λ cpus e.
    rw
      (read_back (not_isolated isolated effective) cpus (not_isolated-Small isolated effective h) e)
      (not_isolated-IsFree isolated effective)
