-- ===== src/Operations/Threads/Locks/Places.antt =====
-- The threads at their places, who has the lock, and how much is left to do.
use lxd_pkg_ubuntu.Prelude.{
  ℕ, ◌+◌, ◌*◌, ◌-◌, ◌≡◌, ap, refl, arith, List, [], ◌∷◌, ◌++◌, map, append-nil, append_assoc, sym,
  ◌∙◌,
}
use lxd_pkg_ubuntu.Operations.Threads.{Thread, run_lock}
use lxd_pkg_ubuntu.Operations.Threads.Ending.{steps_left, all_steps}
use lxd_pkg_ubuntu.Operations.Threads.Locks.{Place, outside, inside, leaving, after_work}

module _ {M : Type 0} where
  -- The threads, without regard to the lock.
  abbrev pub at : Place M → List (Thread M)
  at (outside t) = t ∷ []
  at (inside t) = t ∷ []
  at (leaving ts) = ts

  abbrev pub all_at : List (Place M) → List (Thread M)
  all_at [] = []
  all_at (p ∷ ps) = at p ++ all_at ps

  pub all_at-append : (ps qs : List (Place M)) → all_at (ps ++ qs) ≡ all_at ps ++ all_at qs
  all_at-append [] qs = refl
  all_at-append (p ∷ ps) qs =
      ap (λ l. at p ++ l) (all_at-append ps qs) ∙ sym (append_assoc (at p) (all_at ps) (all_at qs))

  pub all_at-outside : (ts : List (Thread M)) → all_at (map outside ts) ≡ ts
  all_at-outside [] = refl
  all_at-outside (t ∷ ts) = ap (λ l. t ∷ l) (all_at-outside ts)

  pub all_at-after_work : (t : Thread M) (ts : List (Thread M)) → all_at (after_work t ts) ≡ ts
  unfolding after_work
  all_at-after_work run_lock ts = all_at-outside ts
  all_at-after_work _ ts = append-nil ts

  -- How many threads have the lock.
  abbrev pub holds : Place M → ℕ
  holds (outside t) = 0
  holds (inside t) = 1
  holds (leaving ts) = 1

  abbrev pub holders : List (Place M) → ℕ
  holders [] = 0
  holders (p ∷ ps) = holds p + holders ps

  pub holders-append : (ps qs : List (Place M)) → holders (ps ++ qs) ≡ holders ps + holders qs
  holders-append [] qs = omega arith
  holders-append (p ∷ ps) qs = omega (arith, holders-append ps qs)

  pub holders-outside : (ts : List (Thread M)) → holders (map outside ts) ≡ 0
  holders-outside [] = refl
  holders-outside (t ∷ ts) = omega (arith, holders-outside ts)

  pub holders-after_work : (t : Thread M) (ts : List (Thread M)) → holders (after_work t ts) ≡ 1
  unfolding after_work
  holders-after_work run_lock ts = omega (arith, holders-outside ts)
  holders-after_work _ ts = refl

  -- How many steps are left: three for each of those without a lock.
  abbrev pub left : Place M → ℕ
  left (outside t) = 3 * steps_left t
  left (inside t) = 3 * steps_left t - 1
  left (leaving ts) = 3 * all_steps ts + 1

  abbrev pub all_left : List (Place M) → ℕ
  all_left [] = 0
  all_left (p ∷ ps) = left p + all_left ps

  pub all_left-append : (ps qs : List (Place M)) → all_left (ps ++ qs) ≡ all_left ps + all_left qs
  all_left-append [] qs = omega arith
  all_left-append (p ∷ ps) qs = omega (arith, all_left-append ps qs)

  pub all_left-outside : (ts : List (Thread M)) → all_left (map outside ts) ≡ 3 * all_steps ts
  all_left-outside [] = refl
  all_left-outside (t ∷ ts) = omega (arith, all_left-outside ts)

  pub all_left-after_work :
      (t : Thread M) (ts : List (Thread M)) → all_left (after_work t ts) ≡ 3 * all_steps ts + 1
  unfolding after_work
  all_left-after_work run_lock ts = omega (arith, all_left-outside ts)
  all_left-after_work _ ts = omega arith
