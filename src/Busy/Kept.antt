-- ===== src/Busy/Kept.antt =====
-- What a new operation and the end of one keep.
use Prim.Native.String.{String}
use lxd_pkg_ubuntu.Prelude.{
  ℕ, ◌<◌, ◌+◌, ◌≡◌, ◌⊎◌, ◌∙◌, ap, sym, subst, refl, arith, Bool, true, false, ◌==◌, Option, none,
  some, inl, inr, Bool-cases, Option-cases,
}
use lxd_pkg_ubuntu.Busy.{
  ContainerOperation, State, free, get_operation, look, register, finished, start, set,
}

-- The map has the operations that are not done, each under its container.
pub record IsOrderly (s : State) : Type 0 where
  pub older : (p : ℕ) (op : ContainerOperation) → s.ops p ≡ some op → p < s.next
  pub running :
      (p : ℕ) (op : ContainerOperation)
      → s.ops p ≡ some op
      → op.is_done ≡ false
      → s.table op.id ≡ some p
  pub pointed :
      (id p : ℕ)
      → s.table id ≡ some p
      → (op : ContainerOperation) × (s.ops p ≡ some op) × (op.id ≡ id) × (op.is_done ≡ false)

pub start-IsOrderly : IsOrderly start
start-IsOrderly = record {
  older = λ p op e. cc e;
  running = λ p op e. cc e;
  pointed = λ id p e. cc e;
}

-- A look that finds the container free.
pub look-free :
    (id : ℕ) (reuse : Bool) (s : State) → IsOrderly s → look id reuse s ≡ free → s.table id ≡ none
unfolding look get_operation
look-free id reuse s o h = elim (Option-cases (s.table id)) [
  | inl n ↦ n
  | inr (p, e) ↦ let (op, f, _, _) = o.pointed id p e in absurd (taken p op e f)
]
  where
    taken : (p : ℕ) (op : ContainerOperation) → s.table id ≡ some p → s.ops p ≡ some op → ⊥
    taken p op e f = ground (arith, e, f, h)

same_operation : {op op' : ContainerOperation} → some op ≡ some op' → op ≡ op'
same_operation h = cc h

-- What an address has after a write.
set-cases {ℓ} :
    {A : Type ℓ} (f : ℕ → A) (k : ℕ) (v : A) (j : ℕ)
    → ((k ≡ j) × (set f k v j ≡ v)) ⊎ (((k == j) ≡ false) × (set f k v j ≡ f j))
set-cases f k v j = elim (Bool-cases (k == j)) [
  | inl y ↦ inl (ground (arith, y), cc y)
  | inr n ↦ inr (n, cc n)
]

module _ (id : ℕ) (action : String) (reusable : Bool) (s : State) (o : IsOrderly s)
    (n : s.table id ≡ none) where
  abbrev pub new : ContainerOperation
  new = record { id = id; action = action; reusable = reusable; is_done = false; fault = none }

  pub register-IsOrderly : IsOrderly (register id action reusable s)
  unfolding register
  register-IsOrderly = record { older = is_older; running = is_running; pointed = is_pointed }
    where
      is_older :
          (p : ℕ) (op : ContainerOperation)
          → set s.ops s.next (some new) p ≡ some op
          → p < s.next + 1
      is_older p op e = elim (set-cases s.ops s.next (some new) p) [
        | inl (q, _) ↦ omega (arith, q)
        | inr (_, f) ↦ let b = o.older p op (sym f ∙ e) in omega (arith, b)
      ]

      is_running :
          (p : ℕ) (op : ContainerOperation)
          → set s.ops s.next (some new) p ≡ some op
          → op.is_done ≡ false
          → set s.table id (some s.next) op.id ≡ some p
      is_running p op e d = elim (set-cases s.ops s.next (some new) p) [
        | inl (q, f) ↦ fresh (sym f ∙ e) q
        | inr (_, f) ↦ kept (o.running p op (sym f ∙ e) d)
      ]
        where
          fresh : some new ≡ some op → s.next ≡ p → set s.table id (some s.next) op.id ≡ some p
          fresh g q = let i = ap (λ o. o.id) (same_operation g) in ground (arith, i, q)

          kept : s.table op.id ≡ some p → set s.table id (some s.next) op.id ≡ some p
          kept r = elim (set-cases s.table id (some s.next) op.id) [
            | inl (q, _) ↦ cc (n, q, r)
            | inr (_, f) ↦ f ∙ r
          ]

      is_pointed :
          (c p : ℕ)
          → set s.table id (some s.next) c ≡ some p
          → (op : ContainerOperation) × (set s.ops s.next (some new) p ≡ some op)
            × (op.id ≡ c)
            × (op.is_done ≡ false)
      is_pointed c p e = elim (set-cases s.table id (some s.next) c) [
        | inl (q, f) ↦ (new, here (sym f ∙ e), q, refl)
        | inr (_, f) ↦ let (op, g, i, d) = o.pointed c p (sym f ∙ e) in (op, there op g, i, d)
      ]
        where
          here : some s.next ≡ some p → set s.ops s.next (some new) p ≡ some new
          here r = ground (arith, r)

          there :
              (op : ContainerOperation)
              → s.ops p ≡ some op
              → set s.ops s.next (some new) p ≡ some op
          there op g = let b = o.older p op g in ground (arith, b, g)

module _ (q : ℕ) (fault : Option String) (s : State) (o : IsOrderly s) (ended : ContainerOperation)
    (e : s.ops q ≡ some ended) (f : s.table ended.id ≡ some q) where
  abbrev pub over : ContainerOperation
  over = record ended { fault = fault; is_done = true }

  pub finished-IsOrderly : IsOrderly (finished q fault ended s)
  finished-IsOrderly = record { older = is_older; running = is_running; pointed = is_pointed }
    where
      is_older :
          (p : ℕ) (op : ContainerOperation) → set s.ops q (some over) p ≡ some op → p < s.next
      is_older p op h = elim (set-cases s.ops q (some over) p) [
        | inl (r, _) ↦ subst (λ j. j < s.next) r (o.older q ended e)
        | inr (_, g) ↦ o.older p op (sym g ∙ h)
      ]

      is_running :
          (p : ℕ) (op : ContainerOperation)
          → set s.ops q (some over) p ≡ some op
          → op.is_done ≡ false
          → set s.table ended.id none op.id ≡ some p
      is_running p op h d = elim (set-cases s.ops q (some over) p) [
        | inl (_, g) ↦ absurd (done (sym g ∙ h))
        | inr (n, g) ↦ kept n (o.running p op (sym g ∙ h) d)
      ]
        where
          done : some over ≡ some op → ⊥
          done r = cc (r, d)

          kept :
              (q == p) ≡ false → s.table op.id ≡ some p → set s.table ended.id none op.id ≡ some p
          kept n r = elim (set-cases s.table ended.id none op.id) [
            | inl (i, _) ↦ let same = ap s.table i in absurd (ground (arith, n, r, f, same))
            | inr (_, g) ↦ g ∙ r
          ]

      is_pointed :
          (c p : ℕ)
          → set s.table ended.id none c ≡ some p
          → (op : ContainerOperation) × (set s.ops q (some over) p ≡ some op)
            × (op.id ≡ c)
            × (op.is_done ≡ false)
      is_pointed c p h = elim (set-cases s.table ended.id none c) [
        | inl (_, g) ↦ absurd (gone (sym g ∙ h))
        | inr (n, g) ↦ let (op, k, i, d) = o.pointed c p (sym g ∙ h) in (op, there op n k i, i, d)
      ]
        where
          gone : none ≡ some p → ⊥
          gone r = cc r

          there :
              (op : ContainerOperation)
              → (ended.id == c) ≡ false
              → s.ops p ≡ some op
              → op.id ≡ c
              → set s.ops q (some over) p ≡ some op
          there op n k i = elim (set-cases s.ops q (some over) p) [
            | inl (r, _) ↦
                let same = ap (λ x. x.id) (same_operation (sym e ∙ ap s.ops r ∙ k)) in
                absurd (ground (arith, n, same, i))
            | inr (_, g) ↦ g ∙ k
          ]
