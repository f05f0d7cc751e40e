-- ===== src/Operations/Threads/Locks/Refines.antt =====
-- Threads that wait for the lock do what the threads of `Move` do.
use lxd_pkg_ubuntu.Prelude.{
  ◌≡◌, ◌⊎◌, ◌∙◌, ap, sym, refl, inl, inr, Bool, true, false, some, List, [], ◌∷◌, ◌++◌, map,
  append_assoc, Bool-cases,
}
use lxd_pkg_ubuntu.Operations.Operation.{Operation}
use lxd_pkg_ubuntu.Operations.Threads.{Thread, Outcome, advance, World, Move, move}
use lxd_pkg_ubuntu.Operations.Threads.Locks.{
  Place, outside, inside, leaving, takes_lock, after_work, go, Locked, Turn, turn,
}
use lxd_pkg_ubuntu.Operations.Threads.Locks.Places.{
  at, all_at, all_at-append, all_at-outside, all_at-after_work,
}

module _ {M : Type 0} where
  -- What a step of a thread does, without regard to the lock: nothing, or one step of the thread.
  pub data Does (p : Place M) (o : Outcome) (op : Operation M)
      (r : Operation M × Bool × List (Place M)) : Type 0 where
    nothing : r.0 ≡ op → all_at r.2 ≡ at p → Does p o op r
    work :
        (t : Thread M)
        → at p ≡ t ∷ []
        → r.0 ≡ (advance t o op).0
        → all_at r.2 ≡ (advance t o op).1
        → Does p o op r

  go-Does :
      (p : Place M) (o : Outcome) (held : Bool) (op : Operation M)
      (r : Operation M × Bool × List (Place M))
      → go p o held op ≡ some r
      → Does p o op r
  unfolding go
  go-Does (outside t) o held op r h = elim (Bool-cases (takes_lock op t)) [
    | inl y ↦ elim (Bool-cases held) [ inl b ↦ cc (h, y, b) | inr f ↦ waited (cc (h, y, f)) ]
    | inr n ↦ works (cc (h, n))
  ]
    where
      waited : (op, true, inside t ∷ []) ≡ r → Does (outside t) o op r
      waited e = nothing (ap (λ x. x.0) (sym e)) (ap (λ x. all_at x.2) (sym e))

      works :
          ((advance t o op).0, held, map outside (advance t o op).1) ≡ r → Does (outside t) o op r
      works e =
          work t refl (ap (λ x. x.0) (sym e))
            (ap (λ x. all_at x.2) (sym e) ∙ all_at-outside (advance t o op).1)
  go-Does (inside t) o held op r h = works (cc h)
    where
      works :
          ((advance t o op).0, held, after_work t (advance t o op).1) ≡ r → Does (inside t) o op r
      works e =
          work t refl (ap (λ x. x.0) (sym e))
            (ap (λ x. all_at x.2) (sym e) ∙ all_at-after_work t (advance t o op).1)
  go-Does (leaving ts) o held op r h = gives_back (cc h)
    where
      gives_back : (op, false, map outside ts) ≡ r → Does (leaving ts) o op r
      gives_back e =
          nothing (ap (λ x. x.0) (sym e)) (ap (λ x. all_at x.2) (sym e) ∙ all_at-outside ts)

  abbrev pub coarse : Locked M → World M
  coarse w = record { op = w.op; threads = all_at w.places }

  parted :
      (before after : List (Place M)) (p : Place M)
      → all_at (before ++ p ∷ after) ≡ all_at before ++ (at p ++ all_at after)
  parted before after p = all_at-append before (p ∷ after)

  replaced :
      (before after ps : List (Place M))
      → all_at (before ++ ps ++ after) ≡ all_at before ++ all_at ps ++ all_at after
  replaced before after ps =
      all_at-append (before ++ ps) after ∙ ap (λ l. l ++ all_at after) (all_at-append before ps)

  -- A step of a thread is a step of `Move`, or none.
  pub Turn-Move : {w v : Locked M} → Turn w v → (coarse v ≡ coarse w) ⊎ Move (coarse w) (coarse v)
  Turn-Move {w} {v} (turn before after p o r e g d) = by_work (go-Does p o w.held w.op r g)
    where
      places : all_at v.places ≡ all_at before ++ all_at r.2 ++ all_at after
      places = ap (λ x. all_at x.places) d ∙ replaced before after r.2

      there : all_at w.places ≡ all_at before ++ (at p ++ all_at after)
      there = ap all_at e ∙ parted before after p

      result : v.op ≡ r.0
      result = ap (λ x. x.op) d

      same : v.op ≡ w.op → all_at v.places ≡ all_at w.places → coarse v ≡ coarse w
      same a b = cc (a, b)

      by_work : Does p o w.op r → (coarse v ≡ coarse w) ⊎ Move (coarse w) (coarse v)
      by_work (nothing a b) = inl (
          same (result ∙ a) (
            places
            ∙ ap (λ l. all_at before ++ l ++ all_at after) b
            ∙ append_assoc (all_at before) (at p) (all_at after)
            ∙ sym there))
      by_work (work t a b c) =
          inr (move (all_at before) (all_at after) t o (cc (there, a)) (cc (places, result, b, c)))
