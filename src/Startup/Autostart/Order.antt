-- ===== src/Startup/Autostart/Order.antt =====
-- The order in which containers are started.
use Prim.Native.String.{String}
use text.Mathlib.Text.{◌==◌ as str_eq}
use text.Mathlib.TextEquality.{eq_iff}
use mathlib.Core.List.{Perm}
use mathlib.Core.List.Perm
use lxd_pkg_ubuntu.Prelude.{
  ◌≡◌, ◌⊎◌, sym, refl, subst, inl, inr, arith, true, false, if◌then◌else◌, List, [], ◌∷◌, ◌++◌, All,
  All-map, Option, some, Bool-cases,
}
use lxd_pkg_ubuntu.Prelude.Int64.{lt64}
use lxd_pkg_ubuntu.Text.{is_true}
use lxd_pkg_ubuntu.Text.Truth.{IsYes, is_true-IsYes, IsYes-is_true}
use lxd_pkg_ubuntu.Startup.Autostart.{
  Container, order_of, less, insert, sort, Action, start, sleep, waits, starts, start_each, loaded,
  containers_restart,
}

-- The priority of c is at least that of d.
abbrev pub NotBefore : Container → Container → Type 0
NotBefore c d = lt64 (order_of c) (order_of d) ≡ false

abbrev pub IsSorted : List Container → Type 0
IsSorted [] = Unit
IsSorted (c ∷ cs) = All (NotBefore c) cs × IsSorted cs

order_of-same : (c d : Container) → c.priority ≡ d.priority → order_of c ≡ order_of d
unfolding order_of
order_of-same c d e = rw e refl

less-NotBefore : (c d : Container) → less c d ≡ true → NotBefore c d
unfolding less lt64
less-NotBefore c d h = elim (Bool-cases (str_eq c.priority d.priority)) [
  | inl y ↦
      let same = order_of-same c d (ground (arith, eq_iff c.priority d.priority, y)) in
      ground (arith, same)
  | inr n ↦ ground (arith, h, n)
]

more-NotBefore : (c d : Container) → less c d ≡ false → NotBefore d c
unfolding less lt64
more-NotBefore c d h = elim (Bool-cases (str_eq c.priority d.priority)) [
  | inl y ↦
      let same = order_of-same c d (ground (arith, eq_iff c.priority d.priority, y)) in
      ground (arith, same)
  | inr n ↦ ground (arith, h, n)
]

trans-NotBefore : (c d e : Container) → NotBefore c d → NotBefore d e → NotBefore c e
unfolding lt64
trans-NotBefore c d e h k = ground (arith, h, k)

insert-All :
    (P : Container → Type 0) (c : Container) (cs : List Container)
    → P c
    → All P cs
    → All P (insert c cs)
unfolding insert
insert-All P c [] p h = (p, tt)
insert-All P c (d ∷ ds) p h = elim (Bool-cases (less c d)) [
  | inl y ↦ rw y (p, h)
  | inr n ↦ rw n (h.0, insert-All P c ds p h.1)
]

insert-IsSorted : (c : Container) (cs : List Container) → IsSorted cs → IsSorted (insert c cs)
unfolding insert
insert-IsSorted c [] h = (tt, tt)
insert-IsSorted c (d ∷ ds) h = elim (Bool-cases (less c d)) [
  | inl y ↦
      let first = less-NotBefore c d y in
      rw y ((first, All-map _ _ ds (λ x k. trans-NotBefore c d x first k) h.0), h)
  | inr n ↦ rw n (insert-All _ c ds (more-NotBefore c d n) h.0, insert-IsSorted c ds h.1)
]

sort-IsSorted : (cs : List Container) → IsSorted (sort cs)
unfolding sort
sort-IsSorted [] = tt
sort-IsSorted (c ∷ cs) = insert-IsSorted c (sort cs) (sort-IsSorted cs)

-- The containers that are to be started, and those that actions start.
abbrev wanted : List Container → List Container
wanted [] = []
wanted (c ∷ cs) = if starts c then c ∷ wanted cs else wanted cs

abbrev pub started : List Action → List Container
started [] = []
started (start c ∷ as_) = c ∷ started as_
started (sleep n ∷ as_) = started as_

started-waits : (delay : String) (as_ : List Action) → started (waits delay ++ as_) ≡ started as_
unfolding waits
started-waits delay as_ = ground arith

start_each-wanted : (cs : List Container) → started (start_each cs) ≡ wanted cs
unfolding start_each
start_each-wanted [] = refl
start_each-wanted (c ∷ cs) = elim (Bool-cases (starts c)) [
  | inl y ↦
      let wait = started-waits c.autostart_delay (start_each cs) in
      let rest = start_each-wanted cs in cc (y, wait, rest)
  | inr n ↦ let rest = start_each-wanted cs in cc (n, rest)
]

wanted-All : (P : Container → Type 0) (cs : List Container) → All P cs → All P (wanted cs)
wanted-All P [] h = tt
wanted-All P (c ∷ cs) h = elim (Bool-cases (starts c)) [
  | inl y ↦ rw y (h.0, wanted-All P cs h.1)
  | inr n ↦ rw n (wanted-All P cs h.1)
]

wanted-IsSorted : (cs : List Container) → IsSorted cs → IsSorted (wanted cs)
wanted-IsSorted [] h = tt
wanted-IsSorted (c ∷ cs) h = elim (Bool-cases (starts c)) [
  | inl y ↦ rw y (wanted-All _ cs h.0, wanted-IsSorted cs h.1)
  | inr n ↦ rw n (wanted-IsSorted cs h.1)
]

wanted-one :
    (c : Container) (cs ds : List Container)
    → Perm (wanted cs) (wanted ds)
    → Perm (wanted (c ∷ cs)) (wanted (c ∷ ds))
wanted-one c cs ds p = elim (Bool-cases (starts c)) [
  | inl y ↦ rw y (Perm.cons c p)
  | inr n ↦ rw n p
]

wanted-two :
    (c d : Container) (cs : List Container) → Perm (wanted (c ∷ d ∷ cs)) (wanted (d ∷ c ∷ cs))
wanted-two c d cs = elim (Bool-cases (starts c)) [
  | inl y ↦ elim (Bool-cases (starts d)) [
    | inl z ↦ rw (y, z) (Perm.swap d c (wanted cs))
    | inr m ↦ rw (y, m) (Perm.refl (c ∷ wanted cs))
  ]
  | inr n ↦ rw n (Perm.refl (wanted (d ∷ cs)))
]

wanted-insert :
    (c : Container) (cs : List Container) → Perm (wanted (insert c cs)) (wanted (c ∷ cs))
unfolding insert
wanted-insert c [] = Perm.refl (wanted (c ∷ []))
wanted-insert c (d ∷ ds) = elim (Bool-cases (less c d)) [
  | inl y ↦ rw y (Perm.refl (wanted (c ∷ d ∷ ds)))
  | inr n ↦
      rw n
        (Perm.trans (wanted-one d (insert c ds) (c ∷ ds) (wanted-insert c ds)) (wanted-two d c ds))
]

wanted-sort : (cs : List Container) → Perm (wanted (sort cs)) (wanted cs)
unfolding sort
wanted-sort [] = Perm.nil
wanted-sort (c ∷ cs) =
    Perm.trans (wanted-insert c (sort cs)) (wanted-one c (sort cs) cs (wanted-sort cs))

-- A container that is to be started: it does not run, and boot.autostart is a word for yes, or is not set
-- while the container ran when the daemon was last stopped.
pub record IsWanted (c : Container) : Type 0 where
  pub idle : c.is_running ≡ false
  pub asked : IsYes c.autostart ⊎ ((c.autostart ≡ "") × (c.last_state ≡ "RUNNING"))

-- The containers of a list that are to be started, in their order.
pub data Chosen : List Container → List Container → Type 0 where
  nobody : Chosen [] []
  take :
      (c : Container) (cs ds : List Container)
      → IsWanted c
      → Chosen cs ds
      → Chosen (c ∷ cs) (c ∷ ds)
  leave :
      (c : Container) (cs ds : List Container) → ¬ IsWanted c → Chosen cs ds → Chosen (c ∷ cs) ds

starts-IsWanted : (c : Container) → starts c ≡ true → IsWanted c
unfolding starts
starts-IsWanted c h = record {
  idle = ground (arith, h);
  asked = elim (Bool-cases (is_true c.autostart)) [
    | inl y ↦ inl (is_true-IsYes c.autostart y)
    | inr n ↦ inr (
      ground (arith, h, n, eq_iff c.autostart ""),
      ground (arith, h, n, eq_iff c.last_state "RUNNING"),
    )
  ];
}

IsWanted-starts : (c : Container) → IsWanted c → starts c ≡ true
unfolding starts
IsWanted-starts c w = by_reason w.asked
  where
    by_reason :
        IsYes c.autostart ⊎ ((c.autostart ≡ "") × (c.last_state ≡ "RUNNING")) → starts c ≡ true
    by_reason (inl y) =
        let idle = w.idle in let word = IsYes-is_true c.autostart y in ground (arith, word, idle)
    by_reason (inr (e, f)) =
        let idle = w.idle in
        ground (arith, idle, e, f, eq_iff c.autostart "", eq_iff c.last_state "RUNNING")

wanted-Chosen : (cs : List Container) → Chosen cs (wanted cs)
wanted-Chosen [] = nobody
wanted-Chosen (c ∷ cs) = elim (Bool-cases (starts c)) [
  | inl y ↦ rw y (take c cs (wanted cs) (starts-IsWanted c y) (wanted-Chosen cs))
  | inr n ↦ rw n (leave c cs (wanted cs) (left n) (wanted-Chosen cs))
]
  where
    left : starts c ≡ false → ¬ IsWanted c
    left n w = let y = IsWanted-starts c w in cc (n, y)

-- What was done at the start.
pub record Restarted (cs : List Container) (actions : List Action) : Type 0 where
  -- Each container that is to be started and no other, as often as it is there.
  pub chosen : List Container
  pub choice : Chosen cs chosen
  pub those : Perm (started actions) chosen
  -- None before one with a higher priority.
  pub in_order : IsSorted (started actions)

-- Where all containers can be loaded, exactly those are started that do not run and whose
-- boot.autostart is a word for yes, or is not set while their last state was RUNNING, each once and
-- none before one with a higher priority.
pub containers_restart_lem :
    (all : List (Option Container)) (cs : List Container)
    → loaded all ≡ some cs
    → (actions : List Action) × (containers_restart all ≡ some actions) × Restarted cs actions
unfolding containers_restart
containers_restart_lem all cs e =
    let same = start_each-wanted (sort cs) in
    (
      start_each (sort cs),
      cc e,
      record {
        chosen = wanted cs;
        choice = wanted-Chosen cs;
        those = subst (λ l. Perm l (wanted cs)) (sym same) (wanted-sort cs);
        in_order = subst IsSorted (sym same) (wanted-IsSorted (sort cs) (sort-IsSorted cs));
      },
    )
