-- ===== src/Operations/Threads/Locks/Free.antt =====
-- The lock is always given back: no thread waits for ever.
use lxd_pkg_ubuntu.Prelude.{ℕ, suc, ◌≡◌, Bool, if◌then◌else◌, List, ◌∷◌, ◌++◌}
use lxd_pkg_ubuntu.Operations.Operation.{Operation}
use lxd_pkg_ubuntu.Operations.Threads.Ending.{Calm}
use lxd_pkg_ubuntu.Operations.Threads.Locks.{Place, Locked, Turn}
use lxd_pkg_ubuntu.Operations.Threads.Locks.Places.{all_at, holds, holders}

abbrev pub count : Bool → ℕ
count held = if held then 1 else 0

module _ {M : Type 0} where
  -- The lock is held exactly while one thread has it.
  abbrev pub IsFair : Locked M → Type 0
  IsFair w = holders w.places ≡ count w.held

  -- Steps from places at which no thread has panicked, which is the end of the daemon.
  pub data Turns (w : Locked M) : ℕ → Locked M → Type 0 where
    start : Turns w 0 w
    more :
        {n : ℕ} {v u : Locked M}
        → Turns w n v
        → Calm (all_at v.places)
        → Turn v u
        → Turns w (suc n) u

  -- The thread that has the lock.
  pub record Holder (ps : List (Place M)) : Type 0 where
    pub before : List (Place M)
    pub place : Place M
    pub after : List (Place M)
    pub parts : ps ≡ before ++ place ∷ after
    pub has_lock : holds place ≡ 1
