-- ===== src/Idmap/IdSet/Lookup.antt =====
-- What a set of entries maps: the loop of `doShiftIntoNs` against a search for the first entry that
-- holds the id.
use lxd_pkg_ubuntu.Prelude.{ℕ, ◌+◌, ◌-◌, ◌^◌, ◌<◌, ◌≡◌, refl, Bool, ◌&&◌, arith}
use lxd_pkg_ubuntu.Prelude.{if◌then◌else◌, Option, none, some, List, [], ◌∷◌, ◌++◌, All, ok, err}
use lxd_pkg_ubuntu.Prelude.Int64.{minus_one}
use lxd_pkg_ubuntu.Idmap.Entry.{IdmapEntry, mapping_does_not_apply}
use lxd_pkg_ubuntu.Idmap.Entry.Bounds.{IsBounded, in_range}
use lxd_pkg_ubuntu.Idmap.Entry.Shift.{shift_into_ns_lem, shift_from_ns_lem}
use lxd_pkg_ubuntu.Idmap.IdSet.{IdmapSet, How, into_ns, from_ns, shift_by, shift_round, shift_loop}
use lxd_pkg_ubuntu.Idmap.IdSet.{do_shift_into_ns}

pub data Kind : Type 0 where
  user group : Kind

abbrev pub is_of : Kind → IdmapEntry → Bool
is_of user e = e.isuid
is_of group e = e.isgid

-- The ids that an entry maps, and what it maps them to.
abbrev pub source_of : How → IdmapEntry → ℕ
source_of into_ns e = e.nsid
source_of from_ns e = e.hostid

abbrev pub target_of : How → IdmapEntry → ℕ
target_of into_ns e = e.hostid
target_of from_ns e = e.nsid

abbrev pub hits : How → Kind → IdmapEntry → ℕ → Bool
hits how k e id = is_of k e && in_range (source_of how e) e.maprange id

abbrev pub image : How → IdmapEntry → ℕ → ℕ
image how e id = id - source_of how e + target_of how e

-- The image of an id under the first entry of its kind that holds it.
unfoldable pub find : How → Kind → ℕ → List IdmapEntry → Option ℕ
find how k id [] = none
find how k id (e ∷ es) = if hits how k e id then some (image how e id) else find how k id es

abbrev pub or_else : Option ℕ → Option ℕ → Option ℕ
or_else none y = y
or_else (some x) y = some x

pub find-append :
    (how : How) (k : Kind) (id : ℕ) (xs ys : List IdmapEntry)
    → find how k id (xs ++ ys) ≡ or_else (find how k id xs) (find how k id ys)
unfolding find
find-append how k id [] ys = refl
find-append how k id (x ∷ xs) ys = ground (arith, find-append how k id xs ys)

pub or_else-none : (o : Option ℕ) → or_else o none ≡ o
or_else-none none = refl
or_else-none (some v) = refl

-- -1 for an id that is not mapped.
abbrev pub or_minus_one : Option ℕ → ℕ
or_minus_one none = minus_one
or_minus_one (some v) = v

-- What one entry adds to the search.
abbrev one : How → Kind → ℕ → IdmapEntry → Option ℕ
one how k id e = if hits how k e id then some (image how e id) else none

abbrev IsSmall : Option ℕ → Type 0
IsSmall none = Unit
IsSmall (some v) = v < 2 ^ 34

one-IsSmall :
    (how : How) (k : Kind) (id : ℕ) (e : IdmapEntry) → IsBounded e → IsSmall (one how k id e)
one-IsSmall into_ns user id e b = ground arith
one-IsSmall into_ns group id e b = ground arith
one-IsSmall from_ns user id e b = ground arith
one-IsSmall from_ns group id e b = ground arith

or_else-IsSmall : (x y : Option ℕ) → IsSmall x → IsSmall y → IsSmall (or_else x y)
or_else-IsSmall none y hx hy = hy
or_else-IsSmall (some v) y hx hy = hx

shift_by_lem :
    (how : How) (e : IdmapEntry) (id : ℕ)
    → IsBounded e
    → id < 2 ^ 64
    → shift_by how e id ≡ (
        if in_range (source_of how e) e.maprange id
        then ok (image how e id)
        else err mapping_does_not_apply)
shift_by_lem into_ns e id b w = shift_into_ns_lem e id b w
shift_by_lem from_ns e id b w = shift_from_ns_lem e id b w

shift_round_lem :
    (how : How) (k : Kind) (e : IdmapEntry) (id : ℕ) (o : Option ℕ)
    → IsBounded e
    → id < 2 ^ 64
    → IsSmall o
    → shift_round how (is_of k e) e id (or_minus_one o) ≡ or_minus_one (or_else o (one how k id e))
unfolding shift_round
shift_round_lem how k e id none b w s = ground (arith, shift_by_lem how e id b w)
shift_round_lem how k e id (some v) b w s = ground arith

find_step :
    (how : How) (k : Kind) (id : ℕ) (o : Option ℕ) (e : IdmapEntry) (es : List IdmapEntry)
    → or_else (or_else o (one how k id e)) (find how k id es) ≡ or_else o (find how k id (e ∷ es))
unfolding find
find_step how k id none e es = ground arith
find_step how k id (some v) e es = refl

shift_loop_lem :
    (how : How) (uid gid : ℕ) (o p : Option ℕ) (es : List IdmapEntry)
    → uid < 2 ^ 64
    → gid < 2 ^ 64
    → IsSmall o
    → IsSmall p
    → All IsBounded es
    → shift_loop how uid gid (or_minus_one o, or_minus_one p) es ≡ (
      or_minus_one (or_else o (find how user uid es)),
      or_minus_one (or_else p (find how group gid es)),
    )
unfolding shift_loop find
shift_loop_lem how uid gid o p [] wu wg so sp b = rw (or_else-none o, or_else-none p)
shift_loop_lem how uid gid o p (e ∷ es) wu wg so sp b =
    rw (shift_round_lem how user e uid o b.0 wu so, shift_round_lem how group e gid p b.0 wg sp)
      (rw (← find_step how user uid o e es, ← find_step how group gid p e es)
        (shift_loop_lem how uid gid (or_else o (one how user uid e))
          (or_else p (one how group gid e)) es wu wg
          (or_else-IsSmall o _ so (one-IsSmall how user uid e b.0))
          (or_else-IsSmall p _ sp (one-IsSmall how group gid e b.0)) b.1))

-- `doShiftIntoNs`, in both directions, maps each id by the first entry of its kind that holds it, and
-- to -1 if there is none.
pub do_shift_into_ns-find :
    (how : How) (m : IdmapSet) (uid gid : ℕ)
    → All IsBounded m.idmap
    → uid < 2 ^ 64
    → gid < 2 ^ 64
    → do_shift_into_ns how m uid gid
      ≡ (or_minus_one (find how user uid m.idmap), or_minus_one (find how group gid m.idmap))
unfolding do_shift_into_ns
do_shift_into_ns-find how m uid gid b wu wg =
    shift_loop_lem how uid gid none none m.idmap wu wg tt tt b
