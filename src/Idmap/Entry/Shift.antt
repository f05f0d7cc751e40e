-- ===== src/Idmap/Entry/Shift.antt =====
-- The two shifts of one entry are inverse to each other.
use lxd_pkg_ubuntu.Prelude.{ℕ, ◌+◌, ◌-◌, ◌^◌, ◌<◌, ◌≡◌, ◌↔◌, arith, ok, err, if◌then◌else◌}
use lxd_pkg_ubuntu.Prelude.Int64.{add64, sub64, lt64, le64}
use lxd_pkg_ubuntu.Idmap.Entry.{mapping_does_not_apply, IdmapEntry, shift_into_ns, shift_from_ns}
use lxd_pkg_ubuntu.Idmap.Entry.Bounds.{IsBounded, in_range}

module _ (e : IdmapEntry) (id : ℕ) (b : IsBounded e) (w : id < 2 ^ 64) where
  pub shift_into_ns_lem : shift_into_ns e id ≡ (
      if in_range e.nsid e.maprange id
      then ok (id - e.nsid + e.hostid)
      else err mapping_does_not_apply)
  unfolding shift_into_ns add64 sub64 lt64 le64
  shift_into_ns_lem = ground arith

  pub shift_from_ns_lem : shift_from_ns e id ≡ (
      if in_range e.hostid e.maprange id
      then ok (id - e.hostid + e.nsid)
      else err mapping_does_not_apply)
  unfolding shift_from_ns add64 sub64 lt64 le64
  shift_from_ns_lem = ground arith

-- `shift_into_ns` takes an id to a host id exactly when `shift_from_ns` takes that to the id.
pub shift_from-shift_into :
    (e : IdmapEntry) (id h : ℕ)
    → IsBounded e
    → id < 2 ^ 64
    → h < 2 ^ 64
    → (shift_into_ns e id ≡ ok h) ↔ (shift_from_ns e h ≡ ok id)
shift_from-shift_into e id h b w v = (
  λ p. ground (arith, shift_into_ns_lem e id b w, shift_from_ns_lem e h b v),
  λ p. ground (arith, shift_into_ns_lem e id b w, shift_from_ns_lem e h b v),
)
