-- ===== src/Idmap/IdSet/Apart.antt =====
-- Entries with no id and no host id in common agree.
use lxd_pkg_ubuntu.Prelude.{ℕ, ◌≡◌, ◌≢◌, refl, sym, ◌∙◌, subst, true, false, arith}
use lxd_pkg_ubuntu.Idmap.Entry.{IdmapEntry, intersects}
use lxd_pkg_ubuntu.Idmap.Entry.Bounds.{IsBounded, overlaps}
use lxd_pkg_ubuntu.Idmap.Entry.Overlap.{Clear, intersects_exact}
use lxd_pkg_ubuntu.Idmap.IdSet.{into_ns}
use lxd_pkg_ubuntu.Idmap.IdSet.Lookup.{Kind, user, group, hits, image}
use lxd_pkg_ubuntu.Idmap.IdSet.Consistent.{Agree}

-- `x` maps a part of what `e` maps, to the same ids.
pub record Restricts (x e : IdmapEntry) : Type 0 where
  pub held : (k : Kind) (id : ℕ) → hits into_ns k x id ≡ true → hits into_ns k e id ≡ true
  pub same :
      (k : Kind) (id : ℕ) → hits into_ns k x id ≡ true → image into_ns x id ≡ image into_ns e id

pub Restricts-refl : (e : IdmapEntry) → Restricts e e
Restricts-refl e = record { held = λ k id h. h; same = λ k id h. refl }

pub hosts_differ :
    (i e : IdmapEntry) (k : Kind) (a b : ℕ)
    → overlaps e.hostid e.maprange i.hostid i.maprange ≡ false
    → hits into_ns k e a ≡ true
    → hits into_ns k i b ≡ true
    → image into_ns e a ≢ image into_ns i b
hosts_differ i e k a b o h g p = absurd (ground arith)

-- What is left of an entry agrees with an entry that has other ids and other host ids.
pub Agree-apart :
    (i e x : IdmapEntry)
    → Restricts x e
    → ((k : Kind) (a : ℕ) → hits into_ns k x a ≡ true → hits into_ns k i a ≡ true → ⊥)
    → ((k : Kind) (a b : ℕ)
        → hits into_ns k e a ≡ true
        → hits into_ns k i b ≡ true
        → image into_ns e a ≢ image into_ns i b)
    → Agree x i
Agree-apart i e x r ids hosts = record {
  one_to_one = λ k a b p q. (
    λ eq. absurd (ids k a p (subst (λ t. hits into_ns k i t ≡ true) (sym eq) q)),
    λ eq. absurd (hosts k a b (r.held k a p) q (sym (r.same k a p) ∙ eq)),
  );
}

module _ (i e : IdmapEntry) (bi : IsBounded i) (be : IsBounded e) (c : Clear e i) where
  ids_differ :
      (k : Kind) (a : ℕ)
      → intersects e i ≡ false
      → hits into_ns k e a ≡ true
      → hits into_ns k i a ≡ true
      → ⊥
  ids_differ user a h p q = ground (arith, intersects_exact e i be bi c)
  ids_differ group a h p q = ground (arith, intersects_exact e i be bi c)

  kept_hosts :
      (k : Kind)
      → intersects e i ≡ false
      → (a b : ℕ) → hits into_ns k e a ≡ true
      → hits into_ns k i b ≡ true
      → image into_ns e a ≢ image into_ns i b
  kept_hosts user h a b p q =
      hosts_differ i e user a b (ground (arith, intersects_exact e i be bi c)) p q
  kept_hosts group h a b p q =
      hosts_differ i e group a b (ground (arith, intersects_exact e i be bi c)) p q

  pub kept-Agree : intersects e i ≡ false → Agree e i
  kept-Agree h =
      Agree-apart i e e (Restricts-refl e) (λ k a. ids_differ k a h) (λ k. kept_hosts k h)
