-- ===== src/Limits/Blocks/Valid.antt =====
-- Only block devices of the host get a limit.
use lxd_pkg_ubuntu.Prelude.{
  ℕ, ◌≡◌, refl, subst, inl, inr, arith, true, List, [], ◌∷◌, All, Option, none, some, Result, ok,
  err, ◌>>=◌, bind-ok, Bool-cases,
}
use lxd_pkg_ubuntu.Text.{same_codes}
use lxd_pkg_ubuntu.Limits.{Error, no_quota}
use lxd_pkg_ubuntu.Limits.Disk.{BlockLimit, device_parse_disk_limit}
use lxd_pkg_ubuntu.Limits.Blocks.{
  Disk, Backing, no_path, unknown, blocks, with_max, is_valid, parent_of, block_of, BlockLimits,
  add_limit, add_blocks, is_zero, add_disk, add_disks, average_each, get_disk_limits,
}

module _ (valid : List (List ℕ)) where
  abbrev AllValid : BlockLimits → Type 0
  AllValid m = All (λ p. is_valid p.0 valid ≡ true) m

  block_of-valid : (b block : List ℕ) → block_of valid b ≡ some block → is_valid block valid ≡ true
  unfolding block_of
  block_of-valid b block h = elim (Bool-cases (is_valid b valid)) [
    | inl y ↦
        let same : b ≡ block = ground (arith, y, h) in subst (λ x. is_valid x valid ≡ true) same y
    | inr n ↦ elim (Bool-cases (is_valid (parent_of b) valid)) [
      | inl y ↦
          let same : parent_of b ≡ block = ground (arith, n, y, h) in
          subst (λ x. is_valid x valid ≡ true) same y
      | inr k ↦ absurd (ground (arith, n, k, h))
    ]
  ]

  add_limit-AllValid :
      (block : List ℕ) (l : BlockLimit) (m : BlockLimits)
      → is_valid block valid ≡ true
      → AllValid m
      → AllValid (add_limit block l m)
  unfolding add_limit
  add_limit-AllValid block l [] v a = (v, tt)
  add_limit-AllValid block l ((b, ls) ∷ m) v a = elim (Bool-cases (same_codes b block)) [
    | inl y ↦ rw y (a.0, a.1)
    | inr n ↦ rw n (a.0, add_limit-AllValid block l m v a.1)
  ]

  add_blocks-AllValid :
      (l : BlockLimit) (bs : List (List ℕ)) (m m' : BlockLimits)
      → AllValid m
      → add_blocks valid l bs m ≡ ok m'
      → AllValid m'
  unfolding add_blocks
  add_blocks-AllValid l [] m m' a h = let same : m ≡ m' = cc h in subst AllValid same a
  add_blocks-AllValid l (b ∷ bs) m m' a h = by_block (block_of valid b) refl h (λ block v g.
      add_blocks-AllValid l bs (add_limit block l m) m' (add_limit-AllValid block l m v a) g)
    where
      by_block :
          (o : Option (List ℕ))
          → block_of valid b ≡ o
          → elim o as (λ _. Result Error BlockLimits) [
            | none ↦ err no_quota
            | some block ↦ add_blocks valid l bs (add_limit block l m)
          ]
            ≡ ok m'
          → ((block : List ℕ)
              → is_valid block valid ≡ true
              → add_blocks valid l bs (add_limit block l m) ≡ ok m'
              → AllValid m')
          → AllValid m'
      by_block none e g f = cc g
      by_block (some block) e g f = f block (block_of-valid b block e) g

  add_disk-AllValid :
      (l : BlockLimit) (backing : Backing) (m m' : BlockLimits)
      → AllValid m
      → add_disk valid l backing m ≡ ok m'
      → AllValid m'
  unfolding add_disk
  add_disk-AllValid l no_path m m' a h = let same : m ≡ m' = cc h in subst AllValid same a
  add_disk-AllValid l unknown m m' a h = elim (Bool-cases (is_zero l)) [
    | inl y ↦ let same : m ≡ m' = cc (h, y) in subst AllValid same a
    | inr n ↦ cc (h, n)
  ]
  add_disk-AllValid l (blocks bs) m m' a h = add_blocks-AllValid l bs m m' a h

  add_disks-AllValid :
      (backing : List ℕ → Backing) (ds : List Disk) (m m' : BlockLimits)
      → AllValid m
      → add_disks valid backing ds m ≡ ok m'
      → AllValid m'
  unfolding add_disks
  add_disks-AllValid backing [] m m' a h = let same : m ≡ m' = cc h in subst AllValid same a
  add_disks-AllValid backing (d ∷ ds) m m' a h = elim (Bool-cases d.is_disk) [
    | inr n ↦ add_disks-AllValid backing ds m m' a (cc (h, n))
    | inl y ↦
        let taken : (device_parse_disk_limit (with_max d).limits_read (with_max d).limits_write
              >>= λ l.
                  add_disk valid l (backing d.source) m >>= λ more. add_disks valid backing ds more)
            ≡ ok m' =
          cc (h, y) in
        let (l, e, g) =
          bind-ok (device_parse_disk_limit (with_max d).limits_read (with_max d).limits_write)
            taken in
        let (more, f, k) = bind-ok (add_disk valid l (backing d.source) m) g in
        add_disks-AllValid backing ds more m' (add_disk-AllValid l (backing d.source) m more a f) k
  ]

  average-AllValid :
      (m : BlockLimits) → AllValid m → All (λ p. is_valid p.0 valid ≡ true) (average_each m)
  average-AllValid [] a = tt
  average-AllValid ((b, ls) ∷ m) a = (a.0, average-AllValid m a.1)

  -- Every limit that a container gets is one of a block device that was found on the host.
  pub get_disk_limits-valid :
      (backing : List ℕ → Backing) (ds : List Disk) (r : List (List ℕ × BlockLimit))
      → get_disk_limits (some valid) backing ds ≡ ok r
      → All (λ p. is_valid p.0 valid ≡ true) r
  unfolding get_disk_limits
  get_disk_limits-valid backing ds r h =
      let (m, e, g) = bind-ok (add_disks valid backing ds []) h in
      let same : average_each m ≡ r = cc g in
      subst (All (λ p. is_valid p.0 valid ≡ true)) same
        (average-AllValid m (add_disks-AllValid backing ds [] m tt e))
