-- ===== src/Idmap/IdSet/Consistent.antt =====
-- Entries that do not contradict each other: together they map the ids of one kind one to one. Where
-- they are so, the two shifts of a set are inverse to each other.
use lxd_pkg_ubuntu.Prelude.{ℕ, ◌^◌, ◌<◌, ◌≡◌, ◌↔◌, inl, inr, refl, sym, ◌∙◌, ap, subst, true, arith}
use lxd_pkg_ubuntu.Prelude.{Option, none, some, List, [], ◌∷◌, All, Bool-cases}
use mathlib.Core.List.{Memᴰ}
use lxd_pkg_ubuntu.Idmap.Entry.{IdmapEntry}
use lxd_pkg_ubuntu.Idmap.Entry.Bounds.{IsBounded}
use lxd_pkg_ubuntu.Idmap.IdSet.{
  IdmapSet, How, into_ns, from_ns, set_shift_into_ns, set_shift_from_ns,
}
use lxd_pkg_ubuntu.Idmap.IdSet.Lookup.{
  Kind, user, group, hits, image, find, or_minus_one, do_shift_into_ns-find,
}

-- Where both entries map ids of kind `k`, they send equal ids, and only those, to one host id.
pub record Agree (e f : IdmapEntry) : Type 0 where
  pub one_to_one :
      (k : Kind) (a b : ℕ)
      → hits into_ns k e a ≡ true
      → hits into_ns k f b ≡ true
      → (a ≡ b) ↔ (image into_ns e a ≡ image into_ns f b)

pub record IsConsistent (l : List IdmapEntry) : Type 0 where
  pub agree : (e f : IdmapEntry) → Memᴰ e l → Memᴰ f l → Agree e f

pub Agree-refl : (e : IdmapEntry) → Agree e e
Agree-refl e = record { one_to_one = λ k a b h g. (λ p. ground arith, λ p. ground arith) }

pub Agree-symm : {e f : IdmapEntry} → Agree e f → Agree f e
Agree-symm g = record {
  one_to_one = λ k a b h h'. (
    λ p. sym ((g.one_to_one k b a h' h).0 (sym p)),
    λ p. sym ((g.one_to_one k b a h' h).1 (sym p)),
  );
}

-- What the search finds is the image under an entry of the list.
pub record Found (how : How) (k : Kind) (id v : ℕ) (l : List IdmapEntry) : Type 0 where
  pub entry : IdmapEntry
  pub member : Memᴰ entry l
  pub held : hits how k entry id ≡ true
  pub value : image how entry id ≡ v

pub find-Found :
    (how : How) (k : Kind) (id v : ℕ) (l : List IdmapEntry)
    → find how k id l ≡ some v
    → Found how k id v l
unfolding find
find-Found how k id v [] h = cc
find-Found how k id v (e ∷ l) h = elim (Bool-cases (hits how k e id)) [
  | inl y ↦ record { entry = e; member = Memᴰ.head refl; held = y; value = ground arith }
  | inr n ↦
      let f = find-Found how k id v l (ground arith) in
      record { entry = f.entry; member = Memᴰ.tail f.member; held = f.held; value = f.value }
]

-- An id that some entry holds is found.
pub find-total :
    (how : How) (k : Kind) (id : ℕ) (l : List IdmapEntry) (e : IdmapEntry)
    → Memᴰ e l
    → hits how k e id ≡ true
    → (v : ℕ) × (find how k id l ≡ some v)
unfolding find
find-total how k id [] e m h = elim m [ ]
find-total how k id (x ∷ l) e (Memᴰ.head p) h =
    (image how x id, rw (subst (λ y. hits how k y id ≡ true) p h))
find-total how k id (x ∷ l) e (Memᴰ.tail m) h = elim (Bool-cases (hits how k x id)) [
  | inl y ↦ (image how x id, rw y)
  | inr n ↦ let (v, q) = find-total how k id l e m h in (v, rw n q)
]

-- One entry, there and back.
there_and_back :
    (k : Kind) (e : IdmapEntry) (a : ℕ)
    → hits into_ns k e a ≡ true
    → (hits from_ns k e (image into_ns e a) ≡ true) × (image from_ns e (image into_ns e a) ≡ a)
there_and_back k e a h = (ground arith, ground arith)

back_and_there :
    (k : Kind) (e : IdmapEntry) (h : ℕ)
    → hits from_ns k e h ≡ true
    → (hits into_ns k e (image from_ns e h) ≡ true) × (image into_ns e (image from_ns e h) ≡ h)
back_and_there k e h p = (ground arith, ground arith)

module _ (k : Kind) (l : List IdmapEntry) (c : IsConsistent l) where
  find_back : (a h : ℕ) → find into_ns k a l ≡ some h → find from_ns k h l ≡ some a
  find_back a h p =
      let x = find-Found into_ns k a h l p in
      let tb = there_and_back k x.entry a x.held in
      let (v, q) =
        find-total from_ns k h l x.entry x.member
          (subst (λ t. hits from_ns k x.entry t ≡ true) x.value tb.0) in
      let y = find-Found from_ns k h v l q in
      let bt = back_and_there k y.entry h y.held in
      let same : a ≡ image from_ns y.entry h =
        ((c.agree x.entry y.entry x.member y.member).one_to_one k a (image from_ns y.entry h) x.held
            bt.0).1
          (x.value ∙ sym bt.1) in
      q ∙ ap some (sym (same ∙ y.value))

  find_there : (a h : ℕ) → find from_ns k h l ≡ some a → find into_ns k a l ≡ some h
  find_there a h p =
      let x = find-Found from_ns k h a l p in
      let bt = back_and_there k x.entry h x.held in
      let held : hits into_ns k x.entry a ≡ true =
        subst (λ t. hits into_ns k x.entry t ≡ true) x.value bt.0 in
      let (v, q) = find-total into_ns k a l x.entry x.member held in
      let y = find-Found into_ns k a v l q in
      let there : image into_ns x.entry a ≡ h = ap (image into_ns x.entry) (sym x.value) ∙ bt.1 in
      let same : image into_ns x.entry a ≡ image into_ns y.entry a =
        ((c.agree x.entry y.entry x.member y.member).one_to_one k a a held y.held).0 refl in
      q ∙ ap some (sym y.value ∙ sym same ∙ there)

find-small :
    (how : How) (k : Kind) (id v : ℕ) (l : List IdmapEntry)
    → All IsBounded l
    → find how k id l ≡ some v
    → v < 2 ^ 34
unfolding find
find-small how k id v [] b h = cc
find-small into_ns k id v (e ∷ l) b h = ground (arith, find-small into_ns k id v l b.1)
find-small from_ns k id v (e ∷ l) b h = ground (arith, find-small from_ns k id v l b.1)

-- -1 stands for `none` alone.
minus_one_only : (o : Option ℕ) (v : ℕ) → v < 2 ^ 34 → (or_minus_one o ≡ v) ↔ (o ≡ some v)
minus_one_only none v w = (λ h. absurd (omega arith), λ h. cc)
minus_one_only (some x) v w = (λ h. ap some h, λ h. ap or_minus_one h)

find_inverse :
    (k : Kind) (l : List IdmapEntry)
    → IsConsistent l
    → (a h : ℕ) → a < 2 ^ 34
    → h < 2 ^ 34
    → (or_minus_one (find into_ns k a l) ≡ h) ↔ (or_minus_one (find from_ns k h l) ≡ a)
find_inverse k l c a h wa wh =
    let there = minus_one_only (find into_ns k a l) h wh in
    let back = minus_one_only (find from_ns k h l) a wa in
    (λ p. back.1 (find_back k l c a h (there.0 p)), λ p. there.1 (find_there k l c a h (back.0 p)))

-- `ShiftIntoNs` and `ShiftFromNs` of a consistent set are inverse to each other, for uids and for
-- gids: one takes `u` to the host's `h` exactly when the other takes `h` to `u`.
pub set_shift_from-set_shift_into :
    (m : IdmapSet) (u g h j : ℕ)
    → All IsBounded m.idmap
    → IsConsistent m.idmap
    → u < 2 ^ 34
    → g < 2 ^ 34
    → h < 2 ^ 34
    → j < 2 ^ 34
    → (((set_shift_into_ns m u g).0 ≡ h) ↔ ((set_shift_from_ns m h j).0 ≡ u))
      × (((set_shift_into_ns m u g).1 ≡ j) ↔ ((set_shift_from_ns m h j).1 ≡ g))
unfolding set_shift_into_ns set_shift_from_ns
set_shift_from-set_shift_into m u g h j b c wu wg wh wj =
    rw
      (
        do_shift_into_ns-find into_ns m u g b (omega arith) (omega arith),
        do_shift_into_ns-find from_ns m h j b (omega arith) (omega arith),
      )
      (find_inverse user m.idmap c u h wu wh, find_inverse group m.idmap c g j wg wj)
