-- ===== src/Idmap/Files/Small.antt =====
-- The numbers of an entry that has been read are small.
use lxd_pkg_ubuntu.Prelude.{
  ℕ, ◌^◌, ◌<◌, ◌≡◌, ◌∙◌, ap, refl, arith, inl, inr, subst, Bool, ◌||◌, List, [], ◌∷◌, Option, none,
  some, Result, ok, err, ◌>>=◌, bind-ok, Option-cases, All, Bool-cases,
}
use lxd_pkg_ubuntu.Prelude.Int64.{add64, lt64}
use lxd_pkg_ubuntu.Text.{number, parse_uint32, fields}
use lxd_pkg_ubuntu.Idmap.Entry.{Error, bad_idmap_type, IdmapEntry}
use lxd_pkg_ubuntu.Idmap.Files.{
  three_numbers, append_some, some_entries, before_comment, words, proc_fields, proc_line,
  proc_lines, get_from_proc, uint32_or, without_wraparound, kinds_of, parse_fields, parse,
}

pub parse_uint32-lt : (cs : List ℕ) (n : ℕ) → parse_uint32 cs ≡ some n → n < 2 ^ 32
unfolding parse_uint32
parse_uint32-lt cs n h = elim (Option-cases (number cs)) [
  | inl e ↦ ground (arith, h, e)
  | inr found ↦ let (m, e) = found in ground (arith, h, e)
]

-- The three numbers of a line.
abbrev pub AreSmall : ℕ × ℕ × ℕ → Type 0
AreSmall t = (t.0 < 2 ^ 32) × (t.1 < 2 ^ 32) × (t.2 < 2 ^ 32)

abbrev AllSmall : Option (ℕ × ℕ × ℕ) → Type 0
AllSmall none = Unit
AllSmall (some t) = AreSmall t

three-AllSmall :
    (a b c : Option ℕ)
    → ((n : ℕ) → a ≡ some n → n < 2 ^ 32)
    → ((n : ℕ) → b ≡ some n → n < 2 ^ 32)
    → ((n : ℕ) → c ≡ some n → n < 2 ^ 32)
    → AllSmall (three_numbers a b c)
three-AllSmall none b c f g h = tt
three-AllSmall (some n) none c f g h = tt
three-AllSmall (some n) (some m) none f g h = tt
three-AllSmall (some n) (some m) (some k) f g h = (f n refl, g m refl, h k refl)

fields-AllSmall : (fs : List (List ℕ)) (o : Option (ℕ × ℕ × ℕ)) → proc_fields fs ≡ ok o → AllSmall o
unfolding proc_fields
fields-AllSmall [] o h = cc h
fields-AllSmall (a ∷ []) o h = cc h
fields-AllSmall (a ∷ b ∷ []) o h = cc h
fields-AllSmall (a ∷ b ∷ c ∷ fs) o h =
    let same : three_numbers (parse_uint32 a) (parse_uint32 b) (parse_uint32 c) ≡ o = cc h in
    subst AllSmall same
      (three-AllSmall _ _ _ (parse_uint32-lt a) (parse_uint32-lt b) (parse_uint32-lt c))

line-AllSmall : (line : List ℕ) (o : Option (ℕ × ℕ × ℕ)) → proc_line line ≡ ok o → AllSmall o
unfolding proc_line
line-AllSmall line o h = by_text (before_comment line) h
  where
    by_text :
        (cs : List ℕ)
        → elim cs as (λ _. Result Error (Option (ℕ × ℕ × ℕ))) [
          | [] ↦ ok none
          | c ∷ ds ↦ proc_fields (words (c ∷ ds))
        ]
          ≡ ok o
        → AllSmall o
    by_text [] e = let same : none ≡ o = cc e in subst AllSmall same tt
    by_text (c ∷ ds) e = fields-AllSmall (words (c ∷ ds)) o e

append-AllSmall :
    (o : Option (ℕ × ℕ × ℕ)) (l : List (ℕ × ℕ × ℕ))
    → AllSmall o
    → All AreSmall l
    → All AreSmall (append_some o l)
append-AllSmall none l h k = k
append-AllSmall (some t) l h k = (h, k)

lines-AreSmall :
    (lines : List (List ℕ)) (ts : List (ℕ × ℕ × ℕ)) → proc_lines lines ≡ ok ts → All AreSmall ts
unfolding proc_lines
lines-AreSmall [] ts h = let same : [] ≡ ts = cc h in subst (All AreSmall) same tt
lines-AreSmall (line ∷ lines) ts h =
    let (o, e, h') = bind-ok (proc_line line) h in
    let (l, f, g) = bind-ok (proc_lines lines) h' in
    let same : append_some o l ≡ ts = cc g in
    subst (All AreSmall) same
      (append-AllSmall o l (line-AllSmall line o e) (lines-AreSmall lines l f))

-- What is read from a map file of the kernel are numbers of 32 bits.
pub get_from_proc-AreSmall :
    (lines : List (List ℕ)) (ts : List (ℕ × ℕ × ℕ)) → get_from_proc lines ≡ ok ts → All AreSmall ts
unfolding get_from_proc
get_from_proc-AreSmall lines ts h =
    let (l, e, g) = bind-ok (proc_lines lines) h in not_none _ l (lines-AreSmall lines l e) g
  where
    not_none :
        (x : Error) (l : List (ℕ × ℕ × ℕ))
        → All AreSmall l
        → some_entries x l ≡ ok ts
        → All AreSmall ts
    not_none x [] a g = cc g
    not_none x (t ∷ l) a g = let same : t ∷ l ≡ ts = cc g in subst (All AreSmall) same a

-- Each mapping that is parsed has numbers of 32 bits.
uint32_or-lt : (cs : List ℕ) (n : ℕ) → uint32_or (parse_uint32 cs) ≡ ok n → n < 2 ^ 32
uint32_or-lt cs n h = elim (Option-cases (parse_uint32 cs)) [
  | inl e ↦ cc (h, e)
  | inr found ↦
      let (m, e) = found in let same : m ≡ n = cc (h, e) in parse_uint32-lt cs n (e ∙ ap some same)
]

pub record HasSmall (e : IdmapEntry) : Type 0 where
  pub ns : e.nsid < 2 ^ 32
  pub host : e.hostid < 2 ^ 32
  pub size : e.maprange < 2 ^ 32

without-HasSmall : (e e' : IdmapEntry) → HasSmall e → without_wraparound e ≡ ok e' → e ≡ e'
unfolding without_wraparound
without-HasSmall e e' s h =
    elim (Bool-cases
      (lt64 (add64 e.hostid e.maprange) e.hostid || lt64 (add64 e.nsid e.maprange) e.nsid)) [
        | inl y ↦ cc (h, y)
        | inr n ↦ cc (h, n)
      ]

fields-HasSmall : (fs : List (List ℕ)) (e : IdmapEntry) → parse_fields fs ≡ ok e → HasSmall e
unfolding parse_fields
fields-HasSmall [] e h = cc h
fields-HasSmall (k ∷ []) e h = cc h
fields-HasSmall (k ∷ a ∷ []) e h = cc h
fields-HasSmall (k ∷ a ∷ b ∷ []) e h = cc h
fields-HasSmall (k ∷ a ∷ b ∷ c ∷ d ∷ fs) e h = cc h
fields-HasSmall (k ∷ a ∷ b ∷ c ∷ []) e h = by_kind (kinds_of k) h
  where
    by_kind :
        (o : Option (Bool × Bool))
        → elim o as (λ _. Result Error IdmapEntry) [
          | none ↦ err bad_idmap_type
          | some kinds ↦ uint32_or (parse_uint32 a) >>= λ nsid.
              uint32_or (parse_uint32 b) >>= λ hostid. uint32_or (parse_uint32 c) >>= λ maprange.
              without_wraparound (record {
                isuid = kinds.0;
                isgid = kinds.1;
                hostid = hostid;
                nsid = nsid;
                maprange = maprange;
              })
        ]
          ≡ ok e
        → HasSmall e
    by_kind none g = cc g
    by_kind (some kinds) g =
        let (n, en, g1) = bind-ok (uint32_or (parse_uint32 a)) g in
        let (m, em, g2) = bind-ok (uint32_or (parse_uint32 b)) g1 in
        let (l, el, g3) = bind-ok (uint32_or (parse_uint32 c)) g2 in
        let it : IdmapEntry = record {
          isuid = kinds.0;
          isgid = kinds.1;
          hostid = m;
          nsid = n;
          maprange = l;
        } in
        let small : HasSmall it = record {
          ns = uint32_or-lt a n en;
          host = uint32_or-lt b m em;
          size = uint32_or-lt c l el;
        } in
        subst HasSmall (without-HasSmall it e small g3) small

pub parse-HasSmall : (s : List ℕ) (e : IdmapEntry) → parse s ≡ ok e → HasSmall e
unfolding parse
parse-HasSmall s e h = fields-HasSmall (fields 58 s) e h
