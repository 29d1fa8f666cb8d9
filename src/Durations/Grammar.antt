-- ===== src/Durations/Grammar.antt =====
-- The texts that are accepted as durations: they are written in the grammar of ISO 8601.
use mathlib.Core.List.{append-nil}
use go_bpmn.Shared.{
  ℕ, suc, ◌+◌, ◌<◌, ◌≡◌, refl, ap, sym, ◌∙◌, ◌⊎◌, subst, Bool, true, ◌&&◌, List, [], ◌∷◌, ◌++◌,
  length, All, leb, ltb, ◌==◌, ==_iff, some, inl, inr, Bool-cases, arith,
}
use go_bpmn.Durations.Parse.{
  is_digit, digits, behind, pass_after, pass, is_nil, matches_date, matches_time, split, add_first,
  next_piece, matches_start, matches_pieces, is_duration, new_iso_8601_duration,
}

-- A number with its unit.
pub record Part : Type 0 where
  pub number : List ℕ
  pub unit : ℕ

abbrev pub text_of : List Part → List ℕ
text_of [] = []
text_of (p ∷ ps) = p.number ++ p.unit ∷ text_of ps

abbrev pub IsNumber : List ℕ → Type 0
IsNumber [] = ⊥
IsNumber (d ∷ ds) = (is_digit d ≡ true) × All (λ c. is_digit c ≡ true) ds

-- The parts have units of the list, in its order, and each at most once.
abbrev pub Follows : List ℕ → List Part → Type 0
Follows us [] = Unit
Follows [] (p ∷ ps) = ⊥
Follows (u ∷ us) (p ∷ ps) = ((p.unit ≡ u) × IsNumber p.number × Follows us ps) ⊎ Follows us (p ∷ ps)

digits-behind : (s : List ℕ) → digits s ++ behind s ≡ s
digits-behind [] = refl
digits-behind (c ∷ s) = elim (Bool-cases (is_digit c)) [
  | inl digit ↦ rw digit (ap (λ v. c ∷ v) (digits-behind s))
  | inr other ↦ rw other refl
]

All-digits : (s : List ℕ) → All (λ c. is_digit c ≡ true) (digits s)
All-digits [] = tt
All-digits (c ∷ s) = elim (Bool-cases (is_digit c)) [
  | inl digit ↦ rw digit (digit, All-digits s)
  | inr other ↦ rw other tt
]

-- A group passes nothing, or a number with its unit.
pass_cases :
    (u : ℕ) (s : List ℕ) → (pass u s ≡ s) ⊎ ((ds : List ℕ) × (s ≡ ds ++ u ∷ pass u s) × IsNumber ds)
unfolding pass
pass_cases u s = by_digits (digits s) (behind s) (digits-behind s) (All-digits s)
  where
    by_digits :
        (ds after : List ℕ)
        → ds ++ after ≡ s
        → All (λ c. is_digit c ≡ true) ds
        → (pass_after u s ds after ≡ s)
          ⊎ ((number : List ℕ) × (s ≡ number ++ u ∷ pass_after u s ds after) × IsNumber number)
    by_digits [] after e a = unfold pass_after in inl refl
    by_digits (d ∷ ds) [] e a = unfold pass_after in inl refl
    by_digits (d ∷ ds) (c ∷ rest) e a = elim (Bool-cases (c == u)) [
      | inl hit ↦
          let same = (==_iff c u).0 hit in
          unfold pass_after in
          inr (d ∷ ds, rw hit (sym (subst (λ x. (d ∷ ds) ++ x ∷ rest ≡ s) same e)), a)
      | inr miss ↦ unfold pass_after in inl (rw miss refl)
    ]

abbrev pub pass_all : List ℕ → List ℕ → List ℕ
pass_all [] s = s
pass_all (u ∷ us) s = pass_all us (pass u s)

-- What all groups together pass is written by parts with their units.
pass_all-Follows :
    (us s : List ℕ) → pass_all us s ≡ [] → (ps : List Part) × (s ≡ text_of ps) × Follows us ps
pass_all-Follows [] s e = ([], e, tt)
pass_all-Follows (u ∷ us) s e =
    let (ps, written, follows) = pass_all-Follows us (pass u s) e in
    elim (pass_cases u s) [
      | inl same ↦ (ps, sym same ∙ written, later u us ps follows)
      | inr (ds, front, number) ↦ (
        record { number = ds; unit = u } ∷ ps,
        front ∙ ap (λ v. ds ++ u ∷ v) written,
        inl (refl, number, follows),
      )
    ]
  where
    later : (v : ℕ) (vs : List ℕ) (qs : List Part) → Follows vs qs → Follows (v ∷ vs) qs
    later v vs [] f = tt
    later v vs (q ∷ qs) f = inr f

-- A duration as it is written: its date, and its time, if there is one.
pub record Duration : Type 0 where
  pub date : List Part
  pub time : List Part

abbrev pub time_text : List Part → List ℕ
time_text [] = []
time_text (p ∷ ps) = b'T' ∷ text_of (p ∷ ps)

abbrev pub written : Duration → List ℕ
written d = b'P' ∷ text_of d.date ++ time_text d.time

abbrev pub date_units : List ℕ
date_units = b'Y' ∷ b'M' ∷ b'W' ∷ b'D' ∷ []

abbrev pub time_units : List ℕ
time_units = b'H' ∷ b'M' ∷ b'S' ∷ []

-- The units in their order, and at least one part.
pub record IsDuration (d : Duration) : Type 0 where
  pub is_date : Follows date_units d.date
  pub is_time : Follows time_units d.time
  pub has_part : 0 < length d.date + length d.time

pub join : List ℕ × List (List ℕ) → List ℕ
join (s, []) = s
join (s, piece ∷ pieces) = s ++ b'T' ∷ join (piece, pieces)

pub join-split : (v : List ℕ) → join (split v) ≡ v
unfolding join split
join-split [] = refl
join-split (c ∷ v) = elim (Bool-cases (c == b'T')) [
  | inl start ↦ rw (start, (==_iff c b'T').0 start) (next (split v) (join-split v))
  | inr other ↦ rw other (first c (split v) ∙ ap (λ w. c ∷ w) (join-split v))
]
  where
    next : (p : List ℕ × List (List ℕ)) → join p ≡ v → join (next_piece p) ≡ b'T' ∷ v
    next (s, more) h = ap (λ w. b'T' ∷ w) h

    first : (k : ℕ) (p : List ℕ × List (List ℕ)) → join (add_first k p) ≡ k ∷ join p
    first k (s, []) = refl
    first k (s, piece ∷ pieces) = refl

is_nil-eq : (s : List ℕ) → is_nil s ≡ true → s ≡ []
is_nil-eq [] h = refl
is_nil-eq (c ∷ s) h = absurd (cc h)

matches_date-Follows :
    (s : List ℕ)
    → matches_date s ≡ true
    → (ps : List Part) × (s ≡ b'P' ∷ text_of ps) × Follows date_units ps
unfolding matches_date
matches_date-Follows [] h = absurd (cc h)
matches_date-Follows (c ∷ s) h = elim (Bool-cases (c == b'P')) [
  | inr other ↦ absurd (cc (rw other at h))
  | inl start ↦
      let (ps, text, follows) =
        pass_all-Follows date_units s
          (is_nil-eq (pass b'D' (pass b'W' (pass b'M' (pass b'Y' s)))) (rw start at h)) in
      (ps, rw ((==_iff c b'P').0 start) (ap (λ v. b'P' ∷ v) text), follows)
]

matches_start-Follows :
    (s : List ℕ)
    → matches_start s ≡ true
    → (ps : List Part) × (s ≡ b'P' ∷ text_of ps) × Follows date_units ps
unfolding matches_start
matches_start-Follows [] h = matches_date-Follows [] h
matches_start-Follows (c ∷ []) h = elim (Bool-cases (c == b'P')) [
  | inr other ↦ absurd (cc (rw other at h))
  | inl start ↦ ([], rw ((==_iff c b'P').0 start) refl, tt)
]
matches_start-Follows (c ∷ d ∷ s) h = matches_date-Follows (c ∷ d ∷ s) h

has_parts :
    (ps : List Part) (n : ℕ) → ltb n (suc (length (text_of ps))) ≡ true → 0 < n → 0 < length ps
has_parts [] n h k = absurd (ground (arith, h))
has_parts (p ∷ ps) n h k = omega arith

both_hold : (a b : Bool) → (a && b) ≡ true → (a ≡ true) × (b ≡ true)
both_hold a b h = (ground (arith, h), ground (arith, h))

-- A text of pieces that match is a duration.
pub pieces_written :
    (w : List ℕ) (p : List ℕ × List (List ℕ))
    → matches_pieces p ≡ true
    → join p ≡ w
    → (d : Duration) × (w ≡ written d) × IsDuration d
unfolding matches_pieces matches_time join
pieces_written w (date, []) h e =
    let (long, good) = both_hold (leb 3 (length date)) (matches_date date) h in
    let (ps, text, follows) = matches_date-Follows date good in
    let size : ltb 1 (suc (length (text_of ps))) ≡ true =
      ground (arith, long, ap (length {A = ℕ}) text) in
    (
      record { date = ps; time = [] },
      sym e ∙ text ∙ ap (λ v. b'P' ∷ v) (sym (append-nil (text_of ps))),
      record {
        is_date = follows;
        is_time = tt;
        has_part = omega (arith, has_parts ps 1 size (omega arith));
      },
    )
pieces_written w (date, time ∷ []) h e =
    let (front, good_time) =
      both_hold (leb 2 (length time) && matches_start date) (matches_time time) h in
    let (long, good_date) = both_hold (leb 2 (length time)) (matches_start date) front in
    let (ps, text, follows) = matches_start-Follows date good_date in
    let (qs, text', follows') =
      pass_all-Follows time_units time
        (is_nil-eq (pass b'S' (pass b'M' (pass b'H' time))) good_time) in
    let some_parts =
      has_parts qs 1 (ground (arith, long, ap (length {A = ℕ}) text')) (omega arith) in
    (
      record { date = ps; time = qs },
      sym e
          ∙ ap (λ v. v ++ b'T' ∷ time) text
          ∙ ap (λ v. b'P' ∷ text_of ps ++ v) (with_time qs some_parts text'),
      record { is_date = follows; is_time = follows'; has_part = omega (arith, some_parts) },
    )
  where
    with_time : (rs : List Part) → 0 < length rs → time ≡ text_of rs → b'T' ∷ time ≡ time_text rs
    with_time [] k same = absurd (omega (arith, k))
    with_time (r ∷ rs) k same = ap (λ v. b'T' ∷ v) same
pieces_written w (date, time ∷ other ∷ more) h e = absurd (cc h)

pub accepted : (v : List ℕ) → new_iso_8601_duration v ≡ some v → is_duration v ≡ true
unfolding new_iso_8601_duration
accepted v h = elim (Bool-cases (is_duration v)) [
  | inl yes_it_is ↦ yes_it_is
  | inr refused ↦ absurd (cc (rw (new_iso_8601_duration, refused) at h))
]
