-- ===== src/Durations/Accepted.antt =====
-- The durations that are written in the grammar of ISO 8601 are accepted (engine/iso_8601.go).
use mathlib.Core.List.{append-nil}
use go_bpmn.Shared.{
  ℕ, ◌+◌, ◌≤◌, ◌<◌, ◌≡◌, refl, ap, sym, ◌∙◌, subst, true, false, List, [], ◌∷◌, ◌++◌, length,
  length-append, All, All-append, ◌==◌, ==_iff, if◌then◌else◌, some, inl, inr, arith,
}
use go_bpmn.Durations.Parse.{
  is_digit, digits, behind, pass_after, pass, is_nil, matches_date, matches_time, split, add_first,
  next_piece, matches_start, matches_pieces, is_duration, new_iso_8601_duration,
}
use go_bpmn.Durations.Grammar.{
  Part, text_of, IsNumber, Follows, Duration, time_text, written, date_units, time_units,
  IsDuration, pass_all,
}

-- A unit is neither a digit nor the T in front of the time.
abbrev IsPlain : ℕ → Type 0
IsPlain c = (is_digit c ≡ false) × ((c == b'T') ≡ false)

-- Units of which none stands twice.
abbrev Units : List ℕ → Type 0
Units [] = Unit {0}
Units (u ∷ us) = IsPlain u × All (λ v. (v == u) ≡ false) us × Units us

date_Units : Units date_units
date_Units = (
  (refl, refl),
  (refl, (refl, (refl, tt))),
  ((refl, refl), (refl, (refl, tt)), ((refl, refl), (refl, tt), ((refl, refl), tt, tt))),
)

time_Units : Units time_units
time_Units = ((refl, refl), (refl, (refl, tt)), ((refl, refl), (refl, tt), ((refl, refl), tt, tt)))

number-digits : (ds : List ℕ) → IsNumber ds → All (λ c. is_digit c ≡ true) ds
number-digits [] h = absurd h
number-digits (d ∷ ds) h = h

digits-number :
    (ds : List ℕ) (c : ℕ) (s : List ℕ)
    → All (λ d. is_digit d ≡ true) ds
    → is_digit c ≡ false
    → (digits (ds ++ c ∷ s) ≡ ds) × (behind (ds ++ c ∷ s) ≡ c ∷ s)
digits-number [] c s a h = (rw h refl, rw h refl)
digits-number (d ∷ ds) c s a h =
    let (front, rest) = digits-number ds c s a.1 h in (rw a.0 (ap (λ v. d ∷ v) front), rw a.0 rest)

-- A group passes a part with its unit, and no other part.
pass-part :
    (u : ℕ) (p : Part) (s : List ℕ)
    → IsNumber p.number
    → is_digit p.unit ≡ false
    → pass u (p.number ++ p.unit ∷ s) ≡ (if p.unit == u then s else p.number ++ p.unit ∷ s)
unfolding pass
pass-part u p s number plain =
    let (front, rest) = digits-number p.number p.unit s (number-digits p.number number) plain in
    rw (front, rest) (after p.number number)
  where
    after :
        (ds : List ℕ)
        → IsNumber ds
        → pass_after u (p.number ++ p.unit ∷ s) ds (p.unit ∷ s)
          ≡ (if p.unit == u then s else p.number ++ p.unit ∷ s)
    after [] h = absurd h
    after (d ∷ ds) h = unfold pass_after in refl

-- The first part has a unit of the list.
Follows-first :
    (P : ℕ → Type 0) (us : List ℕ) (p : Part) (ps : List Part)
    → All P us
    → Follows us (p ∷ ps)
    → P p.unit × IsNumber p.number
Follows-first P [] p ps a f = absurd f
Follows-first P (u ∷ us) p ps a (inl (is_u, number, rest)) = (subst P (sym is_u) a.0, number)
Follows-first P (u ∷ us) p ps a (inr later) = Follows-first P us p ps a.1 later

Units-IsPlain : (us : List ℕ) → Units us → All IsPlain us
Units-IsPlain [] h = tt
Units-IsPlain (u ∷ us) (plain, other, rest) = (plain, Units-IsPlain us rest)

pass_all-nil : (us : List ℕ) → pass_all us [] ≡ []
unfolding pass pass_after
pass_all-nil [] = refl
pass_all-nil (u ∷ us) = pass_all-nil us

pass_all-text_of :
    (us : List ℕ) (ps : List Part) → Units us → Follows us ps → pass_all us (text_of ps) ≡ []
pass_all-text_of us [] h f = pass_all-nil us
pass_all-text_of [] (p ∷ ps) h f = absurd f
pass_all-text_of (u ∷ us) (p ∷ ps) (plain, other, rest) (inl (is_u, number, f)) =
    let passed : pass u (text_of (p ∷ ps)) ≡ text_of ps =
      pass-part u p (text_of ps) number (subst (λ c. is_digit c ≡ false) (sym is_u) plain.0)
      ∙ rw ((==_iff p.unit u).1 is_u) refl in
    ap (pass_all us) passed ∙ pass_all-text_of us ps rest f
pass_all-text_of (u ∷ us) (p ∷ ps) (plain, other, rest) (inr f) =
    let (p_plain, number) = Follows-first IsPlain us p ps (Units-IsPlain us rest) f in
    let (miss, _) = Follows-first (λ v. (v == u) ≡ false) us p ps other f in
    let passed : pass u (text_of (p ∷ ps)) ≡ text_of (p ∷ ps) =
      pass-part u p (text_of ps) number p_plain.0 ∙ rw miss refl in
    ap (pass_all us) passed ∙ pass_all-text_of us (p ∷ ps) rest f

abbrev NoStart : List ℕ → Type 0
NoStart = All (λ c. (c == b'T') ≡ false)

digits-NoStart : (ds : List ℕ) → All (λ c. is_digit c ≡ true) ds → NoStart ds
digits-NoStart [] a = tt
digits-NoStart (d ∷ ds) a = (ground (arith, a.0), digits-NoStart ds a.1)

-- Parts have no T, and each has two characters at least.
text_of-NoStart : (us : List ℕ) (ps : List Part) → Units us → Follows us ps → NoStart (text_of ps)
text_of-NoStart us [] h f = tt
text_of-NoStart [] (p ∷ ps) h f = absurd f
text_of-NoStart (u ∷ us) (p ∷ ps) (plain, other, rest) (inl (is_u, number, f)) =
    All-append (λ c. (c == b'T') ≡ false) p.number (p.unit ∷ text_of ps)
      (digits-NoStart p.number (number-digits p.number number))
      (subst (λ c. (c == b'T') ≡ false) (sym is_u) plain.1, text_of-NoStart us ps rest f)
text_of-NoStart (u ∷ us) (p ∷ ps) (plain, other, rest) (inr f) = text_of-NoStart us (p ∷ ps) rest f

text_of-length :
    (us : List ℕ) (p : Part) (ps : List Part)
    → Units us
    → Follows us (p ∷ ps)
    → 2 ≤ length (text_of (p ∷ ps))
text_of-length us p ps h f =
    let (_, number) = Follows-first IsPlain us p ps (Units-IsPlain us h) f in
    omega (arith, length-append p.number (p.unit ∷ text_of ps), not_empty p.number number)
  where
    not_empty : (ds : List ℕ) → IsNumber ds → 0 < length ds
    not_empty [] e = absurd e
    not_empty (d ∷ ds) e = omega arith

split-plain : (xs : List ℕ) → NoStart xs → split xs ≡ (xs, [])
unfolding split
split-plain [] a = refl
split-plain (x ∷ xs) a = rw a.0 (ap (add_first x) (split-plain xs a.1))

split-start : (xs ys : List ℕ) → NoStart xs → NoStart ys → split (xs ++ b'T' ∷ ys) ≡ (xs, ys ∷ [])
unfolding split
split-start [] ys a b = ap next_piece (split-plain ys b)
split-start (x ∷ xs) ys a b = rw a.0 (ap (add_first x) (split-start xs ys a.1 b))

date_matches : (ps : List Part) → Follows date_units ps → matches_date (b'P' ∷ text_of ps) ≡ true
unfolding matches_date
date_matches ps f = ap is_nil (pass_all-text_of date_units ps date_Units f)

time_matches : (ps : List Part) → Follows time_units ps → matches_time (text_of ps) ≡ true
unfolding matches_time
time_matches ps f = ap is_nil (pass_all-text_of time_units ps time_Units f)

start_matches : (s : List ℕ) → matches_date (b'P' ∷ s) ≡ true → matches_start (b'P' ∷ s) ≡ true
unfolding matches_start
start_matches [] h = refl
start_matches (c ∷ s) h = h

pieces_match :
    (date time : List Part)
    → Follows date_units date
    → Follows time_units time
    → 0 < length date + length time
    → matches_pieces (split (b'P' ∷ text_of date ++ time_text time)) ≡ true
unfolding matches_pieces
pieces_match [] [] f g h = absurd (omega (arith, h))
pieces_match (p ∷ ps) [] f g h =
    let text = text_of (p ∷ ps) in
    let whole : text ++ [] ≡ text = append-nil text in
    let long = text_of-length date_units p ps date_Units f in
    ap (λ v. matches_pieces (split (b'P' ∷ v))) whole
    ∙ rw (split-plain (b'P' ∷ text) (refl, text_of-NoStart date_units (p ∷ ps) date_Units f))
        (ground (arith, long, date_matches (p ∷ ps) f))
pieces_match ps (q ∷ qs) f g h =
    let long = text_of-length time_units q qs time_Units g in
    rw
      (split-start (b'P' ∷ text_of ps) (text_of (q ∷ qs))
        (refl, text_of-NoStart date_units ps date_Units f)
        (text_of-NoStart time_units (q ∷ qs) time_Units g))
      (ground
        (arith, long, start_matches (text_of ps) (date_matches ps f), time_matches (q ∷ qs) g))

-- Each duration that is written in the grammar of ISO 8601 is accepted: a P, numbers with the units Y, M, W and D in
-- this order, and, if there are any, a T and numbers with the units H, M and S in this order, each unit at most
-- once, and at least one number in all.
pub new_iso_8601_duration-IsDuration :
    (d : Duration) → IsDuration d → new_iso_8601_duration (written d) ≡ some (written d)
unfolding new_iso_8601_duration is_duration
new_iso_8601_duration-IsDuration d h =
    rw (pieces_match d.date d.time h.is_date h.is_time h.has_part) refl
