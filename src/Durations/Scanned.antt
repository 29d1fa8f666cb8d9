-- ===== src/Durations/Scanned.antt =====
-- What `ISO8601Duration.Calculate` (engine/iso_8601.go) makes of a text that is written in the grammar: it scans
-- each part.
use Prim.Native.Nat.{◌^◌}
use native.Mathlib.Nat.{mul-one, add-mul, mul_assoc, pow-succ'}
use go_bpmn.Durations.Meaning.{decimal, number_of, moved_date}
use mathlib.Core.List.{append-nil, append_assoc}
use go_bpmn.Shared.{
  subst, if◌then◌else◌, ◌*◌, ltb, length-append, drop-zero, ℕ, suc, ◌+◌, ◌-◌, ◌≡◌, refl, ap, sym,
  ◌∙◌, Bool, true, false, ◌||◌, List, [], ◌∷◌, ◌++◌, length, drop, All, ◌==◌, inl, inr, arith,
}
use go_bpmn.Durations.Parse.{is_digit}
use go_bpmn.Durations.Calculate.{
  all_digits, value, Clock, is_letter, atoi, change, Scan, read_number, apply_unit, scan, calculate,
}
use go_bpmn.Durations.Grammar.{
  Part, text_of, IsNumber, Follows, Duration, time_text, written, date_units, time_units,
}

drop-front : (xs ys : List ℕ) → drop (length xs) (xs ++ ys) ≡ ys
drop-front [] ys = drop-zero ys
drop-front (x ∷ xs) ys = drop-front xs ys

positive : (ds : List ℕ) (l : ℕ) → IsNumber ds → (l + length ds == 0) ≡ false
positive [] l h = absurd h
positive (d ∷ ds) l h = ground arith

All-IsNumber : (ds : List ℕ) → IsNumber ds → All (λ c. is_digit c ≡ true) ds
All-IsNumber [] h = absurd h
All-IsNumber (d ∷ ds) h = h

-- A letter that is not the T in front of the time.
abbrev IsUnit : ℕ → Type 0
IsUnit u = (is_letter u ≡ true) × ((u == b'T') ≡ false)

abbrev IsPart : Part → Type 0
IsPart p = IsUnit p.unit × IsNumber p.number

pub Follows-IsPart : (us : List ℕ) (ps : List Part) → All IsUnit us → Follows us ps → All IsPart ps
Follows-IsPart us [] a f = tt
Follows-IsPart [] (p ∷ ps) a f = absurd f
Follows-IsPart (u ∷ us) (p ∷ ps) a (inl (same, number, rest)) =
    ((rw same a.0, number), Follows-IsPart us ps a.1 rest)
Follows-IsPart (u ∷ us) (p ∷ ps) a (inr later) = Follows-IsPart us (p ∷ ps) a.1 later

pub date_IsUnit : All IsUnit date_units
date_IsUnit = ((refl, refl), ((refl, refl), ((refl, refl), ((refl, refl), tt))))

pub time_IsUnit : All IsUnit time_units
time_IsUnit = ((refl, refl), ((refl, refl), ((refl, refl), tt)))

pub plus_zero : (n : ℕ) → n ≡ n + 0
plus_zero n = omega arith

pub zero_plus : (n : ℕ) → n ≡ 0 + n
zero_plus n = omega arith

value-decimal : (ds : List ℕ) (acc : ℕ) → value acc ds ≡ acc * 10 ^ length ds + decimal ds
value-decimal [] acc = omega (arith, mul-one acc)
value-decimal (d ∷ ds) acc =
    let power = 10 ^ length ds in
    omega (
      arith,
      value-decimal ds (acc * 10 + (d - b'0')),
      add-mul (acc * 10) (d - b'0') power,
      mul_assoc acc 10 power,
      ap (λ k. acc * k) (pow-succ' 10 (length ds)),
    )

all_digits-IsNumber : (ds : List ℕ) → All (λ c. is_digit c ≡ true) ds → all_digits ds ≡ true
all_digits-IsNumber [] a = refl
all_digits-IsNumber (d ∷ ds) a = ground (arith, a.0, all_digits-IsNumber ds a.1)

-- The digits of a part are read as the number that they write.
pub atoi-number_of : (p : Part) → IsNumber p.number → atoi p.number ≡ number_of p
unfolding atoi
atoi-number_of p h = by_digits p.number h
  where
    by_digits :
        (ds : List ℕ)
        → IsNumber ds
        → atoi ds ≡ (if ltb (2 ^ 63 - 1) (decimal ds) then 2 ^ 63 - 1 else decimal ds)
    by_digits [] e = absurd e
    by_digits (d ∷ ds) e =
        let good = all_digits-IsNumber (d ∷ ds) (All-IsNumber (d ∷ ds) e) in
        let number : value 0 (d ∷ ds) ≡ decimal (d ∷ ds) =
          omega (arith, value-decimal (d ∷ ds) 0) in
        simp (good, number)

-- What holds of the units holds of the parts.
pub Follows-All :
    (P : ℕ → Type 0) (us : List ℕ) (ps : List Part)
    → All P us
    → Follows us ps
    → All (λ p. P p.unit × IsNumber p.number) ps
Follows-All P us [] a f = tt
Follows-All P [] (p ∷ ps) a f = absurd f
Follows-All P (u ∷ us) (p ∷ ps) a (inl (is_u, number, rest)) =
    ((subst P (sym is_u) a.0, number), Follows-All P us ps a.1 rest)
Follows-All P (u ∷ us) (p ∷ ps) a (inr later) = Follows-All P us (p ∷ ps) a.1 later

module _ (clock : Clock) where
  open clock use {Time, add_date, add}

  -- The time moved by each part in turn.
  abbrev pub moved : Bool → List Part → Time → Time
  moved is_time [] t = t
  moved is_time (p ∷ ps) t = moved is_time ps (change clock is_time p.unit (atoi p.number) t)

  change_digit :
      (is_time : Bool) (c n : ℕ) (t : Time) → is_digit c ≡ true → change clock is_time c n t ≡ t
  unfolding change
  change_digit is_time c n t h = ground (arith, h)

  abbrev past : List ℕ → Scan clock → Scan clock
  past ds s = record s { l = s.l + length ds; before = s.before ++ ds }

  read_digit :
      (c : ℕ) (s : Scan clock)
      → is_digit c ≡ true
      → read_number clock c s ≡ record s { l = suc s.l }
  unfolding read_number
  read_digit c s h = ground (arith, h)

  apply_digit :
      (c : ℕ) (s : Scan clock)
      → is_digit c ≡ true
      → apply_unit clock c s ≡ record s { before = s.before ++ c ∷ [] }
  unfolding apply_unit
  apply_digit c s h = ground (arith, h, change_digit s.is_time c s.n s.time h)

  scan_digits :
      (ds rest : List ℕ) (s : Scan clock)
      → All (λ c. is_digit c ≡ true) ds
      → scan clock (ds ++ rest) s ≡ scan clock rest (past ds s)
  unfolding scan
  scan_digits [] rest s a =
      let none_more : s.l + 0 ≡ s.l = omega arith in
      ap (λ (q : Scan clock). scan clock rest q) (simp (append-nil s.before, none_more))
  scan_digits (d ∷ ds) rest s a =
      ap (scan clock (ds ++ rest)) (
        ap (apply_unit clock d) (read_digit d s a.0) ∙ apply_digit d (record s { l = suc s.l }) a.0)
      ∙ scan_digits ds rest (record s { l = suc s.l; before = s.before ++ d ∷ [] }) a.1
      ∙ ap (scan clock rest) (joined d ds s)
    where
      joined :
          (c : ℕ) (cs : List ℕ) (q : Scan clock)
          → past cs (record q { l = suc q.l; before = q.before ++ c ∷ [] }) ≡ past (c ∷ cs) q
      joined c cs q =
          let more : suc q.l + length cs ≡ q.l + suc (length cs) = omega arith in
          simp (more, append_assoc q.before (c ∷ []) cs)

  -- A letter behind digits reads them.
  read_letter :
      (c : ℕ) (ds : List ℕ) (s : Scan clock)
      → is_letter c ≡ true
      → IsNumber ds
      → s.l ≡ 0
      → read_number clock c (past ds s) ≡ record (past ds s) { n = atoi ds; l = 0 }
  unfolding read_number
  read_letter c ds s letter number none_yet =
      let place : length (s.before ++ ds) - (s.l + length ds) ≡ length s.before =
        omega (arith, length-append s.before ds) in
      let found : drop (length (s.before ++ ds) - (s.l + length ds)) (s.before ++ ds) ≡ ds =
        ap (λ k. drop k (s.before ++ ds)) place ∙ drop-front s.before ds in
      let some_digits : (s.l + length ds == 0) ≡ false = positive ds s.l number in
      simp (letter, some_digits, found)

  abbrev applied : Part → Scan clock → Scan clock
  applied p s = record s {
    time = change clock s.is_time p.unit (atoi p.number) s.time;
    n = atoi p.number;
    l = 0;
    before = (s.before ++ p.number) ++ p.unit ∷ [];
  }

  apply_letter :
      (p : Part) (s : Scan clock)
      → (p.unit == b'T') ≡ false
      → apply_unit clock p.unit (record (past p.number s) { n = atoi p.number; l = 0 })
        ≡ applied p s
  unfolding apply_unit
  apply_letter p s no_start =
      let same : (s.is_time || p.unit == b'T') ≡ s.is_time = ground (arith, no_start) in simp same

  scan_part :
      (p : Part) (v : List ℕ) (s : Scan clock)
      → IsPart p
      → s.l ≡ 0
      → scan clock (p.number ++ p.unit ∷ v) s ≡ scan clock v (applied p s)
  unfolding scan
  scan_part p v s a none_yet =
      scan_digits p.number (p.unit ∷ v) s (All-IsNumber p.number a.1)
      ∙ ap (scan clock v) (
          ap (apply_unit clock p.unit) (read_letter p.unit p.number s a.0.0 a.1 none_yet)
          ∙ apply_letter p s a.0.1)

  scan_parts :
      (ps : List Part) (rest : List ℕ) (s : Scan clock)
      → All IsPart ps
      → s.l ≡ 0
      → (t : Scan clock) × (scan clock (text_of ps ++ rest) s ≡ scan clock rest t)
        × (t.time ≡ moved s.is_time ps s.time)
        × (t.is_time ≡ s.is_time)
        × (t.l ≡ 0)
  scan_parts [] rest s a none_yet = (s, refl, refl, refl, none_yet)
  scan_parts (p ∷ ps) rest s a none_yet =
      let (t, scanned, time, is_time, l) = scan_parts ps rest (applied p s) a.1 refl in
      (
        t,
        ap (λ v. scan clock v s) (append_assoc p.number (p.unit ∷ text_of ps) rest)
            ∙ scan_part p (text_of ps ++ rest) s a.0 none_yet
            ∙ scanned,
        time,
        is_time,
        l,
      )

  scan_start :
      (v : List ℕ) (t : Time)
      → scan clock (b'P' ∷ v) (record { time = t; is_time = false; l = 0; n = 0; before = [] })
        ≡ scan clock v (record { time = t; is_time = false; l = 0; n = 0; before = b'P' ∷ [] })
  unfolding scan read_number apply_unit change
  scan_start v t = refl

  scan_time :
      (v : List ℕ) (s : Scan clock)
      → s.l ≡ 0
      → scan clock (b'T' ∷ v) s
        ≡ scan clock v (record s { is_time = true; before = s.before ++ b'T' ∷ [] })
  unfolding scan read_number apply_unit change
  scan_time v s none_yet = ap (scan clock v) (ground (arith, none_yet))

  -- The time moved by the date, and then by the time.
  abbrev pub scanned_by : Duration → Time → Time
  scanned_by d t = moved true d.time (moved false d.date t)

  scan_rest :
      (ps : List Part) (u : Scan clock)
      → All IsPart ps
      → u.l ≡ 0
      → (scan clock (time_text ps) u).time ≡ moved true ps u.time
  scan_rest [] u a none_yet = unfold scan in refl
  scan_rest (p ∷ ps) u a none_yet =
      let marked = record u { is_time = true; before = u.before ++ b'T' ∷ [] } in
      let (t, scanned, time, is_time, l) = scan_parts (p ∷ ps) [] marked a none_yet in
      ap (λ (q : Scan clock). q.time)
        (scan_time (text_of (p ∷ ps)) u none_yet
          ∙ ap (λ v. scan clock v marked) (sym (append-nil (text_of (p ∷ ps))))
          ∙ scanned
          ∙ at_end t)
      ∙ time
    where
      at_end : (q : Scan clock) → scan clock [] q ≡ q
      at_end q = unfold scan in refl

  pub calculate-written :
      (d : Duration) (t : Time)
      → All IsPart d.date
      → All IsPart d.time
      → calculate clock (written d) t ≡ scanned_by d t
  unfolding calculate
  calculate-written d t date_parts time_parts =
      let init : Scan clock = record {
        time = t;
        is_time = false;
        l = 0;
        n = 0;
        before = b'P' ∷ [];
      } in
      let (u, scanned, moved_date, no_time, l) =
        scan_parts d.date (time_text d.time) init date_parts refl in
      ap (λ (q : Scan clock). q.time) (scan_start (text_of d.date ++ time_text d.time) t ∙ scanned)
      ∙ scan_rest d.time u time_parts l
      ∙ ap (moved true d.time) moved_date
