-- ===== src/Durations/Calculate.antt =====
-- `ISO8601Duration.Calculate` of engine/iso_8601.go, for texts of ASCII characters.
use go_bpmn.Shared.{
  ℕ, suc, ◌+◌, ◌-◌, ◌*◌, Bool, true, false, not, ◌&&◌, ◌||◌, List, [], ◌∷◌, ◌++◌, length, drop, leb,
  ltb, ◌==◌, if◌then◌else◌,
}
use Prim.Native.Nat.{◌%◌, ◌^◌}
use go_bpmn.Durations.Parse.{is_digit, is_nil}

-- Go's `time.Time`, with `AddDate` for years, months and days, and `Add` for nanoseconds, which are the 64 bits
-- of a `time.Duration`.
pub record Clock : Type 1 where
  pub Time : Type 0
  pub add_date : ℕ → ℕ → ℕ → Time → Time
  pub add : ℕ → Time → Time

abbrev pub is_letter : ℕ → Bool
is_letter c = (leb b'A' c && leb c b'Z') || (leb b'a' c && leb c b'z')

abbrev pub max_int : ℕ
max_int = 9223372036854775807

-- `strconv.Atoi` without its error: digits that are too many give the largest number, and what is no number
-- gives 0.
abbrev pub value : ℕ → List ℕ → ℕ
value acc [] = acc
value acc (c ∷ s) = value (acc * 10 + (c - b'0')) s

abbrev pub all_digits : List ℕ → Bool
all_digits [] = true
all_digits (c ∷ s) = let rest = all_digits s in is_digit c && rest

unfoldable pub atoi : List ℕ → ℕ
atoi s =
    if is_nil s || not (all_digits s)
    then 0
    else if ltb max_int (value 0 s)
    then max_int
    else value 0 s

-- A product of 64 bits.
abbrev pub times : ℕ → ℕ → ℕ
times unit n = (n * unit) % 2 ^ 64

abbrev pub second : ℕ
second = 1000000000

module _ (clock : Clock) where
  open clock use {Time, add_date, add}

  -- The cases of the `switch` that change the time.
  unfoldable pub change : Bool → ℕ → ℕ → Time → Time
  change is_time c n t =
      if c == b'Y'
      then add_date n 0 0 t
      else if c == b'M'
      then (if is_time then add (times (60 * second) n) t else add_date 0 n 0 t)
      else if c == b'W'
      then add_date 0 0 (times 7 n) t
      else if c == b'D'
      then add_date 0 0 n t
      else if c == b'H'
      then add (times (3600 * second) n) t
      else if c == b'S'
      then add (times second n) t
      else t

  -- The variables of the loop: `before` is the text in front of the index.
  pub record Scan : Type 0 where
    pub time : Time
    pub is_time : Bool
    pub l : ℕ
    pub n : ℕ
    pub before : List ℕ

  unfoldable pub read_number : ℕ → Scan → Scan
  unfolding atoi
  read_number c s =
      if is_letter c && not (s.l == 0)
      then record s { n = atoi (drop (length s.before - s.l) s.before); l = 0 }
      else if is_digit c
      then record s { l = suc s.l }
      else s

  unfoldable pub apply_unit : ℕ → Scan → Scan
  unfolding change
  apply_unit c s = record s {
    time = change s.is_time c s.n s.time;
    is_time = s.is_time || c == b'T';
    before = s.before ++ c ∷ [];
  }

  unfoldable pub scan : List ℕ → Scan → Scan
  unfolding read_number apply_unit
  scan [] s = s
  scan (c ∷ v) s = scan v (apply_unit c (read_number c s))

  -- The empty duration leaves the time as it is.
  unfoldable pub calculate : List ℕ → Time → Time
  unfolding scan
  calculate v t =
      if is_nil v
      then t
      else (scan v (record { time = t; is_time = false; l = 0; n = 0; before = [] })).time
