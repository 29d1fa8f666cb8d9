-- ===== src/Durations/Meaning.antt =====
-- What a duration means that is written in the grammar of ISO 8601: by which amounts a time is moved. Nothing
-- here uses engine/iso_8601.go but the parts of a text.
use Prim.Native.Nat.{◌%◌, ◌^◌}
use go_bpmn.Shared.{ℕ, ◌+◌, ◌-◌, ◌*◌, List, [], ◌∷◌, length, ltb, ◌==◌, if◌then◌else◌}
use go_bpmn.Durations.Calculate.{Clock}
use go_bpmn.Durations.Grammar.{Part, Duration}

-- The number that digits write, the first of which counts most.
abbrev pub decimal : List ℕ → ℕ
decimal [] = 0
decimal (d ∷ ds) = (d - b'0') * 10 ^ length ds + decimal ds

-- Numbers that need more than 63 bits count as the largest that does not.
abbrev pub number_of : Part → ℕ
number_of p = if ltb (2 ^ 63 - 1) (decimal p.number) then 2 ^ 63 - 1 else decimal p.number

-- The number, if the unit is the one that is meant.
abbrev pub amount_if : ℕ → ℕ → ℕ → ℕ
amount_if meant unit n = if unit == meant then n else 0

abbrev pub seconds_in : ℕ → ℕ
seconds_in unit = amount_if b'H' unit 3600 + amount_if b'M' unit 60 + amount_if b'S' unit 1

module _ (clock : Clock) where
  open clock use {Time, add_date, add}

  -- Years, months, and the days of which a week has seven.
  abbrev pub move_date : ℕ → ℕ → Time → Time
  move_date unit n t =
      add_date (amount_if b'Y' unit n) (amount_if b'M' unit n)
        (amount_if b'W' unit (n * 7 % 2 ^ 64) + amount_if b'D' unit n) t

  -- Nanoseconds: hours, minutes and seconds.
  abbrev pub move_time : ℕ → ℕ → Time → Time
  move_time unit n t = add (n * (seconds_in unit * 10 ^ 9) % 2 ^ 64) t

  abbrev pub moved_date : List Part → Time → Time
  moved_date [] t = t
  moved_date (p ∷ ps) t = moved_date ps (move_date p.unit (number_of p) t)

  abbrev pub moved_time : List Part → Time → Time
  moved_time [] t = t
  moved_time (p ∷ ps) t = moved_time ps (move_time p.unit (number_of p) t)

  -- First by the date, then by the time.
  abbrev pub moved_by : Duration → Time → Time
  moved_by d t = moved_time d.time (moved_date d.date t)
