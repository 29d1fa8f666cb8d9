-- ===== src/Durations/Parse.antt =====
-- `NewISO8601Duration` of engine/iso_8601.go. A text is the list of its bytes.
use go_bpmn.Shared.{
  ℕ, Bool, true, false, ◌&&◌, ◌||◌, Option, none, some, List, [], ◌∷◌, length, leb, ◌==◌,
  if◌then◌else◌,
}

-- `\d`.
abbrev pub is_digit : ℕ → Bool
is_digit c = leb b'0' c && leb c b'9'

-- The digits at the start of a text, and what stands behind them.
abbrev pub digits : List ℕ → List ℕ
digits [] = []
digits (c ∷ s) = let more = digits s in if is_digit c then c ∷ more else []

abbrev pub behind : List ℕ → List ℕ
behind [] = []
behind (c ∷ s) = let rest = behind s in if is_digit c then rest else c ∷ s

-- `(\d+U)?`: a number with its unit is passed. The group has to match where it can: the digits that it would
-- leave stand before another unit than the groups behind it want.
unfoldable pub pass_after : ℕ → List ℕ → List ℕ → List ℕ → List ℕ
pass_after unit s [] after = s
pass_after unit s (d ∷ ds) [] = s
pass_after unit s (d ∷ ds) (c ∷ rest) = if c == unit then rest else s

unfoldable pub pass : ℕ → List ℕ → List ℕ
unfolding pass_after
pass unit s = pass_after unit s (digits s) (behind s)

abbrev pub is_nil : List ℕ → Bool
is_nil [] = true
is_nil (c ∷ s) = false

-- `^P(\d+Y)?(\d+M)?(\d+W)?(\d+D)?$`.
unfoldable pub matches_date : List ℕ → Bool
unfolding pass
matches_date [] = false
matches_date (c ∷ s) = c == b'P' && is_nil (pass b'D' (pass b'W' (pass b'M' (pass b'Y' s))))

-- `^(\d+H)?(\d+M)?(\d+S)?$`.
unfoldable pub matches_time : List ℕ → Bool
unfolding pass
matches_time s = is_nil (pass b'S' (pass b'M' (pass b'H' s)))

-- `strings.Split(v, "T")`: the first piece, and those behind it.
abbrev pub add_first : ℕ → List ℕ × List (List ℕ) → List ℕ × List (List ℕ)
add_first c (s, more) = (c ∷ s, more)

abbrev pub next_piece : List ℕ × List (List ℕ) → List ℕ × List (List ℕ)
next_piece (s, more) = ([], s ∷ more)

unfoldable pub split : List ℕ → List ℕ × List (List ℕ)
split [] = ([], [])
split (c ∷ s) = let rest = split s in if c == b'T' then next_piece rest else add_first c rest

-- The date in front of a time: `P` alone, or a date.
unfoldable pub matches_start : List ℕ → Bool
unfolding matches_date
matches_start (c ∷ []) = c == b'P' || matches_date (c ∷ [])
matches_start s = matches_date s

unfoldable pub matches_pieces : List ℕ × List (List ℕ) → Bool
unfolding matches_date matches_time matches_start
matches_pieces (date, []) = leb 3 (length date) && matches_date date
matches_pieces (date, time ∷ []) = leb 2 (length time) && matches_start date && matches_time time
matches_pieces (date, time ∷ other ∷ more) = false

-- The text is a duration; the empty text is one too.
unfoldable pub is_duration : List ℕ → Bool
unfolding split matches_pieces
is_duration [] = true
is_duration (c ∷ s) = matches_pieces (split (c ∷ s))

unfoldable pub new_iso_8601_duration : List ℕ → Option (List ℕ)
unfolding is_duration
new_iso_8601_duration v = if is_duration v then some v else none
