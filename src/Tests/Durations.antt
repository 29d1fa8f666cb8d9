-- ===== src/Tests/Durations.antt =====
-- A duration of a day and a minute.
use go_bpmn.Shared.{some, inl, inr, arith, ℕ, false, ◌+◌, ◌*◌, ◌≡◌, refl, List, [], ◌∷◌}
use go_bpmn.Durations.Parse.{new_iso_8601_duration, is_duration}
use go_bpmn.Durations.Calculate.{Clock, calculate}
use go_bpmn.Durations.Grammar.{Duration, written, IsDuration}
use go_bpmn.Durations.Accepted.{new_iso_8601_duration-IsDuration}
use go_bpmn.Durations.Meaning.{moved_by}
use go_bpmn.Durations.Written.{new_iso_8601_duration-Written}

-- A clock of nanoseconds, with months of 30 days and years of 365.
abbrev day : ℕ
day = 86400000000000

abbrev clock : Clock
clock = record {
  Time = ℕ;
  add_date = λ years months days t. t + (years * 365 + months * 30 + days) * day;
  add = λ n t. t + n;
}

-- P1DT2M
abbrev text : List ℕ
text = b'1' ∷ b'D' ∷ b'T' ∷ b'2' ∷ b'M' ∷ []

new_iso_8601_duration-Written_example :
    (d : Duration) × (b'P' ∷ text ≡ written d)
    × IsDuration d
    × ((t : ℕ) → calculate clock (b'P' ∷ text) t ≡ moved_by clock d t)
new_iso_8601_duration-Written_example =
    new_iso_8601_duration-Written clock b'P' text (unfold new_iso_8601_duration in refl)

-- P1DT2M by its parts.
abbrev parts : Duration
parts = record {
  date = record { number = b'1' ∷ []; unit = b'D' } ∷ [];
  time = record { number = b'2' ∷ []; unit = b'M' } ∷ [];
}

parts-IsDuration : IsDuration parts
parts-IsDuration = record {
  is_date = inr (inr (inr (inl (refl, (refl, tt), tt))));
  is_time = inr (inl (refl, (refl, tt), tt));
  has_part = omega arith;
}

new_iso_8601_duration-IsDuration_example : new_iso_8601_duration (b'P' ∷ text) ≡ some (b'P' ∷ text)
new_iso_8601_duration-IsDuration_example = new_iso_8601_duration-IsDuration parts parts-IsDuration

day_and_minutes : calculate clock (b'P' ∷ text) 5 ≡ 5 + day + 120000000000
unfolding calculate
day_and_minutes = refl

-- PT, P1 and PD1 are refused.
no_time : is_duration (b'P' ∷ b'T' ∷ []) ≡ false
unfolding is_duration
no_time = refl

no_unit : is_duration (b'P' ∷ b'1' ∷ b'0' ∷ []) ≡ false
unfolding is_duration
no_unit = refl

wrong_order : is_duration (b'P' ∷ b'1' ∷ b'D' ∷ b'1' ∷ b'Y' ∷ []) ≡ false
unfolding is_duration
wrong_order = refl
