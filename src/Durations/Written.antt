-- ===== src/Durations/Written.antt =====
-- What a text means that is accepted as a duration: it is written in the grammar of ISO 8601, and the time is
-- moved by its parts, from left to right.
use Prim.Native.Nat.{◌%◌, ◌^◌}
use go_bpmn.Durations.Meaning.{number_of, move_date, move_time, moved_date, moved_time, moved_by}
use go_bpmn.Shared.{◌*◌, ℕ, ◌≡◌, refl, ap, ◌∙◌, true, false, List, [], ◌∷◌, All, some}
use go_bpmn.Durations.Parse.{split, is_duration, new_iso_8601_duration}
use go_bpmn.Durations.Calculate.{Clock, atoi, change, calculate}
use go_bpmn.Durations.Grammar.{
  Part, IsNumber, Duration, written, date_units, time_units, IsDuration, join-split, pieces_written,
  accepted,
}
use go_bpmn.Durations.Scanned.{
  date_IsUnit, time_IsUnit, Follows-IsPart, Follows-All, plus_zero, zero_plus, atoi-number_of,
  moved, scanned_by, calculate-written,
}

module _ (clock : Clock) where
  open clock use {Time, add_date, add}

  change_date :
      All (λ u. (n : ℕ) (t : Time) → change clock false u n t ≡ move_date clock u n t) date_units
  unfolding change
  change_date = (
    λ n t. refl,
    (
      λ n t. refl,
      (
        λ n t. ap (λ d. add_date 0 0 d t) (plus_zero (n * 7 % 2 ^ 64)),
        (λ n t. ap (λ d. add_date 0 0 d t) (zero_plus n), tt),
      ),
    ),
  )

  change_time :
      All (λ u. (n : ℕ) (t : Time) → change clock true u n t ≡ move_time clock u n t) time_units
  unfolding change
  change_time = (λ n t. refl, (λ n t. refl, (λ n t. refl, tt)))

  moved-date :
      (ps : List Part) (t : Time)
      → All
          (λ p.
            ((n : ℕ) (s : Time) → change clock false p.unit n s ≡ move_date clock p.unit n s)
            × IsNumber p.number)
          ps
      → moved clock false ps t ≡ moved_date clock ps t
  moved-date [] t a = refl
  moved-date (p ∷ ps) t a =
      ap (moved clock false ps)
        (a.0.0 (atoi p.number) t ∙ ap (λ n. move_date clock p.unit n t) (atoi-number_of p a.0.1))
      ∙ moved-date ps (move_date clock p.unit (number_of p) t) a.1

  moved-time :
      (ps : List Part) (t : Time)
      → All
          (λ p.
            ((n : ℕ) (s : Time) → change clock true p.unit n s ≡ move_time clock p.unit n s)
            × IsNumber p.number)
          ps
      → moved clock true ps t ≡ moved_time clock ps t
  moved-time [] t a = refl
  moved-time (p ∷ ps) t a =
      ap (moved clock true ps)
        (a.0.0 (atoi p.number) t ∙ ap (λ n. move_time clock p.unit n t) (atoi-number_of p a.0.1))
      ∙ moved-time ps (move_time clock p.unit (number_of p) t) a.1

  scanned-moved :
      (d : Duration) (t : Time) → IsDuration d → scanned_by clock d t ≡ moved_by clock d t
  scanned-moved d t good =
      ap (moved clock true d.time)
        (moved-date d.date t (Follows-All _ date_units d.date change_date good.is_date))
      ∙ moved-time d.time (moved_date clock d.date t)
          (Follows-All _ time_units d.time change_time good.is_time)

  -- A text that is accepted, and not empty, is written in the grammar of ISO 8601 durations: a P, numbers with the
  -- units Y, M, W and D in this order, and, if there are any, a T and numbers with the units H, M and S in this
  -- order, at least one number in all. A time is moved by these parts from left to right: in front of the T by as
  -- many years, months, seven days and days, and behind it by as many hours, minutes and seconds, as the decimal
  -- digits say; a number that needs more than 63 bits counts as the largest that does not, and a product keeps
  -- its lowest 64 bits.
  pub new_iso_8601_duration-Written :
      (c : ℕ) (v : List ℕ)
      → new_iso_8601_duration (c ∷ v) ≡ some (c ∷ v)
      → (d : Duration) × (c ∷ v ≡ written d)
        × IsDuration d
        × ((t : Time) → calculate clock (c ∷ v) t ≡ moved_by clock d t)
  unfolding is_duration
  new_iso_8601_duration-Written c v h =
      let (d, text, good) =
        pieces_written (c ∷ v) (split (c ∷ v)) (accepted (c ∷ v) h) (join-split (c ∷ v)) in
      (
        d,
        text,
        good,
        λ t. rw text (
            calculate-written clock d t (Follows-IsPart date_units d.date date_IsUnit good.is_date)
              (Follows-IsPart time_units d.time time_IsUnit good.is_time)
            ∙ scanned-moved d t good),
      )
