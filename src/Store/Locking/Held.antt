-- ===== src/Store/Locking/Held.antt =====
-- How many rows are held: what `Lock` hands out is held afterwards.
use go_bpmn.Shared.{
  ℕ, suc, ◌+◌, ◌≤◌, ◌≡◌, refl, Bool, true, false, ◌&&◌, List, [], ◌∷◌, ℤ, length, count_if,
  count_if-append, inl, inr, Bool-cases, arith,
}
use go_bpmn.Store.Locking.{Table, is_skipped, is_reached, lock_rows, lock_table}

-- How many rows of a table pass a test.
abbrev pub total : {A : Type 0} → (A → Bool) → Table A → ℕ
total p [] = 0
total p ((key, rows) ∷ others) = count_if p rows + total p others

abbrev pub both : {A : Type 0} → (A → Bool) → (A → Bool) → A → Bool
both p q x = p x && q x

module _ {A : Type 0} (is_free is_locked wanted : A → Bool) (mark : A → A) where
  -- What the operation promises of each row that it marks.
  pub record Marks : Type 0 where
    pub was_unlocked : (x : A) → is_free x ≡ true → is_locked x ≡ false
    pub is_now_locked : (x : A) → is_locked (mark x) ≡ true
    pub stays_wanted : (x : A) → wanted (mark x) ≡ wanted x

  lock_rows-held :
      (m : Marks) (limit : ℤ) (taken : ℕ) (xs : List A)
      → (count_if (both wanted is_locked) (lock_rows is_free mark limit taken xs).0
          ≡ count_if (both wanted is_locked) xs
            + count_if wanted (lock_rows is_free mark limit taken xs).1)
        × (count_if wanted (lock_rows is_free mark limit taken xs).0 ≡ count_if wanted xs)
  unfolding lock_rows
  lock_rows-held m limit taken [] = (omega arith, refl)
  lock_rows-held m limit taken (x ∷ xs) = elim (Bool-cases (is_reached limit taken)) [
    | inl full ↦ rw full (omega arith, refl)
    | inr room ↦ elim (Bool-cases (is_free x)) [
      | inl free ↦
          let (more, same) = lock_rows-held m limit (suc taken) xs in
          let old = m.was_unlocked x free in
          rw (room, free, m.is_now_locked x, m.stays_wanted x)
            (ground (arith, more, same, old), ground (arith, same))
      | inr other ↦
          let (more, same) = lock_rows-held m limit taken xs in
          rw (room, other) (ground (arith, more, same), ground (arith, same))
    ]
  ]

  pub lock_table-held :
      (m : Marks) (partition : ℕ) (limit : ℤ) (taken : ℕ) (t : Table A)
      → (total (both wanted is_locked) (lock_table is_free mark partition limit taken t).0
          ≡ total (both wanted is_locked) t
            + count_if wanted (lock_table is_free mark partition limit taken t).1)
        × (total wanted (lock_table is_free mark partition limit taken t).0 ≡ total wanted t)
  unfolding lock_table
  lock_table-held m partition limit taken [] = (omega arith, refl)
  lock_table-held m partition limit taken ((key, rows) ∷ others) =
      elim (Bool-cases (is_skipped partition key)) [
        | inl skip ↦
            let (more, same) = lock_table-held m partition limit taken others in
            rw skip (omega (arith, more), omega (arith, same))
        | inr here ↦
            let now = lock_rows is_free mark limit taken rows in
            let (a, b) = lock_rows-held m limit taken rows in
            let (c, d) = lock_table-held m partition limit (taken + length now.1) others in
            rw here (
              omega (
                arith,
                a,
                c,
                count_if-append wanted now.1
                    (lock_table is_free mark partition limit (taken + length now.1) others).1,
              ),
              omega (arith, b, d),
            )
      ]

module _ {A : Type 0} where
  both-le : (p q : A → Bool) (xs : List A) → count_if (both p q) xs ≤ count_if p xs
  both-le p q [] = omega arith
  both-le p q (x ∷ xs) = ground (arith, both-le p q xs)

  pub total-both-le : (p q : A → Bool) (t : Table A) → total (both p q) t ≤ total p t
  total-both-le p q [] = omega arith
  total-both-le p q ((key, rows) ∷ others) =
      omega (arith, both-le p q rows, total-both-le p q others)
