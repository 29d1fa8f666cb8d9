-- ===== src/Jobs/Conditions.antt =====
-- Which jobs a command or a query is for, written out (`Lock`, `Unlock` and `Query` of engine/mem/job.go).
use go_bpmn.Shared.{
  Bool, ◌&&◌, [], ◌∷◌, ◌||◌, not, ◌⊎◌, ◌↔◌, ◌==◌, ==_iff, str_eq, eq_iff, ltb, ℕ, ◌≤◌, ◌≡◌, refl,
  true, false, List, inl, inr, Bool-cases, arith,
}
use go_bpmn.Entity.Job.{JobEntity}
use go_bpmn.Jobs.Repository.{
  contains, is_empty, LockJobsCmd, UnlockJobsCmd, JobCriteria, is_free, is_held, matches, accepts,
}

-- No condition, or the number that it wants.
abbrev pub Wants : ℕ → ℕ → Type 0
Wants wanted n = (wanted ≡ 0) ⊎ (wanted ≡ n)

accepts_iff : (wanted n : ℕ) → (accepts wanted n ≡ true) ↔ Wants wanted n
accepts_iff wanted n = (
  λ h. elim (Bool-cases (wanted == 0)) [
    | inl none ↦ inl ((==_iff wanted 0).0 none)
    | inr some_one ↦ inr ((==_iff wanted n).0 (rw some_one at h))
  ],
  λ w. elim w [
    | inl none ↦ rw ((==_iff wanted 0).1 none) refl
    | inr hit ↦ ground (arith, (==_iff wanted n).1 hit)
  ],
)

pub both : (a b : Bool) → (a && b) ≡ true → (a ≡ true) × (b ≡ true)
both a b h = (ground (arith, h), ground (arith, h))

-- The worker of the command holds the job, which is not completed, and the command names it, or no job.
abbrev pub Holds : UnlockJobsCmd → JobEntity → Type 0
Holds cmd e =
    (e.completed_at.valid ≡ false)
    × (e.locked_by.valid ≡ true)
    × (cmd.worker_id ≡ e.locked_by.string)
    × Wants cmd.id e.id

pub is_held_iff : (cmd : UnlockJobsCmd) (e : JobEntity) → (is_held cmd e ≡ true) ↔ Holds cmd e
unfolding is_held
is_held_iff cmd e = (
  λ h.
      let (front, id) =
        both
          (not (e.completed_at.valid || not e.locked_by.valid)
            && str_eq cmd.worker_id e.locked_by.string)
          (accepts cmd.id e.id) h in
      let (open_lock, worker) =
        both (not (e.completed_at.valid || not e.locked_by.valid))
          (str_eq cmd.worker_id e.locked_by.string) front in
      (
        ground (arith, open_lock),
        ground (arith, open_lock),
        (eq_iff cmd.worker_id e.locked_by.string).0 worker,
        (accepts_iff cmd.id e.id).0 id,
      ),
  λ w.
      rw
        (w.0, w.1, (eq_iff cmd.worker_id e.locked_by.string).1 w.2, (accepts_iff cmd.id e.id).1 w.3)
        refl,
)

-- The job meets each condition of the criteria.
abbrev pub Meets : JobCriteria → JobEntity → Type 0
Meets c e =
    Wants c.id e.id
    × Wants c.element_id e.element_id
    × Wants c.element_instance_id e.element_instance_id
    × Wants c.process_id e.process_id
    × Wants c.process_instance_id e.process_instance_id

pub matches_iff : (c : JobCriteria) (e : JobEntity) → (matches c e ≡ true) ↔ Meets c e
unfolding matches
matches_iff c e = (
  λ h.
      let (h₁, instance_id) =
        both
          (accepts c.id e.id
            && accepts c.element_id e.element_id
            && accepts c.element_instance_id e.element_instance_id
            && accepts c.process_id e.process_id)
          (accepts c.process_instance_id e.process_instance_id) h in
      let (h₂, process_id) =
        both
          (accepts c.id e.id
            && accepts c.element_id e.element_id
            && accepts c.element_instance_id e.element_instance_id)
          (accepts c.process_id e.process_id) h₁ in
      let (h₃, element_instance) =
        both (accepts c.id e.id && accepts c.element_id e.element_id)
          (accepts c.element_instance_id e.element_instance_id) h₂ in
      let (id, element_id) = both (accepts c.id e.id) (accepts c.element_id e.element_id) h₃ in
      (
        (accepts_iff c.id e.id).0 id,
        (accepts_iff c.element_id e.element_id).0 element_id,
        (accepts_iff c.element_instance_id e.element_instance_id).0 element_instance,
        (accepts_iff c.process_id e.process_id).0 process_id,
        (accepts_iff c.process_instance_id e.process_instance_id).0 instance_id,
      ),
  λ w.
      let id = (accepts_iff c.id e.id).1 w.0 in
      let element_id = (accepts_iff c.element_id e.element_id).1 w.1 in
      let element_instance = (accepts_iff c.element_instance_id e.element_instance_id).1 w.2 in
      let process_id = (accepts_iff c.process_id e.process_id).1 w.3 in
      let instance_id = (accepts_iff c.process_instance_id e.process_instance_id).1 w.4 in
      ground (arith, id, element_id, element_instance, process_id, instance_id),
)

-- One of the numbers.
abbrev pub OneOf : List ℕ → ℕ → Type 0
OneOf [] n = ⊥
OneOf (m ∷ ms) n = (m ≡ n) ⊎ OneOf ms n

contains_iff : (ms : List ℕ) (n : ℕ) → (contains ms n ≡ true) ↔ OneOf ms n
contains_iff [] n = (λ h. absurd (cc h), λ h. absurd h)
contains_iff (m ∷ ms) n = (
  λ h. elim (Bool-cases (m == n)) [
    | inl hit ↦ inl ((==_iff m n).0 hit)
    | inr miss ↦ inr ((contains_iff ms n).0 (rw miss at h))
  ],
  λ w. elim w [
    | inl hit ↦ rw ((==_iff m n).1 hit) refl
    | inr later ↦ ground (arith, (contains_iff ms n).1 later)
  ],
)

-- No number is listed, or this one is.
abbrev pub Lists : List ℕ → ℕ → Type 0
Lists [] n = Unit {0}
Lists (m ∷ ms) n = OneOf (m ∷ ms) n

listed_iff : (ms : List ℕ) (n : ℕ) → ((is_empty ms || contains ms n) ≡ true) ↔ Lists ms n
listed_iff [] n = (λ h. tt, λ h. refl)
listed_iff (m ∷ ms) n = contains_iff (m ∷ ms) n

-- The job is not locked, is due, and is one that the command is for.
abbrev pub CanLock : LockJobsCmd → ℕ → JobEntity → Type 0
CanLock cmd now e =
    (e.locked_at.valid ≡ false)
    × (e.due_at ≤ now)
    × Wants cmd.id e.id
    × Lists cmd.process_ids e.process_id
    × Wants cmd.process_instance_id e.process_instance_id

pub is_free_iff :
    (cmd : LockJobsCmd) (now : ℕ) (e : JobEntity) → (is_free cmd now e ≡ true) ↔ CanLock cmd now e
unfolding is_free
is_free_iff cmd now e = (
  λ h.
      let a = not (e.locked_at.valid || ltb now e.due_at) in
      let b = accepts cmd.id e.id in
      let c = is_empty cmd.process_ids || contains cmd.process_ids e.process_id in
      let (first, instance_id) =
        both ((a && b) && c) (accepts cmd.process_instance_id e.process_instance_id) h in
      let (second, process_id) = both (a && b) c first in
      let (free, id) = both a b second in
      (
        ground (arith, free),
        was_due free,
        (accepts_iff cmd.id e.id).0 id,
        (listed_iff cmd.process_ids e.process_id).0 process_id,
        (accepts_iff cmd.process_instance_id e.process_instance_id).0 instance_id,
      ),
  λ w.
      rw
        (
          w.0,
          not_later w.1,
          (accepts_iff cmd.id e.id).1 w.2,
          (listed_iff cmd.process_ids e.process_id).1 w.3,
          (accepts_iff cmd.process_instance_id e.process_instance_id).1 w.4,
        )
        refl,
)
  where
    was_due : not (e.locked_at.valid || ltb now e.due_at) ≡ true → e.due_at ≤ now
    was_due h = ground (arith, h)

    not_later : e.due_at ≤ now → ltb now e.due_at ≡ false
    not_later h = ground (arith, h)
