-- ===== src/Execution/Add.antt =====
-- `executionContext.addExecution` of engine/internal/execution.go.
use go_bpmn.Shared.{
  refl, true, not, ◌&&◌, ◌⊎◌, inl, inr, Bool-cases, ℕ, suc, ◌+◌, ◌≡◌, Bool, false, Option, none,
  some, List, [], ◌∷◌, ◌++◌, map, arith, ◌==◌, if◌then◌else◌,
}
use go_bpmn.Entity.{ElementInstanceEntity}

-- The executions of a context; an entry may be nil.
abbrev pub Executions : Type 0
Executions = List (Option ElementInstanceEntity)

-- Entries of the execution with the ID become nil.
abbrev pub drop_entry : ℕ → Option ElementInstanceEntity → Option ElementInstanceEntity
drop_entry id none = none
drop_entry id (some e) = if e.id == id then none else some e

-- An execution that exists in the store, whose ID is not 0, is handled once.
unfoldable pub add_execution : ElementInstanceEntity → Executions → Executions
add_execution e es =
    let kept = if e.id == 0 then es else map (drop_entry e.id) es in kept ++ some e ∷ []

abbrev pub has_id : ℕ → Option ElementInstanceEntity → Bool
has_id id none = false
has_id id (some e) = e.id == id

-- How many entries have the ID.
abbrev pub entries : ℕ → Executions → ℕ
entries id [] = 0
entries id (x ∷ xs) = let n = entries id xs in if has_id id x then suc n else n

entries-append :
    (id : ℕ) (xs : Executions) (y : Option ElementInstanceEntity)
    → entries id (xs ++ y ∷ []) ≡ entries id xs + entries id (y ∷ [])
entries-append id [] y = omega arith
entries-append id (x ∷ xs) y = ground (arith, entries-append id xs y)

entries-drop_entry :
    (id key : ℕ) (xs : Executions)
    → entries id (map (drop_entry key) xs) ≡ (if id == key then 0 else entries id xs)
entries-drop_entry id key [] = ground arith
entries-drop_entry id key (none ∷ xs) = ground (arith, entries-drop_entry id key xs)
entries-drop_entry id key (some e ∷ xs) = ground (arith, entries-drop_entry id key xs)

-- An entry of an execution that exists, and is added once more.
abbrev pub is_again : ElementInstanceEntity → Option ElementInstanceEntity → Bool
is_again e x = not (e.id == 0) && has_id e.id x

-- The entries as they are when an execution is added: those of the execution itself are nil.
abbrev pub KeptFor : ElementInstanceEntity → Executions → Executions → Type 0
KeptFor e [] [] = Unit {0}
KeptFor e [] (y ∷ ys) = ⊥
KeptFor e (x ∷ xs) [] = ⊥
KeptFor e (x ∷ xs) (y ∷ ys) =
    (((is_again e x ≡ true) × (y ≡ none)) ⊎ ((is_again e x ≡ false) × (y ≡ x))) × KeptFor e xs ys

new_KeptFor : (e : ElementInstanceEntity) (es : Executions) → (e.id == 0) ≡ true → KeptFor e es es
new_KeptFor e [] h = tt
new_KeptFor e (x ∷ es) h = (inr (ground (arith, h), refl), new_KeptFor e es h)

dropped_KeptFor :
    (e : ElementInstanceEntity) (es : Executions)
    → (e.id == 0) ≡ false
    → KeptFor e es (map (drop_entry e.id) es)
dropped_KeptFor e [] h = tt
dropped_KeptFor e (none ∷ es) h = (inr (ground (arith, h), refl), dropped_KeptFor e es h)
dropped_KeptFor e (some x ∷ es) h = elim (Bool-cases (x.id == e.id)) [
  | inl hit ↦ (inl (ground (arith, h, hit), rw hit refl), dropped_KeptFor e es h)
  | inr miss ↦ (inr (ground (arith, h, miss), rw miss refl), dropped_KeptFor e es h)
]

-- Adding an execution puts it behind all entries, of which those of the same execution, if its ID is not 0, become
-- nil and all others stay: there is exactly one entry with its ID afterwards, and one more if it is new and its
-- ID is 0; the entries with another ID are as many as before.
pub entries-add_execution :
    (e : ElementInstanceEntity) (es : Executions)
    → (kept : Executions) × (add_execution e es ≡ kept ++ some e ∷ [])
      × KeptFor e es kept
      × ((id : ℕ)
          → entries id (add_execution e es)
            ≡ (if e.id == id then (if id == 0 then suc (entries id es) else 1) else entries id es))
unfolding add_execution
entries-add_execution e es = (
  if e.id == 0 then es else map (drop_entry e.id) es,
  refl,
  by_id (Bool-cases (e.id == 0)),
  λ id. ground (
    arith,
    entries-append id es (some e),
    entries-append id (map (drop_entry e.id) es) (some e),
    entries-drop_entry id e.id es,
  ),
)
  where
    by_id :
        (e.id == 0 ≡ true) ⊎ (e.id == 0 ≡ false)
        → KeptFor e es (if e.id == 0 then es else map (drop_entry e.id) es)
    by_id (inl new) = rw new (new_KeptFor e es new)
    by_id (inr old) = rw old (dropped_KeptFor e es old)
