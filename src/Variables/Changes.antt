-- ===== src/Variables/Changes.antt =====
-- How the contents of the rows change when a row is inserted, written over or deleted (engine/mem/variable.go).
use mathlib.Core.List.{append-nil}
use go_bpmn.Shared.{
  ◌<◌, ◌≡◌, refl, ap, sym, subst, ◌∙◌, Bool, true, false, Option, none, some, some-injective, List,
  [], ◌∷◌, ◌++◌, arith, if◌then◌else◌, Bool-cases, Option-cases, inl, inr,
}
use go_bpmn.Variables.Repository.{
  VariableEntity, is_deleted, is_meant, mark_deleted, delete_rows, is_same, overwrite,
  overwrite_rows,
}
use go_bpmn.Variables.Set.{Data}
use go_bpmn.Variables.Contents.{
  Key, key_of, same_key, content_of, counts_for, contents, IsKeyed, same_key-eq, contents-hit,
  contents-miss, tail-IsKeyed, alone,
}

-- What the contents are after the only row with a key has got the contents `ds`.
abbrev pub changed : Key → Key → List Data → List Data → List Data
changed k j ds before = if same_key k j then ds else before

-- A row that is put in place of another, or behind all, counts for its own key.
first_changed :
    (k : Key) (x : VariableEntity) (es : List VariableEntity)
    → is_deleted x ≡ false
    → contents k (x ∷ es)
      ≡ (if same_key k (key_of x) then content_of x ∷ contents k es else contents k es)
unfolding contents
first_changed k x es live = rw live refl

contents-behind :
    (k : Key) (es : List VariableEntity) (x : VariableEntity)
    → is_deleted x ≡ false
    → contents k (es ++ x ∷ [])
      ≡ contents k es ++ (if same_key k (key_of x) then content_of x ∷ [] else [])
unfolding contents
contents-behind k [] x live = rw live refl
contents-behind k (e ∷ es) x live = elim (Bool-cases (counts_for k e)) [
  | inl hit ↦ rw hit (ap (λ ds. content_of e ∷ ds) (contents-behind k es x live))
  | inr miss ↦ rw miss (contents-behind k es x live)
]

pub contents-append :
    (k : Key) (rows : List VariableEntity) (x : VariableEntity)
    → is_deleted x ≡ false
    → contents (key_of x) rows ≡ []
    → contents k (rows ++ x ∷ []) ≡ changed k (key_of x) (content_of x ∷ []) (contents k rows)
contents-append k rows x live free = elim (Bool-cases (same_key k (key_of x))) [
  | inl hit ↦
      let at_k : contents k rows ≡ [] =
        subst (λ j. contents j rows ≡ []) (same_key-eq k (key_of x) hit) free in
      contents-behind k rows x live ∙ rw (hit, at_k) refl
  | inr miss ↦ contents-behind k rows x live ∙ rw miss (append-nil (contents k rows))
]

pub counts-key : (j : Key) (e : VariableEntity) → counts_for j e ≡ true → key_of e ≡ j
counts-key j e h = same_key-eq j (key_of e) (ground (arith, h))

-- A row that has one key has no other.
other_key :
    (k j : Key) (e : VariableEntity)
    → counts_for j e ≡ true
    → same_key k j ≡ false
    → counts_for k e ≡ false
other_key k j e hit miss = ground (arith, ap (same_key k) (counts-key j e hit), miss)

abbrev pub put_first : VariableEntity → Option (List VariableEntity) → Option (List VariableEntity)
put_first e none = none
put_first e (some es) = some (e ∷ es)

pub overwrite_rows-nil : (x : VariableEntity) → overwrite_rows x [] ≡ none
unfolding overwrite_rows
overwrite_rows-nil x = refl

pub overwrite_rows-hit :
    (x e : VariableEntity) (es : List VariableEntity)
    → counts_for (key_of x) e ≡ true
    → overwrite_rows x (e ∷ es) ≡ some (overwrite x e ∷ es)
unfolding overwrite_rows is_same same_key
overwrite_rows-hit x e es h = rw h refl

pub overwrite_rows-miss :
    (x e : VariableEntity) (es : List VariableEntity)
    → counts_for (key_of x) e ≡ false
    → overwrite_rows x (e ∷ es) ≡ put_first e (overwrite_rows x es)
unfolding overwrite_rows is_same same_key
overwrite_rows-miss x e es h = rw h (by_rest (overwrite_rows x es))
  where
    by_rest :
        (r : Option (List VariableEntity))
        → (elim r [ none ↦ none | some ys ↦ some (e ∷ ys) ]) ≡ put_first e r
    by_rest none = refl
    by_rest (some ys) = refl

-- The first row with the key is changed, and with it the contents for the key alone.
replaced_first :
    (k : Key) (x e : VariableEntity) (es : List VariableEntity) (ds : List Data)
    → IsKeyed (e ∷ es)
    → counts_for (key_of x) e ≡ true
    → (if same_key k (key_of x) then ds ++ contents k es else contents k es)
      ≡ changed k (key_of x) ds (contents k (e ∷ es))
replaced_first k x e es ds h hit = elim (Bool-cases (same_key k (key_of x))) [
  | inl here ↦
      let none_left : contents k es ≡ [] =
        subst (λ j. contents j es ≡ []) (same_key-eq k (key_of x) here)
          (alone (key_of x) e es h hit) in
      rw (here, none_left) (append-nil ds)
  | inr elsewhere ↦
      rw elsewhere (sym (contents-miss k e es (other_key k (key_of x) e hit elsewhere)))
]

other_row :
    (k j : Key) (e : VariableEntity)
    → counts_for j e ≡ false
    → counts_for k e ≡ true
    → same_key k j ≡ false
other_row k j e miss hit = elim (Bool-cases (same_key k j)) [
  | inr other ↦ other
  | inl same_one ↦ absurd (cc (ap (λ i. counts_for i e) (same_key-eq k j same_one), miss, hit))
]

-- A row with another key stays in front.
kept_first :
    (k : Key) (x e : VariableEntity) (es zs : List VariableEntity) (ds : List Data)
    → counts_for (key_of x) e ≡ false
    → contents k zs ≡ changed k (key_of x) ds (contents k es)
    → contents k (e ∷ zs) ≡ changed k (key_of x) ds (contents k (e ∷ es))
kept_first k x e es zs ds miss behind = elim (Bool-cases (counts_for k e)) [
  | inr other ↦ rw (contents-miss k e zs other, contents-miss k e es other) behind
  | inl hit ↦
      let other = other_row k (key_of x) e miss hit in
      rw (contents-hit k e zs hit, contents-hit k e es hit, other)
        (ap (λ ds. content_of e ∷ ds) (rw other at behind))
]

pub contents-overwrite_rows :
    (k : Key) (x : VariableEntity) (rows : List VariableEntity) {ys : List VariableEntity}
    → is_deleted x ≡ false
    → IsKeyed rows
    → overwrite_rows x rows ≡ some ys
    → contents k ys ≡ changed k (key_of x) (content_of x ∷ []) (contents k rows)
contents-overwrite_rows k x [] live h e = absurd (cc (overwrite_rows-nil x, e))
contents-overwrite_rows k x (r ∷ rs) live h e = elim (Bool-cases (counts_for (key_of x) r)) [
  | inl hit ↦
      subst (λ zs. contents k zs ≡ changed k (key_of x) (content_of x ∷ []) (contents k (r ∷ rs)))
        (some-injective (sym (overwrite_rows-hit x r rs hit) ∙ e))
        (first_changed k (overwrite x r) rs live
          ∙ replaced_first k x r rs (content_of x ∷ []) h hit)
  | inr miss ↦ elim (Option-cases (overwrite_rows x rs)) [
    | inl nothing ↦
        absurd (cc (sym (overwrite_rows-miss x r rs miss) ∙ e, ap (put_first r) nothing))
    | inr (zs, found) ↦
        subst (λ zs. contents k zs ≡ changed k (key_of x) (content_of x ∷ []) (contents k (r ∷ rs)))
          (some-injective (sym (overwrite_rows-miss x r rs miss ∙ ap (put_first r) found) ∙ e))
          (kept_first k x r rs zs (content_of x ∷ []) miss
            (contents-overwrite_rows k x rs live (tail-IsKeyed r rs h) found))
  ]
]

pub overwrite_rows-none :
    (x : VariableEntity) (rows : List VariableEntity)
    → overwrite_rows x rows ≡ none
    → contents (key_of x) rows ≡ []
overwrite_rows-none x [] e = unfold contents in refl
overwrite_rows-none x (r ∷ rs) e = elim (Bool-cases (counts_for (key_of x) r)) [
  | inl hit ↦ absurd (cc (overwrite_rows-hit x r rs hit, e))
  | inr miss ↦ elim (Option-cases (overwrite_rows x rs)) [
    | inl nothing ↦ contents-miss (key_of x) r rs miss ∙ overwrite_rows-none x rs nothing
    | inr (zs, found) ↦
        absurd (cc (sym (overwrite_rows-miss x r rs miss) ∙ e, ap (put_first r) found))
  ]
]

delete_rows-nil : (x : VariableEntity) → delete_rows x [] ≡ []
unfolding delete_rows
delete_rows-nil x = refl

-- A deletion for a process instance means the key.
meant_key :
    (x e : VariableEntity)
    → 0 < x.process_instance_id
    → is_meant x e ≡ same_key (key_of x) (key_of e)
unfolding is_meant same_key
meant_key x e p = ground arith

delete_rows-hit :
    (x e : VariableEntity) (es : List VariableEntity)
    → 0 < x.process_instance_id
    → counts_for (key_of x) e ≡ true
    → delete_rows x (e ∷ es) ≡ mark_deleted e ∷ es
unfolding delete_rows
delete_rows-hit x e es p h = rw (meant_key x e p, h) refl

delete_rows-miss :
    (x e : VariableEntity) (es : List VariableEntity)
    → 0 < x.process_instance_id
    → counts_for (key_of x) e ≡ false
    → delete_rows x (e ∷ es) ≡ e ∷ delete_rows x es
unfolding delete_rows
delete_rows-miss x e es p h = rw (meant_key x e p, h) refl

pub contents-delete_rows :
    (k : Key) (x : VariableEntity) (rows : List VariableEntity)
    → 0 < x.process_instance_id
    → IsKeyed rows
    → contents k (delete_rows x rows) ≡ changed k (key_of x) [] (contents k rows)
contents-delete_rows k x [] p h = rw (delete_rows-nil x) (unfold contents in ground arith)
contents-delete_rows k x (r ∷ rs) p h = elim (Bool-cases (counts_for (key_of x) r)) [
  | inl hit ↦ rw (delete_rows-hit x r rs p hit) (
      contents-miss k (mark_deleted r) rs refl
      ∙ if_same (same_key k (key_of x)) (contents k rs)
      ∙ replaced_first k x r rs [] h hit)
  | inr miss ↦ rw (delete_rows-miss x r rs p miss) (
      kept_first k x r rs (delete_rows x rs) [] miss
        (contents-delete_rows k x rs p (tail-IsKeyed r rs h)))
]
  where
    if_same : (b : Bool) (ds : List Data) → ds ≡ (if b then ds else ds)
    if_same true ds = refl
    if_same false ds = refl
