-- ===== src/Graph/Join/Counter.antt =====
-- The map `incomingIds` of `joinParallelGateway`: how many more executions each element has to send.
use go_bpmn.Shared.{
  ℕ, ◌+◌, ◌-◌, ◌≤◌, ◌<◌, ◌≡◌, ◌≢◌, refl, List, [], ◌∷◌, arith, ◌==◌, if◌then◌else◌, count, All,
  length,
}

abbrev pub Counter : Type 0
Counter = List (ℕ × ℕ)

-- 0 also where the key is missing: the code treats both alike.
unfoldable pub get : ℕ → Counter → ℕ
get k [] = 0
get k ((j, n) ∷ m) = if j == k then n else get k m

unfoldable pub increment : ℕ → Counter → Counter
increment k [] = (k, 1) ∷ []
increment k ((j, n) ∷ m) = if j == k then (j, n + 1) ∷ m else (j, n) ∷ increment k m

unfoldable pub decrement : ℕ → Counter → Counter
decrement k [] = []
decrement k ((j, n) ∷ m) = if j == k then (j, n - 1) ∷ m else (j, n) ∷ decrement k m

unfoldable pub count_all : List ℕ → Counter → Counter
count_all [] m = m
count_all (k ∷ ks) m = count_all ks (increment k m)

unfoldable pub total : Counter → ℕ
total [] = 0
total ((j, n) ∷ m) = n + total m

-- No key stands twice.
abbrev pub Distinct : Counter → Type 0
Distinct [] = Unit {0}
Distinct ((j, n) ∷ m) = All (λ p. p.0 ≢ j) m × Distinct m

pub get-increment :
    (a k : ℕ) (m : Counter) → get a (increment k m) ≡ (if k == a then get a m + 1 else get a m)
unfolding get increment
get-increment a k [] = ground arith
get-increment a k ((j, n) ∷ m) = ground (arith, get-increment a k m)

pub get-decrement :
    (a k : ℕ) (m : Counter) → get a (decrement k m) ≡ (if k == a then get a m - 1 else get a m)
unfolding get decrement
get-decrement a k [] = ground arith
get-decrement a k ((j, n) ∷ m) = ground (arith, get-decrement a k m)

pub total-increment : (k : ℕ) (m : Counter) → total (increment k m) ≡ total m + 1
unfolding total increment
total-increment k [] = refl
total-increment k ((j, n) ∷ m) = ground (arith, total-increment k m)

pub total-decrement : (k : ℕ) (m : Counter) → 0 < get k m → total (decrement k m) + 1 ≡ total m
unfolding total get decrement
total-decrement k [] h = omega arith
total-decrement k ((j, n) ∷ m) h = ground (arith, total-decrement k m)

pub get-le-total : (k : ℕ) (m : Counter) → get k m ≤ total m
unfolding get total
get-le-total k [] = omega arith
get-le-total k ((j, n) ∷ m) = ground (arith, get-le-total k m)

pub get-count_all :
    (a : ℕ) (ks : List ℕ) (m : Counter) → get a (count_all ks m) ≡ get a m + count a ks
unfolding count_all
get-count_all a [] m = omega arith
get-count_all a (k ∷ ks) m = ground (arith, get-count_all a ks (increment k m), get-increment a k m)

pub total-count_all : (ks : List ℕ) (m : Counter) → total (count_all ks m) ≡ total m + length ks
unfolding count_all
total-count_all [] m = omega arith
total-count_all (k ∷ ks) m = omega (arith, total-count_all ks (increment k m), total-increment k m)

All-increment :
    (j k : ℕ) (m : Counter) → k ≢ j → All (λ p. p.0 ≢ j) m → All (λ p. p.0 ≢ j) (increment k m)
unfolding increment
All-increment j k [] h a = (h, tt)
All-increment j k ((i, n) ∷ m) h a = ground (arith, All-increment j k m h a.1)

All-decrement : (j k : ℕ) (m : Counter) → All (λ p. p.0 ≢ j) m → All (λ p. p.0 ≢ j) (decrement k m)
unfolding decrement
All-decrement j k [] a = tt
All-decrement j k ((i, n) ∷ m) a = ground (arith, All-decrement j k m a.1)

pub increment-Distinct : (k : ℕ) (m : Counter) → Distinct m → Distinct (increment k m)
unfolding increment
increment-Distinct k [] d = (tt, tt)
increment-Distinct k ((j, n) ∷ m) d =
    ground (arith, increment-Distinct k m d.1, All-increment j k m)

pub decrement-Distinct : (k : ℕ) (m : Counter) → Distinct m → Distinct (decrement k m)
unfolding decrement
decrement-Distinct k [] d = tt
decrement-Distinct k ((j, n) ∷ m) d =
    ground (arith, decrement-Distinct k m d.1, All-decrement j k m)

pub count_all-Distinct : (ks : List ℕ) (m : Counter) → Distinct m → Distinct (count_all ks m)
unfolding count_all
count_all-Distinct [] m d = d
count_all-Distinct (k ∷ ks) m d = count_all-Distinct ks (increment k m) (increment-Distinct k m d)

get_absent : (j : ℕ) (m : Counter) → All (λ p. p.0 ≢ j) m → get j m ≡ 0
unfolding get
get_absent j [] a = refl
get_absent j ((i, n) ∷ m) a = ground (arith, get_absent j m a.1)

get-tail :
    (j n : ℕ) (m : Counter)
    → All (λ p. p.0 ≢ j) m
    → ((a : ℕ) → get a ((j, n) ∷ m) ≡ 0)
    → (a : ℕ) → get a m ≡ 0
unfolding get
get-tail j n m d h a = ground (arith, h a, get_absent j m d)

-- A counter that has nothing left for any key has nothing left at all.
pub total-eq-zero : (m : Counter) → Distinct m → ((a : ℕ) → get a m ≡ 0) → total m ≡ 0
unfolding total get
total-eq-zero [] d h = refl
total-eq-zero ((j, n) ∷ m) d h = ground (arith, h j, total-eq-zero m d.1 (get-tail j n m d.0 h))
