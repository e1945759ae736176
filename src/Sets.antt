-- ===== src/Sets.antt =====
-- Python's sets of integers as lists without repetition.
use flex_stack.Prelude.{ℕ, ◌≡◌, Bool, true, false, List, [], ◌∷◌, ◌==◌, if◌then◌else◌, arith}

-- `x in s`
abbrev pub contains : ℕ → List ℕ → Bool
contains x [] = false
contains x (y ∷ s) = if x == y then true else contains x s

-- `s.discard(x)`
abbrev pub discard : ℕ → List ℕ → List ℕ
discard x [] = []
discard x (y ∷ s) = let rest = discard x s in if x == y then rest else y ∷ rest

-- `s.add(x)`
abbrev pub add : ℕ → List ℕ → List ℕ
add x s = if contains x s then s else x ∷ s

abbrev pub Distinct : List ℕ → Type 0
Distinct [] = Unit {0}
Distinct (x ∷ xs) = (contains x xs ≡ false) × Distinct xs

pub contains-discard :
    (x y : ℕ) (s : List ℕ) → contains x (discard y s) ≡ (if x == y then false else contains x s)
contains-discard x y [] = ground arith
contains-discard x y (z ∷ s) = ground (arith, contains-discard x y s)

pub contains-add :
    (x y : ℕ) (s : List ℕ) → contains x (add y s) ≡ (if x == y then true else contains x s)
contains-add x y s = ground arith

pub Distinct-add : (x : ℕ) (s : List ℕ) → Distinct s → Distinct (add x s)
Distinct-add x s d = ground arith

pub Distinct-discard : (x : ℕ) (s : List ℕ) → Distinct s → Distinct (discard x s)
Distinct-discard x [] d = tt
Distinct-discard x (y ∷ s) d = ground (arith, contains-discard y x s, Distinct-discard x s d.1)
