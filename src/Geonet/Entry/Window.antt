-- ===== src/Geonet/Entry/Window.antt =====
-- Lists of distinct numbers and the window of the last elements, for the duplicate packet list.
use flex_stack.Prelude.{
  ℕ, zero, suc, ◌-◌, ◌≤◌, ◌<◌, ◌≡◌, refl, sym, ap, ◌∙◌, true, false, List, [], ◌∷◌, ◌++◌, length,
  length-append, drop, ◌==◌, if◌then◌else◌, arith,
}
use flex_stack.Sets.{contains, Distinct}
use flex_stack.Geonet.Entry.{append_bounded}

pub contains-snoc :
    (x y : ℕ) (q : List ℕ) → contains x (q ++ y ∷ []) ≡ (if x == y then true else contains x q)
contains-snoc x y [] = ground arith
contains-snoc x y (z ∷ q) = ground (arith, contains-snoc x y q)

pub Distinct-snoc :
    (y : ℕ) (q : List ℕ) → Distinct q → contains y q ≡ false → Distinct (q ++ y ∷ [])
Distinct-snoc y [] d h = (refl, tt)
Distinct-snoc y (z ∷ q) d h = ground (arith, contains-snoc z y q, Distinct-snoc y q d.1)

-- The last `n` elements.
abbrev pub window : ℕ → List ℕ → List ℕ
window n history = drop (length history - n) history

drop-suc : (k x : ℕ) (h rest : List ℕ) → drop k h ≡ x ∷ rest → drop (suc k) h ≡ rest
drop-suc zero x [] rest e = cc
drop-suc zero x (y ∷ h) rest e = cc
drop-suc (suc k) x [] rest e = cc
drop-suc (suc k) x (y ∷ h) rest e = drop-suc k x h rest e

drop-snoc : (k y : ℕ) (h : List ℕ) → k ≤ length h → drop k (h ++ y ∷ []) ≡ drop k h ++ y ∷ []
drop-snoc zero y h le = refl
drop-snoc (suc k) y [] le = absurd (omega arith)
drop-snoc (suc k) y (x ∷ h) le = drop-snoc k y h (omega arith)

length-drop_nat : (k : ℕ) (h : List ℕ) → length (drop k h) ≡ length h - k
length-drop_nat zero h = omega arith
length-drop_nat (suc k) [] = omega arith
length-drop_nat (suc k) (x ∷ h) = omega (arith, length-drop_nat k h)

pub window-short :
    (n y : ℕ) (h : List ℕ) → length (window n h) < n → window n (h ++ y ∷ []) ≡ window n h ++ y ∷ []
window-short n y h lt = rw (no_drop, no_drop') refl
  where
    no_drop : length (h ++ y ∷ []) - n ≡ 0
    no_drop = omega (arith, length-append h (y ∷ []), length-drop_nat (length h - n) h)

    no_drop' : length h - n ≡ 0
    no_drop' = omega (arith, length-drop_nat (length h - n) h)

pub window-full :
    (n x y : ℕ) (h rest : List ℕ)
    → 0 < n
    → window n h ≡ x ∷ rest
    → suc (length rest) ≡ n
    → window n (h ++ y ∷ []) ≡ rest ++ y ∷ []
window-full n x y h rest pos e full =
    rw (one_more, drop-snoc (suc (length h - n)) y h within)
      (ap (λ (q : List ℕ). q ++ y ∷ []) (drop-suc (length h - n) x h rest e))
  where
    reach : suc (length rest) ≡ length h - (length h - n)
    reach = ap length (sym e) ∙ length-drop_nat (length h - n) h

    one_more : length (h ++ y ∷ []) - n ≡ suc (length h - n)
    one_more = omega (arith, length-append h (y ∷ []), reach, full)

    within : suc (length h - n) ≤ length h
    within = omega (arith, reach, full, pos)

pub append_bounded-short :
    (n sn : ℕ) (q : List ℕ) → length q < n → append_bounded n q sn ≡ q ++ sn ∷ []
append_bounded-short n sn [] h = ground arith
append_bounded-short n sn (x ∷ q) h = ground arith
