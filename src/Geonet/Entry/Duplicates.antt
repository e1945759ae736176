-- ===== src/Geonet/Entry/Duplicates.antt =====
-- The duplicate packet list against its specification: the numbers of the last packets that were
-- not duplicates, as many as the list is long.
use flex_stack.Prelude.{
  ℕ, ◌≤◌, ◌<◌, ◌≡◌, refl, sym, ap, ◌∙◌, inl, inr, Bool, true, false, List, [], ◌∷◌, ◌++◌, length,
  length-append, ◌==◌, Bool-cases, Result, ok, err, duplicated_packet, if◌then◌else◌, arith,
}
use flex_stack.Sets.{contains, discard, add, Distinct, contains-discard}
use flex_stack.Geonet.Entry.{Dpl, check_sn}
use flex_stack.Geonet.Entry.Window.{
  window, contains-snoc, Distinct-snoc, window-short, window-full, append_bounded-short,
}

-- The list holds the last numbers of the history, each once, and the set has the same members.
pub record Remembers (n : ℕ) (history : List ℕ) (d : Dpl) : Type 0 where
  pub deque : d.dpl_deque ≡ window n history
  pub members : (sn : ℕ) → contains sn d.dpl_set ≡ contains sn d.dpl_deque
  pub distinct : Distinct d.dpl_deque
  pub bounded : length d.dpl_deque ≤ n

module _ (n sn : ℕ) (history : List ℕ) (room : 0 < n) where
  check_sn-known :
      (d : Dpl)
      → Remembers n history d
      → contains sn (window n history) ≡ true
      → check_sn n sn d ≡ err duplicated_packet
  unfolding check_sn
  check_sn-known d r known = rw (r.members sn, r.deque, known)

  abbrev Accepts : Dpl → Type 0
  Accepts d = (d' : Dpl) × (check_sn n sn d ≡ ok d') × Remembers n (history ++ sn ∷ []) d'

  check_sn-short :
      (s q : List ℕ)
      → Remembers n history (record { dpl_set = s; dpl_deque = q })
      → contains sn q ≡ false
      → length q < n
      → Accepts (record { dpl_set = s; dpl_deque = q })
  unfolding check_sn
  check_sn-short s q r new short = (
    record { dpl_set = sn ∷ s; dpl_deque = q ++ sn ∷ [] },
    rw (is_new, has_room, added, append_bounded-short n sn q short) refl,
    record {
      deque = ap (λ (l : List ℕ). l ++ sn ∷ []) r.deque ∙ sym (window-short n sn history lt);
      members = λ k. rw (contains-snoc k sn q, r.members k) refl;
      distinct = Distinct-snoc sn q r.distinct new;
      bounded = omega (arith, length-append q (sn ∷ []));
    },
  )
    where
      is_new : contains sn s ≡ false
      is_new = r.members sn ∙ new

      added : add sn s ≡ sn ∷ s
      added = rw is_new

      has_room : (length q == n) ≡ false
      has_room = ground arith

      lt : length (window n history) < n
      lt = rw (sym r.deque) short

  check_sn-full :
      (s q : List ℕ)
      → Remembers n history (record { dpl_set = s; dpl_deque = q })
      → contains sn q ≡ false
      → length q ≡ n
      → Accepts (record { dpl_set = s; dpl_deque = q })
  unfolding check_sn
  check_sn-full s [] r new full = absurd (omega arith)
  check_sn-full s (x ∷ q) r new full = (
    record { dpl_set = sn ∷ discard x s; dpl_deque = q ++ sn ∷ [] },
    rw (is_new, no_room, is_new_then, append_bounded-short n sn q short) refl,
    record {
      deque = sym (window-full n x sn history q room (sym r.deque) full);
      members = λ k.
          rw (contains-snoc k sn q, contains-discard k x s, r.members k)
            (ground (arith, r.distinct.0));
      distinct = Distinct-snoc sn q r.distinct.1 new_then;
      bounded = omega (arith, length-append q (sn ∷ []));
    },
  )
    where
      is_new : contains sn s ≡ false
      is_new = r.members sn ∙ new

      new_then : contains sn q ≡ false
      new_then = ground (arith, new)

      is_new_then : contains sn (discard x s) ≡ false
      is_new_then = ground (arith, contains-discard sn x s, is_new)

      no_room : (length (x ∷ q) == n) ≡ true
      no_room = ground arith

      short : length q < n
      short = omega arith

  accepts : (d : Dpl) → Remembers n history d → contains sn (window n history) ≡ false → Accepts d
  accepts d r new = elim (Bool-cases (length d.dpl_deque == n)) [
    | inl full ↦ check_sn-full d.dpl_set d.dpl_deque r (rw r.deque new) (ground arith)
    | inr short ↦
        check_sn-short d.dpl_set d.dpl_deque r (rw r.deque new) (ground (arith, r.bounded))
  ]

-- The specification: a number is a duplicate if it is one of the last `n` numbers that were not.
unfoldable pub accept : ℕ → ℕ → List ℕ → Bool × List ℕ
accept n sn history =
    if contains sn (window n history) then (false, history) else (true, history ++ sn ∷ [])

unfoldable pub accept_all : ℕ → List ℕ → List ℕ → List Bool × List ℕ
unfolding accept
accept_all n [] history = ([], history)
accept_all n (sn ∷ sns) history =
    let (verdict, history') = accept n sn history in
    let (verdicts, last) = accept_all n sns history' in (verdict ∷ verdicts, last)

-- The calls of `check_duplicate_sn` for a sequence of packets, with what each of them answers.
abbrev answer : Dpl → Result Dpl → Bool × Dpl
answer d (ok d') = (true, d')
answer d (err e) = (false, d)

unfoldable pub check_all : ℕ → List ℕ → Dpl → List Bool × Dpl
check_all n [] d = ([], d)
check_all n (sn ∷ sns) d =
    let (verdict, d') = answer d (check_sn n sn d) in
    let (verdicts, last) = check_all n sns d' in (verdict ∷ verdicts, last)

-- With room for at least one number, and a list and set that hold the last numbers of a history,
-- `check_duplicate_sn` on a sequence of packets refuses exactly those that the specification refuses,
-- and the list and set hold the last numbers of the extended history afterwards.
pub check_all-accept_all :
    (n : ℕ) (sns history : List ℕ) (d : Dpl)
    → 0 < n
    → Remembers n history d
    → ((check_all n sns d).0 ≡ (accept_all n sns history).0)
      × Remembers n (accept_all n sns history).1 (check_all n sns d).1
unfolding check_all accept_all
check_all-accept_all n [] history d room r = (refl, r)
check_all-accept_all n (sn ∷ sns) history d room r =
    elim (Bool-cases (contains sn (window n history))) [
      | inl known ↦
          let rest = check_all-accept_all n sns history d room r in
          rw (known, check_sn-known n sn history room d r known)
            (ap (λ (l : List Bool). false ∷ l) rest.0, rest.1)
      | inr new ↦
          let (d', e, r') = accepts n sn history room d r new in
          let rest = check_all-accept_all n sns (history ++ sn ∷ []) d' room r' in
          rw (new, e) (ap (λ (l : List Bool). true ∷ l) rest.0, rest.1)
    ]
