-- ===== src/Geonet/LocationTable/Keys.antt =====
-- The dictionary of src/flexstack/geonet/location_table.py: its keys are told apart by the hash and
-- the `__eq__` of `GNAddress` in src/flexstack/geonet/gn_address.py.
use flex_stack.Prelude.{
  ℕ, ◌≡◌, refl, sym, ◌∙◌, ap, inl, inr, Bool, true, false, List, [], ◌∷◌, some, ◌==◌, ==_refl,
  Bool-cases, both_true, ==→≡, if◌then◌else◌, arith,
}
use flex_stack.Geonet.Address
use flex_stack.Geonet.Address.{GnAddress, eq_bytes}
use flex_stack.Geonet.LocationTable.{same_key, lookup, insert}

eq_bytes_refl : (a : List ℕ) → eq_bytes a a ≡ true
eq_bytes_refl [] = refl
eq_bytes_refl (x ∷ a) = rw (==_refl x) (eq_bytes_refl a)

eq_bytes-≡ : (a b : List ℕ) → eq_bytes a b ≡ true → a ≡ b
eq_bytes-≡ [] [] e = refl
eq_bytes-≡ [] (y ∷ b) e = ground arith
eq_bytes-≡ (x ∷ a) [] e = ground arith
eq_bytes-≡ (x ∷ a) (y ∷ b) e =
    let (same, rest) = both_true (x == y) (eq_bytes a b) e in
    rw (==→≡ x y same, eq_bytes-≡ a b rest) refl

module _ (hash : GnAddress → ℕ) where
  pub same_key_refl : (a : GnAddress) → same_key hash a a ≡ true
  unfolding Address.eq
  same_key_refl a = rw (==_refl (hash a)) (eq_bytes_refl a.mid.mid)

  pub same_key_cong :
      (a b c : GnAddress) → same_key hash a b ≡ true → same_key hash a c ≡ same_key hash b c
  unfolding Address.eq
  same_key_cong a b c e =
      let (hashes, mids) = both_true (hash a == hash b) (eq_bytes a.mid.mid b.mid.mid) e in
      rw (==→≡ (hash a) (hash b) hashes, eq_bytes-≡ a.mid.mid b.mid.mid mids) refl

  pub same_key_sym : (a b : GnAddress) → same_key hash a b ≡ same_key hash b a
  same_key_sym a b = elim (Bool-cases (same_key hash a b)) [
    | inl e ↦ e ∙ sym (sym (same_key_cong a b a e) ∙ same_key_refl a)
    | inr e ↦ elim (Bool-cases (same_key hash b a)) [
      | inl e' ↦ ground (arith, e, sym (same_key_cong b a b e') ∙ same_key_refl b)
      | inr e' ↦ e ∙ sym e'
    ]
  ]

pub some_injective {ℓ} : {A : Type ℓ} {x y : A} → some x ≡ some y → x ≡ y
some_injective e = cc

pub if_again {ℓ} :
    {A : Type ℓ} (b : Bool) (x y z : A)
    → (if b then x else z) ≡ (if b then x else if b then y else z)
if_again true x y z = refl
if_again false x y z = refl

if_swap {ℓ} :
    {A : Type ℓ} (a b : Bool) (x y z : A)
    → (a ≡ true → b ≡ false)
    → (if a then x else if b then y else z) ≡ (if b then y else if a then x else z)
if_swap true b x y z h = rw (h refl) refl
if_swap false true x y z h = refl
if_swap false false x y z h = refl

module _ {ℓ} {V : Type ℓ} (hash : GnAddress → ℕ) where
  pub lookup-hit :
      (k key : GnAddress) (v : V) (d : List (GnAddress × V))
      → same_key hash k key ≡ true
      → lookup hash key ((k, v) ∷ d) ≡ some v
  lookup-hit k key v d e = rw e refl

  pub lookup-skip :
      (k key : GnAddress) (v : V) (d : List (GnAddress × V))
      → same_key hash k key ≡ false
      → lookup hash key ((k, v) ∷ d) ≡ lookup hash key d
  lookup-skip k key v d e = rw e refl

  -- What an insertion changes: the key reads the new value, and every other key what it read before.
  pub lookup-insert :
      (key other : GnAddress) (value : V) (d : List (GnAddress × V))
      → lookup hash other (insert hash key value d)
        ≡ (if same_key hash key other then some value else lookup hash other d)
  lookup-insert key other value [] = refl
  lookup-insert key other value ((k, v) ∷ d) = elim (Bool-cases (same_key hash k key)) [
    | inl same ↦
        rw (same, same_key_cong hash k key other same)
          (if_again (same_key hash key other) (some value) (some v) (lookup hash other d))
    | inr differ ↦
        rw (differ, lookup-insert key other value d)
          (if_swap (same_key hash k other) (same_key hash key other) (some v) (some value)
            (lookup hash other d)
            (λ e. same_key_sym hash key other ∙ sym (same_key_cong hash k other key e) ∙ differ))
  ]

  -- A key that was found is given its own value again: the dictionary is as before.
  pub insert-lookup :
      (key : GnAddress) (value : V) (d : List (GnAddress × V))
      → lookup hash key d ≡ some value
      → insert hash key value d ≡ d
  insert-lookup key value [] e = ground arith
  insert-lookup key value ((k, v) ∷ d) e = elim (Bool-cases (same_key hash k key)) [
    | inl same ↦ rw (same, some_injective (sym (lookup-hit k key v d same) ∙ e)) refl
    | inr differ ↦ rw differ (
        ap (λ (l : List (GnAddress × V)). (k, v) ∷ l)
          (insert-lookup key value d (sym (lookup-skip k key v d differ) ∙ e)))
  ]
