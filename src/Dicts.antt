-- ===== src/Dicts.antt =====
-- Python's dictionaries with integer keys, as association lists in insertion order.
use flex_stack.Prelude.{
  ℕ, ◌≡◌, refl, Bool, List, [], ◌∷◌, Option, none, some, ◌==◌, if◌then◌else◌, arith,
}

module _ {ℓ} {V : Type ℓ} where
  -- `d.get(key)`
  abbrev pub dict_get : ℕ → List (ℕ × V) → Option V
  dict_get key [] = none
  dict_get key ((k, v) ∷ d) = if k == key then some v else dict_get key d

  -- `d[key] = value`
  abbrev pub dict_set : ℕ → V → List (ℕ × V) → List (ℕ × V)
  dict_set key value [] = (key, value) ∷ []
  dict_set key value ((k, v) ∷ d) =
      if k == key then (k, value) ∷ d else (k, v) ∷ dict_set key value d

  -- `{k: v for k, v in d.items() if keep(v)}`
  abbrev pub dict_filter : (V → Bool) → List (ℕ × V) → List (ℕ × V)
  dict_filter keep [] = []
  dict_filter keep ((k, v) ∷ d) =
      let rest = dict_filter keep d in if keep v then (k, v) ∷ rest else rest

  pub dict_get-dict_set :
      (key other : ℕ) (value : V) (d : List (ℕ × V))
      → dict_get other (dict_set key value d)
        ≡ (if key == other then some value else dict_get other d)
  dict_get-dict_set key other value [] = refl
  dict_get-dict_set key other value ((k, v) ∷ d) =
      ground (arith, dict_get-dict_set key other value d)
