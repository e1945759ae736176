-- ===== src/Dcc/Adaptive/Bounds.antt =====
-- The bounds of the duty cycle of adaptive congestion control.
use flex_stack.Prelude.{
  ◌≡◌, refl, inl, inr, ◌⊎◌, ◌&&◌, true, false, Option, ok, err, value_error, Bool-cases,
}
use flex_stack.Floats.{Floats}
use flex_stack.Dcc.Adaptive.{Comparisons, DccAdaptive, at_least, at_most, is_ratio, update}

module _ (fl : Floats) where
  open fl use {Float, flt}

  -- Not below the one bound and not above the other.
  pub record IsWithin (lowest highest delta : Float) : Type 0 where
    pub above : flt delta lowest ≡ false
    pub below : flt highest delta ≡ false

  clamped-IsWithin :
      (lowest highest delta : Float)
      → flt lowest lowest ≡ false
      → flt highest highest ≡ false
      → flt highest lowest ≡ false
      → IsWithin lowest highest (at_least fl lowest (at_most fl highest delta))
  clamped-IsWithin lowest highest delta l h apart = elim (Bool-cases (flt highest delta)) [
    | inl over ↦ rw (over, apart) (record { above = apart; below = h })
    | inr fits ↦ elim (Bool-cases (flt delta lowest)) [
      | inl under ↦ rw (fits, under) (record { above = l; below = apart })
      | inr enough ↦ rw (fits, enough) (record { above = enough; below = fits })
    ]
  ]

  -- Of an update, where no bound is less than itself and the maximum is not less than the minimum:
  -- if both local ratios are from 0 to 1, it returns the new duty cycle, which is not below the
  -- minimum and not above the maximum; if not, it raises ValueError and changes nothing.
  pub update-IsWithin :
      (c : Comparisons fl) (cbr_local cbr_local_previous : Float)
      (cbr_global cbr_global_previous : Option Float) (d : DccAdaptive fl)
      → flt d.parameters.delta_min d.parameters.delta_min ≡ false
      → flt d.parameters.delta_max d.parameters.delta_max ≡ false
      → flt d.parameters.delta_max d.parameters.delta_min ≡ false
      → let (answer, d') =
          update fl c cbr_local cbr_local_previous cbr_global cbr_global_previous d in
        ((is_ratio fl c cbr_local && is_ratio fl c cbr_local_previous ≡ true)
          × (answer ≡ ok d'.delta)
          × IsWithin d.parameters.delta_min d.parameters.delta_max d'.delta)
        ⊎ ((is_ratio fl c cbr_local && is_ratio fl c cbr_local_previous ≡ false)
            × (answer ≡ err value_error)
            × (d' ≡ d))
  unfolding update
  update-IsWithin c cbr_local cbr_local_previous cbr_global cbr_global_previous d l h apart =
      elim (Bool-cases (is_ratio fl c cbr_local)) [
        | inr not_ratio ↦ inr (rw not_ratio (refl, refl, refl))
        | inl ratio ↦ elim (Bool-cases (is_ratio fl c cbr_local_previous)) [
          | inr not_ratio ↦ inr (rw (ratio, not_ratio) (refl, refl, refl))
          | inl ratio' ↦ inl (
              rw (ratio, ratio')
                (
                  refl,
                  refl,
                  clamped-IsWithin d.parameters.delta_min d.parameters.delta_max _ l h apart,
                ))
        ]
      ]
