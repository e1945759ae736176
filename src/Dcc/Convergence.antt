-- ===== src/Dcc/Convergence.antt =====
-- How the state of the reactive congestion control moves.
use flex_stack.Prelude.{
  ℕ, zero, suc, ◌+◌, ◌-◌, ◌≤◌, ◌≡◌, refl, ◌∙◌, sym, ap, inl, inr, ◌⊎◌, true, leb, ltb, ok,
  Bool-cases, if◌then◌else◌, arith,
}
use flex_stack.Dcc.{
  DccStateConfig, DccState, relaxed, active_1, active_2, active_3, restrictive, DccReactive,
  DccReactiveOutput, table_a1, table_a2, state_index, state_at, config_of, step_index, Ratios,
  target_state, in_range, update_dcc,
}

state_index-le : (s : DccState) → state_index s ≤ 4
state_index-le restrictive = omega arith
state_index-le _ = omega arith

state_at-state_index : (s : DccState) → state_at (state_index s) ≡ ok s
state_at-state_index restrictive = refl
state_at-state_index _ = refl

state_at-cases : (i : ℕ) → i ≤ 4 → (s : DccState) × (state_at i ≡ ok s) × (state_index s ≡ i)
state_at-cases zero h = (relaxed, refl, refl)
state_at-cases (suc zero) h = (active_1, refl, refl)
state_at-cases (suc (suc zero)) h = (active_2, refl, refl)
state_at-cases (suc (suc (suc zero))) h = (active_3, refl, refl)
state_at-cases (suc (suc (suc (suc zero)))) h = (restrictive, refl, refl)
state_at-cases (suc (suc (suc (suc (suc i))))) h = absurd (omega arith)

ok_injective {ℓ} : {A : Type ℓ} {x y : A} → ok x ≡ ok y → x ≡ y
ok_injective e = cc

-- The table is one of the two of Annex A.
abbrev pub HasStandardTable : DccReactive → Type 0
HasStandardTable d = (d.table ≡ table_a1) ⊎ (d.table ≡ table_a2)

module _ (ratios : Ratios) where
  pub step_index-le : (s t : DccState) → step_index (state_index t) (state_index s) ≤ 4
  step_index-le s t = ground (arith, state_index-le s, state_index-le t)

  -- The moved object of an update in range.
  update_dcc-state :
      (cbr : ratios.Ratio) (d : DccReactive)
      → in_range ratios cbr ≡ true
      → state_index (update_dcc ratios cbr d).1.state
        ≡ step_index (state_index (target_state ratios d.table cbr)) (state_index d.state)
  unfolding update_dcc
  update_dcc-state cbr d valid =
      let (s, at, index) =
        state_at-cases
          (step_index (state_index (target_state ratios d.table cbr)) (state_index d.state))
          (step_index-le d.state (target_state ratios d.table cbr)) in
      rw (valid, at) index

  update_dcc-table :
      (cbr : ratios.Ratio) (d : DccReactive) → (update_dcc ratios cbr d).1.table ≡ d.table
  unfolding update_dcc
  update_dcc-table cbr d = elim (Bool-cases (in_range ratios cbr)) [
    | inl valid ↦
        let (s, at, index) =
          state_at-cases
            (step_index (state_index (target_state ratios d.table cbr)) (state_index d.state))
            (step_index-le d.state (target_state ratios d.table cbr)) in
        rw (valid, at) refl
    | inr invalid ↦ rw invalid refl
  ]

  config_of-standard :
      (d : DccReactive) (s : DccState)
      → HasStandardTable d
      → (cfg : DccStateConfig) × (config_of s d.table ≡ ok cfg)
  config_of-standard d s (inl a1) = rw a1 (by_state s)
    where
      by_state : (s : DccState) → (cfg : DccStateConfig) × (config_of s table_a1 ≡ ok cfg)
      by_state relaxed = (_, refl)
      by_state active_1 = (_, refl)
      by_state active_2 = (_, refl)
      by_state active_3 = (_, refl)
      by_state restrictive = (_, refl)
  config_of-standard d s (inr a2) = rw a2 (by_state s)
    where
      by_state : (s : DccState) → (cfg : DccStateConfig) × (config_of s table_a2 ≡ ok cfg)
      by_state relaxed = (_, refl)
      by_state active_1 = (_, refl)
      by_state active_2 = (_, refl)
      by_state active_3 = (_, refl)
      by_state restrictive = (_, refl)

  -- An update with a ratio from 0 to 1 and a standard table does not raise. It answers with the new
  -- state, which is the old one or a neighbour of it.
  pub update_dcc-adjacent :
      (cbr : ratios.Ratio) (d : DccReactive)
      → HasStandardTable d
      → in_range ratios cbr ≡ true
      → let (answer, d') = update_dcc ratios cbr d in
        ((out : DccReactiveOutput) × (answer ≡ ok out) × (out.state ≡ d'.state))
        × (state_index d'.state ≤ state_index d.state + 1)
        × (state_index d.state ≤ state_index d'.state + 1)
  unfolding update_dcc
  update_dcc-adjacent cbr d standard valid =
      let target = target_state ratios d.table cbr in
      let (s, at, index) =
        state_at-cases (step_index (state_index target) (state_index d.state))
          (step_index-le d.state target) in
      let (cfg, row) = config_of-standard d s standard in
      rw (valid, at, row) ((_, refl, refl), ground (arith, index), ground (arith, index))

  unfoldable pub update_times : ℕ → ratios.Ratio → DccReactive → DccReactive
  update_times zero cbr d = d
  update_times (suc k) cbr d = update_times k cbr (update_dcc ratios cbr d).1

  -- `k` positions from the current one towards the target, and not past it.
  abbrev pub towards : ℕ → ℕ → ℕ → ℕ
  towards k target current =
      if ltb current target
      then if leb (current + k) target then current + k else target
      else if leb (target + k) current
      then current - k
      else target

  towards-step :
      (k target current : ℕ)
      → towards k target (step_index target current) ≡ towards (suc k) target current
  towards-step k target current = ground arith

  -- After `k` updates with the same ratio from 0 to 1 the state is `k` positions nearer to the state
  -- that the table gives for the ratio, or has reached it.
  pub update_times-index :
      (k : ℕ) (cbr : ratios.Ratio) (d : DccReactive)
      → in_range ratios cbr ≡ true
      → state_index (update_times k cbr d).state
        ≡ towards k (state_index (target_state ratios d.table cbr)) (state_index d.state)
  unfolding update_times
  update_times-index zero cbr d valid = ground arith
  update_times-index (suc k) cbr d valid =
      update_times-index k cbr (update_dcc ratios cbr d).1 valid
      ∙ rw (update_dcc-table cbr d, update_dcc-state cbr d valid)
          (towards-step k (state_index (target_state ratios d.table cbr)) (state_index d.state))

  state_index_injective : (s t : DccState) → state_index s ≡ state_index t → s ≡ t
  state_index_injective s t e =
      ok_injective (sym (state_at-state_index s) ∙ ap state_at e ∙ state_at-state_index t)

  -- Four or more updates with the same ratio from 0 to 1 reach the state that the table gives for it,
  -- from whatever state.
  pub update_times-target :
      (k : ℕ) (cbr : ratios.Ratio) (d : DccReactive)
      → in_range ratios cbr ≡ true
      → 4 ≤ k
      → (update_times k cbr d).state ≡ target_state ratios d.table cbr
  update_times-target k cbr d valid enough =
      let target = target_state ratios d.table cbr in
      state_index_injective (update_times k cbr d).state target (
        update_times-index k cbr d valid
        ∙ reached k (state_index target) (state_index d.state) enough (state_index-le target)
            (state_index-le d.state))
    where
      reached : (k t c : ℕ) → 4 ≤ k → t ≤ 4 → c ≤ 4 → towards k t c ≡ t
      reached k t c h ht hc = ground arith
