-- ===== src/Vru/Clustering/Calls.antt =====
-- The calls of a `VBSClusteringManager` and its life as a sequence of them, each at its time.
use flex_stack.Prelude.{ℕ, List, [], ◌∷◌, Option}
use flex_stack.Floats.{Floats, Trig}
use flex_stack.Vru.Clustering.{ClusterLeaveReason, ClusterBreakupReason, Manager}
use flex_stack.Vru.Clustering.Operations.{
  set_vru_role_on, set_vru_role_off, initiate_join, cancel_join, confirm_join_failed,
  trigger_leave_cluster, trigger_breakup_cluster,
}
use flex_stack.Vru.Clustering.Creation.{try_create_cluster}
use flex_stack.Vru.Clustering.Reception.{Vam, on_received_vam}
use flex_stack.Vru.Clustering.Maintenance.{Outcome, done, update}

module _ (fl : Floats) where
  open fl use {Float}

  pub data Call : Type 0 where
    role_on role_off cancel confirm_failed tick : Call
    -- The draws of identifiers and the device's own position.
    create : (ℕ → ℕ) → Float → Float → Call
    join : ℕ → Call
    leave : ClusterLeaveReason → Call
    breakup : ClusterBreakupReason → Call
    receive : Option Vam → Call

  module _ (trig : Trig fl) where
    -- One call; an exception keeps what it had changed.
    unfoldable pub call : ℕ → Call → Manager fl → Outcome fl
    call now role_on m = done fl (set_vru_role_on fl m)
    call now role_off m = done fl (set_vru_role_off fl m)
    call now cancel m = done fl (cancel_join fl now m)
    call now confirm_failed m = done fl (confirm_join_failed fl now m)
    call now tick m = update fl now m
    call now (create draw own_lat own_lon) m =
        done fl (try_create_cluster fl trig now draw own_lat own_lon m).1
    call now (join cluster_id) m = done fl (initiate_join fl now cluster_id m).1
    call now (leave reason) m = done fl (trigger_leave_cluster fl now reason m)
    call now (breakup reason) m = done fl (trigger_breakup_cluster fl now reason m).1
    call now (receive vam) m = done fl (on_received_vam fl trig now vam m)

    unfoldable pub run : List (ℕ × Call) → Manager fl → Manager fl
    unfolding call
    run [] m = m
    run ((now, c) ∷ cs) m = run cs (call now c m).1
