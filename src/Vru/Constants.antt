-- ===== src/Vru/Constants.antt =====
-- src/flexstack/facilities/vru_awareness_service/vam_constants.py: the constants of clustering, with
-- times in milliseconds and distances in metres.
use flex_stack.Prelude.{ℕ}

abbrev pub t_genvammax : ℕ
t_genvammax = 5000

abbrev pub num_create_cluster : ℕ
num_create_cluster = 3

abbrev pub max_cluster_distance : ℕ
max_cluster_distance = 5

abbrev pub min_cluster_size : ℕ
min_cluster_size = 1

abbrev pub time_cluster_uniqueness_threshold : ℕ
time_cluster_uniqueness_threshold = 30000

abbrev pub time_cluster_breakup_warning : ℕ
time_cluster_breakup_warning = 3000

abbrev pub time_cluster_join_notification : ℕ
time_cluster_join_notification = 3000

abbrev pub time_cluster_join_success : ℕ
time_cluster_join_success = 500

abbrev pub time_cluster_continuity : ℕ
time_cluster_continuity = 2000

abbrev pub time_cluster_leave_notification : ℕ
time_cluster_leave_notification = 1000
