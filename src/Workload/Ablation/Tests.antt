-- ===== src/Workload/Ablation/Tests.antt =====
-- ros2/scx_slam_workload: a camera's hint without its side, and a window of completions.
use scx_slam_fresh.Base.{ℕ, ◌≡◌, List, [], ◌∷◌, arith}
use scx_slam_fresh.Executor.Hint.{FreshAbi, Hint}
use scx_slam_fresh.Workload.Ablation.Laws.{Ascending, count_within, window_iterations_counts}
use scx_slam_fresh.Workload.Ablation.{window_iterations}

abbrev abi : FreshAbi
abi = record { stage_unspecified = 255; class_background = 0; class_deadline = 1; class_urgent = 2 }

abbrev vision : Hint
vision = record {
  stage_id = 1;
  class_id = 1;
  job_id = 12;
  release_ts_ns = 1000;
  deadline_ts_ns = 34000;
  stale_ns = 66000;
  budget_ns = 12000;
  slice_ns = 0;
  weight = 0;
  flags = 1;
}

abbrev completions : List ℕ
completions = 100 ∷ 200 ∷ 300 ∷ 400 ∷ []

completions-Ascending : Ascending completions
completions-Ascending = (
  (omega arith, (omega arith, (omega arith, tt))),
  ((omega arith, (omega arith, tt)), ((omega arith, tt), (tt, tt))),
)

window_iterations_counts_example :
    window_iterations completions 200 400 ≡ count_within 200 400 completions
window_iterations_counts_example =
    window_iterations_counts completions 200 400 completions-Ascending (omega arith) (omega arith)
