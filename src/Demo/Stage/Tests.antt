-- ===== src/Demo/Stage/Tests.antt =====
-- demo/slam_pipeline_demo.cpp, `stage_worker`: three turns, one of them dropped and one across the
-- end of the window.
use scx_slam_fresh.Base.{ℕ, ◌≡◌, refl, true, length, List, [], ◌∷◌, some, arith, All}
use scx_slam_fresh.Demo.{WorkItem, StageCfg, inside_window, is_stale, deadline_abs}
use scx_slam_fresh.Demo.Stage.{
  Stage, Turn, run_turns, window_report, no_stats, no_window_stats, handle, send, after_turn,
  note_start, note_drop, note_end, pushed, work, ended, is_late,
}
use scx_slam_fresh.Demo.Stage.Totals.{Totals, fresh, run_turns-Totals}
use scx_slam_fresh.Demo.Window.{WindowStageStats}
use scx_slam_fresh.Demo.Stage.Turns.{Forward}
use scx_slam_fresh.Demo.Stage.InFlight.{holding, in_flight_is_holding, taken_before}

abbrev item : ℕ → ℕ → WorkItem
item n t = record { seq = n; ts_ns = t; kind = 1; points = 0; burst_id = 0 }

abbrev cfg : StageCfg
cfg = record {
  stage_id = 1;
  class_id = 1;
  deadline_rel_ns = 1200;
  stale_ns = 2000;
  budget_ns = 0;
  slice_ns = 0;
  weight = 0;
}

abbrev cpu_clock : ℕ → ℕ
cpu_clock t = t

abbrev no_work : WorkItem → ℕ
no_work w = 0

abbrev turns : List Turn
turns =
    record { item = item 4 100; popped = 200; t0 = 210; t1 = 1400; readings = [] }
    ∷ record { item = item 5 150; popped = 3000; t0 = 3010; t1 = 3010; readings = [] }
    ∷ record { item = item 6 2900; popped = 3020; t0 = 3030; t1 = 5200; readings = [] }
    ∷ []

abbrev window : WindowStageStats
window = record {
  started = 3;
  completed = 1;
  late = 1;
  stale_seen = 1;
  dropped_stale = 1;
  cpu_ns = 0;
  cpu_uncertainty_ns = 0;
}

abbrev after_turns : Stage
after_turns = record {
  stats = record {
    processed = 2;
    late = 2;
    cpu_ns = 0;
    stale_seen = 1;
    dropped_stale = 1;
    queue_evicted_stale = 0;
    burst_processed = 0;
    burst_latest_seq = 0;
    burst_latest_age_ns = 0;
    focus_job = 4;
    focus_release_ns = 100;
    focus_completion_ns = 1400;
    window = window;
  };
  worked = item 4 100 ∷ item 6 2900 ∷ [];
}

turns_run : run_turns cpu_clock 5000 no_work cfg true turns no_stats ≡ some after_turns
unfolding run_turns no_stats no_window_stats handle send after_turn note_start note_drop note_end
    work ended is_late is_stale inside_window deadline_abs
turns_run = refl

turns-Forward : All Forward turns
turns-Forward =
    ((omega arith, omega arith), ((omega arith, omega arith), ((omega arith, omega arith), tt)))

run_turns-Totals_example :
    Totals 3 (length (fresh cfg true turns)) after_turns.stats
    × (pushed true after_turns ≡ fresh cfg true turns)
run_turns-Totals_example =
    run_turns-Totals cpu_clock 5000 no_work cfg true true turns after_turns turns_run (omega arith)
      turns-Forward

in_flight_is_holding_example :
    (window_report after_turns.stats (record { offered = 3; dequeued = 3; evicted = 0 })).in_flight
    ≡ holding 5000 cfg true turns
in_flight_is_holding_example =
    in_flight_is_holding cpu_clock 5000 no_work cfg true turns after_turns
      (record { offered = 3; dequeued = 3; evicted = 0 }) turns_run (omega arith) turns-Forward
      (unfold taken_before inside_window in refl)
