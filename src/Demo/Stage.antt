-- ===== src/Demo/Stage.antt =====
-- demo/slam_pipeline_demo.cpp, `stage_worker` and `print_window_stage`: what one pipeline stage does
-- with the items it takes, and what is reported of it.
--
-- A turn is one iteration of the worker's loop: the clock inside `pop`, at the start of the work and
-- at its end, and the readings of the measured work.
pub mod Turns
pub mod Totals
pub mod InFlight
mod Tests
use scx_slam_fresh.Base.{
  ℕ, suc, ◌-◌, ◌≡◌, Bool, true, false, not, ◌&&◌, List, [], ◌∷◌, Option, none, some, ◌==◌,
  if◌then◌else◌, ltb, add64, sub64, ◌/◌, ◌++◌,
}
use scx_slam_fresh.Demo.{WorkItem, StageCfg, deadline_abs, is_stale, inside_window}
use scx_slam_fresh.Demo.Window.{WindowStageStats, Reading, Measured, measured_work_us}
use scx_slam_fresh.Demo.Queue.{WindowQueueStats, pending_at_end}

-- `StageStats`, without the policy that the kernel reports.
pub record StageStats : Type 0 where
  pub processed : ℕ
  pub late : ℕ
  pub cpu_ns : ℕ
  pub stale_seen : ℕ
  pub dropped_stale : ℕ
  pub queue_evicted_stale : ℕ
  pub burst_processed : ℕ
  pub burst_latest_seq : ℕ
  pub burst_latest_age_ns : ℕ
  pub focus_job : ℕ
  pub focus_release_ns : ℕ
  pub focus_completion_ns : ℕ
  pub window : WindowStageStats

unfoldable pub no_window_stats : WindowStageStats
no_window_stats = record {
  started = 0;
  completed = 0;
  late = 0;
  stale_seen = 0;
  dropped_stale = 0;
  cpu_ns = 0;
  cpu_uncertainty_ns = 0;
}

unfoldable pub no_stats : StageStats
no_stats = record {
  processed = 0;
  late = 0;
  cpu_ns = 0;
  stale_seen = 0;
  dropped_stale = 0;
  queue_evicted_stale = 0;
  burst_processed = 0;
  burst_latest_seq = 0;
  burst_latest_age_ns = 0;
  focus_job = 0;
  focus_release_ns = 0;
  focus_completion_ns = 0;
  window = no_window_stats;
}

pub record Turn : Type 0 where
  pub item : WorkItem
  pub popped : ℕ
  pub t0 : ℕ
  pub t1 : ℕ
  pub readings : List Reading

abbrev pub bump : Bool → ℕ → ℕ
bump b n = if b then add64 n 1 else n

-- What is counted when the item is taken: the first two `if`s.
unfoldable pub note_start : ℕ → ℕ → Bool → StageStats → StageStats
note_start e t0 stale s =
    let inside = inside_window e t0 in
    record s {
      stale_seen = bump stale s.stale_seen;
      window = record (s.window) {
        started = bump inside s.window.started;
        stale_seen = bump (inside && stale) s.window.stale_seen;
      };
    }

unfoldable pub note_drop : ℕ → ℕ → StageStats → StageStats
note_drop e t0 s = record s {
  dropped_stale = add64 s.dropped_stale 1;
  window = record (s.window) { dropped_stale = bump (inside_window e t0) s.window.dropped_stale };
}

unfoldable pub note_work : StageStats → Option Measured → Option StageStats
note_work s none = none
note_work s (some m) = some (record s { cpu_ns = add64 s.cpu_ns m.elapsed; window = m.window })

unfoldable pub work : (ℕ → ℕ) → ℕ → ℕ → List Reading → StageStats → Option StageStats
work cpu_at e work_us readings s =
    if work_us == 0
    then some s
    else note_work s (measured_work_us cpu_at e work_us s.window readings)

-- `dl && t1 > dl`
unfoldable pub is_late : ℕ → ℕ → Bool
is_late dl t1 = not (dl == 0) && ltb dl t1

-- What is counted when the work is done.
unfoldable pub note_end : ℕ → ℕ → ℕ → WorkItem → StageStats → StageStats
note_end e dl t1 w s =
    let inside = inside_window e t1 in
    let late = is_late dl t1 in
    let s1 = record s {
      processed = add64 s.processed 1;
      late = bump late s.late;
      window = record (s.window) {
        completed = bump inside s.window.completed;
        late = bump (inside && late) s.window.late;
      };
    } in
    let s2 =
      if w.seq == 4
      then record s1 { focus_job = w.seq; focus_release_ns = w.ts_ns; focus_completion_ns = t1 }
      else s1 in
    if w.burst_id == 0 then s2 else record s2 {
      burst_processed = add64 s2.burst_processed 1;
      burst_latest_seq = w.seq;
      burst_latest_age_ns = if ltb w.ts_ns t1 then sub64 t1 w.ts_ns else 0;
    }

pub record Handled : Type 0 where
  pub stats : StageStats
  pub forwarded : Option WorkItem

unfoldable pub ended : ℕ → StageCfg → Turn → Option StageStats → Option Handled
ended e cfg t none = none
ended e cfg t (some s) =
    some (record {
      stats = note_end e (deadline_abs t.item cfg) t.t1 t.item s;
      forwarded = some t.item;
    })

-- The body of the loop after `pop`: `none` where the measured work never returns.
unfoldable pub handle :
    (ℕ → ℕ) → ℕ → (WorkItem → ℕ) → StageCfg → Bool → Turn → StageStats → Option Handled
handle cpu_at e compute_us cfg drop_stale t s =
    let stale = is_stale t.t0 t.item cfg in
    let s1 = note_start e t.t0 stale s in
    if stale && drop_stale
    then some (record { stats = note_drop e t.t0 s1; forwarded = none })
    else ended e cfg t (work cpu_at e (compute_us t.item) t.readings s1)

-- The counters, and the items that reached the end of the loop's body, in order.
pub record Stage : Type 0 where
  pub stats : StageStats
  pub worked : List WorkItem

abbrev pub to_list : Option WorkItem → List WorkItem
to_list none = []
to_list (some w) = w ∷ []

unfoldable pub send : Option WorkItem → Option Stage → Option Stage
send o none = none
send o (some r) = some (record { stats = r.stats; worked = to_list o ++ r.worked })

unfoldable pub after_turn : Option Handled → (StageStats → Option Stage) → Option Stage
after_turn none rest = none
after_turn (some h) rest = send h.forwarded (rest h.stats)

unfoldable pub run_turns :
    (ℕ → ℕ) → ℕ → (WorkItem → ℕ) → StageCfg → Bool → List Turn → StageStats → Option Stage
run_turns cpu_at e compute_us cfg drop_stale [] s = some (record { stats = s; worked = [] })
run_turns cpu_at e compute_us cfg drop_stale (t ∷ ts) s =
    after_turn (handle cpu_at e compute_us cfg drop_stale t s)
      (run_turns cpu_at e compute_us cfg drop_stale ts)

-- `if (out) out->push(w)`: the next queue gets them, if there is one.
unfoldable pub pushed : Bool → Stage → List WorkItem
pushed has_out r = if has_out then r.worked else []

-- The numbers of `print_window_stage`.
pub record Report : Type 0 where
  pub offered : ℕ
  pub completed : ℕ
  pub late : ℕ
  pub stale_seen : ℕ
  pub dropped_stale : ℕ
  pub pending : ℕ
  pub in_flight : ℕ
  pub cpu_us : ℕ
  pub cpu_ns : ℕ
  pub cpu_uncertainty_ns : ℕ
  pub drain_completed : ℕ
  pub drain_late : ℕ
  pub drain_cpu_us : ℕ
  pub drain_cpu_ns : ℕ

unfoldable pub window_report : StageStats → WindowQueueStats → Report
window_report s q =
    let w = s.window in
    record {
      offered = q.offered;
      completed = w.completed;
      late = w.late;
      stale_seen = add64 w.stale_seen q.evicted;
      dropped_stale = add64 w.dropped_stale q.evicted;
      pending = pending_at_end q;
      in_flight = sub64 (sub64 q.dequeued w.completed) w.dropped_stale;
      cpu_us = w.cpu_ns / 1000;
      cpu_ns = w.cpu_ns;
      cpu_uncertainty_ns = w.cpu_uncertainty_ns;
      drain_completed = sub64 s.processed w.completed;
      drain_late = sub64 s.late w.late;
      drain_cpu_us = sub64 s.cpu_ns w.cpu_ns / 1000;
      drain_cpu_ns = sub64 s.cpu_ns w.cpu_ns;
    }
