-- ===== src/Demo/Sensors.antt =====
-- demo/slam_pipeline_demo.cpp: `imu_thread`, the camera's generator, and the checks of the burst
-- options in `main`.
pub mod Ticks
pub mod Delivery
mod Tests
use scx_slam_fresh.Base.{
  ℕ, zero, suc, ◌*◌, ◌-◌, ◌+◌, ◌/◌, ◌<◌, Bool, true, false, not, ◌&&◌, ◌||◌, List, [], ◌∷◌, ◌++◌,
  Option, none, some, ◌==◌, if◌then◌else◌, ltb, leb, add64, sub64, mul64, u64, length,
}
use scx_slam_fresh.Demo.{WorkItem, StageCfg, inside_window}
use scx_slam_fresh.Demo.Window.{Reading, Measured, measured_work_us}
use scx_slam_fresh.Demo.Stage.{StageStats, note_start, note_work, is_late, bump}
use scx_slam_fresh.Demo.Queue.{Publication}

-- One iteration of the IMU's loop: the clock at its start and end, and the readings of the work.
pub record Tick : Type 0 where
  pub t0 : ℕ
  pub t1 : ℕ
  pub readings : List Reading

pub record ImuRun : Type 0 where
  pub stats : StageStats
  pub published : List Publication  -- in the order of the calls

unfoldable pub imu_deadline : StageCfg → ℕ → ℕ
imu_deadline cfg next = if cfg.deadline_rel_ns == 0 then 0 else add64 next cfg.deadline_rel_ns

unfoldable pub imu_hint : ℕ → StageCfg → ℕ → ℕ → Publication
imu_hint self cfg seq next = record {
  pid_tgid = self;
  stage_id = cfg.stage_id;
  class_id = cfg.class_id;
  job_id = seq;
  release_ts_ns = next;
  deadline_ts_ns = imu_deadline cfg next;
  stale_ns = cfg.stale_ns;
  budget_ns = cfg.budget_ns;
  slice_ns = cfg.slice_ns;
  weight = cfg.weight;
}

unfoldable pub imu_end : ℕ → ℕ → ℕ → StageStats → StageStats
imu_end e dl t1 s =
    let inside = inside_window e t1 in
    record s {
      processed = add64 s.processed 1;
      late = bump (is_late dl t1) s.late;
      window = record (s.window) {
        completed = bump inside s.window.completed;
        late = bump (inside && is_late dl t1) s.window.late;
      };
    }

unfoldable pub imu_ended : ℕ → ℕ → ℕ → Option StageStats → Option StageStats
imu_ended e dl t1 none = none
imu_ended e dl t1 (some s) = some (imu_end e dl t1 s)

-- From the wake-up on. Unlike a stage's, the IMU's window of freshness may be 0.
unfoldable pub imu_tick : (ℕ → ℕ) → ℕ → StageCfg → ℕ → ℕ → Tick → StageStats → Option StageStats
imu_tick cpu_at e cfg work_us next t s =
    let stale = ltb next t.t0 && ltb cfg.stale_ns (sub64 t.t0 next) in
    let s1 = note_start e t.t0 stale s in
    imu_ended e (imu_deadline cfg next) t.t1
      (note_work s1 (measured_work_us cpu_at e work_us s1.window t.readings))

unfoldable pub publish_first : Bool → Publication → Option ImuRun → Option ImuRun
publish_first map_open h none = none
publish_first map_open h (some r) =
    some (record r { published = if map_open then h ∷ r.published else r.published })

unfoldable pub after_tick : Option StageStats → (StageStats → Option ImuRun) → Option ImuRun
after_tick none rest = none
after_tick (some s) rest = rest s

-- The loop from the release `next` on. One tick is used up for each iteration; `none` where they
-- run out or where a tick's work never returns.
unfoldable pub imu_loop :
    (ℕ → ℕ) → ℕ → StageCfg → ℕ → Bool → ℕ → ℕ → ℕ → List Tick → ℕ → ℕ → StageStats → Option ImuRun
imu_loop cpu_at e cfg self map_open work_us period_ns end_ns [] next seq s =
    if ltb next end_ns then none else some (record { stats = s; published = [] })
imu_loop cpu_at e cfg self map_open work_us period_ns end_ns (t ∷ ts) next seq s =
    let rest =
      imu_loop cpu_at e cfg self map_open work_us period_ns end_ns ts (add64 next period_ns)
        (add64 seq 1) in
    if ltb next end_ns
    then publish_first map_open (imu_hint self cfg seq next)
        (after_tick (imu_tick cpu_at e cfg work_us next t s) rest)
    else some (record { stats = s; published = [] })

-- `end_ns`, of a duration in seconds.
unfoldable pub end_of : ℕ → ℕ → ℕ
end_of start duration_s = add64 start (mul64 duration_s 1000000000)

-- `camera_period_ns`
abbrev pub camera_period_ns : ℕ
camera_period_ns = 33000000

unfoldable pub burst_delivery_index : ℕ → ℕ
burst_delivery_index at_ms =
    sub64 (add64 (mul64 at_ms 1000000) camera_period_ns) 1 / camera_period_ns

unfoldable pub camera_frame_count : ℕ → ℕ
camera_frame_count duration_s =
    sub64 (add64 (mul64 duration_s 1000000000) camera_period_ns) 1 / camera_period_ns

-- The check in `main`: a burst of `count` frames, delivered at `at_ms`, fits the run.
unfoldable pub burst_fits : ℕ → ℕ → ℕ → Bool
burst_fits duration_s count at_ms =
    let delivery = burst_delivery_index at_ms in
    not (
      ltb 0 count && (leb (camera_frame_count duration_s) delivery || ltb (add64 delivery 1) count))

pub record Camera : Type 0 where
  pub seq : ℕ
  pub frame_index : ℕ
  pub release : ℕ
  pub held_burst : List WorkItem
  pub generated : ℕ
  pub pushed : List WorkItem  -- to the camera's queue, in order

unfoldable pub camera_start : ℕ → Camera
camera_start start = record {
  seq = 1;
  frame_index = 0;
  release = start;
  held_burst = [];
  generated = 0;
  pushed = [];
}

unfoldable pub burst_first_index : ℕ → ℕ → ℕ
burst_first_index count delivery = if ltb 0 count then sub64 (add64 delivery 1) count else 0

unfoldable pub in_burst : ℕ → ℕ → ℕ → Bool
in_burst count delivery frame =
    ltb 0 count && (leb (burst_first_index count delivery) frame && leb frame delivery)

-- Push the held frames, one after the other.
unfoldable pub push_all : List WorkItem → Camera → Camera
push_all [] c = c
push_all (w ∷ ws) c =
    push_all ws (record c { pushed = c.pushed ++ (w ∷ []); generated = add64 c.generated 1 })

unfoldable pub camera_item : ℕ → ℕ → Camera → WorkItem
camera_item count delivery c = record {
  seq = c.seq;
  ts_ns = c.release;
  kind = 1;
  points = 0;
  burst_id = if in_burst count delivery c.frame_index then 1 else 0;
}

-- The two branches of the loop's body.
unfoldable pub hold_frame : ℕ → WorkItem → Camera → Camera
hold_frame delivery w c =
    let held = record c { held_burst = c.held_burst ++ (w ∷ []) } in
    if c.frame_index == delivery
    then record (push_all held.held_burst held) { held_burst = [] }
    else held

unfoldable pub send_frame : WorkItem → Camera → Camera
send_frame w c = record c { pushed = c.pushed ++ (w ∷ []); generated = add64 c.generated 1 }

-- The increments of the loop's head.
unfoldable pub next_frame : Camera → Camera
next_frame c = record c {
  release = add64 c.release camera_period_ns;
  frame_index = add64 c.frame_index 1;
}

unfoldable pub camera_frame : ℕ → ℕ → Camera → Camera
camera_frame count delivery c =
    let w = camera_item count delivery c in
    let c1 = record c { seq = add64 c.seq 1 } in
    next_frame
      (if in_burst count delivery c.frame_index then hold_frame delivery w c1 else send_frame w c1)

-- The loop, on fuel.
unfoldable pub camera_loop : ℕ → ℕ → ℕ → ℕ → Camera → Option Camera
camera_loop zero count delivery end_ns c = if ltb c.release end_ns then none else some c
camera_loop (suc fuel) count delivery end_ns c =
    let rest = camera_loop fuel count delivery end_ns (camera_frame count delivery c) in
    if ltb c.release end_ns then rest else some c
