-- ===== src/Graph/Tests.antt =====
-- demo/dependent_graph.h: runs of a graph, after tests/test_dependent_graph.cpp.
use scx_slam_fresh.Base.{
  ℕ, ◌≡◌, refl, ◌≤◌, ◌++◌, List, [], ◌∷◌, none, some, length, ok, u64, All, arith, min, ◌+◌,
}
use scx_slam_fresh.Graph.{
  Batch, Control, Graph, Measurement, Snapshot, complete, new_graph, select, camera, consume,
  control, counts, empty_lane, fill, imu, pending, offer, in_flight, inputs_of, lane,
}
use scx_slam_fresh.Graph.Calls.{Call, run, step, completes, offers, selects, controls}
use scx_slam_fresh.Graph.Order.{IsSorted, NoOlder, select_takes_oldest}
use scx_slam_fresh.Graph.History.Log.{watch_all, start}
use scx_slam_fresh.Graph.History.{run_is_queue}
use scx_slam_fresh.Graph.Invariant.{BatchSize, new_graph-Inv}
use scx_slam_fresh.Graph.Freshness.{Newest, Reports, complete-Newest, control-Reports}
use scx_slam_fresh.Graph.Select.{of_stream}
use scx_slam_fresh.Graph.Ownership.{step_keeps_running}
use scx_slam_fresh.Graph.Run.{run_bounded, run-Inv, run_conserves}

abbrev imu_at : ℕ → ℕ → Measurement
imu_at n t = record { stream = imu; sequence = n; source_time = t }

abbrev camera_at : ℕ → ℕ → Measurement
camera_at n t = record { stream = camera; sequence = n; source_time = t }

abbrev fresh : Graph
fresh = record {
  capacity = 2;
  limit = 2;
  lane_imu = empty_lane;
  lane_camera = empty_lane;
  running = none;
  latest = none;
  next_batch = 1;
  next_tick = 1;
  clock_time = 0;
}

fresh_is_new : new_graph 2 2 ≡ ok fresh
unfolding new_graph
fresh_is_new = refl

abbrev calls : List Call
calls =
    offers (imu_at 1 1) 1
    ∷ offers (camera_at 1 2) 2
    ∷ selects 2
    ∷ offers (imu_at 2 3) 3
    ∷ completes 2 3
    ∷ completes 1 4
    ∷ selects 4
    ∷ controls 5 44 10
    ∷ offers (imu_at 3 5) 5
    ∷ offers (imu_at 4 6) 6
    ∷ offers (imu_at 5 7) 7
    ∷ []

-- Four measurements of five were taken in, one of them is consumed and one in flight.
calls_counts : counts imu (run fresh calls) ≡ record { offered = 5; dropped = 1; consumed = 1 }
unfolding run step counts offer select complete control fill consume
calls_counts = refl

run_conserves_example :
    let h = run fresh calls in
    (counts imu h).offered
    ≡ u64 ((counts imu h).dropped + (counts imu h).consumed + pending imu h + in_flight imu h)
run_conserves_example = run_conserves 2 2 calls imu fresh_is_new

run_bounded_example : let h = run fresh calls in (pending imu h ≤ 2) × BatchSize 2 h.running
run_bounded_example = run_bounded 2 2 calls imu fresh_is_new

run_is_queue_example :
    let h = watch_all (start fresh) calls in
    let g' = run fresh calls in
    of_stream imu h.accepted
    ≡ of_stream imu h.processed ++ (of_stream imu (inputs_of g'.running) ++ (lane imu g').inbox)
run_is_queue_example = run_is_queue 2 2 calls imu fresh_is_new

-- Two measurements of each stream wait, the camera's first being the oldest.
abbrev waiting : Graph
waiting = record fresh {
  lane_imu = record empty_lane { inbox = imu_at 1 3 ∷ imu_at 2 5 ∷ [] };
  lane_camera = record empty_lane { inbox = camera_at 1 1 ∷ camera_at 2 4 ∷ [] };
  clock_time = 5;
}

abbrev batch : Batch
batch = record { id = 1; inputs = camera_at 1 1 ∷ imu_at 1 3 ∷ [] }

abbrev started : Graph
started = record waiting {
  lane_imu = record empty_lane { inbox = imu_at 2 5 ∷ [] };
  lane_camera = record empty_lane { inbox = camera_at 2 4 ∷ [] };
  running = some batch;
  next_batch = 2;
  clock_time = 6;
}

waiting_starts : select 6 waiting ≡ ok (some batch, started)
unfolding select fill
waiting_starts = refl

select_takes_oldest_example :
    (length batch.inputs ≡ min 2 4)
    × (IsSorted waiting.lane_imu.inbox
        → IsSorted waiting.lane_camera.inbox
        → IsSorted batch.inputs
          × All (λ m. NoOlder m.source_time started.lane_imu.inbox) batch.inputs
          × All (λ m. NoOlder m.source_time started.lane_camera.inbox) batch.inputs)
select_takes_oldest_example = select_takes_oldest 6 waiting batch started waiting_starts

step_keeps_running_example : (step started (completes 2 7)).running ≡ some batch
step_keeps_running_example = step_keeps_running started (completes 2 7) batch refl (λ t q. cc)

abbrev batch_snapshot : Snapshot
batch_snapshot = record {
  batch_id = 1;
  completed = 7;
  last_imu = some (imu_at 1 3);
  last_camera = some (camera_at 1 1);
}

complete-Newest_example : Newest imu started batch batch_snapshot
unfolding complete consume
complete-Newest_example = complete-Newest imu batch 1 7 started refl refl

calls_clock : (run fresh calls).clock_time ≤ 20
unfolding run step counts offer select complete control fill consume
calls_clock = omega arith

control-Reports_example :
    (c : Control) × (g' : Graph) × (control 20 45 10 (run fresh calls) ≡ ok (c, g'))
    × (c.snapshot ≡ (run fresh calls).latest)
    × (c.release ≡ 20)
    × Reports 20 10 (run fresh calls).latest c.outcome
    × (g'.running ≡ (run fresh calls).running)
    × (g'.lane_imu ≡ (run fresh calls).lane_imu)
    × (g'.lane_camera ≡ (run fresh calls).lane_camera)
control-Reports_example =
    control-Reports (run fresh calls) 20 45 10
      (run-Inv fresh calls (new_graph-Inv 2 2 fresh_is_new)) calls_clock (omega arith)
