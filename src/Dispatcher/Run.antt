-- ===== src/Dispatcher/Run.antt =====
-- demo/dependent_workload.cpp, `main`: a run of the loop to its `break`.
use scx_slam_fresh.Base.{ℕ, ◌*◌, ◌+◌, ◌≡◌, refl, true, false, [], ◌∷◌, ok, some, none}
use scx_slam_fresh.Graph.{
  missing, imu, camera, Graph, new_graph, empty_lane, select, control, fill, control_now,
  snapshot_outcome, imu_outcome, select_idle, start_batch, repeats, enqueue, complete,
  complete_running, finish_batch, consume, note_stream, newer, pending,
}
use scx_slam_fresh.Graph
use scx_slam_fresh.Worker.{
  Worker, reports_control, completes_batch, offers_measurement, does_nothing, WorkerError,
  worker_failed, dispatch, hand_over, collect, count_result, new_worker, thread_wakes, thread_ends,
  thread_fails, take_slot, post_result,
}
use scx_slam_fresh.Worker
use scx_slam_fresh.Dispatcher.{
  ms, wakes, ends, Dispatcher, thread_steps, thread_step, produce, produce_one, offer_batch,
  offer_mapping, count_outcome,
}
use scx_slam_fresh.Dispatcher.Loop.{
  Window, Round, start, loop, round, collect_all, collect_role, collect_hogs, run_completion,
  release_work, control_ticks, control_one, start_estimator, dispatch_all, dispatch_role,
  dispatch_hogs, offer_hogs, hog_job,
}

abbrev pub clock : ℕ → ℕ
clock n = 100 * ms + n * 1000000

-- Every thread takes its job.
abbrev pub waking_round : Round
waking_round = record {
  before_collect = λ r. [];
  before_dispatch = λ r. wakes ∷ [];
  publish_fails = λ r. false;
  hog_before_collect = λ i. [];
  hog_before_dispatch = λ i. wakes ∷ [];
  hog_publish_fails = λ i. false;
}

abbrev pub new : Graph
new = record {
  capacity = 32;
  limit = 8;
  lane_imu = empty_lane;
  lane_camera = empty_lane;
  running = none;
  latest = none;
  next_batch = 1;
  next_tick = 1;
  clock_time = 0;
}

pub graph_is_new : new_graph 32 8 ≡ ok new
unfolding new_graph
graph_is_new = refl

-- Every thread runs its job to its end.
abbrev pub finishing_round : Round
finishing_round = record waking_round {
  before_collect = λ r. wakes ∷ ends (100 * ms) (101 * ms) 150000 ∷ [];
}

-- One period of the IMU's stream.
abbrev pub short : Window
short = record { begin = 100 * ms; finish = 105 * ms; burst = false }

abbrev fresh : Worker
fresh = new_worker true

abbrev begun : Dispatcher
begun = start true 0 short new

abbrev sources_released : Dispatcher
sources_released = record begun {
  graph = record {
    capacity = 32;
    limit = 8;
    lane_imu = record {
      inbox = [];
      accounting = record { offered = 0; dropped = 0; consumed = 0 };
      last_sequence = none;
    };
    lane_camera = record {
      inbox = [];
      accounting = record { offered = 0; dropped = 0; consumed = 0 };
      last_sequence = none;
    };
    running = none;
    latest = none;
    next_batch = 1;
    next_tick = 2;
    clock_time = 102000000;
  };
  imu_worker = record fresh {
    slot = some record {
      id = 1;
      release = 100000000;
      deadline = 105000000;
      work = 150000;
      complete = offers_measurement record { stream = imu; sequence = 1; source_time = 100000000 };
      assigned = 103000000;
      budget = 0;
      outcome = none;
    };
    busy = true;
    offered = 1;
    hint = some 1;
  };
  camera_worker = record fresh {
    slot = some record {
      id = 1;
      release = 100000000;
      deadline = 133000000;
      work = 4000000;
      complete =
          offers_measurement record { stream = camera; sequence = 1; source_time = 100000000 };
      assigned = 104000000;
      budget = 0;
      outcome = none;
    };
    busy = true;
    offered = 1;
    hint = some 1;
  };
  control_worker = record fresh {
    slot = some record {
      id = 1;
      release = 100000000;
      deadline = 110000000;
      work = 200000;
      complete = reports_control record {
        tick = 1;
        setpoint = 0;
        release = 101000000;
        outcome = missing;
        snapshot = none;
      };
      assigned = 106000000;
      budget = 0;
      outcome = some missing;
    };
    busy = true;
    offered = 1;
    hint = some 1;
  };
  imu_source = record { next = 105000000; produced = 1 };
  camera_source = record { next = 150000000; produced = 1 };
  next_control = 110000000;
  control_id = 1;
  reads = 8;
}

abbrev measurements_offered : Dispatcher
measurements_offered = record begun {
  graph = record {
    capacity = 32;
    limit = 8;
    lane_imu = record {
      inbox = [];
      accounting = record { offered = 1; dropped = 0; consumed = 0 };
      last_sequence = some 1;
    };
    lane_camera = record {
      inbox = [];
      accounting = record { offered = 1; dropped = 0; consumed = 0 };
      last_sequence = some 1;
    };
    running = some record {
      id = 1;
      inputs =
          record { stream = imu; sequence = 1; source_time = 100000000 }
          ∷ record { stream = camera; sequence = 1; source_time = 100000000 }
          ∷ [];
    };
    latest = none;
    next_batch = 2;
    next_tick = 2;
    clock_time = 111000000;
  };
  imu_worker = record fresh {
    offered = 1;
    completed = 1;
    cpu_time = 150000;
    max_age = 1000000;
    hint = some 1;
    completions = 1 ∷ [];
  };
  camera_worker = record fresh {
    offered = 1;
    completed = 1;
    cpu_time = 150000;
    max_age = 1000000;
    hint = some 1;
    completions = 1 ∷ [];
  };
  estimator_worker = record fresh {
    slot = some record {
      id = 1;
      release = 100000000;
      deadline = 133000000;
      work = 2400000;
      complete = completes_batch record {
        id = 1;
        inputs =
            record { stream = imu; sequence = 1; source_time = 100000000 }
            ∷ record { stream = camera; sequence = 1; source_time = 100000000 }
            ∷ [];
      };
      assigned = 114000000;
      budget = 0;
      outcome = none;
    };
    busy = true;
    offered = 1;
    hint = some 1;
  };
  control_worker = record fresh {
    offered = 1;
    completed = 1;
    cpu_time = 150000;
    max_age = 1000000;
    hint = some 1;
    completions = 1 ∷ [];
  };
  imu_source = record { next = 105000000; produced = 1 };
  camera_source = record { next = 150000000; produced = 1 };
  next_control = 110000000;
  control_id = 1;
  missing = 1;
  reads = 17;
}

abbrev batch_completed : Dispatcher
batch_completed = record begun {
  graph = record {
    capacity = 32;
    limit = 8;
    lane_imu = record {
      inbox = [];
      accounting = record { offered = 1; dropped = 0; consumed = 1 };
      last_sequence = some 1;
    };
    lane_camera = record {
      inbox = [];
      accounting = record { offered = 1; dropped = 0; consumed = 1 };
      last_sequence = some 1;
    };
    running = none;
    latest = some record {
      batch_id = 1;
      completed = 117000000;
      last_imu = some record { stream = imu; sequence = 1; source_time = 100000000 };
      last_camera = some record { stream = camera; sequence = 1; source_time = 100000000 };
    };
    next_batch = 2;
    next_tick = 2;
    clock_time = 119000000;
  };
  imu_worker = record fresh {
    offered = 1;
    completed = 1;
    cpu_time = 150000;
    max_age = 1000000;
    hint = some 1;
    completions = 1 ∷ [];
  };
  camera_worker = record fresh {
    offered = 1;
    completed = 1;
    cpu_time = 150000;
    max_age = 1000000;
    hint = some 1;
    completions = 1 ∷ [];
  };
  estimator_worker = record fresh {
    offered = 1;
    completed = 1;
    cpu_time = 150000;
    max_age = 1000000;
    hint = some 1;
    completions = 1 ∷ [];
  };
  control_worker = record fresh {
    offered = 1;
    completed = 1;
    cpu_time = 150000;
    max_age = 1000000;
    hint = some 1;
    completions = 1 ∷ [];
  };
  mapping_worker = record fresh {
    slot = some record {
      id = 1;
      release = 100000000;
      deadline = 200000000;
      work = 2000000;
      complete = does_nothing;
      assigned = 124000000;
      budget = 0;
      outcome = none;
    };
    busy = true;
    offered = 1;
    hint = some 1;
  };
  imu_source = record { next = 105000000; produced = 1 };
  camera_source = record { next = 150000000; produced = 1 };
  next_control = 110000000;
  control_id = 1;
  missing = 1;
  reads = 25;
}

abbrev pub mapping_completed : Dispatcher
mapping_completed = record begun {
  graph = record {
    capacity = 32;
    limit = 8;
    lane_imu = record {
      inbox = [];
      accounting = record { offered = 1; dropped = 0; consumed = 1 };
      last_sequence = some 1;
    };
    lane_camera = record {
      inbox = [];
      accounting = record { offered = 1; dropped = 0; consumed = 1 };
      last_sequence = some 1;
    };
    running = none;
    latest = some record {
      batch_id = 1;
      completed = 117000000;
      last_imu = some record { stream = imu; sequence = 1; source_time = 100000000 };
      last_camera = some record { stream = camera; sequence = 1; source_time = 100000000 };
    };
    next_batch = 2;
    next_tick = 2;
    clock_time = 126000000;
  };
  imu_worker = record fresh {
    offered = 1;
    completed = 1;
    cpu_time = 150000;
    max_age = 1000000;
    hint = some 1;
    completions = 1 ∷ [];
  };
  camera_worker = record fresh {
    offered = 1;
    completed = 1;
    cpu_time = 150000;
    max_age = 1000000;
    hint = some 1;
    completions = 1 ∷ [];
  };
  estimator_worker = record fresh {
    offered = 1;
    completed = 1;
    cpu_time = 150000;
    max_age = 1000000;
    hint = some 1;
    completions = 1 ∷ [];
  };
  control_worker = record fresh {
    offered = 1;
    completed = 1;
    cpu_time = 150000;
    max_age = 1000000;
    hint = some 1;
    completions = 1 ∷ [];
  };
  mapping_worker = record fresh {
    offered = 1;
    completed = 1;
    cpu_time = 150000;
    max_age = 1000000;
    hint = some 1;
    completions = 1 ∷ [];
  };
  imu_source = record { next = 105000000; produced = 1 };
  camera_source = record { next = 150000000; produced = 1 };
  next_control = 110000000;
  control_id = 1;
  missing = 1;
  reads = 32;
}

begun-round : round clock short waking_round begun ≡ ok (false, sources_released)
unfolding round collect_all collect_role collect_hogs run_completion release_work control_ticks
    control_one start_estimator dispatch_all dispatch_role dispatch_hogs offer_hogs hog_job produce
    produce_one offer_batch offer_mapping count_outcome thread_steps thread_step start new_worker
    Worker.offer dispatch hand_over collect count_result thread_wakes thread_ends thread_fails
    take_slot post_result Graph.offer repeats enqueue select select_idle start_batch fill control
    control_now imu_outcome snapshot_outcome complete complete_running finish_batch consume
    note_stream newer pending Worker.maximum
begun-round = refl

sources_released-round :
    round clock short finishing_round sources_released ≡ ok (false, measurements_offered)
unfolding round collect_all collect_role collect_hogs run_completion release_work control_ticks
    control_one start_estimator dispatch_all dispatch_role dispatch_hogs offer_hogs hog_job produce
    produce_one offer_batch offer_mapping count_outcome thread_steps thread_step start new_worker
    Worker.offer dispatch hand_over collect count_result thread_wakes thread_ends thread_fails
    take_slot post_result Graph.offer repeats enqueue select select_idle start_batch fill control
    control_now imu_outcome snapshot_outcome complete complete_running finish_batch consume
    note_stream newer pending Worker.maximum
sources_released-round = refl

measurements_offered-round :
    round clock short finishing_round measurements_offered ≡ ok (false, batch_completed)
unfolding round collect_all collect_role collect_hogs run_completion release_work control_ticks
    control_one start_estimator dispatch_all dispatch_role dispatch_hogs offer_hogs hog_job produce
    produce_one offer_batch offer_mapping count_outcome thread_steps thread_step start new_worker
    Worker.offer dispatch hand_over collect count_result thread_wakes thread_ends thread_fails
    take_slot post_result Graph.offer repeats enqueue select select_idle start_batch fill control
    control_now imu_outcome snapshot_outcome complete complete_running finish_batch consume
    note_stream newer pending Worker.maximum
measurements_offered-round = refl

batch_completed-round :
    round clock short finishing_round batch_completed ≡ ok (true, mapping_completed)
unfolding round collect_all collect_role collect_hogs run_completion release_work control_ticks
    control_one start_estimator dispatch_all dispatch_role dispatch_hogs offer_hogs hog_job produce
    produce_one offer_batch offer_mapping count_outcome thread_steps thread_step start new_worker
    Worker.offer dispatch hand_over collect count_result thread_wakes thread_ends thread_fails
    take_slot post_result Graph.offer repeats enqueue select select_idle start_batch fill control
    control_now imu_outcome snapshot_outcome complete complete_running finish_batch consume
    note_stream newer pending Worker.maximum
batch_completed-round = refl

pub run_ends :
    loop clock short
      (waking_round ∷ finishing_round ∷ finishing_round ∷ finishing_round ∷ [])
      (start true 0 short new)
    ≡ ok (true, mapping_completed)
unfolding loop
run_ends =
    rw (begun-round, sources_released-round, measurements_offered-round, batch_completed-round) refl
