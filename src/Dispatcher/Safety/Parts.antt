-- ===== src/Dispatcher/Safety/Parts.antt =====
-- demo/dependent_workload.cpp, `main`: a write of one part of the state.
use scx_slam_fresh.Base.{
  ℕ, suc, ◌+◌, ◌≤◌, ◌<◌, sym, subst, List, Option, Result, ok, err, OnOk, Returns,
}
use scx_slam_fresh.Graph.{imu, camera, Batch, Graph}
use scx_slam_fresh.Graph.Returns.{Note, noted, Advanced}
use scx_slam_fresh.Graph.Invariant.{Inv}
use scx_slam_fresh.Graph.Calls.{after}
use scx_slam_fresh.Worker.{Worker, WorkerError}
use scx_slam_fresh.Graph.{GraphError}
use scx_slam_fresh.Dispatcher.{period, Source, Dispatcher, from_worker, from_graph, with_graph}
use scx_slam_fresh.Dispatcher.Safety.State.{Fine, Feeding, Estimating, Quiet, Safe}
use scx_slam_fresh.Dispatcher.Safety.Jobs.{Feeding-later}

pub from_graph-Fine :
    {A : Type 0} (P : A → Type 0) (r : Result GraphError A) → Returns P r → Fine P (from_graph r)
from_graph-Fine P (ok a) h = h
from_graph-Fine P (err e) h = absurd h

-- A call of the graph that returns keeps the graph's invariant, too.
pub kept :
    {A : Type 0} (P : A × Graph → Type 0) (g : Graph) (r : Result GraphError (A × Graph))
    → Returns P r
    → Inv (after g r)
    → Fine (λ p. P p × Inv p.1) (from_graph r)
kept P g (ok p) h v = (h, v)
kept P g (err e) h v = absurd h

pub from_worker-Fine :
    {A : Type 0} (P : A → Type 0) (r : Result WorkerError A) → OnOk P r → Fine P (from_worker r)
from_worker-Fine P (ok a) h = h
from_worker-Fine P (err e) h = tt

module _ (clock : ℕ → ℕ) (later : (n : ℕ) → clock n ≤ clock (suc n)) (begin floor finish : ℕ) where
  -- After a call of the graph, with one more reading of the clock.
  pub with_graph-Safe :
      (d : Dispatcher) (g : Graph) (busy : Option Batch) (li lc : Note)
      → Advanced (clock d.reads) busy li lc g
      → Feeding begin imu d.imu_worker d.imu_source li (clock d.reads)
      → Feeding begin camera d.camera_worker d.camera_source lc (clock d.reads)
      → Estimating d.estimator_worker busy
      → floor ≤ d.imu_source.next
      → floor ≤ d.camera_source.next
      → d.imu_source.next < finish + period imu
      → d.camera_source.next < finish + period camera
      → Quiet d.control_worker
      → Quiet d.mapping_worker
      → Inv g
      → Safe clock begin floor finish (with_graph g d)
  with_graph-Safe d g busy li lc a fi fc e zi zc ni nc qc qm v = record {
    time = subst (λ t. t ≤ clock (suc d.reads)) (sym a.clock_time) (later d.reads);
    imu_ok =
        subst (λ l. Feeding begin imu d.imu_worker d.imu_source l (clock (suc d.reads)))
          (sym a.imu_noted) (Feeding-later begin imu _ _ li _ _ (later d.reads) fi);
    camera_ok =
        subst (λ l. Feeding begin camera d.camera_worker d.camera_source l (clock (suc d.reads)))
          (sym a.camera_noted) (Feeding-later begin camera _ _ lc _ _ (later d.reads) fc);
    imu_far = zi;
    camera_far = zc;
    imu_near = ni;
    camera_near = nc;
    estimator_ok = subst (Estimating d.estimator_worker) (sym a.running) e;
    control_ok = qc;
    mapping_ok = qm;
    graph_ok = v;
  }

  module _ (d : Dispatcher) (v : Safe clock begin floor finish d) where
    pub set_imu :
        (w : Worker) (s : Source)
        → floor ≤ s.next
        → s.next < finish + period imu
        → Feeding begin imu w s (noted d.graph.lane_imu) (clock d.reads)
        → Safe clock begin floor finish (record d { imu_worker = w; imu_source = s })
    set_imu w s far near f = record {
      time = v.time;
      imu_ok = f;
      camera_ok = v.camera_ok;
      imu_far = far;
      camera_far = v.camera_far;
      imu_near = near;
      camera_near = v.camera_near;
      estimator_ok = v.estimator_ok;
      control_ok = v.control_ok;
      mapping_ok = v.mapping_ok;
      graph_ok = v.graph_ok;
    }

    pub set_camera :
        (w : Worker) (s : Source)
        → floor ≤ s.next
        → s.next < finish + period camera
        → Feeding begin camera w s (noted d.graph.lane_camera) (clock d.reads)
        → Safe clock begin floor finish (record d { camera_worker = w; camera_source = s })
    set_camera w s far near f = record {
      time = v.time;
      imu_ok = v.imu_ok;
      camera_ok = f;
      imu_far = v.imu_far;
      camera_far = far;
      imu_near = v.imu_near;
      camera_near = near;
      estimator_ok = v.estimator_ok;
      control_ok = v.control_ok;
      mapping_ok = v.mapping_ok;
      graph_ok = v.graph_ok;
    }

    pub set_estimator :
        (w : Worker) (job : ℕ)
        → Estimating w d.graph.running
        → Safe clock begin floor finish (record d { estimator_worker = w; burst_job = job })
    set_estimator w job f = record {
      time = v.time;
      imu_ok = v.imu_ok;
      camera_ok = v.camera_ok;
      imu_far = v.imu_far;
      camera_far = v.camera_far;
      imu_near = v.imu_near;
      camera_near = v.camera_near;
      estimator_ok = f;
      control_ok = v.control_ok;
      mapping_ok = v.mapping_ok;
      graph_ok = v.graph_ok;
    }

    pub set_control :
        (w : Worker) → Quiet w → Safe clock begin floor finish (record d { control_worker = w })
    set_control w f = record {
      time = v.time;
      imu_ok = v.imu_ok;
      camera_ok = v.camera_ok;
      imu_far = v.imu_far;
      camera_far = v.camera_far;
      imu_near = v.imu_near;
      camera_near = v.camera_near;
      estimator_ok = v.estimator_ok;
      control_ok = f;
      mapping_ok = v.mapping_ok;
      graph_ok = v.graph_ok;
    }

    pub set_mapping :
        (w : Worker) → Quiet w → Safe clock begin floor finish (record d { mapping_worker = w })
    set_mapping w f = record {
      time = v.time;
      imu_ok = v.imu_ok;
      camera_ok = v.camera_ok;
      imu_far = v.imu_far;
      camera_far = v.camera_far;
      imu_near = v.imu_near;
      camera_near = v.camera_near;
      estimator_ok = v.estimator_ok;
      control_ok = v.control_ok;
      mapping_ok = f;
      graph_ok = v.graph_ok;
    }

    pub set_ages :
        (ages : List ℕ) → Safe clock begin floor finish (record d { control_ages = ages })
    set_ages ages = record {
      time = v.time;
      imu_ok = v.imu_ok;
      camera_ok = v.camera_ok;
      imu_far = v.imu_far;
      camera_far = v.camera_far;
      imu_near = v.imu_near;
      camera_near = v.camera_near;
      estimator_ok = v.estimator_ok;
      control_ok = v.control_ok;
      mapping_ok = v.mapping_ok;
      graph_ok = v.graph_ok;
    }

    pub set_hogs : (hogs : List Worker) → Safe clock begin floor finish (record d { hogs = hogs })
    set_hogs hogs = record {
      time = v.time;
      imu_ok = v.imu_ok;
      camera_ok = v.camera_ok;
      imu_far = v.imu_far;
      camera_far = v.camera_far;
      imu_near = v.imu_near;
      camera_near = v.camera_near;
      estimator_ok = v.estimator_ok;
      control_ok = v.control_ok;
      mapping_ok = v.mapping_ok;
      graph_ok = v.graph_ok;
    }

    pub set_ticks :
        (id next : ℕ)
        → Safe clock begin floor finish (record d { control_id = id; next_control = next })
    set_ticks id next = record {
      time = v.time;
      imu_ok = v.imu_ok;
      camera_ok = v.camera_ok;
      imu_far = v.imu_far;
      camera_far = v.camera_far;
      imu_near = v.imu_near;
      camera_near = v.camera_near;
      estimator_ok = v.estimator_ok;
      control_ok = v.control_ok;
      mapping_ok = v.mapping_ok;
      graph_ok = v.graph_ok;
    }

-- The sources are known to be further.
pub refloor :
    (clock : ℕ → ℕ) (begin floor floor' finish : ℕ) (d : Dispatcher)
    → Safe clock begin floor finish d
    → floor' ≤ d.imu_source.next
    → floor' ≤ d.camera_source.next
    → Safe clock begin floor' finish d
refloor clock begin floor floor' finish d v i c = record {
  time = v.time;
  imu_ok = v.imu_ok;
  camera_ok = v.camera_ok;
  imu_far = i;
  camera_far = c;
  imu_near = v.imu_near;
  camera_near = v.camera_near;
  estimator_ok = v.estimator_ok;
  control_ok = v.control_ok;
  mapping_ok = v.mapping_ok;
  graph_ok = v.graph_ok;
}
