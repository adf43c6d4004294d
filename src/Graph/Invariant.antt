-- ===== src/Graph/Invariant.antt =====
-- demo/dependent_graph.h: what holds of a `Graph` between two calls.
pub mod Offer
pub mod Select
pub mod Complete
use scx_slam_fresh.Base.{
  ℕ, zero, suc, ◌+◌, ◌≤◌, ◌<◌, ◌^◌, ◌≡◌, refl, sym, ap, inl, inr, Bool-cases, Bool, true, false,
  List, [], ◌∷◌, ◌++◌, Option, none, some, ltb, leb, ◌==◌, if◌then◌else◌, length, length-append,
  value_or, All, All-append, All-drop_prefix, subst, All-imp, u64, Result, ok, err, arith,
}
use scx_slam_fresh.Graph.{
  Stream, imu, camera, Measurement, Batch, Snapshot, Lane, Graph, GraphError, lane, set_lane, fill,
  start_batch, select_idle, select, enqueue, offer, Fill, same_stream, no_snapshot, consume, newer,
  note_stream, count_consumed, finish_batch, complete, complete_running, control, count_stream,
  inputs_of, new_graph,
}
use scx_slam_fresh.Graph.Calls.{
  Call, offers, selects, completes, controls, after, step, run, at_time, offer_cases, select_cases,
  complete_cases,
}
use scx_slam_fresh.Graph.Select.{
  Mine, of_stream, Splits, FillAll, fill-Splits, fill-All, length-fill, count_stream-length,
}

abbrev pub Past : ℕ → List Measurement → Type 0
Past t = All (λ m. m.source_time ≤ t)

pub Past-mono : {s t : ℕ} (ms : List Measurement) → s ≤ t → Past s ms → Past t ms
Past-mono ms h = All-imp (λ m k. omega arith) ms

-- One stream: its inbox is its own and within the capacity, no input is from the future, and the
-- counters account for every measurement, modulo the word size.
pub record LaneInv (s : Stream) (capacity now : ℕ) (flight : List Measurement) (l : Lane)
    : Type 0 where
  pub mine : Mine s l.inbox
  pub past : Past now l.inbox
  pub bounded : length l.inbox ≤ capacity
  pub conserved :
      l.accounting.offered
      ≡ u64 (l.accounting.dropped + l.accounting.consumed + length l.inbox + count_stream s flight)

abbrev pub PastMeasurement : ℕ → Option Measurement → Type 0
PastMeasurement t none = Unit
PastMeasurement t (some m) = m.source_time ≤ t

abbrev pub PastSnapshot : ℕ → Option Snapshot → Type 0
PastSnapshot t none = Unit
PastSnapshot t (some s) = PastMeasurement t s.last_imu × PastMeasurement t s.last_camera

-- A running batch is neither empty nor larger than the limit.
abbrev pub BatchSize : ℕ → Option Batch → Type 0
BatchSize limit none = Unit
BatchSize limit (some b) = (0 < length b.inputs) × (length b.inputs ≤ limit)

pub record Inv (g : Graph) : Type 0 where
  pub inv_imu : LaneInv imu g.capacity g.clock_time (inputs_of g.running) g.lane_imu
  pub inv_camera : LaneInv camera g.capacity g.clock_time (inputs_of g.running) g.lane_camera
  pub sized : BatchSize g.limit g.running
  pub past_running : Past g.clock_time (inputs_of g.running)
  pub past_latest : PastSnapshot g.clock_time g.latest

pub new_graph-Inv : (c l : ℕ) {g : Graph} → new_graph c l ≡ ok g → Inv g
unfolding new_graph count_stream
new_graph-Inv c l h = ground arith

LaneInv-later :
    {s : Stream} {c now t : ℕ} {fl : List Measurement} {l : Lane}
    → now ≤ t
    → LaneInv s c now fl l
    → LaneInv s c t fl l
LaneInv-later {l = l} h v = record {
  mine = v.mine;
  past = Past-mono l.inbox h v.past;
  bounded = v.bounded;
  conserved = v.conserved;
}

PastMeasurement-mono :
    {s t : ℕ} (o : Option Measurement) → s ≤ t → PastMeasurement s o → PastMeasurement t o
PastMeasurement-mono none h p = tt
PastMeasurement-mono (some m) h p = omega arith

PastSnapshot-mono : {s t : ℕ} (o : Option Snapshot) → s ≤ t → PastSnapshot s o → PastSnapshot t o
PastSnapshot-mono none h p = tt
PastSnapshot-mono (some m) h p =
    (PastMeasurement-mono m.last_imu h p.0, PastMeasurement-mono m.last_camera h p.1)

pub later-Inv : (g : Graph) (t : ℕ) → g.clock_time ≤ t → Inv g → Inv (record g { clock_time = t })
later-Inv g t h v = record {
  inv_imu = LaneInv-later h v.inv_imu;
  inv_camera = LaneInv-later h v.inv_camera;
  sized = v.sized;
  past_running = Past-mono (inputs_of g.running) h v.past_running;
  past_latest = PastSnapshot-mono g.latest h v.past_latest;
}

pub lane-Inv :
    (s : Stream) {g : Graph}
    → Inv g
    → LaneInv s g.capacity g.clock_time (inputs_of g.running) (lane s g)
lane-Inv imu v = v.inv_imu
lane-Inv camera v = v.inv_camera

pub set_lane-Inv :
    (s : Stream) {g : Graph} {l : Lane}
    → LaneInv s g.capacity g.clock_time (inputs_of g.running) l
    → Inv g
    → Inv (set_lane s l g)
set_lane-Inv imu h v = record {
  inv_imu = h;
  inv_camera = v.inv_camera;
  sized = v.sized;
  past_running = v.past_running;
  past_latest = v.past_latest;
}
set_lane-Inv camera h v = record {
  inv_imu = v.inv_imu;
  inv_camera = h;
  sized = v.sized;
  past_running = v.past_running;
  past_latest = v.past_latest;
}
