-- ===== src/Graph/History/Log.antt =====
-- demo/dependent_graph.h: calls on `Graph` with the log of what it accepted and processed.
use scx_slam_fresh.Base.{◌≡◌, Bool, true, false, List, [], ◌∷◌, ◌++◌, Result, ok, err}
use scx_slam_fresh.Graph.{
  Stream, Measurement, Snapshot, Graph, GraphError, lane, select, offer, complete, control,
  inputs_of,
}
use scx_slam_fresh.Graph.Calls.{Call, offers, selects, completes, controls, after}
use scx_slam_fresh.Graph.Select.{of_stream}

-- A graph with the measurements that its callers saw accepted, and those whose batch completed.
pub record History : Type 0 where
  pub graph : Graph
  pub accepted : List Measurement
  pub processed : List Measurement

abbrev pub accepted_by : Measurement → Result GraphError (Bool × Graph) → List Measurement
accepted_by m (ok (true, g)) = m ∷ []
accepted_by m (ok (false, g)) = []
accepted_by m (err e) = []

abbrev pub processed_by : Graph → Result GraphError (Snapshot × Graph) → List Measurement
processed_by g (ok (s, g')) = inputs_of g.running
processed_by g (err e) = []

unfoldable pub watch : History → Call → History
watch h (offers m t) =
    let r = offer m t h.graph in
    record h { graph = after h.graph r; accepted = h.accepted ++ accepted_by m r }
watch h (selects t) = record h { graph = after h.graph (select t h.graph) }
watch h (completes id t) =
    let r = complete id t h.graph in
    record h { graph = after h.graph r; processed = h.processed ++ processed_by h.graph r }
watch h (controls t setpoint age) = record h {
  graph = after h.graph (control t setpoint age h.graph);
}

unfoldable pub watch_all : History → List Call → History
watch_all h [] = h
watch_all h (c ∷ cs) = watch_all (watch h c) cs

abbrev pub start : Graph → History
start g = record { graph = g; accepted = []; processed = [] }

abbrev pub Logged : Stream → History → Type 0
Logged s h =
    of_stream s h.accepted
    ≡ of_stream s h.processed ++ (of_stream s (inputs_of h.graph.running) ++ (lane s h.graph).inbox)
