-- ===== src/Dispatcher/Safety/Completions.antt =====
-- demo/dependent_workload.cpp, `main`: what a job does when it is complete.
use scx_slam_fresh.Base.{
  ℕ, suc, ◌≤◌, ◌≡◌, refl, ◌∙◌, sym, Bool, true, List, [], ◌∷◌, Option, none, some, has_value, arith,
  Bool-cases, inl, inr,
}
use scx_slam_fresh.Graph.{
  Stream, imu, camera, Measurement, Batch, Snapshot, Graph, same_stream, Outcome, usable, stale,
  missing,
}
use scx_slam_fresh.Graph.Invariant.{Inv}
use scx_slam_fresh.Graph.Invariant.Offer.{offer-Inv}
use scx_slam_fresh.Graph.Invariant.Complete.{complete-Inv}
use scx_slam_fresh.Graph.Returns.{
  noted, Advanced, after_offer, offer-Returns, complete-Returns, AfterComplete, some_camera,
}
use scx_slam_fresh.Worker.{
  Worker, JobResult, Completion, does_nothing, offers_measurement, completes_batch, reports_control,
}
use scx_slam_fresh.Graph.{GraphError}
use scx_slam_fresh.Dispatcher.{ms, Dispatcher, from_graph, any_camera, offer_mapping, count_outcome}
use scx_slam_fresh.Dispatcher.Loop.{completion, run_completion}
use scx_slam_fresh.Dispatcher.Safety.State.{Fine, Fine-bind, IsQuiet, Safe}
use scx_slam_fresh.Dispatcher.Safety.Jobs.{NextFeed}
use scx_slam_fresh.Dispatcher.Safety.Batches.{NextBatch, Quiet-offer}
use scx_slam_fresh.Dispatcher.Safety.Parts.{
  kept, with_graph-Safe, set_imu, set_camera, set_estimator, set_mapping, set_ages,
}
use scx_slam_fresh.Graph

module _ (clock : ℕ → ℕ) (later : (n : ℕ) → clock n ≤ clock (suc n)) (begin floor finish : ℕ) where
  abbrev Offered : Measurement → Dispatcher → Bool × Graph → Type 0
  Offered m d p =
      Advanced (clock d.reads) d.graph.running (after_offer m imu d.graph)
        (after_offer m camera d.graph) p.1

  pub imu_next :
      (d : Dispatcher) (w' : Worker) (o : Option JobResult)
      → Safe clock begin floor finish d
      → NextFeed begin imu w' d.imu_source (noted d.graph.lane_imu) (clock d.reads) o
      → Fine
          (Safe clock begin floor finish)
          (run_completion clock (completion o) (record d { imu_worker = w' }))
  unfolding run_completion
  imu_next d w' none v f =
      set_imu clock later begin floor finish d v w' d.imu_source v.imu_far v.imu_near f
  imu_next d w' (some r) v (m, e, q, a, b, f) = rw e (
      Fine-bind (λ p. Offered m d p × Inv p.1) (Safe clock begin floor finish)
        (from_graph (Graph.offer m (clock d.reads) d.graph)) _
        (kept (Offered m d) d.graph (Graph.offer m (clock d.reads) d.graph)
          (offer-Returns m (clock d.reads) d.graph b (rw q a) v.time)
          (offer-Inv m (clock d.reads) d.graph v.graph_ok))
        (λ p g.
          with_graph-Safe clock later begin floor finish (record d { imu_worker = w' }) p.1 _ _ _
            g.0 (rw q f) (rw q v.camera_ok) v.estimator_ok v.imu_far v.camera_far v.imu_near
            v.camera_near v.control_ok v.mapping_ok g.1))

  pub camera_next :
      (d : Dispatcher) (w' : Worker) (o : Option JobResult)
      → Safe clock begin floor finish d
      → NextFeed begin camera w' d.camera_source (noted d.graph.lane_camera) (clock d.reads) o
      → Fine
          (Safe clock begin floor finish)
          (run_completion clock (completion o) (record d { camera_worker = w' }))
  unfolding run_completion
  camera_next d w' none v f =
      set_camera clock later begin floor finish d v w' d.camera_source v.camera_far v.camera_near f
  camera_next d w' (some r) v (m, e, q, a, b, f) = rw e (
      Fine-bind (λ p. Offered m d p × Inv p.1) (Safe clock begin floor finish)
        (from_graph (Graph.offer m (clock d.reads) d.graph)) _
        (kept (Offered m d) d.graph (Graph.offer m (clock d.reads) d.graph)
          (offer-Returns m (clock d.reads) d.graph b (rw q a) v.time)
          (offer-Inv m (clock d.reads) d.graph v.graph_ok))
        (λ p g.
          with_graph-Safe clock later begin floor finish (record d { camera_worker = w' }) p.1 _ _ _
            g.0 (rw q v.imu_ok) (rw q f) v.estimator_ok v.imu_far v.camera_far v.imu_near
            v.camera_near v.control_ok v.mapping_ok g.1))

  mapping_offered :
      (s : Snapshot) (o : Option Measurement) (d : Dispatcher)
      → has_value o ≡ true
      → Safe clock begin floor finish d
      → Fine (Safe clock begin floor finish) (offer_mapping s o d)
  unfolding offer_mapping
  mapping_offered s none d h v = cc
  mapping_offered s (some m) d h v =
      set_mapping clock later begin floor finish d v _
        (Quiet-offer _ d.mapping_worker tt v.mapping_ok)

  any_camera_lem : (ms : List Measurement) → any_camera ms ≡ some_camera ms
  any_camera_lem [] = refl
  any_camera_lem (m ∷ ms) = rw (any_camera_lem ms)

  pub estimator_next :
      (d : Dispatcher) (w' : Worker) (o : Option JobResult)
      → Safe clock begin floor finish d
      → NextBatch w' d.graph.running o
      → Fine
          (Safe clock begin floor finish)
          (run_completion clock (completion o) (record d { estimator_worker = w' }))
  unfolding run_completion
  estimator_next d w' none v f = set_estimator clock later begin floor finish d v w' d.burst_job f
  estimator_next d w' (some r) v (b, e, q, f) = rw e (
      Fine-bind (λ p. AfterComplete b (clock d.reads) d.graph p × Inv p.1)
        (Safe clock begin floor finish) (from_graph (Graph.complete b.id (clock d.reads) d.graph)) _
        (kept (AfterComplete b (clock d.reads) d.graph) d.graph
          (Graph.complete b.id (clock d.reads) d.graph)
          (complete-Returns b (clock d.reads) d.graph v.time q)
          (complete-Inv b.id (clock d.reads) d.graph v.graph_ok))
        (λ p g.
          let v' =
            with_graph-Safe clock later begin floor finish (record d { estimator_worker = w' }) p.1
              _ _ _ g.0.0 v.imu_ok v.camera_ok f v.imu_far v.camera_far v.imu_near v.camera_near
              v.control_ok v.mapping_ok g.1 in
          elim (Bool-cases (any_camera b.inputs)) [
            | inl h ↦ rw h (
                mapping_offered p.0 p.0.last_camera _ (g.0.1 (sym (any_camera_lem b.inputs) ∙ h))
                  v')
            | inr h ↦ rw h v'
          ]))

  count_outcome-Safe :
      (o : Outcome) (d : Dispatcher)
      → Safe clock begin floor finish d
      → Safe clock begin floor finish (count_outcome o d)
  unfolding count_outcome
  count_outcome-Safe usable d v = ground arith
  count_outcome-Safe stale d v = ground arith
  count_outcome-Safe missing d v = ground arith

  pub quiet_next :
      (c : Completion) (d : Dispatcher)
      → IsQuiet c
      → Safe clock begin floor finish d
      → Fine (Safe clock begin floor finish) (run_completion clock c d)
  unfolding run_completion
  quiet_next does_nothing d q v = v
  quiet_next (offers_measurement m) d q v = absurd q
  quiet_next (completes_batch b) d q v = absurd q
  quiet_next (reports_control c) d q v =
      set_ages clock later begin floor finish _ (count_outcome-Safe c.outcome d v) _
