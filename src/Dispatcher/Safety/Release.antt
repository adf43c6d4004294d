-- ===== src/Dispatcher/Safety/Release.antt =====
-- demo/dependent_workload.cpp, `main`: the sources, the control ticks and the estimator's batches.
use scx_slam_fresh.Base.{
  ℕ, zero, suc, ◌+◌, ◌*◌, ◌/◌, ◌^◌, ◌≤◌, ◌<◌, ◌≡◌, refl, subst, Bool, true, false, List, Option,
  none, some, List-cases, ltb, leb, ◌&&◌, add64, if◌then◌else◌, arith, Bool-cases, inl, inr,
}
use native.Mathlib.Nat.{le_trans}
use scx_slam_fresh.Graph
use scx_slam_fresh.Graph.{Stream, imu, camera, Measurement, Batch, Control, Graph}
use scx_slam_fresh.Graph.Invariant.{Inv}
use scx_slam_fresh.Graph.Invariant.Offer.{control-Inv}
use scx_slam_fresh.Graph.Invariant.Select.{select-Inv}
use scx_slam_fresh.Graph.Returns.{noted, Advanced, control-Returns, select-Returns, Filled}
use scx_slam_fresh.Worker.{Worker, Job}
use scx_slam_fresh.Worker
use scx_slam_fresh.Dispatcher.{
  ms, Dispatcher, source_of, from_graph, with_graph, produce_one, produce, idle, offer_batch,
  batch_job, has_burst,
}
use scx_slam_fresh.Dispatcher.Loop.{control_one, control_ticks, start_estimator}
use scx_slam_fresh.Dispatcher.Safety.State.{Fine, Fine-bind, Estimating, Safe}
use scx_slam_fresh.Dispatcher.Safety.Jobs.{Feeding-offer}
use scx_slam_fresh.Dispatcher.Safety.Batches.{idle-load, Estimating-offer, Quiet-offer}
use scx_slam_fresh.Dispatcher.Safety.Parts.{
  kept, with_graph-Safe, set_imu, set_camera, set_control, set_hogs, set_ticks,
}

module _ (clock : ℕ → ℕ) (later : (n : ℕ) → clock n ≤ clock (suc n)) (begin floor finish : ℕ)
    (small : finish + 50 * ms < 2 ^ 64) where
  produce_one-Safe :
      (s : Stream) (d : Dispatcher)
      → (source_of s d).next < finish
      → (source_of s d).next ≤ clock d.reads
      → Safe clock begin floor finish d
      → Safe clock begin floor finish (produce_one s d)
  unfolding produce_one
  produce_one-Safe imu d before reached v =
      set_imu clock later begin floor finish d v _ _ (omega (arith, v.imu_far)) (omega arith) (
        Feeding-offer begin imu d.imu_worker d.imu_source _ _ _ _ _ refl refl
          (omega (arith, v.imu_ok.counted)) reached (omega (arith, v.imu_ok.counted)) (omega arith)
          (omega (arith, v.imu_ok.paced, v.imu_ok.counted)) v.imu_ok)
  produce_one-Safe camera d before reached v =
      set_camera clock later begin floor finish d v _ _ (omega (arith, v.camera_far)) (omega arith)
        (Feeding-offer begin camera d.camera_worker d.camera_source _ _ _ _ _ refl refl
          (omega (arith, v.camera_ok.counted)) reached (omega (arith, v.camera_ok.counted))
          (omega arith) (omega (arith, v.camera_ok.paced, v.camera_ok.counted)) v.camera_ok)

  produce_one-reads : (s : Stream) (d : Dispatcher) → (produce_one s d).reads ≡ d.reads
  unfolding produce_one
  produce_one-reads imu d = refl
  produce_one-reads camera d = refl

  -- With the reading that the round goes by.
  abbrev pub Reached : ℕ → Dispatcher → Type 0
  Reached t d = Safe clock begin floor finish d × (t ≤ clock d.reads)

  pub produce-Reached :
      (fuel : ℕ) (s : Stream) (t : ℕ) (d : Dispatcher)
      → Reached t d
      → Reached t (produce fuel s finish t d)
  unfolding produce
  produce-Reached zero s t d v = v
  produce-Reached (suc fuel) s t d (v, k) = elim (Bool-cases (ltb (source_of s d).next finish)) [
    | inr a ↦ rw a (v, k)
    | inl a ↦ elim (Bool-cases (leb (source_of s d).next t)) [
      | inr b ↦ rw (a, b) (v, k)
      | inl b ↦
          rw (a, b)
            (produce-Reached fuel s t (produce_one s d)
              (produce_one-Safe s d (ground arith) (ground arith) v, rw (produce_one-reads s d) k))
    ]
  ]

  abbrev Controlled : Dispatcher → Control × Graph → Type 0
  Controlled d p =
      Advanced (clock d.reads) d.graph.running (noted d.graph.lane_imu) (noted d.graph.lane_camera)
        p.1

  control_one-Reached :
      (t : ℕ) (d : Dispatcher) → Reached t d → Fine (Reached t) (control_one clock d)
  unfolding control_one
  control_one-Reached t d (v, k) =
      let id = add64 d.control_id 1 in
      let d1 = record d { control_id = id; next_control = add64 d.next_control (10 * ms) } in
      let v1 = set_ticks clock later begin floor finish d v id (add64 d.next_control (10 * ms)) in
      let q = v.control_ok in
      elim (Bool-cases (idle d.control_worker)) [
        | inr a ↦ rw a (
          set_control clock later begin floor finish d1 v1 _
              (record { one_job = q.one_job; jobs = q.jobs }),
          k,
        )
        | inl a ↦ rw a (
            Fine-bind (λ p. Controlled d p × Inv p.1) (Reached t)
              (from_graph (Graph.control (clock d.reads) (id / 100) (20 * ms) d.graph)) _
              (kept (Controlled d) d.graph _
                (control-Returns (clock d.reads) (id / 100) (20 * ms) d.graph v.time)
                (control-Inv (clock d.reads) (id / 100) (20 * ms) d.graph v.graph_ok))
              (λ p g. (
                set_control clock later begin floor finish (with_graph p.1 d1)
                    (with_graph-Safe clock later begin floor finish d1 p.1 _ _ _ g.0 v.imu_ok
                      v.camera_ok v.estimator_ok v.imu_far v.camera_far v.imu_near v.camera_near q
                      v.mapping_ok g.1)
                    _ (Quiet-offer _ d.control_worker tt q),
                le_trans k (later d.reads),
              )))
      ]

  pub control_ticks-Reached :
      (fuel t : ℕ) (d : Dispatcher)
      → Reached t d
      → Fine (Reached t) (control_ticks clock fuel finish t d)
  unfolding control_ticks
  control_ticks-Reached zero t d v = v
  control_ticks-Reached (suc fuel) t d v =
      elim (Bool-cases (ltb d.next_control finish && leb d.next_control t)) [
        | inr a ↦ rw a v
        | inl a ↦ rw a (
            Fine-bind (Reached t) (Reached t) (control_one clock d) _ (control_one-Reached t d v)
              (control_ticks-Reached fuel t))
      ]

  abbrev Selected : Dispatcher → Option Batch × Graph → Type 0
  Selected d p =
      Advanced (clock d.reads) p.0 (noted d.graph.lane_imu) (noted d.graph.lane_camera) p.1
      × Filled p.0

  offer_batch-Safe :
      (burst : Bool) (b : Option Batch) (g : Graph) (d : Dispatcher)
      → idle d.estimator_worker ≡ true
      → d.graph.running ≡ none
      → Safe clock begin floor finish d
      → Selected d (b, g)
      → Inv g
      → Fine (Safe clock begin floor finish) (offer_batch burst b (with_graph g d))
  unfolding offer_batch
  offer_batch-Safe burst none g d i e v (a, f) k =
      with_graph-Safe clock later begin floor finish d g none _ _ a v.imu_ok v.camera_ok
        (subst (Estimating d.estimator_worker) e v.estimator_ok) v.imu_far v.camera_far v.imu_near
        v.camera_near v.control_ok v.mapping_ok k
  offer_batch-Safe burst (some b) g d i e v (a, f) k = elim (List-cases b.inputs) [
    | inl n ↦ absurd (ground arith)
    | inr (m, ms, n) ↦ rw n (
        with_graph-Safe clock later begin floor finish
          (record d {
            estimator_worker =
                (Worker.offer (batch_job burst b m.source_time) d.estimator_worker).1;
            burst_job = if burst && has_burst b.inputs then b.id else d.burst_job;
          })
          g (some b) _ _ a v.imu_ok v.camera_ok
          (Estimating-offer (batch_job burst b m.source_time) b d.estimator_worker refl i
            v.estimator_ok.one_job)
          v.imu_far v.camera_far v.imu_near v.camera_near v.control_ok v.mapping_ok k)
  ]

  pub start_estimator-Reached :
      (burst : Bool) (t : ℕ) (d : Dispatcher)
      → Reached t d
      → Fine (Safe clock begin floor finish) (start_estimator clock burst d)
  unfolding start_estimator
  start_estimator-Reached burst t d (v, k) = elim (Bool-cases (idle d.estimator_worker)) [
    | inr a ↦ rw a v
    | inl a ↦
        let e = v.estimator_ok.idle (idle-load d.estimator_worker a) in
        rw a (
          Fine-bind (λ p. Selected d p × Inv p.1) (Safe clock begin floor finish)
            (from_graph (Graph.select (clock d.reads) d.graph)) _
            (kept (Selected d) d.graph _ (select-Returns (clock d.reads) d.graph v.time e)
              (select-Inv (clock d.reads) d.graph v.graph_ok))
            (λ p g. offer_batch-Safe burst p.0 p.1 d a e v g.0 g.1))
  ]

  pub hogs-Reached :
      (b : Bool) (hogs : List Worker) (t : ℕ) (d : Dispatcher)
      → Reached t d
      → Reached t (if b then record d { hogs = hogs } else d)
  hogs-Reached true hogs t d (v, k) = (set_hogs clock later begin floor finish d v hogs, k)
  hogs-Reached false hogs t d r = r
