-- ===== src/Dispatcher/Safety/Rounds.antt =====
-- demo/dependent_workload.cpp, `main`: the loop, from its start to its `break`.
use scx_slam_fresh.Base.{
  ℕ, suc, ◌+◌, ◌*◌, ◌^◌, ◌≤◌, ◌<◌, ◌≡◌, refl, sym, subst, Bool, true, false, List, [], ◌∷◌, length,
  ok, arith, Bool-cases, inl, inr, ◌==◌, ◌||◌, empty, ◌&&◌, ◌-◌, not, ltb, leb,
}
use scx_slam_fresh.Graph.{pending, imu, camera, Graph, new_graph}
use scx_slam_fresh.Graph.Invariant.{new_graph-Inv}
use scx_slam_fresh.Graph.Returns.{new_graph-Advanced}
use scx_slam_fresh.Worker.{Job, Worker, new_worker}
use scx_slam_fresh.Worker.Invariant.State.{flag}
use scx_slam_fresh.Dispatcher.{produce, ms, Dispatcher, Source}
use scx_slam_fresh.Dispatcher.Loop.{
  any_pending, workers, release_work, offer_hogs, Window, Round, round, loop, start,
}
use scx_slam_fresh.Dispatcher.Safety.State.{load, Fine, Fine-bind, Feeding, Estimating, Safe}
use scx_slam_fresh.Dispatcher.Safety.Parts.{refloor}
use scx_slam_fresh.Dispatcher.Safety.Collect.{collect_all-Safe}
use scx_slam_fresh.Dispatcher.Safety.Release.{
  produce-Reached, control_ticks-Reached, start_estimator-Reached, hogs-Reached,
}
use scx_slam_fresh.Dispatcher.Safety.Produced.{reached, produce-far, produce-imu}
use scx_slam_fresh.Dispatcher.Safety.Dispatch.{reads-Safe, dispatch_all-Safe}

-- When the loop breaks, nothing is left of the streams, and the sources are at the end of the window.
pub record Ended (clock : ℕ → ℕ) (begin finish : ℕ) (d : Dispatcher) : Type 0 where
  pub safe : Safe clock begin finish finish d
  pub imu_empty : load d.imu_worker ≡ 0
  pub camera_empty : load d.camera_worker ≡ 0
  pub estimator_empty : load d.estimator_worker ≡ 0
  pub no_imu : pending imu d.graph ≡ 0
  pub no_camera : pending camera d.graph ≡ 0

no_load :
    (w : Worker) (ws : List Worker)
    → any_pending (w ∷ ws) ≡ false
    → (load w ≡ 0) × (any_pending ws ≡ false)
no_load w ws e = parts w.busy w.queue (any_pending ws) e
  where
    parts :
        (b : Bool) (js : List Job) (rest : Bool)
        → b || (not (empty js) || rest) ≡ false
        → (flag b + length js ≡ 0) × (rest ≡ false)
    parts b js rest e = ground arith

abbrev drained : Dispatcher → Bool
drained d =
    not (any_pending (workers d)) && (pending imu d.graph == 0 && pending camera d.graph == 0)

drained-Ended :
    (clock : ℕ → ℕ) (begin finish : ℕ) (d : Dispatcher)
    → Safe clock begin finish finish d
    → drained d ≡ true
    → Ended clock begin finish d
drained-Ended clock begin finish d v e =
    let others = d.control_worker ∷ d.mapping_worker ∷ d.hogs in
    let (quiet, waiting) = both (any_pending (workers d)) _ _ e in
    let (a, rest) = no_load d.imu_worker (d.camera_worker ∷ d.estimator_worker ∷ others) quiet in
    let (b, rest') = no_load d.camera_worker (d.estimator_worker ∷ others) rest in
    let (c, _) = no_load d.estimator_worker others rest' in
    record {
      safe = v;
      imu_empty = a;
      camera_empty = b;
      estimator_empty = c;
      no_imu = waiting.0;
      no_camera = waiting.1;
    }
  where
    both :
        (p : Bool) (m n : ℕ)
        → not p && (m == 0 && n == 0) ≡ true
        → (p ≡ false) × ((m ≡ 0) × (n ≡ 0))
    both p m n e = ground arith

module _ (clock : ℕ → ℕ) (later : (n : ℕ) → clock n ≤ clock (suc n)) (begin finish : ℕ)
    (small : finish + 50 * ms < 2 ^ 64) (burst : Bool) where
  abbrev window : Window
  window = record { begin = begin; finish = finish; burst = burst }

  -- The loops over the sources take them to the end of the window, once it is over.
  produced-Safe :
      (t : ℕ) (d : Dispatcher)
      → Safe clock begin 0 finish d × (t ≤ clock d.reads)
      → let d2 = produce (suc t - d.imu_source.next) imu finish t d in
        let d3 = produce (suc t - d2.camera_source.next) camera finish t d2 in
        Safe clock begin (reached finish t) finish d3 × (t ≤ clock d3.reads)
  produced-Safe t d r =
      let d2 = produce (suc t - d.imu_source.next) imu finish t d in
      let r3 =
        produce-Reached clock later begin 0 finish small (suc t - d2.camera_source.next) camera t d2
          (produce-Reached clock later begin 0 finish small (suc t - d.imu_source.next) imu t d
            r) in
      elim (Bool-cases (leb finish t)) [
        | inr a ↦ rw a r3
        | inl a ↦ rw a (
          refloor clock begin 0 finish finish _ r3.0
              (rw (produce-imu (suc t - d2.camera_source.next) finish t d2)
                (produce-far _ imu finish t d small (ground arith) (omega arith)))
              (produce-far _ camera finish t d2 small (ground arith) (omega arith)),
          r3.1,
        )
      ]

  release_work-Safe :
      (t : ℕ) (d : Dispatcher)
      → Safe clock begin 0 finish d × (t ≤ clock d.reads)
      → Fine (Safe clock begin (reached finish t) finish) (release_work clock window t d)
  unfolding release_work
  release_work-Safe t d r =
      let floor = reached finish t in
      let S = Safe clock begin floor finish in
      Fine-bind (λ d. S d × (t ≤ clock d.reads)) S _ _
        (control_ticks-Reached clock later begin floor finish small _ t _ (
          produced-Safe t _ (
            hogs-Reached clock later begin 0 finish small (leb begin t && ltb t finish)
              (offer_hogs t d.hogs) t d r)))
        (λ d4 r4. start_estimator-Reached clock later begin floor finish small burst t d4 r4)

  abbrev pub After : Bool × Dispatcher → Type 0
  After p = Safe clock begin 0 finish p.1 × (p.0 ≡ true → Ended clock begin finish p.1)

  round_end :
      (t : ℕ) (d : Dispatcher)
      → Safe clock begin (reached finish t) finish d
      → After (leb finish t && drained d, d)
  round_end t d v = (
    refloor clock begin _ 0 finish d v (omega arith) (omega arith),
    λ e. elim (Bool-cases (leb finish t)) [
      | inr b ↦ absurd (ground arith)
      | inl b ↦
          drained-Ended clock begin finish d
            (subst (λ floor. Safe clock begin floor finish d) (rw b refl) v) (ground arith)
    ],
  )

  round-After :
      (r : Round) (d : Dispatcher)
      → Safe clock begin 0 finish d
      → Fine After (round clock window r d)
  unfolding round
  round-After r d v =
      let S = λ (floor : ℕ). Safe clock begin floor finish in
      Fine-bind (S 0) After _ _ (collect_all-Safe clock later begin 0 finish small r d v) λ d1 v1.
        let t = clock d1.reads in
        Fine-bind (S (reached finish t)) After _ _
          (release_work-Safe t (record d1 { reads = suc d1.reads })
            (
              reads-Safe clock later begin 0 finish small (suc d1.reads) d1 (later d1.reads) v1,
              later d1.reads,
            ))
          λ d2 v2.
            Fine-bind (S (reached finish t)) After _ _
              (dispatch_all-Safe clock later begin (reached finish t) finish small r d2 v2)
              λ d3 v3. round_end t d3 v3

  pub loop-After :
      (rounds : List Round) (d : Dispatcher)
      → Safe clock begin 0 finish d
      → Fine After (loop clock window rounds d)
  unfolding loop
  loop-After [] d v = (v, λ e. cc)
  loop-After (r ∷ rounds) d v = Fine-bind After After _ _ (round-After r d v) λ p v'.
      elim (Bool-cases p.0) [
        | inl e ↦ rw e (v'.0, λ _. v'.1 e)
        | inr e ↦ rw e (loop-After rounds p.1 v'.0)
      ]

  pub start-Safe :
      (hints : Bool) (hogs : ℕ) (capacity limit : ℕ) {g : Graph}
      → new_graph capacity limit ≡ ok g
      → begin ≤ finish
      → Safe clock begin 0 finish (start hints hogs window g)
  unfolding start new_worker
  start-Safe hints hogs capacity limit {g} e h =
      let a = new_graph-Advanced capacity limit e in
      let fresh : Source = record { next = begin; produced = 0 } in
      record {
        time = rw a.clock_time (omega arith);
        imu_ok =
            subst (λ l. Feeding begin imu (new_worker hints) fresh l (clock 0)) (sym a.imu_noted)
              (record {
                one_job = omega arith;
                jobs = λ _. omega arith;
                counted = omega arith;
                offered = refl;
                settled = refl;
                handed = refl;
                paced = omega arith;
              });
        camera_ok =
            subst (λ l. Feeding begin camera (new_worker hints) fresh l (clock 0))
              (sym a.camera_noted)
              (record {
                one_job = omega arith;
                jobs = λ _. omega arith;
                counted = omega arith;
                offered = refl;
                settled = refl;
                handed = refl;
                paced = omega arith;
              });
        imu_far = omega arith;
        camera_far = omega arith;
        imu_near = omega arith;
        camera_near = omega arith;
        estimator_ok =
            subst (Estimating (new_worker hints)) (sym a.running) (record {
              one_job = omega arith;
              few = omega arith;
              idle = λ _. refl;
              jobs = λ _. tt;
            });
        control_ok = record { one_job = omega arith; jobs = λ _. tt };
        mapping_ok = record { one_job = omega arith; jobs = λ _. tt };
        graph_ok = new_graph-Inv capacity limit e;
      }
