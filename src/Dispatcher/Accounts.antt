-- ===== src/Dispatcher/Accounts.antt =====
-- demo/dependent_workload.cpp, `main`: what the counters add up to when the loop breaks.
use scx_slam_fresh.Base.{
  ℕ, suc, ◌+◌, ◌*◌, ◌^◌, ◌≤◌, ◌<◌, ◌≡◌, refl, subst, Bool, true, List, [], length, ok, u64, arith,
}
use scx_slam_fresh.Graph.{
  Stream, imu, camera, Graph, Lane, lane, new_graph, count_stream, pending, inputs_of,
}
use scx_slam_fresh.Graph.Invariant.{LaneInv}
use scx_slam_fresh.Graph.Returns.{noted}
use scx_slam_fresh.Worker.{Worker}
use scx_slam_fresh.Dispatcher.{ms, period, Source, role_of, worker_of, source_of, Dispatcher}
use scx_slam_fresh.Dispatcher.Loop.{Window, Round, loop, start}
use scx_slam_fresh.Dispatcher.Safety.State.{Fine, Feeding, load}
use scx_slam_fresh.Dispatcher.Safety.Rounds.{Ended, After, loop-After, start-Safe}

-- The accounts of one stream with its period, its source, its worker and its lane of the graph.
abbrev pub Settled : ℕ → ℕ → ℕ → Source → Worker → Lane → Type 0
Settled step begin finish source w l =
    (finish ≤ begin + source.produced * step)
    × (begin + source.produced * step < finish + step)
    × (w.offered ≡ source.produced)
    × (source.produced ≡ w.dropped + w.completed)
    × (l.accounting.offered ≡ w.completed)
    × (w.completed ≡ u64 (l.accounting.dropped + l.accounting.consumed))

settles :
    (begin finish : ℕ) (s : Stream) (w : Worker) (source : Source) (c now t : ℕ) (l : Lane)
    → Feeding begin s w source (noted l) t
    → finish ≤ source.next
    → source.next < finish + period s
    → load w ≡ 0
    → length l.inbox ≡ 0
    → LaneInv s c now [] l
    → Settled (period s) begin finish source w l
unfolding count_stream
settles begin finish s w source c now t l f far near empty waiting v = (
  subst (λ n. finish ≤ n) f.paced far,
  subst (λ n. n < finish + period s) f.paced near,
  f.offered,
  omega (arith, f.settled),
  f.handed,
  omega (arith, f.handed, v.conserved),
)

ended :
    (clock : ℕ → ℕ) (begin finish : ℕ) (s : Stream) (d : Dispatcher)
    → Ended clock begin finish d
    → Settled (period s) begin finish (source_of s d) (worker_of (role_of s) d) (lane s d.graph)
unfolding pending
ended clock begin finish imu d e =
    let v = e.safe in
    let idle = v.estimator_ok.idle e.estimator_empty in
    settles begin finish imu d.imu_worker d.imu_source _ _ _ d.graph.lane_imu v.imu_ok v.imu_far
      v.imu_near e.imu_empty e.no_imu
      (subst (λ o. LaneInv imu d.graph.capacity d.graph.clock_time (inputs_of o) d.graph.lane_imu)
        idle v.graph_ok.inv_imu)
ended clock begin finish camera d e =
    let v = e.safe in
    let idle = v.estimator_ok.idle e.estimator_empty in
    settles begin finish camera d.camera_worker d.camera_source _ _ _ d.graph.lane_camera
      v.camera_ok v.camera_far v.camera_near e.camera_empty e.no_camera
      (subst
        (λ o. LaneInv camera d.graph.capacity d.graph.clock_time (inputs_of o) d.graph.lane_camera)
        idle v.graph_ok.inv_camera)

-- Let the readings of the clock not run backwards, the window not end before it begins, and its end
-- be at least 50 ms away from the largest word. Then, for a new graph and new workers, whatever their
-- threads do, and whichever publications fail: when the loop breaks, exactly the releases of the
-- stream that lie in the window have been made; each of them was offered to the stream's worker, and
-- was dropped or completed by it; each completed one was offered to the graph, and those are, as a
-- word, what the graph's lane counts as dropped or consumed.
pub accounts_settle :
    (clock : ℕ → ℕ) (begin finish : ℕ) (burst hints : Bool) (hogs capacity limit : ℕ) {g : Graph}
    (rounds : List Round) (d : Dispatcher) (s : Stream)
    → ((n : ℕ) → clock n ≤ clock (suc n))
    → begin ≤ finish
    → finish + 50 * ms < 2 ^ 64
    → new_graph capacity limit ≡ ok g
    → let win : Window = record { begin = begin; finish = finish; burst = burst } in
      loop clock win rounds (start hints hogs win g) ≡ ok (true, d)
      → Settled (period s) begin finish (source_of s d) (worker_of (role_of s) d) (lane s d.graph)
accounts_settle clock begin finish burst hints hogs capacity limit rounds d s later h small q r =
    let p = subst (Fine (After clock later begin finish small burst)) r (
      loop-After clock later begin finish small burst rounds _
        (start-Safe clock later begin finish small burst hints hogs capacity limit q h)) in
    ended clock begin finish s d (p.1 refl)
