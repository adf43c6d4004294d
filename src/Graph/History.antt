-- ===== src/Graph/History.antt =====
-- demo/dependent_graph.h: `Graph` against the log of what it accepted and processed.
pub mod Log
pub mod Steps
use scx_slam_fresh.Base.{ℕ, ◌≡◌, refl, ap, ◌∙◌, List, [], ◌∷◌, ◌++◌, none, ok, arith, subst}
use scx_slam_fresh.Graph.{Stream, imu, camera, Graph, lane, inputs_of, new_graph}
use scx_slam_fresh.Graph.Calls.{Call, offers, selects, completes, controls, step, run}
use scx_slam_fresh.Graph.Select.{of_stream}
use scx_slam_fresh.Graph.Invariant.{Inv, new_graph-Inv}
use scx_slam_fresh.Graph.Run.{step-Inv}
use scx_slam_fresh.Graph.History.Log.{History, watch, watch_all, start, Logged}
use scx_slam_fresh.Graph.History.Steps.{
  after_offer, offer-Logged, select-Logged, complete-Logged, control-Logged,
}

watch-graph : (h : History) (c : Call) → (watch h c).graph ≡ step h.graph c
unfolding watch step
watch-graph h (offers m t) = refl
watch-graph h (selects t) = refl
watch-graph h (completes id t) = refl
watch-graph h (controls t setpoint age) = refl

watch-Logged :
    (s : Stream) (h : History) (c : Call) → Inv h.graph → Logged s h → Logged s (watch h c)
unfolding watch after_offer
watch-Logged s h (offers m t) v k = offer-Logged s m t h k
watch-Logged s h (selects t) v k = select-Logged s t h v k
watch-Logged s h (completes id t) v k = complete-Logged s id t h k
watch-Logged s h (controls t setpoint age) v k = control-Logged s t setpoint age h k

watch_all-Logged :
    (s : Stream) (h : History) (cs : List Call)
    → Inv h.graph
    → Logged s h
    → Logged s (watch_all h cs)
unfolding watch_all
watch_all-Logged s h [] v k = k
watch_all-Logged s h (c ∷ cs) v k =
    watch_all-Logged s (watch h c) cs (rw (watch-graph h c) (step-Inv h.graph c v))
      (watch-Logged s h c v k)

watch_all-graph : (h : History) (cs : List Call) → (watch_all h cs).graph ≡ run h.graph cs
unfolding watch_all run
watch_all-graph h [] = refl
watch_all-graph h (c ∷ cs) = watch_all-graph (watch h c) cs ∙ ap (λ g. run g cs) (watch-graph h c)

start-Logged :
    (s : Stream) (capacity limit : ℕ) {g : Graph}
    → new_graph capacity limit ≡ ok g
    → Logged s (start g)
unfolding new_graph
start-Logged imu capacity limit e = ground arith
start-Logged camera capacity limit e = ground arith

-- After any history of calls on a new graph, each stream's accepted measurements are, in the order
-- of acceptance, those of the completed batches, then those of the running batch, then the inbox:
-- none is lost, repeated or overtaken within its stream.
pub run_is_queue :
    (capacity limit : ℕ) {g : Graph} (cs : List Call) (s : Stream)
    → new_graph capacity limit ≡ ok g
    → let h = watch_all (start g) cs in
      let g' = run g cs in
      of_stream s h.accepted
      ≡ of_stream s h.processed ++ (of_stream s (inputs_of g'.running) ++ (lane s g').inbox)
run_is_queue capacity limit {g} cs s e =
    subst
      (λ g'.
        let h = watch_all (start g) cs in
        of_stream s h.accepted
        ≡ of_stream s h.processed ++ (of_stream s (inputs_of g'.running) ++ (lane s g').inbox))
      (watch_all-graph (start g) cs)
      (watch_all-Logged s (start g) cs (new_graph-Inv capacity limit e)
        (start-Logged s capacity limit e))
