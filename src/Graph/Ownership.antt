-- ===== src/Graph/Ownership.antt =====
-- demo/dependent_graph.h: who may change or end the running batch.
use scx_slam_fresh.Base.{ℕ, ◌≤◌, ◌≡◌, refl, ◌∙◌, Option, none, some, ok, err, arith, ◌≢◌}
use scx_slam_fresh.Graph.{
  Stream, imu, camera, Batch, Snapshot, Lane, Graph, set_lane, select_idle, select, finish_batch,
  complete, control_now, complete_running, wrong_completion_owner,
}
use scx_slam_fresh.Graph.Calls.{
  Call, offers, selects, completes, controls, after, step, at_time, offer_cases, select_cases,
  complete_cases, control_cases,
}

set_lane-running : (s : Stream) (l : Lane) (g : Graph) → (set_lane s l g).running ≡ g.running
set_lane-running imu l g = refl
set_lane-running camera l g = refl

select_idle-running :
    (o : Option Batch) (g : Graph) (b : Batch)
    → o ≡ some b
    → (select_idle o g).1.running ≡ g.running
unfolding select_idle
select_idle-running (some c) g b e = refl
select_idle-running none g b e = cc

-- No call but the completion under its own id changes a running batch: it keeps its id and its
-- inputs while measurements are offered, selection is tried again, control runs, or some other id
-- is completed.
pub step_keeps_running :
    (g : Graph) (c : Call) (b : Batch)
    → g.running ≡ some b
    → ((t : ℕ) → c ≢ completes b.id t)
    → (step g c).running ≡ some b
unfolding step control_now
step_keeps_running g (offers m t) b e h =
    offer_cases (λ r. (after g r).running ≡ some b) m t g (λ _. e)
      λ _ _ _. set_lane-running m.stream _ _ ∙ e
step_keeps_running g (selects t) b e h =
    select_cases (λ r. (after g r).running ≡ some b) t g (λ _. e)
      λ _. select_idle-running g.running (at_time t g) b e ∙ e
step_keeps_running g (completes id t) b e h =
    complete_cases (λ r. (after g r).running ≡ some b) id t g (λ _. e)
      λ c q i _. absurd (h t (cc (i, q)))
step_keeps_running g (controls t setpoint age) b e h =
    control_cases (λ r. (after g r).running ≡ some b) t setpoint age g (λ _. e) λ _. e

-- While a batch runs, `select` hands out nothing, and a completion under another id is refused.
-- The completion under the batch's own id frees the graph for the next selection.
pub running_is_exclusive :
    (g : Graph) (b : Batch) (id t : ℕ)
    → g.running ≡ some b
    → g.clock_time ≤ t
    → (select t g ≡ ok (none, at_time t g))
      × (id ≢ b.id → complete id t g ≡ err wrong_completion_owner)
      × ((s : Snapshot) × (g' : Graph) × (complete b.id t g ≡ ok (s, g'))
          × (g'.running ≡ none)
          × (g'.latest ≡ some s))
unfolding select select_idle complete complete_running finish_batch
running_is_exclusive g b id t e h = (
  ground arith,
  λ n. ground arith,
  (
    (finish_batch b t (at_time t g)).0,
    (finish_batch b t (at_time t g)).1,
    ground arith,
    refl,
    refl,
  ),
)
