-- ===== src/Graph/Run.antt =====
-- demo/dependent_graph.h: what holds after any history of calls on a new `Graph`.
use scx_slam_fresh.Base.{
  ℕ, ◌+◌, ◌≤◌, ◌≡◌, refl, List, [], ◌∷◌, Option, none, some, subst, u64, ok, arith, ◌∙◌,
}
use scx_slam_fresh.Graph.{
  Stream, imu, camera, Measurement, Batch, Snapshot, Lane, Graph, lane, set_lane, start_batch,
  select_idle, consume, note_stream, count_consumed, finish_batch, new_graph, counts, pending,
  in_flight, control_now,
}
use scx_slam_fresh.Graph.Calls.{
  Call, offers, selects, completes, controls, after, step, run, at_time, offer_cases, select_cases,
  complete_cases, control_cases,
}
use scx_slam_fresh.Graph.Invariant.{BatchSize, Inv, new_graph-Inv, lane-Inv}
use scx_slam_fresh.Graph.Invariant.Offer.{offer-Inv, control-Inv}
use scx_slam_fresh.Graph.Invariant.Select.{select-Inv}
use scx_slam_fresh.Graph.Invariant.Complete.{complete-Inv}

-- Every call keeps the invariant.
pub step-Inv : (g : Graph) (c : Call) → Inv g → Inv (step g c)
unfolding step
step-Inv g (offers m t) v = offer-Inv m t g v
step-Inv g (selects t) v = select-Inv t g v
step-Inv g (completes id t) v = complete-Inv id t g v
step-Inv g (controls t setpoint age) v = control-Inv t setpoint age g v

pub run-Inv : (g : Graph) (cs : List Call) → Inv g → Inv (run g cs)
unfolding run
run-Inv g [] v = v
run-Inv g (c ∷ cs) v = run-Inv (step g c) cs (step-Inv g c v)

set_lane-frame :
    (s : Stream) (l : Lane) (g : Graph)
    → ((set_lane s l g).capacity ≡ g.capacity) × ((set_lane s l g).limit ≡ g.limit)
set_lane-frame imu l g = (refl, refl)
set_lane-frame camera l g = (refl, refl)

consume-frame :
    (ms : List Measurement) (s : Snapshot) (g : Graph)
    → ((consume ms s g).1.capacity ≡ g.capacity) × ((consume ms s g).1.limit ≡ g.limit)
unfolding consume
consume-frame [] s g = (refl, refl)
consume-frame (m ∷ ms) s g =
    let g1 = set_lane m.stream (count_consumed (lane m.stream g)) g in
    let (a, b) = consume-frame ms (note_stream m.stream m s) g1 in
    let (c, d) = set_lane-frame m.stream (count_consumed (lane m.stream g)) g in (a ∙ c, b ∙ d)

abbrev Frame : Graph → Graph → Type 0
Frame g g' = (g'.capacity ≡ g.capacity) × (g'.limit ≡ g.limit)

start_batch-Frame : (ms : List Measurement) (g : Graph) → Frame g (start_batch ms g).1
unfolding start_batch
start_batch-Frame [] g = (refl, refl)
start_batch-Frame (m ∷ ms) g = (refl, refl)

select_idle-Frame : (o : Option Batch) (g : Graph) → Frame g (select_idle o g).1
unfolding select_idle
select_idle-Frame (some b) g = (refl, refl)
select_idle-Frame none g = start_batch-Frame _ _

step-Frame : (g : Graph) (c : Call) → Frame g (step g c)
unfolding step finish_batch control_now
step-Frame g (offers m t) =
    offer_cases (λ r. Frame g (after g r)) m t g (λ e. (refl, refl))
      λ _ _ _. set_lane-frame m.stream _ _
step-Frame g (selects t) =
    select_cases (λ r. Frame g (after g r)) t g (λ e. (refl, refl))
      λ _. select_idle-Frame g.running _
step-Frame g (completes id t) =
    complete_cases (λ r. Frame g (after g r)) id t g (λ e. (refl, refl))
      λ b _ _ _. consume-frame b.inputs _ (at_time t g)
step-Frame g (controls t setpoint age) =
    control_cases (λ r. Frame g (after g r)) t setpoint age g (λ e. (refl, refl)) λ _. (refl, refl)

run-Frame : (g : Graph) (cs : List Call) → Frame g (run g cs)
unfolding run
run-Frame g [] = (refl, refl)
run-Frame g (c ∷ cs) =
    let (a, b) = run-Frame (step g c) cs in let (p, q) = step-Frame g c in (a ∙ p, b ∙ q)

new_graph-limits : (c l : ℕ) {g : Graph} → new_graph c l ≡ ok g → (g.capacity ≡ c) × (g.limit ≡ l)
unfolding new_graph
new_graph-limits c l e = ground arith

-- After any history of calls on a new graph, thrown calls included, each stream accounts for every
-- measurement that it was offered: dropped, consumed, waiting in the inbox or in the running batch
-- (counters are 64-bit words, so the sum is taken modulo 2 ^ 64).
pub run_conserves :
    (capacity limit : ℕ) {g : Graph} (cs : List Call) (s : Stream)
    → new_graph capacity limit ≡ ok g
    → let h = run g cs in
      (counts s h).offered
      ≡ u64 ((counts s h).dropped + (counts s h).consumed + pending s h + in_flight s h)
unfolding counts pending in_flight
run_conserves capacity limit {g} cs s e =
    (lane-Inv s (run-Inv g cs (new_graph-Inv capacity limit e))).conserved

-- After any history, no inbox holds more than the capacity that the graph was made with, and a
-- running batch has at least one input and at most the batch limit.
pub run_bounded :
    (capacity limit : ℕ) {g : Graph} (cs : List Call) (s : Stream)
    → new_graph capacity limit ≡ ok g
    → let h = run g cs in (pending s h ≤ capacity) × BatchSize limit h.running
unfolding pending
run_bounded capacity limit {g} cs s e =
    let v = run-Inv g cs (new_graph-Inv capacity limit e) in
    let (c, l) = new_graph-limits capacity limit e in
    let (cf, lf) = run-Frame g cs in
    (
      omega (arith, (lane-Inv s v).bounded, c, cf),
      subst (λ n. BatchSize n (run g cs).running) (lf ∙ l) v.sized,
    )
