-- ===== src/Graph/Calls.antt =====
-- demo/dependent_graph.h: a history of calls on one `Graph`, and the ways in which a call can end.
use scx_slam_fresh.Base.{
  ℕ, ◌≤◌, ◌≡◌, refl, inl, inr, Bool-cases, Bool, false, List, [], ◌∷◌, Option, none, some, ltb,
  ◌==◌, Result, ok, err, arith,
}
use scx_slam_fresh.Graph.{
  Measurement, Batch, Snapshot, Control, Graph, GraphError, lane, set_lane, repeats, enqueue,
  select_idle, finish_batch, offer, select, complete, complete_running, control, control_now,
}

pub data Call : Type 0 where
  offers : Measurement → ℕ → Call
  selects : ℕ → Call
  completes : ℕ → ℕ → Call
  controls : ℕ → ℕ → ℕ → Call

-- A call that throws leaves the graph alone.
abbrev pub after : {A : Type 0} → Graph → Result GraphError (A × Graph) → Graph
after g (ok (a, g')) = g'
after g (err e) = g

unfoldable pub step : Graph → Call → Graph
step g (offers m t) = after g (offer m t g)
step g (selects t) = after g (select t g)
step g (completes id t) = after g (complete id t g)
step g (controls t setpoint age) = after g (control t setpoint age g)

unfoldable pub run : Graph → List Call → Graph
run g [] = g
run g (c ∷ cs) = run (step g c) cs

abbrev pub at_time : ℕ → Graph → Graph
at_time t g = record g { clock_time = t }

pub offer_cases {ℓ} :
    (P : Result GraphError (Bool × Graph) → Type ℓ) (m : Measurement) (t : ℕ) (g : Graph)
    → ((e : GraphError) → P (err e))
    → (m.source_time ≤ t
        → repeats (lane m.stream g).last_sequence m.sequence ≡ false
        → g.clock_time ≤ t
        → let (accepted, l) = enqueue g.capacity m (lane m.stream (at_time t g)) in
          P (ok (accepted, set_lane m.stream l (at_time t g))))
    → P (offer m t g)
unfolding offer
offer_cases P m t g throws done = elim (Bool-cases (ltb t m.source_time)) [
  | inl e ↦ rw (e, offer) (throws _)
  | inr fresh ↦ elim (Bool-cases (repeats (lane m.stream g).last_sequence m.sequence)) [
    | inl e ↦ rw (fresh, e, offer) (throws _)
    | inr e ↦ elim (Bool-cases (ltb t g.clock_time)) [
      | inl back ↦ rw (fresh, e, back, offer) (throws _)
      | inr on ↦ rw (fresh, e, on, offer) (done (ground arith) e (ground arith))
    ]
  ]
]

pub select_cases {ℓ} :
    (P : Result GraphError (Option Batch × Graph) → Type ℓ) (t : ℕ) (g : Graph)
    → ((e : GraphError) → P (err e))
    → (g.clock_time ≤ t → P (ok (select_idle g.running (at_time t g))))
    → P (select t g)
unfolding select
select_cases P t g throws done = elim (Bool-cases (ltb t g.clock_time)) [
  | inl back ↦ rw (back, select) (throws _)
  | inr on ↦ rw (on, select) (done (ground arith))
]

complete_running_cases {ℓ} :
    (P : Result GraphError (Snapshot × Graph) → Type ℓ) (o : Option Batch) (id t : ℕ) (g : Graph)
    → ((e : GraphError) → P (err e))
    → ((b : Batch)
        → o ≡ some b
        → b.id ≡ id
        → g.clock_time ≤ t
        → P (ok (finish_batch b t (at_time t g))))
    → P (complete_running o id t g)
unfolding complete_running
complete_running_cases P none id t g throws done = throws _
complete_running_cases P (some b) id t g throws done = elim (Bool-cases (b.id == id)) [
  | inr e ↦ rw (e, complete_running) (throws _)
  | inl e ↦ elim (Bool-cases (ltb t g.clock_time)) [
    | inl back ↦ rw (e, back, complete_running) (throws _)
    | inr on ↦ rw (e, on, complete_running) (done b refl (ground arith) (ground arith))
  ]
]

pub complete_cases {ℓ} :
    (P : Result GraphError (Snapshot × Graph) → Type ℓ) (id t : ℕ) (g : Graph)
    → ((e : GraphError) → P (err e))
    → ((b : Batch)
        → g.running ≡ some b
        → b.id ≡ id
        → g.clock_time ≤ t
        → P (ok (finish_batch b t (at_time t g))))
    → P (complete id t g)
unfolding complete
complete_cases P id t g throws done = complete_running_cases P g.running id t g throws done

pub control_cases {ℓ} :
    (P : Result GraphError (Control × Graph) → Type ℓ) (t setpoint age : ℕ) (g : Graph)
    → ((e : GraphError) → P (err e))
    → (g.clock_time ≤ t → P (ok (control_now t setpoint age (at_time t g))))
    → P (control t setpoint age g)
unfolding control
control_cases P t setpoint age g throws done = elim (Bool-cases (ltb t g.clock_time)) [
  | inl back ↦ rw (back, control) (throws _)
  | inr on ↦ rw (on, control) (done (ground arith))
]
