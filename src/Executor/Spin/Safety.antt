-- ===== src/Executor/Spin/Safety.antt =====
-- ros2/scx_slam_executor/src/freshness_executor.cpp, `spin`: what holds in every interleaving.
use scx_slam_fresh.Base.{
  ℕ, ◌+◌, append-nil, ◌≤◌, ◌≡◌, refl, subst, ◌⊎◌, inl, inr, true, false, [], Option, none, some,
  length, arith, Option-cases,
}
use scx_slam_fresh.Executor.Spin.{
  State, DispatcherPc, WorkerPc, Work, Action, dispatches, works, cancels, rouses_dispatcher,
  rouses_worker, begin, step, Reach, started, moved,
}
use scx_slam_fresh.Executor.Spin.Ownership.{
  Inv, InvAfter, selecting, groups, borrowed, dispatcher_work, worker_work,
}
use scx_slam_fresh.Executor.Spin.Ownership.Worker.{worker_move-Inv}
use scx_slam_fresh.Executor.Spin.Ownership.Dispatcher.{dispatcher_move-Inv}

begin-Inv : (job : ℕ) → Inv (begin job)
unfolding begin
begin-Inv job = ground arith

step-InvAfter : (s : State) (a : Action) → Inv s → InvAfter (step s a)
unfolding step
step-InvAfter s (dispatches c) v = dispatcher_move-Inv s.dispatcher c s refl v
step-InvAfter s (works c) v = worker_move-Inv s.worker c s refl v
step-InvAfter s cancels v = ground arith
step-InvAfter s rouses_dispatcher v = ground arith
step-InvAfter s rouses_worker v = ground arith

pub step-Inv : {s t : State} (a : Action) → step s a ≡ some t → Inv s → Inv t
step-Inv {s} a e v = subst InvAfter e (step-InvAfter s a v)

pub Reach-Inv : {job : ℕ} {s : State} → Reach job s → Inv s
Reach-Inv {job} started = begin-Inv job
Reach-Inv (moved a r e) = step-Inv a e (Reach-Inv r)

-- In every interleaving, while a callback runs the sink holds exactly its hint: the next hint is
-- not published, and no other work is selected or handed over, before the callback has ended.
pub callback_keeps_its_hint :
    {job : ℕ} {s : State} (w : Work)
    → Reach job s
    → s.worker ≡ WorkerPc.run w
    → (s.slot ≡ some w.hint) × (s.pending ≡ none) × (selecting s.dispatcher ≡ false)
callback_keeps_its_hint w r e = let v = Reach-Inv r in ground arith

-- In every interleaving the worker is parked, with nothing pending, whenever the dispatcher has
-- selected, taken or published work; and work that was handed over is published under its own hint.
pub selection_needs_parked_worker :
    {job : ℕ} {s : State}
    → Reach job s
    → (selecting s.dispatcher ≡ true → (s.worker ≡ WorkerPc.parked) × (s.pending ≡ none))
      × ((w : Work) → s.pending ≡ some w → (s.slot ≡ some w.hint) × (s.worker ≡ WorkerPc.parked))
selection_needs_parked_worker r = let v = Reach-Inv r in (λ h. ground arith, λ w h. ground arith)

abbrev or_else : Option Work → Option Work → Option Work
or_else none o = o
or_else (some w) o = some w

abbrev holds : Option Work → ℕ
holds none = 0
holds (some w) = 1

length-groups : (o : Option Work) → length (groups o) ≤ 1
length-groups none = omega arith
length-groups (some w) = ground arith

borrowed-le : (o : Option Work) → borrowed o ≤ 1
borrowed-le none = omega arith
borrowed-le (some w) = ground arith

work_selecting : (pc : DispatcherPc) (w : Work) → dispatcher_work pc ≡ some w → selecting pc ≡ true
work_selecting DispatcherPc.wait_ready w e = cc
work_selecting _ w e = ground arith

-- Work in flight has one owner: the dispatcher, the handoff slot or the worker.
alone :
    (s : State)
    → Inv s
    → ((s.pending ≡ none) × (worker_work s.worker ≡ none))
      ⊎ ((dispatcher_work s.dispatcher ≡ none) × (worker_work s.worker ≡ none))
      ⊎ ((dispatcher_work s.dispatcher ≡ none) × (s.pending ≡ none))
alone s v = elim (Option-cases (dispatcher_work s.dispatcher)) [
  | inr (d, e) ↦
      let h = v.rests (work_selecting s.dispatcher d e) in inl (ground arith, ground arith)
  | inl e ↦ elim (Option-cases s.pending) [
    | inl q ↦ inr (inr (e, q))
    | inr (w, q) ↦ inr (inl (e, ground arith))
  ]
]

-- Whoever holds work: the dispatcher, the handoff slot or the worker.
abbrev pub in_flight : State → Option Work
in_flight s = or_else (dispatcher_work s.dispatcher) (or_else s.pending (worker_work s.worker))

abbrev pub owners : State → ℕ
owners s = holds (dispatcher_work s.dispatcher) + holds s.pending + holds (worker_work s.worker)

-- In every interleaving at most one piece of work is in flight, with the dispatcher, in the handoff
-- slot or with the worker; the callback groups that are taken are exactly that of this work, if it
-- has one, and the messages on loan exactly its own; so there is at most one of each.
pub one_in_flight :
    {job : ℕ} {s : State}
    → Reach job s
    → (length s.taken ≤ 1)
      × (s.loans ≤ 1)
      × (s.taken ≡ groups (in_flight s))
      × (s.loans ≡ borrowed (in_flight s))
      × (owners s ≤ 1)
one_in_flight {s = s} r =
    let v = Reach-Inv r in
    (
      ground (
        arith,
        alone s v,
        length-groups (dispatcher_work s.dispatcher),
        length-groups s.pending,
        length-groups (worker_work s.worker),
      ),
      ground (
        arith,
        alone s v,
        borrowed-le (dispatcher_work s.dispatcher),
        borrowed-le s.pending,
        borrowed-le (worker_work s.worker),
      ),
      ground (
        arith,
        alone s v,
        append-nil (groups (dispatcher_work s.dispatcher)),
        append-nil (groups s.pending),
      ),
      ground (arith, alone s v),
      ground (arith, alone s v),
    )

-- When `spin` has returned, normally or by an exception, the worker has left, no work is pending,
-- every callback group can be taken from again, every message is back with its subscription, and
-- the loop is stopped; without an exception of the dispatcher the hint slot is clear too.
pub returned_clean :
    {job : ℕ} {s : State}
    → Reach job s
    → s.dispatcher ≡ DispatcherPc.returned
    → (s.worker ≡ WorkerPc.exited)
      × (s.pending ≡ none)
      × (s.taken ≡ [])
      × (s.loans ≡ 0)
      × (s.stop ≡ true)
      × (s.dispatch_error ≡ false → s.slot ≡ none)
returned_clean r e =
    let v = Reach-Inv r in
    (ground arith, ground arith, ground arith, ground arith, ground arith, λ h. ground arith)
