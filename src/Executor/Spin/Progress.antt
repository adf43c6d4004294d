-- ===== src/Executor/Spin/Progress.antt =====
-- ros2/scx_slam_executor/src/freshness_executor.cpp, `spin`: no deadlock, and shutdown ends.
use scx_slam_fresh.Base.{
  ℕ, ◌+◌, ◌<◌, ◌≢◌, ◌≡◌, refl, subst, ◌⊎◌, inl, inr, Bool, true, false, Option, none, some, arith,
  ◌≤◌, if◌then◌else◌, Bool-cases, sym,
}
use scx_slam_fresh.Executor.Spin.{
  State, DispatcherPc, DispatcherChoice, WorkerPc, WorkerChoice, Work, Action, dispatches, works,
  step, Reach, dispatcher_move, worker_move, wake,
}
use scx_slam_fresh.Executor.Spin.Ownership.{
  Inv, unready, waits_idle, will_notify, worker_will_notify,
}
use scx_slam_fresh.Executor.Spin.Safety.{Reach-Inv}

abbrev pub closing : DispatcherPc → Bool
closing DispatcherPc.close = true
closing DispatcherPc.drain = true
closing DispatcherPc.notify_stop = true
closing DispatcherPc.join = true
closing DispatcherPc.returned = true
closing _ = false

abbrev pub dispatcher_rank : DispatcherPc → ℕ
dispatcher_rank DispatcherPc.close = 6
dispatcher_rank DispatcherPc.drain = 5
dispatcher_rank DispatcherPc.notify_stop = 4
dispatcher_rank DispatcherPc.join = 1
dispatcher_rank _ = 0

-- What the worker has still to do before it leaves, if nothing new is handed over.
abbrev pub worker_rank : WorkerPc → Option Work → ℕ
worker_rank WorkerPc.configure o = 8
worker_rank WorkerPc.notify_ready o = 7
worker_rank WorkerPc.park o = 4
worker_rank WorkerPc.parked none = 1
worker_rank WorkerPc.parked (some w) = 9
worker_rank (WorkerPc.accept w) o = 8
worker_rank (WorkerPc.reject w) o = 7
worker_rank (WorkerPc.run w) o = 7
worker_rank (WorkerPc.clean_up w) o = 6
worker_rank WorkerPc.fail o = 5
worker_rank WorkerPc.notify_failed o = 4
worker_rank WorkerPc.cancel o = 1
worker_rank WorkerPc.exited o = 0

-- A thread that is awake can fall asleep; a `notify_all` counts for more than it wakes.
abbrev pub awake : Bool → ℕ
awake true = 0
awake false = 1

abbrev pub rank : State → ℕ
rank s =
    dispatcher_rank s.dispatcher
    + worker_rank s.worker s.pending
    + awake s.dispatcher_asleep
    + awake s.worker_asleep

abbrev Shrinks : State → Option State → Type 0
Shrinks s none = Unit
Shrinks s (some t) = (closing t.dispatcher ≡ true) × (rank t < rank s)

dispatcher_move-Shrinks :
    (pc : DispatcherPc) (c : DispatcherChoice) (s : State)
    → s.dispatcher ≡ pc
    → closing pc ≡ true
    → Shrinks s (dispatcher_move pc c s)
unfolding dispatcher_move
dispatcher_move-Shrinks DispatcherPc.close DispatcherChoice.goes s e h = ground arith
dispatcher_move-Shrinks DispatcherPc.drain DispatcherChoice.goes s e h = ground arith
dispatcher_move-Shrinks DispatcherPc.drain DispatcherChoice.throws s e h = ground arith
dispatcher_move-Shrinks DispatcherPc.notify_stop DispatcherChoice.goes s e h = ground arith
dispatcher_move-Shrinks DispatcherPc.join DispatcherChoice.goes s e h = ground arith
dispatcher_move-Shrinks _ _ s e h = ground arith

worker_move-Shrinks :
    (pc : WorkerPc) (c : WorkerChoice) (s : State)
    → s.worker ≡ pc
    → closing s.dispatcher ≡ true
    → Inv s
    → Shrinks s (worker_move pc c s)
unfolding worker_move
worker_move-Shrinks WorkerPc.configure WorkerChoice.goes s e h v = ground arith
worker_move-Shrinks _ _ s e h v = ground arith

dispatcher_rank-le : (pc : DispatcherPc) → dispatcher_rank pc ≤ 6
dispatcher_rank-le DispatcherPc.close = omega arith
dispatcher_rank-le _ = omega arith

worker_rank-le : (pc : WorkerPc) (o : Option Work) → worker_rank pc o ≤ 9
worker_rank-le WorkerPc.parked none = omega arith
worker_rank-le WorkerPc.parked (some w) = omega arith
worker_rank-le WorkerPc.configure o = omega arith
worker_rank-le WorkerPc.notify_ready o = omega arith
worker_rank-le WorkerPc.notify_failed o = omega arith
worker_rank-le WorkerPc.park o = omega arith
worker_rank-le (WorkerPc.accept w') o = omega arith
worker_rank-le (WorkerPc.reject w') o = omega arith
worker_rank-le (WorkerPc.run w') o = omega arith
worker_rank-le (WorkerPc.clean_up w') o = omega arith
worker_rank-le WorkerPc.fail o = omega arith
worker_rank-le WorkerPc.cancel o = omega arith
worker_rank-le WorkerPc.exited o = omega arith

rank-le : (s : State) → rank s ≤ 17
rank-le s = ground (arith, dispatcher_rank-le s.dispatcher, worker_rank-le s.worker s.pending)

-- Not a cancellation, and not a spurious wake-up.
abbrev pub by_thread : Action → Bool
by_thread (dispatches c) = true
by_thread (works c) = true
by_thread _ = false

step-Shrinks :
    (s : State) (a : Action)
    → closing s.dispatcher ≡ true
    → by_thread a ≡ true
    → Inv s
    → Shrinks s (step s a)
unfolding step
step-Shrinks s (dispatches c) h n v = dispatcher_move-Shrinks s.dispatcher c s refl h
step-Shrinks s (works c) h n v = worker_move-Shrinks s.worker c s refl h v
step-Shrinks s _ h n v = absurd (ground arith)

-- Once the dispatcher has left its loop, every move of either thread brings the end nearer: the
-- dispatcher stays on its way out, and the moves still to come, at most seventeen with falling
-- asleep and waking up, grow fewer.
pub shutdown_shrinks :
    {job : ℕ} {s t : State} (a : Action)
    → Reach job s
    → closing s.dispatcher ≡ true
    → by_thread a ≡ true
    → step s a ≡ some t
    → (closing t.dispatcher ≡ true) × (rank t < rank s) × (rank s ≤ 17)
shutdown_shrinks {s = s} a r h n e =
    let (c, l) = subst (Shrinks s) e (step-Shrinks s a h n (Reach-Inv r)) in (c, l, rank-le s)

abbrev pub Enabled : State → Type 0
Enabled s = (a : Action) × (t : State) × (by_thread a ≡ true) × (step s a ≡ some t)

abbrev Moves : Option State → Type 0
Moves o = (t : State) × (o ≡ some t)

by_dispatcher :
    (s : State) (pc : DispatcherPc) (c : DispatcherChoice)
    → s.dispatcher ≡ pc
    → Moves (dispatcher_move pc c s)
    → Enabled s
unfolding step
by_dispatcher s pc c e (t, m) =
    (dispatches c, t, refl, subst (λ p. dispatcher_move p c s ≡ some t) (sym e) m)

by_worker :
    (s : State) (pc : WorkerPc) (c : WorkerChoice)
    → s.worker ≡ pc
    → Moves (worker_move pc c s)
    → Enabled s
unfolding step
by_worker s pc c e (t, m) = (works c, t, refl, subst (λ p. worker_move p c s ≡ some t) (sym e) m)

Moves-of : (o : Option State) → o ≢ none → Moves o
Moves-of none n = absurd (n refl)
Moves-of (some t) n = (t, refl)

wake-Moves : (o : Option Work) (s : State) → Moves (wake o s)
wake-Moves none s = (_, refl)
wake-Moves (some w) s = (_, refl)

parked-Moves :
    (asleep : Bool) (s : State) → asleep ≡ false → Moves (if asleep then none else wake s.pending s)
parked-Moves true s h = absurd (ground arith)
parked-Moves false s h = wake-Moves s.pending s

abbrev Ready : WorkerPc → State → Type 0
Ready WorkerPc.parked s = s.worker_asleep ≡ false
Ready WorkerPc.exited s = ⊥
Ready _ s = Unit

-- A worker that has something to do can move.
worker_moves : (pc : WorkerPc) (s : State) → s.worker ≡ pc → Ready pc s → Enabled s
unfolding worker_move
worker_moves WorkerPc.configure s e h = by_worker s _ WorkerChoice.goes e (_, refl)
worker_moves WorkerPc.notify_ready s e h = by_worker s _ WorkerChoice.goes e (_, refl)
worker_moves WorkerPc.notify_failed s e h = by_worker s _ WorkerChoice.goes e (_, refl)
worker_moves WorkerPc.park s e h = by_worker s _ WorkerChoice.goes e (_, refl)
worker_moves WorkerPc.parked s e h =
    by_worker s _ WorkerChoice.goes e (parked-Moves s.worker_asleep s h)
worker_moves (WorkerPc.accept w) s e h = by_worker s _ (WorkerChoice.at_time 0) e (_, refl)
worker_moves (WorkerPc.reject w) s e h = by_worker s _ WorkerChoice.goes e (_, refl)
worker_moves (WorkerPc.run w) s e h = by_worker s _ WorkerChoice.goes e (_, refl)
worker_moves (WorkerPc.clean_up w) s e h = by_worker s _ WorkerChoice.goes e (_, refl)
worker_moves WorkerPc.fail s e h = by_worker s _ WorkerChoice.goes e (_, refl)
worker_moves WorkerPc.cancel s e h = by_worker s _ WorkerChoice.goes e (_, refl)
worker_moves WorkerPc.exited s e h = absurd h

notifying-Ready : (pc : WorkerPc) (s : State) → worker_will_notify pc ≡ true → Ready pc s
notifying-Ready WorkerPc.parked s h = absurd (ground arith)
notifying-Ready WorkerPc.exited s h = absurd (ground arith)
notifying-Ready _ s h = tt

unready-Ready : (pc : WorkerPc) (s : State) → unready pc ≡ true → Ready pc s
unready-Ready WorkerPc.configure s h = tt
unready-Ready WorkerPc.parked s h = absurd (ground arith)
unready-Ready WorkerPc.exited s h = absurd (ground arith)
unready-Ready _ s h = tt

-- While the dispatcher waits for an idle worker, the worker is not idle for want of work.
busy-Ready :
    (pc : WorkerPc) (s : State)
    → s.worker ≡ pc
    → Inv s
    → s.worker_idle ≡ false
    → s.worker_error ≡ false
    → waits_idle s.dispatcher ≡ true
    → Ready pc s
busy-Ready WorkerPc.configure s e v i x l = tt
busy-Ready WorkerPc.parked s e v i x l = ground arith
busy-Ready WorkerPc.exited s e v i x l = absurd (ground arith)
busy-Ready _ s e v i x l = tt

-- A worker that was told to stop leaves.
stopped-Ready :
    (pc : WorkerPc) (s : State)
    → s.stop ≡ true
    → will_notify s.dispatcher ≡ false
    → Inv s
    → pc ≢ WorkerPc.exited
    → Ready pc s
stopped-Ready WorkerPc.configure s h k v n = tt
stopped-Ready WorkerPc.parked s h k v n = ground arith
stopped-Ready WorkerPc.exited s h k v n = n refl
stopped-Ready _ s h k v n = tt

is_exited : (pc : WorkerPc) → (pc ≡ WorkerPc.exited) ⊎ (pc ≢ WorkerPc.exited)
is_exited WorkerPc.exited = inl refl
is_exited _ = inr (λ q. cc)

-- The worker will wake the dispatcher that waits for it.
asleep_moves :
    (s : State) → Inv s → s.dispatcher_asleep ≡ true → waits_idle s.dispatcher ≡ true → Enabled s
asleep_moves s v q h = elim (v.asleep_busy q h) [
  | inl r ↦ worker_moves s.worker s refl (busy-Ready s.worker s refl v r.0 r.1 h)
  | inr r ↦ worker_moves s.worker s refl (notifying-Ready s.worker s r)
]

dispatcher_moves :
    (pc : DispatcherPc) (s : State)
    → s.dispatcher ≡ pc
    → pc ≢ DispatcherPc.returned
    → Inv s
    → Enabled s
unfolding dispatcher_move
dispatcher_moves DispatcherPc.wait_ready s e n v = elim (Bool-cases s.dispatcher_asleep) [
  | inr q ↦ by_dispatcher s _ DispatcherChoice.goes e (Moves-of _ (λ h. ground arith))
  | inl q ↦ elim (v.asleep_unready q (rw e)) [
    | inl r ↦ worker_moves s.worker s refl (unready-Ready s.worker s (v.not_ready r).0)
    | inr r ↦ worker_moves s.worker s refl (notifying-Ready s.worker s r)
  ]
]
dispatcher_moves DispatcherPc.check_loop s e n v =
    by_dispatcher s _ (DispatcherChoice.context_ok true) e (_, refl)
dispatcher_moves DispatcherPc.wait_idle s e n v = elim (Bool-cases s.dispatcher_asleep) [
  | inr q ↦ by_dispatcher s _ DispatcherChoice.goes e (Moves-of _ (λ h. ground arith))
  | inl q ↦ asleep_moves s v q (rw e)
]
dispatcher_moves DispatcherPc.select_next s e n v =
    by_dispatcher s _ DispatcherChoice.nothing e (_, refl)
dispatcher_moves (DispatcherPc.prepare x b) s e n v =
    by_dispatcher s _ DispatcherChoice.throws e (_, refl)
dispatcher_moves (DispatcherPc.take x b) s e n v =
    by_dispatcher s _ DispatcherChoice.nothing e (_, refl)
dispatcher_moves (DispatcherPc.observe w) s e n v =
    by_dispatcher s _ DispatcherChoice.goes e (_, refl)
dispatcher_moves (DispatcherPc.admit w) s e n v =
    by_dispatcher s _ (DispatcherChoice.at_time 0) e (_, refl)
dispatcher_moves (DispatcherPc.drop w) s e n v = by_dispatcher s _ DispatcherChoice.goes e (_, refl)
dispatcher_moves (DispatcherPc.publish w) s e n v =
    by_dispatcher s _ DispatcherChoice.goes e (_, refl)
dispatcher_moves (DispatcherPc.hand_over w) s e n v =
    by_dispatcher s _ DispatcherChoice.goes e (_, refl)
dispatcher_moves DispatcherPc.close s e n v = by_dispatcher s _ DispatcherChoice.goes e (_, refl)
dispatcher_moves DispatcherPc.drain s e n v = elim (Bool-cases s.dispatcher_asleep) [
  | inr q ↦ by_dispatcher s _ DispatcherChoice.goes e (Moves-of _ (λ h. ground arith))
  | inl q ↦ asleep_moves s v q (rw e)
]
dispatcher_moves DispatcherPc.notify_work s e n v =
    by_dispatcher s _ DispatcherChoice.goes e (_, refl)
dispatcher_moves DispatcherPc.notify_stop s e n v =
    by_dispatcher s _ DispatcherChoice.goes e (_, refl)
dispatcher_moves DispatcherPc.join s e n v = elim (is_exited s.worker) [
  | inl q ↦ by_dispatcher s _ DispatcherChoice.goes e (Moves-of _ (λ h. ground arith))
  | inr q ↦
      worker_moves s.worker s refl (stopped-Ready s.worker s (v.late_stopped (rw e)) (rw e) v q)
]
dispatcher_moves DispatcherPc.returned s e n v = absurd (n refl)

-- In every interleaving, until `spin` has returned, some thread can move, without a cancellation and
-- without a spurious wake-up: the two threads are never both stuck, be it asleep in `condition.wait` or
-- in `join`.
pub no_deadlock :
    {job : ℕ} {s : State} → Reach job s → s.dispatcher ≢ DispatcherPc.returned → Enabled s
no_deadlock {s = s} r n = dispatcher_moves s.dispatcher s refl n (Reach-Inv r)
