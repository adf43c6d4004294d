-- ===== src/Executor/Spin/Ownership.antt =====
-- ros2/scx_slam_executor/src/freshness_executor.cpp, `spin`: who owns the work that is in flight.
pub mod Dispatcher
pub mod Worker
use scx_slam_fresh.Base.{
  ℕ, ◌+◌, ◌≡◌, refl, ◌⊎◌, Bool, true, false, ◌&&◌, ◌||◌, List, [], ◌∷◌, ◌++◌, Option, none, some,
  has_value, if◌then◌else◌,
}
use scx_slam_fresh.Executor.Hint.{Hint}
use scx_slam_fresh.Executor.Spin.{DispatcherPc, WorkerPc, Work, State, bare_work, message_work}

-- The work that a thread holds at each place.
abbrev pub dispatcher_work : DispatcherPc → Option Work
dispatcher_work (DispatcherPc.prepare e b) = some (bare_work e)
dispatcher_work (DispatcherPc.take e b) = some (message_work e)
dispatcher_work (DispatcherPc.observe w) = some w
dispatcher_work (DispatcherPc.admit w) = some w
dispatcher_work (DispatcherPc.drop w) = some w
dispatcher_work (DispatcherPc.publish w) = some w
dispatcher_work (DispatcherPc.hand_over w) = some w
dispatcher_work _ = none

abbrev pub worker_work : WorkerPc → Option Work
worker_work (WorkerPc.accept w) = some w
worker_work (WorkerPc.reject w) = some w
worker_work (WorkerPc.run w) = some w
worker_work (WorkerPc.clean_up w) = some w
worker_work _ = none

abbrev pub groups : Option Work → List ℕ
groups none = []
groups (some w) = elim w.executable.group [ none ↦ [] | some g ↦ g ∷ [] ]

abbrev pub borrowed : Option Work → ℕ
borrowed none = 0
borrowed (some w) = if w.has_message && has_value w.executable.subscription then 1 else 0

abbrev pub Published : Option Work → Option Hint → Type 0
Published none slot = Unit
Published (some w) slot = slot ≡ some w.hint

-- From the selection of work to its handoff.
abbrev pub selecting : DispatcherPc → Bool
selecting DispatcherPc.select_next = true
selecting pc = has_value (dispatcher_work pc)

abbrev pub handing : DispatcherPc → Option Work
handing (DispatcherPc.hand_over w) = some w
handing _ = none

abbrev pub late : DispatcherPc → Bool
late DispatcherPc.notify_stop = true
late DispatcherPc.join = true
late DispatcherPc.returned = true
late _ = false

abbrev pub is_wait_ready : DispatcherPc → Bool
is_wait_ready DispatcherPc.wait_ready = true
is_wait_ready _ = false

-- The other predicate that the dispatcher waits for: an idle worker.
abbrev pub waits_idle : DispatcherPc → Bool
waits_idle DispatcherPc.wait_idle = true
waits_idle DispatcherPc.drain = true
waits_idle _ = false

-- A `notify_all` that is still to come.
abbrev pub will_notify : DispatcherPc → Bool
will_notify DispatcherPc.notify_work = true
will_notify DispatcherPc.notify_stop = true
will_notify _ = false

abbrev pub worker_will_notify : WorkerPc → Bool
worker_will_notify WorkerPc.notify_ready = true
worker_will_notify WorkerPc.notify_failed = true
worker_will_notify _ = false

-- A worker that neither waits nor has left.
abbrev pub active : WorkerPc → Bool
active WorkerPc.parked = false
active WorkerPc.notify_failed = false
active WorkerPc.cancel = false
active WorkerPc.exited = false
active _ = true

abbrev pub gone : WorkerPc → Bool
gone WorkerPc.notify_failed = true
gone WorkerPc.cancel = true
gone WorkerPc.exited = true
gone _ = false

abbrev pub unready : WorkerPc → Bool
unready WorkerPc.configure = true
unready WorkerPc.fail = true
unready _ = false

pub record AtRest (s : State) : Type 0 where
  pub rest_worker : s.worker ≡ WorkerPc.parked
  pub rest_pending : s.pending ≡ none
  pub rest_error : s.worker_error ≡ false
  pub rest_stop : s.stop ≡ false

pub record Inv (s : State) : Type 0 where
  pub groups_held :
      s.taken
      ≡ groups (dispatcher_work s.dispatcher) ++ (groups s.pending ++ groups (worker_work s.worker))
  pub loans_held :
      s.loans
      ≡ borrowed (dispatcher_work s.dispatcher)
        + borrowed s.pending
        + borrowed (worker_work s.worker)
  pub rests : selecting s.dispatcher ≡ true → AtRest s
  pub handing_published : Published (handing s.dispatcher) s.slot
  pub pending_published : Published s.pending s.slot
  pub running_published : Published (worker_work s.worker) s.slot
  pub pending_parked :
      has_value s.pending ≡ true
      → (s.worker ≡ WorkerPc.parked)
        × (s.worker_idle ≡ false)
        × (s.worker_error ≡ false)
        × (s.stop ≡ false)
  pub active_alone :
      active s.worker ≡ true
      → (s.pending ≡ none) × (s.worker_idle ≡ false) × (s.worker_error ≡ false) × (s.stop ≡ false)
  pub gone_stopped : gone s.worker ≡ true → s.stop ≡ true
  pub stopped_why : s.stop ≡ true → (s.worker_error ≡ true) ⊎ (late s.dispatcher ≡ true)
  pub late_stopped : late s.dispatcher ≡ true → s.stop ≡ true
  pub late_clear : late s.dispatcher ≡ true → s.dispatch_error ≡ false → s.hint_needs_clear ≡ false
  pub cleared :
      s.hint_needs_clear ≡ false → (s.slot ≡ none) ⊎ (has_value (handing s.dispatcher) ≡ true)
  pub not_ready :
      s.worker_ready ≡ false → (unready s.worker ≡ true) × (is_wait_ready s.dispatcher ≡ true)
  pub waiting_idle :
      s.worker ≡ WorkerPc.parked → (s.worker_idle ≡ true) ⊎ (has_value s.pending ≡ true)
  pub asleep_waits :
      s.dispatcher_asleep ≡ true → is_wait_ready s.dispatcher || waits_idle s.dispatcher ≡ true
  pub asleep_unready :
      s.dispatcher_asleep ≡ true
      → is_wait_ready s.dispatcher ≡ true
      → (s.worker_ready ≡ false) ⊎ (worker_will_notify s.worker ≡ true)
  pub asleep_busy :
      s.dispatcher_asleep ≡ true
      → waits_idle s.dispatcher ≡ true
      → ((s.worker_idle ≡ false) × (s.worker_error ≡ false)) ⊎ (worker_will_notify s.worker ≡ true)
  pub worker_dozes :
      s.worker_asleep ≡ true
      → (s.worker ≡ WorkerPc.parked)
        × (((s.pending ≡ none) × (s.stop ≡ false)) ⊎ (will_notify s.dispatcher ≡ true))
  pub returned_alone : s.dispatcher ≡ DispatcherPc.returned → s.worker ≡ WorkerPc.exited

abbrev pub InvAfter : Option State → Type 0
InvAfter none = Unit
InvAfter (some t) = Inv t
