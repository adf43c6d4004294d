-- ===== src/Executor/Spin.antt =====
-- ros2/scx_slam_executor/src/freshness_executor.cpp: `spin`, as two threads that move in turn.
--
-- A thread's place in the code is a program counter; each move runs from one place to the next, at
-- most one critical section, one external call or one blocking wait at a time. What the code cannot
-- decide itself (what rclcpp hands out, what a callback, an observer, the sink or the kernel does,
-- what the clock shows) is the move's choice. A move that cannot be made now is `none`.
--
-- `condition.wait` tests its predicate with the lock held, and falls asleep where it is false; a thread
-- that sleeps moves on only after a `notify_all`, or a spurious wake-up, and tests again. `cancel` does
-- not notify.
pub mod Ownership
pub mod Safety
pub mod Progress
mod Tests
use scx_slam_fresh.Base.{
  ℕ, ◌+◌, ◌-◌, ◌≡◌, Bool, true, false, not, ◌&&◌, ◌||◌, List, [], ◌∷◌, Option, none, some, ◌==◌,
  if◌then◌else◌, has_value,
}
use scx_slam_fresh.Executor.Hint.{CallbackProfile, MessageMetadata, Hint, make_hint, expired}

-- `rclcpp::DeliveredMessageKind`, as far as the code tells it apart.
pub data MessageKind : Type 0 where
  ros_message other_kind : MessageKind

-- `rclcpp::AnyExecutable`: its callback group, and its subscription if it is one.
pub record Executable : Type 0 where
  pub group : Option ℕ
  pub subscription : Option MessageKind

-- `Impl::ProfileBinding`.
pub record Binding : Type 0 where
  pub profile : CallbackProfile
  pub has_extractor : Bool
  pub has_observer : Bool

-- `Impl::PendingWork`; a taken message belongs to the executable's subscription.
pub record Work : Type 0 where
  pub executable : Executable
  pub hint : Hint
  pub has_message : Bool
  pub has_observer : Bool
  pub reject_expired : Bool

pub data DispatcherPc : Type 0 where
  wait_ready : DispatcherPc  -- for `worker_ready`
  check_loop : DispatcherPc  -- the test of the `while`
  wait_idle : DispatcherPc  -- for `worker_idle`
  select_next : DispatcherPc  -- `get_next_executable` and `binding_for`
  prepare : Executable → Binding → DispatcherPc  -- head of the `try`
  take : Executable → Binding → DispatcherPc  -- `take_type_erased`, extraction, `make_hint`
  observe : Work → DispatcherPc  -- the observer's `Selected`
  admit : Work → DispatcherPc  -- `expired`
  drop : Work → DispatcherPc
  publish : Work → DispatcherPc
  hand_over : Work → DispatcherPc  -- the critical section that fills `pending`
  notify_work : DispatcherPc  -- the `notify_all` behind it
  close : DispatcherPc  -- `spinning.store(false)`
  drain : DispatcherPc  -- the wait, `clear_completed_hint` and `stop`
  notify_stop : DispatcherPc
  join : DispatcherPc
  returned : DispatcherPc

pub data WorkerPc : Type 0 where
  configure : WorkerPc
  notify_ready : WorkerPc
  park : WorkerPc  -- top of the loop
  parked : WorkerPc  -- in `condition.wait`
  accept : Work → WorkerPc  -- the branch on `work->message` and `expired`
  reject : Work → WorkerPc  -- `drop`
  run : Work → WorkerPc  -- inside the callback
  clean_up : Work → WorkerPc  -- the inner `catch`
  fail : WorkerPc  -- the outer `catch`
  notify_failed : WorkerPc
  cancel : WorkerPc
  exited : WorkerPc

pub record State : Type 0 where
  pub dispatcher : DispatcherPc
  pub worker : WorkerPc
  pub pending : Option Work
  pub worker_ready : Bool
  pub worker_idle : Bool
  pub hint_needs_clear : Bool
  pub stop : Bool
  pub spinning : Bool
  pub worker_error : Bool
  pub dispatch_error : Bool
  pub next_job_id : ℕ
  -- Asleep in `condition.wait`.
  pub dispatcher_asleep : Bool
  pub worker_asleep : Bool
  -- Outside the object: the hint that the sink holds for the worker, the groups whose
  -- `can_be_taken_from` is false, and the messages that are out on loan from their subscription.
  pub slot : Option Hint
  pub taken : List ℕ
  pub loans : ℕ

-- After `compare_exchange_strong` and the reset under the lock, with the worker thread started.
pub begin : ℕ → State
begin next_job_id = record {
  dispatcher = wait_ready;
  worker = configure;
  pending = none;
  worker_ready = false;
  worker_idle = false;
  hint_needs_clear = false;
  stop = false;
  spinning = true;
  worker_error = false;
  dispatch_error = false;
  next_job_id = next_job_id;
  dispatcher_asleep = false;
  worker_asleep = false;
  slot = none;
  taken = [];
  loans = 0;
}

pub remove : ℕ → List ℕ → List ℕ
remove g [] = []
remove g (h ∷ hs) = let rest = remove g hs in if h == g then rest else h ∷ rest

pub contains : ℕ → List ℕ → Bool
contains g [] = false
contains g (h ∷ hs) = h == g || contains g hs

-- `release_callback_group` and `return_taken_message`.
pub release_callback_group : Option ℕ → List ℕ → List ℕ
unfolding remove
release_callback_group none taken = taken
release_callback_group (some g) taken = remove g taken

pub return_taken_message : Work → ℕ → ℕ
return_taken_message w loans =
    if w.has_message && has_value w.executable.subscription then loans - 1 else loans

-- Both, as every way out of a callback or a failed handoff does.
abbrev pub let_go : Work → State → State
let_go w s = record s {
  taken = release_callback_group w.executable.group s.taken;
  loans = return_taken_message w s.loans;
}

-- An exception on the dispatcher leaves the loop; the `catch` has released what was held.
abbrev pub throw_out : State → State
throw_out s = record s { dispatch_error = true; dispatcher = close }

abbrev pub no_hint : Hint
no_hint = record {
  stage_id = 0;
  class_id = 0;
  job_id = 0;
  release_ts_ns = 0;
  deadline_ts_ns = 0;
  stale_ns = 0;
  budget_ns = 0;
  slice_ns = 0;
  weight = 0;
  flags = 0;
}

-- A `PendingWork` that owns its executable only, or also a message.
abbrev pub bare_work : Executable → Work
bare_work e = record {
  executable = e;
  hint = no_hint;
  has_message = false;
  has_observer = false;
  reject_expired = false;
}

abbrev pub message_work : Executable → Work
message_work e = record (bare_work e) { has_message = true }

-- What a move of the dispatcher meets: an answer of `rclcpp::ok`, an executable or none, a message,
-- a time, or an exception. `goes` is any other move.
pub data DispatcherChoice : Type 0 where
  goes : DispatcherChoice
  throws : DispatcherChoice
  context_ok : Bool → DispatcherChoice
  nothing : DispatcherChoice
  selects : Executable → Binding → DispatcherChoice
  takes : MessageMetadata → DispatcherChoice
  at_time : ℕ → DispatcherChoice

pub data WorkerChoice : Type 0 where
  goes : WorkerChoice
  throws : WorkerChoice
  at_time : ℕ → WorkerChoice

abbrev take_group : Option ℕ → State → Option (List ℕ)
take_group none s = some s.taken
take_group (some g) s = if contains g s.taken then none else some (g ∷ s.taken)

-- rclcpp hands out an executable only if its group can be taken from, and takes the group.
pub select_executable : Executable → Binding → State → Option State
unfolding contains
select_executable e b s = elim (take_group e.group s) [
  | none ↦ none
  | some taken ↦ some (record s { taken = taken; dispatcher = prepare e b })
]

pub prepare_subscription : Option MessageKind → Executable → Binding → State → State
prepare_subscription none e b s = throw_out (let_go (bare_work e) s)
prepare_subscription (some other_kind) e b s = throw_out (let_go (bare_work e) s)
prepare_subscription (some ros_message) e b s = record s {
  loans = s.loans + 1;
  dispatcher = take e b;
}

pub prepare_work : Bool → Executable → Binding → ℕ → State → State
unfolding prepare_subscription make_hint
prepare_work true e b now s = prepare_subscription e.subscription e b s
prepare_work false e b now s =
    let (hint, next) = make_hint b.profile none now s.next_job_id in
    record s { next_job_id = next; dispatcher = publish (record (bare_work e) { hint = hint }) }

pub take_message : Executable → Binding → MessageMetadata → State → State
unfolding make_hint
take_message e b m s =
    if m.job_id == 0 || m.release_ts_ns == 0
    then throw_out (let_go (message_work e) s)
    else record s {
      dispatcher = observe (record {
        executable = e;
        hint = (make_hint b.profile (some m) 0 s.next_job_id).0;
        has_message = true;
        has_observer = b.has_observer;
        reject_expired = b.profile.reject_expired;
      });
    }

-- `clear_completed_hint`, and `stop`; the sink may throw.
pub clear_completed_hint : Bool → State → State
clear_completed_hint fails s =
    if s.hint_needs_clear
    then (if fails
        then record s { dispatch_error = true }
        else record s { slot = none; hint_needs_clear = false })
    else s

-- `condition.notify_all`.
abbrev pub notify_all : State → State
notify_all s = record s { dispatcher_asleep = false; worker_asleep = false }

-- One move of the dispatcher, from its place in the code.
pub dispatcher_move : DispatcherPc → DispatcherChoice → State → Option State
unfolding select_executable prepare_work take_message clear_completed_hint
dispatcher_move wait_ready goes s =
    if s.dispatcher_asleep
    then none
    else if not s.worker_ready
    then some (record s { dispatcher_asleep = true })
    else if s.worker_error
    then some (throw_out s)
    else some (record s { dispatcher = check_loop })
dispatcher_move check_loop (context_ok ok) s =
    some (record s { dispatcher = if ok && s.spinning then wait_idle else close })
dispatcher_move wait_idle goes s =
    if s.dispatcher_asleep
    then none
    else if not (s.worker_idle || (s.worker_error || not s.spinning))
    then some (record s { dispatcher_asleep = true })
    else if s.worker_error
    then some (throw_out s)
    else some (record s { dispatcher = if s.spinning then select_next else close })
dispatcher_move select_next nothing s = some (record s { dispatcher = check_loop })
dispatcher_move select_next throws s = some (throw_out s)
dispatcher_move select_next (selects e b) s = select_executable e b s
dispatcher_move (prepare e b) throws s = some (throw_out (let_go (bare_work e) s))
dispatcher_move (prepare e b) (at_time now) s = some (prepare_work b.has_extractor e b now s)
dispatcher_move (take e b) nothing s =
    some (record (let_go (message_work e) s) { dispatcher = check_loop })
dispatcher_move (take e b) throws s = some (throw_out (let_go (message_work e) s))
dispatcher_move (take e b) (takes m) s = some (take_message e b m s)
dispatcher_move (observe w) goes s = some (record s { dispatcher = admit w })
dispatcher_move (observe w) throws s =
    if w.has_observer then some (throw_out (let_go w s)) else none
dispatcher_move (admit w) (at_time now) s =
    some
      (record s { dispatcher = if expired w.reject_expired w.hint now then drop w else publish w })
dispatcher_move (admit w) throws s =
    if w.reject_expired then some (throw_out (let_go w s)) else none
dispatcher_move (drop w) goes s = some (record (let_go w s) { dispatcher = check_loop })
dispatcher_move (drop w) throws s = if w.has_observer then some (throw_out (let_go w s)) else none
dispatcher_move (publish w) goes s =
    some (record s { slot = some w.hint; dispatcher = hand_over w })
dispatcher_move (publish w) throws s = some (throw_out (let_go w s))
dispatcher_move (hand_over w) goes s = some (record s {
  worker_idle = false;
  hint_needs_clear = true;
  pending = some w;
  dispatcher = notify_work;
})
dispatcher_move notify_work goes s = some (record (notify_all s) { dispatcher = check_loop })
dispatcher_move close goes s = some (record s { spinning = false; dispatcher = drain })
dispatcher_move drain goes s =
    if s.dispatcher_asleep
    then none
    else if not (s.worker_idle || s.worker_error)
    then some (record s { dispatcher_asleep = true })
    else some (record (clear_completed_hint false s) { stop = true; dispatcher = notify_stop })
dispatcher_move drain throws s =
    if not s.dispatcher_asleep && ((s.worker_idle || s.worker_error) && s.hint_needs_clear)
    then some (record (clear_completed_hint true s) { stop = true; dispatcher = notify_stop })
    else none
dispatcher_move notify_stop goes s = some (record (notify_all s) { dispatcher = join })
dispatcher_move join goes s = elim s.worker [
  | exited ↦ some (record s { dispatcher = returned })
  | _ ↦ none
]
dispatcher_move _ _ s = none

abbrev pub wake : Option Work → State → Option State
wake none s =
    some (if s.stop then record s { worker = exited } else record s { worker_asleep = true })
wake (some w) s = some (record s { pending = none; worker = accept w })

-- One move of the worker. Where a callback throws, the inner and the outer `catch` both let go of
-- the work; the second finds nothing left, so one move stands for both.
pub worker_move : WorkerPc → WorkerChoice → State → Option State
worker_move configure goes s = some (record s { worker_ready = true; worker = notify_ready })
worker_move configure throws s = some (record s { worker = fail })
worker_move notify_ready goes s = some (record (notify_all s) { worker = park })
worker_move park goes s = some (record (notify_all s) { worker_idle = true; worker = parked })
worker_move parked goes s = if s.worker_asleep then none else wake s.pending s
worker_move (accept w) (at_time now) s = some (record s {
  worker = if w.has_message && expired w.reject_expired w.hint now then reject w else run w;
})
worker_move (accept w) throws s =
    if w.has_message && w.reject_expired then some (record s { worker = clean_up w }) else none
worker_move (reject w) goes s = some (record (let_go w s) { worker = park })
worker_move (reject w) throws s =
    if w.has_observer then some (record s { worker = clean_up w }) else none
worker_move (run w) goes s = some (record (let_go w s) { worker = park })
worker_move (run w) throws s = some (record s { worker = clean_up w })
worker_move (clean_up w) goes s =
    some (record (let_go w s) { slot = none; hint_needs_clear = false; worker = fail })
worker_move (clean_up w) throws s = some (record (let_go w s) { worker = fail })
worker_move fail goes s = some (record s {
  worker_error = true;
  worker_ready = true;
  worker_idle = true;
  stop = true;
  worker = notify_failed;
})
worker_move notify_failed goes s = some (record (notify_all s) { worker = cancel })
worker_move cancel goes s = some (record s { spinning = false; worker = exited })
worker_move _ _ s = none

-- `cancels` is `rclcpp::Executor::cancel`, called from anywhere; the last two are spurious wake-ups.
pub data Action : Type 0 where
  dispatches : DispatcherChoice → Action
  works : WorkerChoice → Action
  cancels : Action
  rouses_dispatcher rouses_worker : Action

pub step : State → Action → Option State
unfolding dispatcher_move worker_move
step s (dispatches c) = dispatcher_move s.dispatcher c s
step s (works c) = worker_move s.worker c s
step s cancels = some (record s { spinning = false })
step s rouses_dispatcher = some (record s { dispatcher_asleep = false })
step s rouses_worker = some (record s { worker_asleep = false })

-- The states of one call of `spin`, over all choices and all interleavings.
pub data Reach (job : ℕ) : State → Type 0 where
  started : Reach job (begin job)
  moved : {s t : State} (a : Action) → Reach job s → step s a ≡ some t → Reach job t
