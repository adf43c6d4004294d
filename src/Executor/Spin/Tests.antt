-- ===== src/Executor/Spin/Tests.antt =====
-- ros2/scx_slam_executor/src/freshness_executor.cpp, `spin`: runs of the two threads.
use scx_slam_fresh.Base.{
  ℕ, ◌≡◌, refl, ◌≤◌, ◌<◌, true, false, List, [], ◌∷◌, Option, none, some, value_or, length,
}
use scx_slam_fresh.Executor.Spin.{
  Action, Binding, Executable, Reach, State, Work, step, MessageKind, WorkerPc, begin, cancels,
  dispatches, moved, started, works, DispatcherChoice, DispatcherPc, WorkerChoice,
}
use scx_slam_fresh.Executor.Hint.{CallbackProfile, MessageMetadata, make_hint, expired}
use scx_slam_fresh.Executor.Spin.Progress.{Enabled, no_deadlock, closing, rank, shutdown_shrinks}
use scx_slam_fresh.Executor.Spin.Ownership.{groups, borrowed, selecting}
use scx_slam_fresh.Executor.Spin.Safety.{
  callback_keeps_its_hint, in_flight, owners, one_in_flight, returned_clean,
  selection_needs_parked_worker,
}

-- Make each move of a list, and skip the moves that cannot be made.
drive : State → List Action → State
drive s [] = s
drive s (a ∷ acts) = drive (value_or (step s a) s) acts

drive_one :
    {job : ℕ} (s : State) (a : Action) (o : Option State)
    → step s a ≡ o
    → Reach job s
    → Reach job (value_or o s)
drive_one s a none e r = r
drive_one s a (some t) e r = moved a r e

drive-Reach : {job : ℕ} (s : State) (acts : List Action) → Reach job s → Reach job (drive s acts)
unfolding drive
drive-Reach s [] r = r
drive-Reach s (a ∷ acts) r =
    drive-Reach (value_or (step s a) s) acts (drive_one s a (step s a) refl r)

abbrev imu_profile : CallbackProfile
imu_profile = record {
  stage_id = 0;
  class_id = 2;
  relative_deadline_ns = 5000000;
  stale_ns = 10000000;
  budget_ns = 1000000;
  slice_ns = 0;
  weight = 0;
  reject_expired = true;
}

abbrev imu_binding : Binding
imu_binding = record { profile = imu_profile; has_extractor = true; has_observer = true }

abbrev imu_executable : Executable
imu_executable = record { group = some 7; subscription = some MessageKind.ros_message }

abbrev first_job : MessageMetadata
first_job = record { job_id = 1; release_ts_ns = 1000 }

abbrev go : Action
go = dispatches DispatcherChoice.goes

abbrev work : Action
work = works WorkerChoice.goes

abbrev startup : List Action
startup = work ∷ work ∷ work ∷ go ∷ dispatches (DispatcherChoice.context_ok true) ∷ go ∷ []

abbrev taking : List Action
taking =
    dispatches (DispatcherChoice.selects imu_executable imu_binding)
    ∷ dispatches (DispatcherChoice.at_time 0)
    ∷ dispatches (DispatcherChoice.takes first_job)
    ∷ go
    ∷ dispatches (DispatcherChoice.at_time 2000)
    ∷ []

abbrev handing_over : List Action
handing_over = go ∷ go ∷ go ∷ work ∷ works (WorkerChoice.at_time 3000) ∷ []

abbrev finishing : List Action
finishing =
    cancels
    ∷ dispatches (DispatcherChoice.context_ok true)
    ∷ go
    ∷ work
    ∷ work
    ∷ go
    ∷ go
    ∷ work
    ∷ go
    ∷ []

abbrev first_work : Work
first_work = record {
  executable = imu_executable;
  hint = (make_hint imu_profile (some first_job) 0 1).0;
  has_message = true;
  has_observer = true;
  reject_expired = true;
}

selected_state : State
unfolding drive step begin
selected_state = drive (drive (begin 1) startup) taking

selected_Reach : Reach 1 selected_state
unfolding selected_state
selected_Reach = drive-Reach _ taking (drive-Reach _ startup started)

running_state : State
unfolding drive selected_state
running_state = drive selected_state handing_over

running_Reach : Reach 1 running_state
unfolding running_state
running_Reach = drive-Reach _ handing_over selected_Reach

final_state : State
unfolding drive running_state
final_state = drive running_state finishing

final_Reach : Reach 1 final_state
unfolding final_state
final_Reach = drive-Reach _ finishing running_Reach

selected_publishes : selected_state.dispatcher ≡ DispatcherPc.publish first_work
unfolding selected_state make_hint expired
selected_publishes = refl

running_runs : running_state.worker ≡ WorkerPc.run first_work
unfolding running_state make_hint expired
running_runs = refl

final_returned : final_state.dispatcher ≡ DispatcherPc.returned
unfolding final_state make_hint expired
final_returned = refl

callback_keeps_its_hint_example :
    (running_state.slot ≡ some first_work.hint)
    × (running_state.pending ≡ none)
    × (selecting running_state.dispatcher ≡ false)
callback_keeps_its_hint_example = callback_keeps_its_hint first_work running_Reach running_runs

selection_needs_parked_worker_example :
    (selecting selected_state.dispatcher ≡ true
      → (selected_state.worker ≡ WorkerPc.parked) × (selected_state.pending ≡ none))
    × ((w : Work)
        → selected_state.pending ≡ some w
        → (selected_state.slot ≡ some w.hint) × (selected_state.worker ≡ WorkerPc.parked))
selection_needs_parked_worker_example = selection_needs_parked_worker selected_Reach

one_in_flight_example :
    (length running_state.taken ≤ 1)
    × (running_state.loans ≤ 1)
    × (running_state.taken ≡ groups (in_flight running_state))
    × (running_state.loans ≡ borrowed (in_flight running_state))
    × (owners running_state ≤ 1)
one_in_flight_example = one_in_flight running_Reach

returned_clean_example :
    (final_state.worker ≡ WorkerPc.exited)
    × (final_state.pending ≡ none)
    × (final_state.taken ≡ [])
    × (final_state.loans ≡ 0)
    × (final_state.stop ≡ true)
    × (final_state.dispatch_error ≡ false → final_state.slot ≡ none)
returned_clean_example = returned_clean final_Reach final_returned

running_loops : running_state.dispatcher ≡ DispatcherPc.check_loop
unfolding running_state make_hint expired
running_loops = refl

no_deadlock_example : Enabled running_state
no_deadlock_example = no_deadlock running_Reach (λ q. cc running_loops)

closing_state : State
unfolding drive running_state
closing_state = drive running_state (cancels ∷ dispatches (DispatcherChoice.context_ok true) ∷ [])

closing_Reach : Reach 1 closing_state
unfolding closing_state
closing_Reach =
    drive-Reach _ (cancels ∷ dispatches (DispatcherChoice.context_ok true) ∷ []) running_Reach

closing_closes : closing closing_state.dispatcher ≡ true
unfolding closing_state make_hint expired
closing_closes = refl

shutdown_shrinks_example :
    let t = record closing_state { spinning = false; dispatcher = DispatcherPc.drain } in
    (closing t.dispatcher ≡ true) × (rank t < rank closing_state) × (rank closing_state ≤ 17)
unfolding closing_state make_hint expired step
shutdown_shrinks_example =
    shutdown_shrinks
      {t = record closing_state { spinning = false; dispatcher = DispatcherPc.drain }} go
      closing_Reach closing_closes refl refl
