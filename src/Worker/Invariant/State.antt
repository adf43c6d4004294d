-- ===== src/Worker/Invariant/State.antt =====
-- demo/dependent_workload.cpp, `Worker`: what holds of it between any two calls and moves.
use scx_slam_fresh.Base.{◌≡◌, ℕ, ◌+◌, ◌≤◌, Bool, true, false, Option, some, none, has_value, length}
use scx_slam_fresh.Worker.{Worker, Job}

-- The jobs that are somewhere between `dispatch` and `collect`.
abbrev pub holds {ℓ} : {A : Type ℓ} → Option A → ℕ
holds none = 0
holds (some a) = 1

abbrev pub flag : Bool → ℕ
flag true = 1
flag false = 0

-- After `n` actions.
pub record Inv (n : ℕ) (w : Worker) : Type 0 where
  pub one_job : w.error ≡ false → holds w.slot + holds w.running + holds w.result ≡ flag w.busy
  pub at_most : holds w.slot + holds w.running + holds w.result ≤ flag w.busy
  pub conserved : w.offered ≡ w.dropped + w.completed + length w.queue + flag w.busy
  pub short : length w.queue ≤ 32
  pub few : w.offered ≤ n
  pub late_completed : w.late ≤ w.completed
  pub all_completed : length w.completions ≡ w.completed
  pub slot_hinted :
      (j : Job) → w.qos ≡ true → w.exited ≡ false → w.slot ≡ some j → w.hint ≡ some j.id
  pub running_inside : has_value w.running ≡ true → w.exited ≡ false
  pub running_hinted : (j : Job) → w.qos ≡ true → w.running ≡ some j → w.hint ≡ some j.id
