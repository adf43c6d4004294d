-- ===== src/Executor/Hint.antt =====
-- ros2/scx_slam_executor, include/scx_slam_executor/freshness_executor.hpp and
-- src/freshness_executor.cpp: callback profiles, and the hints that are made of them.
pub mod Laws
mod Tests
use scx_slam_fresh.Base.{
  ℕ, ◌+◌, ◌-◌, Bool, true, false, not, ◌&&◌, ◌||◌, Option, none, some, ltb, ◌==◌, if◌then◌else◌,
  u64, u64_max, sub64,
}

-- The constants of scx_fresh_shared.h, which the scheduler's repository owns.
pub record FreshAbi : Type 0 where
  pub stage_unspecified : ℕ
  pub class_background : ℕ
  pub class_deadline : ℕ
  pub class_urgent : ℕ

pub record CallbackProfile : Type 0 where
  pub stage_id : ℕ
  pub class_id : ℕ
  pub relative_deadline_ns : ℕ
  pub stale_ns : ℕ
  pub budget_ns : ℕ
  pub slice_ns : ℕ
  pub weight : ℕ
  pub reject_expired : Bool

pub record MessageMetadata : Type 0 where
  pub job_id : ℕ
  pub release_ts_ns : ℕ

-- `fresh_task_hint`, with the fields that this repository reads or writes.
pub record Hint : Type 0 where
  pub stage_id : ℕ
  pub class_id : ℕ
  pub job_id : ℕ
  pub release_ts_ns : ℕ
  pub deadline_ts_ns : ℕ
  pub stale_ns : ℕ
  pub budget_ns : ℕ
  pub slice_ns : ℕ
  pub weight : ℕ
  pub flags : ℕ

unfoldable pub default_profile : FreshAbi → CallbackProfile
default_profile abi = record {
  stage_id = abi.stage_unspecified;
  class_id = abi.class_background;
  relative_deadline_ns = 0;
  stale_ns = 0;
  budget_ns = 0;
  slice_ns = 0;
  weight = 0;
  reject_expired = false;
}

unfoldable pub add_saturating : ℕ → ℕ → ℕ
add_saturating lhs rhs = if ltb (u64_max - lhs) rhs then u64_max else u64 (lhs + rhs)

unfoldable pub clear_hint : FreshAbi → Hint
clear_hint abi = record {
  stage_id = abi.stage_unspecified;
  class_id = abi.class_background;
  job_id = 0;
  release_ts_ns = 0;
  deadline_ts_ns = 0;
  stale_ns = 0;
  budget_ns = 0;
  slice_ns = 0;
  weight = 0;
  flags = 0;
}

abbrev pub hint_of : CallbackProfile → ℕ → ℕ → Hint
hint_of p job release = record {
  stage_id = p.stage_id;
  class_id = p.class_id;
  job_id = job;
  release_ts_ns = release;
  deadline_ts_ns =
      if p.relative_deadline_ns == 0 then 0 else add_saturating release p.relative_deadline_ns;
  stale_ns = p.stale_ns;
  budget_ns = p.budget_ns;
  slice_ns = p.slice_ns;
  weight = p.weight;
  flags = 0;
}

-- The hint, and the next value of `next_job_id`. The clock is read only without metadata.
unfoldable pub make_hint : CallbackProfile → Option MessageMetadata → ℕ → ℕ → Hint × ℕ
unfolding add_saturating
make_hint p (some m) now next_job_id = (hint_of p m.job_id m.release_ts_ns, next_job_id)
make_hint p none now next_job_id = (hint_of p next_job_id now, u64 (next_job_id + 1))

-- `Impl::expired`, on the parts of the work that it reads.
unfoldable pub expired : Bool → Hint → ℕ → Bool
expired reject_expired h now =
    if not reject_expired
    then false
    else (not (h.deadline_ts_ns == 0) && ltb h.deadline_ts_ns now)
      || (not (h.stale_ns == 0)
          && (ltb h.release_ts_ns now && ltb h.stale_ns (sub64 now h.release_ts_ns)))
