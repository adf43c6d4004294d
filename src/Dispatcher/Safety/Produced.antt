-- ===== src/Dispatcher/Safety/Produced.antt =====
-- demo/dependent_workload.cpp, `main`: how far the loops over `next_imu` and `next_camera` go.
use scx_slam_fresh.Base.{
  ℕ, zero, suc, ◌+◌, ◌*◌, ◌^◌, ◌≤◌, ◌<◌, ◌≡◌, refl, ltb, leb, ◌&&◌, if◌then◌else◌, arith,
  Bool-cases, inl, inr,
}
use scx_slam_fresh.Graph.{Stream, imu, camera}
use scx_slam_fresh.Dispatcher.{ms, Dispatcher, source_of, produce_one, produce}

-- How far the sources are when the loops have run at the time `t`.
abbrev pub reached : ℕ → ℕ → ℕ
reached finish t = if leb finish t then finish else 0

produce_one-next :
    (s : Stream) (d : Dispatcher)
    → (source_of s d).next + 50 * ms < 2 ^ 64
    → (source_of s d).next < (source_of s (produce_one s d)).next
unfolding produce_one
produce_one-next imu d h = omega arith
produce_one-next camera d h = omega arith

-- The fuel lasts until the source's next time is after `t`, or the window is over.
pub produce-far :
    (fuel : ℕ) (s : Stream) (finish t : ℕ) (d : Dispatcher)
    → finish + 50 * ms < 2 ^ 64
    → finish ≤ t
    → t < (source_of s d).next + fuel
    → finish ≤ (source_of s (produce fuel s finish t d)).next
unfolding produce
produce-far zero s finish t d small k h = omega arith
produce-far (suc fuel) s finish t d small k h =
    elim (Bool-cases (ltb (source_of s d).next finish)) [
      | inr a ↦ rw a (ground arith)
      | inl a ↦ elim (Bool-cases (leb (source_of s d).next t)) [
        | inr b ↦ rw (a, b) (ground arith)
        | inl b ↦
            let n : (source_of s d).next < finish = ground arith in
            let m = produce_one-next s d (omega arith) in
            rw (a, b) (produce-far fuel s finish t (produce_one s d) small k (omega arith))
      ]
    ]

-- The loop over one source leaves the other.
pub produce-imu :
    (fuel finish t : ℕ) (d : Dispatcher)
    → (produce fuel camera finish t d).imu_source ≡ d.imu_source
unfolding produce produce_one
produce-imu zero finish t d = refl
produce-imu (suc fuel) finish t d =
    elim (Bool-cases (ltb d.camera_source.next finish && leb d.camera_source.next t)) [
      | inr a ↦ rw a refl
      | inl a ↦ rw a (produce-imu fuel finish t (produce_one camera d))
    ]
