-- ===== src/Workload/Pipeline/Periodic.antt =====
-- ros2/scx_slam_workload/src/slam_pipeline.cpp, `publish_periodic`: what a synthetic sensor offers.
use native.Mathlib.Nat.{div-lt_iff_lt-mul}
use scx_slam_fresh.Base.{
  ◌≡◌, refl, ℕ, zero, suc, ◌+◌, ◌*◌, ◌/◌, ◌≤◌, ◌<◌, List, [], ◌∷◌, Bool, true, length, arith, ◌^◌,
  All, add64, mul64,
}
use scx_slam_fresh.Workload.Bag.{StampedJob}
use scx_slam_fresh.Workload.Pipeline.{periodic_from, publish_periodic}

-- Jobs numbered from `k + 1` on, all released in a window.
abbrev pub Offered : ℕ → ℕ → ℕ → List StampedJob → Type 0
Offered k start end_ns [] = Unit
Offered k start end_ns (j ∷ js) =
    (j.id ≡ k + 1)
    × (start ≤ j.release_ts_ns)
    × (j.release_ts_ns < end_ns)
    × Offered (k + 1) start end_ns js

-- The process is not shut down while the sensor runs.
abbrev pub AllOk : List Bool → Type 0
AllOk = All (λ ok. ok ≡ true)

release_in_window :
    (index rate_hz duration_s : ℕ)
    → 0 < rate_hz
    → index < rate_hz * duration_s
    → index * 1000000000 / rate_hz < duration_s * 1000000000
release_in_window index rate_hz duration_s pos h = (div-lt_iff_lt-mul pos).1 (grind arith)

periodic-Offered :
    (left index rate_hz duration_s start_ns : ℕ) (oks : List Bool)
    → 0 < rate_hz
    → index + left ≡ rate_hz * duration_s
    → rate_hz * duration_s * 1000000000 < 2 ^ 64
    → start_ns + duration_s * 1000000000 < 2 ^ 64
    → left ≤ length oks
    → AllOk oks
    → let js = periodic_from left index rate_hz start_ns oks in
      (length js ≡ left) × Offered index start_ns (start_ns + duration_s * 1000000000) js
unfolding periodic_from
periodic-Offered zero index rate_hz duration_s start_ns oks pos e w t l a = (refl, tt)
periodic-Offered (suc left) index rate_hz duration_s start_ns [] pos e w t l a = ground arith
periodic-Offered (suc left) index rate_hz duration_s start_ns (ok ∷ oks) pos e w t l a =
    let next : add64 index 1 ≡ index + 1 = omega arith in
    let i =
      periodic-Offered left (index + 1) rate_hz duration_s start_ns oks pos (omega arith) w t
        (omega arith) a.1 in
    let window = release_in_window index rate_hz duration_s pos (omega arith) in
    let exact : mul64 index 1000000000 ≡ index * 1000000000 = omega arith in
    let release : add64 start_ns (mul64 index 1000000000 / rate_hz)
        ≡ start_ns + index * 1000000000 / rate_hz =
      rw exact (omega arith) in
    let i0 = i.0 in simp (a.0, next, release) (omega arith, (refl, omega arith, omega arith, i.1))

-- At a rate of at least one, with times that are words and a process that is not shut down, a
-- synthetic sensor publishes exactly its rate times the duration, for any rate: the jobs are
-- numbered from 1 on, and each is released at or after the start and before the end of the run.
pub publish_periodic_offers :
    (rate_hz duration_s start_ns : ℕ) (oks : List Bool)
    → 0 < rate_hz
    → rate_hz * duration_s * 1000000000 < 2 ^ 64
    → start_ns + duration_s * 1000000000 < 2 ^ 64
    → rate_hz * duration_s ≤ length oks
    → AllOk oks
    → let js = publish_periodic rate_hz duration_s start_ns oks in
      (length js ≡ rate_hz * duration_s)
      × Offered 0 start_ns (start_ns + duration_s * 1000000000) js
unfolding publish_periodic
publish_periodic_offers rate_hz duration_s start_ns oks pos w t l a =
    let exact : mul64 rate_hz duration_s ≡ rate_hz * duration_s = omega arith in
    rw exact (
      periodic-Offered (rate_hz * duration_s) 0 rate_hz duration_s start_ns oks pos (omega arith) w
        t l a)
