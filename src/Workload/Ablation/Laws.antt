-- ===== src/Workload/Ablation/Laws.antt =====
-- ros2/scx_slam_workload: what the projection of hints keeps, and what the window of the hog counts.
use scx_slam_fresh.Base.{
  [], ◌∷◌, inl, inr, ◌==◌, suc, ◌<◌, ◌+◌, ◌&&◌, if◌then◌else◌, List, ℕ, All, leb, ◌≡◌, ◌≤◌,
  Bool-cases, arith, length, ltb, All-imp, refl, ◌^◌, ◌≢◌,
}
use scx_slam_fresh.Workload.Ablation.{
  lower_bound, project_hint, window_iterations, background_hint, Mode, stage_imu_preint,
}
use scx_slam_fresh.Executor.Hint.{FreshAbi, Hint}

-- A projection never touches the job's identity, its release or its flags; it is done once and for
-- all; and in a mode that names one side, the hints of the other side lose their application stage:
-- with only the IMU's hints, all others are in the background with no deadline, age or budget; with
-- only the front end's, the IMU's are in the deadline class with their times kept.
pub project_hint_withholds :
    (abi : FreshAbi) (h : Hint) (m : Mode)
    → let p = project_hint abi h m in
      (p.job_id ≡ h.job_id)
      × (p.release_ts_ns ≡ h.release_ts_ns)
      × (p.flags ≡ h.flags)
      × (project_hint abi p m ≡ p)
      × (m ≡ Mode.imu_only
          → p.stage_id ≢ stage_imu_preint
          → (p.class_id ≡ abi.class_background)
            × (p.deadline_ts_ns ≡ 0)
            × (p.stale_ns ≡ 0)
            × (p.budget_ns ≡ 0))
      × (m ≡ Mode.fe_only
          → (p.stage_id ≢ stage_imu_preint)
            × (p.deadline_ts_ns ≡ h.deadline_ts_ns)
            × (p.stale_ns ≡ h.stale_ns))
unfolding project_hint background_hint
project_hint_withholds abi h Mode.full =
    (refl, refl, refl, refl, (λ q. ground arith), (λ q. ground arith))
project_hint_withholds abi h Mode.imu_only = elim (Bool-cases (h.stage_id == stage_imu_preint)) [
  | inl k ↦ simp k (refl, refl, refl, refl, (λ q n. ground arith), (λ q. ground arith))
  | inr k ↦ simp k (refl, refl, refl, refl, (λ q n. (refl, refl, refl, refl)), (λ q. ground arith))
]
project_hint_withholds abi h Mode.fe_only = elim (Bool-cases (h.stage_id == stage_imu_preint)) [
  | inl k ↦
      simp k
        (refl, refl, refl, refl, (λ q n. ground arith), (λ q. ((λ z. ground arith), refl, refl)))
  | inr k ↦
      simp k
        (refl, refl, refl, refl, (λ q n. ground arith), (λ q. ((λ z. ground arith), refl, refl)))
]

abbrev pub NoLess : ℕ → List ℕ → Type 0
NoLess t = All (λ c. t ≤ c)

-- `std::lower_bound` wants its range in order.
abbrev pub Ascending : List ℕ → Type 0
Ascending [] = Unit
Ascending (c ∷ cs) = NoLess c cs × Ascending cs

unfoldable pub count_within : ℕ → ℕ → List ℕ → ℕ
count_within start end_ns [] = 0
count_within start end_ns (c ∷ cs) =
    let rest = count_within start end_ns cs in
    if leb start c && ltb c end_ns then suc rest else rest

lower_bound-none : (v : ℕ) (cs : List ℕ) → NoLess v cs → lower_bound cs v ≡ 0
unfolding lower_bound
lower_bound-none v [] h = refl
lower_bound-none v (c ∷ cs) h = let g = h.0 in ground arith

lower_bound-le : (v : ℕ) (cs : List ℕ) → lower_bound cs v ≤ length cs
unfolding lower_bound
lower_bound-le v [] = omega arith
lower_bound-le v (c ∷ cs) = let i = lower_bound-le v cs in ground arith

split_count :
    (start end_ns : ℕ) (cs : List ℕ)
    → start ≤ end_ns
    → Ascending cs
    → lower_bound cs start + count_within start end_ns cs ≡ lower_bound cs end_ns
unfolding lower_bound count_within
split_count start end_ns [] h a = refl
split_count start end_ns (c ∷ cs) h a =
    let i = split_count start end_ns cs h a.1 in
    elim (Bool-cases (ltb c start)) [
      | inl k ↦ ground arith
      | inr k ↦
          let none_before = lower_bound-none start cs (All-imp (λ x g. ground arith) cs a.0) in
          elim (Bool-cases (ltb c end_ns)) [
            | inl e ↦ ground arith
            | inr e ↦
                let none_at = lower_bound-none end_ns cs (All-imp (λ x g. ground arith) cs a.0) in
                ground arith
          ]
    ]

-- For completions in order, fewer than 2 ^ 64, and a window that does not end before it starts, the
-- result is the number of completions that are at or after its start and before its end.
pub window_iterations_counts :
    (completions : List ℕ) (start end_ns : ℕ)
    → Ascending completions
    → start ≤ end_ns
    → length completions < 2 ^ 64
    → window_iterations completions start end_ns ≡ count_within start end_ns completions
unfolding window_iterations
window_iterations_counts completions start end_ns a h small =
    let s = split_count start end_ns completions h a in
    let l = lower_bound-le end_ns completions in omega arith
