-- ===== src/Demo/Options/Ranges.antt =====
-- demo/slam_pipeline_demo.cpp: what is known of the options that `main` goes on with.
use scx_slam_fresh.Base.{
  ℕ, ◌-◌, ◌*◌, ◌^◌, ◌<◌, ◌≡◌, Bool, true, false, not, ◌||◌, List, [], ◌∷◌, has_value, ok, arith,
  OnOk, OnOk-bind, OnOk-ok, Within, to_unsigned_range, Text, codes, same_text, ℤ, pos, negsuc,
  strtol, strtoull, Bool-cases, inl, inr,
}
use scx_slam_fresh.Demo.Sensors.{burst_fits}
use scx_slam_fresh.Demo.Options.{
  Options, Stop, Flag, default_options, to_int, atoi, read_us, set_value, set_alone, flag_of,
  takes_value, parse_loop, to_u64, negative, check_options, start_options, vision_cfg,
  lidar_pre_cfg,
}

-- 32 bits.
abbrev pub IsInt : ℤ → Type 0
IsInt = Within (negsuc (2 ^ 31 - 1)) (pos (2 ^ 31 - 1))

abbrev pub IsClass : Text → Type 0
IsClass text = same_text text (codes "fe") || same_text text (codes "be") ≡ true

-- The bounds that the options have at any point of the loop.
pub record InRange (o : Options) : Type 0 where
  pub duration : IsInt o.duration_s
  pub hogs : IsInt o.hog_n
  pub burst_count : IsInt o.camera_burst_count
  pub burst_at : IsInt o.camera_burst_at_ms
  pub imu : o.imu_work_us * 1000 < 2 ^ 64
  pub budget : o.vision_budget_us * 1000 < 2 ^ 64
  pub work : o.vision_work_us < 2 ^ 64
  pub deadline : o.vision_deadline_us * 1000 < 2 ^ 64
  pub lidar : o.lidar_pre_budget_us * 1000 < 2 ^ 64
  pub lidar_class : IsClass o.lidar_pre_class

to_int_range : (v : ℤ) → IsInt (to_int v)
unfolding to_int
to_int_range (pos n) = ground arith
to_int_range (negsuc n) = ground arith

atoi_range : (text : Text) → IsInt (atoi text)
unfolding atoi
atoi_range text = to_int_range (strtol text).value

read_us_range :
    (strict limited : Bool) (e : Stop) (text : Text)
    → OnOk
        (λ n. (n < 2 ^ 64) × (limited ≡ true → n * 1000 < 2 ^ 64))
        (read_us strict limited e text)
unfolding read_us strtoull
read_us_range strict limited e text = ground (arith, to_unsigned_range _ _ text)

set_value-InRange : (f : Flag) (v : Text) (o : Options) → InRange o → OnOk InRange (set_value f v o)
unfolding set_value
set_value-InRange Flag.duration v o r = ground (arith, atoi_range v)
set_value-InRange Flag.hog v o r = ground (arith, atoi_range v)
set_value-InRange Flag.camera_burst_count v o r = ground (arith, atoi_range v)
set_value-InRange Flag.camera_burst_at_ms v o r = ground (arith, atoi_range v)
set_value-InRange Flag.imu_work_us v o r = ground (arith, read_us_range true true _ v)
set_value-InRange Flag.vision_budget_us v o r = ground (arith, read_us_range false false _ v)
set_value-InRange Flag.vision_work_us v o r = ground (arith, read_us_range false false _ v)
set_value-InRange Flag.vision_deadline_us v o r = ground (arith, read_us_range false true _ v)
set_value-InRange Flag.lidar_pre_budget_us v o r = ground (arith, read_us_range true true _ v)
set_value-InRange Flag.lidar_pre_class v o r = ground arith
set_value-InRange f v o r = ground arith

set_alone-InRange : (f : Flag) (o : Options) → InRange o → OnOk InRange (set_alone f o)
unfolding set_alone
set_alone-InRange f o r = ground arith

parse_loop-InRange : (argv : List Text) (o : Options) → InRange o → OnOk InRange (parse_loop argv o)
unfolding parse_loop
parse_loop-InRange [] o r = r
parse_loop-InRange (a ∷ []) o r = set_alone-InRange (flag_of a) o r
parse_loop-InRange (a ∷ v ∷ rest) o r = elim (Bool-cases (takes_value (flag_of a))) [
  | inl e ↦ rw e (
      OnOk-bind InRange InRange (set_value (flag_of a) v o) _ (set_value-InRange (flag_of a) v o r)
        (parse_loop-InRange rest))
  | inr e ↦ rw e (
      OnOk-bind InRange InRange (set_alone (flag_of a) o) _ (set_alone-InRange (flag_of a) o r)
        (parse_loop-InRange (v ∷ rest)))
]

-- What `main` goes on with.
pub record Accepted (o : Options) : Type 0 where
  pub ranges : InRange o
  pub duration : Within (pos 1) (pos (2 ^ 31 - 1)) o.duration_s
  pub hogs : Within (pos 0) (pos (2 ^ 31 - 1)) o.hog_n
  pub burst_count : Within (pos 0) (pos (2 ^ 31 - 1)) o.camera_burst_count
  pub burst_at : Within (pos 0) (pos (2 ^ 31 - 1)) o.camera_burst_at_ms
  pub fits :
      burst_fits (to_u64 o.duration_s) (to_u64 o.camera_burst_count) (to_u64 o.camera_burst_at_ms)
      ≡ true
  pub pinned : has_value o.pin_dir ≡ not o.no_hints
  pub vision :
      (stage class : ℕ)
      → ((vision_cfg stage class o).budget_ns ≡ o.vision_budget_us * 1000)
        × ((vision_cfg stage class o).deadline_rel_ns ≡ o.vision_deadline_us * 1000)
  pub lidar :
      (stage deadline background : ℕ)
      → (lidar_pre_cfg stage deadline background o).budget_ns ≡ o.lidar_pre_budget_us * 1000
  pub policy : o.no_hints ≡ true → negative o.ext_policy ≡ true

check_options-Accepted : (o : Options) → InRange o → OnOk Accepted (check_options o)
unfolding check_options vision_cfg lidar_pre_cfg
check_options-Accepted o r = ground arith

start_options-Accepted : (argv : List Text) → OnOk Accepted (start_options argv)
unfolding start_options
start_options-Accepted argv =
    OnOk-bind InRange Accepted (parse_loop argv default_options) _
      (parse_loop-InRange argv default_options (ground arith)) check_options-Accepted

-- A command line that `main` does not refuse, whatever it holds: the duration is positive, the number
-- of hogs and the burst's size and time are not negative, and all four are `int`s; the burst passes
-- the check that it lies between start and end; the IMU's work and the two budgets and the deadline
-- of the configurations fit in nanoseconds, so the configurations' products do not wrap around; the
-- vision work is a 64-bit word; the class is "fe" or "be"; and there is a pin directory or
-- `--no-hints`, never both, nor `--no-hints` with a policy.
pub demo_options_in_range :
    (argv : List Text) {o : Options} → start_options argv ≡ ok o → Accepted o
demo_options_in_range argv e = OnOk-ok Accepted _ (start_options-Accepted argv) e
