-- ===== src/Demo/Options.antt =====
-- demo/slam_pipeline_demo.cpp: the command line of `main`, with its checks. The usage and the messages
-- are left out; `help` returns 0, every other `Stop` returns 1.
pub mod Ranges
mod Tests
use scx_slam_fresh.Base.{
  ℕ, ◌-◌, ◌%◌, ◌^◌, ◌/◌, Bool, true, false, not, ◌&&◌, ◌||◌, List, [], ◌∷◌, Option, none, some,
  has_value, ltb, ◌==◌, if◌then◌else◌, empty, mul64, Result, ok, err, ◌>>=◌, ◌>>◌, throw_if, Text,
  codes, same_text, is_digit, ℤ, pos, negsuc, less, strtol, strtoull,
}
use scx_slam_fresh.Demo.{StageCfg}
use scx_slam_fresh.Demo.Sensors.{burst_fits}

pub record Options : Type 0 where
  pub pin_dir : Option Text
  pub no_hints : Bool
  pub window_stats : Bool
  pub ext_policy : ℤ
  pub duration_s : ℤ
  pub lidar_mode : Text
  pub drop_stale : Bool
  pub hog_n : ℤ
  pub imu_work_us : ℕ
  pub camera_burst_count : ℤ
  pub camera_burst_at_ms : ℤ
  pub vision_budget_us : ℕ
  pub vision_work_us : ℕ
  pub vision_deadline_us : ℕ
  pub lidar_pre_budget_us : ℕ
  pub lidar_pre_class : Text

abbrev pub default_options : Options
default_options = record {
  pin_dir = none;
  no_hints = false;
  window_stats = false;
  ext_policy = negsuc 0;
  duration_s = pos 10;
  lidar_mode = codes "off";
  drop_stale = false;
  hog_n = pos 1;
  imu_work_us = 150;
  camera_burst_count = pos 0;
  camera_burst_at_ms = pos 3000;
  vision_budget_us = 12000;
  vision_work_us = 0;
  vision_deadline_us = 33000;
  lidar_pre_budget_us = 10000;
  lidar_pre_class = codes "fe";
}

pub data Stop : Type 0 where
  help usage imu_work vision_budget vision_budget_size vision_work vision_deadline : Stop
  lidar_budget lidar_class negative_option burst_outside : Stop

-- The branches of the loop over `argv`.
pub data Flag : Type 0 where
  pin no_hints window_stats ext_policy duration lidar drop_stale hog imu_work_us : Flag
  camera_burst_count camera_burst_at_ms vision_budget_us vision_work_us : Flag
  vision_deadline_us lidar_pre_budget_us lidar_pre_class help_flag unknown : Flag

unfoldable pub flag_of : Text → Flag
flag_of a =
    if same_text a (codes "--pin")
    then Flag.pin
    else if same_text a (codes "--no-hints")
    then Flag.no_hints
    else if same_text a (codes "--window-stats")
    then Flag.window_stats
    else if same_text a (codes "--ext-policy")
    then Flag.ext_policy
    else if same_text a (codes "--duration")
    then Flag.duration
    else if same_text a (codes "--lidar")
    then Flag.lidar
    else if same_text a (codes "--drop-stale")
    then Flag.drop_stale
    else if same_text a (codes "--hog")
    then Flag.hog
    else if same_text a (codes "--imu-work-us")
    then Flag.imu_work_us
    else if same_text a (codes "--camera-burst-count")
    then Flag.camera_burst_count
    else if same_text a (codes "--camera-burst-at-ms")
    then Flag.camera_burst_at_ms
    else if same_text a (codes "--vision-budget-us")
    then Flag.vision_budget_us
    else if same_text a (codes "--vision-work-us")
    then Flag.vision_work_us
    else if same_text a (codes "--vision-deadline-us")
    then Flag.vision_deadline_us
    else if same_text a (codes "--lidar-pre-budget-us")
    then Flag.lidar_pre_budget_us
    else if same_text a (codes "--lidar-pre-class")
    then Flag.lidar_pre_class
    else if same_text a (codes "-h") || same_text a (codes "--help")
    then Flag.help_flag
    else Flag.unknown

-- A `long` as an `int` of 32 bits.
abbrev pub wrap_int : ℕ → ℤ
wrap_int n = if ltb n (2 ^ 31) then pos n else negsuc (2 ^ 32 - 1 - n)

unfoldable pub to_int : ℤ → ℤ
to_int (pos n) = wrap_int (n % 2 ^ 32)
to_int (negsuc n) = wrap_int (2 ^ 32 - 1 - n % 2 ^ 32)

-- `atoi` is `(int) strtol`.
unfoldable pub atoi : Text → ℤ
unfolding strtol to_int
atoi text = to_int (strtol text).value

-- `UINT64_MAX / 1'000ULL`
abbrev pub most_us : ℕ
most_us = (2 ^ 64 - 1) / 1000

-- `strspn(arg, "0123456789") == strlen(arg)`
abbrev pub all_digits : Text → Bool
all_digits [] = true
all_digits (c ∷ s) = is_digit c && all_digits s

-- `errno || !end || *end != '\0'`, and what else is refused of the text and the value.
unfoldable pub read_us : Bool → Bool → Stop → Text → Result Stop ℕ
unfolding strtoull
read_us strict limited e text =
    let r = strtoull text in
    do
      throw_if
          (strict && (empty text || not (all_digits text))
            || (r.out_of_range || (not (empty r.stop) || limited && ltb most_us r.value)))
          e
      ok r.value

abbrev pub is_zero : ℤ → Bool
is_zero (pos n) = n == 0
is_zero (negsuc n) = false

-- A branch that consumes the next argument.
unfoldable pub set_value : Flag → Text → Options → Result Stop Options
unfolding read_us atoi
set_value Flag.pin v o = ok (record o { pin_dir = some v })
set_value Flag.ext_policy v o = ok (record o { ext_policy = atoi v })
set_value Flag.duration v o = ok (record o { duration_s = atoi v })
set_value Flag.lidar v o = ok (record o { lidar_mode = v })
set_value Flag.drop_stale v o = ok (record o { drop_stale = not (is_zero (atoi v)) })
set_value Flag.hog v o = ok (record o { hog_n = atoi v })
set_value Flag.imu_work_us v o = do
  n ← read_us true true imu_work v
  ok (record o { imu_work_us = n })
set_value Flag.camera_burst_count v o = ok (record o { camera_burst_count = atoi v })
set_value Flag.camera_burst_at_ms v o = ok (record o { camera_burst_at_ms = atoi v })
set_value Flag.vision_budget_us v o = do
  n ← read_us false false vision_budget v
  throw_if (ltb most_us n) vision_budget_size
  ok (record o { vision_budget_us = n })
set_value Flag.vision_work_us v o = do
  n ← read_us false false vision_work v
  ok (record o { vision_work_us = n })
set_value Flag.vision_deadline_us v o = do
  n ← read_us false true vision_deadline v
  ok (record o { vision_deadline_us = n })
set_value Flag.lidar_pre_budget_us v o = do
  n ← read_us true true lidar_budget v
  ok (record o { lidar_pre_budget_us = n })
set_value Flag.lidar_pre_class v o = do
  throw_if (not (same_text v (codes "fe")) && not (same_text v (codes "be"))) lidar_class
  ok (record o { lidar_pre_class = v })
set_value _ v o = ok o

-- A branch that consumes nothing more; an option without its value is in the last one.
unfoldable pub set_alone : Flag → Options → Result Stop Options
set_alone Flag.no_hints o = ok (record o { no_hints = true })
set_alone Flag.window_stats o = ok (record o { window_stats = true })
set_alone Flag.help_flag o = err help
set_alone _ o = err usage

abbrev pub takes_value : Flag → Bool
takes_value Flag.no_hints = false
takes_value Flag.window_stats = false
takes_value Flag.help_flag = false
takes_value Flag.unknown = false
takes_value _ = true

unfoldable pub parse_loop : List Text → Options → Result Stop Options
unfolding set_value set_alone flag_of
parse_loop [] o = ok o
parse_loop (a ∷ []) o = set_alone (flag_of a) o
parse_loop (a ∷ v ∷ rest) o =
    let with_value = set_value (flag_of a) v o >>= parse_loop rest in
    let alone = set_alone (flag_of a) o >>= parse_loop (v ∷ rest) in
    if takes_value (flag_of a) then with_value else alone

-- `(uint64_t)` of an `int`.
abbrev pub to_u64 : ℤ → ℕ
to_u64 (pos n) = n % 2 ^ 64
to_u64 (negsuc n) = 2 ^ 64 - 1 - n % 2 ^ 64

abbrev pub negative : ℤ → Bool
negative v = less v (pos 0)

-- The checks behind the loop.
unfoldable pub check_options : Options → Result Stop Options
check_options o = do
  throw_if
      (not (has_value o.pin_dir) && not o.no_hints
        || (has_value o.pin_dir && o.no_hints || o.no_hints && not (negative o.ext_policy)))
      usage
  throw_if
      (less o.duration_s (pos 1)
        || (negative o.hog_n || (negative o.camera_burst_count || negative o.camera_burst_at_ms)))
      negative_option
  throw_if
      (not (
        burst_fits (to_u64 o.duration_s) (to_u64 o.camera_burst_count)
          (to_u64 o.camera_burst_at_ms)))
      burst_outside
  ok o

unfoldable pub start_options : List Text → Result Stop Options
unfolding parse_loop check_options
start_options argv = do o ← parse_loop argv default_options; check_options o

-- `cfg_vis` and `cfg_lpre`; the stages and the classes are numbers of scx_fresh_shared.h.
unfoldable pub vision_cfg : ℕ → ℕ → Options → StageCfg
vision_cfg stage class o = record {
  stage_id = stage;
  class_id = class;
  deadline_rel_ns = mul64 o.vision_deadline_us 1000;
  stale_ns = 66000000;
  budget_ns = mul64 o.vision_budget_us 1000;
  slice_ns = 0;
  weight = 0;
}

unfoldable pub lidar_pre_cfg : ℕ → ℕ → ℕ → Options → StageCfg
lidar_pre_cfg stage deadline background o = record {
  stage_id = stage;
  class_id = if same_text o.lidar_pre_class (codes "fe") then deadline else background;
  deadline_rel_ns = 100000000;
  stale_ns = 150000000;
  budget_ns = mul64 o.lidar_pre_budget_us 1000;
  slice_ns = 0;
  weight = 0;
}
