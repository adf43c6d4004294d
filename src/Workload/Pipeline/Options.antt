-- ===== src/Workload/Pipeline/Options.antt =====
-- ros2/scx_slam_workload/src/slam_pipeline.cpp: the command line, `parse_options` and the check of
-- the hint mode in `main`. The messages of the exceptions are left out.
pub mod Ranges
pub mod Numbers
pub mod RoundTrip
mod Tests
use scx_slam_fresh.Base.{
  ℕ, Bool, true, false, not, ◌&&◌, ◌||◌, List, [], ◌∷◌, Option, ◌==◌, if◌then◌else◌, empty, Result,
  ok, err, ◌>>=◌, ◌>>◌, throw_if, Text, codes, same_text, ℤ, pos, negsuc, less, strtol, strtoull,
}

-- The strings that `hint_mode` can hold.
pub data HintMode : Type 0 where
  auto full none imu_only fe_only : HintMode

pub data InputMode : Type 0 where
  synthetic external : InputMode

pub record Options : Type 0 where
  pub duration_s : ℤ
  pub warmup_s : ℤ
  pub worker_cpu : ℤ
  pub ext_policy : ℤ
  pub hog_threads : ℤ
  pub window_stats : Bool
  pub source_start_ns : ℕ
  pub pin_dir : Text
  pub hint_mode : HintMode
  pub input_mode : InputMode

abbrev pub default_options : Options
default_options = record {
  duration_s = pos 3;
  warmup_s = pos 0;
  worker_cpu = negsuc 0;
  ext_policy = negsuc 0;
  hog_threads = pos 0;
  window_stats = false;
  source_start_ns = 0;
  pin_dir = [];
  hint_mode = HintMode.auto;
  input_mode = InputMode.synthetic;
}

-- The ways in which parsing ends early; `help` is `std::exit(0)`.
pub data Stop : Type 0 where
  help invalid_value missing_value out_of_range bad_mode bad_input unknown_argument : Stop
  missing_source_start missing_pin : Stop

unfoldable pub parse_integer : Text → Result Stop ℤ
unfolding strtol
parse_integer text =
    let r = strtol text in
    do
      throw_if
          (r.out_of_range
            || (not (empty r.stop) || (less r.value (negsuc 0) || less (pos 86400) r.value)))
          invalid_value
      ok r.value

abbrev pub begins_with : ℕ → Text → Bool
begins_with c [] = false
begins_with c (d ∷ s) = d == c

unfoldable pub parse_u64 : Text → Result Stop ℕ
unfolding strtoull
parse_u64 text =
    let r = strtoull text in
    do
      throw_if (r.out_of_range || (not (empty r.stop) || (begins_with b'-' text || r.value == 0)))
          invalid_value
      ok r.value

-- The branches of the loop over `argv`.
pub data Flag : Type 0 where
  duration warmup worker_cpu ext_policy hog window_stats source_start_ns pin hint_mode : Flag
  input help_flag ignored unknown : Flag

-- `argument.rfind("__", 0) == 0`.
abbrev pub has_dunder : Text → Bool
has_dunder [] = false
has_dunder (a ∷ []) = false
has_dunder (a ∷ b ∷ s) = a == b'_' && b == b'_'

unfoldable pub flag_of : Text → Flag
flag_of argument =
    if same_text argument (codes "--duration")
    then Flag.duration
    else if same_text argument (codes "--warmup")
    then Flag.warmup
    else if same_text argument (codes "--worker-cpu")
    then Flag.worker_cpu
    else if same_text argument (codes "--ext-policy")
    then Flag.ext_policy
    else if same_text argument (codes "--hog")
    then Flag.hog
    else if same_text argument (codes "--window-stats")
    then Flag.window_stats
    else if same_text argument (codes "--source-start-ns")
    then Flag.source_start_ns
    else if same_text argument (codes "--pin")
    then Flag.pin
    else if same_text argument (codes "--hint-mode")
    then Flag.hint_mode
    else if same_text argument (codes "--input")
    then Flag.input
    else if same_text argument (codes "--help")
    then Flag.help_flag
    else if same_text argument (codes "--ros-args") || has_dunder argument
    then Flag.ignored
    else Flag.unknown

unfoldable pub mode_of : Text → Result Stop HintMode
mode_of text =
    if same_text text (codes "full")
    then ok HintMode.full
    else if same_text text (codes "none")
    then ok HintMode.none
    else if same_text text (codes "imu-only")
    then ok HintMode.imu_only
    else if same_text text (codes "fe-only")
    then ok HintMode.fe_only
    else err bad_mode

unfoldable pub input_of : Text → Result Stop InputMode
input_of text =
    if same_text text (codes "synthetic")
    then ok InputMode.synthetic
    else if same_text text (codes "external")
    then ok InputMode.external
    else err bad_input

abbrev pub takes_value : Flag → Bool
takes_value Flag.window_stats = false
takes_value Flag.help_flag = false
takes_value Flag.ignored = false
takes_value Flag.unknown = false
takes_value _ = true

-- `int` of at least `low`.
abbrev pub bounded : ℤ → Text → Result Stop ℤ
bounded low text = do v ← parse_integer text; throw_if (less v low) out_of_range; ok v

-- A branch that consumes the next argument.
unfoldable pub set_value : Flag → Text → Options → Result Stop Options
unfolding mode_of input_of
set_value Flag.duration v o = do n ← bounded (pos 1) v; ok (record o { duration_s = n })
set_value Flag.warmup v o = do n ← bounded (pos 0) v; ok (record o { warmup_s = n })
set_value Flag.worker_cpu v o = do n ← parse_integer v; ok (record o { worker_cpu = n })
set_value Flag.ext_policy v o = do n ← parse_integer v; ok (record o { ext_policy = n })
set_value Flag.hog v o = do n ← bounded (pos 0) v; ok (record o { hog_threads = n })
set_value Flag.source_start_ns v o = do n ← parse_u64 v; ok (record o { source_start_ns = n })
set_value Flag.pin v o = ok (record o { pin_dir = v })
set_value Flag.hint_mode v o = do mode ← mode_of v; ok (record o { hint_mode = mode })
set_value Flag.input v o = do mode ← input_of v; ok (record o { input_mode = mode })
set_value _ v o = ok o

-- A branch that consumes nothing more, or finds no value.
unfoldable pub set_alone : Flag → Options → Result Stop Options
set_alone Flag.window_stats o = ok (record o { window_stats = true })
set_alone Flag.help_flag o = err help
set_alone Flag.ignored o = ok o
set_alone Flag.unknown o = err unknown_argument
set_alone _ o = err missing_value

unfoldable pub parse_loop : List Text → Options → Result Stop Options
unfolding set_value set_alone flag_of
parse_loop [] o = ok o
parse_loop (argument ∷ []) o = set_alone (flag_of argument) o
parse_loop (argument ∷ v ∷ rest) o =
    let with_value = set_value (flag_of argument) v o >>= parse_loop rest in
    let alone = set_alone (flag_of argument) o >>= parse_loop (v ∷ rest) in
    if takes_value (flag_of argument) then with_value else alone

abbrev pub is_external : InputMode → Bool
is_external InputMode.synthetic = false
is_external InputMode.external = true

unfoldable pub parse_options : List Text → Result Stop Options
unfolding parse_loop
parse_options argv = do
  o ← parse_loop argv default_options
  throw_if (is_external o.input_mode && o.source_start_ns == 0) missing_source_start
  ok o

unfoldable pub effective_hint_mode : HintMode → Bool → HintMode
effective_hint_mode HintMode.auto no_pin = if no_pin then HintMode.none else HintMode.full
effective_hint_mode mode no_pin = mode

abbrev pub is_off : HintMode → Bool
is_off HintMode.none = true
is_off _ = false

-- The first statements of `main`.
unfoldable pub start_options : List Text → Result Stop (Options × HintMode)
unfolding parse_options effective_hint_mode
start_options argv = do
  o ← parse_options argv
  let mode = effective_hint_mode o.hint_mode (empty o.pin_dir)
  throw_if (not (is_off mode) && empty o.pin_dir) missing_pin
  ok (o, mode)
