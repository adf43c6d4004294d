-- ===== src/Workload/Pipeline/Options/Tests.antt =====
-- ros2/scx_slam_workload/src/slam_pipeline.cpp: command lines.
use scx_slam_fresh.Base.{◌-◌, ◌^◌, ◌≡◌, refl, arith, List, [], ◌∷◌, ok, err, Text, codes, pos}
use scx_slam_fresh.Workload.Pipeline.Options.Ranges.{Accepted, options_are_in_range}
use scx_slam_fresh.Workload.Pipeline.Options.RoundTrip.{command_line, options_round_trip}
use scx_slam_fresh.Workload.Pipeline.Options.{
  Options, HintMode, InputMode, default_options, parse_options, parse_u64, parse_integer,
  start_options, missing_value, missing_pin,
}

abbrev external_line : List Text
external_line =
    codes "--input"
    ∷ codes "external"
    ∷ codes "--source-start-ns"
    ∷ codes "1700000000"
    ∷ codes "--duration"
    ∷ codes "20"
    ∷ []

abbrev external_options : Options
external_options = record default_options {
  duration_s = pos 20;
  source_start_ns = 1700000000;
  input_mode = InputMode.external;
}

parse_external : parse_options external_line ≡ ok external_options
unfolding parse_options parse_u64 parse_integer
parse_external = refl

-- The guard against a minus sign looks at the first byte, and `strtoull` skips spaces.
spaced_minus : parse_u64 (codes " -1") ≡ ok (2 ^ 64 - 1)
unfolding parse_u64
spaced_minus = refl

empty_value : parse_integer [] ≡ ok (pos 0)
unfolding parse_integer
empty_value = refl

no_value : parse_options (codes "--duration" ∷ []) ≡ err missing_value
unfolding parse_options
no_value = refl

no_pin : start_options (codes "--hint-mode" ∷ codes "full" ∷ []) ≡ err missing_pin
unfolding start_options
no_pin = refl

start_external : start_options external_line ≡ ok (external_options, HintMode.none)
unfolding start_options parse_u64 parse_integer
start_external = refl

options_are_in_range_example : Accepted external_options HintMode.none
options_are_in_range_example = options_are_in_range external_line start_external

options_round_trip_example : parse_options (command_line external_options) ≡ ok external_options
options_round_trip_example = options_round_trip external_options (ground arith) (λ e. ground arith)
