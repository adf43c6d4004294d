-- ===== src/Workload/Pipeline/Options/Ranges.antt =====
-- ros2/scx_slam_workload/src/slam_pipeline.cpp: what is known of accepted options.
use scx_slam_fresh.Base.{
  ◌^◌, ◌<◌, ◌≡◌, ◌≢◌, true, List, [], ◌∷◌, ok, arith, OnOk, OnOk-bind, OnOk-ok, Within,
  to_unsigned_range, Text, pos, negsuc, Bool-cases, inl, inr,
}
use scx_slam_fresh.Workload.Pipeline.Options.{
  Options, HintMode, InputMode, Flag, default_options, parse_integer, parse_u64, set_value,
  set_alone, flag_of, is_external, takes_value, parse_loop, parse_options, start_options,
}

-- The bounds that the options have at any point of the loop.
pub record InRange (o : Options) : Type 0 where
  pub duration : Within (pos 1) (pos 86400) o.duration_s
  pub warmup : Within (pos 0) (pos 86400) o.warmup_s
  pub worker : Within (negsuc 0) (pos 86400) o.worker_cpu
  pub policy : Within (negsuc 0) (pos 86400) o.ext_policy
  pub hogs : Within (pos 0) (pos 86400) o.hog_threads
  pub source : o.source_start_ns < 2 ^ 64

parse_integer_range : (text : Text) → OnOk (Within (negsuc 0) (pos 86400)) (parse_integer text)
unfolding parse_integer
parse_integer_range text = ground arith

parse_u64_range : (text : Text) → OnOk (λ v. v < 2 ^ 64) (parse_u64 text)
unfolding parse_u64
parse_u64_range text = ground (arith, to_unsigned_range _ _ text)

set_value-InRange : (f : Flag) (v : Text) (o : Options) → InRange o → OnOk InRange (set_value f v o)
unfolding set_value
set_value-InRange Flag.duration v o r = ground (arith, parse_integer_range v)
set_value-InRange Flag.warmup v o r = ground (arith, parse_integer_range v)
set_value-InRange Flag.worker_cpu v o r = ground (arith, parse_integer_range v)
set_value-InRange Flag.ext_policy v o r = ground (arith, parse_integer_range v)
set_value-InRange Flag.hog v o r = ground (arith, parse_integer_range v)
set_value-InRange Flag.source_start_ns v o r = ground (arith, parse_u64_range v)
set_value-InRange f v o r = ground arith

set_alone-InRange : (f : Flag) (o : Options) → InRange o → OnOk InRange (set_alone f o)
unfolding set_alone
set_alone-InRange f o r = ground arith

parse_loop-InRange : (argv : List Text) (o : Options) → InRange o → OnOk InRange (parse_loop argv o)
unfolding parse_loop
parse_loop-InRange [] o r = r
parse_loop-InRange (a ∷ []) o r = set_alone-InRange (flag_of a) o r
parse_loop-InRange (a ∷ v ∷ rest) o r = elim (Bool-cases (takes_value (flag_of a))) [
  | inl e ↦ rw e (
      OnOk-bind InRange InRange (set_value (flag_of a) v o) _ (set_value-InRange (flag_of a) v o r)
        (parse_loop-InRange rest))
  | inr e ↦ rw e (
      OnOk-bind InRange InRange (set_alone (flag_of a) o) _ (set_alone-InRange (flag_of a) o r)
        (parse_loop-InRange (v ∷ rest)))
]

-- What `main` goes on with.
pub record Accepted (o : Options) (mode : HintMode) : Type 0 where
  pub ranges : InRange o
  pub sourced : o.input_mode ≡ InputMode.external → o.source_start_ns ≢ 0
  pub decided : mode ≢ HintMode.auto
  pub pinned : mode ≢ HintMode.none → o.pin_dir ≢ []
  pub chosen : o.hint_mode ≢ HintMode.auto → mode ≡ o.hint_mode

external_cases : (m : InputMode) → m ≡ InputMode.external → is_external m ≡ true
external_cases m e = rw e

parse_options-InRange :
    (argv : List Text)
    → OnOk
        (λ o. InRange o × (is_external o.input_mode ≡ true → o.source_start_ns ≢ 0))
        (parse_options argv)
unfolding parse_options
parse_options-InRange argv =
    OnOk-bind InRange _ (parse_loop argv default_options) _
      (parse_loop-InRange argv default_options (ground arith)) (λ o r. ground arith)

start_options-Accepted : (argv : List Text) → OnOk (λ p. Accepted p.0 p.1) (start_options argv)
unfolding start_options
start_options-Accepted argv =
    OnOk-bind _ _ (parse_options argv) _ (parse_options-InRange argv)
      (λ o r. ground (arith, r.1, external_cases o.input_mode))

-- A command line that `main` does not refuse, whatever it holds: the duration is 1 to 86400 seconds,
-- the warm-up and the contenders 0 to 86400, the CPU and the policy -1 (not given) to 86400, the
-- source time a 64-bit word, and not 0 for external input; the hint mode is never `auto`, is the one
-- that was given, if one was, and needs hints only where a pin directory was given.
pub options_are_in_range :
    (argv : List Text) {o : Options} {mode : HintMode}
    → start_options argv ≡ ok (o, mode)
    → Accepted o mode
options_are_in_range argv e = OnOk-ok (λ p. Accepted p.0 p.1) _ (start_options-Accepted argv) e
