-- ===== src/Workload/Pipeline/Options/RoundTrip.antt =====
-- ros2/scx_slam_workload/src/slam_pipeline.cpp: options written as a command line are read back.
use scx_slam_fresh.Base.{
  Within, ℕ, zero, suc, ◌^◌, ◌<◌, ◌≡◌, ◌≢◌, refl, ◌∙◌, ap, Bool, true, false, List, [], ◌∷◌, ok,
  arith, Text, codes, ℤ, pos, negsuc, less,
}
use scx_slam_fresh.Workload.Pipeline.Options.{
  Options, HintMode, InputMode, default_options, bounded, parse_loop, parse_options,
}
use scx_slam_fresh.Workload.Pipeline.Options.Ranges.{InRange}
use scx_slam_fresh.Workload.Pipeline.Options.Numbers.{
  decimal, int_text, parse_integer-int_text, parse_u64-decimal,
}

mode_line : HintMode → List Text → List Text
mode_line HintMode.auto rest = rest
mode_line HintMode.full rest = codes "--hint-mode" ∷ codes "full" ∷ rest
mode_line HintMode.none rest = codes "--hint-mode" ∷ codes "none" ∷ rest
mode_line HintMode.imu_only rest = codes "--hint-mode" ∷ codes "imu-only" ∷ rest
mode_line HintMode.fe_only rest = codes "--hint-mode" ∷ codes "fe-only" ∷ rest

input_line : InputMode → List Text → List Text
input_line InputMode.synthetic rest = codes "--input" ∷ codes "synthetic" ∷ rest
input_line InputMode.external rest = codes "--input" ∷ codes "external" ∷ rest

window_line : Bool → List Text → List Text
window_line true rest = codes "--window-stats" ∷ rest
window_line false rest = rest

-- 0 is the default, and no value that `parse_u64` accepts.
source_line : ℕ → List Text → List Text
source_line zero rest = rest
source_line (suc n) rest = codes "--source-start-ns" ∷ decimal (suc n) ∷ rest

-- The options, each by its own argument.
pub command_line : Options → List Text
command_line o =
    codes "--duration"
    ∷ int_text o.duration_s
    ∷ codes "--warmup"
    ∷ int_text o.warmup_s
    ∷ codes "--worker-cpu"
    ∷ int_text o.worker_cpu
    ∷ codes "--ext-policy"
    ∷ int_text o.ext_policy
    ∷ codes "--hog"
    ∷ int_text o.hog_threads
    ∷ codes "--pin"
    ∷ o.pin_dir
    ∷ window_line o.window_stats
        (source_line o.source_start_ns (mode_line o.hint_mode (input_line o.input_mode [])))

loop-input :
    (m : InputMode) (o : Options)
    → parse_loop (input_line m []) o ≡ ok (record o { input_mode = m })
unfolding input_line parse_loop
loop-input InputMode.synthetic o = refl
loop-input InputMode.external o = refl

loop-mode :
    (m : HintMode) (rest : List Text) (o : Options)
    → o.hint_mode ≡ HintMode.auto
    → parse_loop (mode_line m rest) o ≡ parse_loop rest (record o { hint_mode = m })
unfolding mode_line parse_loop
loop-mode HintMode.auto rest o e = ap (λ m. parse_loop rest (record o { hint_mode = m })) e
loop-mode HintMode.full rest o e = refl
loop-mode HintMode.none rest o e = refl
loop-mode HintMode.imu_only rest o e = refl
loop-mode HintMode.fe_only rest o e = refl

loop-source :
    (n : ℕ) (rest : List Text) (o : Options)
    → n < 2 ^ 64
    → o.source_start_ns ≡ 0
    → parse_loop (source_line n rest) o ≡ parse_loop rest (record o { source_start_ns = n })
unfolding source_line parse_loop
loop-source zero rest o h e = ap (λ n. parse_loop rest (record o { source_start_ns = n })) e
loop-source (suc n) rest o h e = rw (parse_u64-decimal (suc n) (omega arith) h)

loop-window :
    (b : Bool) (rest : List Text) (o : Options)
    → o.window_stats ≡ false
    → parse_loop (window_line b rest) o ≡ parse_loop rest (record o { window_stats = b })
unfolding window_line parse_loop
loop-window true [] o e = refl
loop-window true (a ∷ rest) o e = refl
loop-window false rest o e = ap (λ b. parse_loop rest (record o { window_stats = b })) e

bounded-int_text :
    (low v : ℤ)
    → Within (negsuc 0) (pos 86400) v
    → less v low ≡ false
    → bounded low (int_text v) ≡ ok v
bounded-int_text low v r h = rw (parse_integer-int_text v r, h)

from_zero :
    (low v : ℤ)
    → less low (pos 0) ≡ false
    → Within low (pos 86400) v
    → Within (negsuc 0) (pos 86400) v
from_zero low v h r = ground arith

module _ (rest : List Text) (o : Options) where
  loop-duration :
      (v : ℤ)
      → Within (pos 1) (pos 86400) v
      → parse_loop (codes "--duration" ∷ int_text v ∷ rest) o
        ≡ parse_loop rest (record o { duration_s = v })
  unfolding parse_loop
  loop-duration v r = rw (bounded-int_text (pos 1) v (from_zero (pos 1) v refl r) r.0)

  loop-warmup :
      (v : ℤ)
      → Within (pos 0) (pos 86400) v
      → parse_loop (codes "--warmup" ∷ int_text v ∷ rest) o
        ≡ parse_loop rest (record o { warmup_s = v })
  unfolding parse_loop
  loop-warmup v r = rw (bounded-int_text (pos 0) v (from_zero (pos 0) v refl r) r.0)

  loop-worker :
      (v : ℤ)
      → Within (negsuc 0) (pos 86400) v
      → parse_loop (codes "--worker-cpu" ∷ int_text v ∷ rest) o
        ≡ parse_loop rest (record o { worker_cpu = v })
  unfolding parse_loop
  loop-worker v r = rw (parse_integer-int_text v r)

  loop-policy :
      (v : ℤ)
      → Within (negsuc 0) (pos 86400) v
      → parse_loop (codes "--ext-policy" ∷ int_text v ∷ rest) o
        ≡ parse_loop rest (record o { ext_policy = v })
  unfolding parse_loop
  loop-policy v r = rw (parse_integer-int_text v r)

  loop-hog :
      (v : ℤ)
      → Within (pos 0) (pos 86400) v
      → parse_loop (codes "--hog" ∷ int_text v ∷ rest) o
        ≡ parse_loop rest (record o { hog_threads = v })
  unfolding parse_loop
  loop-hog v r = rw (bounded-int_text (pos 0) v (from_zero (pos 0) v refl r) r.0)

  loop-pin :
      (dir : Text)
      → parse_loop (codes "--pin" ∷ dir ∷ rest) o ≡ parse_loop rest (record o { pin_dir = dir })
  unfolding parse_loop
  loop-pin dir = refl

parse_loop-command_line :
    (o : Options) → InRange o → parse_loop (command_line o) default_options ≡ ok o
unfolding command_line
parse_loop-command_line o r =
    loop-duration _ default_options o.duration_s r.duration
    ∙ loop-warmup _ _ o.warmup_s r.warmup
    ∙ loop-worker _ _ o.worker_cpu r.worker
    ∙ loop-policy _ _ o.ext_policy r.policy
    ∙ loop-hog _ _ o.hog_threads r.hogs
    ∙ loop-pin _ _ o.pin_dir
    ∙ loop-window o.window_stats _ _ refl
    ∙ loop-source o.source_start_ns _ _ r.source refl
    ∙ loop-mode o.hint_mode _ _ refl
    ∙ loop-input o.input_mode _

-- Options within the bounds, with a source time where the input is external, are read back exactly
-- from the command line that names them one by one; the numbers are written in decimal.
pub options_round_trip :
    (o : Options)
    → InRange o
    → (o.input_mode ≡ InputMode.external → o.source_start_ns ≢ 0)
    → parse_options (command_line o) ≡ ok o
unfolding parse_options
options_round_trip o r sourced = rw (parse_loop-command_line o r) (ground arith)
