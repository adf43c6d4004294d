-- ===== src/Demo/Stage/InFlight.antt =====
-- demo/slam_pipeline_demo.cpp, `print_window_stage`: the number of items in flight at the end.
use mathlib.Core.Option.{some-injective}
use scx_slam_fresh.Base.{
  if◌then◌else◌, ℕ, ◌+◌, ◌≤◌, ◌<◌, ◌&&◌, [], ◌∷◌, some, List, Bool, not, suc, ◌≡◌, ◌^◌, arith,
  length, All, subst, refl,
}
use scx_slam_fresh.Demo.{StageCfg, is_stale, inside_window, WorkItem}
use scx_slam_fresh.Demo.Stage.{
  Turn, note_drop, note_start, note_end, StageStats, Handled, handle, bump, Stage, window_report,
  run_turns, no_stats, no_window_stats,
}
use scx_slam_fresh.Demo.Stage.Turns.{handle_cases, Forward, run_turns-cons, inside_earlier}
use scx_slam_fresh.Demo.Queue.{WindowQueueStats}

-- Whether a turn ends by dropping its item.
abbrev drops : StageCfg → Bool → Turn → Bool
drops cfg drop_stale t = is_stale t.t0 t.item cfg && drop_stale

-- When the item's fate is decided.
abbrev end_time : StageCfg → Bool → Turn → ℕ
end_time cfg drop_stale t = if drops cfg drop_stale t then t.t0 else t.t1

-- The turns whose item was taken before the end of the window, as `pop` counts them.
unfoldable pub taken_before : ℕ → List Turn → ℕ
taken_before e [] = 0
taken_before e (t ∷ ts) =
    let rest = taken_before e ts in if inside_window e t.popped then suc rest else rest

-- The turns that hold their item at the end of the window: taken before it, and done after it.
unfoldable pub holding : ℕ → StageCfg → Bool → List Turn → ℕ
holding e cfg drop_stale [] = 0
holding e cfg drop_stale (t ∷ ts) =
    let rest = holding e cfg drop_stale ts in
    if inside_window e t.popped && not (inside_window e (end_time cfg drop_stale t))
    then suc rest
    else rest

-- What a turn adds to the completed and the dropped.
handle_ends :
    (cpu_at : ℕ → ℕ) (e : ℕ) (compute_us : WorkItem → ℕ) (cfg : StageCfg) (drop_stale : Bool)
    (t : Turn) (s : StageStats) (h : Handled)
    → handle cpu_at e compute_us cfg drop_stale t s ≡ some h
    → s.window.completed + s.window.dropped_stale + 1 < 2 ^ 64
    → h.stats.window.completed + h.stats.window.dropped_stale
      ≡ bump
          (inside_window e (end_time cfg drop_stale t))
          (s.window.completed + s.window.dropped_stale)
unfolding note_drop note_start note_end
handle_ends cpu_at e compute_us cfg drop_stale t s h q small =
    handle_cases
      (λ x.
        x.stats.window.completed + x.stats.window.dropped_stale
        ≡ bump (inside_window e (end_time cfg drop_stale t))
            (s.window.completed + s.window.dropped_stale))
      cpu_at e compute_us cfg drop_stale t s h q (λ k. ground arith)
      (λ v k w. let c = w.same_window in ground arith)

turns_balance :
    (cpu_at : ℕ → ℕ) (e : ℕ) (compute_us : WorkItem → ℕ) (cfg : StageCfg) (drop_stale : Bool)
    (ts : List Turn) (s : StageStats) (r : Stage)
    → run_turns cpu_at e compute_us cfg drop_stale ts s ≡ some r
    → s.window.completed + s.window.dropped_stale + length ts < 2 ^ 64
    → All Forward ts
    → r.stats.window.completed + r.stats.window.dropped_stale + holding e cfg drop_stale ts
      ≡ s.window.completed + s.window.dropped_stale + taken_before e ts
unfolding holding taken_before
turns_balance cpu_at e compute_us cfg drop_stale [] s r q small f =
    unfold run_turns in
    (let same = some-injective _ _ q in
      subst
        (λ x.
          x.stats.window.completed + x.stats.window.dropped_stale + 0
          ≡ s.window.completed + s.window.dropped_stale + 0)
        same refl)
turns_balance cpu_at e compute_us cfg drop_stale (t ∷ ts) s r q small f =
    let c = run_turns-cons cpu_at e compute_us cfg drop_stale t ts s r q in
    let h = c.0 in
    let r1 = c.1 in
    let ends = handle_ends cpu_at e compute_us cfg drop_stale t s h c.2 (omega arith) in
    let rest =
      turns_balance cpu_at e compute_us cfg drop_stale ts h.stats r1 c.3 (ground arith) f.1 in
    let popped_first = inside_earlier e t.popped t.t0 f.0.0 in
    let starts_first = inside_earlier e t.t0 t.t1 f.0.1 in rw (c.4) (ground arith)

taken_before-le : (e : ℕ) (ts : List Turn) → taken_before e ts ≤ length ts
unfolding taken_before
taken_before-le e [] = omega arith
taken_before-le e (t ∷ ts) = let i = taken_before-le e ts in ground arith

-- After fewer than 2 ^ 64 turns of a stage that started with no counts, where the clock does not
-- run backwards in a turn and each measured work returned, and with a queue whose `dequeued` is the
-- number of items taken before the end of the window, the reported `in_flight` is exactly the
-- number of turns that held their item when the window ended: its subtractions never wrap.
pub in_flight_is_holding :
    (cpu_at : ℕ → ℕ) (e : ℕ) (compute_us : WorkItem → ℕ) (cfg : StageCfg) (drop_stale : Bool)
    (ts : List Turn) (r : Stage) (q : WindowQueueStats)
    → run_turns cpu_at e compute_us cfg drop_stale ts no_stats ≡ some r
    → length ts < 2 ^ 64
    → All Forward ts
    → q.dequeued ≡ taken_before e ts
    → (window_report r.stats q).in_flight ≡ holding e cfg drop_stale ts
unfolding window_report no_stats no_window_stats
in_flight_is_holding cpu_at e compute_us cfg drop_stale ts r q h small f d =
    let b = turns_balance cpu_at e compute_us cfg drop_stale ts no_stats r h (omega arith) f in
    let l = taken_before-le e ts in omega arith
