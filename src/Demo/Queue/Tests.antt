-- ===== src/Demo/Queue/Tests.antt =====
-- demo/slam_pipeline_demo.cpp, `BlockingQueue`: runs of a queue.
use scx_slam_fresh.Base.{
  ℕ, ◌≡◌, refl, ◌++◌, ◌+◌, true, false, List, [], ◌∷◌, some, length, u64, arith,
}
use scx_slam_fresh.Demo.{WorkItem, StageCfg, is_stale, inside_window}
use mathlib.Core.List.{Sublist}
use scx_slam_fresh.Demo.Queue.{
  Action, HintTarget, pending_at_end, run, start, step, Consumer, Publication, new_queue, hint_sent,
  push, pop, wake, after_pop, publish_hint, evict_stale_locked, evict, count_evicted,
}
use scx_slam_fresh.Demo.Queue.Accounts.{pending_at_end_is_queue}
use scx_slam_fresh.Demo.Queue.Fifo.{taken_in, pushed, run_is_fifo}
use scx_slam_fresh.Demo.Queue.Hints.{no_lost_wakeup, busy_keeps_its_hint}

abbrev item : ℕ → ℕ → WorkItem
item n t = record { seq = n; ts_ns = t; kind = 1; points = 0; burst_id = 0 }

abbrev cfg : StageCfg
cfg = record {
  stage_id = 1;
  class_id = 1;
  deadline_rel_ns = 33;
  stale_ns = 66;
  budget_ns = 12;
  slice_ns = 0;
  weight = 0;
}

abbrev target : HintTarget
target = record { map_open = true; has_pid = true; cfg = some cfg }

-- The consumer waits first; its item is pushed with the hint, and later ones without.
abbrev calls : List Action
calls =
    Action.pops 1 9
    ∷ Action.pushes 10 9 (item 1 10)
    ∷ Action.wakes 11 9
    ∷ Action.pushes 20 9 (item 2 20)
    ∷ Action.pushes 90 9 (item 3 90)
    ∷ []

works_on_first : (run 100 (start target true) calls).consumer ≡ Consumer.busy 9 (item 1 10)
unfolding run step start new_queue push pop wake after_pop publish_hint evict_stale_locked evict
    count_evicted is_stale inside_window
works_on_first = refl

busy_keeps_its_hint_example :
    let s = run 100 (start target true) calls in
    (rest : List Publication) × (s.queue.published ≡ hint_sent s.queue.target 9 (item 1 10) ++ rest)
busy_keeps_its_hint_example = busy_keeps_its_hint 100 target true calls 9 (item 1 10) works_on_first

no_lost_wakeup_example :
    let s = run 100 (start target true) calls in
    (s.consumer ≡ Consumer.waits
      → s.queue.notified ≡ false
      → (s.queue.items ≡ []) × (s.queue.stop ≡ false))
    × (s.queue.waiting ≡ true → (s.consumer ≡ Consumer.waits) × (s.queue.items ≡ []))
no_lost_wakeup_example = no_lost_wakeup 100 target true calls

-- The second item is stale when the third is pushed.
second_is_evicted : (run 100 (start target true) calls).queue.queue_evicted_stale ≡ 1
unfolding run step start new_queue push pop wake after_pop publish_hint evict_stale_locked evict
    count_evicted is_stale inside_window
second_is_evicted = refl

run_is_fifo_example :
    let s = run 100 (start target true) calls in
    let out = taken_in 100 (start target true) calls in
    Sublist (out ++ s.queue.items) (pushed calls)
    × (u64 (length (pushed calls))
        ≡ u64 (length out + length s.queue.items + s.queue.queue_evicted_stale))
run_is_fifo_example = run_is_fifo 100 target true calls

abbrev drain : List Action
drain = Action.pops 150 9 ∷ Action.stops ∷ []

pending_at_end_is_queue_example :
    pending_at_end (run 100 (start target true) (calls ++ drain)).queue.window
    ≡ u64 (length (run 100 (start target true) calls).queue.items)
pending_at_end_is_queue_example =
    pending_at_end_is_queue 100 target true calls drain
      (omega arith, (omega arith, (omega arith, (omega arith, (omega arith, tt)))))
      (omega arith, (tt, tt))
