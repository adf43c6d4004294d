-- ===== src/Demo/Queue.antt =====
-- demo/slam_pipeline_demo.cpp, `BlockingQueue<WorkItem>`: one queue, its producers and its consumer.
--
-- A call is one critical section; `pop` is two, the one up to the wait and the one from a wake-up
-- on. The time that the clock shows and the consumer's thread id are arguments of a call. A
-- publication is the record of one call of `freshqos_publish_job_for`, the latest first.
pub mod Calls
pub mod Hints
pub mod Fifo
pub mod Accounts
mod Tests
use scx_slam_fresh.Base.{
  ℕ, suc, ◌+◌, ◌≡◌, Bool, true, false, not, ◌&&◌, ◌||◌, List, [], ◌∷◌, ◌++◌, Option, none, some,
  ◌==◌, if◌then◌else◌, empty, add64, sub64, length,
}
use scx_slam_fresh.Demo.{WorkItem, StageCfg, is_stale, inside_window}

-- demo/window_metrics.h.
pub record WindowQueueStats : Type 0 where
  pub offered : ℕ
  pub dequeued : ℕ
  pub evicted : ℕ

unfoldable pub pending_at_end : WindowQueueStats → ℕ
pending_at_end w = sub64 (sub64 w.offered w.dequeued) w.evicted

-- `HintTarget`: whether there is an open map, whether there is a place for the thread's id, and the
-- consumer's configuration.
pub record HintTarget : Type 0 where
  pub map_open : Bool
  pub has_pid : Bool
  pub cfg : Option StageCfg

-- The arguments of `freshqos_publish_job_for`.
pub record Publication : Type 0 where
  pub pid_tgid : ℕ
  pub stage_id : ℕ
  pub class_id : ℕ
  pub job_id : ℕ
  pub release_ts_ns : ℕ
  pub deadline_ts_ns : ℕ
  pub stale_ns : ℕ
  pub budget_ns : ℕ
  pub slice_ns : ℕ
  pub weight : ℕ

-- `notified` is the condition variable: it was notified since the consumer's wait began.
pub record Queue : Type 0 where
  pub items : List WorkItem
  pub stop : Bool
  pub waiting : Bool
  pub evict_stale : Bool
  pub queue_evicted_stale : ℕ
  pub window : WindowQueueStats
  pub target : HintTarget
  pub notified : Bool
  pub published : List Publication

unfoldable pub new_queue : HintTarget → Bool → Queue
new_queue t evict = record {
  items = [];
  stop = false;
  waiting = false;
  evict_stale = evict;
  queue_evicted_stale = 0;
  window = record { offered = 0; dequeued = 0; evicted = 0 };
  target = t;
  notified = false;
  published = [];
}

unfoldable pub publication : ℕ → StageCfg → WorkItem → Publication
publication key c v = record {
  pid_tgid = key;
  stage_id = c.stage_id;
  class_id = c.class_id;
  job_id = v.seq;
  release_ts_ns = v.ts_ns;
  deadline_ts_ns = if c.deadline_rel_ns == 0 then 0 else add64 v.ts_ns c.deadline_rel_ns;
  stale_ns = c.stale_ns;
  budget_ns = c.budget_ns;
  slice_ns = c.slice_ns;
  weight = c.weight;
}

-- What `publish_hint` sends for one item: nothing without an open map, a thread and a configuration.
unfoldable pub hint_sent : HintTarget → ℕ → WorkItem → List Publication
hint_sent t key v = elim t.cfg [
  | none ↦ []
  | some c ↦ if t.map_open && t.has_pid && not (key == 0) then publication key c v ∷ [] else []
]

unfoldable pub publish_hint : ℕ → WorkItem → Queue → Queue
publish_hint key v q = record q { published = hint_sent q.target key v ++ q.published }

-- What `evict_stale_locked` counts for one stale item.
unfoldable pub count_evicted : ℕ → ℕ → Queue → Queue
count_evicted metrics_end now q = record q {
  queue_evicted_stale = add64 q.queue_evicted_stale 1;
  window =
      if inside_window metrics_end now
      then record (q.window) { evicted = add64 q.window.evicted 1 }
      else q.window;
}

-- The loop of `evict_stale_locked`.
unfoldable pub evict : ℕ → ℕ → StageCfg → List WorkItem → Queue → Queue
evict metrics_end now cfg [] q = record q { items = [] }
evict metrics_end now cfg (v ∷ vs) q =
    if is_stale now v cfg
    then evict metrics_end now cfg vs (count_evicted metrics_end now q)
    else (let r = evict metrics_end now cfg vs q in record r { items = v ∷ r.items })

unfoldable pub evict_stale_locked : ℕ → ℕ → Queue → Queue
evict_stale_locked metrics_end now q = elim q.target.cfg [
  | none ↦ q
  | some cfg ↦
      if not q.evict_stale || cfg.stale_ns == 0 then q else evict metrics_end now cfg q.items q
]

unfoldable pub push : ℕ → ℕ → ℕ → WorkItem → Queue → Queue
push metrics_end now key v q =
    let q1 = evict_stale_locked metrics_end now q in
    let q2 =
      if inside_window metrics_end now
      then record q1 { window = record (q1.window) { offered = add64 q1.window.offered 1 } }
      else q1 in
    let q3 = if q2.waiting then record (publish_hint key v q2) { waiting = false } else q2 in
    record q3 { items = q3.items ++ (v ∷ []); notified = true }

pub data Popped : Type 0 where
  blocks : Queue → Popped  -- in `cv_.wait`
  stopped : Queue → Popped  -- `return false`
  takes : WorkItem → Queue → Popped

-- `pop` from its call to the wait or the return.
unfoldable pub pop : ℕ → ℕ → ℕ → Queue → Popped
pop metrics_end now key q = if q.stop then Popped.stopped q else elim q.items [
  | [] ↦ Popped.blocks (record q { waiting = true; notified = false })
  | v ∷ vs ↦ Popped.takes v (
      publish_hint key v (record q {
        items = vs;
        window =
            if inside_window metrics_end now
            then record (q.window) { dequeued = add64 q.window.dequeued 1 }
            else q.window;
      }))
]

-- `pop` from a wake-up on, a spurious one included.
unfoldable pub wake : ℕ → ℕ → ℕ → Queue → Popped
wake metrics_end now key q = pop metrics_end now key (record q { waiting = false })

unfoldable pub stop_queue : Queue → Queue
stop_queue q = record q { stop = true; notified = true }

-- The consumer's thread: between two calls of `pop`, with the item it took last and the id it
-- published under; in the wait; or out of its loop.
pub data Consumer : Type 0 where
  idle : Consumer
  busy : ℕ → WorkItem → Consumer
  waits : Consumer
  done : Consumer

pub record System : Type 0 where
  pub queue : Queue
  pub consumer : Consumer

pub data Action : Type 0 where
  pushes : ℕ → ℕ → WorkItem → Action  -- at a time, with the id that `pid_tgid` shows
  pops : ℕ → ℕ → Action
  wakes : ℕ → ℕ → Action
  stops : Action

unfoldable pub after_pop : ℕ → Popped → System
after_pop key (Popped.blocks q) = record { queue = q; consumer = Consumer.waits }
after_pop key (Popped.stopped q) = record { queue = q; consumer = Consumer.done }
after_pop key (Popped.takes v q) = record { queue = q; consumer = Consumer.busy key v }

-- A call by a thread that is not where it could make it changes nothing.
unfoldable pub step : ℕ → System → Action → System
step e s (Action.pushes now key v) = record s { queue = push e now key v s.queue }
step e s (Action.pops now key) = elim s.consumer [
  | Consumer.idle ↦ after_pop key (pop e now key s.queue)
  | Consumer.busy k v ↦ after_pop key (pop e now key s.queue)
  | Consumer.waits ↦ s
  | Consumer.done ↦ s
]
step e s (Action.wakes now key) = elim s.consumer [
  | Consumer.waits ↦ after_pop key (wake e now key s.queue)
  | Consumer.idle ↦ s
  | Consumer.busy k v ↦ s
  | Consumer.done ↦ s
]
step e s Action.stops = record s { queue = stop_queue s.queue }

unfoldable pub run : ℕ → System → List Action → System
run e s [] = s
run e s (a ∷ acts) = run e (step e s a) acts

unfoldable pub start : HintTarget → Bool → System
start t evict = record { queue = new_queue t evict; consumer = Consumer.idle }
