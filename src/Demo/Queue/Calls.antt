-- ===== src/Demo/Queue/Calls.antt =====
-- demo/slam_pipeline_demo.cpp, `BlockingQueue`: where each call ends.
use scx_slam_fresh.Demo.{StageCfg, WorkItem, inside_window}
use scx_slam_fresh.Base.{
  ◌==◌, if◌then◌else◌, ◌||◌, ℕ, List, ◌≡◌, true, ◌⊎◌, ◌≢◌, Option-cases, false, [], inr, inl, ◌∷◌,
  Bool-cases, List-cases, not, arith, add64, refl, ◌++◌,
}
use scx_slam_fresh.Demo.Queue.{
  evict_stale_locked, pop, step, Queue, System, wake, Action, publish_hint, Consumer, Popped, evict,
  after_pop, push,
}

-- An eviction is off, or it is the loop over the items.
pub evict_cases :
    (e now : ℕ) (q : Queue)
    → (evict_stale_locked e now q ≡ q)
      ⊎ ((cfg : StageCfg) × (evict_stale_locked e now q ≡ evict e now cfg q.items q))
unfolding evict_stale_locked
evict_cases e now q = elim (Option-cases q.target.cfg) [
  | inl h ↦ inl (ground arith)
  | inr h ↦ elim (Bool-cases (not q.evict_stale || h.0.stale_ns == 0)) [
    | inl k ↦ inl (ground arith)
    | inr k ↦ inr (h.0, ground arith)
  ]
]

-- The queue after `pop` took its first item.
abbrev pub taken : ℕ → ℕ → ℕ → WorkItem → List WorkItem → Queue → Queue
taken e now key v vs q = publish_hint key v (record q {
  items = vs;
  window =
      if inside_window e now
      then record (q.window) { dequeued = add64 q.window.dequeued 1 }
      else q.window;
})

pub pop_cases :
    (e now key : ℕ) (q : Queue)
    → ((q.stop ≡ true) × (pop e now key q ≡ Popped.stopped q))
      ⊎ (((q.stop ≡ false)
            × (q.items ≡ [])
            × (pop e now key q ≡ Popped.blocks (record q { waiting = true; notified = false })))
          ⊎ ((v : WorkItem) × (vs : List WorkItem) × (q.stop ≡ false)
              × (q.items ≡ v ∷ vs)
              × (pop e now key q ≡ Popped.takes v (taken e now key v vs q))))
unfolding pop
pop_cases e now key q = elim (Bool-cases q.stop) [
  | inl h ↦ inl (h, ground arith)
  | inr h ↦ elim (List-cases q.items) [
    | inl k ↦ inr (inl (h, k, simp (h, k)))
    | inr k ↦ inr (inr (k.0, k.1, h, k.2, simp (h, k.2)))
  ]
]

-- A step of the consumer is a call of `pop`, a wake-up, or nothing.
pub pops_cases :
    (e now key : ℕ) (s : System)
    → (step e s (Action.pops now key) ≡ s)
      ⊎ ((s.consumer ≢ Consumer.waits)
          × (step e s (Action.pops now key) ≡ after_pop key (pop e now key s.queue)))
unfolding step
pops_cases e now key s = split s.consumer refl
  where
    split :
        (c : Consumer)
        → s.consumer ≡ c
        → (step e s (Action.pops now key) ≡ s)
          ⊎ ((s.consumer ≢ Consumer.waits)
              × (step e s (Action.pops now key) ≡ after_pop key (pop e now key s.queue)))
    split Consumer.idle h = inr ((λ q. cc), ground arith)
    split (Consumer.busy k v) h = inr ((λ q. cc), ground arith)
    split Consumer.waits h = inl (ground arith)
    split Consumer.done h = inl (ground arith)

pub wakes_cases :
    (e now key : ℕ) (s : System)
    → (step e s (Action.wakes now key) ≡ s)
      ⊎ ((s.consumer ≡ Consumer.waits)
          × (step e s (Action.wakes now key)
              ≡ after_pop key (pop e now key (record (s.queue) { waiting = false }))))
unfolding step wake
wakes_cases e now key s = split s.consumer refl
  where
    split :
        (c : Consumer)
        → s.consumer ≡ c
        → (step e s (Action.wakes now key) ≡ s)
          ⊎ ((s.consumer ≡ Consumer.waits)
              × (step e s (Action.wakes now key)
                  ≡ after_pop key (pop e now key (record (s.queue) { waiting = false }))))
    split Consumer.waits h = inr (h, ground arith)
    split Consumer.idle h = inl (ground arith)
    split (Consumer.busy k v) h = inl (ground arith)
    split Consumer.done h = inl (ground arith)

pub push_items :
    (e now key : ℕ) (v : WorkItem) (q : Queue)
    → ((push e now key v q).items ≡ (evict_stale_locked e now q).items ++ (v ∷ []))
      × ((push e now key v q).queue_evicted_stale
          ≡ (evict_stale_locked e now q).queue_evicted_stale)
unfolding push publish_hint
push_items e now key v q = ground arith
