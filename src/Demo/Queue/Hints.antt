-- ===== src/Demo/Queue/Hints.antt =====
-- demo/slam_pipeline_demo.cpp, `BlockingQueue`: whose hint is published, and who is woken.
use scx_slam_fresh.Demo.{WorkItem, StageCfg, is_stale}
use scx_slam_fresh.Base.{
  inl, inr, ℕ, ◌≡◌, List, true, [], false, arith, ◌∷◌, Bool-cases, ◌++◌, refl, Bool, ◌≢◌,
}
use scx_slam_fresh.Demo.Queue.{
  System, evict, evict_stale_locked, push, count_evicted, publish_hint, Queue, Consumer,
  Publication, hint_sent, pop, start, step, Action, after_pop, new_queue, HintTarget, stop_queue,
  run,
}
use scx_slam_fresh.Demo.Queue.Calls.{evict_cases, pop_cases, pops_cases, wakes_cases}

evict_frame :
    (e now : ℕ) (cfg : StageCfg) (vs : List WorkItem) (q : Queue)
    → let r = evict e now cfg vs q in
      (r.stop ≡ q.stop)
      × (r.waiting ≡ q.waiting)
      × (r.target ≡ q.target)
      × (r.notified ≡ q.notified)
      × (r.published ≡ q.published)
      × (vs ≡ [] → r.items ≡ [])
unfolding evict count_evicted
evict_frame e now cfg [] q = (refl, refl, refl, refl, refl, λ _. refl)
evict_frame e now cfg (v ∷ vs) q = elim (Bool-cases (is_stale now v cfg)) [
  | inl h ↦ let r = evict_frame e now cfg vs (count_evicted e now q) in ground arith
  | inr h ↦ let r = evict_frame e now cfg vs q in ground arith
]

evict_stale_locked_frame :
    (e now : ℕ) (q : Queue)
    → let r = evict_stale_locked e now q in
      (r.stop ≡ q.stop)
      × (r.waiting ≡ q.waiting)
      × (r.target ≡ q.target)
      × (r.notified ≡ q.notified)
      × (r.published ≡ q.published)
      × (q.items ≡ [] → r.items ≡ [])
evict_stale_locked_frame e now q = elim (evict_cases e now q) [
  | inl h ↦ rw h (refl, refl, refl, refl, refl, λ k. k)
  | inr h ↦ rw (h.1) (evict_frame e now h.0 q.items q)
]

-- A push wakes the consumer, and it publishes a hint only where the consumer is in its wait.
push_frame :
    (e now key : ℕ) (v : WorkItem) (q : Queue)
    → let r = push e now key v q in
      (r.stop ≡ q.stop)
      × (r.waiting ≡ false)
      × (r.target ≡ q.target)
      × (r.notified ≡ true)
      × (q.waiting ≡ false → r.published ≡ q.published)
unfolding push publish_hint
push_frame e now key v q = let f = evict_stale_locked_frame e now q in ground arith

-- What holds of the queue and its consumer at every step.
record Inv (s : System) : Type 0 where
  waiting_waits : s.queue.waiting ≡ true → (s.consumer ≡ Consumer.waits) × (s.queue.items ≡ [])
  woken :
      s.consumer ≡ Consumer.waits
      → s.queue.notified ≡ false
      → (s.queue.items ≡ []) × (s.queue.stop ≡ false)
  hinted :
      (key : ℕ) (v : WorkItem)
      → s.consumer ≡ Consumer.busy key v
      → (rest : List Publication) × (s.queue.published ≡ hint_sent s.queue.target key v ++ rest)

start-Inv : (t : HintTarget) (evict : Bool) → Inv (start t evict)
unfolding start new_queue
start-Inv t evict = record {
  waiting_waits = λ h. ground arith;
  woken = λ h k. ground arith;
  hinted = λ key v h. ground arith;
}

pushes-Inv :
    (e now key : ℕ) (v : WorkItem) (s : System) → Inv s → Inv (step e s (Action.pushes now key v))
unfolding step
pushes-Inv e now key v s i =
    let f = push_frame e now key v s.queue in
    record {
      waiting_waits = λ h. ground arith;
      woken = λ h k. ground arith;
      hinted = λ k w h.
          let old = i.hinted k w h in
          let same : s.queue.waiting ≡ false = elim (Bool-cases s.queue.waiting) [
            | inl a ↦ (let b = i.waiting_waits a in ground arith)
            | inr b ↦ b
          ] in
          (old.0, ground arith);
    }

-- What a call of `pop` does to the invariant, wherever it ends.
pop-Inv : (e now key : ℕ) (q : Queue) → q.waiting ≡ false → Inv (after_pop key (pop e now key q))
unfolding after_pop publish_hint
pop-Inv e now key q w = elim (pop_cases e now key q) [
  | inl h ↦ simp (h.1) (record {
    waiting_waits = λ k. ground arith;
    woken = λ k l. ground arith;
    hinted = λ k v l. ground arith;
  })
  | inr (inl h) ↦ simp (h.2) (record {
    waiting_waits = λ l. (refl, h.1);
    woken = λ l m. (h.1, h.0);
    hinted = λ k v l. ground arith;
  })
  | inr (inr (v, vs, h, k, l)) ↦ simp l (record {
    waiting_waits = λ m. ground arith;
    woken = λ m n. ground arith;
    hinted = λ k' v' m. (q.published, ground arith);
  })
]

not_waiting : (s : System) → Inv s → s.consumer ≢ Consumer.waits → s.queue.waiting ≡ false
not_waiting s i n = elim (Bool-cases s.queue.waiting) [
  | inl a ↦ (let b = i.waiting_waits a in ground arith)
  | inr b ↦ b
]

step-Inv : (e : ℕ) (s : System) (a : Action) → Inv s → Inv (step e s a)
step-Inv e s (Action.pushes now key v) i = pushes-Inv e now key v s i
step-Inv e s (Action.pops now key) i = elim (pops_cases e now key s) [
  | inl h ↦ rw h i
  | inr h ↦ rw (h.1) (pop-Inv e now key s.queue (not_waiting s i h.0))
]
step-Inv e s (Action.wakes now key) i = elim (wakes_cases e now key s) [
  | inl h ↦ rw h i
  | inr h ↦ rw (h.1) (pop-Inv e now key _ refl)
]
step-Inv e s Action.stops i =
    unfold step stop_queue in
    record {
      waiting_waits = λ h. i.waiting_waits h;
      woken = λ h k. ground arith;
      hinted = λ k w h. i.hinted k w h;
    }

run-Inv : (e : ℕ) (s : System) (acts : List Action) → Inv s → Inv (run e s acts)
unfolding run
run-Inv e s [] i = i
run-Inv e s (a ∷ acts) i = run-Inv e (step e s a) acts (step-Inv e s a i)

-- After any calls on a new queue, while the consumer works on the item `v` that it took under
-- the id `key`, the latest hint published is the one for `v` (where the target publishes hints
-- at all), whatever was pushed meanwhile.
pub busy_keeps_its_hint :
    (e : ℕ) (t : HintTarget) (evict_on : Bool) (acts : List Action) (key : ℕ) (v : WorkItem)
    → let s = run e (start t evict_on) acts in
      s.consumer ≡ Consumer.busy key v
      → (rest : List Publication) × (s.queue.published ≡ hint_sent s.queue.target key v ++ rest)
busy_keeps_its_hint e t evict_on acts key v h =
    (run-Inv e (start t evict_on) acts (start-Inv t evict_on)).hinted key v h

-- No wake-up is lost: after any calls on a new queue, if the consumer is in its wait and was not
-- notified since the wait began, the queue is empty and not stopped; and the flag `waiting_` is
-- set only while the consumer waits at an empty queue.
pub no_lost_wakeup :
    (e : ℕ) (t : HintTarget) (evict_on : Bool) (acts : List Action)
    → let s = run e (start t evict_on) acts in
      (s.consumer ≡ Consumer.waits
        → s.queue.notified ≡ false
        → (s.queue.items ≡ []) × (s.queue.stop ≡ false))
      × (s.queue.waiting ≡ true → (s.consumer ≡ Consumer.waits) × (s.queue.items ≡ []))
no_lost_wakeup e t evict_on acts =
    let i = run-Inv e (start t evict_on) acts (start-Inv t evict_on) in (i.woken, i.waiting_waits)
