-- ===== src/Demo/Queue/Accounts.antt =====
-- demo/slam_pipeline_demo.cpp, `BlockingQueue`: the counters of the measurement window.
use scx_slam_fresh.Demo.{StageCfg, inside_window, WorkItem, is_stale}
use scx_slam_fresh.Base.{
  inl, inr, ◌≤◌, ◌<◌, [], ◌∷◌, ℕ, ◌≡◌, List, false, true, u64, arith, length, ◌+◌, add64, ◌^◌,
  Bool-cases, refl, ◌∙◌, All, Bool, ◌++◌, length-append, suc, ap,
}
use scx_slam_fresh.Demo.Queue.{
  Queue, evict, Action, count_evicted, pending_at_end, WindowQueueStats, HintTarget, System,
  after_pop, evict_stale_locked, push, run, publish_hint, step, pop, start, new_queue, stop_queue,
}
use scx_slam_fresh.Demo.Queue.Calls.{evict_cases, pops_cases, pop_cases, wakes_cases, push_items}

-- The clock shows a time before the end of the window; a stop reads no clock.
abbrev pub Before : ℕ → Action → Type 0
Before e (Action.pushes now key v) = now < e
Before e (Action.pops now key) = now < e
Before e (Action.wakes now key) = now < e
Before e Action.stops = Unit

abbrev pub After : ℕ → Action → Type 0
After e (Action.pushes now key v) = e ≤ now
After e (Action.pops now key) = e ≤ now
After e (Action.wakes now key) = e ≤ now
After e Action.stops = Unit

inside_before : (e now : ℕ) → now < e → inside_window e now ≡ true
unfolding inside_window
inside_before e now h = ground arith

outside_after : (e now : ℕ) → e ≤ now → inside_window e now ≡ false
unfolding inside_window
outside_after e now h = ground arith

-- The counters are words.
abbrev Words : WindowQueueStats → Type 0
Words w = (w.dequeued < 2 ^ 64) × (w.evicted < 2 ^ 64)

abbrev offer_one : WindowQueueStats → WindowQueueStats
offer_one w = record w { offered = add64 w.offered 1 }

abbrev dequeue_one : WindowQueueStats → WindowQueueStats
dequeue_one w = record w { dequeued = add64 w.dequeued 1 }

abbrev evict_one : WindowQueueStats → WindowQueueStats
evict_one w = record w { evicted = add64 w.evicted 1 }

pending_word : (w : WindowQueueStats) → pending_at_end w < 2 ^ 64
unfolding pending_at_end
pending_word w = omega arith

pending-offer :
    (w : WindowQueueStats) → Words w → pending_at_end (offer_one w) ≡ u64 (pending_at_end w + 1)
unfolding pending_at_end
pending-offer w h = omega arith

pending-dequeue :
    (w : WindowQueueStats) → Words w → u64 (pending_at_end (dequeue_one w) + 1) ≡ pending_at_end w
unfolding pending_at_end
pending-dequeue w h = omega arith

pending-evict :
    (w : WindowQueueStats) → Words w → u64 (pending_at_end (evict_one w) + 1) ≡ pending_at_end w
unfolding pending_at_end
pending-evict w h = omega arith

-- The items in the queue are the ones that the window's counters leave over.
abbrev Settled : Queue → Type 0
Settled q = Words q.window × (pending_at_end q.window ≡ u64 (length q.items))

evict_settles :
    (e now : ℕ) (cfg : StageCfg) (vs : List WorkItem) (q : Queue)
    → now < e
    → Words q.window
    → let r = evict e now cfg vs q in
      Words r.window
      × (u64 (pending_at_end r.window + length vs) ≡ u64 (pending_at_end q.window + length r.items))
unfolding evict count_evicted
evict_settles e now cfg [] q h w = (w, refl)
evict_settles e now cfg (v ∷ vs) q h w =
    let inside = inside_before e now h in
    elim (Bool-cases (is_stale now v cfg)) [
      | inl k ↦
          let p = pending-evict q.window w in
          let counted : (count_evicted e now q).window ≡ evict_one q.window = simp inside in
          let less = ap pending_at_end counted in
          let words : Words (count_evicted e now q).window = rw counted (w.0, omega arith) in
          let i = evict_settles e now cfg vs (count_evicted e now q) h words in
          let c = i.1 in simp k (i.0, omega arith)
      | inr k ↦ let i = evict_settles e now cfg vs q h w in let c = i.1 in simp k (i.0, omega arith)
    ]

locked_settles :
    (e now : ℕ) (q : Queue) → now < e → Settled q → Settled (evict_stale_locked e now q)
locked_settles e now q h s = elim (evict_cases e now q) [
  | inl k ↦ rw k s
  | inr k ↦
      let i = evict_settles e now k.0 q.items q h s.0 in
      let c = i.1 in
      let d = s.1 in
      let w = pending_word (evict e now k.0 q.items q).window in rw (k.1) (i.0, omega arith)
]

push_window :
    (e now key : ℕ) (v : WorkItem) (q : Queue)
    → now < e
    → (push e now key v q).window ≡ offer_one (evict_stale_locked e now q).window
unfolding push publish_hint
push_window e now key v q h = let inside = inside_before e now h in ground arith

push-Settled :
    (e now key : ℕ) (v : WorkItem) (q : Queue) → now < e → Settled q → Settled (push e now key v q)
push-Settled e now key v q h s =
    let k = locked_settles e now q h s in
    let p = pending-offer (evict_stale_locked e now q).window k.0 in
    let l = length-append (evict_stale_locked e now q).items (v ∷ []) in
    let c = k.1 in rw (push_window e now key v q h, (push_items e now key v q).0) (k.0, omega arith)

pop-Settled :
    (e now key : ℕ) (q : Queue)
    → now < e
    → Settled q
    → Settled (after_pop key (pop e now key q)).queue
unfolding after_pop publish_hint
pop-Settled e now key q h s = elim (pop_cases e now key q) [
  | inl k ↦ simp (k.1) s
  | inr (inl k) ↦ simp (k.2) s
  | inr (inr (v, vs, k, m, l)) ↦
      let inside = inside_before e now h in
      let p = pending-dequeue q.window s.0 in
      let d : pending_at_end q.window ≡ u64 (suc (length vs)) =
        s.1 ∙ ap (λ xs. u64 (length xs)) m in
      let w = pending_word (dequeue_one q.window) in
      simp (l, inside) ((omega arith, s.0.1), omega arith)
]

step-Settled :
    (e : ℕ) (s : System) (a : Action) → Before e a → Settled s.queue → Settled (step e s a).queue
step-Settled e s (Action.pushes now key v) h i = unfold step in push-Settled e now key v s.queue h i
step-Settled e s (Action.pops now key) h i = elim (pops_cases e now key s) [
  | inl k ↦ rw k i
  | inr k ↦ rw (k.1) (pop-Settled e now key s.queue h i)
]
step-Settled e s (Action.wakes now key) h i = elim (wakes_cases e now key s) [
  | inl k ↦ rw k i
  | inr k ↦ rw (k.1) (pop-Settled e now key (record (s.queue) { waiting = false }) h i)
]
step-Settled e s Action.stops h i = unfold step stop_queue in i

-- From the end of the window on, no call changes its counters.
evict_closed :
    (e now : ℕ) (cfg : StageCfg) (vs : List WorkItem) (q : Queue)
    → e ≤ now
    → (evict e now cfg vs q).window ≡ q.window
unfolding evict count_evicted
evict_closed e now cfg [] q h = refl
evict_closed e now cfg (v ∷ vs) q h =
    let outside = outside_after e now h in
    elim (Bool-cases (is_stale now v cfg)) [
      | inl k ↦ simp k (evict_closed e now cfg vs (count_evicted e now q) h ∙ ground arith)
      | inr k ↦ simp k (evict_closed e now cfg vs q h)
    ]

push_closed :
    (e now key : ℕ) (v : WorkItem) (q : Queue) → e ≤ now → (push e now key v q).window ≡ q.window
unfolding push publish_hint
push_closed e now key v q h =
    let outside = outside_after e now h in
    let same : (evict_stale_locked e now q).window ≡ q.window = elim (evict_cases e now q) [
      | inl k ↦ rw k refl
      | inr k ↦ rw (k.1) (evict_closed e now k.0 q.items q h)
    ] in
    ground arith

pop_closed :
    (e now key : ℕ) (q : Queue)
    → e ≤ now
    → (after_pop key (pop e now key q)).queue.window ≡ q.window
unfolding after_pop publish_hint
pop_closed e now key q h = elim (pop_cases e now key q) [
  | inl k ↦ simp (k.1) refl
  | inr (inl k) ↦ simp (k.2) refl
  | inr (inr (v, vs, k, m, l)) ↦ simp (l, outside_after e now h) refl
]

step_closed :
    (e : ℕ) (s : System) (a : Action) → After e a → (step e s a).queue.window ≡ s.queue.window
step_closed e s (Action.pushes now key v) h = unfold step in push_closed e now key v s.queue h
step_closed e s (Action.pops now key) h = elim (pops_cases e now key s) [
  | inl k ↦ rw k refl
  | inr k ↦ rw (k.1) (pop_closed e now key s.queue h)
]
step_closed e s (Action.wakes now key) h = elim (wakes_cases e now key s) [
  | inl k ↦ rw k refl
  | inr k ↦ rw (k.1) (pop_closed e now key (record (s.queue) { waiting = false }) h)
]
step_closed e s Action.stops h = unfold step stop_queue in refl

run-Settled :
    (e : ℕ) (s : System) (acts : List Action)
    → All (Before e) acts
    → Settled s.queue
    → Settled (run e s acts).queue
unfolding run
run-Settled e s [] h i = i
run-Settled e s (a ∷ acts) h i = run-Settled e (step e s a) acts h.1 (step-Settled e s a h.0 i)

run_closed :
    (e : ℕ) (s : System) (acts : List Action)
    → All (After e) acts
    → (run e s acts).queue.window ≡ s.queue.window
unfolding run
run_closed e s [] h = refl
run_closed e s (a ∷ acts) h = run_closed e (step e s a) acts h.1 ∙ step_closed e s a h.0

run-append : (e : ℕ) (s : System) (xs ys : List Action) → run e s (xs ++ ys) ≡ run e (run e s xs) ys
unfolding run
run-append e s [] ys = refl
run-append e s (a ∷ xs) ys = run-append e (step e s a) xs ys

-- Of the calls on a new queue, let the first ones see the clock before the end `e` of the window
-- and the others not. At the very end, `WindowQueueStats::pending` is the number of items that
-- were in the queue when the window ended, modulo 2 ^ 64, whatever was drained since.
pub pending_at_end_is_queue :
    (e : ℕ) (t : HintTarget) (evict_on : Bool) (early late : List Action)
    → All (Before e) early
    → All (After e) late
    → pending_at_end (run e (start t evict_on) (early ++ late)).queue.window
      ≡ u64 (length (run e (start t evict_on) early).queue.items)
pending_at_end_is_queue e t evict_on early late h k =
    let s = start t evict_on in
    let new : Settled s.queue =
      unfold start new_queue pending_at_end in ((omega arith, omega arith), refl) in
    rw (run-append e s early late, run_closed e (run e s early) late k)
      ((run-Settled e s early h new).1)
