-- ===== src/Demo/Queue/Fifo.antt =====
-- demo/slam_pipeline_demo.cpp, `BlockingQueue`: which items come out, and in which order.
use mathlib.Core.List.Sublist
use mathlib.Core.List.{Sublist}
use scx_slam_fresh.Demo.{StageCfg, WorkItem, is_stale}
use scx_slam_fresh.Base.{
  inl, inr, List, ℕ, ◌∷◌, Bool, Bool-cases, [], length-append, u64, ◌++◌, ◌≡◌, append-nil, arith,
  false, length, refl, ◌+◌, append_assoc,
}
use scx_slam_fresh.Demo.Queue.{
  Action, Popped, after_pop, evict, run, step, HintTarget, Queue, System, count_evicted,
  publish_hint, wake, Consumer, evict_stale_locked, pop, stop_queue, start, new_queue,
}
use scx_slam_fresh.Demo.Queue.Calls.{evict_cases, pop_cases, push_items}

abbrev pub taken_by : Popped → List WorkItem
taken_by (Popped.blocks q) = []
taken_by (Popped.stopped q) = []
taken_by (Popped.takes v q) = v ∷ []

-- The item that a step hands to the consumer, if any.
unfoldable pub took : ℕ → System → Action → List WorkItem
took e s (Action.pushes now key v) = []
took e s (Action.pops now key) = elim s.consumer [
  | Consumer.idle ↦ taken_by (pop e now key s.queue)
  | Consumer.busy k v ↦ taken_by (pop e now key s.queue)
  | Consumer.waits ↦ []
  | Consumer.done ↦ []
]
took e s (Action.wakes now key) = elim s.consumer [
  | Consumer.waits ↦ taken_by (wake e now key s.queue)
  | Consumer.idle ↦ []
  | Consumer.busy k v ↦ []
  | Consumer.done ↦ []
]
took e s Action.stops = []

unfoldable pub taken_in : ℕ → System → List Action → List WorkItem
taken_in e s [] = []
taken_in e s (a ∷ acts) = took e s a ++ taken_in e (step e s a) acts

abbrev pub pushed : List Action → List WorkItem
pushed [] = []
pushed (Action.pushes now key v ∷ acts) = v ∷ pushed acts
pushed (Action.pops now key ∷ acts) = pushed acts
pushed (Action.wakes now key ∷ acts) = pushed acts
pushed (Action.stops ∷ acts) = pushed acts

-- What the loop keeps is in order, and its counter makes up for the rest.
record Evicts (vs : List WorkItem) (q r : Queue) : Type 0 where
  kept : Sublist r.items vs
  counted : u64 (length vs + q.queue_evicted_stale) ≡ u64 (length r.items + r.queue_evicted_stale)

evict-Evicts :
    (e now : ℕ) (cfg : StageCfg) (vs : List WorkItem) (q : Queue)
    → Evicts vs q (evict e now cfg vs q)
unfolding evict count_evicted
evict-Evicts e now cfg [] q = record { kept = Sublist.refl []; counted = refl }
evict-Evicts e now cfg (v ∷ vs) q = elim (Bool-cases (is_stale now v cfg)) [
  | inl h ↦
      let i = evict-Evicts e now cfg vs (count_evicted e now q) in
      let c = i.counted in simp h (record { kept = Sublist.cons v i.kept; counted = omega arith })
  | inr h ↦
      let i = evict-Evicts e now cfg vs q in
      let c = i.counted in
      simp h (record { kept = Sublist.cons-cons v i.kept; counted = omega arith })
]

locked-Evicts : (e now : ℕ) (q : Queue) → Evicts q.items q (evict_stale_locked e now q)
locked-Evicts e now q = elim (evict_cases e now q) [
  | inl h ↦ rw h (record { kept = Sublist.refl q.items; counted = refl })
  | inr h ↦ rw (h.1) (evict-Evicts e now h.0 q.items q)
]

-- One step: what the consumer takes, then what is left, is what was there in order.
record Flows (e : ℕ) (s : System) (a : Action) : Type 0 where
  in_order : Sublist (took e s a ++ (step e s a).queue.items) (s.queue.items ++ pushed (a ∷ []))
  balanced :
      u64 (length s.queue.items + length (pushed (a ∷ [])) + s.queue.queue_evicted_stale)
      ≡ u64 (
          length (took e s a)
          + length (step e s a).queue.items
          + (step e s a).queue.queue_evicted_stale)

popped-Flows :
    (e now key : ℕ) (q : Queue)
    → let p = pop e now key q in
      (taken_by p ++ (after_pop key p).queue.items ≡ q.items)
      × ((after_pop key p).queue.queue_evicted_stale ≡ q.queue_evicted_stale)
unfolding after_pop publish_hint
popped-Flows e now key q = elim (pop_cases e now key q) [
  | inl h ↦ simp (h.1) (refl, refl)
  | inr (inl h) ↦ simp (h.2) (refl, refl)
  | inr (inr (v, vs, h, k, l)) ↦ simp (l, k) (refl, refl)
]

push-Flows : (e now key : ℕ) (v : WorkItem) (s : System) → Flows e s (Action.pushes now key v)
unfolding step took
push-Flows e now key v s =
    let k = locked-Evicts e now s.queue in
    let p = push_items e now key v s.queue in
    let c = k.counted in
    let l = length-append (evict_stale_locked e now s.queue).items (v ∷ []) in
    record {
      in_order = rw (p.0) (Sublist.append k.kept (Sublist.refl (v ∷ [])));
      balanced = rw (p.0, p.1) (omega arith);
    }

popped_flow :
    (e key : ℕ) (s : System) (a : Action) (p : Popped)
    → pushed (a ∷ []) ≡ []
    → step e s a ≡ after_pop key p
    → took e s a ≡ taken_by p
    → taken_by p ++ (after_pop key p).queue.items ≡ s.queue.items
    → (after_pop key p).queue.queue_evicted_stale ≡ s.queue.queue_evicted_stale
    → Flows e s a
popped_flow e key s a p none_pushed st tk it ev =
    let l = length-append (taken_by p) (after_pop key p).queue.items in
    record {
      in_order =
          rw (none_pushed, st, tk, it, append-nil s.queue.items) (Sublist.refl s.queue.items);
      balanced = rw (none_pushed, st, tk, ev, ← it) (omega arith);
    }

still-Flows :
    (e : ℕ) (s : System) (a : Action)
    → pushed (a ∷ []) ≡ []
    → step e s a ≡ s
    → took e s a ≡ []
    → Flows e s a
still-Flows e s a none_pushed st tk = record {
  in_order = rw (none_pushed, st, tk, append-nil s.queue.items) (Sublist.refl s.queue.items);
  balanced = rw (none_pushed, st, tk) (omega arith);
}

pops-Flows : (e now key : ℕ) (s : System) → Flows e s (Action.pops now key)
unfolding step took
pops-Flows e now key s = at_consumer s.consumer refl
  where
    at_consumer : (c : Consumer) → s.consumer ≡ c → Flows e s (Action.pops now key)
    at_consumer Consumer.idle h =
        let f = popped-Flows e now key s.queue in
        popped_flow e key s (Action.pops now key) (pop e now key s.queue) refl (ground arith)
          (ground arith) f.0 f.1
    at_consumer (Consumer.busy k v) h =
        let f = popped-Flows e now key s.queue in
        popped_flow e key s (Action.pops now key) (pop e now key s.queue) refl (ground arith)
          (ground arith) f.0 f.1
    at_consumer Consumer.waits h =
        still-Flows e s (Action.pops now key) refl (ground arith) (ground arith)
    at_consumer Consumer.done h =
        still-Flows e s (Action.pops now key) refl (ground arith) (ground arith)

wakes-Flows : (e now key : ℕ) (s : System) → Flows e s (Action.wakes now key)
unfolding step took wake
wakes-Flows e now key s = at_consumer s.consumer refl
  where
    at_consumer : (c : Consumer) → s.consumer ≡ c → Flows e s (Action.wakes now key)
    at_consumer Consumer.waits h =
        let f = popped-Flows e now key (record (s.queue) { waiting = false }) in
        popped_flow e key s (Action.wakes now key) (wake e now key s.queue) refl (ground arith)
          (ground arith) f.0 f.1
    at_consumer Consumer.idle h =
        still-Flows e s (Action.wakes now key) refl (ground arith) (ground arith)
    at_consumer (Consumer.busy k v) h =
        still-Flows e s (Action.wakes now key) refl (ground arith) (ground arith)
    at_consumer Consumer.done h =
        still-Flows e s (Action.wakes now key) refl (ground arith) (ground arith)

step-Flows : (e : ℕ) (s : System) (a : Action) → Flows e s a
step-Flows e s (Action.pushes now key v) = push-Flows e now key v s
step-Flows e s (Action.pops now key) = pops-Flows e now key s
step-Flows e s (Action.wakes now key) = wakes-Flows e now key s
step-Flows e s Action.stops =
    unfold step took stop_queue in
    record {
      in_order = rw (append-nil s.queue.items) (Sublist.refl s.queue.items);
      balanced = omega arith;
    }

pushed-cons : (a : Action) (acts : List Action) → pushed (a ∷ acts) ≡ pushed (a ∷ []) ++ pushed acts
pushed-cons (Action.pushes now key v) acts = refl
pushed-cons (Action.pops now key) acts = refl
pushed-cons (Action.wakes now key) acts = refl
pushed-cons Action.stops acts = refl

run_flows :
    (e : ℕ) (s : System) (acts : List Action)
    → Sublist (taken_in e s acts ++ (run e s acts).queue.items) (s.queue.items ++ pushed acts)
      × (u64 (length s.queue.items + length (pushed acts) + s.queue.queue_evicted_stale)
          ≡ u64 (
              length (taken_in e s acts)
              + length (run e s acts).queue.items
              + (run e s acts).queue.queue_evicted_stale))
unfolding run taken_in
run_flows e s [] = (rw (append-nil s.queue.items) (Sublist.refl s.queue.items), omega arith)
run_flows e s (a ∷ acts) =
    let i = run_flows e (step e s a) acts in
    let f = step-Flows e s a in
    let b = f.balanced in
    let c = i.1 in
    let l = length-append (pushed (a ∷ [])) (pushed acts) in
    let m = length-append (took e s a) (taken_in e (step e s a) acts) in
    (
      rw
          (
            pushed-cons a acts,
            append_assoc (took e s a) (taken_in e (step e s a) acts)
                (run e (step e s a) acts).queue.items,
          )
          (Sublist.trans (Sublist.append (Sublist.refl (took e s a)) i.0) (
            rw⁻¹
              (
                append_assoc (took e s a) (step e s a).queue.items (pushed acts),
                append_assoc s.queue.items (pushed (a ∷ [])) (pushed acts),
              )
              (Sublist.append f.in_order (Sublist.refl (pushed acts))))),
      rw (pushed-cons a acts) (omega arith),
    )

-- After any calls on a new queue, what the consumer took, followed by what is still queued, is
-- what was pushed, in the order of the pushes and with some items left out; and, counted modulo
-- 2 ^ 64, `queue_evicted_stale` is the number of items left out.
pub run_is_fifo :
    (e : ℕ) (t : HintTarget) (evict_on : Bool) (acts : List Action)
    → let s = run e (start t evict_on) acts in
      let out = taken_in e (start t evict_on) acts in
      Sublist (out ++ s.queue.items) (pushed acts)
      × (u64 (length (pushed acts))
          ≡ u64 (length out + length s.queue.items + s.queue.queue_evicted_stale))
run_is_fifo e t evict_on acts =
    unfold start new_queue in
    (let f = run_flows e (start t evict_on) acts in (f.0, omega (arith, f.1)))
