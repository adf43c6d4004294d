-- ===== src/Workload/Pipeline/Counters.antt =====
-- ros2/scx_slam_workload/src/slam_pipeline.cpp: the counters of a stage, as its measured jobs pass.
use mathlib.Core.Option.{some-injective}
use scx_slam_fresh.Base.{
  ◌≡◌, refl, ℕ, zero, suc, ◌+◌, ◌-◌, ◌≤◌, ◌<◌, List, [], ◌∷◌, Option, some, none, true, inl, inr,
  length, arith, ◌^◌, subst₂, Option-cases, subst,
}
use scx_slam_fresh.Workload.Bag.{StampedJob}
use scx_slam_fresh.Workload.Pipeline.{
  StageStats, no_stats, offer, print_stats, observe_selected, observe_dropped, observe_upstream,
  begin_job, end_job,
}

-- What happens to a stage's counters: the audit offers a job; the observer sees one selected, dropped
-- before its start, or lost upstream; the callback begins and ends one.
pub data StageEvent : Type 0 where
  offers : StampedJob → StageEvent
  selects drops loses : StageEvent
  begins : ℕ → StageEvent
  ends : ℕ → ℕ → ℕ → ℕ → ℕ → ℕ → StageEvent

-- The counters, with the jobs that were selected and not begun yet, and those that run.
pub record Flow : Type 0 where
  pub stats : StageStats
  pub held : ℕ
  pub running : ℕ

-- An event that no job is there for is none.
unfoldable pub happen : StageEvent → Flow → Option Flow
happen (offers m) f = some (record f { stats = offer m f.stats })
happen selects f = some (record f { stats = observe_selected f.stats; held = f.held + 1 })
happen loses f = some (record f { stats = observe_upstream f.stats })
happen drops f = elim f.held [
  | zero ↦ none
  | suc h ↦ some (record f { stats = observe_dropped f.stats; held = h })
]
happen (begins cpu_start) f = elim f.held [
  | zero ↦ none
  | suc h ↦
      some
        (record f { stats = begin_job true cpu_start f.stats; held = h; running = f.running + 1 })
]
happen (ends deadline_ns stale_ns release start now cpu_ns) f = elim f.running [
  | zero ↦ none
  | suc r ↦ some (record f {
    stats = end_job true deadline_ns stale_ns release start now cpu_ns f.stats;
    running = r;
  })
]

unfoldable pub after_event : Option Flow → (Flow → Option Flow) → Option Flow
after_event none rest = none
after_event (some f) rest = rest f

unfoldable pub happen_all : List StageEvent → Flow → Option Flow
happen_all [] f = some f
happen_all (e ∷ es) f = after_event (happen e f) (happen_all es)

-- After `n` events.
record Flows (n : ℕ) (f : Flow) : Type 0 where
  arrived : f.stats.arrivals ≡ f.held + f.running + f.stats.completed + f.stats.dropped
  begun : f.stats.executed ≡ f.running + f.stats.completed
  few_arrivals : f.stats.arrivals ≤ n
  few_offers : f.stats.offered ≤ n
  few_losses : f.stats.upstream_dropped ≤ n

happen-Flows :
    (n : ℕ) (e : StageEvent) (f g : Flow)
    → n + 1 < 2 ^ 64
    → Flows n f
    → happen e f ≡ some g
    → Flows (n + 1) g
unfolding happen offer observe_selected observe_dropped observe_upstream begin_job end_job
happen-Flows n (offers m) f g small i h = subst (Flows (n + 1)) (some-injective _ _ h) (record {
  arrived = ground arith;
  begun = ground arith;
  few_arrivals = ground arith;
  few_offers = ground arith;
  few_losses = ground arith;
})
happen-Flows n selects f g small i h = subst (Flows (n + 1)) (some-injective _ _ h) (record {
  arrived = ground arith;
  begun = ground arith;
  few_arrivals = ground arith;
  few_offers = ground arith;
  few_losses = ground arith;
})
happen-Flows n loses f g small i h = subst (Flows (n + 1)) (some-injective _ _ h) (record {
  arrived = ground arith;
  begun = ground arith;
  few_arrivals = ground arith;
  few_offers = ground arith;
  few_losses = ground arith;
})
happen-Flows n drops f g small i h = at_held f.held refl h
  where
    at_held :
        (k : ℕ)
        → f.held ≡ k
        → (elim k [
          | zero ↦ none
          | suc x ↦ some (record f { stats = observe_dropped f.stats; held = x })
        ])
          ≡ some g
        → Flows (n + 1) g
    at_held zero q r = ground arith
    at_held (suc x) q r = subst (Flows (n + 1)) (some-injective _ _ r) (record {
      arrived = ground arith;
      begun = ground arith;
      few_arrivals = ground arith;
      few_offers = ground arith;
      few_losses = ground arith;
    })
happen-Flows n (begins c) f g small i h = at_held f.held refl h
  where
    at_held :
        (k : ℕ)
        → f.held ≡ k
        → (elim k [
          | zero ↦ none
          | suc x ↦
              some
                (record f { stats = begin_job true c f.stats; held = x; running = f.running + 1 })
        ])
          ≡ some g
        → Flows (n + 1) g
    at_held zero q r = ground arith
    at_held (suc x) q r = subst (Flows (n + 1)) (some-injective _ _ r) (record {
      arrived = ground arith;
      begun = ground arith;
      few_arrivals = ground arith;
      few_offers = ground arith;
      few_losses = ground arith;
    })
happen-Flows n (ends d s rel st now c) f g small i h = at_running f.running refl h
  where
    at_running :
        (k : ℕ)
        → f.running ≡ k
        → (elim k [
          | zero ↦ none
          | suc x ↦ some (record f { stats = end_job true d s rel st now c f.stats; running = x })
        ])
          ≡ some g
        → Flows (n + 1) g
    at_running zero q r = ground arith
    at_running (suc x) q r = subst (Flows (n + 1)) (some-injective _ _ r) (record {
      arrived = ground arith;
      begun = ground arith;
      few_arrivals = ground arith;
      few_offers = ground arith;
      few_losses = ground arith;
    })

happen_all-Flows :
    (n : ℕ) (es : List StageEvent) (f g : Flow)
    → n + length es < 2 ^ 64
    → Flows n f
    → happen_all es f ≡ some g
    → Flows (n + length es) g
unfolding happen_all
happen_all-Flows n [] f g small i h = subst₂ Flows (omega arith) (some-injective _ _ h) i
happen_all-Flows n (e ∷ es) f g small i h = elim (Option-cases (happen e f)) [
  | inl k ↦ (let c = simp k at h in unfold after_event in ground arith)
  | inr k ↦
      let r : happen_all es k.0 ≡ some g = (unfold after_event in simp (k.1) at h) in
      subst (λ x. Flows x g) (omega arith)
        (happen_all-Flows (n + 1) es k.0 g (omega arith)
          (happen-Flows n e f k.0 (omega arith) i k.1) r)
]

unfoldable pub new_flow : Flow
new_flow = record { stats = no_stats; held = 0; running = 0 }

-- After fewer than 2 ^ 63 events of a stage, in an order in which a job is selected before it is
-- dropped or begun and begun before it ends, and with an offer for each job that was selected or lost
-- upstream: `print_stats` reports as in flight exactly the running jobs, as pending the jobs that
-- are offered and not yet selected with those that are selected and not yet begun, and as
-- unfinished the pending and the running ones. None of its subtractions wraps.
pub print_stats_reports :
    (es : List StageEvent) (f : Flow)
    → happen_all es new_flow ≡ some f
    → length es < 2 ^ 63
    → f.stats.arrivals + f.stats.upstream_dropped ≤ f.stats.offered
    → let p = print_stats f.stats.offered f.stats in
      let waiting = f.stats.offered - (f.stats.arrivals + f.stats.upstream_dropped) in
      (p.in_flight ≡ f.running)
      × (p.pending ≡ waiting + f.held)
      × (p.unfinished ≡ p.pending + p.in_flight)
unfolding print_stats
print_stats_reports es f h small audited =
    let new : Flows 0 new_flow =
      unfold new_flow no_stats in
      record {
        arrived = refl;
        begun = refl;
        few_arrivals = omega arith;
        few_offers = omega arith;
        few_losses = omega arith;
      } in
    let i = happen_all-Flows 0 es new_flow f (omega arith) new h in ground arith
