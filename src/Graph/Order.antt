-- ===== src/Graph/Order.antt =====
-- demo/dependent_graph.h: the order in which `select` takes measurements from the two inboxes.
use scx_slam_fresh.Base.{
  none, ℕ, zero, suc, ◌≤◌, ◌≡◌, inl, inr, Bool-cases, List, [], ◌∷◌, ltb, All, All-imp, arith,
  Option, some, ok, length, min, ◌+◌, ap,
}
use scx_slam_fresh.Graph.{
  Measurement, Fill, fill, Graph, select_idle, start_batch, Batch, select, leave,
}
use scx_slam_fresh.Graph.Select.{fill-All, length-fill}
use scx_slam_fresh.Graph.Calls.{at_time, select_cases}

abbrev pub NoOlder : ℕ → List Measurement → Type 0
NoOlder t = All (λ m. t ≤ m.source_time)

abbrev pub IsSorted : List Measurement → Type 0
IsSorted [] = Unit
IsSorted (m ∷ ms) = NoOlder m.source_time ms × IsSorted ms

-- What is taken is sorted, and nothing left behind is older than anything taken.
pub record Ordered (f : Fill) : Type 0 where
  pub sorted : IsSorted f.taken
  pub before_imu : All (λ m. NoOlder m.source_time f.rest_imu) f.taken
  pub before_camera : All (λ m. NoOlder m.source_time f.rest_camera) f.taken

NoOlder-trans : (s t : ℕ) (ms : List Measurement) → s ≤ t → NoOlder t ms → NoOlder s ms
NoOlder-trans s t ms h = All-imp (λ m k. omega arith) ms

cons-Ordered :
    (m : Measurement) (room : ℕ) (xs ys : List Measurement)
    → NoOlder m.source_time xs
    → NoOlder m.source_time ys
    → Ordered (fill room xs ys)
    → let f = fill room xs ys in
      Ordered (record { taken = m ∷ f.taken; rest_imu = f.rest_imu; rest_camera = f.rest_camera })
cons-Ordered m room xs ys hx hy o =
    let r = fill-All (λ k. m.source_time ≤ k.source_time) room xs ys hx hy in
    record {
      sorted = (r.all_taken, o.sorted);
      before_imu = (r.all_imu, o.before_imu);
      before_camera = (r.all_camera, o.before_camera);
    }

-- From inboxes that are sorted by source time, the loop takes the oldest measurements, in order.
pub fill-Ordered :
    (room : ℕ) (xs ys : List Measurement) → IsSorted xs → IsSorted ys → Ordered (fill room xs ys)
unfolding fill
fill-Ordered zero xs ys hx hy = record { sorted = tt; before_imu = tt; before_camera = tt }
fill-Ordered (suc room) [] [] hx hy = record { sorted = tt; before_imu = tt; before_camera = tt }
fill-Ordered (suc room) (x ∷ xs) [] hx hy =
    cons-Ordered x room xs [] hx.0 tt (fill-Ordered room xs [] hx.1 tt)
fill-Ordered (suc room) [] (y ∷ ys) hx hy =
    cons-Ordered y room [] ys tt hy.0 (fill-Ordered room [] ys tt hy.1)
fill-Ordered (suc room) (x ∷ xs) (y ∷ ys) hx hy =
    elim (Bool-cases (ltb y.source_time x.source_time)) [
      | inl e ↦
          rw (e, fill)
            (let h : y.source_time ≤ x.source_time = ground arith in
              cons-Ordered y room (x ∷ xs) ys
                (h, NoOlder-trans y.source_time x.source_time xs h hx.0) hy.0
                (fill-Ordered room (x ∷ xs) ys hx hy.1))
      | inr e ↦
          rw (e, fill)
            (let h : x.source_time ≤ y.source_time = ground arith in
              cons-Ordered x room xs (y ∷ ys) hx.0
                (h, NoOlder-trans x.source_time y.source_time ys h hy.0)
                (fill-Ordered room xs (y ∷ ys) hx.1 hy))
    ]

-- What a successful selection did: nothing ran before, and the loop's result became the batch.
record Selected (g : Graph) (b : Batch) (g' : Graph) : Type 0 where
  batched : b.inputs ≡ (fill g.limit g.lane_imu.inbox g.lane_camera.inbox).taken
  left_imu : g'.lane_imu.inbox ≡ (fill g.limit g.lane_imu.inbox g.lane_camera.inbox).rest_imu
  left_camera :
      g'.lane_camera.inbox ≡ (fill g.limit g.lane_imu.inbox g.lane_camera.inbox).rest_camera

start_batch-some :
    (ms : List Measurement) (g : Graph) (b : Batch) (g' : Graph)
    → start_batch ms g ≡ (some b, g')
    → (b.inputs ≡ ms) × (g'.lane_imu ≡ g.lane_imu) × (g'.lane_camera ≡ g.lane_camera)
unfolding start_batch
start_batch-some [] g b g' e = absurd (ground arith)
start_batch-some (m ∷ ms) g b g' e = (ground arith, ground arith, ground arith)

select_idle-some :
    (o : Option Batch) (t : ℕ) (g : Graph) (b : Batch) (g' : Graph)
    → select_idle o (at_time t g) ≡ (some b, g')
    → Selected g b g'
unfolding select_idle
select_idle-some (some c) t g b g' e = absurd (ground arith)
select_idle-some none t g b g' e =
    let f = fill g.limit g.lane_imu.inbox g.lane_camera.inbox in
    let (i, x, y) = start_batch-some f.taken (leave f (at_time t g)) b g' e in
    record { batched = i; left_imu = ap (λ l. l.inbox) x; left_camera = ap (λ l. l.inbox) y }

select-Selected :
    (t : ℕ) (g : Graph) (b : Batch) (g' : Graph) → select t g ≡ ok (some b, g') → Selected g b g'
select-Selected t g b g' =
    select_cases (λ r. r ≡ ok (some b, g') → Selected g b g') t g (λ _ h. cc)
      λ _ h.
        let e : select_idle g.running (at_time t g) ≡ (some b, g') = cc in
        select_idle-some g.running t g b g' e

-- A selection takes as many waiting measurements as there are, up to the batch limit, whatever their
-- order. If both inboxes are in the order of source time, it takes the oldest ones: the batch is in
-- that order too, and no measurement left behind is older than one that was taken.
pub select_takes_oldest :
    (t : ℕ) (g : Graph) (b : Batch) (g' : Graph)
    → select t g ≡ ok (some b, g')
    → (length b.inputs ≡ min g.limit (length g.lane_imu.inbox + length g.lane_camera.inbox))
      × (IsSorted g.lane_imu.inbox
          → IsSorted g.lane_camera.inbox
          → IsSorted b.inputs
            × All (λ m. NoOlder m.source_time g'.lane_imu.inbox) b.inputs
            × All (λ m. NoOlder m.source_time g'.lane_camera.inbox) b.inputs)
select_takes_oldest t g b g' e =
    let s = select-Selected t g b g' e in
    (
      rw s.batched (length-fill g.limit g.lane_imu.inbox g.lane_camera.inbox),
      λ hx hy.
          let o = fill-Ordered g.limit g.lane_imu.inbox g.lane_camera.inbox hx hy in
          (
            rw s.batched o.sorted,
            rw (s.batched, s.left_imu) o.before_imu,
            rw (s.batched, s.left_camera) o.before_camera,
          ),
    )
