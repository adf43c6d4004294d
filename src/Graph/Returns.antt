-- ===== src/Graph/Returns.antt =====
-- demo/dependent_graph.h: calls that keep the rules of `Graph` return, and what they leave.
use scx_slam_fresh.Base.{
  ℕ, ◌+◌, u64, ◌≤◌, ◌<◌, ◌≡◌, refl, sym, subst, Bool, true, false, List, [], ◌∷◌, Option, none,
  some, value_or, ltb, ◌==◌, if◌then◌else◌, ◌||◌, ok, arith, Bool-cases, inl, inr, Returns, empty,
  has_value,
}
use scx_slam_fresh.Graph.{
  Stream, imu, camera, Measurement, Batch, Snapshot, Graph, Lane, lane, set_lane, same_stream,
  repeats, enqueue, select_idle, start_batch, finish_batch, consume, note_stream, newer,
  complete_running, no_snapshot, fill, leave, count_consumed, offer, select, control, complete,
  new_graph,
}

-- What a lane remembers of its stream: the last number, and how many were offered.
abbrev pub Note : Type 0
Note = Option ℕ × ℕ

abbrev pub noted : Lane → Note
noted l = (l.last_sequence, l.accounting.offered)

-- What is read of a graph between two calls.
pub record Advanced (t : ℕ) (busy : Option Batch) (imu_note camera_note : Note) (g : Graph)
    : Type 0 where
  pub clock_time : g.clock_time ≡ t
  pub running : g.running ≡ busy
  pub imu_noted : noted g.lane_imu ≡ imu_note
  pub camera_noted : noted g.lane_camera ≡ camera_note

fresh :
    (last : Option ℕ) (sequence : ℕ) → value_or last 0 < sequence → repeats last sequence ≡ false
unfolding repeats
fresh none sequence h = refl
fresh (some l) sequence h = ground arith

enqueue-noted :
    (capacity : ℕ) (m : Measurement) (l : Lane)
    → noted (enqueue capacity m l).1 ≡ (some m.sequence, u64 (l.accounting.offered + 1))
unfolding enqueue
enqueue-noted capacity m l = ground arith

abbrev pub after_offer : Measurement → Stream → Graph → Note
after_offer m s g =
    if same_stream m.stream s
    then (some m.sequence, u64 ((lane s g).accounting.offered + 1))
    else noted (lane s g)

offer_lanes :
    (s : Stream) (t : ℕ) (m : Measurement) (l : Lane) (g : Graph)
    → m.stream ≡ s
    → noted l
      ≡ (some m.sequence, u64 ((lane s (record g { clock_time = t })).accounting.offered + 1))
    → Advanced t g.running
        (after_offer m imu g)
        (after_offer m camera g)
        (set_lane s l (record g { clock_time = t }))
offer_lanes imu t m l g e k = record {
  clock_time = refl;
  running = refl;
  imu_noted = rw e k;
  camera_noted = rw e;
}
offer_lanes camera t m l g e k = record {
  clock_time = refl;
  running = refl;
  imu_noted = rw e;
  camera_noted = rw e k;
}

offer-ok :
    (m : Measurement) (t : ℕ) (g : Graph)
    → m.source_time ≤ t
    → value_or (lane m.stream g).last_sequence 0 < m.sequence
    → g.clock_time ≤ t
    → let g' = record g { clock_time = t } in
      let (accepted, l) = enqueue g.capacity m (lane m.stream g') in
      offer m t g ≡ ok (accepted, set_lane m.stream l g')
unfolding offer
offer-ok m t g h k c = ground (arith, fresh (lane m.stream g).last_sequence m.sequence)

pub offer-Returns :
    (m : Measurement) (t : ℕ) (g : Graph)
    → m.source_time ≤ t
    → value_or (lane m.stream g).last_sequence 0 < m.sequence
    → g.clock_time ≤ t
    → Returns
        (λ p. Advanced t g.running (after_offer m imu g) (after_offer m camera g) p.1)
        (offer m t g)
offer-Returns m t g h k c =
    subst (Returns _) (sym (offer-ok m t g h k c))
      (offer_lanes m.stream t m _ g refl (enqueue-noted g.capacity m _))

-- A batch that was handed out has an input.
abbrev pub Filled : Option Batch → Type 0
Filled none = Unit
Filled (some b) = empty b.inputs ≡ false

start_batch-Advanced :
    (ms : List Measurement) (g : Graph)
    → g.running ≡ none
    → let (b, g') = start_batch ms g in
      Advanced g.clock_time b (noted g.lane_imu) (noted g.lane_camera) g' × Filled b
unfolding start_batch
start_batch-Advanced [] g e = ground arith
start_batch-Advanced (m ∷ ms) g e = ground arith

select_idle-Advanced :
    (o : Option Batch) (g : Graph)
    → g.running ≡ none
    → o ≡ none
    → let (b, g') = select_idle o g in
      Advanced g.clock_time b (noted g.lane_imu) (noted g.lane_camera) g' × Filled b
unfolding select_idle
select_idle-Advanced none g e q = start_batch-Advanced _ (leave (fill g.limit _ _) g) e
select_idle-Advanced (some b) g e q = cc

pub select-Returns :
    (t : ℕ) (g : Graph)
    → g.clock_time ≤ t
    → g.running ≡ none
    → Returns
        (λ p. Advanced t p.0 (noted g.lane_imu) (noted g.lane_camera) p.1 × Filled p.0)
        (select t g)
unfolding select
select-Returns t g c e = elim (Bool-cases (ltb t g.clock_time)) [
  | inl back ↦ absurd (ground arith)
  | inr on ↦ rw on (select_idle-Advanced g.running (record g { clock_time = t }) e e)
]

pub control-Returns :
    (t setpoint age : ℕ) (g : Graph)
    → g.clock_time ≤ t
    → Returns
        (λ p. Advanced t g.running (noted g.lane_imu) (noted g.lane_camera) p.1)
        (control t setpoint age g)
unfolding control
control-Returns t setpoint age g c = ground arith

abbrev pub some_camera : List Measurement → Bool
some_camera [] = false
some_camera (m ∷ ms) = same_stream m.stream camera || some_camera ms

-- The loop of `complete` keeps what is read of the graph, and finds the camera's measurement.
record Consumed (found : Bool) (s : Snapshot) (g : Graph) (p : Snapshot × Graph) : Type 0 where
  clock_time : p.1.clock_time ≡ g.clock_time
  imu_noted : noted p.1.lane_imu ≡ noted g.lane_imu
  camera_noted : noted p.1.lane_camera ≡ noted g.lane_camera
  seen : found || has_value s.last_camera ≡ true → has_value p.0.last_camera ≡ true

newer-has : (m : Measurement) (o : Option Measurement) → has_value (newer m o) ≡ true
unfolding newer
newer-has m none = refl
newer-has m (some l) = ground arith

or_true : (a b : Bool) → b ≡ true → a || b ≡ true
or_true a b e = ground arith

consume_one :
    (st : Stream) (m : Measurement) (found : Bool) (s : Snapshot) (g : Graph) (p : Snapshot × Graph)
    → Consumed found (note_stream st m s) (set_lane st (count_consumed (lane st g)) g) p
    → Consumed (same_stream st camera || found) s g p
unfolding note_stream
consume_one imu m found s g p c = record {
  clock_time = c.clock_time;
  imu_noted = c.imu_noted;
  camera_noted = c.camera_noted;
  seen = c.seen;
}
consume_one camera m found s g p c = record {
  clock_time = c.clock_time;
  imu_noted = c.imu_noted;
  camera_noted = c.camera_noted;
  seen = λ _. c.seen (or_true found _ (newer-has m s.last_camera));
}

consume-Consumed :
    (ms : List Measurement) (s : Snapshot) (g : Graph)
    → Consumed (some_camera ms) s g (consume ms s g)
unfolding consume note_stream
consume-Consumed [] s g = record {
  clock_time = refl;
  imu_noted = refl;
  camera_noted = refl;
  seen = λ e. e;
}
consume-Consumed (m ∷ ms) s g =
    consume_one m.stream m (some_camera ms) s g _ (consume-Consumed ms (note_stream m.stream m s) _)

-- The graph is free again, and a batch with a camera measurement gives a snapshot with one.
abbrev pub AfterComplete : Batch → ℕ → Graph → Snapshot × Graph → Type 0
AfterComplete b t g p =
    Advanced t none (noted g.lane_imu) (noted g.lane_camera) p.1
    × (some_camera b.inputs ≡ true → has_value p.0.last_camera ≡ true)

complete_running-Returns :
    (b : Batch) (t : ℕ) (g : Graph)
    → g.clock_time ≤ t
    → Returns (AfterComplete b t g) (complete_running (some b) b.id t g)
unfolding complete_running finish_batch
complete_running-Returns b t g c =
    let s0 = record (value_or g.latest no_snapshot) { batch_id = b.id; completed = t } in
    let k = consume-Consumed b.inputs s0 (record g { clock_time = t }) in
    elim (Bool-cases (b.id == b.id)) [
      | inr e ↦ absurd (ground arith)
      | inl e ↦ elim (Bool-cases (ltb t g.clock_time)) [
        | inl back ↦ absurd (ground arith)
        | inr on ↦
            rw (e, on)
              (
                record {
                  clock_time = k.clock_time;
                  running = refl;
                  imu_noted = k.imu_noted;
                  camera_noted = k.camera_noted;
                },
                λ h. k.seen (rw h),
              )
      ]
    ]

pub complete-Returns :
    (b : Batch) (t : ℕ) (g : Graph)
    → g.clock_time ≤ t
    → g.running ≡ some b
    → Returns (AfterComplete b t g) (complete b.id t g)
unfolding complete
complete-Returns b t g c e =
    subst (λ o. Returns (AfterComplete b t g) (complete_running o b.id t g)) (sym e)
      (complete_running-Returns b t g c)

pub new_graph-Advanced :
    (capacity limit : ℕ) {g : Graph}
    → new_graph capacity limit ≡ ok g
    → Advanced 0 none (none, 0) (none, 0) g
unfolding new_graph
new_graph-Advanced capacity limit e = ground arith
