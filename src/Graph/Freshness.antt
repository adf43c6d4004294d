-- ===== src/Graph/Freshness.antt =====
-- demo/dependent_graph.h: what the control consumer is told of the estimator's snapshot.
use scx_slam_fresh.Base.{
  ℕ, ◌+◌, ◌≤◌, ◌<◌, ◌≡◌, refl, sym, List, [], ◌∷◌, Option, none, some, if◌then◌else◌, All,
  All-append, All-imp, ok, arith, subst, subst₂, ◌⊎◌, ◌^◌, sub64-sub, value_or,
}
use scx_slam_fresh.Graph.{
  Stream, imu, camera, Measurement, Batch, Snapshot, Graph, lane, set_lane, consume, note_stream,
  count_consumed, finish_batch, complete, control, same_stream, Outcome, missing, usable, stale,
  control_now, imu_outcome, newer, snapshot_outcome, Control, no_snapshot,
}
use scx_slam_fresh.Graph.Calls.{at_time, complete_cases}
use scx_slam_fresh.Graph.Select.{of_stream, of_stream-append}
use scx_slam_fresh.Graph.Invariant.{Inv, PastMeasurement, PastSnapshot, later-Inv}

abbrev pub last_of : Stream → Snapshot → Option Measurement
last_of imu s = s.last_imu
last_of camera s = s.last_camera

abbrev pub ReportsImu : ℕ → ℕ → Option Measurement → Outcome → Type 0
ReportsImu t age none o = o ≡ missing
ReportsImu t age (some m) o =
    ((o ≡ usable) × (t ≤ m.source_time + age)) ⊎ ((o ≡ stale) × (m.source_time + age < t))

-- The outcome that the age of the snapshot's IMU measurement at time `t` calls for.
abbrev pub Reports : ℕ → ℕ → Option Snapshot → Outcome → Type 0
Reports t age none o = o ≡ missing
Reports t age (some s) o = ReportsImu t age s.last_imu o

imu_outcome-Reports :
    (o : Option Measurement) (t age : ℕ)
    → t < 2 ^ 64
    → PastMeasurement t o
    → ReportsImu t age o (imu_outcome o t age)
unfolding imu_outcome
imu_outcome-Reports none t age w p = refl
imu_outcome-Reports (some m) t age w p = ground (arith, sub64-sub t m.source_time p w)

snapshot_outcome-Reports :
    (o : Option Snapshot) (t age : ℕ)
    → t < 2 ^ 64
    → PastSnapshot t o
    → Reports t age o (snapshot_outcome o t age)
unfolding snapshot_outcome
snapshot_outcome-Reports none t age w p = refl
snapshot_outcome-Reports (some s) t age w p = imu_outcome-Reports s.last_imu t age w p.0

-- Between calls, `control` at a time that has not passed succeeds; it reports the latest completed
-- snapshot, never the running batch, and its outcome is "missing" without an IMU measurement there,
-- "usable" if that measurement is at most `max_imu_age` old, and else "stale": the subtraction of
-- the two 64-bit times never borrows. It leaves the running batch and both lanes alone.
pub control-Reports :
    (g : Graph) (t setpoint max_imu_age : ℕ)
    → Inv g
    → g.clock_time ≤ t
    → t < 2 ^ 64
    → (c : Control) × (g' : Graph) × (control t setpoint max_imu_age g ≡ ok (c, g'))
      × (c.snapshot ≡ g.latest)
      × (c.release ≡ t)
      × Reports t max_imu_age g.latest c.outcome
      × (g'.running ≡ g.running)
      × (g'.lane_imu ≡ g.lane_imu)
      × (g'.lane_camera ≡ g.lane_camera)
unfolding control control_now
control-Reports g t setpoint max_imu_age v h w = (
  (control_now t setpoint max_imu_age (at_time t g)).0,
  (control_now t setpoint max_imu_age (at_time t g)).1,
  ground arith,
  refl,
  refl,
  snapshot_outcome-Reports g.latest t max_imu_age w (later-Inv g t h v).past_latest,
  refl,
  refl,
  refl,
)

-- Whether a snapshot's entry is at least as new as a given source time.
abbrev pub CoversTime : Option Measurement → ℕ → Type 0
CoversTime none t = ⊥
CoversTime (some k) t = t ≤ k.source_time

abbrev pub Covers : Option Measurement → List Measurement → Type 0
Covers o = All (λ m. CoversTime o m.source_time)

abbrev pub CoversOption : Option Measurement → Option Measurement → Type 0
CoversOption o none = Unit
CoversOption o (some m) = CoversTime o m.source_time

CoversTime-trans :
    (o p : Option Measurement) (t : ℕ) → CoversOption p o → CoversTime o t → CoversTime p t
CoversTime-trans none p t h k = absurd k
CoversTime-trans (some a) none t h k = absurd h
CoversTime-trans (some a) (some b) t h k = omega arith

Covers-trans :
    (o p : Option Measurement) (ms : List Measurement)
    → CoversOption p o
    → Covers o ms
    → Covers p ms
Covers-trans o p ms h = All-imp (λ m k. CoversTime-trans o p m.source_time h k) ms

CoversOption-refl : (o : Option Measurement) → CoversOption o o
CoversOption-refl none = tt
CoversOption-refl (some m) = omega arith

CoversOption-trans :
    (o p q : Option Measurement) → CoversOption p o → CoversOption q p → CoversOption q o
CoversOption-trans none p q h k = tt
CoversOption-trans (some m) p q h k = CoversTime-trans p q m.source_time k h

newer-covers :
    (m : Measurement) (o : Option Measurement)
    → CoversTime (newer m o) m.source_time × CoversOption (newer m o) o
unfolding newer
newer-covers m none = (omega arith, tt)
newer-covers m (some k) = ground arith

pick :
    (s st : Stream) (o : Option Measurement) (m : Measurement)
    → m.stream ≡ st
    → Covers o (if same_stream st s then m ∷ [] else [])
    → Covers o (of_stream s (m ∷ []))
pick s st o m e = subst (λ x. Covers o (if same_stream x s then m ∷ [] else [])) (sym e)

note-Covers :
    (st s : Stream) (m : Measurement) (n : Snapshot)
    → m.stream ≡ st
    → CoversOption (last_of s (note_stream st m n)) (last_of s n)
      × Covers (last_of s (note_stream st m n)) (of_stream s (m ∷ []))
unfolding note_stream
note-Covers imu imu m n e =
    let (a, b) = newer-covers m n.last_imu in (b, pick imu imu (newer m n.last_imu) m e (a, tt))
note-Covers imu camera m n e =
    (CoversOption-refl n.last_camera, pick camera imu n.last_camera m e tt)
note-Covers camera imu m n e = (CoversOption-refl n.last_imu, pick imu camera n.last_imu m e tt)
note-Covers camera camera m n e =
    let (a, b) = newer-covers m n.last_camera in
    (b, pick camera camera (newer m n.last_camera) m e (a, tt))

consume-Covers :
    (s : Stream) (ms : List Measurement) (n : Snapshot) (g : Graph)
    → let n' = (consume ms n g).0 in
      CoversOption (last_of s n') (last_of s n) × Covers (last_of s n') (of_stream s ms)
unfolding consume
consume-Covers s [] n g = (CoversOption-refl (last_of s n), tt)
consume-Covers s (m ∷ ms) n g =
    let n1 = note_stream m.stream m n in
    let g1 = set_lane m.stream (count_consumed (lane m.stream g)) g in
    let (old, here) = note-Covers m.stream s m n refl in
    let (kept, later) = consume-Covers s ms n1 g1 in
    let n2 = (consume ms n1 g1).0 in
    (
      CoversOption-trans (last_of s n) (last_of s n1) (last_of s n2) old kept,
      subst (Covers (last_of s n2)) (sym (of_stream-append s (m ∷ []) ms)) (
          All-append _ (of_stream s (m ∷ [])) (of_stream s ms)
            (Covers-trans (last_of s n1) (last_of s n2) _ kept here) later),
    )

abbrev pub last_or : Stream → Option Snapshot → Option Measurement
last_or s none = none
last_or s (some n) = last_of s n

last_of-begun :
    (s : Stream) (o : Option Snapshot) (id t : ℕ)
    → last_of s (record (value_or o no_snapshot) { batch_id = id; completed = t }) ≡ last_or s o
last_of-begun imu none id t = refl
last_of-begun imu (some n) id t = refl
last_of-begun camera none id t = refl
last_of-begun camera (some n) id t = refl

abbrev pub Newest : Stream → Graph → Batch → Snapshot → Type 0
Newest s g b n =
    CoversOption (last_of s n) (last_or s g.latest) × Covers (last_of s n) (of_stream s b.inputs)

finish_batch-Newest :
    (s : Stream) (b : Batch) (t : ℕ) (g : Graph) → Newest s g b (finish_batch b t (at_time t g)).0
unfolding finish_batch
finish_batch-Newest s b t g =
    let begun : Snapshot = record (value_or g.latest no_snapshot) {
      batch_id = b.id;
      completed = t;
    } in
    let (old, new) = consume-Covers s b.inputs begun (at_time t g) in
    (
      subst (CoversOption (last_of s (consume b.inputs begun (at_time t g)).0))
          (last_of-begun s g.latest b.id t) old,
      new,
    )

-- A completed batch never makes a snapshot older: for each stream, the new snapshot's measurement
-- is at least as new, by source time, as the previous snapshot's and as every input of the batch.
pub complete-Newest :
    (s : Stream) (b : Batch) (id t : ℕ) (g : Graph) {n : Snapshot} {g' : Graph}
    → g.running ≡ some b
    → complete id t g ≡ ok (n, g')
    → Newest s g b n
complete-Newest s b id t g {n} {g'} e =
    complete_cases (λ r. r ≡ ok (n, g') → Newest s g b n) id t g (λ _ h. cc)
      λ c q _ _ h.
        let same_batch : c ≡ b = cc in
        let same_snapshot : (finish_batch c t (at_time t g)).0 ≡ n = cc in
        subst₂ (Newest s g) same_batch same_snapshot (finish_batch-Newest s c t g)
