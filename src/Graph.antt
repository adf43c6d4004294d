-- ===== src/Graph.antt =====
-- demo/dependent_graph.h: the data and the operations of `Graph`. A method returns its result with
-- the new graph, or the exception that it throws; a throw comes before any write.
pub mod Calls
pub mod Select
pub mod Order
pub mod Invariant
pub mod Run
pub mod History
pub mod Ownership
pub mod Freshness
pub mod Returns
mod Tests
use scx_slam_fresh.Base.{
  ℕ, zero, suc, ◌+◌, Bool, true, false, ◌||◌, List, [], ◌∷◌, ◌++◌, Option, none, some, ltb, leb,
  ◌==◌, if◌then◌else◌, value_or, length, u64, sub64, Result, ok, err, ◌>>=◌, ◌>>◌, throw_if,
}

pub data Stream : Type 0 where
  imu camera : Stream

pub record Measurement : Type 0 where
  pub stream : Stream
  pub sequence : ℕ
  pub source_time : ℕ

pub record Counts : Type 0 where
  pub offered : ℕ
  pub dropped : ℕ
  pub consumed : ℕ

pub record Batch : Type 0 where
  pub id : ℕ
  pub inputs : List Measurement

pub record Snapshot : Type 0 where
  pub batch_id : ℕ
  pub completed : ℕ
  pub last_imu : Option Measurement
  pub last_camera : Option Measurement

pub data Outcome : Type 0 where
  usable stale missing : Outcome

pub record Control : Type 0 where
  pub tick : ℕ
  pub setpoint : ℕ
  pub release : ℕ
  pub outcome : Outcome
  pub snapshot : Option Snapshot

-- `inbox[i]`, `accounting[i]` and `last_sequence[i]` for one index.
pub record Lane : Type 0 where
  pub inbox : List Measurement
  pub accounting : Counts
  pub last_sequence : Option ℕ

pub record Graph : Type 0 where
  pub capacity : ℕ
  pub limit : ℕ
  pub lane_imu : Lane
  pub lane_camera : Lane
  pub running : Option Batch
  pub latest : Option Snapshot
  pub next_batch : ℕ
  pub next_tick : ℕ
  pub clock_time : ℕ

pub data GraphError : Type 0 where
  clock_moved_backwards invalid_measurement wrong_completion_owner zero_limit : GraphError

-- The lane at `index(s)`, and a write to it.
abbrev pub lane : Stream → Graph → Lane
lane imu g = g.lane_imu
lane camera g = g.lane_camera

abbrev pub set_lane : Stream → Lane → Graph → Graph
set_lane imu l g = record g { lane_imu = l }
set_lane camera l g = record g { lane_camera = l }

abbrev pub same_stream : Stream → Stream → Bool
same_stream imu imu = true
same_stream camera camera = true
same_stream _ _ = false

abbrev pub empty_lane : Lane
empty_lane = record {
  inbox = [];
  accounting = record { offered = 0; dropped = 0; consumed = 0 };
  last_sequence = none;
}

-- The constructor.
unfoldable pub new_graph : ℕ → ℕ → Result GraphError Graph
new_graph capacity batch_limit = do
  throw_if (capacity == 0 || batch_limit == 0) zero_limit
  ok (record {
    capacity = capacity;
    limit = batch_limit;
    lane_imu = empty_lane;
    lane_camera = empty_lane;
    running = none;
    latest = none;
    next_batch = 1;
    next_tick = 1;
    clock_time = 0;
  })

unfoldable pub advance : ℕ → Graph → Result GraphError Graph
advance t g = do
  throw_if (ltb t g.clock_time) clock_moved_backwards
  ok (record g { clock_time = t })

unfoldable pub repeats : Option ℕ → ℕ → Bool
repeats none sequence = false
repeats (some last) sequence = leb sequence last

-- The writes of `offer` to one lane, behind its checks.
unfoldable pub enqueue : ℕ → Measurement → Lane → Bool × Lane
enqueue capacity m l =
    let offered = record l.accounting { offered = u64 (l.accounting.offered + 1) } in
    let seen = record l { last_sequence = some m.sequence; accounting = offered } in
    if length l.inbox == capacity
    then (
      false,
      record seen { accounting = record offered { dropped = u64 (offered.dropped + 1) } },
    )
    else (true, record seen { inbox = l.inbox ++ m ∷ [] })

unfoldable pub offer : Measurement → ℕ → Graph → Result GraphError (Bool × Graph)
unfolding advance repeats enqueue
offer m arrival g = do
  throw_if (ltb arrival m.source_time || repeats (lane m.stream g).last_sequence m.sequence)
      invalid_measurement
  g' ← advance arrival g
  let (accepted, l) = enqueue g.capacity m (lane m.stream g')
  ok (accepted, set_lane m.stream l g')

pub record Fill : Type 0 where
  pub taken : List Measurement
  pub rest_imu : List Measurement
  pub rest_camera : List Measurement

abbrev pub push_front : Measurement → Fill → Fill
push_front m f = record f { taken = m ∷ f.taken }

-- The loop of `select`, by the room left in the batch, `limit - b.inputs.size()`: the front with
-- the smaller source time goes first, and the IMU's at a tie.
unfoldable pub fill : ℕ → List Measurement → List Measurement → Fill
fill zero xs ys = record { taken = []; rest_imu = xs; rest_camera = ys }
fill (suc room) [] [] = record { taken = []; rest_imu = []; rest_camera = [] }
fill (suc room) (x ∷ xs) [] = push_front x (fill room xs [])
fill (suc room) [] (y ∷ ys) = push_front y (fill room [] ys)
fill (suc room) (x ∷ xs) (y ∷ ys) =
    let from_camera = push_front y (fill room (x ∷ xs) ys) in
    let from_imu = push_front x (fill room xs (y ∷ ys)) in
    if ltb y.source_time x.source_time then from_camera else from_imu

-- What `select` does with the inputs that it took.
unfoldable pub start_batch : List Measurement → Graph → Option Batch × Graph
start_batch [] g = (none, g)
start_batch (m ∷ ms) g =
    let b : Batch = record { id = g.next_batch; inputs = m ∷ ms } in
    (some b, record g { next_batch = u64 (g.next_batch + 1); running = some b })

abbrev pub leave : Fill → Graph → Graph
leave f g = record g {
  lane_imu = record g.lane_imu { inbox = f.rest_imu };
  lane_camera = record g.lane_camera { inbox = f.rest_camera };
}

unfoldable pub select_idle : Option Batch → Graph → Option Batch × Graph
unfolding start_batch
select_idle (some b) g = (none, g)
select_idle none g =
    let f = fill g.limit g.lane_imu.inbox g.lane_camera.inbox in start_batch f.taken (leave f g)

unfoldable pub select : ℕ → Graph → Result GraphError (Option Batch × Graph)
unfolding advance select_idle
select t g = do g' ← advance t g; ok (select_idle g'.running g')

-- `if (!last || m.source_time >= last->source_time) last = m;`
unfoldable pub newer : Measurement → Option Measurement → Option Measurement
newer m none = some m
newer m (some last) = if leb last.source_time m.source_time then some m else some last

unfoldable pub note_stream : Stream → Measurement → Snapshot → Snapshot
unfolding newer
note_stream imu m s = record s { last_imu = newer m s.last_imu }
note_stream camera m s = record s { last_camera = newer m s.last_camera }

abbrev pub count_consumed : Lane → Lane
count_consumed l = record l {
  accounting = record l.accounting { consumed = u64 (l.accounting.consumed + 1) };
}

-- The loop of `complete` over the running inputs.
unfoldable pub consume : List Measurement → Snapshot → Graph → Snapshot × Graph
unfolding note_stream
consume [] s g = (s, g)
consume (m ∷ ms) s g =
    consume ms (note_stream m.stream m s) (set_lane m.stream (count_consumed (lane m.stream g)) g)

abbrev pub no_snapshot : Snapshot
no_snapshot = record { batch_id = 0; completed = 0; last_imu = none; last_camera = none }

unfoldable pub finish_batch : Batch → ℕ → Graph → Snapshot × Graph
finish_batch b t g =
    let s0 = record (value_or g.latest no_snapshot) { batch_id = b.id; completed = t } in
    let (s, g') = consume b.inputs s0 g in (s, record g' { latest = some s; running = none })

unfoldable pub complete_running :
    Option Batch → ℕ → ℕ → Graph → Result GraphError (Snapshot × Graph)
unfolding advance finish_batch
complete_running none id t g = err wrong_completion_owner
complete_running (some b) id t g = do
  throw_if (if b.id == id then false else true) wrong_completion_owner
  g' ← advance t g
  ok (finish_batch b t g')

unfoldable pub complete : ℕ → ℕ → Graph → Result GraphError (Snapshot × Graph)
unfolding complete_running
complete id t g = complete_running g.running id t g

unfoldable pub imu_outcome : Option Measurement → ℕ → ℕ → Outcome
imu_outcome none t max_imu_age = missing
imu_outcome (some m) t max_imu_age =
    if leb (sub64 t m.source_time) max_imu_age then usable else stale

unfoldable pub snapshot_outcome : Option Snapshot → ℕ → ℕ → Outcome
unfolding imu_outcome
snapshot_outcome none t max_imu_age = missing
snapshot_outcome (some s) t max_imu_age = imu_outcome s.last_imu t max_imu_age

-- What `control` reports and writes once the clock has moved to `t`.
unfoldable pub control_now : ℕ → ℕ → ℕ → Graph → Control × Graph
unfolding snapshot_outcome
control_now t setpoint max_imu_age g =
    let c : Control = record {
      tick = g.next_tick;
      setpoint = setpoint;
      release = t;
      outcome = snapshot_outcome g.latest t max_imu_age;
      snapshot = g.latest;
    } in
    (c, record g { next_tick = u64 (g.next_tick + 1) })

unfoldable pub control : ℕ → ℕ → ℕ → Graph → Result GraphError (Control × Graph)
unfolding advance control_now
control t setpoint max_imu_age g = do g' ← advance t g; ok (control_now t setpoint max_imu_age g')

pub counts : Stream → Graph → Counts
counts s g = (lane s g).accounting

unfoldable pub pending : Stream → Graph → ℕ
pending s g = length (lane s g).inbox

-- `std::count_if` over the running inputs.
unfoldable pub count_stream : Stream → List Measurement → ℕ
count_stream s [] = 0
count_stream s (m ∷ ms) =
    let rest = count_stream s ms in if same_stream m.stream s then suc rest else rest

abbrev pub inputs_of : Option Batch → List Measurement
inputs_of none = []
inputs_of (some b) = b.inputs

pub in_flight : Stream → Graph → ℕ
unfolding count_stream
in_flight s g = count_stream s (inputs_of g.running)
