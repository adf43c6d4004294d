-- ===== src/Workload/Bag.antt =====
-- ros2/scx_slam_workload, include/scx_slam_workload/bag_adapter.hpp and src/bag_adapter.cpp: sensor
-- messages of a bag become stamped jobs.
--
-- A text file is what `>>` reads of it: the numbers, and whether the end of the file stopped it. What
-- the clocks show and whether rclcpp's `publish` throws are arguments.
pub mod Index
pub mod Jobs
mod Tests
use scx_slam_fresh.Base.{
  ℕ, suc, ◌+◌, ◌*◌, ◌<◌, Bool, true, false, not, ◌&&◌, ◌||◌, List, [], ◌∷◌, ◌++◌, Option, none,
  some, ◌==◌, if◌then◌else◌, ltb, leb, empty, length, add64, u64, Result, ok, err, ◌>>=◌, ◌>>◌,
  throw_if, has_value,
}

pub data BagError : Type 0 where
  cannot_open invalid_index absent_timestamp bad_stamp zero_argument publish_failed : BagError

-- `std::map<uint64_t, uint64_t>`, in the order of its keys.
pub record IndexEntry : Type 0 where
  pub stamp : ℕ
  pub ordinal : ℕ

pub record IndexFile : Type 0 where
  pub numbers : List ℕ
  pub at_eof : Bool

unfoldable pub bad_row : ℕ → ℕ → ℕ → ℕ → Bool
bad_row stamp ordinal previous size =
    stamp == 0 || (leb stamp previous || not (ordinal == size + 1))

-- The constructor's loop. Stamps grow, so `emplace` puts each at the end.
unfoldable pub read_rows : List ℕ → ℕ → List IndexEntry → Result BagError (List IndexEntry)
read_rows [] previous entries = ok entries
read_rows (stamp ∷ []) previous entries = err invalid_index
read_rows (stamp ∷ ordinal ∷ rest) previous entries =
    let more =
      read_rows rest stamp (entries ++ (record { stamp = stamp; ordinal = ordinal } ∷ [])) in
    if bad_row stamp ordinal previous (length entries) then err invalid_index else more

unfoldable pub check_read : Bool → List IndexEntry → Result BagError (List IndexEntry)
check_read at_eof entries = if not at_eof || empty entries then err invalid_index else ok entries

-- `SourceJobIndex(path)`: no path, no file at the path, or its content.
unfoldable pub load_index : Option (Option IndexFile) → Result BagError (List IndexEntry)
load_index none = ok []
load_index (some none) = err cannot_open
load_index (some (some f)) = read_rows f.numbers 0 [] >>= check_read f.at_eof

unfoldable pub find_stamp : ℕ → List IndexEntry → Result BagError ℕ
find_stamp source_ns [] = err absent_timestamp
find_stamp source_ns (e ∷ es) =
    let rest = find_stamp source_ns es in if e.stamp == source_ns then ok e.ordinal else rest

-- `SourceJobIndex::job_id`.
unfoldable pub job_id : List IndexEntry → ℕ → ℕ → Result BagError ℕ
job_id entries source_ns receive_counter =
    if empty entries then ok receive_counter else find_stamp source_ns entries

-- `builtin_interfaces::msg::Time`: an `int32_t`, by its sign and its magnitude, and a `uint32_t`.
pub record Stamp : Type 0 where
  pub negative : Bool
  pub sec : ℕ
  pub nanosec : ℕ

unfoldable pub source_stamp_ns : Stamp → Result BagError ℕ
source_stamp_ns stamp =
    throw_if (stamp.negative || leb 1000000000 stamp.nanosec) bad_stamp
    >> ok (u64 (u64 (stamp.sec * 1000000000) + stamp.nanosec))

-- `scx_slam_msgs::msg::StampedJob`.
pub record StampedJob : Type 0 where
  pub id : ℕ
  pub release_ts_ns : ℕ
  pub source_ts_ns : ℕ

unfoldable pub make_stamped_job : ℕ → ℕ → Stamp → Result BagError StampedJob
make_stamped_job id release_ts_ns stamp =
    throw_if (id == 0 || release_ts_ns == 0) zero_argument >> source_stamp_ns stamp >>= λ ns.
    ok (record { id = id; release_ts_ns = release_ts_ns; source_ts_ns = ns })

pub record StreamCounts : Type 0 where
  pub received : ℕ
  pub published : ℕ
  pub dropped : ℕ
  pub first_source_ts_ns : ℕ

pub record DeliveryRecord : Type 0 where
  pub job : ℕ
  pub source_ns : ℕ
  pub entry_ns : ℕ
  pub release_ns : ℕ
  pub exit_ns : ℕ
  pub published : Bool

-- The adapter's members that `publish_job` uses, and the jobs that it published, in order.
pub record Adapter : Type 0 where
  pub trace_delivery : Bool
  pub delivery_trace : List DeliveryRecord
  pub trace_omitted : ℕ
  pub counts : StreamCounts
  pub sent : List StampedJob

-- What the outside does in one call: the monotonic clock at its four readings, and `publish`.
pub record Delivery : Type 0 where
  pub stamp : Stamp
  pub entry_ns : ℕ
  pub release_ns : ℕ
  pub exit_ns : ℕ
  pub error_exit_ns : ℕ
  pub publish_throws : Bool

abbrev pub trace_limit : ℕ
trace_limit = 100000

-- What the `try` block left behind: its outcome, the job's id, its trace and the first stamp.
pub record Tried : Type 0 where
  pub id : ℕ
  pub source_ns : ℕ
  pub release_ns : ℕ
  pub first_source_ts_ns : ℕ
  pub job : Option StampedJob  -- what was published

unfoldable pub failed : ℕ → ℕ → Tried
failed id first = record {
  id = id;
  source_ns = 0;
  release_ns = 0;
  first_source_ts_ns = first;
  job = none;
}

unfoldable pub made : Delivery → ℕ → ℕ → Result BagError StampedJob → Tried
made d id first (err e) = failed id first
made d id first (ok job) = record {
  id = id;
  source_ns = job.source_ts_ns;
  release_ns = job.release_ts_ns;
  first_source_ts_ns = if first == 0 then job.source_ts_ns else first;
  job = if d.publish_throws then none else some job;
}

unfoldable pub identified : Delivery → ℕ → ℕ → Result BagError ℕ → Tried
identified d counter first (err e) = failed counter first
identified d counter first (ok id) = made d id first (make_stamped_job id d.release_ns d.stamp)

unfoldable pub try_publish : List IndexEntry → Delivery → ℕ → ℕ → Tried
try_publish index d counter first =
    identified d counter first (source_stamp_ns d.stamp >>= λ ns. job_id index ns counter)

unfoldable pub count_outcome : ℕ → ℕ → Option StampedJob → StreamCounts → StreamCounts
count_outcome received first none c = record {
  received = received;
  published = c.published;
  dropped = add64 c.dropped 1;
  first_source_ts_ns = first;
}
count_outcome received first (some j) c = record {
  received = received;
  published = add64 c.published 1;
  dropped = c.dropped;
  first_source_ts_ns = first;
}

-- The exit time is read after `publish`; where it is still 0, it is read again.
unfoldable pub exit_time : Delivery → Option StampedJob → ℕ
exit_time d none = d.error_exit_ns
exit_time d (some j) = if d.exit_ns == 0 then d.error_exit_ns else d.exit_ns

unfoldable pub trace_of : Delivery → Tried → DeliveryRecord
trace_of d t = record {
  job = t.id;
  source_ns = t.source_ns;
  entry_ns = d.entry_ns;
  release_ns = t.release_ns;
  exit_ns = exit_time d t.job;
  published = has_value t.job;
}

unfoldable pub add_trace : DeliveryRecord → Adapter → Adapter
add_trace row a =
    if not a.trace_delivery
    then a
    else (if ltb (length a.delivery_trace) trace_limit
        then record a { delivery_trace = a.delivery_trace ++ (row ∷ []) }
        else record a { trace_omitted = add64 a.trace_omitted 1 })

abbrev pub sent_jobs : Option StampedJob → List StampedJob
sent_jobs none = []
sent_jobs (some j) = j ∷ []

unfoldable pub publish_job : List IndexEntry → Delivery → Adapter → Adapter
publish_job index d a =
    let received = add64 a.counts.received 1 in
    let t = try_publish index d received a.counts.first_source_ts_ns in
    add_trace (trace_of d t) (record a {
      counts = count_outcome received t.first_source_ts_ns t.job a.counts;
      sent = a.sent ++ sent_jobs t.job;
    })

unfoldable pub publish_all : List IndexEntry → List Delivery → Adapter → Adapter
publish_all index [] a = a
publish_all index (d ∷ ds) a = publish_all index ds (publish_job index d a)

unfoldable pub new_adapter : Bool → Adapter
new_adapter trace = record {
  trace_delivery = trace;
  delivery_trace = [];
  trace_omitted = 0;
  counts = record { received = 0; published = 0; dropped = 0; first_source_ts_ns = 0 };
  sent = [];
}
