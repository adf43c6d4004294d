-- ===== src/Workload/Bag/Tests.antt =====
-- ros2/scx_slam_workload: an index of three stamps, and messages with and without one.
use scx_slam_fresh.Base.{
  ◌*◌, ◌+◌, ℕ, ◌≡◌, ◌≢◌, refl, ◌≤◌, ◌<◌, ◌↔◌, Bool, true, false, List, [], ◌∷◌, some, ok, length,
  arith,
}
use scx_slam_fresh.Workload.Bag.Jobs.{
  Accounts, Named, published_job_is_stamped, publish_all-Accounts,
}
use scx_slam_fresh.Workload.Bag.{
  Delivery, IndexEntry, IndexFile, Stamp, StampedJob, job_id, load_index, publish_all,
  source_stamp_ns, try_publish, find_stamp, identified, new_adapter, publish_job, read_rows,
  bad_row, made, check_read, failed, make_stamped_job, count_outcome, add_trace,
}
use scx_slam_fresh.Workload.Bag.Index.{index_orders_jobs}

abbrev file : IndexFile
file = record { numbers = 5000000000 ∷ 1 ∷ 5005000000 ∷ 2 ∷ 5010000000 ∷ 3 ∷ []; at_eof = true }

abbrev entry : ℕ → ℕ → IndexEntry
entry s n = record { stamp = s; ordinal = n }

abbrev index : List IndexEntry
index = entry 5000000000 1 ∷ entry 5005000000 2 ∷ entry 5010000000 3 ∷ []

file_loads : load_index (some (some file)) ≡ ok index
unfolding load_index read_rows bad_row check_read
file_loads = refl

first_id : job_id index 5000000000 9 ≡ ok 1
unfolding job_id find_stamp
first_id = refl

third_id : job_id index 5010000000 10 ≡ ok 3
unfolding job_id find_stamp
third_id = refl

index_orders_jobs_example :
    (1 ≤ 1)
    × (1 ≤ length index)
    × ((5000000000 < 5010000000) ↔ (1 < 3))
    × (◌≡◌ {A = ℕ} 1 3 → ◌≡◌ {A = ℕ} 5000000000 5010000000)
index_orders_jobs_example =
    index_orders_jobs file index 5000000000 5010000000 9 10 1 3 file_loads first_id third_id

abbrev stamp_of : ℕ → ℕ → Stamp
stamp_of s n = record { negative = false; sec = s; nanosec = n }

accepted : source_stamp_ns (stamp_of 5 10000000) ≡ ok 5010000000
unfolding source_stamp_ns
accepted = refl

abbrev delivery : Stamp → Bool → Delivery
delivery s throws = record {
  stamp = s;
  entry_ns = 100;
  release_ns = 110;
  exit_ns = 120;
  error_exit_ns = 130;
  publish_throws = throws;
}

-- Published; absent from the index; refused by rclcpp.
abbrev messages : List Delivery
messages =
    delivery (stamp_of 5 10000000) false
    ∷ delivery (stamp_of 6 0) false
    ∷ delivery (stamp_of 5 0) true
    ∷ []

messages_counts :
    (publish_all index messages (new_adapter true)).counts
    ≡ record { received = 3; published = 1; dropped = 2; first_source_ts_ns = 5010000000 }
unfolding publish_all publish_job new_adapter try_publish identified made failed make_stamped_job
    source_stamp_ns job_id find_stamp count_outcome add_trace
messages_counts = refl

publish_all-Accounts_example : Accounts 3 (publish_all index messages (new_adapter true))
publish_all-Accounts_example = publish_all-Accounts index messages true (omega arith)

abbrev third_job : StampedJob
third_job = record { id = 3; release_ts_ns = 110; source_ts_ns = 5010000000 }

third_published :
    (try_publish index (delivery (stamp_of 5 10000000) false) 1 0).job ≡ some third_job
unfolding try_publish identified made failed make_stamped_job source_stamp_ns job_id find_stamp
third_published = refl

published_job_is_stamped_example :
    (◌≡◌ {A = Bool} false false)
    × (10000000 < 1000000000)
    × (5010000000 ≡ 5 * 1000000000 + 10000000)
    × Named index 5010000000 1 3
    × (◌≢◌ {A = ℕ} 3 0)
    × (◌≡◌ {A = ℕ} 110 110)
    × (◌≢◌ {A = ℕ} 110 0)
    × (◌≡◌ {A = Bool} false false)
published_job_is_stamped_example =
    published_job_is_stamped index (delivery (stamp_of 5 10000000) false) 1 0 third_job
      (omega arith) third_published
