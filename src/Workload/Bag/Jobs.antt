-- ===== src/Workload/Bag/Jobs.antt =====
-- ros2/scx_slam_workload/src/bag_adapter.cpp, `publish_job`: the counters and the trace account for
-- every message.
use mathlib.Core.Option.{some-injective}
use scx_slam_fresh.Base.{
  sym, ◌*◌, leb, ok_injective, append-nil, ◌≤◌, [], ◌∷◌, inl, inr, ◌==◌, ◌||◌, ok, err, some, ◌<◌,
  ◌+◌, ℕ, ◌^◌, ◌≡◌, length, true, length-append, Bool-cases, ltb, List, arith, Bool, add64, subst,
  Option-cases, refl, ◌≢◌, false, Result, ◌⊎◌,
}
use scx_slam_fresh.Workload.Bag.{
  add_trace, Adapter, DeliveryRecord, trace_limit, publish_all, publish_job, IndexEntry, Delivery,
  StampedJob, new_adapter, try_publish, source_stamp_ns, count_outcome, job_id, trace_of, Stamp,
  find_stamp, identified, made, failed, make_stamped_job,
}

-- After `n` messages.
pub record Accounts (n : ℕ) (a : Adapter) : Type 0 where
  pub received_all : a.counts.received ≡ n
  pub published_or_dropped : a.counts.published + a.counts.dropped ≡ n
  pub sent_all : length a.sent ≡ a.counts.published
  pub traced_all : a.trace_delivery ≡ true → length a.delivery_trace + a.trace_omitted ≡ n
  pub trace_bounded : length a.delivery_trace ≤ trace_limit

add_trace-Accounts :
    (n : ℕ) (row : DeliveryRecord) (a : Adapter)
    → n + 1 < 2 ^ 64
    → a.counts.received ≡ n + 1
    → a.counts.published + a.counts.dropped ≡ n + 1
    → length a.sent ≡ a.counts.published
    → (a.trace_delivery ≡ true → length a.delivery_trace + a.trace_omitted ≡ n)
    → length a.delivery_trace ≤ trace_limit
    → Accounts (n + 1) (add_trace row a)
unfolding add_trace
add_trace-Accounts n row a small r p s t b =
    let l = length-append a.delivery_trace (row ∷ []) in
    elim (Bool-cases a.trace_delivery) [
      | inr off ↦ simp off (record {
        received_all = r;
        published_or_dropped = p;
        sent_all = s;
        traced_all = λ q. ground arith;
        trace_bounded = b;
      })
      | inl on ↦
          let t1 = t on in
          elim (Bool-cases (ltb (length a.delivery_trace) trace_limit)) [
            | inl room ↦
                simp (on, room)
                  (record {
                    received_all = r;
                    published_or_dropped = p;
                    sent_all = s;
                    traced_all = λ q. omega arith;
                    trace_bounded = ground arith;
                  })
            | inr full ↦
                simp (on, full)
                  (record {
                    received_all = r;
                    published_or_dropped = p;
                    sent_all = s;
                    traced_all = λ q. omega arith;
                    trace_bounded = b;
                  })
          ]
    ]

publish-Accounts :
    (n : ℕ) (index : List IndexEntry) (d : Delivery) (a : Adapter)
    → n + 1 < 2 ^ 64
    → Accounts n a
    → Accounts (n + 1) (publish_job index d a)
unfolding publish_job
publish-Accounts n index d a small i =
    let received = add64 a.counts.received 1 in
    let t = try_publish index d received a.counts.first_source_ts_ns in
    let r = i.received_all in
    let p = i.published_or_dropped in
    let s = i.sent_all in
    elim (Option-cases t.job) [
      | inl o ↦
          unfold count_outcome in
          add_trace-Accounts n (trace_of d t) _ small (simp o (omega arith)) (simp o (omega arith))
            (simp (o, append-nil a.sent) s) i.traced_all i.trace_bounded
      | inr o ↦
          let l = length-append a.sent (o.0 ∷ []) in
          unfold count_outcome in
          add_trace-Accounts n (trace_of d t) _ small (simp (o.1) (omega arith))
            (simp (o.1) (omega arith)) (simp (o.1) (omega arith)) i.traced_all i.trace_bounded
    ]

publish_more-Accounts :
    (n : ℕ) (index : List IndexEntry) (ds : List Delivery) (a : Adapter)
    → n + length ds < 2 ^ 64
    → Accounts n a
    → Accounts (n + length ds) (publish_all index ds a)
unfolding publish_all
publish_more-Accounts n index [] a small i = subst (λ k. Accounts k a) (omega arith) i
publish_more-Accounts n index (d ∷ ds) a small i =
    subst (λ k. Accounts k (publish_all index ds (publish_job index d a))) (omega arith)
      (publish_more-Accounts (n + 1) index ds (publish_job index d a) (omega arith)
        (publish-Accounts n index d a (omega arith) i))

-- After fewer than 2 ^ 64 messages of a stream on a new adapter, whatever stamps they have and
-- whichever of them rclcpp refuses: every message is counted as received, and as exactly one of
-- published and dropped; what was published is what was counted; and a trace, where it is on, has
-- a row for every message or counts it as omitted, and never more rows than its limit.
pub publish_all-Accounts :
    (index : List IndexEntry) (ds : List Delivery) (trace : Bool)
    → length ds < 2 ^ 64
    → Accounts (length ds) (publish_all index ds (new_adapter trace))
publish_all-Accounts index ds trace small =
    let new : Accounts 0 (new_adapter trace) =
      unfold new_adapter in
      record {
        received_all = refl;
        published_or_dropped = omega arith;
        sent_all = refl;
        traced_all = λ q. omega arith;
        trace_bounded = omega arith;
      } in
    subst (λ k. Accounts k (publish_all index ds (new_adapter trace))) (omega arith)
      (publish_more-Accounts 0 index ds (new_adapter trace) (omega arith) new)

pub Result-cases :
    {E A : Type 0} (o : Result E A) → ((e : E) × (o ≡ err e)) ⊎ ((x : A) × (o ≡ ok x))
Result-cases (ok x) = inr (x, refl)
Result-cases (err e) = inl (e, refl)

-- Some entry has the stamp and the ordinal.
abbrev pub Has : ℕ → ℕ → List IndexEntry → Type 0
Has ns id [] = ⊥
Has ns id (e ∷ es) = ((e.stamp ≡ ns) × (e.ordinal ≡ id)) ⊎ Has ns id es

-- Where an id comes from.
abbrev pub Named : List IndexEntry → ℕ → ℕ → ℕ → Type 0
Named [] ns counter id = id ≡ counter
Named (e ∷ es) ns counter id = Has ns id (e ∷ es)

-- What the `try` block checked, if it published a job.
published_parts :
    (index : List IndexEntry) (d : Delivery) (counter first : ℕ) (j : StampedJob)
    → (try_publish index d counter first).job ≡ some j
    → (source_stamp_ns d.stamp ≡ ok j.source_ts_ns)
      × (job_id index j.source_ts_ns counter ≡ ok j.id)
      × (j.id ≢ 0)
      × (j.release_ts_ns ≡ d.release_ns)
      × (j.release_ts_ns ≢ 0)
      × (d.publish_throws ≡ false)
unfolding try_publish identified made failed make_stamped_job
published_parts index d counter first j h = elim (Result-cases (source_stamp_ns d.stamp)) [
  | inl q ↦ (let c = simp (q.1) at h in ground arith)
  | inr q ↦
      let h1 = simp (q.1) at h in
      elim (Result-cases (job_id index q.0 counter)) [
        | inl k ↦ (let c = simp (k.1) at h1 in ground arith)
        | inr k ↦
            let h2 = simp (k.1) at h1 in
            elim (Bool-cases (k.0 == 0 || d.release_ns == 0)) [
              | inl z ↦ (let c = simp (z, q.1) at h2 in ground arith)
              | inr z ↦
                  let h3 = simp (z, q.1) at h2 in
                  elim (Bool-cases d.publish_throws) [
                    | inl t ↦ (let c = simp t at h3 in ground arith)
                    | inr t ↦
                        let e = some-injective _ _ (simp t at h3) in
                        let ids : (k.0 ≢ 0) × (d.release_ns ≢ 0) = (ground arith) in
                        subst
                          (λ x.
                            (source_stamp_ns d.stamp ≡ ok x.source_ts_ns)
                            × (job_id index x.source_ts_ns counter ≡ ok x.id)
                            × (x.id ≢ 0)
                            × (x.release_ts_ns ≡ d.release_ns)
                            × (x.release_ts_ns ≢ 0)
                            × (d.publish_throws ≡ false))
                          e (q.1, k.1, ids.0, refl, ids.1, t)
                  ]
            ]
      ]
]

source_stamp-exact :
    (stamp : Stamp) (ns : ℕ)
    → source_stamp_ns stamp ≡ ok ns
    → stamp.sec < 2 ^ 31
    → (stamp.negative ≡ false)
      × (stamp.nanosec < 1000000000)
      × (ns ≡ stamp.sec * 1000000000 + stamp.nanosec)
unfolding source_stamp_ns
source_stamp-exact stamp ns e small =
    elim (Bool-cases (stamp.negative || leb 1000000000 stamp.nanosec)) [
      | inl k ↦ absurd (ground arith)
      | inr k ↦ let q = ok_injective (simp k at e) in (ground arith, ground arith, ground arith)
    ]

find_stamp-Mem : (ns id : ℕ) (es : List IndexEntry) → find_stamp ns es ≡ ok id → Has ns id es
unfolding find_stamp
find_stamp-Mem ns id [] e = absurd (ground arith)
find_stamp-Mem ns id (x ∷ es) e = elim (Bool-cases (x.stamp == ns)) [
  | inl k ↦ let q = ok_injective (simp k at e) in inl (ground arith, q)
  | inr k ↦ inr (find_stamp-Mem ns id es (simp k at e))
]

job_id-Named :
    (index : List IndexEntry) (ns counter id : ℕ)
    → job_id index ns counter ≡ ok id
    → Named index ns counter id
unfolding job_id
job_id-Named [] ns counter id e = sym (ok_injective e)
job_id-Named (x ∷ es) ns counter id e = find_stamp-Mem ns id (x ∷ es) e

-- A message, with seconds as an `int32_t` has them, is published as a job only if its stamp is not
-- negative and its nanoseconds are less than a second's, rclcpp's `publish` returns and the clock
-- does not show 0. The job's source time is then the stamp's seconds and nanoseconds, with no
-- wrap-around, its release the clock's time, and its id, which is not 0, is the ordinal that an
-- entry of the index has for exactly this source time, or without an index the receive counter.
pub published_job_is_stamped :
    (index : List IndexEntry) (d : Delivery) (counter first : ℕ) (j : StampedJob)
    → d.stamp.sec < 2 ^ 31
    → (try_publish index d counter first).job ≡ some j
    → (d.stamp.negative ≡ false)
      × (d.stamp.nanosec < 1000000000)
      × (j.source_ts_ns ≡ d.stamp.sec * 1000000000 + d.stamp.nanosec)
      × Named index j.source_ts_ns counter j.id
      × (j.id ≢ 0)
      × (j.release_ts_ns ≡ d.release_ns)
      × (j.release_ts_ns ≢ 0)
      × (d.publish_throws ≡ false)
published_job_is_stamped index d counter first j small h =
    let (a, b, c, e, f, g) = published_parts index d counter first j h in
    let (p, q, r) = source_stamp-exact d.stamp j.source_ts_ns a small in
    (p, q, r, job_id-Named index j.source_ts_ns counter j.id b, c, e, f, g)
