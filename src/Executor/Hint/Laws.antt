-- ===== src/Executor/Hint/Laws.antt =====
-- ros2/scx_slam_executor/src/freshness_executor.cpp: what the hint arithmetic promises.
use scx_slam_fresh.Base.{
  ℕ, ◌+◌, ◌<◌, ◌≤◌, ◌≡◌, ◌↔◌, ◌⊎◌, Bool, true, Option, none, some, min, u64_max, arith, ◌^◌, ◌≢◌,
}
use scx_slam_fresh.Executor.Hint.{
  add_saturating, expired, make_hint, CallbackProfile, Hint, MessageMetadata,
}

-- On 64-bit words the sum saturates: it is the true sum or the largest word, whichever is smaller.
pub add_saturating-min :
    (a b : ℕ) → a < 2 ^ 64 → b < 2 ^ 64 → add_saturating a b ≡ min (a + b) u64_max
unfolding add_saturating
add_saturating-min a b ha hb = ground arith

-- A profile with a relative deadline gives a hint with a deadline, and one without gives none: the
-- sum never wraps to the 0 that means "no deadline", and lies at or after the release.
pub make_hint_deadline :
    (p : CallbackProfile) (o : Option MessageMetadata) (now next : ℕ)
    → (make_hint p o now next).0.release_ts_ns < 2 ^ 64
    → p.relative_deadline_ns < 2 ^ 64
    → let h = (make_hint p o now next).0 in
      ((h.deadline_ts_ns ≡ 0) ↔ (p.relative_deadline_ns ≡ 0))
      × (p.relative_deadline_ns ≢ 0 → h.release_ts_ns ≤ h.deadline_ts_ns)
unfolding make_hint
make_hint_deadline p none now next hr hd = ground arith
make_hint_deadline p (some m) now next hr hd = ground arith

-- Without saturation a message has expired exactly if its profile rejects expired messages and its
-- age is beyond the relative deadline, or beyond the stale bound, where those are set.
pub expired_iff_age :
    (p : CallbackProfile) (m : MessageMetadata) (now clock next : ℕ)
    → now < 2 ^ 64
    → m.release_ts_ns + p.relative_deadline_ns < 2 ^ 64
    → 0 < m.release_ts_ns
    → (expired p.reject_expired (make_hint p (some m) clock next).0 now ≡ true) ↔ (
        (p.reject_expired ≡ true)
        × (((p.relative_deadline_ns ≢ 0) × (m.release_ts_ns + p.relative_deadline_ns < now))
            ⊎ ((p.stale_ns ≢ 0) × (m.release_ts_ns + p.stale_ns < now))))
unfolding make_hint expired
expired_iff_age p m now clock next hn hs hr = ground arith

-- Once expired, work stays expired: the second check, at the worker, never admits what the first,
-- at the dispatcher, would have rejected earlier.
pub expired_later :
    (reject : Bool) (h : Hint) (now later : ℕ)
    → now ≤ later
    → later < 2 ^ 64
    → expired reject h now ≡ true
    → expired reject h later ≡ true
unfolding expired
expired_later reject h now later le w e = ground arith
