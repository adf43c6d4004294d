-- ===== src/Graph/History/Steps.antt =====
-- demo/dependent_graph.h: `Graph` under each single call, against the log.
use scx_slam_fresh.Base.{
  ℕ, ◌≡◌, refl, sym, ap, ◌∙◌, inl, inr, Bool-cases, Bool, true, false, List, [], ◌∷◌, ◌++◌,
  append-nil, append_assoc, Option, none, some, ◌==◌, length, Result, ok,
}
use scx_slam_fresh.Graph.{
  Stream, imu, camera, Measurement, Batch, Snapshot, Lane, Graph, GraphError, lane, set_lane, fill,
  start_batch, select_idle, enqueue, offer, Fill, consume, note_stream, finish_batch, inputs_of,
  same_stream, control_now, leave,
}
use scx_slam_fresh.Graph.Calls.{
  selects, completes, controls, after, at_time, offer_cases, select_cases, complete_cases,
  control_cases,
}
use scx_slam_fresh.Graph.Select.{of_stream, of_stream-append, fill-Splits}
use scx_slam_fresh.Graph.Invariant.{Inv, later-Inv}
use scx_slam_fresh.Graph.History.Log.{History, accepted_by, processed_by, watch, Logged}

log-snoc :
    (a p f i : List Measurement) (m : Measurement)
    → a ≡ p ++ (f ++ i)
    → a ++ m ∷ [] ≡ p ++ (f ++ (i ++ m ∷ []))
log-snoc a p f i m h = rw h (simp append_assoc)

of_stream-snoc_other :
    (s : Stream) (a : List Measurement) (m : Measurement)
    → same_stream m.stream s ≡ false
    → of_stream s (a ++ m ∷ []) ≡ of_stream s a
of_stream-snoc_other s a m e = of_stream-append s a (m ∷ []) ∙ rw e (append-nil (of_stream s a))

of_stream-snoc_same :
    (s : Stream) (a : List Measurement) (m : Measurement)
    → same_stream m.stream s ≡ true
    → of_stream s (a ++ m ∷ []) ≡ of_stream s a ++ m ∷ []
of_stream-snoc_same s a m e = of_stream-append s a (m ∷ []) ∙ rw e

-- A write of one lane that appends to its inbox what is appended to the log.
append-Logged :
    (st s : Stream) (m : Measurement) (l : Lane) (h : History)
    → m.stream ≡ st
    → l.inbox ≡ (lane st h.graph).inbox ++ m ∷ []
    → Logged s h
    → Logged s (record h { graph = set_lane st l h.graph; accepted = h.accepted ++ m ∷ [] })
append-Logged imu imu m l h e i k =
    of_stream-snoc_same imu h.accepted m (rw e)
    ∙ rw i (
        log-snoc _ (of_stream imu h.processed) (of_stream imu (inputs_of h.graph.running))
          (lane imu h.graph).inbox m k)
append-Logged imu camera m l h e i k = of_stream-snoc_other camera h.accepted m (rw e) ∙ k
append-Logged camera imu m l h e i k = of_stream-snoc_other imu h.accepted m (rw e) ∙ k
append-Logged camera camera m l h e i k =
    of_stream-snoc_same camera h.accepted m (rw e)
    ∙ rw i (
        log-snoc _ (of_stream camera h.processed) (of_stream camera (inputs_of h.graph.running))
          (lane camera h.graph).inbox m k)

keep-Logged :
    (st s : Stream) (l : Lane) (h : History)
    → l.inbox ≡ (lane st h.graph).inbox
    → Logged s h
    → Logged s (record h { graph = set_lane st l h.graph; accepted = h.accepted ++ [] })
keep-Logged imu imu l h i k = rw (append-nil h.accepted, i) k
keep-Logged imu camera l h i k = rw (append-nil h.accepted) k
keep-Logged camera imu l h i k = rw (append-nil h.accepted) k
keep-Logged camera camera l h i k = rw (append-nil h.accepted, i) k

later-Logged :
    (s : Stream) (h : History) (t : ℕ)
    → Logged s h
    → Logged s (record h { graph = at_time t h.graph })
later-Logged imu h t k = k
later-Logged camera h t k = k

unfoldable pub after_offer : Measurement → History → Result GraphError (Bool × Graph) → History
after_offer m h r = record h { graph = after h.graph r; accepted = h.accepted ++ accepted_by m r }

enqueue-Logged :
    (s : Stream) (m : Measurement) (h : History)
    → Logged s h
    → let (accepted, l) = enqueue h.graph.capacity m (lane m.stream h.graph) in
      Logged s (after_offer m h (ok (accepted, set_lane m.stream l h.graph)))
unfolding enqueue after_offer
enqueue-Logged s m h k =
    elim (Bool-cases (length (lane m.stream h.graph).inbox == h.graph.capacity)) [
      | inl e ↦ rw (e, enqueue) (keep-Logged m.stream s _ h refl k)
      | inr e ↦ rw (e, enqueue) (append-Logged m.stream s m _ h refl refl k)
    ]

pub offer-Logged :
    (s : Stream) (m : Measurement) (t : ℕ) (h : History)
    → Logged s h
    → Logged s (after_offer m h (offer m t h.graph))
unfolding after_offer
offer-Logged s m t h k =
    offer_cases (λ r. Logged s (after_offer m h r)) m t h.graph (λ e. rw (append-nil h.accepted) k)
      (λ _ _ _. enqueue-Logged s m (record h { graph = at_time t h.graph }) (later-Logged s h t k))

start_batch-Logged :
    (s : Stream) (ms : List Measurement) (g : Graph) (i : List Measurement)
    → g.running ≡ none
    → of_stream s ms ++ (lane s g).inbox ≡ i
    → of_stream s (inputs_of (start_batch ms g).1.running) ++ (lane s (start_batch ms g).1).inbox
      ≡ i
unfolding start_batch
start_batch-Logged s [] g i e h = rw (ap inputs_of e) h
start_batch-Logged imu (m ∷ ms) g i e h = h
start_batch-Logged camera (m ∷ ms) g i e h = h

select_idle-queue :
    (s : Stream) (o : Option Batch) (g : Graph)
    → g.running ≡ o
    → Inv g
    → let g' = (select_idle o g).1 in
      of_stream s (inputs_of g'.running) ++ (lane s g').inbox
      ≡ of_stream s (inputs_of g.running) ++ (lane s g).inbox
unfolding select_idle
select_idle-queue s (some b) g e v = refl
select_idle-queue imu none g e v =
    start_batch-Logged imu f.taken (leave f g) _ e
      ((fill-Splits g.limit _ _ v.inv_imu.mine v.inv_camera.mine).split_imu ∙ rw (ap inputs_of e))
  where
    f : Fill
    f = fill g.limit g.lane_imu.inbox g.lane_camera.inbox
select_idle-queue camera none g e v =
    start_batch-Logged camera f.taken (leave f g) _ e (
      (fill-Splits g.limit _ _ v.inv_imu.mine v.inv_camera.mine).split_camera ∙ rw (ap inputs_of e))
  where
    f : Fill
    f = fill g.limit g.lane_imu.inbox g.lane_camera.inbox

lane-at_time : (s : Stream) (t : ℕ) (g : Graph) → (lane s (at_time t g)).inbox ≡ (lane s g).inbox
lane-at_time imu t g = refl
lane-at_time camera t g = refl

pub select-Logged :
    (s : Stream) (t : ℕ) (h : History) → Inv h.graph → Logged s h → Logged s (watch h (selects t))
unfolding watch
select-Logged s t h v k =
    select_cases (λ r. Logged s (record h { graph = after h.graph r })) t h.graph (λ e. k)
      λ on.
        rw
          (
            select_idle-queue s h.graph.running (at_time t h.graph) refl (later-Inv h.graph t on v),
            lane-at_time s t h.graph,
          )
          k

set_lane-inbox :
    (st s : Stream) (l : Lane) (g : Graph)
    → l.inbox ≡ (lane st g).inbox
    → (lane s (set_lane st l g)).inbox ≡ (lane s g).inbox
set_lane-inbox imu imu l g e = e
set_lane-inbox imu camera l g e = refl
set_lane-inbox camera imu l g e = refl
set_lane-inbox camera camera l g e = e

consume-inbox :
    (st : Stream) (ms : List Measurement) (s : Snapshot) (g : Graph)
    → (lane st (consume ms s g).1).inbox ≡ (lane st g).inbox
unfolding consume
consume-inbox st [] s g = refl
consume-inbox st (m ∷ ms) s g =
    consume-inbox st ms (note_stream m.stream m s) _ ∙ set_lane-inbox m.stream st _ g refl

finish-inbox :
    (s : Stream) (b : Batch) (t : ℕ) (g : Graph)
    → (lane s (finish_batch b t g).1).inbox ≡ (lane s g).inbox
unfolding finish_batch
finish-inbox imu b t g = consume-inbox imu b.inputs _ g
finish-inbox camera b t g = consume-inbox camera b.inputs _ g

finish-running : (b : Batch) (t : ℕ) (g : Graph) → (finish_batch b t g).1.running ≡ none
unfolding finish_batch
finish-running b t g = refl

pub complete-Logged :
    (s : Stream) (id t : ℕ) (h : History) → Logged s h → Logged s (watch h (completes id t))
unfolding watch
complete-Logged s id t h k =
    complete_cases
      (λ r.
        Logged s
          (record h { graph = after h.graph r; processed = h.processed ++ processed_by h.graph r }))
      id t h.graph (λ e. rw (append-nil h.processed) k)
      λ b _ _ _.
        rw
          (
            finish-inbox s b t (at_time t h.graph),
            finish-running b t (at_time t h.graph),
            lane-at_time s t h.graph,
            of_stream-append s h.processed (inputs_of h.graph.running),
          )
          (k ∙ sym (append_assoc (of_stream s h.processed) _ _))

pub control-Logged :
    (s : Stream) (t setpoint age : ℕ) (h : History)
    → Logged s h
    → Logged s (watch h (controls t setpoint age))
unfolding watch control_now
control-Logged imu t setpoint age h k =
    control_cases (λ r. Logged imu (record h { graph = after h.graph r })) t setpoint age h.graph
      (λ _. k) (λ _. k)
control-Logged camera t setpoint age h k =
    control_cases (λ r. Logged camera (record h { graph = after h.graph r })) t setpoint age h.graph
      (λ _. k) (λ _. k)
