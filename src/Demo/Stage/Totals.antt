-- ===== src/Demo/Stage/Totals.antt =====
-- demo/slam_pipeline_demo.cpp, `stage_worker`: the counters of a stage agree with one another.
use mathlib.Core.Option.{some-injective}
use scx_slam_fresh.Base.{
  if◌then◌else◌, ◌&&◌, ap, sym, ◌∙◌, ◌++◌, inl, inr, Bool-cases, ℕ, ◌+◌, ◌≤◌, ◌<◌, [], ◌∷◌, some,
  List, ◌≡◌, ◌^◌, arith, true, subst, refl, Bool, length, All, subst₂, length-append,
}
use scx_slam_fresh.Demo.Stage.{
  StageStats, note_drop, note_start, note_end, Turn, handle, run_turns, Handled, Stage, no_stats,
  to_list, no_window_stats, pushed,
}
use scx_slam_fresh.Demo.{inside_window, WorkItem, StageCfg, is_stale, deadline_abs}
use scx_slam_fresh.Demo.Stage.Turns.{Forward, Worked, handle_cases, inside_earlier, run_turns-cons}

-- The totals after `n` turns that sent `m` items on.
pub record Totals (n m : ℕ) (s : StageStats) : Type 0 where
  pub all_counted : s.processed + s.dropped_stale ≡ n
  pub all_sent : s.processed ≡ m
  pub late_processed : s.late ≤ s.processed
  pub dropped_seen : s.dropped_stale ≤ s.stale_seen
  pub seen_taken : s.stale_seen ≤ n
  pub window_late : s.window.late ≤ s.window.completed
  pub window_completed : s.window.completed ≤ s.processed
  pub window_dropped : s.window.dropped_stale ≤ s.dropped_stale
  pub window_ended : s.window.completed + s.window.dropped_stale ≤ s.window.started
  pub window_started : s.window.started ≤ n

drop-Totals :
    (n m e t0 : ℕ) (s : StageStats)
    → n + 1 < 2 ^ 64
    → Totals n m s
    → Totals (n + 1) m (note_drop e t0 (note_start e t0 true s))
unfolding note_drop note_start
drop-Totals n m e t0 s h i = record {
  all_counted = ground arith;
  all_sent = ground arith;
  late_processed = ground arith;
  dropped_seen = ground arith;
  seen_taken = ground arith;
  window_late = ground arith;
  window_completed = ground arith;
  window_dropped = ground arith;
  window_ended = ground arith;
  window_started = ground arith;
}

-- The totals once the item is taken, and before its end is noted.
record Started (n m e t0 : ℕ) (s : StageStats) : Type 0 where
  counted : s.processed + s.dropped_stale ≡ n
  sent : s.processed ≡ m
  late : s.late ≤ s.processed
  dropped : s.dropped_stale ≤ s.stale_seen
  seen : s.stale_seen ≤ n + 1
  w_late : s.window.late ≤ s.window.completed
  w_completed : s.window.completed ≤ s.processed
  w_dropped : s.window.dropped_stale ≤ s.dropped_stale
  w_ended : s.window.completed + s.window.dropped_stale ≤ s.window.started
  w_open :
      inside_window e t0 ≡ true → s.window.completed + s.window.dropped_stale + 1 ≤ s.window.started
  w_started : s.window.started ≤ n + 1

start-Started :
    (n m e t0 : ℕ) (stale : Bool) (s : StageStats)
    → n + 1 < 2 ^ 64
    → Totals n m s
    → Started n m e t0 (note_start e t0 stale s)
unfolding note_start
start-Started n m e t0 stale s h i = record {
  counted = i.all_counted;
  sent = i.all_sent;
  late = i.late_processed;
  dropped = ground arith;
  seen = ground arith;
  w_late = i.window_late;
  w_completed = i.window_completed;
  w_dropped = i.window_dropped;
  w_ended = ground arith;
  w_open = λ q. ground arith;
  w_started = ground arith;
}

Worked-Started :
    (n m e t0 : ℕ) (s v : StageStats) → Worked s v → Started n m e t0 s → Started n m e t0 v
Worked-Started n m e t0 s v w i =
    let c = w.same_window in
    record {
      counted = ground arith;
      sent = ground arith;
      late = ground arith;
      dropped = ground arith;
      seen = ground arith;
      w_late = ground arith;
      w_completed = ground arith;
      w_dropped = ground arith;
      w_ended = ground arith;
      w_open = λ q. (let o = i.w_open q in ground arith);
      w_started = ground arith;
    }

end-Totals :
    (n m e t0 t1 dl : ℕ) (w : WorkItem) (s : StageStats)
    → n + 1 < 2 ^ 64
    → t0 ≤ t1
    → Started n m e t0 s
    → Totals (n + 1) (m + 1) (note_end e dl t1 w s)
unfolding note_end
end-Totals n m e t0 t1 dl w s h o i =
    let earlier = inside_earlier e t0 t1 o in
    let open_end = i.w_open in
    record {
      all_counted = ground arith;
      all_sent = ground arith;
      late_processed = ground arith;
      dropped_seen = ground arith;
      seen_taken = ground arith;
      window_late = ground arith;
      window_completed = ground arith;
      window_dropped = ground arith;
      window_ended = ground arith;
      window_started = ground arith;
    }

handle-Totals :
    (cpu_at : ℕ → ℕ) (e : ℕ) (compute_us : WorkItem → ℕ) (cfg : StageCfg) (drop_stale : Bool)
    (t : Turn) (s : StageStats) (h : Handled) (n m : ℕ)
    → handle cpu_at e compute_us cfg drop_stale t s ≡ some h
    → n + 1 < 2 ^ 64
    → t.t0 ≤ t.t1
    → Totals n m s
    → Totals (n + 1) (m + length (to_list h.forwarded)) h.stats
handle-Totals cpu_at e compute_us cfg drop_stale t s h n m q small o i =
    handle_cases (λ x. Totals (n + 1) (m + length (to_list x.forwarded)) x.stats) cpu_at e
      compute_us cfg drop_stale t s h q
      (λ _.
        subst (λ k. Totals (n + 1) k (note_drop e t.t0 (note_start e t.t0 true s))) (omega arith)
          (drop-Totals n m e t.t0 s small i))
      (λ v _ w. end-Totals n m e t.t0 t.t1 (deadline_abs t.item cfg) t.item v small o (
        Worked-Started n m e t.t0 _ v w
          (start-Started n m e t.t0 (is_stale t.t0 t.item cfg) s small i)))

more_turns-Totals :
    (cpu_at : ℕ → ℕ) (e : ℕ) (compute_us : WorkItem → ℕ) (cfg : StageCfg) (drop_stale : Bool)
    (ts : List Turn) (s : StageStats) (r : Stage) (n m : ℕ)
    → run_turns cpu_at e compute_us cfg drop_stale ts s ≡ some r
    → n + length ts < 2 ^ 64
    → All Forward ts
    → Totals n m s
    → Totals (n + length ts) (m + length r.worked) r.stats
more_turns-Totals cpu_at e compute_us cfg drop_stale [] s r n m q small f i =
    unfold run_turns in
    subst (λ x. Totals (n + 0) (m + length x.worked) x.stats) (some-injective _ _ q)
      (subst₂ (λ a b. Totals a b s) (omega arith) (omega arith) i)
more_turns-Totals cpu_at e compute_us cfg drop_stale (t ∷ ts) s r n m q small f i =
    let c = run_turns-cons cpu_at e compute_us cfg drop_stale t ts s r q in
    let h = c.0 in
    let r1 = c.1 in
    let l = length-append (to_list h.forwarded) r1.worked in
    let step =
      handle-Totals cpu_at e compute_us cfg drop_stale t s h n m c.2 (omega arith) f.0.1 i in
    let rest =
      more_turns-Totals cpu_at e compute_us cfg drop_stale ts h.stats r1 (n + 1)
        (m + length (to_list h.forwarded)) c.3 (omega arith) f.1 step in
    rw (c.4) (subst₂ (λ a b. Totals a b r1.stats) (omega arith) (omega arith) rest)

-- The items of the turns that are not dropped as stale.
abbrev pub fresh : StageCfg → Bool → List Turn → List WorkItem
fresh cfg drop_stale [] = []
fresh cfg drop_stale (t ∷ ts) =
    if is_stale t.t0 t.item cfg && drop_stale
    then fresh cfg drop_stale ts
    else t.item ∷ fresh cfg drop_stale ts

handle-forwarded :
    (cpu_at : ℕ → ℕ) (e : ℕ) (compute_us : WorkItem → ℕ) (cfg : StageCfg) (drop_stale : Bool)
    (t : Turn) (s : StageStats) (h : Handled)
    → handle cpu_at e compute_us cfg drop_stale t s ≡ some h
    → to_list h.forwarded ≡ (if is_stale t.t0 t.item cfg && drop_stale then [] else t.item ∷ [])
handle-forwarded cpu_at e compute_us cfg drop_stale t s h q =
    handle_cases
      (λ x.
        to_list x.forwarded ≡ (if is_stale t.t0 t.item cfg && drop_stale then [] else t.item ∷ []))
      cpu_at e compute_us cfg drop_stale t s h q (λ k. rw k refl) (λ v k _. rw k refl)

run_turns-fresh :
    (cpu_at : ℕ → ℕ) (e : ℕ) (compute_us : WorkItem → ℕ) (cfg : StageCfg) (drop_stale : Bool)
    (ts : List Turn) (s : StageStats) (r : Stage)
    → run_turns cpu_at e compute_us cfg drop_stale ts s ≡ some r
    → r.worked ≡ fresh cfg drop_stale ts
run_turns-fresh cpu_at e compute_us cfg drop_stale [] s r q =
    unfold run_turns in ap (λ x. x.worked) (sym (some-injective _ _ q))
run_turns-fresh cpu_at e compute_us cfg drop_stale (t ∷ ts) s r q =
    let (h, r1, a, b, c) = run_turns-cons cpu_at e compute_us cfg drop_stale t ts s r q in
    let f = handle-forwarded cpu_at e compute_us cfg drop_stale t s h a in
    let rest = run_turns-fresh cpu_at e compute_us cfg drop_stale ts h.stats r1 b in
    elim (Bool-cases (is_stale t.t0 t.item cfg && drop_stale)) [
      | inl k ↦
          let g = simp k at f in rw k (ap (λ x. x.worked) c ∙ ap (λ l. l ++ r1.worked) g ∙ rest)
      | inr k ↦
          let g = simp k at f in
          rw k (ap (λ x. x.worked) c ∙ ap (λ l. l ++ r1.worked) g ∙ ap (λ l. t.item ∷ l) rest)
    ]

-- After fewer than 2 ^ 64 turns of a stage that started with no counts, where the clock does not
-- run backwards in a turn and each measured work returned: every item taken is either processed or
-- dropped as stale; pushed to the next queue, if there is one, are exactly the items that were not
-- dropped, unchanged and in order, as many as were processed; late items are among the
-- processed, dropped ones among those seen stale; and of the window's counts, the late are among
-- the completed, those among the processed, the dropped among the dropped, and the completed and
-- dropped together among the started.
pub run_turns-Totals :
    (cpu_at : ℕ → ℕ) (e : ℕ) (compute_us : WorkItem → ℕ) (cfg : StageCfg) (drop_stale : Bool)
    (has_out : Bool) (ts : List Turn) (r : Stage)
    → run_turns cpu_at e compute_us cfg drop_stale ts no_stats ≡ some r
    → length ts < 2 ^ 64
    → All Forward ts
    → Totals (length ts) (length (fresh cfg drop_stale ts)) r.stats
      × (pushed has_out r ≡ (if has_out then fresh cfg drop_stale ts else []))
unfolding pushed
run_turns-Totals cpu_at e compute_us cfg drop_stale has_out ts r q small f =
    let new : Totals 0 0 no_stats =
      unfold no_stats no_window_stats in
      record {
        all_counted = omega arith;
        all_sent = refl;
        late_processed = omega arith;
        dropped_seen = omega arith;
        seen_taken = omega arith;
        window_late = omega arith;
        window_completed = omega arith;
        window_dropped = omega arith;
        window_ended = omega arith;
        window_started = omega arith;
      } in
    let same = run_turns-fresh cpu_at e compute_us cfg drop_stale ts no_stats r q in
    let totals =
      subst₂ (λ a b. Totals a b r.stats) (omega arith) (omega (arith, ap length same))
        (more_turns-Totals cpu_at e compute_us cfg drop_stale ts no_stats r 0 0 q (omega arith) f
          new) in
    (totals, rw same refl)
