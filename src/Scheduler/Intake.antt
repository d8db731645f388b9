-- ===== src/Scheduler/Intake.antt =====
-- `intake`: a job leaves the queue, gets a session and becomes an active stream, or fails.
use mini_cpm5_5080fast.Base.{
  ℕ, ◌-◌, false, none, some, List, [], ◌∷◌, ◌++◌, ltb, if◌then◌else◌, length,
}
use mini_cpm5_5080fast.Bytes.Text.{codes}
use mini_cpm5_5080fast.Words.{wrapping_add, wrapping_sub}
use mini_cpm5_5080fast.Runtime.{RuntimeStats}
use mini_cpm5_5080fast.Scheduler.Types.{ActiveGen, Entry, Job, Worker, Limits}
use mini_cpm5_5080fast.Scheduler.Host.{
  Host, Reply, ok, err, note, read_now, call_reset, call_prefill, read_stats,
}
use mini_cpm5_5080fast.Scheduler.Retire.{with_metrics, fail_intake}

abbrev pub new_gen : Job → ℕ → ActiveGen
new_gen job sid = record {
  session = sid;
  config = job.config;
  events = job.events;
  cancel = job.cancel;
  prompt_tokens = length job.prompt_ids;
  generated = 0;
  pending_tok = none;
  enqueued_at = job.enqueued_at;
  first_token_at = none;
  slot_id = none;
  batch_held = false;
}

-- `session.stats().map(|s| s.prefill_us).unwrap_or(0)`
abbrev pub prefill_us_or_zero : Reply RuntimeStats → ℕ
prefill_us_or_zero (ok st) = st.prefill_us
prefill_us_or_zero (err e) = 0

abbrev pub add_prefill : ℕ → {W : Type 0} → Reply RuntimeStats × Worker W → Worker W
add_prefill before (ok st, s) =
    with_metrics
      (λ m. record m {
        prefill_us_total = wrapping_add m.prefill_us_total (st.prefill_us - before);
      })
      s
add_prefill before (err e, s) = s

module _ (h : Host) (lim : Limits) where
  open h use {World}

  unfoldable pub activate : Worker World → Job → ℕ → Worker World
  activate s job sid =
      let grown = s.active ++ new_gen job sid ∷ [] in
      with_metrics (λ m. record m { active_sessions = length grown }) (record s { active = grown })

  unfoldable pub after_prefill : Job → ℕ → ℕ → Reply (Unit {0}) × Worker World → Worker World
  unfolding activate
  after_prefill job sid before (err e, s) =
      fail_intake h lim s job.events (some sid) (codes "prefill: " ++ e)
  after_prefill job sid before (ok u, s) =
      activate (add_prefill before (read_stats h s sid)) job sid

  unfoldable pub after_reset : Job → ℕ → Reply (Unit {0}) × Worker World → Worker World
  unfolding after_prefill
  after_reset job sid (err e, s) =
      fail_intake h lim s job.events (some sid) (codes "session reset: " ++ e)
  after_reset job sid (ok u, s) =
      let (st, s') = read_stats h s sid in
      after_prefill job sid (prefill_us_or_zero st) (call_prefill h s' sid job.prompt_ids)

  unfoldable pub start : Worker World → Job → ℕ → Worker World
  unfolding after_reset
  start s job sid = after_reset job sid (call_reset h s sid)

  unfoldable pub after_create : Job → Worker World → Reply ℕ × World → Worker World
  unfolding start
  after_create job s (err e, w) =
      fail_intake h lim (record s { world = w }) job.events none (codes "create_session: " ++ e)
  after_create job s (ok sid, w) = start (note s w (Entry.created sid)) job sid

  unfoldable pub acquire : Worker World → Job → List ℕ → Worker World
  unfolding after_create
  acquire s job [] = after_create job s (h.create_session s.world)
  acquire s job (sid ∷ idle) = start (record s { idle = idle }) job sid

  -- the counters at the head of `intake`
  unfoldable pub leave_queue : Worker World → Worker World
  leave_queue s =
      let waiting = wrapping_sub s.waiting 1 in
      with_metrics
        (λ m. record m { queue_depth = waiting; active_streams = wrapping_add m.active_streams 1 })
        (record s { waiting = waiting })

  unfoldable pub intake : Worker World → Job → Worker World
  unfolding leave_queue acquire
  intake s job =
      let (t, s') = read_now h (leave_queue s) in
      if ltb lim.queue_timeout (t - job.enqueued_at)
      then fail_intake h lim s' job.events none (codes "queue timeout")
      else acquire s' job s'.idle
