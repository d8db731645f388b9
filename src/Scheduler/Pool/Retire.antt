-- ===== src/Scheduler/Pool/Retire.antt =====
-- What `retire` and `fail_intake` do to the pool.
use mini_cpm5_5080fast.Base.{ℕ, ◌+◌, ◌<◌, ◌≡◌, ◌∙◌, Option, none, some, ◌∷◌, arith, length, ap}
use mini_cpm5_5080fast.Bytes.{Bytes}
use mini_cpm5_5080fast.Metrics.{MetricsRegistry}
use mini_cpm5_5080fast.Scheduler.Types.{
  ActiveGen, GenEvent, Worker, Limits, Finish, RetireMode, serving, shutdown,
}
use mini_cpm5_5080fast.Scheduler.Host.{Host, read_now, try_send, blocking_send, call_reset}
use mini_cpm5_5080fast.Scheduler.Retire.{
  announce, final_event, usage_of, recent_reason, with_metrics, remove_slot, flush, send_in,
  note_recent, release, retire, fail_intake, observe_times, count_finish,
}
use mini_cpm5_5080fast.Scheduler.Pool.Frame.{Kept, Kept-trans}

-- A session comes back to the pool, and nothing else of it changes.
pub record Returned {W : Type 0} (sid : ℕ) (s t : Worker W) : Type 0 where
  pub idle_is : t.idle ≡ sid ∷ s.idle
  pub same_active : t.active ≡ s.active
  pub same_waiting : t.waiting ≡ s.waiting

module _ (h : Host) (lim : Limits) where
  open h use {World}

  send_in-Kept :
      (mode : RetireMode) (s : Worker World) (ch : ℕ) (ev : GenEvent)
      → Kept s (send_in h mode s ch ev)
  unfolding send_in try_send blocking_send
  send_in-Kept serving s ch ev = ground arith
  send_in-Kept shutdown s ch ev = ground arith

  flush-Kept :
      (mode : RetireMode) (s : Worker World) (ch : ℕ) (o : Option ℕ) → Kept s (flush h mode s ch o)
  unfolding flush
  flush-Kept mode s ch none = ground arith
  flush-Kept mode s ch (some tok) = send_in-Kept mode s ch (GenEvent.token tok)

  pub remove_slot-Kept :
      (s : Worker World) (slot group : Option ℕ) → Kept s (remove_slot h s slot group)
  unfolding remove_slot
  remove_slot-Kept s none none = ground arith
  remove_slot-Kept s none (some g) = ground arith
  remove_slot-Kept s (some slot) none = ground arith
  remove_slot-Kept s (some slot) (some g) = ground arith

  note_recent-Kept :
      (s : Worker World) (gen : ActiveGen) (t : ℕ) (o : Option Bytes)
      → Kept s (note_recent h s gen t o)
  unfolding note_recent
  note_recent-Kept s gen t none = ground arith
  note_recent-Kept s gen t (some r) = ground arith

  release-Returned :
      (s : Worker World) (sid : ℕ)
      → length s.idle + length s.active < lim.max_sessions
      → Returned sid s (release h lim s sid)
  unfolding release call_reset
  release-Returned s sid room = ground arith

  read_now-Kept : (s : Worker World) → Kept s (read_now h s).1
  unfolding read_now
  read_now-Kept s = ground arith

  with_metrics-Kept :
      (f : MetricsRegistry → MetricsRegistry) (s : Worker World) → Kept s (with_metrics f s)
  with_metrics-Kept f s = ground arith

  announce-Kept :
      (mode : RetireMode) (s : Worker World) (gen : ActiveGen) (finish : Finish)
      → Kept s (announce h mode s gen finish)
  unfolding announce
  announce-Kept mode s gen finish =
      let now = (read_now h s).0 in
      Kept-trans (read_now-Kept s) (
        Kept-trans (remove_slot-Kept _ gen.slot_id _) (
          Kept-trans (flush-Kept mode _ gen.events gen.pending_tok) (
            Kept-trans (with_metrics-Kept (observe_times gen now finish gen.first_token_at) _) (
              Kept-trans (with_metrics-Kept (count_finish gen finish) _) (
                Kept-trans (send_in-Kept mode _ gen.events (final_event (usage_of gen) finish))
                  (note_recent-Kept _ gen now (recent_reason finish)))))))

  -- With room in the pool a session that retires always goes back to it.
  pub retire-Returned :
      (mode : RetireMode) (s : Worker World) (gen : ActiveGen) (finish : Finish)
      → length s.idle + length s.active < lim.max_sessions
      → Returned gen.session s (retire h lim mode s gen finish)
  unfolding retire
  retire-Returned mode s gen finish room =
      let t = announce h mode s gen finish in
      let k = announce-Kept mode s gen finish in
      let r = release-Returned t gen.session (rw (k.same_idle, k.same_active) room) in
      record {
        idle_is = r.idle_is ∙ ap (◌∷◌ gen.session) k.same_idle;
        same_active = r.same_active ∙ k.same_active;
        same_waiting = r.same_waiting ∙ k.same_waiting;
      }

  -- A job that fails on its way in gives back the session that it had.
  pub fail_intake-Returned :
      (s : Worker World) (ch sid : ℕ) (msg : Bytes)
      → length s.idle + length s.active < lim.max_sessions
      → Returned sid s (fail_intake h lim s ch (some sid) msg)
  unfolding fail_intake blocking_send call_reset
  fail_intake-Returned s ch sid msg room = ground arith

  pub fail_intake-Kept :
      (s : Worker World) (ch : ℕ) (msg : Bytes) → Kept s (fail_intake h lim s ch none msg)
  unfolding fail_intake blocking_send
  fail_intake-Kept s ch msg = ground arith
