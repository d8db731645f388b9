-- ===== src/Scheduler/Pool/Intake.antt =====
-- What `intake` does to the pool and to the queue.
use mini_cpm5_5080fast.Base.{
  ℕ, ◌+◌, ◌-◌, ◌≤◌, ◌<◌, ◌≡◌, refl, ap, ◌∙◌, ◌⊎◌, inl, inr, none, List, [], ◌∷◌, ◌++◌, arith,
  Bool-cases, length, length-append, ltb,
}
use mini_cpm5_5080fast.Words.{wrapping_sub}
use mini_cpm5_5080fast.Bytes.{Bytes}
use mini_cpm5_5080fast.Bytes.Text.{codes}
use mini_cpm5_5080fast.Runtime.{RuntimeStats}
use mini_cpm5_5080fast.Scheduler.Types.{Entry, Job, Worker, Limits}
use mini_cpm5_5080fast.Scheduler.Host.{
  Host, Reply, ok, err, note, read_now, call_reset, call_prefill, read_stats,
}
use mini_cpm5_5080fast.Scheduler.Retire.{fail_intake}
use mini_cpm5_5080fast.Scheduler.Intake.{
  new_gen, activate, after_prefill, after_reset, start, after_create, acquire, leave_queue, intake,
  add_prefill, prefill_us_or_zero,
}
use mini_cpm5_5080fast.Scheduler.Pool.Frame.{Kept}
use mini_cpm5_5080fast.Scheduler.Pool.Retire.{Returned, fail_intake-Returned, fail_intake-Kept}

-- The sessions of the pool and of the active streams fit the capacity.
abbrev pub Fits : {W : Type 0} → Limits → Worker W → Type 0
Fits lim s = length s.idle + length s.active ≤ lim.max_sessions

-- A job was taken in: it is the last active stream, or it failed and the streams are as they were.
pub record Taken {W : Type 0} (lim : Limits) (job : Job) (s t : Worker W) : Type 0 where
  pub fits : Fits lim t
  pub waiting_is : t.waiting ≡ s.waiting
  pub active_is :
      (t.active ≡ s.active) ⊎ ((sid : ℕ) × (t.active ≡ s.active ++ new_gen job sid ∷ []))

module _ (h : Host) (lim : Limits) where
  open h use {World}

  failed-Taken :
      (job : Job) (s t : Worker World) (sid : ℕ)
      → Returned sid s t
      → length s.idle + length s.active < lim.max_sessions
      → Taken lim job s t
  failed-Taken job s t sid r room = record {
    fits = rw (r.idle_is, r.same_active) (omega arith);
    waiting_is = r.same_waiting;
    active_is = inl r.same_active;
  }

  -- `s` and `s'` differ in nothing that `Taken` looks at.
  Taken-base :
      (job : Job) (s s' t : Worker World)
      → s'.active ≡ s.active
      → s'.waiting ≡ s.waiting
      → Taken lim job s' t
      → Taken lim job s t
  Taken-base job s s' t a w k = record {
    fits = k.fits;
    waiting_is = k.waiting_is ∙ w;
    active_is = rw a at k.active_is;
  }

  add_prefill-Kept :
      (before : ℕ) (r : Reply RuntimeStats) (s : Worker World) → Kept s (add_prefill before (r, s))
  add_prefill-Kept before (ok st) s = ground arith
  add_prefill-Kept before (err e) s = ground arith

  activate-Taken :
      (job : Job) (sid : ℕ) (s : Worker World)
      → length s.idle + length s.active < lim.max_sessions
      → Taken lim job s (activate h lim s job sid)
  unfolding activate
  activate-Taken job sid s room = record {
    fits = omega (arith, length-append s.active (new_gen job sid ∷ []));
    waiting_is = refl;
    active_is = inr (sid, refl);
  }

  after_prefill-Taken :
      (job : Job) (sid before : ℕ) (r : Reply (Unit {0})) (s : Worker World)
      → length s.idle + length s.active < lim.max_sessions
      → Taken lim job s (after_prefill h lim job sid before (r, s))
  unfolding after_prefill read_stats
  after_prefill-Taken job sid before (err e) s room =
      failed-Taken job s (after_prefill h lim job sid before (err e, s)) sid
        (fail_intake-Returned h lim s job.events sid (codes "prefill: " ++ e) room) room
  after_prefill-Taken job sid before (ok u) s room =
      let o = read_stats h s sid in
      let s' = add_prefill before o in
      let k = add_prefill-Kept before o.0 o.1 in
      Taken-base job s s' (activate h lim s' job sid) k.same_active k.same_waiting
        (activate-Taken job sid s' (rw (k.same_idle, k.same_active) room))

  after_reset-Taken :
      (job : Job) (sid : ℕ) (r : Reply (Unit {0})) (s : Worker World)
      → length s.idle + length s.active < lim.max_sessions
      → Taken lim job s (after_reset h lim job sid (r, s))
  unfolding after_reset read_stats call_prefill
  after_reset-Taken job sid (err e) s room =
      failed-Taken job s (after_reset h lim job sid (err e, s)) sid
        (fail_intake-Returned h lim s job.events sid (codes "session reset: " ++ e) room) room
  after_reset-Taken job sid (ok u) s room =
      let o = read_stats h s sid in
      let p = call_prefill h o.1 sid job.prompt_ids in
      Taken-base job s p.1 (after_reset h lim job sid (ok u, s)) refl refl
        (after_prefill-Taken job sid (prefill_us_or_zero o.0) p.0 p.1 room)

  start-Taken :
      (job : Job) (sid : ℕ) (s : Worker World)
      → length s.idle + length s.active < lim.max_sessions
      → Taken lim job s (start h lim s job sid)
  unfolding start call_reset
  start-Taken job sid s room =
      let r = call_reset h s sid in
      Taken-base job s r.1 (start h lim s job sid) refl refl
        (after_reset-Taken job sid r.0 r.1 room)

  unstarted-Taken :
      (job : Job) (s : Worker World) (msg : Bytes)
      → Fits lim s
      → Taken lim job s (fail_intake h lim s job.events none msg)
  unstarted-Taken job s msg room =
      let k = fail_intake-Kept h lim s job.events msg in
      record {
        fits = rw (k.same_idle, k.same_active) room;
        waiting_is = k.same_waiting;
        active_is = inl k.same_active;
      }

  after_create-Taken :
      (job : Job) (s : Worker World) (r : Reply ℕ) (w : World)
      → length s.idle + length s.active < lim.max_sessions
      → Taken lim job s (after_create h lim job s (r, w))
  unfolding after_create
  after_create-Taken job s (err e) w room =
      let s' = record s { world = w } in
      let t = after_create h lim job s (err e, w) in
      Taken-base job s s' t refl refl
        (unstarted-Taken job s' (codes "create_session: " ++ e) (omega arith))
  after_create-Taken job s (ok sid) w room =
      let s' = note s w (Entry.created sid) in
      Taken-base job s s' (start h lim s' job sid) refl refl (start-Taken job sid s' room)

  acquire-Taken :
      (job : Job) (s : Worker World) (idle : List ℕ)
      → s.idle ≡ idle
      → length s.active < lim.max_sessions
      → Fits lim s
      → Taken lim job s (acquire h lim s job idle)
  unfolding acquire
  acquire-Taken job s [] e a room =
      let c = h.create_session s.world in
      after_create-Taken job s c.0 c.1 (omega (arith, ap length e))
  acquire-Taken job s (sid ∷ idle) e a room =
      let s' = record s { idle = idle } in
      Taken-base job s s' (start h lim s' job sid) refl refl
        (start-Taken job sid s' (omega (arith, ap length e)))

  -- `intake`, called as the loop calls it, with fewer active streams than the capacity and a pool that
  -- fits: on every path, errors and timeouts included, the job leaves the waiting count by exactly one,
  -- the sessions still fit the capacity, and the job becomes the last active stream or the streams are
  -- as they were.
  pub intake-Taken :
      (s : Worker World) (job : Job)
      → length s.active < lim.max_sessions
      → Fits lim s
      → Taken lim job (record s { waiting = wrapping_sub s.waiting 1 }) (intake h lim s job)
  unfolding intake leave_queue read_now
  intake-Taken s job a room =
      let s₀ = record s { waiting = wrapping_sub s.waiting 1 } in
      let o = read_now h (leave_queue h lim s) in
      elim (Bool-cases (ltb lim.queue_timeout (o.0 - job.enqueued_at))) [
        | inl e ↦ rw e (
            Taken-base job s₀ o.1 (fail_intake h lim o.1 job.events none (codes "queue timeout"))
              refl refl (unstarted-Taken job o.1 (codes "queue timeout") room))
        | inr e ↦ rw e (
            Taken-base job s₀ o.1 (acquire h lim o.1 job o.1.idle) refl refl
              (acquire-Taken job o.1 o.1.idle refl a room))
      ]
