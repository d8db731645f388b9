-- ===== src/Scheduler/Worker.antt =====
-- One quantum of `worker_loop`, the admission before it, the orderly shutdown, and the loop.
use mini_cpm5_5080fast.Base.{
  ℕ, zero, suc, Bool, true, false, ◌&&◌, Option, none, some, List, [], ◌∷◌, ltb, leb, if◌then◌else◌,
  length,
}
use mini_cpm5_5080fast.Bytes.Text.{codes}
use mini_cpm5_5080fast.Words.{wrapping_add}
use mini_cpm5_5080fast.Scheduler.Types.{ActiveGen, Entry, Finish, Job, Limits, shutdown, Worker}
use mini_cpm5_5080fast.Scheduler.Host.{Host, Received, job, empty, disconnected, note}
use mini_cpm5_5080fast.Scheduler.Gen.{feed_token}
use mini_cpm5_5080fast.Scheduler.Retire.{with_metrics, retire}
use mini_cpm5_5080fast.Scheduler.Intake.{intake}
use mini_cpm5_5080fast.Scheduler.Quantum.{
  Sorted, Attempt, settle, run_solo, run_demoted, sort_all, hold, sweep, attempt, no_slots,
}

-- How the loop goes on after the admission.
pub data Admitted (W : Type 0) : Type 0 where
  running stopped : Worker W → Admitted W

module _ (h : Host) (lim : Limits) where
  open h use {World}

  -- The members of a batch take the tokens of the batch step.
  unfoldable pub run_fed : Worker World → List ActiveGen → List ℕ → Worker World
  run_fed s [] toks = s
  run_fed s (gen ∷ gens) [] = s
  run_fed s (gen ∷ gens) (tok ∷ toks) = run_fed (settle h lim (feed_token h s gen tok)) gens toks

  unfoldable pub count_batch : ℕ → Worker World → Worker World
  count_batch n = with_metrics (λ m. record m {
    batched_steps_total = wrapping_add m.batched_steps_total 1;
    batch_size_sum = wrapping_add m.batch_size_sum n;
  })

  unfoldable pub count_fallback : Worker World → Worker World
  count_fallback =
      with_metrics
        (λ m. record m { batch_fallbacks_total = wrapping_add m.batch_fallbacks_total 1 })

  -- after the attempt: the tokens are handed out, or every member steps solo
  unfoldable pub finish_attempt : Worker World → List ActiveGen → Option (List ℕ) → Worker World
  unfolding run_fed count_batch count_fallback
  finish_attempt s batch (some toks) = run_fed (count_batch (length batch) s) batch toks
  finish_attempt s batch none = run_demoted h lim (count_fallback s) batch

  unfoldable pub run_attempt : Attempt World → Worker World
  unfolding finish_attempt
  run_attempt a = finish_attempt a.worker a.batch a.tokens

  unfoldable pub run_batch : Worker World → List ActiveGen → Worker World
  unfolding run_attempt
  run_batch s batch =
      if leb 2 (length batch) && h.supports_batch
      then run_attempt (attempt h lim s batch)
      else run_demoted h lim s batch

  unfoldable pub sweep_batch : Worker World → List ActiveGen → Worker World × List ActiveGen
  sweep_batch s batch = if leb 2 (length batch) then sweep h lim s batch else (s, batch)

  unfoldable pub drop_group : Worker World → Option ℕ → Worker World
  drop_group s none = s
  drop_group s (some g) =
      if no_slots s.active then record s { world = h.drop_group s.world g; group = none } else s

  -- the body of the loop after the admission
  unfoldable pub quantum : Worker World → Worker World
  unfolding run_batch sweep_batch drop_group
  quantum s =
      let start : Sorted World = record {
        worker = record s { active = [] };
        solo = [];
        batch = [];
      } in
      let sorted = sort_all h lim start s.active in
      let held = hold h lim sorted sorted.batch in
      let stepped = run_solo h lim held.worker held.solo in
      let (swept, batch) = sweep_batch stepped held.batch in
      let done = run_batch swept batch in drop_group done done.group

  unfoldable pub shutdown_active : Worker World → List ActiveGen → Worker World
  shutdown_active s [] = s
  shutdown_active s (gen ∷ gens) =
      shutdown_active
        (retire h lim shutdown (record s { active = gens }) gen
          (Finish.failed (codes "scheduler shutting down")))
        gens

  unfoldable pub after_recv : Worker World → Option Job × World → Admitted World
  after_recv s (some j, w) = running (intake h lim (record s { world = w }) j)
  after_recv s (none, w) = stopped (record s { world = w })

  unfoldable pub after_try_recv : Worker World → Received × World → Admitted World
  unfolding shutdown_active
  after_try_recv s (job j, w) = running (intake h lim (record s { world = w }) j)
  after_try_recv s (empty, w) = running (record s { world = w })
  after_try_recv s (disconnected, w) = stopped (shutdown_active (record s { world = w }) s.active)

  unfoldable pub after_closing : Worker World → Bool × World → Admitted World
  unfolding shutdown_active
  after_closing s (true, w) = stopped (shutdown_active (record s { world = w }) s.active)
  after_closing s (false, w) = running (record s { world = w })

  unfoldable pub is_idle : List ActiveGen → Bool
  is_idle [] = true
  is_idle (gen ∷ gens) = false

  unfoldable pub admit_job : Worker World → Admitted World
  unfolding after_recv after_try_recv after_closing is_idle
  admit_job s =
      if is_idle s.active
      then after_recv s (h.recv s.world)
      else if ltb (length s.active) lim.max_sessions
      then after_try_recv s (h.try_recv s.world)
      else after_closing s (h.is_closing s.world)

  -- a `Vec` is dropped from its front, which is the end of the list
  unfoldable pub drop_sessions : Worker World → List ℕ → Worker World
  drop_sessions s [] = s
  drop_sessions s (sid ∷ sids) =
      let s' = drop_sessions s sids in note s' (h.drop_session s'.world sid) (Entry.dropped sid)

  unfoldable pub drop_last_group : Worker World → Option ℕ → Worker World
  drop_last_group s none = s
  drop_last_group s (some g) = record s { world = h.drop_group s.world g; group = none }

  -- what stands behind the loop: the group and the pool are dropped on the worker's thread
  unfoldable pub tear_down : Worker World → Worker World
  unfolding drop_sessions drop_last_group
  tear_down s =
      let s' = drop_last_group s s.group in
      let s'' = record (drop_sessions s' s'.idle) { idle = [] } in
      with_metrics (λ m. record m { active_sessions = 0 }) s''

  -- At most `fuel` quanta; `running` when the fuel ends first, since a server need not stop.
  unfoldable pub worker_loop : ℕ → Worker World → Admitted World
  unfolding admit_job quantum tear_down
  worker_loop zero s = running s
  worker_loop (suc fuel) s = elim (admit_job s) [
    | running s' ↦ worker_loop fuel (quantum s')
    | stopped s' ↦ stopped (tear_down s')
  ]
