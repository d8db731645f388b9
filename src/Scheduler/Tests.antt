-- ===== src/Scheduler/Tests.antt =====
-- The worker's laws on a small host: a session gives the tokens 7, 8, 9 and so on, a channel takes
-- what it is sent, and nobody cancels.
use mini_cpm5_5080fast.Base.{
  ℕ, ◌+◌, ◌≡◌, refl, true, false, none, List, [], ◌∷◌, ◌++◌, map, arith, length,
}
use mathlib.Core.List.{Perm}
use mini_cpm5_5080fast.Runtime.{GenerationConfig, default}
use mini_cpm5_5080fast.Metrics.{fresh}
use mini_cpm5_5080fast.Scheduler.Types.{
  ActiveGen, Finish, continue, finished, Worker, GenEvent, Limits, Job, is_eos, serving, shutdown,
}
use mini_cpm5_5080fast.Scheduler.Log.{resets_of, content, events_of}
use mini_cpm5_5080fast.Scheduler.Host.{
  Host, Reply, Received, load_cancel, call_decode, try_send, read_now, accepted,
}
use mini_cpm5_5080fast.Scheduler.Gen.{step, decode, feed_token}
use mini_cpm5_5080fast.Scheduler.Gen.Budget.{Resumable, goes_on, Within, step-Within}
use mini_cpm5_5080fast.Scheduler.Gen.Order.{InOrder, step-InOrder}
use mini_cpm5_5080fast.Scheduler.Gen.Drive.{drive, drive-ends}
use mini_cpm5_5080fast.Scheduler.Gen.Report.{retire-drive}
use mini_cpm5_5080fast.Scheduler.Retire.{retire, final_event, usage_of}
use mini_cpm5_5080fast.Scheduler.Quantum.{sessions_of}
use mini_cpm5_5080fast.Scheduler.Worker.{quantum, worker_loop}
use mini_cpm5_5080fast.Scheduler.Pool.Retire.{Returned, retire-Returned}
use mini_cpm5_5080fast.Scheduler.Admission.{
  Action, act_load, act_exchange, admitted, rejected, is_full, run, opening,
}
use mini_cpm5_5080fast.Scheduler.Admission.Bound.{Bounded, run-Bounded}
use mini_cpm5_5080fast.Words.{wrapping_sub}
use mini_cpm5_5080fast.Scheduler.Intake.{intake}
use mini_cpm5_5080fast.Scheduler.Pool.Intake.{Taken, intake-Taken}
use mini_cpm5_5080fast.Scheduler.Pool.Loop.{Ended, worker_loop-Ended}
use mini_cpm5_5080fast.Scheduler.Pool.Resets.{resets_of-retire}
use mini_cpm5_5080fast.Scheduler.Pool.Batch.{quantum-perm}

abbrev counter : Host
counter = record {
  World = ℕ;
  now = λ w. (w, w);
  epoch_ms = λ w. (w, w);
  is_cancelled = λ w c. (false, w);
  is_closing = λ w. (false, w);
  try_send = λ w c e. (accepted, w);
  blocking_send = λ w c e. (true, w);
  recv = λ w. (none, w);
  try_recv = λ w. (Received.empty, w);
  create_session = λ w. (Reply.ok w, w + 1);
  reset = λ w sid. (Reply.ok tt, w);
  prefill = λ w sid ids. (Reply.ok tt, w);
  decode_one = λ w sid cfg. (Reply.ok w, w + 1);
  stats = λ w sid. (Reply.err [], w);
  drop_session = λ w sid. w;
  supports_batch = true;
  create_batch_group = λ w n. (Reply.ok 5, w);
  group_add = λ w g sid. (Reply.ok sid, w);
  group_remove = λ w g slot. w;
  group_step = λ w g slots cfgs. (Reply.ok (map (λ s. 9) slots), w + 1);
  drop_group = λ w g. w;
}

abbrev two_tokens : GenerationConfig
two_tokens = record default { max_new_tokens = 2 }

abbrev gen_of : ℕ → ActiveGen
gen_of sid = record {
  session = sid;
  config = two_tokens;
  events = sid;
  cancel = sid;
  prompt_tokens = 3;
  generated = 0;
  pending_tok = none;
  enqueued_at = 0;
  first_token_at = none;
  slot_id = none;
  batch_held = false;
}

abbrev worker_of : List ℕ → List ActiveGen → Worker ℕ
worker_of idle active = record {
  world = 7;
  log = [];
  metrics = fresh;
  idle = idle;
  active = active;
  group = none;
  waiting = 0;
}

abbrev four : Limits
four = record { max_sessions = 4; queue_timeout = 100; batching = true }

gen_of-Resumable : (sid : ℕ) → Resumable (gen_of sid)
gen_of-Resumable sid = (omega arith, omega arith)

fresh-InOrder : InOrder (worker_of [] []) (gen_of 3)
unfolding content events_of
fresh-InOrder = record { in_order = refl; counted = refl }

step-Within_example : Within counter (step counter (worker_of [] []) (gen_of 3)) (gen_of 3)
step-Within_example = step-Within counter (worker_of [] []) (gen_of 3) (gen_of-Resumable 3)

first_step : (step counter (worker_of [] []) (gen_of 3)).2 ≡ continue
unfolding step load_cancel decode call_decode feed_token is_eos try_send
first_step = refl

step-InOrder_example : let o = step counter (worker_of [] []) (gen_of 3) in InOrder o.0 o.1
step-InOrder_example =
    step-InOrder counter (worker_of [] []) (gen_of 3) (omega arith) fresh-InOrder
      (rw first_step (λ e. cc))

drive-ends_example : goes_on (drive counter 3 (worker_of [] []) (gen_of 3)).2 ≡ false
drive-ends_example =
    drive-ends counter (λ w ch ev e. cc) 3 (worker_of [] []) (gen_of 3) (gen_of-Resumable 3)
      (omega arith)

driven : (drive counter 3 (worker_of [] []) (gen_of 3)).2 ≡ finished Finish.length
unfolding drive step load_cancel decode call_decode feed_token is_eos try_send read_now
driven = refl

retire-drive_example :
    let o = drive counter 3 (worker_of [] []) (gen_of 3) in
    let tokens = content o.0.log o.1.session in
    (events_of (retire counter four serving o.0 o.1 Finish.length).log o.1.events
      ≡ final_event (usage_of o.1) Finish.length ∷ map GenEvent.token tokens)
    × ((usage_of o.1).completion_tokens ≡ length tokens)
retire-drive_example =
    retire-drive counter (λ w ch ev. refl) 3 four (worker_of [] []) (gen_of 3) Finish.length
      (gen_of-Resumable 3) fresh-InOrder driven (λ e. cc)

retire-Returned_example :
    Returned 3
      (worker_of (1 ∷ []) [])
      (retire counter four shutdown (worker_of (1 ∷ []) []) (gen_of 3) Finish.stop)
retire-Returned_example =
    retire-Returned counter four shutdown (worker_of (1 ∷ []) []) (gen_of 3) Finish.stop
      (omega arith)

quantum-perm_example :
    let s = worker_of (1 ∷ []) (gen_of 2 ∷ gen_of 3 ∷ []) in
    Perm
      ((quantum counter four s).idle ++ sessions_of (quantum counter four s).active)
      (s.idle ++ sessions_of s.active)
quantum-perm_example =
    quantum-perm counter four (worker_of (1 ∷ []) (gen_of 2 ∷ gen_of 3 ∷ [])) (omega arith)

-- Two threads load at the same time; one is admitted, the other goes round and is rejected.
abbrev race : List Action
race = act_load 0 ∷ act_load 1 ∷ act_exchange 0 ∷ act_exchange 1 ∷ act_load 1 ∷ []

one_wins :
    let g = run 1 opening race in (g.waiting ≡ 1) × (g.phase 0 ≡ admitted) × (g.phase 1 ≡ rejected)
unfolding run is_full
one_wins = (refl, refl, refl)

run-Bounded_example : Bounded 1 (run 1 opening race)
run-Bounded_example = run-Bounded 1 race (omega arith) tt

abbrev small_job : Job
small_job = record {
  prompt_ids = 4 ∷ 5 ∷ [];
  config = two_tokens;
  events = 1;
  cancel = 1;
  enqueued_at = 7;
}

intake-Taken_example :
    let s = worker_of (1 ∷ []) (gen_of 2 ∷ []) in
    Taken four small_job (record s { waiting = wrapping_sub 0 1 }) (intake counter four s small_job)
intake-Taken_example =
    intake-Taken counter four (worker_of (1 ∷ []) (gen_of 2 ∷ [])) small_job (omega arith)
      (omega arith)

worker_loop-Ended_example :
    Ended four (worker_loop counter four 3 (worker_of (1 ∷ []) (gen_of 2 ∷ gen_of 3 ∷ [])))
worker_loop-Ended_example =
    worker_loop-Ended counter four 3 (worker_of (1 ∷ []) (gen_of 2 ∷ gen_of 3 ∷ [])) (omega arith)
      (omega arith)

resets_of-retire_example :
    resets_of (retire counter four serving (worker_of (1 ∷ []) []) (gen_of 3) Finish.stop).log
    ≡ 3 ∷ []
unfolding resets_of
resets_of-retire_example =
    resets_of-retire counter four serving (worker_of (1 ∷ []) []) (gen_of 3) Finish.stop
