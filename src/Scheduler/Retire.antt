-- ===== src/Scheduler/Retire.antt =====
-- `retire`, `return_session` and `fail_intake`: a job ends, and its session goes back to the pool.
use mini_cpm5_5080fast.Base.{
  ℕ, ◌+◌, ◌-◌, ◌/◌, ◌%◌, Option, none, some, ◌∷◌, min, ltb, leb, if◌then◌else◌, length,
}
use mini_cpm5_5080fast.Bytes.{Bytes}
use mini_cpm5_5080fast.Bytes.Text.{codes}
use mini_cpm5_5080fast.Words.{u32_mod, wrapping_add, wrapping_sub}
use mini_cpm5_5080fast.Metrics.{
  MetricsRegistry, RecentReq, observe_ttft, observe_tpot, push_recent, as_micros,
}
use mini_cpm5_5080fast.Usage.{Usage, FinishReason}
use mini_cpm5_5080fast.Scheduler.Types.{
  GenEvent, ActiveGen, Finish, RetireMode, serving, shutdown, Entry, Worker, Limits,
}
use mini_cpm5_5080fast.Scheduler.Host.{Host, note, read_now, try_send, blocking_send, call_reset}

-- `Some(ft) if generated >= 2`: the mean time of one token after the first. The cast to u32 loses
-- nothing of a count that `max_new_tokens`, a u32, bounds.
abbrev pub per_token : ActiveGen → ℕ → ℕ → ℕ
per_token gen done_at first = (done_at - first) / (gen.generated % u32_mod - 1)

-- `u32::try_from(x).unwrap_or(u32::MAX)`
abbrev pub clamp_u32 : ℕ → ℕ
clamp_u32 x = min x (u32_mod - 1)

abbrev pub usage_of : ActiveGen → Usage
usage_of gen = record { prompt_tokens = gen.prompt_tokens; completion_tokens = gen.generated }

-- the terminal event
unfoldable pub final_event : Usage → Finish → GenEvent
final_event u Finish.stop = GenEvent.done FinishReason.stop u
final_event u Finish.length = GenEvent.done FinishReason.length u
final_event u Finish.cancelled = GenEvent.done FinishReason.cancelled u
final_event u (Finish.failed e) = GenEvent.failed e

-- `recent_reason`
unfoldable pub recent_reason : Finish → Option Bytes
recent_reason Finish.stop = some (codes "stop")
recent_reason Finish.length = some (codes "length")
recent_reason Finish.cancelled = some (codes "cancelled")
recent_reason (Finish.failed e) = none

abbrev pub count_tokens : ActiveGen → MetricsRegistry → MetricsRegistry
count_tokens gen m = record m {
  prompt_tokens_total = wrapping_add m.prompt_tokens_total gen.prompt_tokens;
  generated_tokens_total = wrapping_add m.generated_tokens_total gen.generated;
}

-- the counters of the match on `finish`
unfoldable pub count_finish : ActiveGen → Finish → MetricsRegistry → MetricsRegistry
count_finish gen Finish.stop m = count_tokens gen m
count_finish gen Finish.length m = count_tokens gen m
count_finish gen Finish.cancelled m =
    count_tokens gen (record m { cancelled_total = wrapping_add m.cancelled_total 1 })
count_finish gen (Finish.failed e) m = record m { errors_total = wrapping_add m.errors_total 1 }

-- TTFT and TPOT, of a job that gave a token and did not fail
unfoldable pub observe_times : ActiveGen → ℕ → Finish → Option ℕ → MetricsRegistry → MetricsRegistry
observe_times gen done_at (Finish.failed e) first m = m
observe_times gen done_at finish none m = m
observe_times gen done_at finish (some ft) m =
    let m' = observe_ttft m (ft - gen.enqueued_at) in
    if leb 2 gen.generated then observe_tpot m' (per_token gen done_at ft) else m'

unfoldable pub recent_entry : ActiveGen → ℕ → ℕ → Option ℕ → Bytes → RecentReq
recent_entry gen done_at ts none reason = record {
  ttft_us = 0;
  tpot_us = 0;
  prompt_tokens = clamp_u32 gen.prompt_tokens;
  completion_tokens = clamp_u32 gen.generated;
  finish_reason = reason;
  ts_ms = ts;
}
recent_entry gen done_at ts (some ft) reason = record {
  ttft_us = as_micros (ft - gen.enqueued_at);
  tpot_us = if leb 2 gen.generated then as_micros (per_token gen done_at ft) else 0;
  prompt_tokens = clamp_u32 gen.prompt_tokens;
  completion_tokens = clamp_u32 gen.generated;
  finish_reason = reason;
  ts_ms = ts;
}

abbrev pub with_metrics : {W : Type 0} → (MetricsRegistry → MetricsRegistry) → Worker W → Worker W
with_metrics f s = record s { metrics = f s.metrics }

module _ (h : Host) where
  open h use {World}

  -- `demote_from_group` and the first act of `retire`: `group.remove(slot)`, if there is a group
  unfoldable pub remove_slot : Worker World → Option ℕ → Option ℕ → Worker World
  remove_slot s (some slot) (some g) = note s (h.group_remove s.world g slot) (Entry.removed slot)
  remove_slot s (some slot) none = s
  remove_slot s none g = s

  unfoldable pub demote_from_group : Worker World → ActiveGen → Worker World × ActiveGen
  unfolding remove_slot
  demote_from_group s gen = (remove_slot s gen.slot_id s.group, record gen { slot_id = none })

  unfoldable pub send_in : RetireMode → Worker World → ℕ → GenEvent → Worker World
  send_in serving s ch ev = blocking_send h s ch ev
  send_in shutdown s ch ev = (try_send h s ch ev).1

  -- the flush of a withheld token
  unfoldable pub flush : RetireMode → Worker World → ℕ → Option ℕ → Worker World
  unfolding send_in
  flush mode s ch none = s
  flush mode s ch (some tok) = send_in mode s ch (GenEvent.token tok)

  unfoldable pub note_recent : Worker World → ActiveGen → ℕ → Option Bytes → Worker World
  unfolding recent_entry
  note_recent s gen done_at none = s
  note_recent s gen done_at (some reason) =
      let (ts, w) = h.epoch_ms s.world in
      record s {
        world = w;
        metrics = push_recent s.metrics (recent_entry gen done_at ts gen.first_token_at reason);
      }

  -- A session beyond the capacity is dropped.
  unfoldable pub return_session : Limits → Worker World → ℕ → Worker World
  return_session lim s sid =
      if ltb (length s.idle + length s.active) lim.max_sessions
      then record s { idle = sid ∷ s.idle }
      else note s (h.drop_session s.world sid) (Entry.dropped sid)

  -- the end of `retire`: gauge, reset, return, gauge
  unfoldable pub release : Limits → Worker World → ℕ → Worker World
  unfolding return_session
  release lim s sid =
      let s' =
        with_metrics (λ m. record m { active_streams = wrapping_sub m.active_streams 1 }) s in
      let returned = return_session lim (call_reset h s' sid).1 sid in
      with_metrics (λ m. record m { active_sessions = length returned.active }) returned

  -- `retire` up to the reset: leave the group, flush, metrics, the terminal event
  unfoldable pub announce : RetireMode → Worker World → ActiveGen → Finish → Worker World
  unfolding remove_slot flush send_in note_recent final_event recent_reason count_finish
      observe_times
  announce mode s gen finish =
      let (done_at, s₁) = read_now h s in
      let s₂ = remove_slot s₁ gen.slot_id s₁.group in
      let s₃ = flush mode s₂ gen.events gen.pending_tok in
      let s₄ = with_metrics (observe_times gen done_at finish gen.first_token_at) s₃ in
      let s₅ = with_metrics (count_finish gen finish) s₄ in
      let s₆ = send_in mode s₅ gen.events (final_event (usage_of gen) finish) in
      note_recent s₆ gen done_at (recent_reason finish)

  unfoldable pub retire : Limits → RetireMode → Worker World → ActiveGen → Finish → Worker World
  unfolding release announce
  retire lim mode s gen finish = release lim (announce mode s gen finish) gen.session

  -- the session's part of `fail_intake`
  unfoldable pub give_back : Limits → Worker World → Option ℕ → Worker World
  unfolding return_session
  give_back lim s none = s
  give_back lim s (some sid) = return_session lim (call_reset h s sid).1 sid

  unfoldable pub fail_intake : Limits → Worker World → ℕ → Option ℕ → Bytes → Worker World
  unfolding give_back
  fail_intake lim s ch session msg =
      let s' =
        with_metrics
          (λ m. record m {
            errors_total = wrapping_add m.errors_total 1;
            active_streams = wrapping_sub m.active_streams 1;
          })
          s in
      give_back lim (blocking_send h s' ch (GenEvent.failed msg)) session
