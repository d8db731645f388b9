-- ===== src/Scheduler/Gen/Report.antt =====
-- What the client of one stream has received when its job is over.
use mini_cpm5_5080fast.Base.{
  ℕ, ◌≡◌, ◌≢◌, refl, ap, ◌∙◌, true, Option, none, some, ◌∷◌, ◌++◌, map, arith, length,
}
use mini_cpm5_5080fast.Bytes.{Bytes}
use mini_cpm5_5080fast.Scheduler.Types.{
  ActiveGen, Finish, finished, Worker, GenEvent, Limits, serving,
}
use mini_cpm5_5080fast.Scheduler.Log.{content, events_of}
use mini_cpm5_5080fast.Scheduler.Host.{Host, read_now, blocking_send, call_reset, sent_if}
use mini_cpm5_5080fast.Scheduler.Gen.Budget.{Resumable}
use mini_cpm5_5080fast.Scheduler.Gen.Order.{InOrder, waiting_tokens}
use mini_cpm5_5080fast.Scheduler.Gen.Drive.{drive, drive-InOrder}
use mini_cpm5_5080fast.Scheduler.Retire.{
  remove_slot, flush, send_in, note_recent, announce, release, retire, final_event, usage_of,
}

module _ (h : Host)
    (accepts : (w : h.World) (ch : ℕ) (ev : GenEvent) → (h.blocking_send w ch ev).0 ≡ true) where
  open h use {World}

  events-remove_slot :
      (s : Worker World) (slot g : Option ℕ) (ch : ℕ)
      → events_of (remove_slot h s slot g).log ch ≡ events_of s.log ch
  unfolding remove_slot events_of
  events-remove_slot s slot g ch = ground arith

  events-send :
      (s : Worker World) (ch : ℕ) (ev : GenEvent)
      → events_of (send_in h serving s ch ev).log ch ≡ ev ∷ events_of s.log ch
  unfolding send_in blocking_send sent_if events_of
  events-send s ch ev = ground (arith, accepts s.world ch ev)

  events-flush :
      (s : Worker World) (ch : ℕ) (o : Option ℕ)
      → events_of (flush h serving s ch o).log ch
        ≡ map GenEvent.token (waiting_tokens o) ++ events_of s.log ch
  unfolding flush
  events-flush s ch none = refl
  events-flush s ch (some tok) = events-send s ch (GenEvent.token tok)

  events-note_recent :
      (s : Worker World) (gen : ActiveGen) (t : ℕ) (o : Option Bytes)
      → (note_recent h s gen t o).log ≡ s.log
  unfolding note_recent
  events-note_recent s gen t none = refl
  events-note_recent s gen t (some r) = refl

  events-release :
      (lim : Limits) (s : Worker World) (sid ch : ℕ)
      → events_of (release h lim s sid).log ch ≡ events_of s.log ch
  unfolding release call_reset events_of
  events-release lim s sid ch = ground arith

  -- `retire` sends the token that waits, and then the terminal event.
  events-retire :
      (lim : Limits) (s : Worker World) (gen : ActiveGen) (f : Finish)
      → events_of (retire h lim serving s gen f).log gen.events
        ≡ final_event (usage_of gen) f
          ∷ (map GenEvent.token (waiting_tokens gen.pending_tok) ++ events_of s.log gen.events)
  unfolding retire announce read_now
  events-retire lim s gen f =
      rw (events-release, events-note_recent, events-send, events-flush, events-remove_slot)

  finished-ne : (f : Finish) → f ≢ Finish.cancelled → finished f ≢ finished Finish.cancelled
  finished-ne f ne = λ e. ne (cc)

  -- A stream that may go on and is in order, that is stepped until it ends, for another reason than
  -- that it was cancelled, and that is then retired while serving has sent exactly the content tokens that its session gave, in order, and then the terminal
  -- event, and the completion count is their number, if the channel takes what `retire` sends.
  pub retire-drive :
      (n : ℕ) (lim : Limits) (s : Worker World) (gen : ActiveGen) (f : Finish)
      → Resumable gen
      → InOrder s gen
      → (drive h n s gen).2 ≡ finished f
      → f ≢ Finish.cancelled
      → let o = drive h n s gen in
        let tokens = content o.0.log o.1.session in
        events_of (retire h lim serving o.0 o.1 f).log o.1.events
          ≡ final_event (usage_of o.1) f ∷ map GenEvent.token tokens
        × (usage_of o.1).completion_tokens ≡ length tokens
  retire-drive n lim s gen f m i e ne =
      let o = drive h n s gen in
      let kept = drive-InOrder h n s gen m i (rw e (finished-ne f ne)) in
      (
        events-retire lim o.0 o.1 f ∙ ap (λ es. final_event (usage_of o.1) f ∷ es) kept.in_order,
        kept.counted,
      )
