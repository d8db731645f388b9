-- ===== src/Scheduler/Pool/Resets.antt =====
-- The reset of a session when its job ends.
use mini_cpm5_5080fast.Base.{ℕ, ◌≡◌, refl, Bool, true, false, Option, none, some, ◌∷◌, arith}
use mini_cpm5_5080fast.Bytes.{Bytes}
use mini_cpm5_5080fast.Scheduler.Types.{
  ActiveGen, GenEvent, Worker, Limits, Finish, RetireMode, serving, shutdown,
}
use mini_cpm5_5080fast.Scheduler.Log.{resets_of}
use mini_cpm5_5080fast.Scheduler.Host.{Host, read_now, try_send, blocking_send, call_reset, sent_if}
use mini_cpm5_5080fast.Scheduler.Retire.{
  announce, remove_slot, flush, send_in, note_recent, release, retire,
}

module _ (h : Host) (lim : Limits) where
  open h use {World}

  resets-sent_if :
      (b : Bool) (s : Worker World) (w : World) (ch : ℕ) (ev : GenEvent)
      → resets_of (sent_if h b s w ch ev).log ≡ resets_of s.log
  unfolding sent_if resets_of
  resets-sent_if true s w ch ev = refl
  resets-sent_if false s w ch ev = refl

  resets-send_in :
      (mode : RetireMode) (s : Worker World) (ch : ℕ) (ev : GenEvent)
      → resets_of (send_in h mode s ch ev).log ≡ resets_of s.log
  unfolding send_in try_send blocking_send
  resets-send_in serving s ch ev = grind (arith, resets-sent_if)
  resets-send_in shutdown s ch ev = grind (arith, resets-sent_if)

  resets-flush :
      (mode : RetireMode) (s : Worker World) (ch : ℕ) (o : Option ℕ)
      → resets_of (flush h mode s ch o).log ≡ resets_of s.log
  unfolding flush
  resets-flush mode s ch none = refl
  resets-flush mode s ch (some tok) = resets-send_in mode s ch (GenEvent.token tok)

  resets-remove_slot :
      (s : Worker World) (slot group : Option ℕ)
      → resets_of (remove_slot h s slot group).log ≡ resets_of s.log
  unfolding remove_slot resets_of
  resets-remove_slot s slot group = ground arith

  log-note_recent :
      (s : Worker World) (gen : ActiveGen) (t : ℕ) (o : Option Bytes)
      → (note_recent h s gen t o).log ≡ s.log
  unfolding note_recent
  log-note_recent s gen t none = refl
  log-note_recent s gen t (some r) = refl

  resets-release :
      (s : Worker World) (sid : ℕ) → resets_of (release h lim s sid).log ≡ sid ∷ resets_of s.log
  unfolding release call_reset resets_of
  resets-release s sid = ground arith

  -- `retire` resets the session of its stream exactly once, and no other session, in either mode,
  -- for every reason, and whether or not the pool takes the session back.
  pub resets_of-retire :
      (mode : RetireMode) (s : Worker World) (gen : ActiveGen) (f : Finish)
      → resets_of (retire h lim mode s gen f).log ≡ gen.session ∷ resets_of s.log
  unfolding retire announce read_now
  resets_of-retire mode s gen f =
      rw (resets-release, log-note_recent, resets-send_in, resets-flush, resets-remove_slot)
