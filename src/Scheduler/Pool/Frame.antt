-- ===== src/Scheduler/Pool/Frame.antt =====
-- What the parts of a quantum leave alone: the idle sessions, the active streams and the queue count.
use mini_cpm5_5080fast.Base.{ℕ, ◌≡◌, ◌∙◌, arith}
use mini_cpm5_5080fast.Scheduler.Types.{ActiveGen, Worker}
use mini_cpm5_5080fast.Scheduler.Host.{Host, read_now, load_cancel, try_send, call_decode}
use mini_cpm5_5080fast.Scheduler.Gen.{feed_token, decode, step}

pub record Kept {W : Type 0} (s t : Worker W) : Type 0 where
  pub same_idle : t.idle ≡ s.idle
  pub same_active : t.active ≡ s.active
  pub same_waiting : t.waiting ≡ s.waiting
  pub same_group : t.group ≡ s.group

pub Kept-trans : {W : Type 0} {s t u : Worker W} → Kept s t → Kept t u → Kept s u
Kept-trans a b = record {
  same_idle = b.same_idle ∙ a.same_idle;
  same_active = b.same_active ∙ a.same_active;
  same_waiting = b.same_waiting ∙ a.same_waiting;
  same_group = b.same_group ∙ a.same_group;
}

-- The same stream, further on.
pub record SameStream (gen gen' : ActiveGen) : Type 0 where
  pub same_session : gen'.session ≡ gen.session
  pub same_events : gen'.events ≡ gen.events
  pub same_slot : gen'.slot_id ≡ gen.slot_id

module _ (h : Host) where
  open h use {World}

  pub feed_token-Kept :
      (s : Worker World) (gen : ActiveGen) (tok : ℕ)
      → Kept s (feed_token h s gen tok).0 × SameStream gen (feed_token h s gen tok).1
  unfolding feed_token try_send read_now
  feed_token-Kept s gen tok = ground arith

  decode-Kept :
      (s : Worker World) (gen : ActiveGen)
      → Kept s (decode h s gen).0 × SameStream gen (decode h s gen).1
  unfolding decode call_decode
  decode-Kept s gen = grind (arith, feed_token-Kept)

  pub step-Kept :
      (s : Worker World) (gen : ActiveGen)
      → Kept s (step h s gen).0 × SameStream gen (step h s gen).1
  unfolding step load_cancel try_send
  step-Kept s gen = grind (arith, decode-Kept)
