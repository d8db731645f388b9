-- ===== src/Scheduler/Gen/Order.antt =====
-- The tokens of one stream reach its channel in order, none twice and none left out.
use mini_cpm5_5080fast.Base.{
  ℕ, ◌<◌, ◌≡◌, ◌≢◌, Option, none, some, List, [], ◌∷◌, ◌++◌, map, arith, length, ◌-◌,
}
use mini_cpm5_5080fast.Words.{u64_mod}
use mini_cpm5_5080fast.Scheduler.Types.{ActiveGen, Finish, finished, Worker, GenEvent}
use mini_cpm5_5080fast.Scheduler.Log.{content, events_of}
use mini_cpm5_5080fast.Scheduler.Host.{Host, read_now, load_cancel, try_send, call_decode}
use mini_cpm5_5080fast.Scheduler.Gen.{feed_token, decode, step}

abbrev pub waiting_tokens : Option ℕ → List ℕ
waiting_tokens none = []
waiting_tokens (some tok) = tok ∷ []

-- The events of the channel, with the token that still waits in front of them, are the content tokens
-- of the session, newest first, and `generated` is their number.
pub record InOrder {W : Type 0} (s : Worker W) (gen : ActiveGen) : Type 0 where
  pub in_order :
      map GenEvent.token (waiting_tokens gen.pending_tok) ++ events_of s.log gen.events
      ≡ map GenEvent.token (content s.log gen.session)
  pub counted : gen.generated ≡ length (content s.log gen.session)

module _ (h : Host) where
  open h use {World}

  decode-InOrder :
      (s : Worker World) (gen : ActiveGen)
      → gen.pending_tok ≡ none
      → gen.generated < u64_mod - 1
      → InOrder s gen
      → (decode h s gen).2 ≢ finished Finish.cancelled
      → InOrder (decode h s gen).0 (decode h s gen).1
  unfolding decode call_decode feed_token try_send read_now content events_of
  decode-InOrder s gen p g o ne = ground (arith, o.in_order, o.counted)

  -- Of a stream that is in order and has given fewer than 2^64 - 1 tokens, and unless it ends with
  -- `cancelled`, which a closed channel also gives, a step keeps the order: what
  -- the channel took, with the token that waits, is all the content tokens in the order of decoding.
  pub step-InOrder :
      (s : Worker World) (gen : ActiveGen)
      → gen.generated < u64_mod - 1
      → InOrder s gen
      → (step h s gen).2 ≢ finished Finish.cancelled
      → InOrder (step h s gen).0 (step h s gen).1
  unfolding step load_cancel try_send content events_of
  step-InOrder s gen g o ne = grind (arith, decode-InOrder, o.in_order, o.counted)
