-- ===== src/Scheduler/Gen.antt =====
-- `step` and `feed_token`: one active stream makes one step.
pub mod Budget
pub mod Order
pub mod Drive
pub mod Report
use mini_cpm5_5080fast.Base.{
  ℕ, Bool, true, false, Option, none, some, List, ◌++◌, leb, if◌then◌else◌,
}
use mini_cpm5_5080fast.Bytes.Text.{codes}
use mini_cpm5_5080fast.Words.{wrapping_add}
use mini_cpm5_5080fast.Scheduler.Types.{
  GenEvent, ActiveGen, Finish, StepResult, continue, yield, finished, Worker, is_eos,
}
use mini_cpm5_5080fast.Scheduler.Host.{
  Host, Reply, ok, err, SendResult, accepted, full, closed, read_now, load_cancel, try_send,
  call_decode,
}

abbrev pub at_limit : ActiveGen → Bool
at_limit gen = leb gen.config.max_new_tokens gen.generated

module _ (h : Host) where
  open h use {World}

  abbrev pub Stepped : Type 0
  Stepped = Worker World × ActiveGen × StepResult

  unfoldable pub stamp : Worker World → ActiveGen → Option ℕ → Worker World × ActiveGen
  stamp s gen (some t) = (s, gen)
  stamp s gen none = let (t, s') = read_now h s in (s', record gen { first_token_at = some t })

  unfoldable pub after_send : ActiveGen → ℕ → SendResult × Worker World → Stepped
  after_send gen tok (accepted, s) =
      (s, gen, if at_limit gen then finished Finish.length else continue)
  after_send gen tok (full, s) = (s, record gen { pending_tok = some tok }, yield)
  after_send gen tok (closed, s) = (s, gen, finished Finish.cancelled)

  unfoldable pub feed_content : Worker World → ActiveGen → ℕ → Stepped
  unfolding stamp after_send
  feed_content s gen tok =
      let counted = record gen { generated = wrapping_add gen.generated 1 } in
      let (s', gen') = stamp s counted gen.first_token_at in
      after_send gen' tok (try_send h s' gen'.events (GenEvent.token tok))

  unfoldable pub feed_token : Worker World → ActiveGen → ℕ → Stepped
  unfolding feed_content
  feed_token s gen tok =
      if is_eos tok then (s, gen, finished Finish.stop) else feed_content s gen tok

  unfoldable pub after_decode : ActiveGen → Reply ℕ × Worker World → Stepped
  after_decode gen (ok tok, s) = feed_token s gen tok
  after_decode gen (err e, s) = (s, gen, finished (Finish.failed (codes "decode_one: " ++ e)))

  unfoldable pub decode : Worker World → ActiveGen → Stepped
  unfolding after_decode
  decode s gen = after_decode gen (call_decode h s gen.session gen.config)

  unfoldable pub after_resend : ActiveGen → ℕ → SendResult × Worker World → Stepped
  after_resend gen tok (accepted, s) =
      if at_limit gen then (s, gen, finished Finish.length) else decode s gen
  after_resend gen tok (full, s) = (s, record gen { pending_tok = some tok }, yield)
  after_resend gen tok (closed, s) = (s, gen, finished Finish.cancelled)

  unfoldable pub resend : Worker World → ActiveGen → Option ℕ → Stepped
  unfolding after_resend
  resend s gen none = decode s gen
  resend s gen (some tok) =
      after_resend (record gen { pending_tok = none }) tok
        (try_send h s gen.events (GenEvent.token tok))

  unfoldable pub step : Worker World → ActiveGen → Stepped
  unfolding resend
  step s gen =
      let (cancelled, s') = load_cancel h s gen.cancel in
      if cancelled then (s', gen, finished Finish.cancelled) else resend s' gen gen.pending_tok
