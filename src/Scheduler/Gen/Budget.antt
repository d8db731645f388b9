-- ===== src/Scheduler/Gen/Budget.antt =====
-- How far one stream may go: `max_new_tokens` bounds the content tokens, and each way in which a step
-- can end says what is left.
use mini_cpm5_5080fast.Base.{
  ℕ, ◌≤◌, ◌<◌, ◌≡◌, refl, inl, inr, Bool, true, false, Option, none, some, max, arith, Bool-cases,
  ◌≢◌, ◌∙◌,
}
use mini_cpm5_5080fast.Words.{u32_mod}
use mini_cpm5_5080fast.Scheduler.Types.{
  ActiveGen, Finish, StepResult, continue, yield, finished, Worker, is_eos,
}
use mini_cpm5_5080fast.Scheduler.Host.{
  Host, Reply, ok, err, SendResult, accepted, full, closed, load_cancel, try_send, call_decode,
}
use mini_cpm5_5080fast.Scheduler.Gen.{
  stamp, after_send, feed_content, feed_token, after_decode, decode, after_resend, resend, step,
  Stepped, wrapping_add, GenEvent, at_limit,
}

-- At least one token is decoded before the limit is looked at.
abbrev pub limit : ActiveGen → ℕ
limit gen = max 1 gen.config.max_new_tokens

-- What is still to come: one more token, or only the delivery of a token that was counted already.
abbrev pub Room : Option ℕ → ℕ → ℕ → Type 0
Room none generated limit = generated < limit
Room (some tok) generated limit = (0 < generated) × (generated ≤ limit)

pub Room-le : (o : Option ℕ) (generated limit : ℕ) → Room o generated limit → generated ≤ limit
Room-le none generated limit r = omega arith
Room-le (some tok) generated limit r = r.1

-- Between two steps.
abbrev pub Resumable : ActiveGen → Type 0
Resumable gen =
    (gen.config.max_new_tokens < u32_mod) × Room gen.pending_tok gen.generated (limit gen)

abbrev pub EndsWithin : ActiveGen → StepResult → Type 0
EndsWithin gen continue = (gen.pending_tok ≡ none) × (gen.generated < limit gen)
EndsWithin gen yield = (gen.pending_tok ≢ none) × (0 < gen.generated) × (gen.generated ≤ limit gen)
EndsWithin gen (finished Finish.stop) = (gen.pending_tok ≡ none) × (gen.generated < limit gen)
EndsWithin gen (finished Finish.length) = (gen.pending_tok ≡ none) × (gen.generated ≡ limit gen)
EndsWithin gen (finished Finish.cancelled) = gen.generated ≤ limit gen
EndsWithin gen (finished (Finish.failed e)) = (gen.pending_tok ≡ none) × (gen.generated < limit gen)

abbrev pub goes_on : StepResult → Bool
goes_on continue = true
goes_on yield = true
goes_on (finished f) = false

pending-Room :
    (o : Option ℕ) (generated limit : ℕ)
    → o ≢ none
    → 0 < generated
    → generated ≤ limit
    → Room o generated limit
pending-Room none generated limit ne z g = absurd (ne refl)
pending-Room (some tok) generated limit ne z g = (z, g)

EndsWithin-Resumable :
    (gen : ActiveGen) (r : StepResult)
    → gen.config.max_new_tokens < u32_mod
    → EndsWithin gen r
    → goes_on r ≡ true
    → Resumable gen
EndsWithin-Resumable gen continue b e g = (b, rw (e.0, Room) e.1)
EndsWithin-Resumable gen yield b e g = (b, pending-Room gen.pending_tok _ _ e.0 e.1 e.2)
EndsWithin-Resumable gen (finished f) b e g = cc

module _ (h : Host) where
  open h use {World}

  abbrev pub Within : Stepped h → ActiveGen → Type 0
  Within o gen = (o.1.config ≡ gen.config) × EndsWithin o.1 o.2

  stamp-keeps :
      (s : Worker World) (gen : ActiveGen) (o : Option ℕ)
      → ((stamp h s gen o).1.config ≡ gen.config)
        × ((stamp h s gen o).1.pending_tok ≡ gen.pending_tok)
        × ((stamp h s gen o).1.generated ≡ gen.generated)
  unfolding stamp
  stamp-keeps s gen none = (refl, refl, refl)
  stamp-keeps s gen (some t) = (refl, refl, refl)

  after_send-Within :
      (gen : ActiveGen) (tok : ℕ) (r : SendResult) (s : Worker World)
      → gen.pending_tok ≡ none
      → 0 < gen.generated
      → gen.generated ≤ limit gen
      → Within (after_send h gen tok (r, s)) gen
  unfolding after_send
  after_send-Within gen tok accepted s p z g = ground arith
  after_send-Within gen tok full s p z g = ground arith
  after_send-Within gen tok closed s p z g = ground arith

  feed_content-Within :
      (s : Worker World) (gen : ActiveGen) (tok : ℕ)
      → gen.config.max_new_tokens < u32_mod
      → gen.pending_tok ≡ none
      → gen.generated < limit gen
      → Within (feed_content h s gen tok) gen
  unfolding feed_content
  feed_content-Within s gen tok b p g =
      let counted = record gen { generated = wrapping_add gen.generated 1 } in
      let st = stamp h s counted gen.first_token_at in
      let k = stamp-keeps s counted gen.first_token_at in
      let sent = try_send h st.0 st.1.events (GenEvent.token tok) in
      let w =
        after_send-Within st.1 tok sent.0 sent.1 (k.1 ∙ p) (rw k.2 (omega arith))
          (rw (k.0, k.2) (omega arith)) in
      (w.0 ∙ k.0, w.1)

  feed_token-Within :
      (s : Worker World) (gen : ActiveGen) (tok : ℕ)
      → gen.config.max_new_tokens < u32_mod
      → gen.pending_tok ≡ none
      → gen.generated < limit gen
      → Within (feed_token h s gen tok) gen
  unfolding feed_token
  feed_token-Within s gen tok b p g = elim (Bool-cases (is_eos tok)) [
    | inl e ↦ rw e (refl, (p, g))
    | inr e ↦ rw e (feed_content-Within s gen tok b p g)
  ]

  after_decode-Within :
      (gen : ActiveGen) (r : Reply ℕ) (s : Worker World)
      → gen.config.max_new_tokens < u32_mod
      → gen.pending_tok ≡ none
      → gen.generated < limit gen
      → Within (after_decode h gen (r, s)) gen
  unfolding after_decode
  after_decode-Within gen (ok tok) s b p g = feed_token-Within s gen tok b p g
  after_decode-Within gen (err e) s b p g = (refl, (p, g))

  decode-Within :
      (s : Worker World) (gen : ActiveGen)
      → gen.config.max_new_tokens < u32_mod
      → gen.pending_tok ≡ none
      → gen.generated < limit gen
      → Within (decode h s gen) gen
  unfolding decode
  decode-Within s gen b p g =
      let c = call_decode h s gen.session gen.config in after_decode-Within gen c.0 c.1 b p g

  after_resend-Within :
      (gen : ActiveGen) (tok : ℕ) (r : SendResult) (s : Worker World)
      → gen.config.max_new_tokens < u32_mod
      → gen.pending_tok ≡ none
      → 0 < gen.generated
      → gen.generated ≤ limit gen
      → Within (after_resend h gen tok (r, s)) gen
  unfolding after_resend
  after_resend-Within gen tok accepted s b p z g = elim (Bool-cases (at_limit gen)) [
    | inl e ↦ rw e (refl, (p, ground arith))
    | inr e ↦ rw e (decode-Within s gen b p (ground arith))
  ]
  after_resend-Within gen tok full s b p z g = ground arith
  after_resend-Within gen tok closed s b p z g = ground arith

  resend-Within :
      (s : Worker World) (gen : ActiveGen) (o : Option ℕ)
      → gen.config.max_new_tokens < u32_mod
      → gen.pending_tok ≡ o
      → Room o gen.generated (limit gen)
      → Within (resend h s gen o) gen
  unfolding resend
  resend-Within s gen none b p g = decode-Within s gen b p g
  resend-Within s gen (some tok) b p g =
      let sent = try_send h s gen.events (GenEvent.token tok) in
      after_resend-Within (record gen { pending_tok = none }) tok sent.0 sent.1 b refl g.0 g.1

  -- A stream that may go on makes a step: its configuration stays, the count of content tokens never
  -- passes `max_new_tokens` (one, if that is 0), `length` is reported only at that count, with nothing
  -- left to deliver, a counted token waits for its channel after `yield`, and none does after `continue`.
  pub step-Within : (s : Worker World) (gen : ActiveGen) → Resumable gen → Within (step h s gen) gen
  unfolding step
  step-Within s gen (b, r) = elim (Bool-cases (load_cancel h s gen.cancel).0) [
    | inl e ↦ rw e (refl, Room-le gen.pending_tok gen.generated (limit gen) r)
    | inr e ↦ rw e (resend-Within (load_cancel h s gen.cancel).1 gen gen.pending_tok b refl r)
  ]

  pub step-Resumable :
      (s : Worker World) (gen : ActiveGen)
      → Resumable gen
      → goes_on (step h s gen).2 ≡ true
      → Resumable (step h s gen).1
  step-Resumable s gen m e =
      let o = step h s gen in
      let w = step-Within s gen m in EndsWithin-Resumable o.1 o.2 (rw w.0 m.0) w.1 e
