-- ===== src/Scheduler/Gen/Drive.antt =====
-- One stream stepped until it ends.
use mini_cpm5_5080fast.Base.{
  ℕ, zero, suc, ◌+◌, ◌-◌, ◌<◌, ◌≡◌, ◌≢◌, inl, inr, true, false, arith, Bool-cases, if◌then◌else◌,
}
use mini_cpm5_5080fast.Words.{u64_mod}
use mini_cpm5_5080fast.Scheduler.Types.{
  ActiveGen, Finish, StepResult, continue, yield, finished, Worker, GenEvent,
}
use mini_cpm5_5080fast.Scheduler.Host.{Host, full, read_now, load_cancel, try_send, call_decode}
use mini_cpm5_5080fast.Scheduler.Gen.{decode, feed_token, step, Stepped}
use mini_cpm5_5080fast.Scheduler.Gen.Budget.{
  limit, Room-le, Resumable, goes_on, step-Within, step-Resumable,
}
use mini_cpm5_5080fast.Scheduler.Gen.Order.{InOrder, step-InOrder}

module _ (h : Host) where
  open h use {World}

  -- At most `n` steps; a `yield` is tried again.
  unfoldable pub drive : ℕ → Worker World → ActiveGen → Stepped h
  drive zero s gen = (s, gen, continue)
  drive (suc n) s gen =
      let o = step h s gen in let rest = drive n o.0 o.1 in if goes_on o.2 then rest else o

  Resumable-small : (gen : ActiveGen) → Resumable gen → gen.generated < u64_mod - 1
  Resumable-small gen m = omega (arith, Room-le gen.pending_tok gen.generated (limit gen) m.1)

  goes_on-ne : (r : StepResult) → goes_on r ≡ true → r ≢ finished Finish.cancelled
  goes_on-ne continue e = λ c. cc
  goes_on-ne yield e = λ c. cc
  goes_on-ne (finished f) e = cc

  pub drive-InOrder :
      (n : ℕ) (s : Worker World) (gen : ActiveGen)
      → Resumable gen
      → InOrder s gen
      → (drive n s gen).2 ≢ finished Finish.cancelled
      → InOrder (drive n s gen).0 (drive n s gen).1
  unfolding drive
  drive-InOrder zero s gen m o ne = o
  drive-InOrder (suc n) s gen m o ne = elim (Bool-cases (goes_on (step h s gen).2)) [
    | inl e ↦
        let p = step h s gen in
        rw e (
          drive-InOrder n p.0 p.1 (step-Resumable h s gen m e)
            (step-InOrder h s gen (Resumable-small gen m) o (goes_on-ne p.2 e)) (rw e at ne))
    | inr e ↦ rw e (step-InOrder h s gen (Resumable-small gen m) o (rw e at ne))
  ]

  -- The channel is never full: its reader keeps up.
  module _ (keeps_up : (w : World) (ch : ℕ) (ev : GenEvent) → (h.try_send w ch ev).0 ≢ full) where
    decode-advances :
        (s : Worker World) (gen : ActiveGen)
        → gen.generated < u64_mod - 1
        → goes_on (decode h s gen).2 ≡ true
        → (decode h s gen).1.generated ≡ gen.generated + 1
    unfolding decode call_decode feed_token try_send read_now
    decode-advances s gen b e = grind (arith, keeps_up)

    step-advances :
        (s : Worker World) (gen : ActiveGen)
        → gen.generated < u64_mod - 1
        → goes_on (step h s gen).2 ≡ true
        → (step h s gen).1.generated ≡ gen.generated + 1
    unfolding step load_cancel try_send
    step-advances s gen b e = grind (arith, keeps_up, decode-advances)

    -- A stream that may go on and whose channel is never full ends: it takes at most one step more than
    -- the content tokens that its limit leaves.
    pub drive-ends :
        (n : ℕ) (s : Worker World) (gen : ActiveGen)
        → Resumable gen
        → limit gen < gen.generated + n
        → goes_on (drive n s gen).2 ≡ false
    unfolding drive
    drive-ends zero s gen m b =
        absurd (omega (arith, Room-le gen.pending_tok gen.generated (limit gen) m.1))
    drive-ends (suc n) s gen m b = elim (Bool-cases (goes_on (step h s gen).2)) [
      | inl e ↦
          let p = step h s gen in
          let w = step-Within h s gen m in
          let a = step-advances s gen (Resumable-small gen m) e in
          rw e (drive-ends n p.0 p.1 (step-Resumable h s gen m e) (rw (w.0, a) (omega arith)))
      | inr e ↦ rw (e, e)
    ]
