-- ===== src/Server/Generation/Starts.antt =====
-- The calls of an answer are numbered 0, 1, 2, … in the order in which they start.
use mini_cpm5_5080fast.Base.{
  ℕ, ◌+◌, ◌≡◌, refl, sym, ap, ◌∙◌, true, false, some, List, [], ◌∷◌, ◌++◌, arith, append-nil,
}
use mini_cpm5_5080fast.Bytes.{Bytes}
use mini_cpm5_5080fast.Stop
use mini_cpm5_5080fast.ToolCall.{ToolCallParser, ToolCallEvent}
use mini_cpm5_5080fast.ToolCall.Events.{started}
use mini_cpm5_5080fast.ToolCall.Step
use mini_cpm5_5080fast.Scheduler.Types.{GenEvent}
use mini_cpm5_5080fast.Server.{Emission}
use mini_cpm5_5080fast.Server.ArgStream
use mini_cpm5_5080fast.Server.ArgStream.{ToolArgStream, push_tool_events}
use mini_cpm5_5080fast.Server.Emissions.{
  call_starts, call_starts-append, push_tool_events-next_index, count_from, count_from-append,
  count_from-eq,
}
use mini_cpm5_5080fast.Server.Generation.{
  Route, Generation, GenResult, emit_pending, emit_one, forward_tool_text, flush_calls,
  run_generation, start, last_emission,
}
use mini_cpm5_5080fast.Server.Generation.Invariant.{Invariant, run_generation-keeps, conclude-same}
use mini_cpm5_5080fast.Server.Generation.Told.{emit_pending-sent, conclude-sent}

module _ {W : Type 0} (r : Route W)
    (accepts : (w : W) (em : Emission) → (r.emit w em).0 ≡ true) where
  abbrev Counted : Generation W → Type 0
  Counted g = call_starts g.sent ≡ count_from 0 g.tool_args.next_index

  emit_pending-tool_args :
      (g : Generation W) (pending : List Emission)
      → (emit_pending r g pending).1.tool_args ≡ g.tool_args
  unfolding emit_pending emit_one
  emit_pending-tool_args g [] = refl
  emit_pending-tool_args g (em ∷ pending) =
      rw (accepts g.world em) (emit_pending-tool_args (emit_one r g em).1 pending)

  pending-Counted :
      (g : Generation W) (p : ToolCallParser) (evs : List ToolCallEvent)
      → Counted g
      → let o = push_tool_events r.to_json g.tool_args evs in
        Counted (emit_pending r (record g { tool_parser = p; tool_args = o.0 }) o.1).1
  pending-Counted g p evs c =
      let o = push_tool_events r.to_json g.tool_args evs in
      let g' = record g { tool_parser = p; tool_args = o.0 } in
      let (_, starts, next) = push_tool_events-next_index r.to_json g.tool_args evs in
      let n = g.tool_args.next_index in
      ap call_starts (emit_pending-sent r accepts g' o.1)
      ∙ call_starts-append g.sent o.1
      ∙ ap (λ x. x ++ call_starts o.1) c
      ∙ ap (λ x. count_from 0 n ++ x) (starts ∙ count_from-eq n (0 + n) _ _ (omega arith) refl)
      ∙ sym (count_from-append 0 n (started evs))
      ∙ ap (count_from 0) (sym next)
      ∙ sym (ap (λ x. count_from 0 x.next_index) (emit_pending-tool_args g' o.1))

  forward-Counted :
      (g : Generation W) (chunk : Bytes) → Counted g → Counted (forward_tool_text r g chunk).1
  unfolding forward_tool_text
  forward-Counted g chunk c =
      let o = Step.push r.render g.tool_parser chunk in pending-Counted g o.0 o.1 c

  calls-Counted : (g : Generation W) → Counted g → Counted (flush_calls r g)
  unfolding flush_calls
  calls-Counted g c = let o = Step.finish r.render g.tool_parser in pending-Counted g o.0 o.1 c

  Counted-Invariant : Invariant r Counted Counted
  Counted-Invariant = record {
    weakens = λ g c. c;
    keeps_notes = λ g d why e c. c;
    keeps_token = λ g id c. c;
    keeps_text = λ g t s hit e c. c;
    keeps_forward = λ g shown chunk l e₁ e₂ here c.
        forward-Counted (record g { emitted = Stop.safe_len g.stop_state }) chunk c;
    keeps_end = λ g s end e c. c;
    keeps_last = λ g s end shown chunk e l e₁ e₂ here c.
        forward-Counted (record g { stop_state = s; emitted = end }) chunk c;
    keeps_calls = λ g here c. calls-Counted g c;
  }

  last_emission-starts : (n : ℕ) (g : Generation W) → call_starts (last_emission r n g ∷ []) ≡ []
  unfolding last_emission call_starts
  last_emission-starts n g = ground arith

  -- If no slice panics and the consumer takes every emission: the calls of an answer start at the
  -- indices 0, 1, 2, … in this order.
  pub run_generation-call_starts :
      (rx : List GenEvent) (stop_strings : List Bytes) (prompt_len : ℕ) (w : W) (h : Generation W)
      (res : GenResult)
      → run_generation r rx stop_strings prompt_len w ≡ some (h, res)
      → h.client_gone ≡ false
      → (n : ℕ) × (call_starts h.sent ≡ count_from 0 n)
  run_generation-call_starts rx stop_strings prompt_len w h res e stays =
      let (f, g, _, _, c, done) =
        run_generation-keeps r Counted-Invariant rx stop_strings prompt_len w h res
          (unfold emit_one start call_starts count_from ArgStream.new in refl) e in
      let here = (conclude-same r prompt_len g h res done).1 ∙ stays in
      (
        g.tool_args.next_index,
        ap call_starts (conclude-sent r accepts prompt_len g h res done here)
            ∙ call_starts-append g.sent (last_emission r prompt_len g ∷ [])
            ∙ ap (λ x. call_starts g.sent ++ x) (last_emission-starts prompt_len g)
            ∙ append-nil (call_starts g.sent)
            ∙ c,
      )
