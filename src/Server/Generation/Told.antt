-- ===== src/Server/Generation/Told.antt =====
-- A consumer that takes everything is given the text of the result, if no call starts.
use mini_cpm5_5080fast.Base.{
  ℕ, ◌≤◌, ◌≡◌, refl, sym, ap, ◌∙◌, subst, true, false, none, some, List, [], ◌∷◌, ◌++◌, arith, take,
  drop, length, take-take, take-append-drop, take-append, append_assoc, append-nil, suc, zero,
}
use mini_cpm5_5080fast.Bytes.{Bytes, slice}
use mini_cpm5_5080fast.Stop
use mini_cpm5_5080fast.Stop.{StopState, StopHit}
use mini_cpm5_5080fast.Stop.Window.{AllFilled}
use mini_cpm5_5080fast.Stop.Stream.{Extends, push_text-Extends, check_token-Extends, visible_end-le}
use mini_cpm5_5080fast.ToolCall.{in_text, ToolCallParser, ToolCallEvent}
use mini_cpm5_5080fast.ToolCall.Step
use mini_cpm5_5080fast.ToolCall.Events.{started, joined_text}
use mini_cpm5_5080fast.ToolCall.Passthrough.{push-Passes, finish-Passes}
use mini_cpm5_5080fast.Scheduler.Types.{GenEvent}
use mini_cpm5_5080fast.Server.{Emission}
use mini_cpm5_5080fast.Server.ArgStream.{push_tool_events}
use mini_cpm5_5080fast.Server.Emissions.{
  joined_content, call_starts, joined_content-append, call_starts-append,
  push_tool_events-next_index, count_from,
}
use mini_cpm5_5080fast.Server.Generation.{
  Route, Generation, GenResult, emit_pending, emit_one, forward_tool_text, flush_calls,
  run_generation, start, conclude, last_emission,
}
use mini_cpm5_5080fast.Server.Generation.Sent.{if-false}
use mini_cpm5_5080fast.Server.Generation.Invariant.{
  Invariant, run_generation-keeps, flush-parts, conclude-parts, conclude-live, conclude-same,
}
use mini_cpm5_5080fast.Server.Generation.Text.{
  Sound, Ended, Sound-Invariant, start-Sound, slice-eq-some, visible_text-take, emit_pending-same,
  Sound-Ended, end-of,
}

-- As long as no call has started: what was sent and what the parser holds back is what was forwarded.
abbrev pub Told : {W : Type 0} → Generation W → Type 0
Told g =
    call_starts g.sent ≡ []
    → (g.tool_parser.state ≡ in_text)
      × (joined_content g.sent ++ g.tool_parser.buf ≡ take g.emitted g.stop_state.text)

pub append-nil-parts : {A : Type 0} (xs ys : List A) → xs ++ ys ≡ [] → (xs ≡ []) × (ys ≡ [])
append-nil-parts [] ys e = (refl, e)
append-nil-parts (x ∷ xs) ys e = cc

take-slice :
    (t shown chunk : Bytes) (m n : ℕ)
    → take n t ≡ shown
    → slice shown m n ≡ some chunk
    → take m t ++ chunk ≡ take n t
take-slice t shown chunk m n e f =
    let (le, cut) = slice-eq-some shown chunk m n f in
    ap (λ x. take m t ++ x) (sym cut)
    ∙ ap (λ x. take m t ++ drop m x) (ap (take n) (sym e) ∙ take-take n n t (omega arith))
    ∙ ap (λ x. x ++ drop m (take n t)) (sym (take-take m n t le))
    ∙ take-append-drop m (take n t)

count_from-empty : (i n : ℕ) → count_from i n ≡ [] → n ≡ 0
unfolding count_from
count_from-empty i zero e = refl
count_from-empty i (suc n) e = cc

module _ {W : Type 0} (r : Route W)
    (accepts : (w : W) (em : Emission) → (r.emit w em).0 ≡ true) where
  pub emit_pending-sent :
      (g : Generation W) (pending : List Emission)
      → (emit_pending r g pending).1.sent ≡ g.sent ++ pending
  unfolding emit_pending emit_one
  emit_pending-sent g [] = sym (append-nil g.sent)
  emit_pending-sent g (em ∷ pending) =
      rw (accepts g.world em)
        (emit_pending-sent (emit_one r g em).1 pending ∙ append_assoc g.sent (em ∷ []) pending)

  -- The emissions for the events of a piece of text, which the parser passes: the text is told.
  pending-Told :
      (g : Generation W) (p : ToolCallParser) (evs : List ToolCallEvent) (t : Bytes)
      → (call_starts g.sent ≡ []
          → started evs ≡ 0
          → (p.state ≡ in_text) × (joined_text evs ++ p.buf ≡ t))
      → let o = push_tool_events r.to_json g.tool_args evs in
        let h = (emit_pending r (record g { tool_parser = p; tool_args = o.0 }) o.1).1 in
        call_starts h.sent ≡ []
        → (call_starts g.sent ≡ [])
          × (h.tool_parser.state ≡ in_text)
          × (joined_content h.sent ++ h.tool_parser.buf ≡ joined_content g.sent ++ t)
  pending-Told g p evs t passes quiet =
      let o = push_tool_events r.to_json g.tool_args evs in
      let g' = record g { tool_parser = p; tool_args = o.0 } in
      let same = emit_pending-same r g' o.1 in
      let sent = emit_pending-sent g' o.1 in
      let (content, starts, _) = push_tool_events-next_index r.to_json g.tool_args evs in
      let (before, after) =
        append-nil-parts (call_starts g.sent) (call_starts o.1)
          (sym (call_starts-append g.sent o.1) ∙ ap call_starts (sym sent) ∙ quiet) in
      let (state, text) = passes before (count_from-empty _ _ (sym starts ∙ after)) in
      (
        before,
        ap (λ x. x.state) same.2 ∙ state,
        ap (λ x. joined_content x ++ (emit_pending r g' o.1).1.tool_parser.buf) sent
            ∙ ap (λ x. joined_content (g.sent ++ o.1) ++ x.buf) same.2
            ∙ ap (λ x. x ++ p.buf) (joined_content-append g.sent o.1)
            ∙ append_assoc (joined_content g.sent) (joined_content o.1) p.buf
            ∙ ap (λ x. joined_content g.sent ++ x) (ap (λ x. x ++ p.buf) content ∙ text),
      )

  -- forwarding up to `end`
  forward-Told :
      (g : Generation W) (s : StopState) (end : ℕ) (shown chunk : Bytes)
      → s.text ≡ g.stop_state.text
      → Stop.visible_text s end ≡ some shown
      → slice shown g.emitted end ≡ some chunk
      → Told g
      → Told (forward_tool_text r (record g { stop_state = s; emitted = end }) chunk).1
  unfolding forward_tool_text
  forward-Told g s end shown chunk x e₁ e₂ told quiet =
      let h = record g { stop_state = s; emitted = end } in
      let o = Step.push r.render g.tool_parser chunk in
      let i = push_tool_events r.to_json g.tool_args o.1 in
      let h' = record h { tool_parser = o.0; tool_args = i.0 } in
      let same = emit_pending-same r h' i.1 in
      let (before, state, text) =
        pending-Told h o.0 o.1 (g.tool_parser.buf ++ chunk)
          (λ b z. push-Passes r.render g.tool_parser chunk (told b).0 z) quiet in
      (
        state,
        text
            ∙ sym (append_assoc (joined_content g.sent) g.tool_parser.buf chunk)
            ∙ ap (λ y. y ++ chunk) (told before).1
            ∙ ap (λ y. take g.emitted y ++ chunk) (sym x)
            ∙ take-slice s.text shown chunk g.emitted end (visible_text-take s shown end e₁) e₂
            ∙ sym (ap (take end) (ap (λ y. y.text) same.0))
            ∙ sym (ap (λ n. take n (emit_pending r h' i.1).1.stop_state.text) same.1),
      )

  text-Told :
      (g : Generation W) (s : StopState)
      → g.emitted ≤ length g.stop_state.text
      → Extends g.stop_state s
      → Told g
      → Told (record g { stop_state = s })
  text-Told g s le x told quiet =
      let (state, text) = told quiet in
      (
        state,
        text
            ∙ sym (take-append g.emitted g.stop_state.text x.rest le)
            ∙ ap (take g.emitted) (sym x.text_is),
      )

  abbrev Told-Sound : List Bytes → Generation W → Type 0
  Told-Sound ps g = Sound ps g × Told g

  abbrev Told-Ended : List Bytes → Generation W → Type 0
  Told-Ended ps g = Ended r ps g × Told g

  flush_calls-Told :
      (g : Generation W)
      → Told g
      → let h = flush_calls r g in
        call_starts h.sent ≡ []
        → (h.tool_parser.state ≡ in_text)
          × (joined_content h.sent ≡ take h.emitted h.stop_state.text)
          × (h.tool_parser.buf ≡ [])
  unfolding flush_calls
  flush_calls-Told g told quiet =
      let o = Step.finish r.render g.tool_parser in
      let i = push_tool_events r.to_json g.tool_args o.1 in
      let h' = record g { tool_parser = o.0; tool_args = i.0 } in
      let same = emit_pending-same r h' i.1 in
      let (before, state, text) =
        pending-Told g o.0 o.1 g.tool_parser.buf
          (λ b z.
            let k = finish-Passes r.render g.tool_parser (told b).0 in
            (k.0, ap (λ x. joined_text o.1 ++ x) k.1 ∙ append-nil (joined_text o.1) ∙ k.2))
          quiet in
      let h = (emit_pending r h' i.1).1 in
      let empty : h.tool_parser.buf ≡ [] =
        ap (λ x. x.buf) same.2 ∙ (finish-Passes r.render g.tool_parser (told before).0).1 in
      (
        state,
        sym (append-nil (joined_content h.sent))
            ∙ ap (λ x. joined_content h.sent ++ x) (sym empty)
            ∙ text
            ∙ (told before).1
            ∙ sym (ap (λ y. take g.emitted y.text) same.0)
            ∙ sym (ap (λ n. take n h.stop_state.text) same.1),
        empty,
      )

  Sound-le :
      (ps : List Bytes) (g : Generation W) → Sound ps g → g.emitted ≤ length g.stop_state.text
  Sound-le ps g v = omega (arith, (Sound-Ended r ps g v).1, visible_end-le ps g.stop_state.text)

  Told-Invariant : (ps : List Bytes) → Invariant r (Told-Sound ps) (Told-Ended ps)
  Told-Invariant ps =
      let v = Sound-Invariant r ps in
      record {
        weakens = λ g p. (v.weakens g p.0, p.1);
        keeps_notes = λ g d why e p. (v.keeps_notes g d why e p.0, p.1);
        keeps_token = λ g id p. (
          v.keeps_token g id p.0,
          text-Told g (Stop.check_token g.stop_state id).0 (Sound-le ps g p.0)
              (check_token-Extends g.stop_state id) p.1,
        );
        keeps_text = λ g t s hit e p. (
          v.keeps_text g t s hit e p.0,
          text-Told g s (Sound-le ps g p.0) (push_text-Extends g.stop_state s t hit p.0.inv e) p.1,
        );
        keeps_forward = λ g shown chunk l e₁ e₂ c p. (
          v.keeps_forward g shown chunk l e₁ e₂ c p.0,
          forward-Told g g.stop_state (Stop.safe_len g.stop_state) shown chunk refl e₁ e₂ p.1,
        );
        keeps_end = λ g s end e p. (
          v.keeps_end g s end e p.0,
          subst (λ x. Told (record g { stop_state = x })) (sym (end-of r ps g s end p.0 e).0) p.1,
        );
        keeps_last = λ g s end shown chunk e l e₁ e₂ c p. (
          v.keeps_last g s end shown chunk e l e₁ e₂ c p.0,
          forward-Told g s end shown chunk (ap (λ x. x.text) (end-of r ps g s end p.0 e).0) e₁ e₂
              p.1,
        );
        keeps_calls = λ g c p. (
          v.keeps_calls g c p.0,
          λ quiet.
              let (state, text, empty) = flush_calls-Told g p.1 quiet in
              let h = flush_calls r g in
              (
                state,
                ap (λ x. joined_content h.sent ++ x) empty
                    ∙ append-nil (joined_content h.sent)
                    ∙ text,
              ),
        );
      }

  pub conclude-sent :
      (n : ℕ) (g h : Generation W) (res : GenResult)
      → conclude r n g ≡ some (h, res)
      → g.client_gone ≡ false
      → h.sent ≡ g.sent ++ last_emission r n g ∷ []
  unfolding emit_one
  conclude-sent n g h res e c =
      let (content, shown, to, made) = conclude-parts r n g h res e in
      let reported = (emit_one r g (last_emission r n g)).1 in
      ap (λ x. x.sent) (sym to ∙ if-false g reported c)

  last_emission-quiet : (n : ℕ) (g : Generation W) → joined_content (last_emission r n g ∷ []) ≡ []
  unfolding last_emission joined_content
  last_emission-quiet n g = ground arith

  -- A consumer that takes every emission is given the text of the result: if no slice panics, nothing
  -- fails and no call starts, the content deltas together are the content of the result, however the
  -- text was cut into tokens and whatever was held back on the way. No stop string is empty.
  pub run_generation-joined_content :
      (rx : List GenEvent) (stop_strings : List Bytes) (prompt_len : ℕ) (w : W) (h : Generation W)
      (res : GenResult)
      → AllFilled stop_strings
      → run_generation r rx stop_strings prompt_len w ≡ some (h, res)
      → res.error ≡ none
      → h.client_gone ≡ false
      → call_starts h.sent ≡ []
      → joined_content h.sent ≡ res.content
  run_generation-joined_content rx stop_strings prompt_len w h res a e fine stays quiet =
      let v = Told-Invariant stop_strings in
      let (f, g, p, flushed, q, done) =
        run_generation-keeps r v rx stop_strings prompt_len w h res
          (
            start-Sound r stop_strings w a,
            λ quiet. (unfold emit_one start in refl, unfold emit_one start joined_content in refl),
          )
          e in
      let live = conclude-live r prompt_len g h res done fine stays in
      let (g₁, g₂, p₁, stopped, q₂, there, closed) = flush-parts r v f g live p flushed in
      let (content, shown, to, made) = conclude-parts r prompt_len g h res done in
      let here = (conclude-same r prompt_len g h res done).1 ∙ stays in
      let sent = conclude-sent prompt_len g h res done here in
      let last = last_emission-quiet prompt_len g in
      let (before, _) =
        append-nil-parts (call_starts g.sent) (call_starts (last_emission r prompt_len g ∷ []))
          (sym (call_starts-append g.sent _) ∙ ap call_starts (sym sent) ∙ quiet) in
      let told = flush_calls-Told g₂ q₂.1 (ap (λ x. call_starts x.sent) closed ∙ before) in
      ap joined_content sent
      ∙ joined_content-append g.sent (last_emission r prompt_len g ∷ [])
      ∙ ap (λ x. joined_content g.sent ++ x) last
      ∙ append-nil (joined_content g.sent)
      ∙ subst (λ x. joined_content x.sent ≡ take x.emitted x.stop_state.text) closed told.1
      ∙ visible_text-take g.stop_state content g.emitted shown
      ∙ ap (λ x. x.content) made
