-- ===== src/Server/Generation/Text.antt =====
-- The text of an answer: what the result says, and what the consumer was given.
use mini_cpm5_5080fast.Base.{
  ℕ, ◌≤◌, ◌≡◌, refl, sym, ap, ◌∙◌, subst, false, none, some, List, [], ◌∷◌, leb, ◌&&◌, >>=-eq-some,
  Bool-cases, inl, inr, arith, take, drop,
}
use mathlib.Core.Option.{some-injective}
use mini_cpm5_5080fast.Bytes.{Bytes, slice, is_char_boundary}
use mini_cpm5_5080fast.Stop
use mini_cpm5_5080fast.Stop.{StopState, StopHit}
use mini_cpm5_5080fast.Stop.Window.{Inv, AllFilled, new-Inv}
use mini_cpm5_5080fast.Stop.Stream.{
  Extends, Extends-refl, Extends-trans, push_text-Extends, push_text-Inv, check_token-Inv,
  check_token-Extends, visible_end, safe_len-visible_end, finish-parts,
}
use mini_cpm5_5080fast.ToolCall.Step
use mini_cpm5_5080fast.Scheduler.Types.{GenEvent}
use mini_cpm5_5080fast.Server.{Emission}
use mini_cpm5_5080fast.Server.ArgStream.{push_tool_events}
use mini_cpm5_5080fast.Server.Generation.{
  Route, Generation, GenResult, emit_pending, emit_one, forward_tool_text, forward_to, flush_stop,
  flush_calls, run_generation, start, eos_ids,
}
use mini_cpm5_5080fast.Server.Generation.Invariant.{
  Invariant, run_generation-keeps, flush-parts, conclude-parts, conclude-live, conclude-same,
  forward_to-cases,
}

pub slice-eq-some :
    (s t : Bytes) (from to : ℕ)
    → slice s from to ≡ some t
    → (from ≤ to) × (drop from (take to s) ≡ t)
unfolding slice
slice-eq-some s t from to e =
    elim (Bool-cases (leb from to && is_char_boundary s from && is_char_boundary s to)) [
      | inl b ↦ (ground (arith, b), some-injective _ _ (rw b at e))
      | inr b ↦ absurd (ground (arith, b, e))
    ]

pub visible_text-take :
    (s : StopState) (t : Bytes) (n : ℕ) → Stop.visible_text s n ≡ some t → take n s.text ≡ t
unfolding Stop.visible_text
visible_text-take s t n e = (slice-eq-some s.text t 0 n e).1

-- Nothing is forwarded past the end of the answer, whatever text may come.
pub record Sound {W : Type 0} (ps : List Bytes) (g : Generation W) : Type 0 where
  pub inv : Inv g.stop_state
  pub strings : g.stop_state.stop_strings ≡ ps
  pub bounded :
      (t : StopState) → Extends g.stop_state t → g.emitted ≤ visible_end t.stop_strings t.text

module _ {W : Type 0} (r : Route W) where
  -- what the emissions leave as it was
  pub emit_pending-same :
      (g : Generation W) (pending : List Emission)
      → let h = (emit_pending r g pending).1 in
        (h.stop_state ≡ g.stop_state)
        × (h.emitted ≡ g.emitted)
        × (h.tool_parser ≡ g.tool_parser)
        × (h.failed_with ≡ g.failed_with)
  unfolding emit_pending emit_one
  emit_pending-same g [] = (refl, refl, refl, refl)
  emit_pending-same g (em ∷ pending) = elim (Bool-cases (r.emit g.world em).0) [
    | inl k ↦ rw k (emit_pending-same (emit_one r g em).1 pending)
    | inr k ↦ rw k (refl, refl, refl, refl)
  ]

  Sound-as :
      (ps : List Bytes) (g h : Generation W)
      → h.stop_state ≡ g.stop_state
      → h.emitted ≡ g.emitted
      → Sound ps g
      → Sound ps h
  Sound-as ps g h s m v = record {
    inv = subst Inv (sym s) v.inv;
    strings = ap (λ x. x.stop_strings) s ∙ v.strings;
    bounded = λ t x. rw m (v.bounded t (subst (λ y. Extends y t) s x));
  }

  Sound-grown :
      (ps : List Bytes) (g : Generation W) (s : StopState)
      → Inv s
      → Extends g.stop_state s
      → Sound ps g
      → Sound ps (record g { stop_state = s })
  Sound-grown ps g s i x v = record {
    inv = i;
    strings = x.same_strings ∙ v.strings;
    bounded = λ t y. v.bounded t (Extends-trans x y);
  }

  -- forwarding a text, with the bound at a safe place
  Sound-forward :
      (ps : List Bytes) (g : Generation W) (chunk : Bytes)
      → Sound ps g
      → Sound ps (forward_tool_text r (record g { emitted = Stop.safe_len g.stop_state }) chunk).1
  unfolding forward_tool_text
  Sound-forward ps g chunk v =
      let (p, evs) = Step.push r.render g.tool_parser chunk in
      let (a, pending) = push_tool_events r.to_json g.tool_args evs in
      let g' = record g { emitted = Stop.safe_len g.stop_state; tool_parser = p; tool_args = a } in
      let same = emit_pending-same g' pending in
      Sound-as ps g' _ same.0 same.1 (record {
        inv = v.inv;
        strings = v.strings;
        bounded = λ t x. safe_len-visible_end g.stop_state t v.inv x;
      })

  -- after the end is known
  abbrev pub Ended : List Bytes → Generation W → Type 0
  Ended ps g = (g.stop_state.stop_strings ≡ ps) × (g.emitted ≤ visible_end ps g.stop_state.text)

  pub Ended-as :
      (ps : List Bytes) (g h : Generation W)
      → h.stop_state ≡ g.stop_state
      → h.emitted ≡ g.emitted
      → Ended ps g
      → Ended ps h
  Ended-as ps g h s m (a, b) = (ap (λ x. x.stop_strings) s ∙ a, rw (m, ap (λ x. x.text) s) b)

  pub Sound-Ended : (ps : List Bytes) (g : Generation W) → Sound ps g → Ended ps g
  Sound-Ended ps g v = (
    v.strings,
    subst (λ x. g.emitted ≤ visible_end x g.stop_state.text) v.strings
        (v.bounded g.stop_state (Extends-refl g.stop_state)),
  )

  -- forwarding keeps the stop state and the mark
  pub forward_tool_text-same :
      (g : Generation W) (chunk : Bytes)
      → let h = (forward_tool_text r g chunk).1 in
        (h.stop_state ≡ g.stop_state) × (h.emitted ≡ g.emitted)
  unfolding forward_tool_text
  forward_tool_text-same g chunk =
      let (p, evs) = Step.push r.render g.tool_parser chunk in
      let (a, pending) = push_tool_events r.to_json g.tool_args evs in
      let same = emit_pending-same (record g { tool_parser = p; tool_args = a }) pending in
      (same.0, same.1)

  pub flush_calls-same :
      (g : Generation W)
      → let h = flush_calls r g in (h.stop_state ≡ g.stop_state) × (h.emitted ≡ g.emitted)
  unfolding flush_calls
  flush_calls-same g =
      let (p, evs) = Step.finish r.render g.tool_parser in
      let (a, pending) = push_tool_events r.to_json g.tool_args evs in
      let same = emit_pending-same (record g { tool_parser = p; tool_args = a }) pending in
      (same.0, same.1)

  -- the state that the stop detector gives at the end is the one it had
  pub end-of :
      (ps : List Bytes) (g : Generation W) (s : StopState) (end : ℕ)
      → Sound ps g
      → Stop.finish g.stop_state ≡ some (s, end)
      → (s ≡ g.stop_state) × (end ≡ visible_end ps s.text)
  end-of ps g s end v e =
      let (same, at) = finish-parts g.stop_state s end v.inv e in
      (
        sym same,
        sym at
            ∙ ap (λ x. visible_end x g.stop_state.text) v.strings
            ∙ ap (λ x. visible_end ps x.text) same,
      )

  pub Sound-Invariant : (ps : List Bytes) → Invariant r (Sound ps) (Ended ps)
  Sound-Invariant ps = record {
    weakens = Sound-Ended ps;
    keeps_notes = λ g d why e v. record { inv = v.inv; strings = v.strings; bounded = v.bounded };
    keeps_token = λ g id v.
        Sound-grown ps g _ (check_token-Inv g.stop_state id v.inv)
          (check_token-Extends g.stop_state id) v;
    keeps_text = λ g t s hit e v.
        Sound-grown ps g s (push_text-Inv g.stop_state s t hit v.inv e)
          (push_text-Extends g.stop_state s t hit v.inv e) v;
    keeps_forward = λ g shown chunk l e₁ e₂ c v. Sound-forward ps g chunk v;
    keeps_end = λ g s end e v.
        let (same, at) = end-of ps g s end v e in
        Ended-as ps g (record g { stop_state = s }) same refl (Sound-Ended ps g v);
    keeps_last = λ g s end shown chunk e l e₁ e₂ c v.
        let (same, at) = end-of ps g s end v e in
        let h = record g { stop_state = s; emitted = end } in
        let k = forward_tool_text-same h chunk in
        Ended-as ps h (forward_tool_text r h chunk).1 k.0 k.1
          (ap (λ x. x.stop_strings) same ∙ v.strings, omega (arith, at));
    keeps_calls = λ g c v. let k = flush_calls-same g in Ended-as ps g (flush_calls r g) k.0 k.1 v;
  }

  -- when the end was asked for, everything up to it is forwarded
  pub flush_stop-emitted :
      (ps : List Bytes) (g h : Generation W)
      → Sound ps g
      → flush_stop r g ≡ some h
      → h.emitted ≡ visible_end ps h.stop_state.text
  unfolding flush_stop
  flush_stop-emitted ps g h v e =
      let ((s, end), e₁, rest) = >>=-eq-some (Stop.finish g.stop_state) _ e in
      let (same, at) = end-of ps g s end v e₁ in
      let (o, e₂, done) = >>=-eq-some (forward_to r (record g { stop_state = s }) end) _ rest in
      subst (λ x. x.emitted ≡ visible_end ps x.stop_state.text) (some-injective _ _ done)
        (elim (forward_to-cases r (record g { stop_state = s }) end o e₂) [
          | inl (l, is) ↦
              subst (λ x. x.1.emitted ≡ visible_end ps x.1.stop_state.text) is
                (ground (
                  arith,
                  l,
                  at,
                  (Ended-as ps g (record g { stop_state = s }) same refl (Sound-Ended ps g v)).1,
                ))
          | inr (shown, chunk, l, e₃, e₄, made) ↦
              let k = forward_tool_text-same (record g { stop_state = s; emitted = end }) chunk in
              subst (λ x. x.1.emitted ≡ visible_end ps x.1.stop_state.text) made
                (k.1 ∙ at ∙ ap (λ x. visible_end ps x.text) (sym k.0))
        ])

  pub start-Sound :
      (ps : List Bytes) (w : W) → AllFilled ps → Sound ps (emit_one r (start ps w) Emission.role).1
  unfolding emit_one start
  start-Sound ps w a = record {
    inv = new-Inv eos_ids ps a;
    strings = unfold Stop.new in refl;
    bounded = λ t x. omega arith;
  }

  -- the content of the result is the text of the stop detector up to the first stop string
  pub run_generation-visible :
      (rx : List GenEvent) (stop_strings : List Bytes) (prompt_len : ℕ) (w : W) (h : Generation W)
      (res : GenResult)
      → AllFilled stop_strings
      → run_generation r rx stop_strings prompt_len w ≡ some (h, res)
      → res.error ≡ none
      → h.client_gone ≡ false
      → res.content ≡ take (visible_end stop_strings h.stop_state.text) h.stop_state.text
  run_generation-visible rx stop_strings prompt_len w h res a e fine stays =
      let v = Sound-Invariant stop_strings in
      let (f, g, p, flushed, q, done) =
        run_generation-keeps r v rx stop_strings prompt_len w h res (start-Sound stop_strings w a)
          e in
      let live = conclude-live r prompt_len g h res done fine stays in
      let (g₁, g₂, p₁, stopped, q₂, there, closed) = flush-parts r v f g live p flushed in
      let at = flush_stop-emitted stop_strings g₁ g₂ p₁ stopped in
      let k = flush_calls-same g₂ in
      let (content, shown, to, made) = conclude-parts r prompt_len g h res done in
      let same = (conclude-same r prompt_len g h res done).0 in
      let em : g.emitted ≡ visible_end stop_strings g.stop_state.text =
        subst (λ x. x.emitted ≡ visible_end stop_strings x.stop_state.text) closed
          (k.1 ∙ at ∙ ap (λ x. visible_end stop_strings x.text) (sym k.0)) in
      sym (ap (λ x. x.content) made)
      ∙ sym (visible_text-take g.stop_state content g.emitted shown)
      ∙ ap (λ n. take n g.stop_state.text) em
      ∙ ap (λ s. take (visible_end stop_strings s.text) s.text) same
