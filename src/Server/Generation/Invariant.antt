-- ===== src/Server/Generation/Invariant.antt =====
-- One walk through the loop and the flush of `run_generation` for all invariants.
use mini_cpm5_5080fast.Base.{
  ℕ, ◌≡◌, refl, ap, ◌∙◌, subst, Bool, true, false, Option, none, some, List, [], ◌∷◌, ltb,
  if◌then◌else◌, >>=-eq-some, Bool-cases, Option-cases, inl, inr, ◌⊎◌, arith, Outcome, ok, failed,
  panicked,
}
use mathlib.Core.Option.{some-injective}
use mini_cpm5_5080fast.Bytes.{Bytes, slice}
use mini_cpm5_5080fast.Usage.{FinishReason}
use mini_cpm5_5080fast.Stop
use mini_cpm5_5080fast.Stop.{StopState, StopHit}
use mini_cpm5_5080fast.StreamDecode
use mini_cpm5_5080fast.StreamDecode.{StreamDecoder}
use mini_cpm5_5080fast.Scheduler.Types.{GenEvent}
use mini_cpm5_5080fast.Server.{Emission}
use mini_cpm5_5080fast.Server.Generation.{
  Route, Generation, GenResult, Turn, emit_pending, emit_one, forward_tool_text, forward_to,
  on_text, on_fragment, on_token, on_event, receive, flush, flush_live, flush_text, flush_stop,
  flush_end, flush_calls, conclude, run_generation, is_live, start, last_emission, finish_reason_of,
  usage_of, after_text,
}

module _ {W : Type 0} (r : Route W) where
  -- `P` is for the loop and `Q` for what comes after the stop detector is asked for the end.
  pub record Invariant (P Q : Generation W → Type 0) : Type 0 where
    pub weakens : (g : Generation W) → P g → Q g
    pub keeps_notes :
        (g : Generation W) (d : StreamDecoder) (why : Option FinishReason) (e : Option Bytes)
        → P g
        → P (record g { decoder = d; reason = why; failed_with = e })
    pub keeps_token :
        (g : Generation W) (id : ℕ)
        → P g
        → P (record g { stop_state = (Stop.check_token g.stop_state id).0 })
    pub keeps_text :
        (g : Generation W) (t : Bytes) (s : StopState) (hit : Option StopHit)
        → Stop.push_text g.stop_state t ≡ some (s, hit)
        → P g
        → P (record g { stop_state = s })
    pub keeps_forward :
        (g : Generation W) (shown chunk : Bytes)
        → let end = Stop.safe_len g.stop_state in
          ltb g.emitted end ≡ true
          → Stop.visible_text g.stop_state end ≡ some shown
          → slice shown g.emitted end ≡ some chunk
          → g.client_gone ≡ false
          → P g
          → P (forward_tool_text r (record g { emitted = end }) chunk).1
    pub keeps_end :
        (g : Generation W) (s : StopState) (end : ℕ)
        → Stop.finish g.stop_state ≡ some (s, end)
        → P g
        → Q (record g { stop_state = s })
    pub keeps_last :
        (g : Generation W) (s : StopState) (end : ℕ) (shown chunk : Bytes)
        → Stop.finish g.stop_state ≡ some (s, end)
        → ltb g.emitted end ≡ true
        → Stop.visible_text s end ≡ some shown
        → slice shown g.emitted end ≡ some chunk
        → g.client_gone ≡ false
        → P g
        → Q (forward_tool_text r (record g { stop_state = s; emitted = end }) chunk).1
    pub keeps_calls : (g : Generation W) → g.client_gone ≡ false → Q g → Q (flush_calls r g)

  -- what a generation concludes with
  pub conclude-parts :
      (n : ℕ) (g h : Generation W) (res : GenResult)
      → conclude r n g ≡ some (h, res)
      → (content : Bytes) × (Stop.visible_text g.stop_state g.emitted ≡ some content)
        × ((if g.client_gone then g else (emit_one r g (last_emission r n g)).1) ≡ h)
        × (record {
          content = content;
          tool_calls = g.tool_parser.calls;
          finish_reason = finish_reason_of r g;
          usage = usage_of r n g;
          error = g.failed_with;
        }
            ≡ res)
  unfolding conclude
  conclude-parts n g h res e =
      let (content, shown, done) = >>=-eq-some (Stop.visible_text g.stop_state g.emitted) _ e in
      let both = some-injective _ _ done in (content, shown, ap (λ x. x.0) both, ap (λ x. x.1) both)

  either-same :
      (n : ℕ) (g : Generation W) (b : Bool)
      → let x = if b then g else (emit_one r g (last_emission r n g)).1 in
        (g.stop_state ≡ x.stop_state) × (g.client_gone ≡ x.client_gone)
  unfolding emit_one
  either-same n g true = (refl, refl)
  either-same n g false = (refl, refl)

  pub conclude-same :
      (n : ℕ) (g h : Generation W) (res : GenResult)
      → conclude r n g ≡ some (h, res)
      → (g.stop_state ≡ h.stop_state) × (g.client_gone ≡ h.client_gone)
  conclude-same n g h res e =
      let (content, shown, to, made) = conclude-parts n g h res e in
      subst (λ x. (g.stop_state ≡ x.stop_state) × (g.client_gone ≡ x.client_gone)) to
        (either-same n g g.client_gone)

  pub conclude-live :
      (n : ℕ) (g h : Generation W) (res : GenResult)
      → conclude r n g ≡ some (h, res)
      → res.error ≡ none
      → h.client_gone ≡ false
      → is_live g ≡ true
  conclude-live n g h res e fine stays =
      let (content, shown, to, made) = conclude-parts n g h res e in
      let here = (conclude-same n g h res e).1 ∙ stays in
      let calm : g.failed_with ≡ none = ap (λ x. x.error) made ∙ fine in
      unfold is_live in rw (calm, is_live, here) refl

  emit_pending-client_gone :
      (g : Generation W) (pending : List Emission)
      → g.client_gone ≡ false
      → (emit_pending r g pending).0 ≡ true
      → (emit_pending r g pending).1.client_gone ≡ false
  unfolding emit_pending emit_one
  emit_pending-client_gone g [] c e = c
  emit_pending-client_gone g (em ∷ pending) c e = elim (Bool-cases (r.emit g.world em).0) [
    | inl k ↦ rw k (emit_pending-client_gone (emit_one r g em).1 pending c (rw k at e))
    | inr k ↦ absurd (ground (arith, e, k))
  ]

  -- Either nothing is to be forwarded, or the text up to `end` is.
  pub forward_to-cases :
      (g : Generation W) (end : ℕ) (o : Turn W)
      → forward_to r g end ≡ some o
      → ((ltb g.emitted end ≡ false) × ((true, g) ≡ o))
        ⊎ ((shown chunk : Bytes) × (ltb g.emitted end ≡ true)
            × (Stop.visible_text g.stop_state end ≡ some shown)
            × (slice shown g.emitted end ≡ some chunk)
            × (forward_tool_text r (record g { emitted = end }) chunk ≡ o))
  unfolding forward_to
  forward_to-cases g end o e = elim (Bool-cases (ltb g.emitted end)) [
    | inl l ↦
        let (shown, e₁, rest) = >>=-eq-some (Stop.visible_text g.stop_state end) _ (rw l at e) in
        let (chunk, e₂, done) = >>=-eq-some (slice shown g.emitted end) _ rest in
        inr (shown, chunk, l, e₁, e₂, some-injective _ _ done)
    | inr l ↦ inl (l, some-injective (true, g) o (rw l at e))
  ]

  module _ {P Q : Generation W → Type 0} (v : Invariant P Q) where
    -- after a step: if the loop goes on, the consumer is there
    abbrev Kept : Turn W → Type 0
    Kept (more, g) = P g × (more ≡ true → g.client_gone ≡ false)

    forward_to-Kept :
        (g : Generation W) (o : Turn W)
        → g.client_gone ≡ false
        → P g
        → forward_to r g (Stop.safe_len g.stop_state) ≡ some o
        → Kept o
    forward_to-Kept g o c p e = elim (forward_to-cases g (Stop.safe_len g.stop_state) o e) [
      | inl (l, same) ↦ subst Kept same (p, λ _. c)
      | inr (shown, chunk, l, e₁, e₂, made) ↦ subst Kept made (
        v.keeps_forward g shown chunk l e₁ e₂ c p,
        unfold forward_tool_text in emit_pending-client_gone _ _ c,
      )
    ]

    after_text-Kept : (hit : Option StopHit) (o : Turn W) → Kept o → Kept (after_text hit o)
    unfolding after_text
    after_text-Kept hit (false, g) k = k
    after_text-Kept none (true, g) k = k
    after_text-Kept (some hit) (true, g) k =
        (v.keeps_notes g g.decoder (some FinishReason.stop) g.failed_with k.0, λ _. k.1 refl)

    on_text-Kept :
        (g : Generation W) (t : Bytes) (o : Turn W)
        → g.client_gone ≡ false
        → P g
        → on_text r g t ≡ some o
        → Kept o
    unfolding on_text
    on_text-Kept g t o c p e =
        let ((s, hit), e₁, rest) = >>=-eq-some (Stop.push_text g.stop_state t) _ e in
        let (turn, e₂, done) =
          >>=-eq-some (forward_to r (record g { stop_state = s }) (Stop.safe_len s)) _ rest in
        subst Kept (some-injective _ _ done) (
          after_text-Kept hit turn
            (forward_to-Kept (record g { stop_state = s }) turn c (v.keeps_text g t s hit e₁ p) e₂))

    on_fragment-Kept :
        (g : Generation W) (f : Outcome (Option Bytes)) (o : Turn W)
        → g.client_gone ≡ false
        → P g
        → on_fragment r g f ≡ some o
        → Kept o
    unfolding on_fragment
    on_fragment-Kept g (ok none) o c p e = subst Kept (some-injective _ _ e) (p, λ _. c)
    on_fragment-Kept g (ok (some t)) o c p e = on_text-Kept g t o c p e
    on_fragment-Kept g (failed m) o c p e =
        subst Kept (some-injective _ _ e) (v.keeps_notes g g.decoder g.reason _ p, λ _. c)
    on_fragment-Kept g panicked o c p e = absurd cc

    on_token-Kept :
        (g : Generation W) (id : ℕ) (o : Turn W)
        → g.client_gone ≡ false
        → P g
        → on_token r g id ≡ some o
        → Kept o
    unfolding on_token
    on_token-Kept g id o c p e =
        let q = v.keeps_token g id p in
        let s = (Stop.check_token g.stop_state id).0 in
        elim (Option-cases (Stop.check_token g.stop_state id).1) [
          | inl h ↦
              let d = StreamDecode.push r.decode_ids g.decoder id in
              on_fragment-Kept (record g { stop_state = s; decoder = d.0 }) d.1 o c
                (v.keeps_notes (record g { stop_state = s }) d.0 g.reason g.failed_with q)
                (rw (h, on_token) at e)
          | inr (hit, h) ↦ subst Kept (some-injective _ _ (rw (h, on_token) at e)) (
            v.keeps_notes (record g { stop_state = s }) g.decoder (some FinishReason.stop)
                g.failed_with q,
            λ _. c,
          )
        ]

    on_event-Kept :
        (g : Generation W) (ev : GenEvent) (o : Turn W)
        → g.client_gone ≡ false
        → P g
        → on_event r g ev ≡ some o
        → Kept o
    unfolding on_event
    on_event-Kept g (GenEvent.token id) o c p e = on_token-Kept g id o c p e
    on_event-Kept g (GenEvent.done why u) o c p e =
        subst Kept (some-injective _ _ e)
          (v.keeps_notes g g.decoder (some why) g.failed_with p, λ _. c)
    on_event-Kept g (GenEvent.failed m) o c p e =
        subst Kept (some-injective _ _ e) (v.keeps_notes g g.decoder g.reason (some m) p, λ _. c)

    receive-keeps :
        (g h : Generation W) (evs : List GenEvent)
        → g.client_gone ≡ false
        → P g
        → receive r g evs ≡ some h
        → P h
    unfolding receive
    receive-keeps g h [] c p e = subst P (some-injective _ _ e) p
    receive-keeps g h (ev ∷ evs) c p e =
        let ((more, g'), e₁, rest) = >>=-eq-some (on_event r g ev) _ e in
        let k = on_event-Kept g ev (more, g') c p e₁ in
        elim (Bool-cases more) [
          | inl m ↦ receive-keeps g' h evs (k.1 m) k.0 (rw m at rest)
          | inr m ↦ subst P (some-injective _ _ (rw m at rest)) k.0
        ]

    flush_text-keeps :
        (g h : Generation W) (f : Outcome (Option Bytes))
        → P g
        → flush_text r g f ≡ some h
        → P h × (h.client_gone ≡ g.client_gone)
    unfolding flush_text
    flush_text-keeps g h (ok none) p e =
        subst (λ x. P x × (x.client_gone ≡ g.client_gone)) (some-injective _ _ e) (p, refl)
    flush_text-keeps g h (ok (some t)) p e =
        let ((s, hit), e₁, done) = >>=-eq-some (Stop.push_text g.stop_state t) _ e in
        subst (λ x. P x × (x.client_gone ≡ g.client_gone)) (some-injective _ _ done)
          (v.keeps_text g t s hit e₁ p, refl)
    flush_text-keeps g h (failed m) p e =
        subst (λ x. P x × (x.client_gone ≡ g.client_gone)) (some-injective _ _ e)
          (v.keeps_notes g g.decoder g.reason _ p, refl)
    flush_text-keeps g h panicked p e = absurd cc

    flush_stop-keeps :
        (g h : Generation W) → g.client_gone ≡ false → P g → flush_stop r g ≡ some h → Q h
    unfolding flush_stop
    flush_stop-keeps g h c p e =
        let ((s, end), e₁, rest) = >>=-eq-some (Stop.finish g.stop_state) _ e in
        let (o, e₂, done) = >>=-eq-some (forward_to r (record g { stop_state = s }) end) _ rest in
        subst Q (some-injective _ _ done)
          (elim (forward_to-cases (record g { stop_state = s }) end o e₂) [
            | inl (l, same) ↦ subst (λ x. Q x.1) same (v.keeps_end g s end e₁ p)
            | inr (shown, chunk, l, e₃, e₄, made) ↦
                subst (λ x. Q x.1) made (v.keeps_last g s end shown chunk e₁ l e₃ e₄ c p)
          ])

    flush_end-keeps :
        (o : Option Bytes) (g h : Generation W)
        → g.client_gone ≡ false
        → P g
        → flush_end r o g ≡ some h
        → Q h
    unfolding flush_end
    flush_end-keeps none g h c p e = flush_stop-keeps g h c p e
    flush_end-keeps (some m) g h c p e = subst Q (some-injective _ _ e) (v.weakens g p)

    is_live-there : (g : Generation W) → is_live g ≡ true → g.client_gone ≡ false
    unfolding is_live
    is_live-there g e = ground arith

    flush_rest-keeps :
        (g h : Generation W) → Q g → some (if is_live g then flush_calls r g else g) ≡ some h → Q h
    flush_rest-keeps g h p e = elim (Bool-cases (is_live g)) [
      | inl l ↦ subst Q (some-injective _ _ (rw l at e)) (v.keeps_calls g (is_live-there g l) p)
      | inr l ↦ subst Q (some-injective _ _ (rw l at e)) p
    ]

    flush_live-keeps :
        (g h : Generation W) → g.client_gone ≡ false → P g → flush_live r g ≡ some h → Q h
    unfolding flush_live
    flush_live-keeps g h c p e =
        let d = StreamDecode.finish r.decode_ids g.decoder in
        let g₀ = record g { decoder = d.0 } in
        let (g₁, e₁, rest) = >>=-eq-some (flush_text r g₀ d.1) _ e in
        let (p₁, c₁) =
          flush_text-keeps g₀ g₁ d.1 (v.keeps_notes g d.0 g.reason g.failed_with p) e₁ in
        let (g₂, e₂, done) = >>=-eq-some (flush_end r g₁.failed_with g₁) _ rest in
        flush_rest-keeps g₂ h (flush_end-keeps g₁.failed_with g₁ g₂ (c₁ ∙ c) p₁ e₂) done

    flush-keeps : (g h : Generation W) → P g → flush r g ≡ some h → Q h
    unfolding flush
    flush-keeps g h p e = elim (Bool-cases (is_live g)) [
      | inl l ↦ flush_live-keeps g h (is_live-there g l) p (rw l at e)
      | inr l ↦ subst Q (some-injective _ _ (rw l at e)) (v.weakens g p)
    ]

    -- the states before and after the flush
    pub run_generation-keeps :
        (rx : List GenEvent) (stop_strings : List Bytes) (prompt_len : ℕ) (w : W) (h : Generation W)
        (res : GenResult)
        → P (emit_one r (start stop_strings w) Emission.role).1
        → run_generation r rx stop_strings prompt_len w ≡ some (h, res)
        → (f g : Generation W) × P f
          × (flush r f ≡ some g)
          × Q g
          × (conclude r prompt_len g ≡ some (h, res))
    unfolding run_generation
    run_generation-keeps rx stop_strings prompt_len w h res p e =
        let g₀ = (emit_one r (start stop_strings w) Emission.role).1 in
        let (g₁, e₁, rest) = >>=-eq-some (receive r g₀ rx) _ e in
        let (g₂, e₂, done) = >>=-eq-some (flush r g₁) _ rest in
        let p₁ = receive-keeps g₀ g₁ rx (unfold emit_one start in refl) p e₁ in
        (g₁, g₂, p₁, e₂, flush-keeps g₁ g₂ p₁ e₂, done)

    is_live-none : (g : Generation W) → is_live g ≡ true → g.failed_with ≡ none
    unfolding is_live
    is_live-none g e = ground arith

    flush_rest-live :
        (g h : Generation W)
        → is_live h ≡ true
        → some (if is_live g then flush_calls r g else g) ≡ some h
        → (is_live g ≡ true) × (flush_calls r g ≡ h)
    flush_rest-live g h live e = elim (Bool-cases (is_live g)) [
      | inl l ↦ (l, some-injective _ _ (rw l at e))
      | inr l ↦ absurd (cc (l, live, ap is_live (some-injective _ _ (rw l at e))))
    ]

    flush_end-live :
        (o : Option Bytes) (g h : Generation W)
        → is_live h ≡ true
        → o ≡ g.failed_with
        → flush_end r o g ≡ some h
        → flush_stop r g ≡ some h
    unfolding flush_end
    flush_end-live none g h live same e = e
    flush_end-live (some m) g h live same e =
        absurd (cc (same, is_live-none g (ap is_live (some-injective _ _ e) ∙ live)))

    flush_live-parts :
        (f g : Generation W)
        → is_live g ≡ true
        → P f
        → f.client_gone ≡ false
        → flush_live r f ≡ some g
        → (g₁ g₂ : Generation W) × P g₁
          × (flush_stop r g₁ ≡ some g₂)
          × Q g₂
          × (g₂.client_gone ≡ false)
          × (flush_calls r g₂ ≡ g)
    unfolding flush_live
    flush_live-parts f g live p c e =
        let d = StreamDecode.finish r.decode_ids f.decoder in
        let f₀ = record f { decoder = d.0 } in
        let (g₁, e₁, rest) = >>=-eq-some (flush_text r f₀ d.1) _ e in
        let (p₁, c₁) =
          flush_text-keeps f₀ g₁ d.1 (v.keeps_notes f d.0 f.reason f.failed_with p) e₁ in
        let (g₂, e₂, done) = >>=-eq-some (flush_end r g₁.failed_with g₁) _ rest in
        let (l₂, same) = flush_rest-live g₂ g live done in
        let stop = flush_end-live g₁.failed_with g₁ g₂ l₂ refl e₂ in
        (g₁, g₂, p₁, stop, flush_stop-keeps g₁ g₂ (c₁ ∙ c) p₁ stop, is_live-there g₂ l₂, same)

    -- the flush of a generation that neither failed nor lost its consumer: the stop detector is asked
    -- for the end, and then the tool call parser is closed
    pub flush-parts :
        (f g : Generation W)
        → is_live g ≡ true
        → P f
        → flush r f ≡ some g
        → (g₁ g₂ : Generation W) × P g₁
          × (flush_stop r g₁ ≡ some g₂)
          × Q g₂
          × (g₂.client_gone ≡ false)
          × (flush_calls r g₂ ≡ g)
    unfolding flush
    flush-parts f g live p e = elim (Bool-cases (is_live f)) [
      | inl l ↦ flush_live-parts f g live p (is_live-there f l) (rw l at e)
      | inr l ↦ absurd (cc (l, live, ap is_live (some-injective _ _ (rw l at e))))
    ]
