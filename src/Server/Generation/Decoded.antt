-- ===== src/Server/Generation/Decoded.antt =====
-- The text that the stop detector holds, and the decoding of the ids that were received.
use mini_cpm5_5080fast.Base.{
  ℕ, ◌≡◌, refl, sym, ap, ◌∙◌, subst, Bool, true, false, Option, none, some, List, [], ◌∷◌, ◌++◌,
  take, if◌then◌else◌, >>=-eq-some, Bool-cases, inl, inr, ◌⊎◌, arith, Outcome, ok, failed, panicked,
  append-nil, append_assoc,
}
use mathlib.Core.Option.{some-injective}
use mini_cpm5_5080fast.Bytes.{Bytes}
use mini_cpm5_5080fast.Stop
use mini_cpm5_5080fast.Stop.{StopState, StopHit}
use mini_cpm5_5080fast.Stop.Texts.{
  Found, push_text-text, push_text-Found, finish-text, check_token-text,
}
use mini_cpm5_5080fast.Bytes.Search.{first_hit}
use mini_cpm5_5080fast.Stop.Window.{Inv, AllFilled, new-Inv}
use mini_cpm5_5080fast.Stop.Stream.{
  push_text-Inv, push_text-Extends, check_token-Inv, check_token-Extends, visible_end,
}
use mini_cpm5_5080fast.StreamDecode
use mini_cpm5_5080fast.StreamDecode.{StreamDecoder}
use mini_cpm5_5080fast.StreamDecode.Exact.{
  Stable, settled, decode_as, absorb, synced, push-synced, finish-synced, synced-new,
}
use mini_cpm5_5080fast.Scheduler.Types.{GenEvent}
use mini_cpm5_5080fast.ToolCall.Step
use mini_cpm5_5080fast.Server.{Emission}
use mini_cpm5_5080fast.Server.ArgStream.{push_tool_events}
use mini_cpm5_5080fast.Server.Generation.{
  Route, Generation, GenResult, Turn, emit_pending, emit_one, forward_tool_text, forward_to,
  on_text, on_fragment, on_token, on_event, receive, flush, flush_live, flush_text, flush_stop,
  flush_end, flush_calls, run_generation, is_live, start, after_text, eos_ids,
}
use mini_cpm5_5080fast.Server.Generation.Invariant.{forward_to-cases, conclude-same, conclude-live}
use mini_cpm5_5080fast.Server.Generation.Text.{run_generation-visible}

-- the ids that the events give before the generation ends
unfoldable pub received : List GenEvent → List ℕ
received [] = []
received (GenEvent.token id ∷ evs) = id ∷ received evs
received (GenEvent.done why u ∷ evs) = []
received (GenEvent.failed e ∷ evs) = []

module _ {W : Type 0} (r : Route W) where
  -- forwarding leaves the stop detector, the decoder and the error as they were
  abbrev Same : Generation W → Generation W → Type 0
  Same g h = (h.stop_state ≡ g.stop_state) × (h.decoder ≡ g.decoder)

  emit_pending-Same :
      (g : Generation W) (pending : List Emission) → Same g (emit_pending r g pending).1
  unfolding emit_pending emit_one
  emit_pending-Same g [] = (refl, refl)
  emit_pending-Same g (em ∷ pending) = elim (Bool-cases (r.emit g.world em).0) [
    | inl k ↦ rw k (emit_pending-Same (emit_one r g em).1 pending)
    | inr k ↦ rw k (refl, refl)
  ]

  forward_tool_text-Same :
      (g : Generation W) (chunk : Bytes) → Same g (forward_tool_text r g chunk).1
  unfolding forward_tool_text
  forward_tool_text-Same g chunk =
      let (p, evs) = Step.push r.render g.tool_parser chunk in
      let (a, pending) = push_tool_events r.to_json g.tool_args evs in
      emit_pending-Same (record g { tool_parser = p; tool_args = a }) pending

  forward_to-Same :
      (g : Generation W) (end : ℕ) (o : Turn W) → forward_to r g end ≡ some o → Same g o.1
  forward_to-Same g end o e = elim (forward_to-cases r g end o e) [
    | inl (l, same) ↦ subst (λ x. Same g x.1) same (refl, refl)
    | inr (shown, chunk, l, e₁, e₂, made) ↦
        subst (λ x. Same g x.1) made (forward_tool_text-Same (record g { emitted = end }) chunk)
  ]

  after_text-Same : (hit : Option StopHit) (o : Turn W) → Same o.1 (after_text hit o).1
  unfolding after_text
  after_text-Same hit (false, g) = (refl, refl)
  after_text-Same none (true, g) = (refl, refl)
  after_text-Same (some hit) (true, g) = (refl, refl)

  flush_calls-Same : (g : Generation W) → Same g (flush_calls r g)
  unfolding flush_calls
  flush_calls-Same g =
      let (p, evs) = Step.finish r.render g.tool_parser in
      let (a, pending) = push_tool_events r.to_json g.tool_args evs in
      emit_pending-Same (record g { tool_parser = p; tool_args = a }) pending

  -- After a turn: the loop goes on and is not stopped, or a stop string was found, or the consumer is gone.
  abbrev Goes : Turn W → Type 0
  Goes o =
      ((o.0 ≡ true) × (o.1.stop_state.stopped ≡ false))
      ⊎ ((o.0 ≡ false)
          × (((o.1.stop_state.stopped ≡ true) × ((i : ℕ) × (o.1.stop_state.matched ≡ some i)))
              ⊎ (o.1.client_gone ≡ true)))

  emit_pending-goes :
      (g : Generation W) (pending : List Emission)
      → let o = emit_pending r g pending in (o.0 ≡ true) ⊎ (o.1.client_gone ≡ true)
  unfolding emit_pending
  emit_pending-goes g [] = inl refl
  emit_pending-goes g (em ∷ pending) = elim (Bool-cases (emit_one r g em).0) [
    | inl k ↦ rw k (emit_pending-goes (emit_one r g em).1 pending)
    | inr k ↦ rw k (inr refl)
  ]

  forward_to-goes :
      (g : Generation W) (end : ℕ) (o : Turn W)
      → forward_to r g end ≡ some o
      → (o.0 ≡ true) ⊎ (o.1.client_gone ≡ true)
  unfolding forward_tool_text
  forward_to-goes g end o e = elim (forward_to-cases r g end o e) [
    | inl (l, same) ↦ inl (ap (λ x. x.0) (sym same))
    | inr (shown, chunk, l, e₁, e₂, made) ↦
        subst (λ x. (x.0 ≡ true) ⊎ (x.1.client_gone ≡ true)) made (emit_pending-goes _ _)
  ]

  after_text-Goes :
      (hit : Option StopHit) (o : Turn W)
      → Found o.1.stop_state hit
      → (o.0 ≡ true) ⊎ (o.1.client_gone ≡ true)
      → Goes (after_text hit o)
  unfolding after_text
  after_text-Goes hit (false, g) f (inl k) = absurd cc
  after_text-Goes hit (false, g) f (inr k) = inr (refl, inr k)
  after_text-Goes none (true, g) f k = inl (refl, f)
  after_text-Goes (some x) (true, g) f k = inr (refl, inl f)

  flush-client_gone :
      (g h : Generation W) → is_live h ≡ true → g.client_gone ≡ true → flush r g ≡ some h → ⊥
  unfolding flush is_live
  flush-client_gone g h live gone e =
      let dead : is_live g ≡ false = unfold is_live in ground (arith, gone) in
      cc (dead, live, ap is_live (some-injective _ _ (rw dead at e)))

  module _ (text : List ℕ → Bytes) (stable : Stable text) (decodes : r.decode_ids ≡ decode_as text)
      (ps : List Bytes) where
    abbrev pub settled_text : List ℕ → Bytes
    settled_text ids = take (settled (text ids)) (text ids)

    -- The stop detector keeps its invariant and what it was told to look for.
    abbrev Sane : StopState → Type 0
    Sane s = Inv s × (s.stop_token_ids ≡ eos_ids) × (s.stop_strings ≡ ps)

    push-Sane :
        (s t : StopState) (f : Bytes) (hit : Option StopHit)
        → Sane s
        → s.stopped ≡ false
        → Stop.push_text s f ≡ some (t, hit)
        → Sane t
    push-Sane s t f hit (v, k, l) go e = (
      push_text-Inv s t f hit v e,
      (push_text-Found s t f hit v go e).1 ∙ k,
      (push_text-Extends s t f hit v e).same_strings ∙ l,
    )

    token-Sane : (s : StopState) (id : ℕ) → Sane s → Sane (Stop.check_token s id).0
    token-Sane s id (v, k, l) = (
      check_token-Inv s id v,
      (check_token-text s id).1 ∙ k,
      (check_token-Extends s id).same_strings ∙ l,
    )

    -- The decoder has the ids, and the stop detector has their settled text.
    abbrev Reads : List ℕ → Generation W → Type 0
    Reads ids g =
        (g.decoder ≡ synced text stable ids)
        × (g.stop_state.text ≡ settled_text ids)
        × Sane g.stop_state

    Reads-Same : (ids : List ℕ) (g h : Generation W) → Same g h → Reads ids g → Reads ids h
    Reads-Same ids g h (s, d) (k, l, v) = (d ∙ k, ap (λ x. x.text) s ∙ l, subst Sane (sym s) v)

    abbrev Read : List ℕ → Turn W → Type 0
    Read ids o = Reads ids o.1 × Goes o

    on_text-Read :
        (g : Generation W) (t : Bytes) (ids : List ℕ) (o : Turn W)
        → g.decoder ≡ synced text stable ids
        → g.stop_state.text ++ t ≡ settled_text ids
        → Sane g.stop_state
        → g.stop_state.stopped ≡ false
        → on_text r g t ≡ some o
        → Read ids o
    unfolding on_text
    on_text-Read g t ids o d l v go e =
        let ((s, hit), e₁, rest) = >>=-eq-some (Stop.push_text g.stop_state t) _ e in
        let g' = record g { stop_state = s } in
        let (turn, e₂, done) = >>=-eq-some (forward_to r g' (Stop.safe_len s)) _ rest in
        let grown : s.text ≡ g.stop_state.text ++ t =
          elim (push_text-text g.stop_state s t hit e₁) [
            | inl (stop, _, _) ↦ absurd (cc (stop, go))
            | inr (_, is) ↦ is
          ] in
        let same = forward_to-Same g' (Stop.safe_len s) turn e₂ in
        let found =
          subst (λ x. Found x hit) (sym same.0)
            (push_text-Found g.stop_state s t hit v.0 go e₁).0 in
        subst (Read ids) (some-injective _ _ done) (
          Reads-Same ids turn.1 (after_text hit turn).1 (after_text-Same hit turn) (
              Reads-Same ids g' turn.1 same (d, grown ∙ l, push-Sane g.stop_state s t hit v go e₁)),
          after_text-Goes hit turn found (forward_to-goes g' (Stop.safe_len s) turn e₂),
        )

    on_fragment-Read :
        (g : Generation W) (f : Outcome (Option Bytes)) (ids : List ℕ) (o : Turn W)
        → absorb g.stop_state.text (g.decoder, f) ≡ some (synced text stable ids, settled_text ids)
        → Sane g.stop_state
        → g.stop_state.stopped ≡ false
        → on_fragment r g f ≡ some o
        → Read ids o
    unfolding on_fragment absorb
    on_fragment-Read g (ok none) ids o a v go e =
        let both = some-injective _ _ a in
        subst (Read ids) (some-injective _ _ e)
          ((ap (λ x. x.0) both, ap (λ x. x.1) both, v), inl (refl, go))
    on_fragment-Read g (ok (some t)) ids o a v go e =
        let both = some-injective _ _ a in
        on_text-Read g t ids o (ap (λ x. x.0) both) (ap (λ x. x.1) both) v go e
    on_fragment-Read g (failed m) ids o a v go e = absurd cc
    on_fragment-Read g panicked ids o a v go e = absurd cc

    push-absorb :
        (g : Generation W) (id : ℕ) (ids : List ℕ)
        → Reads ids g
        → absorb g.stop_state.text (StreamDecode.push r.decode_ids g.decoder id)
          ≡ some (synced text stable (ids ++ id ∷ []), settled_text (ids ++ id ∷ []))
    push-absorb g id ids (d, l, v) =
        (λ i. absorb (l i) (StreamDecode.push (decodes i) (d i) id))
        ∙ push-synced text stable ids id

    -- After a token: either it was taken, or it is a stop token and ended the generation.
    abbrev Taken : List ℕ → ℕ → Turn W → Type 0
    Taken ids id o =
        Read (ids ++ id ∷ []) o
        ⊎ ((o.0 ≡ false)
            × Reads ids o.1
            × (o.1.stop_state.stopped ≡ true)
            × (Stop.contains eos_ids id ≡ true))

    on_token-Taken :
        (g : Generation W) (id : ℕ) (ids : List ℕ) (o : Turn W)
        → Reads ids g
        → g.stop_state.stopped ≡ false
        → on_token r g id ≡ some o
        → Taken ids id o
    unfolding on_token
    on_token-Taken g id ids o (d, l, v) go e =
        let (same, _, way) = check_token-text g.stop_state id in
        let u = token-Sane g.stop_state id v in
        elim way [
          | inl (is, on) ↦
              let g' = record g { stop_state = (Stop.check_token g.stop_state id).0 } in
              let (d', f) = StreamDecode.push r.decode_ids g.decoder id in
              inl (
                on_fragment-Read (record g' { decoder = d' }) f (ids ++ id ∷ []) o
                  (push-absorb g' id ids (d, same ∙ l, u)) u on (rw (is, on_token) at e))
          | inr (h, hit, stops, listed) ↦
              let eos = subst (λ x. Stop.contains x id ≡ true) v.1 (listed go) in
              subst (Taken ids id) (some-injective _ _ (rw (hit, on_token) at e))
                (inr (refl, (d, same ∙ l, u), stops, eos))
        ]

    -- what comes next is a stop token
    abbrev pub StopToken : List ℕ → Type 0
    StopToken rest =
        (id : ℕ) × (later : List ℕ) × (rest ≡ id ∷ later) × (Stop.contains eos_ids id ≡ true)

    -- the settled text of the ids has a stop string
    abbrev pub StopString : List ℕ → Type 0
    StopString ids = (i : ℕ) × (first_hit ps (settled_text ids) ≡ some i)

    matched-StopString :
        (ids : List ℕ) (g : Generation W) (i : ℕ)
        → Reads ids g
        → g.stop_state.matched ≡ some i
        → StopString ids
    matched-StopString ids g i (d, l, (v, _, strings)) m =
        (i, (λ j. first_hit (sym strings j) (sym l j)) ∙ sym v.found ∙ m)

    -- Why the loop ended, when it took `ids` and left `rest`: all came and it is not stopped, or a stop
    -- token or a stop string stopped it, or the consumer is gone.
    abbrev Why : List ℕ → List ℕ → Generation W → Type 0
    Why ids rest h =
        ((rest ≡ []) × (h.stop_state.stopped ≡ false))
        ⊎ ((h.stop_state.stopped ≡ true) × (StopToken rest ⊎ StopString ids))
        ⊎ (h.client_gone ≡ true)

    abbrev Received : List ℕ → List ℕ → Generation W → Type 0
    Received ids came h =
        (more rest : List ℕ) × (came ≡ more ++ rest)
        × Why (ids ++ more) rest h
        × Reads (ids ++ more) h

    -- nothing more was taken
    left-Received :
        (ids came : List ℕ) (h : Generation W) → Why ids came h → Reads ids h → Received ids came h
    left-Received ids came h why p = (
      [],
      came,
      refl,
      subst (λ x. Why x came h) (sym (append-nil ids)) why,
      subst (λ x. Reads x h) (sym (append-nil ids)) p,
    )

    done-Received :
        (ids : List ℕ) (g h : Generation W)
        → some g ≡ some h
        → g.stop_state.stopped ≡ false
        → Reads ids g
        → Received ids [] h
    done-Received ids g h e go p =
        subst (Received ids []) (some-injective _ _ e) (left-Received ids [] g (inl (refl, go)) p)

    ended :
        (ids rest : List ℕ) (more : Bool) (g : Generation W)
        → more ≡ false
        → Reads ids g
        → Goes (more, g)
        → Why ids rest g
    ended ids rest more g m p (inl (k, _)) = absurd (cc (m, k))
    ended ids rest more g m p (inr (_, inl (k, (i, at)))) =
        inr (inl (k, inr (matched-StopString ids g i p at)))
    ended ids rest more g m p (inr (_, inr k)) = inr (inr k)

    more-unstopped :
        (more : Bool) (g : Generation W)
        → more ≡ true
        → Goes (more, g)
        → g.stop_state.stopped ≡ false
    more-unstopped more g m (inl (_, u)) = u
    more-unstopped more g m (inr (k, _)) = absurd (cc (m, k))

    receive-Received :
        (g h : Generation W) (evs : List GenEvent) (ids : List ℕ)
        → Reads ids g
        → g.stop_state.stopped ≡ false
        → receive r g evs ≡ some h
        → Received ids (received evs) h
    unfolding receive received on_event
    receive-Received g h [] ids p go e = done-Received ids g h e go p
    receive-Received g h (GenEvent.done why u ∷ evs) ids p go e =
        done-Received ids (record g { reason = some why }) h e go p
    receive-Received g h (GenEvent.failed m ∷ evs) ids p go e =
        done-Received ids (record g { failed_with = some m }) h e go p
    receive-Received g h (GenEvent.token id ∷ evs) ids p go e =
        let ((more, g'), e₁, rest) = >>=-eq-some (on_token r g id) _ e in
        let came = id ∷ received evs in
        elim (on_token-Taken g id ids (more, g') p go e₁) [
          | inr (halts, q, stops, eos) ↦
              subst (Received ids came) (some-injective _ _ (rw halts at rest))
                (left-Received ids came g' (inr (inl (stops, inl (id, received evs, refl, eos)))) q)
          | inl (q, goes) ↦ elim (Bool-cases more) [
            | inl m ↦
                let (ids', later, is, why, q') =
                  receive-Received g' h evs (ids ++ id ∷ []) q (more-unstopped more g' m goes)
                    (rw m at rest) in
                let same = append_assoc ids (id ∷ []) ids' in
                (
                  id ∷ ids',
                  later,
                  ap (λ x. id ∷ x) is,
                  subst (λ x. Why x later h) same why,
                  subst (λ x. Reads x h) same q',
                )
            | inr m ↦ subst (Received ids came) (some-injective _ _ (rw m at rest)) (
              id ∷ [],
              received evs,
              refl,
              ended (ids ++ id ∷ []) (received evs) more g' m q goes,
              q,
            )
          ]
        ]

    -- After the flush: all the text, or the settled text if the generation was stopped before.
    abbrev Whole : Bool → List ℕ → Generation W → Type 0
    Whole b ids g =
        ((b ≡ false) × (g.stop_state.text ≡ text ids))
        ⊎ ((b ≡ true) × (g.stop_state.text ≡ settled_text ids))

    flush_text-Whole :
        (g h : Generation W) (f : Outcome (Option Bytes)) (ids : List ℕ) (d : StreamDecoder)
        → g.stop_state.text ≡ settled_text ids
        → absorb g.stop_state.text (g.decoder, f) ≡ some (d, text ids)
        → flush_text r g f ≡ some h
        → Whole g.stop_state.stopped ids h
    unfolding flush_text absorb
    flush_text-Whole g h (ok none) ids d l a e =
        subst (Whole g.stop_state.stopped ids) (some-injective _ _ e)
          (elim (Bool-cases g.stop_state.stopped) [
            | inl k ↦ inr (k, l)
            | inr k ↦ inl (k, ap (λ x. x.1) (some-injective _ _ a))
          ])
    flush_text-Whole g h (ok (some t)) ids d l a e =
        let ((s, hit), e₁, done) = >>=-eq-some (Stop.push_text g.stop_state t) _ e in
        subst (Whole g.stop_state.stopped ids) (some-injective _ _ done)
          (elim (push_text-text g.stop_state s t hit e₁) [
            | inl (stop, _, same) ↦ inr (stop, same ∙ l)
            | inr (go, grown) ↦ inl (go, grown ∙ ap (λ x. x.1) (some-injective _ _ a))
          ])
    flush_text-Whole g h (failed m) ids d l a e = absurd cc
    flush_text-Whole g h panicked ids d l a e = absurd cc

    Whole-Same :
        (b : Bool) (ids : List ℕ) (g h : Generation W)
        → h.stop_state ≡ g.stop_state
        → Whole b ids g
        → Whole b ids h
    Whole-Same b ids g h s w =
        subst
          (λ x. ((b ≡ false) × (x.text ≡ text ids)) ⊎ ((b ≡ true) × (x.text ≡ settled_text ids)))
          (sym s) w

    flush_stop-Whole :
        (b : Bool) (g h : Generation W) (ids : List ℕ)
        → Whole b ids g
        → flush_stop r g ≡ some h
        → Whole b ids h
    unfolding flush_stop
    flush_stop-Whole b g h ids w e =
        let ((s, end), e₁, rest) = >>=-eq-some (Stop.finish g.stop_state) _ e in
        let g' = record g { stop_state = s } in
        let (o, e₂, done) = >>=-eq-some (forward_to r g' end) _ rest in
        let same = (finish-text g.stop_state s end e₁).0 in
        let closed : Whole b ids g' = elim w [
          | inl (u, k) ↦ inl (u, same ∙ k)
          | inr (u, k) ↦ inr (u, same ∙ k)
        ] in
        subst (Whole b ids) (some-injective _ _ done)
          (Whole-Same b ids g' o.1 (forward_to-Same g' end o e₂).0 closed)

    flush_end-Whole :
        (b : Bool) (o : Option Bytes) (g h : Generation W) (ids : List ℕ)
        → Whole b ids g
        → flush_end r o g ≡ some h
        → Whole b ids h
    unfolding flush_end
    flush_end-Whole b none g h ids w e = flush_stop-Whole b g h ids w e
    flush_end-Whole b (some m) g h ids w e = subst (Whole b ids) (some-injective _ _ e) w

    flush_rest-Whole :
        (b : Bool) (g h : Generation W) (ids : List ℕ)
        → Whole b ids g
        → some (if is_live g then flush_calls r g else g) ≡ some h
        → Whole b ids h
    flush_rest-Whole b g h ids w e = elim (Bool-cases (is_live g)) [
      | inl l ↦
          subst (Whole b ids) (some-injective _ _ (rw l at e))
            (Whole-Same b ids g (flush_calls r g) (flush_calls-Same g).0 w)
      | inr l ↦ subst (Whole b ids) (some-injective _ _ (rw l at e)) w
    ]

    flush-Whole :
        (g h : Generation W) (ids : List ℕ)
        → is_live h ≡ true
        → Reads ids g
        → flush r g ≡ some h
        → Whole g.stop_state.stopped ids h
    unfolding flush flush_live
    flush-Whole g h ids live (d, l, v) e = elim (Bool-cases (is_live g)) [
      | inr n ↦ absurd (cc (n, live, ap is_live (some-injective _ _ (rw n at e))))
      | inl y ↦
          let (d', f) = StreamDecode.finish r.decode_ids g.decoder in
          let (g₁, e₁, rest) =
            >>=-eq-some (flush_text r (record g { decoder = d' }) f) _ (rw y at e) in
          let (g₂, e₂, done) = >>=-eq-some (flush_end r g₁.failed_with g₁) _ rest in
          let a =
            (λ i. absorb (l i) (StreamDecode.finish (decodes i) (d i)))
            ∙ finish-synced text stable ids in
          flush_rest-Whole g.stop_state.stopped g₂ h ids
            (flush_end-Whole g.stop_state.stopped g₁.failed_with g₁ g₂ ids
              (flush_text-Whole (record g { decoder = d' }) g₁ f ids _ l a e₁) e₂)
            done
    ]

    start-Reads :
        (w : W)
        → AllFilled ps
        → let g = (emit_one r (start ps w) Emission.role).1 in
          Reads [] g × (g.stop_state.stopped ≡ false)
    unfolding emit_one start
    start-Reads w a =
        let (k, l) = synced-new text stable in
        unfold Stop.new in ((k, sym l, (new-Inv eos_ids ps a, refl, refl)), refl)

    -- The text that an answer is cut from: all of the ids that came, decoded; or, where a stop token comes
    -- after `ids` or their text has a stop string, the decoding of these, without an incomplete character at the end.
    abbrev pub Decoded : List ℕ → Bytes → Type 0
    Decoded came t =
        (ids rest : List ℕ) × (came ≡ ids ++ rest)
        × (((rest ≡ []) × (t ≡ text ids))
            ⊎ ((StopToken rest ⊎ StopString ids) × (t ≡ settled_text ids)))

    Whole-Decoded :
        (ids rest came : List ℕ) (f h : Generation W)
        → came ≡ ids ++ rest
        → Why ids rest f
        → (f.client_gone ≡ true → ⊥)
        → Whole f.stop_state.stopped ids h
        → Decoded came h.stop_state.text
    Whole-Decoded ids rest came f h e (inl (z, u)) there (inl (_, k)) = (ids, rest, e, inl (z, k))
    Whole-Decoded ids rest came f h e (inl (z, u)) there (inr (x, k)) = absurd (cc (u, x))
    Whole-Decoded ids rest came f h e (inr (inl (x, why))) there (inl (u, k)) = absurd (cc (u, x))
    Whole-Decoded ids rest came f h e (inr (inl (x, why))) there (inr (_, k)) =
        (ids, rest, e, inr (why, k))
    Whole-Decoded ids rest came f h e (inr (inr gone)) there w = absurd (there gone)

    -- The decoder follows one text for each list of ids, which grows as `Stable` says. If no slice
    -- panics, nothing fails and the consumer stays, the content of the result is a text up to the first place
    -- where a stop string begins, or all of it when none occurs. That text is the decoding of all the ids that
    -- came; or of the first ones, which a stop token follows or
    -- whose text has a stop string, without an incomplete character at the end. No stop string is empty.
    pub run_generation-content :
        (rx : List GenEvent) (prompt_len : ℕ) (w : W) (h : Generation W) (res : GenResult)
        → AllFilled ps
        → run_generation r rx ps prompt_len w ≡ some (h, res)
        → res.error ≡ none
        → h.client_gone ≡ false
        → (t : Bytes) × Decoded (received rx) t × (res.content ≡ take (visible_end ps t) t)
    unfolding run_generation
    run_generation-content rx prompt_len w h res a e fine stays =
        let g₀ = (emit_one r (start ps w) Emission.role).1 in
        let (f, e₁, rest) = >>=-eq-some (receive r g₀ rx) _ e in
        let (g, e₂, done) = >>=-eq-some (flush r f) _ rest in
        let live = conclude-live r prompt_len g h res done fine stays in
        let (p₀, u₀) = start-Reads w a in
        let (more, later, came, why, p) = receive-Received g₀ f rx [] p₀ u₀ e₁ in
        let b = f.stop_state.stopped in
        let whole = flush-Whole f g more live p e₂ in
        let same = sym (conclude-same r prompt_len g h res done).0 in
        (
          h.stop_state.text,
          Whole-Decoded more later (received rx) f h came why
              (λ gone. flush-client_gone f g live gone e₂) (Whole-Same b more g h same whole),
          run_generation-visible r rx ps prompt_len w h res a e fine stays,
        )
