-- ===== src/Server/Generation/Sent.antt =====
-- What `run_generation` emits: the role, then deltas, then one last emission, and nothing after the
-- consumer has gone.
use mini_cpm5_5080fast.Base.{
  ℕ, ◌≡◌, refl, sym, ap, ◌∙◌, subst, Bool, true, false, not, ◌&&◌, Option, none, some, List, [],
  ◌∷◌, ◌++◌, if◌then◌else◌, Bool-cases, inl, inr, ◌⊎◌, arith,
}
use mini_cpm5_5080fast.Bytes.{Bytes}
use mini_cpm5_5080fast.Stop
use mini_cpm5_5080fast.ToolCall.{ToolCallEvent}
use mini_cpm5_5080fast.ToolCall.Step
use mini_cpm5_5080fast.Server.Generation.Invariant.{Invariant, conclude-parts, run_generation-keeps}
use mini_cpm5_5080fast.Usage.{as_str}
use mini_cpm5_5080fast.Scheduler.Types.{GenEvent}
use mini_cpm5_5080fast.Server.{Emission}
use mini_cpm5_5080fast.Server.ArgStream.{
  ToolArgStream, push_tool_events, push_tool_event, args_of, param, end_call,
}
use mini_cpm5_5080fast.Server.Generation.{
  Route, Generation, GenResult, emit_pending, emit_one, forward_tool_text, flush_calls, conclude,
  run_generation, last_emission, start, finish_reason_of, usage_of,
}

unfoldable pub is_delta : Emission → Bool
is_delta Emission.role = false
is_delta (Emission.content t) = true
is_delta (Emission.tool_start i d n) = true
is_delta (Emission.tool_args i c) = true
is_delta (Emission.final r u) = false
is_delta (Emission.error e) = false

unfoldable pub all_deltas : List Emission → Bool
unfolding is_delta
all_deltas [] = true
all_deltas (em ∷ ems) = is_delta em && all_deltas ems

pub all_deltas-append :
    (es fs : List Emission)
    → all_deltas es ≡ true
    → all_deltas fs ≡ true
    → all_deltas (es ++ fs) ≡ true
unfolding all_deltas
all_deltas-append [] fs p q = q
all_deltas-append (em ∷ es) fs p q = ground (arith, all_deltas-append es fs)

args_of-deltas : (i : ℕ) (cs : List Bytes) → all_deltas (args_of i cs) ≡ true
unfolding all_deltas is_delta
args_of-deltas i [] = refl
args_of-deltas i (c ∷ cs) = args_of-deltas i cs

push_tool_event-deltas :
    (to_json : Bytes → Option Bytes) (a : ToolArgStream) (ev : ToolCallEvent)
    → all_deltas (push_tool_event to_json a ev).1 ≡ true
unfolding push_tool_event
push_tool_event-deltas to_json a (ToolCallEvent.text t) = unfold all_deltas is_delta in refl
push_tool_event-deltas to_json a (ToolCallEvent.tool_call_start n) =
    unfold all_deltas is_delta in refl
push_tool_event-deltas to_json a (ToolCallEvent.param_value n v) =
    let o = param to_json a n v in args_of-deltas o.0.index o.1
push_tool_event-deltas to_json a (ToolCallEvent.tool_call_end c) =
    let o = end_call a in args_of-deltas o.0.index o.1

push_tool_events-deltas :
    (to_json : Bytes → Option Bytes) (a : ToolArgStream) (evs : List ToolCallEvent)
    → all_deltas (push_tool_events to_json a evs).1 ≡ true
unfolding push_tool_events
push_tool_events-deltas to_json a [] = unfold all_deltas in refl
push_tool_events-deltas to_json a (ev ∷ evs) =
    let o = push_tool_event to_json a ev in
    all_deltas-append o.1 (push_tool_events to_json o.0 evs).1 (push_tool_event-deltas to_json a ev)
      (push_tool_events-deltas to_json o.0 evs)

not-not : (b : Bool) → not (not b) ≡ b
not-not true = refl
not-not false = refl

pub both-true : (a b : Bool) → (a && b) ≡ true → (a ≡ true) × (b ≡ true)
both-true true b e = (refl, e)
both-true false b e = cc

if-true : {A : Type 0} {b : Bool} (x y : A) → b ≡ true → (if b then x else y) ≡ x
if-true x y e = rw e refl

pub if-false : {A : Type 0} {b : Bool} (x y : A) → b ≡ false → (if b then x else y) ≡ y
if-false x y e = rw e refl

module _ {W : Type 0} (r : Route W) where
  -- The consumer takes these emissions in turn: whether it is still there, and its state. `none` says
  -- that one came after it had gone.
  unfoldable pub deliver : W → List Emission → Option (Bool × W)
  deliver w [] = some (true, w)
  deliver w (em ∷ []) = some (r.emit w em)
  deliver w (em ∷ next ∷ ems) =
      let (kept, w') = r.emit w em in
      let rest = deliver w' (next ∷ ems) in if kept then rest else none

  deliver-snoc :
      (w v : W) (ems : List Emission) (em : Emission)
      → deliver w ems ≡ some (true, v)
      → deliver w (ems ++ em ∷ []) ≡ some (r.emit v em)
  unfolding deliver
  deliver-snoc w v [] em e = ground (arith, e)
  deliver-snoc w v (x ∷ []) em e = ground (arith, e)
  deliver-snoc w v (x ∷ y ∷ ems) em e = elim (Bool-cases (r.emit w x).0) [
    | inl k ↦ rw k (deliver-snoc (r.emit w x).1 v (y ∷ ems) em (ground (arith, e, k)))
    | inr k ↦ absurd (ground (arith, e, k))
  ]

  module _ (v : W) where
    -- The emissions are the role and deltas, which the consumer, from the state `v`, took in turn, and it has
    -- gone when it refused the last.
    pub record Delivered (sent : List Emission) (gone : Bool) (w : W) : Type 0 where
      pub body : List Emission
      pub sent_is : sent ≡ Emission.role ∷ body
      pub deltas : all_deltas body ≡ true
      pub taken : deliver v body ≡ some (not gone, w)

    abbrev pub DeliveredBy : Generation W → Type 0
    DeliveredBy g = Delivered g.sent g.client_gone g.world

    with_gone :
        {b b' : Bool} (sent : List Emission) (w : W)
        → b ≡ b'
        → Delivered sent b w
        → Delivered sent b' w
    with_gone sent w e d = subst (λ x. Delivered sent x w) e d

    emit_one-Delivered :
        (g : Generation W) (em : Emission)
        → is_delta em ≡ true
        → g.client_gone ≡ false
        → DeliveredBy g
        → let o = emit_one r g em in Delivered o.1.sent (not o.0) o.1.world
    unfolding emit_one
    emit_one-Delivered g em e c d = record {
      body = d.body ++ em ∷ [];
      sent_is = ap (λ x. x ++ em ∷ []) d.sent_is;
      deltas = all_deltas-append d.body (em ∷ []) d.deltas (unfold all_deltas in rw e refl);
      taken =
          deliver-snoc v g.world d.body em (d.taken ∙ ap (λ b. some (not b, g.world)) c)
          ∙ ap (λ b. some (b, (r.emit g.world em).1)) (sym (not-not (r.emit g.world em).0));
    }

    emit_pending-Delivered :
        (g : Generation W) (pending : List Emission)
        → all_deltas pending ≡ true
        → g.client_gone ≡ false
        → DeliveredBy g
        → DeliveredBy (emit_pending r g pending).1
    unfolding emit_pending all_deltas
    emit_pending-Delivered g [] e c d = d
    emit_pending-Delivered g (em ∷ pending) e c d =
        let (first, others) = both-true (is_delta em) (all_deltas pending) e in
        let o = emit_one r g em in
        let d' = emit_one-Delivered g em first c d in
        elim (Bool-cases (r.emit g.world em).0) [
          | inl k ↦ rw k (
              emit_pending-Delivered o.1 pending others c
                (with_gone o.1.sent o.1.world (ap not k ∙ sym c) d'))
          | inr k ↦ rw k (with_gone o.1.sent o.1.world (ap not k) d')
        ]

    forward_tool_text-Delivered :
        (g : Generation W) (chunk : Bytes)
        → g.client_gone ≡ false
        → DeliveredBy g
        → DeliveredBy (forward_tool_text r g chunk).1
    unfolding forward_tool_text
    forward_tool_text-Delivered g chunk c d =
        let (p, evs) = Step.push r.render g.tool_parser chunk in
        let (a, pending) = push_tool_events r.to_json g.tool_args evs in
        emit_pending-Delivered (record g { tool_parser = p; tool_args = a }) pending
          (push_tool_events-deltas r.to_json g.tool_args evs) c d

    flush_calls-Delivered :
        (g : Generation W) → g.client_gone ≡ false → DeliveredBy g → DeliveredBy (flush_calls r g)
    unfolding flush_calls
    flush_calls-Delivered g c d =
        let (p, evs) = Step.finish r.render g.tool_parser in
        let (a, pending) = push_tool_events r.to_json g.tool_args evs in
        emit_pending-Delivered (record g { tool_parser = p; tool_args = a }) pending
          (push_tool_events-deltas r.to_json g.tool_args evs) c d

    Delivered-Invariant : Invariant r DeliveredBy DeliveredBy
    Delivered-Invariant = record {
      weakens = λ g p. p;
      keeps_notes = λ g d why e p. p;
      keeps_token = λ g id p. p;
      keeps_text = λ g t s hit e p. p;
      keeps_end = λ g s end e p. p;
      keeps_forward = λ g shown chunk l e₁ e₂ c p.
          forward_tool_text-Delivered (record g { emitted = Stop.safe_len g.stop_state }) chunk c p;
      keeps_last = λ g s end shown chunk e l e₁ e₂ c p.
          forward_tool_text-Delivered (record g { stop_state = s; emitted = end }) chunk c p;
      keeps_calls = flush_calls-Delivered;
    }

  -- the emission that reports a result
  unfoldable pub report : GenResult → Emission
  report res = elim res.error [
    | some e ↦ Emission.error e
    | none ↦ Emission.final (as_str res.finish_reason) res.usage
  ]

  -- The emissions of an answer: the role, deltas, and at the end one that reports the result, unless the
  -- consumer refused a delta; then that one is the last.
  unfoldable pub Answered : W → Generation W → GenResult → Type 0
  unfolding deliver all_deltas report
  Answered v h res =
      (body : List Emission) × (all_deltas body ≡ true)
      × (((h.client_gone ≡ true)
            × (h.sent ≡ Emission.role ∷ body)
            × (deliver v body ≡ some (false, h.world)))
          ⊎ ((h.client_gone ≡ false)
              × (h.sent ≡ Emission.role ∷ body ++ report res ∷ [])
              × ((u : W) × (deliver v body ≡ some (true, u)))))

  conclude-Answered :
      (v : W) (n : ℕ) (g h : Generation W) (res : GenResult)
      → DeliveredBy v g
      → conclude r n g ≡ some (h, res)
      → Answered v h res
  unfolding conclude Answered report last_emission emit_one
  conclude-Answered v n g h res d e =
      let (content, shown, to, made) = conclude-parts r n g h res e in
      let reported = (emit_one r g (last_emission r n g)).1 in
      let made_res : GenResult = record {
        content = content;
        tool_calls = g.tool_parser.calls;
        finish_reason = finish_reason_of r g;
        usage = usage_of r n g;
        error = g.failed_with;
      } in
      subst (Answered v h) made (elim (Bool-cases g.client_gone) [
        | inl gone ↦
            subst (λ x. Answered v x made_res) (sym (if-true g reported gone) ∙ to)
              (
                d.body,
                d.deltas,
                inl (gone, d.sent_is, d.taken ∙ ap (λ b. some (not b, g.world)) gone),
              )
        | inr stays ↦
            subst (λ x. Answered v x made_res) (sym (if-false g reported stays) ∙ to)
              (
                d.body,
                d.deltas,
                inr (
                  stays,
                  ap (λ x. x ++ last_emission r n g ∷ []) d.sent_is,
                  (g.world, d.taken ∙ ap (λ b. some (not b, g.world)) stays),
                ),
              )
      ])

  -- Whatever the events and the consumer are, if no slice panics: the emissions of an answer are the role,
  -- then deltas, and at the end exactly one that reports the result, an error or the reason with the usage;
  -- if the consumer refuses a delta, that is the last emission and there is no report. The consumer of
  -- the deltas is the one that took the role.
  pub run_generation-Answered :
      (rx : List GenEvent) (stop_strings : List Bytes) (prompt_len : ℕ) (w : W) (h : Generation W)
      (res : GenResult)
      → run_generation r rx stop_strings prompt_len w ≡ some (h, res)
      → Answered (r.emit w Emission.role).1 h res
  run_generation-Answered rx stop_strings prompt_len w h res e =
      let v = (r.emit w Emission.role).1 in
      let (f, g, _, _, d, done) =
        run_generation-keeps r (Delivered-Invariant v) rx stop_strings prompt_len w h res
          (unfold emit_one start in
            record {
              body = [];
              sent_is = refl;
              deltas = unfold all_deltas in refl;
              taken = unfold deliver in refl;
            })
          e in
      conclude-Answered v prompt_len g h res d done
