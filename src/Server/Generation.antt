-- ===== src/Server/Generation.antt =====
-- rust/minicpm-server/src/chat.rs: `run_generation`, the loop from the tokens of a generation to the
-- emissions of an answer, which all routes share. What a route brings along is the record `Route`. The
-- receiver is the list of the events that come before the channel closes. `none` is a panic of a slice.
pub mod Invariant
pub mod Sent
pub mod Starts
pub mod Finished
pub mod Decoded
pub mod Text
pub mod Told
use mini_cpm5_5080fast.Base.{
  ℕ, ◌+◌, Bool, true, false, not, ◌&&◌, Option, none, some, List, [], ◌∷◌, ◌++◌, ltb, if◌then◌else◌,
  ◌>>=◌, Outcome, ok, failed, panicked,
}
use mini_cpm5_5080fast.Bytes.{Bytes, slice}
use mini_cpm5_5080fast.Bytes.Text.{codes}
use mini_cpm5_5080fast.Usage.{FinishReason, Usage, as_str}
use mini_cpm5_5080fast.Stop
use mini_cpm5_5080fast.Stop.{StopState, StopHit}
use mini_cpm5_5080fast.StreamDecode
use mini_cpm5_5080fast.StreamDecode.{StreamDecoder, DecodeFn, token_count}
use mini_cpm5_5080fast.ToolCall
use mini_cpm5_5080fast.ToolCall.{ToolCall, ToolCallEvent, ToolCallParser}
use mini_cpm5_5080fast.ToolCall.Step
use mini_cpm5_5080fast.Scheduler.Types.{GenEvent}
use mini_cpm5_5080fast.Server.{Emission}
use mini_cpm5_5080fast.Server.ArgStream
use mini_cpm5_5080fast.Server.ArgStream.{ToolArgStream, push_tool_events}

-- What the loop calls: JSON text, the tokenizer, and the consumer with its state, which answers whether
-- it is still there.
pub record Route (W : Type 0) : Type 0 where
  pub render : List (Bytes × Bytes) → Bytes
  pub to_json : Bytes → Option Bytes
  pub decode_ids : DecodeFn
  pub emit : W → Emission → Bool × W

-- The variables of the loop, with the consumer's state and all that was emitted, newest last.
pub record Generation (W : Type 0) : Type 0 where
  pub stop_state : StopState
  pub decoder : StreamDecoder
  pub tool_parser : ToolCallParser
  pub tool_args : ToolArgStream
  pub emitted : ℕ
  pub reason : Option FinishReason
  pub failed_with : Option Bytes
  pub client_gone : Bool
  pub world : W
  pub sent : List Emission

pub record GenResult : Type 0 where
  pub content : Bytes
  pub tool_calls : List ToolCall
  pub finish_reason : FinishReason
  pub usage : Usage
  pub error : Option Bytes

-- `EOS_IDS`
abbrev pub eos_ids : List ℕ
eos_ids = 1 ∷ 130073 ∷ []

-- `to_string` of a `StreamDecodeError`
unfoldable pub describe : Bytes → Bytes
describe e = codes "decode backend error: " ++ e

-- Whether the loop goes on, and its variables.
abbrev pub Turn : Type 0 → Type 0
Turn W = Bool × Generation W

module _ {W : Type 0} where
  unfoldable pub start : List Bytes → W → Generation W
  start stop_strings w = record {
    stop_state = Stop.new eos_ids stop_strings;
    decoder = StreamDecode.new;
    tool_parser = ToolCall.new;
    tool_args = ArgStream.new;
    emitted = 0;
    reason = none;
    failed_with = none;
    client_gone = false;
    world = w;
    sent = [];
  }

  unfoldable pub is_live : Generation W → Bool
  is_live g = elim g.failed_with [ none ↦ not g.client_gone | some e ↦ false ]

  -- after a piece of text was forwarded
  unfoldable pub after_text : Option StopHit → Turn W → Turn W
  after_text hit (false, g) = (false, g)
  after_text none (true, g) = (true, g)
  after_text (some hit) (true, g) = (false, record g { reason = some FinishReason.stop })

  module _ (r : Route W) where
    unfoldable pub emit_one : Generation W → Emission → Turn W
    emit_one g em =
        let (kept, w) = r.emit g.world em in
        (kept, record g { world = w; sent = g.sent ++ em ∷ [] })

    unfoldable pub emit_pending : Generation W → List Emission → Turn W
    unfolding emit_one
    emit_pending g [] = (true, g)
    emit_pending g (em ∷ pending) =
        let o = emit_one g em in
        let rest = emit_pending o.1 pending in
        if o.0 then rest else (false, record o.1 { client_gone = true })

    unfoldable pub forward_tool_text : Generation W → Bytes → Turn W
    unfolding emit_pending
    forward_tool_text g chunk =
        let (p, evs) = Step.push r.render g.tool_parser chunk in
        let (a, pending) = push_tool_events r.to_json g.tool_args evs in
        emit_pending (record g { tool_parser = p; tool_args = a }) pending

    -- `if end > emitted { … }`: the text up to `end` that is not forwarded yet
    unfoldable pub forward_to : Generation W → ℕ → Option (Turn W)
    unfolding forward_tool_text
    forward_to g end =
        if ltb g.emitted end
        then (do
          shown ← Stop.visible_text g.stop_state end
          chunk ← slice shown g.emitted end
          some (forward_tool_text (record g { emitted = end }) chunk))
        else some (true, g)

    unfoldable pub on_text : Generation W → Bytes → Option (Turn W)
    unfolding forward_to after_text
    on_text g t = do
      (s, hit) ← Stop.push_text g.stop_state t
      turn ← forward_to (record g { stop_state = s }) (Stop.safe_len s)
      some (after_text hit turn)

    unfoldable pub on_fragment : Generation W → Outcome (Option Bytes) → Option (Turn W)
    unfolding on_text describe
    on_fragment g (ok none) = some (true, g)
    on_fragment g (ok (some t)) = on_text g t
    on_fragment g (failed e) = some (false, record g { failed_with = some (describe e) })
    on_fragment g panicked = none

    unfoldable pub on_token : Generation W → ℕ → Option (Turn W)
    unfolding on_fragment
    on_token g id =
        let (s, hit) = Stop.check_token g.stop_state id in
        elim hit [
          | some h ↦ some (false, record g { stop_state = s; reason = some FinishReason.stop })
          | none ↦
              let (d, fragment) = StreamDecode.push r.decode_ids g.decoder id in
              on_fragment (record g { stop_state = s; decoder = d }) fragment
        ]

    unfoldable pub on_event : Generation W → GenEvent → Option (Turn W)
    unfolding on_token
    on_event g (GenEvent.token id) = on_token g id
    on_event g (GenEvent.done reason usage) = some (false, record g { reason = some reason })
    on_event g (GenEvent.failed e) = some (false, record g { failed_with = some e })

    -- the `while` over the events, up to the one that breaks or the closed channel
    unfoldable pub receive : Generation W → List GenEvent → Option (Generation W)
    unfolding on_event
    receive g [] = some g
    receive g (ev ∷ evs) = do
      (more, g') ← on_event g ev
      let rest = receive g' evs
      if more then rest else some g'

    -- what `decoder.finish` releases, and then what `stop_state.finish` does
    unfoldable pub flush_text : Generation W → Outcome (Option Bytes) → Option (Generation W)
    unfolding describe
    flush_text g (ok none) = some g
    flush_text g (ok (some t)) = do
      (s, hit) ← Stop.push_text g.stop_state t
      some (record g { stop_state = s })
    flush_text g (failed e) = some (record g { failed_with = some (describe e) })
    flush_text g panicked = none

    unfoldable pub flush_stop : Generation W → Option (Generation W)
    unfolding forward_to
    flush_stop g = do
      (s, end) ← Stop.finish g.stop_state
      (kept, g') ← forward_to (record g { stop_state = s }) end
      some g'

    unfoldable pub flush_end : Option Bytes → Generation W → Option (Generation W)
    unfolding flush_stop
    flush_end none g = flush_stop g
    flush_end (some e) g = some g

    unfoldable pub flush_calls : Generation W → Generation W
    unfolding emit_pending
    flush_calls g =
        let (p, evs) = Step.finish r.render g.tool_parser in
        let (a, pending) = push_tool_events r.to_json g.tool_args evs in
        (emit_pending (record g { tool_parser = p; tool_args = a }) pending).1

    unfoldable pub flush_live : Generation W → Option (Generation W)
    unfolding flush_text flush_end flush_calls is_live
    flush_live g =
        let (d, fragment) = StreamDecode.finish r.decode_ids g.decoder in
        do
          g₁ ← flush_text (record g { decoder = d }) fragment
          g₂ ← flush_end g₁.failed_with g₁
          some (if is_live g₂ then flush_calls g₂ else g₂)

    unfoldable pub flush : Generation W → Option (Generation W)
    unfolding flush_live is_live
    flush g = if is_live g then flush_live g else some g

    unfoldable pub finish_reason_of : Generation W → FinishReason
    finish_reason_of g = elim g.failed_with [
      | some e ↦ FinishReason.error
      | none ↦ elim g.reason [ some reason ↦ reason | none ↦ FinishReason.cancelled ]
    ]

    unfoldable pub usage_of : ℕ → Generation W → Usage
    usage_of prompt_len g = record {
      prompt_tokens = prompt_len;
      completion_tokens = token_count g.decoder;
    }

    -- the error, or the final emission, if the consumer is there
    unfoldable pub last_emission : ℕ → Generation W → Emission
    unfolding finish_reason_of usage_of
    last_emission prompt_len g = elim g.failed_with [
      | some e ↦ Emission.error e
      | none ↦ Emission.final (as_str (finish_reason_of g)) (usage_of prompt_len g)
    ]

    unfoldable pub conclude : ℕ → Generation W → Option (Generation W × GenResult)
    unfolding finish_reason_of usage_of last_emission emit_one
    conclude prompt_len g = do
      content ← Stop.visible_text g.stop_state g.emitted
      let g' = if g.client_gone then g else (emit_one g (last_emission prompt_len g)).1
      some (
        g',
        record {
          content = content;
          tool_calls = g.tool_parser.calls;
          finish_reason = finish_reason_of g;
          usage = usage_of prompt_len g;
          error = g.failed_with;
        },
      )

    unfoldable pub run_generation :
        List GenEvent → List Bytes → ℕ → W → Option (Generation W × GenResult)
    unfolding receive flush conclude start emit_one
    run_generation rx stop_strings prompt_len w = do
      let g = (emit_one (start stop_strings w) Emission.role).1
      g₁ ← receive g rx
      g₂ ← flush g₁
      conclude prompt_len g₂
