-- ===== src/Server/Tests.antt =====
-- Concrete answers for the theorems on the routes.
use mini_cpm5_5080fast.Base.{
  ℕ, ◌+◌, ◌≡◌, refl, sym, true, false, Option, none, some, List, [], ◌∷◌, ◌++◌, ◌==◌, if◌then◌else◌,
  is_some, arith, Bool-cases, inl, inr, take, length, ◌<◌,
}
use mini_cpm5_5080fast.Bytes.{
  Bytes, slice, is_char_boundary, find, starts_with, slice_from, floor_char_boundary,
}
use mini_cpm5_5080fast.Bytes.Text.{codes}
use mini_cpm5_5080fast.Usage.{FinishReason, Usage}
use mini_cpm5_5080fast.Stop
use mini_cpm5_5080fast.StreamDecode
use mini_cpm5_5080fast.ToolCall.{ToolCallEvent, ToolCall, call_id, digits, nonempty}
use mini_cpm5_5080fast.ToolCall
use mini_cpm5_5080fast.ToolCall.Step
use mini_cpm5_5080fast.ToolCall.Tag
use mini_cpm5_5080fast.Bytes
use mini_cpm5_5080fast.Scheduler.Types.{GenEvent}
use mini_cpm5_5080fast.Server.{Emission}
use mini_cpm5_5080fast.Server.ArgStream
use mini_cpm5_5080fast.Server.ArgStream.{quote, escape_json_fragment, push_tool_events}
use mini_cpm5_5080fast.Server.Escape.{
  JsonText, escaped, Unquoted, last_quote, escape_json_fragment-last_quote,
}
use mini_cpm5_5080fast.Server.Calls.{
  Argument, Streams, AllUnquoted, concat, call_fragments, object, call_fragments-object,
}
use mini_cpm5_5080fast.Server.Emissions.{
  joined_content, call_starts, count_from, push_tool_events-next_index,
}
use mini_cpm5_5080fast.ToolCall.Events.{joined_text, started}
use mini_cpm5_5080fast.Server.Generation.{
  Route, Generation, GenResult, describe, start, is_live, after_text, emit_one, emit_pending,
  forward_tool_text, forward_to, on_text, on_fragment, on_token, on_event, receive, flush_text,
  flush_stop, flush_end, flush_calls, flush_live, flush, finish_reason_of, usage_of, last_emission,
  conclude, run_generation,
}
use mini_cpm5_5080fast.Server.Generation.Sent.{
  Answered, run_generation-Answered, all_deltas, is_delta,
}
use mini_cpm5_5080fast.Server.Generation.Decoded.{received, Decoded, run_generation-content}
use mini_cpm5_5080fast.StreamDecode.Exact.{decode_as}
use mini_cpm5_5080fast.StreamDecode.Tests.{ascii, ascii-Stable}
use mini_cpm5_5080fast.Server.Generation.Told.{run_generation-joined_content}
use mini_cpm5_5080fast.Server.Generation.Starts.{run_generation-call_starts}
use mini_cpm5_5080fast.Server.Anthropic.Whole.{run_generation-Over}
use mini_cpm5_5080fast.Stop.Window.{AllFilled}
use mini_cpm5_5080fast.Stop.Stream.{visible_end}
use mini_cpm5_5080fast.Server.Responses
use mini_cpm5_5080fast.Server.Responses.{Event, Payload, ItemJson}
use mini_cpm5_5080fast.Server.Responses.Order.{numbers, numbers-render_all}
use mini_cpm5_5080fast.Server.Responses.Text.{Ends, render_all-Ends}
use mini_cpm5_5080fast.Server.Chat
use mini_cpm5_5080fast.Server.Chat.{SseCtx, non_stream_json}
use mini_cpm5_5080fast.Server.Chat.Same.{
  read_content, read_arguments, text_of, content_in, joined_arguments, read-render_all,
  run_generation-same_text,
}
use mini_cpm5_5080fast.Server.Responses.Items.{output_text}
use mini_cpm5_5080fast.Server.Responses.Output
use mini_cpm5_5080fast.Server.Responses.Same.{run_generation-same_output}
use mini_cpm5_5080fast.Words.{u64_mod}
use mini_cpm5_5080fast.Server.Anthropic
use mini_cpm5_5080fast.Server.Anthropic.{render_all}
use mini_cpm5_5080fast.Server.Anthropic.Client.{Client, Phase, follow, idle_client}
use mini_cpm5_5080fast.Server.Anthropic.Protocol.{Rising, render_all-Over}

-- JSON text in which a quote and a backslash are escaped.
unfoldable small_esc : ℕ → Bytes
small_esc b = if b == 34 then 92 ∷ 34 ∷ [] else if b == 92 then 92 ∷ 92 ∷ [] else b ∷ []

unfoldable small_json : Bytes → Option Bytes
small_json s = some (34 ∷ escaped small_esc s ++ quote)

small_json-JsonText : JsonText small_json small_esc
unfolding small_json small_esc Unquoted
small_json-JsonText = record {
  quoted = λ s. refl;
  quote_is = refl;
  some_text = λ b n. ground (arith, n);
  no_quote = λ b n. elim (Bool-cases (b == 34)) [
    | inl e ↦ absurd (n (ground (arith, e)))
    | inr e ↦ elim (Bool-cases (b == 92)) [
      | inl f ↦ rw (e, f) ((λ z. ground (arith, z)), ((λ z. ground (arith, z)), tt))
      | inr f ↦ rw (e, f) (n, tt)
    ]
  ];
}

-- a fragment that ends in a quote
escape_json_fragment-last_quote_example :
    escape_json_fragment small_json (codes "say \"hi\"") ++ last_quote (codes "say \"hi\"")
    ≡ escaped small_esc (codes "say \"hi\"")
escape_json_fragment-last_quote_example =
    escape_json_fragment-last_quote small_json-JsonText (codes "say \"hi\"")

-- what is left of it ends in the backslash
lost_quote_test : escape_json_fragment small_json (codes "a\"") ≡ codes "a\\"
unfolding escape_json_fragment ArgStream.json_text small_json small_esc escaped ArgStream.trim_start
    ArgStream.trim_end
lost_quote_test = refl

abbrev two_arguments : List Argument
two_arguments =
    record { name = codes "city"; first = codes "Par"; more = codes "is" ∷ [] }
    ∷ record { name = codes "days"; first = codes "3"; more = [] }
    ∷ []

two_arguments-Streams : Streams none two_arguments
unfolding Streams AllUnquoted last_quote
two_arguments-Streams =
    ((λ z. cc), refl, refl, (refl, tt), ((λ z. ground (arith, z)), refl, refl, tt, tt))

call_fragments-object_example :
    concat (call_fragments small_json ArgStream.new 0 two_arguments)
    ≡ object small_json two_arguments
call_fragments-object_example =
    call_fragments-object small_json small_json-JsonText ArgStream.new 0 two_arguments
      two_arguments-Streams

push_tool_events-next_index_example :
    let evs = ToolCallEvent.text (codes "hi") ∷ ToolCallEvent.tool_call_start (codes "f") ∷ [] in
    let o = push_tool_events small_json ArgStream.new evs in
    (joined_content o.1 ≡ joined_text evs)
    × (call_starts o.1 ≡ count_from ArgStream.new.next_index (started evs))
    × (o.0.next_index ≡ ArgStream.new.next_index + started evs)
push_tool_events-next_index_example =
    push_tool_events-next_index small_json ArgStream.new
      (ToolCallEvent.text (codes "hi") ∷ ToolCallEvent.tool_call_start (codes "f") ∷ [])

-- A tokenizer whose ids stand for ASCII characters, and a consumer that counts and takes everything.
abbrev ascii_route : Route ℕ
ascii_route = record {
  render = λ members. [];
  to_json = small_json;
  decode_ids = decode_as ascii;
  emit = λ n em. (true, n + 1);
}

abbrev rx : List GenEvent
rx =
    GenEvent.token 72
    ∷ GenEvent.token 105
    ∷ GenEvent.token 33
    ∷ GenEvent.token 33
    ∷ GenEvent.done FinishReason.length (record { prompt_tokens = 5; completion_tokens = 4 })
    ∷ []

abbrev stops : List Bytes
stops = codes "!!" ∷ []

abbrev ran : Option (Generation ℕ × GenResult)
ran = run_generation ascii_route rx stops 5 0

true-is-false : true ≡ false → ⊥
true-is-false e = cc

-- the value, when there is one
unfoldable got : {A : Type 0} (o : Option A) → is_some o ≡ true → (a : A) × (o ≡ some a)
unfolding is_some
got (some a) e = (a, refl)
got none e = absurd (true-is-false (sym e))

ran_returns : is_some ran ≡ true
unfolding describe start is_live after_text emit_one emit_pending forward_tool_text forward_to
    on_text on_fragment on_token on_event receive flush_text flush_stop flush_end flush_calls
    flush_live flush finish_reason_of usage_of last_emission conclude run_generation ArgStream.new
    ArgStream.begin_call ArgStream.trim_start ArgStream.trim_end ArgStream.same_bytes
    ArgStream.continues ArgStream.close_value ArgStream.end_call ArgStream.json_text
    ArgStream.escape_json_fragment ArgStream.param ArgStream.push_tool_event
    ArgStream.push_tool_events Stop.longest Stop.new Stop.contains Stop.check_token Stop.improve
    Stop.best_match Stop.find_match Stop.record_match Stop.push_text Stop.safe_len Stop.close
    Stop.finish Stop.visible_text StreamDecode.new StreamDecode.ends_with StreamDecode.sync_emission
    StreamDecode.retreat StreamDecode.emit StreamDecode.take_delta StreamDecode.push
    StreamDecode.finish StreamDecode.token_count Step.text_literal Step.text_tag Step.text_open
    Step.text_at Step.step_text Step.function_stray Step.function_tag Step.function_open
    Step.function_at Step.step_function Step.param_literal Step.param_end Step.param_open_at
    Step.param_at Step.step_param Step.cdata_cut Step.cdata_at Step.step_cdata Step.step_in
    Step.step Step.run Step.push Step.flush_param Step.flush Step.close_open Step.finish
    ToolCall.digits ToolCall.call_id ToolCall.emit_param_value ToolCall.emit_param_if
    ToolCall.close_param ToolCall.finalize_call ToolCall.close_function Tag.has_gt Tag.viable_prefix
    Tag.end_of Tag.tag_len Tag.white_len Tag.words Tag.replace_from Tag.decode_attr Tag.strip_prefix
    Tag.strip_suffix Tag.single_quoted Tag.double_quoted Tag.attr_of Tag.first_attr Tag.tag_body
    Tag.parse_tag Bytes.is_char_boundary Bytes.slice_from Bytes.slice Bytes.starts_with Bytes.find
    Bytes.floor_char_boundary is_some
ran_returns = refl

abbrev ran_to : (a : Generation ℕ × GenResult) × (ran ≡ some a)
ran_to = got ran ran_returns

run_generation-Answered_example : Answered ascii_route 1 ran_to.0.0 ran_to.0.1
run_generation-Answered_example =
    run_generation-Answered ascii_route rx stops 5 0 ran_to.0.0 ran_to.0.1 ran_to.1

ran_well : (ran_to.0.1.error ≡ none) × (ran_to.0.0.client_gone ≡ false)
unfolding describe start is_live after_text emit_one emit_pending forward_tool_text forward_to
    on_text on_fragment on_token on_event receive flush_text flush_stop flush_end flush_calls
    flush_live flush finish_reason_of usage_of last_emission conclude run_generation ArgStream.new
    ArgStream.begin_call ArgStream.trim_start ArgStream.trim_end ArgStream.same_bytes
    ArgStream.continues ArgStream.close_value ArgStream.end_call ArgStream.json_text
    ArgStream.escape_json_fragment ArgStream.param ArgStream.push_tool_event
    ArgStream.push_tool_events Stop.longest Stop.new Stop.contains Stop.check_token Stop.improve
    Stop.best_match Stop.find_match Stop.record_match Stop.push_text Stop.safe_len Stop.close
    Stop.finish Stop.visible_text StreamDecode.new StreamDecode.ends_with StreamDecode.sync_emission
    StreamDecode.retreat StreamDecode.emit StreamDecode.take_delta StreamDecode.push
    StreamDecode.finish StreamDecode.token_count Step.text_literal Step.text_tag Step.text_open
    Step.text_at Step.step_text Step.function_stray Step.function_tag Step.function_open
    Step.function_at Step.step_function Step.param_literal Step.param_end Step.param_open_at
    Step.param_at Step.step_param Step.cdata_cut Step.cdata_at Step.step_cdata Step.step_in
    Step.step Step.run Step.push Step.flush_param Step.flush Step.close_open Step.finish
    ToolCall.digits ToolCall.call_id ToolCall.emit_param_value ToolCall.emit_param_if
    ToolCall.close_param ToolCall.finalize_call ToolCall.close_function Tag.has_gt Tag.viable_prefix
    Tag.end_of Tag.tag_len Tag.white_len Tag.words Tag.replace_from Tag.decode_attr Tag.strip_prefix
    Tag.strip_suffix Tag.single_quoted Tag.double_quoted Tag.attr_of Tag.first_attr Tag.tag_body
    Tag.parse_tag Bytes.is_char_boundary Bytes.slice_from Bytes.slice Bytes.starts_with Bytes.find
    Bytes.floor_char_boundary is_some got
ran_well = (refl, refl)

-- the deltas are `Hi`, which is what stands before the stop string
ran_text : (joined_content ran_to.0.0.sent ≡ codes "Hi") × (call_starts ran_to.0.0.sent ≡ [])
unfolding joined_content call_starts describe start is_live after_text emit_one emit_pending
    forward_tool_text forward_to on_text on_fragment on_token on_event receive flush_text flush_stop
    flush_end flush_calls flush_live flush finish_reason_of usage_of last_emission conclude
    run_generation ArgStream.new ArgStream.begin_call ArgStream.trim_start ArgStream.trim_end
    ArgStream.same_bytes ArgStream.continues ArgStream.close_value ArgStream.end_call
    ArgStream.json_text ArgStream.escape_json_fragment ArgStream.param ArgStream.push_tool_event
    ArgStream.push_tool_events Stop.longest Stop.new Stop.contains Stop.check_token Stop.improve
    Stop.best_match Stop.find_match Stop.record_match Stop.push_text Stop.safe_len Stop.close
    Stop.finish Stop.visible_text StreamDecode.new StreamDecode.ends_with StreamDecode.sync_emission
    StreamDecode.retreat StreamDecode.emit StreamDecode.take_delta StreamDecode.push
    StreamDecode.finish StreamDecode.token_count Step.text_literal Step.text_tag Step.text_open
    Step.text_at Step.step_text Step.function_stray Step.function_tag Step.function_open
    Step.function_at Step.step_function Step.param_literal Step.param_end Step.param_open_at
    Step.param_at Step.step_param Step.cdata_cut Step.cdata_at Step.step_cdata Step.step_in
    Step.step Step.run Step.push Step.flush_param Step.flush Step.close_open Step.finish
    ToolCall.digits ToolCall.call_id ToolCall.emit_param_value ToolCall.emit_param_if
    ToolCall.close_param ToolCall.finalize_call ToolCall.close_function Tag.has_gt Tag.viable_prefix
    Tag.end_of Tag.tag_len Tag.white_len Tag.words Tag.replace_from Tag.decode_attr Tag.strip_prefix
    Tag.strip_suffix Tag.single_quoted Tag.double_quoted Tag.attr_of Tag.first_attr Tag.tag_body
    Tag.parse_tag Bytes.is_char_boundary Bytes.slice_from Bytes.slice Bytes.starts_with Bytes.find
    Bytes.floor_char_boundary is_some got
ran_text = (refl, refl)

stops-AllFilled : AllFilled stops
stops-AllFilled = ((λ z. cc), tt)

run_generation-content_example :
    (t : Bytes) × Decoded ascii_route ascii ascii-Stable refl stops (received rx) t
    × (ran_to.0.1.content ≡ take (visible_end stops t) t)
run_generation-content_example =
    run_generation-content ascii_route ascii ascii-Stable refl stops rx 5 0 ran_to.0.0 ran_to.0.1
      stops-AllFilled ran_to.1 ran_well.0 ran_well.1

run_generation-joined_content_example : joined_content ran_to.0.0.sent ≡ ran_to.0.1.content
run_generation-joined_content_example =
    run_generation-joined_content ascii_route (λ w em. refl) rx stops 5 0 ran_to.0.0 ran_to.0.1
      stops-AllFilled ran_to.1 ran_well.0 ran_well.1 ran_text.1

abbrev tool_answer : List Emission
tool_answer =
    Emission.content (codes "Hi")
    ∷ Emission.tool_start 0 (codes "call_0") (codes "f")
    ∷ Emission.tool_args 0 (codes "{}")
    ∷ Emission.content (codes "so")
    ∷ []

abbrev five_four : Usage
five_four = record { prompt_tokens = 5; completion_tokens = 4 }

tool_answer-deltas : all_deltas tool_answer ≡ true
unfolding all_deltas is_delta
tool_answer-deltas = refl

tool_answer-Rising : Rising 0 tool_answer
unfolding Rising
tool_answer-Rising = (omega arith, tt)

render_all-Over_example :
    let e = Anthropic.new (codes "msg_1") (codes "cpm") 5 in
    let ems = Emission.role ∷ tool_answer ++ (Emission.final (codes "stop") five_four ∷ []) in
    (d : Client) × (follow idle_client (render_all e ems).1 ≡ some d)
    × (d.phase ≡ Phase.over)
    × (d.open_blocks ≡ [])
render_all-Over_example =
    render_all-Over (codes "msg_1") (codes "cpm") 5 tool_answer (codes "stop") five_four
      tool_answer-deltas tool_answer-Rising

-- ids are numbered
abbrev count_ids : ℕ → Bytes → Bytes × ℕ
count_ids n prefix = (prefix ++ (48 + n) ∷ [], n + 1)

abbrev whole_answer : List Emission
whole_answer = Emission.role ∷ tool_answer ++ (Emission.final (codes "stop") five_four ∷ [])

abbrev responder : Responses.ResponsesSseEncoder ℕ
responder = Responses.new (codes "resp_1") (codes "cpm") 0 0

render_all-Ends_example :
    Ends count_ids
      (joined_content tool_answer)
      five_four
      (Responses.render_all count_ids responder whole_answer).1
render_all-Ends_example =
    render_all-Ends count_ids (codes "resp_1") (codes "cpm") 0 0 tool_answer (codes "stop")
      five_four tool_answer-deltas

few_events :
    responder.sequence_number + length (Responses.render_all count_ids responder whole_answer).1
    < u64_mod
unfolding Responses.item_json Responses.open_message_pos Responses.done_payloads
    Responses.close_calls Responses.all_done Responses.push_arguments Responses.number
    Responses.number_after Responses.new Responses.close_open_message Responses.close_open_tools
    Responses.open_message Responses.add_text Responses.ensure_message Responses.render_content
    Responses.render_tool_start Responses.render_tool_args Responses.never_empty
    Responses.render_final Responses.events Responses.render Responses.render_all
few_events = ground arith

numbers-render_all_example :
    let evs = (Responses.render_all count_ids responder whole_answer).1 in
    numbers evs ≡ count_from responder.sequence_number (length evs)
numbers-render_all_example = numbers-render_all count_ids responder whole_answer few_events

run_generation-call_starts_example : (n : ℕ) × (call_starts ran_to.0.0.sent ≡ count_from 0 n)
run_generation-call_starts_example =
    run_generation-call_starts ascii_route (λ w em. refl) rx stops 5 0 ran_to.0.0 ran_to.0.1
      ran_to.1 ran_well.1

run_generation-Over_example :
    let e = Anthropic.new (codes "msg_1") (codes "cpm") 5 in
    (d : Client) × (follow idle_client (render_all e ran_to.0.0.sent).1 ≡ some d)
    × (d.phase ≡ Phase.over)
    × (d.open_blocks ≡ [])
run_generation-Over_example =
    run_generation-Over ascii_route (λ w em. refl) rx stops 5 0 ran_to.0.0 ran_to.0.1
      (codes "msg_1") (codes "cpm") ran_to.1 ran_well.0 ran_well.1

abbrev chat_ctx : SseCtx
chat_ctx = record { id = codes "chatcmpl-1"; created = 7; model = codes "cpm" }

read-render_all_example :
    (read_content (Chat.render_all chat_ctx whole_answer) ≡ joined_content whole_answer)
    × (read_arguments (Chat.render_all chat_ctx whole_answer) ≡ joined_arguments whole_answer)
read-render_all_example = read-render_all chat_ctx whole_answer

run_generation-same_text_example :
    read_content (Chat.render_all chat_ctx ran_to.0.0.sent)
    ≡ text_of (
        content_in
          (codes "message")
          (non_stream_json ran_to.0.1 (codes "chatcmpl-1") 7 (codes "cpm")))
run_generation-same_text_example =
    run_generation-same_text ascii_route (λ w em. refl) rx stops 5 0 ran_to.0.0 ran_to.0.1 chat_ctx
      stops-AllFilled ran_to.1 ran_well.0 ran_well.1 ran_text.1

run_generation-same_output_example :
    Ends count_ids
      (output_text
        (Output.non_stream_json count_ids 0 ran_to.0.1 (codes "resp_1") 0 (codes "cpm")).0.output)
      ran_to.0.1.usage
      (Responses.render_all count_ids responder ran_to.0.0.sent).1
run_generation-same_output_example =
    run_generation-same_output count_ids ascii_route (λ w em. refl) rx stops 5 0 ran_to.0.0
      ran_to.0.1 (codes "resp_1") (codes "cpm") 0 0 0 stops-AllFilled ran_to.1 ran_well.0 ran_well.1
      ran_text.1
