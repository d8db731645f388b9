-- ===== src/Server/Responses/Output.antt =====
-- rust/minicpm-server/src/responses.rs: the whole response, which is not streamed.
use mini_cpm5_5080fast.Base.{ℕ, Option, none, some, List, [], ◌∷◌, ◌++◌}
use mini_cpm5_5080fast.Bytes.{Bytes}
use mini_cpm5_5080fast.Bytes.Text.{codes}
use mini_cpm5_5080fast.Usage.{FinishReason, Usage, total_tokens}
use mini_cpm5_5080fast.ToolCall.{ToolCall}
use mini_cpm5_5080fast.Server.Generation.{GenResult}
use mini_cpm5_5080fast.Server.Responses.{ItemJson}

-- the usage of a response
pub record UsageJson : Type 0 where
  pub input_tokens : ℕ
  pub output_tokens : ℕ
  pub total : ℕ

unfoldable pub responses_usage_json : Usage → UsageJson
unfolding total_tokens
responses_usage_json u = record {
  input_tokens = u.prompt_tokens;
  output_tokens = u.completion_tokens;
  total = total_tokens u;
}

-- The body of a response; `incomplete_details` is the reason that is given.
pub record Body : Type 0 where
  pub id : Bytes
  pub created_at : ℕ
  pub status : Bytes
  pub incomplete_details : Option Bytes
  pub model : Bytes
  pub output : List ItemJson
  pub usage : UsageJson

unfoldable pub status_of : FinishReason → Bytes × Option Bytes
status_of FinishReason.length = (codes "incomplete", some (codes "max_output_tokens"))
status_of FinishReason.stop = (codes "completed", none)
status_of FinishReason.cancelled = (codes "completed", none)
status_of FinishReason.error = (codes "completed", none)

module _ {W : Type 0} (mint : W → Bytes → Bytes × W) where
  unfoldable pub message_item : W → Bytes → ItemJson × W
  message_item w text = let (id, v) = mint w (codes "msg") in (ItemJson.message_json id text, v)

  unfoldable pub function_call_item : W → ToolCall → ItemJson × W
  function_call_item w call =
      let (id, v) = mint w (codes "fc") in
      (ItemJson.function_call_json id call.id call.name call.arguments, v)

  -- the message that comes first, if there is text
  unfoldable pub text_items : W → Bytes → List ItemJson × W
  unfolding message_item
  text_items w [] = ([], w)
  text_items w (b ∷ bs) = let (it, v) = message_item w (b ∷ bs) in (it ∷ [], v)

  unfoldable pub call_items : W → List ToolCall → List ItemJson × W
  unfolding function_call_item
  call_items w [] = ([], w)
  call_items w (call ∷ calls) =
      let (it, v) = function_call_item w call in let (its, u) = call_items v calls in (it ∷ its, u)

  -- an answer without items is one empty message
  unfoldable pub or_empty : List ItemJson → W → List ItemJson × W
  unfolding message_item
  or_empty [] w = let (it, v) = message_item w [] in (it ∷ [], v)
  or_empty (it ∷ its) w = (it ∷ its, w)

  unfoldable pub output_of : W → GenResult → List ItemJson × W
  unfolding text_items call_items or_empty
  output_of w result =
      let (said, v) = text_items w result.content in
      let (called, u) = call_items v result.tool_calls in or_empty (said ++ called) u

  unfoldable pub non_stream_json : W → GenResult → Bytes → ℕ → Bytes → Body × W
  unfolding output_of status_of responses_usage_json
  non_stream_json w result resp_id created model =
      let (status, incomplete_details) = status_of result.finish_reason in
      let (output, v) = output_of w result in
      (
        record {
          id = resp_id;
          created_at = created;
          status = status;
          incomplete_details = incomplete_details;
          model = model;
          output = output;
          usage = responses_usage_json result.usage;
        },
        v,
      )
