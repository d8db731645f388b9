-- ===== src/Server/Chat.antt =====
-- rust/minicpm-server/src/chat.rs: the frames of a streamed answer and the body of a whole one, as JSON
-- values with the members in the order of the source. A frame is the value after its `data: `; serde_json renders the text.
pub mod Same
use mini_cpm5_5080fast.Base.{ℕ, suc, Option, none, some, List, [], ◌∷◌}
use mini_cpm5_5080fast.Bytes.{Bytes}
use mini_cpm5_5080fast.Bytes.Text.{codes}
use mini_cpm5_5080fast.Usage.{Usage, total_tokens, as_str}
use mini_cpm5_5080fast.ToolCall.{ToolCall, digits}
use mini_cpm5_5080fast.Server.{Emission}
use mini_cpm5_5080fast.Server.Generation.{GenResult}
use mini_cpm5_5080fast.Server.Json.{
  Json, Elements, Members, null, number, string, array, object, nil, cons, end, member,
}

pub record SseCtx : Type 0 where
  pub id : Bytes
  pub created : ℕ
  pub model : Bytes

-- the JSON text of a number
abbrev pub decimal : ℕ → Bytes
decimal n = digits (suc n) n

-- an array of one value
abbrev pub one_of : Json → Json
one_of v = array (cons v nil)

unfoldable pub usage_json : Usage → Json
unfolding total_tokens
usage_json u = object (
    member (codes "prompt_tokens") (number (decimal u.prompt_tokens)) (
      member (codes "completion_tokens") (number (decimal u.completion_tokens))
        (member (codes "total_tokens") (number (decimal (total_tokens u))) end)))

-- `Option<&str>` in JSON
unfoldable pub reason_json : Option Bytes → Json
reason_json none = null
reason_json (some reason) = string reason

-- the member that `chunk` adds when there is a usage
unfoldable pub usage_member : Option Usage → Members
unfolding usage_json
usage_member none = end
usage_member (some u) = member (codes "usage") (usage_json u) end

unfoldable pub chunk : SseCtx → Json → Option Bytes → Option Usage → Json
unfolding reason_json usage_member
chunk ctx delta finish_reason usage = object (
    member (codes "id") (string ctx.id) (
      member (codes "object") (string (codes "chat.completion.chunk")) (
        member (codes "created") (number (decimal ctx.created)) (
          member (codes "model") (string ctx.model) (
            member (codes "choices")
              (one_of (
                object (
                  member (codes "index") (number (decimal 0)) (
                    member (codes "delta") delta
                      (member (codes "finish_reason") (reason_json finish_reason) end)))))
              (usage_member usage))))))

unfoldable pub render : SseCtx → Emission → Json
unfolding chunk
render ctx Emission.role =
    chunk ctx
      (object (
        member (codes "role") (string (codes "assistant"))
          (member (codes "content") (string []) end)))
      none none
render ctx (Emission.content t) =
    chunk ctx (object (member (codes "content") (string t) end)) none none
render ctx (Emission.tool_start index id name) =
    chunk ctx
      (object (
        member (codes "tool_calls")
          (one_of (
            object (
              member (codes "index") (number (decimal index)) (
                member (codes "id") (string id) (
                  member (codes "type") (string (codes "function")) (
                    member (codes "function")
                      (object (
                        member (codes "name") (string name)
                          (member (codes "arguments") (string []) end)))
                      end))))))
          end))
      none none
render ctx (Emission.tool_args index chunk_text) =
    chunk ctx
      (object (
        member (codes "tool_calls")
          (one_of (
            object (
              member (codes "index") (number (decimal index)) (
                member (codes "function")
                  (object (member (codes "arguments") (string chunk_text) end)) end))))
          end))
      none none
render ctx (Emission.final reason usage) = chunk ctx (object end) (some reason) (some usage)
render ctx (Emission.error msg) = object (
    member (codes "error")
      (object (
        member (codes "message") (string msg)
          (member (codes "type") (string (codes "server_error")) end)))
      end)

unfoldable pub render_all : SseCtx → List Emission → List Json
unfolding render
render_all ctx [] = []
render_all ctx (em ∷ ems) = render ctx em ∷ render_all ctx ems

unfoldable pub call_json : ToolCall → Json
call_json call = object (
    member (codes "id") (string call.id) (
      member (codes "type") (string (codes "function")) (
        member (codes "function")
          (object (
            member (codes "name") (string call.name)
              (member (codes "arguments") (string call.arguments) end)))
          end)))

unfoldable pub calls_json : List ToolCall → Elements
unfolding call_json
calls_json [] = nil
calls_json (call ∷ calls) = cons (call_json call) (calls_json calls)

-- the member that a message has when there are calls
unfoldable pub calls_member : List ToolCall → Members
unfolding calls_json call_json
calls_member [] = end
calls_member (call ∷ calls) =
    member (codes "tool_calls") (array (cons (call_json call) (calls_json calls))) end

-- the body of the response, whose status is 200
unfoldable pub non_stream_json : GenResult → Bytes → ℕ → Bytes → Json
unfolding calls_member usage_json as_str
non_stream_json result chunk_id created model = object (
    member (codes "id") (string chunk_id) (
      member (codes "object") (string (codes "chat.completion")) (
        member (codes "created") (number (decimal created)) (
          member (codes "model") (string model) (
            member (codes "choices")
              (one_of (
                object (
                  member (codes "index") (number (decimal 0)) (
                    member (codes "message")
                      (object (
                        member (codes "role") (string (codes "assistant")) (
                          member (codes "content") (string result.content)
                            (calls_member result.tool_calls))))
                      (member (codes "finish_reason") (string (as_str result.finish_reason))
                        end)))))
              (member (codes "usage") (usage_json result.usage) end))))))
