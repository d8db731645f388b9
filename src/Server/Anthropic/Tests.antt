-- ===== src/Server/Anthropic/Tests.antt =====
-- A concrete conversation for the theorem on its translation.
use mini_cpm5_5080fast.Base.{◌≡◌, refl, List, [], ◌∷◌}
use mini_cpm5_5080fast.Bytes.Text.{codes}
use mini_cpm5_5080fast.Server.Json.{
  Json, string, array, object, nil, cons, end, member, get, get_member, as_str,
}
use mini_cpm5_5080fast.Server.ArgStream.{same_bytes}
use mini_cpm5_5080fast.Server.Anthropic.Request.{
  convert_messages, has_type, get_str, is_assistant, content_of, convert_user_message,
  convert_assistant_message, assistant_message, tool_results, tool_result, tool_calls, tool_call,
  turn_texts, blocks_text, text_blocks, join,
}
use mini_cpm5_5080fast.Server.Anthropic.Turns.{
  Kept, said, answered, called, uses, spoken, convert_messages-Kept,
}

abbrev tool_result_block : Json
tool_result_block = object (
    member (codes "type") (string (codes "tool_result")) (
      member (codes "tool_use_id") (string (codes "t1"))
        (member (codes "content") (string (codes "sunny")) end)))

abbrev tool_use_block : Json
tool_use_block = object (
    member (codes "type") (string (codes "tool_use")) (
      member (codes "id") (string (codes "t1"))
        (member (codes "name") (string (codes "weather")) end)))

abbrev turn : Json → Json → Json
turn role content = object (member (codes "role") role (member (codes "content") content end))

abbrev conversation : List Json
conversation =
    turn (string (codes "user")) (string (codes "weather?"))
    ∷ turn (string (codes "assistant")) (array (cons tool_use_block nil))
    ∷ turn (string (codes "user")) (array (cons tool_result_block nil))
    ∷ []

convert_messages-Kept_example : Kept conversation (convert_messages conversation)
convert_messages-Kept_example = convert_messages-Kept conversation

told_test :
    (said (convert_messages conversation) ≡ (codes "user", codes "weather?") ∷ [])
    × (answered (convert_messages conversation) ≡ (codes "t1", codes "sunny") ∷ [])
    × (called (convert_messages conversation) ≡ (codes "t1", codes "weather", object end) ∷ [])
unfolding said answered called uses spoken convert_messages convert_user_message
    convert_assistant_message assistant_message tool_results tool_result tool_calls tool_call
    turn_texts blocks_text text_blocks join has_type get_str is_assistant content_of get get_member
    as_str same_bytes
told_test = (refl, refl, refl)
