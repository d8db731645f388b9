-- ===== src/Server/Responses/Tests.antt =====
-- A concrete input for the theorem on its translation.
use mini_cpm5_5080fast.Base.{◌≡◌, refl, Option, none, [], ◌∷◌}
use mini_cpm5_5080fast.Bytes.{Bytes}
use mini_cpm5_5080fast.Bytes.Text.{codes}
use mini_cpm5_5080fast.Server.ArgStream.{same_bytes}
use mini_cpm5_5080fast.Server.Json.{
  Json, Elements, string, array, object, nil, cons, end, member, get, get_member, as_str,
}
use mini_cpm5_5080fast.Server.Anthropic.Request.{has_type, get_str}
use mini_cpm5_5080fast.Server.Responses.Input.{content_at}
use mini_cpm5_5080fast.Server.Responses.Folding.{
  Part, input_parts, all_parts, item_parts, typed_parts, text_part,
}

abbrev typed : Json → Json
typed kind = object (member (codes "type") kind (member (codes "call_id") (string (codes "c")) end))

-- two calls in a row, the result of one, and a text
abbrev items : Elements
items = cons (typed (string (codes "function_call"))) (
    cons (typed (string (codes "function_call")))
      (cons (typed (string (codes "function_call_output"))) (cons (string (codes "go on")) nil)))

abbrev unreadable : Bytes → Option Json
unreadable text = none

two_calls_test :
    input_parts unreadable (array items)
    ≡ Part.call (codes "c") [] (object end)
      ∷ Part.call (codes "c") [] (object end)
      ∷ Part.output (codes "c") []
      ∷ Part.text (codes "user") (codes "go on")
      ∷ []
unfolding content_at input_parts all_parts item_parts typed_parts text_part as_str has_type get_str
    get get_member same_bytes
two_calls_test = refl
