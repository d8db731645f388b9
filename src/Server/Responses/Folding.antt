-- ===== src/Server/Responses/Folding.antt =====
-- The parts of an input in its chat messages: each is there, in order, and calls in a row are in one message.
use mini_cpm5_5080fast.Base.{
  ◌≡◌, Bool, true, false, ◌&&◌, Option, none, some, List, [], ◌∷◌, ◌++◌, if◌then◌else◌,
}
use mini_cpm5_5080fast.Bytes.{Bytes}
use mini_cpm5_5080fast.Bytes.Text.{codes}
use mini_cpm5_5080fast.Server.Json.{
  Json, null, bool, number, string, array, object, to_list, as_str, get,
}
use mini_cpm5_5080fast.Server.Anthropic.Request.{Call, has_type, get_str, or_empty, or_user}
use mini_cpm5_5080fast.Server.Anthropic.Turns.{object_or_empty}
use mini_cpm5_5080fast.Server.Responses.Input.{ChatMessage, role_of, content_at}

-- A part of a conversation: a role with a text, the output of a call, or a call with its arguments.
pub data Part : Type 0 where
  text : Bytes → Bytes → Part
  output : Bytes → Bytes → Part
  call : Bytes → Bytes → Json → Part

unfoldable pub call_parts : List Call → List Part
call_parts [] = []
call_parts (c ∷ cs) = Part.call c.id c.name c.arguments ∷ call_parts cs

unfoldable pub parts : List ChatMessage → List Part
unfolding call_parts
parts [] = []
parts (ChatMessage.plain role t ∷ ms) = Part.text role t ∷ parts ms
parts (ChatMessage.tool id t ∷ ms) = Part.output id t ∷ parts ms
parts (ChatMessage.calls cs ∷ ms) = call_parts cs ++ parts ms

unfoldable pub holds_calls : ChatMessage → Bool
holds_calls (ChatMessage.plain role t) = false
holds_calls (ChatMessage.tool id t) = false
holds_calls (ChatMessage.calls cs) = true

-- no two messages in a row hold calls
unfoldable pub Folded : List ChatMessage → Type 0
unfolding holds_calls
Folded [] = Unit
Folded (m ∷ []) = Unit
Folded (m ∷ n ∷ ms) = ((holds_calls m && holds_calls n) ≡ false) × Folded (n ∷ ms)

-- an empty text is no part
unfoldable pub text_part : Bytes → Bytes → List Part
text_part role [] = []
text_part role (b ∷ bs) = Part.text role (b ∷ bs) ∷ []

-- the id of a call: its `call_id`, or its `id` if there is none
abbrev pub id_of : Json → Option Json → Bytes
id_of item (some v) = or_empty (as_str v)
id_of item none = or_empty (get_str item (codes "id"))

module _ (from_str : Bytes → Option Json) where
  -- the call that an item is, with the object that the text of its arguments has, or an empty one
  abbrev pub call_in : Json → Part
  call_in item =
      Part.call (id_of item (get item (codes "call_id"))) (or_empty (get_str item (codes "name")))
        (object_or_empty (from_str (or_empty (get_str item (codes "arguments")))))

  -- the parts of an item that is not a text, by its type
  unfoldable pub typed_parts : Json → List Part
  typed_parts item =
      if has_type (codes "message") item
      then Part.text (role_of (or_user (get_str item (codes "role"))))
          (content_at (get item (codes "content")))
        ∷ []
      else if has_type (codes "function_call") item
      then call_in item ∷ []
      else if has_type (codes "function_call_output") item
      then Part.output (or_empty (get_str item (codes "call_id")))
          (content_at (get item (codes "output")))
        ∷ []
      else []

  unfoldable pub item_parts : Json → List Part
  unfolding text_part typed_parts
  item_parts (string t) = text_part (codes "user") t
  item_parts null = typed_parts null
  item_parts (bool b) = typed_parts (bool b)
  item_parts (number n) = typed_parts (number n)
  item_parts (array vs) = typed_parts (array vs)
  item_parts (object ms) = typed_parts (object ms)

  unfoldable pub all_parts : List Json → List Part
  unfolding item_parts
  all_parts [] = []
  all_parts (item ∷ items) = item_parts item ++ all_parts items

  -- an input is one text or items
  unfoldable pub input_parts : Json → List Part
  unfolding text_part all_parts
  input_parts (string t) = text_part (codes "user") t
  input_parts (array vs) = all_parts (to_list vs)
  input_parts null = []
  input_parts (bool b) = []
  input_parts (number n) = []
  input_parts (object ms) = []

unfoldable pub instruction_parts : Option Bytes → List Part
unfolding text_part
instruction_parts none = []
instruction_parts (some t) = text_part (codes "system") t

-- one item more: still folded, and its parts at the end
abbrev Grown : List ChatMessage → List Part → List ChatMessage → Type 0
Grown ms ps out = Folded out × (parts out ≡ parts ms ++ ps)
