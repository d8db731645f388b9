-- ===== src/Server/Responses/Input.antt =====
-- rust/minicpm-server/src/responses.rs: the translation of the input of a request into chat messages. A chat
-- message is a constructor with the fields that its JSON has; what serde_json reads from the text of a call's
-- arguments is a parameter.
use mini_cpm5_5080fast.Base.{
  Bool, ◌||◌, Option, none, some, List, [], ◌∷◌, ◌++◌, if◌then◌else◌, ◌>>=◌,
}
use mini_cpm5_5080fast.Bytes.{Bytes}
use mini_cpm5_5080fast.Bytes.Text.{codes}
use mini_cpm5_5080fast.Server.ArgStream.{same_bytes}
use mini_cpm5_5080fast.Server.Json.{
  Json, null, bool, number, string, array, object, end, member, Elements, nil, cons, to_list, get,
  as_str, is_object,
}
use mini_cpm5_5080fast.Server.Anthropic.Request.{
  Call, get_str, has_type, or_empty, or_user, type_function, copied,
}

pub data ChatMessage : Type 0 where
  plain : Bytes → Bytes → ChatMessage
  tool : Bytes → Bytes → ChatMessage
  calls : List Call → ChatMessage

abbrev pub is_text_part : Json → Bool
is_text_part part =
    has_type (codes "input_text") part
    || has_type (codes "output_text") part
    || has_type (codes "text") part

-- `join("")` of the texts of the parts
unfoldable pub parts_text : List Json → Bytes
unfolding has_type get_str
parts_text [] = []
parts_text (p ∷ ps) =
    let rest = parts_text ps in
    if is_text_part p then or_empty (get_str p (codes "text")) ++ rest else rest

unfoldable pub content_text : Json → Bytes
unfolding parts_text
content_text (string s) = s
content_text (array vs) = parts_text (to_list vs)
content_text null = []
content_text (bool b) = []
content_text (number n) = []
content_text (object ms) = []

unfoldable pub content_at : Option Json → Bytes
unfolding content_text
content_at none = []
content_at (some v) = content_text v

unfoldable pub role_of : Bytes → Bytes
unfolding same_bytes
role_of role =
    if same_bytes role (codes "assistant")
    then codes "assistant"
    else if same_bytes role (codes "system") || same_bytes role (codes "developer")
    then codes "system"
    else codes "user"

-- The call goes to the last message, if that holds calls.
unfoldable pub push_tool_call : List ChatMessage → Call → List ChatMessage
push_tool_call [] c = ChatMessage.calls (c ∷ []) ∷ []
push_tool_call (ChatMessage.calls cs ∷ []) c = ChatMessage.calls (cs ++ c ∷ []) ∷ []
push_tool_call (ChatMessage.plain role text ∷ []) c =
    ChatMessage.plain role text ∷ ChatMessage.calls (c ∷ []) ∷ []
push_tool_call (ChatMessage.tool id text ∷ []) c =
    ChatMessage.tool id text ∷ ChatMessage.calls (c ∷ []) ∷ []
push_tool_call (m ∷ n ∷ ms) c = m ∷ push_tool_call (n ∷ ms) c

-- `item.get("call_id").or_else(|| item.get("id"))`
unfoldable pub id_member : Json → Option Json
unfolding get
id_member item = elim (get item (codes "call_id")) [
  | some v ↦ some v
  | none ↦ get item (codes "id")
]

abbrev pub user_text : Bytes → List ChatMessage
user_text [] = []
user_text (b ∷ bs) = ChatMessage.plain (codes "user") (b ∷ bs) ∷ []

abbrev pub system_text : Option Bytes → List ChatMessage
system_text none = []
system_text (some []) = []
system_text (some (b ∷ bs)) = ChatMessage.plain (codes "system") (b ∷ bs) ∷ []

module _ (from_str : Bytes → Option Json) where
  unfoldable pub parse_arguments_object : Bytes → Json
  unfolding is_object
  parse_arguments_object arguments = elim (from_str arguments) [
    | some v ↦ if is_object v then v else object end
    | none ↦ object end
  ]

  unfoldable pub call_of : Json → Call
  unfolding id_member get_str parse_arguments_object as_str
  call_of item = record {
    id = or_empty (id_member item >>= as_str);
    name = or_empty (get_str item (codes "name"));
    arguments = parse_arguments_object (or_empty (get_str item (codes "arguments")));
  }

  unfoldable pub append_typed_item : List ChatMessage → Json → List ChatMessage
  unfolding has_type get_str get role_of content_text push_tool_call call_of
  append_typed_item messages item =
      if has_type (codes "message") item
      then messages
        ++ ChatMessage.plain (role_of (or_user (get_str item (codes "role"))))
            (content_at (get item (codes "content")))
          ∷ []
      else if has_type (codes "function_call") item
      then push_tool_call messages (call_of item)
      else if has_type (codes "function_call_output") item
      then messages
        ++ ChatMessage.tool (or_empty (get_str item (codes "call_id")))
            (content_at (get item (codes "output")))
          ∷ []
      else messages

  unfoldable pub append_input_item : List ChatMessage → Json → List ChatMessage
  unfolding append_typed_item as_str
  append_input_item messages item = elim (as_str item) [
    | some text ↦ messages ++ user_text text
    | none ↦ append_typed_item messages item
  ]

  unfoldable pub append_all : List ChatMessage → List Json → List ChatMessage
  unfolding append_input_item
  append_all messages [] = messages
  append_all messages (item ∷ items) = append_all (append_input_item messages item) items

  unfoldable pub input_to_messages : Option Bytes → Json → List ChatMessage
  unfolding append_all
  input_to_messages instructions (string text) = system_text instructions ++ user_text text
  input_to_messages instructions (array vs) = append_all (system_text instructions) (to_list vs)
  input_to_messages instructions null = system_text instructions
  input_to_messages instructions (bool b) = system_text instructions
  input_to_messages instructions (number n) = system_text instructions
  input_to_messages instructions (object ms) = system_text instructions

-- one tool in the shape of the chat API, if it is a function with a name
unfoldable pub convert_tool : Json → Option Json
unfolding has_type get_str get
convert_tool t =
    if has_type (codes "function") t
    then (do
      name ← get_str t (codes "name")
      some (
          object (
            type_function (
              member (codes "function")
                (object (
                  member (codes "name") (string name) (
                    copied (codes "description") (get t (codes "description"))
                      (copied (codes "parameters") (get t (codes "parameters")) end))))
                end))))
    else none

abbrev pub opt_cons : Option Json → Elements → Elements
opt_cons none vs = vs
opt_cons (some v) vs = cons v vs

unfoldable pub converted : List Json → Elements
unfolding convert_tool
converted [] = nil
converted (t ∷ ts) = opt_cons (convert_tool t) (converted ts)

unfoldable pub convert_tools : List Json → Option Json
unfolding converted
convert_tools ts = elim (converted ts) [ nil ↦ none | cons v vs ↦ some (array (cons v vs)) ]

-- `"auto" | "none" | "required"`
unfoldable pub is_choice : Bytes → Bool
unfolding same_bytes
is_choice s =
    same_bytes s (codes "auto") || same_bytes s (codes "none") || same_bytes s (codes "required")

unfoldable pub convert_tool_choice : Json → Option Json
unfolding is_choice has_type get_str
convert_tool_choice (string s) = if is_choice s then some (string s) else none
convert_tool_choice (object ms) =
    if has_type (codes "function") (object ms)
    then (do
      name ← get_str (object ms) (codes "name")
      some (
          object (
            type_function
              (member (codes "function") (object (member (codes "name") (string name) end)) end))))
    else none
convert_tool_choice null = none
convert_tool_choice (bool b) = none
convert_tool_choice (number n) = none
convert_tool_choice (array vs) = none
