-- ===== src/Server/Anthropic/Request.antt =====
-- rust/minicpm-server/src/anthropic.rs: the translation of a request's messages into chat messages. A chat
-- message is a constructor with the fields that its JSON has.
use mini_cpm5_5080fast.Base.{
  Bool, true, false, not, ◌||◌, Option, none, some, List, [], ◌∷◌, ◌++◌, if◌then◌else◌, ◌>>=◌,
}
use mini_cpm5_5080fast.Bytes.{Bytes}
use mini_cpm5_5080fast.Bytes.Text.{codes}
use mini_cpm5_5080fast.ToolCall.{nonempty}
use mini_cpm5_5080fast.Server.ArgStream.{same_bytes}
use mini_cpm5_5080fast.Server.Json.{
  Json, null, bool, number, string, array, object, end, member, Members, nil, cons, Elements,
  to_list, get, as_str, is_object,
}

pub record Call : Type 0 where
  pub id : Bytes
  pub name : Bytes
  pub arguments : Json

pub data Message : Type 0 where
  plain : Bytes → Bytes → Message
  tool : Bytes → Bytes → Message
  with_calls : Option Bytes → List Call → Message

-- `texts.join("\n")`
unfoldable pub join : List Bytes → Bytes
join [] = []
join (t ∷ []) = t
join (t ∷ u ∷ ts) = t ++ (10 ∷ join (u ∷ ts))

-- `v.get(key).and_then(Value::as_str)`
unfoldable pub get_str : Json → Bytes → Option Bytes
unfolding get as_str
get_str v key = get v key >>= as_str

abbrev pub or_empty : Option Bytes → Bytes
or_empty (some s) = s
or_empty none = []

-- `b.get("type").and_then(Value::as_str) == Some(kind)`
unfoldable pub has_type : Bytes → Json → Bool
unfolding get_str same_bytes
has_type kind block = elim (get_str block (codes "type")) [
  | some t ↦ same_bytes t kind
  | none ↦ false
]

abbrev pub opt_text : Option Bytes → List Bytes
opt_text (some t) = t ∷ []
opt_text none = []

-- the texts of the text blocks
unfoldable pub text_blocks : List Json → List Bytes
unfolding has_type get_str
text_blocks [] = []
text_blocks (b ∷ bs) =
    let rest = text_blocks bs in
    if has_type (codes "text") b then opt_text (get_str b (codes "text")) ++ rest else rest

unfoldable pub blocks_text : Json → Bytes
unfolding text_blocks join
blocks_text (string s) = s
blocks_text (array vs) = join (text_blocks (to_list vs))
blocks_text null = []
blocks_text (bool b) = []
blocks_text (number n) = []
blocks_text (object ms) = []

unfoldable pub system_message : Option Json → Option Message
unfolding blocks_text
system_message none = none
system_message (some system) =
    let text = blocks_text system in
    if nonempty text then some (Message.plain (codes "system") text) else none

unfoldable pub tool_result : Json → Message
unfolding get_str get blocks_text
tool_result block =
    Message.tool (or_empty (get_str block (codes "tool_use_id")))
      (elim (get block (codes "content")) [ some content ↦ blocks_text content | none ↦ [] ])

-- the tool messages of a user turn
unfoldable pub tool_results : List Json → List Message
unfolding has_type tool_result
tool_results [] = []
tool_results (b ∷ bs) =
    let rest = tool_results bs in
    if has_type (codes "tool_result") b then tool_result b ∷ rest else rest

-- what a turn's content gives: one text, or the blocks of an array
unfoldable pub turn_texts : Json → List Bytes
unfolding text_blocks
turn_texts (string s) = s ∷ []
turn_texts (array vs) = text_blocks (to_list vs)
turn_texts null = []
turn_texts (bool b) = []
turn_texts (number n) = []
turn_texts (object ms) = []

abbrev pub turn_blocks : Json → List Json
turn_blocks (array vs) = to_list vs
turn_blocks null = []
turn_blocks (bool b) = []
turn_blocks (number n) = []
turn_blocks (string s) = []
turn_blocks (object ms) = []

unfoldable pub content_of : Json → Json
unfolding get
content_of msg = elim (get msg (codes "content")) [ some content ↦ content | none ↦ null ]

abbrev pub or_user : Option Bytes → Bytes
or_user (some r) = r
or_user none = codes "user"

abbrev pub any : List Message → Bool
any [] = false
any (m ∷ ms) = true

unfoldable pub convert_user_message : Json → List Message
unfolding get_str content_of tool_results turn_texts join
convert_user_message msg =
    let role = or_user (get_str msg (codes "role")) in
    let content = content_of msg in
    let results = tool_results (turn_blocks content) in
    let text = join (turn_texts content) in
    results ++ (if nonempty text || not (any results) then Message.plain role text ∷ [] else [])

unfoldable pub tool_call : Json → Call
unfolding get get_str is_object
tool_call block = record {
  id = or_empty (get_str block (codes "id"));
  name = or_empty (get_str block (codes "name"));
  arguments = elim (get block (codes "input")) [
    | some v ↦ if is_object v then v else object end
    | none ↦ object end
  ];
}

unfoldable pub tool_calls : List Json → List Call
unfolding has_type tool_call
tool_calls [] = []
tool_calls (b ∷ bs) =
    let rest = tool_calls bs in if has_type (codes "tool_use") b then tool_call b ∷ rest else rest

unfoldable pub assistant_message : List Bytes → List Call → Message
unfolding join
assistant_message texts [] = Message.plain (codes "assistant") (join texts)
assistant_message [] (c ∷ cs) = Message.with_calls none (c ∷ cs)
assistant_message (t ∷ ts) (c ∷ cs) = Message.with_calls (some (join (t ∷ ts))) (c ∷ cs)

unfoldable pub convert_assistant_message : Json → List Message
unfolding content_of turn_texts tool_calls assistant_message
convert_assistant_message msg =
    let content = content_of msg in
    assistant_message (turn_texts content) (tool_calls (turn_blocks content)) ∷ []

-- `msg.get("role").and_then(Value::as_str) == Some("assistant")`
unfoldable pub is_assistant : Json → Bool
unfolding get_str same_bytes
is_assistant msg = elim (get_str msg (codes "role")) [
  | some r ↦ same_bytes r (codes "assistant")
  | none ↦ false
]

unfoldable pub convert_messages : List Json → List Message
unfolding is_assistant convert_user_message convert_assistant_message
convert_messages [] = []
convert_messages (msg ∷ msgs) =
    (if is_assistant msg then convert_assistant_message msg else convert_user_message msg)
    ++ convert_messages msgs

abbrev pub type_function : Members → Members
type_function ms = member (codes "type") (string (codes "function")) ms

-- `function.insert(to, v)`, when the tool has the member `from`; the members stay in the order of insertion
abbrev pub copied : Bytes → Option Json → Members → Members
copied to none ms = ms
copied to (some v) ms = member to v ms

unfoldable pub convert_tool : Json → Json
unfolding get
convert_tool t =
    let function = copied (codes "name") (get t (codes "name")) (
      copied (codes "description") (get t (codes "description"))
        (copied (codes "parameters") (get t (codes "input_schema")) end)) in
    object (type_function (member (codes "function") (object function) end))

unfoldable pub convert_tools : List Json → Elements
unfolding convert_tool
convert_tools [] = nil
convert_tools (t ∷ ts) = cons (convert_tool t) (convert_tools ts)

abbrev pub or_null : Option Json → Json
or_null (some v) = v
or_null none = null

unfoldable pub convert_tool_choice : Json → Json
unfolding has_type get
convert_tool_choice choice =
    if has_type (codes "any") choice
    then string (codes "required")
    else if has_type (codes "none") choice
    then string (codes "none")
    else if has_type (codes "tool") choice
    then object (
        type_function (
          member (codes "function")
            (object (member (codes "name") (or_null (get choice (codes "name"))) end)) end))
    else string (codes "auto")
