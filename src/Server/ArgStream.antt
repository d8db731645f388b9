-- ===== src/Server/ArgStream.antt =====
-- rust/minicpm-server/src/chat.rs: `ToolArgStream`, which writes the JSON text of a call's arguments in
-- fragments while they stream in. `serde_json::to_string` of a text is a parameter.
use mini_cpm5_5080fast.Base.{
  ℕ, ◌+◌, Bool, true, false, not, ◌&&◌, ◌||◌, Option, none, some, List, [], ◌∷◌, ◌++◌, ◌==◌,
  if◌then◌else◌,
}
use mini_cpm5_5080fast.Bytes.{Bytes}
use mini_cpm5_5080fast.Bytes.Text.{codes}
use mini_cpm5_5080fast.ToolCall.{ToolCallEvent, call_id, nonempty}
use mini_cpm5_5080fast.Server.{Emission}

pub record ToolArgStream : Type 0 where
  pub index : ℕ
  pub next_index : ℕ
  pub is_open : Bool
  pub cur_param : Option Bytes

unfoldable pub new : ToolArgStream
new = record { index = 0; next_index = 0; is_open = false; cur_param = none }

unfoldable pub begin_call : ToolArgStream → ℕ → ToolArgStream
begin_call a i = record { index = i; next_index = i + 1; is_open = false; cur_param = none }

abbrev pub quote : Bytes
quote = 34 ∷ []

-- `trim_matches('"')`: quotes go from the start and from the end.
unfoldable pub trim_start : Bytes → Bytes
trim_start [] = []
trim_start (b ∷ s) = let rest = trim_start s in if b == 34 then rest else b ∷ s

unfoldable pub trim_end : Bytes → Bytes
trim_end [] = []
trim_end (b ∷ s) = let rest = trim_end s in if nonempty rest || not (b == 34) then b ∷ rest else []

-- `==` of texts
unfoldable pub same_bytes : Bytes → Bytes → Bool
same_bytes [] [] = true
same_bytes [] (c ∷ t) = false
same_bytes (b ∷ s) [] = false
same_bytes (b ∷ s) (c ∷ t) = b == c && same_bytes s t

-- `self.cur_param.as_deref() == Some(name)`
unfoldable pub continues : Option Bytes → Bytes → Bool
unfolding same_bytes
continues none name = false
continues (some cur) name = same_bytes cur name

-- the quote that closes the value before, if there is one
unfoldable pub close_value : Option Bytes → List Bytes
close_value none = []
close_value (some cur) = quote ∷ []

unfoldable pub end_call : ToolArgStream → ToolArgStream × List Bytes
unfolding close_value
end_call a = (
  record a { is_open = false; cur_param = none },
  close_value a.cur_param ++ ((if a.is_open then codes "}" else codes "{}") ∷ []),
)

abbrev pub args_of : ℕ → List Bytes → List Emission
args_of i [] = []
args_of i (chunk ∷ chunks) = Emission.tool_args i chunk ∷ args_of i chunks

module _ (to_json : Bytes → Option Bytes) where
  unfoldable pub json_text : Bytes → Bytes
  json_text s = elim (to_json s) [ some quoted ↦ quoted | none ↦ quote ++ quote ]

  unfoldable pub escape_json_fragment : Bytes → Bytes
  unfolding json_text
  escape_json_fragment s = trim_end (trim_start (json_text s))

  unfoldable pub param : ToolArgStream → Bytes → Bytes → ToolArgStream × List Bytes
  unfolding continues close_value
  param a name value =
      if continues a.cur_param name then (a, escape_json_fragment value ∷ []) else (
        record a { is_open = true; cur_param = some name },
        close_value a.cur_param
            ++ ((if a.is_open then codes "," else codes "{")
                ∷ (quote ++ (escape_json_fragment name ++ codes "\":"))
                ∷ quote
                ∷ escape_json_fragment value
                ∷ []),
      )

  unfoldable pub push_tool_event : ToolArgStream → ToolCallEvent → ToolArgStream × List Emission
  unfolding begin_call param end_call
  push_tool_event a (ToolCallEvent.text t) = (a, Emission.content t ∷ [])
  push_tool_event a (ToolCallEvent.tool_call_start name) =
      let i = a.next_index in (begin_call a i, Emission.tool_start i (call_id i) name ∷ [])
  push_tool_event a (ToolCallEvent.param_value name value) =
      let (a', chunks) = param a name value in (a', args_of a'.index chunks)
  push_tool_event a (ToolCallEvent.tool_call_end call) =
      let (a', chunks) = end_call a in (a', args_of a'.index chunks)

  -- the loop over the events of one chunk, with its `pending`
  unfoldable pub push_tool_events :
      ToolArgStream → List ToolCallEvent → ToolArgStream × List Emission
  unfolding push_tool_event
  push_tool_events a [] = (a, [])
  push_tool_events a (ev ∷ evs) =
      let (a', out) = push_tool_event a ev in
      let (b, rest) = push_tool_events a' evs in (b, out ++ rest)
