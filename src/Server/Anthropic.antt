-- ===== src/Server/Anthropic.antt =====
-- rust/minicpm-server/src/anthropic.rs: `AnthropicSseEncoder`, which turns the emissions of an answer
-- into the events of a message stream. An event is a constructor with the fields that its JSON has.
pub mod Blocks
pub mod Client
pub mod Protocol
pub mod Request
pub mod Turns
pub mod Whole
mod Tests
use mini_cpm5_5080fast.Base.{
  ℕ, zero, suc, ◌+◌, Bool, true, false, Option, none, some, List, [], ◌∷◌, ◌++◌, leb, length,
  get_elem?, if◌then◌else◌,
}
use mini_cpm5_5080fast.Bytes.{Bytes}
use mini_cpm5_5080fast.Bytes.Text.{codes}
use mini_cpm5_5080fast.Usage.{FinishReason, Usage}
use mini_cpm5_5080fast.ToolCall.{ToolCall}
use mini_cpm5_5080fast.Server.{Emission}
use mini_cpm5_5080fast.Server.ArgStream.{same_bytes}
use mini_cpm5_5080fast.Server.Generation.{GenResult}

pub data Frame : Type 0 where
  message_start : Bytes → Bytes → ℕ → Frame
  text_start : ℕ → Frame
  text_delta : ℕ → Bytes → Frame
  tool_use_start : ℕ → Bytes → Bytes → Frame
  input_json_delta : ℕ → Bytes → Frame
  content_block_stop : ℕ → Frame
  message_delta : Bytes → Usage → Frame
  message_stop : Frame
  api_error : Bytes → Frame

pub record AnthropicSseEncoder : Type 0 where
  pub id : Bytes
  pub model : Bytes
  pub prompt_len : ℕ
  pub text_block : Option ℕ
  pub next_block : ℕ
  pub tool_blocks : List (Option ℕ)
  pub saw_tool : Bool
  pub done : Bool

unfoldable pub new : Bytes → Bytes → ℕ → AnthropicSseEncoder
new id model prompt_len = record {
  id = id;
  model = model;
  prompt_len = prompt_len;
  text_block = none;
  next_block = 0;
  tool_blocks = [];
  saw_tool = false;
  done = false;
}

-- `Vec::resize` with `None`, and the assignment to a slot
unfoldable pub resize : List (Option ℕ) → ℕ → List (Option ℕ)
resize bs zero = []
resize [] (suc n) = none ∷ resize [] n
resize (b ∷ bs) (suc n) = b ∷ resize bs n

unfoldable pub set_at : List (Option ℕ) → ℕ → ℕ → List (Option ℕ)
set_at [] i block = []
set_at (b ∷ bs) zero block = some block ∷ bs
set_at (b ∷ bs) (suc i) block = b ∷ set_at bs i block

-- `filter_map(|b| *b)`
unfoldable pub somes : List (Option ℕ) → List ℕ
somes [] = []
somes (none ∷ bs) = somes bs
somes (some b ∷ bs) = b ∷ somes bs

-- `sort_unstable`
unfoldable pub insert : ℕ → List ℕ → List ℕ
insert x [] = x ∷ []
insert x (y ∷ ys) = let rest = insert x ys in if leb x y then x ∷ y ∷ ys else y ∷ rest

unfoldable pub sort_unstable : List ℕ → List ℕ
unfolding insert
sort_unstable [] = []
sort_unstable (x ∷ xs) = insert x (sort_unstable xs)

abbrev pub stop_all : List ℕ → List Frame
stop_all [] = []
stop_all (i ∷ is) = Frame.content_block_stop i ∷ stop_all is

abbrev pub opt_list : Option ℕ → List ℕ
opt_list none = []
opt_list (some i) = i ∷ []

abbrev pub Rendered : Type 0
Rendered = AnthropicSseEncoder × List Frame

unfoldable pub render_content : AnthropicSseEncoder → Bytes → Rendered
render_content e t = elim e.text_block [
  | some i ↦ (e, Frame.text_delta i t ∷ [])
  | none ↦
      let i = e.next_block in
      (
        record e { next_block = i + 1; text_block = some i },
        Frame.text_start i ∷ Frame.text_delta i t ∷ [],
      )
]

unfoldable pub render_tool_start : AnthropicSseEncoder → ℕ → Bytes → Bytes → Rendered
unfolding resize set_at
render_tool_start e index id name =
    let block = e.next_block in
    let blocks =
      if leb (length e.tool_blocks) index
      then resize e.tool_blocks (index + 1)
      else e.tool_blocks in
    (
      record e {
        text_block = none;
        next_block = block + 1;
        tool_blocks = set_at blocks index block;
        saw_tool = true;
      },
      stop_all (opt_list e.text_block) ++ (Frame.tool_use_start block id name ∷ []),
    )

-- `self.tool_blocks.get(*index).and_then(|b| *b)`
unfoldable pub args_frames : Option (Option ℕ) → Bytes → List Frame
args_frames (some (some block)) chunk = Frame.input_json_delta block chunk ∷ []
args_frames (some none) chunk = []
args_frames none chunk = []

abbrev pub max_tokens : Bytes
max_tokens = codes "max_tokens"

abbrev pub end_turn : Bytes
end_turn = codes "end_turn"

abbrev pub tool_use : Bytes
tool_use = codes "tool_use"

unfoldable pub stop_reason : Bool → Bytes → Bytes
unfolding same_bytes
stop_reason saw_tool reason =
    if saw_tool
    then tool_use
    else if same_bytes reason (codes "length")
    then max_tokens
    else end_turn

unfoldable pub render_final : AnthropicSseEncoder → Bytes → Usage → Rendered
unfolding somes sort_unstable stop_reason
render_final e reason usage =
    let open_blocks = somes e.tool_blocks ++ opt_list e.text_block in
    (
      record e { text_block = none; done = true },
      stop_all (sort_unstable open_blocks)
          ++ (Frame.message_delta (stop_reason e.saw_tool reason) usage ∷ Frame.message_stop ∷ []),
    )

unfoldable pub render_live : AnthropicSseEncoder → Emission → Rendered
unfolding render_content render_tool_start args_frames render_final
render_live e Emission.role = (e, Frame.message_start e.id e.model e.prompt_len ∷ [])
render_live e (Emission.content t) = render_content e t
render_live e (Emission.tool_start index id name) = render_tool_start e index id name
render_live e (Emission.tool_args index chunk) =
    (e, args_frames (get_elem? e.tool_blocks index) chunk)
render_live e (Emission.final reason usage) = render_final e reason usage
render_live e (Emission.error message) = (record e { done = true }, Frame.api_error message ∷ [])

unfoldable pub render : AnthropicSseEncoder → Emission → Rendered
unfolding render_live
render e em = if e.done then (e, []) else render_live e em

unfoldable pub render_all : AnthropicSseEncoder → List Emission → Rendered
unfolding render
render_all e [] = (e, [])
render_all e (em ∷ ems) =
    let (e', frames) = render e em in let (e'', rest) = render_all e' ems in (e'', frames ++ rest)

-- `non_stream_json`: the content blocks and the stop reason of a whole message. The value that
-- serde_json reads from a call's arguments is a parameter.
module _ {V : Type 0} (from_str : Bytes → Option V) (is_object : V → Bool) (empty_object : V) where
  pub data ContentBlock : Type 0 where
    text : Bytes → ContentBlock
    tool_use_block : Bytes → Bytes → V → ContentBlock

  unfoldable pub parse_tool_arguments : Bytes → V
  parse_tool_arguments arguments = elim (from_str arguments) [
    | some v ↦ if is_object v then v else empty_object
    | none ↦ empty_object
  ]

  unfoldable pub call_blocks : List ToolCall → List ContentBlock
  unfolding parse_tool_arguments
  call_blocks [] = []
  call_blocks (call ∷ calls) =
      ContentBlock.tool_use_block call.id call.name (parse_tool_arguments call.arguments)
      ∷ call_blocks calls

  abbrev pub text_blocks : Bytes → List ContentBlock
  text_blocks [] = []
  text_blocks (b ∷ bs) = ContentBlock.text (b ∷ bs) ∷ []

  abbrev pub never_empty : List ContentBlock → List ContentBlock
  never_empty [] = ContentBlock.text [] ∷ []
  never_empty (b ∷ bs) = b ∷ bs

  unfoldable pub message_content : GenResult → List ContentBlock
  unfolding call_blocks
  message_content res = never_empty (text_blocks res.content ++ call_blocks res.tool_calls)

unfoldable pub message_stop_reason : GenResult → Bytes
message_stop_reason res = elim res.tool_calls [
  | call ∷ calls ↦ tool_use
  | [] ↦ elim res.finish_reason [ FinishReason.length ↦ max_tokens | _ ↦ end_turn ]
]
