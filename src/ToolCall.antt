-- ===== src/ToolCall.antt =====
-- rust/minicpm-generation/src/tool_call.rs: tool calls are found in assistant text as it streams in.
-- A cut is made where a `<`, a `>` or an ASCII tag stands, which is never inside a character, so `drain`
-- and `remove` are cuts of the bytes.
pub mod Tag
pub mod Step
pub mod Progress
pub mod Events
pub mod Calls
pub mod Passes
pub mod Balance
pub mod Passthrough
mod Tests
use mini_cpm5_5080fast.Base.{
  ℕ, zero, suc, ◌+◌, ◌-◌, ◌/◌, ◌%◌, Bool, true, false, not, ◌&&◌, ◌||◌, Option, none, some, List,
  [], ◌∷◌, ◌++◌, ltb, leb, ◌==◌, if◌then◌else◌, length, take, drop,
}
use mini_cpm5_5080fast.Bytes.{Bytes, starts_with, find, floor_char_boundary}
use mini_cpm5_5080fast.Bytes.Text.{codes}
use mini_cpm5_5080fast.ToolCall.Tag.{parse_tag, tag_len, viable_prefix, lt, gt}

pub record ToolCall : Type 0 where
  pub id : Bytes
  pub name : Bytes
  pub arguments : Bytes

pub data ToolCallEvent : Type 0 where
  text : Bytes → ToolCallEvent
  tool_call_start : Bytes → ToolCallEvent
  param_value : Bytes → Bytes → ToolCallEvent
  tool_call_end : ToolCall → ToolCallEvent

pub data State : Type 0 where
  in_text in_function in_param in_cdata : State

pub record ToolCallParser : Type 0 where
  pub state : State
  pub buf : Bytes
  pub current_name : Bytes
  pub current_params : List (Bytes × Bytes)
  pub param_name : Bytes
  pub param_text : Bytes
  pub calls : List ToolCall
  pub call_seq : ℕ

abbrev pub fn_open : Bytes
fn_open = codes "<function"

abbrev pub fn_close : Bytes
fn_close = codes "</function>"

abbrev pub param_open : Bytes
param_open = codes "<param"

abbrev pub param_close : Bytes
param_close = codes "</param>"

abbrev pub cdata_open : Bytes
cdata_open = codes "<![CDATA["

abbrev pub cdata_close : Bytes
cdata_close = codes "]]>"

abbrev pub name_attr : Bytes
name_attr = codes "name"

abbrev pub new : ToolCallParser
new = record {
  state = in_text;
  buf = [];
  current_name = [];
  current_params = [];
  param_name = [];
  param_text = [];
  calls = [];
  call_seq = 0;
}

-- One pass: whether another may follow, the parser, and the events that it pushed.
abbrev pub Pass : Type 0
Pass = Bool × ToolCallParser × List ToolCallEvent

abbrev pub pass : Bool → ToolCallParser × List ToolCallEvent → Pass
pass more (p, es) = (more, p, es)

-- the decimal digits of a number, on fuel: a number has no more digits than it is large
unfoldable pub digits : ℕ → ℕ → Bytes
digits zero n = []
digits (suc fuel) n =
    let higher = digits fuel (n / 10) in
    if ltb n 10 then (48 + n) ∷ [] else higher ++ ((48 + n % 10) ∷ [])

-- `format!("call_{seq}")`
unfoldable pub call_id : ℕ → Bytes
call_id seq = codes "call_" ++ digits (suc seq) seq

abbrev pub with_buf : ToolCallParser → Bytes → ToolCallParser
with_buf p b = record p { buf = b }

abbrev pub nonempty : Bytes → Bool
nonempty [] = false
nonempty (b ∷ bs) = true

abbrev pub text_if : Bytes → List ToolCallEvent
text_if [] = []
text_if (b ∷ bs) = ToolCallEvent.text (b ∷ bs) ∷ []

-- `emit_param_value`
unfoldable pub emit_param_value : ToolCallParser → Bytes → ToolCallParser × List ToolCallEvent
emit_param_value p t =
    (record p { param_text = p.param_text ++ t }, ToolCallEvent.param_value p.param_name t ∷ [])

unfoldable pub emit_param_if : ToolCallParser → Bytes → ToolCallParser × List ToolCallEvent
emit_param_if p [] = (p, [])
emit_param_if p (b ∷ bs) = emit_param_value p (b ∷ bs)

unfoldable pub close_param : ToolCallParser → ToolCallParser
close_param p = record p {
  current_params = p.current_params ++ ((p.param_name, p.param_text) ∷ []);
  param_name = [];
  param_text = [];
}

-- The JSON text of an object with these members, each inserted in turn, is serde_json's.
module _ (render : List (Bytes × Bytes) → Bytes) where
  unfoldable pub finalize_call : Bytes → List (Bytes × Bytes) → ℕ → ToolCall
  finalize_call name params seq = record {
    id = call_id seq;
    name = name;
    arguments = render params;
  }

  unfoldable pub close_function : ToolCallParser → ToolCallParser × List ToolCallEvent
  close_function p =
      let call = finalize_call p.current_name p.current_params p.call_seq in
      let p' = record p {
        current_name = [];
        current_params = [];
        call_seq = p.call_seq + 1;
        calls = p.calls ++ (call ∷ []);
        state = in_text;
      } in
      (p', ToolCallEvent.tool_call_end call ∷ [])
