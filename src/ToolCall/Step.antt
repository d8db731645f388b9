-- ===== src/ToolCall/Step.antt =====
-- The passes of the parser, one for each state, and the loop of `push`.
use mini_cpm5_5080fast.Base.{
  ℕ, zero, suc, ◌+◌, ◌-◌, true, false, ◌||◌, Option, none, some, List, [], ◌∷◌, ◌++◌, if◌then◌else◌,
  length, take, drop,
}
use mini_cpm5_5080fast.Bytes.{Bytes, starts_with, find, floor_char_boundary}
use mini_cpm5_5080fast.ToolCall.Tag.{parse_tag, tag_len, viable_prefix, lt, has_gt}
use mini_cpm5_5080fast.ToolCall.{
  ToolCallEvent, State, in_text, in_function, in_param, in_cdata, ToolCallParser, Pass, pass,
  fn_open, fn_close, param_open, param_close, cdata_open, cdata_close, name_attr, with_buf,
  nonempty, text_if, emit_param_value, emit_param_if, close_param, close_function,
}

-- `buf.remove(0)` of a `<` that opens no function tag
unfoldable pub text_literal : ToolCallParser → List ToolCallEvent → Pass
text_literal p es =
    if viable_prefix p.buf fn_open
    then (false, p, es)
    else (true, with_buf p (drop 1 p.buf), es ++ (ToolCallEvent.text lt ∷ []))

unfoldable pub text_tag : ToolCallParser → List ToolCallEvent → Option Bytes → Pass
unfolding text_literal
text_tag p es (some name) =
    let p' = record p {
      state = in_function;
      current_name = name;
      buf = drop (tag_len p.buf) p.buf;
    } in
    (true, p', es ++ (ToolCallEvent.tool_call_start name ∷ []))
text_tag p es none = if has_gt p.buf then text_literal p es else (false, p, es)

-- the buffer starts with a `<`
unfoldable pub text_open : ToolCallParser → List ToolCallEvent → Pass
unfolding text_tag
text_open p es =
    if starts_with p.buf fn_open
    then text_tag p es (parse_tag p.buf fn_open name_attr)
    else text_literal p es

unfoldable pub text_at : ToolCallParser → Option ℕ → Pass
unfolding text_open
text_at p none = (nonempty p.buf, with_buf p [], text_if p.buf)
text_at p (some i) = text_open (with_buf p (drop i p.buf)) (text_if (take i p.buf))

unfoldable pub step_text : ToolCallParser → Pass
unfolding text_at
step_text p = text_at p (find p.buf lt)

-- a stray `<` is dropped
unfoldable pub function_stray : ToolCallParser → Pass
function_stray p =
    if viable_prefix p.buf fn_close || viable_prefix p.buf param_open
    then (false, p, [])
    else (true, with_buf p (drop 1 p.buf), [])

unfoldable pub function_tag : ToolCallParser → Option Bytes → Pass
unfolding function_stray
function_tag p (some name) =
    let p' = record p {
      state = in_param;
      param_name = name;
      param_text = [];
      buf = drop (tag_len p.buf) p.buf;
    } in
    (true, p', [])
function_tag p none = if has_gt p.buf then function_stray p else (false, p, [])

module _ (render : List (Bytes × Bytes) → Bytes) where
  unfoldable pub function_open : ToolCallParser → Pass
  unfolding function_tag
  function_open p =
      if starts_with p.buf fn_close
      then pass true (close_function render (with_buf p (drop (length fn_close) p.buf)))
      else if starts_with p.buf param_open
      then function_tag p (parse_tag p.buf param_open name_attr)
      else function_stray p

  unfoldable pub function_at : ToolCallParser → Option ℕ → Pass
  unfolding function_open
  function_at p none = (false, with_buf p [], [])
  function_at p (some zero) = function_open p
  function_at p (some (suc i)) = (true, with_buf p (drop (suc i) p.buf), [])

  unfoldable pub step_function : ToolCallParser → Pass
  unfolding function_at
  step_function p = function_at p (find p.buf lt)

-- the buffer starts with a `<`, and what came before it was emitted
unfoldable pub param_literal : ToolCallParser → List ToolCallEvent → Pass
param_literal p es =
    let (p', es') = emit_param_value (with_buf p (drop 1 p.buf)) lt in (true, p', es ++ es')

unfoldable pub param_end : ToolCallParser → ToolCallParser
param_end p = record (close_param (with_buf p (drop (length param_close) p.buf))) {
  state = in_function;
}

unfoldable pub param_open_at : ToolCallParser × List ToolCallEvent → Pass
unfolding param_literal param_end
param_open_at (p, es) =
    if starts_with p.buf param_close
    then (true, param_end p, es)
    else if viable_prefix p.buf param_close
    then (false, p, es)
    else param_literal p es

unfoldable pub param_at : ToolCallParser → Option ℕ → Pass
unfolding param_open_at
param_at p none = pass (nonempty p.buf) (emit_param_if (with_buf p []) p.buf)
param_at p (some i) = param_open_at (emit_param_if (with_buf p (drop i p.buf)) (take i p.buf))

unfoldable pub step_param : ToolCallParser → Pass
unfolding param_at
step_param p =
    if starts_with p.buf cdata_open
    then (true, record p { state = in_cdata; buf = drop (length cdata_open) p.buf }, [])
    else if viable_prefix p.buf cdata_open
    then (false, p, [])
    else param_at p (find p.buf lt)

-- All but the last two bytes, which may start a `]]>`, cut at a character boundary.
unfoldable pub cdata_cut : Bytes → ℕ
cdata_cut buf = floor_char_boundary buf (length buf - (length cdata_close - 1))

unfoldable pub cdata_at : ToolCallParser → Option ℕ → Pass
unfolding cdata_cut
cdata_at p (some i) =
    let (p', es) = emit_param_value p (take i p.buf) in
    (true, record p' { buf = drop (i + length cdata_close) p.buf; state = in_param }, es)
cdata_at p none =
    let cut = cdata_cut p.buf in
    pass false (emit_param_if (with_buf p (drop cut p.buf)) (take cut p.buf))

unfoldable pub step_cdata : ToolCallParser → Pass
unfolding cdata_at
step_cdata p = cdata_at p (find p.buf cdata_close)

module _ (render : List (Bytes × Bytes) → Bytes) where
  unfoldable pub step_in : State → ToolCallParser → Pass
  unfolding step_function step_text step_param step_cdata
  step_in in_text p = step_text p
  step_in in_function p = step_function render p
  step_in in_param p = step_param p
  step_in in_cdata p = step_cdata p

  unfoldable pub step : ToolCallParser → Pass
  unfolding step_in
  step p = step_in p.state p

  -- the loop of `push`, on fuel
  unfoldable pub run : ℕ → ToolCallParser → Pass
  run zero p = (true, p, [])
  run (suc fuel) p =
      let o = step p in
      let rest = run fuel o.1 in if o.0 then (rest.0, rest.1, o.2 ++ rest.2) else o

  -- Each pass but the last takes a byte away, so this is fuel for the last pass too.
  unfoldable pub push : ToolCallParser → Bytes → ToolCallParser × List ToolCallEvent
  unfolding run
  push p fragment =
      let buf = p.buf ++ fragment in (let o = run (length buf + 1) (with_buf p buf) in (o.1, o.2))

  unfoldable pub flush_param : ToolCallParser → Bytes → ToolCallParser × List ToolCallEvent
  flush_param p leftover =
      let (p', es) = emit_param_if p leftover in
      (record (close_param p') { state = in_function }, es)

  unfoldable pub flush : State → ToolCallParser → Bytes → ToolCallParser × List ToolCallEvent
  unfolding flush_param
  flush in_text p leftover = (p, ToolCallEvent.text leftover ∷ [])
  flush in_function p leftover = (p, [])
  flush in_param p leftover = flush_param p leftover
  flush in_cdata p leftover = flush_param p leftover

  unfoldable pub close_open : State → ToolCallParser → ToolCallParser × List ToolCallEvent
  close_open in_function p = close_function render p
  close_open in_text p = (p, [])
  close_open in_param p = (p, [])
  close_open in_cdata p = (p, [])

  unfoldable pub finish : ToolCallParser → ToolCallParser × List ToolCallEvent
  unfolding flush close_open
  finish p =
      let (p₁, es₁) = flush p.state (with_buf p []) p.buf in
      let (p₂, es₂) = close_open p₁.state p₁ in (record p₂ { state = in_text }, es₁ ++ es₂)
