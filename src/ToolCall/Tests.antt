-- ===== src/ToolCall/Tests.antt =====
-- The crate's tests of the parser, and its laws at concrete texts.
use mini_cpm5_5080fast.Base.{
  List, [], ◌∷◌, ◌++◌, ◌≡◌, refl, map, length, false, arith, some, is_some,
}
use mini_cpm5_5080fast.Bytes.{Bytes, starts_with, find, floor_char_boundary, is_char_boundary}
use mini_cpm5_5080fast.Bytes.Text.{codes}
use mini_cpm5_5080fast.ToolCall.Tag.{
  parse_tag, tag_len, words, white_len, strip_prefix, strip_suffix, decode_attr, replace_from,
  has_gt,
}
use mini_cpm5_5080fast.ToolCall.{
  new, with_buf, digits, call_id, viable_prefix, emit_param_if, emit_param_value, close_param,
  close_function, finalize_call,
}
use mini_cpm5_5080fast.ToolCall.Tag
use mini_cpm5_5080fast.ToolCall.Events.{started, ended, joined_text, push_all, parse}
use mini_cpm5_5080fast.ToolCall.Calls.{ids_from}
use mini_cpm5_5080fast.ToolCall.Balance.{parse-calls}
use mini_cpm5_5080fast.ToolCall.Passthrough.{parse-text}
use mini_cpm5_5080fast.ToolCall.Progress.{push-ends}
use mini_cpm5_5080fast.ToolCall.Step.{push, finish, flush, close_open, run, step}

-- members one after another, in place of the JSON text
abbrev plain : List (Bytes × Bytes) → Bytes
plain [] = []
plain ((k, v) ∷ ms) = k ++ codes "=" ++ v ++ codes ";" ++ plain ms

abbrev call_text : Bytes
call_text = codes "a <function name=\"f\"><param name=\"x\">1</param></function> b"

parse_tag_test :
    parse_tag (codes "<function  name='&lt;f'>") (codes "<function") (codes "name")
    ≡ some (codes "<f")
unfolding parse_tag starts_with find words white_len strip_prefix strip_suffix decode_attr
    replace_from
parse_tag_test = refl

single_tool_call :
    (push plain new call_text).0.calls
    ≡ record { id = codes "call_0"; name = codes "f"; arguments = codes "x=1;" } ∷ []
unfolding push step find starts_with parse_tag words white_len strip_prefix strip_suffix tag_len
    Tag.viable_prefix emit_param_if emit_param_value close_param close_function finalize_call
    call_id decode_attr digits replace_from is_some has_gt
single_tool_call = refl

call_id_test : call_id 120 ≡ codes "call_120"
unfolding call_id digits
call_id_test = refl

-- The tag of the call is cut in two.
abbrev cut_call : List Bytes
cut_call = codes "a <func" ∷ codes "tion name=\"f\"></function>" ∷ []

parse-calls_example :
    let (p, es) = parse plain cut_call in
    (started es ≡ length (ended es))
    × (p.calls ≡ ended es)
    × (map (λ c. c.id) p.calls ≡ ids_from 0 (length p.calls))
parse-calls_example = parse-calls plain cut_call

-- A `<fu` is held back, and is text in the end.
abbrev cut_text : List Bytes
cut_text = codes "1 <f" ∷ codes "u" ∷ []

nothing_started : started (parse plain cut_text).1 ≡ 0
unfolding parse push_all push step finish flush close_open find starts_with Tag.viable_prefix
    started
nothing_started = refl

parse-text_example : joined_text (parse plain cut_text).1 ≡ codes "1 <fu"
parse-text_example = parse-text plain cut_text nothing_started

push-ends_example :
    let o = run plain 9 (with_buf new (codes "a <b")) in
    (o.0 ≡ false) × (push plain new (codes "a <b") ≡ (o.1, o.2))
push-ends_example = push-ends plain new (codes "a <b") 9 (omega arith)

-- One value, whole and cut in two: the marker is kept in the first and taken as markup in the second.
abbrev opening : Bytes
opening = codes "<function name=\"f\"><param name=\"x\">"

abbrev params_of : List Bytes → List (Bytes × Bytes)
params_of fragments = (push_all plain new fragments).0.current_params

whole_value :
    params_of ((opening ++ codes "a<![CDATA[b]]></param>") ∷ [])
    ≡ (codes "x", codes "a<![CDATA[b]]>") ∷ []
unfolding push_all push step find starts_with parse_tag words white_len strip_prefix strip_suffix
    tag_len Tag.viable_prefix emit_param_if emit_param_value close_param decode_attr replace_from
    is_some has_gt
whole_value = refl

cut_value :
    params_of ((opening ++ codes "a") ∷ codes "<![CDATA[b]]></param>" ∷ [])
    ≡ (codes "x", codes "ab") ∷ []
unfolding push_all push step find starts_with parse_tag words white_len strip_prefix strip_suffix
    tag_len Tag.viable_prefix emit_param_if emit_param_value close_param decode_attr replace_from
    is_some has_gt floor_char_boundary is_char_boundary
cut_value = refl
