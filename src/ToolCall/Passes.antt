-- ===== src/ToolCall/Passes.antt =====
-- What each pass of the parser does to the calls.
use mini_cpm5_5080fast.Base.{
  ℕ, ◌≡◌, refl, ◌∙◌, Option, none, some, List, [], ◌∷◌, take, drop, arith, Bool-cases, inl, inr,
  append-nil,
}
use mini_cpm5_5080fast.Bytes.{Bytes, starts_with}
use mini_cpm5_5080fast.ToolCall.Tag.{parse_tag, has_gt}
use mini_cpm5_5080fast.ToolCall.{
  ToolCallEvent, in_text, in_function, in_param, in_cdata, ToolCallParser, fn_open, name_attr,
  with_buf, text_if, emit_param_value, emit_param_if, close_param,
}
use mini_cpm5_5080fast.ToolCall.Step.{
  text_literal, text_tag, text_open, text_at, function_stray, function_tag, param_literal,
  param_end, param_open_at, param_at, step_param, cdata_at, cdata_cut,
}
use mini_cpm5_5080fast.ToolCall.Calls.{
  Counted, Quiet, ids_from, Quiet-Counted, Quiet-with_buf, Counted-with_buf,
}
use mini_cpm5_5080fast.ToolCall.Events.{ended, started, ended-append, started-append}

pub text_literal-Quiet :
    (p : ToolCallParser) (es : List ToolCallEvent)
    → ended es ≡ []
    → started es ≡ 0
    → let o = text_literal p es in Quiet p o.1 o.2
unfolding text_literal ended started
text_literal-Quiet p es n m = grind (arith, ended-append, started-append)

pub text_tag-Counted :
    (p : ToolCallParser) (es : List ToolCallEvent) (o : Option Bytes)
    → p.state ≡ in_text
    → ended es ≡ []
    → started es ≡ 0
    → let o = text_tag p es o in Counted p o.1 o.2
unfolding text_tag ended started ids_from
text_tag-Counted p es none i n m = elim (Bool-cases (has_gt p.buf)) [
  | inl e ↦
      let o = text_literal p es in rw e (Quiet-Counted p o.1 o.2 (text_literal-Quiet p es n m))
  | inr e ↦ rw e (Quiet-Counted p p es (ground arith))
]
text_tag-Counted p es (some name) i n m =
    let start = ToolCallEvent.tool_call_start name ∷ [] in
    let e = ended-append es start in
    record {
      calls_are = rw (e, n, append-nil) refl;
      seq_is = rw (e, n) (omega arith);
      balanced = rw (e, n, started-append es start, m, i) refl;
      ids_are = rw (e, n) refl;
    }

pub text_if-quiet : (t : Bytes) → (ended (text_if t) ≡ []) × (started (text_if t) ≡ 0)
unfolding ended started
text_if-quiet [] = (refl, refl)
text_if-quiet (b ∷ bs) = (refl, refl)

pub function_stray-Quiet : (p : ToolCallParser) → let o = function_stray p in Quiet p o.1 o.2
unfolding function_stray ended started
function_stray-Quiet p = ground arith

pub function_tag-Quiet :
    (p : ToolCallParser) (o : Option Bytes)
    → p.state ≡ in_function
    → let o = function_tag p o in Quiet p o.1 o.2
unfolding function_tag ended started
function_tag-Quiet p none i = grind (arith, function_stray-Quiet)
function_tag-Quiet p (some name) i = grind arith

pub emit_param_if-Quiet :
    (p : ToolCallParser) (t : Bytes)
    → let o = emit_param_if p t in Quiet p o.0 o.1 × o.0.state ≡ p.state
unfolding emit_param_if emit_param_value ended started
emit_param_if-Quiet p [] = (ground arith, refl)
emit_param_if-Quiet p (b ∷ bs) = (ground arith, refl)

pub param_open_at-Quiet :
    (p q : ToolCallParser) (es : List ToolCallEvent)
    → q.state ≡ in_param
    → Quiet p q es
    → let o = param_open_at (q, es) in Quiet p o.1 o.2
unfolding param_open_at param_literal param_end close_param emit_param_value ended started
param_open_at-Quiet p q es i k = grind (arith, ended-append, started-append)

pub param_at-Quiet :
    (p : ToolCallParser) (o : Option ℕ)
    → p.state ≡ in_param
    → let o = param_at p o in Quiet p o.1 o.2
unfolding param_at
param_at-Quiet p none i =
    let o = emit_param_if (with_buf p []) p.buf in
    Quiet-with_buf p o.0 [] o.1 (emit_param_if-Quiet (with_buf p []) p.buf).0
param_at-Quiet p (some n) i =
    let k = emit_param_if-Quiet (with_buf p (drop n p.buf)) (take n p.buf) in
    let o = emit_param_if (with_buf p (drop n p.buf)) (take n p.buf) in
    param_open_at-Quiet p o.0 o.1 (k.1 ∙ i) (Quiet-with_buf p o.0 (drop n p.buf) o.1 k.0)

pub step_param-Quiet :
    (p : ToolCallParser) → p.state ≡ in_param → let o = step_param p in Quiet p o.1 o.2
unfolding step_param ended started
step_param-Quiet p i = grind (arith, param_at-Quiet)

pub cdata_at-Quiet :
    (p : ToolCallParser) (o : Option ℕ)
    → p.state ≡ in_cdata
    → let o' = cdata_at p o in Quiet p o'.1 o'.2
unfolding cdata_at emit_param_value ended started
cdata_at-Quiet p none i =
    let cut = cdata_cut p.buf in
    let rest = drop cut p.buf in
    let o = emit_param_if (with_buf p rest) (take cut p.buf) in
    Quiet-with_buf p o.0 rest o.1 (emit_param_if-Quiet (with_buf p rest) (take cut p.buf)).0
cdata_at-Quiet p (some n) i = ground arith

pub text_open-Counted :
    (p : ToolCallParser) (es : List ToolCallEvent)
    → p.state ≡ in_text
    → ended es ≡ []
    → started es ≡ 0
    → let o = text_open p es in Counted p o.1 o.2
unfolding text_open
text_open-Counted p es i n m = elim (Bool-cases (starts_with p.buf fn_open)) [
  | inl e ↦ rw e (text_tag-Counted p es (parse_tag p.buf fn_open name_attr) i n m)
  | inr e ↦
      let o = text_literal p es in rw e (Quiet-Counted p o.1 o.2 (text_literal-Quiet p es n m))
]

pub text_at-Counted :
    (p : ToolCallParser) (o : Option ℕ)
    → p.state ≡ in_text
    → let o' = text_at p o in Counted p o'.1 o'.2
unfolding text_at
text_at-Counted p none i =
    let k = text_if-quiet p.buf in Quiet-Counted p (with_buf p []) (text_if p.buf) (ground arith)
text_at-Counted p (some n) i =
    let k = text_if-quiet (take n p.buf) in
    let q = with_buf p (drop n p.buf) in
    let o = text_open q (text_if (take n p.buf)) in
    let c = text_open-Counted q (text_if (take n p.buf)) i k.0 k.1 in
    Counted-with_buf p o.1 (drop n p.buf) o.2 c
