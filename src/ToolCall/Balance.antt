-- ===== src/ToolCall/Balance.antt =====
-- What the parser as a whole does to the calls.
use mini_cpm5_5080fast.Base.{
  ℕ, zero, suc, ◌+◌, ◌≡◌, refl, ap, Option, none, some, List, [], ◌∷◌, ◌++◌, map, length, drop,
  arith, Bool-cases, inl, inr, ◌⊎◌,
}
use mini_cpm5_5080fast.Bytes.{Bytes, starts_with, find}
use mini_cpm5_5080fast.ToolCall.Tag.{parse_tag, lt}
use mini_cpm5_5080fast.ToolCall.{
  new, State, in_text, in_function, in_param, in_cdata, ToolCallParser, fn_close, param_open,
  cdata_close, name_attr, with_buf, emit_param_value, emit_param_if, close_param, close_function,
  finalize_call,
}
use mini_cpm5_5080fast.ToolCall.Step.{
  step_text, function_stray, function_tag, function_open, function_at, step_function, step_param,
  cdata_at, step_cdata, step_in, step, run, push, flush_param, flush, close_open, finish,
}
use mini_cpm5_5080fast.ToolCall.Calls.{
  Counted, Quiet, opened, ids_from, Quiet-Counted, Counted-trans, Quiet-with_buf, Counted-with_buf,
}
use mini_cpm5_5080fast.ToolCall.Events.{ended, started, push_all, parse}
use mini_cpm5_5080fast.ToolCall.Passes.{
  function_stray-Quiet, function_tag-Quiet, step_param-Quiet, cdata_at-Quiet, text_at-Counted,
}

module _ (render : List (Bytes × Bytes) → Bytes) where
  pub close_function-Counted :
      (p : ToolCallParser)
      → opened p.state ≡ 1
      → let o = close_function render p in Counted p o.0 o.1
  unfolding close_function finalize_call ended started ids_from
  close_function-Counted p i = ground arith

  function_open-Counted :
      (p : ToolCallParser)
      → p.state ≡ in_function
      → let o = function_open render p in Counted p o.1 o.2
  unfolding function_open
  function_open-Counted p i = elim (Bool-cases (starts_with p.buf fn_close)) [
    | inl e ↦
        let rest = drop (length fn_close) p.buf in
        let o = close_function render (with_buf p rest) in
        rw e
          (Counted-with_buf p o.0 rest o.1 (close_function-Counted (with_buf p rest) (ap opened i)))
    | inr e ↦ elim (Bool-cases (starts_with p.buf param_open)) [
      | inl t ↦
          let o = function_tag p (parse_tag p.buf param_open name_attr) in
          rw (e, t)
            (Quiet-Counted p o.1 o.2
              (function_tag-Quiet p (parse_tag p.buf param_open name_attr) i))
      | inr t ↦
          let o = function_stray p in rw (e, t) (Quiet-Counted p o.1 o.2 (function_stray-Quiet p))
    ]
  ]

  function_at-Counted :
      (p : ToolCallParser) (o : Option ℕ)
      → p.state ≡ in_function
      → let o' = function_at render p o in Counted p o'.1 o'.2
  unfolding function_at ended started
  function_at-Counted p none i = Quiet-Counted p (with_buf p []) [] (ground arith)
  function_at-Counted p (some zero) i = function_open-Counted p i
  function_at-Counted p (some (suc n)) i =
      Quiet-Counted p (with_buf p (drop (suc n) p.buf)) [] (ground arith)

  step_in-Counted :
      (q : State) (p : ToolCallParser)
      → p.state ≡ q
      → let o = step_in render q p in Counted p o.1 o.2
  unfolding step_in step_text step_function step_cdata
  step_in-Counted in_text p i = text_at-Counted p (find p.buf lt) i
  step_in-Counted in_function p i = function_at-Counted p (find p.buf lt) i
  step_in-Counted in_param p i =
      let o = step_param p in Quiet-Counted p o.1 o.2 (step_param-Quiet p i)
  step_in-Counted in_cdata p i =
      let o = cdata_at p (find p.buf cdata_close) in
      Quiet-Counted p o.1 o.2 (cdata_at-Quiet p (find p.buf cdata_close) i)

  pub step-Counted : (p : ToolCallParser) → let o = step render p in Counted p o.1 o.2
  unfolding step
  step-Counted p = step_in-Counted p.state p refl

  run-Counted : (n : ℕ) (p : ToolCallParser) → let o = run render n p in Counted p o.1 o.2
  unfolding run ended started
  run-Counted zero p = Quiet-Counted p p [] (ground arith)
  run-Counted (suc n) p = elim (Bool-cases (step render p).0) [
    | inl e ↦
        let o = step render p in
        let r = run render n o.1 in
        rw e (Counted-trans p o.1 r.1 o.2 r.2 (step-Counted p) (run-Counted n o.1))
    | inr e ↦ rw e (step-Counted p)
  ]

  push-Counted :
      (p : ToolCallParser) (fragment : Bytes) → let o = push render p fragment in Counted p o.0 o.1
  unfolding push
  push-Counted p fragment =
      let b = p.buf ++ fragment in
      let o = run render (length b + 1) (with_buf p b) in
      Counted-with_buf p o.1 b o.2 (run-Counted (length b + 1) (with_buf p b))

  push_all-Counted :
      (p : ToolCallParser) (fragments : List Bytes)
      → let o = push_all render p fragments in Counted p o.0 o.1
  unfolding push_all ended started
  push_all-Counted p [] = Quiet-Counted p p [] (ground arith)
  push_all-Counted p (fragment ∷ fragments) =
      let o = push render p fragment in
      let r = push_all render o.0 fragments in
      Counted-trans p o.0 r.0 o.1 r.1 (push-Counted p fragment) (push_all-Counted o.0 fragments)

  flush-Quiet :
      (q : State) (p : ToolCallParser) (t : Bytes)
      → p.state ≡ q
      → let o = flush render q p t in
        Quiet p o.0 o.1 × (o.0.state ≡ in_text ⊎ o.0.state ≡ in_function)
  unfolding flush flush_param emit_param_if emit_param_value close_param ended started
  flush-Quiet in_text p t e = (ground arith, inl e)
  flush-Quiet in_function p t e = (ground arith, inr e)
  flush-Quiet in_param p [] e = (ground arith, inr refl)
  flush-Quiet in_param p (b ∷ bs) e = (ground arith, inr refl)
  flush-Quiet in_cdata p [] e = (ground arith, inr refl)
  flush-Quiet in_cdata p (b ∷ bs) e = (ground arith, inr refl)

  close_open-Counted :
      (q : State) (p : ToolCallParser)
      → p.state ≡ q
      → q ≡ in_text ⊎ q ≡ in_function
      → let o = close_open render q p in Counted p (record o.0 { state = in_text }) o.1
  unfolding close_open close_function finalize_call ended started ids_from
  close_open-Counted in_text p e c =
      Quiet-Counted p (record p { state = in_text }) [] (ground arith)
  close_open-Counted in_function p e c = ground arith
  close_open-Counted in_param p e c = elim c [ inl x ↦ cc | inr x ↦ cc ]
  close_open-Counted in_cdata p e c = elim c [ inl x ↦ cc | inr x ↦ cc ]

  finish-Counted : (p : ToolCallParser) → let o = finish render p in Counted p o.0 o.1
  unfolding finish
  finish-Counted p =
      let f = flush render p.state (with_buf p []) p.buf in
      let k = flush-Quiet p.state (with_buf p []) p.buf refl in
      let o = close_open render f.0.state f.0 in
      Counted-trans p f.0 (record o.0 { state = in_text }) f.1 o.1
        (Quiet-Counted p f.0 f.1 (Quiet-with_buf p f.0 [] f.1 k.0))
        (close_open-Counted f.0.state f.0 refl k.1)

  parse-Counted : (fragments : List Bytes) → let o = parse render fragments in Counted new o.0 o.1
  unfolding parse
  parse-Counted fragments =
      let a = push_all render new fragments in
      let b = finish render a.0 in
      Counted-trans new a.0 b.0 a.1 b.1 (push_all-Counted new fragments) (finish-Counted a.0)

  parse-state : (fragments : List Bytes) → (parse render fragments).0.state ≡ in_text
  unfolding parse finish
  parse-state fragments = refl

  -- However an answer is cut into fragments, when it is parsed to its end each call that was reported
  -- as started was reported as ended, the calls that the parser keeps are those that were reported as
  -- ended, in order, and their ids are `call_0`, `call_1` and so on.
  pub parse-calls :
      (fragments : List Bytes)
      → let (p, es) = parse render fragments in
        (started es ≡ length (ended es))
        × (p.calls ≡ ended es)
        × (map (λ c. c.id) p.calls ≡ ids_from 0 (length p.calls))
  parse-calls fragments =
      let o = parse render fragments in
      let c = parse-Counted fragments in
      let k = parse-state fragments in
      (omega (arith, c.balanced, ap opened k), c.calls_are, rw c.calls_are c.ids_are)
