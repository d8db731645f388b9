-- ===== src/ToolCall/Progress.antt =====
-- Each pass of the parser that asks for another takes a byte of the buffer, so the loop ends.
use mini_cpm5_5080fast.Base.{
  ℕ, zero, suc, ◌+◌, ◌<◌, ◌≡◌, refl, ap, true, false, Option, none, some, List, [], ◌∷◌, ◌++◌,
  length, take, drop, arith, Bool-cases, inl, inr, Option-cases, length-drop, length-append,
}
use mini_cpm5_5080fast.Bytes.{Bytes, starts_with, find}
use mini_cpm5_5080fast.ToolCall.Tag.{parse_tag, tag_len, end_of, viable_prefix, lt, has_gt}
use mini_cpm5_5080fast.ToolCall.{
  ToolCallEvent, State, in_text, in_function, in_param, in_cdata, ToolCallParser, Pass, fn_open,
  cdata_open, cdata_close, name_attr, with_buf, text_if, emit_param_value, emit_param_if,
  close_param, close_function,
}
use mini_cpm5_5080fast.ToolCall.Step.{
  text_literal, text_tag, text_open, text_at, step_text, function_stray, function_tag,
  function_open, function_at, step_function, param_literal, param_end, param_open_at, param_at,
  step_param, cdata_at, step_cdata, step_in, step, run, push,
}

pub find-bound : (s : Bytes) (c : ℕ) (p : Bytes) (i : ℕ) → find s (c ∷ p) ≡ some i → i < length s
unfolding find starts_with
find-bound [] c p i e = cc
find-bound (b ∷ s) c p i e = elim (Option-cases (find s (c ∷ p))) [
  | inl n ↦ ground (arith, n, e)
  | inr (j, n) ↦ let lower = find-bound s c p j n in ground (arith, n, e, lower)
]

length-drop_pos : (k : ℕ) (s : Bytes) → 0 < k → 0 < length s → length (drop k s) < length s
length-drop_pos k s p q = omega (arith, length-drop k s)

tag_len-pos : (s : Bytes) → 0 < length s → 0 < tag_len s
unfolding tag_len end_of
tag_len-pos s p = ground arith

-- A pass after which another may follow leaves a shorter buffer.
abbrev pub Takes : ℕ → Pass → Type 0
Takes n o = o.0 ≡ true → length o.1.buf < n

text_literal-Takes :
    (p : ToolCallParser) (es : List ToolCallEvent)
    → 0 < length p.buf
    → Takes (length p.buf) (text_literal p es)
unfolding text_literal
text_literal-Takes p es q = grind (arith, length-drop_pos)

text_tag-Takes :
    (p : ToolCallParser) (es : List ToolCallEvent) (o : Option Bytes)
    → 0 < length p.buf
    → Takes (length p.buf) (text_tag p es o)
unfolding text_tag
text_tag-Takes p es none q = elim (Bool-cases (has_gt p.buf)) [
  | inl e ↦ rw e (text_literal-Takes p es q)
  | inr e ↦ rw e (λ c. cc)
]
text_tag-Takes p es (some n) q = λ e. length-drop_pos (tag_len p.buf) p.buf (tag_len-pos p.buf q) q

text_open-Takes :
    (p : ToolCallParser) (es : List ToolCallEvent)
    → 0 < length p.buf
    → Takes (length p.buf) (text_open p es)
unfolding text_open
text_open-Takes p es q = elim (Bool-cases (starts_with p.buf fn_open)) [
  | inl e ↦ rw e (text_tag-Takes p es (parse_tag p.buf fn_open name_attr) q)
  | inr e ↦ rw e (text_literal-Takes p es q)
]

text_at-Takes :
    (p : ToolCallParser) (o : Option ℕ) → find p.buf lt ≡ o → Takes (length p.buf) (text_at p o)
unfolding text_at
text_at-Takes p none e = ground arith
text_at-Takes p (some i) e =
    let b = find-bound p.buf 60 [] i e in
    let d = length-drop i p.buf in
    λ t.
      omega (
        arith,
        text_open-Takes (with_buf p (drop i p.buf)) (text_if (take i p.buf)) (omega arith) t,
      )

function_stray-Takes :
    (p : ToolCallParser) → 0 < length p.buf → Takes (length p.buf) (function_stray p)
unfolding function_stray
function_stray-Takes p q = grind (arith, length-drop_pos)

function_tag-Takes :
    (p : ToolCallParser) (o : Option Bytes)
    → 0 < length p.buf
    → Takes (length p.buf) (function_tag p o)
unfolding function_tag
function_tag-Takes p none q = elim (Bool-cases (has_gt p.buf)) [
  | inl e ↦ rw e (function_stray-Takes p q)
  | inr e ↦ rw e (λ c. cc)
]
function_tag-Takes p (some n) q = λ e. length-drop_pos (tag_len p.buf) p.buf (tag_len-pos p.buf q) q

param_open_at-Takes :
    (o : ToolCallParser × List ToolCallEvent)
    → 0 < length o.0.buf
    → Takes (length o.0.buf) (param_open_at o)
unfolding param_open_at param_literal param_end close_param emit_param_value
param_open_at-Takes o q = grind (arith, length-drop_pos)

emit_param_if-buf : (p : ToolCallParser) (t : Bytes) → (emit_param_if p t).0.buf ≡ p.buf
unfolding emit_param_if emit_param_value
emit_param_if-buf p [] = refl
emit_param_if-buf p (b ∷ bs) = refl

param_at-Takes :
    (p : ToolCallParser) (o : Option ℕ) → find p.buf lt ≡ o → Takes (length p.buf) (param_at p o)
unfolding param_at
param_at-Takes p none e = grind (arith, emit_param_if-buf)
param_at-Takes p (some i) e =
    let o = emit_param_if (with_buf p (drop i p.buf)) (take i p.buf) in
    let b = find-bound p.buf 60 [] i e in
    let d = length-drop i p.buf in
    let k = emit_param_if-buf (with_buf p (drop i p.buf)) (take i p.buf) in
    λ t. omega (arith, ap length k, param_open_at-Takes o (omega (arith, ap length k)) t)

starts_with-pos : (s : Bytes) (c : ℕ) (p : Bytes) → starts_with s (c ∷ p) ≡ true → 0 < length s
unfolding starts_with
starts_with-pos [] c p e = cc
starts_with-pos (b ∷ s) c p e = omega arith

step_param-Takes : (p : ToolCallParser) → Takes (length p.buf) (step_param p)
unfolding step_param
step_param-Takes p = elim (Bool-cases (starts_with p.buf cdata_open)) [
  | inl e ↦ rw e (λ t.
      length-drop_pos (length cdata_open) p.buf (omega arith)
        (starts_with-pos p.buf 60 (drop 1 cdata_open) e))
  | inr e ↦ elim (Bool-cases (viable_prefix p.buf cdata_open)) [
    | inl v ↦ rw (e, v) (λ c. cc)
    | inr v ↦ rw (e, v) (param_at-Takes p (find p.buf lt) refl)
  ]
]

cdata_at-Takes :
    (p : ToolCallParser) (o : Option ℕ)
    → find p.buf cdata_close ≡ o
    → Takes (length p.buf) (cdata_at p o)
unfolding cdata_at emit_param_value
cdata_at-Takes p none e = λ c. cc
cdata_at-Takes p (some i) e =
    let b = find-bound p.buf 93 (93 ∷ 62 ∷ []) i e in λ t. omega (arith, length-drop (i + 3) p.buf)

module _ (render : List (Bytes × Bytes) → Bytes) where
  function_open-Takes :
      (p : ToolCallParser) → 0 < length p.buf → Takes (length p.buf) (function_open render p)
  unfolding function_open close_function
  function_open-Takes p q = grind (arith, length-drop_pos, function_stray-Takes, function_tag-Takes)

  function_at-Takes :
      (p : ToolCallParser) (o : Option ℕ)
      → find p.buf lt ≡ o
      → Takes (length p.buf) (function_at render p o)
  unfolding function_at
  function_at-Takes p none e = λ c. cc
  function_at-Takes p (some zero) e =
      function_open-Takes p (omega (arith, find-bound p.buf 60 [] 0 e))
  function_at-Takes p (some (suc i)) e =
      λ t. omega (arith, find-bound p.buf 60 [] (suc i) e, length-drop (suc i) p.buf)

  step_in-Takes : (q : State) (p : ToolCallParser) → Takes (length p.buf) (step_in render q p)
  unfolding step_in step_text step_function step_cdata
  step_in-Takes in_text p = text_at-Takes p (find p.buf lt) refl
  step_in-Takes in_function p = function_at-Takes p (find p.buf lt) refl
  step_in-Takes in_param p = step_param-Takes p
  step_in-Takes in_cdata p = cdata_at-Takes p (find p.buf cdata_close) refl

  step-Takes : (p : ToolCallParser) → Takes (length p.buf) (step render p)
  unfolding step
  step-Takes p = step_in-Takes p.state p

  run-ends : (n : ℕ) (p : ToolCallParser) → length p.buf < n → (run render n p).0 ≡ false
  unfolding run
  run-ends zero p b = absurd (omega arith)
  run-ends (suc n) p b = elim (Bool-cases (step render p).0) [
    | inl e ↦ rw e (run-ends n (step render p).1 (omega (arith, step-Takes p e)))
    | inr e ↦ rw e refl
  ]

  run-fuel :
      (n m : ℕ) (p : ToolCallParser)
      → length p.buf < n
      → length p.buf < m
      → run render n p ≡ run render m p
  unfolding run
  run-fuel zero m p b c = absurd (omega arith)
  run-fuel (suc n) zero p b c = absurd (omega arith)
  run-fuel (suc n) (suc m) p b c = elim (Bool-cases (step render p).0) [
    | inl e ↦
        let t = step-Takes p e in
        rw (e, run-fuel n m (step render p).1 (omega (arith, t)) (omega (arith, t)))
    | inr e ↦ rw e
  ]

  -- The loop of `push` ends: with the fuel that `push` gives, or any fuel above the number of bytes
  -- that are held back and fed, the last pass asks for no other, and the result is that of `push`.
  pub push-ends :
      (p : ToolCallParser) (fragment : Bytes) (fuel : ℕ)
      → length p.buf + length fragment < fuel
      → let o = run render fuel (with_buf p (p.buf ++ fragment)) in
        (o.0 ≡ false) × (push render p fragment ≡ (o.1, o.2))
  unfolding push
  push-ends p fragment fuel b =
      let l = length-append p.buf fragment in
      let q = with_buf p (p.buf ++ fragment) in
      let f = run-fuel fuel (length q.buf + 1) q (omega arith) (omega arith) in
      (run-ends fuel q (omega arith), rw f)
