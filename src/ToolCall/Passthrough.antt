-- ===== src/ToolCall/Passthrough.antt =====
-- Text outside of tool calls passes through the parser.
use mini_cpm5_5080fast.Base.{
  ℕ, zero, suc, ◌+◌, ◌≡◌, refl, ap, ◌∙◌, sym, Option, none, some, List, [], ◌∷◌, ◌++◌, ◌==◌, length,
  take, drop, arith, Bool-cases, inl, inr, Option-cases, append_assoc, append-nil, take-append-drop,
  ==_iff,
}
use mini_cpm5_5080fast.Bytes.{Bytes, starts_with, find}
use mini_cpm5_5080fast.ToolCall.Tag.{parse_tag, viable_prefix, lt, has_gt}
use mini_cpm5_5080fast.ToolCall.{
  new, ToolCallEvent, State, in_text, in_function, in_param, in_cdata, ToolCallParser, fn_open,
  name_attr, with_buf, text_if,
}
use mini_cpm5_5080fast.ToolCall.Step.{
  text_literal, text_tag, text_open, text_at, step_text, step_in, step, run, push, flush,
  close_open, finish,
}
use mini_cpm5_5080fast.ToolCall.Events.{
  joined_text, started, started-append, joined_text-append, push_all, parse,
}

find-drop : (s : Bytes) (c i : ℕ) → find s (c ∷ []) ≡ some i → drop i s ≡ c ∷ drop 1 (drop i s)
unfolding find starts_with
find-drop [] c i e = cc
find-drop (b ∷ s) c zero e = elim (Bool-cases (b == c)) [
  | inl h ↦ ap (λ x. x ∷ s) ((==_iff b c).0 h)
  | inr h ↦ elim (Option-cases (find s (c ∷ []))) [
    | inl n ↦ ground (arith, n, e, h)
    | inr (j, n) ↦ ground (arith, n, e, h)
  ]
]
find-drop (b ∷ s) c (suc i) e = elim (Bool-cases (b == c)) [
  | inl h ↦ ground (arith, e, h)
  | inr h ↦ elim (Option-cases (find s (c ∷ []))) [
    | inl n ↦ ground (arith, n, e, h)
    | inr (j, n) ↦ find-drop s c i (ground (arith, n, e, h))
  ]
]

literal-joined :
    (es : List ToolCallEvent) (buf : Bytes)
    → buf ≡ 60 ∷ drop 1 buf
    → joined_text (es ++ (ToolCallEvent.text lt ∷ [])) ++ drop 1 buf ≡ joined_text es ++ buf
unfolding joined_text
literal-joined es buf b =
    ap (λ x. x ++ drop 1 buf) (joined_text-append es (ToolCallEvent.text lt ∷ []))
    ∙ append_assoc (joined_text es) lt (drop 1 buf)
    ∙ ap (λ x. joined_text es ++ x) (sym b)

-- From a text, if no call starts: the parser is still outside of calls, and the text that was given is
-- what was emitted with what is held back.
abbrev pub Passes : Bytes → ToolCallParser × List ToolCallEvent → Type 0
Passes t (q, es) = started es ≡ 0 → (q.state ≡ in_text) × (joined_text es ++ q.buf ≡ t)

text_literal-Passes :
    (p : ToolCallParser) (es : List ToolCallEvent)
    → p.state ≡ in_text
    → p.buf ≡ 60 ∷ drop 1 p.buf
    → let o = text_literal p es in Passes (joined_text es ++ p.buf) (o.1, o.2)
unfolding text_literal joined_text
text_literal-Passes p es i b = elim (Bool-cases (viable_prefix p.buf fn_open)) [
  | inl v ↦ rw v (λ z. (i, refl))
  | inr v ↦ rw v (λ z. (i, literal-joined es p.buf b))
]

text_tag-Passes :
    (p : ToolCallParser) (es : List ToolCallEvent) (o : Option Bytes)
    → p.state ≡ in_text
    → p.buf ≡ 60 ∷ drop 1 p.buf
    → let o' = text_tag p es o in Passes (joined_text es ++ p.buf) (o'.1, o'.2)
unfolding text_tag started
text_tag-Passes p es none i b = elim (Bool-cases (has_gt p.buf)) [
  | inl e ↦ rw e (text_literal-Passes p es i b)
  | inr e ↦ rw e (λ z. (i, refl))
]
text_tag-Passes p es (some name) i b =
    λ z. absurd (omega (arith, z, started-append es (ToolCallEvent.tool_call_start name ∷ [])))

text_open-Passes :
    (p : ToolCallParser) (es : List ToolCallEvent)
    → p.state ≡ in_text
    → p.buf ≡ 60 ∷ drop 1 p.buf
    → let o = text_open p es in Passes (joined_text es ++ p.buf) (o.1, o.2)
unfolding text_open
text_open-Passes p es i b = elim (Bool-cases (starts_with p.buf fn_open)) [
  | inl e ↦ rw e (text_tag-Passes p es (parse_tag p.buf fn_open name_attr) i b)
  | inr e ↦ rw e (text_literal-Passes p es i b)
]

joined_text-text_if : (t : Bytes) → joined_text (text_if t) ≡ t
unfolding joined_text
joined_text-text_if [] = refl
joined_text-text_if (b ∷ bs) = append-nil (b ∷ bs)

text_at-Passes :
    (p : ToolCallParser) (o : Option ℕ)
    → p.state ≡ in_text
    → find p.buf lt ≡ o
    → let o' = text_at p o in Passes p.buf (o'.1, o'.2)
unfolding text_at
text_at-Passes p none i e = λ z. (i, rw append-nil (joined_text-text_if p.buf))
text_at-Passes p (some n) i e = λ z.
    let q = with_buf p (drop n p.buf) in
    let k = text_open-Passes q (text_if (take n p.buf)) i (find-drop p.buf 60 n e) z in
    (
      k.0,
      k.1
          ∙ ap (λ x. x ++ drop n p.buf) (joined_text-text_if (take n p.buf))
          ∙ take-append-drop n p.buf,
    )

-- The fragments in a row.
abbrev pub joined : List Bytes → Bytes
joined [] = []
joined (t ∷ ts) = t ++ joined ts

module _ (render : List (Bytes × Bytes) → Bytes) where
  step_in-Passes :
      (q : State) (p : ToolCallParser)
      → p.state ≡ q
      → q ≡ in_text
      → let o = step_in render q p in Passes p.buf (o.1, o.2)
  unfolding step_in step_text
  step_in-Passes in_text p i t = text_at-Passes p (find p.buf lt) i refl
  step_in-Passes in_function p i t = cc
  step_in-Passes in_param p i t = cc
  step_in-Passes in_cdata p i t = cc

  step-Passes :
      (p : ToolCallParser) → p.state ≡ in_text → let o = step render p in Passes p.buf (o.1, o.2)
  unfolding step
  step-Passes p i = step_in-Passes p.state p refl i

  -- one after the other
  Passes-trans :
      (t : Bytes) (q r : ToolCallParser) (es es' : List ToolCallEvent)
      → Passes t (q, es)
      → (q.state ≡ in_text → Passes q.buf (r, es'))
      → Passes t (r, es ++ es')
  Passes-trans t q r es es' a b = λ z.
      let l = started-append es es' in
      let k = a (omega (arith, z, l)) in
      let m = b k.0 (omega (arith, z, l)) in
      (
        m.0,
        ap (λ x. x ++ r.buf) (joined_text-append es es')
            ∙ append_assoc (joined_text es) (joined_text es') r.buf
            ∙ ap (λ x. joined_text es ++ x) m.1
            ∙ k.1,
      )

  run-Passes :
      (n : ℕ) (p : ToolCallParser)
      → p.state ≡ in_text
      → let o = run render n p in Passes p.buf (o.1, o.2)
  unfolding run joined_text
  run-Passes zero p i = λ z. (i, refl)
  run-Passes (suc n) p i = elim (Bool-cases (step render p).0) [
    | inl e ↦
        let o = step render p in
        let r = run render n o.1 in
        rw e (Passes-trans p.buf o.1 r.1 o.2 r.2 (step-Passes p i) (run-Passes n o.1))
    | inr e ↦ rw e (step-Passes p i)
  ]

  pub push-Passes :
      (p : ToolCallParser) (fragment : Bytes)
      → p.state ≡ in_text
      → Passes (p.buf ++ fragment) (push render p fragment)
  unfolding push
  push-Passes p fragment i = let b = p.buf ++ fragment in run-Passes (length b + 1) (with_buf p b) i

  push_all-Passes :
      (p : ToolCallParser) (fragments : List Bytes)
      → p.state ≡ in_text
      → Passes (p.buf ++ joined fragments) (push_all render p fragments)
  unfolding push_all joined_text
  push_all-Passes p [] i = λ z. (i, sym (append-nil p.buf))
  push_all-Passes p (t ∷ ts) i = λ z.
      let o = push render p t in
      let r = push_all render o.0 ts in
      let l = started-append o.1 r.1 in
      let k = push-Passes p t i (omega (arith, z, l)) in
      let m = push_all-Passes o.0 ts k.0 (omega (arith, z, l)) in
      (
        m.0,
        ap (λ x. x ++ r.0.buf) (joined_text-append o.1 r.1)
            ∙ append_assoc (joined_text o.1) (joined_text r.1) r.0.buf
            ∙ ap (λ x. joined_text o.1 ++ x) m.1
            ∙ sym (append_assoc (joined_text o.1) o.0.buf (joined ts))
            ∙ ap (λ x. x ++ joined ts) k.1
            ∙ append_assoc p.buf t (joined ts),
      )

  pub finish-text :
      (p : ToolCallParser) → p.state ≡ in_text → (finish render p).1 ≡ ToolCallEvent.text p.buf ∷ []
  unfolding finish flush close_open
  finish-text p i = rw i refl

  pub finish-Passes :
      (p : ToolCallParser)
      → p.state ≡ in_text
      → let o = finish render p in
        (o.0.state ≡ in_text) × (o.0.buf ≡ []) × (joined_text o.1 ≡ p.buf)
  unfolding finish flush close_open joined_text
  finish-Passes p i = rw i (refl, refl, append-nil p.buf)

  -- An answer in which the parser reports no start of a call comes out as it went in: the text events
  -- together, those of `finish` included, are the fragments together. Nothing is dropped, doubled or
  -- moved, whatever is held back on the way and however the answer is cut into fragments.
  pub parse-text :
      (fragments : List Bytes)
      → started (parse render fragments).1 ≡ 0
      → joined_text (parse render fragments).1 ≡ joined fragments
  unfolding parse joined_text
  parse-text fragments z =
      let o = push_all render new fragments in
      let l = started-append o.1 (finish render o.0).1 in
      let k = push_all-Passes new fragments refl (omega (arith, z, l)) in
      joined_text-append o.1 (finish render o.0).1
      ∙ ap (λ es. joined_text o.1 ++ joined_text es) (finish-text o.0 k.0)
      ∙ ap (λ x. joined_text o.1 ++ x) (append-nil o.0.buf)
      ∙ k.1
