-- ===== src/Server/Calls.antt =====
-- The fragments that `ToolArgStream` writes for one call, together: the JSON object of its arguments.
use mini_cpm5_5080fast.Base.{
  ℕ, ◌≡◌, ◌≢◌, refl, Option, List, [], ◌∷◌, ◌++◌, some, none, true, false, ap, ◌∙◌, sym,
  append_assoc, append-nil, subst, Bool, arith, Bool-cases, inl, inr,
}
use mini_cpm5_5080fast.Bytes.{Bytes}
use mini_cpm5_5080fast.Bytes.Text.{codes}
use mini_cpm5_5080fast.Server.ArgStream.{
  ToolArgStream, quote, param, end_call, begin_call, same_bytes, continues, close_value,
  escape_json_fragment, json_text,
}
use mini_cpm5_5080fast.Server.Escape.{
  JsonText, escaped, last_quote, escape_json_fragment-exact, escaped-append, json_text-quoted,
}

-- the texts in a row
unfoldable pub concat : List Bytes → Bytes
concat [] = []
concat (t ∷ ts) = t ++ concat ts

pub concat-append : (ts us : List Bytes) → concat (ts ++ us) ≡ concat ts ++ concat us
unfolding concat
concat-append [] us = refl
concat-append (t ∷ ts) us = rw (append_assoc, concat-append ts us) refl

-- One argument of a call as it streams in: its name, and its value in one fragment or more.
pub record Argument : Type 0 where
  pub name : Bytes
  pub first : Bytes
  pub more : List Bytes

unfoldable pub value : Argument → Bytes
unfolding concat
value g = g.first ++ concat g.more

-- No name and no fragment ends in a quote, and no argument has the name of the one before it.
unfoldable pub AllUnquoted : List Bytes → Type 0
AllUnquoted [] = Unit
AllUnquoted (t ∷ ts) = (last_quote t ≡ []) × AllUnquoted ts

unfoldable pub Streams : Option Bytes → List Argument → Type 0
unfolding AllUnquoted
Streams cur [] = Unit
Streams cur (g ∷ gs) =
    (cur ≢ some g.name)
    × (last_quote g.name ≡ [])
    × (last_quote g.first ≡ [])
    × AllUnquoted g.more
    × Streams (some g.name) gs

same_bytes-true : (s t : Bytes) → same_bytes s t ≡ true → s ≡ t
unfolding same_bytes
same_bytes-true [] [] e = refl
same_bytes-true [] (c ∷ t) e = cc
same_bytes-true (b ∷ s) [] e = cc
same_bytes-true (b ∷ s) (c ∷ t) e = ground (arith, same_bytes-true s t)

same_bytes_refl : (s : Bytes) → same_bytes s s ≡ true
unfolding same_bytes
same_bytes_refl [] = refl
same_bytes_refl (b ∷ s) = ground (arith, same_bytes_refl s)

continues-other : (cur : Option Bytes) (n : Bytes) → cur ≢ some n → continues cur n ≡ false
unfolding continues
continues-other none n h = refl
continues-other (some m) n h = elim (Bool-cases (same_bytes m n)) [
  | inl e ↦ absurd (h (ap some (same_bytes-true m n e)))
  | inr e ↦ e
]

module _ (to_json : Bytes → Option Bytes) where
  -- What an object writer gives: members in the order of their arrival, each the JSON text of its name
  -- and that of its whole value.
  unfoldable pub member : Argument → Bytes
  unfolding value
  member g = json_text to_json g.name ++ codes ":" ++ json_text to_json (value g)

  unfoldable pub more_members : List Argument → Bytes
  unfolding member
  more_members [] = []
  more_members (g ∷ gs) = codes "," ++ member g ++ more_members gs

  unfoldable pub object : List Argument → Bytes
  unfolding more_members
  object [] = codes "{}"
  object (g ∷ gs) = codes "{" ++ member g ++ more_members gs ++ codes "}"

  -- The calls of `param` for the fragments of a value after its first, for all arguments, and for a whole call.
  unfoldable pub continue_all : ToolArgStream → Bytes → List Bytes → ToolArgStream × List Bytes
  continue_all a n [] = (a, [])
  continue_all a n (t ∷ ts) =
      let (b, out) = param to_json a n t in let (c, rest) = continue_all b n ts in (c, out ++ rest)

  unfoldable pub argument_all : ToolArgStream → List Argument → ToolArgStream × List Bytes
  unfolding continue_all
  argument_all a [] = (a, [])
  argument_all a (g ∷ gs) =
      let (b, out) = param to_json a g.name g.first in
      let (c, more) = continue_all b g.name g.more in
      let (d, rest) = argument_all c gs in (d, out ++ more ++ rest)

  unfoldable pub call_fragments : ToolArgStream → ℕ → List Argument → List Bytes
  unfolding argument_all
  call_fragments a i gs = let (b, out) = argument_all (begin_call a i) gs in out ++ (end_call b).1

  param-continues :
      (a : ToolArgStream) (n t : Bytes)
      → a.cur_param ≡ some n
      → param to_json a n t ≡ (a, escape_json_fragment to_json t ∷ [])
  unfolding param continues
  param-continues a n t e = rw (e, same_bytes_refl n) refl

  abbrev lead : Bool → Bytes
  lead true = codes ","
  lead false = codes "{"

  abbrev opened : ToolArgStream → Argument → ToolArgStream
  opened a g = record a { is_open = true; cur_param = some g.name }

  param-opens :
      (a : ToolArgStream) (g : Argument)
      → a.cur_param ≢ some g.name
      → (param to_json a g.name g.first).0 ≡ opened a g
        × concat (param to_json a g.name g.first).1
          ≡ concat (close_value a.cur_param)
            ++ lead a.is_open
            ++ quote
            ++ escape_json_fragment to_json g.name
            ++ codes "\":\""
            ++ escape_json_fragment to_json g.first
  unfolding param
  param-opens a g h = elim (Bool-cases a.is_open) [
    | inl e ↦
        rw (continues-other a.cur_param g.name h, e)
          (refl, unfold concat in simp (concat-append, append_assoc, append-nil))
    | inr e ↦
        rw (continues-other a.cur_param g.name h, e)
          (refl, unfold concat in simp (concat-append, append_assoc, append-nil))
  ]

  module _ {esc : ℕ → Bytes} (j : JsonText to_json esc) where
    continue_all-escaped :
        (a : ToolArgStream) (n : Bytes) (ts : List Bytes)
        → a.cur_param ≡ some n
        → AllUnquoted ts
        → (continue_all a n ts).0 ≡ a × concat (continue_all a n ts).1 ≡ escaped esc (concat ts)
    unfolding continue_all concat AllUnquoted
    continue_all-escaped a n [] e u = (refl, unfold escaped in refl)
    continue_all-escaped a n (t ∷ ts) e u =
        let k = continue_all-escaped a n ts e u.1 in
        rw (param-continues a n t e) (
          k.0,
          ap (λ x. escape_json_fragment to_json t ++ x) k.1
              ∙ ap (λ x. x ++ escaped esc (concat ts)) (escape_json_fragment-exact j t u.0)
              ∙ sym (escaped-append j t (concat ts)),
        )

    -- a member without its last quote
    abbrev open_member : Argument → Bytes
    open_member g = quote ++ escaped esc g.name ++ codes "\":\"" ++ escaped esc (value g)

    member-open_member : (g : Argument) → member g ≡ open_member g ++ quote
    unfolding member
    member-open_member g = simp (json_text-quoted j, append_assoc)

    argument_opens :
        (a : ToolArgStream) (g : Argument) (gs : List Argument)
        → Streams a.cur_param (g ∷ gs)
        → let o = param to_json a g.name g.first in
          let r = continue_all o.0 g.name g.more in
          r.0 ≡ opened a g
          × concat (o.1 ++ r.1)
            ≡ concat (close_value a.cur_param) ++ lead a.is_open ++ open_member g
    unfolding Streams value
    argument_opens a g gs u =
        let (state, text) = param-opens a g u.0 in
        let k = continue_all-escaped (opened a g) g.name g.more refl u.3 in
        rw state (
          k.0,
          concat-append (param to_json a g.name g.first).1
                (continue_all (opened a g) g.name g.more).1
              ∙ ap (λ x. x ++ concat (continue_all (opened a g) g.name g.more).1) text
              ∙ simp (
                k.1,
                append_assoc,
                escape_json_fragment-exact j g.name u.1,
                escape_json_fragment-exact j g.first u.2,
                escaped-append j g.first (concat g.more),
              ),
        )

    -- the fragments from a state on, with those of `end_call`
    abbrev ending : ToolArgStream → List Argument → Bytes
    ending a gs = let o = argument_all a gs in concat (o.1 ++ (end_call o.0).1)

    argument_all-ending :
        (a : ToolArgStream) (g : Argument) (gs : List Argument)
        → Streams a.cur_param (g ∷ gs)
        → ending (opened a g) gs ≡ quote ++ more_members gs ++ codes "}"
        → ending a (g ∷ gs)
          ≡ concat (close_value a.cur_param)
            ++ lead a.is_open
            ++ member g
            ++ more_members gs
            ++ codes "}"
    unfolding argument_all
    argument_all-ending a g gs u r =
        let k = argument_opens a g gs u in
        let o = param to_json a g.name g.first in
        let c = continue_all o.0 g.name g.more in
        let d = argument_all (opened a g) gs in
        rw k.0 (
          ap concat (append_assoc (o.1 ++ c.1) d.1 (end_call d.0).1)
          ∙ concat-append (o.1 ++ c.1) (d.1 ++ (end_call d.0).1)
          ∙ ap (λ x. x ++ ending (opened a g) gs) k.1
          ∙ simp (r, member-open_member g, append_assoc))

    argument_all-tail :
        (a : ToolArgStream) (m : Bytes) (gs : List Argument)
        → a.cur_param ≡ some m
        → a.is_open ≡ true
        → Streams (some m) gs
        → ending a gs ≡ quote ++ more_members gs ++ codes "}"
    unfolding more_members close_value concat
    argument_all-tail a m [] c o u = unfold argument_all end_call in rw (c, o) refl
    argument_all-tail a m (g ∷ gs) c o u =
        let r = argument_all-tail (opened a g) g.name gs refl refl (unfold Streams in u.4) in
        argument_all-ending a g gs (subst (λ x. Streams x (g ∷ gs)) (sym c) u) r
        ∙ rw (c, o) (simp append_assoc)

    -- The fragments that the stream of one call gives are together the JSON object of its arguments, as
    -- a writer gives it that has each value whole. JSON text is escaped byte by byte; no name and no
    -- fragment of a value ends in a quote, and no argument has the name of the one before it.
    pub call_fragments-object :
        (a : ToolArgStream) (i : ℕ) (gs : List Argument)
        → Streams none gs
        → concat (call_fragments a i gs) ≡ object gs
    unfolding call_fragments object
    call_fragments-object a i [] u =
        unfold argument_all begin_call end_call close_value concat in refl
    call_fragments-object a i (g ∷ gs) u =
        unfold begin_call close_value concat in
        argument_all-ending (begin_call a i) g gs u (
          argument_all-tail (opened (begin_call a i) g) g.name gs refl refl (unfold Streams in u.4))
