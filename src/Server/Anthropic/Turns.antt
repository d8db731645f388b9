-- ===== src/Server/Anthropic/Turns.antt =====
-- What the turns of a request say, answer and call, and what the chat messages for them have of it.
use mini_cpm5_5080fast.Base.{
  ◌≤◌, ◌≡◌, refl, ◌∙◌, ap, not, ◌||◌, Option, some, none, List, [], ◌∷◌, ◌++◌, length,
  length-append, sym, subst, if◌then◌else◌, arith, Bool-cases, inl, inr, append-nil, append_assoc,
  true, false,
}
use mini_cpm5_5080fast.Bytes.{Bytes}
use mini_cpm5_5080fast.Bytes.Text.{codes}
use mini_cpm5_5080fast.ToolCall.{nonempty}
use mini_cpm5_5080fast.Server.Json.{
  Json, null, bool, number, string, array, object, end, get, is_object,
}
use mini_cpm5_5080fast.Server.Anthropic.Request.{
  Message, Call, or_user, or_empty, tool_results, tool_calls, tool_result, tool_call, any, has_type,
  turn_blocks, content_of, turn_texts, join, get_str, blocks_text, assistant_message,
  convert_user_message, convert_assistant_message, is_assistant, convert_messages,
}

-- a role with a text, the answer of a tool, and a call with its arguments
abbrev pub Saying : Type 0
Saying = Bytes × Bytes

abbrev pub Answer : Type 0
Answer = Bytes × Bytes

abbrev pub Use : Type 0
Use = Bytes × Bytes × Json

-- nothing is said by an empty text
unfoldable pub spoken : Bytes → Bytes → List Saying
spoken role [] = []
spoken role (b ∷ bs) = (role, b ∷ bs) ∷ []

-- the id of the use that is answered, and the text
abbrev pub answer_of : Json → Answer
answer_of b = (
  or_empty (get_str b (codes "tool_use_id")),
  elim (get b (codes "content")) [ some content ↦ blocks_text content | none ↦ [] ],
)

unfoldable pub answers_in : List Json → List Answer
answers_in [] = []
answers_in (b ∷ bs) =
    if has_type (codes "tool_result") b then answer_of b ∷ answers_in bs else answers_in bs

-- the arguments: an object, or nothing
abbrev pub object_or_empty : Option Json → Json
object_or_empty (some (object ms)) = object ms
object_or_empty (some null) = object end
object_or_empty (some (bool b)) = object end
object_or_empty (some (number n)) = object end
object_or_empty (some (string s)) = object end
object_or_empty (some (array vs)) = object end
object_or_empty none = object end

-- the uses in blocks: the id, the name and the arguments
unfoldable pub uses_in : List Json → List Use
uses_in [] = []
uses_in (b ∷ bs) =
    if has_type (codes "tool_use") b
    then (
      or_empty (get_str b (codes "id")),
      or_empty (get_str b (codes "name")),
      object_or_empty (get b (codes "input")),
    )
      ∷ uses_in bs
    else uses_in bs

unfoldable pub said : List Message → List Saying
unfolding spoken
said [] = []
said (Message.plain role text ∷ ms) = spoken role text ++ said ms
said (Message.tool id text ∷ ms) = said ms
said (Message.with_calls none calls ∷ ms) = said ms
said (Message.with_calls (some text) calls ∷ ms) = spoken (codes "assistant") text ++ said ms

unfoldable pub answered : List Message → List Answer
answered [] = []
answered (Message.plain role text ∷ ms) = answered ms
answered (Message.tool id text ∷ ms) = (id, text) ∷ answered ms
answered (Message.with_calls text calls ∷ ms) = answered ms

unfoldable pub uses : List Call → List Use
uses [] = []
uses (c ∷ cs) = (c.id, c.name, c.arguments) ∷ uses cs

unfoldable pub called : List Message → List Use
unfolding uses
called [] = []
called (Message.plain role text ∷ ms) = called ms
called (Message.tool id text ∷ ms) = called ms
called (Message.with_calls text calls ∷ ms) = uses calls ++ called ms

-- The messages say, answer and call just this, and there is at least one.
unfoldable pub Tells : List Saying → List Answer → List Use → List Message → Type 0
unfolding said answered called
Tells texts answers calls out =
    (1 ≤ length out) × (said out ≡ texts) × (answered out ≡ answers) × (called out ≡ calls)

-- what one turn says, answers and calls, by its role
unfoldable pub Told : Json → List Message → Type 0
unfolding Tells spoken answers_in uses_in
Told msg out =
    let content = content_of msg in
    let text = join (turn_texts content) in
    if is_assistant msg
    then Tells (spoken (codes "assistant") text) [] (uses_in (turn_blocks content)) out
    else Tells (spoken (or_user (get_str msg (codes "role"))) text)
        (answers_in (turn_blocks content)) [] out

-- The messages are those for the first turn, then those for the next, and so on.
unfoldable pub Kept : List Json → List Message → Type 0
unfolding Told
Kept [] out = out ≡ []
Kept (msg ∷ msgs) out =
    (first rest : List Message) × (out ≡ first ++ rest) × Told msg first × Kept msgs rest

tool_results-tell :
    (bs : List Json)
    → (said (tool_results bs) ≡ [])
      × (answered (tool_results bs) ≡ answers_in bs)
      × (called (tool_results bs) ≡ [])
unfolding tool_results tool_result said answered called answers_in
tool_results-tell [] = (refl, refl, refl)
tool_results-tell (b ∷ bs) =
    let (k, l, m) = tool_results-tell bs in
    elim (Bool-cases (has_type (codes "tool_result") b)) [
      | inl e ↦ rw e (k, ap (λ x. answer_of b ∷ x) l, m)
      | inr e ↦ rw e (k, l, m)
    ]

pub is_object-or_empty :
    (o : Option Json)
    → (elim o [ some v ↦ if is_object v then v else object end | none ↦ object end ])
      ≡ object_or_empty o
unfolding is_object
is_object-or_empty none = refl
is_object-or_empty (some (object ms)) = refl
is_object-or_empty (some null) = refl
is_object-or_empty (some (bool b)) = refl
is_object-or_empty (some (number n)) = refl
is_object-or_empty (some (string s)) = refl
is_object-or_empty (some (array vs)) = refl

uses-tool_calls : (bs : List Json) → uses (tool_calls bs) ≡ uses_in bs
unfolding tool_calls tool_call uses uses_in
uses-tool_calls [] = refl
uses-tool_calls (b ∷ bs) = elim (Bool-cases (has_type (codes "tool_use") b)) [
  | inl e ↦ rw e (λ i.
      (
        or_empty (get_str b (codes "id")),
        or_empty (get_str b (codes "name")),
        is_object-or_empty (get b (codes "input")) i,
      )
      ∷ uses-tool_calls bs i)
  | inr e ↦ rw e (uses-tool_calls bs)
]

append-said :
    (xs : List Message) (role text : Bytes)
    → said (xs ++ Message.plain role text ∷ []) ≡ said xs ++ spoken role text
unfolding said
append-said [] role text = append-nil (spoken role text)
append-said (Message.plain r t ∷ xs) role text =
    ap (λ x. spoken r t ++ x) (append-said xs role text) ∙ rw append_assoc
append-said (Message.tool id t ∷ xs) role text = append-said xs role text
append-said (Message.with_calls none cs ∷ xs) role text = append-said xs role text
append-said (Message.with_calls (some t) cs ∷ xs) role text =
    ap (λ x. spoken (codes "assistant") t ++ x) (append-said xs role text) ∙ rw append_assoc

append-plain :
    (xs : List Message) (role text : Bytes)
    → let out = xs ++ Message.plain role text ∷ [] in
      (answered out ≡ answered xs) × (called out ≡ called xs)
unfolding answered called
append-plain [] role text = (refl, refl)
append-plain (Message.plain r t ∷ xs) role text = append-plain xs role text
append-plain (Message.tool id t ∷ xs) role text =
    let (k, l) = append-plain xs role text in (ap (λ x. (id, t) ∷ x) k, l)
append-plain (Message.with_calls t cs ∷ xs) role text =
    let (k, l) = append-plain xs role text in (k, ap (λ x. uses cs ++ x) l)

nonempty-spoken : (role text : Bytes) → nonempty text ≡ false → spoken role text ≡ []
unfolding spoken
nonempty-spoken role [] e = refl
nonempty-spoken role (b ∷ bs) e = absurd cc

any-length : (results : List Message) → any results ≡ true → 1 ≤ length results
any-length [] e = absurd cc
any-length (m ∷ ms) e = omega arith

-- the messages of a user turn: results, and the text unless it is empty and there are results
user-Tells :
    (results : List Message) (role text : Bytes)
    → said results ≡ []
    → Tells (spoken role text) (answered results) (called results) (
        results
        ++ (if nonempty text || not (any results) then Message.plain role text ∷ [] else []))
unfolding Tells said answered called
user-Tells results role text quiet = elim (Bool-cases (nonempty text || not (any results))) [
  | inl e ↦
      let (k, l) = append-plain results role text in
      rw e (
        omega (arith, length-append results (Message.plain role text ∷ [])),
        append-said results role text ∙ ap (λ x. x ++ spoken role text) quiet,
        k,
        l,
      )
  | inr e ↦
      rw (e, append-nil results)
        (
          any-length results (ground (arith, e)),
          quiet ∙ sym (nonempty-spoken role text (ground (arith, e))),
          refl,
          refl,
        )
]

assistant_message-Tells :
    (texts : List Bytes) (calls : List Call)
    → Tells
        (spoken (codes "assistant") (join texts))
        []
        (uses calls)
        (assistant_message texts calls ∷ [])
unfolding assistant_message Tells said answered called uses spoken join
assistant_message-Tells texts [] = (omega arith, append-nil _, refl, refl)
assistant_message-Tells [] (c ∷ cs) = (omega arith, refl, refl, append-nil _)
assistant_message-Tells (t ∷ ts) (c ∷ cs) = (omega arith, append-nil _, refl, append-nil _)

convert_user_message-Tells :
    (msg : Json)
    → let content = content_of msg in
      Tells
        (spoken (or_user (get_str msg (codes "role"))) (join (turn_texts content)))
        (answers_in (turn_blocks content))
        []
        (convert_user_message msg)
unfolding convert_user_message
convert_user_message-Tells msg =
    let content = content_of msg in
    let role = or_user (get_str msg (codes "role")) in
    let bs = turn_blocks content in
    let (k, l, m) = tool_results-tell bs in
    let text = join (turn_texts content) in
    subst (λ x. Tells (spoken role text) x [] (convert_user_message msg)) l
      (subst
        (λ x. Tells (spoken role text) (answered (tool_results bs)) x (convert_user_message msg)) m
        (user-Tells (tool_results bs) role text k))

convert_assistant_message-Tells :
    (msg : Json)
    → let content = content_of msg in
      Tells
        (spoken (codes "assistant") (join (turn_texts content)))
        []
        (uses_in (turn_blocks content))
        (convert_assistant_message msg)
unfolding convert_assistant_message
convert_assistant_message-Tells msg =
    let content = content_of msg in
    let text = join (turn_texts content) in
    subst (λ x. Tells (spoken (codes "assistant") text) [] x (convert_assistant_message msg))
      (uses-tool_calls (turn_blocks content))
      (assistant_message-Tells (turn_texts content) (tool_calls (turn_blocks content)))

turn-Told :
    (msg : Json)
    → Told msg
        (if is_assistant msg then convert_assistant_message msg else convert_user_message msg)
unfolding Told
turn-Told msg = elim (Bool-cases (is_assistant msg)) [
  | inl e ↦ rw e (convert_assistant_message-Tells msg)
  | inr e ↦ rw e (convert_user_message-Tells msg)
]

-- The chat messages are at least one for each turn, in the order of the turns. Those for a turn say its text,
-- with its role, unless it is empty; those for a user turn answer exactly its tool results, and those for an
-- assistant turn call exactly its tool uses, in order and with their ids, texts, names and arguments. The
-- text of a turn is that of its text blocks; arguments that are no object are taken as none.
pub convert_messages-Kept : (msgs : List Json) → Kept msgs (convert_messages msgs)
unfolding convert_messages Kept
convert_messages-Kept [] = refl
convert_messages-Kept (msg ∷ msgs) = (
  if is_assistant msg then convert_assistant_message msg else convert_user_message msg,
  convert_messages msgs,
  refl,
  turn-Told msg,
  convert_messages-Kept msgs,
)
