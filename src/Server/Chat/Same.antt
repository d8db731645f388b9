-- ===== src/Server/Chat/Same.antt =====
-- What a client of the chat route reads from the frames of a streamed answer, and from a whole one.
use mini_cpm5_5080fast.Base.{
  ℕ, ◌≡◌, refl, sym, ap, ◌∙◌, true, false, Option, none, some, List, [], ◌∷◌, ◌++◌, ◌>>=◌,
}
use mini_cpm5_5080fast.Bytes.{Bytes}
use mini_cpm5_5080fast.Bytes.Text.{codes}
use mini_cpm5_5080fast.Stop.Window.{AllFilled}
use mini_cpm5_5080fast.Scheduler.Types.{GenEvent}
use mini_cpm5_5080fast.Server.{Emission}
use mini_cpm5_5080fast.Server.ArgStream.{same_bytes}
use mini_cpm5_5080fast.Server.Json.{
  Json, null, number, string, array, object, nil, cons, get, get_member,
}
use mini_cpm5_5080fast.Server.Emissions.{joined_content, call_starts}
use mini_cpm5_5080fast.Server.Generation.{Route, Generation, GenResult, run_generation}
use mini_cpm5_5080fast.Server.Generation.Told.{run_generation-joined_content}
use mini_cpm5_5080fast.Server.Chat.{
  SseCtx, render, render_all, chunk, reason_json, usage_member, usage_json, non_stream_json,
}

-- the first element of an array
unfoldable pub first : Json → Option Json
first (array (cons v vs)) = some v
first (array nil) = none
first null = none
first (Json.bool b) = none
first (number n) = none
first (string s) = none
first (object ms) = none

-- the text at a path; no text when something on the way is missing
unfoldable pub text_of : Option Json → Bytes
text_of none = []
text_of (some null) = []
text_of (some (Json.bool b)) = []
text_of (some (number n)) = []
text_of (some (string s)) = s
text_of (some (array vs)) = []
text_of (some (object ms)) = []

-- the first choice of a frame or a body
unfoldable pub choice : Json → Option Json
unfolding get get_member same_bytes first
choice v = do choices ← get v (codes "choices"); first choices

unfoldable pub content_in : Bytes → Json → Option Json
unfolding get get_member same_bytes first choice
content_in part v = do c ← choice v; said ← get c part; get said (codes "content")

unfoldable pub arguments_in : Json → Option Json
unfolding get get_member same_bytes first choice
arguments_in v = do
  c ← choice v
  said ← get c (codes "delta")
  calls ← get said (codes "tool_calls")
  call ← first calls
  function ← get call (codes "function")
  get function (codes "arguments")

unfoldable pub read_content : List Json → Bytes
unfolding text_of content_in
read_content [] = []
read_content (v ∷ vs) = text_of (content_in (codes "delta") v) ++ read_content vs

unfoldable pub read_arguments : List Json → Bytes
unfolding text_of arguments_in
read_arguments [] = []
read_arguments (v ∷ vs) = text_of (arguments_in v) ++ read_arguments vs

-- the text of the argument deltas
unfoldable pub joined_arguments : List Emission → Bytes
joined_arguments [] = []
joined_arguments (Emission.role ∷ es) = joined_arguments es
joined_arguments (Emission.content t ∷ es) = joined_arguments es
joined_arguments (Emission.tool_start i d n ∷ es) = joined_arguments es
joined_arguments (Emission.tool_args i c ∷ es) = c ++ joined_arguments es
joined_arguments (Emission.final r u ∷ es) = joined_arguments es
joined_arguments (Emission.error e ∷ es) = joined_arguments es

-- A client that puts together the content and the arguments of the first choice of each frame, and skips
-- a frame that has none, reads the content and the argument deltas of the answer, all and in order.
pub read-render_all :
    (ctx : SseCtx) (es : List Emission)
    → (read_content (render_all ctx es) ≡ joined_content es)
      × (read_arguments (render_all ctx es) ≡ joined_arguments es)
unfolding read_content read_arguments text_of content_in arguments_in choice first get get_member
    same_bytes render_all render chunk reason_json usage_member usage_json joined_content
    joined_arguments
read-render_all ctx [] = (refl, refl)
read-render_all ctx (Emission.role ∷ es) = read-render_all ctx es
read-render_all ctx (Emission.content t ∷ es) =
    let ih = read-render_all ctx es in (ap (λ x. t ++ x) ih.0, ih.1)
read-render_all ctx (Emission.tool_start i d n ∷ es) = read-render_all ctx es
read-render_all ctx (Emission.tool_args i c ∷ es) =
    let ih = read-render_all ctx es in (ih.0, ap (λ x. c ++ x) ih.1)
read-render_all ctx (Emission.final r u ∷ es) = read-render_all ctx es
read-render_all ctx (Emission.error e ∷ es) = read-render_all ctx es

-- the body of a whole answer has its content
non_stream_json-content :
    (res : GenResult) (id : Bytes) (created : ℕ) (model : Bytes)
    → text_of (content_in (codes "message") (non_stream_json res id created model)) ≡ res.content
unfolding text_of content_in choice first get get_member same_bytes non_stream_json
non_stream_json-content res id created model = refl

module _ {W : Type 0} (r : Route W)
    (accepts : (w : W) (em : Emission) → (r.emit w em).0 ≡ true) where
  -- The streamed and the whole answer say the same: if no slice panics, nothing fails, no call starts and
  -- the client takes every frame, the content that it reads from the frames is the content that it would
  -- read from the body of the result. No stop string is empty.
  pub run_generation-same_text :
      (rx : List GenEvent) (stop_strings : List Bytes) (prompt_len : ℕ) (w : W) (h : Generation W)
      (res : GenResult) (ctx : SseCtx)
      → AllFilled stop_strings
      → run_generation r rx stop_strings prompt_len w ≡ some (h, res)
      → res.error ≡ none
      → h.client_gone ≡ false
      → call_starts h.sent ≡ []
      → read_content (render_all ctx h.sent)
        ≡ text_of (content_in (codes "message") (non_stream_json res ctx.id ctx.created ctx.model))
  run_generation-same_text rx stop_strings prompt_len w h res ctx a e fine stays quiet =
      (read-render_all ctx h.sent).0
      ∙ run_generation-joined_content r accepts rx stop_strings prompt_len w h res a e fine stays
          quiet
      ∙ sym (non_stream_json-content res ctx.id ctx.created ctx.model)
