-- ===== src/Server/Emissions.antt =====
-- What the emissions for the events of the parser say: the text, and which calls start.
use mini_cpm5_5080fast.Base.{
  ℕ, zero, suc, ◌+◌, ◌≡◌, refl, sym, ◌∙◌, ap, Option, List, [], ◌∷◌, ◌++◌, arith, append_assoc,
}
use mini_cpm5_5080fast.Bytes.{Bytes}
use mini_cpm5_5080fast.ToolCall.{ToolCallEvent}
use mini_cpm5_5080fast.ToolCall.Events.{joined_text, started, joined_text-append, started-append}
use mini_cpm5_5080fast.Server.{Emission}
use mini_cpm5_5080fast.Server.ArgStream.{
  ToolArgStream, push_tool_events, push_tool_event, args_of, begin_call, param, end_call,
}

-- the text of the content deltas
unfoldable pub joined_content : List Emission → Bytes
joined_content [] = []
joined_content (Emission.role ∷ es) = joined_content es
joined_content (Emission.content t ∷ es) = t ++ joined_content es
joined_content (Emission.tool_start i d n ∷ es) = joined_content es
joined_content (Emission.tool_args i c ∷ es) = joined_content es
joined_content (Emission.final r u ∷ es) = joined_content es
joined_content (Emission.error e ∷ es) = joined_content es

-- the indices at which calls start
unfoldable pub call_starts : List Emission → List ℕ
call_starts [] = []
call_starts (Emission.role ∷ es) = call_starts es
call_starts (Emission.content t ∷ es) = call_starts es
call_starts (Emission.tool_start i d n ∷ es) = i ∷ call_starts es
call_starts (Emission.tool_args i c ∷ es) = call_starts es
call_starts (Emission.final r u ∷ es) = call_starts es
call_starts (Emission.error e ∷ es) = call_starts es

pub joined_content-append :
    (es fs : List Emission) → joined_content (es ++ fs) ≡ joined_content es ++ joined_content fs
unfolding joined_content
joined_content-append [] fs = refl
joined_content-append (Emission.role ∷ es) fs = joined_content-append es fs
joined_content-append (Emission.content t ∷ es) fs =
    rw (joined_content-append es fs, append_assoc t (joined_content es) (joined_content fs))
joined_content-append (Emission.tool_start i d n ∷ es) fs = joined_content-append es fs
joined_content-append (Emission.tool_args i c ∷ es) fs = joined_content-append es fs
joined_content-append (Emission.final r u ∷ es) fs = joined_content-append es fs
joined_content-append (Emission.error e ∷ es) fs = joined_content-append es fs

pub call_starts-append :
    (es fs : List Emission) → call_starts (es ++ fs) ≡ call_starts es ++ call_starts fs
unfolding call_starts
call_starts-append [] fs = refl
call_starts-append (Emission.role ∷ es) fs = call_starts-append es fs
call_starts-append (Emission.content t ∷ es) fs = call_starts-append es fs
call_starts-append (Emission.tool_start i d n ∷ es) fs = ap (◌∷◌ i) (call_starts-append es fs)
call_starts-append (Emission.tool_args i c ∷ es) fs = call_starts-append es fs
call_starts-append (Emission.final r u ∷ es) fs = call_starts-append es fs
call_starts-append (Emission.error e ∷ es) fs = call_starts-append es fs

-- `n` numbers from `i` on
unfoldable pub count_from : ℕ → ℕ → List ℕ
count_from i zero = []
count_from i (suc n) = i ∷ count_from (i + 1) n

pub count_from-eq : (i j m n : ℕ) → i ≡ j → m ≡ n → count_from i m ≡ count_from j n
count_from-eq i j m n p q = rw (p, q) refl

pub count_from-append : (i m n : ℕ) → count_from i (m + n) ≡ count_from i m ++ count_from (i + m) n
unfolding count_from
count_from-append i zero n = count_from-eq i (i + 0) (0 + n) n (omega arith) (omega arith)
count_from-append i (suc m) n =
    count_from-eq i i (suc m + n) (suc (m + n)) refl (omega arith)
    ∙ ap (◌∷◌ i) (count_from-append (i + 1) m n)
    ∙ ap (λ xs. count_from i (suc m) ++ xs)
        (count_from-eq (i + 1 + m) (i + suc m) n n (omega arith) refl)

args_of-quiet :
    (i : ℕ) (cs : List Bytes)
    → (joined_content (args_of i cs) ≡ []) × (call_starts (args_of i cs) ≡ [])
unfolding joined_content call_starts
args_of-quiet i [] = (refl, refl)
args_of-quiet i (c ∷ cs) = args_of-quiet i cs

module _ (to_json : Bytes → Option Bytes) where
  param-next_index :
      (a : ToolArgStream) (n v : Bytes) → (param to_json a n v).0.next_index ≡ a.next_index
  unfolding param
  param-next_index a n v = ground arith

  -- one event: its text, its start and the index after it
  abbrev Tells : ToolArgStream → List ToolCallEvent → ToolArgStream × List Emission → Type 0
  Tells a evs (b, out) =
      (joined_content out ≡ joined_text evs)
      × (call_starts out ≡ count_from a.next_index (started evs))
      × (b.next_index ≡ a.next_index + started evs)

  push_tool_event-Tells :
      (a : ToolArgStream) (ev : ToolCallEvent) → Tells a (ev ∷ []) (push_tool_event to_json a ev)
  unfolding push_tool_event joined_content call_starts joined_text started count_from begin_call
      end_call
  push_tool_event-Tells a (ToolCallEvent.text t) = (refl, refl, omega arith)
  push_tool_event-Tells a (ToolCallEvent.tool_call_start n) = (refl, refl, omega arith)
  push_tool_event-Tells a (ToolCallEvent.param_value n v) =
      let o = param to_json a n v in
      let k = args_of-quiet o.0.index o.1 in (k.0, k.1, omega (arith, param-next_index a n v))
  push_tool_event-Tells a (ToolCallEvent.tool_call_end c) =
      let o = end_call a in let k = args_of-quiet o.0.index o.1 in (k.0, k.1, omega arith)

  Tells-append :
      (a b c : ToolArgStream) (evs fvs : List ToolCallEvent) (out rest : List Emission)
      → Tells a evs (b, out)
      → Tells b fvs (c, rest)
      → Tells a (evs ++ fvs) (c, out ++ rest)
  Tells-append a b c evs fvs out rest p q = (
    joined_content-append out rest ∙ rw (p.0, q.0) (sym (joined_text-append evs fvs)),
    call_starts-append out rest
        ∙ rw (p.1, q.1, p.2, started-append evs fvs)
            (sym (count_from-append a.next_index (started evs) (started fvs))),
    omega (arith, p.2, q.2, started-append evs fvs),
  )

  -- The emissions for the events of the parser have the text of the events, and a start for each call
  -- that starts, numbered on from the calls before; the count goes on after the last.
  pub push_tool_events-next_index :
      (a : ToolArgStream) (evs : List ToolCallEvent)
      → let o = push_tool_events to_json a evs in
        (joined_content o.1 ≡ joined_text evs)
        × (call_starts o.1 ≡ count_from a.next_index (started evs))
        × (o.0.next_index ≡ a.next_index + started evs)
  unfolding push_tool_events
  push_tool_events-next_index a [] =
      unfold joined_content joined_text call_starts started count_from in (refl, refl, omega arith)
  push_tool_events-next_index a (ev ∷ evs) =
      let (b, out) = push_tool_event to_json a ev in
      let (c, rest) = push_tool_events to_json b evs in
      Tells-append a b c (ev ∷ []) evs out rest (push_tool_event-Tells a ev)
        (push_tool_events-next_index b evs)
