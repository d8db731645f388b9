-- ===== src/Server/Anthropic/Client.antt =====
-- The event stream of a message as a client reads it: an abstract machine that takes one event at a time
-- and refuses what the protocol does not allow.
use mini_cpm5_5080fast.Base.{
  ℕ, ◌+◌, ◌≤◌, ◌≡◌, refl, ◌∙◌, Option, none, some, List, [], ◌∷◌, ◌++◌, ◌==◌, ltb, if◌then◌else◌,
  arith, Option-cases, inl, inr, ◌>>=◌,
}
use mini_cpm5_5080fast.Bytes.{Bytes}
use mini_cpm5_5080fast.Usage.{Usage}
use mini_cpm5_5080fast.Server.Anthropic.{Frame, stop_all}
use mini_cpm5_5080fast.Server.Anthropic.Blocks.{count, remove, count-remove}

-- No message yet; in a message; after its `message_delta`; and the end.
pub data Phase : Type 0 where
  idle in_message ending over : Phase

pub record Client : Type 0 where
  pub phase : Phase
  pub next : ℕ
  pub open_blocks : List ℕ

-- A block starts with the next index; a delta or a stop needs an open block; `message_delta` comes when all
-- blocks are closed, and then only `message_stop`.
unfoldable pub take_in_message : Client → Frame → Option Client
unfolding count remove
take_in_message c (Frame.message_start id model n) = none
take_in_message c (Frame.text_start i) =
    if i == c.next then some (record c { next = i + 1; open_blocks = i ∷ c.open_blocks }) else none
take_in_message c (Frame.text_delta i t) = if ltb 0 (count i c.open_blocks) then some c else none
take_in_message c (Frame.tool_use_start i id name) =
    if i == c.next then some (record c { next = i + 1; open_blocks = i ∷ c.open_blocks }) else none
take_in_message c (Frame.input_json_delta i chunk) =
    if ltb 0 (count i c.open_blocks) then some c else none
take_in_message c (Frame.content_block_stop i) =
    if ltb 0 (count i c.open_blocks)
    then some (record c { open_blocks = remove i c.open_blocks })
    else none
take_in_message c (Frame.message_delta reason usage) = elim c.open_blocks [
  | [] ↦ some (record c { phase = ending })
  | i ∷ is ↦ none
]
take_in_message c Frame.message_stop = none
take_in_message c (Frame.api_error message) = some (record c { phase = over })

unfoldable pub take_ending : Client → Frame → Option Client
take_ending c Frame.message_stop = some (record c { phase = over })
take_ending c _ = none

unfoldable pub take_idle : Client → Frame → Option Client
take_idle c (Frame.message_start id model n) = some (record c { phase = in_message })
take_idle c (Frame.api_error message) = some (record c { phase = over })
take_idle c _ = none

unfoldable pub take_frame : Client → Frame → Option Client
unfolding take_in_message take_ending take_idle
take_frame c f = elim c.phase [
  | idle ↦ take_idle c f
  | in_message ↦ take_in_message c f
  | ending ↦ take_ending c f
  | over ↦ none
]

unfoldable pub follow : Client → List Frame → Option Client
unfolding take_frame
follow c [] = some c
follow c (f ∷ fs) = take_frame c f >>= λ c'. follow c' fs

follow-append :
    (c : Client) (fs gs : List Frame) → follow c (fs ++ gs) ≡ (follow c fs >>= λ c'. follow c' gs)
unfolding follow
follow-append c [] gs = refl
follow-append c (f ∷ fs) gs = elim (Option-cases (take_frame c f)) [
  | inl e ↦ rw e refl
  | inr (c', e) ↦ rw e (follow-append c' fs gs)
]

pub follow-one : (c d : Client) (f : Frame) → take_frame c f ≡ some d → follow c (f ∷ []) ≡ some d
unfolding follow
follow-one c d f k = rw k refl

pub follow-then :
    (c d d' : Client) (fs gs : List Frame)
    → follow c fs ≡ some d
    → follow d gs ≡ some d'
    → follow c (fs ++ gs) ≡ some d'
follow-then c d d' fs gs k l = follow-append c fs gs ∙ rw k l

-- what the client does with each kind of event in a message
pub take-text_delta :
    (c : Client) (i : ℕ) (t : Bytes)
    → c.phase ≡ in_message
    → 1 ≤ count i c.open_blocks
    → take_frame c (Frame.text_delta i t) ≡ some c
unfolding take_frame take_in_message
take-text_delta c i t p h = rw p (ground (arith, h))

pub take-json_delta :
    (c : Client) (i : ℕ) (t : Bytes)
    → c.phase ≡ in_message
    → 1 ≤ count i c.open_blocks
    → take_frame c (Frame.input_json_delta i t) ≡ some c
unfolding take_frame take_in_message
take-json_delta c i t p h = rw p (ground (arith, h))

abbrev pub started_at : Client → ℕ → Client
started_at c i = record c { next = i + 1; open_blocks = i ∷ c.open_blocks }

pub take-text_start :
    (c : Client) (i : ℕ)
    → c.phase ≡ in_message
    → c.next ≡ i
    → take_frame c (Frame.text_start i) ≡ some (started_at c i)
unfolding take_frame take_in_message
take-text_start c i p h = rw p (ground (arith, h))

pub take-tool_use_start :
    (c : Client) (i : ℕ) (id name : Bytes)
    → c.phase ≡ in_message
    → c.next ≡ i
    → take_frame c (Frame.tool_use_start i id name) ≡ some (started_at c i)
unfolding take_frame take_in_message
take-tool_use_start c i id name p h = rw p (ground (arith, h))

take-content_block_stop :
    (c : Client) (i : ℕ)
    → c.phase ≡ in_message
    → 1 ≤ count i c.open_blocks
    → take_frame c (Frame.content_block_stop i)
      ≡ some (record c { open_blocks = remove i c.open_blocks })
unfolding take_frame take_in_message
take-content_block_stop c i p h = rw p (ground (arith, h))

-- Blocks that are all open are stopped one by one.
pub follow-stop_all :
    (c : Client) (is : List ℕ)
    → c.phase ≡ in_message
    → ((i : ℕ) → count i is ≤ count i c.open_blocks)
    → (d : Client) × (follow c (stop_all is) ≡ some d)
      × (d.phase ≡ in_message)
      × (d.next ≡ c.next)
      × ((i : ℕ) → count i d.open_blocks + count i is ≡ count i c.open_blocks)
unfolding count
follow-stop_all c [] p h = (c, unfold follow in refl, p, refl, λ i. omega arith)
follow-stop_all c (x ∷ is) p h =
    let first : 1 ≤ count x c.open_blocks = ground (arith, h x) in
    let c' = record c { open_blocks = remove x c.open_blocks } in
    let (d, k, p', n, counts) =
      follow-stop_all c' is p (λ i. ground (arith, h i, count-remove i x c.open_blocks first)) in
    (
      d,
      follow-then c c' d (Frame.content_block_stop x ∷ []) (stop_all is)
          (follow-one c c' _ (take-content_block_stop c x p first)) k,
      p',
      n,
      λ i. ground (arith, counts i, count-remove i x c.open_blocks first),
    )

pub take-end :
    (d : Client) (why : Bytes) (usage : Usage)
    → d.phase ≡ in_message
    → d.open_blocks ≡ []
    → follow d (Frame.message_delta why usage ∷ Frame.message_stop ∷ [])
      ≡ some (record d { phase = over })
unfolding follow take_frame take_in_message take_ending
take-end d why usage p o = ground (arith, p, o)

abbrev pub idle_client : Client
idle_client = record { phase = idle; next = 0; open_blocks = [] }

abbrev pub reading_client : Client
reading_client = record { phase = in_message; next = 0; open_blocks = [] }
