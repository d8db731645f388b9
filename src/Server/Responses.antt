-- ===== src/Server/Responses.antt =====
-- rust/minicpm-server/src/responses.rs: `ResponsesSseEncoder`, which turns the emissions of an answer into
-- the events of a response stream. An event is a constructor with the fields that its JSON has. The ids of
-- items come from `mint`, a parameter with its state.
pub mod Folding
pub mod Input
pub mod Items
pub mod Order
pub mod Output
pub mod Same
pub mod Text
mod Tests
use mini_cpm5_5080fast.Base.{
  ℕ, zero, suc, ◌+◌, ◌%◌, Bool, true, false, not, ◌&&◌, Option, none, some, List, [], ◌∷◌, ◌++◌,
  map, get_elem?, if◌then◌else◌, ◌==◌,
}
use mini_cpm5_5080fast.Bytes.{Bytes}
use mini_cpm5_5080fast.Bytes.Text.{codes}
use mini_cpm5_5080fast.Words.{u64_mod}
use mini_cpm5_5080fast.Usage.{Usage}
use mini_cpm5_5080fast.ToolCall.{nonempty}
use mini_cpm5_5080fast.Server.{Emission}
use mini_cpm5_5080fast.Server.ArgStream.{same_bytes}

pub data Item : Type 0 where
  message : Bytes → ℕ → Bytes → Bool → Item
  function_call : ℕ → Bytes → Bytes → Bytes → ℕ → Bytes → Bool → Item

-- the JSON of a completed item
pub data ItemJson : Type 0 where
  message_json : Bytes → Bytes → ItemJson
  function_call_json : Bytes → Bytes → Bytes → Bytes → ItemJson

unfoldable pub item_json : Item → ItemJson
item_json (Item.message id i text closed) = ItemJson.message_json id text
item_json (Item.function_call index id call_id name i arguments closed) =
    ItemJson.function_call_json id call_id name arguments

-- What an event says, besides its number.
pub data Payload : Type 0 where
  created in_progress : Payload
  message_added : ℕ → Bytes → Payload
  part_added : ℕ → Bytes → Payload
  text_delta : ℕ → Bytes → Bytes → Payload
  text_done : ℕ → Bytes → Bytes → Payload
  part_done : ℕ → Bytes → Bytes → Payload
  item_done : ℕ → ItemJson → Payload
  call_added : ℕ → Bytes → Bytes → Bytes → Payload
  arguments_delta : ℕ → Bytes → Bytes → Payload
  arguments_done : ℕ → Bytes → Bytes → Payload
  ended : Bool → List ItemJson → Usage → Payload
  server_error : Bytes → Payload

pub record Event : Type 0 where
  pub sequence_number : ℕ
  pub payload : Payload

pub record ResponsesSseEncoder (W : Type 0) : Type 0 where
  pub id : Bytes
  pub model : Bytes
  pub created_at : ℕ
  pub sequence_number : ℕ
  pub world : W
  pub items : List Item
  pub next_output_index : ℕ

abbrev pub is_open_message : Item → Bool
is_open_message (Item.message id i text closed) = not closed
is_open_message (Item.function_call index id call_id name i arguments closed) = false

-- `rposition`
unfoldable pub open_message_pos : List Item → Option ℕ
open_message_pos [] = none
open_message_pos (it ∷ its) = elim (open_message_pos its) [
  | some p ↦ some (suc p)
  | none ↦ if is_open_message it then some 0 else none
]

abbrev pub update : (Item → Item) → List Item → ℕ → List Item
update f [] i = []
update f (it ∷ its) zero = f it ∷ its
update f (it ∷ its) (suc i) = it ∷ update f its i

abbrev pub close : Item → Item
close (Item.message id i text closed) = Item.message id i text true
close (Item.function_call index id call_id name i arguments closed) =
    Item.function_call index id call_id name i arguments true

abbrev pub push_str : Bytes → Item → Item
push_str t (Item.message id i text closed) = Item.message id i (text ++ t) closed
push_str t (Item.function_call index id call_id name i arguments closed) =
    Item.function_call index id call_id name i (arguments ++ t) closed

-- the events that close an item
unfoldable pub done_payloads : Item → List Payload
unfolding item_json
done_payloads (Item.message id i text closed) =
    Payload.text_done i id text
    ∷ Payload.part_done i id text
    ∷ Payload.item_done i (item_json (Item.message id i text closed))
    ∷ []
done_payloads (Item.function_call index id call_id name i arguments closed) =
    Payload.arguments_done i id arguments
    ∷ Payload.item_done i (item_json (Item.function_call index id call_id name i arguments closed))
    ∷ []

abbrev pub done_at : Option Item → List Payload
unfolding done_payloads
done_at none = []
done_at (some it) = done_payloads it

-- the closing loop over the calls: the items after it, and the items that it closed
unfoldable pub close_calls : List Item → List Item × List Item
close_calls [] = ([], [])
close_calls (Item.message id i text closed ∷ its) =
    let (rest, shut) = close_calls its in (Item.message id i text closed ∷ rest, shut)
close_calls (Item.function_call index id call_id name i arguments closed ∷ its) =
    let (rest, shut) = close_calls its in
    let it = Item.function_call index id call_id name i arguments in
    if closed then (it true ∷ rest, shut) else (it true ∷ rest, it true ∷ shut)

unfoldable pub all_done : List Item → List Payload
unfolding done_payloads
all_done [] = []
all_done (it ∷ its) = done_payloads it ++ all_done its

-- whether a call takes the arguments of the call `index`
abbrev pub takes : ℕ → Item → Bool
takes index (Item.message id i text closed) = false
takes index (Item.function_call index' id call_id name i arguments closed) =
    not closed && index' == index

-- the loop of `ToolArgs`: the first open call with the index takes the chunk
unfoldable pub push_arguments : ℕ → Bytes → List Item → List Item × Option Item
push_arguments index chunk [] = ([], none)
push_arguments index chunk (it ∷ its) =
    let (rest, target) = push_arguments index chunk its in
    if takes index it then (push_str chunk it ∷ its, some it) else (it ∷ rest, target)

abbrev pub arguments_payloads : Option Item → Bytes → List Payload
arguments_payloads (some (Item.function_call index id call_id name i arguments closed)) chunk =
    Payload.arguments_delta i id chunk ∷ []
arguments_payloads (some (Item.message id i text closed)) chunk = []
arguments_payloads none chunk = []

-- the delta event of an item to which text was added
abbrev pub text_payloads : Option Item → Bytes → List Payload
text_payloads (some (Item.message id i text closed)) t = Payload.text_delta i id t ∷ []
text_payloads (some (Item.function_call index id call_id name i arguments closed)) t = []
text_payloads none t = []

-- `event` for each payload
unfoldable pub number : ℕ → List Payload → List Event
number n [] = []
number n (p ∷ ps) = record { sequence_number = n; payload = p } ∷ number ((n + 1) % u64_mod) ps

unfoldable pub number_after : ℕ → List Payload → ℕ
number_after n [] = n
number_after n (p ∷ ps) = number_after ((n + 1) % u64_mod) ps

unfoldable pub new : {W : Type 0} → Bytes → Bytes → ℕ → W → ResponsesSseEncoder W
new id model created_at w = record {
  id = id;
  model = model;
  created_at = created_at;
  sequence_number = 0;
  world = w;
  items = [];
  next_output_index = 0;
}

-- what a render has so far: the encoder and the events that were made
abbrev pub Said : Type 0 → Type 0
Said W = ResponsesSseEncoder W × List Event

-- Events are made one after the other: each takes the number of the encoder and leaves it the next one.
unfoldable pub events : {W : Type 0} → ResponsesSseEncoder W → List Payload → Said W
unfolding number number_after
events e ps =
    let n = e.sequence_number in (record e { sequence_number = number_after n ps }, number n ps)

module _ {W : Type 0} (mint : W → Bytes → Bytes × W) where
  unfoldable pub close_open_message : ResponsesSseEncoder W → Said W
  unfolding events
  close_open_message e = elim (open_message_pos e.items) [
    | none ↦ (e, [])
    | some pos ↦
        events (record e { items = update close e.items pos }) (done_at (get_elem? e.items pos))
  ]

  unfoldable pub close_open_tools : ResponsesSseEncoder W → Said W
  unfolding close_calls all_done events
  close_open_tools e =
      let (items, shut) = close_calls e.items in events (record e { items = items }) (all_done shut)

  unfoldable pub open_message : ResponsesSseEncoder W → Said W
  unfolding events
  open_message e =
      let (id, w) = mint e.world (codes "msg") in
      let i = e.next_output_index in
      events
        (record e {
          world = w;
          items = e.items ++ (Item.message id i [] false ∷ []);
          next_output_index = i + 1;
        })
        (Payload.message_added i id ∷ Payload.part_added i id ∷ [])

  unfoldable pub add_text : ResponsesSseEncoder W → Bytes → Said W
  unfolding events
  add_text e t = elim (open_message_pos e.items) [
    | none ↦ (e, [])
    | some pos ↦
        events (record e { items = update (push_str t) e.items pos })
          (text_payloads (get_elem? e.items pos) t)
  ]

  unfoldable pub ensure_message : ResponsesSseEncoder W → Said W
  unfolding open_message
  ensure_message e = elim (open_message_pos e.items) [ none ↦ open_message e | some pos ↦ (e, []) ]

  -- a message item is open after the first step, so `add_text` finds it
  unfoldable pub render_content : ResponsesSseEncoder W → Bytes → Said W
  unfolding ensure_message add_text
  render_content e t =
      if nonempty t
      then (let (e₁, ps) = ensure_message e in let (e₂, qs) = add_text e₁ t in (e₂, ps ++ qs))
      else (e, [])

  unfoldable pub render_tool_start : ResponsesSseEncoder W → ℕ → Bytes → Bytes → Said W
  unfolding close_open_message events
  render_tool_start e index call_id name =
      let (e₁, ps) = close_open_message e in
      let (id, w) = mint e₁.world (codes "fc") in
      let i = e₁.next_output_index in
      let (e₂, qs) =
        events
          (record e₁ {
            world = w;
            items = e₁.items ++ (Item.function_call index id call_id name i [] false ∷ []);
            next_output_index = i + 1;
          })
          (Payload.call_added i id call_id name ∷ []) in
      (e₂, ps ++ qs)

  unfoldable pub render_tool_args : ResponsesSseEncoder W → ℕ → Bytes → Said W
  unfolding push_arguments events
  render_tool_args e index chunk =
      let (items, target) = push_arguments index chunk e.items in
      events (record e { items = items }) (arguments_payloads target chunk)

  -- an answer without text and calls gets an empty message
  unfoldable pub never_empty : ResponsesSseEncoder W → ResponsesSseEncoder W
  never_empty e = elim e.items [
    | [] ↦
        let (id, w) = mint e.world (codes "msg") in
        record e { world = w; items = Item.message id 0 [] true ∷ []; next_output_index = 1 }
    | it ∷ its ↦ e
  ]

  unfoldable pub render_final : ResponsesSseEncoder W → Bytes → Usage → Said W
  unfolding close_open_message close_open_tools never_empty same_bytes events
  render_final e reason usage =
      let (e₁, ps) = close_open_message e in
      let (e₂, qs) = close_open_tools e₁ in
      let e₃ = never_empty e₂ in
      let incomplete = same_bytes reason (codes "length") in
      let (e₄, rs) = events e₃ (Payload.ended incomplete (map item_json e₃.items) usage ∷ []) in
      (e₄, ps ++ qs ++ rs)

  unfoldable pub render : ResponsesSseEncoder W → Emission → ResponsesSseEncoder W × List Event
  unfolding render_content render_tool_start render_tool_args render_final events
  render e Emission.role = events e (Payload.created ∷ Payload.in_progress ∷ [])
  render e (Emission.content t) = render_content e t
  render e (Emission.tool_start index id name) = render_tool_start e index id name
  render e (Emission.tool_args index chunk) = render_tool_args e index chunk
  render e (Emission.final reason usage) = render_final e reason usage
  render e (Emission.error why) = events e (Payload.server_error why ∷ [])

  unfoldable pub render_all :
      ResponsesSseEncoder W → List Emission → ResponsesSseEncoder W × List Event
  unfolding render
  render_all e [] = (e, [])
  render_all e (em ∷ ems) =
      let (e', frames) = render e em in let (e'', rest) = render_all e' ems in (e'', frames ++ rest)
