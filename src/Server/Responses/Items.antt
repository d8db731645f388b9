-- ===== src/Server/Responses/Items.antt =====
-- What the operations on the items of a response do to their texts and to the open message, and what the
-- payloads of events say.
use mini_cpm5_5080fast.Base.{
  ℕ, ◌+◌, ◌≡◌, refl, sym, ap, ◌∙◌, ◌⊎◌, inl, inr, Bool, true, false, not, ◌&&◌, Option, none, some,
  List, [], ◌∷◌, ◌++◌, map, length, get_elem?, ◌==◌, ◌%◌, arith, append_assoc, append-nil,
  Bool-cases,
}
use mini_cpm5_5080fast.Bytes.{Bytes}
use mini_cpm5_5080fast.Words.{u64_mod}
use mini_cpm5_5080fast.Server.Responses.{
  Item, ItemJson, item_json, Payload, Event, is_open_message, open_message_pos, update,
  done_payloads, close_calls, all_done, takes, push_arguments, arguments_payloads, number,
  number_after,
}

-- the texts of the message items in a row
unfoldable pub texts : List Item → Bytes
texts [] = []
texts (Item.message id i text closed ∷ its) = text ++ texts its
texts (Item.function_call index id call_id name i arguments closed ∷ its) = texts its

-- what the text deltas say
unfoldable pub told : List Payload → Bytes
told [] = []
told (Payload.text_delta i id t ∷ ps) = t ++ told ps
told (_ ∷ ps) = told ps

pub texts-append : (xs ys : List Item) → texts (xs ++ ys) ≡ texts xs ++ texts ys
unfolding texts
texts-append [] ys = refl
texts-append (Item.message id i text closed ∷ xs) ys =
    ap (λ x. text ++ x) (texts-append xs ys) ∙ sym (append_assoc text (texts xs) (texts ys))
texts-append (Item.function_call index id call_id name i arguments closed ∷ xs) ys =
    texts-append xs ys

pub told-append : (ps qs : List Payload) → told (ps ++ qs) ≡ told ps ++ told qs
unfolding told
told-append [] qs = refl
told-append (Payload.text_delta i id t ∷ ps) qs =
    ap (λ x. t ++ x) (told-append ps qs) ∙ sym (append_assoc t (told ps) (told qs))
told-append (Payload.created ∷ ps) qs = told-append ps qs
told-append (Payload.in_progress ∷ ps) qs = told-append ps qs
told-append (Payload.message_added i id ∷ ps) qs = told-append ps qs
told-append (Payload.part_added i id ∷ ps) qs = told-append ps qs
told-append (Payload.text_done i id t ∷ ps) qs = told-append ps qs
told-append (Payload.part_done i id t ∷ ps) qs = told-append ps qs
told-append (Payload.item_done i j ∷ ps) qs = told-append ps qs
told-append (Payload.call_added i id c n ∷ ps) qs = told-append ps qs
told-append (Payload.arguments_delta i id c ∷ ps) qs = told-append ps qs
told-append (Payload.arguments_done i id c ∷ ps) qs = told-append ps qs
told-append (Payload.ended b out u ∷ ps) qs = told-append ps qs
told-append (Payload.server_error m ∷ ps) qs = told-append ps qs

pub pos-snoc-none :
    (xs : List Item) (y : Item)
    → open_message_pos xs ≡ none
    → is_open_message y ≡ false
    → open_message_pos (xs ++ y ∷ []) ≡ none
unfolding open_message_pos
pos-snoc-none [] y e f = rw f refl
pos-snoc-none (x ∷ xs) y e f = ground (arith, e, pos-snoc-none xs y)

pos-snoc-open :
    (xs : List Item) (id : Bytes) (i : ℕ) (t : Bytes)
    → open_message_pos (xs ++ Item.message id i t false ∷ []) ≡ some (length xs)
unfolding open_message_pos
pos-snoc-open [] id i t = refl
pos-snoc-open (x ∷ xs) id i t = rw (pos-snoc-open xs id i t) refl

update-snoc :
    (f : Item → Item) (xs : List Item) (y : Item)
    → update f (xs ++ y ∷ []) (length xs) ≡ xs ++ f y ∷ []
update-snoc f [] y = refl
update-snoc f (x ∷ xs) y = ap (◌∷◌ x) (update-snoc f xs y)

get_elem?-snoc : (xs : List Item) (y : Item) → get_elem? (xs ++ y ∷ []) (length xs) ≡ some y
get_elem?-snoc [] y = refl
get_elem?-snoc (x ∷ xs) y = get_elem?-snoc xs y

-- A message that is open is the last item.
pub record OpenLast (items : List Item) : Type 0 where
  pub before : List Item
  pub id : Bytes
  pub at : ℕ
  pub text : Bytes
  pub items_are : items ≡ before ++ Item.message id at text false ∷ []
  pub no_other : open_message_pos before ≡ none

abbrev pub Ready : List Item → Type 0
Ready items = (open_message_pos items ≡ none) ⊎ OpenLast items

pub OpenLast-pos :
    (items : List Item) (o : OpenLast items) → open_message_pos items ≡ some (length o.before)
OpenLast-pos items o = ap open_message_pos o.items_are ∙ pos-snoc-open o.before o.id o.at o.text

pub OpenLast-update :
    (f : Item → Item) (items : List Item) (o : OpenLast items)
    → update f items (length o.before) ≡ o.before ++ f (Item.message o.id o.at o.text false) ∷ []
OpenLast-update f items o =
    ap (λ x. update f x (length o.before)) o.items_are
    ∙ update-snoc f o.before (Item.message o.id o.at o.text false)

pub OpenLast-get :
    (items : List Item) (o : OpenLast items)
    → get_elem? items (length o.before) ≡ some (Item.message o.id o.at o.text false)
OpenLast-get items o =
    ap (λ x. get_elem? x (length o.before)) o.items_are
    ∙ get_elem?-snoc o.before (Item.message o.id o.at o.text false)

pub texts-snoc :
    (xs : List Item) (id : Bytes) (i : ℕ) (t : Bytes) (b : Bool)
    → texts (xs ++ Item.message id i t b ∷ []) ≡ texts xs ++ t
texts-snoc xs id i t b =
    texts-append xs (Item.message id i t b ∷ [])
    ∙ ap (λ x. texts xs ++ x) (unfold texts in append-nil t)

pub push_arguments-texts :
    (index : ℕ) (chunk : Bytes) (xs : List Item)
    → let o = push_arguments index chunk xs in
      (texts o.0 ≡ texts xs) × (open_message_pos o.0 ≡ open_message_pos xs)
unfolding push_arguments texts open_message_pos
push_arguments-texts index chunk [] = (refl, refl)
push_arguments-texts index chunk (Item.message id i text closed ∷ xs) =
    let (k, l) = push_arguments-texts index chunk xs in (ap (λ x. text ++ x) k, rw l refl)
push_arguments-texts index chunk (Item.function_call j id call_id name i arguments closed ∷ xs) =
    let (k, l) = push_arguments-texts index chunk xs in
    elim (Bool-cases (not closed && j == index)) [
      | inl t ↦ rw t (refl, refl)
      | inr t ↦ rw t (k, rw l refl)
    ]

push_arguments-snoc :
    (index : ℕ) (chunk : Bytes) (xs : List Item) (id : Bytes) (i : ℕ) (text : Bytes)
    → let y = Item.message id i text false in
      (push_arguments index chunk (xs ++ y ∷ [])).0 ≡ (push_arguments index chunk xs).0 ++ y ∷ []
unfolding push_arguments
push_arguments-snoc index chunk [] id i text = refl
push_arguments-snoc index chunk (x ∷ xs) id i text = elim (Bool-cases (takes index x)) [
  | inl t ↦ rw t refl
  | inr t ↦ rw t (ap (◌∷◌ x) (push_arguments-snoc index chunk xs id i text))
]

pub push_arguments-Ready :
    (index : ℕ) (chunk : Bytes) (xs : List Item)
    → Ready xs
    → Ready (push_arguments index chunk xs).0
push_arguments-Ready index chunk xs (inl h) = inl ((push_arguments-texts index chunk xs).1 ∙ h)
push_arguments-Ready index chunk xs (inr o) = inr (record {
  before = (push_arguments index chunk o.before).0;
  id = o.id;
  at = o.at;
  text = o.text;
  items_are =
      ap (λ x. (push_arguments index chunk x).0) o.items_are
      ∙ push_arguments-snoc index chunk o.before o.id o.at o.text;
  no_other = (push_arguments-texts index chunk o.before).1 ∙ o.no_other;
})

pub arguments_payloads-quiet :
    (o : Option Item) (chunk : Bytes) → told (arguments_payloads o chunk) ≡ []
unfolding told
arguments_payloads-quiet (some (Item.function_call j id call_id name i arguments closed)) chunk =
    refl
arguments_payloads-quiet (some (Item.message id i text closed)) chunk = refl
arguments_payloads-quiet none chunk = refl

pub close_calls-texts : (xs : List Item) → texts (close_calls xs).0 ≡ texts xs
unfolding close_calls texts
close_calls-texts [] = refl
close_calls-texts (Item.message id i text closed ∷ xs) = ap (λ x. text ++ x) (close_calls-texts xs)
close_calls-texts (Item.function_call j id call_id name i arguments true ∷ xs) =
    close_calls-texts xs
close_calls-texts (Item.function_call j id call_id name i arguments false ∷ xs) =
    close_calls-texts xs

pub all_done-quiet : (xs : List Item) → told (all_done xs) ≡ []
unfolding all_done done_payloads told
all_done-quiet [] = refl
all_done-quiet (Item.message id i text closed ∷ xs) = all_done-quiet xs
all_done-quiet (Item.function_call j id call_id name i arguments closed ∷ xs) = all_done-quiet xs

-- the texts of completed message items
unfoldable pub output_text : List ItemJson → Bytes
output_text [] = []
output_text (ItemJson.message_json id text ∷ js) = text ++ output_text js
output_text (ItemJson.function_call_json id call_id name arguments ∷ js) = output_text js

pub output_text-items : (xs : List Item) → output_text (map item_json xs) ≡ texts xs
unfolding output_text item_json texts
output_text-items [] = refl
output_text-items (Item.message id i text closed ∷ xs) = ap (λ x. text ++ x) (output_text-items xs)
output_text-items (Item.function_call j id call_id name i arguments closed ∷ xs) =
    output_text-items xs

-- what the events say
unfoldable pub payloads : List Event → List Payload
payloads [] = []
payloads (ev ∷ evs) = ev.payload ∷ payloads evs

pub payloads-number : (n : ℕ) (ps : List Payload) → payloads (number n ps) ≡ ps
unfolding payloads number
payloads-number n [] = refl
payloads-number n (p ∷ ps) = ap (◌∷◌ p) (payloads-number ((n + 1) % u64_mod) ps)

pub number-snoc :
    (n : ℕ) (ps : List Payload) (q : Payload)
    → number n (ps ++ q ∷ [])
      ≡ number n ps ++ record { sequence_number = number_after n ps; payload = q } ∷ []
unfolding number number_after
number-snoc n [] q = refl
number-snoc n (p ∷ ps) q =
    ap (◌∷◌ (record { sequence_number = n; payload = p })) (number-snoc ((n + 1) % u64_mod) ps q)

pub payloads-append : (xs ys : List Event) → payloads (xs ++ ys) ≡ payloads xs ++ payloads ys
unfolding payloads
payloads-append [] ys = refl
payloads-append (x ∷ xs) ys = ap (◌∷◌ x.payload) (payloads-append xs ys)
