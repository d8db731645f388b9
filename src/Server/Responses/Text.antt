-- ===== src/Server/Responses/Text.antt =====
-- The text of a response: what the deltas say, and what the final event lists.
use mini_cpm5_5080fast.Base.{
  ℕ, ◌≡◌, refl, sym, ap, subst, ◌∙◌, inl, inr, Bool, true, false, none, some, List, [], ◌∷◌, ◌++◌,
  map, length, get_elem?, arith, append_assoc, append-nil,
}
use mini_cpm5_5080fast.Bytes.{Bytes}
use mini_cpm5_5080fast.Bytes.Text.{codes}
use mini_cpm5_5080fast.Usage.{Usage}
use mini_cpm5_5080fast.Server.{Emission}
use mini_cpm5_5080fast.Server.ArgStream.{same_bytes}
use mini_cpm5_5080fast.Server.Emissions.{joined_content, joined_content-append}
use mini_cpm5_5080fast.Server.Generation.Sent.{is_delta, all_deltas, both-true}
use mini_cpm5_5080fast.Server.Responses.{
  Item, ItemJson, item_json, Payload, Event, ResponsesSseEncoder, Said, open_message_pos, update,
  close, push_str, done_payloads, done_at, close_calls, all_done, push_arguments, text_payloads,
  number, number_after, events, new, close_open_message, close_open_tools, open_message,
  ensure_message, add_text, render_content, render_tool_start, render_tool_args, never_empty,
  render_final, render, render_all,
}
use mini_cpm5_5080fast.Server.Responses.Items.{
  OpenLast, OpenLast-get, OpenLast-pos, OpenLast-update, Ready, all_done-quiet,
  arguments_payloads-quiet, close_calls-texts, output_text, output_text-items, payloads,
  payloads-append, payloads-number, pos-snoc-none, push_arguments-Ready, push_arguments-texts,
  texts, texts-append, texts-snoc, told, told-append,
}

-- what the text deltas among events say
abbrev heard : List Event → Bytes
heard evs = told (payloads evs)

heard-append : (xs ys : List Event) → heard (xs ++ ys) ≡ heard xs ++ heard ys
heard-append xs ys = ap told (payloads-append xs ys) ∙ told-append (payloads xs) (payloads ys)

heard-number : (n : ℕ) (ps : List Payload) → heard (number n ps) ≡ told ps
heard-number n ps = ap told (payloads-number n ps)

module _ {W : Type 0} (mint : W → Bytes → Bytes × W) where
  close-none :
      (e : ResponsesSseEncoder W)
      → open_message_pos e.items ≡ none
      → close_open_message mint e ≡ (e, [])
  unfolding close_open_message
  close-none e h = rw (h, close_open_message) refl

  close-some :
      (e : ResponsesSseEncoder W) (p : ℕ)
      → open_message_pos e.items ≡ some p
      → close_open_message mint e
        ≡ events (record e { items = update close e.items p }) (done_at (get_elem? e.items p))
  unfolding close_open_message
  close-some e p h = rw (h, close_open_message) refl

  -- all messages are closed, with the texts they had
  abbrev Closed : ResponsesSseEncoder W → Said W → Type 0
  Closed e (e', ps) =
      (open_message_pos e'.items ≡ none) × (texts e'.items ≡ texts e.items) × (heard ps ≡ [])

  close_open_message-Closed :
      (e : ResponsesSseEncoder W) → Ready e.items → Closed e (close_open_message mint e)
  unfolding events
  close_open_message-Closed e (inl h) =
      subst (Closed e) (sym (close-none e h)) (h, refl, unfold told payloads in refl)
  close_open_message-Closed e (inr o) =
      subst (Closed e) (sym (close-some e (length o.before) (OpenLast-pos e.items o))) (
        ap open_message_pos (OpenLast-update close e.items o)
            ∙ pos-snoc-none o.before (Item.message o.id o.at o.text true) o.no_other refl,
        ap texts (OpenLast-update close e.items o)
            ∙ texts-snoc o.before o.id o.at o.text true
            ∙ sym (texts-snoc o.before o.id o.at o.text false)
            ∙ ap texts (sym o.items_are),
        heard-number e.sequence_number _
            ∙ ap (λ x. told (done_at x)) (OpenLast-get e.items o)
            ∙ unfold done_payloads told in refl,
      )

  ensure-open :
      (e : ResponsesSseEncoder W)
      → open_message_pos e.items ≡ none
      → ensure_message mint e ≡ open_message mint e
  unfolding ensure_message
  ensure-open e h = rw (h, ensure_message) refl

  ensure-there :
      (e : ResponsesSseEncoder W) (p : ℕ)
      → open_message_pos e.items ≡ some p
      → ensure_message mint e ≡ (e, [])
  unfolding ensure_message
  ensure-there e p h = rw (h, ensure_message) refl

  -- a message is open, and nothing is said yet
  abbrev Opened : ResponsesSseEncoder W → Said W → Type 0
  Opened e (e', ps) = OpenLast e'.items × (texts e'.items ≡ texts e.items) × (heard ps ≡ [])

  ensure_message-Opened :
      (e : ResponsesSseEncoder W) → Ready e.items → Opened e (ensure_message mint e)
  unfolding open_message events
  ensure_message-Opened e (inl h) =
      let id = (mint e.world (codes "msg")).0 in
      let i = e.next_output_index in
      let added = Payload.message_added i id ∷ Payload.part_added i id ∷ [] in
      subst (Opened e) (sym (ensure-open e h)) (
        record {
          before = e.items;
          id = id;
          at = e.next_output_index;
          text = [];
          items_are = refl;
          no_other = h;
        },
        texts-snoc e.items id e.next_output_index [] false ∙ append-nil (texts e.items),
        heard-number e.sequence_number added ∙ unfold told in refl,
      )
  ensure_message-Opened e (inr o) =
      subst (Opened e) (sym (ensure-there e (length o.before) (OpenLast-pos e.items o)))
        (o, refl, unfold told payloads in refl)

  add-there :
      (e : ResponsesSseEncoder W) (t : Bytes) (p : ℕ)
      → open_message_pos e.items ≡ some p
      → add_text mint e t
        ≡ events
            (record e { items = update (push_str t) e.items p })
            (text_payloads (get_elem? e.items p) t)
  unfolding add_text
  add-there e t p h = rw (h, add_text) refl

  -- the text grows by what is said
  abbrev Says : Bytes → ResponsesSseEncoder W → Said W → Type 0
  Says t e (e', ps) = Ready e'.items × (texts e'.items ≡ texts e.items ++ t) × (heard ps ≡ t)

  add_text-Says :
      (e : ResponsesSseEncoder W) (t : Bytes) → OpenLast e.items → Says t e (add_text mint e t)
  unfolding events
  add_text-Says e t o =
      let grown = OpenLast-update (push_str t) e.items o in
      subst (Says t e) (sym (add-there e t (length o.before) (OpenLast-pos e.items o))) (
        inr (record {
          before = o.before;
          id = o.id;
          at = o.at;
          text = o.text ++ t;
          items_are = grown;
          no_other = o.no_other;
        }),
        ap texts grown
            ∙ texts-snoc o.before o.id o.at (o.text ++ t) false
            ∙ sym (append_assoc (texts o.before) o.text t)
            ∙ ap (λ x. x ++ t)
                (sym (texts-snoc o.before o.id o.at o.text false) ∙ ap texts (sym o.items_are)),
        heard-number e.sequence_number _
            ∙ ap (λ x. told (text_payloads x t)) (OpenLast-get e.items o)
            ∙ unfold told in append-nil t,
      )

  render_content-Says :
      (e : ResponsesSseEncoder W) (t : Bytes) → Ready e.items → Says t e (render_content mint e t)
  unfolding render_content
  render_content-Says e [] h = (h, sym (append-nil (texts e.items)), unfold told payloads in refl)
  render_content-Says e (b ∷ bs) h =
      let t = b ∷ bs in
      let o = ensure_message mint e in
      let (last, same, quiet) = ensure_message-Opened e h in
      let (ready, grown, says) = add_text-Says o.0 t last in
      (
        ready,
        grown ∙ ap (λ x. x ++ t) same,
        heard-append o.1 (add_text mint o.0 t).1
            ∙ ap (λ x. x ++ heard (add_text mint o.0 t).1) quiet
            ∙ says,
      )

  texts-call :
      (xs : List Item) (index : ℕ) (id call_id name : Bytes) (i : ℕ)
      → texts (xs ++ Item.function_call index id call_id name i [] false ∷ []) ≡ texts xs
  unfolding texts
  texts-call xs index id call_id name i =
      texts-append xs (Item.function_call index id call_id name i [] false ∷ [])
      ∙ append-nil (texts xs)

  render_tool_start-Says :
      (e : ResponsesSseEncoder W) (index : ℕ) (call_id name : Bytes)
      → Ready e.items
      → Says [] e (render_tool_start mint e index call_id name)
  unfolding render_tool_start events
  render_tool_start-Says e index call_id name h =
      let o = close_open_message mint e in
      let (none_open, same, quiet) = close_open_message-Closed e h in
      let id = (mint o.0.world (codes "fc")).0 in
      let i = o.0.next_output_index in
      let added = Payload.call_added i id call_id name ∷ [] in
      (
        inl (
            pos-snoc-none o.0.items (Item.function_call index id call_id name i [] false) none_open
              refl),
        texts-call o.0.items index id call_id name i ∙ same ∙ sym (append-nil (texts e.items)),
        heard-append o.1 (number o.0.sequence_number added)
            ∙ ap (λ x. x ++ heard (number o.0.sequence_number added)) quiet
            ∙ heard-number o.0.sequence_number added
            ∙ unfold told in refl,
      )

  render-Says :
      (e : ResponsesSseEncoder W) (em : Emission)
      → is_delta em ≡ true
      → Ready e.items
      → Says (joined_content (em ∷ [])) e (render mint e em)
  unfolding render events is_delta joined_content
  render-Says e Emission.role d h = absurd cc
  render-Says e (Emission.content t) d h =
      subst (λ x. Says x e (render_content mint e t)) (sym (append-nil t))
        (render_content-Says e t h)
  render-Says e (Emission.tool_start index id name) d h = render_tool_start-Says e index id name h
  render-Says e (Emission.tool_args index chunk) d h =
      unfold render_tool_args in
      (
        push_arguments-Ready index chunk e.items h,
        (push_arguments-texts index chunk e.items).0 ∙ sym (append-nil (texts e.items)),
        heard-number e.sequence_number _
            ∙ arguments_payloads-quiet (push_arguments index chunk e.items).1 chunk,
      )
  render-Says e (Emission.final reason usage) d h = absurd cc
  render-Says e (Emission.error why) d h = absurd cc

  -- the events of deltas
  render_all-Says :
      (e : ResponsesSseEncoder W) (body : List Emission)
      → all_deltas body ≡ true
      → Ready e.items
      → let o = render_all mint e body in
        Ready o.0.items
        × (texts o.0.items ≡ texts e.items ++ joined_content body)
        × (told (payloads o.1) ≡ joined_content body)
  unfolding render_all all_deltas
  render_all-Says e [] d h =
      unfold joined_content told payloads in (h, sym (append-nil (texts e.items)), refl)
  render_all-Says e (em ∷ body) d h =
      let (first, others) = both-true (is_delta em) (all_deltas body) d in
      let o = render mint e em in
      let (ready, grown, says) = render-Says e em first h in
      let e' = o.0 in
      let (ready', grown', says') = render_all-Says e' body others ready in
      let rest = (render_all mint e' body).1 in
      let joined = joined_content-append (em ∷ []) body in
      (
        ready',
        grown'
            ∙ ap (λ x. x ++ joined_content body) grown
            ∙ append_assoc (texts e.items) (joined_content (em ∷ [])) (joined_content body)
            ∙ ap (λ x. texts e.items ++ x) (sym joined),
        heard-append o.1 rest
            ∙ ap (λ x. x ++ heard rest) says
            ∙ ap (λ x. joined_content (em ∷ []) ++ x) says'
            ∙ sym joined,
      )

  never_empty-texts : (e : ResponsesSseEncoder W) → texts (never_empty mint e).items ≡ texts e.items
  unfolding never_empty texts
  never_empty-texts e = ground arith

  render_all-append :
      (e : ResponsesSseEncoder W) (ems fms : List Emission)
      → let o = render_all mint e ems in
        (render_all mint e (ems ++ fms)).1 ≡ o.1 ++ (render_all mint o.0 fms).1
  unfolding render_all
  render_all-append e [] fms = refl
  render_all-append e (em ∷ ems) fms =
      let o = render mint e em in
      ap (λ x. o.1 ++ x) (render_all-append o.0 ems fms)
      ∙ sym (
          append_assoc o.1 (render_all mint o.0 ems).1
            (render_all mint (render_all mint o.0 ems).0 fms).1)

  -- the events end with one that lists the output
  abbrev pub Ends : Bytes → Usage → List Event → Type 0
  Ends text usage evs =
      (frames : List Event) × (n : ℕ) × (incomplete : Bool) × (out : List ItemJson) × (evs
        ≡ frames
          ++ record { sequence_number = n; payload = Payload.ended incomplete out usage } ∷ [])
      × (told (payloads frames) ≡ text)
      × (output_text out ≡ text)

  render-Ends :
      (e : ResponsesSseEncoder W) (text reason : Bytes) (usage : Usage) (evs : List Event)
      → Ready e.items
      → texts e.items ≡ text
      → told (payloads evs) ≡ text
      → Ends text usage (evs ++ (render mint e (Emission.final reason usage)).1)
  unfolding render render_final close_open_tools events number
  render-Ends e text reason usage evs h same says =
      let o = close_open_message mint e in
      let (_, same₁, quiet₁) = close_open_message-Closed e h in
      let (items, shut) = close_calls o.0.items in
      let n = o.0.sequence_number in
      let m = number_after n (all_done shut) in
      let fs = number n (all_done shut) in
      let e₃ = never_empty mint (record o.0 { items = items; sequence_number = m }) in
      let incomplete = same_bytes reason (codes "length") in
      let out = map item_json e₃.items in
      let last : Event = record {
        sequence_number = e₃.sequence_number;
        payload = Payload.ended incomplete out usage;
      } in
      (
        evs ++ (o.1 ++ fs),
        e₃.sequence_number,
        incomplete,
        out,
        sym (append_assoc evs (o.1 ++ fs) (last ∷ [])),
        heard-append evs (o.1 ++ fs)
            ∙ ap (λ x. heard evs ++ x)
                (heard-append o.1 fs
                  ∙ ap (λ x. x ++ heard fs) quiet₁
                  ∙ heard-number n (all_done shut)
                  ∙ all_done-quiet shut)
            ∙ append-nil (heard evs)
            ∙ says,
        output_text-items e₃.items
            ∙ never_empty-texts (record o.0 { items = items; sequence_number = m })
            ∙ close_calls-texts o.0.items
            ∙ same₁
            ∙ same,
      )

  render_all-one :
      (e : ResponsesSseEncoder W) (em : Emission)
      → (render_all mint e (em ∷ [])).1 ≡ (render mint e em).1
  unfolding render_all
  render_all-one e em = append-nil (render mint e em).1

  role-Says :
      (id model : Bytes) (created_at : ℕ) (w : W) (body : List Emission)
      → all_deltas body ≡ true
      → let o = render_all mint (new id model created_at w) (Emission.role ∷ body) in
        Ready o.0.items
        × (texts o.0.items ≡ joined_content body)
        × (told (payloads o.1) ≡ joined_content body)
  unfolding new render_all render events number number_after payloads told texts open_message_pos
  role-Says id model created_at w body deltas =
      let e = new id model created_at w in
      render_all-Says
        (record e { sequence_number = number_after 0 (Payload.created ∷ Payload.in_progress ∷ []) })
        body deltas (inl refl)

  -- The last event of a whole answer, the role, deltas and the final emission, lists the output, and the text of
  -- its messages is the text of the content deltas of the answer, all of it and in order; the delta events
  -- before it say the same.
  pub render_all-Ends :
      (id model : Bytes) (created_at : ℕ) (w : W) (body : List Emission) (reason : Bytes)
      (usage : Usage)
      → all_deltas body ≡ true
      → Ends
          (joined_content body)
          usage
          (render_all mint
            (new id model created_at w)
            (Emission.role ∷ body ++ (Emission.final reason usage ∷ []))).1
  render_all-Ends id model created_at w body reason usage deltas =
      let e = new id model created_at w in
      let last = Emission.final reason usage in
      let o = render_all mint e (Emission.role ∷ body) in
      let (ready, same, says) = role-Says id model created_at w body deltas in
      subst (Ends (joined_content body) usage)
        (ap (λ x. o.1 ++ x) (sym (render_all-one o.0 last))
          ∙ sym (render_all-append e (Emission.role ∷ body) (last ∷ [])))
        (render-Ends o.0 (joined_content body) reason usage o.1 ready same says)
