-- ===== src/Server/Responses/Order.antt =====
-- The numbers of the events of a response stream.
use mini_cpm5_5080fast.Base.{
  ℕ, ◌%◌, ◌+◌, ◌<◌, ◌≡◌, refl, sym, ap, ◌∙◌, List, [], ◌∷◌, ◌++◌, length, length-append, arith,
  Option-cases, inl, inr, subst, map, false,
}
use mini_cpm5_5080fast.Bytes.{Bytes}
use mini_cpm5_5080fast.Words.{u64_mod}
use mini_cpm5_5080fast.Server.{Emission}
use mini_cpm5_5080fast.Server.Emissions.{count_from, count_from-append, count_from-eq}
use mini_cpm5_5080fast.Usage.{Usage}
use mini_cpm5_5080fast.Bytes.Text.{codes}
use mini_cpm5_5080fast.Server.ArgStream.{same_bytes}
use mini_cpm5_5080fast.Server.Responses.{
  Payload, Event, Item, ResponsesSseEncoder, Said, close_calls, all_done, number, number_after,
  events, open_message_pos, update, close, push_str, item_json, push_arguments, arguments_payloads,
  open_message, close_open_message, close_open_tools, ensure_message, add_text, render_content,
  render_tool_start, render_tool_args, never_empty, render_final, render, render_all,
}

unfoldable pub numbers : List Event → List ℕ
numbers [] = []
numbers (ev ∷ evs) = ev.sequence_number ∷ numbers evs

numbers-append : (xs ys : List Event) → numbers (xs ++ ys) ≡ numbers xs ++ numbers ys
unfolding numbers
numbers-append [] ys = refl
numbers-append (x ∷ xs) ys = ap (◌∷◌ x.sequence_number) (numbers-append xs ys)

number-length : (n : ℕ) (ps : List Payload) → length (number n ps) ≡ length ps
unfolding number
number-length n [] = refl
number-length n (p ∷ ps) = omega (arith, number-length ((n + 1) % u64_mod) ps)

numbers-number :
    (n : ℕ) (ps : List Payload)
    → n + length ps < u64_mod
    → (numbers (number n ps) ≡ count_from n (length ps)) × (number_after n ps ≡ n + length ps)
unfolding numbers number number_after count_from
numbers-number n [] h = (refl, omega arith)
numbers-number n (p ∷ ps) h =
    let next : (n + 1) % u64_mod ≡ n + 1 = omega (arith, h) in
    let (k, l) = numbers-number (n + 1) ps (omega (arith, h)) in
    rw next (ap (◌∷◌ n) k, omega (arith, l))

-- From the number `n` on, the events are numbered one by one, and the encoder has the next number, as
-- long as there is one.
abbrev Numbered : {W : Type 0} → ℕ → Said W → Type 0
Numbered n (e, evs) =
    n + length evs < u64_mod
    → (numbers evs ≡ count_from n (length evs)) × (e.sequence_number ≡ n + length evs)

nothing-Numbered : {W : Type 0} (e : ResponsesSseEncoder W) → Numbered e.sequence_number (e, [])
nothing-Numbered e h = (unfold numbers count_from in refl, omega arith)

events-Numbered :
    {W : Type 0} (e : ResponsesSseEncoder W) (ps : List Payload)
    → Numbered e.sequence_number (events e ps)
unfolding events
events-Numbered e ps h =
    let n = e.sequence_number in
    let len = number-length n ps in
    let (k, l) = numbers-number n ps (omega (arith, h, len)) in
    (k ∙ count_from-eq n n _ _ refl (sym len), omega (arith, l, len))

-- What is made after other events goes on with their numbers.
then-Numbered :
    {W : Type 0} (n : ℕ) (e₁ e₂ : ResponsesSseEncoder W) (xs ys : List Event)
    → Numbered n (e₁, xs)
    → Numbered e₁.sequence_number (e₂, ys)
    → Numbered n (e₂, xs ++ ys)
then-Numbered n e₁ e₂ xs ys f g h =
    let all = length-append xs ys in
    let (k, l) = f (omega (arith, h, all)) in
    let (k', l') = g (omega (arith, h, all, l)) in
    (
      numbers-append xs ys
          ∙ ap (λ x. x ++ numbers ys) k
          ∙ ap (λ x. count_from n (length xs) ++ x) (k' ∙ count_from-eq _ _ _ _ l refl)
          ∙ sym (count_from-append n (length xs) (length ys))
          ∙ count_from-eq n n _ _ refl (sym all),
      omega (arith, l', l, all),
    )

module _ {W : Type 0} (mint : W → Bytes → Bytes × W) where
  close_open_message-Numbered :
      (e : ResponsesSseEncoder W) → Numbered e.sequence_number (close_open_message mint e)
  unfolding close_open_message
  close_open_message-Numbered e = elim (Option-cases (open_message_pos e.items)) [
    | inl z ↦ rw (z, close_open_message) (nothing-Numbered e)
    | inr (p, z) ↦
        rw (z, close_open_message) (events-Numbered (record e { items = update close e.items p }) _)
  ]

  open_message-Numbered :
      (e : ResponsesSseEncoder W) → Numbered e.sequence_number (open_message mint e)
  unfolding open_message
  open_message-Numbered e =
      let (id, w) = mint e.world (codes "msg") in
      let i = e.next_output_index in
      events-Numbered
        (record e {
          world = w;
          items = e.items ++ (Item.message id i [] false ∷ []);
          next_output_index = i + 1;
        })
        (Payload.message_added i id ∷ Payload.part_added i id ∷ [])

  ensure_message-Numbered :
      (e : ResponsesSseEncoder W) → Numbered e.sequence_number (ensure_message mint e)
  unfolding ensure_message
  ensure_message-Numbered e = elim (Option-cases (open_message_pos e.items)) [
    | inl z ↦ rw (z, ensure_message) (open_message-Numbered e)
    | inr (p, z) ↦ rw (z, ensure_message) (nothing-Numbered e)
  ]

  add_text-Numbered :
      (e : ResponsesSseEncoder W) (t : Bytes) → Numbered e.sequence_number (add_text mint e t)
  unfolding add_text
  add_text-Numbered e t = elim (Option-cases (open_message_pos e.items)) [
    | inl z ↦ rw (z, add_text) (nothing-Numbered e)
    | inr (p, z) ↦
        rw (z, add_text) (events-Numbered (record e { items = update (push_str t) e.items p }) _)
  ]

  render_content-Numbered :
      (e : ResponsesSseEncoder W) (t : Bytes) → Numbered e.sequence_number (render_content mint e t)
  unfolding render_content
  render_content-Numbered e [] = nothing-Numbered e
  render_content-Numbered e (b ∷ bs) =
      let o = ensure_message mint e in
      let q = add_text mint o.0 (b ∷ bs) in
      then-Numbered e.sequence_number o.0 q.0 o.1 q.1 (ensure_message-Numbered e)
        (add_text-Numbered o.0 (b ∷ bs))

  render_tool_start-Numbered :
      (e : ResponsesSseEncoder W) (index : ℕ) (call_id name : Bytes)
      → Numbered e.sequence_number (render_tool_start mint e index call_id name)
  unfolding render_tool_start
  render_tool_start-Numbered e index call_id name =
      let o = close_open_message mint e in
      let (id, w) = mint o.0.world (codes "fc") in
      let i = o.0.next_output_index in
      let e₁ = record o.0 {
        world = w;
        items = o.0.items ++ (Item.function_call index id call_id name i [] false ∷ []);
        next_output_index = i + 1;
      } in
      let ps = Payload.call_added i id call_id name ∷ [] in
      let q = events e₁ ps in
      then-Numbered e.sequence_number o.0 q.0 o.1 q.1 (close_open_message-Numbered e)
        (events-Numbered e₁ ps)

  never_empty-number :
      (e : ResponsesSseEncoder W) → (never_empty mint e).sequence_number ≡ e.sequence_number
  unfolding never_empty
  never_empty-number e = ground arith

  render_final-Numbered :
      (e : ResponsesSseEncoder W) (reason : Bytes) (usage : Usage)
      → Numbered e.sequence_number (render_final mint e reason usage)
  unfolding render_final close_open_tools
  render_final-Numbered e reason usage =
      let o = close_open_message mint e in
      let q = close_open_tools mint o.0 in
      let e₃ = never_empty mint q.0 in
      let ps =
        Payload.ended (same_bytes reason (codes "length")) (map item_json e₃.items) usage ∷ [] in
      let last = events e₃ ps in
      then-Numbered e.sequence_number q.0 last.0 (o.1 ++ q.1) last.1
        (then-Numbered e.sequence_number o.0 q.0 o.1 q.1 (close_open_message-Numbered e) (
          events-Numbered (record o.0 { items = (close_calls o.0.items).0 })
            (all_done (close_calls o.0.items).1)))
        (subst (λ n. Numbered n last) (never_empty-number q.0) (events-Numbered e₃ ps))

  render-Numbered :
      (e : ResponsesSseEncoder W) (em : Emission) → Numbered e.sequence_number (render mint e em)
  unfolding render
  render-Numbered e Emission.role = events-Numbered e (Payload.created ∷ Payload.in_progress ∷ [])
  render-Numbered e (Emission.content t) = render_content-Numbered e t
  render-Numbered e (Emission.tool_start index id name) = render_tool_start-Numbered e index id name
  render-Numbered e (Emission.tool_args index chunk) =
      unfold render_tool_args in
      events-Numbered (record e { items = (push_arguments index chunk e.items).0 })
        (arguments_payloads (push_arguments index chunk e.items).1 chunk)
  render-Numbered e (Emission.final reason usage) = render_final-Numbered e reason usage
  render-Numbered e (Emission.error why) = events-Numbered e (Payload.server_error why ∷ [])

  render_all-Numbered :
      (e : ResponsesSseEncoder W) (ems : List Emission)
      → Numbered e.sequence_number (render_all mint e ems)
  unfolding render_all
  render_all-Numbered e [] = nothing-Numbered e
  render_all-Numbered e (em ∷ ems) =
      let o = render mint e em in
      let q = render_all mint o.0 ems in
      then-Numbered e.sequence_number o.0 q.0 o.1 q.1 (render-Numbered e em)
        (render_all-Numbered o.0 ems)

-- Each event takes its number when it is made, in the middle of the emission that it is part of. The events
-- of a response, in the order in which they are sent, are numbered one by one, from the number of the encoder
-- on, over all of its emissions, as long as there are fewer than 2^64 of them.
pub numbers-render_all :
    {W : Type 0} (mint : W → Bytes → Bytes × W) (e : ResponsesSseEncoder W) (ems : List Emission)
    → let evs = (render_all mint e ems).1 in
      e.sequence_number + length evs < u64_mod
      → numbers evs ≡ count_from e.sequence_number (length evs)
numbers-render_all mint e ems h = (render_all-Numbered mint e ems h).0
