-- ===== src/Server/Anthropic/Protocol.antt =====
-- The encoder's events are a stream that the client takes from its first event to its last.
use mini_cpm5_5080fast.Base.{
  ℕ, ◌+◌, ◌≤◌, ◌≡◌, refl, sym, ap, subst, ◌∙◌, true, false, Option, none, some, List, [], ◌∷◌, ◌++◌,
  leb, length, get_elem?, arith, Option-cases, inl, inr, append_assoc, append-nil,
}
use mini_cpm5_5080fast.Bytes.{Bytes}
use mini_cpm5_5080fast.Usage.{Usage}
use mini_cpm5_5080fast.Server.{Emission}
use mini_cpm5_5080fast.Server.Generation.Sent.{is_delta, all_deltas, both-true, if-false}
use mini_cpm5_5080fast.Server.Anthropic.{
  Frame, AnthropicSseEncoder, Rendered, resize, somes, sort_unstable, stop_all, opt_list, render,
  render_live, render_all, render_content, render_tool_start, render_final, args_frames, new,
  stop_reason,
}
use mini_cpm5_5080fast.Server.Anthropic.Blocks.{
  count, count-append, count-none, count-sort_unstable, count-set_at, length-set_at, length-resize,
  count-get_elem?,
}
use mini_cpm5_5080fast.Server.Anthropic.Client.{
  Client, in_message, over, follow, follow-one, follow-stop_all, follow-then, idle_client,
  reading_client, started_at, take-end, take-json_delta, take-text_delta, take-text_start,
  take-tool_use_start, take_frame, take_idle,
}

-- What the encoder and the client agree on in a message.
pub record Agrees (e : AnthropicSseEncoder) (c : Client) : Type 0 where
  pub live : e.done ≡ false
  pub reading : c.phase ≡ in_message
  pub next_is : c.next ≡ e.next_block
  pub open_are :
      (i : ℕ)
      → count i c.open_blocks ≡ count i (somes e.tool_blocks) + count i (opt_list e.text_block)

-- The calls start at rising indices, from `n` on.
unfoldable pub Rising : ℕ → List Emission → Type 0
Rising n [] = Unit
Rising n (Emission.role ∷ ems) = Rising n ems
Rising n (Emission.content t ∷ ems) = Rising n ems
Rising n (Emission.tool_start i id name ∷ ems) = (n ≤ i) × Rising (i + 1) ems
Rising n (Emission.tool_args i chunk ∷ ems) = Rising n ems
Rising n (Emission.final reason usage ∷ ems) = Rising n ems
Rising n (Emission.error message ∷ ems) = Rising n ems

abbrev Follows : Client → Rendered → Type 0
Follows c (e, frames) = (d : Client) × (follow c frames ≡ some d) × Agrees e d

render_content-Follows :
    (e : AnthropicSseEncoder) (c : Client) (t : Bytes) → Agrees e c → Follows c (render_content e t)
unfolding count render_content
render_content-Follows e c t a = elim (Option-cases e.text_block) [
  | inr (i, is) ↦
      let here : 1 ≤ count i c.open_blocks = ground (arith, a.open_are i, ap opt_list is) in
      rw (is, render_content) (c, follow-one c c _ (take-text_delta c i t a.reading here), a)
  | inl is ↦
      let i = e.next_block in
      let c' = started_at c i in
      rw (is, render_content)
        (
          c',
          follow-then c c' c' (Frame.text_start i ∷ []) (Frame.text_delta i t ∷ [])
              (follow-one c c' _ (take-text_start c i a.reading a.next_is))
              (follow-one c' c' _ (take-text_delta c' i t a.reading (ground arith))),
          record {
            live = a.live;
            reading = a.reading;
            next_is = refl;
            open_are = λ j. ground (arith, a.open_are j, ap (λ o. count j (opt_list o)) is);
          },
        )
]

render_content-length :
    (e : AnthropicSseEncoder) (t : Bytes)
    → length (render_content e t).0.tool_blocks ≡ length e.tool_blocks
unfolding render_content
render_content-length e t = ground arith

stopped-counts :
    (e : AnthropicSseEncoder) (c : Client)
    → Agrees e c
    → (i : ℕ) → count i (opt_list e.text_block) ≤ count i c.open_blocks
stopped-counts e c a i = omega (arith, a.open_are i)

render_tool_start-Follows :
    (e : AnthropicSseEncoder) (c : Client) (index : ℕ) (id name : Bytes)
    → Agrees e c
    → length e.tool_blocks ≤ index
    → Follows c (render_tool_start e index id name)
      × (length (render_tool_start e index id name).0.tool_blocks ≡ index + 1)
unfolding render_tool_start count
render_tool_start-Follows e c index id name a h =
    let fresh : leb (length e.tool_blocks) index ≡ true = ground (arith, h) in
    let (d, k, p, n, counts) =
      follow-stop_all c (opt_list e.text_block) a.reading (stopped-counts e c a) in
    let block = e.next_block in
    let d' = started_at d block in
    rw fresh (
      (
        d',
        follow-then c d d' (stop_all (opt_list e.text_block))
            (Frame.tool_use_start block id name ∷ []) k
            (follow-one d d' _ (take-tool_use_start d block id name p (n ∙ a.next_is))),
        record {
          live = a.live;
          reading = p;
          next_is = refl;
          open_are = λ i.
              omega (arith, counts i, a.open_are i, count-set_at i index block e.tool_blocks h);
        },
      ),
      length-set_at index block (resize e.tool_blocks (index + 1))
          ∙ length-resize (index + 1) e.tool_blocks,
    )

args_frames-Follows :
    (e : AnthropicSseEncoder) (c : Client) (index : ℕ) (chunk : Bytes) (o : Option (Option ℕ))
    → Agrees e c
    → get_elem? e.tool_blocks index ≡ o
    → Follows c (e, args_frames o chunk)
unfolding args_frames
args_frames-Follows e c index chunk (some (some block)) a k =
    let here = count-get_elem? e.tool_blocks index block k in
    (
      c,
      follow-one c c _
          (take-json_delta c block chunk a.reading (omega (arith, here, a.open_are block))),
      a,
    )
args_frames-Follows e c index chunk (some none) a k = (c, unfold follow in refl, a)
args_frames-Follows e c index chunk none a k = (c, unfold follow in refl, a)

-- After the emission the rest still rises, from a number that the tool blocks do not reach.
abbrev Onward : ℕ → List Emission → Client → Rendered → Type 0
Onward n rest c o = (m : ℕ) × Rising m rest × (length o.0.tool_blocks ≤ m) × Follows c o

render_live-Onward :
    (n : ℕ) (e : AnthropicSseEncoder) (c : Client) (em : Emission) (rest : List Emission)
    → Agrees e c
    → length e.tool_blocks ≤ n
    → is_delta em ≡ true
    → Rising n (em ∷ rest)
    → Onward n rest c (render_live e em)
unfolding render_live is_delta Rising
render_live-Onward n e c Emission.role rest a h d r = absurd cc
render_live-Onward n e c (Emission.content t) rest a h d r =
    (n, r, omega (arith, h, render_content-length e t), render_content-Follows e c t a)
render_live-Onward n e c (Emission.tool_start i id name) rest a h d r =
    let (k, l) = render_tool_start-Follows e c i id name a (omega (arith, h, r.0)) in
    (i + 1, r.1, omega (arith, l), k)
render_live-Onward n e c (Emission.tool_args i chunk) rest a h d r =
    (n, r, h, args_frames-Follows e c i chunk (get_elem? e.tool_blocks i) a refl)
render_live-Onward n e c (Emission.final reason usage) rest a h d r = absurd cc
render_live-Onward n e c (Emission.error message) rest a h d r = absurd cc

render-live :
    (e : AnthropicSseEncoder) (em : Emission) → e.done ≡ false → render e em ≡ render_live e em
unfolding render
render-live e em l = if-false (e, []) (render_live e em) l

render_all-Follows :
    (n : ℕ) (e : AnthropicSseEncoder) (c : Client) (body : List Emission)
    → Agrees e c
    → length e.tool_blocks ≤ n
    → all_deltas body ≡ true
    → Rising n body
    → Follows c (render_all e body)
unfolding render_all all_deltas
render_all-Follows n e c [] a h d r = (c, unfold follow in refl, a)
render_all-Follows n e c (em ∷ body) a h d r =
    let (first, others) = both-true (is_delta em) (all_deltas body) d in
    let (m, r', h', (c', k, a')) = render_live-Onward n e c em body a h first r in
    let o = render_live e em in
    let (c'', k', a'') = render_all-Follows m o.0 c' body a' h' others r' in
    subst (λ x. Follows c ((render_all x.0 body).0, x.1 ++ (render_all x.0 body).1))
      (sym (render-live e em a.live))
      (c'', follow-then c c' c'' o.1 (render_all o.0 body).1 k k', a'')

final-Over :
    (e : AnthropicSseEncoder) (c : Client) (reason : Bytes) (usage : Usage)
    → Agrees e c
    → (d : Client) × (follow c (render_final e reason usage).1 ≡ some d)
      × (d.phase ≡ over)
      × (d.open_blocks ≡ [])
unfolding render_final
final-Over e c reason usage a =
    let blocks = somes e.tool_blocks ++ opt_list e.text_block in
    let counted : (i : ℕ) → count i (sort_unstable blocks) ≡ count i c.open_blocks = λ i. omega (
      arith,
      count-sort_unstable i blocks,
      count-append i (somes e.tool_blocks) (opt_list e.text_block),
      a.open_are i,
    ) in
    let (d, k, p, n, counts) =
      follow-stop_all c (sort_unstable blocks) a.reading (λ i. omega (arith, counted i)) in
    let closed = count-none d.open_blocks (λ i. omega (arith, counts i, counted i)) in
    (
      record d { phase = over },
      follow-then c d _ (stop_all (sort_unstable blocks)) _ k
          (take-end d (stop_reason e.saw_tool reason) usage p closed),
      refl,
      closed,
    )

render_all-append :
    (e : AnthropicSseEncoder) (ems fms : List Emission)
    → let o = render_all e ems in (render_all e (ems ++ fms)).1 ≡ o.1 ++ (render_all o.0 fms).1
unfolding render_all
render_all-append e [] fms = refl
render_all-append e (em ∷ ems) fms =
    let o = render e em in
    ap (λ x. o.1 ++ x) (render_all-append o.0 ems fms)
    ∙ sym (append_assoc o.1 (render_all o.0 ems).1 (render_all (render_all o.0 ems).0 fms).1)

render_all-final :
    (e : AnthropicSseEncoder) (reason : Bytes) (usage : Usage)
    → e.done ≡ false
    → (render_all e (Emission.final reason usage ∷ [])).1 ≡ (render_final e reason usage).1
unfolding render_all
render_all-final e reason usage l =
    ap (λ o. o.1 ++ []) (render-live e (Emission.final reason usage) l)
    ∙ append-nil (render_live e (Emission.final reason usage)).1
    ∙ unfold render_live in refl

follow-role :
    (id model : Bytes) (prompt_len : ℕ) (ems : List Emission)
    → let e = new id model prompt_len in
      follow idle_client (render_all e (Emission.role ∷ ems)).1
      ≡ follow reading_client (render_all e ems).1
unfolding new render_all render render_live follow take_frame take_idle
follow-role id model prompt_len ems = refl

-- The events that the encoder makes of a whole answer, the role, deltas whose calls start at rising
-- indices, and the final emission, are a stream that the protocol allows from its first event to
-- its last: blocks start with the indices 0, 1, 2, …, a delta goes to a block that is open, and at the end every block has
-- been stopped and the message is over.
pub render_all-Over :
    (id model : Bytes) (prompt_len : ℕ) (body : List Emission) (reason : Bytes) (usage : Usage)
    → all_deltas body ≡ true
    → Rising 0 body
    → let ems = Emission.role ∷ body ++ (Emission.final reason usage ∷ []) in
      (d : Client) × (follow idle_client (render_all (new id model prompt_len) ems).1 ≡ some d)
      × (d.phase ≡ over)
      × (d.open_blocks ≡ [])
render_all-Over id model prompt_len body reason usage deltas rising =
    let e = new id model prompt_len in
    let agrees : Agrees e reading_client =
      unfold new somes count in
      record { live = refl; reading = refl; next_is = refl; open_are = λ i. omega arith } in
    let (c, k, a) =
      render_all-Follows 0 e reading_client body agrees (unfold new in omega arith) deltas rising in
    let o = render_all e body in
    let (d, k', over_is, closed) = final-Over o.0 c reason usage a in
    (
      d,
      follow-role id model prompt_len (body ++ (Emission.final reason usage ∷ []))
          ∙ ap (follow reading_client) (render_all-append e body (Emission.final reason usage ∷ []))
          ∙ follow-then reading_client c d o.1 (render_all o.0 (Emission.final reason usage ∷ [])).1
              k (ap (follow c) (render_all-final o.0 reason usage a.live) ∙ k'),
      over_is,
      closed,
    )
