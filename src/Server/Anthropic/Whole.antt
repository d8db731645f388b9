-- ===== src/Server/Anthropic/Whole.antt =====
-- The generation loop and the encoder together: the event stream of a whole answer.
use mini_cpm5_5080fast.Base.{
  ℕ, zero, suc, ◌+◌, ◌≡◌, sym, ap, ◌∙◌, subst, true, false, none, some, List, [], ◌∷◌, arith,
  append-nil,
}
use mini_cpm5_5080fast.Bytes.{Bytes}
use mini_cpm5_5080fast.Usage.{as_str}
use mini_cpm5_5080fast.Scheduler.Types.{GenEvent}
use mini_cpm5_5080fast.Server.{Emission}
use mini_cpm5_5080fast.Server.Emissions.{call_starts, call_starts-append, count_from}
use mini_cpm5_5080fast.Server.Generation.{Route, Generation, GenResult, run_generation}
use mini_cpm5_5080fast.Server.Generation.Finished.{run_generation-Finished, final_of}
use mini_cpm5_5080fast.Server.Generation.Starts.{run_generation-call_starts}
use mini_cpm5_5080fast.Server.Anthropic.{new, render_all}
use mini_cpm5_5080fast.Server.Anthropic.Client.{Client, Phase, follow, idle_client}
use mini_cpm5_5080fast.Server.Anthropic.Protocol.{Rising, render_all-Over}

Rising-count_from : (n k : ℕ) (es : List Emission) → call_starts es ≡ count_from n k → Rising n es
unfolding Rising call_starts count_from
Rising-count_from n k [] e = tt
Rising-count_from n k (Emission.role ∷ es) e = Rising-count_from n k es e
Rising-count_from n k (Emission.content t ∷ es) e = Rising-count_from n k es e
Rising-count_from n zero (Emission.tool_start i d m ∷ es) e = absurd (ground (arith, e))
Rising-count_from n (suc k) (Emission.tool_start i d m ∷ es) e =
    let first : i ≡ n = ground (arith, e) in
    let rest : call_starts es ≡ count_from (n + 1) k = cc (e) in
    (
      omega (arith, first),
      subst (λ x. Rising (x + 1) es) (sym first) (Rising-count_from (n + 1) k es rest),
    )
Rising-count_from n k (Emission.tool_args i c ∷ es) e = Rising-count_from n k es e
Rising-count_from n k (Emission.final reason u ∷ es) e = Rising-count_from n k es e
Rising-count_from n k (Emission.error m ∷ es) e = Rising-count_from n k es e

module _ {W : Type 0} (r : Route W)
    (accepts : (w : W) (em : Emission) → (r.emit w em).0 ≡ true) where
  -- If no slice panics, the consumer takes every emission and nothing fails: the emissions of
  -- an answer, rendered by a new encoder, are a stream that the protocol allows from its first event to
  -- its last; at the end every block has been stopped and the message is over.
  pub run_generation-Over :
      (rx : List GenEvent) (stop_strings : List Bytes) (prompt_len : ℕ) (w : W) (h : Generation W)
      (res : GenResult) (id model : Bytes)
      → run_generation r rx stop_strings prompt_len w ≡ some (h, res)
      → res.error ≡ none
      → h.client_gone ≡ false
      → (d : Client) × (follow idle_client (render_all (new id model prompt_len) h.sent).1 ≡ some d)
        × (d.phase ≡ Phase.over)
        × (d.open_blocks ≡ [])
  unfolding call_starts count_from
  run_generation-Over rx stop_strings prompt_len w h res id model e well stays =
      let (body, deltas, sent) =
        run_generation-Finished r rx stop_strings prompt_len w h res e well stays in
      let (n, starts) =
        run_generation-call_starts r accepts rx stop_strings prompt_len w h res e stays in
      let rising = Rising-count_from 0 n body (
        sym (append-nil (call_starts body))
        ∙ sym (call_starts-append body (final_of res ∷ []))
        ∙ sym (ap call_starts sent)
        ∙ starts) in
      subst
        (λ x.
          (d : Client) × (follow idle_client (render_all (new id model prompt_len) x).1 ≡ some d)
          × (d.phase ≡ Phase.over)
          × (d.open_blocks ≡ []))
        (sym sent)
        (render_all-Over id model prompt_len body (as_str res.finish_reason) res.usage deltas
          rising)
