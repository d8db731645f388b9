-- ===== src/Server/Responses/Same.antt =====
-- The streamed and the whole response of one answer.
use mini_cpm5_5080fast.Base.{
  ℕ, ◌≡◌, refl, sym, ap, ◌∙◌, subst, true, false, none, some, List, [], ◌∷◌, ◌++◌, append-nil,
}
use mini_cpm5_5080fast.Bytes.{Bytes}
use mini_cpm5_5080fast.Usage.{as_str}
use mini_cpm5_5080fast.ToolCall.{ToolCall}
use mini_cpm5_5080fast.Stop.Window.{AllFilled}
use mini_cpm5_5080fast.Scheduler.Types.{GenEvent}
use mini_cpm5_5080fast.Server.{Emission}
use mini_cpm5_5080fast.Server.Emissions.{joined_content, joined_content-append, call_starts}
use mini_cpm5_5080fast.Server.Generation.{Route, Generation, GenResult, run_generation}
use mini_cpm5_5080fast.Server.Generation.Finished.{run_generation-Finished, final_of}
use mini_cpm5_5080fast.Server.Generation.Told.{run_generation-joined_content}
use mini_cpm5_5080fast.Server.Responses.{ItemJson, new, render_all}
use mini_cpm5_5080fast.Server.Responses.Items.{output_text}
use mini_cpm5_5080fast.Server.Responses.Output.{
  non_stream_json, output_of, text_items, call_items, or_empty, message_item, function_call_item,
}
use mini_cpm5_5080fast.Server.Responses.Text.{Ends, render_all-Ends}

module _ {V : Type 0} (mint : V → Bytes → Bytes × V) where
  call_items-quiet : (v : V) (calls : List ToolCall) → output_text (call_items mint v calls).0 ≡ []
  unfolding output_text call_items function_call_item
  call_items-quiet v [] = refl
  call_items-quiet v (call ∷ calls) = call_items-quiet (mint v _).1 calls

  or_empty-text :
      (its : List ItemJson) (v : V) → output_text (or_empty mint its v).0 ≡ output_text its
  unfolding output_text or_empty message_item
  or_empty-text [] v = refl
  or_empty-text (it ∷ its) v = refl

  text_items-text :
      (v : V) (text : Bytes) (its : List ItemJson)
      → output_text its ≡ []
      → output_text ((text_items mint v text).0 ++ its) ≡ text
  unfolding output_text text_items message_item
  text_items-text v [] its e = e
  text_items-text v (b ∷ bs) its e = ap (λ x. (b ∷ bs) ++ x) e ∙ append-nil (b ∷ bs)

  -- the messages of a whole response have its content
  non_stream_json-content :
      (v : V) (res : GenResult) (id : Bytes) (created : ℕ) (model : Bytes)
      → output_text (non_stream_json mint v res id created model).0.output ≡ res.content
  unfolding non_stream_json output_of
  non_stream_json-content v res id created model =
      or_empty-text _ _ ∙ text_items-text v res.content _ (call_items-quiet _ res.tool_calls)

  module _ {W : Type 0} (r : Route W)
      (accepts : (w : W) (em : Emission) → (r.emit w em).0 ≡ true) where
    -- If no slice panics, nothing fails, no call starts and the client takes every event: the last event
    -- of the streamed response lists an output with the same text as the output of the whole response has,
    -- and the delta events before it say the same. No stop string is empty.
    pub run_generation-same_output :
        (rx : List GenEvent) (stop_strings : List Bytes) (prompt_len : ℕ) (w : W) (h : Generation W)
        (res : GenResult) (id model : Bytes) (created : ℕ) (v u : V)
        → AllFilled stop_strings
        → run_generation r rx stop_strings prompt_len w ≡ some (h, res)
        → res.error ≡ none
        → h.client_gone ≡ false
        → call_starts h.sent ≡ []
        → Ends mint
            (output_text (non_stream_json mint u res id created model).0.output)
            res.usage
            (render_all mint (new id model created v) h.sent).1
    unfolding joined_content
    run_generation-same_output rx stop_strings prompt_len w h res id model created v u a e well
          stays quiet =
        let (body, deltas, sent) =
          run_generation-Finished r rx stop_strings prompt_len w h res e well stays in
        let text : joined_content body
            ≡ output_text (non_stream_json mint u res id created model).0.output =
          sym (append-nil (joined_content body))
          ∙ sym (joined_content-append body (final_of res ∷ []))
          ∙ sym (ap joined_content sent)
          ∙ run_generation-joined_content r accepts rx stop_strings prompt_len w h res a e well
              stays quiet
          ∙ sym (non_stream_json-content u res id created model) in
        subst (λ x. Ends mint x res.usage (render_all mint (new id model created v) h.sent).1) text
          (subst
            (λ x.
              Ends mint (joined_content body) res.usage
                (render_all mint (new id model created v) x).1)
            (sym sent)
            (render_all-Ends mint id model created v body (as_str res.finish_reason) res.usage
              deltas))
