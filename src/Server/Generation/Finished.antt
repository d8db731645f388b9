-- ===== src/Server/Generation/Finished.antt =====
-- The emissions of an answer in which nothing failed.
use mini_cpm5_5080fast.Base.{
  ℕ, ◌≡◌, ap, ◌∙◌, refl, true, false, none, some, List, [], ◌∷◌, ◌++◌, inl, inr,
}
use mini_cpm5_5080fast.Bytes.{Bytes}
use mini_cpm5_5080fast.Usage.{as_str}
use mini_cpm5_5080fast.Scheduler.Types.{GenEvent}
use mini_cpm5_5080fast.Server.{Emission}
use mini_cpm5_5080fast.Server.Generation.{Route, Generation, GenResult, run_generation}
use mini_cpm5_5080fast.Server.Generation.Sent.{
  run_generation-Answered, Answered, report, all_deltas,
}

-- the emission that ends such an answer
abbrev pub final_of : GenResult → Emission
final_of res = Emission.final (as_str res.finish_reason) res.usage

-- the role, deltas and the final emission
abbrev pub Finished : List Emission → GenResult → Type 0
Finished sent res =
    (body : List Emission) × (all_deltas body ≡ true)
    × (sent ≡ Emission.role ∷ body ++ final_of res ∷ [])

report-final :
    {W : Type 0} (r : Route W) (res : GenResult) → res.error ≡ none → report r res ≡ final_of res
unfolding report
report-final r res e = rw (e) refl

pub run_generation-Finished :
    {W : Type 0} (r : Route W) (rx : List GenEvent) (stop_strings : List Bytes) (prompt_len : ℕ)
    (w : W) (h : Generation W) (res : GenResult)
    → run_generation r rx stop_strings prompt_len w ≡ some (h, res)
    → res.error ≡ none
    → h.client_gone ≡ false
    → Finished h.sent res
unfolding Answered
run_generation-Finished r rx stop_strings prompt_len w h res e well stays =
    let (body, deltas, way) = run_generation-Answered r rx stop_strings prompt_len w h res e in
    elim way [
      | inl (gone, _, _) ↦ absurd (cc (gone, stays))
      | inr (_, sent_is, _) ↦ (
        body,
        deltas,
        sent_is ∙ ap (λ em. Emission.role ∷ body ++ em ∷ []) (report-final r res well),
      )
    ]
