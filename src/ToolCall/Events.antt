-- ===== src/ToolCall/Events.antt =====
-- What the events of the parser say: the calls that ended, the calls that started, and the text.
use mini_cpm5_5080fast.Base.{ℕ, ◌+◌, ◌≡◌, refl, ap, List, [], ◌∷◌, ◌++◌, arith, append_assoc}
use mini_cpm5_5080fast.Bytes.{Bytes}
use mini_cpm5_5080fast.ToolCall.{ToolCall, new, ToolCallEvent, ToolCallParser}
use mini_cpm5_5080fast.ToolCall.Step.{push, finish}

unfoldable pub ended : List ToolCallEvent → List ToolCall
ended [] = []
ended (ToolCallEvent.text t ∷ es) = ended es
ended (ToolCallEvent.tool_call_start n ∷ es) = ended es
ended (ToolCallEvent.param_value n v ∷ es) = ended es
ended (ToolCallEvent.tool_call_end c ∷ es) = c ∷ ended es

unfoldable pub started : List ToolCallEvent → ℕ
started [] = 0
started (ToolCallEvent.text t ∷ es) = started es
started (ToolCallEvent.tool_call_start n ∷ es) = started es + 1
started (ToolCallEvent.param_value n v ∷ es) = started es
started (ToolCallEvent.tool_call_end c ∷ es) = started es

-- `joined_text` of the crate's tests
unfoldable pub joined_text : List ToolCallEvent → Bytes
joined_text [] = []
joined_text (ToolCallEvent.text t ∷ es) = t ++ joined_text es
joined_text (ToolCallEvent.tool_call_start n ∷ es) = joined_text es
joined_text (ToolCallEvent.param_value n v ∷ es) = joined_text es
joined_text (ToolCallEvent.tool_call_end c ∷ es) = joined_text es

pub ended-append : (es es' : List ToolCallEvent) → ended (es ++ es') ≡ ended es ++ ended es'
unfolding ended
ended-append [] es' = refl
ended-append (ToolCallEvent.text t ∷ es) es' = ended-append es es'
ended-append (ToolCallEvent.tool_call_start n ∷ es) es' = ended-append es es'
ended-append (ToolCallEvent.param_value n v ∷ es) es' = ended-append es es'
ended-append (ToolCallEvent.tool_call_end c ∷ es) es' = ap (◌∷◌ c) (ended-append es es')

pub started-append : (es es' : List ToolCallEvent) → started (es ++ es') ≡ started es + started es'
unfolding started
started-append [] es' = omega arith
started-append (ToolCallEvent.text t ∷ es) es' = started-append es es'
started-append (ToolCallEvent.tool_call_start n ∷ es) es' = omega (arith, started-append es es')
started-append (ToolCallEvent.param_value n v ∷ es) es' = started-append es es'
started-append (ToolCallEvent.tool_call_end c ∷ es) es' = started-append es es'

pub joined_text-append :
    (es es' : List ToolCallEvent) → joined_text (es ++ es') ≡ joined_text es ++ joined_text es'
unfolding joined_text
joined_text-append [] es' = refl
joined_text-append (ToolCallEvent.text t ∷ es) es' =
    rw (joined_text-append es es', append_assoc t (joined_text es) (joined_text es'))
joined_text-append (ToolCallEvent.tool_call_start n ∷ es) es' = joined_text-append es es'
joined_text-append (ToolCallEvent.param_value n v ∷ es) es' = joined_text-append es es'
joined_text-append (ToolCallEvent.tool_call_end c ∷ es) es' = joined_text-append es es'

-- The fragments of one answer, each pushed, and then `finish`.
module _ (render : List (Bytes × Bytes) → Bytes) where
  unfoldable pub push_all : ToolCallParser → List Bytes → ToolCallParser × List ToolCallEvent
  push_all p [] = (p, [])
  push_all p (fragment ∷ fragments) =
      let (q, es) = push render p fragment in let (r, es') = push_all q fragments in (r, es ++ es')

  unfoldable pub parse : List Bytes → ToolCallParser × List ToolCallEvent
  parse fragments =
      let (p, es) = push_all new fragments in let (q, es') = finish render p in (q, es ++ es')
