-- ===== src/Server/Config.antt =====
-- rust/minicpm-server/src/chat.rs and lib.rs: what a request says on sampling, and the ids of answers. A float
-- is its bits; the cast of an f64 to an f32 is a parameter.
use mini_cpm5_5080fast.Base.{
  ℕ, ◌+◌, ◌-◌, ◌%◌, ◌≤◌, ◌≡◌, refl, Option, none, some, ◌∷◌, ◌++◌, min, arith, suc,
}
use mini_cpm5_5080fast.Bytes.{Bytes}
use mini_cpm5_5080fast.Words.{u64_mod, u32_mod}
use mini_cpm5_5080fast.Runtime.{GenerationConfig}
use mini_cpm5_5080fast.ToolCall.{digits}

-- the fields of `ChatRequest` that `merge_config` reads
pub record ChatRequest : Type 0 where
  pub temperature : Option ℕ
  pub top_p : Option ℕ
  pub top_k : Option ℕ
  pub repetition_penalty : Option ℕ
  pub seed : Option ℕ
  pub max_tokens : Option ℕ
  pub max_completion_tokens : Option ℕ

abbrev pub or_else : Option ℕ → Option ℕ → Option ℕ
or_else (some n) o = some n
or_else none o = o

abbrev pub over : Option ℕ → ℕ → ℕ
over (some n) m = n
over none m = m

abbrev pub map_over : (ℕ → ℕ) → Option ℕ → ℕ → ℕ
map_over f (some n) m = f n
map_over f none m = m

-- `m.min(u32::MAX as u64) as u32`
abbrev pub clamp_u32 : ℕ → ℕ
clamp_u32 m = min m (u32_mod - 1)

unfoldable pub merge_config : (ℕ → ℕ) → GenerationConfig → ChatRequest → GenerationConfig
merge_config to_f32 c req = record {
  temperature = map_over to_f32 req.temperature c.temperature;
  top_p = map_over to_f32 req.top_p c.top_p;
  top_k = over req.top_k c.top_k;
  repetition_penalty = map_over to_f32 req.repetition_penalty c.repetition_penalty;
  seed = over req.seed c.seed;
  max_new_tokens =
      map_over clamp_u32 (or_else req.max_completion_tokens req.max_tokens) c.max_new_tokens;
}

-- `max_output_tokens.or(max_tokens)`
unfoldable pub effective_max_tokens : Option ℕ → Option ℕ → Option ℕ
effective_max_tokens max_output_tokens max_tokens = or_else max_output_tokens max_tokens

-- The counter after the call, and `{prefix}-{n}`.
unfoldable pub next_id : ℕ → Bytes → ℕ × Bytes
next_id counter prefix = let n = (counter + 1) % u64_mod in (n, prefix ++ (45 ∷ digits (suc n) n))

-- The limit of a request is never above what a u32 holds, also when a request asks for more, if that of the
-- default is not; and `max_completion_tokens` is what counts when both limits are given.
pub merge_config-bounded :
    (to_f32 : ℕ → ℕ) (c : GenerationConfig) (req : ChatRequest) (n : ℕ)
    → c.max_new_tokens ≤ (u32_mod - 1)
    → ((merge_config to_f32 c req).max_new_tokens ≤ (u32_mod - 1))
      × ((merge_config to_f32 c (record req { max_completion_tokens = some n })).max_new_tokens
          ≡ min n (u32_mod - 1))
unfolding merge_config
merge_config-bounded to_f32 c req n h = (ground arith, refl)
