-- ===== src/Usage.antt =====
-- rust/minicpm-generation/src/usage.rs: why a generation ended, and its token counts.
use mini_cpm5_5080fast.Base.{ℕ, ◌+◌, ◌%◌}
use mini_cpm5_5080fast.Bytes.{Bytes}
use mini_cpm5_5080fast.Bytes.Text.{codes}
use mini_cpm5_5080fast.Words.{u64_mod}

pub data FinishReason : Type 0 where
  stop length cancelled error : FinishReason

unfoldable pub as_str : FinishReason → Bytes
as_str stop = codes "stop"
as_str length = codes "length"
as_str cancelled = codes "stop"
as_str error = codes "error"

pub record Usage : Type 0 where
  pub prompt_tokens : ℕ
  pub completion_tokens : ℕ

unfoldable pub total_tokens : Usage → ℕ
total_tokens u = (u.prompt_tokens + u.completion_tokens) % u64_mod
