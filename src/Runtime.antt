-- ===== src/Runtime.antt =====
-- rust/minicpm-runtime/src/lib.rs: the parameters and statistics of a generation, and status names.
-- rust/minicpm-runtime-sys/src/lib.rs: the ABI struct and the status codes that these mirror.
pub mod Native
mod Tests
use mini_cpm5_5080fast.Base.{ℕ, Bool, ◌||◌, ◌==◌, if◌then◌else◌, ◌≡◌, refl, ◌↔◌, arith}
use mini_cpm5_5080fast.Bytes.{Bytes}
use mini_cpm5_5080fast.Bytes.Text.{codes}
use mini_cpm5_5080fast.Words.{f32_le_zero}

pub record GenerationConfig : Type 0 where
  pub max_new_tokens : ℕ
  pub temperature : ℕ
  pub top_p : ℕ
  pub top_k : ℕ
  pub repetition_penalty : ℕ
  pub seed : ℕ

pub record McGenerationConfigT : Type 0 where
  pub struct_size : ℕ
  pub max_new_tokens : ℕ
  pub temperature : ℕ
  pub top_p : ℕ
  pub top_k : ℕ
  pub repetition_penalty : ℕ
  pub seed : ℕ

-- Six 4-byte fields and one of 8 bytes, with no padding.
unfoldable pub to_native : GenerationConfig → McGenerationConfigT
to_native c = record {
  struct_size = 32;
  max_new_tokens = c.max_new_tokens;
  temperature = c.temperature;
  top_p = c.top_p;
  top_k = c.top_k;
  repetition_penalty = c.repetition_penalty;
  seed = c.seed;
}

unfoldable pub is_greedy : GenerationConfig → Bool
is_greedy c = f32_le_zero c.temperature || c.top_k == 1

-- 1.0 and 0.95 as IEEE 754 bit patterns.
abbrev pub default : GenerationConfig
default = record {
  max_new_tokens = 512;
  temperature = 0x3F800000;
  top_p = 0x3F733333;
  top_k = 0;
  repetition_penalty = 0x3F800000;
  seed = 0;
}

pub record RuntimeStats : Type 0 where
  pub prompt_tokens : ℕ
  pub generated_tokens : ℕ
  pub prefill_us : ℕ
  pub decode_us : ℕ
  pub peak_vram_bytes : ℕ
  pub cuda_graph_launches : ℕ

-- The names of the codes of `mc_status_t`, by its values.
unfoldable pub status_name : ℕ → Bytes
status_name s =
    if s == 0
    then codes "MC_OK"
    else if s == 1
    then codes "MC_E_INVALID_ARGUMENT"
    else if s == 2
    then codes "MC_E_IO"
    else if s == 3
    then codes "MC_E_CUDA"
    else if s == 4
    then codes "MC_E_MODEL_MISMATCH"
    else if s == 5
    then codes "MC_E_OUT_OF_MEMORY"
    else if s == 6
    then codes "MC_E_GRAPH"
    else if s == 7
    then codes "MC_E_UNSUPPORTED"
    else if s == 100
    then codes "MC_E_INTERNAL"
    else codes "MC_E_UNKNOWN"
