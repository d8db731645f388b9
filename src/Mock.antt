-- ===== src/Mock.antt =====
-- rust/minicpm-runtime/src/mock.rs: the engine without a GPU, which the tests of the host run on.
-- The delay of a decode is left out. Counters that the sessions share are in one record.
pub mod Replay
mod Tests
use mini_cpm5_5080fast.Base.{ℕ, ◌+◌, ◌*◌, ◌%◌, Option, none, some, List, [], ◌∷◌, length, get_elem?}
use mini_cpm5_5080fast.Words.{u32_mod}
use mini_cpm5_5080fast.Runtime.{RuntimeStats}

-- `MOCK_EOS`
abbrev pub mock_eos : ℕ
mock_eos = 130073

abbrev pub lcg_mult : ℕ
lcg_mult = 1664525

abbrev pub lcg_inc : ℕ
lcg_inc = 1013904223

pub record MockStats : Type 0 where
  pub sessions_created : ℕ
  pub prefill_calls : ℕ
  pub prefill_tokens : ℕ
  pub decode_calls : ℕ
  pub reset_calls : ℕ

pub record MockEngine : Type 0 where
  pub script : Option (List ℕ)
  pub stats : MockStats

pub record MockSession : Type 0 where
  pub script : Option (List ℕ)
  pub pos : ℕ
  pub lcg : ℕ
  pub prompt_len : ℕ
  pub generated : ℕ

abbrev pub no_calls : MockStats
no_calls = record {
  sessions_created = 0;
  prefill_calls = 0;
  prefill_tokens = 0;
  decode_calls = 0;
  reset_calls = 0;
}

abbrev pub new : MockEngine
new = record { script = none; stats = no_calls }

abbrev pub with_script : List ℕ → MockEngine
with_script script = record new { script = some script }

unfoldable pub create_session : MockEngine → MockEngine × MockSession
create_session e =
    let counted = record e.stats { sessions_created = e.stats.sessions_created + 1 } in
    let session : MockSession = record {
      script = e.script;
      pos = 0;
      lcg = 0x9E3779B9;
      prompt_len = 0;
      generated = 0;
    } in
    (record e { stats = counted }, session)

unfoldable pub prefill : MockStats → MockSession → List ℕ → MockStats × MockSession
prefill st s ids =
    let counted = record st {
      prefill_calls = st.prefill_calls + 1;
      prefill_tokens = st.prefill_tokens + length ids;
    } in
    (counted, record s { prompt_len = length ids })

-- `script[self.pos]` if there is one
unfoldable pub from_script : MockSession → Option ℕ → ℕ × MockSession
from_script s (some t) = (t, record s { pos = s.pos + 1 })
from_script s none = (mock_eos, s)

unfoldable pub next_token : MockSession → Option (List ℕ) → ℕ × MockSession
unfolding from_script
next_token s (some script) = from_script s (get_elem? script s.pos)
next_token s none =
    let lcg = (s.lcg * lcg_mult + lcg_inc) % u32_mod in (100 + lcg % 1000, record s { lcg = lcg })

unfoldable pub decode_one : MockStats → MockSession → ℕ × MockStats × MockSession
unfolding next_token
decode_one st s =
    let counted = record st { decode_calls = st.decode_calls + 1 } in
    let (token, s') = next_token (record s { generated = s.generated + 1 }) s.script in
    (token, counted, s')

unfoldable pub reset : MockStats → MockSession → MockStats × MockSession
reset st s =
    let counted = record st { reset_calls = st.reset_calls + 1 } in
    (counted, record s { pos = 0; prompt_len = 0; generated = 0 })

unfoldable pub stats : MockSession → RuntimeStats
stats s = record {
  prompt_tokens = s.prompt_len;
  generated_tokens = s.generated;
  prefill_us = 0;
  decode_us = 0;
  peak_vram_bytes = 0;
  cuda_graph_launches = 0;
}
