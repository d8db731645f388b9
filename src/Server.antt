-- ===== src/Server.antt =====
-- rust/minicpm-server/src: what the routes do with the tokens of a generation. The wire types that they
-- share; the HTTP library, JSON text and the async runtime are not part of the repository.
pub mod ArgStream
pub mod Anthropic
pub mod Escape
pub mod Calls
pub mod Chat
pub mod Config
pub mod Emissions
pub mod Generation
pub mod Json
pub mod Responses
mod Tests
use mini_cpm5_5080fast.Base.{ℕ}
use mini_cpm5_5080fast.Bytes.{Bytes}
use mini_cpm5_5080fast.Usage.{Usage}

-- A delta of an answer, which each route turns into its own frames.
pub data Emission : Type 0 where
  role : Emission
  content : Bytes → Emission
  tool_start : ℕ → Bytes → Bytes → Emission
  tool_args : ℕ → Bytes → Emission
  final : Bytes → Usage → Emission
  error : Bytes → Emission
