-- ===== src/Scheduler/Types.antt =====
-- The data of the scheduler. A session, a cancel flag, an event channel, a batch group and a slot is
-- the number that names it; an instant is its nanoseconds.
use mini_cpm5_5080fast.Base.{ℕ, Bool, ◌||◌, Option, List, ◌==◌}
use mini_cpm5_5080fast.Bytes.{Bytes}
use mini_cpm5_5080fast.Metrics.{MetricsRegistry}
use mini_cpm5_5080fast.Runtime.{GenerationConfig}
use mini_cpm5_5080fast.Usage.{FinishReason, Usage}

abbrev pub max_batch_slots : ℕ
max_batch_slots = 8

-- `EOS_IDS.contains(&token)`
unfoldable pub is_eos : ℕ → Bool
is_eos token = token == 1 || token == 130073

pub data GenEvent : Type 0 where
  token : ℕ → GenEvent
  done : FinishReason → Usage → GenEvent
  failed : Bytes → GenEvent

pub record Job : Type 0 where
  pub prompt_ids : List ℕ
  pub config : GenerationConfig
  pub events : ℕ
  pub cancel : ℕ
  pub enqueued_at : ℕ

-- `SchedulerConfig`, as far as the worker reads it
pub record Limits : Type 0 where
  pub max_sessions : ℕ
  pub queue_timeout : ℕ
  pub batching : Bool

-- The `phase` of the source has one value and is left out.
pub record ActiveGen : Type 0 where
  pub session : ℕ
  pub config : GenerationConfig
  pub events : ℕ
  pub cancel : ℕ
  pub prompt_tokens : ℕ
  pub generated : ℕ
  pub pending_tok : Option ℕ
  pub enqueued_at : ℕ
  pub first_token_at : Option ℕ
  pub slot_id : Option ℕ
  pub batch_held : Bool

pub data Finish : Type 0 where
  stop length cancelled : Finish
  failed : Bytes → Finish

pub data StepResult : Type 0 where
  continue yield : StepResult
  finished : Finish → StepResult

pub data RetireMode : Type 0 where
  serving shutdown : RetireMode

-- What the worker asked of the engine, of its sessions and of its batch group, and the events that a
-- channel took. A decode and a batch step carry the tokens that they gave, with their sessions.
pub data Entry : Type 0 where
  created reset prefilled dropped decode_failed : ℕ → Entry
  decoded : ℕ → ℕ → Entry
  added removed : ℕ → Entry
  stepped : List (ℕ × ℕ) → Entry
  sent : ℕ → GenEvent → Entry

-- The worker's own state. The back of the `Vec` of idle sessions is the head of `idle`, the front of
-- the `VecDeque` is the head of `active`, and the newest entry is the head of `log`, which the source
-- does not keep.
pub record Worker (W : Type 0) : Type 0 where
  pub world : W
  pub log : List Entry
  pub metrics : MetricsRegistry
  pub idle : List ℕ
  pub active : List ActiveGen
  pub group : Option ℕ
  pub waiting : ℕ
