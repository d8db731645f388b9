-- ===== src/Metrics.antt =====
-- rust/minicpm-metrics/src/lib.rs: the counters, gauges and timings of the host. Every field is an
-- atomic that one operation updates, so the registry is a record and an operation is a function on it.
-- A duration is its nanoseconds.
pub mod Laws
mod Tests
use mini_cpm5_5080fast.Base.{
  ℕ, zero, suc, ◌+◌, ◌-◌, ◌/◌, ◌%◌, List, [], ◌∷◌, ◌++◌, max, ltb, ◌==◌, if◌then◌else◌, length,
}
use mini_cpm5_5080fast.Bytes.{Bytes}
use mini_cpm5_5080fast.Words.{u64_mod, wrapping_add, wrapping_sub}

abbrev pub recent_requests_cap : ℕ
recent_requests_cap = 64

pub record TimingStats : Type 0 where
  pub count : ℕ
  pub sum_us : ℕ
  pub max_us : ℕ

pub record RecentReq : Type 0 where
  pub ttft_us : ℕ
  pub tpot_us : ℕ
  pub prompt_tokens : ℕ
  pub completion_tokens : ℕ
  pub finish_reason : Bytes
  pub ts_ms : ℕ

pub record MetricsRegistry : Type 0 where
  pub requests_total : ℕ
  pub stream_requests_total : ℕ
  pub cancelled_total : ℕ
  pub errors_total : ℕ
  pub prompt_tokens_total : ℕ
  pub generated_tokens_total : ℕ
  pub active_streams : ℕ
  pub ttft : TimingStats
  pub tpot : TimingStats
  pub prefill_us_total : ℕ
  pub queue_depth : ℕ
  pub active_sessions : ℕ
  pub batched_steps_total : ℕ
  pub batch_fallbacks_total : ℕ
  pub batch_size_sum : ℕ
  pub recent_requests : List RecentReq

-- `d.as_micros() as u64`
abbrev pub as_micros : ℕ → ℕ
as_micros d = d / 1000 % u64_mod

unfoldable pub observe : TimingStats → ℕ → TimingStats
observe t d = record {
  count = wrapping_add t.count 1;
  sum_us = wrapping_add t.sum_us (as_micros d);
  max_us = max t.max_us (as_micros d);
}

unfoldable pub observe_ttft : MetricsRegistry → ℕ → MetricsRegistry
observe_ttft m d = record m { ttft = observe m.ttft d }

unfoldable pub observe_tpot : MetricsRegistry → ℕ → MetricsRegistry
observe_tpot m d = record m { tpot = observe m.tpot d }

-- `while q.len() > RECENT_REQUESTS_CAP { q.pop_front(); }`, the front first
unfoldable pub trim : List RecentReq → List RecentReq
trim [] = []
trim (r ∷ q) = let rest = trim q in if ltb recent_requests_cap (suc (length q)) then rest else r ∷ q

unfoldable pub push_recent : MetricsRegistry → RecentReq → MetricsRegistry
unfolding trim
push_recent m r = record m { recent_requests = trim (m.recent_requests ++ r ∷ []) }

pub record TimingSnapshot : Type 0 where
  pub count : ℕ
  pub sum : ℕ
  pub max : ℕ
  pub mean : ℕ

-- `TimingStats::snapshot`; the mean of no samples is 0
unfoldable pub snapshot : TimingStats → TimingSnapshot
snapshot t = record {
  count = t.count;
  sum = t.sum_us;
  max = t.max_us;
  mean = if t.count == 0 then 0 else t.sum_us / t.count;
}

abbrev pub no_samples : TimingStats
no_samples = record { count = 0; sum_us = 0; max_us = 0 }

-- `MetricsRegistry::default`
abbrev pub fresh : MetricsRegistry
fresh = record {
  requests_total = 0;
  stream_requests_total = 0;
  cancelled_total = 0;
  errors_total = 0;
  prompt_tokens_total = 0;
  generated_tokens_total = 0;
  active_streams = 0;
  ttft = no_samples;
  tpot = no_samples;
  prefill_us_total = 0;
  queue_depth = 0;
  active_sessions = 0;
  batched_steps_total = 0;
  batch_fallbacks_total = 0;
  batch_size_sum = 0;
  recent_requests = [];
}
