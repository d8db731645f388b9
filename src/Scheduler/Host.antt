-- ===== src/Scheduler/Host.antt =====
-- What the worker calls and the repository does not implement in Rust, or leaves to other threads:
-- the clock, the cancel flags that clients set, the tokio channels that clients read, the job channel,
-- and the engine with its sessions and batch group behind the native library. Each call may change
-- the world in any way, so what other threads do between two calls is included.
use mini_cpm5_5080fast.Base.{ℕ, Bool, true, false, Option, List, ◌∷◌}
use mini_cpm5_5080fast.Bytes.{Bytes}
use mini_cpm5_5080fast.Runtime.{GenerationConfig, RuntimeStats}
use mini_cpm5_5080fast.Scheduler.Types.{GenEvent, Job, Entry, Worker}

-- `anyhow::Result`, an error with its rendered chain
pub data Reply {ℓ} (A : Type ℓ) : Type ℓ where
  ok : A → Reply A
  err : Bytes → Reply A

-- `try_send`
pub data SendResult : Type 0 where
  accepted full closed : SendResult

-- `recv` and `try_recv` on the job channel
pub data Received : Type 0 where
  job : Job → Received
  empty disconnected : Received

pub record Host : Type 1 where
  pub World : Type 0
  pub now : World → ℕ × World
  pub epoch_ms : World → ℕ × World
  pub is_cancelled : World → ℕ → Bool × World
  pub is_closing : World → Bool × World
  pub try_send : World → ℕ → GenEvent → SendResult × World
  pub blocking_send : World → ℕ → GenEvent → Bool × World
  pub recv : World → Option Job × World
  pub try_recv : World → Received × World
  pub create_session : World → Reply ℕ × World
  pub reset : World → ℕ → Reply (Unit {0}) × World
  pub prefill : World → ℕ → List ℕ → Reply (Unit {0}) × World
  pub decode_one : World → ℕ → GenerationConfig → Reply ℕ × World
  pub stats : World → ℕ → Reply RuntimeStats × World
  pub drop_session : World → ℕ → World
  pub supports_batch : Bool
  pub create_batch_group : World → ℕ → Reply ℕ × World
  pub group_add : World → ℕ → ℕ → Reply ℕ × World
  pub group_remove : World → ℕ → ℕ → World
  pub group_step : World → ℕ → List ℕ → List GenerationConfig → Reply (List ℕ) × World
  pub drop_group : World → ℕ → World

abbrev pub note : {W : Type 0} → Worker W → W → Entry → Worker W
note s w e = record s { world = w; log = e ∷ s.log }

-- The calls, on the worker's state.
module _ (h : Host) where
  open h use {World}

  unfoldable pub read_now : Worker World → ℕ × Worker World
  read_now s = let (t, w) = h.now s.world in (t, record s { world = w })

  unfoldable pub load_cancel : Worker World → ℕ → Bool × Worker World
  load_cancel s flag = let (b, w) = h.is_cancelled s.world flag in (b, record s { world = w })

  -- the log entry of a send that was taken
  unfoldable pub sent_if : Bool → Worker World → World → ℕ → GenEvent → Worker World
  sent_if true s w ch ev = note s w (Entry.sent ch ev)
  sent_if false s w ch ev = record s { world = w }

  unfoldable pub is_accepted : SendResult → Bool
  is_accepted accepted = true
  is_accepted full = false
  is_accepted closed = false

  unfoldable pub try_send : Worker World → ℕ → GenEvent → SendResult × Worker World
  unfolding sent_if is_accepted
  try_send s ch ev = let (r, w) = h.try_send s.world ch ev in (r, sent_if (is_accepted r) s w ch ev)

  unfoldable pub blocking_send : Worker World → ℕ → GenEvent → Worker World
  unfolding sent_if
  blocking_send s ch ev = let (r, w) = h.blocking_send s.world ch ev in sent_if r s w ch ev

  unfoldable pub call_reset : Worker World → ℕ → Reply (Unit {0}) × Worker World
  call_reset s sid = let (r, w) = h.reset s.world sid in (r, note s w (Entry.reset sid))

  unfoldable pub call_prefill : Worker World → ℕ → List ℕ → Reply (Unit {0}) × Worker World
  call_prefill s sid ids =
      let (r, w) = h.prefill s.world sid ids in (r, note s w (Entry.prefilled sid))

  unfoldable pub decode_entry : ℕ → Reply ℕ → Entry
  decode_entry sid (ok t) = Entry.decoded sid t
  decode_entry sid (err e) = Entry.decode_failed sid

  unfoldable pub call_decode : Worker World → ℕ → GenerationConfig → Reply ℕ × Worker World
  unfolding decode_entry
  call_decode s sid cfg =
      let (r, w) = h.decode_one s.world sid cfg in (r, note s w (decode_entry sid r))

  unfoldable pub read_stats : Worker World → ℕ → Reply RuntimeStats × Worker World
  read_stats s sid = let (r, w) = h.stats s.world sid in (r, record s { world = w })
