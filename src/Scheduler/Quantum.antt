-- ===== src/Scheduler/Quantum.antt =====
-- The parts of one quantum of `worker_loop`: the sorting of the active streams, the stream that steps
-- aside, the solo steps, and the attempt at a batch step.
use mini_cpm5_5080fast.Base.{
  ℕ, Bool, true, false, not, ◌&&◌, Option, none, some, List, [], ◌∷◌, ◌++◌, map, min, ltb, ◌==◌,
  if◌then◌else◌, length, is_some,
}
use mini_cpm5_5080fast.Runtime.{is_greedy}
use mini_cpm5_5080fast.Scheduler.Types.{
  ActiveGen, Entry, Finish, Limits, continue, yield, finished, serving, Worker, max_batch_slots,
}
use mini_cpm5_5080fast.Scheduler.Host.{Host, Reply, ok, err, note, load_cancel}
use mini_cpm5_5080fast.Scheduler.Gen.{step, Stepped}
use mini_cpm5_5080fast.Scheduler.Retire.{demote_from_group, retire}

-- `solo` and `batch` of the sorting.
pub record Sorted (W : Type 0) : Type 0 where
  pub worker : Worker W
  pub solo : List ActiveGen
  pub batch : List ActiveGen

-- The outcome of the attempt to make one batch step: the streams, with their slots, and the tokens
-- if it succeeded.
pub record Attempt (W : Type 0) : Type 0 where
  pub worker : Worker W
  pub batch : List ActiveGen
  pub tokens : Option (List ℕ)

abbrev pub push_back : {W : Type 0} → Worker W → ActiveGen → Worker W
push_back s gen = record s { active = s.active ++ gen ∷ [] }

abbrev pub sessions_of : List ActiveGen → List ℕ
sessions_of = map (λ gen. gen.session)

unfoldable pub zip_tokens : List ActiveGen → List ℕ → List (ℕ × ℕ)
zip_tokens [] toks = []
zip_tokens (gen ∷ gens) [] = []
zip_tokens (gen ∷ gens) (tok ∷ toks) = (gen.session, tok) ∷ zip_tokens gens toks

-- `g.slot_id.unwrap()` of streams that are all in the group
unfoldable pub slots_of : List ActiveGen → List ℕ
slots_of [] = []
slots_of (gen ∷ gens) = elim gen.slot_id [ some slot ↦ slot ∷ slots_of gens | none ↦ slots_of gens ]

unfoldable pub no_slots : List ActiveGen → Bool
no_slots [] = true
no_slots (gen ∷ gens) = not (is_some gen.slot_id) && no_slots gens

module _ (h : Host) (lim : Limits) where
  open h use {World}

  abbrev pub batching_on : Bool
  batching_on = lim.batching && h.supports_batch

  abbrev pub slots_limit : ℕ
  slots_limit = min lim.max_sessions max_batch_slots

  -- the match on a step's result
  unfoldable pub settle : Stepped h → Worker World
  settle (s, gen, continue) = push_back s gen
  settle (s, gen, yield) = push_back s gen
  settle (s, gen, finished f) = retire h lim serving s gen f

  unfoldable pub step_solo : Worker World → ActiveGen → Worker World
  unfolding settle
  step_solo s gen = settle (step h s gen)

  unfoldable pub run_solo : Worker World → List ActiveGen → Worker World
  unfolding step_solo
  run_solo s [] = s
  run_solo s (gen ∷ gens) = run_solo (step_solo s gen) gens

  unfoldable pub demote_and_step : Worker World → ActiveGen → Worker World
  unfolding step_solo demote_from_group
  demote_and_step s gen = let (s', gen') = demote_from_group h s gen in step_solo s' gen'

  unfoldable pub run_demoted : Worker World → List ActiveGen → Worker World
  unfolding demote_and_step
  run_demoted s [] = s
  run_demoted s (gen ∷ gens) = run_demoted (demote_and_step s gen) gens

  unfoldable pub wants_batch : ActiveGen → Bool
  wants_batch gen = batching_on && not (is_some gen.pending_tok) && is_greedy gen.config

  -- one stream of the sorting
  unfoldable pub sort_one : Sorted World → ActiveGen → Sorted World
  unfolding wants_batch demote_from_group
  sort_one q gen =
      if wants_batch gen && ltb (length q.batch) slots_limit
      then record q { batch = q.batch ++ gen ∷ [] }
      else (let (s', gen') = demote_from_group h q.worker gen in
          record q { worker = s'; solo = q.solo ++ gen' ∷ [] })

  unfoldable pub sort_all : Sorted World → List ActiveGen → Sorted World
  unfolding sort_one
  sort_all q [] = q
  sort_all q (gen ∷ gens) = sort_all (sort_one q gen) gens

  -- a stream alone in its batch steps aside once
  unfoldable pub hold_alone : Sorted World → ActiveGen → Sorted World
  unfolding demote_from_group
  hold_alone q gen =
      if not gen.batch_held
      then record q { worker = push_back q.worker (record gen { batch_held = true }); batch = [] }
      else (let (s', gen') = demote_from_group h q.worker gen in
          record q { worker = s'; solo = q.solo ++ gen' ∷ []; batch = [] })

  unfoldable pub hold : Sorted World → List ActiveGen → Sorted World
  unfolding hold_alone
  hold q [] = q
  hold q (gen ∷ []) = if batching_on then hold_alone q gen else q
  hold q (gen ∷ other ∷ gens) = q

  -- the check for cancelled members of a batch
  unfoldable pub sweep : Worker World → List ActiveGen → Worker World × List ActiveGen
  sweep s [] = (s, [])
  sweep s (gen ∷ gens) =
      let (cancelled, s') = load_cancel h s gen.cancel in
      let s'' = if cancelled then retire h lim serving s' gen Finish.cancelled else s' in
      let (last, kept) = sweep s'' gens in (last, if cancelled then kept else gen ∷ kept)

  unfoldable pub after_create_group : Worker World → Reply ℕ × World → Option ℕ × Worker World
  after_create_group s (ok g, w) = (some g, record s { world = w; group = some g })
  after_create_group s (err e, w) = (none, record s { world = w })

  unfoldable pub ensure_group : Worker World → Option ℕ × Worker World
  unfolding after_create_group
  ensure_group s = elim s.group [
    | some g ↦ (some g, s)
    | none ↦ after_create_group s (h.create_batch_group s.world slots_limit)
  ]

  unfoldable pub after_add :
      ActiveGen → Worker World → Reply ℕ × World → Worker World × ActiveGen × Bool
  after_add gen s (ok slot, w) =
      (note s w (Entry.added gen.session), record gen { slot_id = some slot }, true)
  after_add gen s (err e, w) = (record s { world = w }, gen, false)

  unfoldable pub add_member : ℕ → Worker World → ActiveGen → Worker World × ActiveGen × Bool
  unfolding after_add
  add_member g s gen = elim gen.slot_id [
    | some slot ↦ (s, gen, true)
    | none ↦ after_add gen s (h.group_add s.world g gen.session)
  ]

  -- stops at the first member that the group refuses
  unfoldable pub add_members :
      ℕ → Worker World → List ActiveGen → Worker World × List ActiveGen × Bool
  unfolding add_member
  add_members g s [] = (s, [], true)
  add_members g s (gen ∷ gens) =
      let (s', gen', fine) = add_member g s gen in
      let (s'', gens', rest) = add_members g s' gens in
      if fine then (s'', gen' ∷ gens', rest) else (s', gen' ∷ gens, false)

  unfoldable pub after_group_step :
      List ActiveGen → Worker World → Reply (List ℕ) × World → Attempt World
  unfolding zip_tokens
  after_group_step batch s (ok toks, w) =
      if length toks == length batch
      then record {
        worker = note s w (Entry.stepped (zip_tokens batch toks));
        batch = batch;
        tokens = some toks;
      }
      else record { worker = record s { world = w }; batch = batch; tokens = none }
  after_group_step batch s (err e, w) = record {
    worker = record s { world = w };
    batch = batch;
    tokens = none;
  }

  unfoldable pub step_group : ℕ → Worker World × List ActiveGen × Bool → Attempt World
  unfolding after_group_step slots_of
  step_group g (s, batch, true) =
      after_group_step batch s
        (h.group_step s.world g (slots_of batch) (map (λ gen. gen.config) batch))
  step_group g (s, batch, false) = record { worker = s; batch = batch; tokens = none }

  unfoldable pub attempt_in : List ActiveGen → Option ℕ × Worker World → Attempt World
  unfolding step_group add_members
  attempt_in batch (some g, s) = step_group g (add_members g s batch)
  attempt_in batch (none, s) = record { worker = s; batch = batch; tokens = none }

  unfoldable pub attempt : Worker World → List ActiveGen → Attempt World
  unfolding attempt_in ensure_group
  attempt s batch = attempt_in batch (ensure_group s)
