-- ===== src/Scheduler/Pool/Batch.antt =====
-- The pool through the batch segment of a quantum, and through the whole quantum.
use mathlib.Core.List.Perm
use mathlib.Core.List.{Perm, perm_middle}
use mini_cpm5_5080fast.Base.{
  ℕ, ◌≤◌, ◌≡◌, refl, sym, ap, subst, ◌∙◌, Bool, true, false, ◌&&◌, Option, none, some, List, [],
  ◌∷◌, ◌++◌, arith, Bool-cases, inl, inr, length, leb, append-nil,
}
use mini_cpm5_5080fast.Scheduler.Types.{ActiveGen, Worker, Limits, Finish, serving}
use mini_cpm5_5080fast.Scheduler.Host.{Host, Reply, ok, err, load_cancel}
use mini_cpm5_5080fast.Scheduler.Gen.{feed_token}
use mini_cpm5_5080fast.Scheduler.Retire.{retire}
use mini_cpm5_5080fast.Scheduler.Quantum.{
  Sorted, sessions_of, settle, run_solo, sort_all, hold, sweep, add_member, add_members, after_add,
  after_group_step, step_group, attempt_in, attempt, ensure_group, after_create_group, no_slots,
}
use mini_cpm5_5080fast.Scheduler.Worker.{
  run_fed, run_batch, run_attempt, finish_attempt, sweep_batch, drop_group, quantum, count_batch,
  count_fallback,
}
use mini_cpm5_5080fast.Scheduler.Pool.Owns.{
  Owns, Owns-run_solo, Owns-run_demoted, Owns-fed, Owns-retire,
}
use mini_cpm5_5080fast.Scheduler.Pool.Quantum.{Owns-gens, Owns-sort_all, Owns-hold, SortOwns}

-- The pool is as it was, and a batch has the same sessions.
record SamePool {W : Type 0} (s t : Worker W) : Type 0 where
  same_idle : t.idle ≡ s.idle
  same_active : t.active ≡ s.active

SamePool-trans : {W : Type 0} {s t u : Worker W} → SamePool s t → SamePool t u → SamePool s u
SamePool-trans a b = record {
  same_idle = b.same_idle ∙ a.same_idle;
  same_active = b.same_active ∙ a.same_active;
}

module _ (h : Host) (lim : Limits) where
  open h use {World}

  add_member-same :
      (g : ℕ) (s : Worker World) (gen : ActiveGen)
      → SamePool s (add_member h lim g s gen).0
        × ((add_member h lim g s gen).1.session ≡ gen.session)
  unfolding add_member after_add
  add_member-same g s gen = ground arith

  add_members-same :
      (g : ℕ) (s : Worker World) (gens : List ActiveGen)
      → SamePool s (add_members h lim g s gens).0
        × (sessions_of (add_members h lim g s gens).1 ≡ sessions_of gens)
  unfolding add_members
  add_members-same g s [] = ground arith
  add_members-same g s (gen ∷ gens) =
      let (k, e) = add_member-same g s gen in
      let (k', e') = add_members-same g (add_member h lim g s gen).0 gens in
      ground (arith, SamePool-trans k k')

  step_group-same :
      (g : ℕ) (s : Worker World) (batch : List ActiveGen) (fine : Bool)
      → SamePool s (step_group h lim g (s, batch, fine)).worker
        × ((step_group h lim g (s, batch, fine)).batch ≡ batch)
  unfolding step_group after_group_step
  step_group-same g s batch true = ground arith
  step_group-same g s batch false = ground arith

  attempt_in-same :
      (batch : List ActiveGen) (o : Option ℕ) (s : Worker World)
      → SamePool s (attempt_in h lim batch (o, s)).worker
        × (sessions_of (attempt_in h lim batch (o, s)).batch ≡ sessions_of batch)
  unfolding attempt_in
  attempt_in-same batch none s = ground arith
  attempt_in-same batch (some g) s =
      let (k, e) = add_members-same g s batch in
      let m = add_members h lim g s batch in
      let (k', e') = step_group-same g m.0 m.1 m.2 in (SamePool-trans k k', ap sessions_of e' ∙ e)

  attempt-same :
      (s : Worker World) (batch : List ActiveGen)
      → SamePool s (attempt h lim s batch).worker
        × (sessions_of (attempt h lim s batch).batch ≡ sessions_of batch)
  unfolding attempt
  attempt-same s batch =
      let g = ensure_group h lim s in
      let (k, e) = attempt_in-same batch g.0 g.1 in
      let k₀ : SamePool s (ensure_group h lim s).1 =
        unfold ensure_group after_create_group in ground arith in
      (SamePool-trans k₀ k, e)

  -- The check of the length: a token for each member.
  after_group_step-length :
      (s : Worker World) (batch : List ActiveGen) (toks : List ℕ) (r : Reply (List ℕ)) (w : World)
      → (after_group_step h lim batch s (r, w)).tokens ≡ some toks
      → length toks ≡ length batch
  unfolding after_group_step
  after_group_step-length s batch toks (ok ts) w e = ground arith
  after_group_step-length s batch toks (err m) w e = cc

  step_group-length :
      (g : ℕ) (m : Worker World × List ActiveGen × Bool) (toks : List ℕ)
      → (step_group h lim g m).tokens ≡ some toks
      → length toks ≡ length (step_group h lim g m).batch
  unfolding step_group
  step_group-length g (s, batch, true) toks e =
      after_group_step-length s batch toks _ _ e
      ∙ ap length (sym (step_group-same g s batch true).1)
  step_group-length g (s, batch, false) toks e = cc

  attempt-length :
      (s : Worker World) (batch : List ActiveGen) (toks : List ℕ)
      → (attempt h lim s batch).tokens ≡ some toks
      → length toks ≡ length (attempt h lim s batch).batch
  unfolding attempt
  attempt-length s batch toks e = go (ensure_group h lim s) e
    where
      go :
          (o : Option ℕ × Worker World)
          → (attempt_in h lim batch o).tokens ≡ some toks
          → length toks ≡ length (attempt_in h lim batch o).batch
      go (none, s') d = cc
      go (some g, s') d = step_group-length g (add_members h lim g s' batch) toks d

module _ (h : Host) (lim : Limits) (all : List ℕ) (room : length all ≤ lim.max_sessions) where
  open h use {World}

  Owns-run_fed :
      (s : Worker World) (gens : List ActiveGen) (toks : List ℕ)
      → length toks ≡ length gens
      → Owns all s gens
      → Owns all (run_fed h lim s gens toks) []
  unfolding run_fed
  Owns-run_fed s [] toks e o = o
  Owns-run_fed s (gen ∷ gens) [] e o = absurd (omega arith)
  Owns-run_fed s (gen ∷ gens) (tok ∷ toks) e o =
      Owns-run_fed (settle h lim (feed_token h s gen tok)) gens toks (omega arith)
        (Owns-fed h lim all room s gen tok gens o)

  Owns-finish_attempt :
      (s : Worker World) (batch : List ActiveGen) (o : Option (List ℕ))
      → ((toks : List ℕ) → o ≡ some toks → length toks ≡ length batch)
      → Owns all s batch
      → Owns all (finish_attempt h lim s batch o) []
  unfolding finish_attempt count_batch count_fallback
  Owns-finish_attempt s batch none l o =
      Owns-run_demoted h lim all room (count_fallback h lim s) batch [] (rw append-nil o)
  Owns-finish_attempt s batch (some toks) l o =
      Owns-run_fed (count_batch h lim (length batch) s) batch toks (l toks refl) o

  Owns-run_batch :
      (s : Worker World) (batch : List ActiveGen)
      → Owns all s batch
      → Owns all (run_batch h lim s batch) []
  unfolding run_batch run_attempt
  Owns-run_batch s batch o = elim (Bool-cases (leb 2 (length batch) && h.supports_batch)) [
    | inl e ↦
        let a = attempt h lim s batch in
        let (k, same) = attempt-same h lim s batch in
        rw e (
          Owns-finish_attempt a.worker a.batch a.tokens (attempt-length h lim s batch)
            (rw (k.same_idle, k.same_active, same) o))
    | inr e ↦ rw e (Owns-run_demoted h lim all room s batch [] (rw append-nil o))
  ]

  Owns-load_cancel :
      (s : Worker World) (flag : ℕ) (held : List ActiveGen)
      → Owns all s held
      → Owns all (load_cancel h s flag).1 held
  unfolding load_cancel
  Owns-load_cancel s flag held o = o

  Owns-sweep :
      (s : Worker World) (gens held : List ActiveGen)
      → Owns all s (gens ++ held)
      → Owns all (sweep h lim s gens).0 ((sweep h lim s gens).1 ++ held)
  unfolding sweep
  Owns-sweep s [] held o = o
  Owns-sweep s (gen ∷ gens) held o =
      let s' = (load_cancel h s gen.cancel).1 in
      let o' = Owns-load_cancel s gen.cancel (gen ∷ (gens ++ held)) o in
      elim (Bool-cases (load_cancel h s gen.cancel).0) [
        | inl e ↦ rw e (
            Owns-sweep (retire h lim serving s' gen Finish.cancelled) gens held
              (Owns-retire h lim all room serving s' gen Finish.cancelled (gens ++ held) o'))
        | inr e ↦ rw e (
            let last = sweep h lim s' gens in
            Owns-gens h lim all room last.0 (last.1 ++ gen ∷ held) (gen ∷ (last.1 ++ held))
              (Perm.symm (perm_middle last.1 held))
              (Owns-sweep s' gens (gen ∷ held) (
                Owns-gens h lim all room s' (gen ∷ (gens ++ held)) (gens ++ gen ∷ held)
                  (perm_middle gens held) o')))
      ]

  Owns-sweep_batch :
      (s : Worker World) (batch : List ActiveGen)
      → Owns all s batch
      → Owns all (sweep_batch h lim s batch).0 (sweep_batch h lim s batch).1
  unfolding sweep_batch
  Owns-sweep_batch s batch o = elim (Bool-cases (leb 2 (length batch))) [
    | inl e ↦ rw e (
        subst (Owns all (sweep h lim s batch).0) (append-nil (sweep h lim s batch).1)
          (Owns-sweep s batch [] (rw append-nil o)))
    | inr e ↦ rw e o
  ]

  Owns-drop_group :
      (s : Worker World) (g : Option ℕ) → Owns all s [] → Owns all (drop_group h lim s g) []
  unfolding drop_group
  Owns-drop_group s none o = o
  Owns-drop_group s (some g) o = elim (Bool-cases (no_slots s.active)) [
    | inl e ↦ rw e o
    | inr e ↦ rw e o
  ]

  Owns-start :
      (s : Worker World)
      → Owns all s []
      → SortOwns h lim all room
          (record { worker = record s { active = [] }; solo = []; batch = [] })
          s.active
  Owns-start s o = rw append-nil at o

  Owns-batch_segment :
      (q : Sorted World)
      → SortOwns h lim all room q []
      → Owns all (run_solo h lim q.worker q.solo) q.batch
  Owns-batch_segment q o = Owns-run_solo h lim all room q.worker q.solo q.batch (rw append-nil at o)

  Owns-quantum : (s : Worker World) → Owns all s [] → Owns all (quantum h lim s) []
  unfolding quantum
  Owns-quantum s o =
      let start : Sorted World = record {
        worker = record s { active = [] };
        solo = [];
        batch = [];
      } in
      let sorted = sort_all h lim start s.active in
      let q = hold h lim sorted sorted.batch in
      let stepped = run_solo h lim q.worker q.solo in
      let swept = sweep_batch h lim stepped q.batch in
      let done = run_batch h lim swept.0 swept.1 in
      Owns-drop_group done done.group (
        Owns-run_batch swept.0 swept.1 (
          Owns-sweep_batch stepped q.batch (
            Owns-batch_segment q (
              Owns-hold h lim all room sorted sorted.batch refl
                (Owns-sort_all h lim all room start s.active (Owns-start s o))))))

-- One quantum, with everything in it: sorting, stepping aside, solo steps, cancellations, the batch
-- step with its fallback, and every way in which a stream can end. If the sessions of the pool and of
-- the active streams fit the capacity before, then afterwards the two together hold exactly the same
-- sessions, each as often as before: none is lost, dropped or held twice.
pub quantum-perm :
    (h : Host) (lim : Limits) (s : Worker h.World)
    → length (s.idle ++ sessions_of s.active) ≤ lim.max_sessions
    → Perm
        ((quantum h lim s).idle ++ sessions_of (quantum h lim s).active)
        (s.idle ++ sessions_of s.active)
quantum-perm h lim s room = rw append-nil at (
    Owns-quantum h lim (s.idle ++ sessions_of s.active) room s
      (rw append-nil (Perm.refl (s.idle ++ sessions_of s.active))))
