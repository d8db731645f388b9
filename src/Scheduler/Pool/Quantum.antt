-- ===== src/Scheduler/Pool/Quantum.antt =====
-- The sorting, the stream that steps aside, the sweep, the batch step, and the whole quantum.
use mathlib.Core.List.Perm
use mini_cpm5_5080fast.Base.{
  ℕ, ◌≤◌, ◌≡◌, true, not, ◌&&◌, List, [], ◌∷◌, ◌++◌, Bool-cases, inl, inr, length, ltb,
  append_assoc, append-nil,
}
use mini_cpm5_5080fast.Base.Perms.{perm_to_front}
use mathlib.Core.List.{Perm, perm_middle}
use mini_cpm5_5080fast.Scheduler.Types.{ActiveGen, Worker, Limits}
use mini_cpm5_5080fast.Scheduler.Host.{Host}
use mini_cpm5_5080fast.Scheduler.Retire.{demote_from_group}
use mini_cpm5_5080fast.Scheduler.Quantum.{
  Sorted, sort_one, sort_all, wants_batch, hold, hold_alone, slots_limit, batching_on,
}
use mini_cpm5_5080fast.Scheduler.Pool.Owns.{Owns, Owns-perm, Owns-demote, Owns-push_back}

module _ (h : Host) (lim : Limits) (all : List ℕ) (room : length all ≤ lim.max_sessions) where
  open h use {World}

  pub Owns-gens :
      (s : Worker World) (held held' : List ActiveGen)
      → Perm held' held
      → Owns all s held
      → Owns all s held'
  Owns-gens s held held' p o = Owns-perm h lim all room s held held' (Perm.map _ p) o

  -- the streams of the sorting, before `rest`
  abbrev pub SortOwns : Sorted World → List ActiveGen → Type 0
  SortOwns q rest = Owns all q.worker (q.solo ++ (q.batch ++ rest))

  to_solo :
      (q : Sorted World) (gen : ActiveGen) (rest : List ActiveGen)
      → SortOwns q (gen ∷ rest)
      → Owns all
          (demote_from_group h q.worker gen).0
          ((q.solo ++ (demote_from_group h q.worker gen).1 ∷ []) ++ (q.batch ++ rest))
  to_solo q gen rest o =
      let gen' = (demote_from_group h q.worker gen).1 in
      let front =
        Owns-gens q.worker (q.solo ++ (q.batch ++ gen ∷ rest)) (gen ∷ (q.solo ++ (q.batch ++ rest)))
          (Perm.symm (perm_to_front gen q.solo q.batch rest)) o in
      rw (append_assoc q.solo (gen' ∷ []) (q.batch ++ rest)) (
        Owns-gens (demote_from_group h q.worker gen).0 (gen' ∷ (q.solo ++ (q.batch ++ rest)))
          (q.solo ++ gen' ∷ (q.batch ++ rest)) (perm_middle q.solo (q.batch ++ rest))
          (Owns-demote h lim all room q.worker gen (q.solo ++ (q.batch ++ rest)) front))

  Owns-sort_one :
      (q : Sorted World) (gen : ActiveGen) (rest : List ActiveGen)
      → SortOwns q (gen ∷ rest)
      → SortOwns (sort_one h lim q gen) rest
  unfolding sort_one
  Owns-sort_one q gen rest o =
      elim (Bool-cases (wants_batch h lim gen && ltb (length q.batch) (slots_limit h lim))) [
        | inl e ↦ rw (e, append_assoc q.batch (gen ∷ []) rest) o
        | inr e ↦ rw e (to_solo q gen rest o)
      ]

  pub Owns-sort_all :
      (q : Sorted World) (gens : List ActiveGen)
      → SortOwns q gens
      → SortOwns (sort_all h lim q gens) []
  unfolding sort_all
  Owns-sort_all q [] o = o
  Owns-sort_all q (gen ∷ gens) o =
      Owns-sort_all (sort_one h lim q gen) gens (Owns-sort_one q gen gens o)

  Owns-hold_alone :
      (q : Sorted World) (gen : ActiveGen)
      → Owns all q.worker (q.solo ++ gen ∷ [])
      → SortOwns (hold_alone h lim q gen) []
  unfolding hold_alone
  Owns-hold_alone q gen o = elim (Bool-cases (not gen.batch_held)) [
    | inl e ↦
        rw (e, append-nil q.solo)
          (Owns-push_back h lim all room q.worker (record gen { batch_held = true }) q.solo
            (Owns-gens q.worker (q.solo ++ gen ∷ []) (gen ∷ q.solo)
              (Perm.symm (rw append-nil at (perm_middle {a = gen} q.solo []))) o))
    | inr e ↦ rw e (to_solo (record q { batch = [] }) gen [] o)
  ]

  pub Owns-hold :
      (q : Sorted World) (batch : List ActiveGen)
      → q.batch ≡ batch
      → SortOwns q []
      → SortOwns (hold h lim q batch) []
  unfolding hold
  Owns-hold q [] e o = o
  Owns-hold q (gen ∷ []) e o = elim (Bool-cases (batching_on h lim)) [
    | inl on ↦ rw on (Owns-hold_alone q gen (rw e at o))
    | inr off ↦ rw off o
  ]
  Owns-hold q (gen ∷ other ∷ gens) e o = o
