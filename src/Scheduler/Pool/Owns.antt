-- ===== src/Scheduler/Pool/Owns.antt =====
-- A quantum moves sessions between the idle pool, the active streams and the lists of the quantum, and
-- neither loses nor doubles one.
use mathlib.Core.List.Perm
use mini_cpm5_5080fast.Base.{
  ℕ, ◌+◌, ◌≤◌, ◌<◌, ◌≡◌, refl, ap, List, [], ◌∷◌, ◌++◌, arith, length, length-append, append_assoc,
  suc,
}
use mini_cpm5_5080fast.Base.Perms.{perm-length, perm_to_front}
use mathlib.Core.List.{Perm, map-append}
use mini_cpm5_5080fast.Scheduler.Types.{
  ActiveGen, Worker, Limits, Finish, StepResult, continue, yield, finished, serving, RetireMode,
}
use mini_cpm5_5080fast.Scheduler.Host.{Host}
use mini_cpm5_5080fast.Scheduler.Gen.{step, feed_token}
use mini_cpm5_5080fast.Scheduler.Retire.{retire, demote_from_group}
use mini_cpm5_5080fast.Scheduler.Quantum.{
  sessions_of, push_back, settle, step_solo, run_solo, demote_and_step, run_demoted,
}
use mini_cpm5_5080fast.Scheduler.Pool.Frame.{Kept, SameStream, step-Kept, feed_token-Kept}
use mini_cpm5_5080fast.Scheduler.Pool.Retire.{Returned, retire-Returned, remove_slot-Kept}

-- The sessions of the pool, of the active streams, and of the streams that the quantum holds.
abbrev pub owned : {W : Type 0} → Worker W → List ActiveGen → List ℕ
owned s held = s.idle ++ (sessions_of s.active ++ sessions_of held)

abbrev pub Owns : {W : Type 0} → List ℕ → Worker W → List ActiveGen → Type 0
Owns all s held = Perm (owned s held) all

length-sessions_of : (gens : List ActiveGen) → length (sessions_of gens) ≡ length gens
length-sessions_of [] = refl
length-sessions_of (gen ∷ gens) = ap suc (length-sessions_of gens)

module _ (h : Host) (lim : Limits) (all : List ℕ) (room : length all ≤ lim.max_sessions) where
  open h use {World}

  pub Owns-Kept :
      {s t : Worker World} (held : List ActiveGen) → Kept s t → Owns all s held → Owns all t held
  Owns-Kept held k o = rw (k.same_idle, k.same_active) o

  pub Owns-perm :
      (s : Worker World) (held held' : List ActiveGen)
      → Perm (sessions_of held') (sessions_of held)
      → Owns all s held
      → Owns all s held'
  Owns-perm s held held' p o =
      Perm.trans (Perm.append_left s.idle (Perm.append_left (sessions_of s.active) p)) o

  room-for :
      (s : Worker World) (gen : ActiveGen) (held : List ActiveGen)
      → Owns all s (gen ∷ held)
      → length s.idle + length s.active < lim.max_sessions
  room-for s gen held o = omega (
    arith,
    room,
    perm-length o,
    length-append s.idle (sessions_of s.active ++ sessions_of (gen ∷ held)),
    length-append (sessions_of s.active) (sessions_of (gen ∷ held)),
    length-sessions_of s.active,
  )

  pub Owns-push_back :
      (s : Worker World) (gen : ActiveGen) (held : List ActiveGen)
      → Owns all s (gen ∷ held)
      → Owns all (push_back s gen) held
  Owns-push_back s gen held o =
      rw (map-append (λ (g : ActiveGen). g.session) s.active (gen ∷ []), append_assoc) o

  Owns-Returned :
      (s t : Worker World) (gen : ActiveGen) (held : List ActiveGen)
      → Returned gen.session s t
      → Owns all s (gen ∷ held)
      → Owns all t held
  Owns-Returned s t gen held r o =
      rw (r.idle_is, r.same_active)
        (Perm.trans
          (Perm.symm (perm_to_front gen.session s.idle (sessions_of s.active) (sessions_of held)))
          o)

  pub Owns-retire :
      (mode : RetireMode) (s : Worker World) (gen : ActiveGen) (f : Finish) (held : List ActiveGen)
      → Owns all s (gen ∷ held)
      → Owns all (retire h lim mode s gen f) held
  Owns-retire mode s gen f held o =
      Owns-Returned s _ gen held (retire-Returned h lim mode s gen f (room-for s gen held o)) o

  Owns-settle :
      (s : Worker World) (gen : ActiveGen) (r : StepResult) (held : List ActiveGen)
      → Owns all s (gen ∷ held)
      → Owns all (settle h lim (s, gen, r)) held
  unfolding settle
  Owns-settle s gen continue held o = Owns-push_back s gen held o
  Owns-settle s gen yield held o = Owns-push_back s gen held o
  Owns-settle s gen (finished f) held o = Owns-retire serving s gen f held o

  Owns-SameStream :
      (s : Worker World) {gen gen' : ActiveGen} (held : List ActiveGen)
      → SameStream gen gen'
      → Owns all s (gen ∷ held)
      → Owns all s (gen' ∷ held)
  Owns-SameStream s held e o = rw e.same_session o

  Owns-step_solo :
      (s : Worker World) (gen : ActiveGen) (held : List ActiveGen)
      → Owns all s (gen ∷ held)
      → Owns all (step_solo h lim s gen) held
  unfolding step_solo
  Owns-step_solo s gen held o =
      let k = step-Kept h s gen in
      Owns-settle (step h s gen).0 (step h s gen).1 (step h s gen).2 held
        (Owns-SameStream (step h s gen).0 held k.1 (Owns-Kept (gen ∷ held) k.0 o))

  pub Owns-run_solo :
      (s : Worker World) (gens held : List ActiveGen)
      → Owns all s (gens ++ held)
      → Owns all (run_solo h lim s gens) held
  unfolding run_solo
  Owns-run_solo s [] held o = o
  Owns-run_solo s (gen ∷ gens) held o =
      Owns-run_solo (step_solo h lim s gen) gens held (Owns-step_solo s gen (gens ++ held) o)

  pub Owns-demote :
      (s : Worker World) (gen : ActiveGen) (held : List ActiveGen)
      → Owns all s (gen ∷ held)
      → Owns all (demote_from_group h s gen).0 ((demote_from_group h s gen).1 ∷ held)
  unfolding demote_from_group
  Owns-demote s gen held o = Owns-Kept (gen ∷ held) (remove_slot-Kept h lim s gen.slot_id s.group) o

  pub Owns-run_demoted :
      (s : Worker World) (gens held : List ActiveGen)
      → Owns all s (gens ++ held)
      → Owns all (run_demoted h lim s gens) held
  unfolding run_demoted
  Owns-run_demoted s [] held o = o
  Owns-run_demoted s (gen ∷ gens) held o =
      let d = demote_from_group h s gen in
      Owns-run_demoted (demote_and_step h lim s gen) gens held (
        unfold demote_and_step in
        Owns-step_solo d.0 d.1 (gens ++ held) (Owns-demote s gen (gens ++ held) o))

  -- A batch step's tokens, one for each member.
  pub Owns-fed :
      (s : Worker World) (gen : ActiveGen) (tok : ℕ) (held : List ActiveGen)
      → Owns all s (gen ∷ held)
      → Owns all (settle h lim (feed_token h s gen tok)) held
  Owns-fed s gen tok held o =
      let k = feed_token-Kept h s gen tok in
      let f = feed_token h s gen tok in
      Owns-settle f.0 f.1 f.2 held (Owns-SameStream f.0 held k.1 (Owns-Kept (gen ∷ held) k.0 o))
