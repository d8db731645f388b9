-- ===== src/Scheduler/Log.antt =====
-- What the log of the worker says of one session and of one channel, newest first.
use mini_cpm5_5080fast.Base.{ℕ, not, ◌&&◌, List, [], ◌∷◌, ◌==◌, if◌then◌else◌}
use mini_cpm5_5080fast.Scheduler.Types.{
  Entry, created, reset, prefilled, dropped, decode_failed, decoded, added, removed, stepped, sent,
  GenEvent, is_eos,
}

-- The content tokens that a session gave by solo steps since it was last reset: all but the eos ids.
unfoldable pub content : List Entry → ℕ → List ℕ
content [] sid = []
content (decoded s t ∷ log) sid =
    let rest = content log sid in if s == sid && not (is_eos t) then t ∷ rest else rest
content (reset s ∷ log) sid = let rest = content log sid in if s == sid then [] else rest
content (created s ∷ log) sid = content log sid
content (prefilled s ∷ log) sid = content log sid
content (dropped s ∷ log) sid = content log sid
content (decode_failed s ∷ log) sid = content log sid
content (added s ∷ log) sid = content log sid
content (removed s ∷ log) sid = content log sid
content (stepped ps ∷ log) sid = content log sid
content (sent c e ∷ log) sid = content log sid

-- The events that a channel took.
unfoldable pub events_of : List Entry → ℕ → List GenEvent
events_of [] ch = []
events_of (sent c e ∷ log) ch = let rest = events_of log ch in if c == ch then e ∷ rest else rest
events_of (decoded s t ∷ log) ch = events_of log ch
events_of (reset s ∷ log) ch = events_of log ch
events_of (created s ∷ log) ch = events_of log ch
events_of (prefilled s ∷ log) ch = events_of log ch
events_of (dropped s ∷ log) ch = events_of log ch
events_of (decode_failed s ∷ log) ch = events_of log ch
events_of (added s ∷ log) ch = events_of log ch
events_of (removed s ∷ log) ch = events_of log ch
events_of (stepped ps ∷ log) ch = events_of log ch

-- The sessions that were reset.
unfoldable pub resets_of : List Entry → List ℕ
resets_of [] = []
resets_of (reset s ∷ log) = s ∷ resets_of log
resets_of (sent c e ∷ log) = resets_of log
resets_of (decoded s t ∷ log) = resets_of log
resets_of (created s ∷ log) = resets_of log
resets_of (prefilled s ∷ log) = resets_of log
resets_of (dropped s ∷ log) = resets_of log
resets_of (decode_failed s ∷ log) = resets_of log
resets_of (added s ∷ log) = resets_of log
resets_of (removed s ∷ log) = resets_of log
resets_of (stepped ps ∷ log) = resets_of log
