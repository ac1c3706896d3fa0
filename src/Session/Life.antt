-- ===== src/Session/Life.antt =====
-- src/file_session.cc: the life of a session, seen without its bytes: who still holds the object,
-- which response handlers are outstanding, and how often its completion is reported.
use xrdhover.Prelude.{
  ℕ, ◌+◌, ◌<◌, ◌≡◌, ◌⊎◌, true, false, List, [], ◌∷◌, suc, arith, not, Bool, if◌then◌else◌, ltb,
  ◌==◌, ◌&&◌, ◌-◌,
}
use xrdhover.Session.State.{FileSession, Effect, done}

-- How often on_done was called.
abbrev pub dones : List Effect → ℕ
dones [] = 0
dones (done r ∷ log) = suc (dones log)
dones (_ ∷ log) = dones log

pub record Life : Type 0 where
  pub pending_cbs : ℕ
  pub open_cbs : ℕ
  pub stat_cbs : ℕ
  pub read_cbs : ℕ
  pub close_cbs : ℕ
  pub self_keep : Bool
  pub on_done : Bool
  pub completed : Bool
  pub close_requested : Bool
  pub reports : ℕ

abbrev pub life : FileSession → Life
life s = record {
  pending_cbs = s.pending_cbs;
  open_cbs = s.owed.open_cbs;
  stat_cbs = s.owed.stat_cbs;
  read_cbs = s.owed.read_cbs;
  close_cbs = s.owed.close_cbs;
  self_keep = s.self_keep;
  on_done = s.on_done;
  completed = s.completed;
  close_requested = s.close_requested;
  reports = dones s.log;
}

unfoldable pub finish : Life → Life
finish c = if c.completed then c else record c {
  completed = true;
  on_done = false;
  reports = if c.on_done then c.reports + 1 else c.reports;
}

unfoldable pub release : Life → Life
release c = record c {
  self_keep = if (c.pending_cbs == 0) && c.completed then false else c.self_keep;
}

unfoldable pub answer : Life → Life
answer c = record c { pending_cbs = c.pending_cbs - 1 }

unfoldable pub close : Bool → Life → Life
close accepted c =
    if c.close_requested
    then c
    else if accepted
    then record c {
      pending_cbs = c.pending_cbs + 1;
      close_cbs = c.close_cbs + 1;
      close_requested = true;
    }
    else if ltb 0 c.pending_cbs
    then record c { close_requested = false }
    else finish (record c { close_requested = true })

unfoldable pub ask_read : Bool → Life → Life
ask_read accepted c =
    if accepted
    then record c { pending_cbs = c.pending_cbs + 1; read_cbs = c.read_cbs + 1 }
    else finish c

unfoldable pub ask_stat : Bool → Life → Life
ask_stat accepted c =
    if accepted
    then record c { pending_cbs = c.pending_cbs + 1; stat_cbs = c.stat_cbs + 1 }
    else finish c

unfoldable pub ask_open : Bool → Life → Life
ask_open accepted c =
    if accepted
    then record c { pending_cbs = c.pending_cbs + 1; open_cbs = c.open_cbs + 1 }
    else release (finish c)

-- What is true between two handlers of a started session.
pub record IsSound (c : Life) : Type 0 where
  pub counted : c.pending_cbs ≡ c.open_cbs + c.stat_cbs + c.read_cbs + c.close_cbs
  pub held : c.self_keep ≡ false → (c.completed ≡ true) × (c.pending_cbs ≡ 0)
  pub armed : c.on_done ≡ not c.completed
  pub unreported : c.completed ≡ false → c.reports ≡ 0
  pub reported : c.completed ≡ true → c.reports ≡ 1
  pub closing : c.close_requested ≡ true → (c.completed ≡ true) ⊎ (0 < c.close_cbs)

-- Some response handler will still be called, or the session is over.
abbrev pub Moves : Life → Type 0
Moves c = (c.completed ≡ true) ⊎ (0 < c.pending_cbs)

pub finish-IsSound : (c : Life) → IsSound c → IsSound (finish c)
unfolding finish
finish-IsSound c h = ground arith

pub finish-Moves : (c : Life) → Moves (finish c)
unfolding finish
finish-Moves c = ground arith

pub release-IsSound : (c : Life) → IsSound c → IsSound (release c)
unfolding release
release-IsSound c h = ground arith

pub release-Moves : (c : Life) → Moves c → Moves (release c)
unfolding release
release-Moves c h = h

pub close-IsSound : (ok : Bool) (c : Life) → c.completed ≡ false → IsSound c → IsSound (close ok c)
unfolding close finish
close-IsSound ok c e h = ground arith

pub close-Moves : (ok : Bool) (c : Life) → IsSound c → Moves (close ok c)
unfolding close finish
close-Moves ok c h = ground arith

pub ask_read-IsSound :
    (ok : Bool) (c : Life) → c.completed ≡ false → IsSound c → IsSound (ask_read ok c)
unfolding ask_read finish
ask_read-IsSound ok c e h = ground arith

pub ask_read-Moves : (ok : Bool) (c : Life) → Moves (ask_read ok c)
unfolding ask_read finish
ask_read-Moves ok c = ground arith

pub ask_stat-IsSound :
    (ok : Bool) (c : Life) → c.completed ≡ false → IsSound c → IsSound (ask_stat ok c)
unfolding ask_stat finish
ask_stat-IsSound ok c e h = ground arith

pub ask_stat-Moves : (ok : Bool) (c : Life) → Moves (ask_stat ok c)
unfolding ask_stat finish
ask_stat-Moves ok c = ground arith

-- `answer` after XrdCl dropped the handler it calls.
pub open_answer-IsSound :
    (c : Life)
    → 0 < c.open_cbs
    → IsSound c
    → IsSound (answer (record c { open_cbs = c.open_cbs - 1 }))
unfolding answer
open_answer-IsSound c p h = ground arith

pub stat_answer-IsSound :
    (c : Life)
    → 0 < c.stat_cbs
    → IsSound c
    → IsSound (answer (record c { stat_cbs = c.stat_cbs - 1 }))
unfolding answer
stat_answer-IsSound c p h = ground arith

pub read_answer-IsSound :
    (c : Life)
    → 0 < c.read_cbs
    → IsSound c
    → IsSound (answer (record c { read_cbs = c.read_cbs - 1 }))
unfolding answer
read_answer-IsSound c p h = ground arith

pub close_answer-IsSound :
    (c : Life)
    → 0 < c.close_cbs
    → IsSound c
    → IsSound (finish (answer (record c { close_cbs = c.close_cbs - 1 })))
unfolding answer finish
close_answer-IsSound c p h = ground arith

-- The life of a session that was not started yet, once it keeps itself alive.
abbrev pub newborn : Life
newborn = record {
  pending_cbs = 0;
  open_cbs = 0;
  stat_cbs = 0;
  read_cbs = 0;
  close_cbs = 0;
  self_keep = true;
  on_done = true;
  completed = false;
  close_requested = false;
  reports = 0;
}

pub ask_open-newborn : (ok : Bool) → IsSound (ask_open ok newborn) × Moves (ask_open ok newborn)
unfolding ask_open finish release
ask_open-newborn ok = ground arith
