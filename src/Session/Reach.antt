-- ===== src/Session/Reach.antt =====
-- src/file_session.cc: a session among its callers. XrdCl calls back each handler that it accepted,
-- the watchdog may ask for a timeout at any time, the engine holds the sessions that wait for tokens.
use xrdhover.Session.Opening.{answered, new_session, start, on_open}
use xrdhover.Session.Handlers.{
  close_now, issue_next_from_engine, request_wall_timeout, on_close, parks, on_read, on_stat,
}
use xrdhover.Prelude.Text.{Text}
use xrdhover.Session.State.{FileSessionPacing, FileSessionOptions, FileSession, Status, Rng}
use xrdhover.Prelude.{true, ◌||◌, false, Option, ◌<◌, Bool, ◌-◌, ℕ, ◌≡◌}

-- `parked`: the engine has the session in its queue, or is about to close it.
pub record World : Type 0 where
  pub session : FileSession
  pub parked : Bool

abbrev pub launch : Status → ℕ → FileSessionOptions → FileSessionPacing → World
launch r now o p = record { session = start r now (new_session o p); parked = false }

-- XrdCl drops the handler that it is about to call.
abbrev pub less_open : FileSession → FileSession
less_open s = record s { owed = record s.owed { open_cbs = s.owed.open_cbs - 1 } }

abbrev pub less_stat : FileSession → FileSession
less_stat s = record s { owed = record s.owed { stat_cbs = s.owed.stat_cbs - 1 } }

abbrev pub less_read : FileSession → FileSession
less_read s = record s { owed = record s.owed { read_cbs = s.owed.read_cbs - 1 } }

abbrev pub less_close : FileSession → FileSession
less_close s = record s { owed = record s.owed { close_cbs = s.owed.close_cbs - 1 } }

pub data Step (g : Rng) (w : World) : World → Type 0 where
  open_answered :
      (st r : Status) (now hosts : ℕ) (server : Text)
      → 0 < w.session.owed.open_cbs
      → Step g w (record w { session = on_open st r now hosts server (less_open w.session) })
  stat_answered :
      (st : Status) (info : Option ℕ) (r : Status) (now : ℕ)
      → 0 < w.session.owed.stat_cbs
      → Step g w (record w { session = on_stat g st info r now (less_stat w.session) })
  read_answered :
      (st : Status) (got : Option ℕ) (r : Status) (now : ℕ)
      → 0 < w.session.owed.read_cbs
      → Step g w (record {
        session = on_read g st got r now (less_read w.session);
        parked = parks st got now (answered (less_read w.session)) || w.parked;
      })
  close_answered :
      (st : Status) (now : ℕ)
      → 0 < w.session.owed.close_cbs
      → Step g w (record w { session = on_close st now (less_close w.session) })
  deadline_passed :
      (r : Status) (now : ℕ)
      → Step g w (record w { session = request_wall_timeout r now w.session })
  engine_reads :
      (r : Status) (now : ℕ)
      → w.parked ≡ true
      → Step g w (record { session = issue_next_from_engine g r now w.session; parked = false })
  engine_closes :
      (r : Status) (now : ℕ)
      → w.parked ≡ true
      → Step g w (record { session = close_now r now w.session; parked = false })

pub data Reach (g : Rng) (w : World) : World → Type 0 where
  here : Reach g w w
  next : {u v : World} → Reach g w u → Step g u v → Reach g w v
