-- ===== src/Session/Alive.antt =====
-- src/file_session.cc: what holds of a session in every order of answers, timeouts and engine calls.
use xrdhover.Session.Issue.{issue_next}
use xrdhover.Session.Ops.{submit_close_op, release_if_idle}
use xrdhover.Session.Refine.Responses.{
  engine_closes-life, engine_reads-life, hand_over-life, handle_close-life, start-life,
  deadline-life, handle_read-life, handle_stat-life, handle_open-life,
}
use xrdhover.Session.Refine.{After, released_handler}
use xrdhover.Session.Life.{
  finish, Life, answer, finish-Moves, release-Moves, close_answer-IsSound, release-IsSound,
  ask_open-newborn, dones, release, read_answer-IsSound, stat_answer-IsSound, open_answer-IsSound,
  Moves, life, IsSound,
}
use xrdhover.Session.Reach.{
  less_close, here, next, Reach, engine_closes, engine_reads, deadline_passed, close_answered,
  read_answered, less_stat, stat_answered, less_open, open_answered, launch, less_read, Step, World,
}
use xrdhover.Session.Opening.{handle_open, new_session, start, answered, on_open}
use xrdhover.Session.Handlers.{
  handle_stat, handle_read, close_now, issue_next_from_engine, request_wall_timeout, on_close,
  parks, on_stat, on_read,
}
use xrdhover.Session.State.{FileSessionPacing, FileSessionOptions, Rng, FileSession, Status}
use xrdhover.Prelude.{
  sym, subst, if◌then◌else◌, ◌+◌, false, Bool-cases, inr, ◌||◌, inl, ◌<◌, true, Option, Bool, ℕ,
  ◌≡◌, ◌⊎◌, arith, refl,
}

-- The session is sound, and somebody will call it again unless it is over.
abbrev pub IsAlive : World → Type 0
IsAlive w =
    IsSound (life w.session)
    × ((w.session.completed ≡ true) ⊎ ((0 < w.session.pending_cbs) ⊎ (w.parked ≡ true)))

moving :
    (s : FileSession) (parked : Bool)
    → IsSound (life s) × Moves (life s)
    → IsAlive (record { session = s; parked = parked })
moving s parked (h, inl c) = (h, inl c)
moving s parked (h, inr p) = (h, inr (inl p))

handled :
    (ok : Bool) (c : Life) (s : FileSession) (parked : Bool)
    → IsSound c
    → After ok c (life s)
    → IsAlive (record { session = release_if_idle s; parked = parked })
handled ok c s parked h a = moving (release_if_idle s) parked (released_handler ok c s h a)

-- A session that was just started is sound, whether or not the Open was accepted.
pub launch-IsAlive :
    (r : Status) (now : ℕ) (o : FileSessionOptions) (p : FileSessionPacing)
    → IsAlive (launch r now o p)
launch-IsAlive r now o p =
    moving (start r now (new_session o p)) false
      (subst (λ c. IsSound c × Moves c) (sym (start-life r now o p)) (ask_open-newborn r.is_ok))

after_read :
    (g : Rng) (st : Status) (got : Option ℕ) (r : Status) (now : ℕ) (w : World)
    → IsSound (life (answered (less_read w.session)))
    → IsAlive (record {
      session = on_read g st got r now (less_read w.session);
      parked = parks st got now (answered (less_read w.session)) || w.parked;
    })
unfolding on_read
after_read g st got r now w h = elim (Bool-cases (parks st got now s)) [
  | inl e ↦ rw e (subst IsSound (sym (hand_over-life st got now s e).0) h, inr (inr refl))
  | inr e ↦ rw e (
      handled r.is_ok (life s) (handle_read g st got r now s) w.parked h
        (handle_read-life g st got r now s))
]
  where
    s : FileSession
    s = answered (less_read w.session)

after_close :
    (st : Status) (now : ℕ) (w : World)
    → 0 < w.session.owed.close_cbs
    → IsSound (life w.session)
    → IsAlive (record w { session = on_close st now (less_close w.session) })
unfolding on_close release_if_idle release answered answer
after_close st now w p h = moving (on_close st now (less_close w.session)) w.parked (
    subst (λ c. IsSound (release c) × Moves (release c))
      (sym (handle_close-life st now (answered (less_close w.session))))
      (
        release-IsSound (finish (life (answered (less_close w.session))))
            (close_answer-IsSound (life w.session) p h),
        release-Moves (finish (life (answered (less_close w.session))))
            (finish-Moves (life (answered (less_close w.session)))),
      ))

after_deadline :
    (r : Status) (now : ℕ) (w : World)
    → IsAlive w
    → IsAlive (record w { session = request_wall_timeout r now w.session })
unfolding request_wall_timeout
after_deadline r now w a = elim (Bool-cases (w.session.completed || w.session.close_requested)) [
  | inl e ↦ rw e a
  | inr e ↦ rw e (
      handled r.is_ok (life w.session)
        (submit_close_op r now (record w.session { timed_out = true })) w.parked a.0
        (deadline-life r now w.session e))
]

step-IsAlive : (g : Rng) {v w : World} → Step g v w → IsAlive v → IsAlive w
unfolding on_open on_stat answered answer issue_next_from_engine close_now
step-IsAlive g {v = v} (open_answered st r now hosts server p) (h, m) =
    handled r.is_ok (life (answered (less_open v.session)))
      (handle_open st r now hosts server (answered (less_open v.session))) v.parked
      (open_answer-IsSound (life v.session) p h)
      (handle_open-life st r now hosts server (answered (less_open v.session)))
step-IsAlive g {v = v} (stat_answered st info r now p) (h, m) =
    handled r.is_ok (life (answered (less_stat v.session)))
      (handle_stat g st info r now (answered (less_stat v.session))) v.parked
      (stat_answer-IsSound (life v.session) p h)
      (handle_stat-life g st info r now (answered (less_stat v.session)))
step-IsAlive g {v = v} (read_answered st got r now p) (h, m) =
    after_read g st got r now v (read_answer-IsSound (life v.session) p h)
step-IsAlive g {v = v} (close_answered st now p) (h, m) = after_close st now v p h
step-IsAlive g {v = v} (deadline_passed r now) (h, m) = after_deadline r now v (h, m)
step-IsAlive g {v = v} (engine_reads r now e) (h, m) =
    handled r.is_ok (life v.session)
      (if v.session.completed then v.session else issue_next g r now v.session) false h
      (engine_reads-life g r now v.session)
step-IsAlive g {v = v} (engine_closes r now e) (h, m) =
    handled r.is_ok (life v.session)
      (if v.session.completed
        then v.session
        else submit_close_op r now (record v.session { remaining = 0 }))
      false h (engine_closes-life r now v.session)

pub reach-IsAlive : (g : Rng) {v w : World} → Reach g v w → IsAlive v → IsAlive w
reach-IsAlive g here h = h
reach-IsAlive g (next r st) h = step-IsAlive g st (reach-IsAlive g r h)

module _ (g : Rng) (r : Status) (now : ℕ) (o : FileSessionOptions) (p : FileSessionPacing)
    {w : World} (run : Reach g (launch r now o p) w) where
  alive : IsAlive w
  alive = reach-IsAlive g run (launch-IsAlive r now o p)

  -- A session drops its self-reference, which may destroy it, only when it is completed and XrdCl
  -- owes it no call of any of its four response handlers.
  pub released_has_no_callbacks :
      w.session.self_keep ≡ false
      → (w.session.completed ≡ true)
        × (w.session.owed.open_cbs ≡ 0)
        × (w.session.owed.stat_cbs ≡ 0)
        × (w.session.owed.read_cbs ≡ 0)
        × (w.session.owed.close_cbs ≡ 0)
  released_has_no_callbacks e = ground (arith, alive.0)

  -- on_done is called exactly once by the time the session is completed, and never before.
  pub done_exactly_once : dones w.session.log ≡ (if w.session.completed then 1 else 0)
  done_exactly_once = ground (arith, alive.0)

  -- A session that is not completed is never forgotten: XrdCl owes it a call of one of its
  -- handlers, or the engine has it in its queue.
  pub incomplete_has_a_caller :
      w.session.completed ≡ false
      → (0
          < w.session.owed.open_cbs + w.session.owed.stat_cbs + w.session.owed.read_cbs
            + w.session.owed.close_cbs)
        ⊎ (w.parked ≡ true)
  incomplete_has_a_caller e = ground (arith, alive.0, alive.1)
