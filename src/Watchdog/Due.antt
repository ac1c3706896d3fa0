-- ===== src/Watchdog/Due.antt =====
-- src/file_session.cc: a pass of the watchdog ends exactly the sessions that are due, and the thread
-- wakes in time for the next one.
use xrdhover.Watchdog.{Entry, Pass, pass_loop, wait_for, max_sleep}
use xrdhover.Prelude.{
  ℕ, ◌+◌, ◌≤◌, ◌<◌, min, max, ◌≡◌, refl, inl, inr, Bool, false, ◌&&◌, ◌||◌, not, List, [], ◌∷◌,
  arith, leb, ◌==◌, Bool-cases, All,
}

-- The session of the entry is there, not completed, and past its deadline.
abbrev pub is_due : (ℕ → Bool) → (ℕ → Bool) → ℕ → Entry → Bool
is_due alive completed now e = alive e.session && (not (completed e.session) && leb e.deadline now)

unfoldable pub any_due : (ℕ → Bool) → (ℕ → Bool) → ℕ → ℕ → List Entry → Bool
any_due alive completed now id [] = false
any_due alive completed now id (e ∷ es) =
    ((e.session == id) && is_due alive completed now e) || any_due alive completed now id es

unfoldable pub has : ℕ → List ℕ → Bool
has id [] = false
has id (x ∷ xs) = (x == id) || has id xs

-- A pass asks exactly the sessions that are due to time out: those with an entry whose deadline has
-- passed, that exist and are not completed.
pub pass_loop-expired :
    (alive completed : ℕ → Bool) (now id : ℕ) (es : List Entry)
    → has id (pass_loop alive completed now es).expired ≡ any_due alive completed now id es
unfolding has pass_loop any_due
pass_loop-expired alive completed now id [] = refl
pass_loop-expired alive completed now id (e ∷ es) =
    ground (arith, pass_loop-expired alive completed now id es)

-- The sleep from `later` on ends by the deadline, or within a millisecond.
abbrev pub WakesFor : ℕ → ℕ → Entry → Type 0
WakesFor next_deadline later e =
    later + wait_for next_deadline later ≤ max e.deadline (later + 1000000)

abbrev Waits : ℕ → Pass → Type 0
Waits now p = All (λ e. (now < e.deadline) × (p.next_deadline ≤ e.deadline)) p.kept

lower-next :
    (now n m : ℕ) (es : List Entry)
    → m ≤ n
    → All (λ e. (now < e.deadline) × (n ≤ e.deadline)) es
    → All (λ e. (now < e.deadline) × (m ≤ e.deadline)) es
lower-next now n m [] l h = tt
lower-next now n m (e ∷ es) l h = ((h.0.0, omega (arith, h.0)), lower-next now n m es l h.1)

pass_loop-Waits :
    (alive completed : ℕ → Bool) (now : ℕ) (es : List Entry)
    → Waits now (pass_loop alive completed now es)
unfolding pass_loop
pass_loop-Waits alive completed now [] = tt
pass_loop-Waits alive completed now (e ∷ es) =
    let p = pass_loop alive completed now es in
    let ih = pass_loop-Waits alive completed now es in
    elim (Bool-cases (not (alive e.session) || completed e.session)) [
      | inl q ↦ rw q ih
      | inr q ↦ elim (Bool-cases (leb e.deadline now)) [
        | inl d ↦ rw (q, d) ih
        | inr d ↦
            rw (q, d)
              (
                (ground arith, omega arith),
                lower-next now p.next_deadline (min p.next_deadline e.deadline) p.kept (omega arith)
                    ih,
              )
      ]
    ]

wakes :
    (now n later : ℕ) (es : List Entry)
    → All (λ e. (now < e.deadline) × (n ≤ e.deadline)) es
    → All (λ e. (now < e.deadline) × WakesFor n later e) es
unfolding wait_for
wakes now n later [] h = tt
wakes now n later (e ∷ es) h = ((h.0.0, omega (arith, h.0)), wakes now n later es h.1)

-- The entries that a pass keeps are not yet due, and the sleep that follows, whenever it starts, ends
-- by the deadline of each of them or within a millisecond, and always within a second.
pub pass_loop-wakes :
    (alive completed : ℕ → Bool) (now later : ℕ) (es : List Entry)
    → let p = pass_loop alive completed now es in
      All (λ e. (now < e.deadline) × WakesFor p.next_deadline later e) p.kept
      × (wait_for p.next_deadline later ≤ max_sleep)
unfolding wait_for
pass_loop-wakes alive completed now later es =
    let p = pass_loop alive completed now es in
    (wakes now p.next_deadline later p.kept (pass_loop-Waits alive completed now es), omega arith)
