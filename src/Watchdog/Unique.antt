-- ===== src/Watchdog/Unique.antt =====
-- src/file_session.cc: no session has two deadlines.
use xrdhover.Watchdog.{
  Entry, Watchdog, new, has_entry, set_deadline, put, ensure_thread, arm, without, disarm,
  begin_shut_down, end_shut_down, pass_loop, thread_pass,
}
use xrdhover.Prelude.{
  ℕ, ◌+◌, ◌≤◌, ◌≡◌, refl, ap, ◌∙◌, ◌||◌, inl, inr, Bool, true, false, List, [], ◌∷◌, ◌++◌, arith,
  ◌==◌, if◌then◌else◌, ==_iff, Bool-cases, All,
}

pub count : ℕ → List Entry → ℕ
count id [] = 0
count id (e ∷ es) = (if e.session == id then 1 else 0) + count id es

count-set_deadline :
    (alive : ℕ → Bool) (id deadline j : ℕ) (es : List Entry)
    → count j (set_deadline alive id deadline es) ≡ count j es
unfolding count set_deadline
count-set_deadline alive id deadline j [] = refl
count-set_deadline alive id deadline j (e ∷ es) =
    ground (arith, count-set_deadline alive id deadline j es)

count-none :
    (alive : ℕ → Bool) (id : ℕ) (es : List Entry)
    → alive id ≡ true
    → has_entry alive id es ≡ false
    → count id es ≡ 0
unfolding count has_entry
count-none alive id [] a h = refl
count-none alive id (e ∷ es) a h = elim (Bool-cases (e.session == id)) [
  | inl q ↦ let s = ap alive ((==_iff e.session id).0 q) in ground arith
  | inr q ↦ ground (arith, count-none alive id es a)
]

count-append : (id : ℕ) (xs ys : List Entry) → count id (xs ++ ys) ≡ count id xs + count id ys
unfolding count
count-append id [] ys = omega arith
count-append id (x ∷ xs) ys = omega (arith, count-append id xs ys)

count-without :
    (alive : ℕ → Bool) (id j : ℕ) (es : List Entry)
    → (count j (without alive id es) ≤ count j es) × (count id (without alive id es) ≡ 0)
unfolding count without
count-without alive id j [] = (omega arith, refl)
count-without alive id j (e ∷ es) = ground (arith, count-without alive id j es)

count-kept :
    (alive completed : ℕ → Bool) (now j : ℕ) (es : List Entry)
    → count j (pass_loop alive completed now es).kept ≤ count j es
unfolding count pass_loop
count-kept alive completed now j [] = omega arith
count-kept alive completed now j (e ∷ es) = ground (arith, count-kept alive completed now j es)

-- A call of the watchdog; `alive` tells at that moment which sessions still exist.
pub data Event : Type 0 where
  arms : (ℕ → Bool) → ℕ → ℕ → ℕ → Event
  disarms : (ℕ → Bool) → ℕ → Event
  passes : (ℕ → Bool) → (ℕ → Bool) → ℕ → Event
  stops joins : Event

unfoldable pub step : Event → Watchdog → Watchdog
step (arms alive now timeout id) w = arm alive now timeout id w
step (disarms alive id) w = disarm alive id w
step (passes alive completed now) w = (thread_pass alive completed now w).0
step stops w = begin_shut_down w
step joins w = end_shut_down w

unfoldable pub run : List Event → Watchdog → Watchdog
run [] w = w
run (ev ∷ evs) w = run evs (step ev w)

-- A session that is armed exists: its caller holds it.
abbrev pub ArmsAlive : Event → Type 0
ArmsAlive (arms alive now timeout id) = alive id ≡ true
ArmsAlive _ = Unit

count-put :
    (alive : ℕ → Bool) (id deadline j : ℕ) (es : List Entry)
    → alive id ≡ true
    → count j es ≤ 1
    → count j (put alive id deadline es) ≤ 1
unfolding put count
count-put alive id deadline j es a h = elim (Bool-cases (has_entry alive id es)) [
  | inl q ↦ rw q (omega (arith, count-set_deadline alive id deadline j es))
  | inr q ↦ elim (Bool-cases (id == j)) [
    | inl s ↦ ground (
      arith,
      count-append j es (record { deadline = deadline; session = id } ∷ []),
      count-none alive id es a q,
      (==_iff id j).0 s,
    )
    | inr s ↦ ground (arith, count-append j es (record { deadline = deadline; session = id } ∷ []))
  ]
]

step_unique :
    (ev : Event) (w : Watchdog) (j : ℕ)
    → ArmsAlive ev
    → count j w.entries ≤ 1
    → count j (step ev w).entries ≤ 1
unfolding step arm disarm thread_pass begin_shut_down end_shut_down ensure_thread count
step_unique (arms alive now timeout id) w j a h =
    ground (arith, count-put alive id (now + timeout) j w.entries a h)
step_unique (disarms alive id) w j a h = ground (arith, count-without alive id j w.entries)
step_unique (passes alive completed now) w j a h =
    ground (arith, count-kept alive completed now j w.entries)
step_unique stops w j a h = ground arith
step_unique joins w j a h = h

run-keeps :
    (evs : List Event) (w : Watchdog) (j : ℕ)
    → All ArmsAlive evs
    → count j w.entries ≤ 1
    → count j (run evs w).entries ≤ 1
unfolding run
run-keeps [] w j a h = h
run-keeps (ev ∷ evs) w j a h = run-keeps evs (step ev w) j a.1 (step_unique ev w j a.0 h)

-- The deadlines of a session.
pub deadlines : ℕ → List Entry → List ℕ
deadlines id [] = []
deadlines id (e ∷ es) =
    let rest = deadlines id es in if e.session == id then e.deadline ∷ rest else rest

deadlines-none : (id : ℕ) (es : List Entry) → count id es ≡ 0 → deadlines id es ≡ []
unfolding count deadlines
deadlines-none id [] h = refl
deadlines-none id (e ∷ es) h = elim (Bool-cases (e.session == id)) [
  | inl q ↦ absurd (ground arith)
  | inr q ↦ rw q (deadlines-none id es (ground arith))
]

deadlines-append :
    (id deadline : ℕ) (es : List Entry)
    → count id es ≡ 0
    → deadlines id (es ++ record { deadline = deadline; session = id } ∷ []) ≡ deadline ∷ []
unfolding count deadlines
deadlines-append id deadline [] h = rw ((==_iff id id).1 refl) refl
deadlines-append id deadline (e ∷ es) h = elim (Bool-cases (e.session == id)) [
  | inl q ↦ absurd (ground arith)
  | inr q ↦ rw q (deadlines-append id deadline es (ground arith))
]

deadlines-here :
    (id : ℕ) (e : Entry) (es : List Entry)
    → (e.session == id) ≡ true
    → deadlines id (e ∷ es) ≡ e.deadline ∷ deadlines id es
unfolding deadlines
deadlines-here id e es q = rw q refl

deadlines-skip :
    (id : ℕ) (e : Entry) (es : List Entry)
    → (e.session == id) ≡ false
    → deadlines id (e ∷ es) ≡ deadlines id es
unfolding deadlines
deadlines-skip id e es q = rw q refl

deadlines-set_deadline :
    (alive : ℕ → Bool) (id deadline : ℕ) (es : List Entry)
    → alive id ≡ true
    → has_entry alive id es ≡ true
    → count id es ≤ 1
    → deadlines id (set_deadline alive id deadline es) ≡ deadline ∷ []
unfolding count deadlines has_entry set_deadline
deadlines-set_deadline alive id deadline [] a p h = cc
deadlines-set_deadline alive id deadline (e ∷ es) a p h = elim (Bool-cases (e.session == id)) [
  | inl q ↦
      let s : alive e.session ≡ true = ap alive ((==_iff e.session id).0 q) ∙ a in
      let moved : Entry = record e { deadline = deadline } in
      rw (s, q)
        (deadlines-here id moved es q
          ∙ ap (λ (ds : List ℕ). deadline ∷ ds) (deadlines-none id es (ground arith)))
  | inr q ↦
      let ih = deadlines-set_deadline alive id deadline es a (ground arith) (ground arith) in
      let rest = deadlines-skip id e (set_deadline alive id deadline es) q ∙ ih in
      elim (Bool-cases (alive e.session)) [ inl s ↦ rw (s, q) rest | inr s ↦ rw s rest ]
]

deadlines-put :
    (alive : ℕ → Bool) (id deadline : ℕ) (es : List Entry)
    → alive id ≡ true
    → count id es ≤ 1
    → deadlines id (put alive id deadline es) ≡ deadline ∷ []
unfolding put
deadlines-put alive id deadline es a h = elim (Bool-cases (has_entry alive id es)) [
  | inl q ↦ rw q (deadlines-set_deadline alive id deadline es a q h)
  | inr q ↦ rw q (deadlines-append id deadline es (count-none alive id es a q))
]

deadlines-arm :
    (alive : ℕ → Bool) (now timeout id : ℕ) (w : Watchdog)
    → alive id ≡ true
    → count id w.entries ≤ 1
    → deadlines id (arm alive now timeout id w).entries
      ≡ (if (timeout == 0) || w.stop then deadlines id w.entries else (now + timeout) ∷ [])
unfolding arm ensure_thread
deadlines-arm alive now timeout id w a h =
    let moved = deadlines-put alive id (now + timeout) w.entries a h in
    elim (Bool-cases (timeout == 0)) [
      | inl z ↦ rw z refl
      | inr z ↦ elim (Bool-cases w.stop) [
        | inl q ↦ rw (z, q) refl
        | inr q ↦ elim (Bool-cases w.started) [
          | inl st ↦ rw (z, q, st) moved
          | inr st ↦ rw (z, q, st) moved
        ]
      ]
    ]

-- Whatever is called of a new watchdog, in any order, a session that exists when it is armed has at
-- most one deadline; Arm with a timeout, unless the watchdog is stopping, leaves the session with the
-- new deadline and no other, and else leaves its deadline alone; and one Disarm leaves it with none.
pub run_unique :
    (evs : List Event) (alive : ℕ → Bool) (now timeout j : ℕ)
    → All ArmsAlive evs
    → alive j ≡ true
    → let w = run evs new in
      (count j w.entries ≤ 1)
      × (deadlines j (arm alive now timeout j w).entries
          ≡ (if (timeout == 0) || w.stop then deadlines j w.entries else (now + timeout) ∷ []))
      × (deadlines j (disarm alive j w).entries ≡ [])
unfolding count disarm
run_unique evs alive now timeout j a exists =
    let w = run evs new in
    let once = run-keeps evs new j a (omega arith) in
    (
      once,
      deadlines-arm alive now timeout j w exists once,
      deadlines-none j (without alive j w.entries) (count-without alive j j w.entries).1,
    )
