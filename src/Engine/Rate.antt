-- ===== src/Engine/Rate.antt =====
-- src/run_command.cc, src/token_bucket.cc: the engine stays within its rate. The calls that an event
-- makes of the token bucket are listed, so that what the bucket promises holds of the engine.
use xrdhover.Engine.{on_read_op, reads}
use xrdhover.TokenBucket.{new as new_bucket}
use xrdhover.TokenBucket.{TokenBucket, try_acquire}
use xrdhover.TokenBucket.Rate.{
  granted_by-le-rate, at, Call, acquires, refunds as gives_back, asks, granted_by, returned_by,
  granted, call, run as run_calls,
}
use xrdhover.Inflight.{try_acquire as try_slot}
use xrdhover.RunConfig.{RunConfig}
use xrdhover.Scheduler.{Draws, next_item, next_item_fits_bucket}
use xrdhover.Session.State.{FileSession}
use xrdhover.Session.Plan.{next_op_bytes}
use xrdhover.Engine.{
  nano, compute_bucket_capacity, new, Engine, Action, issue, start_session, back_off, serve_ready,
  admit, pass_loop, on_ready, on_refund, leaves, shows, frees, leave_live, show_inflight, free_slot,
  Event, passes, asks_read, refunds, ends, step,
}
use xrdhover.Prelude.{
  ap, ℕ, ◌+◌, ◌-◌, ◌*◌, ◌≤◌, ◌<◌, ◌≡◌, refl, ◌⊎◌, inl, inr, Bool, true, false, ◌||◌, not, List, [],
  ◌∷◌, ◌++◌, arith, leb, ◌==◌, if◌then◌else◌, lt→ltb, Bool-cases, All,
}

-- The bytes that an action is paid for.
abbrev pub charged : Action → ℕ
charged (issue id n) = n
charged (start_session work) = work.op_bytes
charged _ = 0

pub charges : RunConfig → List Event → Engine → ℕ
charges cfg [] e = 0
charges cfg (ev ∷ evs) e = charged (step cfg ev e).1 + charges cfg evs (step cfg ev e).0

abbrev pub refunded : Event → ℕ
refunded (refunds now n) = n
refunded _ = 0

pub refunds_in : List Event → ℕ
refunds_in [] = 0
refunds_in (ev ∷ evs) = refunded ev + refunds_in evs

-- Every clock reading of the event is at most `end`.
abbrev pub IsBy : ℕ → Event → Type 0
IsBy end (passes draws now now' sessions) = (now ≤ end) × (now' ≤ end)
IsBy end (refunds now n) = now ≤ end
IsBy end _ = Unit

tries : ℕ → ℕ → ℕ → TokenBucket → List Call
tries now now' n b =
    if (try_acquire now n b).1 then acquires now n ∷ [] else acquires now n ∷ asks now' n ∷ []

calls : RunConfig → Event → Engine → List Call
calls cfg (passes draws now now' sessions) e = elim e.ready [
  | id ∷ rest ↦
      let n = next_op_bytes (sessions id) in
      if (sessions id).completed || (n == 0) then [] else tries now now' n e.bucket
  | [] ↦
      if leb cfg.max_inflight e.live || not (try_slot e.inflight).1
      then []
      else tries now now' (next_item cfg draws e.seq).0.op_bytes e.bucket
]
calls cfg (asks_read id) e = []
calls cfg (refunds now n) e = gives_back now n ∷ []
calls cfg (reads op_s) e = []
calls cfg (ends result) e = []
calls cfg leaves e = []
calls cfg (shows loaded) e = []
calls cfg frees e = []

pub List-cases {ℓ} :
    {A : Type ℓ} (xs : List A) → (xs ≡ []) ⊎ ((x : A) × (ys : List A) × (xs ≡ x ∷ ys))
List-cases [] = inl refl
List-cases (x ∷ xs) = inr (x, xs, refl)

-- The calls do to the bucket what the event does, and grant what its action is charged.
abbrev Follows : List Call → Engine → Engine × Action → ℕ → Type 0
Follows cs e out back =
    (out.0.bucket ≡ run_calls cs e.bucket)
    × (charged out.1 ≡ granted_by cs e.bucket)
    × (back ≡ returned_by cs)

serve_ready-Follows :
    (now now' id : ℕ) (s : FileSession) (rest : List ℕ) (e : Engine)
    → Follows
        (if s.completed || (next_op_bytes s == 0)
          then []
          else tries now now' (next_op_bytes s) e.bucket)
        e
        (serve_ready now now' id s rest e)
        0
unfolding serve_ready back_off tries run_calls granted_by returned_by call granted
serve_ready-Follows now now' id s rest e = ground arith

admit-Follows :
    (cfg : RunConfig) (draws : Draws) (now now' : ℕ) (e : Engine)
    → Follows
        (if not (try_slot e.inflight).1
          then []
          else tries now now' (next_item cfg draws e.seq).0.op_bytes e.bucket)
        e
        (admit cfg draws now now' e)
        0
unfolding admit back_off tries run_calls granted_by returned_by call granted
admit-Follows cfg draws now now' e = ground arith

step-Follows :
    (cfg : RunConfig) (ev : Event) (e : Engine)
    → Follows (calls cfg ev e) e (step cfg ev e) (refunded ev)
unfolding calls step pass_loop on_ready on_refund on_read_op leave_live show_inflight free_slot
    run_calls granted_by returned_by call granted
step-Follows cfg (passes draws now now' sessions) e = elim (List-cases e.ready) [
  | inl q ↦ rw q (ground (arith, admit-Follows cfg draws now now' e))
  | inr (id, rest, q) ↦
      rw q (serve_ready-Follows now now' id (sessions id) rest (record e { ready = id ∷ rest }))
]
step-Follows cfg (asks_read id) e = ground arith
step-Follows cfg (refunds now n) e = ground arith
step-Follows cfg (reads op_s) e = ground arith
step-Follows cfg (ends result) e = ground arith
step-Follows cfg leaves e = ground arith
step-Follows cfg (shows loaded) e = ground arith
step-Follows cfg frees e = ground arith

all_calls : RunConfig → List Event → Engine → List Call
all_calls cfg [] e = []
all_calls cfg (ev ∷ evs) e = calls cfg ev e ++ all_calls cfg evs (step cfg ev e).0

granted_by-append :
    (xs ys : List Call) (b : TokenBucket)
    → (granted_by (xs ++ ys) b ≡ granted_by xs b + granted_by ys (run_calls xs b))
      × (returned_by (xs ++ ys) ≡ returned_by xs + returned_by ys)
unfolding granted_by returned_by run_calls
granted_by-append [] ys b = (omega arith, omega arith)
granted_by-append (x ∷ xs) ys b =
    let ih = granted_by-append xs ys (call x b) in (omega (arith, ih.0), omega (arith, ih.1))

charges-granted :
    (cfg : RunConfig) (evs : List Event) (e : Engine)
    → (charges cfg evs e ≡ granted_by (all_calls cfg evs e) e.bucket)
      × (refunds_in evs ≡ returned_by (all_calls cfg evs e))
unfolding charges refunds_in all_calls granted_by returned_by
charges-granted cfg [] e = (refl, refl)
charges-granted cfg (ev ∷ evs) e =
    let f = step-Follows cfg ev e in
    let a = granted_by-append (calls cfg ev e) (all_calls cfg evs (step cfg ev e).0) e.bucket in
    let ih = charges-granted cfg evs (step cfg ev e).0 in
    (omega (arith, f.1, a.0, rw f.0 at ih.0), omega (arith, f.2, a.1, ih.1))

abbrev IsEarly : ℕ → List Call → Type 0
IsEarly end cs = All (λ c. at c ≤ end) cs

IsEarly-append :
    (end : ℕ) (xs ys : List Call) → IsEarly end xs → IsEarly end ys → IsEarly end (xs ++ ys)
IsEarly-append end [] ys h k = k
IsEarly-append end (x ∷ xs) ys h k = (h.0, IsEarly-append end xs ys h.1 k)

tries-IsEarly :
    (end now now' n : ℕ) (b : TokenBucket)
    → now ≤ end
    → now' ≤ end
    → IsEarly end (tries now now' n b)
unfolding tries
tries-IsEarly end now now' n b h k = elim (Bool-cases (try_acquire now n b).1) [
  | inl q ↦ rw q (h, tt)
  | inr q ↦ rw q (h, (k, tt))
]

unless-IsEarly :
    (end : ℕ) (stop : Bool) (cs : List Call)
    → IsEarly end cs
    → IsEarly end (if stop then [] else cs)
unless-IsEarly end true cs h = tt
unless-IsEarly end false cs h = h

calls-IsEarly :
    (end : ℕ) (cfg : RunConfig) (ev : Event) (e : Engine)
    → IsBy end ev
    → IsEarly end (calls cfg ev e)
unfolding calls
calls-IsEarly end cfg (passes draws now now' sessions) e h = elim (List-cases e.ready) [
  | inl q ↦ rw q (
      unless-IsEarly end _ _
        (tries-IsEarly end now now' (next_item cfg draws e.seq).0.op_bytes e.bucket h.0 h.1))
  | inr (id, rest, q) ↦ rw q (
      unless-IsEarly end _ _
        (tries-IsEarly end now now' (next_op_bytes (sessions id)) e.bucket h.0 h.1))
]
calls-IsEarly end cfg (asks_read id) e h = tt
calls-IsEarly end cfg (refunds now n) e h = (h, tt)
calls-IsEarly end cfg (reads op_s) e h = tt
calls-IsEarly end cfg (ends result) e h = tt
calls-IsEarly end cfg leaves e h = tt
calls-IsEarly end cfg (shows loaded) e h = tt
calls-IsEarly end cfg frees e h = tt

all_calls-IsEarly :
    (end : ℕ) (cfg : RunConfig) (evs : List Event) (e : Engine)
    → All (IsBy end) evs
    → IsEarly end (all_calls cfg evs e)
unfolding all_calls
all_calls-IsEarly end cfg [] e h = tt
all_calls-IsEarly end cfg (ev ∷ evs) e h =
    IsEarly-append end (calls cfg ev e) (all_calls cfg evs (step cfg ev e).0)
      (calls-IsEarly end cfg ev e h.0) (all_calls-IsEarly end cfg evs (step cfg ev e).0 h.1)

new-bucket :
    (cfg : RunConfig) (start : ℕ)
    → 0 < cfg.target_rate_bytes_per_s
    → (new cfg start).bucket ≡ record {
      rate_bytes_per_s = cfg.target_rate_bytes_per_s;
      capacity = compute_bucket_capacity cfg;
      tokens = compute_bucket_capacity cfg * nano;
      last = start;
    }
unfolding new new_bucket
new-bucket cfg start r =
    let d : Draws = record { index = 0; below_half = false; below_fraction = false } in
    let h = next_item_fits_bucket cfg d 0 r in
    rw (lt→ltb 0 (compute_bucket_capacity cfg) (omega (arith, h)))

-- The target rate of a run with a positive rate: in whatever order its passes, callbacks and
-- refunds interleave, with clock readings up to time `end`, the bytes that the engine charges for
-- reads and starts are at most the capacity of the bucket (one operation), the rate times the time
-- passed since the run began, and what the sessions gave back.
pub charges-le-rate :
    (cfg : RunConfig) (start end : ℕ) (evs : List Event)
    → 0 < cfg.target_rate_bytes_per_s
    → start ≤ end
    → All (IsBy end) evs
    → charges cfg evs (new cfg start) * nano
      ≤ compute_bucket_capacity cfg * nano
        + (end - start) * cfg.target_rate_bytes_per_s
        + refunds_in evs * nano
charges-le-rate cfg start end evs r s h =
    let e = new cfg start in
    let b = new-bucket cfg start r in
    let full : TokenBucket = record {
      rate_bytes_per_s = cfg.target_rate_bytes_per_s;
      capacity = compute_bucket_capacity cfg;
      tokens = compute_bucket_capacity cfg * nano;
      last = start;
    } in
    let c = charges-granted cfg evs e in
    let cs = all_calls cfg evs e in
    let promise =
      granted_by-le-rate cs full end r (omega arith) s (all_calls-IsEarly end cfg evs e h) in
    omega (arith, c.0, ap (granted_by cs) b, c.1, promise)
