-- ===== src/Chirp/Remote.antt =====
-- src/chirp_sink.cc: what the commands leave behind. condor_chirp is a parameter.
use xrdhover.Prelude.Text.{Text, codes, decimal, text_eq}
use xrdhover.Metrics.Snapshot.{integral, MetricsSnapshot}
use xrdhover.Chirp.{Surroundings, ChirpSink, Command, set_job_attr, remove, push, zeroed, finish}
use xrdhover.Prelude.{
  ℕ, ◌≡◌, refl, sym, ap, subst, ◌∙◌, Bool, true, false, Option, none, some, List, [], ◌∷◌, ◌++◌,
  arith, if◌then◌else◌, is_empty,
}

-- What condor_chirp promises of its commands, over whatever the job queue and the access point are:
-- `set_job_attr` gives one attribute its value, `remove` takes one file away and changes no attribute.
pub record Obeys {R : Type 0} (perform : Command → R → R) (attr file : Text → R → Option Text)
    : Type 0 where
  pub sets :
      (name value other : Text) (r : R)
      → attr other (perform (set_job_attr name value) r)
        ≡ (if text_eq name other then some value else attr other r)
  pub keeps : (path name : Text) (r : R) → attr name (perform (remove path) r) ≡ attr name r
  pub removes : (path : Text) (r : R) → file path (perform (remove path) r) ≡ none

module _ {R : Type 0} (perform : Command → R → R) where
  unfoldable pub run_commands : List Command → R → R
  run_commands [] r = r
  run_commands (c ∷ cs) r = run_commands cs (perform c r)

  run_commands-append :
      (cs ds : List Command) (r : R)
      → run_commands (cs ++ ds) r ≡ run_commands ds (run_commands cs r)
  unfolding run_commands
  run_commands-append [] ds r = refl
  run_commands-append (c ∷ cs) ds r = run_commands-append cs ds (perform c r)

-- What a finished run leaves: rates and sessions in flight that read 0, and no file.
pub record IsQuiet {R : Type 0} (attr file : Text → R → Option Text) (s : Surroundings)
    (path : Text) (r : R) : Type 0 where
  pub achieved : attr (codes "ChirpXrdhoverAchievedRate") r ≡ some (s.print_six (integral 0))
  pub inflight : attr (codes "ChirpXrdhoverInflight") r ≡ some (decimal 0)
  pub target : attr (codes "ChirpXrdhoverTargetRate") r ≡ some (s.print_six (integral 0))
  pub no_file : file path r ≡ none

finish_runs :
    (s : Surroundings) (stored : Bool) (now : ℕ) (snap : MetricsSnapshot) (sink : ChirpSink)
    → is_empty sink.chirp_binary ≡ false
    → sink.classads ≡ true
    → is_empty sink.prom_remote_path ≡ false
    → finish s stored now snap sink
      ≡ (push s stored now snap sink ++ zeroed s) ++ (remove sink.prom_remote_path ∷ [])
unfolding finish
finish_runs s stored now snap sink found ads file = ground (arith, found, ads, file)

module _ {R : Type 0} {perform : Command → R → R} {attr file : Text → R → Option Text}
    (obeys : Obeys perform attr file) where
  ended-IsQuiet :
      (s : Surroundings) (path : Text) (r : R)
      → IsQuiet attr file s path
          (run_commands perform (remove path ∷ []) (run_commands perform (zeroed s) r))
  unfolding run_commands text_eq
  ended-IsQuiet s path r = record {
    achieved = rw (obeys.keeps, obeys.sets, obeys.sets, obeys.sets) refl;
    inflight = rw (obeys.keeps, obeys.sets, obeys.sets) refl;
    target = rw (obeys.keeps, obeys.sets) refl;
    no_file = obeys.removes path _;
  }

  -- Where condor_chirp does what it promises, and whatever was published before: after Finish of a
  -- sink that has found condor_chirp, publishes attributes and has a remote file, the attributes show
  -- no rate and nothing in flight, and the file is gone, also one that Finish itself has just put
  -- there.
  pub finish-IsQuiet :
      (s : Surroundings) (stored : Bool) (now : ℕ) (snap : MetricsSnapshot) (sink : ChirpSink)
      (r : R)
      → is_empty sink.chirp_binary ≡ false
      → sink.classads ≡ true
      → is_empty sink.prom_remote_path ≡ false
      → IsQuiet attr file s sink.prom_remote_path
          (run_commands perform (finish s stored now snap sink) r)
  finish-IsQuiet s stored now snap sink r found ads path =
      let pushed = push s stored now snap sink in
      let gone = remove sink.prom_remote_path ∷ [] in
      let same =
        ap (λ (cs : List Command). run_commands perform cs r)
          (finish_runs s stored now snap sink found ads path)
        ∙ run_commands-append perform (pushed ++ zeroed s) gone r
        ∙ ap (run_commands perform gone) (run_commands-append perform pushed (zeroed s) r) in
      subst (λ (q : R). IsQuiet attr file s sink.prom_remote_path q) (sym same)
        (ended-IsQuiet s sink.prom_remote_path (run_commands perform pushed r))
