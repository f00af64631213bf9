-- ===== src/Correlate/Examples.antt =====
-- Concrete runs of the engine of pkg/correlate.
use mathlib.Core.List.{Perm}
use mathlib.Core.Bool.{false≢true}
use neurosentry.Common.{
  All, Bool, List, Str, [], arith, eq_iff, false, fire_key, get, int_eq, length, nat_eq, none, not,
  pos, refl, second, some, str, str_beq, str_eq, true, ℕ, ◌&&◌, ◌*◌, ◌++◌, ◌+ℤ◌, ◌||◌, ◌∷◌, ◌≡◌,
  ◌≢◌, ◌≤◌,
}
use neurosentry.Correlate.{Matcher, Rule, Signal}
use neurosentry.Correlate.Rules.{assign, evaluate, in_order, matches, pick, touched_by, windowed}
use neurosentry.Correlate.Engine.{Correlator, new_correlator}
use neurosentry.Correlate.Sessions.{reap, record_signal, session_signals}
use neurosentry.Correlate.Ingest.{ingest, stamped}
use neurosentry.Correlate.Rules.Sound.{Accepts, evaluate_sound}
use neurosentry.Correlate.Rules.Greedy.{AllMatched, evaluate_complete}
use neurosentry.Correlate.Rules.Touch.{evaluate_untouched}
use neurosentry.Correlate.Ingest.Fires.{IsGenuine, ingest-IsGenuine}
use neurosentry.Correlate.Ingest.Ceilings.{Call, ingests, learns, reaps, run, run_ceilings}
use neurosentry.Correlate.Ingest.Spacing.{Named, Spaced, log_run, log_run-Spaced}
use neurosentry.Correlate.Ingest.Reap.{reap_keeps_cooldowns}

abbrev signal_at : ℕ → Str → Signal
signal_at t kind = record {
  timestamp = pos (t * second);
  pid = pos 7;
  tenant_id = [];
  layer = str "host";
  kind = kind;
  attributes = none;
  severity = str "high";
}

abbrev of_kind : Str → Matcher
of_kind kind = record { layer = []; kind = kind; pred = none }

abbrev rule_of : List Matcher → Bool → Rule
rule_of all ordered = record {
  id = str "NS-1";
  name = str "exfiltration";
  all = all;
  window = pos (60 * second);
  ordered = ordered;
  severity = str "critical";
  technique = [];
  mitre_attack = [];
  category = [];
  references = [];
  description = [];
  rationale = [];
  remediation = [];
  false_positives = [];
  matchers = [];
}

abbrev read_then_send : Rule
read_then_send = rule_of (of_kind (str "read") ∷ of_kind (str "send") ∷ []) true

abbrev read_and_send : Rule
read_and_send = rule_of (of_kind (str "read") ∷ of_kind (str "send") ∷ []) false

abbrev read_at : ℕ → Signal
read_at t = signal_at t (str "read")

abbrev send_at : ℕ → Signal
send_at t = signal_at t (str "send")

-- An unrelated signal between the two is passed over.
evaluate_run :
    evaluate read_then_send
      (read_at 100 ∷ signal_at 101 (str "idle") ∷ send_at 102 ∷ [])
      (pos (102 * second))
    ≡ some (read_at 100 ∷ send_at 102 ∷ [])
unfolding evaluate assign pick matches windowed in_order str_beq ◌+ℤ◌
evaluate_run = refl

evaluate_sound_example :
    let signals = read_at 100 ∷ signal_at 101 (str "idle") ∷ send_at 102 ∷ [] in
    Accepts read_then_send.all (read_at 100 ∷ send_at 102 ∷ [])
    × ((rest : List Signal) × Perm
          (windowed read_then_send (pos (102 * second)) signals)
          (read_at 100 ∷ send_at 102 ∷ [] ++ rest))
    × ((not read_then_send.ordered || in_order (read_at 100 ∷ send_at 102 ∷ [])) ≡ true)
evaluate_sound_example =
    evaluate_sound read_then_send (read_at 100 ∷ signal_at 101 (str "idle") ∷ send_at 102 ∷ [])
      (pos (102 * second)) (read_at 100 ∷ send_at 102 ∷ []) evaluate_run

read_not_send : str "read" ≢ str "send"
unfolding str_beq
read_not_send e = false≢true ((eq_iff (str "read") (str "send")).1 e)

kinds_apart :
    (s : Signal) → (matches (of_kind (str "read")) s && matches (of_kind (str "send")) s) ≡ false
unfolding matches
kinds_apart s =
    ground (arith, eq_iff s.kind (str "read"), eq_iff s.kind (str "send"), read_not_send)

both_there :
    AllMatched read_and_send.all
      (windowed read_and_send (pos (102 * second)) (send_at 101 ∷ read_at 102 ∷ []))
unfolding windowed matches str_beq ◌+ℤ◌
both_there = (refl, (refl, tt))

evaluate_complete_example :
    (chain : List Signal) × (evaluate read_and_send
        (send_at 101 ∷ read_at 102 ∷ [])
        (pos (102 * second))
      ≡ some chain)
evaluate_complete_example =
    evaluate_complete read_and_send (send_at 101 ∷ read_at 102 ∷ []) (pos (102 * second)) refl
      ((kinds_apart, tt), (tt, tt)) both_there

evaluate_untouched_example :
    evaluate read_then_send
      ((read_at 100 ∷ []) ++ signal_at 101 (str "idle") ∷ [])
      (pos (101 * second))
    ≡ evaluate read_then_send (read_at 100 ∷ []) (pos (101 * second))
unfolding touched_by matches str_beq
evaluate_untouched_example =
    evaluate_untouched read_then_send (read_at 100 ∷ []) (signal_at 101 (str "idle"))
      (pos (101 * second)) refl

-- An engine that has seen the process read.
abbrev engine : Correlator
engine = (ingest (new_correlator (read_then_send ∷ [])) (pos 0) (read_at 100)).0

ingest-IsGenuine_example :
    All
      (IsGenuine engine.enabled engine.rules (stamped (pos 0) (send_at 102)) (
        session_signals
          (get (record_signal engine (stamped (pos 0) (send_at 102))).sessions (pos 7))))
      (ingest engine (pos 0) (send_at 102)).1
ingest-IsGenuine_example = ingest-IsGenuine engine (pos 0) (send_at 102)

abbrev calls : List Call
calls =
    ingests (pos 0) (read_at 100) ∷ ingests (pos 0) (send_at 102) ∷ learns true ∷ reaps (pos 7) ∷ []

run_ceilings_example :
    let c = run (new_correlator (read_then_send ∷ [])) calls in
    (length c.sessions ≤ 8192)
    × (length (session_signals (get c.sessions (pos 7))) ≤ 256)
    × (length c.recent ≤ 5000)
    × (length c.recent_signals ≤ 20000)
run_ceilings_example = run_ceilings (read_then_send ∷ []) calls (pos 7)

named : str "exfiltration" ≢ []
named e = cc

reap_keeps_cooldowns_example :
    get (reap engine (pos 7)).last_fired (fire_key (pos 7) (str "exfiltration"))
    ≡ get engine.last_fired (fire_key (pos 7) (str "exfiltration"))
reap_keeps_cooldowns_example =
    reap_keeps_cooldowns engine (pos 7) (pos 7) (str "exfiltration") named

All-Named : All (Named (λ name. pos (60 * second))) (read_then_send ∷ [])
All-Named = ((named, refl), tt)

log_run-Spaced_example :
    Spaced (λ name. pos (60 * second)) (log_run (new_correlator (read_then_send ∷ []), []) calls).1
log_run-Spaced_example =
    log_run-Spaced (λ name. pos (60 * second)) (read_then_send ∷ []) calls All-Named
