-- ===== src/Correlate/Builtin/Exfiltration.antt =====
-- pkg/correlate/rules.go: what the built-in rules detect.
use mathlib.Core.List.{Perm}
use neurosentry.Common.{
  Bool, List, Time, [], before, eq_iff, false, if◌then◌else◌, int_eq, nat_eq, not, refl, some, str,
  str_eq, true, ◌&&◌, ◌++◌, ◌==◌, ◌||◌, ◌∷◌, ◌≡◌,
}
use neurosentry.Correlate.{Signal}
use neurosentry.Correlate.Rules.{evaluate, in_order, matches, windowed}
use neurosentry.Correlate.Rules.Sound.{Accepts, evaluate_sound}
use neurosentry.Correlate.Predicates.{is_llm_bound, layer_kernel_file, path_is_secret}
use neurosentry.Correlate.Builtin.{matcher, secret_read_then_llm}

-- The two signals of a finding of `secret-read-then-llm`: a read of a secret file, and then, not earlier,
-- something bound for a language model; they are different signals of the last ten seconds.
pub record IsExfiltration (signals : List Signal) (now : Time) (chain : List Signal) : Type 0 where
  pub read : Signal
  pub sent : Signal
  pub rest : List Signal
  pub whole : chain ≡ read ∷ sent ∷ []
  pub on_file : read.layer ≡ layer_kernel_file
  pub is_read : read.kind ≡ str "file_read"
  pub secret : path_is_secret read ≡ true
  pub bound : is_llm_bound sent ≡ true
  pub ordered : before sent.timestamp read.timestamp ≡ false
  pub distinct : Perm (windowed secret_read_then_llm now signals) (chain ++ rest)

three_tests :
    (a b c : Bool)
    → (if not a then false else if not b then false else if not c then false else true) ≡ true
    → (a ≡ true) × (b ≡ true) × (c ≡ true)
three_tests true true true h = (refl, refl, refl)
three_tests true true false h = cc
three_tests true false c h = cc
three_tests false b c h = cc

not_earlier : (b : Bool) → (not b && true) ≡ true → b ≡ false
not_earlier true h = cc
not_earlier false h = refl

-- A finding of the built-in rule `secret-read-then-llm` is a read of a secret file and, not earlier,
-- something bound for a language model, two different signals of the rule's window.
pub evaluate-IsExfiltration :
    (signals : List Signal) (now : Time) (chain : List Signal)
    → evaluate secret_read_then_llm signals now ≡ some chain
    → IsExfiltration signals now chain
unfolding matches in_order
evaluate-IsExfiltration signals now chain e =
    of_chain chain (evaluate_sound secret_read_then_llm signals now chain e)
  where
    Sound : List Signal → Type 0
    Sound c =
        Accepts secret_read_then_llm.all c
        × ((rest : List Signal) × Perm (windowed secret_read_then_llm now signals) (c ++ rest))
        × ((not true || in_order c) ≡ true)

    tests :
        (s : Signal)
        → matches (matcher layer_kernel_file (str "file_read") (some path_is_secret)) s ≡ true
        → ((s.layer == layer_kernel_file) ≡ true)
          × ((s.kind == str "file_read") ≡ true)
          × (path_is_secret s ≡ true)
    tests s h =
        three_tests (s.layer == layer_kernel_file) (s.kind == str "file_read") (path_is_secret s) h

    of_chain : (c : List Signal) → Sound c → IsExfiltration signals now c
    of_chain [] (no_match, _, _) = absurd no_match
    of_chain (s ∷ []) ((_, no_match), _, _) = absurd no_match
    of_chain (s ∷ t ∷ u ∷ more) ((_, (_, no_match)), _, _) = absurd no_match
    of_chain (s ∷ t ∷ []) ((reads, (sends, _)), (others, perm), order) = record {
      read = s;
      sent = t;
      rest = others;
      whole = refl;
      on_file = (eq_iff s.layer layer_kernel_file).0 (tests s reads).0;
      is_read = (eq_iff s.kind (str "file_read")).0 (tests s reads).1;
      secret = (tests s reads).2;
      bound = (three_tests true true (is_llm_bound t) sends).2;
      ordered = not_earlier (before t.timestamp s.timestamp) order;
      distinct = perm;
    }
