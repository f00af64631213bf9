-- ===== src/Audit/Examples.antt =====
-- Concrete chains of pkg/audit/audit.go, with a toy hash: the bytes themselves.
use neurosentry.Common.{
  List, Str, [], arith, int_eq, nat_eq, none, pos, refl, some, str, str_beq, str_eq, true, ℕ, ◌∷◌,
  ◌≡◌,
}
use neurosentry.Audit.{
  Codec, Entry, Sink, append_all, check_link, compute_hash, verify, verify_from,
}
use neurosentry.Audit.Verified.{reopened, verify-append_all}
use neurosentry.Audit.Tamper.{edit_needs_collision}

abbrev toy : Codec
toy = record { Details = Str; marshal = λ s. s; format = λ t. []; sha_hex = λ s. s }

-- A store that keeps the number of the last entry, and says that it holds entry 4 of an earlier run.
abbrev disk : Sink toy
disk = record { State = ℕ; write = λ n e. (e.sequence_num, true); last = λ n. some (n, str "seed") }

abbrev entry : Str → Entry toy
entry id = record {
  id = id;
  sequence_num = 0;
  timestamp = pos 0;
  event_type = str "exec";
  severity = str "high";
  severity_id = pos 4;
  category_uid = pos 0;
  class_uid = pos 0;
  actor = some (record { pid = pos 7; uid = pos 0; comm = str "sh" });
  details = none;
  metadata = none;
  prev_hash = [];
  hash = [];
}

abbrev two_entries : List (Entry toy)
two_entries = entry (str "a") ∷ entry (str "b") ∷ []

verify-append_all_example :
    verify toy (append_all toy disk (reopened toy disk (pos 1) 4) two_entries).entries ≡ none
verify-append_all_example = verify-append_all toy disk (pos 1) 4 two_entries (omega arith)

abbrev kept_entries : List (Entry toy)
kept_entries = (append_all toy disk (reopened toy disk (pos 9) 4) two_entries).entries

-- A hash that collides on everything.
abbrev weak : Codec
weak = record { Details = Str; marshal = λ s. s; format = λ t. []; sha_hex = λ s. str "h" }

abbrev weak_entry : ℕ → Str → Entry weak
weak_entry n id = record {
  id = id;
  sequence_num = n;
  timestamp = pos 0;
  event_type = str "exec";
  severity = str "high";
  severity_id = pos 4;
  category_uid = pos 0;
  class_uid = pos 0;
  actor = none;
  details = none;
  metadata = none;
  prev_hash = str "h";
  hash = str "h";
}

edit_needs_collision_example :
    compute_hash weak (weak_entry 5 (str "x")) ≡ compute_hash weak (weak_entry 5 (str "a"))
unfolding verify verify_from check_link compute_hash str_beq
edit_needs_collision_example =
    edit_needs_collision weak [] [] (weak_entry 5 (str "a")) (weak_entry 5 (str "x"))
      (weak_entry 6 (str "b")) refl refl
