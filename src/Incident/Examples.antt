-- ===== src/Incident/Examples.antt =====
-- Concrete runs of pkg/incident/incident.go.
use mathlib.Core.Bool.{false≢true}
use mathlib.Core.List.{mem-cons_self}
use neurosentry.Common.{
  All, List, [], eq_iff, get, inc64, int_eq, length, nat_eq, none, pos, put, refl, second, some,
  str, str_beq, str_eq, sub, wrap64, ◌*◌, ◌+ℤ◌, ◌-ℤ◌, ◌<◌, ◌∷◌, ◌≡◌, ◌≢◌, ◌≤◌, ◌⊎◌,
}
use neurosentry.Correlate.{Finding}
use neurosentry.Incident.Notes.{new_note}
use neurosentry.Incident.Custody.{IsSuccessor}
use neurosentry.Incident.History.{Call, adds, adds_note, deletes, edits, run, step}
use neurosentry.Incident.Found.{Distinct, drawn_all, run-get_case}
use neurosentry.Incident.Runs.{Lists, run-IsSuccessor, run_lookup}
use neurosentry.Incident.{
  Case, Ref, add, add_note, change, drop_oldest, find_group, get_case, groups, new, on_case,
  open_case, opened_case,
}

abbrev leak : Finding
leak = record {
  timestamp = pos 0;
  rule_id = str "NS-1";
  rule = str "exfiltration";
  pid = pos 7;
  tenant_id = [];
  severity = str "critical";
  technique = [];
  description = [];
  chain = [];
}

abbrev other_leak : Finding
other_leak = record leak { pid = pos 8 }

abbrev opening : List Call
opening =
    adds (pos second) (str "c1") leak
    ∷ adds (pos (2 * second)) (str "c2") leak
    ∷ adds_note (str "c1") (str "n1") (str "ann") (str "odd") (pos 3) (pos 3)
    ∷ []

abbrev edited_later : List Call
edited_later =
    edits (str "c1") (str "n1") (str "bob") (str "fine") (pos 4) (pos 4) (pos 4)
    ∷ deletes (str "c1") (str "n1") (str "bob") (pos 5) (pos 5)
    ∷ []

-- The second detection joins the first one's case, and the note is on it.
abbrev first_case : Case
first_case = record (opened_case (pos second) (str "c1") leak) {
  count = pos 2;
  last_seen = pos (2 * second);
  updated_at = pos 3;
  notes = new_note (str "n1") (str "ann") (str "odd") (pos 3) ∷ [];
}

run-IsSuccessor_example :
    ((d : Case) × Lists (run (run new opening) edited_later) 0 d × IsSuccessor first_case d)
    ⊎ ((length (run (run new opening) edited_later).cases ≡ 2000)
        × All (λ r. 0 < r) (run (run new opening) edited_later).cases)
unfolding run step add find_group groups change open_case drop_oldest add_note on_case new get put
    str_beq sub ◌-ℤ◌ inc64 wrap64 ◌+ℤ◌
run-IsSuccessor_example = run-IsSuccessor opening edited_later 0 first_case (mem-cons_self, refl)

run_lookup_example :
    (length (run new opening).cases ≤ 2000)
    × ((get (run new opening).by_id (str "c1") ≡ none)
        ⊎ ((r : Ref) × (c : Case) × (get (run new opening).by_id (str "c1") ≡ some r)
            × Lists (run new opening) r c
            × (get_case (run new opening) (str "c1") ≡ some c)
            × (c.id ≡ str "c1")))
run_lookup_example = run_lookup opening (str "c1")

c1_not_c9 : str "c1" ≢ str "c9"
unfolding str_beq
c1_not_c9 e = false≢true ((eq_iff (str "c1") (str "c9")).1 e)

two_cases :
    Distinct
      (drawn_all (adds (pos second) (str "c1") leak ∷ adds (pos 9) (str "c9") other_leak ∷ []))
unfolding drawn_all
two_cases = ((c1_not_c9, tt), (tt, tt))

run-get_case_example :
    get_case
      (run new (adds (pos second) (str "c1") leak ∷ adds (pos 9) (str "c9") other_leak ∷ []))
      (str "c1")
    ≡ some (opened_case (pos second) (str "c1") leak)
unfolding run step add find_group groups change open_case drop_oldest new get put str_beq sub ◌-ℤ◌
    inc64 wrap64 ◌+ℤ◌
run-get_case_example =
    run-get_case (adds (pos second) (str "c1") leak ∷ adds (pos 9) (str "c9") other_leak ∷ []) 0
      (opened_case (pos second) (str "c1") leak) two_cases (mem-cons_self, refl)
