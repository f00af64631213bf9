-- ===== src/Incident/Found.antt =====
-- pkg/incident/incident.go: Get finds every listed case, when no identifier is drawn twice.
use neurosentry.Common.{
  All, Bool, Bool-cases, List, Map, Option, Str, Time, [], ap, eq_iff, false, get, get-put-other,
  get-put-same, if_cases, inl, inr, int_eq, nat_eq, none, not, put, refl, some, str_eq, subst, sym,
  true, ◌++◌, ◌==◌, ◌∙◌, ◌∷◌, ◌≡◌, ◌≢◌,
}
use neurosentry.Correlate.{Finding}
use neurosentry.Incident.Notes.{Note, delete_in, edit_in, restore_in}
use neurosentry.Incident.Custody.{}
use neurosentry.Incident.History.{
  Call, adds, adds_note, assigns, deletes, edits, restores, run, sets_status, step,
}
use neurosentry.Incident.Runs.{Lists}
use neurosentry.Incident.{
  Case, Ref, Store, add, add_note, assign, bumped, change, delete_note, edit_note, find_group,
  get_case, new, on_case, on_notes, open_case, opened_case, restore_note, set_status, valid_status,
  with_notes,
}
use neurosentry.Incident.Index.{FoundIn, drop_oldest-FoundIn, drop_oldest-heap, put-FoundIn, traced}

-- The identifiers that calls bring for the cases that they may open.
abbrev pub drawn : Call → List Str
drawn (adds now id f) = id ∷ []
drawn (sets_status id status now) = []
drawn (assigns id assignee now) = []
drawn (adds_note id note_id author text at now) = []
drawn (edits id note_id editor text at edited now) = []
drawn (deletes id note_id actor at now) = []
drawn (restores id note_id now) = []

unfoldable pub drawn_all : List Call → List Str
drawn_all [] = []
drawn_all (x ∷ xs) = drawn x ++ drawn_all xs

abbrev pub Distinct : List Str → Type 0
Distinct [] = Unit
Distinct (x ∷ xs) = All (λ y. x ≢ y) xs × Distinct xs

-- The index leads to every case, and none has one of these identifiers.
record Ready (s : Store) (ids : List Str) : Type 0 where
  found : FoundIn s.heap s.by_id
  apart : (q : Ref) (c : Case) → get s.heap q ≡ some c → All (λ id. c.id ≢ id) ids

change-Ready :
    (s : Store) (r : Ref) (f : Case → Case) (ids : List Str)
    → ((d : Case) → (f d).id ≡ d.id)
    → Ready s ids
    → Ready (record s { heap = change s.heap r f }) ids
change-Ready s r f ids keeps h = record {
  found = λ q c e.
      let old = traced s.heap r q f c keeps e in
      ap (get s.by_id) (sym old.2) ∙ h.found q old.0 old.1;
  apart = λ q c e.
      let old = traced s.heap r q f c keeps e in
      subst (λ n. All (λ id. n ≢ id) ids) old.2 (h.apart q old.0 old.1);
}

on_case-Ready :
    (s : Store) (id : Str) (f : Case → Case) (ids : List Str)
    → ((d : Case) → (f d).id ≡ d.id)
    → Ready s ids
    → Ready (on_case s id f).0 ids
unfolding on_case
on_case-Ready s id f ids keeps h = go (get s.by_id id)
  where
    at : Option Ref → Store × Bool
    at o = elim o [ none ↦ (s, false) | some r ↦ (record s { heap = change s.heap r f }, true) ]

    go : (o : Option Ref) → Ready (at o).0 ids
    go none = h
    go (some r) = change-Ready s r f ids keeps h

with_notes-id :
    (c : Case) (now : Time) (o : Option (List Note × Note × Bool)) → (with_notes c now o).id ≡ c.id
with_notes-id c now none = refl
with_notes-id c now (some (ns, n, touched)) = refl

on_notes-Ready :
    (f : List Note → Option (List Note × Note × Bool)) (s : Store) (id : Str) (now : Time)
    (ids : List Str)
    → Ready s ids
    → Ready (on_notes f s id now).0 ids
unfolding on_notes
on_notes-Ready f s id now ids h =
    on_case-Ready s id (λ c. with_notes c now (f c.notes)) ids
      (λ d. with_notes-id d now (f d.notes)) h

open_case-Ready :
    (s : Store) (now : Time) (id : Str) (f : Finding) (ids : List Str)
    → Ready s (id ∷ ids)
    → All (λ other. id ≢ other) ids
    → Ready (open_case s now id f) ids
unfolding open_case
open_case-Ready s now id f ids h new_ = record {
  found =
      drop_oldest-FoundIn s.max_cases heap' (s.cases ++ s.next_ref ∷ []) (put s.by_id id s.next_ref)
        (put-FoundIn s.heap s.by_id s.next_ref (opened_case now id f) h.found
          (λ q d e. (h.apart q d e).0));
  apart = λ q c e. apart' q c (
      drop_oldest-heap s.max_cases heap' (s.cases ++ s.next_ref ∷ []) (put s.by_id id s.next_ref) q
        c e);
}
  where
    heap' : Map Ref Case
    heap' = put s.heap s.next_ref (opened_case now id f)

    id_or : Option Case → Str
    id_or none = []
    id_or (some x) = x.id

    apart' : (q : Ref) (c : Case) → get heap' q ≡ some c → All (λ other. c.id ≢ other) ids
    apart' q c e = elim (Bool-cases (s.next_ref == q)) [
      | inl same ↦
          let is : some (opened_case now id f) ≡ some c =
            sym (get-put-same s.heap s.next_ref (opened_case now id f))
            ∙ ap (get heap') ((eq_iff s.next_ref q).0 same)
            ∙ e in
          subst (λ n. All (λ other. n ≢ other) ids) (ap id_or is) new_
      | inr differs ↦ (h.apart q c (sym (get-put-other s.heap s.next_ref q _ differs) ∙ e)).1
    ]

add-Ready :
    (s : Store) (now : Time) (id : Str) (f : Finding) (ids : List Str)
    → Ready s (id ∷ ids)
    → All (λ other. id ≢ other) ids
    → Ready (add s now id f).0 ids
unfolding add
add-Ready s now id f ids h new_ = go (find_group now s.group_window f s.heap s.cases)
  where
    grouped : Option Ref → Store × Ref
    grouped o = elim o [
      | some r ↦ (record s { heap = change s.heap r (bumped now) }, r)
      | none ↦ (open_case s now id f, s.next_ref)
    ]

    go : (o : Option Ref) → Ready (grouped o).0 ids
    go none = open_case-Ready s now id f ids h new_
    go (some r) =
        change-Ready s r (bumped now) ids (λ d. refl)
          (record { found = h.found; apart = λ q c e. (h.apart q c e).1 })

step-Ready :
    (s : Store) (x : Call) (ids : List Str)
    → Ready s (drawn x ++ ids)
    → Distinct (drawn x ++ ids)
    → Ready (step s x) ids
unfolding step set_status assign add_note edit_note delete_note restore_note edit_in delete_in
    restore_in
step-Ready s (adds now id f) ids h d = add-Ready s now id f ids h d.0
step-Ready s (sets_status id status now) ids h d =
    if_cases (λ (r : Store × Bool). Ready r.0 ids) (not (valid_status status)) _ _ (λ _. h)
      (λ _. on_case-Ready s id _ ids (λ c. refl) h)
step-Ready s (assigns id assignee now) ids h d = on_case-Ready s id _ ids (λ c. refl) h
step-Ready s (adds_note id note_id author text at now) ids h d =
    on_case-Ready s id _ ids (λ c. refl) h
step-Ready s (edits id note_id editor text at edited now) ids h d = on_notes-Ready _ s id now ids h
step-Ready s (deletes id note_id actor at now) ids h d = on_notes-Ready _ s id now ids h
step-Ready s (restores id note_id now) ids h d = on_notes-Ready _ s id now ids h

Distinct-rest : (x : Call) (ids : List Str) → Distinct (drawn x ++ ids) → Distinct ids
Distinct-rest (adds now id f) ids d = d.1
Distinct-rest (sets_status id status now) ids d = d
Distinct-rest (assigns id assignee now) ids d = d
Distinct-rest (adds_note id note_id author text at now) ids d = d
Distinct-rest (edits id note_id editor text at edited now) ids d = d
Distinct-rest (deletes id note_id actor at now) ids d = d
Distinct-rest (restores id note_id now) ids d = d

run-Ready :
    (s : Store) (xs : List Call)
    → Ready s (drawn_all xs)
    → Distinct (drawn_all xs)
    → Ready (run s xs) []
unfolding run drawn_all
run-Ready s [] h d = h
run-Ready s (x ∷ xs) h d =
    run-Ready (step s x) xs (step-Ready s x (drawn_all xs) h d) (Distinct-rest x (drawn_all xs) d)

-- After calls that never draw an identifier twice, Get finds every listed case under its identifier, also
-- when older cases have been dropped to make room.
pub run-get_case :
    (xs : List Call) (q : Ref) (c : Case)
    → Distinct (drawn_all xs)
    → Lists (run new xs) q c
    → get_case (run new xs) c.id ≡ some c
unfolding get_case new get
run-get_case xs q c d e =
    let ready = run-Ready new xs (record { found = λ q c e. cc; apart = λ q c e. cc }) d in
    rw (ready.found q c e.1, get_case) e.1
