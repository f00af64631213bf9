-- ===== src/Incident/Runs.antt =====
-- pkg/incident/incident.go: what holds of a store after any calls.
use mathlib.Core.List.{Mem, append-nil}
use neurosentry.Common.{
  All, Bool, List, Option, Option-cases, Str, Time, [], ap, arith, false, get, if_cases, inl, inr,
  int_eq, length, nat_eq, none, not, pos, refl, some, str_eq, subst, sym, true, ◌<◌, ◌∙◌, ◌∷◌, ◌≡◌,
  ◌≤◌, ◌⊎◌,
}
use neurosentry.Correlate.{Finding}
use neurosentry.Incident.Notes.{Note, delete_in, edit_in, restore_in}
use neurosentry.Incident.Custody.{
  Continues, IsSuccessor, IsSuccessor-trans, Kept-append, Kept-refl, KeptBy, change_first-KeptBy,
  revised-Continues, with_notes-IsSuccessor,
}
use neurosentry.Incident.History.{
  Call, Good, Good-refl, Inv, Outlived, adds, adds_note, assigns, change-Good, deletes, edits,
  on_case-Good, restores, run, sets_status, step,
}
use neurosentry.Incident.Opening.{open_case-Good}
use neurosentry.Incident.Order.{All-refs, Mem-refs, length-refs, refs}
use neurosentry.Incident.{
  Case, Ref, Store, add, add_note, assign, bumped, change, delete_note, edit_note, find_group,
  get_case, new, on_notes, open_case, restore_note, set_status, valid_status, with_notes,
}

add-Good : (s : Store) (now : Time) (id : Str) (f : Finding) → Inv s → Good s (add s now id f).0
unfolding add
add-Good s now id f v = go (find_group now s.group_window f s.heap s.cases)
  where
    grouped : Option Ref → Store × Ref
    grouped o = elim o [
      | some r ↦ (record s { heap = change s.heap r (bumped now) }, r)
      | none ↦ (open_case s now id f, s.next_ref)
    ]

    go : (o : Option Ref) → Good s (grouped o).0
    go none = open_case-Good s now id f v
    go (some r) =
        change-Good s r (bumped now)
          (λ d. record { same_id = refl; same_start = refl; notes = Kept-refl d.notes }) v

on_notes-Good :
    (f : List Note → Option (List Note × Note × Bool)) (s : Store) (id : Str) (now : Time)
    → ((ns : List Note) → KeptBy ns (f ns))
    → Inv s
    → Good s (on_notes f s id now).0
unfolding on_notes
on_notes-Good f s id now h v =
    on_case-Good s id (λ c. with_notes c now (f c.notes))
      (λ d. with_notes-IsSuccessor d now (f d.notes) (h d.notes)) v

marked-Continues :
    (n : Note) (gone : Bool) (at : Time) (by : Str)
    → Continues n (record n { deleted = gone; deleted_at = at; deleted_by = by })
marked-Continues n gone at by = record {
  same_id = refl;
  same_author = refl;
  same_time = refl;
  more = [];
  grown = sym (append-nil _);
}

step-Good : (s : Store) (x : Call) → Inv s → Good s (step s x)
unfolding step set_status assign add_note edit_note delete_note restore_note edit_in delete_in
    restore_in
step-Good s (adds now id f) v = add-Good s now id f v
step-Good s (sets_status id status now) v =
    if_cases (λ (r : Store × Bool). Good s r.0) (not (valid_status status)) _ _ (λ _. Good-refl s v)
      (λ _.
        on_case-Good s id _
          (λ d. record { same_id = refl; same_start = refl; notes = Kept-refl d.notes }) v)
step-Good s (assigns id assignee now) v =
    on_case-Good s id _
      (λ d. record { same_id = refl; same_start = refl; notes = Kept-refl d.notes }) v
step-Good s (adds_note id note_id author text at now) v =
    on_case-Good s id _
      (λ d. record { same_id = refl; same_start = refl; notes = Kept-append d.notes _ }) v
step-Good s (edits id note_id editor text at edited now) v =
    on_notes-Good _ s id now
      (λ ns. change_first-KeptBy _ note_id ns (revised-Continues editor text at edited)) v
step-Good s (deletes id note_id actor at now) v =
    on_notes-Good _ s id now
      (λ ns. change_first-KeptBy _ note_id ns (λ n. marked-Continues n true at actor)) v
step-Good s (restores id note_id now) v =
    on_notes-Good _ s id now
      (λ ns. change_first-KeptBy _ note_id ns (λ n. marked-Continues n false (pos 0) [])) v

Good-trans : (s t u : Store) → Good s t → Good t u → Good s u
Good-trans s t u f g = record {
  inv = g.inv;
  capacity = g.capacity ∙ f.capacity;
  survives = λ q c e. elim (f.survives q c e) [
    | inr out ↦ inr (g.stays q out)
    | inl (d, e', one) ↦ elim (g.survives q d e') [
      | inr out ↦ inr out
      | inl (d', e'', two) ↦ inl (d', e'', IsSuccessor-trans c d d' one two)
    ]
  ];
  stays = λ q out. g.stays q (f.stays q out);
}

pub run-Good : (s : Store) (xs : List Call) → Inv s → Good s (run s xs)
unfolding run
run-Good s [] v = Good-refl s v
run-Good s (x ∷ xs) v =
    let one = step-Good s x v in
    Good-trans s (step s x) (run (step s x) xs) one (run-Good (step s x) xs one.inv)

pub new-Inv : Inv new
unfolding new get refs
new-Inv = record {
  first = 0;
  size = 0;
  listed = refl;
  ends = refl;
  few = omega arith;
  bounded = λ q c e. cc;
  named = λ id r e. cc;
}

length-cases : (s : Store) → Inv s → length s.cases ≤ s.max_cases
length-cases s v = omega (arith, ap length v.listed, length-refs v.first v.size, v.few)

-- A case of the heap is listed.
held-Mem : (s : Store) (q : Ref) (c : Case) → Inv s → get s.heap q ≡ some c → Mem q s.cases
held-Mem s q c v e =
    let in_range = v.bounded q c e in
    subst (Mem q) (sym v.listed)
      (Mem-refs v.first v.size q in_range.0 (omega (arith, in_range.1, v.ends)))

-- The references of a store that has outlived a case are all later.
Outlived-All : (s : Store) (q : Ref) → Inv s → Outlived s q → All (λ r. q < r) s.cases
Outlived-All s q v out = subst (All (λ r. q < r)) (sym v.listed) (
    All-refs v.first v.size q
      (omega (arith, out.0, out.1, v.ends, ap length v.listed, length-refs v.first v.size)))

-- The store lists the case under the reference.
abbrev pub Lists : Store → Ref → Case → Type 0
Lists s q c = Mem q s.cases × (get s.heap q ≡ some c)

new_max : new.max_cases ≡ 2000
unfolding new
new_max = refl

-- Whatever is called after it, a listed case either is still listed, as the same case, with every note in
-- its place, by its author, and every text that a note has ever had, in their order (edits append to a
-- note's trail, and deleting a note or restoring it erases nothing), or has made room: then the store
-- lists exactly 2000 cases, all of them opened after it.
pub run-IsSuccessor :
    (before_it after_it : List Call) (q : Ref) (c : Case)
    → Lists (run new before_it) q c
    → ((d : Case) × Lists (run (run new before_it) after_it) q d × IsSuccessor c d)
      ⊎ ((length (run (run new before_it) after_it).cases ≡ 2000)
          × All (λ r. q < r) (run (run new before_it) after_it).cases)
run-IsSuccessor before_it after_it q c e =
    let s = run new before_it in
    let first_ = run-Good new before_it new-Inv in
    let then_ = run-Good s after_it first_.inv in
    elim (then_.survives q c e.1) [
      | inl (d, held, succ) ↦ inl (d, (held-Mem (run s after_it) q d then_.inv held, held), succ)
      | inr out ↦ inr (
        out.0 ∙ then_.capacity ∙ first_.capacity ∙ new_max,
        Outlived-All (run s after_it) q then_.inv out,
      )
    ]

-- After any calls the store lists at most 2000 cases. Under any identifier the index has nothing, or a
-- reference that is listed and whose case, of that identifier, is what Get finds.
pub run_lookup :
    (xs : List Call) (id : Str)
    → (length (run new xs).cases ≤ 2000)
      × ((get (run new xs).by_id id ≡ none)
          ⊎ ((r : Ref) × (c : Case) × (get (run new xs).by_id id ≡ some r)
              × Lists (run new xs) r c
              × (get_case (run new xs) id ≡ some c)
              × (c.id ≡ id)))
unfolding get_case
run_lookup xs id =
    let s = run new xs in
    let g = run-Good new xs new-Inv in
    (
      omega (arith, length-cases s g.inv, g.capacity, new_max),
      elim (Option-cases (get s.by_id id)) [
        | inl e ↦ inl e
        | inr (r, e) ↦
            let found = g.inv.named id r e in
            inr (
              r,
              found.0,
              e,
              (held-Mem s r found.0 g.inv found.1, found.1),
              rw (e, get_case) found.1,
              found.2,
            )
      ],
    )
