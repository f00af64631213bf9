-- ===== src/Incident/Isolation.antt =====
-- pkg/incident/incident.go: a call about one case leaves the others alone.
use neurosentry.Common.{
  Bool, Bool-cases, List, Map, Option, Str, ap, eq_iff, false, get, get-put, if_cases, inl, inr,
  int_eq, nat_eq, none, not, put, refl, some, str_eq, sym, true, ◌==◌, ◌∙◌, ◌≡◌, ◌≢◌,
}
use neurosentry.Correlate.{}
use neurosentry.Incident.Notes.{}
use neurosentry.Incident.Custody.{}
use neurosentry.Incident.History.{
  Call, Inv, adds, adds_note, assigns, deletes, edits, restores, run, sets_status, step,
}
use neurosentry.Incident.Runs.{new-Inv, run-Good}
use neurosentry.Incident.{
  Case, Ref, Store, add_note, assign, change, delete_note, edit_note, get_case, new, on_case,
  on_notes, restore_note, set_status, valid_status,
}

change-other :
    (heap : Map Ref Case) (r q : Ref) (f : Case → Case)
    → (r == q) ≡ false
    → get (change heap r f) q ≡ get heap q
unfolding change
change-other heap r q f ne = go (get heap r)
  where
    go : (o : Option Case) → get (elim o [ none ↦ heap | some c ↦ put heap r (f c) ]) q ≡ get heap q
    go none = refl
    go (some c) = rw (get-put, ne) refl

on_case-other :
    (s : Store) (id other : Str) (f : Case → Case)
    → Inv s
    → id ≢ other
    → get_case (on_case s id f).0 other ≡ get_case s other
unfolding on_case get_case
on_case-other s id other f v ne = go (get s.by_id id) refl (get s.by_id other) refl
  where
    found : Option Ref → Store × Bool
    found o = elim o [ none ↦ (s, false) | some r ↦ (record s { heap = change s.heap r f }, true) ]

    at : Store → Option Ref → Option Case
    at t o = elim o [ none ↦ none | some q ↦ get t.heap q ]

    apart : (r q : Ref) → get s.by_id id ≡ some r → get s.by_id other ≡ some q → (r == q) ≡ false
    apart r q e k = elim (Bool-cases (r == q)) [
      | inr differs ↦ differs
      | inl same ↦
          let a = v.named id r e in
          let b = v.named other q k in
          absurd (
            ne (
              sym a.2
              ∙ ap (id_or a.0) (sym a.1 ∙ ap (get s.heap) ((eq_iff r q).0 same) ∙ b.1)
              ∙ b.2))
    ]
      where
        id_or : Case → Option Case → Str
        id_or c none = c.id
        id_or c (some d) = d.id

    go :
        (o : Option Ref)
        → get s.by_id id ≡ o
        → (p : Option Ref) → get s.by_id other ≡ p
        → at (found o).0 (get (found o).0.by_id other) ≡ at s (get s.by_id other)
    go none e p k = refl
    go (some r) e none k = rw k refl
    go (some r) e (some q) k = rw k (change-other s.heap r q f (apart r q e k))

-- The identifier that a call is about; a detection is about none.
abbrev pub subject : Call → Option Str
subject (adds now id f) = none
subject (sets_status id status now) = some id
subject (assigns id assignee now) = some id
subject (adds_note id note_id author text at now) = some id
subject (edits id note_id editor text at edited now) = some id
subject (deletes id note_id actor at now) = some id
subject (restores id note_id now) = some id

differs : (c id other : Str) → some c ≡ some id → id ≢ other → c ≢ other
differs c id other about ne e = ne (cc)

step-other :
    (s : Store) (x : Call) (id other : Str)
    → Inv s
    → subject x ≡ some id
    → id ≢ other
    → get_case (step s x) other ≡ get_case s other
unfolding step set_status assign add_note edit_note delete_note restore_note on_notes
step-other s (adds now c f) id other v about ne = cc
step-other s (sets_status c status now) id other v about ne =
    if_cases (λ (r : Store × Bool). get_case r.0 other ≡ get_case s other)
      (not (valid_status status)) _ _ (λ _. refl)
      (λ _. on_case-other s c other _ v (differs c id other about ne))
step-other s (assigns c assignee now) id other v about ne =
    on_case-other s c other _ v (differs c id other about ne)
step-other s (adds_note c note_id author text at now) id other v about ne =
    on_case-other s c other _ v (differs c id other about ne)
step-other s (edits c note_id editor text at edited now) id other v about ne =
    on_case-other s c other _ v (differs c id other about ne)
step-other s (deletes c note_id actor at now) id other v about ne =
    on_case-other s c other _ v (differs c id other about ne)
step-other s (restores c note_id now) id other v about ne =
    on_case-other s c other _ v (differs c id other about ne)

-- After any calls, one about a case leaves what is looked up under every other identifier as it was.
pub run-step_other :
    (xs : List Call) (x : Call) (id other : Str)
    → subject x ≡ some id
    → id ≢ other
    → get_case (step (run new xs) x) other ≡ get_case (run new xs) other
run-step_other xs x id other about ne =
    step-other (run new xs) x id other (run-Good new xs new-Inv).inv about ne
