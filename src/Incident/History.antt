-- ===== src/Incident/History.antt =====
-- pkg/incident/incident.go: invariants of the store over any sequence of calls.
use neurosentry.Common.{
  Bool, Bool-cases, List, Map, Option, Str, Time, [], ap, eq_iff, false, get, get-put-other, inl,
  inr, int_eq, length, nat_eq, none, put, refl, some, str_eq, sym, true, ℕ, ◌+◌, ◌<◌, ◌==◌, ◌∙◌,
  ◌∷◌, ◌≡◌, ◌≤◌, ◌⊎◌,
}
use neurosentry.Correlate.{Finding}
use neurosentry.Incident.Notes.{}
use neurosentry.Incident.Custody.{IsSuccessor, IsSuccessor-refl, Survives, change-Survives}
use neurosentry.Incident.Order.{refs}
use neurosentry.Incident.{
  Case, Ref, Status, Store, add, add_note, assign, change, delete_note, edit_note, on_case,
  restore_note, set_status,
}

-- The calls that change a store.
pub data Call : Type 0 where
  adds : Time → Str → Finding → Call
  sets_status : Str → Status → Time → Call
  assigns : Str → Str → Time → Call
  adds_note : Str → Str → Str → Str → Time → Time → Call
  edits : Str → Str → Str → Str → Time → Time → Time → Call
  deletes : Str → Str → Str → Time → Time → Call
  restores : Str → Str → Time → Call

unfoldable pub step : Store → Call → Store
step s (adds now id f) = (add s now id f).0
step s (sets_status id status now) = (set_status s id status now).0
step s (assigns id assignee now) = (assign s id assignee now).0
step s (adds_note id note_id author text at now) = (add_note s id note_id author text at now).0
step s (edits id note_id editor text at edited now) =
    (edit_note s id note_id editor text at edited now).0
step s (deletes id note_id actor at now) = (delete_note s id note_id actor at now).0
step s (restores id note_id now) = (restore_note s id note_id now).0

unfoldable pub run : Store → List Call → Store
run s [] = s
run s (x ∷ xs) = run (step s x) xs

-- The listed references follow each other up to the next one, and the heap holds no other.
pub record Inv (s : Store) : Type 0 where
  pub first : Ref
  pub size : ℕ
  pub listed : s.cases ≡ refs first size
  pub ends : first + size ≡ s.next_ref
  pub few : size ≤ s.max_cases
  pub bounded : (q : Ref) (c : Case) → get s.heap q ≡ some c → (first ≤ q) × (q < s.next_ref)
  pub named :
      (id : Str) (r : Ref)
      → get s.by_id id ≡ some r
      → (c : Case) × (get s.heap r ≡ some c) × (c.id ≡ id)

-- The store is full of later cases.
abbrev pub Outlived : Store → Ref → Type 0
Outlived s q = (length s.cases ≡ s.max_cases) × (q + s.max_cases < s.next_ref)

-- What every call does.
pub record Good (s t : Store) : Type 0 where
  pub inv : Inv t
  pub capacity : t.max_cases ≡ s.max_cases
  pub survives : (q : Ref) (c : Case) → get s.heap q ≡ some c → Survives t.heap q c ⊎ Outlived t q
  pub stays : (q : Ref) → Outlived s q → Outlived t q

pub none-some : {A : Type 0} {x : A} {o : Option A} → o ≡ none → o ≡ some x → ⊥
none-some e h = cc

-- A change through a pointer makes no case.
found-change :
    (heap : Map Ref Case) (r q : Ref) (f : Case → Case) (c : Case)
    → get (change heap r f) q ≡ some c
    → (d : Case) × (get heap q ≡ some d)
unfolding change
found-change heap r q f c e = go (get heap r) refl e
  where
    go :
        (o : Option Case)
        → get heap r ≡ o
        → get (elim o [ none ↦ heap | some d ↦ put heap r (f d) ]) q ≡ some c
        → (d : Case) × (get heap q ≡ some d)
    go none h k = (c, k)
    go (some d) h k = elim (Bool-cases (r == q)) [
      | inl same ↦ (d, ap (get heap) (sym ((eq_iff r q).0 same)) ∙ h)
      | inr other ↦ (c, sym (get-put-other heap r q (f d) other) ∙ k)
    ]

pub change-Good :
    (s : Store) (r : Ref) (f : Case → Case)
    → ((d : Case) → IsSuccessor d (f d))
    → Inv s
    → Good s (record s { heap = change s.heap r f })
change-Good s r f h v = record {
  inv = record {
    first = v.first;
    size = v.size;
    listed = v.listed;
    ends = v.ends;
    few = v.few;
    bounded = λ q c e. let old = found-change s.heap r q f c e in v.bounded q old.0 old.1;
    named = λ id p e.
        let old = v.named id p e in
        let now = change-Survives s.heap r p f old.0 h old.1 in
        (now.0, now.1, now.2.same_id ∙ old.2);
  };
  capacity = refl;
  survives = λ q c e. inl (change-Survives s.heap r q f c h e);
  stays = λ q out. out;
}

pub Good-refl : (s : Store) → Inv s → Good s s
Good-refl s v = record {
  inv = v;
  capacity = refl;
  survives = λ q c e. inl (c, e, IsSuccessor-refl c);
  stays = λ q out. out;
}

pub on_case-Good :
    (s : Store) (id : Str) (f : Case → Case)
    → ((d : Case) → IsSuccessor d (f d))
    → Inv s
    → Good s (on_case s id f).0
unfolding on_case
on_case-Good s id f h v = go (get s.by_id id)
  where
    found : Option Ref → Store × Bool
    found o = elim o [ none ↦ (s, false) | some r ↦ (record s { heap = change s.heap r f }, true) ]

    go : (o : Option Ref) → Good s (found o).0
    go none = Good-refl s v
    go (some r) = change-Good s r f h v
