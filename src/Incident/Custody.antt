-- ===== src/Incident/Custody.antt =====
-- pkg/incident/incident.go: no text that an analyst has written is ever lost.
use mathlib.Core.List.{append-nil, append_assoc}
use neurosentry.Common.{
  Bool, Bool-cases, List, Map, Option, Str, Time, [], ap, eq_iff, get, get-put, if_cases, inl, inr,
  int_eq, map, nat_eq, none, not, put, refl, some, str_eq, subst, sym, ◌++◌, ◌==◌, ◌∙◌, ◌∷◌, ◌≡◌,
}
use neurosentry.Incident.Notes.{Note, NoteRevision, change_first, revised}
use neurosentry.Incident.{Case, Ref, change, with_notes}

-- Every text that the note has had, oldest first.
abbrev pub trail : Note → List Str
trail n = map (λ (r : NoteRevision). r.text) n.revisions ++ n.text ∷ []

-- The later note is the same one, and its trail continues the earlier one's.
pub record Continues (n m : Note) : Type 0 where
  pub same_id : m.id ≡ n.id
  pub same_author : m.author ≡ n.author
  pub same_time : m.at ≡ n.at
  pub more : List Str
  pub grown : trail m ≡ trail n ++ more

-- Each of the earlier notes is there, in its place.
abbrev pub Kept : List Note → List Note → Type 0
Kept [] ms = Unit
Kept (n ∷ ns) [] = ⊥
Kept (n ∷ ns) (m ∷ ms) = Continues n m × Kept ns ms

pub Continues-refl : (n : Note) → Continues n n
Continues-refl n = record {
  same_id = refl;
  same_author = refl;
  same_time = refl;
  more = [];
  grown = sym (append-nil _);
}

Continues-trans : (l m n : Note) → Continues l m → Continues m n → Continues l n
Continues-trans l m n f g = record {
  same_id = g.same_id ∙ f.same_id;
  same_author = g.same_author ∙ f.same_author;
  same_time = g.same_time ∙ f.same_time;
  more = f.more ++ g.more;
  grown = g.grown ∙ ap (λ t. t ++ g.more) f.grown ∙ append_assoc (trail l) f.more g.more;
}

pub Kept-refl : (ns : List Note) → Kept ns ns
Kept-refl [] = tt
Kept-refl (n ∷ ns) = (Continues-refl n, Kept-refl ns)

Kept-trans : (ls ms ns : List Note) → Kept ls ms → Kept ms ns → Kept ls ns
Kept-trans [] ms ns f g = tt
Kept-trans (l ∷ ls) [] ns f g = absurd f
Kept-trans (l ∷ ls) (m ∷ ms) [] f g = absurd g
Kept-trans (l ∷ ls) (m ∷ ms) (n ∷ ns) f g =
    (Continues-trans l m n f.0 g.0, Kept-trans ls ms ns f.1 g.1)

pub Kept-append : (ns ms : List Note) → Kept ns (ns ++ ms)
Kept-append [] ms = tt
Kept-append (n ∷ ns) ms = (Continues-refl n, Kept-append ns ms)

texts-append :
    (rs ts : List NoteRevision)
    → map (λ (r : NoteRevision). r.text) (rs ++ ts)
      ≡ map (λ (r : NoteRevision). r.text) rs ++ map (λ (r : NoteRevision). r.text) ts
texts-append [] ts = refl
texts-append (r ∷ rs) ts = ap (◌∷◌ r.text) (texts-append rs ts)

pub revised-Continues :
    (editor text : Str) (at edited : Time) (n : Note)
    → Continues n (revised editor text at edited n).0
revised-Continues editor text at edited n =
    if_cases (λ (r : Note × Bool). Continues n r.0) (not (n.text == text)) _ _
      (λ _. record {
        same_id = refl;
        same_author = refl;
        same_time = refl;
        more = text ∷ [];
        grown =
            ap (λ ts. ts ++ text ∷ [])
              (texts-append n.revisions (record { text = n.text; at = at } ∷ []));
      })
      (λ _. Continues-refl n)

-- What a change of the notes keeps.
abbrev pub KeptBy : List Note → Option (List Note × Note × Bool) → Type 0
KeptBy ns none = Unit
KeptBy ns (some (ms, m, touched)) = Kept ns ms

pub change_first-KeptBy :
    (f : Note → Note × Bool) (id : Str) (ns : List Note)
    → ((n : Note) → Continues n (f n).0)
    → KeptBy ns (change_first f id ns)
unfolding change_first
change_first-KeptBy f id [] h = tt
change_first-KeptBy f id (n ∷ ns) h =
    if_cases (KeptBy (n ∷ ns)) (not (n.id == id)) _ _
      (λ _. later (change_first f id ns) (change_first-KeptBy f id ns h)) (λ _. (h n, Kept-refl ns))
  where
    later :
        (o : Option (List Note × Note × Bool))
        → KeptBy ns o
        → KeptBy
            (n ∷ ns)
            (elim o [ none ↦ none | some (ns', m, touched) ↦ some (n ∷ ns', m, touched) ])
    later none k = tt
    later (some (ms, m, touched)) k = (Continues-refl n, k)

-- The later case is the same one, with all its notes.
pub record IsSuccessor (c d : Case) : Type 0 where
  pub same_id : d.id ≡ c.id
  pub same_start : d.first_seen ≡ c.first_seen
  pub notes : Kept c.notes d.notes

pub IsSuccessor-refl : (c : Case) → IsSuccessor c c
IsSuccessor-refl c = record { same_id = refl; same_start = refl; notes = Kept-refl c.notes }

pub IsSuccessor-trans : (c d e : Case) → IsSuccessor c d → IsSuccessor d e → IsSuccessor c e
IsSuccessor-trans c d e f g = record {
  same_id = g.same_id ∙ f.same_id;
  same_start = g.same_start ∙ f.same_start;
  notes = Kept-trans c.notes d.notes e.notes f.notes g.notes;
}

pub with_notes-IsSuccessor :
    (c : Case) (now : Time) (o : Option (List Note × Note × Bool))
    → KeptBy c.notes o
    → IsSuccessor c (with_notes c now o)
with_notes-IsSuccessor c now none k = IsSuccessor-refl c
with_notes-IsSuccessor c now (some (ms, m, touched)) k = record {
  same_id = refl;
  same_start = refl;
  notes = k;
}

-- The case that the heap holds under a reference has a successor there.
abbrev pub Survives : Map Ref Case → Ref → Case → Type 0
Survives heap q c = (d : Case) × (get heap q ≡ some d) × IsSuccessor c d

pub change-Survives :
    (heap : Map Ref Case) (r q : Ref) (f : Case → Case) (c : Case)
    → ((d : Case) → IsSuccessor d (f d))
    → get heap q ≡ some c
    → Survives (change heap r f) q c
unfolding change
change-Survives heap r q f c h held = go (get heap r) refl
  where
    go :
        (o : Option Case)
        → get heap r ≡ o
        → Survives (elim o [ none ↦ heap | some d ↦ put heap r (f d) ]) q c
    go none e = (c, held, IsSuccessor-refl c)
    go (some d) e = elim (Bool-cases (r == q)) [
      | inl same ↦
          let d_is : some d ≡ some c = sym e ∙ ap (get heap) ((eq_iff r q).0 same) ∙ held in
          (
            f d,
            rw (get-put, same) refl,
            subst (λ (o : Option Case). IsSuccessor (or_else d o) (f d)) d_is (h d),
          )
      | inr other ↦ (c, rw (get-put, other) held, IsSuccessor-refl c)
    ]
      where
        or_else : Case → Option Case → Case
        or_else x none = x
        or_else x (some y) = y
