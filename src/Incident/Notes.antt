-- ===== src/Incident/Notes.antt =====
-- pkg/incident/incident.go: the notes of a case.
use neurosentry.Common.{
  Bool, List, Option, Str, Time, [], false, if◌then◌else◌, int_eq, nat_eq, none, not, pos, some,
  str_eq, true, ◌++◌, ◌==◌, ◌∷◌,
}

pub record NoteRevision : Type 0 where
  pub text : Str
  pub at : Time

pub record Note : Type 0 where
  pub id : Str
  pub author : Str
  pub text : Str
  pub at : Time
  pub edited_at : Time
  pub edited_by : Str
  pub revisions : List NoteRevision
  pub deleted : Bool
  pub deleted_at : Time
  pub deleted_by : Str

-- Note{ID: id, Author: author, Text: text, At: at}
abbrev pub new_note : Str → Str → Str → Time → Note
new_note id author text at = record {
  id = id;
  author = author;
  text = text;
  at = at;
  edited_at = pos 0;
  edited_by = [];
  revisions = [];
  deleted = false;
  deleted_at = pos 0;
  deleted_by = [];
}

-- The loop over a case's notes: the first with the identifier is changed by `f`, which says whether it
-- touches the case's time.
unfoldable pub change_first :
    (Note → Note × Bool) → Str → List Note → Option (List Note × Note × Bool)
change_first f id [] = none
change_first f id (n ∷ ns) =
    let rest = change_first f id ns in
    if not (n.id == id)
    then elim rest [ none ↦ none | some (ns', m, touched) ↦ some (n ∷ ns', m, touched) ]
    else some ((f n).0 ∷ ns, (f n).0, (f n).1)

abbrev pub revised : Str → Str → Time → Time → Note → Note × Bool
revised editor text at edited n =
    if not (n.text == text)
    then (
      record n {
        revisions = n.revisions ++ record { text = n.text; at = at } ∷ [];
        text = text;
        edited_at = edited;
        edited_by = editor;
      },
      true,
    )
    else (n, false)

-- The loop of EditNote
unfoldable pub edit_in :
    Str → Str → Str → Time → Time → List Note → Option (List Note × Note × Bool)
unfolding change_first
edit_in id editor text at edited = change_first (revised editor text at edited) id

-- The loop of DeleteNote
unfoldable pub delete_in : Str → Str → Time → List Note → Option (List Note × Note × Bool)
unfolding change_first
delete_in id actor at =
    change_first (λ n. (record n { deleted = true; deleted_at = at; deleted_by = actor }, true)) id

-- The loop of RestoreNote
unfoldable pub restore_in : Str → List Note → Option (List Note × Note × Bool)
unfolding change_first
restore_in id =
    change_first (λ n. (record n { deleted = false; deleted_at = pos 0; deleted_by = [] }, true)) id
