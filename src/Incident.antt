-- ===== src/Incident.antt =====
-- pkg/incident/incident.go: the store of cases. `cases` and `byID` share pointers, so a case lives in a
-- heap under a reference, and both hold references. A method that reads the clock takes the values of its
-- reads in their order, and a random identifier is an argument.
pub mod Notes
pub mod Custody
pub mod Order
pub mod History
pub mod Opening
pub mod Runs
pub mod Index
pub mod Found
pub mod Isolation
mod Examples
use neurosentry.Common.{
  Bool, Duration, List, Map, Option, Str, Time, [], delete, false, get, if◌then◌else◌, inc64,
  int_eq, kept, leb_ℤ, length, ltb, nat_eq, none, not, pos, put, second, some, str, str_eq, sub,
  true, ℕ, ℤ, ◌&&◌, ◌*◌, ◌++◌, ◌+◌, ◌==◌, ◌||◌, ◌∷◌,
}
use neurosentry.Correlate.{Finding, Signal}
use neurosentry.Incident.Notes.{Note, delete_in, edit_in, new_note, restore_in}

abbrev pub Status : Type 0
Status = Str

abbrev pub status_open : Status
status_open = str "open"

abbrev pub status_acknowledged : Status
status_acknowledged = str "acknowledged"

abbrev pub status_resolved : Status
status_resolved = str "resolved"

abbrev pub status_false : Status
status_false = str "false_positive"

-- validStatus
pub valid_status : Status → Bool
valid_status s =
    s == status_open || (s == status_acknowledged || (s == status_resolved || s == status_false))

pub record Case : Type 0 where
  pub id : Str
  pub rule_id : Str
  pub rule : Str
  pub severity : Str
  pub technique : Str
  pub mitre_attack : Str
  pub description : Str
  pub pid : ℤ
  pub tenant_id : Str
  pub chain : List Signal
  pub count : ℤ
  pub status : Status
  pub assignee : Str
  pub notes : List Note
  pub first_seen : Time
  pub last_seen : Time
  pub updated_at : Time

abbrev pub Ref : Type 0
Ref = ℕ

pub record Store : Type 0 where
  pub heap : Map Ref Case
  pub next_ref : Ref
  pub cases : List Ref
  pub by_id : Map Str Ref
  pub max_cases : ℕ
  pub group_window : Duration

-- NewStore
pub new : Store
new = record {
  heap = [];
  next_ref = 0;
  cases = [];
  by_id = [];
  max_cases = 2000;
  group_window = pos (10 * 60 * second);
}

-- The condition of Add's loop.
pub groups : Time → Duration → Finding → Case → Bool
groups now window f c =
    c.rule_id == f.rule_id
    && (c.pid == f.pid
        && ((c.status == status_open || c.status == status_acknowledged)
            && leb_ℤ (sub now c.last_seen) window))

abbrev pub groups_at : Time → Duration → Finding → Option Case → Bool
groups_at now window f none = false
groups_at now window f (some c) = groups now window f c

-- The loop of Add: the first active case of the same rule and process.
pub find_group : Time → Duration → Finding → Map Ref Case → List Ref → Option Ref
unfolding groups
find_group now window f heap [] = none
find_group now window f heap (r ∷ rs) =
    let rest = find_group now window f heap rs in
    if groups_at now window f (get heap r) then some r else rest

abbrev pub bumped : Time → Case → Case
bumped now c = record c { count = inc64 c.count; last_seen = now; updated_at = now }

abbrev pub opened_case : Time → Str → Finding → Case
opened_case now id f = record {
  id = id;
  rule_id = f.rule_id;
  rule = f.rule;
  severity = f.severity;
  technique = f.technique;
  mitre_attack = [];
  description = f.description;
  pid = f.pid;
  tenant_id = f.tenant_id;
  chain = f.chain;
  count = pos 1;
  status = status_open;
  assignee = [];
  notes = [];
  first_seen = now;
  last_seen = now;
  updated_at = now;
}

-- A change through a pointer.
pub change : Map Ref Case → Ref → (Case → Case) → Map Ref Case
change heap r f = elim (get heap r) [ none ↦ heap | some c ↦ put heap r (f c) ]

abbrev pub forget_case : Map Str Ref → Option Case → Map Str Ref
forget_case by_id none = by_id
forget_case by_id (some c) = delete by_id c.id

-- `if len(s.cases) > s.maxCases { drop := s.cases[0]; ... }`: the heap, the list and the index after it.
-- Nothing of the store leads to the dropped case any more, so it goes out of the heap.
pub drop_oldest : ℕ → Map Ref Case → List Ref → Map Str Ref → Map Ref Case × List Ref × Map Str Ref
drop_oldest max heap [] by_id = (heap, [], by_id)
drop_oldest max heap (r ∷ rs) by_id =
    if ltb max (length (r ∷ rs))
    then (delete heap r, rs, forget_case by_id (get heap r))
    else (heap, r ∷ rs, by_id)

-- The part of Add that opens a case.
pub open_case : Store → Time → Str → Finding → Store
unfolding drop_oldest
open_case s now id f =
    let heap = put s.heap s.next_ref (opened_case now id f) in
    let kept =
      drop_oldest s.max_cases heap (s.cases ++ s.next_ref ∷ []) (put s.by_id id s.next_ref) in
    record s { heap = kept.0; next_ref = s.next_ref + 1; cases = kept.1; by_id = kept.2 }

-- Add: the store and the case that it returns.
pub add : Store → Time → Str → Finding → Store × Ref
unfolding find_group open_case change
add s now id f = elim (find_group now s.group_window f s.heap s.cases) [
  | some r ↦ (record s { heap = change s.heap r (bumped now) }, r)
  | none ↦ (open_case s now id f, s.next_ref)
]

-- Get
pub get_case : Store → Str → Option Case
get_case s id = elim (get s.by_id id) [ none ↦ none | some r ↦ get s.heap r ]

-- `c, ok := s.byID[id]`, and a change of the case where there is one.
pub on_case : Store → Str → (Case → Case) → Store × Bool
unfolding change
on_case s id f = elim (get s.by_id id) [
  | none ↦ (s, false)
  | some r ↦ (record s { heap = change s.heap r f }, true)
]

-- SetStatus
pub set_status : Store → Str → Status → Time → Store × Bool
unfolding on_case valid_status
set_status s id status now =
    if not (valid_status status)
    then (s, false)
    else on_case s id (λ c. record c { status = status; updated_at = now })

-- Assign
pub assign : Store → Str → Str → Time → Store × Bool
unfolding on_case
assign s id assignee now = on_case s id (λ c. record c { assignee = assignee; updated_at = now })

-- AddNote
pub add_note : Store → Str → Str → Str → Str → Time → Time → Store × Option Note
unfolding on_case
add_note s id note_id author text at now =
    let n = new_note note_id author text at in
    let r = on_case s id (λ c. record c { notes = c.notes ++ n ∷ []; updated_at = now }) in
    (r.0, if r.1 then some n else none)

-- The notes that a method leaves, the note that it returns, and whether it touched the case's time.
abbrev pub with_notes : Case → Time → Option (List Note × Note × Bool) → Case
with_notes c now none = c
with_notes c now (some (ns, n, touched)) = record c {
  notes = ns;
  updated_at = if touched then now else c.updated_at;
}

abbrev pub note_of : Option (List Note × Note × Bool) → Option Note
note_of none = none
note_of (some (ns, n, touched)) = some n

-- The shape of EditNote, DeleteNote and RestoreNote, for what each does to the notes of the case.
pub on_notes :
    (List Note → Option (List Note × Note × Bool)) → Store → Str → Time → Store × Option Note
unfolding on_case get_case
on_notes f s id now = (
  (on_case s id (λ c. with_notes c now (f c.notes))).0,
  elim (get_case s id) [ none ↦ none | some c ↦ note_of (f c.notes) ],
)

-- EditNote: it reads the clock for the revision, the note and the case.
pub edit_note : Store → Str → Str → Str → Str → Time → Time → Time → Store × Option Note
unfolding on_notes edit_in
edit_note s id note_id editor text at edited now =
    on_notes (edit_in note_id editor text at edited) s id now

-- DeleteNote
pub delete_note : Store → Str → Str → Str → Time → Time → Store × Option Note
unfolding on_notes delete_in
delete_note s id note_id actor at now = on_notes (delete_in note_id actor at) s id now

-- RestoreNote
pub restore_note : Store → Str → Str → Time → Store × Option Note
unfolding on_notes restore_in
restore_note s id note_id now = on_notes (restore_in note_id) s id now

pub record Stats : Type 0 where
  pub total : ℕ
  pub open_cases : ℕ
  pub acknowledged : ℕ
  pub resolved : ℕ
  pub false_positive : ℕ

-- The switch of Stats.
abbrev pub tally : Stats → Option Case → Stats
tally st none = st
tally st (some c) =
    if c.status == status_open
    then record st { open_cases = st.open_cases + 1 }
    else if c.status == status_acknowledged
    then record st { acknowledged = st.acknowledged + 1 }
    else if c.status == status_resolved
    then record st { resolved = st.resolved + 1 }
    else if c.status == status_false
    then record st { false_positive = st.false_positive + 1 }
    else st

abbrev pub tally_all : Map Ref Case → Stats → List Ref → Stats
tally_all heap st [] = st
tally_all heap st (r ∷ rs) = tally_all heap (tally st (get heap r)) rs

-- Stats
stats : Store → Stats
stats s =
    tally_all s.heap
      (record {
        total = length s.cases;
        open_cases = 0;
        acknowledged = 0;
        resolved = 0;
        false_positive = 0;
      })
      s.cases
