-- ===== src/Replay/Groups.antt =====
-- pkg/replay/auditd.go: ReadAuditd, which groups the lines by their serial and makes events of the groups.
use neurosentry.Common.{
  Bool, List, Map, Option, Str, Time, [], arith, atoi, false, get, has, if_cases, if◌then◌else◌,
  int_eq, is_empty, is_zero, length, length-append, nat_eq, none, pos, put, refl, some, str, str_eq,
  subst, suc, true, ℤ, ◌++◌, ◌+◌, ◌==◌, ◌||◌, ◌∷◌, ◌≡◌, ◌≤◌,
}
use neurosentry.Correlate.Predicates.{layer_kernel_file, layer_kernel_net, layer_kernel_proc}
use neurosentry.Replay.{
  AuditLine, is_connect_syscall, is_exec_syscall, is_open_syscall, line_panic, parse_audit_line,
  parsed, unparsable, unquote,
}

pub record Event : Type 0 where
  pub ts : Time
  pub pid : ℤ
  pub layer : Str
  pub kind : Str
  pub attrs : Map Str Str
  pub severity : Str

pub record Group : Type 0 where
  pub ts : Time
  pub fields : Map Str Str
  pub paths : List Str
  pub has_conn : Bool

pub record Groups : Type 0 where
  pub groups : Map Str Group
  pub order : List Str

-- The group of the serial, or a new one that begins at the time.
abbrev pub or_opened : Time → Option Group → Group
or_opened ts none = record { ts = ts; fields = []; paths = []; has_conn = false }
or_opened ts (some g) = g

abbrev pub field : Map Str Str → Str → Str
field m key = or_text (get m key)
  where
    or_text : Option Str → Str
    or_text none = []
    or_text (some s) = s

-- for k, v := range kv { m[k] = v }
put_over : Map Str Str → Map Str Str → Map Str Str
put_over m [] = m
put_over m ((k, v) ∷ kv) = put_over (put m k v) kv

-- The switch on the type of a line.
grown : Str → Time → Map Str Str → Group → Group
unfolding put_over
grown typ ts kv g =
    if typ == str "SYSCALL"
    then record g { fields = put_over g.fields kv; ts = if is_zero ts then g.ts else ts }
    else if typ == str "PATH"
    then (if is_empty (field kv (str "name"))
        then g
        else record g { paths = g.paths ++ field kv (str "name") ∷ [] })
    else if typ == str "SOCKADDR" || typ == str "NETFILTER_PKT"
    then record g { has_conn = true }
    else g

-- The body of the loop over the lines.
add_line : Groups → AuditLine → Option Groups
unfolding grown
add_line s unparsable = some s
add_line s line_panic = none
add_line s (parsed typ serial ts kv) =
    if is_empty serial
    then some s
    else some (record {
      groups = put s.groups serial (grown typ ts kv (or_opened ts (get s.groups serial)));
      order = if has s.groups serial then s.order else s.order ++ serial ∷ [];
    })

-- The loop over the lines; `none` is a panic.
add_lines : (Str → Time) → Groups → List Str → Option Groups
unfolding add_line parse_audit_line
add_lines time_of s [] = some s
add_lines time_of s (line ∷ lines) = elim (add_line s (parse_audit_line time_of line)) [
  | none ↦ none
  | some t ↦ add_lines time_of t lines
]

abbrev pub put_some : Map Str Str → Str → Str → Map Str Str
put_some m key v = if is_empty v then m else put m key v

-- The event of a group, if it makes one. `atoi` is strconv.Atoi with its error dropped.
event_of : (Str → ℤ) → Group → Option Event
unfolding unquote is_exec_syscall is_open_syscall is_connect_syscall
event_of atoi g =
    let syscall = field g.fields (str "syscall") in
    let pid = atoi (field g.fields (str "pid")) in
    let comm = unquote (field g.fields (str "comm")) in
    let exe = unquote (field g.fields (str "exe")) in
    if is_exec_syscall syscall
    then some (record {
      ts = g.ts;
      pid = pid;
      layer = layer_kernel_proc;
      kind = str "exec";
      attrs = put_some (put_some [] (str "comm") comm) (str "path") exe;
      severity = [];
    })
    else if is_connect_syscall syscall || g.has_conn
    then some (record {
      ts = g.ts;
      pid = pid;
      layer = layer_kernel_net;
      kind = str "net_connect";
      attrs = put_some [] (str "comm") comm;
      severity = [];
    })
    else elim g.paths [
      | [] ↦ none
      | path ∷ more ↦
          if is_open_syscall syscall
          then some (record {
            ts = g.ts;
            pid = pid;
            layer = layer_kernel_file;
            kind = str "file_read";
            attrs = put_some (put [] (str "path") path) (str "comm") comm;
            severity = [];
          })
          else none
    ]

abbrev pub cons_event : Option Event → List Event → List Event
cons_event none es = es
cons_event (some e) es = e ∷ es

-- The loop over the serials.
events_of : (Str → ℤ) → Map Str Group → List Str → List Event
unfolding event_of
events_of atoi groups [] = []
events_of atoi groups (serial ∷ order) =
    cons_event (event_of atoi (or_opened (pos 0) (get groups serial))) (events_of atoi groups order)

-- ReadAuditd, for lines that the scanner can take: the events, or `none` for a panic.
read_auditd : (Str → Time) → (Str → ℤ) → List Str → Option (List Event)
unfolding add_lines events_of
read_auditd time_of atoi lines =
    elim (add_lines time_of (record { groups = []; order = [] }) lines) [
      | none ↦ none
      | some s ↦ some (events_of atoi s.groups s.order)
    ]

add_line-bound :
    (s t : Groups) (l : AuditLine) → add_line s l ≡ some t → length t.order ≤ length s.order + 1
unfolding add_line
add_line-bound s t unparsable h =
    subst (λ k. length k.order ≤ length s.order + 1) (same_groups h) (omega arith)
  where
    same_groups : {u : Groups} → some u ≡ some t → u ≡ t
    same_groups e = cc
add_line-bound s t line_panic h = cc
add_line-bound s t (parsed typ serial ts kv) h =
    if_cases (λ (o : Option Groups). o ≡ some t → Bounded) (is_empty serial) _ _
      (λ _ e. within e (omega arith))
      (λ _ e. within e (
        if_cases (λ (ps : List Str). length ps ≤ length s.order + 1) (has s.groups serial) _ _
          (λ _. omega arith) (λ _. omega (arith, length-append s.order (serial ∷ [])))))
      h
  where
    Bounded : Type 0
    Bounded = length t.order ≤ length s.order + 1

    within : {u : Groups} → some u ≡ some t → length u.order ≤ length s.order + 1 → Bounded
    within {u} e b = subst (λ k. length k.order ≤ length s.order + 1) (same e) b
      where
        same : {w : Groups} → some w ≡ some t → w ≡ t
        same f = cc

add_lines-bound :
    (time_of : Str → Time) (s t : Groups) (lines : List Str)
    → add_lines time_of s lines ≡ some t
    → length t.order ≤ length s.order + length lines
unfolding add_lines
add_lines-bound time_of s t [] h =
    subst (λ k. length k.order ≤ length s.order + 0) (same h) (omega arith)
  where
    same : {u : Groups} → some u ≡ some t → u ≡ t
    same e = cc
add_lines-bound time_of s t (line ∷ lines) h =
    go (add_line s (parse_audit_line time_of line)) refl
      (λ u e. add_lines-bound time_of u t lines e) h
  where
    go :
        (o : Option Groups)
        → add_line s (parse_audit_line time_of line) ≡ o
        → ((u : Groups)
            → add_lines time_of u lines ≡ some t
            → length t.order ≤ length u.order + length lines)
        → (elim o [ none ↦ none | some u ↦ add_lines time_of u lines ]) ≡ some t
        → length t.order ≤ length s.order + suc (length lines)
    go none e ih k = cc
    go (some u) e ih k = omega (arith, ih u k, add_line-bound s u (parse_audit_line time_of line) e)

length-events_of :
    (atoi : Str → ℤ) (groups : Map Str Group) (order : List Str)
    → length (events_of atoi groups order) ≤ length order
unfolding events_of
length-events_of atoi groups [] = omega arith
length-events_of atoi groups (serial ∷ order) =
    counted (event_of atoi (or_opened (pos 0) (get groups serial)))
      (length-events_of atoi groups order)
  where
    counted :
        (o : Option Event)
        → length (events_of atoi groups order) ≤ length order
        → length (cons_event o (events_of atoi groups order)) ≤ suc (length order)
    counted none h = omega (arith, h)
    counted (some e) h = omega (arith, h)

-- There are at most as many events as lines.
length-read_auditd :
    (time_of : Str → Time) (atoi : Str → ℤ) (lines : List Str) (es : List Event)
    → read_auditd time_of atoi lines ≡ some es
    → length es ≤ length lines
unfolding read_auditd
length-read_auditd time_of atoi lines es h =
    go (add_lines time_of (record { groups = []; order = [] }) lines) refl h
  where
    go :
        (o : Option Groups)
        → add_lines time_of (record { groups = []; order = [] }) lines ≡ o
        → (elim o [ none ↦ none | some s ↦ some (events_of atoi s.groups s.order) ]) ≡ some es
        → length es ≤ length lines
    go none e k = cc
    go (some s) e k =
        subst (λ fs. length fs ≤ length lines) (same k)
          (omega (
            arith,
            length-events_of atoi s.groups s.order,
            add_lines-bound time_of (record { groups = []; order = [] }) s lines e,
          ))
      where
        same : {fs : List Event} → some fs ≡ some es → fs ≡ es
        same f = cc
