-- ===== src/Replay.antt =====
-- pkg/replay/auditd.go: reading the text log of auditd. Time stamps are what an argument makes of them.
pub mod Pairs
pub mod Groups
mod Examples
use neurosentry.Common.{
  Bool, Map, Option, Str, Time, [], drop, has_prefix, if◌then◌else◌, index, int_eq, length, nat_beq,
  nat_eq, none, not, pos, put, some, str, str_eq, suc, trim_left, trim_prefix, trim_right, zero, ℕ,
  ◌+◌, ◌==◌, ◌||◌, ◌∷◌,
}
use neurosentry.Correlate.Predicates.{}

-- What a line without its spaces in front of a key is.
pub skip_spaces : Str → Str
skip_spaces [] = []
skip_spaces (c ∷ s) = let rest = skip_spaces s in if nat_beq c b' ' then rest else c ∷ s

-- What is before and after the first such byte.
pub cut : ℕ → Str → Option (Str × Str)
cut b [] = none
cut b (c ∷ s) =
    let rest = cut b s in
    if nat_beq c b then some ([], s) else elim rest [ none ↦ none | some (x, y) ↦ some (c ∷ x, y) ]

-- The value after a key, and what follows it; `none` is a quote that does not end.
pub kv_value : Str → Option (Str × Str)
unfolding cut
kv_value [] = some ([], [])
kv_value (c ∷ s) = if nat_beq c b'"' then cut b'"' s else elim (cut b' ' (c ∷ s)) [
  | none ↦ some (c ∷ s, [])
  | some (v, rest) ↦ some (v, b' ' ∷ rest)
]

-- The loop of parseKV with the rounds that are left.
pub pairs_from : ℕ → Map Str Str → Str → Map Str Str
unfolding skip_spaces cut kv_value
pairs_from zero kv s = kv
pairs_from (suc n) kv s = elim (cut b'=' (skip_spaces s)) [
  | none ↦ kv
  | some (key, t) ↦ elim (kv_value t) [
    | none ↦ kv
    | some (v, rest) ↦ pairs_from n (put kv key v) rest
  ]
]

-- parseKV: each round takes at least the sign `=` off the text.
pub parse_kv : Str → Map Str Str
unfolding pairs_from
parse_kv s = pairs_from (length s) [] s

-- What parseAuditLine gives: an empty serial, the parts of a line, or a panic.
pub data AuditLine : Type 0 where
  unparsable line_panic : AuditLine
  parsed : Str → Str → Time → Map Str Str → AuditLine

-- The serial and the time of TS:SERIAL; without a colon both are zero.
pub stamp_parts : (Str → Time) → Str → Str × Time
unfolding cut
stamp_parts time_of stamp = elim (cut b':' stamp) [
  | none ↦ ([], pos 0)
  | some (secs, serial) ↦ (serial, time_of secs)
]

-- `rest[end+2:]`, for what follows the closing parenthesis: `none` is a slice out of range.
pub body_of : Str → Option Str
body_of [] = none
body_of (c ∷ s) = some s

-- The part of parseAuditLine that has the type and what follows `msg=audit(`.
pub parse_message : (Str → Time) → Str → Str → AuditLine
unfolding cut body_of stamp_parts parse_kv
parse_message time_of typ rest = elim (cut b')' rest) [
  | none ↦ unparsable
  | some (stamp, more) ↦ elim (body_of more) [
    | none ↦ line_panic
    | some body ↦
        parsed typ (stamp_parts time_of stamp).0 (stamp_parts time_of stamp).1 (parse_kv body)
  ]
]

-- parseAuditLine
pub parse_audit_line : (Str → Time) → Str → AuditLine
unfolding cut parse_message
parse_audit_line time_of line =
    if not (has_prefix line (str "type=")) then unparsable else elim (cut b' ' line) [
      | none ↦ unparsable
      | some (head, _) ↦ elim (index line (str "msg=audit(")) [
        | none ↦ unparsable
        | some i ↦
            parse_message time_of (trim_prefix head (str "type="))
              (drop (i + length (str "msg=audit(")) line)
      ]
    ]

-- unquote
pub unquote : Str → Str
unquote s = trim_right (λ c. nat_beq c b'"') (trim_left (λ c. nat_beq c b'"') s)

pub is_exec_syscall : Str → Bool
is_exec_syscall s = s == str "59" || s == str "322"

pub is_open_syscall : Str → Bool
is_open_syscall s = s == str "2" || (s == str "257" || s == str "0")

pub is_connect_syscall : Str → Bool
is_connect_syscall s = s == str "42" || (s == str "288" || s == str "290")
