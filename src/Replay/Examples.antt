-- ===== src/Replay/Examples.antt =====
-- Concrete runs of pkg/replay/auditd.go.
use neurosentry.Common.{
  List, Str, Time, [], has_prefix, index, int_eq, nat_eq, pos, put, refl, str, str_eq, trim_prefix,
  ◌∷◌, ◌≡◌,
}
use neurosentry.Replay.{
  body_of, cut, kv_value, line_panic, pairs_from, parse_audit_line, parse_kv, parse_message, parsed,
  skip_spaces, stamp_parts,
}
use neurosentry.Replay.Pairs.{parse_kv-print_kv, print_kv, put_all}

abbrev sh_pair : List (Str × Str)
sh_pair = (str "comm", str "sh -c") ∷ (str "exe", str "/bin/sh") ∷ []

parse_kv-print_kv_example : parse_kv (print_kv sh_pair) ≡ put_all [] sh_pair
parse_kv-print_kv_example = parse_kv-print_kv sh_pair (
  record {
    head = b'c';
    tail = str "omm";
    spelled = refl;
    unspaced = refl;
    keyed = (refl, (refl, (refl, (refl, tt))));
    unquoted = (refl, (refl, (refl, (refl, (refl, tt)))));
  },
  (
    record {
      head = b'e';
      tail = str "xe";
      spelled = refl;
      unspaced = refl;
      keyed = (refl, (refl, (refl, tt)));
      unquoted = (refl, (refl, (refl, (refl, (refl, (refl, (refl, tt)))))));
    },
    tt,
  ),
)

abbrev at_zero : Str → Time
at_zero s = pos 0

-- A line that ends with the stamp makes parseAuditLine slice out of range.
panic_run : parse_audit_line at_zero (str "type=EOE msg=audit(1:2)") ≡ line_panic
unfolding parse_audit_line parse_message body_of cut has_prefix index trim_prefix
panic_run = refl

good_run :
    parse_audit_line at_zero (str "type=PATH msg=audit(1:2): name=x")
    ≡ parsed (str "PATH") (str "2") (pos 0) ((str "name", str "x") ∷ [])
unfolding parse_audit_line parse_message body_of cut has_prefix index trim_prefix stamp_parts
    parse_kv pairs_from skip_spaces kv_value put
good_run = refl
