-- ===== src/Policy/Load.antt =====
-- pkg/policy/loader.go: NewLoader and Load. Reading the file and decoding YAML are arguments.
use neurosentry.Common.{
  Bool, Option, Str, if◌then◌else◌, inl, inr, int_eq, is_empty, nat_eq, none, some, str, str_eq,
  ◌==◌, ◌⊎◌,
}
use neurosentry.Policy.{Fault, Policy, validate}
use neurosentry.Policy.Builtin.{default_policy}

-- NewLoader: the path that it keeps, for a file that is missing or not.
new_loader : Str → Bool → Str
new_loader path missing =
    if is_empty path then str "builtin" else if missing then str "builtin" else path

pub data LoadError : Type 0 where
  unreadable unparsable : LoadError
  invalid : Fault → LoadError

-- The part of Load that has a policy.
pub validated : Policy → LoadError ⊎ Policy
validated p = elim (validate p) [ some fault ↦ inl (invalid fault) | none ↦ inr p ]

-- Load: `bytes` is what the file holds, or `none` if it cannot be read.
unfoldable pub load : (Str → Option Policy) → Str → Option Str → LoadError ⊎ Policy
unfolding validated
load decode path bytes = if path == str "builtin" then inr default_policy else elim bytes [
  | none ↦ inl unreadable
  | some text ↦ elim (decode text) [ none ↦ inl unparsable | some p ↦ validated p ]
]
