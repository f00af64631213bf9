-- ===== src/Guard.antt =====
-- pkg/aiguard/dlp.go: secrets and personal data in text that leaves for a model provider. What regexp finds
-- is an argument.
pub mod Luhn
pub mod Inline
mod Examples
use neurosentry.Common.{
  Bool, List, Option, Str, [], any, false, if◌then◌else◌, int_eq, is_empty, leb, length, ltb,
  nat_beq, nat_eq, none, not, some, str, str_eq, take, trim_space, true, ℕ, ◌%◌, ◌&&◌, ◌*◌, ◌++◌,
  ◌+◌, ◌-◌, ◌||◌, ◌∷◌,
}

abbrev pub SecretType : Type 0
SecretType = Str

-- dlpPattern: `find_all` is re.FindAllString(text, -1), and a nil `validate` is `none`.
pub record DlpPattern : Type 0 where
  pub typ : SecretType
  pub find_all : Str → List Str
  pub validate : Option (Str → Bool)

pub record DlpFinding : Type 0 where
  pub type : SecretType
  pub redacted : Str

pub record DlpResult : Type 0 where
  pub leaked : Bool
  pub findings : List DlpFinding

pub record SecretScanner : Type 0 where
  pub patterns : List DlpPattern

-- redact
redact : Str → Str
redact s =
    let t = trim_space s in if leb (length t) 6 then str "******" else take 4 t ++ str "******"

-- p.validate == nil || p.validate(m)
abbrev pub passes : Option (Str → Bool) → Str → Bool
passes none m = true
passes (some f) m = f m

-- The inner loop of Scan.
pub findings_of : DlpPattern → List Str → List DlpFinding
unfolding redact
findings_of p [] = []
findings_of p (m ∷ ms) =
    let rest = findings_of p ms in
    if not (passes p.validate m) then rest else record { type = p.typ; redacted = redact m } ∷ rest

-- The outer loop of Scan.
pub all_findings : List DlpPattern → Str → List DlpFinding
unfolding findings_of
all_findings [] text = []
all_findings (p ∷ ps) text = findings_of p (p.find_all text) ++ all_findings ps text

-- Scan
pub scan : SecretScanner → Str → DlpResult
unfolding all_findings
scan s text = record {
  leaked = ltb 0 (length (all_findings s.patterns text));
  findings = all_findings s.patterns text;
}

-- re.FindString: the first of what FindAllString finds, or the empty text.
abbrev pub first_of : List Str → Str
first_of [] = []
first_of (m ∷ ms) = m

-- AnyLeaked
pub any_leaked : SecretScanner → Str → Bool
any_leaked s text =
    any
      (λ p.
        not (is_empty (first_of (p.find_all text)))
        && passes p.validate (first_of (p.find_all text)))
      s.patterns

-- The digits of a text.
pub digits_of : Str → List ℕ
digits_of [] = []
digits_of (c ∷ s) =
    let rest = digits_of s in if leb b'0' c && leb c b'9' then (c - b'0') ∷ rest else rest

-- What a digit adds to the sum.
abbrev pub weighed : Bool → ℕ → ℕ
weighed double d = if double then (if ltb 9 (d * 2) then d * 2 - 9 else d * 2) else d

-- The loop of luhnValid from the last digit on: the digits come reversed.
pub luhn_sum : Bool → ℕ → List ℕ → ℕ
luhn_sum double sum [] = sum
luhn_sum double sum (d ∷ ds) = luhn_sum (not double) (sum + weighed double d) ds

abbrev pub reversed : List ℕ → List ℕ → List ℕ
reversed acc [] = acc
reversed acc (d ∷ ds) = reversed (d ∷ acc) ds

-- luhnValid
pub luhn_valid : Str → Bool
unfolding digits_of luhn_sum
luhn_valid s =
    let ds = digits_of s in
    if ltb (length ds) 13 || ltb 19 (length ds)
    then false
    else nat_beq (luhn_sum false 0 (reversed [] ds) % 10) 0
