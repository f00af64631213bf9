-- ===== src/Correlate/Authoring/Registry.antt =====
-- pkg/correlate/rulespec.go: the rules and what is keyed by their identifiers, over any authoring calls.
use neurosentry.Common.{
  All, All-append, All-imp, Bool, Duration, List, Str, [], any, ap, arith, eq_iff, false, get,
  get-delete, has, has-put, if_cases, if◌then◌else◌, int_eq, ltb_ℤ, nat_eq, not, put, refl, str_eq,
  subst, sym, true, ◌++◌, ◌==◌, ◌||◌, ◌∙◌, ◌∷◌, ◌≡◌,
}
use neurosentry.Correlate.{Rule}
use neurosentry.Correlate.Engine.{Correlator, or_false}
use neurosentry.Correlate.Authoring.{drop_rule, remove_rule, replace_rule, wider}

-- A rule of the list has the identifier.
abbrev pub id_in : Str → List Rule → Bool
id_in id rs = any (λ (r : Rule). r.id == id) rs

abbrev pub UniqueIds : List Rule → Type 0
UniqueIds [] = Unit
UniqueIds (r ∷ rs) = (id_in r.id rs ≡ false) × UniqueIds rs

-- No rule's window is wider than `w`.
abbrev pub Within : Duration → List Rule → Type 0
Within w = All (λ (r : Rule). ltb_ℤ w r.window ≡ false)

pub record Registered (c : Correlator) : Type 0 where
  pub listed : (id : Str) → has c.enabled id ≡ id_in id c.rules
  pub unique : UniqueIds c.rules
  pub wide : Within c.max_window c.rules

same_sym : (a b : Str) → (a == b) ≡ (b == a)
same_sym a b = ground (arith, eq_iff a b, eq_iff b a)

id_in-append :
    (id : Str) (rs : List Rule) (r : Rule) → id_in id (rs ++ r ∷ []) ≡ r.id == id || id_in id rs
id_in-append id [] r = refl
id_in-append id (x ∷ rs) r = ground (arith, id_in-append id rs r)

append-UniqueIds :
    (rs : List Rule) (r : Rule) → id_in r.id rs ≡ false → UniqueIds rs → UniqueIds (rs ++ r ∷ [])
append-UniqueIds [] r h u = (refl, tt)
append-UniqueIds (x ∷ rs) r h u = (
  ground (arith, id_in-append x.id rs r, same_sym r.id x.id, u.0, h),
  append-UniqueIds rs r (ground (arith, h)) u.1,
)

id_in-drop :
    (id k : Str) (rs : List Rule)
    → UniqueIds rs
    → id_in id (drop_rule k rs) ≡ (if k == id then false else id_in id rs)
unfolding drop_rule
id_in-drop id k [] u = ground arith
id_in-drop id k (r ∷ rs) u =
    ground (arith, id_in-drop id k rs u.1, u.0, eq_iff r.id k, eq_iff r.id id, eq_iff k id)

drop-UniqueIds : (k : Str) (rs : List Rule) → UniqueIds rs → UniqueIds (drop_rule k rs)
unfolding drop_rule
drop-UniqueIds k [] u = tt
drop-UniqueIds k (r ∷ rs) u =
    if_cases UniqueIds (r.id == k) _ _ (λ _. u.1)
      (λ _. (ground (arith, id_in-drop r.id k rs u.1, u.0), drop-UniqueIds k rs u.1))

drop-Within : (w : Duration) (k : Str) (rs : List Rule) → Within w rs → Within w (drop_rule k rs)
unfolding drop_rule
drop-Within w k [] h = tt
drop-Within w k (r ∷ rs) h =
    if_cases (Within w) (r.id == k) _ _ (λ _. h.1) (λ _. (h.0, drop-Within w k rs h.1))

id_in-replace :
    (id k : Str) (new_ : Rule) (rs : List Rule)
    → new_.id ≡ k
    → id_in id (replace_rule k new_ rs) ≡ id_in id rs
unfolding replace_rule
id_in-replace id k new_ [] e = refl
id_in-replace id k new_ (r ∷ rs) e = ground (arith, id_in-replace id k new_ rs e, eq_iff r.id k, e)

replace-UniqueIds :
    (k : Str) (new_ : Rule) (rs : List Rule)
    → new_.id ≡ k
    → UniqueIds rs
    → UniqueIds (replace_rule k new_ rs)
unfolding replace_rule
replace-UniqueIds k new_ [] e u = tt
replace-UniqueIds k new_ (r ∷ rs) e u =
    if_cases UniqueIds (r.id == k) _ _
      (λ same. (subst (λ i. id_in i rs ≡ false) ((eq_iff r.id k).0 same ∙ sym e) u.0, u.1))
      (λ _. (id_in-replace r.id k new_ rs e ∙ u.0, replace-UniqueIds k new_ rs e u.1))

replace-Within :
    (w : Duration) (k : Str) (new_ : Rule) (rs : List Rule)
    → ltb_ℤ w new_.window ≡ false
    → Within w rs
    → Within w (replace_rule k new_ rs)
unfolding replace_rule
replace-Within w k new_ [] n h = tt
replace-Within w k new_ (r ∷ rs) n h =
    if_cases (Within w) (r.id == k) _ _ (λ _. (n, h.1))
      (λ _. (h.0, replace-Within w k new_ rs n h.1))

not_before_trans : (u w x : Duration) → ltb_ℤ w u ≡ false → ltb_ℤ u x ≡ false → ltb_ℤ w x ≡ false
not_before_trans u w x h k = ground arith

wider-least :
    (w : Duration) (r : Rule) → (ltb_ℤ (wider w r) w ≡ false) × (ltb_ℤ (wider w r) r.window ≡ false)
wider-least w r = (ground arith, ground arith)

wider-Within : (w : Duration) (r : Rule) (rs : List Rule) → Within w rs → Within (wider w r) rs
wider-Within w r rs =
    All-imp rs (λ x h. not_before_trans w (wider w r) x.window (wider-least w r).0 h)

pub install-Registered :
    (c : Correlator) (rule : Rule)
    → has c.enabled rule.id ≡ false
    → Registered c
    → Registered (record c {
      rules = c.rules ++ rule ∷ [];
      enabled = put c.enabled rule.id true;
      custom = put c.custom rule.id true;
      max_window = wider c.max_window rule;
    })
install-Registered c rule new_ v = record {
  listed = λ id.
      has-put c.enabled rule.id id true
      ∙ ap (λ b. rule.id == id || b) (v.listed id)
      ∙ sym (id_in-append id c.rules rule);
  unique = append-UniqueIds c.rules rule (sym (v.listed rule.id) ∙ new_) v.unique;
  wide =
      All-append (λ (r : Rule). ltb_ℤ (wider c.max_window rule) r.window ≡ false) c.rules
        (rule ∷ []) (wider-Within c.max_window rule c.rules v.wide)
        ((wider-least c.max_window rule).1, tt);
}

pub swap-Registered :
    (c : Correlator) (id : Str) (rule : Rule)
    → Registered c
    → Registered (record c {
      rules = replace_rule id (record rule { id = id }) c.rules;
      max_window = wider c.max_window rule;
    })
swap-Registered c id rule v = record {
  listed = λ k. v.listed k ∙ sym (id_in-replace k id (record rule { id = id }) c.rules refl);
  unique = replace-UniqueIds id (record rule { id = id }) c.rules refl v.unique;
  wide =
      replace-Within (wider c.max_window rule) id (record rule { id = id }) c.rules
        (wider-least c.max_window rule).1 (wider-Within c.max_window rule c.rules v.wide);
}

pub remove-Registered : (c : Correlator) (id : Str) → Registered c → Registered (remove_rule c id).0
unfolding remove_rule
remove-Registered c id v =
    if_cases (λ (r : Correlator × Bool). Registered r.0) (not (or_false (get c.custom id))) _ _
      (λ _. v)
      (λ _. record {
        listed = λ k.
            ground (arith, get-delete c.enabled id k, v.listed k, id_in-drop k id c.rules v.unique);
        unique = drop-UniqueIds id c.rules v.unique;
        wide = drop-Within c.max_window id c.rules v.wide;
      })
