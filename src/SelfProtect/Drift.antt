-- ===== src/SelfProtect/Drift.antt =====
-- pkg/selfprotect/selfprotect.go: what Verify reports.
use neurosentry.Common.{
  Bool, Bool-cases, List, Map, Option, Str, [], any, ap, arith, before, eq_iff, eq_refl, false, get,
  get-put-other, get-put-same, has, has-put, if_cases, if_related, if◌then◌else◌, inl, inr, int_eq,
  is_empty, is_some, nat_eq, none, not, put, refl, some, str_eq, subst, sym, true, ◌&&◌, ◌++◌, ◌==◌,
  ◌||◌, ◌∙◌, ◌∷◌, ◌≡◌,
}
use neurosentry.SelfProtect.{
  FileState, FileSystem, Guard, Tamper, cons_some, new, or_absent, protect, protect_path, stat_of,
  tamper_of, verify, verify_paths,
}

-- A file that was there is gone, cannot be read, or has another hash.
abbrev pub is_drift : FileState → FileState → Bool
is_drift base cur =
    base.exists && (not cur.exists || (is_empty cur.hash || not (cur.hash == base.hash)))

-- Some report is about the path.
abbrev pub reports : List Tamper → Str → Bool
reports ts p = any (λ t. t.path == p) ts

tamper_drift :
    (p q : Str) (base cur : FileState) (ts : List Tamper)
    → reports (cons_some (tamper_of p base cur) ts) q
      ≡ ((p == q && is_drift base cur) || reports ts q)
unfolding tamper_of
tamper_drift p q base cur ts = ground arith

-- The paths that are kept in order are those that the baseline has.
abbrev pub Ordered : Guard → Type 0
Ordered g = (p : Str) → any (λ q. q == p) g.order ≡ has g.baseline p

or_assoc : (a b c : Bool) → a || (b || c) ≡ (a || b) || c
or_assoc true b c = refl
or_assoc false b c = refl

or_comm : (a b : Bool) → a || (b || false) ≡ b || a
or_comm true true = refl
or_comm true false = refl
or_comm false true = refl
or_comm false false = refl

any-append :
    (p : Str) (xs ys : List Str)
    → any (λ q. q == p) (xs ++ ys) ≡ (any (λ q. q == p) xs || any (λ q. q == p) ys)
any-append p [] ys = refl
any-append p (x ∷ xs) ys = ap (λ b. x == p || b) (any-append p xs ys) ∙ or_assoc (x == p) _ _

-- A key of the map is found among the keys.
has_absorbs : (m : Map Str FileState) (p q : Str) → has m p ≡ true → has m q ≡ (p == q || has m q)
has_absorbs m p q h = elim (Bool-cases (p == q)) [
  | inl hit ↦ ap (has m) (sym ((eq_iff p q).0 hit)) ∙ h ∙ sym (ap (λ b. b || has m q) hit)
  | inr miss ↦ sym (ap (λ b. b || has m q) miss)
]

protect_path-Ordered :
    (fs : FileSystem) (g : Guard) (p : Str) → Ordered g → Ordered (protect_path fs g p)
unfolding protect_path
protect_path-Ordered fs g p h q =
    if_cases (λ (k : Guard). any (λ x. x == q) k.order ≡ has k.baseline q) (is_empty p) _ _
      (λ _. h q)
      (λ _.
        if_cases (λ (ps : List Str). any (λ x. x == q) ps ≡ has (put g.baseline p (stat_of fs p)) q)
          (has g.baseline p) _ _
          (λ known.
            h q ∙ has_absorbs g.baseline p q known ∙ sym (has-put g.baseline p q (stat_of fs p)))
          (λ _.
            any-append q g.order (p ∷ [])
            ∙ ap (λ b. b || (p == q || false)) (h q)
            ∙ or_comm (has g.baseline q) (p == q)
            ∙ sym (has-put g.baseline p q (stat_of fs p))))

protect-Ordered :
    (fs : FileSystem) (g : Guard) (ps : List Str) → Ordered g → Ordered (protect fs g ps)
unfolding protect
protect-Ordered fs g [] h = h
protect-Ordered fs g (p ∷ ps) h =
    protect-Ordered fs (protect_path fs g p) ps (protect_path-Ordered fs g p h)

baseline-protect_path :
    (fs : FileSystem) (g : Guard) (q p : Str)
    → get (protect_path fs g q).baseline p
      ≡ (if q == p && not (is_empty p) then some (stat_of fs p) else get g.baseline p)
unfolding protect_path
baseline-protect_path fs g q p = elim (Bool-cases (q == p)) [
  | inl hit ↦
      subst
        (λ k.
          get (protect_path fs g k).baseline p
          ≡ (if k == p && not (is_empty p) then some (stat_of fs p) else get g.baseline p))
        (sym ((eq_iff q p).0 hit)) same
  | inr miss ↦
      if_cases (λ (k : Guard). get k.baseline p ≡ chosen (q == p)) (is_empty q) _ _
        (λ _. sym (ap chosen miss))
        (λ _. get-put-other g.baseline q p (stat_of fs q) miss ∙ sym (ap chosen miss))
]
  where
    chosen : Bool → Option FileState
    chosen b = if b && not (is_empty p) then some (stat_of fs p) else get g.baseline p

    same : get (protect_path fs g p).baseline p ≡ chosen (p == p)
    same =
        if_related (λ (k : Guard) (o : Option FileState). get k.baseline p ≡ o) (is_empty p)
          (is_empty p) _ _ (get g.baseline p) (some (stat_of fs p)) refl (λ _. refl)
          (λ _. get-put-same g.baseline p (stat_of fs p))
        ∙ picked (is_empty p)
        ∙ sym (ap chosen (eq_refl p))
      where
        picked :
            (e : Bool)
            → (if e then get g.baseline p else some (stat_of fs p))
              ≡ (if not e then some (stat_of fs p) else get g.baseline p)
        picked true = refl
        picked false = refl

merged :
    (a c n : Bool) (x y : Option FileState)
    → (if a && n then x else (if c && n then x else y)) ≡ (if (c || a) && n then x else y)
merged true true true x y = refl
merged true true false x y = refl
merged true false true x y = refl
merged true false false x y = refl
merged false true n x y = refl
merged false false n x y = refl

-- What is known of a path after Protect on a list of paths at once.
baseline-protect :
    (fs : FileSystem) (g : Guard) (ps : List Str) (p : Str)
    → get (protect fs g ps).baseline p
      ≡ (if any (λ q. q == p) ps && not (is_empty p) then some (stat_of fs p) else get g.baseline p)
unfolding protect
baseline-protect fs g [] p = refl
baseline-protect fs g (q ∷ ps) p =
    baseline-protect fs (protect_path fs g q) ps p
    ∙ ap (λ o. if any (λ x. x == p) ps && not (is_empty p) then some (stat_of fs p) else o)
        (baseline-protect_path fs g q p)
    ∙ merged (any (λ x. x == p) ps) (q == p) (not (is_empty p)) (some (stat_of fs p))
        (get g.baseline p)

distributed :
    (hit a d e : Bool) → (hit ≡ true → d ≡ e) → ((hit && d) || (a && e)) ≡ ((hit || a) && e)
distributed true true true e h = h refl
distributed true true false e h = refl
distributed true false true e h = h refl
distributed true false false e h = h refl
distributed false a d e h = refl

reports-paths :
    (fs : FileSystem) (g : Guard) (ps : List Str) (p : Str)
    → reports (verify_paths fs g ps) p
      ≡ (any (λ q. q == p) ps && is_drift (or_absent (get g.baseline p)) (stat_of fs p))
unfolding verify_paths
reports-paths fs g [] p = refl
reports-paths fs g (q ∷ ps) p =
    tamper_drift q p (or_absent (get g.baseline q)) (stat_of fs q) (verify_paths fs g ps)
    ∙ ap (λ b. (q == p && drift q) || b) (reports-paths fs g ps p)
    ∙ distributed (q == p) (any (λ x. x == p) ps) (drift q) (drift p)
        (λ hit. ap drift ((eq_iff q p).0 hit))
  where
    drift : Str → Bool
    drift k = is_drift (or_absent (get g.baseline k)) (stat_of fs k)

drift_known :
    (c : Bool) (base cur : FileState)
    → (is_some (if c then some base else none)
        && is_drift (or_absent (if c then some base else none)) cur)
      ≡ (c && is_drift base cur)
drift_known true base cur = refl
drift_known false base cur = refl

-- After Protect on some paths, at any later time Verify reports a path exactly if it was among them, is
-- not empty, had a file then, and this file is now gone, cannot be read, or has another hash.
pub verify-protect :
    (before after : FileSystem) (ps : List Str) (p : Str)
    → reports (verify after (protect before new ps)) p ≡ (
        (any (λ q. q == p) ps && not (is_empty p)) && is_drift (stat_of before p) (stat_of after p))
unfolding verify get
verify-protect before after ps p =
    reports-paths after g g.order p
    ∙ ap (λ b. b && is_drift (or_absent (get g.baseline p)) (stat_of after p))
        (protect-Ordered before new ps (λ q. refl) p)
    ∙ ap (λ o. is_some o && is_drift (or_absent o) (stat_of after p))
        (baseline-protect before new ps p)
    ∙ drift_known (any (λ q. q == p) ps && not (is_empty p)) (stat_of before p) (stat_of after p)
  where
    g : Guard
    g = protect before new ps
