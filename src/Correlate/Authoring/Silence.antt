-- ===== src/Correlate/Authoring/Silence.antt =====
-- pkg/correlate/suppress.go: adding and removing suppressions.
use mathlib.Core.Bool.{false≢true}
use mathlib.Core.Option
use neurosentry.Common.{
  Bool, Map, Option, Str, [], ap, arith, delete, eq_refl, false, get, has, has-put, if_cases,
  if◌then◌else◌, inc64, int_eq, is_empty, is_some, nat_eq, none, not, pos, put, refl, some, str,
  str_eq, true, ◌++◌, ◌==◌, ◌||◌, ◌∷◌, ◌≡◌,
}
use neurosentry.Correlate.{Finding}
use neurosentry.Correlate.Engine.{Correlator, Suppression, SuppressionSpec, suppressed, suppresses}
use neurosentry.Correlate.Authoring.{add_suppression, remove_suppression}

delete-absent : (m : Map Str Suppression) (k : Str) → has m k ≡ false → delete m k ≡ m
unfolding get delete
delete-absent [] k h = refl
delete-absent ((j, v) ∷ m) k h = ground (arith, delete-absent m k)

delete-put :
    (m : Map Str Suppression) (k : Str) (s : Suppression)
    → has m k ≡ false
    → delete (put m k s) k ≡ m
unfolding get put delete
delete-put [] k s h = rw (eq_refl k) refl
delete-put ((j, v) ∷ m) k s h = ground (arith, delete-put m k s)

suppressed-put :
    (m : Map Str Suppression) (k : Str) (s : Suppression) (f : Finding)
    → has m k ≡ false
    → suppresses s f ≡ true
    → is_some (suppressed (put m k s) f) ≡ true
unfolding suppressed get put
suppressed-put [] k s f h hit = rw hit refl
suppressed-put ((j, v) ∷ m) k s f h hit =
    if_cases (λ (n : Map Str Suppression). is_some (suppressed n f) ≡ true) (j == k) _ _
      (λ same. absurd (false≢true (ground (arith, h, same))))
      (λ _. later (suppressed (put m k s) f) (suppressed-put m k s f (ground arith) hit))
  where
    later :
        (o : Option (Map Str Suppression))
        → is_some o ≡ true
        → is_some (
            if suppresses v f
            then some ((j, record v { matched = inc64 v.matched }) ∷ put m k s)
            else Option.map (λ n. (j, v) ∷ n) o)
          ≡ true
    later none e = cc
    later (some n) e =
        if_cases (λ (r : Option (Map Str Suppression)). is_some r ≡ true) (suppresses v f) _ _
          (λ _. refl) (λ _. refl)

remove-put :
    (c : Correlator) (id : Str) (s : Suppression)
    → has c.suppressions id ≡ false
    → remove_suppression (record c { suppressions = put c.suppressions id s }) id ≡ (c, true)
unfolding remove_suppression
remove-put c id s h =
    if_cases (λ (r : Correlator × Bool). r ≡ (c, true)) (not (has (put c.suppressions id s) id)) _ _
      (λ gone.
        absurd (false≢true (ground (arith, has-put c.suppressions id id s, eq_refl id, gone))))
      (λ _. ap (λ m. (record c { suppressions = m }, true)) (delete-put c.suppressions id s h))

module _ (compile_re : Str → Option (Str → Bool)) (c : Correlator) (fresh : Str)
    (spec : SuppressionSpec) where
  abbrev pub installed : Str → (Str → Bool) → Suppression
  installed id re = record { spec = record spec { id = id }; re = re; matched = pos 0 }

  -- Adding a suppression is refused, or puts it under a new identifier.
  abbrev Added : Correlator × Option Str → Type 0
  Added (d, none) = d ≡ c
  Added (d, some id) =
      (re : Str → Bool) × (compile_re spec.attr_pattern ≡ some re)
      × (has c.suppressions id ≡ false)
      × (d ≡ record c { suppressions = put c.suppressions id (installed id re) })

  add_suppression-Added : Added (add_suppression compile_re c fresh spec)
  unfolding add_suppression
  add_suppression-Added =
      if_cases Added (is_empty spec.attr_key || is_empty spec.attr_pattern) _ _ (λ _. refl)
        (λ _. compiled (compile_re spec.attr_pattern) refl)
    where
      id : Str
      id = if is_empty spec.id then str "NS-SUP-" ++ fresh else spec.id

      tried : Option (Str → Bool) → Correlator × Option Str
      tried o = elim o [
        | none ↦ (c, none)
        | some re ↦
            if has c.suppressions id
            then (c, none)
            else (record c { suppressions = put c.suppressions id (installed id re) }, some id)
      ]

      compiled : (o : Option (Str → Bool)) → compile_re spec.attr_pattern ≡ o → Added (tried o)
      compiled none e = refl
      compiled (some re) e =
          if_cases Added (has c.suppressions id) _ _ (λ _. refl) (λ new_. (re, e, new_, refl))

  -- A suppression that was added silences every finding that its test matches, and removing it leaves the
  -- engine as it was before.
  pub add_suppression_lem :
      (id : Str) (re : Str → Bool) (f : Finding)
      → (add_suppression compile_re c fresh spec).1 ≡ some id
      → compile_re spec.attr_pattern ≡ some re
      → suppresses (installed id re) f ≡ true
      → (is_some (suppressed (add_suppression compile_re c fresh spec).0.suppressions f) ≡ true)
        × (remove_suppression (add_suppression compile_re c fresh spec).0 id ≡ (c, true))
  add_suppression_lem id re f done e hit =
      go (add_suppression compile_re c fresh spec) add_suppression-Added done
    where
      go :
          (r : Correlator × Option Str)
          → Added r
          → r.1 ≡ some id
          → (is_some (suppressed (r.0).suppressions f) ≡ true)
            × (remove_suppression r.0 id ≡ (c, true))
      go (d, none) a done = cc
      go (d, some id') (re', e', new_, d_is) done =
          let same_id : id' ≡ id = cc in
          let same_re : re' ≡ re = cc in
          (
            rw d_is (
                suppressed-put c.suppressions id' (installed id' re') f new_
                  (rw (same_id, same_re) hit)),
            rw (d_is, ← same_id) (remove-put c id' (installed id' re') new_),
          )
