-- ===== src/Audit/Tamper.antt =====
-- pkg/audit/audit.go: which changes of a chain Verify finds.
use neurosentry.Common.{
  List, Option, Str, [], ap, arith, eq_iff, if◌then◌else◌, int_eq, map, nat_eq, none, not, pos,
  refl, some, str_eq, sym, ℕ, ◌++◌, ◌+◌, ◌==◌, ◌∙◌, ◌∷◌, ◌≡◌,
}
use neurosentry.Audit.{
  Codec, Entry, Fault, check_link, compute_hash, hash_mismatch, verify, verify_from,
}

module _ (codec : Codec) where
  -- What Verify finds right with an entry and its link.
  verify_from-head :
      (prev : Option Str) (i : ℕ) (e : Entry codec) (es : List (Entry codec))
      → verify_from codec prev i (e ∷ es) ≡ none
      → (e.hash ≡ compute_hash codec e)
        × (check_link codec prev i e ≡ none)
        × (verify_from codec (some e.hash) (i + 1) es ≡ none)
  unfolding verify_from
  verify_from-head prev i e es h =
      go (check_link codec prev i e) (ground (arith, eq_iff e.hash (compute_hash codec e))) h
    where
      go :
          (o : Option (Fault codec))
          → e.hash ≡ compute_hash codec e
          → (if not (e.hash == compute_hash codec e) then some (hash_mismatch i) else elim o [
            | some fault ↦ some fault
            | none ↦ verify_from codec (some e.hash) (i + 1) es
          ])
            ≡ none
          → (e.hash ≡ compute_hash codec e)
            × (o ≡ none)
            × (verify_from codec (some e.hash) (i + 1) es ≡ none)
      go none eq k = (eq, refl, ground (arith, (eq_iff e.hash (compute_hash codec e)).1 eq))
      go (some fault) eq k = ground (arith, (eq_iff e.hash (compute_hash codec e)).1 eq)

  linked :
      (i : ℕ) (e f : Entry codec) (ys : List (Entry codec))
      → check_link codec (some e.hash) i f ≡ none
      → f.prev_hash ≡ e.hash
  unfolding check_link
  linked i e f ys h = ground (arith, eq_iff f.prev_hash e.hash)

  -- Verify has tied an entry's hash to its content and to the next entry's link.
  verify_from-pair :
      (prev : Option Str) (i : ℕ) (xs : List (Entry codec)) (e f : Entry codec)
      (ys : List (Entry codec))
      → verify_from codec prev i (xs ++ e ∷ f ∷ ys) ≡ none
      → (e.hash ≡ compute_hash codec e) × (f.prev_hash ≡ e.hash)
  verify_from-pair prev i [] e f ys h =
      let one = verify_from-head prev i e (f ∷ ys) h in
      let two = verify_from-head (some e.hash) (i + 1) f ys one.2 in
      (one.0, linked (i + 1) e f ys two.1)
  verify_from-pair prev i (x ∷ xs) e f ys h =
      verify_from-pair (some x.hash) (i + 1) xs e f ys
        (verify_from-head prev i x (xs ++ e ∷ f ∷ ys) h).2

  -- An entry that has a successor can be exchanged without Verify noticing only for one whose content
  -- has the same hash, whatever its stored hash is.
  pub edit_needs_collision :
      (xs ys : List (Entry codec)) (e e' f : Entry codec)
      → verify codec (xs ++ e ∷ f ∷ ys) ≡ none
      → verify codec (xs ++ e' ∷ f ∷ ys) ≡ none
      → compute_hash codec e' ≡ compute_hash codec e
  unfolding verify
  edit_needs_collision xs ys e e' f h h' =
      let a = verify_from-pair none 0 xs e f ys h in
      let b = verify_from-pair none 0 xs e' f ys h' in sym b.0 ∙ sym b.1 ∙ a.1 ∙ a.0

  -- Entries between two others can be taken out without Verify noticing only if the content of the last
  -- of them has the same hash as that of the entry before them.
  pub removal_needs_collision :
      (xs mid ys : List (Entry codec)) (d e f : Entry codec)
      → verify codec ((xs ++ d ∷ mid) ++ e ∷ f ∷ ys) ≡ none
      → verify codec (xs ++ d ∷ f ∷ ys) ≡ none
      → compute_hash codec e ≡ compute_hash codec d
  unfolding verify
  removal_needs_collision xs mid ys d e f h h' =
      let a = verify_from-pair none 0 (xs ++ d ∷ mid) e f ys h in
      let b = verify_from-pair none 0 xs d f ys h' in sym a.0 ∙ sym a.1 ∙ b.1 ∙ b.0

  -- The entry without the fields that its hash leaves out.
  abbrev pub redacted : Entry codec → Entry codec
  redacted e = record e {
    severity_id = pos 0;
    category_uid = pos 0;
    class_uid = pos 0;
    actor = none;
    metadata = none;
  }

  -- What Verify returns for an entry and the rest of the entries.
  abbrev after : Option Str → ℕ → Entry codec → Option (Fault codec) → Option (Fault codec)
  after prev i e rest =
      if not (e.hash == compute_hash codec e)
      then some (hash_mismatch i)
      else elim (check_link codec prev i e) [ some fault ↦ some fault | none ↦ rest ]

  verify_from-redacted :
      (prev : Option Str) (i : ℕ) (es : List (Entry codec))
      → verify_from codec prev i (map redacted es) ≡ verify_from codec prev i es
  unfolding verify_from check_link compute_hash
  verify_from-redacted prev i [] = refl
  verify_from-redacted (some prev) i (e ∷ es) =
      ap (after (some prev) i e) (verify_from-redacted (some e.hash) (i + 1) es)
  verify_from-redacted none i (e ∷ es) =
      ap (after none i e) (verify_from-redacted (some e.hash) (i + 1) es)

  -- Verify does not see who acted: clearing the actor, the metadata and the severity and class numbers of
  -- every entry changes nothing for it.
  pub verify-redacted : (es : List (Entry codec)) → verify codec (map redacted es) ≡ verify codec es
  unfolding verify
  verify-redacted es = verify_from-redacted none 0 es
