-- ===== src/Incident/Opening.antt =====
-- pkg/incident/incident.go: what opening a case does, at the limit too.
use neurosentry.Common.{
  Bool-cases, List, Map, Option, Str, Time, [], ap, arith, delete, eq_iff, false, found-delete, get,
  get-delete-other, get-put, get-put-other, get-put-same, if_cases, inl, inr, int_eq, length, ltb,
  nat_eq, none, put, refl, some, str_eq, subst, suc, sym, ◌++◌, ◌+◌, ◌<◌, ◌==◌, ◌∙◌, ◌∷◌, ◌≡◌, ◌≤◌,
}
use neurosentry.Correlate.{Finding}
use neurosentry.Incident.Custody.{IsSuccessor-refl}
use neurosentry.Incident.Order.{length-refs, refs, refs-snoc}
use neurosentry.Incident.History.{Good, Inv, none-some}
use neurosentry.Incident.{Case, Ref, Store, drop_oldest, forget_case, open_case, opened_case}

module _ (s : Store) (now : Time) (id : Str) (f : Finding) (v : Inv s) where
  abbrev heap' : Map Ref Case
  heap' = put s.heap s.next_ref (opened_case now id f)

  abbrev by_id' : Map Str Ref
  by_id' = put s.by_id id s.next_ref

  -- The store with what `drop_oldest` leaves.
  abbrev left : Map Ref Case × List Ref × Map Str Ref → Store
  left k = record s { heap = k.0; next_ref = s.next_ref + 1; cases = k.1; by_id = k.2 }

  bounded' : (q : Ref) (c : Case) → get heap' q ≡ some c → (v.first ≤ q) × (q < s.next_ref + 1)
  bounded' q c e = elim (Bool-cases (s.next_ref == q)) [
    | inl same ↦
        let at_new = (eq_iff s.next_ref q).0 same in
        (omega (arith, at_new, v.ends), omega (arith, at_new))
    | inr other ↦
        let old = v.bounded q c (sym (get-put-other s.heap s.next_ref q _ other) ∙ e) in
        (old.0, omega (arith, old.1))
  ]

  still : (q : Ref) (c : Case) → get s.heap q ≡ some c → get heap' q ≡ some c
  still q c e =
      get-put-other s.heap s.next_ref q _ (ground (arith, eq_iff s.next_ref q, (v.bounded q c e).1))
      ∙ e

  named' :
      (other : Str) (r : Ref)
      → get by_id' other ≡ some r
      → (c : Case) × (get heap' r ≡ some c) × (c.id ≡ other)
  named' other r e = elim (Bool-cases (id == other)) [
    | inl same ↦
        let at_new : s.next_ref ≡ r =
          ground (arith, get-put s.by_id id other s.next_ref, e, same) in
        (
          opened_case now id f,
          ap (get heap') (sym at_new) ∙ get-put-same s.heap s.next_ref (opened_case now id f),
          (eq_iff id other).0 same,
        )
    | inr differs ↦
        let old = v.named other r (sym (get-put-other s.by_id id other s.next_ref differs) ∙ e) in
        (old.0, still r old.0 old.1, old.2)
  ]

  fits-Good : suc v.size ≤ s.max_cases → Good s (left (heap', refs v.first (suc v.size), by_id'))
  fits-Good fits = record {
    inv = record {
      first = v.first;
      size = suc v.size;
      listed = refl;
      ends = omega (arith, v.ends);
      few = fits;
      bounded = bounded';
      named = named';
    };
    capacity = refl;
    survives = λ q c e. inl (c, still q c e, IsSuccessor-refl c);
    stays = λ q out.
        absurd (omega (arith, fits, out.0, ap length v.listed, length-refs v.first v.size));
  }

  -- The identifier of the oldest case leads nowhere after it is dropped; the others lead where they led.
  named_dropped :
      (o : Option Case) (other : Str) (r : Ref)
      → get heap' v.first ≡ o
      → get (forget_case by_id' o) other ≡ some r
      → (c : Case) × (get (delete heap' v.first) r ≡ some c) × (c.id ≡ other)
  named_dropped none other r e k =
      let old = named' other r k in
      (old.0, get-delete-other heap' v.first r (apart old.0 old.1) ∙ old.1, old.2)
    where
      apart : (c : Case) → get heap' r ≡ some c → (v.first == r) ≡ false
      apart c h = elim (Bool-cases (v.first == r)) [
        | inl same ↦ absurd (none-some e (ap (get heap') ((eq_iff v.first r).0 same) ∙ h))
        | inr differs ↦ differs
      ]
  named_dropped (some d) other r e k =
      let kept = found-delete by_id' d.id other r k in
      let old = named' other r kept.1 in
      (old.0, get-delete-other heap' v.first r (apart old.0 old.1 old.2 kept.0) ∙ old.1, old.2)
    where
      id_or : Option Case → Str
      id_or none = d.id
      id_or (some c) = c.id

      apart :
          (c : Case)
          → get heap' r ≡ some c
          → c.id ≡ other
          → (d.id == other) ≡ false
          → (v.first == r) ≡ false
      apart c h named_ differs = elim (Bool-cases (v.first == r)) [
        | inr apart_ ↦ apart_
        | inl same ↦
            let one : d.id ≡ other =
              ap id_or (sym e ∙ ap (get heap') ((eq_iff v.first r).0 same) ∙ h) ∙ named_ in
            ground (arith, eq_iff d.id other, one, differs)
      ]

  drops-Good :
      s.max_cases ≡ v.size
      → Good s (
          left (
            delete heap' v.first,
            refs (suc v.first) v.size,
            forget_case by_id' (get heap' v.first),
          ))
  drops-Good full = record {
    inv = record {
      first = suc v.first;
      size = v.size;
      listed = refl;
      ends = omega (arith, v.ends);
      few = v.few;
      bounded = λ q c e.
          let kept = found-delete heap' v.first q c e in
          let old = bounded' q c kept.1 in (ground (arith, eq_iff v.first q, kept.0, old.0), old.1);
      named = λ other r e. named_dropped (get heap' v.first) other r refl e;
    };
    capacity = refl;
    survives = λ q c e. elim (Bool-cases (v.first == q)) [
      | inl same ↦ inr (
        length-refs (suc v.first) v.size ∙ sym full,
        omega (arith, (eq_iff v.first q).0 same, full, v.ends),
      )
      | inr differs ↦
          inl (c, get-delete-other heap' v.first q differs ∙ still q c e, IsSuccessor-refl c)
    ];
    stays = λ q out. (length-refs (suc v.first) v.size ∙ sym full, omega (arith, out.1));
  }

  pub open_case-Good : Good s (open_case s now id f)
  unfolding open_case drop_oldest refs
  open_case-Good =
      subst (λ rs. Good s (left (drop_oldest s.max_cases heap' rs by_id')))
        (sym (
          ap (λ rs. rs ++ s.next_ref ∷ []) v.listed
          ∙ ap (λ r. refs v.first v.size ++ r ∷ []) (sym v.ends)
          ∙ refs-snoc v.first v.size))
        (if_cases (λ k. Good s (left k)) (ltb s.max_cases (length (refs v.first (suc v.size)))) _ _
          (λ over. drops-Good (ground (arith, over, v.few, length-refs (suc v.first) v.size)))
          (λ fits. fits-Good (ground (arith, fits, length-refs (suc v.first) v.size))))
