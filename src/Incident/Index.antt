-- ===== src/Incident/Index.antt =====
-- pkg/incident/incident.go: the index by identifier against the heap.
use neurosentry.Common.{
  Bool-cases, List, Map, Option, Str, [], ap, arith, delete, eq_iff, found-delete, get,
  get-delete-other, get-put-other, get-put-same, if_cases, inl, inr, int_eq, length, ltb, nat_eq,
  none, put, refl, some, str_eq, sym, ℕ, ◌==◌, ◌∙◌, ◌∷◌, ◌≡◌, ◌≢◌,
}
use neurosentry.Incident.{Case, Ref, change, drop_oldest, forget_case}

-- The index leads from the identifier of every case to it.
abbrev pub FoundIn : Map Ref Case → Map Str Ref → Type 0
FoundIn heap by_id = (q : Ref) (c : Case) → get heap q ≡ some c → get by_id c.id ≡ some q

pub traced :
    (heap : Map Ref Case) (r q : Ref) (f : Case → Case) (c : Case)
    → ((d : Case) → (f d).id ≡ d.id)
    → get (change heap r f) q ≡ some c
    → (d : Case) × (get heap q ≡ some d) × (d.id ≡ c.id)
unfolding change
traced heap r q f c keeps e = go (get heap r) refl e
  where
    id_or : Option Case → Str
    id_or none = []
    id_or (some d) = d.id

    go :
        (o : Option Case)
        → get heap r ≡ o
        → get (elim o [ none ↦ heap | some d ↦ put heap r (f d) ]) q ≡ some c
        → (d : Case) × (get heap q ≡ some d) × (d.id ≡ c.id)
    go none h k = (c, k, refl)
    go (some d) h k = elim (Bool-cases (r == q)) [
      | inr other ↦ (c, sym (get-put-other heap r q (f d) other) ∙ k, refl)
      | inl same ↦
          let at = (eq_iff r q).0 same in
          let now : some (f d) ≡ some c =
            sym (get-put-same heap r (f d)) ∙ ap (get (put heap r (f d))) at ∙ k in
          (d, ap (get heap) (sym at) ∙ h, sym (keeps d) ∙ ap id_or now)
    ]

pub put-FoundIn :
    (heap : Map Ref Case) (by_id : Map Str Ref) (k : Ref) (c : Case)
    → FoundIn heap by_id
    → ((q : Ref) (d : Case) → get heap q ≡ some d → d.id ≢ c.id)
    → FoundIn (put heap k c) (put by_id c.id k)
put-FoundIn heap by_id k c found fresh q d e = elim (Bool-cases (k == q)) [
  | inl same ↦
      let at = (eq_iff k q).0 same in
      let is : some c ≡ some d = sym (get-put-same heap k c) ∙ ap (get (put heap k c)) at ∙ e in
      ap (get (put by_id c.id k)) (ap id_or (sym is)) ∙ get-put-same by_id c.id k ∙ ap some at
  | inr other ↦
      let old = sym (get-put-other heap k q c other) ∙ e in
      get-put-other by_id c.id d.id k (ground (arith, eq_iff c.id d.id, fresh q d old))
      ∙ found q d old
]
  where
    id_or : Option Case → Str
    id_or none = []
    id_or (some x) = x.id

forget_case-FoundIn :
    (heap : Map Ref Case) (by_id : Map Str Ref) (r : Ref) (o : Option Case)
    → get heap r ≡ o
    → FoundIn heap by_id
    → FoundIn (delete heap r) (forget_case by_id o)
forget_case-FoundIn heap by_id r none h found q c e = found q c (found-delete heap r q c e).1
forget_case-FoundIn heap by_id r (some d) h found q c e =
    let kept = found-delete heap r q c e in
    let mine = found q c kept.1 in
    elim (Bool-cases (d.id == c.id)) [
      | inr differs ↦ get-delete-other by_id d.id c.id differs ∙ mine
      | inl same ↦
          let one : some r ≡ some q =
            sym (found r d h) ∙ ap (get by_id) ((eq_iff d.id c.id).0 same) ∙ mine in
          absurd (ground (arith, eq_iff r q, kept.0, one))
    ]

pub drop_oldest-FoundIn :
    (max : ℕ) (heap : Map Ref Case) (rs : List Ref) (by_id : Map Str Ref)
    → FoundIn heap by_id
    → FoundIn (drop_oldest max heap rs by_id).0 (drop_oldest max heap rs by_id).2
unfolding drop_oldest
drop_oldest-FoundIn max heap [] by_id found = found
drop_oldest-FoundIn max heap (r ∷ rs) by_id found =
    if_cases (λ (k : Map Ref Case × List Ref × Map Str Ref). FoundIn k.0 k.2)
      (ltb max (length (r ∷ rs))) _ _
      (λ _. forget_case-FoundIn heap by_id r (get heap r) refl found) (λ _. found)

-- Dropping the oldest case brings no other.
pub drop_oldest-heap :
    (max : ℕ) (heap : Map Ref Case) (rs : List Ref) (by_id : Map Str Ref) (q : Ref) (c : Case)
    → get (drop_oldest max heap rs by_id).0 q ≡ some c
    → get heap q ≡ some c
unfolding drop_oldest
drop_oldest-heap max heap [] by_id q c e = e
drop_oldest-heap max heap (r ∷ rs) by_id q c e =
    if_cases
      (λ (k : Map Ref Case × List Ref × Map Str Ref). get k.0 q ≡ some c → get heap q ≡ some c)
      (ltb max (length (r ∷ rs))) _ _ (λ _ k. (found-delete heap r q c k).1) (λ _ k. k) e
