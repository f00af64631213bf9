-- ===== src/Audit/Verified.antt =====
-- pkg/audit/audit.go: the entries that Append leaves pass Verify, also across a restart.
use neurosentry.Common.{
  List, Option, Str, [], arith, drop, eq_iff, if_cases, int_eq, last_n, length, length-append,
  length-drop, ltb, nat_eq, none, refl, some, str_eq, subst, suc, sym, zero, ℕ, ℤ, ◌%◌, ◌++◌, ◌+◌,
  ◌-◌, ◌<◌, ◌^◌, ◌∙◌, ◌∷◌, ◌≡◌,
}
use neurosentry.Audit.{
  Chain, Codec, Entry, Sink, append, append_all, attach_sink, check_link, compute_hash,
  genesis_hash, link, new_chain_with_capacity, resume, sealed, verify, verify_from,
}

module _ (codec : Codec) where
  -- The link that Verify asks of an entry.
  abbrev Starts : Option Str → Entry codec → Type 0
  Starts none e = e.sequence_num ≡ 0 → e.prev_hash ≡ genesis_hash
  Starts (some prev) e = e.prev_hash ≡ prev

  -- Entries numbered from `n`, each with its hash and linked to the one before it.
  abbrev Chained : Option Str → ℕ → List (Entry codec) → Type 0
  Chained prev n [] = Unit
  Chained prev n (e ∷ es) =
      (e.sequence_num ≡ n)
      × (e.hash ≡ compute_hash codec e)
      × Starts prev e
      × Chained (some e.hash) (n + 1) es

  check_link-Starts :
      (prev : Option Str) (i : ℕ) (e : Entry codec)
      → Starts prev e
      → check_link codec prev i e ≡ none
  unfolding check_link
  check_link-Starts none i e h = ground (arith, eq_iff e.prev_hash genesis_hash, h)
  check_link-Starts (some prev) i e h = rw ((eq_iff e.prev_hash prev).1 h) refl

  verify_from-Chained :
      (prev : Option Str) (n i : ℕ) (es : List (Entry codec))
      → Chained prev n es
      → verify_from codec prev i es ≡ none
  unfolding verify_from
  verify_from-Chained prev n i [] h = refl
  verify_from-Chained prev n i (e ∷ es) h =
      rw ((eq_iff e.hash (compute_hash codec e)).1 h.1, check_link-Starts prev i e h.2)
        (verify_from-Chained (some e.hash) (n + 1) (i + 1) es h.3)

  -- The hash of the last entry, or else the one before the list.
  abbrev last_hash : Option Str → List (Entry codec) → Option Str
  last_hash prev [] = prev
  last_hash prev (e ∷ es) = last_hash (some e.hash) es

  Chained-append :
      (prev : Option Str) (n : ℕ) (es : List (Entry codec)) (e : Entry codec)
      → Chained prev n es
      → e.sequence_num ≡ n + length es
      → e.hash ≡ compute_hash codec e
      → Starts (last_hash prev es) e
      → Chained prev n (es ++ e ∷ [])
  Chained-append prev n [] e h num hash start = (num ∙ omega arith, hash, start, tt)
  Chained-append prev n (f ∷ es) e h num hash start =
      (h.0, h.1, h.2, Chained-append (some f.hash) (n + 1) es e h.3 (num ∙ omega arith) hash start)

  -- Without the entry before it, only the first entry of all is asked for the genesis.
  Chained-forget :
      (prev : Str) (n : ℕ) (es : List (Entry codec))
      → Chained (some prev) (n + 1) es
      → Chained none (n + 1) es
  Chained-forget prev n [] h = tt
  Chained-forget prev n (e ∷ es) h = (h.0, h.1, (λ z. absurd (omega (arith, h.0, z))), h.3)

  Chained-drop :
      (k n : ℕ) (es : List (Entry codec)) → Chained none n es → Chained none (n + k) (drop k es)
  Chained-drop zero n es h = subst (λ m. Chained none m es) (omega arith) h
  Chained-drop (suc k) n [] h = tt
  Chained-drop (suc k) n (e ∷ es) h =
      subst (λ m. Chained none m (drop k es)) (omega arith)
        (Chained-drop k (n + 1) es (Chained-forget e.hash n es h.3))

  Chained-last_n :
      (k n : ℕ) (es : List (Entry codec))
      → Chained none n es
      → (m : ℕ) × Chained none m (last_n k es) × (m + length (last_n k es) ≡ n + length es)
  unfolding last_n
  Chained-last_n k n es h =
      if_cases (λ xs. (m : ℕ) × Chained none m xs × (m + length xs ≡ n + length es))
        (ltb k (length es)) _ _
        (λ e. (
          n + (length es - k),
          Chained-drop (length es - k) n es h,
          ground (arith, length-drop (length es - k) es),
        ))
        (λ _. (n, h, refl))

  module _ (sink : Sink codec) where
    link-last_hash :
        (resumed : Str) (prev : Option Str) (es : List (Entry codec)) (e : Entry codec)
        → last_hash prev (e ∷ es) ≡ some (link codec sink resumed (e ∷ es))
    unfolding link
    link-last_hash resumed prev [] e = refl
    link-last_hash resumed prev (f ∷ es) e = link-last_hash resumed (some e.hash) es f

    record Inv (c : Chain codec sink) : Type 0 where
      first : ℕ
      chained : Chained none first c.entries
      numbered : first + length c.entries ≡ c.next_seq
      fresh : c.next_seq ≡ 0 → c.resumed_hash ≡ []

    sealed-Starts :
        (c : Chain codec sink)
        → (c.next_seq ≡ 0 → c.resumed_hash ≡ [])
        → (es : List (Entry codec)) → (e : Entry codec) → e.sequence_num ≡ c.next_seq
        → e.prev_hash ≡ link codec sink c.resumed_hash es
        → Starts (last_hash none es) e
    unfolding link
    sealed-Starts c fresh [] e num p = λ z. p ∙ rw (fresh (sym num ∙ z)) refl
    sealed-Starts c fresh (f ∷ es) e num p =
        subst (λ h. Starts h e) (sym (link-last_hash c.resumed_hash none es f)) p

    append-Inv :
        (c : Chain codec sink) (e : Entry codec)
        → c.next_seq + 1 < 2 ^ 64
        → Inv c
        → Inv (append codec sink c e).0
    unfolding append sealed
    append-Inv c e small v =
        let e' = sealed codec sink c e in
        let longer =
          Chained-append none v.first c.entries e' v.chained (sym v.numbered) refl
            (sealed-Starts c v.fresh c.entries e' refl refl) in
        let kept = Chained-last_n c.max_entries v.first (c.entries ++ e' ∷ []) longer in
        record {
          first = kept.0;
          chained = kept.1;
          numbered = kept.2 ∙ ground (arith, length-append c.entries (e' ∷ []), v.numbered, small);
          fresh = λ z. absurd (ground (arith, z, small));
        }

    append_all-Inv :
        (c : Chain codec sink) (es : List (Entry codec))
        → c.next_seq + length es < 2 ^ 64
        → Inv c
        → Inv (append_all codec sink c es)
    unfolding append_all append
    append_all-Inv c [] small v = v
    append_all-Inv c (e ∷ es) small v =
        append_all-Inv (append codec sink c e).0 es (ground (arith, small))
          (append-Inv c e (omega (arith, small)) v)

    -- The number that the first entry after a restart gets.
    abbrev pub resume_at : Option (ℕ × Str) → ℕ
    resume_at none = 0
    resume_at (some (seq, hash)) = seq + 1

    abbrev pub reopened : ℤ → Sink.State sink → Chain codec sink
    reopened max s = attach_sink codec sink (new_chain_with_capacity codec sink max) s

    reopened-Inv :
        (max : ℤ) (s : Sink.State sink)
        → resume_at (Sink.last sink s) < 2 ^ 64
        → Inv (reopened max s) × ((reopened max s).next_seq ≡ resume_at (Sink.last sink s))
    unfolding attach_sink new_chain_with_capacity resume
    reopened-Inv max s small = go (Sink.last sink s) small
      where
        go :
            (o : Option (ℕ × Str))
            → resume_at o < 2 ^ 64
            → let c = resume codec sink (new_chain_with_capacity codec sink max) o in
              let c' = record c { store = some s } in Inv c' × (c'.next_seq ≡ resume_at o)
        go none h = (record { first = 0; chained = tt; numbered = refl; fresh = λ z. refl }, refl)
        go (some (seq, hash)) h = (
          record {
            first = (seq + 1) % 2 ^ 64;
            chained = tt;
            numbered = omega arith;
            fresh = λ z. absurd (ground (arith, h, z));
          },
          ground (arith, h),
        )

    -- A chain of any capacity, opened on a store that is empty or holds an earlier chain, and appended to
    -- any number of times, passes Verify, also when it has dropped its oldest entries. The sequence number
    -- must not reach 2^64.
    pub verify-append_all :
        (max : ℤ) (s : Sink.State sink) (es : List (Entry codec))
        → resume_at (Sink.last sink s) + length es < 2 ^ 64
        → verify codec (append_all codec sink (reopened max s) es).entries ≡ none
    unfolding verify
    verify-append_all max s es small =
        let start = reopened-Inv max s (omega (arith, small)) in
        let v = append_all-Inv (reopened max s) es (omega (arith, start.1, small)) start.0 in
        verify_from-Chained none v.first 0 _ v.chained
