-- ===== src/Policy/Containers.antt =====
-- pkg/policy/advanced.go: the identifier that is read off a cgroup path.
use neurosentry.Common.{
  List, Option, Str, [], arith, contains, has_prefix, if_cases, if◌then◌else◌, index, inl, inr,
  int_eq, is_empty, leb, length, length-take, ltb, nat_beq, nat_eq, none, parts, refl, some,
  split_byte, str, str_eq, take, ℕ, ◌&&◌, ◌∷◌, ◌≡◌, ◌⊎◌,
}
use neurosentry.Policy.Advanced.{
  docker_id, extract_container_id, is_hex_string, kube_id, or_else, or_none, runtime_id, scope_id,
  short_id, text_after, text_before,
}

-- A short identifier: twelve bytes.
abbrev pub IsShort : Option Str → Type 0
IsShort none = Unit
IsShort (some id) = length id ≡ 12

short_id-IsShort : (s : Str) → IsShort (short_id s)
unfolding short_id
short_id-IsShort s =
    if_cases IsShort (leb 12 (length s)) _ _ (λ h. length-take 12 s (ground arith)) (λ _. tt)

or_else-IsShort : (o p : Option Str) → IsShort o → IsShort p → IsShort (or_else o p)
or_else-IsShort none p h k = k
or_else-IsShort (some s) p h k = h

docker_id-IsShort : (path : Str) → IsShort (docker_id path)
unfolding docker_id
docker_id-IsShort path = go (text_after path (str "/docker/"))
  where
    go :
        (o : Option Str)
        → IsShort (elim o [
          | none ↦ none
          | some rest ↦ short_id (split_byte b'/' (text_before rest (str "/docker/"))).0
        ])
    go none = tt
    go (some rest) = short_id-IsShort _

scope_id-IsShort : (prefix path : Str) → IsShort (scope_id prefix path)
unfolding scope_id
scope_id-IsShort prefix path = go (text_after path prefix)
  where
    cut : (rest : Str) (o : Option ℕ) → Option Str
    cut rest o = elim o [ none ↦ none | some i ↦ if ltb 0 i then short_id (take i rest) else none ]

    cut-IsShort : (rest : Str) (o : Option ℕ) → IsShort (cut rest o)
    cut-IsShort rest none = tt
    cut-IsShort rest (some i) = if_cases IsShort (ltb 0 i) _ _ (λ _. short_id-IsShort _) (λ _. tt)

    go :
        (o : Option Str)
        → IsShort (elim o [ none ↦ none | some rest ↦ cut rest (index rest (str ".")) ])
    go none = tt
    go (some rest) = cut-IsShort rest (index rest (str "."))

runtime_id-IsShort : (prefix part : Str) → IsShort (runtime_id prefix part)
unfolding runtime_id
runtime_id-IsShort prefix part =
    if_cases IsShort (has_prefix part prefix) _ _ (λ _. short_id-IsShort _) (λ _. tt)

kube_id-IsShort : (ps : List Str) → IsShort (kube_id ps)
unfolding kube_id
kube_id-IsShort [] = tt
kube_id-IsShort (part ∷ more) = or_else-IsShort _ _ (runtime_id-IsShort (str "crio-") part) (
    or_else-IsShort _ _ (runtime_id-IsShort (str "cri-containerd-") part) (
      or_else-IsShort _ _
        (if_cases IsShort (nat_beq (length part) 64 && is_hex_string part) _ _
          (λ h. length-take 12 part (ground arith)) (λ _. tt))
        (kube_id-IsShort more)))

or_none-length : (o : Option Str) → IsShort o → (or_none o ≡ []) ⊎ (length (or_none o) ≡ 12)
or_none-length none h = inl refl
or_none-length (some s) h = inr h

-- Whatever the cgroup path, the container identifier is empty or has twelve bytes.
pub length-extract_container_id :
    (path : Str) → (extract_container_id path ≡ []) ⊎ (length (extract_container_id path) ≡ 12)
unfolding extract_container_id
length-extract_container_id path =
    if_cases (λ s. (s ≡ []) ⊎ (length s ≡ 12)) (is_empty path) _ _ (λ _. inl refl)
      (λ _. or_none-length _ (
        or_else-IsShort _ _ (docker_id-IsShort path) (
          or_else-IsShort _ _ (scope_id-IsShort (str "containerd-") path) (
            or_else-IsShort _ _
              (if_cases IsShort (contains path (str "/kubepods")) _ _
                (λ _. kube_id-IsShort (parts (split_byte b'/' path))) (λ _. tt))
              (scope_id-IsShort (str "libpod-") path)))))
