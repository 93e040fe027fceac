-- ===== src/Citations/Held.antt =====
-- What every target of a CitationAuthority (internal/search/citation_authority.go) has, whatever
-- contexts were added.
use llm_wiki_bff.Core.{
  ◌≡◌, true, some, List, [], ◌∷◌, ◌++◌, any, All, All-append, Member, here, there, arith,
  Bool-cases, inl, inr, if_cases, is_some,
}
use mathlib.Core.Path.{subst}
use llm_wiki_bff.Core.Int.{ℤ}
use llm_wiki_bff.Core.Text.{Text, str_eq}
use llm_wiki_bff.Core.Dict.{lookup, insert, delete}
use llm_wiki_bff.Search.{Result}
use llm_wiki_bff.Citations.{
  Url, Target, Authority, new_authority, safe_result, add_title, add_context, reference, neutralize,
}

-- The entries of a map hold a property.
abbrev pub AllValues {ℓ} : {V : Type ℓ} → (V → Type 0) → List (Text × V) → Type 0
AllValues P m = All (λ e. P e.1) m

module _ {ℓ} {V : Type ℓ} (P : V → Type 0) where
  pub lookup-AllValues :
      (k : Text) (m : List (Text × V)) {v : V} → AllValues P m → lookup k m ≡ some v → P v
  unfolding lookup
  lookup-AllValues k [] h e = cc
  lookup-AllValues k ((j, w) ∷ m) {v} (p, h) e = elim (Bool-cases (str_eq j k)) [
    | inl t ↦ let q : w ≡ v = ground (arith, t, e) in subst P q p
    | inr t ↦ lookup-AllValues k m h (ground (arith, t, e))
  ]

  insert-AllValues :
      (k : Text) (v : V) (m : List (Text × V)) → P v → AllValues P m → AllValues P (insert k v m)
  unfolding insert
  insert-AllValues k v [] p h = (p, tt)
  insert-AllValues k v ((j, w) ∷ m) p (q, h) =
      if_cases (AllValues P) (str_eq j k) (λ _. (p, h)) (λ _. (q, insert-AllValues k v m p h))

  delete-AllValues : (k : Text) (m : List (Text × V)) → AllValues P m → AllValues P (delete k m)
  unfolding delete
  delete-AllValues k [] h = tt
  delete-AllValues k ((j, w) ∷ m) (q, h) =
      if_cases (AllValues P) (str_eq j k) (λ _. h) (λ _. (q, delete-AllValues k m h))

-- Every target that the authority holds has a property.
pub record Holds (P : Target → Type 0) (a : Authority) : Type 0 where
  pub tokens : AllValues P a.tokens
  pub titles : AllValues P a.titles
  pub issued : All P a.issued

add_title-Holds :
    (P : Target → Type 0) (a : Authority) (title : Text) (t : Target)
    → P t
    → Holds P a
    → Holds P (add_title a title t)
unfolding add_title
add_title-Holds P a title t p h =
    if_cases (Holds P) (any (str_eq title) a.ambiguous) (λ _. h)
      λ _.
        if_cases (Holds P) (is_some (lookup title a.titles))
          (λ _. record {
            tokens = h.tokens;
            titles = delete-AllValues P title a.titles h.titles;
            issued = h.issued;
          })
          (λ _. record {
            tokens = h.tokens;
            titles = insert-AllValues P title t a.titles p h.titles;
            issued = h.issued;
          })

add_context-Holds :
    (P : Target → Type 0) (url : Url) (a : Authority) (rank : ℤ) (result : Result)
    → (safe_result url result ≡ true → P (record { result = result; rank = rank }))
    → Holds P a
    → Holds P (add_context url a rank result)
unfolding add_context
add_context-Holds P url a rank result p h =
    let t : Target = record { result = result; rank = rank } in
    if_cases (Holds P) (safe_result url result)
      (λ e.
        add_title-Holds P
          (record a { tokens = insert (reference a rank) t a.tokens; issued = a.issued ++ t ∷ [] })
          (neutralize result.title) t (p e)
          (record {
            tokens = insert-AllValues P (reference a rank) t a.tokens (p e) h.tokens;
            titles = h.titles;
            issued = All-append P a.issued (t ∷ []) h.issued (p e, tt);
          }))
      (λ _. h)

-- The authority after a sequence of contexts.
unfoldable pub authority_of : Url → Authority → List (ℤ × Result) → Authority
authority_of url a [] = a
authority_of url a ((rank, result) ∷ cs) = authority_of url (add_context url a rank result) cs

pub authority_of-Holds :
    (P : Target → Type 0) (url : Url) (a : Authority) (cs : List (ℤ × Result))
    → ((rank : ℤ) (r : Result)
        → Member (rank, r) cs
        → safe_result url r ≡ true
        → P (record { result = r; rank = rank }))
    → Holds P a
    → Holds P (authority_of url a cs)
unfolding authority_of
authority_of-Holds P url a [] p h = h
authority_of-Holds P url a ((rank, r) ∷ cs) p h =
    authority_of-Holds P url (add_context url a rank r) cs (λ k q m. p k q (there m))
      (add_context-Holds P url a rank r (p rank r here) h)

pub new_authority-Holds :
    (P : Target → Type 0) (ns : Text) (ranked : List Result) → Holds P (new_authority ns ranked)
unfolding new_authority
new_authority-Holds P ns ranked = record { tokens = tt; titles = tt; issued = tt }
