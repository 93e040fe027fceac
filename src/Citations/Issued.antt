-- ===== src/Citations/Issued.antt =====
-- What Resolve (internal/search/citation_authority.go) may cite: only what was issued, and each
-- once.
use llm_wiki_bff.Core.{
  suc, ◌≡◌, ◌≢◌, refl, true, false, none, some, List, [], ◌∷◌, ◌++◌, length, any, All, All-append,
  Member, arith, Option-cases, Bool-cases, inl, inr, sym, if_cases, if_both, ◌==◌,
}
use mathlib.Core.Path.{subst}
use llm_wiki_bff.Core.Int.{ℤ}
use llm_wiki_bff.Core.Text.{Text, str_eq, str_eq_refl}
use llm_wiki_bff.Core.Dict.{lookup}
use llm_wiki_bff.Search.{Result, Citation}
use llm_wiki_bff.Citations.{
  Url, Target, Authority, Answer, no_answer, new_authority, safe_result, identity, citation_for,
  write_text, append_citation, write_bracketed, resolved, resolve, authorized_results,
}
use llm_wiki_bff.Citations.Loop.{resolve_loop_inv, bracketed-token, bracketed-title, bracketed-text}
use llm_wiki_bff.Citations.Held.{
  lookup-AllValues, Holds, authority_of, authority_of-Holds, new_authority-Holds,
}

-- A target for a safe context.
abbrev pub IsIssued : Url → List (ℤ × Result) → Target → Type 0
IsIssued url cs t = Member (t.rank, t.result) cs × (safe_result url t.result ≡ true)

-- A citation of a target that was issued.
abbrev pub Cites : Url → List (ℤ × Result) → Citation → Type 0
Cites url cs c = (t : Target) × IsIssued url cs t × (c ≡ citation_for url t.result)

-- The identity of what is cited.
abbrev pub identity_of : Citation → Text
identity_of c = c.kind ++ 0 ∷ c.slug

-- No two citations have the same identity.
abbrev pub IsOnce : List Citation → Type 0
IsOnce [] = Unit
IsOnce (c ∷ cs) = All (λ d. identity_of d ≢ identity_of c) cs × IsOnce cs

IsOnce-snoc :
    (cs : List Citation) (d : Citation)
    → IsOnce cs
    → All (λ c. identity_of d ≢ identity_of c) cs
    → IsOnce (cs ++ d ∷ [])
IsOnce-snoc [] d h k = (tt, tt)
IsOnce-snoc (c ∷ cs) d (h, hs) (k, ks) =
    (All-append (λ e. identity_of e ≢ identity_of c) cs (d ∷ []) h (k, tt), IsOnce-snoc cs d hs ks)

-- The identities that are marked as cited.
abbrev IsMarked : Answer → Citation → Type 0
IsMarked st c = any (str_eq (identity_of c)) st.cited ≡ true

record IsGood (url : Url) (cs : List (ℤ × Result)) (st : Answer) : Type 0 where
  pub cites : All (Cites url cs) st.citations
  pub once : IsOnce st.citations
  pub covered : All (IsMarked st) st.citations

write_text-IsGood :
    (url : Url) (cs : List (ℤ × Result)) (t : Text) (st : Answer)
    → IsGood url cs st
    → IsGood url cs (write_text t st)
unfolding write_text
write_text-IsGood url cs t st h = record { cites = h.cites; once = h.once; covered = h.covered }

All-map {ℓ} :
    {A : Type ℓ} (P Q : A → Type 0) (xs : List A) → ((x : A) → P x → Q x) → All P xs → All Q xs
All-map P Q [] f h = tt
All-map P Q (x ∷ xs) f (p, h) = (f x p, All-map P Q xs f h)

unmarked_ne :
    (id : Text) (cited : List Text) (c : Citation)
    → any (str_eq id) cited ≡ false
    → any (str_eq (identity_of c)) cited ≡ true
    → id ≢ identity_of c
unmarked_ne id cited c h k e =
    let k' : any (str_eq id) cited ≡ true = rw e k in ground (arith, h, k')

citation_for-identity : (url : Url) (r : Result) → identity_of (citation_for url r) ≡ identity r
unfolding citation_for identity
citation_for-identity url r = refl

append_citation-IsGood :
    (url : Url) (cs : List (ℤ × Result)) (t : Target) (st : Answer)
    → IsIssued url cs t
    → IsGood url cs st
    → IsGood url cs (append_citation url t st)
unfolding append_citation
append_citation-IsGood url cs t st i h =
    let id = identity t.result in
    let d = citation_for url t.result in
    let same = citation_for-identity url t.result in
    if_cases (IsGood url cs) (any (str_eq id) st.cited)
      (λ _. record { cites = h.cites; once = h.once; covered = h.covered })
      λ e. record {
        cites = All-append (Cites url cs) st.citations (d ∷ []) h.cites ((t, i, refl), tt);
        once = IsOnce-snoc st.citations d h.once (
            All-map (IsMarked st) (λ c. identity_of d ≢ identity_of c) st.citations
              (λ c m. rw same (unmarked_ne id st.cited c e m)) h.covered);
        covered =
            All-append (λ c. any (str_eq (identity_of c)) (id ∷ st.cited) ≡ true) st.citations
              (d ∷ [])
              (All-map (IsMarked st) (λ c. any (str_eq (identity_of c)) (id ∷ st.cited) ≡ true)
                st.citations (λ c m. ground (arith, m)) h.covered)
              (rw same (ground (arith, str_eq_refl id)), tt);
      }

write_bracketed-IsGood :
    (url : Url) (a : Authority) (cs : List (ℤ × Result)) (t : Text) (st : Answer)
    → Holds (IsIssued url cs) a
    → IsGood url cs st
    → IsGood url cs (write_bracketed url a t st)
write_bracketed-IsGood url a cs t st h g =
    let ref = 91 ∷ (t ++ 93 ∷ []) in
    let P = IsIssued url cs in
    elim (Option-cases (lookup ref a.tokens)) [
      | inr (v, e) ↦
          subst (IsGood url cs) (sym (bracketed-token url a t st e))
            (append_citation-IsGood url cs v st (lookup-AllValues P ref a.tokens h.tokens e) g)
      | inl e ↦ elim (Option-cases (lookup t a.titles)) [
        | inr (v, k) ↦
            subst (IsGood url cs) (sym (bracketed-title url a t st e k))
              (append_citation-IsGood url cs v st (lookup-AllValues P t a.titles h.titles k) g)
        | inl k ↦
            subst (IsGood url cs) (sym (bracketed-text url a t st e k))
              (write_text-IsGood url cs ref st g)
      ]
    ]

-- The citations of an answer.
abbrev Sound : Url → List (ℤ × Result) → Text × List Citation × List Result → Type 0
Sound url cs r = All (Cites url cs) r.1 × IsOnce r.1

resolved-Sound :
    (url : Url) (a : Authority) (cs : List (ℤ × Result)) (st : Answer)
    → IsGood url cs st
    → Sound url cs (resolved url a st)
unfolding resolved
resolved-Sound url a cs st g =
    if_both (Sound url cs) (length st.citations == 0) (tt, tt) (g.cites, g.once)

-- Resolve ends. Whatever contexts were added and whatever the answer says, each of its citations is
-- the one of a result that was added with a safe route, and no two cite the same page.
pub resolve_sound :
    (url : Url) (ns : Text) (ranked : List Result) (cs : List (ℤ × Result)) (answer : Text)
    → (r : Text × List Citation × List Result) × (resolve url
          (authority_of url (new_authority ns ranked) cs)
          answer
        ≡ some r)
      × All (Cites url cs) r.1
      × IsOnce r.1
unfolding resolve
resolve_sound url ns ranked cs answer =
    let P = IsIssued url cs in
    let a = authority_of url (new_authority ns ranked) cs in
    let h =
      authority_of-Holds P url (new_authority ns ranked) cs (λ k r m e. (m, e))
        (new_authority-Holds P ns ranked) in
    let (st, e, g) =
      resolve_loop_inv url a (IsGood url cs) (IsGood url cs) (λ st g. g) (write_text-IsGood url cs)
        (λ t. write_text-IsGood url cs (91 ∷ t)) (λ t st. write_bracketed-IsGood url a cs t st h)
        (suc (length answer)) answer no_answer (omega arith)
        (record { cites = tt; once = tt; covered = tt }) in
    let (cites, once) = resolved-Sound url a cs st g in
    elim (Bool-cases (str_eq answer [])) [
      | inl z ↦ ((answer, [], authorized_results url a none), ground (arith, z), tt, tt)
      | inr z ↦ (resolved url a st, ground (arith, z, e), cites, once)
    ]
