-- ===== src/Wiki/Claims.antt =====
-- The loops that give each value one owner, in internal/wikiindex/wikiindex.go.
use llm_wiki_bff.Core.{
  ◌≡◌, refl, ap, sym, ◌∙◌, Bool, true, false, not, ◌&&◌, ◌||◌, Option, none, some, is_some, [], ◌∷◌,
  ◌++◌, map, keep, Result, ok, err, any, all, ◌>>=◌, arith, append_cons, if◌then◌else◌, Bool-cases,
  Option-cases, inl, inr,
}
use mathlib.Core.Path.{ap₂}
use mathlib.Core.List.{append-nil}
use llm_wiki_bff.Core.Text.{Text, str_eq}
use llm_wiki_bff.Core.Dict.{lookup, insert, has_key}
use llm_wiki_bff.Wiki.{Rows, IndexError, taken_by_other, claim_rows}

-- The result of a call that reports an error.
abbrev pub to_option : {A : Type 0} → Result IndexError A → Option A
to_option (ok a) = some a
to_option (err e) = none

-- No identifier stands in two rows, as in a map.
abbrev pub distinct_ids : Rows → Bool
distinct_ids [] = true
distinct_ids (r ∷ rows) = not (any (λ s. str_eq r.0 s.0) rows) && distinct_ids rows

-- No value stands in two rows.
abbrev pub distinct_values : Rows → Bool
distinct_values [] = true
distinct_values (r ∷ rows) = not (any (λ s. str_eq r.1 s.1) rows) && distinct_values rows

abbrev pub swap : Text × Text → Text × Text
swap r = (r.1, r.0)

pub insert_new : (k v : Text) (m : Rows) → has_key k m ≡ false → insert k v m ≡ m ++ (k, v) ∷ []
unfolding has_key lookup insert
insert_new k v [] h = refl
insert_new k v ((j, w) ∷ m) h = ground (arith, h, insert_new k v m)

has_key-append : (k : Text) (m n : Rows) → has_key k (m ++ n) ≡ (has_key k m || has_key k n)
unfolding has_key lookup
has_key-append k [] n = refl
has_key-append k ((j, w) ∷ m) n = ground (arith, has_key-append k m n)

pub has_key-any : (k : Text) (m : Rows) → has_key k m ≡ any (λ r. str_eq r.0 k) m
unfolding has_key lookup
has_key-any k [] = refl
has_key-any k ((j, w) ∷ m) = ground (arith, has_key-any k m)

has_key-snoc :
    (j k v : Text) (m : Rows) → has_key j (m ++ (k, v) ∷ []) ≡ (has_key j m || str_eq k j)
unfolding has_key lookup
has_key-snoc j k v m = ground (arith, has_key-append j m ((k, v) ∷ []))

-- No row has its part among the keys after one more key.
pub fresh-snoc :
    (f : Text × Text → Text) (k v : Text) (m rows : Rows)
    → all (λ r. not (has_key (f r) (m ++ (k, v) ∷ []))) rows
      ≡ (all (λ r. not (has_key (f r) m)) rows && not (any (λ r. str_eq k (f r)) rows))
fresh-snoc f k v m [] = refl
fresh-snoc f k v m (r ∷ rows) = ground (arith, has_key-snoc (f r) k v m, fresh-snoc f k v m rows)

-- No owner is the identifier of a row.
abbrev strangers : Rows → Rows → Bool
strangers rows owners = all (λ r. all (λ o. not (str_eq o.1 r.0)) owners) rows

strange-snoc :
    (id k v : Text) (owners : Rows)
    → all (λ o. not (str_eq o.1 id)) (owners ++ (k, v) ∷ [])
      ≡ (all (λ o. not (str_eq o.1 id)) owners && not (str_eq v id))
strange-snoc id k v [] = ground arith
strange-snoc id k v (o ∷ owners) = ground (arith, strange-snoc id k v owners)

strangers-snoc :
    (k v : Text) (owners rows : Rows)
    → strangers rows (owners ++ (k, v) ∷ [])
      ≡ (strangers rows owners && not (any (λ r. str_eq v r.0) rows))
strangers-snoc k v owners [] = refl
strangers-snoc k v owners (r ∷ rows) =
    ground (arith, strange-snoc r.0 k v owners, strangers-snoc k v owners rows)

taken_lem :
    (id value : Text) (owners : Rows)
    → all (λ o. not (str_eq o.1 id)) owners ≡ true
    → taken_by_other id (lookup value owners) ≡ has_key value owners
unfolding taken_by_other has_key lookup
taken_lem id value [] h = refl
taken_lem id value ((v, o) ∷ owners) h = ground (arith, h, taken_lem id value owners)

-- What makes a loop end without an error.
abbrev pub claims_ok : (Text → Text → Option IndexError) → (Text → Bool) → Rows → Rows → Bool
claims_ok check skips rows owners =
    all (λ r. not (is_some (check r.0 r.1))) rows
    && all (λ r. not (has_key r.1 owners)) (keep (λ r. not (skips r.0)) rows)
    && distinct_values (keep (λ r. not (skips r.0)) rows)

claim_rows_lem :
    (check : Text → Text → Option IndexError) (skips : Text → Bool) (e : IndexError)
    (rows owners kept : Rows)
    → distinct_ids rows ≡ true
    → strangers rows owners ≡ true
    → all (λ r. not (has_key r.0 kept)) rows ≡ true
    → to_option (claim_rows check skips e rows owners kept) ≡ (
        if claims_ok check skips rows owners
        then some (
          owners ++ map swap (keep (λ r. not (skips r.0)) rows),
          kept ++ keep (λ r. not (skips r.0)) rows,
        )
        else none)
unfolding claim_rows
claim_rows_lem check skips e [] owners kept d s k =
    ap some (ap₂ (λ x y. (x, y)) (sym (append-nil owners)) (sym (append-nil kept)))
claim_rows_lem check skips e ((id, value) ∷ rows) owners kept d s k =
    elim (Option-cases (check id value)) [
      | inr (x, c) ↦ ground (arith, c)
      | inl c ↦ elim (Bool-cases (skips id)) [
        | inl b ↦ ground (arith, c, b, d, s, k, claim_rows_lem check skips e rows owners kept)
        | inr b ↦ elim (Bool-cases (has_key value owners)) [
          | inl h ↦ ground (arith, c, b, d, s, k, h, taken_lem id value owners)
          | inr h ↦
              let rest = keep (λ r. not (skips r.0)) rows in
              let more =
                claim_rows_lem check skips e rows (owners ++ (value, id) ∷ [])
                  (kept ++ (id, value) ∷ []) (ground (arith, d))
                  (ground (arith, d, s, strangers-snoc value id owners rows))
                  (ground (arith, d, k, fresh-snoc (λ r. r.0) id value kept rows)) in
              ground (
                arith,
                c,
                b,
                h,
                s,
                k,
                taken_lem id value owners,
                insert_new value id owners h,
                insert_new id value kept,
                append_cons owners (value, id) (map swap rest),
                append_cons kept (id, value) rest,
                fresh-snoc (λ r. r.1) value id owners rest,
                more,
              )
        ]
      ]
    ]

keep_all : (rows : Rows) → keep (λ r. not false) rows ≡ rows
keep_all [] = refl
keep_all (r ∷ rows) = ap (λ x. r ∷ x) (keep_all rows)

pub all-true : (rows : Rows) → all (λ r. true) rows ≡ true
all-true [] = refl
all-true (r ∷ rows) = all-true rows

-- A loop from empty maps.
pub claims_from_nothing :
    (check : Text → Text → Option IndexError) (skips : Text → Bool) (e : IndexError) (rows : Rows)
    → distinct_ids rows ≡ true
    → to_option (claim_rows check skips e rows [] []) ≡ (
        if all (λ r. not (is_some (check r.0 r.1))) rows
          && distinct_values (keep (λ r. not (skips r.0)) rows)
        then some (map swap (keep (λ r. not (skips r.0)) rows), keep (λ r. not (skips r.0)) rows)
        else none)
unfolding has_key lookup
claims_from_nothing check skips e rows d = ground (
  arith,
  claim_rows_lem check skips e rows [] [] d (all-true rows) (all-true rows),
  all-true (keep (λ r. not (skips r.0)) rows),
)

-- The same where no row is skipped.
pub claims_all :
    (check : Text → Text → Option IndexError) (e : IndexError) (rows : Rows)
    → distinct_ids rows ≡ true
    → to_option (claim_rows check (λ id. false) e rows [] []) ≡ (
        if all (λ r. not (is_some (check r.0 r.1))) rows && distinct_values rows
        then some (map swap rows, rows)
        else none)
claims_all check e rows d =
    claims_from_nothing check (λ id. false) e rows d
    ∙ ap
        (λ x.
          if all (λ r. not (is_some (check r.0 r.1))) rows && distinct_values x
          then some (map swap x, x)
          else none)
        (keep_all rows)

pub to_option-none :
    {A : Type 0} (r : Result IndexError A) → to_option r ≡ none → (e : IndexError) × (r ≡ err e)
to_option-none (ok a) h = cc
to_option-none (err e) h = (e, refl)

pub to_option-some :
    {A : Type 0} (r : Result IndexError A) {a : A} → to_option r ≡ some a → r ≡ ok a
to_option-some (ok b) h = ground (arith, h)
to_option-some (err e) h = cc

pub bind_lem :
    {A B : Type 0} (r : Result IndexError A) (f : A → Result IndexError B) (b : Bool) (a : A)
    → to_option r ≡ (if b then some a else none)
    → to_option (r >>= f) ≡ (if b then to_option (f a) else none)
bind_lem (ok x) f true a h = ap (λ o. elim o [ none ↦ none | some y ↦ to_option (f y) ]) h
bind_lem (ok x) f false a h = cc
bind_lem (err e) f true a h = cc
bind_lem (err e) f false a h = refl
