-- ===== src/Quota/Day.antt =====
-- The daily limit over any sequence of reservations (internal/firestore/quota.go).
use llm_wiki_bff.Core.{
  ℕ, ◌+◌, ◌≤◌, ◌<◌, ◌≡◌, Bool, true, false, Option, none, some, List, [], ◌∷◌, Result, ok, err, All,
  arith, Bool-cases, inl, inr, if◌then◌else◌, ap, sym, ◌∙◌,
}
use llm_wiki_bff.Core.Int.{ℤ, pos, ◌+ℤ◌, +ℤ-pos, ◌<ℤ◌, max_int64}
use llm_wiki_bff.Core.Text.{Text, str_eq, str_eq_refl}
use llm_wiki_bff.Quota.{Limits, Input, Snapshot, day_key_utc, with_defaults, runs_counted, evaluate}
use llm_wiki_bff.Quota.Decide.{evaluate_allowed}
use llm_wiki_bff.Quota.Store.{
  Doc, QuotaPrev, Request, quota_state, input_of, reserved_state, written, reserve_quota,
}
use llm_wiki_bff.Quota.Reserve.{reserve_quota_exact, stored_state}

-- Whether the result of ReserveQuota is a reservation.
abbrev pub is_reserved : Result Unit (QuotaPrev × Snapshot × Bool) → Bool
is_reserved (ok (prev, snap, reserved)) = reserved
is_reserved (err e) = false

-- The requests of a project one after the other, each over the document that the one before left:
-- how many were reserved.
abbrev pub reservations : (ℕ → ℕ) → List Request → Option Doc → ℕ
reservations keep [] doc = 0
reservations keep (r ∷ rs) doc =
    let (result, write) = reserve_quota r [] (ok doc) true in
    (if is_reserved result then 1 else 0) + reservations keep rs (written keep write doc)

-- The runs that a document counts for a day.
abbrev pub counted : Text → QuotaPrev → ℤ
counted k s = if str_eq s.day_key k then s.runs_today else pos 0

runs_today-evaluate : (i : Input) → (evaluate i).runs_today ≡ runs_counted i
unfolding evaluate
runs_today-evaluate i = ground arith

-- A request is on the day `k` under the limits `lim`.
abbrev pub IsOn : Text → Limits → Request → Type 0
IsOn k lim r = (day_key_utc r.now ≡ k) × (r.limits ≡ lim)

runs_counted-input :
    (k : Text) (r : Request) (s : QuotaPrev)
    → day_key_utc r.now ≡ k
    → runs_counted (input_of r s) ≡ counted k s
unfolding runs_counted input_of
runs_counted-input k r s e = rw e

below_of : (x y : ℤ) (c n : ℕ) → x ≡ pos c → y ≡ pos n → x <ℤ y → c < n
below_of x y c n e l h = ground arith

-- An allowed run is below the limit.
allowed_below :
    (k : Text) (lim : Limits) (n c : ℕ) (r : Request) (s : QuotaPrev)
    → (with_defaults lim).daily_limit ≡ pos n
    → IsOn k lim r
    → counted k s ≡ pos c
    → (evaluate (input_of r s)).allowed ≡ true
    → c < n
unfolding input_of
allowed_below k lim n c r s limit (on, lims) cs a = elim ((evaluate_allowed (input_of r s)).0 a) [
  | inl off ↦ cc
  | inr m ↦
      let e : runs_counted (input_of r s) ≡ pos c = runs_counted-input k r s on ∙ cs in
      let l : (with_defaults r.limits).daily_limit ≡ pos n =
        ap (λ x. (with_defaults x).daily_limit) lims ∙ limit in
      below_of (runs_counted (input_of r s)) (with_defaults r.limits).daily_limit c n e l m.within
]

-- A state of the day `k` counts all its runs.
counted_now :
    (k j : Text) (z : ℤ) (t : ℕ)
    → j ≡ k
    → counted k (record { runs_today = z; day_key = j; last_run_at = t }) ≡ z
counted_now k j z t e = rw e (ground (arith, str_eq_refl k))

-- The two outcomes, by the verdict.
abbrev outcome_if :
    Request → QuotaPrev → Bool → Result Unit (QuotaPrev × Snapshot × Bool) × Option QuotaPrev
outcome_if r s a =
    let pre = evaluate (input_of r s) in
    if a
    then (ok (s, evaluate (input_of r (reserved_state r pre)), true), some (reserved_state r pre))
    else (ok (s, pre, false), none)

-- What a reservation stores counts one more.
reserved_counts :
    (k : Text) (n c : ℕ) (keep : ℕ → ℕ) (r : Request) (s : QuotaPrev) (doc : Option Doc)
    → day_key_utc r.now ≡ k
    → counted k s ≡ pos c
    → c < n
    → n ≤ max_int64
    → counted k (quota_state (written keep (some (reserved_state r (evaluate (input_of r s)))) doc))
      ≡ pos (c + 1)
unfolding reserved_state
reserved_counts k n c keep r s doc on cs less b =
    let i = input_of r s in
    let runs : (evaluate i).runs_today ≡ pos c =
      runs_today-evaluate i ∙ runs_counted-input k r s on ∙ cs in
    ap (counted k) (stored_state keep (reserved_state r (evaluate i)) doc)
    ∙ counted_now k (day_key_utc r.now) ((evaluate i).runs_today +ℤ pos 1) (keep r.now) on
    ∙ ap (λ z. z +ℤ pos 1) runs
    ∙ +ℤ-pos c 1 (omega arith)

-- One request of the day: the count of the document goes up by one if it was reserved, which
-- happens only below the limit, and stays otherwise.
request_step :
    (k : Text) (lim : Limits) (n c : ℕ) (keep : ℕ → ℕ) (r : Request) (doc : Option Doc)
    → (with_defaults lim).daily_limit ≡ pos n
    → n ≤ max_int64
    → IsOn k lim r
    → counted k (quota_state doc) ≡ pos c
    → c ≤ n
    → (d : ℕ) × (d ≡ (if is_reserved (reserve_quota r [] (ok doc) true).0 then 1 else 0))
      × (c + d ≤ n)
      × (counted k (quota_state (written keep (reserve_quota r [] (ok doc) true).1 doc))
          ≡ pos (c + d))
unfolding written
request_step k lim n c keep r doc limit b on cs le =
    let s = quota_state doc in
    let e = (reserve_quota_exact r [] doc true).0 in
    elim (Bool-cases (evaluate (input_of r s)).allowed) [
      | inl a ↦
          let f : reserve_quota r [] (ok doc) true ≡ (
            ok (s, evaluate (input_of r (reserved_state r (evaluate (input_of r s)))), true),
            some (reserved_state r (evaluate (input_of r s))),
          ) =
            e ∙ ap (outcome_if r s) a in
          let less = allowed_below k lim n c r s limit on cs a in
          (
            1,
            ap (λ x. if is_reserved x.0 then 1 else 0) (sym f),
            omega arith,
            ap (λ x. counted k (quota_state (written keep x.1 doc))) f
                ∙ reserved_counts k n c keep r s doc on.0 cs less b,
          )
      | inr a ↦
          let f : reserve_quota r [] (ok doc) true
              ≡ (ok (s, evaluate (input_of r s), false), none) =
            e ∙ ap (outcome_if r s) a in
          (
            0,
            ap (λ x. if is_reserved x.0 then 1 else 0) (sym f),
            omega arith,
            ap (λ x. counted k (quota_state (written keep x.1 doc))) f ∙ cs ∙ ap pos (omega arith),
          )
    ]

-- However the requests of one day come, with the same limits, no more runs are reserved than the
-- daily limit leaves beside those that the document already counts for the day.
pub daily_limit_kept :
    (k : Text) (lim : Limits) (n c : ℕ) (keep : ℕ → ℕ) (rs : List Request) (doc : Option Doc)
    → (with_defaults lim).daily_limit ≡ pos n
    → n ≤ max_int64
    → All (IsOn k lim) rs
    → counted k (quota_state doc) ≡ pos c
    → c ≤ n
    → c + reservations keep rs doc ≤ n
daily_limit_kept k lim n c keep [] doc limit b on cs le = omega arith
daily_limit_kept k lim n c keep (r ∷ rs) doc limit b (on, ons) cs le =
    let (d, e, small, next) = request_step k lim n c keep r doc limit b on cs le in
    let ih =
      daily_limit_kept k lim n (c + d) keep rs
        (written keep (reserve_quota r [] (ok doc) true).1 doc) limit b ons next small in
    omega (arith, ih, e)
