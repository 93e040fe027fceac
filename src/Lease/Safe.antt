-- ===== src/Lease/Safe.antt =====
-- Whose lease acquireCloudLease (cmd/olw_worker/lease_liveness.go) may take over.
use llm_wiki_bff.Core.{
  ◌≡◌, ◌≢◌, ◌⊎◌, inl, inr, true, false, not, ◌||◌, Option, none, some, [], ◌++◌, ok, err, arith,
  ◌∙◌, Bool-cases, Option-cases, Result-cases,
}
use llm_wiki_bff.Core.Int.{ℤ, pos, leb_ℤ}
use llm_wiki_bff.Core.Text.{Text, str_eq, trim_space}
use llm_wiki_bff.Lease.{
  Liveness, terminal, not_found, malformed, Payload, allow_lease_reclaim, valid_execution_id,
  job_name, belongs_to_job, conflict, missing, ObjectStore, Held, held, no_generation, refused,
  Worker, lease_path, parse_lease_payload, try_create, delete_lease, reclaim_from, reclaim_read,
  maybe_reclaim, acquire_contended, acquire,
}

-- What the probe says of a holder, in the scope of the worker's job.
abbrev pub probed : Worker → Payload → Liveness
probed w p = w.probe p.execution (trim_space (job_name w.job_variables))

allow_lease_reclaim_refuses :
    (l : Liveness) → l ≢ terminal → l ≢ not_found → allow_lease_reclaim l ≡ false
unfolding allow_lease_reclaim
allow_lease_reclaim_refuses l h k = ground (arith, h, k)

allow_lease_reclaim_admits :
    (l : Liveness) → allow_lease_reclaim l ≡ true → (l ≡ terminal) ⊎ (l ≡ not_found)
unfolding allow_lease_reclaim
allow_lease_reclaim_admits l h = ground (arith, h)

module _ {S : Type 0} (store : ObjectStore S) (w : Worker) where
  reclaim_from_live :
      (s : S) (name : Text) (g : ℤ) (p : Payload)
      → allow_lease_reclaim (probed w p) ≡ false
      → (h : Held) × (reclaim_from store w s name g p ≡ (s, some h))
  unfolding reclaim_from
  reclaim_from_live s name g p live =
      let job = trim_space (job_name w.job_variables) in
      elim (Bool-cases (str_eq job [] || not (belongs_to_job p.execution job))) [
        | inl e ↦ (refused malformed, ground (arith, e))
        | inr e ↦ (refused (probed w p), ground (arith, e, live))
      ]

  reclaim_read_live :
      (s : S) (name data_ : Text) (g : ℤ) (p : Payload)
      → parse_lease_payload w data_ ≡ some p
      → allow_lease_reclaim (probed w p) ≡ false
      → (h : Held) × (reclaim_read store w s name data_ g ≡ (s, some h))
  unfolding reclaim_read
  reclaim_read_live s name data_ g p e live = elim (Bool-cases (leb_ℤ g (pos 0))) [
    | inl low ↦ (no_generation, ground (arith, low))
    | inr high ↦ let (h, r) = reclaim_from_live s name g p live in (h, ground (arith, high, e, r))
  ]

  maybe_reclaim-read :
      (s s' : S) (name data_ : Text) (g : ℤ) (o : Option Held)
      → store.read s name ≡ (s', ok (data_, g))
      → reclaim_read store w s' name data_ g ≡ (s', o)
      → maybe_reclaim store w s name ≡ (s', o)
  unfolding maybe_reclaim
  maybe_reclaim-read s s' name data_ g o r k = ground (arith, r, k)

  acquire_contended-refused :
      (s s' : S) (name holder started_at : Text) (h : Held)
      → maybe_reclaim store w s name ≡ (s', some h)
      → acquire_contended store w s name holder started_at ≡ (s', err (held h))
  unfolding acquire_contended
  acquire_contended-refused s s' name holder started_at h k = ground (arith, k)

  acquire-conflict :
      (s s' : S) (prefix execution first second : Text)
      → valid_execution_id (trim_space execution) ≡ true
      → store.create s (prefix ++ lease_path) (w.marshal (trim_space execution) first)
        ≡ (s', err conflict)
      → acquire store w s prefix execution first second
        ≡ acquire_contended store w s' (prefix ++ lease_path) (trim_space execution) second
  unfolding acquire try_create
  acquire-conflict s s' prefix execution first second v c = ground (arith, v, c)

  -- A worker that meets a lease whose holder the probe does not find at its end, or gone, leaves
  -- the store as the read left it: it deletes nothing, and fails to acquire the lease.
  pub acquire_spares_live :
      (s s' s'' : S) (prefix execution first second data_ : Text) (g : ℤ) (p : Payload)
      → valid_execution_id (trim_space execution) ≡ true
      → store.create s (prefix ++ lease_path) (w.marshal (trim_space execution) first)
        ≡ (s', err conflict)
      → store.read s' (prefix ++ lease_path) ≡ (s'', ok (data_, g))
      → parse_lease_payload w data_ ≡ some p
      → probed w p ≢ terminal
      → probed w p ≢ not_found
      → (h : Held) × (acquire store w s prefix execution first second ≡ (s'', err (held h)))
  acquire_spares_live s s' s'' prefix execution first second data_ g p v c r e not_ended not_gone =
      let (h, k) =
        reclaim_read_live s'' (prefix ++ lease_path) data_ g p e
          (allow_lease_reclaim_refuses (probed w p) not_ended not_gone) in
      (
        h,
        acquire-conflict s s' prefix execution first second v c
            ∙ acquire_contended-refused s' s'' (prefix ++ lease_path) (trim_space execution) second
                h (maybe_reclaim-read s' s'' (prefix ++ lease_path) data_ g (some h) r k),
      )

  -- Why a lease counts as reclaimed.
  pub record Reclaimed (s s' : S) (name : Text) : Type 0 where
    pub state : S
    pub body : Text
    pub generation : ℤ
    pub holder : Payload
    pub was_read : store.read s name ≡ (state, ok (body, generation))
    pub parsed : parse_lease_payload w body ≡ some holder
    pub own_job : belongs_to_job holder.execution (trim_space (job_name w.job_variables)) ≡ true
    pub at_end : (probed w holder ≡ terminal) ⊎ (probed w holder ≡ not_found)
    pub deleted : delete_lease store w state name generation ≡ (s', none)

  reclaim_from_sound :
      (s s' : S) (name : Text) (g : ℤ) (p : Payload)
      → reclaim_from store w s name g p ≡ (s', none)
      → (belongs_to_job p.execution (trim_space (job_name w.job_variables)) ≡ true)
        × (allow_lease_reclaim (probed w p) ≡ true)
        × (delete_lease store w s name g ≡ (s', none))
  unfolding reclaim_from
  reclaim_from_sound s s' name g p h =
      let job = trim_space (job_name w.job_variables) in
      elim (Bool-cases (str_eq job [] || not (belongs_to_job p.execution job))) [
        | inl e ↦ absurd (ground (arith, e, h))
        | inr e ↦ elim (Bool-cases (allow_lease_reclaim (probed w p))) [
          | inr live ↦ absurd (ground (arith, e, live, h))
          | inl l ↦ (ground (arith, e), l, ground (arith, e, l, h))
        ]
      ]

  reclaim_read_sound :
      (s s' t : S) (name data_ : Text) (g : ℤ)
      → store.read s name ≡ (t, ok (data_, g))
      → reclaim_read store w t name data_ g ≡ (s', none)
      → Reclaimed s s' name
  unfolding reclaim_read
  reclaim_read_sound s s' t name data_ g r h = elim (Bool-cases (leb_ℤ g (pos 0))) [
    | inl low ↦ absurd (ground (arith, low, h))
    | inr high ↦ elim (Option-cases (parse_lease_payload w data_)) [
      | inl e ↦ absurd (ground (arith, high, e, h))
      | inr (p, e) ↦
          let (mine, l, d) = reclaim_from_sound t s' name g p (ground (arith, high, e, h)) in
          record {
            state = t;
            body = data_;
            generation = g;
            holder = p;
            was_read = r;
            parsed = e;
            own_job = mine;
            at_end = allow_lease_reclaim_admits (probed w p) l;
            deleted = d;
          }
    ]
  ]

  -- A lease counts as reclaimed only if it was found missing, or if its body names a holder of the
  -- worker's own job that the probe finds at its end or gone, and the deletion of the very
  -- generation that was read succeeded or was forestalled.
  pub maybe_reclaim_sound :
      (s s' : S) (name : Text)
      → maybe_reclaim store w s name ≡ (s', none)
      → (store.read s name ≡ (s', err missing)) ⊎ Reclaimed s s' name
  unfolding maybe_reclaim
  maybe_reclaim_sound s s' name h = elim (Result-cases (store.read s name).1) [
    | inr (x, e) ↦ inl (ground (arith, e, h))
    | inl ((data_, g), e) ↦ inr (
        reclaim_read_sound s s' (store.read s name).0 name data_ g (ground (arith, e))
          (ground (arith, e, h)))
  ]
