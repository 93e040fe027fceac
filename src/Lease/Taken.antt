-- ===== src/Lease/Taken.antt =====
-- How acquireCloudLease (cmd/olw_worker/lease_liveness.go) comes by a lease, and how
-- cloudLease.Release gives it up.
use llm_wiki_bff.Core.{
  ℕ, zero, suc, ◌≡◌, ◌⊎◌, ◌↔◌, inl, inr, true, false, ◌++◌, ok, arith, Bool-cases, Option-cases,
  Result-cases,
}
use llm_wiki_bff.Core.Int.{ℤ, pos, leb_ℤ}
use llm_wiki_bff.Core.Text.{Text, trim_space}
use llm_wiki_bff.Lease.{
  valid_execution_id, conflict, missing, other, ObjectStore, Lease, Worker, lease_path, try_create,
  retry_create, maybe_reclaim, acquire_contended, acquire, cleanup, release,
}

module _ {S : Type 0} (store : ObjectStore S) (w : Worker) where
  -- The lease is the object that a create-only write has just made.
  pub record Created (s' : S) (name holder : Text) (l : Lease) : Type 0 where
    pub before : S
    pub started_at : Text
    pub made : store.create before name (w.marshal holder started_at) ≡ (s', ok l.generation)
    pub named : l.name ≡ name

  try_create-Created :
      (s s' : S) (name holder at : Text) (l : Lease)
      → try_create store w s name holder at ≡ (s', ok l)
      → Created s' name holder l
  unfolding try_create
  try_create-Created s s' name holder at l h =
      elim (Result-cases (store.create s name (w.marshal holder at)).1) [
        | inr (x, e) ↦ absurd (ground (arith, e, h))
        | inl (g, e) ↦ record {
          before = s;
          started_at = at;
          made = ground (arith, e, h);
          named = ground (arith, e, h);
        }
      ]

  retry_create-Created :
      (s s' : S) (name holder at : Text) (l : Lease)
      → retry_create store w s name holder at ≡ (s', ok l)
      → Created s' name holder l
  unfolding retry_create
  retry_create-Created s s' name holder at l h =
      elim (Result-cases (try_create store w s name holder at).1) [
        | inr (x, e) ↦ absurd (ground (arith, e, h))
        | inl (m, e) ↦ try_create-Created s s' name holder at l (ground (arith, e, h))
      ]

  acquire_contended-Created :
      (s s' : S) (name holder at : Text) (l : Lease)
      → acquire_contended store w s name holder at ≡ (s', ok l)
      → Created s' name holder l
  unfolding acquire_contended
  acquire_contended-Created s s' name holder at l h =
      elim (Option-cases (maybe_reclaim store w s name).1) [
        | inr (x, e) ↦ absurd (ground (arith, e, h))
        | inl e ↦
            retry_create-Created (maybe_reclaim store w s name).0 s' name holder at l
              (ground (arith, e, h))
      ]

  -- A lease that acquireCloudLease returns is the object below the project's prefix that a
  -- create-only write made last, for the given execution, which is a valid identifier.
  pub acquire-Created :
      (s s' : S) (prefix execution first second : Text) (l : Lease)
      → acquire store w s prefix execution first second ≡ (s', ok l)
      → (valid_execution_id (trim_space execution) ≡ true)
        × Created s' (prefix ++ lease_path) (trim_space execution) l
  unfolding acquire
  acquire-Created s s' prefix execution first second l h =
      let holder = trim_space execution in
      let name = prefix ++ lease_path in
      elim (Bool-cases (valid_execution_id holder)) [
        | inr v ↦ absurd (ground (arith, v, h))
        | inl v ↦ (
          v,
          elim (Result-cases (try_create store w s name holder first).1) [
            | inl (m, e) ↦ try_create-Created s s' name holder first l (ground (arith, v, e, h))
            | inr (conflict, e) ↦
                acquire_contended-Created (try_create store w s name holder first).0 s' name holder
                  second l (ground (arith, v, e, h))
            | inr (missing, e) ↦ absurd (ground (arith, v, e, h))
            | inr (other, e) ↦ absurd (ground (arith, v, e, h))
          ],
        )
      ]

  -- Whether one of the next deletions succeeds, each in the state that the one before left.
  abbrev pub SomeDelete : ℕ → S → Text → ℤ → Type 0
  SomeDelete zero s name g = ⊥
  SomeDelete (suc n) s name g =
      ((store.delete s name g).1 ≡ ok tt) ⊎ SomeDelete n (store.delete s name g).0 name g

  cleanup_sound :
      (n : ℕ) (s : S) (name : Text) (g : ℤ)
      → (cleanup store w n s name g).1 ≡ true
      → SomeDelete n s name g
  unfolding cleanup
  cleanup_sound zero s name g h = absurd cc
  cleanup_sound (suc n) s name g h = elim (Result-cases (store.delete s name g).1) [
    | inl (tt, e) ↦ inl e
    | inr (x, e) ↦ inr (cleanup_sound n (store.delete s name g).0 name g (ground (arith, e, h)))
  ]

  cleanup_complete :
      (n : ℕ) (s : S) (name : Text) (g : ℤ)
      → SomeDelete n s name g
      → (cleanup store w n s name g).1 ≡ true
  unfolding cleanup
  cleanup_complete zero s name g h = elim h [ ]
  cleanup_complete (suc n) s name g (inl e) = ground (arith, e)
  cleanup_complete (suc n) s name g (inr h) =
      let rest = cleanup_complete n (store.delete s name g).0 name g h in ground (arith, rest)

  -- The release of a lease reports success exactly if the lease has a positive generation and one
  -- of its attempts, each in the state that the one before left, deletes that generation.
  pub release_exact :
      (attempts : ℕ) (s : S) (l : Lease)
      → ((release store w attempts s l).1 ≡ true)
        ↔ ((leb_ℤ l.generation (pos 0) ≡ false) × SomeDelete attempts s l.name l.generation)
  unfolding release
  release_exact zero s l = ground arith
  release_exact (suc n) s l = (
    λ h. (ground (arith, h), cleanup_sound (suc n) s l.name l.generation (ground (arith, h))),
    λ (k, d). ground (arith, k, cleanup_complete (suc n) s l.name l.generation d),
  )
