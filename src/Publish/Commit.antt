-- ===== src/Publish/Commit.antt =====
-- The commit of a manifest (cmd/olw_worker/cloud_publish.go): its condition, and its read-back.
use llm_wiki_bff.Core.{
  ◌≡◌, refl, Option, none, some, ◌++◌, Result, ok, err, ◌⊎◌, inl, inr, length, true, Bool-cases,
  Result-cases, arith, ap, ◌∙◌,
}
use llm_wiki_bff.Core.Int.{ℤ}
use llm_wiki_bff.Core.Text.{Text, str_eq, str_eq_sound, ne_of_str_eq}
use llm_wiki_bff.Generation.{Host, Manifest}
use llm_wiki_bff.Generation.Decode.{encode, decode}
use llm_wiki_bff.Lease.{StoreError, missing, conflict, other}
use llm_wiki_bff.Publish.Equal.{manifest_eq_sound, manifest_eq_refl}
use llm_wiki_bff.Publish.{
  ObjectConditions, does_not_exist, generation_match, ObjectAttrs, Bucket, Codec, PublishError,
  Confirmed, committed, not_committed, unknown, manifest_path, after_failure, after_write,
  confirm_read, manifest_eq, confirm_manifest_commit, commit, commit_condition, outcome_unknown,
  conflicted,
}

-- The condition that belongs to the manifest that was there.
abbrev pub IsGuard : Option (Text × ℤ) → ObjectConditions → Type 0
IsGuard none c = c ≡ does_not_exist
IsGuard (some (d, g)) c = c ≡ generation_match g

module _ {S : Type 0} (bucket : Bucket S) (host : Host) (codec : Codec)
    (read_file : Text → Option Text) (prefix : Text) (m : Manifest) where
  -- `d` is the printed manifest, or reads as the manifest.
  abbrev pub Shows : Text → Type 0
  Shows d = (d ≡ codec.print (encode host m)) ⊎ (decode host (length d) (codec.parse d) ≡ ok m)

  -- What is reported by what the read-back found.
  abbrev pub IsReport : Result StoreError (Text × ℤ) → Result PublishError (Manifest × ℤ) → Type 0
  IsReport (err missing) r = r ≡ err conflicted
  IsReport (err conflict) r = r ≡ err outcome_unknown
  IsReport (err other) r = r ≡ err outcome_unknown
  IsReport (ok (d, g)) r = (Shows d × (r ≡ ok (m, g))) ⊎ ((¬ (Shows d)) × (r ≡ err conflicted))

  -- The report on a write `w` of the manifest: its generation, or what the read-back after it
  -- decides.
  abbrev pub IsCommitted :
      S × Result StoreError ObjectAttrs → S × Result PublishError (Manifest × ℤ) → Type 0
  IsCommitted (s, ok a) r = r ≡ (s, ok (m, a.generation))
  IsCommitted (s, err e) r =
      (r.0 ≡ (bucket.read s (prefix ++ manifest_path)).0)
      × IsReport (bucket.read s (prefix ++ manifest_path)).1 r.1

  confirm_read-IsReport :
      (s : S) (x : Result StoreError (Text × ℤ))
      → IsReport x
          (after_failure bucket host codec read_file prefix m (
            s,
            confirm_read bucket host codec read_file prefix (codec.print (encode host m)) m x,
          )).1
  unfolding confirm_read after_failure
  confirm_read-IsReport s (err missing) = refl
  confirm_read-IsReport s (err conflict) = refl
  confirm_read-IsReport s (err other) = refl
  confirm_read-IsReport s (ok (d, g)) = elim (Bool-cases (str_eq d (codec.print (encode host m)))) [
    | inl t ↦ inl (inl (str_eq_sound d _ t), ground (arith, t))
    | inr t ↦ elim (Result-cases (decode host (length d) (codec.parse d))) [
      | inr (x, k) ↦ inr (
        (λ h. elim h [ inl e ↦ ne_of_str_eq d _ t e | inr e ↦ absurd (ground (arith, k, e)) ]),
        ground (arith, t, k),
      )
      | inl (n, k) ↦ elim (Bool-cases (manifest_eq n m)) [
        | inl u ↦ inl (inr (k ∙ ap ok (manifest_eq_sound n m u)), ground (arith, t, k, u))
        | inr u ↦ inr (
          (λ h. elim h [
            | inl e ↦ ne_of_str_eq d _ t e
            | inr e ↦
                let same : n ≡ m = ground (arith, k, e) in
                let v : manifest_eq n m ≡ true = rw same (manifest_eq_refl m) in
                absurd (ground (arith, u, v))
          ]),
          ground (arith, t, k, u),
        )
      ]
    ]
  ]

  after_failure_state :
      (r : S × Confirmed) → (after_failure bucket host codec read_file prefix m r).0 ≡ r.0
  unfolding after_failure
  after_failure_state (s, committed g) = refl
  after_failure_state (s, not_committed) = refl
  after_failure_state (s, unknown) = refl

  after_write-IsCommitted :
      (w : S × Result StoreError ObjectAttrs)
      → IsCommitted w
          (after_write bucket host codec read_file prefix (codec.print (encode host m)) m w)
  unfolding after_write confirm_manifest_commit
  after_write-IsCommitted (s, ok a) = refl
  after_write-IsCommitted (s, err e) = (
    after_failure_state (
        confirm_manifest_commit bucket host codec read_file prefix s (codec.print (encode host m))
          m),
    confirm_read-IsReport (bucket.read s (prefix ++ manifest_path)).0
        (bucket.read s (prefix ++ manifest_path)).1,
  )

  -- The commit makes one write of the printed manifest, on the condition that the old manifest has
  -- its generation still, or that there is none still. Where it succeeds, its generation is
  -- reported. Where it fails, one read of the object decides: the manifest is reported with the
  -- generation that was read exactly if the object shows it, a conflict if the object is missing or
  -- shows another, and an unknown outcome if it cannot be read.
  pub commit_exact :
      (s : S) (old : Option (Text × ℤ))
      → (c : ObjectConditions) × IsGuard old c
        × IsCommitted
            (bucket.write s
              (prefix ++ manifest_path)
              (codec.print (encode host m))
              (some (host.sha256_hex (codec.print (encode host m))))
              c)
            (commit bucket host codec read_file prefix s old m)
  unfolding commit commit_condition
  commit_exact s none = (does_not_exist, refl, after_write-IsCommitted _)
  commit_exact s (some (d, g)) = (generation_match g, refl, after_write-IsCommitted _)
