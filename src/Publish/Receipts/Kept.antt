-- ===== src/Publish/Receipts/Kept.antt =====
-- The loops of mergeCloudSuccess and mergeCloudFailure (cmd/olw_worker/cloud_publish.go).
use llm_wiki_bff.Core.{
  ◌≡◌, ◌⊎◌, refl, true, false, not, ◌||◌, some, List, [], ◌∷◌, ◌++◌, Result, ok, err, Member, here,
  there, arith, Bool-cases, Option-cases, inl, inr, if◌then◌else◌,
}
use llm_wiki_bff.Core.Int.{ℤ}
use llm_wiki_bff.Core.Text.{Text, codes, str_eq, str_eq_sound}
use llm_wiki_bff.Core.Dict.{lookup, insert, lookup-insert}
use llm_wiki_bff.Generation.{Host}
use llm_wiki_bff.Lease.{StoreError, conflict, missing, other}
use llm_wiki_bff.Sources.{annotation_digest}
use llm_wiki_bff.Sources.SourceStatus.{Receipt, Artifact}
use llm_wiki_bff.Publish.{Snapshot, Bucket}
use llm_wiki_bff.Publish.Receipts.{
  AnnotationObject, Formats, valid_annotation, annotation_current, raw_current, snapshot_current,
  merge_snapshots,
}

module _ {S : Type 0} (bucket : Bucket S) (host : Host) (formats : Formats) (prefix : Text) where
  -- What was read as the raw file has the snapshot's digest.
  abbrev pub IsRaw : Snapshot → Result StoreError (Text × ℤ) → Type 0
  IsRaw x (err e) = ⊥
  IsRaw x (ok (raw, g)) = host.sha256_hex raw ≡ x.raw_sha256

  -- What was read as the annotation is valid with the snapshot's digest, or missing where the
  -- digest is that of no annotation.
  abbrev pub IsNoted : Snapshot → Result StoreError (Text × ℤ) → Type 0
  IsNoted x (err missing) = x.annotation_sha ≡ annotation_digest host []
  IsNoted x (err conflict) = ⊥
  IsNoted x (err other) = ⊥
  IsNoted x (ok (b, g)) =
      (o : AnnotationObject) × (formats.unmarshal b ≡ some o)
      × (valid_annotation host formats o x.source_id x.raw_path ≡ true)
      × (o.sha256 ≡ x.annotation_sha)

  -- Read from the state `t` on, the raw file and the annotation are those of the snapshot.
  abbrev pub IsCurrent : S → Snapshot → Type 0
  IsCurrent t x =
      IsRaw x (bucket.read t (prefix ++ x.raw_path)).1
      × IsNoted x
          (bucket.read (bucket.read t (prefix ++ x.raw_path)).0
            (prefix ++ (codes "cache/annotations/" ++ (x.source_id ++ codes ".json")))).1

  raw_current-IsRaw :
      (x : Snapshot) (r : Result StoreError (Text × ℤ))
      → raw_current bucket host formats prefix x r ≡ true
      → IsRaw x r
  unfolding raw_current
  raw_current-IsRaw x (err e) h = cc
  raw_current-IsRaw x (ok (raw, g)) h = str_eq_sound (host.sha256_hex raw) x.raw_sha256 h

  annotation_current-IsNoted :
      (x : Snapshot) (r : Result StoreError (Text × ℤ))
      → annotation_current bucket host formats prefix x r ≡ true
      → IsNoted x r
  unfolding annotation_current
  annotation_current-IsNoted x (err missing) h =
      str_eq_sound x.annotation_sha (annotation_digest host []) h
  annotation_current-IsNoted x (err conflict) h = cc
  annotation_current-IsNoted x (err other) h = cc
  annotation_current-IsNoted x (ok (b, g)) h = elim (Option-cases (formats.unmarshal b)) [
    | inl n ↦ absurd (ground (arith, n, h))
    | inr (o, k) ↦
        (o, k, ground (arith, k, h), str_eq_sound o.sha256 x.annotation_sha (ground (arith, k, h)))
  ]

  snapshot_current-IsCurrent :
      (t : S) (x : Snapshot)
      → (snapshot_current bucket host formats prefix t x).1 ≡ true
      → IsCurrent t x
  unfolding snapshot_current
  snapshot_current-IsCurrent t x h =
      elim (Bool-cases
        (raw_current bucket host formats prefix x (bucket.read t (prefix ++ x.raw_path)).1)) [
          | inl e ↦ (raw_current-IsRaw x _ e, annotation_current-IsNoted x _ (ground (arith, e, h)))
          | inr e ↦ absurd (ground (arith, e, h))
        ]

module _ {S : Type 0} (bucket : Bucket S) (host : Host) (formats : Formats) (prefix : Text)
    (receipt : S → Artifact → Snapshot → Receipt) where
  -- Under `id` stands what stood there, or the receipt of a snapshot that was found current.
  abbrev pub IsKept : List Snapshot → Artifact → Artifact → Text → Type 0
  IsKept xs a a' id =
      (lookup id a'.sources ≡ lookup id a.sources)
      ⊎ ((x : Snapshot) × Member x xs
          × (x.tombstone ≡ false)
          × (x.source_id ≡ id)
          × (t : S) × IsCurrent bucket host formats prefix t x
          × (u : S) × (b : Artifact) × (lookup id a'.sources ≡ some (receipt u b x)))

  one_step :
      (x : Snapshot) (xs : List Snapshot) (s : S) (a a' : Artifact) (id : Text)
      → lookup id a'.sources
        ≡ lookup id
            (if x.tombstone || not (snapshot_current bucket host formats prefix s x).1
              then a
              else record a {
                sources =
                    insert x.source_id
                      (receipt (snapshot_current bucket host formats prefix s x).0 a x)
                      a.sources;
              }).sources
      → IsKept (x ∷ xs) a a' id
  one_step x xs s a a' id e =
      let current = (snapshot_current bucket host formats prefix s x).1 in
      elim (Bool-cases (x.tombstone || not current)) [
        | inl t ↦ inl (ground (arith, t, e))
        | inr t ↦ elim (Bool-cases (str_eq x.source_id id)) [
          | inl u ↦ inr (
            x,
            here,
            ground (arith, t),
            str_eq_sound x.source_id id u,
            s,
            snapshot_current-IsCurrent bucket host formats prefix s x (ground (arith, t)),
            (snapshot_current bucket host formats prefix s x).0,
            a,
            ground (
              arith,
              t,
              u,
              e,
              lookup-insert x.source_id id
                  (receipt (snapshot_current bucket host formats prefix s x).0 a x) a.sources,
            ),
          )
          | inr u ↦ inl (
              ground (
                arith,
                t,
                u,
                e,
                lookup-insert x.source_id id
                    (receipt (snapshot_current bucket host formats prefix s x).0 a x) a.sources,
              ))
        ]
      ]

  -- After the loop over the snapshots of mergeCloudSuccess or mergeCloudFailure each source has the
  -- receipt that it had, or the one that the merge makes of a snapshot of this source that is no
  -- tombstone and whose objects were found current: the raw object has its digest, and the
  -- annotation is valid with its digest, or missing where the digest is that of no annotation.
  pub merge_snapshots_keeps :
      (xs : List Snapshot) (s : S) (a : Artifact) (id : Text)
      → IsKept xs a (merge_snapshots bucket host formats prefix receipt xs s a).1 id
  unfolding merge_snapshots
  merge_snapshots_keeps [] s a id = inl refl
  merge_snapshots_keeps (x ∷ xs) s a id =
      let r = snapshot_current bucket host formats prefix s x in
      let b : Artifact = if x.tombstone || not r.1 then a else record a {
        sources =
            insert x.source_id (receipt (snapshot_current bucket host formats prefix s x).0 a x)
              a.sources;
      } in
      elim (merge_snapshots_keeps xs (if x.tombstone then s else r.0) b id) [
        | inl e ↦
            one_step x xs s a
              (merge_snapshots bucket host formats prefix receipt xs
                (if x.tombstone then s else r.0) b).1
              id e
        | inr (y, m, t, i, u, c, v, d, k) ↦ inr (y, there m, t, i, u, c, v, d, k)
      ]
