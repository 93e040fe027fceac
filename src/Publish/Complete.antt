-- ===== src/Publish/Complete.antt =====
-- What stands in the object store after publishCloudGenerationWithFiles
-- (cmd/olw_worker/cloud_publish.go) has succeeded.
use llm_wiki_bff.Core.{
  ℕ, ◌≡◌, ◌≢◌, refl, ap, ◌∙◌, Option, none, some, List, [], ◌∷◌, ◌++◌, Result, ok, err, length, All,
  arith, Bool-cases, Result-cases, ◌⊎◌, inl, inr,
}
use mathlib.Core.Path.{subst}
use llm_wiki_bff.Core.Int.{ℤ}
use llm_wiki_bff.Core.Text.{Text, str_eq, str_eq_sound, str_ltb, has_prefix}
use llm_wiki_bff.Core.Sort.{sort_stable-All}
use llm_wiki_bff.Generation.{Host, Error, File, Manifest, generations_prefix}
use llm_wiki_bff.Generation.Decode.{encode, decode}
use llm_wiki_bff.Generation.Validate.{validate}
use llm_wiki_bff.Lease.{StoreError, missing, conflict, other}
use llm_wiki_bff.Publish.Stored.{IsStored, AreUploaded, upload_files-AreUploaded}
use llm_wiki_bff.Publish.Equal.{manifest_eq_sound}
use llm_wiki_bff.Publish.{
  Snapshot, ObjectConditions, does_not_exist, ObjectAttrs, Bucket, Codec, Output, PublishError,
  Confirmed, manifest_path, object_name, manifest_eq, committed, not_committed, unknown,
  after_failure, after_write, confirm_read, confirm_manifest_commit, commit, commit_condition,
  publish_files, publish_valid, publish_from, publish, previous_manifest, manifest_of,
  snapshot_fingerprint,
}

append_cancel : (xs s t : Text) → xs ++ s ≡ xs ++ t → s ≡ t
append_cancel [] s t e = e
append_cancel (x ∷ xs) s t e = append_cancel xs s t (cc)

module _ {S : Type 0} (bucket : Bucket S) (host : Host) (codec : Codec)
    (read_file : Text → Option Text) (prefix : Text) (Holds : S → Text → Text → ℤ → Type 0) where
  -- The manifest's object holds the manifest, printed or in another form that reads as the same.
  abbrev pub IsCurrent : S → Manifest → ℤ → Type 0
  IsCurrent s m g =
      (d : Text) × Holds s (prefix ++ manifest_path) d g
      × ((d ≡ codec.print (encode host m)) ⊎ (decode host (length d) (codec.parse d) ≡ ok m))

  -- A valid manifest with its previous generation and its fingerprint.
  abbrev pub IsAssembled : Text → Text → Manifest → Type 0
  IsAssembled previous print_ m =
      (validate host m ≡ ok tt)
      × (m.previous_generation_id ≡ previous)
      × (m.input_fingerprint ≡ print_)

  -- A manifest that was published, complete.
  IsPublished : Text → Text → S × Result PublishError (Manifest × ℤ) → Type 0
  IsPublished previous print_ (s, err e) = Unit
  IsPublished previous print_ (s, ok (m, g)) =
      IsAssembled previous print_ m
      × All (IsStored bucket host codec read_file prefix Holds m.generation_id s) m.files
      × IsCurrent s m g

  -- What a publishing that succeeded has, by the old manifest.
  IsDone : Result Error Manifest → Text → S × Result PublishError (Manifest × ℤ) → Type 0
  IsDone old print_ (s, err e) = Unit
  IsDone old print_ (s, ok (m, g)) =
      (p : Manifest) × (old ≡ ok p)
      × IsAssembled p.generation_id print_ m
      × All (IsStored bucket host codec read_file prefix Holds m.generation_id s) m.files
      × IsCurrent s m g

  module _
      (write_holds : (s s' : S) (n d : Text) (m : Option Text) (c : ObjectConditions)
          (a : ObjectAttrs)
        → bucket.write s n d m c ≡ (s', ok a)
        → Holds s' n d a.generation)
      (read_holds : (s s' : S) (n d : Text) (g : ℤ)
        → bucket.read s n ≡ (s', ok (d, g))
        → Holds s' n d g)
      (new_keeps : (s : S) (n d : Text) (g : ℤ) (n' d' : Text) (m : Option Text)
        → Holds s n d g
        → Holds (bucket.write s n' d' m does_not_exist).0 n d g)
      (write_keeps : (s : S) (n d : Text) (g : ℤ) (n' d' : Text) (m : Option Text)
          (c : ObjectConditions)
        → n' ≢ n
        → Holds s n d g
        → Holds (bucket.write s n' d' m c).0 n d g)
      (read_keeps : (s : S) (n d : Text) (g : ℤ) (n' : Text)
        → Holds s n d g
        → Holds (bucket.read s n').0 n d g) where
    no_clash :
        (id path : Text)
        → prefix ++ manifest_path ≢ object_name bucket host codec read_file prefix id path
    unfolding object_name has_prefix
    no_clash id path e =
        let k = append_cancel prefix _ _ e in
        ground (arith, ap (λ t. has_prefix t generations_prefix) k)

    IsStored-all :
        (id : Text) (s s' : S) (fs : List File)
        → ((n d : Text) (g : ℤ) → prefix ++ manifest_path ≢ n → Holds s n d g → Holds s' n d g)
        → All (IsStored bucket host codec read_file prefix Holds id s) fs
        → All (IsStored bucket host codec read_file prefix Holds id s') fs
    IsStored-all id s s' [] k h = tt
    IsStored-all id s s' (f ∷ fs) k ((b, e, z, d, h), hs) =
        ((b, e, z, d, k _ b f.generation (no_clash id f.path) h), IsStored-all id s s' fs k hs)

    after_failure-IsPublished :
        (previous print_ : Text) (m : Manifest) (r : S × Confirmed)
        → IsAssembled previous print_ m
        → All (IsStored bucket host codec read_file prefix Holds m.generation_id r.0) m.files
        → ((g : ℤ) → r.1 ≡ committed g → IsCurrent r.0 m g)
        → IsPublished previous print_ (after_failure bucket host codec read_file prefix m r)
    unfolding after_failure IsPublished
    after_failure-IsPublished previous print_ m (s, committed g) v h k = (v, h, k g refl)
    after_failure-IsPublished previous print_ m (s, not_committed) v h k = tt
    after_failure-IsPublished previous print_ m (s, unknown) v h k = tt

    -- A manifest that the read-back confirms is the one that stands there.
    confirm_read_sound :
        (s s' : S) (m : Manifest) (r : Result StoreError (Text × ℤ)) (g : ℤ)
        → bucket.read s (prefix ++ manifest_path) ≡ (s', r)
        → confirm_read bucket host codec read_file prefix (codec.print (encode host m)) m r
          ≡ committed g
        → IsCurrent s' m g
    unfolding confirm_read
    confirm_read_sound s s' m (err missing) g e h = cc
    confirm_read_sound s s' m (err conflict) g e h = cc
    confirm_read_sound s s' m (err other) g e h = cc
    confirm_read_sound s s' m (ok (d, g')) g e h =
        let held = read_holds s s' (prefix ++ manifest_path) d g' e in
        elim (Bool-cases (str_eq d (codec.print (encode host m)))) [
          | inl t ↦
              let same : g' ≡ g = ground (arith, t, h) in
              (d, subst (Holds s' (prefix ++ manifest_path) d) same held, inl (str_eq_sound d _ t))
          | inr t ↦ elim (Result-cases (decode host (length d) (codec.parse d))) [
            | inr (x, k) ↦ absurd (ground (arith, t, k, h))
            | inl (n, k) ↦ elim (Bool-cases (manifest_eq n m)) [
              | inr u ↦ absurd (ground (arith, t, k, u, h))
              | inl u ↦
                  let same : g' ≡ g = ground (arith, t, k, u, h) in
                  let e' = manifest_eq_sound n m u in
                  (d, subst (Holds s' (prefix ++ manifest_path) d) same held, inr (k ∙ ap ok e'))
            ]
          ]
        ]

    after_write-IsPublished :
        (previous print_ : Text) (s₀ : S) (m : Manifest) (old : Option (Text × ℤ))
        (w : S × Result StoreError ObjectAttrs)
        → IsAssembled previous print_ m
        → bucket.write s₀
            (prefix ++ manifest_path)
            (codec.print (encode host m))
            (some (host.sha256_hex (codec.print (encode host m))))
            (commit_condition old)
          ≡ w
        → All (IsStored bucket host codec read_file prefix Holds m.generation_id w.0) m.files
        → IsPublished previous print_
            (after_write bucket host codec read_file prefix (codec.print (encode host m)) m w)
    unfolding after_write IsPublished
    after_write-IsPublished previous print_ s₀ m old (s, ok a) v e h =
        (v, h, (codec.print (encode host m), write_holds s₀ s _ _ _ _ a e, inl refl))
    after_write-IsPublished previous print_ s₀ m old (s, err x) v e h =
        after_failure-IsPublished previous print_ m
          (confirm_manifest_commit bucket host codec read_file prefix s
            (codec.print (encode host m)) m)
          v (IsStored-all m.generation_id s _ m.files (λ n d g _ k. read_keeps s n d g _ k) h)
          (λ g k. confirm_read_sound s _ m (bucket.read s (prefix ++ manifest_path)).1 g refl k)

    commit-IsPublished :
        (previous print_ : Text) (s : S) (m : Manifest) (old : Option (Text × ℤ))
        → IsAssembled previous print_ m
        → All (IsStored bucket host codec read_file prefix Holds m.generation_id s) m.files
        → IsPublished previous print_ (commit bucket host codec read_file prefix s old m)
    unfolding commit
    commit-IsPublished previous print_ s m old v h =
        after_write-IsPublished previous print_ s m old _ v refl (
          IsStored-all m.generation_id s _ m.files
            (λ n d g ne k.
              write_keeps s n d g (prefix ++ manifest_path) _ _ (commit_condition old) ne k)
            h)

    publish_valid-IsPublished :
        (previous print_ : Text) (s : S) (m : Manifest) (old : Option (Text × ℤ))
        (r : Result Error Unit)
        → validate host m ≡ r
        → m.previous_generation_id ≡ previous
        → m.input_fingerprint ≡ print_
        → All (IsStored bucket host codec read_file prefix Holds m.generation_id s) m.files
        → IsPublished previous print_ (publish_valid bucket host codec read_file prefix s old m r)
    unfolding publish_valid IsPublished
    publish_valid-IsPublished previous print_ s m old (err e) v p t h = tt
    publish_valid-IsPublished previous print_ s m old (ok u) v p t h =
        commit-IsPublished previous print_ s m old (v, p, t) h

    publish_files-IsPublished :
        (id : Text) (now : ℕ) (previous print_ : Text) (old : Option (Text × ℤ))
        (r : S × Result PublishError (List File))
        → AreUploaded bucket host codec read_file prefix Holds id r
        → IsPublished previous print_ (
            publish_files bucket host codec read_file prefix old
              (manifest_of bucket host codec read_file prefix id now previous print_)
              r)
    unfolding publish_files IsPublished AreUploaded manifest_of
    publish_files-IsPublished id now previous print_ old (s, err e) h = tt
    publish_files-IsPublished id now previous print_ old (s, ok fs) h =
        let m = manifest_of bucket host codec read_file prefix id now previous print_ fs in
        publish_valid-IsPublished previous print_ s m old (validate host m) refl refl refl (
          sort_stable-All (λ f g. str_ltb f.path g.path)
            (IsStored bucket host codec read_file prefix Holds id s) fs h)

    done :
        (old : Result Error Manifest) (p : Manifest) (print_ : Text)
        (r : S × Result PublishError (Manifest × ℤ))
        → old ≡ ok p
        → IsPublished p.generation_id print_ r
        → IsDone old print_ r
    unfolding IsDone IsPublished
    done old p print_ (s, err e) k h = tt
    done old p print_ (s, ok (m, g)) k (a, b, c) = (p, k, a, b, c)

    publish_from-IsDone :
        (s : S) (now : ℕ) (snapshots : List Snapshot) (outputs : List Output)
        (old : Option (Text × ℤ)) (drawn : Option Text) (previous : Result Error Manifest)
        → IsDone previous (snapshot_fingerprint host snapshots) (
            publish_from bucket host codec read_file prefix s now snapshots outputs old drawn
              previous)
    unfolding publish_from IsDone
    publish_from-IsDone s now snapshots outputs old drawn (err e) = tt
    publish_from-IsDone s now snapshots outputs old none (ok p) = tt
    publish_from-IsDone s now snapshots outputs old (some id) (ok p) =
        done (ok p) p (snapshot_fingerprint host snapshots) _ refl (
          publish_files-IsPublished id now p.generation_id (snapshot_fingerprint host snapshots) old
            _
            (upload_files-AreUploaded bucket host codec read_file prefix Holds write_holds
              read_holds new_keeps write_keeps read_keeps s id outputs))

    -- In a store that keeps what it holds, a publishing that reports success has made a valid
    -- manifest that names the generation before it and the fingerprint of the snapshots; every file
    -- of it stands in the store with the bytes, the size and the digest of the workspace's file,
    -- under the generation that the row has; and the object of the current manifest holds this
    -- manifest at the generation that is reported, be it that the write succeeded or that it failed
    -- and the read-back found it.
    pub publish_complete :
        (s s' : S) (drawn : Option Text) (now : ℕ) (snapshots : List Snapshot)
        (outputs : List Output) (old : Option (Text × ℤ)) (m : Manifest) (g : ℤ)
        → publish bucket host codec read_file prefix s drawn now snapshots outputs old
          ≡ (s', ok (m, g))
        → (p : Manifest) × (previous_manifest bucket host codec read_file prefix old ≡ ok p)
          × IsAssembled p.generation_id (snapshot_fingerprint host snapshots) m
          × All (IsStored bucket host codec read_file prefix Holds m.generation_id s') m.files
          × IsCurrent s' m g
    unfolding publish IsDone
    publish_complete s s' drawn now snapshots outputs old m g e =
        subst
          (IsDone (previous_manifest bucket host codec read_file prefix old)
            (snapshot_fingerprint host snapshots))
          e
          (publish_from-IsDone s now snapshots outputs old drawn
            (previous_manifest bucket host codec read_file prefix old))
