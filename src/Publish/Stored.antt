-- ===== src/Publish/Stored.antt =====
-- The uploads of publishCloudGenerationWithFiles (cmd/olw_worker/cloud_publish.go), and what stands
-- in the object store after them.
use llm_wiki_bff.Core.{
  ◌≡◌, ◌≢◌, refl, sym, not, ◌||◌, Option, none, some, List, [], ◌∷◌, Result, ok, err, length, All,
  arith, if_both, if_cases,
}
use llm_wiki_bff.Core.Int.{ℤ, pos, leb_ℤ, eqb_ℤ}
use llm_wiki_bff.Core.Text.{Text, str_eq, str_eq_sound}
use llm_wiki_bff.Generation.{Host, File}
use llm_wiki_bff.Lease.{StoreError}
use llm_wiki_bff.Publish.Equal.{eqb_sound}
use llm_wiki_bff.Publish.{
  ObjectConditions, does_not_exist, ObjectAttrs, Bucket, Codec, Output, PublishError, object_name,
  uploaded, upload_bytes, upload_files, add_row,
}

module _ {S : Type 0} (bucket : Bucket S) (host : Host) (codec : Codec)
    (read_file : Text → Option Text) (prefix : Text) (Holds : S → Text → Text → ℤ → Type 0) where
  -- The object of a row stands in the store, with the file's bytes.
  abbrev pub IsStored : Text → S → File → Type 0
  IsStored id s f =
      (b : Text) × (read_file f.path ≡ some b)
      × (f.size ≡ pos (length b))
      × (f.sha256 ≡ host.sha256_hex b)
      × Holds s (object_name bucket host codec read_file prefix id f.path) b f.generation

  -- After one upload.
  IsUploaded : Text → S × Result PublishError File → Type 0
  IsUploaded id (s, err e) = Unit
  IsUploaded id (s, ok f) = IsStored id s f

  unfoldable pub AreUploaded : Text → S × Result PublishError (List File) → Type 0
  AreUploaded id (s, err e) = Unit
  AreUploaded id (s, ok fs) = All (IsStored id s) fs

  module _
      (write_holds : (s s' : S) (n d : Text) (m : Option Text) (c : ObjectConditions)
          (a : ObjectAttrs)
        → bucket.write s n d m c ≡ (s', ok a)
        → Holds s' n d a.generation)
      (read_holds : (s s' : S) (n d : Text) (g : ℤ)
        → bucket.read s n ≡ (s', ok (d, g))
        → Holds s' n d g)
      (new_keeps : (s : S) (n d : Text) (g : ℤ) (n' d' : Text) (m : Option Text)
        → Holds s n d g
        → Holds (bucket.write s n' d' m does_not_exist).0 n d g)
      (write_keeps : (s : S) (n d : Text) (g : ℤ) (n' d' : Text) (m : Option Text)
          (c : ObjectConditions)
        → n' ≢ n
        → Holds s n d g
        → Holds (bucket.write s n' d' m c).0 n d g)
      (read_keeps : (s : S) (n d : Text) (g : ℤ) (n' : Text)
        → Holds s n d g
        → Holds (bucket.read s n').0 n d g) where
    uploaded-IsUploaded :
        (id : Text) (o : Output) (b : Text) (w : S × Result StoreError ObjectAttrs)
        → read_file o.path ≡ some b
        → pos (length b) ≡ o.size
        → host.sha256_hex b ≡ o.sha256
        → ((s' : S) (a : ObjectAttrs)
            → w ≡ (s', ok a)
            → Holds s' (object_name bucket host codec read_file prefix id o.path) b a.generation)
        → IsUploaded id (uploaded bucket host codec read_file prefix o w)
    unfolding uploaded IsUploaded
    uploaded-IsUploaded id o b (s, err e) r z d h = tt
    uploaded-IsUploaded id o b (s, ok a) r z d h =
        if_cases (IsUploaded id)
          (not (eqb_ℤ a.size o.size)
            || not (str_eq a.sha256 o.sha256)
            || leb_ℤ a.generation (pos 0))
          (λ e. tt) (λ e. (b, r, sym z, sym d, h s a refl))

    upload_bytes-IsUploaded :
        (s : S) (id : Text) (o : Output) (r : Option Text)
        → read_file o.path ≡ r
        → IsUploaded id (upload_bytes bucket host codec read_file prefix s id o r)
    unfolding upload_bytes IsUploaded
    upload_bytes-IsUploaded s id o none h = tt
    upload_bytes-IsUploaded s id o (some b) h =
        if_cases (IsUploaded id)
          (not (eqb_ℤ (pos (length b)) o.size) || not (str_eq (host.sha256_hex b) o.sha256))
          (λ e. tt)
          (λ e.
            uploaded-IsUploaded id o b _ h (eqb_sound (pos (length b)) o.size (ground (arith, e)))
              (str_eq_sound (host.sha256_hex b) o.sha256 (ground (arith, e)))
              (λ s' a k. write_holds s s' _ b _ does_not_exist a k))

    -- What stands in the store is kept.
    upload_bytes_keeps :
        (s : S) (n d : Text) (g : ℤ) (id : Text) (o : Output) (r : Option Text)
        → Holds s n d g
        → Holds (upload_bytes bucket host codec read_file prefix s id o r).0 n d g
    unfolding upload_bytes
    upload_bytes_keeps s n d g id o none h = h
    upload_bytes_keeps s n d g id o (some b) h =
        if_both (λ (w : S × Result PublishError File). Holds w.0 n d g)
          (not (eqb_ℤ (pos (length b)) o.size) || not (str_eq (host.sha256_hex b) o.sha256)) h
          (kept
            (bucket.write s (object_name bucket host codec read_file prefix id o.path) b
              (some (host.sha256_hex b)) does_not_exist)
            (new_keeps s n d g _ b _ h))
      where
        kept :
            (w : S × Result StoreError ObjectAttrs)
            → Holds w.0 n d g
            → Holds (uploaded bucket host codec read_file prefix o w).0 n d g
        kept (s', err e) k = k
        kept (s', ok a) k =
            if_both (λ (w : S × Result PublishError File). Holds w.0 n d g)
              (not (eqb_ℤ a.size o.size)
                || not (str_eq a.sha256 o.sha256)
                || leb_ℤ a.generation (pos 0))
              k k

    IsStored-upload :
        (id i : Text) (s : S) (f : File) (o : Output) (r : Option Text)
        → IsStored id s f
        → IsStored id (upload_bytes bucket host codec read_file prefix s i o r).0 f
    IsStored-upload id i s f o r (b, e, z, d, h) =
        (b, e, z, d, upload_bytes_keeps s _ b f.generation i o r h)

    add_row_keeps :
        (n d : Text) (g : ℤ) (r : S × Result PublishError File)
        (rest : S × Result PublishError (List File))
        → Holds r.0 n d g
        → Holds rest.0 n d g
        → Holds (add_row r rest).0 n d g
    unfolding add_row
    add_row_keeps n d g (s, err e) rest h k = h
    add_row_keeps n d g (s, ok f) (s', err e) h k = k
    add_row_keeps n d g (s, ok f) (s', ok fs) h k = k

    upload_files_keeps :
        (s : S) (n d : Text) (g : ℤ) (id : Text) (os : List Output)
        → Holds s n d g
        → Holds (upload_files bucket host codec read_file prefix s id os).0 n d g
    unfolding upload_files
    upload_files_keeps s n d g id [] h = h
    upload_files_keeps s n d g id (o ∷ os) h =
        let one = upload_bytes bucket host codec read_file prefix s id o (read_file o.path) in
        let k = upload_bytes_keeps s n d g id o (read_file o.path) h in
        add_row_keeps n d g one (upload_files bucket host codec read_file prefix one.0 id os) k
          (upload_files_keeps one.0 n d g id os k)

    add_row-AreUploaded :
        (id : Text) (r : S × Result PublishError File) (rest : S × Result PublishError (List File))
        → IsUploaded id r
        → AreUploaded id rest
        → ((f : File) → IsStored id r.0 f → IsStored id rest.0 f)
        → AreUploaded id (add_row r rest)
    unfolding add_row IsUploaded AreUploaded
    add_row-AreUploaded id (s, err e) rest h k l = tt
    add_row-AreUploaded id (s, ok f) (s', err e) h k l = tt
    add_row-AreUploaded id (s, ok f) (s', ok fs) h k l = (l f h, k)

    pub upload_files-AreUploaded :
        (s : S) (id : Text) (os : List Output)
        → AreUploaded id (upload_files bucket host codec read_file prefix s id os)
    unfolding upload_files AreUploaded
    upload_files-AreUploaded s id [] = tt
    upload_files-AreUploaded s id (o ∷ os) =
        let one = upload_bytes bucket host codec read_file prefix s id o (read_file o.path) in
        add_row-AreUploaded id one (upload_files bucket host codec read_file prefix one.0 id os)
          (upload_bytes-IsUploaded s id o (read_file o.path) refl)
          (upload_files-AreUploaded one.0 id os)
          (λ f (b, e, z, d, h). (b, e, z, d, upload_files_keeps one.0 _ b f.generation id os h))
