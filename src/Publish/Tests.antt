-- ===== src/Publish/Tests.antt =====
-- A concrete object store, and runs of the publishing on it (cmd/olw_worker/cloud_publish.go).
use llm_wiki_bff.Core.{
  ℕ, suc, ◌+◌, ◌≡◌, ◌≢◌, refl, sym, ◌∙◌, true, false, Option, none, some, List, [], ◌∷◌, ◌++◌,
  Result, ok, err, length, All, arith, if◌then◌else◌, Bool-cases, Option-cases, if_both, inl, inr,
}
use mathlib.Core.Path.{subst}
use llm_wiki_bff.Core.Int.{ℤ, pos, eqb_ℤ}
use llm_wiki_bff.Core.Text.{Text, codes, str_eq, str_eq_sound, ne_of_str_eq}
use llm_wiki_bff.Core.Dict.{lookup, insert, lookup-insert_self, lookup-insert_ne}
use llm_wiki_bff.Json.{null, at_eof}
use llm_wiki_bff.Generation.{Host, Manifest}
use llm_wiki_bff.Generation.Decode.{encode}
use llm_wiki_bff.Lease.{StoreError, conflict, missing}
use llm_wiki_bff.Publish.{
  Snapshot, ObjectConditions, does_not_exist, generation_match, ObjectAttrs, Bucket, Codec, Output,
  PublishError, conflicted, manifest_path, publish, snapshot_fingerprint, previous_manifest,
}
use llm_wiki_bff.Publish.Stored.{IsStored}
use llm_wiki_bff.Publish.{commit}
use llm_wiki_bff.Publish.Commit.{IsGuard, IsCommitted, commit_exact}
use llm_wiki_bff.Publish.Complete.{IsAssembled, IsCurrent, publish_complete}

-- The last generation that was given out, and the objects.
abbrev Objects : Type 0
Objects = ℕ × List (Text × (Text × ℤ))

put : Objects → Text → Text → Option Text → Objects × Result StoreError ObjectAttrs
put (k, m) n d sha = (
  (suc k, insert n (d, pos (suc k)) m),
  ok (record {
    generation = pos (suc k);
    size = pos (length d);
    sha256 = elim sha [ none ↦ [] | some t ↦ t ];
  }),
)

-- A write to an object of which so much is known.
put_if :
    Objects
    → Text
    → Text
    → Option Text
    → ObjectConditions
    → Option (Text × ℤ)
    → Objects × Result StoreError ObjectAttrs
unfolding put
put_if s n d sha does_not_exist none = put s n d sha
put_if s n d sha does_not_exist (some o) = (s, err conflict)
put_if s n d sha (generation_match g) none = (s, err conflict)
put_if s n d sha (generation_match g) (some (d', g')) =
    if eqb_ℤ g g' then put s n d sha else (s, err conflict)

get : Objects → Option (Text × ℤ) → Objects × Result StoreError (Text × ℤ)
get s none = (s, err missing)
get s (some o) = (s, ok o)

abbrev objects : Bucket Objects
objects = record {
  read = λ s n. get s (lookup n s.1);
  write = λ s n d sha c. put_if s n d sha c (lookup n s.1);
}

abbrev Holds : Objects → Text → Text → ℤ → Type 0
Holds s n d g = lookup n s.1 ≡ some (d, g)

-- The object that a write made, if it made one.
Written : Text → Text → Objects × Result StoreError ObjectAttrs → Type 0
Written n d (s, err e) = Unit
Written n d (s, ok a) = Holds s n d a.generation

Got : Text → Objects × Result StoreError (Text × ℤ) → Type 0
Got n (s, err e) = Unit
Got n (s, ok (d, g)) = Holds s n d g

put-Written : (s : Objects) (n d : Text) (m : Option Text) → Written n d (put s n d m)
unfolding put Written
put-Written (k, m) n d sha = lookup-insert_self n (d, pos (suc k)) m

put_if-Written :
    (s : Objects) (n d : Text) (m : Option Text) (c : ObjectConditions) (o : Option (Text × ℤ))
    → Written n d (put_if s n d m c o)
unfolding put_if Written
put_if-Written s n d m does_not_exist none = put-Written s n d m
put_if-Written s n d m does_not_exist (some o) = tt
put_if-Written s n d m (generation_match g) none = tt
put_if-Written s n d m (generation_match g) (some (d', g')) =
    if_both (Written n d) (eqb_ℤ g g') (put-Written s n d m) tt

get-Got : (s : Objects) (n : Text) (o : Option (Text × ℤ)) → lookup n s.1 ≡ o → Got n (get s o)
unfolding get Got
get-Got s n none e = tt
get-Got s n (some (d, g)) e = e

write-Holds :
    (s s' : Objects) (n d : Text) (m : Option Text) (c : ObjectConditions) (a : ObjectAttrs)
    → put_if s n d m c (lookup n s.1) ≡ (s', ok a)
    → Holds s' n d a.generation
unfolding Written
write-Holds s s' n d m c a e = subst (Written n d) e (put_if-Written s n d m c (lookup n s.1))

read-Holds :
    (s s' : Objects) (n d : Text) (g : ℤ) → get s (lookup n s.1) ≡ (s', ok (d, g)) → Holds s' n d g
unfolding Got
read-Holds s s' n d g e = subst (Got n) e (get-Got s n (lookup n s.1) refl)

get_keeps : (s : Objects) (o : Option (Text × ℤ)) → (get s o).0 ≡ s
unfolding get
get_keeps s none = refl
get_keeps s (some o) = refl

put_keeps :
    (s : Objects) (n d : Text) (g : ℤ) (n' d' : Text) (m : Option Text)
    → n' ≢ n
    → Holds s n d g
    → Holds (put s n' d' m).0 n d g
unfolding put
put_keeps (k, m) n d g n' d' sha ne h = lookup-insert_ne n' n (d', pos (suc k)) m ne ∙ h

put_if_keeps :
    (s : Objects) (n d : Text) (g : ℤ) (n' d' : Text) (m : Option Text) (c : ObjectConditions)
    (o : Option (Text × ℤ))
    → n' ≢ n
    → Holds s n d g
    → Holds (put_if s n' d' m c o).0 n d g
unfolding put_if
put_if_keeps s n d g n' d' m does_not_exist none ne h = put_keeps s n d g n' d' m ne h
put_if_keeps s n d g n' d' m does_not_exist (some o) ne h = h
put_if_keeps s n d g n' d' m (generation_match k) none ne h = h
put_if_keeps s n d g n' d' m (generation_match k) (some (d₂, g₂)) ne h =
    if_both (λ (w : Objects × Result StoreError ObjectAttrs). Holds w.0 n d g) (eqb_ℤ k g₂)
      (put_keeps s n d g n' d' m ne h) h

new_keeps :
    (s : Objects) (n d : Text) (g : ℤ) (n' d' : Text) (m : Option Text)
    → Holds s n d g
    → Holds (put_if s n' d' m does_not_exist (lookup n' s.1)).0 n d g
unfolding put_if
new_keeps s n d g n' d' m h = elim (Bool-cases (str_eq n' n)) [
  | inl e ↦
      let same = str_eq_sound n' n e in let k : lookup n' s.1 ≡ some (d, g) = rw same h in rw k h
  | inr e ↦ put_if_keeps s n d g n' d' m does_not_exist (lookup n' s.1) (ne_of_str_eq n' n e) h
]

write_keeps :
    (s : Objects) (n d : Text) (g : ℤ) (n' d' : Text) (m : Option Text) (c : ObjectConditions)
    → n' ≢ n
    → Holds s n d g
    → Holds (put_if s n' d' m c (lookup n' s.1)).0 n d g
write_keeps s n d g n' d' m c ne h = put_if_keeps s n d g n' d' m c (lookup n' s.1) ne h

read_keeps :
    (s : Objects) (n d : Text) (g : ℤ) (n' : Text)
    → Holds s n d g
    → Holds (get s (lookup n' s.1)).0 n d g
read_keeps s n d g n' h = rw (get_keeps s (lookup n' s.1)) h

abbrev zeros : Text
zeros = codes "0000000000000000000000000000000000000000000000000000000000000000"

abbrev plain_host : Host
plain_host = record {
  sha256_hex = λ t. zeros;
  json_text = λ s. s;
  rfc3339 = λ t. true;
  format_rfc3339 = λ t. codes "now";
}

abbrev plain_codec : Codec
plain_codec = record {
  print = λ v. codes "{}";
  parse = λ t. record { value = null; trailer = at_eof };
}

abbrev vault : Text → Option Text
vault path =
    if str_eq path (codes "wiki/b.md")
    then some (codes "bb")
    else if str_eq path (codes "wiki/a.md")
    then some (codes "a")
    else none

abbrev given_outputs : List Output
given_outputs =
    record { path = codes "wiki/b.md"; size = pos 2; sha256 = zeros }
    ∷ record { path = codes "wiki/a.md"; size = pos 1; sha256 = zeros }
    ∷ []

abbrev given_snapshots : List Snapshot
given_snapshots =
    record {
      source_id = codes "s1";
      raw_path = codes "raw/a.pdf";
      raw_sha256 = zeros;
      annotation_sha = zeros;
      fingerprint = zeros;
      tombstone = false;
    }
    ∷ []

abbrev no_objects : Objects
no_objects = (4, [])

abbrev published : Manifest
published = record {
  version = pos 1;
  generation_id = codes "g_000000";
  previous_generation_id = [];
  created_at = codes "now";
  input_fingerprint = zeros;
  files =
      record { path = codes "wiki/a.md"; size = pos 1; sha256 = zeros; generation = pos 6 }
      ∷ record { path = codes "wiki/b.md"; size = pos 2; sha256 = zeros; generation = pos 5 }
      ∷ [];
}

abbrev published_objects : Objects
published_objects = (
  7,
  (codes "p/.lwc/publish/generations/g_000000/wiki/b.md", (codes "bb", pos 5))
      ∷ (codes "p/.lwc/publish/generations/g_000000/wiki/a.md", (codes "a", pos 6))
      ∷ (codes "p/.lwc/publish/current.json", (codes "{}", pos 7))
      ∷ [],
)

publishes :
    publish objects plain_host plain_codec vault
      (codes "p/")
      no_objects
      (some (codes "g_000000"))
      0
      given_snapshots
      given_outputs
      none
    ≡ (published_objects, ok (published, pos 7))
unfolding publish put put_if str_eq lookup insert llm_wiki_bff.Generation.Validate.validate
    llm_wiki_bff.Generation.Paths.safe_generation_id llm_wiki_bff.Core.Text.trim_space
    llm_wiki_bff.Core.Sort.sort_stable llm_wiki_bff.Core.Text.str_ltb
    llm_wiki_bff.Generation.Paths.generation_owned llm_wiki_bff.Core.Text.has_prefix
    llm_wiki_bff.Core.Text.join_by llm_wiki_bff.Core.Text.split_on llm_wiki_bff.Core.Text.contains
    llm_wiki_bff.Generation.Paths.valid_digest llm_wiki_bff.Core.Int.◌-ℤ◌ llm_wiki_bff.Core.Int.◌+ℤ◌
publishes = refl

-- The same with a current manifest that another worker has published in between.
conflicts :
    (publish objects plain_host plain_codec vault
      (codes "p/")
      (4, (codes "p/.lwc/publish/current.json", (codes "[]", pos 4)) ∷ [])
      (some (codes "g_000000"))
      0
      given_snapshots
      given_outputs
      none).1
    ≡ err conflicted
unfolding publish put put_if str_eq lookup insert llm_wiki_bff.Generation.Validate.validate
    llm_wiki_bff.Generation.Paths.safe_generation_id llm_wiki_bff.Core.Text.trim_space
    llm_wiki_bff.Core.Sort.sort_stable llm_wiki_bff.Core.Text.str_ltb
    llm_wiki_bff.Generation.Paths.generation_owned llm_wiki_bff.Core.Text.has_prefix
    llm_wiki_bff.Core.Text.join_by llm_wiki_bff.Core.Text.split_on llm_wiki_bff.Core.Text.contains
    llm_wiki_bff.Generation.Paths.valid_digest llm_wiki_bff.Core.Int.◌-ℤ◌ llm_wiki_bff.Core.Int.◌+ℤ◌
    get llm_wiki_bff.Publish.confirm_read llm_wiki_bff.Generation.Decode.decode
    llm_wiki_bff.Generation.Decode.decode_manifest_strict
conflicts = refl

publish_complete_example :
    (p : Manifest) × (previous_manifest objects plain_host plain_codec vault (codes "p/") none
      ≡ ok p)
    × IsAssembled objects plain_host plain_codec vault
        (codes "p/")
        Holds
        p.generation_id
        (snapshot_fingerprint plain_host given_snapshots)
        published
    × All
        (IsStored objects plain_host plain_codec vault
          (codes "p/")
          Holds
          (codes "g_000000")
          published_objects)
        published.files
    × IsCurrent objects plain_host plain_codec vault
        (codes "p/")
        Holds
        published_objects
        published
        (pos 7)
publish_complete_example =
    publish_complete objects plain_host plain_codec vault (codes "p/") Holds write-Holds read-Holds
      new_keeps write_keeps read_keeps no_objects published_objects (some (codes "g_000000")) 0
      given_snapshots given_outputs none published (pos 7) publishes

-- A write that another worker has forestalled.
commit_exact_example :
    (c : ObjectConditions) × IsGuard (some ([], pos 3)) c
    × IsCommitted objects plain_host plain_codec vault
        (codes "p/")
        published
        (objects.write published_objects
          (codes "p/" ++ manifest_path)
          (plain_codec.print (encode plain_host published))
          (some (plain_host.sha256_hex (plain_codec.print (encode plain_host published))))
          c)
        (commit objects plain_host plain_codec vault
          (codes "p/")
          published_objects
          (some ([], pos 3))
          published)
commit_exact_example =
    commit_exact objects plain_host plain_codec vault (codes "p/") published published_objects
      (some ([], pos 3))
