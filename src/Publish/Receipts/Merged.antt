-- ===== src/Publish/Receipts/Merged.antt =====
-- What mergeCloudReceipts (cmd/olw_worker/cloud_publish.go) writes.
use llm_wiki_bff.Core.{
  ℕ, zero, suc, ◌≡◌, refl, ap, true, Option, none, some, [], ◌++◌, Result, ok, err, arith,
  Bool-cases, inl, inr,
}
use mathlib.Core.Path.{subst}
use llm_wiki_bff.Core.Int.{ℤ, pos}
use llm_wiki_bff.Core.Text.{Text}
use llm_wiki_bff.Generation.{Host, Error}
use llm_wiki_bff.Lease.{StoreError, conflict, missing, other}
use llm_wiki_bff.Sources.SourceStatus.{Artifact, decode}
use llm_wiki_bff.Publish.{ObjectConditions, does_not_exist, generation_match, ObjectAttrs, Bucket}
use llm_wiki_bff.Publish.Receipts.{
  Formats, decoded, normalize_receipts, ReceiptError, receipts_path, start_artifact,
  receipts_condition, after_receipts, attempt, merge_receipts,
}

-- The artifact and the condition that belong to what a read gave: the artifact decoded and found
-- valid with the generation that was read, or an empty one with no object.
abbrev pub IsStart :
    Host → Formats → Result StoreError (Text × ℤ) → Artifact → ObjectConditions → Type 0
IsStart host formats (ok (d, g)) a c =
    (decode (formats.parse d) ≡ (a, none))
    × (normalize_receipts host a ≡ true)
    × (c ≡ generation_match g)
IsStart host formats (err missing) a c =
    (a ≡ record { version = pos 1; sources = [] }) × (c ≡ does_not_exist)
IsStart host formats (err conflict) a c = ⊥
IsStart host formats (err other) a c = ⊥

decoded_sound :
    (host : Host) (r : Artifact × Option Error) (a : Artifact)
    → decoded host r ≡ ok a
    → (r ≡ (a, none)) × (normalize_receipts host a ≡ true)
unfolding decoded
decoded_sound host (x, some e) a h = cc
decoded_sound host (x, none) a h = elim (Bool-cases (normalize_receipts host x)) [
  | inl t ↦
      let k : x ≡ a = ground (arith, t, h) in
      (ap (λ y. (y, none)) k, subst (λ y. normalize_receipts host y ≡ true) k t)
  | inr t ↦ absurd (ground (arith, t, h))
]

start_artifact-IsStart :
    (host : Host) (formats : Formats) (r : Result StoreError (Text × ℤ)) (a : Artifact)
    → start_artifact host formats r ≡ ok a
    → IsStart host formats r a (receipts_condition r)
unfolding start_artifact receipts_condition
start_artifact-IsStart host formats (ok (d, g)) a h =
    let (e, v) = decoded_sound host (decode (formats.parse d)) a h in (e, v, refl)
start_artifact-IsStart host formats (err missing) a h = (cc, refl)
start_artifact-IsStart host formats (err conflict) a h = cc
start_artifact-IsStart host formats (err other) a h = cc

module _ {S : Type 0} (bucket : Bucket S) (host : Host) (formats : Formats) (prefix : Text)
    (merge : S → Artifact → S × Artifact) where
  -- `s` is the state after a write that put the merge of what was read in place of it.
  abbrev pub IsMerged : S → Type 0
  IsMerged s =
      (t : S) × (a : Artifact) × (c : ObjectConditions) × (w : ObjectAttrs) × IsStart host formats
        (bucket.read t (prefix ++ receipts_path)).1 a c
      × (bucket.write (merge (bucket.read t (prefix ++ receipts_path)).0 a).0
            (prefix ++ receipts_path)
            (formats.marshal (merge (bucket.read t (prefix ++ receipts_path)).0 a).1) none c
          ≡ (s, ok w))

  IsOutcome : S × Result ReceiptError Unit → Type 0
  IsOutcome (s, ok u) = IsMerged s
  IsOutcome (s, err e) = Unit

  after_receipts-IsOutcome :
      (w : S × Result StoreError ObjectAttrs) (retry : S → S × Result ReceiptError Unit)
      → ((s : S) (a : ObjectAttrs) → w ≡ (s, ok a) → IsMerged s)
      → ((s : S) → IsOutcome (retry s))
      → IsOutcome (after_receipts bucket host formats prefix w retry)
  unfolding after_receipts IsOutcome
  after_receipts-IsOutcome (s, ok a) retry h k = h s a refl
  after_receipts-IsOutcome (s, err conflict) retry h k = k s
  after_receipts-IsOutcome (s, err missing) retry h k = tt
  after_receipts-IsOutcome (s, err other) retry h k = tt

  attempt-IsOutcome :
      (t : S) (r : Result ReceiptError Artifact) (retry : S → S × Result ReceiptError Unit)
      → start_artifact host formats (bucket.read t (prefix ++ receipts_path)).1 ≡ r
      → ((s : S) → IsOutcome (retry s))
      → IsOutcome (
          attempt bucket host formats prefix merge
            (bucket.read t (prefix ++ receipts_path)).0
            (receipts_condition (bucket.read t (prefix ++ receipts_path)).1)
            r
            retry)
  unfolding attempt IsOutcome
  attempt-IsOutcome t (err e) retry h k = tt
  attempt-IsOutcome t (ok a) retry h k =
      after_receipts-IsOutcome _ retry
        (λ s w e. (
          t,
          a,
          receipts_condition (bucket.read t (prefix ++ receipts_path)).1,
          w,
          start_artifact-IsStart host formats (bucket.read t (prefix ++ receipts_path)).1 a h,
          e,
        ))
        k

  merge_receipts-IsOutcome :
      (n : ℕ) (s : S) → IsOutcome (merge_receipts bucket host formats prefix merge n s)
  unfolding merge_receipts IsOutcome
  merge_receipts-IsOutcome zero s = tt
  merge_receipts-IsOutcome (suc n) s =
      attempt-IsOutcome s _ (merge_receipts bucket host formats prefix merge n) refl
        (λ t. merge_receipts-IsOutcome n t)

  -- Where mergeCloudReceipts succeeds, no update is lost: its last write put the merge of the
  -- artifact that it had just read and found valid, or of an empty one where there was none, on the
  -- condition that the object still had the generation that was read, or still did not exist.
  pub merge_receipts_sound :
      (n : ℕ) (s s' : S)
      → merge_receipts bucket host formats prefix merge n s ≡ (s', ok tt)
      → IsMerged s'
  unfolding IsOutcome
  merge_receipts_sound n s s' e = subst IsOutcome e (merge_receipts-IsOutcome n s)
