-- ===== src/Lease/Tests.antt =====
-- Concrete workers at a lease, and the theorems at them.
use llm_wiki_bff.Core.{
  ℕ, ◌≡◌, ◌≢◌, refl, ◌⊎◌, true, false, Option, none, some, [], ◌∷◌, ◌++◌, ok, err, if◌then◌else◌,
}
use llm_wiki_bff.Core.Int.{pos, eqb_ℤ}
use llm_wiki_bff.Core.Text.{Text, codes, str_eq, trim_space, contains, has_prefix}
use llm_wiki_bff.Lease.{
  Payload, not_found, running, terminal, conflict, missing, ObjectStore, Held, held, Worker,
  lease_path, valid_execution_id, allow_lease_reclaim, parse_lease_payload, job_name,
  belongs_to_job, acquire, acquire_contended, maybe_reclaim, reclaim_read, reclaim_from,
  delete_lease, try_create, retry_create,
}
use llm_wiki_bff.Lease.Probe.{
  Body, Api, from_body, from_counts, from_conditions, normalize_worker_status, classify, of_answer,
  probe_execution, probe_execution_allowed,
}
use llm_wiki_bff.CloudRun.{trim_prefix}
use llm_wiki_bff.Lease.Safe.{probed, acquire_spares_live}
use llm_wiki_bff.Lease.Taken.{Created, acquire-Created}

-- A store of one object: its body, with its generation.
abbrev Bucket : Type 0
Bucket = Option (Text × ℕ)

abbrev bucket_store : ObjectStore Bucket
bucket_store = record {
  create = λ s name body. elim s [
    | none ↦ (some (body, 8), ok (pos 8))
    | some o ↦ (some o, err conflict)
  ];
  read = λ s name. elim s [
    | none ↦ (none, err missing)
    | some (body, g) ↦ (some (body, g), ok (body, pos g))
  ];
  delete = λ s name g. elim s [
    | none ↦ (none, err missing)
    | some (body, h) ↦ if eqb_ℤ g (pos h) then (none, ok tt) else (some (body, h), err conflict)
  ];
}

-- The body is the execution's name; the execution job-a runs, and any other has ended.
abbrev worker : Worker
worker = record {
  unmarshal = λ body. some (record { execution = body; started_at = [] });
  marshal = λ holder at. holder;
  probe = λ execution job. if str_eq execution (codes "job-a") then running else terminal;
  job_variables = codes "job" ∷ [];
}

computing : Unit {0}
unfolding valid_execution_id str_eq trim_space contains has_prefix allow_lease_reclaim
    parse_lease_payload job_name belongs_to_job acquire acquire_contended maybe_reclaim reclaim_read
    reclaim_from delete_lease try_create retry_create
computing = tt

valid : valid_execution_id (trim_space (codes "job-b")) ≡ true
unfolding computing
valid = refl

parsed :
    parse_lease_payload worker (codes "job-a")
    ≡ some (record { execution = codes "job-a"; started_at = [] })
unfolding computing
parsed = refl

abbrev holder_a : Payload
holder_a = record { execution = codes "job-a"; started_at = [] }

not_ended : probed worker holder_a ≢ terminal
unfolding computing
not_ended h = cc

not_gone : probed worker holder_a ≢ not_found
unfolding computing
not_gone h = cc

acquire_spares_live_example :
    (h : Held) × (acquire bucket_store worker (some (codes "job-a", 7)) [] (codes "job-b") [] []
      ≡ (some (codes "job-a", 7), err (held h)))
acquire_spares_live_example =
    acquire_spares_live bucket_store worker (some (codes "job-a", 7)) (some (codes "job-a", 7))
      (some (codes "job-a", 7)) [] (codes "job-b") [] [] (codes "job-a") (pos 7)
      (record { execution = codes "job-a"; started_at = [] }) valid refl refl parsed not_ended
      not_gone

reclaims : maybe_reclaim bucket_store worker (some (codes "job-c", 7)) lease_path ≡ (none, none)
unfolding computing
reclaims = refl

takes_over :
    acquire bucket_store worker (some (codes "job-c", 7)) [] (codes "job-b") [] []
    ≡ (some (codes "job-b", 8), ok (record { name = lease_path; generation = pos 8 }))
unfolding computing
takes_over = refl

acquire-Created_example :
    (valid_execution_id (trim_space (codes "job-b")) ≡ true)
    × Created bucket_store worker
        (some (codes "job-b", 8))
        ([] ++ lease_path)
        (trim_space (codes "job-b"))
        (record { name = lease_path; generation = pos 8 })
acquire-Created_example =
    acquire-Created bucket_store worker (some (codes "job-c", 7)) (some (codes "job-b", 8)) []
      (codes "job-b") [] [] (record { name = lease_path; generation = pos 8 }) takes_over

abbrev ended : Body
ended = record {
  reconciling = false;
  completion_status = [];
  conditions = [];
  succeeded_count = pos 1;
  failed_count = pos 0;
  cancelled_count = pos 0;
  running_count = pos 0;
}

abbrev same : Text → Text
same s = s

ended_terminal : classify same str_eq (some ended) ≡ terminal
unfolding computing from_body from_counts from_conditions normalize_worker_status trim_prefix
    classify
ended_terminal = refl

abbrev gone : Api
gone = record { scope = true; token = true; answer = some (404, none) }

gone_allowed :
    allow_lease_reclaim (probe_execution same str_eq gone (codes "job-c") (codes "job")) ≡ true
unfolding computing probe_execution of_answer
gone_allowed = refl

probe_execution_allowed_example :
    (valid_execution_id (trim_space (codes "job-c")) ≡ true)
    × (belongs_to_job (trim_space (codes "job-c")) (trim_space (codes "job")) ≡ true)
    × (gone.scope ≡ true)
    × (gone.token ≡ true)
    × (((b : Option Body) × (gone.answer ≡ some (404, b)))
        ⊎ ((b : Option Body) × (gone.answer ≡ some (200, b))
            × (allow_lease_reclaim (classify same str_eq b) ≡ true)))
probe_execution_allowed_example =
    probe_execution_allowed same str_eq gone (codes "job-c") (codes "job") gone_allowed
