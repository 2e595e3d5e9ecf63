-- ===== src/Index/Reindex/Ends.antt =====
-- vektra_index/reindex.py: how a reindex job ends.
use vektra_stack.Prelude.{
  ℕ, suc, ◌+◌, ◌<◌, ◌≡◌, refl, ap, subst, ◌∙◌, ◌⊎◌, inl, inr, false, ◌&&◌, Option, none, some, List,
  [], ◌∷◌, String, map, arith,
}
use vektra_stack.Prelude.Tests.{if◌then◌else◌, if-cases, ltb, option-cases}
use vektra_stack.Prelude.Lists.{length}
use vektra_stack.Prelude.Eq.{nat_eq, string_eq, ◌==◌, beq_self}
use vektra_stack.Prelude.Dict
use vektra_stack.Prelude.Dict.{Dict, get-put}
use vektra_stack.Index.Reindex.{
  Providers, StoredChunk, ReindexJob, JobStatus, World, update_job, stored, rewrite, id_map,
  embedded, reindex_chunks, reindex_document, reindex_documents, progress, conclude, with_embedding,
  document_ids, Statements, mark_running, mark_completed, mark_failed, with_total, with_documents,
  fail, complete, run_reindex,
}

update_job-get :
    {Store : Type 0} (w : World Store) (id : ℕ) (f : ReindexJob → ReindexJob) (job : ReindexJob)
    → Dict.get w.jobs id ≡ some job
    → Dict.get (update_job w id f).jobs id ≡ some (f job)
unfolding update_job
update_job-get w id f job e = rw (e, get-put, beq_self id) refl

-- The job is there, with its progress.
record Progress {Store : Type 0} (id total i n : ℕ) (w : World Store) : Type 0 where
  job : ReindexJob
  running : job.status ≡ JobStatus.running
  there : Dict.get w.jobs id ≡ some job
  total_documents : job.total_documents ≡ total
  processed_documents : job.processed_documents ≡ i
  chunks_reindexed : job.chunks_reindexed ≡ n

-- The job is there, running or with its status from before.
abbrev pub Present : {Store : Type 0} → ℕ → JobStatus → World Store → Type 0
Present id before w =
    (job : ReindexJob) × (Dict.get w.jobs id ≡ some job)
    × ((job.status ≡ JobStatus.running) ⊎ (job.status ≡ before))

-- The end of a job over so many documents: it failed; or it is completed, with every document processed
-- and, where there is a document, some chunk stored; or the update to failed raised, and the job is left
-- running or with its status from before.
pub data Ended (u : Statements) (before : JobStatus) (documents source active : ℕ)
    (job : ReindexJob) : Type 0 where
  failed : job.status ≡ JobStatus.failed → Ended u before documents source active job
  completed :
      job.status ≡ JobStatus.completed
      → job.processed_documents ≡ documents
      → job.total_documents ≡ documents
      → (0 < documents → 0 < job.chunks_reindexed)
      → source ≡ active
      → Ended u before documents source active job
  left :
      u.failed ≡ false
      → (job.status ≡ JobStatus.running) ⊎ (job.status ≡ before)
      → Ended u before documents source active job

module _ (v : Providers) (job_id : ℕ) (namespace : String) (source_version target_version : ℕ)
    (u : Statements) (before : JobStatus) where
  stored-jobs :
      (w : World v.Store) (n : ℕ) (o : v.Store × Option (List String))
      → (stored v job_id namespace source_version target_version w n o).0.jobs ≡ w.jobs
  stored-jobs w n (s, none) = refl
  stored-jobs w n (s, some ids) = refl

  embedded-jobs :
      (w : World v.Store) (doc_id : ℕ) (cs : List (StoredChunk v.Sparse))
      (o : Option (List v.Dense))
      → (embedded v job_id namespace source_version target_version w doc_id cs o).0.jobs ≡ w.jobs
  embedded-jobs w doc_id cs none = refl
  embedded-jobs w doc_id cs (some dense) =
      let chunks =
        rewrite v job_id namespace source_version target_version doc_id
          (id_map v job_id namespace source_version target_version doc_id [] cs) cs dense in
      if-cases (λ p. p.0.jobs ≡ w.jobs) (length dense == length cs)
        (stored v job_id namespace source_version target_version w (length chunks)
          (v.store w.store namespace target_version chunks))
        (w, none)
        (λ e. stored-jobs w (length chunks) (v.store w.store namespace target_version chunks))
        (λ e. refl)

  chunks-jobs :
      (w : World v.Store) (embed : List String → Option (List v.Dense)) (doc_id : ℕ)
      (o : Option (List (StoredChunk v.Sparse)))
      → (reindex_chunks v job_id namespace source_version target_version w embed doc_id o).0.jobs
        ≡ w.jobs
  chunks-jobs w embed doc_id none = refl
  chunks-jobs w embed doc_id (some []) = refl
  chunks-jobs w embed doc_id (some (c ∷ cs)) =
      embedded-jobs w doc_id (c ∷ cs) (embed (map (λ x. x.text) (c ∷ cs)))

  -- What the loop leaves, by its result
  abbrev Looped : ℕ → ℕ → World v.Store × Option ℕ → Type 0
  Looped total i (w, none) = Present job_id before w
  Looped total i (w, some n) = Progress job_id total i n w

  document-Progress :
      (w : World v.Store) (total i n : ℕ) (x : World v.Store) (m : ℕ)
      → x.jobs ≡ w.jobs
      → Progress job_id total i n w
      → Progress job_id total (i + 1) (n + m) (
          update_job x job_id
            (progress v job_id namespace source_version target_version (i + 1) (n + m)))
  document-Progress w total i n x m same p = record {
    job = progress v job_id namespace source_version target_version (i + 1) (n + m) p.job;
    running = p.running;
    there =
        update_job-get x job_id
          (progress v job_id namespace source_version target_version (i + 1) (n + m)) p.job
          (ap (λ y. Dict.get y job_id) same ∙ p.there);
    total_documents = p.total_documents;
    processed_documents = refl;
    chunks_reindexed = refl;
  }

  documents-Looped :
      (w : World v.Store) (embed : List String → Option (List v.Dense)) (total i n : ℕ)
      (docs : List ℕ)
      → Progress job_id total i n w
      → Looped total
          (i + length docs)
          (reindex_documents v job_id namespace source_version target_version u w embed i n docs)
  unfolding reindex_documents
  documents-Looped w embed total i n [] p =
      let e : i ≡ i + 0 = omega arith in subst (λ k. Progress job_id total k n w) e p
  documents-Looped w embed total i n (doc ∷ docs) p =
      let here = reindex_document v job_id namespace source_version target_version w embed doc in
      let same = chunks-jobs w embed doc (v.list_chunks w.store namespace doc) in
      let stopped : Looped total (i + suc (length docs)) (here.0, none) =
        (p.job, ap (λ y. Dict.get y job_id) same ∙ p.there, inl p.running) in
      let next = λ (m : ℕ).
        reindex_documents v job_id namespace source_version target_version u
          (update_job here.0 job_id
            (progress v job_id namespace source_version target_version (i + 1) (n + m)))
          embed (i + 1) (n + m) docs in
      option-cases (Looped total (i + suc (length docs))) here.1 (here.0, none)
        (λ m. if u.progress i then next m else (here.0, none)) (λ out. stopped)
        (λ m went.
          let e : i + 1 + length docs ≡ i + suc (length docs) = omega arith in
          if-cases (Looped total (i + suc (length docs))) (u.progress i) (next m) (here.0, none)
            (λ saved.
              subst (λ k. Looped total k (next m)) e
                (documents-Looped
                  (update_job here.0 job_id
                    (progress v job_id namespace source_version target_version (i + 1) (n + m)))
                  embed total (i + 1) (n + m) docs (document-Progress w total i n here.0 m same p)))
            (λ lost. stopped))

  -- The job after the run
  abbrev pub Settled : ℕ → ℕ → World v.Store → Type 0
  Settled documents active w =
      (job : ReindexJob) × (Dict.get w.jobs job_id ≡ some job)
      × Ended u before documents source_version active job

  fail-Settled :
      (w : World v.Store) (documents active : ℕ)
      → Present job_id before w
      → Settled documents active (fail v job_id namespace source_version target_version u w)
  fail-Settled w documents active (job, e, status) =
      if-cases (Settled documents active) u.failed
        (update_job w job_id (mark_failed v job_id namespace source_version target_version)) w
        (λ saved. (
          mark_failed v job_id namespace source_version target_version job,
          update_job-get w job_id (mark_failed v job_id namespace source_version target_version) job
              e,
          Ended.failed refl,
        ))
        (λ lost. (job, e, Ended.left lost status))

  complete-Settled :
      (documents active : ℕ) (w : World v.Store) (n : ℕ)
      → source_version ≡ active
      → Progress job_id documents documents n w
      → (0 < documents → 0 < n)
      → Settled documents active (complete v job_id namespace source_version target_version u w n)
  complete-Settled documents active w n same p some_stored =
      if-cases (Settled documents active) u.completed
        (update_job w job_id (mark_completed v job_id namespace source_version target_version n))
        (fail v job_id namespace source_version target_version u w)
        (λ saved. (
          mark_completed v job_id namespace source_version target_version n p.job,
          update_job-get w job_id
              (mark_completed v job_id namespace source_version target_version n) p.job p.there,
          Ended.completed refl p.processed_documents p.total_documents some_stored same,
        ))
        (λ lost. fail-Settled w documents active (p.job, p.there, inl p.running))

  conclude-Settled :
      (documents active : ℕ) (ran : World v.Store × Option ℕ)
      → source_version ≡ active
      → Looped documents documents ran
      → Settled documents active
          (conclude v job_id namespace source_version target_version u documents ran)
  conclude-Settled documents active (w, none) same l = fail-Settled w documents active l
  conclude-Settled documents active (w, some n) same l =
      if-cases (Settled documents active) (ltb 0 documents && n == 0)
        (fail v job_id namespace source_version target_version u w)
        (complete v job_id namespace source_version target_version u w n)
        (λ e. fail-Settled w documents active (l.job, l.there, inl l.running))
        (λ e. complete-Settled documents active w n same l (λ some_document. ground (arith, e)))

  with_embedding-Settled :
      (w : World v.Store) (active : ℕ) (docs : List ℕ)
      (o : Option (List String → Option (List v.Dense)))
      → Progress job_id (length docs) 0 0 w
      → Settled
          (length docs)
          active
          (with_embedding v job_id namespace source_version target_version u w active docs o)
  with_embedding-Settled w active docs none p =
      fail-Settled w (length docs) active (p.job, p.there, inl p.running)
  with_embedding-Settled w active docs (some embed) p =
      if-cases (Settled (length docs) active) (v.has_vector_store && source_version == active)
        (conclude v job_id namespace source_version target_version u (length docs)
          (reindex_documents v job_id namespace source_version target_version u w embed 0 0 docs))
        (fail v job_id namespace source_version target_version u w)
        (λ e.
          conclude-Settled (length docs) active
            (reindex_documents v job_id namespace source_version target_version u w embed 0 0 docs)
            (ground (arith, e, nat_eq.beq_iff source_version active))
            (let e' : 0 + length docs ≡ length docs = omega arith in
              subst
                (λ k. Looped (length docs) k (
                  reindex_documents v job_id namespace source_version target_version u w embed 0 0
                    docs))
                e' (documents-Looped w embed (length docs) 0 0 docs p)))
        (λ e. fail-Settled w (length docs) active (p.job, p.there, inl p.running))

  with_total-Settled :
      (w : World v.Store) (active : ℕ) (docs : List ℕ) (job : ReindexJob)
      → Dict.get w.jobs job_id ≡ some job
      → job.status ≡ JobStatus.running
      → job.processed_documents ≡ 0
      → job.chunks_reindexed ≡ 0
      → Settled
          (length docs)
          active
          (with_total v job_id namespace source_version target_version u active docs w)
  with_total-Settled w active docs job e runs processed chunks =
      let with_count = λ (j : ReindexJob). record j { total_documents = length docs } in
      let counted = update_job w job_id with_count in
      let p : Progress job_id (length docs) 0 0 counted = record {
        job = with_count job;
        running = runs;
        there = update_job-get w job_id with_count job e;
        total_documents = refl;
        processed_documents = processed;
        chunks_reindexed = chunks;
      } in
      if-cases (Settled (length docs) active) (u.counted && u.total)
        (with_documents v job_id namespace source_version target_version u active docs counted)
        (fail v job_id namespace source_version target_version u w)
        (λ saved.
          if-cases (Settled (length docs) active) u.listed
            (with_embedding v job_id namespace source_version target_version u counted active docs
              v.embedding)
            (fail v job_id namespace source_version target_version u counted)
            (λ found. with_embedding-Settled counted active docs v.embedding p)
            (λ lost. fail-Settled counted (length docs) active (p.job, p.there, inl p.running)))
        (λ lost. fail-Settled w (length docs) active (job, e, inl runs))

pub run_reindex-Settled :
    (v : Providers) (job_id : ℕ) (namespace : String)
    (source_version target_version active_version : ℕ) (u : Statements) (w : World v.Store)
    (job : ReindexJob)
    → Dict.get w.jobs job_id ≡ some job
    → job.processed_documents ≡ 0
    → job.chunks_reindexed ≡ 0
    → Settled v job_id namespace source_version target_version u job.status
        (length (document_ids v job_id namespace source_version target_version w.documents))
        active_version
        (run_reindex v job_id namespace source_version target_version u active_version w)
unfolding run_reindex
run_reindex-Settled v job_id namespace source_version target_version active_version u w job e
      processed chunks =
    let docs = document_ids v job_id namespace source_version target_version w.documents in
    let begun =
      update_job w job_id (mark_running v job_id namespace source_version target_version) in
    if-cases
      (Settled v job_id namespace source_version target_version u job.status (length docs)
        active_version)
      u.running
      (with_total v job_id namespace source_version target_version u active_version docs begun)
      (fail v job_id namespace source_version target_version u w)
      (λ saved.
        with_total-Settled v job_id namespace source_version target_version u job.status begun
          active_version docs (mark_running v job_id namespace source_version target_version job)
          (update_job-get w job_id (mark_running v job_id namespace source_version target_version)
            job e)
          refl processed chunks)
      (λ lost.
        fail-Settled v job_id namespace source_version target_version u job.status w (length docs)
          active_version (job, e, inr refl))
