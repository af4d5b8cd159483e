-- ===== src/Scans/Creation.antt =====
-- Creating a scan: by a user, under the plan's quota, and by an API key.
use qa_lab.Base.{
  ℕ, ◌≢◌, subst, sym, ◌≡◌, refl, ◌⊎◌, inl, inr, Bool, true, false, [], ◌∷◌, ◌++◌, Option, none,
  some, Text, arith, ◌==◌, or_default, is_some, Option-cases, Bool-cases,
}
use qa_lab.Base.Rows.{find-append_new, find-update_where_self}
use qa_lab.Schema.{Db, Scan, ScanTrigger, Website, queued}
use qa_lab.Program.{ok, err, Exception, plain_error, enqueue_failed, ◌>>=◌}
use qa_lab.Program.Rules.{
  Ends, done, failed, Reads, Ends-mono, Ends-also, Reads-mono, read_rule, or_throw_rule,
  throw_if_rule,
}
use qa_lab.Quotas.Laws.{AdmitsScan, assert_can_create_scan-Reads}
use qa_lab.DomainVerify.{load_website, is_verified}
use qa_lab.Websites.{require_website_in_organization}
use qa_lab.DomainVerify.Laws.{assert_verified-Reads}
use qa_lab.DomainVerify.Laws
use qa_lab.Websites.Access.{
  Reaches, require_website_access-Reads, require_website_in_organization-Reads,
}
use qa_lab.Scans.{
  find_scan, set_scan, CreateScanDto, options_of, queued_scan, insert_scan, not_enqueued, enqueue,
  store_and_enqueue, enqueue_scan, assert_probe_allowed, create, key_of, create_for_principal,
}

-- The row is stored and its job waits in the queue.
abbrev pub enqueued : Scan → Db → Db
enqueued scan db = record (insert_scan scan db) { jobs = db.jobs ++ scan.id ∷ [] }

-- The row is stored, and marked FAILED because the queue refused the job.
abbrev pub refused : ℕ → Scan → Db → Db
refused now scan db = set_scan scan.id (not_enqueued now) (insert_scan scan db)

store_accepted :
    (now : ℕ) (scan : Scan) (db : Db)
    → store_and_enqueue now true scan db ≡ ok scan (enqueued scan db)
unfolding store_and_enqueue enqueue ◌>>=◌
store_accepted now scan db = refl

store_refused :
    (now : ℕ) (scan : Scan) (db : Db)
    → store_and_enqueue now false scan db ≡ err (plain_error enqueue_failed) (refused now scan db)
unfolding store_and_enqueue enqueue ◌>>=◌
store_refused now scan db = refl

-- Where the queue refuses, the row that was just stored does not stay QUEUED.
refused-stored :
    (now : ℕ) (scan : Scan) (db : Db)
    → find_scan scan.id db.scans ≡ none
    → find_scan scan.id (refused now scan db).scans ≡ some (not_enqueued now scan)
unfolding find_scan
refused-stored now scan db fresh =
    find-update_where_self (λ s. s.id == scan.id) (not_enqueued now) (db.scans ++ scan ∷ [])
      {r = scan} (find-append_new (λ s. s.id == scan.id) db.scans scan fresh (ground arith))
      (ground arith)

-- How the common end of both ways to create a scan leaves the database.
abbrev pub Stored : ℕ → Bool → Scan → Db → Db → Type 0
Stored now accepts scan db db' = (accepts ≡ true) × (db' ≡ enqueued scan db)

-- The row that reads FAILED is found, unless the identifier was in use already.
abbrev pub IsMarked : ℕ → Scan → ℕ → Db → Db → Type 0
IsMarked now scan id db db' =
    (is_some (find_scan id db.scans) ≡ true)
    ⊎ (find_scan id db'.scans ≡ some (not_enqueued now scan))

marked : (now : ℕ) (scan : Scan) (db : Db) → IsMarked now scan scan.id db (refused now scan db)
marked now scan db = elim (Option-cases (find_scan scan.id db.scans)) [
  | inl e ↦ inr (refused-stored now scan db e)
  | inr (s, e) ↦ inl (rw e refl)
]

abbrev pub NotStored : ℕ → Bool → ℕ → Db → Exception → Db → Type 0
NotStored now accepts id db e db' =
    (db' ≡ db)
    ⊎ ((accepts ≡ false)
        × (scan : Scan) × (scan.id ≡ id)
        × (scan.status ≡ queued)
        × (db' ≡ refused now scan db)
        × IsMarked now scan id db db')

store-Ends :
    (now : ℕ) (accepts : Bool) (scan : Scan) (db : Db)
    → scan.status ≡ queued
    → Ends
        (λ r db'. (r ≡ scan) × Stored now accepts scan db db')
        (NotStored now accepts scan.id db)
        (store_and_enqueue now accepts scan db)
store-Ends now true scan db q = rw (store_accepted now scan db) (done scan _ (refl, (refl, refl)))
store-Ends now false scan db q =
    rw (store_refused now scan db)
      (failed _ _ (inr (refl, scan, refl, q, refl, marked now scan db)))

-- Probing for exposed paths was asked for only of a verified website.
abbrev pub ProbeAllowed : CreateScanDto → ℕ → Db → Type 0
ProbeAllowed dto website_id db =
    (or_default dto.check_exposed_paths false ≡ false) ⊎ (is_verified website_id db ≡ true)

assert_probe_allowed-Reads :
    (asked : Option Bool) (website_id : ℕ) (db : Db)
    → Reads db
        (λ _. (or_default asked false ≡ false) ⊎ (is_verified website_id db ≡ true))
        (assert_probe_allowed asked website_id db)
unfolding assert_probe_allowed
assert_probe_allowed-Reads none website_id db = done tt db (inl refl, refl)
assert_probe_allowed-Reads (some false) website_id db = done tt db (inl refl, refl)
assert_probe_allowed-Reads (some true) website_id db =
    Reads-mono db (λ _ h. inr h) (assert_verified-Reads website_id db)

-- A scan that a user created.
pub record CreatedByUser (now : ℕ) (accepts : Bool) (new_id user_id : ℕ) (dto : CreateScanDto)
    (db db' : Db) (r : Scan) : Type 0 where
  pub loaded : Website × ℕ
  pub reach : Reaches db user_id dto.website_id loaded
  pub active : loaded.0.is_active ≡ true
  pub pages : ℕ
  pub quota : AdmitsScan now loaded.1 dto.max_pages db pages
  pub probe : ProbeAllowed dto loaded.0.id db
  pub row : r ≡ queued_scan now new_id loaded.0 ScanTrigger.manual (options_of dto pages)
  pub stored : Stored now accepts r db db'

-- A user's creation of a scan that succeeds is of an active website of an organization that the
-- user is in, while the plan has a scan left today, for the pages the plan admits, with exposed-
-- path probes only if the domain is verified; its row is QUEUED and its job is in the queue. One
-- that fails writes nothing, unless the queue refused the job, which leaves the new row marked
-- FAILED if its identifier was not in use.
pub create_scan-Ends :
    (now : ℕ) (accepts : Bool) (new_id user_id : ℕ) (dto : CreateScanDto) (db : Db)
    → Ends
        (λ r db'. CreatedByUser now accepts new_id user_id dto db db' r)
        (NotStored now accepts new_id db)
        (create now accepts new_id user_id dto db)
unfolding create
create_scan-Ends now accepts new_id user_id dto db =
    read_rule _ _ db (require_website_access-Reads user_id dto.website_id db) (λ e. inl refl)
      λ loaded reach.
        throw_if_rule _ _ _ db (λ _. inl refl)
          λ active.
            read_rule _ _ db (assert_can_create_scan-Reads now loaded.1 dto.max_pages db)
              (λ e. inl refl)
              λ pages quota.
                read_rule _ _ db (assert_probe_allowed-Reads dto.check_exposed_paths loaded.0.id db)
                  (λ e. inl refl)
                  λ _ probe.
                    let scan =
                      queued_scan now new_id loaded.0 ScanTrigger.manual (options_of dto pages) in
                    Ends-mono
                      (λ r d (same, stored). record {
                        loaded = loaded;
                        reach = reach;
                        active = ground (arith, active);
                        pages = pages;
                        quota = quota;
                        probe = probe;
                        row = same;
                        stored = subst (λ s. Stored now accepts s db d) (sym same) stored;
                      })
                      (λ e d h. h) (store-Ends now accepts scan db refl)

-- The run of a call that passes every check.
create_for_principal_key :
    (safe : Text → Option Text) (now new_id organization_id : ℕ) (created_by : Option ℕ)
    (dto : CreateScanDto) (db : Db) (w : Website)
    → Laws.IsLoaded db dto.website_id (w, organization_id)
    → w.is_active ≡ true
    → safe w.url ≢ none
    → create_for_principal safe now true new_id (key_of organization_id created_by) dto db ≡ (
        let scan =
          queued_scan now new_id w ScanTrigger.api (options_of dto (or_default dto.max_pages 50)) in
        ok scan (enqueued scan db))
unfolding create_for_principal require_website_in_organization load_website enqueue_scan
    store_and_enqueue enqueue ◌>>=◌
create_for_principal_key safe now new_id organization_id created_by dto db w loaded active fine =
    ground (arith, loaded.found, loaded.organization, active, fine)

-- A scan that an API key created.
pub record CreatedByKey (safe : Text → Option Text) (now : ℕ) (accepts : Bool)
    (new_id organization_id : ℕ) (dto : CreateScanDto) (db db' : Db) (r : Scan) : Type 0 where
  pub website : Website
  pub inside : Laws.IsLoaded db dto.website_id (website, organization_id)
  pub active : website.is_active ≡ true
  pub checked : safe website.url ≢ none
  pub row :
      r
      ≡ queued_scan now new_id website ScanTrigger.api
          (options_of dto (or_default dto.max_pages 50))
  pub stored : Stored now accepts r db db'

-- An API key's creation of a scan that succeeds is of an active website of the key's organization
-- whose stored URL passed the SSRF check again. One that fails writes nothing, unless the queue
-- refused the job, which leaves the new row marked FAILED if its identifier was not in use.
pub create_for_principal-Ends :
    (safe : Text → Option Text) (now : ℕ) (accepts : Bool) (new_id organization_id : ℕ)
    (created_by : Option ℕ) (dto : CreateScanDto) (db : Db)
    → Ends
        (λ r db'. CreatedByKey safe now accepts new_id organization_id dto db db' r)
        (NotStored now accepts new_id db)
        (create_for_principal safe now accepts new_id (key_of organization_id created_by) dto db)
unfolding create_for_principal enqueue_scan
create_for_principal-Ends safe now accepts new_id organization_id created_by dto db =
    read_rule _ _ db (require_website_in_organization-Reads organization_id dto.website_id db)
      (λ e. inl refl)
      λ w inside.
        throw_if_rule _ _ _ db (λ _. inl refl)
          λ active.
            or_throw_rule _ _ _ db (λ _. inl refl)
              λ url checked.
                let scan =
                  queued_scan now new_id w ScanTrigger.api
                    (options_of dto (or_default dto.max_pages 50)) in
                Ends-mono
                  (λ r d (same, stored). record {
                    website = w;
                    inside = inside;
                    active = ground (arith, active);
                    checked = λ missing. cc (missing, checked);
                    row = same;
                    stored = subst (λ s. Stored now accepts s db d) (sym same) stored;
                  })
                  (λ e d h. h) (store-Ends now accepts scan db refl)

-- What a key of the organization may start a scan of.
abbrev pub MayScan : (Text → Option Text) → ℕ → ℕ → Db → Type 0
MayScan safe organization_id website_id db =
    (w : Website) × Laws.IsLoaded db website_id (w, organization_id)
    × (w.is_active ≡ true)
    × (safe w.url ≢ none)

-- An API key's creation of a scan that succeeds is of an active website of the key's organization
-- whose stored URL passed the SSRF check again; its row is QUEUED, for as many pages as were asked
-- for (50 by default), and its job is in the queue. It fails only if the queue refused the job or
-- there is no such website, so never for the plan or for an unverified domain, and then writes
-- nothing, unless the queue refused the job, which leaves the new row marked FAILED if its
-- identifier was not in use.
pub create_by_key-Ends :
    (safe : Text → Option Text) (now : ℕ) (accepts : Bool) (new_id organization_id : ℕ)
    (created_by : Option ℕ) (dto : CreateScanDto) (db : Db)
    → Ends
        (λ r db'. CreatedByKey safe now accepts new_id organization_id dto db db' r)
        (λ e db'.
          NotStored now accepts new_id db e db'
          × ((accepts ≡ false) ⊎ ¬ MayScan safe organization_id dto.website_id db))
        (create_for_principal safe now accepts new_id (key_of organization_id created_by) dto db)
create_by_key-Ends safe now accepts new_id organization_id created_by dto db =
    Ends-also (create_for_principal-Ends safe now accepts new_id organization_id created_by dto db)
      λ e d thrown. elim (Bool-cases accepts) [
        | inl opened ↦ inr λ (w, loaded, active, fine).
            let run =
              create_for_principal_key safe now new_id organization_id created_by dto db w loaded
                active fine in
            absurd (cc (run, thrown, opened))
        | inr closed ↦ inl closed
      ]
