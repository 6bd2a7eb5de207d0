-- ===== src/Catalog/Session.antt =====
-- The commit with retries: `CatalogStore._commit_with_retry` of
-- packages/stackwarden/src/stackwarden/catalog/store.py
-- A session of SQLAlchemy is a parameter: what it has stored, its commit, and its rollback, which
-- drops the changes that wait.
use stack_warden.Base.{◌∙◌, ℕ, zero, suc, Text, codes, ◌≡◌, refl, Result, ok, err, ◌⊎◌, inl, inr}

-- What a commit does: it goes through, it raises an OperationalError that tells of a lock or of
-- something else.
pub data Commit (S : Type 0) : Type 0 where
  committed : S → Commit S
  locked : S → Commit S
  broken : S → Commit S

Commit-cases :
    {S : Type 0} (c : Commit S)
    → ((s : S) × (c ≡ committed s)) ⊎ (((s : S) × (c ≡ locked s)) ⊎ ((s : S) × (c ≡ broken s)))
Commit-cases (committed s) = inl (s, refl)
Commit-cases (locked s) = inr (inl (s, refl))
Commit-cases (broken s) = inr (inr (s, refl))

pub record SessionLib : Type 1 where
  pub Session : Type 0
  pub Stored : Type 0
  pub stored : Session → Stored
  pub commit : Session → Commit Session
  pub rollback : Session → Session
  -- nothing waits in the session
  pub IsClean : Session → Type 0
  -- a rollback drops what waits, and touches nothing that is stored
  pub rollback-IsClean : (s : Session) → IsClean (rollback s)
  pub stored-rollback : (s : Session) → stored (rollback s) ≡ stored s
  -- a commit that fails stores nothing
  pub stored-locked : (s : Session) {s' : Session} → commit s ≡ locked s' → stored s' ≡ stored s
  pub stored-broken : (s : Session) {s' : Session} → commit s ≡ broken s' → stored s' ≡ stored s
  -- a commit with nothing to write stores nothing
  pub stored-clean :
      (s : Session) {s' : Session} → IsClean s → commit s ≡ committed s' → stored s' ≡ stored s

pub data CommitError : Type 0 where
  operational_error : CommitError
  catalog_error : Text → CommitError

module _ (lib : SessionLib) where
  open lib use {Session, stored, commit, rollback}

  -- The loop at its attempt `attempts - left`: with `left` attempts left after this one. The wait
  -- between two attempts is left out.
  unfoldable pub commit_attempts : (left : ℕ) → Session → Result CommitError (Unit {0}) × Session
  commit_attempts zero s = elim (commit s) [
    | committed s' ↦ (ok tt, s')
    | locked s' ↦
        (err (catalog_error (codes "Catalog database is busy/locked; please retry")), rollback s')
    | broken s' ↦ (err operational_error, s')
  ]
  commit_attempts (suc left) s = elim (commit s) [
    | committed s' ↦ (ok tt, s')
    | locked s' ↦ commit_attempts left (rollback s')
    | broken s' ↦ (err operational_error, s')
  ]

  -- `_commit_with_retry`, with its default of three attempts
  unfoldable pub commit_with_retry : Session → Result CommitError (Unit {0}) × Session
  commit_with_retry s = commit_attempts 2 s

  -- a session with nothing to write stores nothing, however often it is committed
  stored-commit_attempts :
      (left : ℕ) (s : Session) → lib.IsClean s → stored (commit_attempts left s).1 ≡ stored s
  unfolding commit_attempts
  stored-commit_attempts zero s clean = elim (Commit-cases (commit s)) [
    | inl (s', e) ↦ rw (commit_attempts, e) (lib.stored-clean s clean e)
    | inr (inl (s', e)) ↦ rw (commit_attempts, e) (lib.stored-rollback s' ∙ lib.stored-locked s e)
    | inr (inr (s', e)) ↦ rw (commit_attempts, e) (lib.stored-broken s e)
  ]
  stored-commit_attempts (suc left) s clean = elim (Commit-cases (commit s)) [
    | inl (s', e) ↦ rw (commit_attempts, e) (lib.stored-clean s clean e)
    | inr (inl (s', e)) ↦
        rw (commit_attempts, e)
          (stored-commit_attempts left (rollback s') (lib.rollback-IsClean s')
            ∙ (lib.stored-rollback s' ∙ lib.stored-locked s e))
    | inr (inr (s', e)) ↦ rw (commit_attempts, e) (lib.stored-broken s e)
  ]

  -- If the first attempt meets a lock, nothing is ever stored, whatever the call returns: the
  -- rollback has dropped the changes that the later attempts were to write.
  pub commit_with_retry-locked :
      (s : Session) {s' : Session}
      → commit s ≡ locked s'
      → stored (commit_with_retry s).1 ≡ stored s
  unfolding commit_with_retry commit_attempts
  commit_with_retry-locked s {s'} e =
      rw (commit_attempts, e)
        (stored-commit_attempts 1 (rollback s') (lib.rollback-IsClean s')
          ∙ (lib.stored-rollback s' ∙ lib.stored-locked s e))
