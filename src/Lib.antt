-- ===== src/Lib.antt =====
-- StackWarden: a verification of the core of packages/stackwarden/src/stackwarden.
--
-- The program keeps hardware profiles, stacks and reusable layers as YAML files, composes a stack
-- from a recipe and layers, resolves it against a profile into a plan, builds the plan's image and
-- records the artifact in a catalog. A web server runs builds as jobs. Paths below are from that
-- folder.
--
-- Base: numbers, texts as lists of code points, dictionaries in insertion order, `sorted`, results.
-- Specs: domain/models.py and domain/enums.py, the models that a stack is composed from and the
--   validators that run when a stack is built.
-- Composition: domain/composition.py. `compose_stack` and the preview of dependency conflicts,
--   with the local variables of a function as a record that its loops pass on. The third-party
--   package `packaging` is the parameter `Packaging`. Pip and Npm hold the merges, Compose the
--   whole composition, Preview the report, Agreement the comparison of the two.
-- Variants: domain/variants.py. Typed says what normalizing gives.
-- Registry: domain/registry_policy.py. Search has `str.rfind`, References takes an image apart,
--   Decision says what a policy lets through.
-- Catalog: catalog/store.py and catalog/queries.py on the artifacts table of catalog/models.py.
--   The table is the list of its rows; `ORDER BY` and `ILIKE` are the parameter `Sql`, and a
--   session of SQLAlchemy, for the commit with its retries, the parameter `SessionLib`. The
--   operations are those of a commit that goes through. The column of a time keeps its clock
--   and drops its zone. Foreign keys are not enforced, as SQLite leaves them.
-- Builds: domain/drift.py and builders/plan_executor.py. What Docker, the builder, the clock, the
--   questions for a cancel, the captures and the hooks answer during one execution is a value of
--   `World`; `int` and `repr` are parameters.
-- Jobs: web/jobs/. Store has the table, Events a subscriber's queue of 1000 items at most, Manager
--   the job manager, Runner `run_ensure_job` in the two pieces that the event loop runs without a
--   break, Phases the steps of runs and requests as a relation.
--
-- Resolver: resolvers/scoring.py, base_catalog.py, rules.py, validators.py, resolver.py and
--   domain/hashing.py. Matching has the searches at word boundaries, Selection says which base is
--   chosen, Fingerprint has the payload that is hashed, Resolve the plan. What JSON, SHA-256 and the
--   printing of numbers give is a value of `Outside`, what the clock and `uuid` give one of `Moment`.
-- Optimization: resolvers/build_optimization.py. Memory is counted in hundredths of a gigabyte, to
--   which the source rounds, without the rounding of floating-point numbers.
-- Compatibility: resolvers/compatibility.py with the models of rule_catalog.py and of
--   domain/tuple_catalog.py and the lookups of domain/hardware_catalog.py. Floating-point numbers and
--   the loaded catalogs are the parameter `Tools`; Resolution says which tuple is chosen, Passing
--   when a profile is compatible.
-- Verify: domain/verify.py. Docker and the files of the snapshots answer as a value of `Evidence`;
--   Verdict says when an artifact passes, Made that one made from a plan does, Fix what follows when
--   one does not.
-- Licenses: licenses/spdx.py and licenses/policy.py, with the YAML file as a dictionary of entries.
--
-- The parts meet at their data: the resolver gives the plan that drift and the executor read, the
-- executor reads and writes the catalog's table, and the runner takes the artifact that an execution
-- returns. No loop needs fuel: each is over a list, and the retries of a commit are counted.
--
-- Not modelled: the command line, the routes, the wizard and the web frontend, which only call
-- these parts; Docker, files and subprocesses.
pub mod Base
pub mod Specs
pub mod Composition
pub mod Variants
pub mod Registry
pub mod Catalog
pub mod Builds
pub mod Jobs
pub mod Resolver
pub mod Optimization
pub mod Compatibility
pub mod Verify
pub mod Licenses
