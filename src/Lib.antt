-- ===== src/Lib.antt =====
-- dext is a system that crawls university sites through a browser, and recommends professors and student
-- competitions from what it has gathered. This library models five parts of it.
--
-- Planning (src/dext_competition/planning, contracts/plan.py, contracts/catalog.py, errors.py): from a
-- competition's card and a request, `PreparationPlanGenerator.generate` builds phase templates
-- (templates.py), schedules them (scheduler.py), checks the draft (contracts/plan.py, validation.py) and
-- lets a language model suggest optional tasks (generator.py).
--   Planning/Types, Card, Templates: the contracts with the checks of their constructors, the tables.
--   Planning/Scheduler/Ranges, Placing: `_allocate_ranges`, `_available_due_date`, `_eligible` and
--   `schedule_plan`; its loops are functions on the lists, with the appended lists as state.
--   Planning/Validation, Generator: `validate_plan`, `validate_personalization_output`, `_personalize`
--   and `generate`.
--   Dates are their ordinals. Floats are an abstract type with the operations that are used
--   (Base/Floats), so that no result depends on exact arithmetic; the bound on hours asks only that
--   `>` is a strict order. An exception is a `raise` of the model's results. `isoformat`, `uuid5` and
--   the reading of numbers are parameters. The positivity of a template's weight, negative weekly hours
--   and dates beyond the calendar's last year are not modelled.
--
-- Grounded (src/dext_grounded): the citation validator (citation.py), which drops or cuts down the claims
-- of a generated answer by the references of its fact bundle, and the trimming of bundles (trim.py).
--   Grounded/Types, Output: claims, facts and references, and the recursion over outputs (_output.py).
--   Grounded/Citation: `CitationValidator.validate`; the SHA-256 digest and the messages of the rules
--   are parameters, and no result asks that the digest has no collisions.
--   Grounded/Trim: `trim`; the contact patterns and the search of terms are parameters.
--   The plan generator builds its fact bundles with these types.
--
-- Repositories (src/dext_competition/repositories/plans.py): the owner-scoped in-memory repositories.
--   Repositories/Snapshots, Plans, History: snapshots are dictionaries, a dictionary is a list of its
--   entries in order (Base/Dicts), an operation returns its result and the repository after it. A deep
--   copy is the value itself.
--
-- Bridge (src/dext/bridge, src/dext/url_policy.py): the queue of fetch jobs with one job in flight, the
-- heartbeat of the browser, and the fetches that wait on their jobs.
--   Bridge/Queue, Health, UrlPolicy, Mojibake, Decision: queue.py, health.py, url_policy.py,
--   mojibake.py, decision.py.
--   Bridge/Fetcher: fetcher.py. Jobs are shared objects: a store of them by address is part of the
--   queue. A future is done where it has a result.
--   Bridge/System: the bridge with its sleeping fetches, and the events of the one event loop as steps;
--   a pass of the loop of `_wait_for_job`, which is atomic there, is one step. `Reachable` is the
--   relation of the states that events lead to.
--   Times are whole milliseconds of a monotonic clock. `urlsplit`, lower case, the codecs and uuid4 are
--   parameters; `deque.remove` compares jobs by identity, since uuid4 ids differ.
--
-- Crawl (src/dext/storage, src/dext/engine): the graph of addresses to visit, kept in tables that one writer
-- changes, and the engine that works it off. The driver claims a node, takes its page from the cache or
-- asks the bridge, and puts it on a queue; the extraction worker settles detail pages.
--   Crawl/Types, Keys: the rows of models.py and the specifications of seeds.py, keys and priorities.
--   Crawl/Store, its Rows and Reset: the functions of writer.py behind its commands, and the repair of
--   `open_resume`. A table is the list of its rows (Crawl/Tables); a violated unique column or
--   foreign key and a missing row raise.
--   Store/Runs has the rows of crawl runs and of the university.
--   Crawl/Claim: `_claim_next`. Crawl/Commands: a command of `DBWriter` as a step, rolled back where it
--   raises.
--   Crawl/Retry: retry.py. Crawl/Driver: `CrawlEngine`, a pass of whose loop is a step; its state is
--   in Driver/State, the handling of a page in Driver/Process. What raises there carries the engine
--   with it, since each command is committed by itself; a malformed address raises `ValueError`.
--   Crawl/People: `save_professors` of dedup.py, a savepoint for each payload. Rows that a query
--   gives without an order come in the order of their table.
--   Crawl/Run: the driver and the extraction workers as events in any order; of a task all commands run
--   at one point, and decision workers do not run. A pass that raises ends the driver, and the workers
--   go on.
--   Crawl/Names: `clean_org_unit_name` of names.py.
--   Crawl/Extract: `process_extract_task` of workers.py, with what its commands leave behind where
--   one of them raises.
--   Priorities and confidences are whole numbers, of which only the order counts; instants are numbers;
--   the id of a new row is a parameter, of which the integrity asks that it is fresh. The answers of
--   the bridge, the snapshot of a page, the extraction by the language model, lower case, the pattern
--   for 404, normal form and `repr` are parameters; the answer of the bridge and the snapshot of a page
--   may be a `ValueError`. Failures of the database itself, such as a lock, are not modelled.
--   `node_status_counts` is left out.
--
-- Loops are structural recursion on lists and numbers. Two functions have fuel: `decimal` of Base/Text
-- prints a number n with fuel n + 1, as a number has no more digits than that; `run_to_pause` of
-- Crawl/Driver, the passes up to the next sleep or return, needs one more than there are nodes.
-- Concrete runs stand in the modules named Tests.
--
-- Not modelled: the handlers of decisions, the loading of seeds, the start and the end of a crawl, page
-- parsing, language-model calls, retrieval and scoring, the assistant, the HTTP servers, the graph
-- pipelines, the monitor, and the TypeScript front ends. They are input and output for the most part.
pub mod Base
pub mod Grounded
pub mod Planning
pub mod Repositories
pub mod Bridge
pub mod Crawl
