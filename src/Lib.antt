-- ===== src/Lib.antt =====
-- Verification library of the PolicyEngine API: the shared runtime cache, the economic reports that
-- coordinate their workers through it, for one year and for a budget window of several, and the
-- validation of policy data.
--
-- The program computes economic reports. A report runs as a job of the simulation gateway, and all
-- workers share the job through the cache. A budget-window report has one document, its state; a
-- single-year report has a record under its job's identifier, which two indexes list. A request reads
-- what is stored; without anything it claims the submission by a SET with NX, submits the job and
-- stores it; later requests poll the job, and the final result or failure replaces it. A failure of
-- the cache is a miss for finished results and an error for the coordination of submissions. A stored
-- failure is answered from until it expires, or until a DELETE removes it.
--
-- The parts, from the bottom:
--   Base, Base/*           tests, lists and numbers over the native naturals.
--   Json, Json/*           JSON values, dicts and stored texts, their equality, and the canonical
--                          order of keys (json.dumps with sort_keys). A stored text is either the
--                          canonical text of a value (`doc`) or one that json.loads refuses (`plain`).
--   Effect, Effect/*       methods with a state that may raise, the exceptions, and the invariants of
--                          methods.
--   Correlation            policyengine_api/request_context.py: the identifier of a request.
--   Cache/Backend/*        policyengine_api/runtime_cache/fake.py: `Backend` is InMemoryCacheBackend
--                          with one function for each method. Its clock counts microseconds.
--                          Expiry and Refinement say what a reader sees of it, Trimming and Indexes
--                          how large its indexes are, Lifetimes how long a key lives, Unchanged which
--                          commands leave the values alone.
--   Cache/Client, Client/* policyengine_api/runtime_cache/core.py: the commands of CacheBackend and the
--                          pipeline as a request sends them. A list of outcomes says what the network
--                          does to each command that is still to come: answered, refused before it is
--                          applied, or applied with the reply lost; a pipeline is one command. A
--                          disabled backend stores nothing. Invariants and Calm say what the commands
--                          keep, and what they do while none fails.
--   Cache/Claims/*         policyengine_api/runtime_cache/claims.py: ExpiringClaimStore.
--   Cache/Core, Core/*     policyengine_api/runtime_cache/core.py: keys, envelopes, TTL jitter and
--                          RecoverableJSONCache. The jitter fraction is an exact quotient.
--   ReformImpacts/*        policyengine_api/runtime_cache/reform_impacts.py: the start claims
--                          (StartClaims), the LIKE patterns (Like), the records with their wire form
--                          (Records), and the methods of ReformImpactCache: writes and single reads in
--                          Repository, searches in Repository/Lookups, removals in Repository/Removal.
--                          Service is policyengine_api/services/reform_impacts_service.py.
--   Annual/*               policyengine_api/services/economy_service.py, economy_stored_impacts.py and
--                          economy_impact_execution.py: a single-year request. Build checks it against
--                          Tables and makes its setup options (economy_simulation_requests.py), Spm asks
--                          the gateway whether the worker has its SPM options
--                          (policyengine_api/worker_spm.py), Stored
--                          reads and writes the stored impacts, Execution answers from one with the
--                          Bundle of its worker, Submission claims and sends a job, Deletion removes a
--                          failure.
--   BudgetWindow/Setup     policyengine_api/utils/budget_window.py: the validation of a request.
--   BudgetWindow/State     policyengine_api/services/budget_window_cache.py: the state document
--                          (BudgetWindowCacheState), its validation and its wire form.
--   BudgetWindow/Store     the same file: BudgetWindowCache, one function for each method.
--   BudgetWindow/Impact    policyengine_api/services/economy_impact_types.py: the report
--                          (BudgetWindowEconomicImpactResult), its wire form and progress message.
--   BudgetWindow/Service/* policyengine_api/services/economy_budget_window_submission.py and
--                          economy_budget_window_results.py: the request handler. The state of a
--                          request holds the cache and the submissions that the gateway was sent.
--   Households/*           policyengine_api/runtime_cache/household_calculations.py: the cache of calculated
--                          households. The validation of an SPM receipt is a parameter.
--   PolicyData/*           policyengine_api/utils/policy_data_validation.py: the period keys and values that
--                          simulations can read.
--   */Tests                the theorems at concrete inputs, and runs of the code; ReformImpacts/Sample
--                          holds test data.
--
-- Parameters, since their code is not under this source or not modelled: the hash of a cache key, the
-- random choice of a TTL, uuid with the normal form of an identifier, the clocks, the ISO form of a
-- time, the policy tables, the payload of a batch, the gateway and the receipt checks of worker_spm.py (the records
-- `Environment` of BudgetWindow/Service/Request and Annual/Request, and `Setting` of
-- ReformImpacts/Repository). Of the data tables under policyengine_api/data, the state codes and
-- the UK regions are parameters too, and so are the SPM configuration that the installed bundle
-- certifies and its comparison with a worker's (`Tables` of Annual/Tables). The claim loops and the deletion loop
-- run on the number of attempts that are left, three as in the source, and raise when none is left.
-- `decimal` writes n with n + 1 units of fuel, more than n has digits. No other function uses fuel.
--
-- Not modelled: the latency of events and the log lines, floating-point rounding of clocks and index
-- scores, the suffix of a cache key, the setup options of a budget window, the payload of a submission,
-- and the coercions of pydantic beyond the JSON types that model_dump writes.
pub mod Base
pub mod Json
pub mod Effect
pub mod Cache
pub mod Correlation
pub mod ReformImpacts
pub mod BudgetWindow
pub mod Annual
pub mod PolicyData
pub mod Households
