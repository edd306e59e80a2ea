-- ===== src/BudgetWindow/Service/Request.antt =====
-- The state of one budget-window request, what the code outside of it answers, and the correlation
-- identifiers of policyengine_api/request_context.py.
use policyengine_api.Base.{ℕ, String, List, [], Option, none, some}
use policyengine_api.Base.Int.{ℤ}
use policyengine_api.Json.{Json, Fields}
use policyengine_api.Effect.{Result, ok, Exec, within, ◌>>=◌}
use policyengine_api.Cache.Client.{World}
use policyengine_api.Correlation
use policyengine_api.Correlation.{Identifiers}

-- ModalBudgetWindowBatchExecution of policyengine_api/libs/simulation_entrypoint.py
pub record Batch : Type 0 where
  pub status : String
  pub progress : Option ℕ
  pub completed_years : List String
  pub running_years : List String
  pub queued_years : List String
  pub result : Option Fields
  pub error : Option String

-- What a request meets outside of this code: the policy tables, the payload of a batch, whose
-- building raises nothing, the simulation gateway, the
-- receipt checks of worker_spm.py, the request's headers, and Python's uuid and random modules.
pub record Environment : Type 0 where
  pub load_policies : Result (Unit {0})
  pub batch_payload : Fields
  pub submit : Result String
  pub refusal_message : String
  pub poll : String → Result Batch
  pub certify : Fields → List String → Result (Unit {0})
  pub incoming_observability_id : Option String
  pub generated_observability_id : String
  pub normalize : String → Option String
  pub randint : ℕ → ℕ → ℤ
  pub text_of : Json → String

-- `observability_id` is the setup options' field and `current_id` the request's context variable;
-- `submissions` are the payloads of the batches that the gateway was sent.
pub record Request : Type 0 where
  pub cache : World
  pub observability_id : Option String
  pub current_id : Option String
  pub submissions : List Fields

-- a request that begins
abbrev pub begin : World → Request
begin w = record { cache = w; observability_id = none; current_id = none; submissions = [] }

abbrev pub on_cache : {A : Type 0} → Exec World A → Exec Request A
on_cache = within (λ s. s.cache) (λ w s. record s { cache = w })

-- the environment's side of the identifiers
abbrev ids : Environment → Identifiers
ids env = record {
  normalize = env.normalize;
  incoming = env.incoming_observability_id;
  generated = env.generated_observability_id;
}

abbrev on_current_id : {A : Type 0} → Exec (Option String) A → Exec Request A
on_current_id = within (λ s. s.current_id) (λ x s. record s { current_id = x })

unfoldable pub resolve_observability_id : Environment → Option String → String
unfolding Correlation.resolve_observability_id
resolve_observability_id env value = Correlation.resolve_observability_id (ids env) value

unfoldable pub start_observability_id : Environment → String → Exec Request String
unfolding Correlation.start_observability_id
start_observability_id env candidate =
    on_current_id (Correlation.start_observability_id (ids env) candidate)

unfoldable pub restore_observability_id : Environment → Option String → Exec Request (Option String)
unfolding Correlation.restore_observability_id
restore_observability_id env value =
    on_current_id (Correlation.restore_observability_id (ids env) value)

abbrev keep_resolved : Option String → Exec Request (Unit {0})
keep_resolved none s = (ok tt, s)
keep_resolved (some x) s = (ok tt, record s { observability_id = some x })

-- _restore_budget_window_observability_id
unfoldable pub restore_report_id : Environment → Option String → Exec Request (Unit {0})
unfolding restore_observability_id
restore_report_id env value = do
  resolved ← restore_observability_id env value
  keep_resolved resolved
