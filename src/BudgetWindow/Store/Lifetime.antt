-- ===== src/BudgetWindow/Store/Lifetime.antt =====
-- services/budget_window_cache.py: how long a stored state of a report is read, and the methods of
-- `BudgetWindowCache` that write over it.
pub mod Submitted
use policyengine_api.Base.{
  ℕ, ◌+◌, ◌*◌, ◌≤◌, ◌<◌, ◌≡◌, refl, ◌∙◌, String, [], Option, some, Bool, true, false, arith,
  eq_refl,
}
use policyengine_api.Base.Int.{ℤ}
use policyengine_api.Json.{CacheText}
use policyengine_api.Effect.{coordination_error, Error, Result, ok, raised, lift, attempt, ◌>>=◌}
use policyengine_api.Effect.Keeps.{
  Keeps, Keeps-bind, Keeps-pure, Keeps-attempt, Keeps-lift, Keeps-raise,
}
use policyengine_api.Cache.Backend.Commands
use policyengine_api.Cache.Backend.Commands.{Backend, second, set, get, advance}
use policyengine_api.Cache.Backend.Expiry.{view, external_now-set}
use policyengine_api.Cache.Client.{
  World, record_cache_event, client_get, client_set, pass, truthy, IsCalm, client_get-IsCalm,
  client_set-IsCalm, events-IsCalm, pass-IsCalm,
}
use policyengine_api.Cache.Core.{completed_result_ttl, jittered_ttl_bounds}
use policyengine_api.BudgetWindow.State.{State, validated, sorted}
use policyengine_api.BudgetWindow.Store.{
  submitted_reply, unavailable, family, state_key, encoded_state, decode_state, get_state,
  report_read, report_state, handle_cache_error, send_state, set_recoverable_state, store_submitted,
  submitted_state, expiring, result_ttl_seconds, batch_ttl_seconds,
}
use policyengine_api.BudgetWindow.Store.Reads.{decode_state-encoded_state}

-- The backend holds a readable state of the report from the time t until the deadline or longer.
pub record Stored (cache_key : String) (t deadline : ℕ) (w : World) : Type 0 where
  pub calm : IsCalm w
  pub text : CacheText
  pub state : State
  pub readable : decode_state text ≡ some state
  pub value : w.backend.values (state_key cache_key) ≡ some text
  pub expiry : ℕ
  pub expires : w.backend.expires (state_key cache_key) ≡ some expiry
  pub lasts : deadline ≤ expiry
  pub time : w.backend.time ≡ t

module _ (cache_key : String) (t deadline : ℕ) (alive : t < deadline) where
  event-Stored :
      (cache_family event : String) (operation : Option String) (severity : String)
      → Keeps
          (Stored cache_key t deadline)
          (record_cache_event cache_family event operation severity)
  unfolding record_cache_event
  event-Stored cache_family event operation severity = record {
    at = λ w h. record {
      calm = events-IsCalm _ h.calm;
      text = h.text;
      state = h.state;
      readable = h.readable;
      value = h.value;
      expiry = h.expiry;
      expires = h.expires;
      lasts = h.lasts;
      time = h.time;
    };
  }

  client_set-Stored :
      (s : State) (ttl : ℕ) (w : World)
      → validated s ≡ ok s
      → IsCalm w
      → w.backend.time ≡ t
      → deadline ≤ t + ttl * second
      → Stored cache_key t deadline
          (client_set (state_key cache_key) (encoded_state s) (expiring ttl) w).1
  unfolding set
  client_set-Stored s ttl w valid calm time long =
      rw (client_set-IsCalm w calm (state_key cache_key) (encoded_state s) (expiring ttl)) (record {
        calm = record {
          enabled = calm.enabled;
          faultless = refl;
          internal =
              external_now-set w.backend (state_key cache_key) (encoded_state s) (expiring ttl)
              ∙ calm.internal;
        };
        text = encoded_state s;
        state = sorted s;
        readable = decode_state-encoded_state s valid;
        value = ground (arith, eq_refl (state_key cache_key));
        expiry = t + ttl * second;
        expires = ground (arith, eq_refl (state_key cache_key), calm.internal);
        lasts = long;
        time = ground arith;
      })

  module _ (w : World) (h : Stored cache_key t deadline w) where
    get-Stored : Commands.get (state_key cache_key) w.backend ≡ (some h.text, w.backend)
    unfolding get
    get-Stored = let c = h.calm in ground (arith, h.value, h.expires, h.lasts, h.time, c.internal)

    client_get-Stored :
        client_get (state_key cache_key) w ≡ (ok (some h.text), record w { outcomes = [] })
    unfolding view
    client_get-Stored = cc (client_get-IsCalm w h.calm (state_key cache_key), get-Stored)

    calmed : Stored cache_key t deadline (record w { outcomes = [] })
    calmed = record {
      calm = record { enabled = h.calm.enabled; faultless = refl; internal = h.calm.internal };
      text = h.text;
      state = h.state;
      readable = h.readable;
      value = h.value;
      expiry = h.expiry;
      expires = h.expires;
      lasts = h.lasts;
      time = h.time;
    }

    pub get_state-Stored :
        ((get_state cache_key w).0 ≡ ok (some h.state))
        × Stored cache_key t deadline (get_state cache_key w).1
    unfolding get_state report_read report_state
    get_state-Stored =
        rw client_get-Stored (rw h.readable (refl, (event-Stored _ _ _ _).at _ calmed))

  sent-Stored :
      (s : State) (r : Result ℕ)
      → validated s ≡ ok s
      → ((ttl : ℕ) → r ≡ ok ttl → deadline ≤ t + ttl * second)
      → Keeps
          (Stored cache_key t deadline)
          (lift r >>= λ ttl. client_set (state_key cache_key) (encoded_state s) (expiring ttl))
  sent-Stored s (ok ttl) valid long = record {
    at = λ w h. client_set-Stored s ttl w valid h.calm h.time (long ttl refl);
  }
  sent-Stored s (raised e) valid long = Keeps-lift (raised e)

  module _ (randint : ℕ → ℕ → ℤ) (s : State) (valid : validated s ≡ ok s)
      (long : deadline ≤ t + 2_332_800 * second) where
    send_state-Stored : Keeps (Stored cache_key t deadline) (send_state randint cache_key s)
    unfolding send_state
    send_state-Stored =
        sent-Stored s (completed_result_ttl result_ttl_seconds randint) valid (λ ttl e.
          let bounds = jittered_ttl_bounds result_ttl_seconds 10 100 ttl randint e in
          omega (arith, bounds.2, long))

    pub set_recoverable_state-Stored :
        (operation : String)
        → Keeps (Stored cache_key t deadline) (set_recoverable_state randint cache_key s operation)
    unfolding set_recoverable_state handle_cache_error
    set_recoverable_state-Stored operation =
        Keeps-attempt (send_state randint cache_key s) _ _ send_state-Stored
          (λ e.
            Keeps-bind _ _ (event-Stored family "write-failed" (some operation) "WARNING")
              (λ _. Keeps-pure false))
          (λ reply.
            Keeps-bind _ _ (event-Stored family "write" (some operation) "INFO")
              (λ _. Keeps-pure (truthy reply)))

-- Time passes, and the state stays.
pub pass-Stored :
    {cache_key : String} {t deadline : ℕ} {w : World} (microseconds : ℕ)
    → Stored cache_key t deadline w
    → Stored cache_key (t + microseconds) deadline (pass microseconds w)
unfolding advance
pass-Stored microseconds h = record {
  calm = pass-IsCalm microseconds h.calm;
  text = h.text;
  state = h.state;
  readable = h.readable;
  value = (let c = h.calm in ground (arith, c.internal, h.value));
  expiry = h.expiry;
  expires = (let c = h.calm in ground (arith, c.internal, h.expires));
  lasts = h.lasts;
  time = (let c = h.calm in ground (arith, c.internal, h.time));
}
