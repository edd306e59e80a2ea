-- ===== src/ReformImpacts/Sample.antt =====
-- A setting of the cache and a stored impact, for the tests.
use Prim.Native.Char.{char}
use policyengine_api.Base.{◌≡◌, refl, ap, ℕ, zero, suc, String, [], none, some, false}
use policyengine_api.Base.Int.{pos}
use policyengine_api.Json.{Json, null, str, obj, end, field, CacheText, doc, plain}
use policyengine_api.Cache.Backend.Commands.{empty}
use policyengine_api.Cache.Client.{World, IsCalm}
use policyengine_api.ReformImpacts.{ReformImpactScope, ReformImpactIdentity}
use policyengine_api.ReformImpacts.Records.{naive, aware, CachedReformImpact, Conversions}
use policyengine_api.ReformImpacts.Repository.{Setting}

abbrev pub world : World
world = record { backend = empty; disabled = false; outcomes = []; events = [] }

pub world-IsCalm : IsCalm world
world-IsCalm = record { enabled = refl; faultless = refl; internal = refl }

-- an instant as so many strokes
abbrev pub strokes : ℕ → String
strokes zero = String.[]
strokes (suc t) = String.◌∷◌ (char 73 tt) (strokes t)

abbrev pub count : String → ℕ
count String.[] = 0
count (String.◌∷◌ c s) = suc (count s)

count-strokes : (t : ℕ) → count (strokes t) ≡ t
count-strokes zero = refl
count-strokes (suc t) = ap suc (count-strokes t)

abbrev pub python : Conversions
python = record {
  other_int = λ j. none;
  other_str = λ j. "";
  isoformat = strokes;
  fromisoformat = λ s. some (aware (count s));
}

pub parsed : (t : ℕ) → python.fromisoformat (python.isoformat t) ≡ some (aware t)
parsed t = ap (λ n. some (aware n)) (count-strokes t)

-- the digest of a key: its first field, which is the identifier of a record
abbrev pub text_or_empty : Json → String
text_or_empty (str s) = s
text_or_empty j = ""

abbrev pub digest : CacheText → String
digest (plain s) = s
digest (doc (obj (field k v rest))) = text_or_empty v
digest (doc j) = ""

abbrev pub setting : Setting
setting = record {
  sha256 = digest;
  namespace = record { environment = "production"; service = "api" };
  py = python;
  choose_reduction = λ low high. pos 0;
  clock = 9;
}

abbrev pub impact : CachedReformImpact
impact = record {
  reform_impact_id = 7;
  baseline_policy_id = 1;
  reform_policy_id = 2;
  country_id = "us";
  region = "ny";
  dataset = "default";
  time_period = "2026";
  options_json = obj (field "target" (str "general") (field "cliff" null end));
  options_hash = str "[dataset=default]";
  api_version = "1";
  reform_impact_json = obj end;
  status = "computing";
  message = null;
  start_time = some (naive 3);
  end_time = none;
  execution_id = some "job-1";
  error_code = null;
  observability_id = str "6f1c";
}

abbrev pub ended : CachedReformImpact → CachedReformImpact
ended before = record before { status = "error"; end_time = some (naive 5) }

abbrev pub scope : ReformImpactScope
scope = record {
  country_id = "us";
  reform_policy_id = 2;
  baseline_policy_id = 1;
  region = "ny";
  dataset = "default";
  time_period = "2026";
}

abbrev pub identity : ReformImpactIdentity
identity = record { scope = scope; api_version = "1"; options_hash = some "[dataset=default]" }
