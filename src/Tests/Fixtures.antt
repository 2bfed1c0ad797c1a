-- ===== src/Tests/Fixtures.antt =====
-- Concrete numbers, stores, caches and servers for the runs.
use llmwatch.Base.{
  ok_injective, sym, true, arith, ℕ, ◌+◌, ◌-◌, ◌*◌, ◌/◌, ◌^◌, Bytes, codes, List, map, [], ◌∷◌,
  Bool, false, not, ◌||◌, ◌==◌, bytes_eq, nat_beq, ltb, if◌then◌else◌, pos, none, some, Float64,
  Error, ok, err, ◌≡◌, refl, pos_part,
}
use llmwatch.Models.{LlmCallEvent, openai, success}
use llmwatch.Db.Store.{Store}
use llmwatch.Redis.Cache.{Cache, IsLawful}
use llmwatch.Redis.Server.{Server, IsServer, on_lists}
use llmwatch.Kafka.Message.{Message, Codec}

abbrev pub nano : ℕ
nano = 1000000000

abbrev up : ℕ → ℕ
up x = (x + (nano - 1)) / nano

-- Numbers that are not negative, in units of 10 ^ -9.
instance abbrev pub fixed : Float64 ℕ
fixed = record {
  decimal = λ m d. m * nano / 10 ^ d;
  of_int = λ n. pos_part n * nano;
  fadd = λ a b. a + b;
  fsub = λ a b. a - b;
  fmul = λ a b. a * b / nano;
  fdiv = λ a b. a * nano / b;
  feq = nat_beq;
  flt = ltb;
  floor = λ a. pos (a / nano);
  ceil = λ a. pos (up a);
  truncate = λ a. pos (a / nano);
}

abbrev pub mem : List Bytes → Bytes → Bool
mem [] k = false
mem (j ∷ js) k = k == j || mem js k

-- The ids of the rows that are stored.
abbrev pub table : Store ℕ
table = record {
  State = List Bytes;
  insert_event = λ e ids. (e.event_id ∷ ids, ok (not (mem ids e.event_id)));
  get_recent_calls = λ n ids. (ids, ok []);
  get_summary = λ d ids. (ids, err (Error.external []));
  get_error_rates = λ d ids. (ids, ok []);
  get_provider_comparison = λ d ids. (ids, ok []);
  upsert_hourly_metrics = λ m ids. (ids, ok tt);
  ensure_partition = λ t ids. (ids, ok tt);
  health_check = λ ids. (ids, ok tt);
}

-- A database that refuses every insert.
abbrev pub full : Store ℕ
full = record table { insert_event = λ e ids. (ids, err (Error.external (codes "disk full"))) }

-- The ids that are marked.
abbrev pub marks : Cache ℕ
marks = record {
  State = List Bytes;
  is_duplicate = λ k ids. (k ∷ ids, ok (mem ids k));
  incr_calls_per_minute = λ t ids. (ids, ok tt);
  get_calls_per_minute = λ now n ids. (ids, ok []);
  append_latency = λ p m l ids. (ids, ok tt);
  get_latency_percentiles = λ ids. (ids, ok []);
  incr_cost = λ p c ids. (ids, ok tt);
  get_cost_by_provider = λ ids. (ids, ok []);
  health_check = λ ids. (ids, ok tt);
}

-- A cache whose server is gone.
abbrev pub gone : Cache ℕ
gone = record marks {
  is_duplicate = λ k ids. (ids, err (Error.external (codes "EOF")));
  incr_calls_per_minute = λ t ids. (ids, err (Error.external (codes "EOF")));
}

or_true : (a b : Bool) → b ≡ true → a || b ≡ true
or_true a b h = ground (arith, h)

pub marks-IsLawful : IsLawful marks mem
marks-IsLawful = record {
  answer = λ k s h. sym (ok_injective h);
  marked = λ k j s h. refl;
  kept = λ k j s h. or_true (j == k) (mem s j) h;
  seen-incr_calls_per_minute = λ t k s. refl;
  seen-append_latency = λ p m l k s. refl;
  seen-incr_cost = λ p c k s. refl;
}

-- The keys that are set, and the lists.
abbrev pub redis : Server ℕ
redis = record {
  State = List Bytes × (Bytes → List Bytes);
  set_nx = λ k v ttl (ks, lists). ((k ∷ ks, lists), ok (not (mem ks k)));
  exec = λ cs (ks, lists). ((ks, λ k. on_lists cs k (lists k)), ok tt);
  mget = λ ks s. (s, ok (map (λ k. some (codes "7")) ks));
  lrange = λ k (ks, lists). ((ks, lists), ok (lists k));
  hincr_by_float = λ k f x s. (s, ok tt);
  hgetall = λ k s. (s, ok []);
  scan = λ k s. (s, ok []);
  ping = λ s. (s, ok tt);
}

pub redis-IsServer : IsServer redis (λ s. mem s.0) (λ s. s.1)
redis-IsServer = record {
  set_nx_answer = λ k v ttl s h. sym (ok_injective h);
  set_nx_exists = λ k v j ttl s h. refl;
  set_nx_keeps = λ k v j ttl s h. or_true (j == k) (mem s.0 j) h;
  exec_exists = λ cs j s h. refl;
  hincr_by_float_exists = λ k f j x s h. refl;
  exec_list = λ cs k s h. refl;
}

abbrev pub sample : LlmCallEvent ℕ
sample = record {
  event_id = codes "e1";
  provider = openai;
  model = codes "GPT-4o-mini";
  latency_ms = pos 420;
  input_tokens = pos 1000;
  output_tokens = pos 500;
  cost_usd = 0;
  status = success;
  error_message = [];
  timestamp = pos 1700000000000;
}

abbrev pub named : Bytes → LlmCallEvent ℕ
named id = record sample { event_id = id }

-- An event's text is its id; the empty text is no event.
abbrev pub ids : Codec ℕ
ids = record {
  marshal = λ e. some e.event_id;
  unmarshal = λ v. if v == [] then none else some (named v);
}

abbrev pub message : ℕ → Bytes → Message
message n v = record {
  offset = n;
  partition = 0;
  key = openai;
  value = v;
  headers = [];
  time = pos 0;
}
