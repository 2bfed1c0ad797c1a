-- ===== src/Tests/Routes.antt =====
-- The router at concrete requests.
use llmwatch.Base.{
  ℕ, Bytes, codes, [], ◌∷◌, bytes_eq, pos, true, Option, none, some, ok, err, Error, ◌≡◌, refl,
  arith,
}
use llmwatch.Kafka.Producer.{mock_producer, mock_publish}
use llmwatch.Cmd.Simulator.{Draws, generate_event, send_event}
use llmwatch.Cmd.Simulator.Accepted.{simulated_accepted}
use llmwatch.Api.Ingest.{handle_ingest_event}
use llmwatch.Api.Middleware.{Request, ResponseWriter, Handler, header, Served}
use llmwatch.Api.Router.{ApiWorld, routes, Chi, new_router}
use llmwatch.Api.Router.Dispatch.{find_route, IsChi}
use llmwatch.Api.Router.Topic.{reads_never_publish}
use llmwatch.Api.Router.Answers.{post_event_served, preflight_served}
use llmwatch.Tests.Fixtures.{fixed, table, marks, ids, sample}

abbrev serve : {W : Type 0} → Option (Handler ℕ W) → Handler ℕ W
serve none r w s = (s, record w { status = 404 })
serve (some h) r w s = h r w s

-- Middleware that does nothing, and the first line that fits.
abbrev chi : Chi ℕ
chi = record {
  status_text = λ n. n ∷ [];
  real_ip = λ next. next;
  request_id = λ next. next;
  recoverer = λ next. next;
  compress = λ next. next;
  mux = λ lines r. serve (find_route lines r.method r.path) r;
}

chi-IsChi : IsChi chi
chi-IsChi = record {
  passes_real_ip = λ next r w s. refl;
  passes_request_id = λ next r w s. refl;
  passes_recoverer = λ next r w s. refl;
  passes_compress = λ next r w s. (refl, refl);
  routed = λ lines r w s clear found. ground (arith, found);
  unrouted = λ lines r w s clear missing. ground (arith, missing);
}

abbrev World : Type 0
World = ApiWorld {F = ℕ} mock_producer table marks

abbrev idle : Request ℕ → ResponseWriter ℕ → ResponseWriter ℕ
idle r w = w

abbrev request : Bytes → Bytes → Request ℕ
request method path = record {
  method = method;
  path = path;
  param = λ key. [];
  event = ok sample;
  events = err (Error.external (codes "EOF"));
  new_id = λ n. codes "x";
  now = λ n. pos 5;
  hub_events = [];
}

abbrev writer : ResponseWriter ℕ
writer = record { headers = []; status = 0; body = none; can_flush = true }

abbrev fresh : Served World
fresh = record {
  world = record {
    api = record {
      producer = record { published = []; failure = none };
      hub = record { clients = []; next_id = 0 };
    };
    db = [];
    cache = [];
  };
  counters = record { requests = []; durations = [] };
}

reads_never_publish_example :
    (new_router chi
      (routes ids mock_producer table marks idle)
      (request (codes "GET") (codes "/api/v1/events"))
      writer
      fresh).0.world.api.producer
    ≡ fresh.world.api.producer
reads_never_publish_example =
    reads_never_publish ids mock_producer table marks chi chi-IsChi idle
      (request (codes "GET") (codes "/api/v1/events")) writer fresh (cc)

abbrev posted : Request ℕ
posted = request (codes "POST") (codes "/api/v1/events")

post_event_served_example :
    let (api, answer) =
      handle_ingest_event ids mock_producer (codes "x") (pos 5) (ok sample) fresh.world.api in
    let x = new_router chi (routes ids mock_producer table marks idle) posted writer fresh in
    (x.0.world ≡ record (fresh.world) { api = api })
    × (x.1.status ≡ answer.status)
    × (x.0.counters.requests ≡ (codes "POST", codes "/api/v1/events", answer.status ∷ []) ∷ [])
post_event_served_example =
    post_event_served ids mock_producer table marks chi chi-IsChi idle posted writer fresh refl refl
      refl

preflight_served_example :
    let x =
      new_router chi
        (routes ids mock_producer table marks idle)
        (request (codes "OPTIONS") (codes "/any"))
        writer
        fresh in
    (x.0.world ≡ fresh.world)
    × (x.1.status ≡ 204)
    × (header (codes "Access-Control-Allow-Origin") x.1.headers ≡ some (codes "*"))
    × (x.0.counters.requests ≡ (codes "OPTIONS", codes "/any", 204 ∷ []) ∷ [])
preflight_served_example =
    preflight_served ids mock_producer table marks chi chi-IsChi idle
      (request (codes "OPTIONS") (codes "/any")) writer fresh refl refl

abbrev draws : Draws ℕ
draws = record {
  model_index = 3;
  latency_normal = 2000000000;
  input_normal = 0;
  output_normal = 500000000;
  error_uniform = 1000000;
  message_index = 2;
  new_id = codes "e9";
  now = pos 1700000000000;
}

abbrev simulated : Request ℕ
simulated = record posted { event = ok (generate_event draws) }

taken : (mock_producer.publish (generate_event draws) fresh.world.api.producer).1 ≡ ok tt
unfolding mock_publish
taken = refl

simulated_accepted_example :
    let x = new_router chi (routes ids mock_producer table marks idle) simulated writer fresh in
    (x.1.status ≡ 202)
    × (send_event (ok tt) (ok x.1.status) ≡ ok tt)
    × (x.0.counters.requests ≡ (codes "POST", codes "/api/v1/events", 202 ∷ []) ∷ [])
simulated_accepted_example =
    simulated_accepted ids mock_producer table marks chi chi-IsChi idle draws simulated writer fresh
      (cc) (cc) refl refl refl refl taken
