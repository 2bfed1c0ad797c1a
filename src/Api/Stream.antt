-- ===== src/Api/Stream.antt =====
-- internal/api/handlers.go: `HandleSSEStream`, from its registration to its end.
use llmwatch.Base.{ℕ, codes, List, [], ◌∷◌, some, ◌==◌, nat_eq, if◌then◌else◌}
use llmwatch.Kafka.Producer.{EventProducer}
use llmwatch.Api.Response.{Body, respond}
use llmwatch.Api.Ingest.{ApiState}
use llmwatch.Api.Sse.{Client, Frame, register, unregister, run}
use llmwatch.Api.Middleware.{Request, ResponseWriter, set_header, write_header, write_json}

-- What a stream has written.
unfoldable pub frames_of : ℕ → List Client → List Frame
frames_of id [] = []
frames_of id (c ∷ cs) = let rest = frames_of id cs in if c.id == id then c.written else rest

module _ {F : Type 0} (P : EventProducer F) where
  -- The four headers, the status with the first write, and the frames.
  unfoldable pub write_stream : List Frame → ResponseWriter F → ResponseWriter F
  unfolding set_header write_header
  write_stream frames w =
      let w' : ResponseWriter F = record w {
        headers = set_header (codes "X-Accel-Buffering") (codes "no") (
            set_header (codes "Connection") (codes "keep-alive") (
              set_header (codes "Cache-Control") (codes "no-cache")
                (set_header (codes "Content-Type") (codes "text/event-stream") w.headers)));
      } in
      record (write_header 200 w') { body = some (Body.stream frames) }

  -- The stream is registered, `hub_events` is what then happens at the hub until the stream ends, the
  -- steps of its own loop included, and it is unregistered.
  unfoldable pub handle_sse_stream :
      Request F → ResponseWriter F → ApiState P → ApiState P × ResponseWriter F
  unfolding write_stream write_json register unregister run frames_of
  handle_sse_stream r w s =
      let id = s.hub.next_id in
      let hub = run (register s.hub) r.hub_events in
      if w.can_flush
      then (record s { hub = unregister id hub }, write_stream (frames_of id hub.clients) w)
      else (s, write_json (respond 500 (Body.error_message (codes "SSE not supported"))) w)
