-- ===== src/Broker/Close.antt =====
-- `CMqttConnection::handle_close` of src/mqtt_server/mqtt_connection.cpp, which a failed write
-- runs too. The line for the client record, which `flush` hands to another thread, is left out.
pub mod Laws
use mqtt_server.Prelude.{ℕ, List, [], ◌∷◌, Bool, true, false, Option, none, some}
use mqtt_server.Msg.Subscribe.{Topic}
use mqtt_server.Broker.{
  World, M, ◌>>=◌, ◌>>◌, pure, gets, modify, deref, get_context, set_context, get_connection,
  delete_connection,
}
use mqtt_server.Broker.ClientIds
use mqtt_server.Broker.Topics

unfoldable pub leave_topics : List Topic → ℕ → World → World
leave_topics [] context w = w
leave_topics (t ∷ ts) context w =
    leave_topics ts context (Topics.del_client_context t.topic_name context w).1

unfoldable pub end_session : Bool → List Topic → List ℕ → ℕ → World → World
end_session false topics client_id context w = w
end_session true topics client_id context w =
    (ClientIds.del_client_context client_id (leave_topics topics context w)).1

-- The context is read before the test that it is not null.
unfoldable pub handle_close : ℕ → M Unit
handle_close c = do
  conn ← get_connection c
  context ← deref conn.client_context
  x ← get_context context
  modify (end_session x.clean_session x.subcribe_topics x.client_id context)
  now ← gets (λ w. w.now)
  set_context context (record x { close_time = now; mqtt_connection = none })
  delete_connection c
