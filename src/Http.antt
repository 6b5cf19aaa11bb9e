-- ===== src/Http.antt =====
-- src/http_server: `HttpConnection::notify_mqtt_publish`, by which an HTTP request publishes.
pub mod Text
pub mod Publish
pub mod Headers
pub mod Request
pub mod Server
