-- ===== src/Lib.antt =====
-- A reverse proxy for HTTP/1.1 and HTTP/3: it accepts client connections, parses requests into a
-- protocol-independent head, routes them to a group of backends, and relays request and response.
--
-- How the parts interact. A relay (src/proxy/relay_session.cpp) owns one client stream. It asks a codec
-- to parse a request, the router for a backend group and the pool for a connection, hands the
-- request to the backend's codec, parses the response and writes it to the client. Then the
-- connection to the backend goes back to the pool and the relay starts over, or it drains the client.
--
-- Which file models which part:
--   Base, Bits: Boolean tests, lists over native numbers, bitwise operations.
--   Text: std::string as a list of byte values, with find, getline, operator>>, strtoul, to_string.
--   Http: src/codec/http_message.h and .cpp. Http/Headers is HeaderMap, Http/Message the heads and
--     the status helpers, Http/Body the body sources, Http/Pump pump_body_to_stream, Http/Stream the transport as a reader sees it
--     (src/transport/itransport_stream.h).
--   H1: src/codec/h1_codec.cpp. H1/Fields is the header loop, H1/Request parse_header_block and
--     async_write_request, H1/Response parse_response_block and async_write_response, H1/Reading
--     read_header_block and read_response_header, H1/KeepAlive the decision of RFC 9112, 9.3.
--   H3: src/codec/h3_codec.cpp. H3/Varint is the QUIC varint, H3/Heads the header lists,
--     H3/Exchange the parsing and writing of messages, H3/Literal parse_request_headers.
--   Proxy/Config: BackendEndpoint of src/config.h and src/proxy/stats.cpp. Proxy/Router:
--     src/proxy/router.cpp. Proxy/Pool: src/proxy/upstream_pool.cpp, with the QUIC connections in
--     Proxy/Pool/Quic and the calls with the connections that are lent in Proxy/Pool/Ownership.
--   Proxy/Relay: src/proxy/relay_session.cpp. A member function is a function on the record Relay,
--     which also lists the callbacks that are pending (Wait) and what was done to the peers
--     (Action). A call through a null pointer sets `crashed`. Relay/Machine has the steps: a pending
--     operation completes with any answer, the server asks to close, the idle timer fires.
--   Proxy/Load: src/config.cpp, with the lookups of toml++ as arguments. Proxy/Core: one worker,
--     src/proxy/proxy_core.cpp. Proxy/Server: src/proxy/reverse_proxy_server.cpp, with what is posted to the
--     workers as a list and the events of the ingress thread as steps.
--   Transport/Demux: src/transport/quic_demux.cpp, with what it posts to the workers as a list.
--     lsquic_dcid_from_packet is an argument.
--   Transport/Quic: src/transport/quic_transport.cpp. Stream is QuicTransportStream, with what lsquic has
--     taken and the callbacks that were called as lists; Stream/Machine runs it over events, one after the
--     other, and Stream/Reentry has write callbacks that write again before they return. Session is
--     QuicTransportSession, HeaderSet the decode buffer, Engine the server's engine with send_specs of
--     src/transport/quic_demux.cpp, Client the client's engine. A null stream given to lsquic is none.
--   Tests: the theorems at concrete inputs.
--
-- Numbers. A byte is a number below 256, a uint64_t or size_t one below 2 ^ 64 whose sums wrap around, an
-- int is pos n or negsuc n. Loops over a list are structural. H1/Reading.read_head runs on fuel: one
-- unit for each byte and each segment that arrives, and one more, are enough. The decimal printer
-- has fuel for every digit. Proxy/Pool/Quic.quic_connect has a unit for each pooled session and one
-- more, Http/Pump.pump_body one for each byte of a body of known length and one more,
-- H3/Literal one for each byte, Stream/Reentry one for each queued write and four more.
--
-- Parameters. The transport, the clock, the sockets and the codecs' answers are inputs: a stream is
-- a list of arrivals, and a completed operation of a relay may carry any answer. The text of the
-- uptime in the statistics, and what QUIC sessions and the engine answer, are arguments.
--
-- Not modelled: logging; ChunkedBodySource; the exception of
-- remote_endpoint in the accept loop; a pump of the relay's bridge that completes before the other has
-- started;
-- TLS contexts, engine settings and socket addresses (BoringSSL, lsquic), src/transport/tcp_transport.cpp
-- (asio), the server's listeners, threads and signals, and the eBPF program.
mod Base
pub mod Text
pub mod Http
mod Bits
pub mod H1
pub mod H3
pub mod Transport
pub mod Proxy
mod Tests
