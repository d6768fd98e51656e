-- ===== src/Tests/Http.antt =====
-- The header map and a body at concrete inputs.
use reverse_proxy_server.Base.{none, arith, ◌≡◌, [], ◌∷◌, if◌then◌else◌}
use reverse_proxy_server.Text.{codes}
use reverse_proxy_server.Http.Headers.{get_all, set, remove, same_key}
use reverse_proxy_server.Http.Headers.Laws.{get_all-remove, get_all-set}
use reverse_proxy_server.Http.Stream.{Input, bytes}
use reverse_proxy_server.Http.Body.{body_read, stream_body}
use reverse_proxy_server.Http.Body.Counts.{Counts, body_read-Counts}
use reverse_proxy_server.Http.Pump.{pump_body}
use reverse_proxy_server.Http.Pump.Delivers.{Delivers, pump_body-Delivers}
use reverse_proxy_server.Tests.{fields}

get_all-set_example : get_all (set fields (codes "HOST") (codes "other")) (codes "host") ≡ (
    if same_key (codes "HOST") (codes "host")
    then codes "other" ∷ []
    else get_all fields (codes "host"))
get_all-set_example = get_all-set fields (codes "HOST") (codes "host") (codes "other")

get_all-remove_example :
    get_all (remove fields (codes "connection")) (codes "Host")
    ≡ (if same_key (codes "connection") (codes "Host") then [] else get_all fields (codes "Host"))
get_all-remove_example = get_all-remove fields (codes "connection") (codes "Host")

-- A body of five bytes in front of the next message.
abbrev stream : Input
stream = bytes (codes "abc") ∷ bytes (codes "deGET") ∷ []

body_read-Counts_example : Counts 5 4096 stream (body_read 4096 (stream_body 5) stream)
body_read-Counts_example = body_read-Counts 5 4096 stream

pump_body-Delivers_example :
    Delivers 5 stream (pump_body 6 (stream_body 5) stream (none ∷ none ∷ []))
pump_body-Delivers_example = pump_body-Delivers 6 5 stream (none ∷ none ∷ []) (omega arith)
