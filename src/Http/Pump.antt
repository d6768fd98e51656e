-- ===== src/Http/Pump.antt =====
-- pump_body_to_stream of src/codec/http_message.cpp. The errors of the writes to the stream, in order,
-- are an argument: a write that has none yet is pending. Each round of the loop takes a unit of fuel.
pub mod Delivers
pub mod Completes
use reverse_proxy_server.Base.{
  ℕ, zero, suc, List, [], ◌∷◌, ◌++◌, Option, none, some, if◌then◌else◌, is_empty,
}
use reverse_proxy_server.Text.{Bytes}
use reverse_proxy_server.Http.Stream.{ErrorCode, Input, Read}
use reverse_proxy_server.Http.Body.{BodySource, body_read}

pub data Ending : Type 0 where
  -- The callback was called, with an error or none.
  called_back : Option ErrorCode → Ending
  reading writing starved : Ending

pub record Pumped : Type 0 where
  -- What was handed to the stream, in order.
  pub out : Bytes
  pub ending : Ending
  -- What is left of the body, with the input behind what was read.
  pub source : BodySource
  pub rest : Input

-- `buf`.
abbrev pub pump_size : ℕ
pump_size = 8192

-- The callback of the write; `again` is the next round.
unfoldable pub on_written :
    (BodySource → Input → List (Option ErrorCode) → Pumped)
    → List (Option ErrorCode)
    → BodySource
    → Read
    → Pumped
on_written again [] src r = record { out = r.got; ending = writing; source = src; rest = r.rest }
on_written again (some e ∷ ws) src r = record {
  out = r.got;
  ending = called_back (some e);
  source = src;
  rest = r.rest;
}
on_written again (none ∷ ws) src r =
    let p = again src r.rest ws in record p { out = r.got ++ p.out }

-- The callback of the read.
unfoldable pub on_body_read :
    (BodySource → Input → List (Option ErrorCode) → Pumped)
    → List (Option ErrorCode)
    → Option ErrorCode
    → BodySource
    → Read
    → Pumped
unfolding on_written
on_body_read again ws (some e) src r = record {
  out = [];
  ending = called_back (some e);
  source = src;
  rest = r.rest;
}
on_body_read again ws none src r =
    if is_empty r.got
    then record { out = []; ending = called_back none; source = src; rest = r.rest }
    else on_written again ws src r

unfoldable pub pump_from :
    (BodySource → Input → List (Option ErrorCode) → Pumped)
    → BodySource
    → Input
    → List (Option ErrorCode)
    → Option (Read × BodySource)
    → Pumped
unfolding on_body_read
pump_from again src i ws none = record { out = []; ending = reading; source = src; rest = i }
pump_from again src i ws (some (r, src')) = on_body_read again ws r.ec src' r

unfoldable pub pump_body : ℕ → BodySource → Input → List (Option ErrorCode) → Pumped
unfolding pump_from
pump_body zero src i ws = record { out = []; ending = starved; source = src; rest = i }
pump_body (suc k) src i ws = pump_from (pump_body k) src i ws (body_read pump_size src i)
