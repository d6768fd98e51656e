-- ===== src/Http/Message.antt =====
-- The message types of src/codec/http_message.h, with the status helpers of http_message.cpp.
use reverse_proxy_server.Base.{ℕ, suc, Bool, false, [], ◌∷◌, ◌++◌, Option, none, length}
use reverse_proxy_server.Text.{Bytes, codes, crlf, to_string}
use reverse_proxy_server.Http.Headers.{HeaderMap, no_headers, to_wire}

-- enum class HttpStatus; `code_of` is `static_cast<int>`.
pub data HttpStatus : Type 0 where
  ok_status bad_request not_found bad_gateway service_unavailable : HttpStatus

unfoldable pub code_of : HttpStatus → ℕ
code_of ok_status = 200
code_of bad_request = 400
code_of not_found = 404
code_of bad_gateway = 502
code_of service_unavailable = 503

unfoldable pub status_reason : HttpStatus → Bytes
status_reason ok_status = codes "OK"
status_reason bad_request = codes "Bad Request"
status_reason not_found = codes "Not Found"
status_reason bad_gateway = codes "Bad Gateway"
status_reason service_unavailable = codes "Service Unavailable"

-- A C++ int: `pos n` is n and `negsuc n` is -(n + 1).
pub data ℤ : Type 0 where
  pos : ℕ → ℤ
  negsuc : ℕ → ℤ

-- std::to_string of an int.
unfoldable pub int_to_string : ℤ → Bytes
unfolding to_string
int_to_string (pos n) = to_string n
int_to_string (negsuc n) = b'-' ∷ to_string (suc n)

pub record HttpRequestHead : Type 0 where
  pub method : Bytes
  pub version : Bytes
  pub path : Bytes
  pub scheme : Bytes
  pub authority : Bytes
  pub absolute_target : Bool
  pub headers : HeaderMap
  pub content_length : Option ℕ

pub record HttpResponseHead : Type 0 where
  pub status_code : ℤ
  pub reason : Bytes
  pub version : Bytes
  pub headers : HeaderMap
  pub content_length : Option ℕ

abbrev pub http_1_1 : Bytes
http_1_1 = codes "HTTP/1.1"

-- The default-constructed heads.
abbrev pub empty_request : HttpRequestHead
empty_request = record {
  method = [];
  version = http_1_1;
  path = [];
  scheme = [];
  authority = [];
  absolute_target = false;
  headers = no_headers;
  content_length = none;
}

abbrev pub empty_response : HttpResponseHead
empty_response = record {
  status_code = pos 0;
  reason = [];
  version = http_1_1;
  headers = no_headers;
  content_length = none;
}

unfoldable pub make_error_response : HttpStatus → Bytes → Bytes
unfolding status_reason code_of to_string
make_error_response status body =
    codes "HTTP/1.1 "
    ++ (to_string (code_of status)
        ++ (codes " "
            ++ (status_reason status
                ++ (crlf
                    ++ (codes "Content-Type: text/plain"
                        ++ (crlf
                            ++ (codes "Content-Length: "
                                ++ (to_string (length body) ++ (crlf ++ (crlf ++ body))))))))))

unfoldable pub to_h1_head : HttpResponseHead → Bytes
unfolding int_to_string to_wire
to_h1_head h =
    codes "HTTP/1.1 "
    ++ (int_to_string h.status_code
        ++ (codes " " ++ (h.reason ++ (crlf ++ (to_wire h.headers ++ crlf)))))
