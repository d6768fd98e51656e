-- ===== src/H1/Result.antt =====
-- What parse_header_block and parse_response_block of src/codec/h1_codec.cpp return beside the head:
-- an empty error text is `parsed`.
use reverse_proxy_server.Text.{Bytes}

pub data Refusal : Type 0 where
  empty_message : Refusal
  bad_line : Bytes → Refusal

pub data Parsed {ℓ} (A : Type ℓ) : Type ℓ where
  parsed : A → Parsed A
  refused : Refusal → Parsed A
