-- ===== src/Http/Headers.antt =====
-- HeaderMap of src/codec/http_message.h and http_message.cpp: an ordered list of entries whose keys
-- are compared without case.
pub mod Laws
use reverse_proxy_server.Base.{
  ℕ, ◌+◌, ◌≡◌, Bool, true, false, not, ◌&&◌, ◌||◌, List, [], ◌∷◌, ◌++◌, Option, none, some,
  if◌then◌else◌, is_empty,
}
use reverse_proxy_server.Text.{Bytes, codes, str_eq, lower, crlf}

abbrev pub Entry : Type 0
Entry = Bytes × Bytes

pub record HeaderMap : Type 0 where
  pub entries : List Entry

abbrev pub no_headers : HeaderMap
no_headers = record { entries = [] }

-- `lower(k) == lk`, for `lk = lower(key)`.
unfoldable pub same_key : Bytes → Bytes → Bool
same_key key k = str_eq (lower k) (lower key)

unfoldable pub add : HeaderMap → Bytes → Bytes → HeaderMap
add h key value = record { entries = h.entries ++ (key, value) ∷ [] }

unfoldable pub get_in : Bytes → List Entry → Option Bytes
unfolding same_key
get_in key [] = none
get_in key ((k, v) ∷ es) = if same_key key k then some v else get_in key es

unfoldable pub get : HeaderMap → Bytes → Option Bytes
unfolding get_in
get h key = get_in key h.entries

unfoldable pub get_all_in : Bytes → List Entry → List Bytes
unfolding same_key
get_all_in key [] = []
get_all_in key ((k, v) ∷ es) = if same_key key k then v ∷ get_all_in key es else get_all_in key es

unfoldable pub get_all : HeaderMap → Bytes → List Bytes
unfolding get_all_in
get_all h key = get_all_in key h.entries

unfoldable pub remove_in : Bytes → List Entry → List Entry
unfolding same_key
remove_in key [] = []
remove_in key ((k, v) ∷ es) = if same_key key k then remove_in key es else (k, v) ∷ remove_in key es

unfoldable pub remove : HeaderMap → Bytes → HeaderMap
unfolding remove_in
remove h key = record { entries = remove_in key h.entries }

unfoldable pub set : HeaderMap → Bytes → Bytes → HeaderMap
unfolding remove add
set h key value = add (remove h key) key value

-- "Key: Value\r\n" for each entry.
unfoldable pub wire_in : List Entry → Bytes
wire_in [] = []
wire_in ((k, v) ∷ es) = k ++ (codes ": " ++ (v ++ (crlf ++ wire_in es)))

unfoldable pub to_wire : HeaderMap → Bytes
unfolding wire_in
to_wire h = wire_in h.entries
