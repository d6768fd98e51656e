-- ===== src/Http/Headers/Laws.antt =====
-- The laws of HeaderMap: what `get` and `get_all` answer after `add`, `set` and `remove`.
use reverse_proxy_server.Base.{
  ◌≡◌, ◌↔◌, refl, sym, inl, inr, true, false, List, [], ◌∷◌, ◌++◌, Option, none, some, arith,
  if◌then◌else◌, Bool-cases, append-nil,
}
use reverse_proxy_server.Text.{Bytes, str_eq_iff, lower}
use reverse_proxy_server.Http.Headers.{
  Entry, HeaderMap, same_key, add, get_in, get, get_all_in, get_all, remove_in, remove, set,
}

-- Two keys are one if they agree without case.
pub same_key_iff : (a b : Bytes) → (same_key a b ≡ true) ↔ (lower a ≡ lower b)
unfolding same_key
same_key_iff a b = (
  λ h. sym ((str_eq_iff (lower b) (lower a)).0 h),
  λ h. (str_eq_iff (lower b) (lower a)).1 (sym h),
)

pub same_key_refl : (a : Bytes) → same_key a a ≡ true
same_key_refl a = (same_key_iff a a).1 refl

get_all_in-append :
    (key : Bytes) (xs ys : List Entry)
    → get_all_in key (xs ++ ys) ≡ get_all_in key xs ++ get_all_in key ys
unfolding get_all_in
get_all_in-append key [] ys = refl
get_all_in-append key ((k, v) ∷ xs) ys = ground (arith, get_all_in-append key xs ys)

get_all_in-remove_same :
    (key j : Bytes) (es : List Entry) → same_key key j ≡ true → get_all_in j (remove_in key es) ≡ []
unfolding get_all_in remove_in
get_all_in-remove_same key j [] h = refl
get_all_in-remove_same key j ((k, v) ∷ es) h = ground (
  arith,
  get_all_in-remove_same key j es h,
  same_key_iff key j,
  same_key_iff key k,
  same_key_iff j k,
)

get_all_in-remove_other :
    (key j : Bytes) (es : List Entry)
    → same_key key j ≡ false
    → get_all_in j (remove_in key es) ≡ get_all_in j es
unfolding get_all_in remove_in
get_all_in-remove_other key j [] h = refl
get_all_in-remove_other key j ((k, v) ∷ es) h = ground (
  arith,
  get_all_in-remove_other key j es h,
  same_key_iff key j,
  same_key_iff key k,
  same_key_iff j k,
)

abbrev pub head? : List Bytes → Option Bytes
head? [] = none
head? (x ∷ xs) = some x

get_in-head? : (key : Bytes) (es : List Entry) → get_in key es ≡ head? (get_all_in key es)
unfolding get_in get_all_in
get_in-head? key [] = refl
get_in-head? key ((k, v) ∷ es) = ground (arith, get_in-head? key es)

-- `get` answers the first of the values that `get_all` lists.
pub get-get_all : (h : HeaderMap) (key : Bytes) → get h key ≡ head? (get_all h key)
unfolding get get_all
get-get_all h key = get_in-head? key h.entries

-- `add` appends its value to the values of the keys that agree with it, and to no other.
pub get_all-add :
    (h : HeaderMap) (key j value : Bytes)
    → get_all (add h key value) j
      ≡ (if same_key key j then get_all h j ++ value ∷ [] else get_all h j)
unfolding get_all add get_all_in
get_all-add h key j value = ground (
  arith,
  get_all_in-append j h.entries ((key, value) ∷ []),
  same_key_iff key j,
  same_key_iff j key,
  append-nil (get_all_in j h.entries),
)

-- After `remove` no value is left under a key that agrees without case, and all others stay.
pub get_all-remove :
    (h : HeaderMap) (key j : Bytes)
    → get_all (remove h key) j ≡ (if same_key key j then [] else get_all h j)
unfolding get_all remove
get_all-remove h key j = elim (Bool-cases (same_key key j)) [
  | inl e ↦ rw e (get_all_in-remove_same key j h.entries e)
  | inr e ↦ rw e (get_all_in-remove_other key j h.entries e)
]

-- After `set` the key has exactly the one value, whatever its case, and all others keep theirs.
pub get_all-set :
    (h : HeaderMap) (key j value : Bytes)
    → get_all (set h key value) j ≡ (if same_key key j then value ∷ [] else get_all h j)
unfolding set
get_all-set h key j value =
    ground (arith, get_all-add (remove h key) key j value, get_all-remove h key j)
