-- ===== src/Proxy/Load/Loading.antt =====
-- Which configuration files load_config of src/config.cpp takes.
use reverse_proxy_server.Base.{
  ◌<◌, ◌^◌, ◌≡◌, refl, ap, List, [], ◌∷◌, map, Option, none, some, Bool, true, false, ◌&&◌, is_some,
  arith,
}
use native.Mathlib.Nat.{mod-lt}
use reverse_proxy_server.Text.{codes}
use reverse_proxy_server.Http.Message.{ℤ, pos, negsuc}
use reverse_proxy_server.Proxy.Load.{
  TomlTable, TomlValue, TomlDocument, array, no_array, to_port, read_backend, read_route, read_all,
  read_array, load_config, ◌>>=◌,
}

-- The entries have the keys that they need.
abbrev pub has_backend : TomlTable → Bool
has_backend v =
    is_some (v.string_at (codes "id"))
    && (is_some (v.string_at (codes "host")) && is_some (v.int_at (codes "port")))

abbrev pub has_route : TomlTable → Bool
has_route v = is_some (v.string_at (codes "host")) && is_some (v.string_at (codes "backend"))

abbrev pub every : (TomlTable → Bool) → List TomlTable → Bool
every p [] = true
every p (v ∷ vs) = p v && every p vs

-- There is no such value, or it is an array of entries with the keys.
abbrev pub is_fit : (TomlTable → Bool) → Option TomlValue → Bool
is_fit p none = true
is_fit p (some no_array) = false
is_fit p (some (array vs)) = every p vs

abbrev pub is_loadable : Option TomlDocument → Bool
is_loadable none = false
is_loadable (some root) =
    is_fit has_backend root.backends_value && is_fit has_route root.routes_value

read_backend-has : (v : TomlTable) → is_some (read_backend v) ≡ has_backend v
unfolding read_backend
read_backend-has v = ground arith

read_route-has : (v : TomlTable) → is_some (read_route v) ≡ has_route v
unfolding read_route
read_route-has v = ground arith

read_all-every :
    {A : Type 0} (read : TomlTable → Option A) (p : TomlTable → Bool) (vs : List TomlTable)
    → ((v : TomlTable) → is_some (read v) ≡ p v)
    → is_some (read_all read vs) ≡ every p vs
unfolding read_all
read_all-every read p [] h = refl
read_all-every read p (v ∷ vs) h = ground (arith, h v, read_all-every read p vs h)

read_array-is_fit :
    {A : Type 0} (read : TomlTable → Option A) (p : TomlTable → Bool) (t : Option TomlValue)
    → ((v : TomlTable) → is_some (read v) ≡ p v)
    → is_some (read_array read t) ≡ is_fit p t
unfolding read_array
read_array-is_fit read p none h = refl
read_array-is_fit read p (some no_array) h = refl
read_array-is_fit read p (some (array vs)) h = read_all-every read p vs h

-- load_config throws just if the file does not parse, `backends` or `routes` is there and no array, a
-- backend lacks its id, host or port, or a route its host or backend. All else has defaults.
pub load_config-loads : (file : Option TomlDocument) → is_some (load_config file) ≡ is_loadable file
unfolding load_config
load_config-loads none = refl
load_config-loads (some root) = ground (
  arith,
  read_array-is_fit read_backend has_backend root.backends_value read_backend-has,
  read_array-is_fit read_route has_route root.routes_value read_route-has,
)

-- The entries of a value.
abbrev pub entries : Option TomlValue → List TomlTable
entries none = []
entries (some no_array) = []
entries (some (array vs)) = vs

pub bind-some :
    {A B : Type 0} (o : Option A) (f : A → Option B) (b : B)
    → (o >>= f) ≡ some b
    → (a : A) × (o ≡ some a) × (f a ≡ some b)
bind-some none f b e = cc
bind-some (some a) f b e = (a, refl, e)

read_all-map :
    {A : Type 0} (read : TomlTable → Option A) (vs : List TomlTable) (xs : List A)
    → read_all read vs ≡ some xs
    → map read vs ≡ map some xs
unfolding read_all
read_all-map {A} read [] xs e = let eq : Path (List A) [] xs = cc in ap (map some) eq
read_all-map {A} read (v ∷ vs) xs e =
    let (x, p, e') = bind-some (read v) _ xs e in
    let (ys, q, e'') = bind-some (read_all read vs) _ xs e' in
    let eq : x ∷ ys ≡ xs = cc in let rest = read_all-map read vs ys q in rw (← eq, p, rest) refl

pub read_array-map :
    {A : Type 0} (read : TomlTable → Option A) (t : Option TomlValue) (xs : List A)
    → read_array read t ≡ some xs
    → map read (entries t) ≡ map some xs
unfolding read_array
read_array-map {A} read none xs e = let eq : Path (List A) [] xs = cc in ap (map some) eq
read_array-map read (some no_array) xs e = cc
read_array-map read (some (array vs)) xs e = read_all-map read vs xs e

pub to_port-bounds : (n : ℤ) → to_port n < 2 ^ 16
unfolding to_port
to_port-bounds (pos n) = mod-lt n (omega arith)
to_port-bounds (negsuc n) = omega arith
