-- ===== src/Config/Lookup.antt =====
-- config_store.c: `config_find_routes_by_src`, over the first `route_count` routes.
use embedded_device_forwarde.Prelude.{
  ◌≤◌, ℕ, zero, suc, ◌+◌, ◌≡◌, refl, List, [], ◌∷◌, ltb, if◌then◌else◌, take, arith,
}
use embedded_device_forwarde.Prelude.Text.{Text, str_eq}
use embedded_device_forwarde.Config.Types.{Route}

-- The loop, from `count`; the entries of `out` from there on.
unfoldable pub find_from : Text → ℕ → ℕ → List Route → List Route
find_from src_name max_out count [] = []
find_from src_name max_out count (r ∷ rs) =
    let found = find_from src_name max_out (count + 1) rs in
    let rest = find_from src_name max_out count rs in
    if str_eq r.src src_name then if ltb count max_out then r ∷ found else rest else rest

-- `config_find_routes_by_src`, with a name and an array that are not NULL.
unfoldable pub find_routes_by_src : Text → ℕ → List Route → List Route
unfolding find_from
find_routes_by_src src_name max_out routes = find_from src_name max_out 0 routes

-- The routes from a port, in their order.
unfoldable pub from_src : Text → List Route → List Route
from_src src_name [] = []
from_src src_name (r ∷ rs) =
    let rest = from_src src_name rs in if str_eq r.src src_name then r ∷ rest else rest

find_from-full :
    (src_name : Text) (max_out count : ℕ) (rs : List Route)
    → max_out ≤ count
    → find_from src_name max_out count rs ≡ []
unfolding find_from
find_from-full src_name max_out count [] h = refl
find_from-full src_name max_out count (r ∷ rs) h =
    ground (arith, find_from-full src_name max_out count rs h)

find_from-take :
    (src_name : Text) (max_out count room : ℕ) (rs : List Route)
    → count + room ≡ max_out
    → find_from src_name max_out count rs ≡ take room (from_src src_name rs)
unfolding find_from from_src
find_from-take src_name max_out count zero rs h =
    find_from-full src_name max_out count rs (omega arith)
find_from-take src_name max_out count (suc room) [] h = refl
find_from-take src_name max_out count (suc room) (r ∷ rs) h =
    let more = find_from-take src_name max_out (count + 1) room rs (omega arith) in
    let same = find_from-take src_name max_out count (suc room) rs h in ground (arith, more, same)

-- The lookup finds the routes from a port in their order, as many as the caller's array holds.
pub find_routes_by_src_lem :
    (src_name : Text) (max_out : ℕ) (routes : List Route)
    → find_routes_by_src src_name max_out routes ≡ take max_out (from_src src_name routes)
unfolding find_routes_by_src
find_routes_by_src_lem src_name max_out routes =
    find_from-take src_name max_out 0 max_out routes (omega arith)
