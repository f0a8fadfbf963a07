-- ===== src/Tests/Fields.antt =====
-- Runs of kkp/kkp-http/include/kkp/http/.
use Prim.Native.String.{String}
use kk_proxy.Common.{
  inr, ℕ, ◌≡◌, ◌≢◌, refl, ◌⊎◌, true, false, List, [], ◌∷◌, ◌++◌, some, pos, get_elem?,
  if◌then◌else◌,
}
use kk_proxy.ErrorCode.{bytes}
use kk_proxy.Http.Status.{status_map, get_status_message, header_unknown}
use kk_proxy.Http.Status.Laws.{get_status_message_lem}
use kk_proxy.Http.HeaderNames.Laws.{is_name, same_name, http_names_lem}
use kk_proxy.Http.Methods.{methods}
use kk_proxy.Http.Headers.{HeaderMap, add, set, get}
use kk_proxy.Http.Headers.Order.{less}
use kk_proxy.Http.Headers.Ranges.{IsSorted}
use kk_proxy.Http.Headers.Values.{same, values}
use kk_proxy.Http.Headers.Laws.{add_lem, set_lem, header_value, first_value, replaced}
use kk_proxy.Http.Headers.Refine.{Op, adding, setting, run, replay, run_refines}

get_status_message_run :
    (((i : ℕ) × (get_elem? status_map i ≡ some (pos 404, get_status_message (pos 404))))
      × ((i : ℕ) (msg : String)
          → get_elem? status_map i ≡ some (pos 404, msg)
          → get_status_message (pos 404) ≡ msg))
    ⊎ (((i : ℕ) (msg : String) → get_elem? status_map i ≢ some (pos 404, msg))
        × (get_status_message (pos 404) ≡ header_unknown))
get_status_message_run = get_status_message_lem (pos 404)

http_names_run :
    (is_name (bytes "GET") ≡ true) × ((◌≡◌ {A = ℕ} 0 3) ⊎ (same_name "GET" "DELETE" ≡ false))
http_names_run = http_names_lem methods 0 3 "GET" "DELETE" (inr refl) refl refl

abbrev host : List ℕ
host = bytes "Host"

abbrev cookie : List ℕ
cookie = bytes "Set-Cookie"

abbrev two_cookies : HeaderMap
two_cookies =
    (host, header_value (bytes "a") false)
    ∷ (cookie, header_value (bytes "x=1") true)
    ∷ (cookie, header_value (bytes "y=2") true)
    ∷ []

two_cookies-IsSorted : IsSorted two_cookies
unfolding less
two_cookies-IsSorted = ((refl, (refl, tt)), ((refl, tt), (tt, tt)))

add_lem_example :
    IsSorted (add cookie (bytes "z=3") false two_cookies)
    × (values cookie (add cookie (bytes "z=3") false two_cookies) ≡ (
        if same cookie cookie
        then values cookie two_cookies ++ (header_value (bytes "z=3") false ∷ [])
        else values cookie two_cookies))
add_lem_example = add_lem cookie cookie (bytes "z=3") false two_cookies two_cookies-IsSorted

set_lem_example :
    IsSorted (set cookie (bytes "z=3") false two_cookies)
    × (values host (set cookie (bytes "z=3") false two_cookies) ≡ (
        if same host cookie
        then replaced (header_value (bytes "z=3") false) (values host two_cookies)
        else values host two_cookies))
set_lem_example = set_lem cookie host (bytes "z=3") false two_cookies two_cookies-IsSorted

abbrev three_calls : List Op
three_calls =
    adding cookie (bytes "z=3") false
    ∷ setting host (bytes "b") false
    ∷ adding host (bytes "c") false
    ∷ []

run_refines_example :
    get host (run three_calls two_cookies)
    ≡ first_value (replay three_calls (λ other. values other two_cookies) host)
run_refines_example = run_refines three_calls two_cookies host two_cookies-IsSorted
