-- ===== src/Http/Headers/Refine.antt =====
-- A `headers` object refines the map from names to lists of values, over any sequence of calls.
use kk_proxy.Common.{ℕ, ◌≡◌, refl, ◌∙◌, ap, Bool, List, [], ◌∷◌, ◌++◌, if◌then◌else◌}
use mathlib.Core.Path.{fun_ext}
use kk_proxy.Http.Headers.{HeaderMap, HeaderValue, add, set, get}
use kk_proxy.Http.Headers.Ranges.{IsSorted}
use kk_proxy.Http.Headers.Values.{same, values}
use kk_proxy.Http.Headers.Laws.{header_value, replaced, first_value, get_lem, add_lem, set_lem}

-- A call of `add` or of `set`.
pub data Op : Type 0 where
  adding setting : (name value : List ℕ) (sensitive : Bool) → Op

unfoldable pub apply : Op → HeaderMap → HeaderMap
apply (adding name value sensitive) m = add name value sensitive m
apply (setting name value sensitive) m = set name value sensitive m

unfoldable pub run : List Op → HeaderMap → HeaderMap
unfolding apply
run [] m = m
run (op ∷ ops) m = run ops (apply op m)

-- The abstract view: the values of each name, with no order between names.
abbrev pub View : Type 0
View = List ℕ → List HeaderValue

abbrev pub update : List ℕ → (List HeaderValue → List HeaderValue) → View → View
update name f v other = if same other name then f (v other) else v other

abbrev pub apply_view : Op → View → View
apply_view (adding name value sensitive) =
    update name (λ vs. vs ++ (header_value value sensitive ∷ []))
apply_view (setting name value sensitive) = update name (replaced (header_value value sensitive))

unfoldable pub replay : List Op → View → View
replay [] v = v
replay (op ∷ ops) v = replay ops (apply_view op v)

apply_refines :
    (op : Op) (m : HeaderMap)
    → IsSorted m
    → IsSorted (apply op m)
      × ((λ name. values name (apply op m)) ≡ apply_view op (λ name. values name m))
unfolding apply
apply_refines (adding name value sensitive) m s = (
  (add_lem name name value sensitive m s).0,
  fun_ext (λ other. (add_lem name other value sensitive m s).1),
)
apply_refines (setting name value sensitive) m s = (
  (set_lem name name value sensitive m s).0,
  fun_ext (λ other. (set_lem name other value sensitive m s).1),
)

run-values :
    (ops : List Op) (m : HeaderMap)
    → IsSorted m
    → IsSorted (run ops m)
      × ((λ name. values name (run ops m)) ≡ replay ops (λ name. values name m))
unfolding run replay
run-values [] m s = (s, refl)
run-values (op ∷ ops) m s =
    let (s', e) = apply_refines op m s in
    let (s'', f) = run-values ops (apply op m) s' in (s'', f ∙ ap (replay ops) e)

-- From any sorted map, after any sequence of `add` and `set`, `get` gives for every name the first of
-- the values that the same sequence gives on the abstract view, or the empty text.
pub run_refines :
    (ops : List Op) (m : HeaderMap) (name : List ℕ)
    → IsSorted m
    → get name (run ops m) ≡ first_value (replay ops (λ other. values other m) name)
run_refines ops m name s =
    let (s', e) = run-values ops m s in
    get_lem name (run ops m) s' ∙ ap (λ (v : View). first_value (v name)) e
