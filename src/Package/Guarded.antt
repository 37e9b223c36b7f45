-- ===== src/Package/Guarded.antt =====
-- vynkor/__init__.py: what the guarded names stand for behind their import statements and behind the
-- handler of a failed import.
use vynkor_sdk_python.Prelude.{
  ◌≡◌, refl, ap, ◌∙◌, true, List, [], ◌++◌, some, append_assoc, append-nil, All, Bool-cases, inl,
  inr,
}
use vynkor_sdk_python.Prelude.Dict
use vynkor_sdk_python.Prelude.Dict.{get-insert}
use vynkor_sdk_python.Errors.{Str, Result, ok, err, foreign, import_error}
use vynkor_sdk_python.Py.Text.{str, str_eq, str_key}
use vynkor_sdk_python.Package.Names.{
  client_names, concurrent_names, gate_names, error_names, plugin_names, unavailable_classes,
  unavailable_functions,
}
use vynkor_sdk_python.Package.Import.{
  Meaning, imported, unavailable, unavailable_fn, Namespace, Imports, bind_each, then_import,
  guarded, placeholders, unavailable_error, call_error,
}
use vynkor_sdk_python.Package.Binding.{is_in, AreBound, get-bind_each, covers-All, is_in-append}

abbrev pub guarded_names : List Str
guarded_names = client_names ++ (concurrent_names ++ (gate_names ++ (error_names ++ plugin_names)))

-- The guarded names are those of their modules.
abbrev pub IsOwn : Namespace → Type 0
IsOwn space =
    AreBound (imported (str "client")) client_names space
    × AreBound (imported (str "concurrent")) concurrent_names space
    × AreBound (imported (str "confirmation_gate")) gate_names space
    × AreBound (imported (str "errors")) error_names space
    × AreBound (imported (str "plugin")) plugin_names space

-- A call raises an ImportError whose text has a given text in it.
abbrev pub IsExplained : Str → Meaning → Type 0
IsExplained why value =
    (front : Str) × (back : Str) × (call_error value
      ≡ some (foreign (import_error (front ++ (why ++ back)))))

-- Every guarded name is there, and a call of it is explained.
abbrev pub IsReplaced : Str → Namespace → Type 0
IsReplaced why space =
    All (λ name. (value : Meaning) × (Dict.get name space ≡ some value) × IsExplained why value)
      guarded_names

abbrev pub own_space : Namespace
own_space = bind_each (imported (str "plugin")) plugin_names (
    bind_each (imported (str "errors")) error_names (
      bind_each (imported (str "confirmation_gate")) gate_names (
        bind_each (imported (str "concurrent")) concurrent_names
          (bind_each (imported (str "client")) client_names []))))

then_import-eq-ok :
    (name : Str) (names : List Str) (now : Result (Unit {0}))
    (before : Namespace × Result (Unit {0}))
    → (then_import name names now before).1 ≡ ok tt
    → (before.1 ≡ ok tt)
      × ((then_import name names now before).0 ≡ bind_each (imported name) names before.0)
unfolding then_import
then_import-eq-ok name names (ok now) (space, ok before) h = (refl, refl)
then_import-eq-ok name names (err e) (space, ok before) h = absurd (cc)
then_import-eq-ok name names now (space, err e) h = absurd (cc)

pub guarded-eq-ok :
    (imports : Imports) → (guarded imports).1 ≡ ok tt → (guarded imports).0 ≡ own_space
unfolding guarded
guarded-eq-ok imports h =
    let (e, plugin) = then_import-eq-ok (str "plugin") plugin_names imports.plugin _ h in
    let (g, errors) = then_import-eq-ok (str "errors") error_names imports.errors _ e in
    let (c, gate) =
      then_import-eq-ok (str "confirmation_gate") gate_names imports.confirmation_gate _ g in
    let (k, concurrent) =
      then_import-eq-ok (str "concurrent") concurrent_names imports.concurrent _ c in
    let (start, client) = then_import-eq-ok (str "client") client_names imports.client _ k in
    rw (plugin, errors, gate, concurrent, client) refl

pub own_space-IsOwn : IsOwn own_space
unfolding str bind_each Dict.get Dict.insert str_eq
own_space-IsOwn = (
  (refl, tt),
  (refl, (refl, (refl, (refl, tt)))),
  (refl, (refl, (refl, (refl, tt)))),
  (refl, tt),
  (refl, tt),
)

regroup :
    (front name middle rest : Str)
    → front ++ (name ++ (middle ++ rest)) ≡ (front ++ (name ++ middle)) ++ rest
regroup front name middle rest =
    rw (append_assoc front (name ++ middle) rest, append_assoc name middle rest) refl

unavailable-IsExplained : (name why : Str) → IsExplained why (unavailable name why)
unfolding call_error unavailable_error
unavailable-IsExplained name why = (
  str "vynkor." ++ (name ++ str " unavailable: "),
  str ". Install the vynkor SDK's declared dependencies (see pyproject.toml) to use it.",
  ap (λ text. some (foreign (import_error text)))
      (regroup (str "vynkor.") name (str " unavailable: ") _),
)

unavailable_fn-IsExplained : (why : Str) → IsExplained why (unavailable_fn why)
unfolding call_error
unavailable_fn-IsExplained why = (str "vynkor unavailable: ", [], rw (append-nil why) refl)

get-placeholders :
    (why : Str) (space : Namespace) (name : Str)
    → is_in name (unavailable_functions ++ unavailable_classes) ≡ true
    → (value : Meaning) × (Dict.get name (placeholders why space) ≡ some value)
      × IsExplained why value
unfolding placeholders
get-placeholders why space name found =
    let outer =
      get-bind_each (λ n. unavailable_fn why) unavailable_functions
        (bind_each (λ n. unavailable n why) unavailable_classes space) name in
    let inner = get-bind_each (λ n. unavailable n why) unavailable_classes space name in
    elim (Bool-cases (is_in name unavailable_functions)) [
      | inl function ↦
          (unavailable_fn why, outer ∙ rw function refl, unavailable_fn-IsExplained why)
      | inr other ↦ (
        unavailable name why,
        outer
            ∙ rw other (
                inner
                ∙ rw (is_in-append name unavailable_functions unavailable_classes other found)
                    refl),
        unavailable-IsExplained name why,
      )
    ]

pub placeholders-IsReplaced :
    (why : Str) (space : Namespace) → IsReplaced why (placeholders why space)
unfolding str str_eq
placeholders-IsReplaced why space =
    covers-All
      (λ name.
        (value : Meaning) × (Dict.get name (placeholders why space) ≡ some value)
        × IsExplained why value)
      (unavailable_functions ++ unavailable_classes) guarded_names (get-placeholders why space) refl
