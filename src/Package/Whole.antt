-- ===== src/Package/Whole.antt =====
-- vynkor/__init__.py: what the exported names stand for after an import of the package.
use vynkor_sdk_python.Prelude.{
  ◌≡◌, ◌⊎◌, refl, sym, subst, ap, ◌∙◌, Bool, true, false, List, ◌++◌, Option, none, some, arith,
  All, Option-cases, inl, inr,
}
use vynkor_sdk_python.Prelude.Dict
use vynkor_sdk_python.Prelude.Dict.{get-insert}
use vynkor_sdk_python.Errors.{
  Str, Error, Result, ok, err, foreign, import_error, version_error, ◌>>=◌,
}
use vynkor_sdk_python.Py.Text.{str_key}
use vynkor_sdk_python.Package.Names.{
  client_names, concurrent_names, gate_names, error_names, plugin_names,
}
use vynkor_sdk_python.Package.Import.{
  Meaning, imported, Namespace, Imports, Package, version_known, guarded, caught_text, placeholders,
  handled, with_framing, with_frame_mac, import_package,
}
use vynkor_sdk_python.Package.Binding.{AreBound, All-append, map-All}
use vynkor_sdk_python.Package.Final.{
  IsNamed, IsWhole, final_space, with_frame_mac-eq-ok, own_package-IsWhole, final_space-IsOwn,
  final_space-IsReplaced,
}
use vynkor_sdk_python.Package.Guarded.{
  guarded_names, IsOwn, IsExplained, IsReplaced, guarded-eq-ok, own_space-IsOwn,
  placeholders-IsReplaced,
}

abbrev pub is_import_error : Error → Bool
is_import_error (foreign (import_error why)) = true
is_import_error raised = false

IsNamed-IsOwn : (space : Namespace) → IsOwn space → All (IsNamed space) guarded_names
IsNamed-IsOwn space (client, concurrent, gate, errors, plugin) =
    let named : (from : Str) (names : List Str)
        → AreBound (imported from) names space
        → All (IsNamed space) names =
      λ from names.
        map-All (λ name. Dict.get name space ≡ some (imported from name)) (IsNamed space)
          (λ name found. (imported from name, found)) names in
    let tail =
      All-append (IsNamed space) error_names plugin_names (named _ error_names errors)
        (named _ plugin_names plugin) in
    let back =
      All-append (IsNamed space) gate_names (error_names ++ plugin_names) (named _ gate_names gate)
        tail in
    All-append (IsNamed space) client_names
      (concurrent_names ++ (gate_names ++ (error_names ++ plugin_names)))
      (named _ client_names client)
      (All-append (IsNamed space) concurrent_names (gate_names ++ (error_names ++ plugin_names))
        (named _ concurrent_names concurrent) back)

IsNamed-IsReplaced :
    (why : Str) (space : Namespace) → IsReplaced why space → All (IsNamed space) guarded_names
IsNamed-IsReplaced why space =
    map-All (λ name. (value : Meaning) × (Dict.get name space ≡ some value) × IsExplained why value)
      (IsNamed space) (λ name (value, found, explained). (value, found)) guarded_names

-- The guarded names after the import: all from their modules, or all replaced because of a failure.
abbrev pub IsGuarded : Imports → Namespace → Type 0
IsGuarded imports space =
    (((guarded imports).1 ≡ ok tt) × IsOwn space)
    ⊎ ((why : Str) × (raised : Error) × ((guarded imports).1 ≡ err raised)
        × ((raised ≡ foreign (import_error why)) ⊎ (raised ≡ foreign (version_error why)))
        × IsReplaced why space)

-- An import that failed for an exception other than an ImportError, or for framing's.
abbrev pub IsFailed : Imports → Error → Type 0
IsFailed imports raised = (imports.framing ≡ err raised) ⊎ (is_import_error raised ≡ false)

abbrev pub IsImported : Imports → Result Package → Type 0
IsImported imports (ok sdk) = IsWhole sdk × IsGuarded imports sdk.namespace
IsImported imports (err raised) = IsFailed imports raised

version_known-eq-err :
    (executed : Result (Unit {0})) (raised : Error)
    → version_known executed ≡ err raised
    → is_import_error raised ≡ false
unfolding version_known
version_known-eq-err (ok tt) raised h = absurd (cc)
version_known-eq-err (err (foreign (import_error why))) raised h = absurd (cc)
version_known-eq-err (err other) raised h = ground arith

caught_text-eq-some :
    (known : Bool) (raised : Error) (why : Str)
    → caught_text known raised ≡ some why
    → (raised ≡ foreign (import_error why)) ⊎ (raised ≡ foreign (version_error why))
unfolding caught_text
caught_text-eq-some known (foreign (import_error text)) why h = inl (cc)
caught_text-eq-some known (foreign (version_error text)) why h = inr (ground arith)
caught_text-eq-some known other why h = absurd (cc)

caught_text-eq-none :
    (known : Bool) (raised : Error)
    → caught_text known raised ≡ none
    → is_import_error raised ≡ false
unfolding caught_text
caught_text-eq-none known (foreign (import_error text)) h = absurd (cc)
caught_text-eq-none known other h = refl

after_framing-IsImported :
    (imports : Imports) (space : Namespace) (executed : Result (Unit {0}))
    → imports.framing ≡ executed
    → All (IsNamed space) guarded_names
    → IsGuarded imports (final_space space)
    → IsImported imports (executed >>= λ done. with_frame_mac (with_framing space))
after_framing-IsImported imports space (ok done) e named guarded =
    rw (with_frame_mac-eq-ok space) (own_package-IsWhole space named, guarded)
after_framing-IsImported imports space (err raised) e named guarded = inl e

handled-caught_text :
    (known : Bool) (space : Namespace) (raised : Error) (text : Option Str)
    → caught_text known raised ≡ text
    → handled known (space, err raised)
      ≡ elim text [ some why ↦ ok (placeholders why space) | none ↦ err raised ]
unfolding handled
handled-caught_text known space raised text e = rw (e, handled) refl

after_block-IsImported :
    (imports : Imports) (known : Bool) (block : Namespace × Result (Unit {0}))
    → guarded imports ≡ block
    → IsImported imports (do
      space ← handled known block
      executed ← imports.framing
      with_frame_mac (with_framing space))
unfolding handled
after_block-IsImported imports known (space, ok done) e =
    let own : IsOwn space =
      subst IsOwn (sym (guarded-eq-ok imports (ap (λ b. b.1) e)) ∙ ap (λ b. b.0) e)
        own_space-IsOwn in
    after_framing-IsImported imports space imports.framing refl (IsNamed-IsOwn space own)
      (inl (ap (λ b. b.1) e, final_space-IsOwn space own))
after_block-IsImported imports known (space, err raised) e =
    elim (Option-cases (caught_text known raised)) [
      | inl passed ↦
          rw (handled-caught_text known space raised none passed)
            (inr (caught_text-eq-none known raised passed))
      | inr (why, text) ↦
          let replaced = placeholders-IsReplaced why space in
          rw (handled-caught_text known space raised (some why) text) (
            after_framing-IsImported imports (placeholders why space) imports.framing refl
              (IsNamed-IsReplaced why (placeholders why space) replaced)
              (inr (
                why,
                raised,
                ap (λ b. b.1) e,
                caught_text-eq-some known raised why text,
                final_space-IsReplaced why (placeholders why space) replaced,
              )))
    ]

after_version-IsImported :
    (imports : Imports) (version : Result Bool)
    → version_known imports.runtime_version ≡ version
    → IsImported imports (do
      known ← version
      space ← handled known (guarded imports)
      executed ← imports.framing
      with_frame_mac (with_framing space))
after_version-IsImported imports (ok known) e =
    after_block-IsImported imports known (guarded imports) refl
after_version-IsImported imports (err raised) e =
    inr (version_known-eq-err imports.runtime_version raised e)

-- Importing the package fails only with what framing's import raises, or with an exception that is
-- not an ImportError. Otherwise every exported name is there, framing's own functions among them,
-- and `frame_mac` has three of these, as an attribute and as a module. The names of the guarded
-- imports are all from their modules when none of these imports raised; when one raised, an
-- ImportError or protobuf's VersionError, a call of any of them raises an ImportError whose text
-- has the text of that exception in it.
pub import_package-IsImported : (imports : Imports) → IsImported imports (import_package imports)
unfolding import_package
import_package-IsImported imports =
    after_version-IsImported imports (version_known imports.runtime_version) refl
