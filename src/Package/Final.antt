-- ===== src/Package/Final.antt =====
-- vynkor/__init__.py: the namespace behind framing's imports and the module `frame_mac`.
use vynkor_sdk_python.Prelude.{
  ◌≡◌, refl, sym, subst, ◌∙◌, true, false, List, [], ◌∷◌, ◌++◌, Option, some, if◌then◌else◌, All,
}
use vynkor_sdk_python.Prelude.Dict
use vynkor_sdk_python.Prelude.Dict.{get-insert}
use vynkor_sdk_python.Errors.{Str, ok}
use vynkor_sdk_python.Py.Text.{str, str_eq, str_key}
use vynkor_sdk_python.Package.Names.{
  framing_names, exported_names, client_names, concurrent_names, gate_names, error_names,
  plugin_names,
}
use vynkor_sdk_python.Package.Import.{
  Meaning, imported, submodule, frame_mac, Namespace, Package, bound, framing_module, with_framing,
  with_frame_mac, bind_each,
}
use vynkor_sdk_python.Package.Binding.{
  is_in, avoids, AreBound, get-bind_each, get-insert_other, is_in-All, covers-All, avoids-All,
  All-append, is_in-eq-false, is_in-append-eq-false,
}
use vynkor_sdk_python.Package.Guarded.{guarded_names, IsOwn, IsExplained, IsReplaced}

abbrev own_frame_mac : Meaning
own_frame_mac =
    frame_mac (imported framing_module (str "compute_tag"))
      (imported framing_module (str "derive_session_key"))
      (imported framing_module (str "verify_tag"))

abbrev pub IsNamed : Namespace → Str → Type 0
IsNamed space name = (value : Meaning) × (Dict.get name space ≡ some value)

-- Every exported name is there, those of framing are framing's own, and `frame_mac` has its three
-- functions, as an attribute and as a module of its own.
abbrev pub IsWhole : Package → Type 0
IsWhole sdk =
    All (IsNamed sdk.namespace) exported_names
    × AreBound (imported framing_module) framing_names sdk.namespace
    × (Dict.get (str "frame_mac") sdk.namespace ≡ some own_frame_mac)
    × (sdk.modules ≡ (str "vynkor.frame_mac", own_frame_mac) ∷ [])

abbrev pub final_space : Namespace → Namespace
final_space space = Dict.insert (str "frame_mac") own_frame_mac (with_framing space)

-- What the imports of framing assign beside framing's names.
abbrev private_names : List Str
private_names =
    str "_verify_tag" ∷ str "_derive_session_key" ∷ str "_compute_tag" ∷ framing_module ∷ []

abbrev added_names : List Str
added_names = str "frame_mac" ∷ (private_names ++ framing_names)

get-with_framing :
    (space : Namespace) (name : Str)
    → is_in name private_names ≡ false
    → Dict.get name (with_framing space) ≡ (
        if is_in name framing_names
        then some (imported framing_module name)
        else Dict.get name space)
unfolding with_framing
get-with_framing space name out =
    let last = framing_module ∷ [] in
    let later = str "_compute_tag" ∷ last in
    let (v, out1) =
      is_in-eq-false name (str "_verify_tag") (str "_derive_session_key" ∷ later) out in
    let (d, out2) = is_in-eq-false name (str "_derive_session_key") later out1 in
    let (c, out3) = is_in-eq-false name (str "_compute_tag") last out2 in
    let (f, out4) = is_in-eq-false name framing_module [] out3 in
    get-insert_other (str "_verify_tag") name _ _ v
    ∙ get-insert_other (str "_derive_session_key") name _ _ d
    ∙ get-insert_other (str "_compute_tag") name _ _ c
    ∙ get-insert_other framing_module name _ _ f
    ∙ get-bind_each (imported framing_module) framing_names space name

with_framing-AreBound :
    (space : Namespace) → AreBound (imported framing_module) framing_names (with_framing space)
unfolding str str_eq
with_framing-AreBound space =
    avoids-All (λ name. is_in name framing_names ≡ true)
      (λ name. Dict.get name (with_framing space) ≡ some (imported framing_module name))
      private_names framing_names
      (λ name out found. get-with_framing space name out ∙ rw found refl) refl
      (covers-All (λ name. is_in name framing_names ≡ true) framing_names framing_names
        (λ name found. found) refl)

-- The names from before keep their values.
get-final_space :
    (space : Namespace) (name : Str)
    → is_in name added_names ≡ false
    → Dict.get name (final_space space) ≡ Dict.get name space
get-final_space space name out =
    let (m, out1) = is_in-eq-false name (str "frame_mac") (private_names ++ framing_names) out in
    let (private, framing) = is_in-append-eq-false name private_names framing_names out1 in
    get-insert_other (str "frame_mac") name own_frame_mac _ m
    ∙ get-with_framing space name private
    ∙ rw framing refl

final_space-kept {ℓ} :
    (P : Str → Option Meaning → Type ℓ) (names : List Str) (space : Namespace)
    → avoids added_names names ≡ true
    → All (λ name. P name (Dict.get name space)) names
    → All (λ name. P name (Dict.get name (final_space space))) names
final_space-kept P names space =
    avoids-All (λ name. P name (Dict.get name space))
      (λ name. P name (Dict.get name (final_space space))) added_names names
      (λ name out. subst (P name) (sym (get-final_space space name out)))

pub final_space-IsOwn : (space : Namespace) → IsOwn space → IsOwn (final_space space)
unfolding str str_eq
final_space-IsOwn space (client, concurrent, gate, errors, plugin) =
    let kept : (from : Str) (names : List Str)
        → avoids added_names names ≡ true
        → AreBound (imported from) names space
        → AreBound (imported from) names (final_space space) =
      λ from names.
        final_space-kept (λ name found. found ≡ some (imported from name)) names space in
    (
      kept _ client_names refl client,
      kept _ concurrent_names refl concurrent,
      kept _ gate_names refl gate,
      kept _ error_names refl errors,
      kept _ plugin_names refl plugin,
    )

pub final_space-IsReplaced :
    (why : Str) (space : Namespace) → IsReplaced why space → IsReplaced why (final_space space)
unfolding str str_eq
final_space-IsReplaced why space =
    final_space-kept
      (λ name found. (value : Meaning) × (found ≡ some value) × IsExplained why value) guarded_names
      space refl

final_space-framing :
    (space : Namespace) → AreBound (imported framing_module) framing_names (final_space space)
unfolding str str_eq
final_space-framing space =
    avoids-All (λ name. Dict.get name (with_framing space) ≡ some (imported framing_module name))
      (λ name. Dict.get name (final_space space) ≡ some (imported framing_module name))
      (str "frame_mac" ∷ []) framing_names
      (λ name out h.
        get-insert_other (str "frame_mac") name own_frame_mac _
          ((is_in-eq-false name (str "frame_mac") [] out).0)
        ∙ h)
      refl (with_framing-AreBound space)

abbrev pub own_package : Namespace → Package
own_package space = record {
  namespace = final_space space;
  modules = (str "vynkor.frame_mac", own_frame_mac) ∷ [];
}

bound-framing :
    (space : Namespace) (name : Str)
    → is_in name framing_names ≡ true
    → bound name (with_framing space) ≡ ok (imported framing_module name)
unfolding bound
bound-framing space name found =
    let held : Dict.get name (with_framing space) ≡ some (imported framing_module name) =
      is_in-All (λ n. Dict.get n (with_framing space) ≡ some (imported framing_module n))
        framing_names name (with_framing-AreBound space) found in
    rw (held, bound) refl

three-found :
    (is_in (str "compute_tag") framing_names ≡ true)
    × (is_in (str "derive_session_key") framing_names ≡ true)
    × (is_in (str "verify_tag") framing_names ≡ true)
unfolding str str_eq
three-found = (refl, refl, refl)

pub with_frame_mac-eq-ok :
    (space : Namespace) → with_frame_mac (with_framing space) ≡ ok (own_package space)
unfolding with_frame_mac Dict.insert
with_frame_mac-eq-ok space =
    let (tag, key, verify) = three-found in
    rw (bound-framing space _ tag, bound-framing space _ key, bound-framing space _ verify) refl

get-framing_module :
    (space : Namespace)
    → Dict.get framing_module (final_space space) ≡ some (submodule framing_module)
unfolding with_framing str str_eq
get-framing_module space =
    get-insert_other (str "frame_mac") framing_module own_frame_mac (with_framing space) refl
    ∙ get-insert_other (str "_verify_tag") framing_module _ _ refl
    ∙ get-insert_other (str "_derive_session_key") framing_module _ _ refl
    ∙ get-insert_other (str "_compute_tag") framing_module _ _ refl
    ∙ get-insert framing_module framing_module (submodule framing_module)
        (bind_each (imported framing_module) framing_names space)

pub own_package-IsWhole :
    (space : Namespace) → All (IsNamed space) guarded_names → IsWhole (own_package space)
unfolding str str_eq
own_package-IsWhole space named =
    let final = final_space space in
    let mac : Dict.get (str "frame_mac") final ≡ some own_frame_mac =
      get-insert (str "frame_mac") (str "frame_mac") own_frame_mac (with_framing space) in
    let module_named : IsNamed final framing_module =
      (submodule framing_module, get-framing_module space) in
    let earlier =
      final_space-kept (λ name found. (value : Meaning) × (found ≡ some value)) guarded_names space
        refl named in
    let own : All (IsNamed final) framing_names =
      covers-All (IsNamed final) framing_names framing_names
        (λ name found. (
          imported framing_module name,
          is_in-All (λ n. Dict.get n final ≡ some (imported framing_module n)) framing_names name
              (final_space-framing space) found,
        ))
        refl in
    let every =
      All-append (IsNamed final) guarded_names (framing_module ∷ str "frame_mac" ∷ framing_names)
        earlier (module_named, ((own_frame_mac, mac), own)) in
    (
      covers-All (IsNamed final)
          (guarded_names ++ (framing_module ∷ str "frame_mac" ∷ framing_names)) exported_names
          (λ name.
            is_in-All (IsNamed final)
              (guarded_names ++ (framing_module ∷ str "frame_mac" ∷ framing_names)) name every)
          refl,
      final_space-framing space,
      mac,
      refl,
    )
