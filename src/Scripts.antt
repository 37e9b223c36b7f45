-- ===== src/Scripts.antt =====
-- scripts/gen_proto_python.py: the script that runs the protobuf compiler. Its paths are texts, and
-- what the file system and the compiler do is a parameter.
use vynkor_sdk_python.Prelude.{
  ℕ, zero, suc, ◌≡◌, ◌⊎◌, refl, ap, Bool, true, false, List, [], ◌∷◌, ◌++◌, inl, inr, Bool-cases,
  if◌then◌else◌, arith,
}
use vynkor_sdk_python.Errors.{Str, Result, ok, err}
use vynkor_sdk_python.Py.Text.{str}

-- How the compiler ended: with a code, or by a signal, which is a negative `returncode`.
pub data Exit : Type 0 where
  exited killed : ℕ → Exit

pub record Completed : Type 0 where
  pub returncode : Exit
  pub stderr : Str

-- `ROOT`, `ROOT.parent` and `sys.executable`, whether `PROTO` exists, and what the calls come to.
pub record Site : Type 0 where
  pub root : Str
  pub parent : Str
  pub executable : Str
  pub proto_exists : Bool
  pub mkdir : Result (Unit {0})
  pub run : Result Completed

pub data Effect : Type 0 where
  made_directory : Str → Effect
  ran : List Str → Effect
  printed printed_error : Str → Effect

abbrev pub proto_dir : Site → Str
proto_dir site = site.parent ++ str "/vynkor-wire/proto"

abbrev pub proto : Site → Str
proto site = proto_dir site ++ str "/vynkor_protocol.proto"

abbrev pub out : Site → Str
out site = site.root ++ str "/vynkor"

abbrev pub protoc_command : Site → List Str
protoc_command site =
    site.executable
    ∷ str "-m"
    ∷ str "grpc_tools.protoc"
    ∷ (str "-I" ++ proto_dir site)
    ∷ (str "--python_out=" ++ out site)
    ∷ proto site
    ∷ []

abbrev pub skip : Site → Str
skip site =
    str "skip: "
    ++ (proto site
        ++ (str " not found (vynkor-wire not checked out side-by-side); "
            ++ str "proto is vendored — re-sync manually when wire changes"))

-- `result.returncode != 0`
abbrev pub is_failure : Exit → Bool
is_failure (exited zero) = false
is_failure (exited (suc code)) = true
is_failure (killed signal) = true

-- What the script does, and its exit code unless an exception ends it.
unfoldable pub after_run : Site → Result Completed → List Effect × Result ℕ
after_run site (err raised) = ([], err raised)
after_run site (ok result) =
    if is_failure result.returncode
    then (printed_error result.stderr ∷ [], ok 1)
    else (printed (str "Generated " ++ (out site ++ str "/vynkor_protocol_pb2.py")) ∷ [], ok 0)

unfoldable pub after_mkdir : Site → Result (Unit {0}) → List Effect × Result ℕ
after_mkdir site (err raised) = ([], err raised)
after_mkdir site (ok made) =
    let (acts, code) = after_run site site.run in (ran (protoc_command site) ∷ acts, code)

unfoldable pub after_exists : Site → Bool → List Effect × Result ℕ
after_exists site false = (printed_error (skip site) ∷ [], ok 0)
after_exists site true =
    let (acts, code) = after_mkdir site site.mkdir in (made_directory (out site) ∷ acts, code)

unfoldable pub main : Site → List Effect × Result ℕ
main site = after_exists site site.proto_exists

-- The runs of the compiler.
abbrev pub runs : List Effect → List (List Str)
runs [] = []
runs (ran arguments ∷ acts) = arguments ∷ runs acts
runs (made_directory path ∷ acts) = runs acts
runs (printed text ∷ acts) = runs acts
runs (printed_error text ∷ acts) = runs acts

-- The proto file is missing and the compiler did not run, or the compiler ran once and exited
-- with 0.
abbrev pub IsSuccess : Site → Bool → List Effect → Type 0
IsSuccess site there acts =
    ((there ≡ false) × (runs acts ≡ []))
    ⊎ ((result : Completed) × (site.run ≡ ok result)
        × (result.returncode ≡ exited 0)
        × (runs acts ≡ protoc_command site ∷ []))

is_failure-eq-false : (ending : Exit) → is_failure ending ≡ false → ending ≡ exited 0
is_failure-eq-false (exited zero) h = refl
is_failure-eq-false (exited (suc code)) h = absurd (cc)
is_failure-eq-false (killed signal) h = absurd (cc)

after_run-eq-zero :
    (site : Site) (run : Result Completed)
    → (after_run site run).1 ≡ ok 0
    → (result : Completed) × (run ≡ ok result)
      × (result.returncode ≡ exited 0)
      × (runs (after_run site run).0 ≡ [])
unfolding after_run
after_run-eq-zero site (err raised) h = absurd (cc)
after_run-eq-zero site (ok result) h = elim (Bool-cases (is_failure result.returncode)) [
  | inl failed ↦ absurd (ground arith)
  | inr passed ↦ (result, refl, is_failure-eq-false result.returncode passed, rw passed refl)
]

after_mkdir-eq-zero :
    (site : Site) (made : Result (Unit {0}))
    → (after_mkdir site made).1 ≡ ok 0
    → (result : Completed) × (site.run ≡ ok result)
      × (result.returncode ≡ exited 0)
      × (runs (after_mkdir site made).0 ≡ protoc_command site ∷ [])
unfolding after_mkdir
after_mkdir-eq-zero site (err raised) h = absurd (cc)
after_mkdir-eq-zero site (ok made) h =
    let (result, ran_ok, code, none_else) = after_run-eq-zero site site.run h in
    (result, ran_ok, code, ap (◌∷◌ (protoc_command site)) none_else)

after_exists-IsSuccess :
    (site : Site) (there : Bool)
    → (after_exists site there).1 ≡ ok 0
    → IsSuccess site there (after_exists site there).0
unfolding after_exists
after_exists-IsSuccess site false h = inl (refl, refl)
after_exists-IsSuccess site true h = inr (after_mkdir-eq-zero site site.mkdir h)

-- A script that exits with 0 either found no proto file and ran nothing, or ran the compiler once
-- with exit code 0.
pub main-IsSuccess :
    (site : Site) → (main site).1 ≡ ok 0 → IsSuccess site site.proto_exists (main site).0
unfolding main
main-IsSuccess site = after_exists-IsSuccess site site.proto_exists
