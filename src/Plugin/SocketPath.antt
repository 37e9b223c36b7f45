-- ===== src/Plugin/SocketPath.antt =====
-- vynkor/plugin.py: `_default_socket_path`, with what it asks of the operating system.
use vynkor_sdk_python.Prelude.{ℕ, Bool, true, List, [], ◌∷◌, ◌++◌, if◌then◌else◌, ◌==◌, Option}
use vynkor_sdk_python.Errors.{Str, Result, ok, err}
use vynkor_sdk_python.Py.Text.{str, decimal}
use vynkor_sdk_python.Plugin.Credentials.{is_set, value_of}

-- `XDG_RUNTIME_DIR`, the user, and how the file system answers. `home` is `os.path.expanduser("~")`.
pub record Machine : Type 0 where
  pub runtime_dir : Option Str
  pub uid : ℕ
  pub is_dir : Str → Bool
  pub home : Str
  pub make_dirs : Str → Result (Unit {0})
  pub change_mode : Str → ℕ → Result (Unit {0})

-- The calls that change the file system.
pub data FileCall : Type 0 where
  made_dirs : Str → FileCall
  changed_mode : Str → ℕ → FileCall

-- `path.endswith("/")`, or the path is empty
unfoldable pub is_open : Str → Bool
is_open [] = true
is_open (c ∷ []) = c == 47
is_open (c ∷ d ∷ path) = is_open (d ∷ path)

-- `os.path.join(path, name)`, of a name that does not start with a slash
unfoldable pub join : Str → Str → Str
join path name = if is_open path then path ++ name else path ++ (str "/" ++ name)

abbrev pub socket_name : Str
socket_name = str "vyn.sock"

unfoldable pub run_user : Machine → Str
run_user machine = str "/run/user/" ++ decimal machine.uid

unfoldable pub private_dir : Machine → Str
private_dir machine =
    join (join (join (join machine.home (str ".local")) (str "state")) (str "vyn")) (str "run")

-- Behind `os.chmod`; 448 is `0o700`.
unfoldable pub after_mode : Str → Result (Unit {0}) → List FileCall × Result Str
after_mode dir (err e) = (made_dirs dir ∷ changed_mode dir 448 ∷ [], err e)
after_mode dir (ok done) = (made_dirs dir ∷ changed_mode dir 448 ∷ [], ok (join dir socket_name))

module _ (machine : Machine) where
  -- Behind `os.makedirs`.
  unfoldable pub after_dirs : Str → Result (Unit {0}) → List FileCall × Result Str
  after_dirs dir (err e) = (made_dirs dir ∷ [], err e)
  after_dirs dir (ok done) = after_mode dir (machine.change_mode dir 448)

  unfoldable pub default_socket_path : List FileCall × Result Str
  default_socket_path =
      if is_set machine.runtime_dir
      then ([], ok (join (value_of machine.runtime_dir) socket_name))
      else if machine.is_dir (run_user machine)
      then ([], ok (join (run_user machine) socket_name))
      else after_dirs (private_dir machine) (machine.make_dirs (private_dir machine))

-- `os.environ.get("VYN_SOCKET_PATH") or _default_socket_path()`
unfoldable pub socket_of : Machine → Option Str → List FileCall × Result Str
socket_of machine socket_path =
    if is_set socket_path then ([], ok (value_of socket_path)) else default_socket_path machine
