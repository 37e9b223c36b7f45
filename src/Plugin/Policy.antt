-- ===== src/Plugin/Policy.antt =====
-- vynkor/plugin.py: which secret `run_ws` may hold.
use vynkor_sdk_python.Prelude.{
  true, false, ◌≡◌, inl, inr, refl, [], Option, none, some, arith, Bool-cases,
}
use vynkor_sdk_python.Errors.{Str, Bytes, ok, >>=-eq-ok, raise_if-eq-ok}
use vynkor_sdk_python.Py.Text.{encode}
use vynkor_sdk_python.Plugin.Credentials.{
  Kind, device, shared, unsecured, WsCredentials, is_set, value_of, keyed, resolve_device,
  resolve_shared, resolve_ws_credentials,
}

-- What the environment must hold for each kind of credential, and what the credential is then.
abbrev pub IsPolicy : Option Str → Option Str → Option Str → WsCredentials → Type 0
IsPolicy device_id device_secret jwt_secret creds = elim creds.kind [
  | device ↦
      (is_set device_id ≡ true)
      × (is_set device_secret ≡ true)
      × (is_set jwt_secret ≡ false)
      × (creds.device_id ≡ value_of device_id)
      × ((key : Bytes) × (encode (value_of device_secret) ≡ ok key) × (creds.secret ≡ some key))
  | shared ↦
      (is_set device_id ≡ false)
      × (is_set device_secret ≡ false)
      × (is_set jwt_secret ≡ true)
      × ((key : Bytes) × (encode (value_of jwt_secret) ≡ ok key) × (creds.secret ≡ some key))
  | unsecured ↦
      (is_set device_id ≡ false)
      × (is_set device_secret ≡ false)
      × (is_set jwt_secret ≡ false)
      × (creds.secret ≡ none)
]

keyed-eq-ok :
    (kind : Kind) (device_id : Str) (secret : Option Str) (creds : WsCredentials)
    → keyed kind device_id secret ≡ ok creds
    → (key : Bytes) × (encode (value_of secret) ≡ ok key)
      × (creds ≡ record { kind = kind; device_id = device_id; secret = some key })
unfolding keyed
keyed-eq-ok kind device_id secret creds h =
    let (key, e, r) = >>=-eq-ok (encode (value_of secret)) _ h in (key, e, cc)

device-IsPolicy :
    (device_id device_secret jwt_secret : Option Str) (creds : WsCredentials)
    → is_set device_id ≡ true
    → is_set device_secret ≡ true
    → resolve_device device_id device_secret jwt_secret ≡ ok creds
    → IsPolicy device_id device_secret jwt_secret creds
unfolding resolve_device
device-IsPolicy device_id device_secret jwt_secret creds d s h =
    let (unset, r) = raise_if-eq-ok (is_set jwt_secret) _ _ h in
    let (key, e, same) = keyed-eq-ok device (value_of device_id) device_secret creds r in
    rw same (d, s, unset, refl, (key, e, refl))

shared-IsPolicy :
    (device_id device_secret jwt_secret : Option Str) (creds : WsCredentials)
    → resolve_shared device_id device_secret jwt_secret ≡ ok creds
    → IsPolicy device_id device_secret jwt_secret creds
unfolding resolve_shared
shared-IsPolicy device_id device_secret jwt_secret creds h =
    let (d, r) = raise_if-eq-ok (is_set device_id) _ _ h in
    let (s, q) = raise_if-eq-ok (is_set device_secret) _ _ r in
    elim (Bool-cases (is_set jwt_secret)) [
      | inl j ↦
          let (key, e, same) = keyed-eq-ok shared [] jwt_secret creds (ground arith) in
          rw same (d, s, j, (key, e, refl))
      | inr j ↦
          let same : creds ≡ record { kind = unsecured; device_id = []; secret = none } =
            ground arith in
          rw same (d, s, j, refl)
    ]

-- Credentials are resolved only as the policy says: a device credential has the device's own id and
-- secret and there is no JWT secret; a shared one has the JWT secret and no variable of a device is
-- set; without any of the three the connection is unsecured.
pub resolve_ws_credentials-IsPolicy :
    (device_id device_secret jwt_secret : Option Str) (creds : WsCredentials)
    → resolve_ws_credentials device_id device_secret jwt_secret ≡ ok creds
    → IsPolicy device_id device_secret jwt_secret creds
unfolding resolve_ws_credentials
resolve_ws_credentials-IsPolicy device_id device_secret jwt_secret creds =
    elim (Bool-cases (is_set device_id)) [
      | inl d ↦ elim (Bool-cases (is_set device_secret)) [
        | inl s ↦ rw (d, s) (device-IsPolicy device_id device_secret jwt_secret creds d s)
        | inr s ↦ rw (d, s) (shared-IsPolicy device_id device_secret jwt_secret creds)
      ]
      | inr d ↦ rw d (shared-IsPolicy device_id device_secret jwt_secret creds)
    ]
