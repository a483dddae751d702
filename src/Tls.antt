-- ===== src/Tls.antt =====
-- upgrade2webrtc/src/tls.rs: the TLS configuration of a server and of a client.
-- Files are reached through calls that are logged. The certificate crates are parameters.
pub mod Files
pub mod Chain
pub mod Trust
mod Loaded
pub mod Restart
pub mod Tests
use Prim.Native.String.{String}
use mangle_webrtc.Common.{Bool, Option, none, some, List, [], ◌∷◌, if◌then◌else◌, Result, ok, err}
use mangle_webrtc.Common.Effects.{Eff, ◌>>=◌, ◌>>◌, pure, stop, ask}

-- Files, DER and PEM data, keys, certificates, and the configurations of rustls.
pub record Externals : Type 1 where
  pub IoError : Type 0
  pub RcgenError : Type 0
  pub RustlsError : Type 0
  pub File : Type 0
  pub Der : Type 0
  pub Pem : Type 0
  pub KeyPair : Type 0
  pub CertificateParams : Type 0
  pub Certificate : Type 0
  pub RootCertStore : Type 0
  pub TlsAcceptor : Type 0
  pub TlsConnector : Type 0
  pub invalid_data : String → IoError
  pub not_found : String → IoError
  pub key_pair_from_der : Der → Result RcgenError KeyPair
  pub from_ca_cert_der : Der → KeyPair → Result RcgenError CertificateParams
  pub from_params : CertificateParams → Result RcgenError Certificate
  pub serialize_pem : Certificate → Result RcgenError Pem
  pub key_pair_pem : Certificate → Pem
  pub serialize_der_with_signer : Certificate → Certificate → Result RcgenError Der
  pub serialize_der : Certificate → Result RcgenError Der
  pub serialize_private_key_der : Certificate → Der
  pub acceptor_with_single_cert : List Der → Der → Result RustlsError TlsAcceptor
  pub empty_store : RootCertStore
  pub add_root : RootCertStore → Der → Result RustlsError RootCertStore
  pub connector_with_roots : RootCertStore → TlsConnector

pub record TlsServerConfig : Type 0 where
  pub root_cert_chain_path : String
  pub parent_key_path : String
  pub subject_alt_names : List String
  pub create_if_missing : Bool

pub data TlsInitError (x : Externals) : Type 0 where
  tls_io_error : x.IoError → TlsInitError x
  rcgen_error : x.RcgenError → TlsInitError x
  rustls_error : x.RustlsError → TlsInitError x

-- The calls that read or write files or make keys, each with its arguments and its answer.
pub data Event (x : Externals) : Type 0 where
  try_exists : String → Result x.IoError Bool → Event x
  open_file : String → Result x.IoError x.File → Event x
  pkcs8_private_keys : x.File → Result x.IoError (List x.Der) → Event x
  certs : x.File → Result x.IoError (List x.Der) → Event x
  generate_simple_self_signed : List String → Result x.RcgenError x.Certificate → Event x
  write_file : String → x.Pem → Result x.IoError (Unit {0}) → Event x

pub record World (x : Externals) : Type 0 where
  pub try_exists : String → List (Event x) → Result x.IoError Bool
  pub open_file : String → List (Event x) → Result x.IoError x.File
  pub pkcs8_private_keys : x.File → List (Event x) → Result x.IoError (List x.Der)
  pub certs : x.File → List (Event x) → Result x.IoError (List x.Der)
  pub generate_simple_self_signed : List String → List (Event x) → Result x.RcgenError x.Certificate
  pub write_file : String → x.Pem → List (Event x) → Result x.IoError (Unit {0})

abbrev pub Init : Externals → Type 0 → Type 0
Init x A = Eff (Event x) (TlsInitError x) A

-- `?` at each of the three types of errors.
module _ {x : Externals} {A : Type 0} where
  abbrev pub try_io : Result x.IoError A → Init x A
  try_io (ok a) = pure a
  try_io (err e) = stop (tls_io_error e)

  abbrev pub try_rcgen : Result x.RcgenError A → Init x A
  try_rcgen (ok a) = pure a
  try_rcgen (err e) = stop (rcgen_error e)

  abbrev pub try_rustls : Result x.RustlsError A → Init x A
  try_rustls (ok a) = pure a
  try_rustls (err e) = stop (rustls_error e)

-- `slice::last`.
abbrev pub last {ℓ} : {A : Type ℓ} → List A → Option A
last [] = none
last (a ∷ []) = some a
last (a ∷ b ∷ rest) = last (b ∷ rest)

module _ {x : Externals} (w : World x) where
  open_and_read :
      String
      → (x.File → List (Event x) → Result x.IoError (List x.Der))
      → (x.File → Result x.IoError (List x.Der) → Event x)
      → Init x (List x.Der)
  open_and_read path answer event = do
    opened ← ask (w.open_file path) (open_file path)
    file ← try_io opened
    read ← ask (answer file) (event file)
    try_io read

  -- `let [parent_key] = keys.as_slice() else { … }`.
  unfoldable pub single_key : List x.Der → Init x x.Der
  single_key (key ∷ []) = pure key
  single_key _ =
      stop (
        tls_io_error
          (x.invalid_data "There must be exactly one private key in the parent key file"))

  unfoldable pub last_cert : Option x.Der → Init x x.Der
  last_cert (some cert) = pure cert
  last_cert none = stop (
      tls_io_error
        (x.invalid_data "There must be at least one certificate in the root cert chain file"))

  -- The parent certificate of the files that exist.
  unfoldable pub load_parent : TlsServerConfig → Init x x.Certificate
  unfolding open_and_read
  load_parent config = do
    keys ← open_and_read config.parent_key_path w.pkcs8_private_keys pkcs8_private_keys
    key_der ← single_key keys
    parent_key ← try_rcgen (x.key_pair_from_der key_der)
    chain ← open_and_read config.root_cert_chain_path w.certs certs
    cert_der ← last_cert (last chain)
    params ← try_rcgen (x.from_ca_cert_der cert_der parent_key)
    try_rcgen (x.from_params params)

  -- A new parent certificate, and its files.
  unfoldable pub create_parent : TlsServerConfig → Init x x.Certificate
  create_parent config = do
    generated ← ask (w.generate_simple_self_signed []) (generate_simple_self_signed [])
    parent ← try_rcgen generated
    pem ← try_rcgen (x.serialize_pem parent)
    let path = config.root_cert_chain_path
    wrote_cert ← ask (w.write_file path pem) (write_file path pem)
    try_io wrote_cert
    let key_pem = x.key_pair_pem parent
    let key_path = config.parent_key_path
    wrote_key ← ask (w.write_file key_path key_pem) (write_file key_path key_pem)
    try_io wrote_key
    pure parent

  unfoldable pub parent_cert : TlsServerConfig → Init x x.Certificate
  parent_cert config = do
    let path = config.root_cert_chain_path
    checked ← ask (w.try_exists path) (try_exists path)
    exists ← try_io checked
    if exists
        then load_parent config
        else if config.create_if_missing
        then create_parent config
        else stop (tls_io_error (x.not_found "Certificate file does not exist"))

  -- The certificate of the server, signed by the parent, and the parent's behind it.
  unfoldable pub sign_server : TlsServerConfig → x.Certificate → Init x x.TlsAcceptor
  sign_server config parent = do
    let names = config.subject_alt_names
    generated ← ask (w.generate_simple_self_signed names) (generate_simple_self_signed names)
    server ← try_rcgen generated
    server_der ← try_rcgen (x.serialize_der_with_signer server parent)
    parent_der ← try_rcgen (x.serialize_der parent)
    try_rustls (
        x.acceptor_with_single_cert (server_der ∷ parent_der ∷ [])
          (x.serialize_private_key_der server))

  unfoldable pub new_tls_acceptor : TlsServerConfig → Init x x.TlsAcceptor
  new_tls_acceptor config = do parent ← parent_cert config; sign_server config parent

  unfoldable pub single_root : List x.Der → Init x x.Der
  single_root (root ∷ []) = pure root
  single_root _ =
      stop (
        tls_io_error (x.invalid_data "There must be exactly one certificate in the root cert file"))

  unfoldable pub root_store : Option String → Init x x.RootCertStore
  unfolding open_and_read
  root_store none = pure x.empty_store
  root_store (some root_cert_path) = do
    found ← open_and_read root_cert_path w.certs certs
    root ← single_root found
    try_rustls (x.add_root x.empty_store root)

  unfoldable pub new_tls_connector : Option String → Init x x.TlsConnector
  new_tls_connector root_cert_path = do
    store ← root_store root_cert_path
    pure (x.connector_with_roots store)
