-- ===== src/Tls/Tests.antt =====
-- TLS configurations on a concrete file system, and the theorems at concrete inputs.
use Prim.Native.String.{String}
use text.Mathlib.TextEquality.{eq_iff}
use mangle_webrtc.Common.{
  ℕ, Bool, ◌≡◌, ◌≢◌, refl, true, false, Option, none, some, List, [], ◌∷◌, Result, ok, err, arith,
}
use mangle_webrtc.Tls
use mangle_webrtc.Tls.Trust.{content, KeepsFiles, Trusts, new_tls_connector-acceptor}
use mangle_webrtc.Tls.Restart.{KeepsKeys, KeepsExisting, MadeOf, new_tls_acceptor-again}

abbrev pub plain : Tls.Externals
plain = record {
  IoError = ℕ;
  RcgenError = ℕ;
  RustlsError = ℕ;
  File = String;
  Der = ℕ;
  Pem = ℕ;
  KeyPair = ℕ;
  CertificateParams = ℕ;
  Certificate = ℕ;
  RootCertStore = List ℕ;
  TlsAcceptor = List ℕ;
  TlsConnector = List ℕ;
  invalid_data = λ s. 1;
  not_found = λ s. 2;
  key_pair_from_der = λ d. ok d;
  from_ca_cert_der = λ d k. ok d;
  from_params = λ p. ok p;
  serialize_pem = λ c. ok c;
  key_pair_pem = λ c. c;
  serialize_der_with_signer = λ c p. ok c;
  serialize_der = λ c. ok c;
  serialize_private_key_der = λ c. c;
  acceptor_with_single_cert = λ certs key. ok certs;
  empty_store = [];
  add_root = λ store d. ok (d ∷ store);
  connector_with_roots = λ store. store;
}

-- No file is there; the certificate of the names is 4, that of no name 3.
abbrev generate : List String → ℕ
generate [] = 3
generate (n ∷ names) = 4

abbrev pub bare : Tls.World plain
bare = record {
  try_exists = λ path log. ok false;
  open_file = λ path log. ok path;
  pkcs8_private_keys = λ file log. ok (7 ∷ []);
  certs = λ file log. ok (8 ∷ 9 ∷ []);
  generate_simple_self_signed = λ names log. ok (generate names);
  write_file = λ path pem log. ok tt;
}

abbrev pub config : Tls.TlsServerConfig
config = record {
  root_cert_chain_path = "cert.pem";
  parent_key_path = "key.pem";
  subject_alt_names = "localhost" ∷ [];
  create_if_missing = true;
}

pub accepted : (Tls.new_tls_acceptor bare config []).0 ≡ ok (4 ∷ 3 ∷ [])
unfolding Tls.new_tls_acceptor Tls.parent_cert Tls.create_parent Tls.sign_server
accepted = refl

-- A file system on which each file holds one certificate.
abbrev pub single : Tls.World plain
single = record bare { certs = λ file h. ok (8 ∷ []) }

connected : (Tls.new_tls_connector single (some "root.pem") []).0 ≡ ok (8 ∷ [])
unfolding Tls.new_tls_connector Tls.root_store Tls.single_root
connected = refl

-- A file system on which a file holds the certificate that was written to it.
abbrev found_in : Option ℕ → Result ℕ (List ℕ)
found_in none = err 5
found_in (some pem) = ok (pem ∷ [])

abbrev kept : Tls.World plain
kept = record bare { certs = λ file h. found_in (content file h) }

kept-KeepsFiles : KeepsFiles kept (λ pem. pem ∷ [])
kept-KeepsFiles path pem file found h holds opened read = ground arith

key-ne-cert : config.parent_key_path ≢ config.root_cert_chain_path
key-ne-cert e = ground (arith, eq_iff "key.pem" "cert.pem")

creates : (Tls.new_tls_acceptor kept config []).0 ≡ ok (4 ∷ 3 ∷ [])
unfolding Tls.new_tls_acceptor Tls.parent_cert Tls.create_parent Tls.sign_server
creates = refl

trusts :
    (Tls.new_tls_connector kept (some "cert.pem") (Tls.new_tls_acceptor kept config []).1).0
    ≡ ok (3 ∷ [])
unfolding Tls.new_tls_acceptor Tls.parent_cert Tls.create_parent Tls.sign_server
    Tls.new_tls_connector Tls.root_store Tls.single_root
trusts = refl

new_tls_connector-acceptor_example : Trusts kept config (λ pem. pem ∷ []) (4 ∷ 3 ∷ []) (3 ∷ [])
new_tls_connector-acceptor_example =
    new_tls_connector-acceptor kept config (λ pem. pem ∷ []) (4 ∷ 3 ∷ []) (3 ∷ []) kept-KeepsFiles
      key-ne-cert refl creates trusts

-- A file system on which exactly the files exist that were written to.
abbrev present : Option ℕ → Result ℕ Bool
present none = ok false
present (some pem) = ok true

abbrev restarted : Tls.World plain
restarted = record kept {
  try_exists = λ path h. present (content path h);
  pkcs8_private_keys = λ file h. found_in (content file h);
}

restarted-KeepsFiles : KeepsFiles restarted (λ pem. pem ∷ [])
restarted-KeepsFiles path pem file found h holds opened read = ground arith

restarted-KeepsKeys : KeepsKeys restarted config (λ pem. pem ∷ [])
restarted-KeepsKeys path pem file found h holds opened read = ground arith

restarted-KeepsExisting : KeepsExisting restarted config
restarted-KeepsExisting path pem answer h holds exists = ground arith

creates_first : (Tls.new_tls_acceptor restarted config []).0 ≡ ok (4 ∷ 3 ∷ [])
unfolding Tls.new_tls_acceptor Tls.parent_cert Tls.create_parent Tls.sign_server
creates_first = refl

loads_next :
    (Tls.new_tls_acceptor restarted config (Tls.new_tls_acceptor restarted config []).1).0
    ≡ ok (4 ∷ 3 ∷ [])
unfolding Tls.new_tls_acceptor Tls.parent_cert Tls.create_parent Tls.sign_server Tls.load_parent
    Tls.single_key Tls.last_cert
loads_next = refl

new_tls_acceptor-again_example :
    let log = (Tls.new_tls_acceptor restarted config []).1 in
    (first : ℕ) × (pem : ℕ) × ((Tls.sign_server restarted config first
        (Tls.parent_cert restarted config []).1).0
      ≡ ok (4 ∷ 3 ∷ []))
    × (plain.serialize_pem first ≡ ok pem)
    × MadeOf restarted config
        (λ p. p ∷ [])
        (λ p. p ∷ [])
        pem
        (plain.key_pair_pem first)
        (Tls.new_tls_acceptor restarted config log)
new_tls_acceptor-again_example =
    new_tls_acceptor-again restarted config (λ pem. pem ∷ []) (λ pem. pem ∷ []) (4 ∷ 3 ∷ [])
      (4 ∷ 3 ∷ []) restarted-KeepsFiles restarted-KeepsKeys restarted-KeepsExisting key-ne-cert refl
      creates_first loads_next
