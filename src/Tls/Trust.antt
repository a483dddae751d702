-- ===== src/Tls/Trust.antt =====
-- Both ends: the certificate file that a server writes, and a client that reads it.
use Prim.Native.String.{String}
use text.Mathlib.Text.{◌==◌ as str_eq}
use text.Mathlib.TextEquality.{eq_iff}
use mangle_webrtc.Common.{
  ◌≡◌, ◌≢◌, sym, ap, ◌∙◌, Bool-cases, false, Option, none, some, List, [], ◌∷◌, ok, Result-cases,
  inl, inr, arith, if◌then◌else◌,
}
use mangle_webrtc.Tls
use mangle_webrtc.Tls.Chain.{sign_server_chain, new_tls_connector_trusts_at}

-- What was written to a path last.
abbrev pub content : {x : Tls.Externals} → String → List (Tls.Event x) → Option x.Pem
content path [] = none
content path (Tls.write_file p pem (ok u) ∷ log) =
    if str_eq p path then some pem else content path log
content path (_ ∷ log) = content path log

module _ {x : Tls.Externals} (w : Tls.World x) where
  -- The answers of `rustls_pemfile::certs`, where a file holds what was written to it: those that
  -- `pem_certs` finds in it.
  abbrev pub KeepsFiles : (x.Pem → List x.Der) → Type 0
  KeepsFiles pem_certs =
      (path : String) (pem : x.Pem) (file : x.File) (found : List x.Der) (h : List (Tls.Event x))
      → content path h ≡ some pem
      → w.open_file path h ≡ ok file
      → w.certs file (Tls.open_file path (ok file) ∷ h) ≡ ok found
      → found ≡ pem_certs pem

  module _ (config : Tls.TlsServerConfig) where
    -- A parent that was created has its certificate in the file.
    create_parent-content :
        (h : List (Tls.Event x)) (parent : x.Certificate)
        → config.parent_key_path ≢ config.root_cert_chain_path
        → (Tls.create_parent w config h).0 ≡ ok parent
        → (pem : x.Pem) × (x.serialize_pem parent ≡ ok pem)
          × (content config.root_cert_chain_path (Tls.create_parent w config h).1 ≡ some pem)
          × (content config.parent_key_path (Tls.create_parent w config h).1
              ≡ some (x.key_pair_pem parent))
    unfolding Tls.create_parent
    create_parent-content h parent apart e =
        let path = config.root_cert_chain_path in
        let log = Tls.generate_simple_self_signed [] (w.generate_simple_self_signed [] h) ∷ h in
        elim (Result-cases (x.serialize_pem parent)) [
          | inl (pem, s) ↦ (
            pem,
            s,
            ground (arith, e, s, eq_iff config.parent_key_path path, eq_iff path path, apart),
            ground (arith, e, s, eq_iff config.parent_key_path config.parent_key_path),
          )
          | inr (f, s) ↦ absurd (ground (arith, e, s))
        ]

    pub parent_cert-content :
        (parent : x.Certificate)
        → config.parent_key_path ≢ config.root_cert_chain_path
        → w.try_exists config.root_cert_chain_path [] ≡ ok false
        → (Tls.parent_cert w config []).0 ≡ ok parent
        → (pem : x.Pem) × (x.serialize_pem parent ≡ ok pem)
          × (content config.root_cert_chain_path (Tls.parent_cert w config []).1 ≡ some pem)
          × (content config.parent_key_path (Tls.parent_cert w config []).1
              ≡ some (x.key_pair_pem parent))
    unfolding Tls.parent_cert
    parent_cert-content parent apart missing e =
        let path = config.root_cert_chain_path in
        let log : List (Tls.Event x) = Tls.try_exists path (w.try_exists path []) ∷ [] in
        elim (Bool-cases config.create_if_missing) [
          | inl creates ↦
              let (pem, s, kept, key_kept) =
                create_parent-content log parent apart (ground (arith, e, missing, creates)) in
              (
                pem,
                s,
                ground (arith, e, missing, creates, kept),
                ground (arith, e, missing, creates, key_kept),
              )
          | inr refused ↦ absurd (ground (arith, e, missing, refused))
        ]

    -- A connector that trusts the certificate of a parent alone, as `pem_certs` finds it in the PEM
    -- data of that parent, and an acceptor whose certificate this parent has signed.
    abbrev pub Trusts : (x.Pem → List x.Der) → x.TlsAcceptor → x.TlsConnector → Type 0
    Trusts pem_certs acceptor connector =
        (parent : x.Certificate) × (pem : x.Pem) × (root : x.Der) × (store : x.RootCertStore)
        × (server : x.Certificate) × (server_der : x.Der) × (parent_der : x.Der) × (x.serialize_pem
              parent
            ≡ ok pem)
        × (pem_certs pem ≡ root ∷ [])
        × (x.add_root x.empty_store root ≡ ok store)
        × (connector ≡ x.connector_with_roots store)
        × (x.serialize_der_with_signer server parent ≡ ok server_der)
        × (x.serialize_der parent ≡ ok parent_der)
        × (x.acceptor_with_single_cert (server_der ∷ parent_der ∷ [])
              (x.serialize_private_key_der server)
            ≡ ok acceptor)

    -- Where the server creates its certificate, and its key goes to another file, a client that is
    -- then given the file of the certificate trusts one certificate, that of the parent which has
    -- signed the server's.
    pub new_tls_connector-acceptor :
        (pem_certs : x.Pem → List x.Der) (acceptor : x.TlsAcceptor) (connector : x.TlsConnector)
        → KeepsFiles pem_certs
        → config.parent_key_path ≢ config.root_cert_chain_path
        → w.try_exists config.root_cert_chain_path [] ≡ ok false
        → (Tls.new_tls_acceptor w config []).0 ≡ ok acceptor
        → (Tls.new_tls_connector w
            (some config.root_cert_chain_path)
            (Tls.new_tls_acceptor w config []).1).0
          ≡ ok connector
        → Trusts pem_certs acceptor connector
    unfolding Tls.new_tls_acceptor
    new_tls_connector-acceptor pem_certs acceptor connector keeps apart missing accepts connects =
        let path = config.root_cert_chain_path in
        elim (Result-cases (Tls.parent_cert w config []).0) [
          | inr (f, e) ↦ absurd (ground (arith, e, accepts))
          | inl (parent, e) ↦
              let log = (Tls.parent_cert w config []).1 in
              let (pem, s, kept, key_kept) = parent_cert-content parent apart missing e in
              let (server, server_der, parent_der, signs, sd, pd, built) =
                sign_server_chain w config parent log acceptor (ground (arith, e, accepts)) in
              let later = (Tls.sign_server w config parent log).1 in
              let at_later : (Tls.new_tls_acceptor w config []).1 ≡ later = ground (arith, e) in
              let still : content path later ≡ some pem = ap (content path) signs ∙ kept in
              let (file, root, store, opened, read, added, c) =
                new_tls_connector_trusts_at w path connector later
                  (sym (ap (λ k. (Tls.new_tls_connector w (some path) k).0) at_later) ∙ connects) in
              (
                parent,
                pem,
                root,
                store,
                server,
                server_der,
                parent_der,
                s,
                sym (keeps path pem file (root ∷ []) later still opened read),
                added,
                c,
                sd,
                pd,
                built,
              )
        ]
