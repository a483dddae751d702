-- ===== src/Tls/Chain.antt =====
-- Which certificates the TLS configurations are built of.
use Prim.Native.String.{String}
use mangle_webrtc.Common.{◌≡◌, some, List, [], ◌∷◌, ok, Result-cases, inl, inr, arith}
use mangle_webrtc.Tls

module _ {x : Tls.Externals} (w : Tls.World x) where
  -- An acceptor presents a certificate that was generated for the configured names and signed by
  -- the parent, and the parent's own certificate behind it; its key is that of the former.
  pub sign_server_chain :
      (config : Tls.TlsServerConfig) (parent : x.Certificate) (h : List (Tls.Event x))
      (a : x.TlsAcceptor)
      → (Tls.sign_server w config parent h).0 ≡ ok a
      → (server : x.Certificate) × (server_der : x.Der) × (parent_der : x.Der) × ((Tls.sign_server w
            config parent h).1
          ≡ Tls.generate_simple_self_signed config.subject_alt_names (ok server) ∷ h)
        × (x.serialize_der_with_signer server parent ≡ ok server_der)
        × (x.serialize_der parent ≡ ok parent_der)
        × (x.acceptor_with_single_cert
              (server_der ∷ parent_der ∷ [])
              (x.serialize_private_key_der server)
            ≡ ok a)
  unfolding Tls.sign_server
  sign_server_chain config parent h a e =
      elim (Result-cases (w.generate_simple_self_signed config.subject_alt_names h)) [
        | inl (server, g) ↦ elim (Result-cases (x.serialize_der_with_signer server parent)) [
          | inl (server_der, s) ↦ elim (Result-cases (x.serialize_der parent)) [
            | inl (parent_der, d) ↦ (
              server,
              server_der,
              parent_der,
              ground (arith, g, s, d),
              s,
              d,
              ground (arith, g, s, d),
            )
            | inr (f, d) ↦ absurd (ground (arith, g, s, d))
          ]
          | inr (f, s) ↦ absurd (ground (arith, g, s))
        ]
        | inr (f, g) ↦ absurd (ground (arith, g))
      ]

  pub new_tls_connector_trusts_at :
      (path : String) (c : x.TlsConnector) (h : List (Tls.Event x))
      → (Tls.new_tls_connector w (some path) h).0 ≡ ok c
      → (file : x.File) × (root : x.Der) × (store : x.RootCertStore) × (w.open_file path h
          ≡ ok file)
        × (w.certs file (Tls.open_file path (ok file) ∷ h) ≡ ok (root ∷ []))
        × (x.add_root x.empty_store root ≡ ok store)
        × (c ≡ x.connector_with_roots store)
  unfolding Tls.new_tls_connector Tls.root_store Tls.single_root
  new_tls_connector_trusts_at path c h e = elim (Result-cases (w.open_file path h)) [
    | inl (file, opened) ↦ elim (Result-cases (w.certs file (Tls.open_file path (ok file) ∷ h))) [
      | inl (root ∷ [], read) ↦ elim (Result-cases (x.add_root x.empty_store root)) [
        | inl (store, added) ↦
            (file, root, store, opened, read, added, ground (arith, opened, read, added))
        | inr (f, added) ↦ absurd (ground (arith, opened, read, added))
      ]
      | inl ([], read) ↦ absurd (ground (arith, opened, read))
      | inl (a ∷ b ∷ rest, read) ↦ absurd (ground (arith, opened, read))
      | inr (f, read) ↦ absurd (ground (arith, opened, read))
    ]
    | inr (f, opened) ↦ absurd (ground (arith, opened))
  ]

  -- A connector that is given a path trusts one certificate, the only one in the file at that path.
  pub new_tls_connector_trusts :
      (path : String) (c : x.TlsConnector)
      → (Tls.new_tls_connector w (some path) []).0 ≡ ok c
      → (file : x.File) × (root : x.Der) × (store : x.RootCertStore) × (w.open_file path []
          ≡ ok file)
        × (w.certs file (Tls.open_file path (ok file) ∷ []) ≡ ok (root ∷ []))
        × (x.add_root x.empty_store root ≡ ok store)
        × (c ≡ x.connector_with_roots store)
  new_tls_connector_trusts path c e = new_tls_connector_trusts_at path c [] e
