-- ===== src/Tls/Restart.antt =====
-- A server that has created its certificate and is started again: upgrade2webrtc/src/tls.rs.
use Prim.Native.String.{String}
use mangle_webrtc.Common.{
  ◌≡◌, ◌≢◌, sym, ap, ◌∙◌, Bool, true, false, some, List, [], ◌∷◌, Result, ok, Result-cases, inl,
  inr, arith,
}
use mangle_webrtc.Tls
use mangle_webrtc.Tls.Trust.{content, KeepsFiles, parent_cert-content}
use mangle_webrtc.Tls.Chain.{sign_server_chain}
use mangle_webrtc.Tls.Loaded.{load_parent-Loaded}

module _ {x : Tls.Externals} (w : Tls.World x) (config : Tls.TlsServerConfig) where
  -- The private keys that `rustls_pemfile` finds in a file are those in what was written to it.
  abbrev pub KeepsKeys : (x.Pem → List x.Der) → Type 0
  KeepsKeys pem_keys =
      (path : String) (pem : x.Pem) (file : x.File) (found : List x.Der) (h : List (Tls.Event x))
      → content path h ≡ some pem
      → w.open_file path h ≡ ok file
      → w.pkcs8_private_keys file (Tls.open_file path (ok file) ∷ h) ≡ ok found
      → found ≡ pem_keys pem

  -- A file that was written to exists.
  abbrev pub KeepsExisting : Type 0
  KeepsExisting =
      (path : String) (pem : x.Pem) (answer : Bool) (h : List (Tls.Event x))
      → content path h ≡ some pem
      → w.try_exists path h ≡ ok answer
      → answer ≡ true

  -- An acceptor whose parent is made of the key in `key_pem` and the last certificate in `pem`.
  abbrev pub MadeOf :
      (x.Pem → List x.Der)
      → (x.Pem → List x.Der)
      → x.Pem
      → x.Pem
      → Result (Tls.TlsInitError x) x.TlsAcceptor × List (Tls.Event x)
      → Type 0
  MadeOf pem_certs pem_keys pem key_pem run =
      (key : x.Der) × (root : x.Der) × (key_pair : x.KeyPair) × (params : x.CertificateParams)
      × (parent : x.Certificate) × (h : List (Tls.Event x)) × (pem_keys key_pem ≡ key ∷ [])
      × (Tls.last (pem_certs pem) ≡ some root)
      × (x.key_pair_from_der key ≡ ok key_pair)
      × (x.from_ca_cert_der root key_pair ≡ ok params)
      × (x.from_params params ≡ ok parent)
      × (Tls.sign_server w config parent h ≡ run)

  -- An acceptor from files that exist.
  new_tls_acceptor-MadeOf :
      (pem_certs pem_keys : x.Pem → List x.Der) (pem key_pem : x.Pem) (a : x.TlsAcceptor)
      (h : List (Tls.Event x))
      → KeepsFiles w pem_certs
      → KeepsKeys pem_keys
      → KeepsExisting
      → content config.root_cert_chain_path h ≡ some pem
      → content config.parent_key_path h ≡ some key_pem
      → (Tls.new_tls_acceptor w config h).0 ≡ ok a
      → MadeOf pem_certs pem_keys pem key_pem (Tls.new_tls_acceptor w config h)
  unfolding Tls.new_tls_acceptor Tls.parent_cert
  new_tls_acceptor-MadeOf pem_certs pem_keys pem key_pem a h certs_kept keys_kept exists kept
        key_kept e =
      let path = config.root_cert_chain_path in
      elim (Result-cases (w.try_exists path h)) [
        | inr (f, t) ↦ absurd (ground (arith, e, t))
        | inl (b, t) ↦
            let there : w.try_exists path h ≡ ok true =
              t ∙ ap (λ b. ok b) (exists path pem b h kept t) in
            let k : List (Tls.Event x) = Tls.try_exists path (ok true) ∷ h in
            elim (Result-cases (Tls.load_parent w config k).0) [
              | inr (f, l) ↦ absurd (ground (arith, e, there, l))
              | inl (parent, l) ↦
                  let o = load_parent-Loaded w config k parent l in
                  (
                    o.key,
                    o.root,
                    o.key_pair,
                    o.params,
                    parent,
                    (Tls.load_parent w config k).1,
                    sym (
                        keys_kept config.parent_key_path key_pem o.key_file (o.key ∷ []) k key_kept
                          o.key_opened o.key_read),
                    ap Tls.last (
                          sym (
                            certs_kept path pem o.cert_file o.certs _ kept o.cert_opened
                              o.cert_read))
                        ∙ o.last_read,
                    o.paired,
                    o.signed,
                    o.made,
                    ground (arith, there, l),
                  )
            ]
      ]

  -- Where files keep what is written to them, the key and the certificate have different paths, and
  -- the certificate is missing at first: if the server makes its acceptor, and is started again on the
  -- files that it wrote and makes another, the first is signed by a parent that the server created,
  -- and the second by a parent that is made of the only private key in the file of this parent's key
  -- and of the last certificate in the file of its certificate.
  pub new_tls_acceptor-again :
      (pem_certs pem_keys : x.Pem → List x.Der) (acceptor again : x.TlsAcceptor)
      → KeepsFiles w pem_certs
      → KeepsKeys pem_keys
      → KeepsExisting
      → config.parent_key_path ≢ config.root_cert_chain_path
      → w.try_exists config.root_cert_chain_path [] ≡ ok false
      → (Tls.new_tls_acceptor w config []).0 ≡ ok acceptor
      → let log = (Tls.new_tls_acceptor w config []).1 in
        (Tls.new_tls_acceptor w config log).0 ≡ ok again
        → (first : x.Certificate) × (pem : x.Pem) × ((Tls.sign_server w config first
              (Tls.parent_cert w config []).1).0
            ≡ ok acceptor)
          × (x.serialize_pem first ≡ ok pem)
          × MadeOf pem_certs pem_keys pem (x.key_pair_pem first) (Tls.new_tls_acceptor w config log)
  unfolding Tls.new_tls_acceptor
  new_tls_acceptor-again pem_certs pem_keys acceptor again certs_kept keys_kept exists apart missing
        accepts accepts_again =
      elim (Result-cases (Tls.parent_cert w config []).0) [
        | inr (f, e) ↦ absurd (ground (arith, e, accepts))
        | inl (first, e) ↦
            let log = (Tls.parent_cert w config []).1 in
            let (pem, s, kept, key_kept) = parent_cert-content w config first apart missing e in
            let signed : (Tls.sign_server w config first log).0 ≡ ok acceptor =
              ground (arith, e, accepts) in
            let (server, server_der, parent_der, signs, sd, pd, built) =
              sign_server_chain w config first log acceptor signed in
            let at_later : (Tls.new_tls_acceptor w config []).1
                ≡ (Tls.sign_server w config first log).1 =
              ground (arith, e) in
            (
              first,
              pem,
              signed,
              s,
              new_tls_acceptor-MadeOf pem_certs pem_keys pem (x.key_pair_pem first) again _
                  certs_kept keys_kept exists
                  (ap (content config.root_cert_chain_path) (at_later ∙ signs) ∙ kept)
                  (ap (content config.parent_key_path) (at_later ∙ signs) ∙ key_kept) accepts_again,
            )
      ]
