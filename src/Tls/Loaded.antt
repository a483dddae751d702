-- ===== src/Tls/Loaded.antt =====
-- The parent of a certificate that `load_parent` of upgrade2webrtc/src/tls.rs reads from two files.
use mangle_webrtc.Common.{◌≡◌, some, List, [], ◌∷◌, ok, Result-cases, Option-cases, inl, inr, arith}
use mangle_webrtc.Tls

module _ {x : Tls.Externals} (w : Tls.World x) (config : Tls.TlsServerConfig) where
  -- The parent that is loaded is the one of the only key and the last certificate in the files.
  pub record Loaded (h : List (Tls.Event x)) (parent : x.Certificate) : Type 0 where
    pub key_file : x.File
    pub cert_file : x.File
    pub key : x.Der
    pub certs : List x.Der
    pub root : x.Der
    pub key_pair : x.KeyPair
    pub params : x.CertificateParams
    pub key_opened : w.open_file config.parent_key_path h ≡ ok key_file
    pub key_read :
        w.pkcs8_private_keys key_file (Tls.open_file config.parent_key_path (ok key_file) ∷ h)
        ≡ ok (key ∷ [])
    pub cert_opened :
        let k =
          Tls.pkcs8_private_keys key_file (ok (key ∷ []))
          ∷ Tls.open_file config.parent_key_path (ok key_file)
          ∷ h in
        w.open_file config.root_cert_chain_path k ≡ ok cert_file
    pub cert_read :
        let k =
          Tls.open_file config.root_cert_chain_path (ok cert_file)
          ∷ Tls.pkcs8_private_keys key_file (ok (key ∷ []))
          ∷ Tls.open_file config.parent_key_path (ok key_file)
          ∷ h in
        w.certs cert_file k ≡ ok certs
    pub last_read : Tls.last certs ≡ some root
    pub paired : x.key_pair_from_der key ≡ ok key_pair
    pub signed : x.from_ca_cert_der root key_pair ≡ ok params
    pub made : x.from_params params ≡ ok parent

  load_cert-Loaded :
      (h : List (Tls.Event x)) (parent : x.Certificate) (key_file : x.File) (key : x.Der)
      (key_pair : x.KeyPair)
      → (Tls.load_parent w config h).0 ≡ ok parent
      → w.open_file config.parent_key_path h ≡ ok key_file
      → w.pkcs8_private_keys key_file (Tls.open_file config.parent_key_path (ok key_file) ∷ h)
        ≡ ok (key ∷ [])
      → x.key_pair_from_der key ≡ ok key_pair
      → Loaded h parent
  unfolding Tls.load_parent Tls.single_key Tls.last_cert
  load_cert-Loaded h parent key_file key key_pair e o k p =
      let keys_read : List (Tls.Event x) =
        Tls.pkcs8_private_keys key_file (ok (key ∷ []))
        ∷ Tls.open_file config.parent_key_path (ok key_file)
        ∷ h in
      elim (Result-cases (w.open_file config.root_cert_chain_path keys_read)) [
        | inr (f, c) ↦ absurd (ground (arith, e, o, k, p, c))
        | inl (cert_file, c) ↦
            let opened : List (Tls.Event x) =
              Tls.open_file config.root_cert_chain_path (ok cert_file) ∷ keys_read in
            elim (Result-cases (w.certs cert_file opened)) [
              | inr (f, d) ↦ absurd (ground (arith, e, o, k, p, c, d))
              | inl (certs, d) ↦ elim (Option-cases (Tls.last certs)) [
                | inl l ↦ absurd (ground (arith, e, o, k, p, c, d, l))
                | inr (root, l) ↦ elim (Result-cases (x.from_ca_cert_der root key_pair)) [
                  | inr (f, s) ↦ absurd (ground (arith, e, o, k, p, c, d, l, s))
                  | inl (params, s) ↦ record {
                    key_file = key_file;
                    cert_file = cert_file;
                    key = key;
                    certs = certs;
                    root = root;
                    key_pair = key_pair;
                    params = params;
                    key_opened = o;
                    key_read = k;
                    cert_opened = c;
                    cert_read = d;
                    last_read = l;
                    paired = p;
                    signed = s;
                    made = ground (arith, e, o, k, p, c, d, l, s);
                  }
                ]
              ]
            ]
      ]

  pub load_parent-Loaded :
      (h : List (Tls.Event x)) (parent : x.Certificate)
      → (Tls.load_parent w config h).0 ≡ ok parent
      → Loaded h parent
  unfolding Tls.load_parent Tls.single_key Tls.last_cert
  load_parent-Loaded h parent e = elim (Result-cases (w.open_file config.parent_key_path h)) [
    | inr (f, o) ↦ absurd (ground (arith, e, o))
    | inl (key_file, o) ↦
        let h1 : List (Tls.Event x) = Tls.open_file config.parent_key_path (ok key_file) ∷ h in
        elim (Result-cases (w.pkcs8_private_keys key_file h1)) [
          | inr (f, k) ↦ absurd (ground (arith, e, o, k))
          | inl ([], k) ↦ absurd (ground (arith, e, o, k))
          | inl (a ∷ b ∷ keys, k) ↦ absurd (ground (arith, e, o, k))
          | inl (key ∷ [], k) ↦ elim (Result-cases (x.key_pair_from_der key)) [
            | inr (f, p) ↦ absurd (ground (arith, e, o, k, p))
            | inl (key_pair, p) ↦ load_cert-Loaded h parent key_file key key_pair e o k p
          ]
        ]
  ]
