-- ===== src/Tls/Files.antt =====
-- Which files the TLS configuration of a server writes, and when.
use Prim.Native.String.{String}
use mangle_webrtc.Common.{Bool, false, Option, none, some, List, [], ◌∷◌, ok}
use mangle_webrtc.Tls

-- The paths that were written to, the newest first; a write that fails counts too.
abbrev pub written : {x : Tls.Externals} → List (Tls.Event x) → List String
written [] = []
written (Tls.write_file path pem r ∷ log) = path ∷ written log
written (_ ∷ log) = written log

-- What `try_exists` answered.
abbrev pub existed : {x : Tls.Externals} → List (Tls.Event x) → Option Bool
existed [] = none
existed (Tls.try_exists path (ok b) ∷ log) = some b
existed (_ ∷ log) = existed log

-- What a successful run writes, by what `try_exists` answered: nothing, or first the certificate
-- and then its key.
abbrev pub written_paths : Tls.TlsServerConfig → Option Bool → List String
written_paths config (some false) = config.parent_key_path ∷ config.root_cert_chain_path ∷ []
written_paths config _ = []
