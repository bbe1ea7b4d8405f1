-- ===== src/Verify.antt =====
-- src/skip_verify.rs: the certificate verifier that accepts everything, and which connections use
-- it (`_tls_handshake` of src/client.rs).
use httptrace.Prelude.{List, [], ◌∷◌, Result, ok}

-- The schemes of `rustls::SignatureScheme` that the verifier names.
pub data SignatureScheme : Type 0 where
  rsa_pkcs1_sha256 rsa_pkcs1_sha384 rsa_pkcs1_sha512 : SignatureScheme
  ecdsa_nistp256_sha256 ecdsa_nistp384_sha384 ecdsa_nistp521_sha512 : SignatureScheme
  rsa_pss_sha256 rsa_pss_sha384 rsa_pss_sha512 : SignatureScheme
  ed25519 ed448 : SignatureScheme

-- A verifier: its answers on a server's certificate and on the two kinds of signature.
pub record Verifier (Cert Signed E : Type 0) : Type 0 where
  pub verify_server_cert : Cert → Result (Unit {0}) E
  pub verify_tls12_signature : Signed → Result (Unit {0}) E
  pub verify_tls13_signature : Signed → Result (Unit {0}) E
  pub supported_verify_schemes : List SignatureScheme

module _ {Cert Signed E : Type 0} where
  unfoldable pub skip_verifier : Verifier Cert Signed E
  skip_verifier = record {
    verify_server_cert = λ _. ok tt;
    verify_tls12_signature = λ _. ok tt;
    verify_tls13_signature = λ _. ok tt;
    supported_verify_schemes =
        rsa_pkcs1_sha256 ∷ rsa_pkcs1_sha384 ∷ rsa_pkcs1_sha512 ∷ ecdsa_nistp256_sha256
        ∷ ecdsa_nistp384_sha384 ∷ ecdsa_nistp521_sha512 ∷ rsa_pss_sha256 ∷ rsa_pss_sha384
        ∷ rsa_pss_sha512 ∷ ed25519 ∷ ed448 ∷ [];
  }
