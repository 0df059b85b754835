-- ===== src/Dtls/Credentials/Examples.antt =====
-- Two chains, and a source without a whole certificate. See DTLS/dtls_credentials_manager.cpp.
use helpz.Prelude.{ℕ, ◌≡◌, refl, Bool, none, some, List, [], ◌∷◌, ◌==◌}
use helpz.Dtls.Credentials.{CertificateInfo, credentials, cert_chain, private_key_for}
use helpz.Dtls.Credentials.Keys.{cert_chain-private_key_for, no_certs_faults}

abbrev same_number : ℕ → ℕ → Bool
same_number cert host = cert == host

abbrev two_chains : List CertificateInfo
two_chains =
    record { key = 1; algo_name = 8; certs = 10 ∷ (11 ∷ []) }
    ∷ (record { key = 2; algo_name = 8; certs = 20 ∷ [] } ∷ [])

second_chain : cert_chain same_number (8 ∷ []) (some 20) two_chains ≡ some (20 ∷ [])
unfolding cert_chain
second_chain = refl

key_of_second_chain : (key : ℕ) × (private_key_for 20 two_chains ≡ some (some key))
key_of_second_chain =
    cert_chain-private_key_for same_number (8 ∷ []) (some 20) two_chains 20 [] (refl, (refl, tt))
      second_chain

broken_source :
    (cert_chain same_number (8 ∷ []) (some 20) (credentials 1 8 (none ∷ [])) ≡ none)
    × (private_key_for 5 (credentials 1 8 (none ∷ [])) ≡ none)
unfolding helpz.Dtls.Credentials.read_certs
broken_source = no_certs_faults same_number 1 8 (none ∷ []) (8 ∷ []) 20 5 refl refl
