-- ===== src/Dtls/Credentials.antt =====
-- `Credentials_Manager` in DTLS/dtls_credentials_manager.h and dtls_credentials_manager.cpp. Keys,
-- certificates, algorithms and certificate stores are numbers; the test of a host name is a parameter.
mod Keys
mod Examples
use helpz.Prelude.{
  ℕ, ◌≡◌, Bool, true, false, not, ◌&&◌, ◌||◌, Option, none, some, List, [], ◌∷◌, ◌++◌, ◌==◌,
  if◌then◌else◌,
}

-- `Certificate_Info`, with the algorithm of the key.
pub record CertificateInfo : Type 0 where
  pub key : ℕ
  pub algo_name : ℕ
  pub certs : List ℕ

abbrev pub contains_algo : ℕ → List ℕ → Bool
contains_algo a [] = false
contains_algo a (b ∷ bs) = (b == a) || contains_algo a bs

-- The certificates that are read from a source: those that are broken are left out.
unfoldable pub read_certs : List (Option ℕ) → List ℕ
read_certs [] = []
read_certs (none ∷ source) = read_certs source
read_certs (some cert ∷ source) = cert ∷ read_certs source

-- The constructor with a certificate and a key.
unfoldable pub credentials : ℕ → ℕ → List (Option ℕ) → List CertificateInfo
unfolding read_certs
credentials key algo_name source =
    record { key = key; algo_name = algo_name; certs = read_certs source } ∷ []

-- `trusted_certificate_authorities`: a server asks for no certificates of clients.
unfoldable pub trusted_certificate_authorities : Bool → List ℕ → List ℕ
trusted_certificate_authorities is_server certstores = if is_server then [] else certstores

-- `certs[0].matches_dns_name(hostname)`, with no test without a host name; `none` is a read of what is
-- not there.
abbrev pub fits : (ℕ → ℕ → Bool) → Option ℕ → List ℕ → Option Bool
fits matches none certs = some true
fits matches (some host) [] = none
fits matches (some host) (cert ∷ certs) = some (matches cert host)

module _ (matches : ℕ → ℕ → Bool) where
  -- `cert_chain`. A host name of `none` is empty. `none` as the result is a fault.
  unfoldable pub cert_chain : List ℕ → Option ℕ → List CertificateInfo → Option (List ℕ)
  cert_chain algos hostname [] = some []
  cert_chain algos hostname (i ∷ creds) = elim (contains_algo i.algo_name algos) [
    | false ↦ cert_chain algos hostname creds
    | true ↦ elim (fits matches hostname i.certs) [
      | none ↦ none
      | some true ↦ some i.certs
      | some false ↦ cert_chain algos hostname creds
    ]
  ]

-- `private_key_for`: the inner `none` is a null pointer, the outer one a fault.
unfoldable pub private_key_for : ℕ → List CertificateInfo → Option (Option ℕ)
private_key_for cert [] = some none
private_key_for cert (i ∷ creds) = elim i.certs [
  | [] ↦ none
  | first ∷ certs ↦ elim (cert == first) [
    | true ↦ some (some i.key)
    | false ↦ private_key_for cert creds
  ]
]
