-- ===== src/Dtls/Credentials/Keys.antt =====
-- The keys of the chains that are given, and a manager without certificates. See
-- DTLS/dtls_credentials_manager.cpp.
use helpz.Prelude.{
  ℕ, ◌≡◌, refl, Bool, true, false, Option, none, some, List, [], ◌∷◌, ◌==◌, arith, All, Bool-cases,
  Option-cases, inl, inr,
}
use helpz.Database.Text.{is_empty}
use helpz.Dtls.Credentials.{
  CertificateInfo, contains_algo, fits, read_certs, credentials, cert_chain, private_key_for,
}

-- No chain is empty.
abbrev pub AllFilled : List CertificateInfo → Type 0
AllFilled creds = All (λ (i : CertificateInfo). is_empty i.certs ≡ false) creds

filled_cons : (l : List ℕ) → is_empty l ≡ false → (c : ℕ) × (cs : List ℕ) × (l ≡ c ∷ cs)
filled_cons [] h = absurd (cc)
filled_cons (c ∷ cs) h = (c, cs, refl)

private_key-cons :
    (cert : ℕ) (i : CertificateInfo) (creds : List CertificateInfo)
    → is_empty i.certs ≡ false
    → (key : ℕ) × (private_key_for cert creds ≡ some (some key))
    → (key : ℕ) × (private_key_for cert (i ∷ creds) ≡ some (some key))
unfolding private_key_for
private_key-cons cert i creds filled (key, found) =
    let (first, certs, e) = filled_cons i.certs filled in
    elim (Bool-cases (cert == first)) [
      | inl same ↦ (i.key, ground (arith, e, same))
      | inr other ↦ (key, ground (arith, e, other, found))
    ]

private_key-first :
    (cert : ℕ) (certs : List ℕ) (i : CertificateInfo) (creds : List CertificateInfo)
    → i.certs ≡ cert ∷ certs
    → private_key_for cert (i ∷ creds) ≡ some (some i.key)
unfolding private_key_for
private_key-first cert certs i creds e = ground (arith, e)

module _ (matches : ℕ → ℕ → Bool) where
  -- The first certificate of a chain that `cert_chain` gives has a private key. No chain of the manager
  -- is empty.
  pub cert_chain-private_key_for :
      (algos : List ℕ) (hostname : Option ℕ) (creds : List CertificateInfo) (cert : ℕ)
      (certs : List ℕ)
      → AllFilled creds
      → cert_chain matches algos hostname creds ≡ some (cert ∷ certs)
      → (key : ℕ) × (private_key_for cert creds ≡ some (some key))
  unfolding cert_chain
  cert_chain-private_key_for algos hostname [] cert certs filled h = absurd (cc)
  cert_chain-private_key_for algos hostname (i ∷ creds) cert certs (filled, rest) h =
      elim (Bool-cases (contains_algo i.algo_name algos)) [
        | inl wanted ↦ elim (Option-cases (fits matches hostname i.certs)) [
          | inl faults ↦ absurd (ground (arith, wanted, faults, h))
          | inr (true, takes) ↦
              (i.key, private_key-first cert certs i creds (ground (arith, wanted, takes, h)))
          | inr (false, passes) ↦ private_key-cons cert i creds filled (
              cert_chain-private_key_for algos hostname creds cert certs rest
                (ground (arith, wanted, passes, h)))
        ]
        | inr unwanted ↦ private_key-cons cert i creds filled (
            cert_chain-private_key_for algos hostname creds cert certs rest
              (ground (arith, unwanted, h)))
      ]

  -- A manager that was made of a source in which no certificate is whole faults, for whatever
  -- certificate a key is asked for, and when a chain is asked for with the algorithm of its key and
  -- a host name.
  pub no_certs_faults :
      (key algo_name : ℕ) (source : List (Option ℕ)) (algos : List ℕ) (host cert : ℕ)
      → read_certs source ≡ []
      → contains_algo algo_name algos ≡ true
      → (cert_chain matches algos (some host) (credentials key algo_name source) ≡ none)
        × (private_key_for cert (credentials key algo_name source) ≡ none)
  unfolding cert_chain private_key_for credentials
  no_certs_faults key algo_name source algos host cert broken wanted =
      (ground (arith, broken, wanted), ground (arith, broken))
