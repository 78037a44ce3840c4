-- ===== src/Gcr/Chain/Endless.antt =====
-- When building a chain never ends (gcr/gcr-certificate-chain.c).
use gcr.Shared.{ℕ, zero, suc, ◌≡◌, refl, true, false, Option, some, List, [], ◌∷◌}
use gcr.Gcr.Chain.{Content, Certificate, pkcs11, content_of, is_issuer, Chain, equal_names}
use gcr.Gcr.Chain.Build.{
  answer, Store, no_fuel, has_lookups, perform_build_chain, build_loop, next_certificate,
  pop_certificate, pop_where, pinned_for,
}

-- Issuers without an end: each content's issuer in the store is the next one, none is self-signed, and
-- none an anchor for the purpose.
pub record IsEndless (store : Store) (purpose : Option (List ℕ)) (certs : ℕ → Content)
    : Type 0 where
  pub next_issuer : (n : ℕ) → store.lookup_issuer (certs n) ≡ answer (some (certs (suc n)))
  pub not_selfsigned : (n : ℕ) → equal_names ((certs n).subject_dn) ((certs n).issuer_dn) ≡ false
  pub not_anchored : (n : ℕ) → store.is_certificate_anchored (certs n) purpose ≡ answer false

build_loop_endless :
    (store : Store) (purpose : Option (List ℕ)) (certs : ℕ → Content)
    → IsEndless store purpose certs
    → (fuel n : ℕ) (chain : Chain) (c : Certificate) → content_of c ≡ certs n
    → chain.purpose ≡ purpose
    → build_loop fuel store true chain c [] ≡ no_fuel
unfolding build_loop next_certificate pop_certificate pop_where is_issuer content_of
build_loop_endless store purpose certs h zero n chain c e same = refl
build_loop_endless store purpose certs h (suc fuel) n chain c e same =
    rw
      (
        build_loop,
        is_issuer,
        e,
        h.not_selfsigned n,
        next_certificate,
        pop_certificate,
        pop_where,
        e,
        h.next_issuer n,
        same,
        h.not_anchored (suc n),
      )
      (build_loop_endless store purpose certs h fuel (suc n) _ (pkcs11 (certs (suc n))) refl same)

-- The build of a chain of one certificate, with lookups and without a pinned certificate for a peer, ends
-- with no amount of fuel where the store has issuers without an end for it. Two certificates that issued
-- each other are enough: the loop never asks whether the chain has a certificate already.
pub perform_build_chain_endless :
    (store : Store) (chain : Chain) (c : Certificate) (certs : ℕ → Content) (fuel : ℕ)
    → IsEndless store (chain.purpose) certs
    → chain.certificates ≡ c ∷ []
    → content_of c ≡ certs 0
    → has_lookups (chain.flags) ≡ true
    → pinned_for store chain c (chain.peer) ≡ answer false
    → perform_build_chain fuel store chain ≡ no_fuel
unfolding perform_build_chain pop_certificate pop_where
perform_build_chain_endless store chain c certs fuel h one e lookups no_pin =
    rw (perform_build_chain, pop_certificate, one, lookups, no_pin, lookups)
      (build_loop_endless store (chain.purpose) certs h fuel 0 _ c e refl)
