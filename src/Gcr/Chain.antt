-- ===== src/Gcr/Chain.antt =====
-- GcrCertificateChain (gcr/gcr-certificate-chain.c): its state, what it is asked, and the copies that a
-- build takes. A certificate stands for its DER data, which it always has, and for the two names in it.
pub mod Build
pub mod Pop
pub mod Loop
pub mod Async
pub mod Links
pub mod Shape
pub mod Endless
pub mod Termination
use gcr.Shared.{
  ℕ, Bool, true, false, Option, none, some, List, [], ◌∷◌, ◌++◌, map, length, get_elem?, same_bytes,
}

-- What the DER data of a certificate holds: the names are there where it can be decoded.
pub record Content : Type 0 where
  pub der : List ℕ
  pub subject_dn : Option (List ℕ)
  pub issuer_dn : Option (List ℕ)

-- The classes of certificates that the chain tells apart. A `safe_copy` is a simple certificate of the
-- same DER data with the original certificate set on it.
pub data Certificate : Type 0 where
  simple : Content → Certificate
  pkcs11 : Content → Certificate
  other : Content → Certificate
  safe_copy : Certificate → Certificate

unfoldable pub content_of : Certificate → Content
content_of (simple c) = c
content_of (pkcs11 c) = c
content_of (other c) = c
content_of (safe_copy c) = content_of c

abbrev pub equal_names : Option (List ℕ) → Option (List ℕ) → Bool
equal_names (some subject_dn) (some issuer_dn) = same_bytes subject_dn issuer_dn
equal_names _ _ = false

-- Whether `issuer` has the name that the issuer of `self` has.
unfoldable pub is_issuer : Certificate → Certificate → Bool
is_issuer self issuer = equal_names ((content_of issuer).subject_dn) ((content_of self).issuer_dn)

pub data Status : Type 0 where
  unknown : Status
  incomplete : Status
  distrusted : Status
  selfsigned : Status
  pinned : Status
  anchored : Status

pub record Chain : Type 0 where
  pub certificates : List Certificate
  pub status : Status
  pub purpose : Option (List ℕ)
  pub peer : Option (List ℕ)
  pub flags : ℕ

abbrev pub new_chain : Chain
new_chain = record { certificates = []; status = unknown; purpose = none; peer = none; flags = 0 }

unfoldable pub add : Certificate → Chain → Chain
add certificate chain = record chain {
  certificates = chain.certificates ++ certificate ∷ [];
  status = unknown;
}

-- The last of the certificates, and the first.
abbrev pub last : Certificate → List Certificate → Certificate
last c [] = c
last c (d ∷ ds) = last d ds

-- An anchored chain without certificates would stop at the assertion.
unfoldable pub get_anchor : Chain → Option Certificate
get_anchor chain = elim (chain.status) [
  | anchored ↦ elim (chain.certificates) [ [] ↦ none | ◌∷◌ c cs ↦ some (last c cs) ]
  | _ ↦ none
]

unfoldable pub get_endpoint : Chain → Option Certificate
get_endpoint chain = get_elem? (chain.certificates) 0

unfoldable pub get_length : Chain → ℕ
get_length chain = length (chain.certificates)

unfoldable pub get_certificate : Chain → ℕ → Option Certificate
get_certificate chain index = get_elem? (chain.certificates) index

unfoldable pub prep_chain : Chain → List ℕ → Option (List ℕ) → ℕ → Chain
prep_chain orig purpose peer flags = record {
  certificates = orig.certificates;
  status = orig.status;
  purpose = some purpose;
  peer = peer;
  flags = flags;
}

-- Certificates of the library's own two classes are shared, the others copied.
unfoldable pub safe : Certificate → Certificate
safe (simple c) = simple c
safe (pkcs11 c) = pkcs11 c
safe (other c) = safe_copy (other c)
safe (safe_copy c) = safe_copy c

unfoldable pub prep_chain_thread_safe : Chain → List ℕ → Option (List ℕ) → ℕ → Chain
prep_chain_thread_safe orig purpose peer flags =
    let chain = prep_chain orig purpose peer flags in
    record chain { certificates = map safe (chain.certificates) }

unfoldable pub original : Certificate → Certificate
original (safe_copy c) = c
original c = c

unfoldable pub cleanup_chain : Chain → Chain
cleanup_chain chain = record chain { certificates = map original (chain.certificates) }
