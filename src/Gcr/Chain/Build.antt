-- ===== src/Gcr/Chain/Build.antt =====
-- Building a chain: `perform_build_chain` of gcr/gcr-certificate-chain.c and the three operations that
-- call it. What the PKCS#11 modules of the system answer, by way of gcr/gcr-trust.c and
-- gcr/gcr-pkcs11-certificate.c, is the record `Store`: they search by the DER data, the purpose and the
-- peer, and by the issuer's name. Their answers do not change while a chain is built.
use mathlib.Core.Option
use gcr.Shared.{
  ℕ, zero, suc, bit_and, Bool, true, false, not, ◌==◌, if◌then◌else◌, Option, none, some, List, [],
  ◌∷◌, ◌++◌,
}
use gcr.Gcr.Chain.{
  Content, Certificate, pkcs11, content_of, is_issuer, Status, unknown, incomplete, selfsigned,
  pinned, anchored, Chain, last, prep_chain, prep_chain_thread_safe, cleanup_chain,
}

-- The answer to a search, or the error that stopped it.
pub data Lookup {ℓ} (A : Type ℓ) : Type ℓ where
  error : Lookup A
  answer : A → Lookup A

-- An issuer that is found is a new GcrPkcs11Certificate.
pub record Store : Type 0 where
  pub is_certificate_pinned : Content → Option (List ℕ) → List ℕ → Lookup Bool
  pub is_certificate_anchored : Content → Option (List ℕ) → Lookup Bool
  pub lookup_issuer : Content → Lookup (Option Content)

-- `g_ptr_array_remove_index_fast`: the last element takes the place of the one that is removed, given
-- here what stands behind that one.
abbrev pub but_last : Certificate → List Certificate → List Certificate
but_last c [] = []
but_last c (d ∷ ds) = c ∷ but_last d ds

abbrev pub fill_hole : List Certificate → List Certificate
fill_hole [] = []
fill_hole (c ∷ cs) = last c cs ∷ but_last c cs

-- The loop over the array, for any test.
unfoldable pub pop_where :
    (Certificate → Bool) → List Certificate → Option (Certificate × List Certificate)
pop_where test [] = none
pop_where test (c ∷ cs) =
    let later = Option.map (λ found. (found.0, c ∷ found.1)) (pop_where test cs) in
    if test c then some (c, fill_hole cs) else later

abbrev pub issues : Option Certificate → Certificate → Bool
issues none certificate = true
issues (some issued) certificate = is_issuer issued certificate

unfoldable pub pop_certificate :
    List Certificate → Option Certificate → Option (Certificate × List Certificate)
pop_certificate certificates issued = pop_where (issues issued) certificates

-- An issuer from the input, or else one that is looked up.
unfoldable pub next_certificate :
    Store → Bool → Certificate → List Certificate → Lookup (Option (Certificate × List Certificate))
next_certificate store lookups issued input = elim (pop_certificate input (some issued)) [
  | some popped ↦ answer (some popped)
  | none ↦ elim lookups [
    | false ↦ answer none
    | true ↦ elim (store.lookup_issuer (content_of issued)) [
      | error ↦ error
      | answer none ↦ answer none
      | answer (some issuer) ↦ answer (some (pkcs11 issuer, input))
    ]
  ]
]

-- A search that only some flags ask for.
abbrev pub asked : Bool → Lookup Bool → Lookup Bool
asked true found = found
asked false found = answer false

-- The chain, the error after which it is given up, or the end of the fuel.
pub data Built : Type 0 where
  failed : Built
  no_fuel : Built
  built : Chain → Built

abbrev pub ended : Status → Chain → Built
ended status chain = built (record chain { status = status })

abbrev pub append_certificate : Certificate → Chain → Chain
append_certificate certificate chain = record chain {
  certificates = chain.certificates ++ certificate ∷ [];
}

-- The loop, in a chain whose last certificate is `certificate`.
unfoldable pub build_loop : ℕ → Store → Bool → Chain → Certificate → List Certificate → Built
build_loop zero store lookups chain certificate input = no_fuel
build_loop (suc fuel) store lookups chain certificate input =
    elim (is_issuer certificate certificate) [
      | true ↦ ended selfsigned chain
      | false ↦ elim (next_certificate store lookups certificate input) [
        | error ↦ failed
        | answer none ↦ ended incomplete chain
        | answer (some (next, rest)) ↦
            elim (asked lookups (store.is_certificate_anchored (content_of next) (chain.purpose))) [
              | error ↦ failed
              | answer true ↦ ended anchored (append_certificate next chain)
              | answer false ↦
                  build_loop fuel store lookups (append_certificate next chain) next rest
            ]
      ]
    ]

-- Whether the flag GCR_CERTIFICATE_CHAIN_NO_LOOKUPS is not set.
abbrev pub has_lookups : ℕ → Bool
has_lookups flags = not (bit_and flags 1 == 1)

-- Whether the first certificate is pinned for the peer, where there is one.
abbrev pub pinned_for : Store → Chain → Certificate → Option (List ℕ) → Lookup Bool
pinned_for store chain certificate none = answer false
pinned_for store chain certificate (some peer) =
    store.is_certificate_pinned (content_of certificate) (chain.purpose) peer

abbrev pub started : Certificate → Chain → Chain
started certificate chain = record chain { certificates = certificate ∷ []; status = unknown }

unfoldable pub perform_build_chain : ℕ → Store → Chain → Built
perform_build_chain fuel store chain = elim (pop_certificate (chain.certificates) none) [
  | none ↦ ended unknown chain
  | some (certificate, input) ↦
      let lookups = has_lookups (chain.flags) in
      elim (asked lookups (pinned_for store chain certificate (chain.peer))) [
        | error ↦ failed
        | answer true ↦ ended pinned (started certificate chain)
        | answer false ↦ build_loop fuel store lookups (started certificate chain) certificate input
      ]
]

-- The result of an operation, with the chain after it; `none` where the fuel runs out.
abbrev pub finished : Chain → Built → Option (Bool × Chain)
finished self failed = some (false, self)
finished self no_fuel = none
finished self (built chain) = some (true, cleanup_chain chain)

unfoldable pub build : ℕ → Store → Chain → List ℕ → Option (List ℕ) → ℕ → Option (Bool × Chain)
build fuel store self purpose peer flags =
    finished self (perform_build_chain fuel store (prep_chain self purpose peer flags))

-- The task of a build in another thread, with the chain that it works on.
unfoldable pub build_async : Chain → List ℕ → Option (List ℕ) → ℕ → Chain
build_async self purpose peer flags = prep_chain_thread_safe self purpose peer flags

-- The task that ran, and what becomes of the chain as it is by then.
unfoldable pub build_finish : ℕ → Store → Chain → Chain → Option (Bool × Chain)
build_finish fuel store task self = finished self (perform_build_chain fuel store task)
