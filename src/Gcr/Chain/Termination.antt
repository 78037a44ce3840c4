-- ===== src/Gcr/Chain/Termination.antt =====
-- When building a chain ends (gcr/gcr-certificate-chain.c).
use mathlib.Core.Path.{subst}
use gcr.Shared.{ℕ, suc, ◌+◌, ◌*◌, ◌≤◌, ◌<◌, ◌≡◌, ◌≢◌, ap, Bool, true, some, List, length, arith}
use gcr.Gcr.Chain.{Content, Certificate, content_of, Chain}
use gcr.Gcr.Chain.Build.{
  answer, Store, Built, no_fuel, failed, built, has_lookups, perform_build_chain,
}
use gcr.Gcr.Chain.Pop.{length-fill_hole}
use gcr.Gcr.Chain.Loop.{Next, popped, looked_up, Rounds, build_loop_ind, perform_build_chain_ind}

-- That the issuers a store finds come nearer to certificates that have none, where a build asks for them.
pub record Descends (store : Store) (lookups : Bool) (rank : Content → ℕ) (top : ℕ) : Type 0 where
  pub bounded : (c : Content) → rank c ≤ top
  pub descends :
      lookups ≡ true
      → (c issuer : Content) → store.lookup_issuer c ≡ answer (some issuer)
      → rank issuer < rank c

abbrev Ends : Built → Type 0
Ends failed = Unit
Ends no_fuel = ⊥
Ends (built chain) = Unit

Ends_lem : (result : Built) → Ends result → result ≢ no_fuel
Ends_lem result ends e = subst Ends e ends

module _ {store : Store} {lookups : Bool} {rank : Content → ℕ} {top : ℕ}
    (h : Descends store lookups rank top) where
  abbrev measure : Certificate → List Certificate → ℕ
  measure c input = length input * suc top + rank (content_of c)

  measure_decreases :
      (c next : Certificate) (input rest : List Certificate)
      → Next store lookups c input next rest
      → measure next rest < measure c input
  unfolding content_of
  measure_decreases c next input rest (popped issuer e) =
      omega (arith, ap (λ n. n * suc top) e, h.bounded (content_of c), h.bounded (content_of next))
  measure_decreases c next input rest (looked_up {issuer} asking found) =
      omega (arith, h.descends asking (content_of c) issuer found)

  loop_rounds : Rounds store lookups (λ fuel chain c input. measure c input < fuel) Ends
  loop_rounds = record {
    on_fuel = λ p. absurd (omega (arith, p));
    on_failure = tt;
    on_selfsigned = λ p self. tt;
    on_incomplete = λ p self. tt;
    on_anchored = λ p self step found. tt;
    on_next = λ {chain} {c} {next} {input} {rest} p self step found.
        omega (arith, p, measure_decreases c next input rest step);
  }

-- A build ends, with fuel for as many rounds as the certificates given times one more than the longest
-- way up from a certificate to one without an issuer in the store, where lookups are made: without them
-- that way is 0, and the certificates given are all that is asked. It ends, too, where a search fails.
pub perform_build_chain_ends :
    (store : Store) (chain : Chain) (rank : Content → ℕ) (top fuel : ℕ)
    → Descends store (has_lookups (chain.flags)) rank top
    → length (chain.certificates) * suc top ≤ fuel
    → perform_build_chain fuel store chain ≢ no_fuel
perform_build_chain_ends store chain rank top fuel h enough =
    Ends_lem (perform_build_chain fuel store chain) (
      perform_build_chain_ind store fuel chain Ends (λ e. tt) tt (λ c cs e found. tt)
        (λ c cs e.
          build_loop_ind store (has_lookups (chain.flags)) _ Ends (loop_rounds h) fuel _ c _ (
            omega (
              arith,
              h.bounded (content_of c),
              enough,
              ap (λ certificates. length certificates * suc top) e,
              ap (λ n. n * suc top) (length-fill_hole cs),
            ))))
