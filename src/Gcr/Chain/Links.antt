-- ===== src/Gcr/Chain/Links.antt =====
-- That a chain that gcr/gcr-certificate-chain.c builds is linked, and what its status says.
use mathlib.Core.List.{cons-ne-nil}
use mathlib.Core.Path.{subst}
use gcr.Shared.{ℕ, ◌≡◌, refl, sym, ap, ◌∙◌, Bool, true, false, some, List, [], ◌∷◌, ◌++◌, All}
use gcr.Gcr.Chain.{Content, Certificate, content_of, is_issuer, Chain, equal_names, last, pinned}
use gcr.Gcr.Chain.Build.{
  answer, Store, Built, failed, no_fuel, built, ended, append_certificate, asked, has_lookups,
  perform_build_chain, pinned_for, started, fill_hole, build_loop,
}
use gcr.Gcr.Chain.Shape.{
  IsLinked, GoesOn, IsFound, IsChain, last-append, IsLinked-append, GoesOn-append,
  all_but_last-append, All-snoc,
}
use gcr.Gcr.Chain.Loop.{Next, popped, looked_up, Rounds, build_loop_ind, perform_build_chain_ind}

-- The chain in a round of the loop.
record IsUnderWay (store : Store) (asked_chain : Chain) (first : Certificate) (chain : Chain)
    (c : Certificate) : Type 0 where
  others : List Certificate
  certificates_lem : chain.certificates ≡ first ∷ others
  linked : IsLinked (first ∷ others)
  goes_on : GoesOn (first ∷ others)
  unanchored : All (IsFound store asked_chain false) others
  at_end : last first others ≡ c
  purpose_lem : chain.purpose ≡ asked_chain.purpose

-- That a certificate is only found as an issuer if it has the name that was searched for.
abbrev pub FindsIssuers : Store → Type 0
FindsIssuers store =
    (c issuer : Content)
    → store.lookup_issuer c ≡ answer (some issuer)
    → equal_names (issuer.subject_dn) (c.issuer_dn) ≡ true

abbrev OfBuilt : (Chain → Type 0) → Built → Type 0
OfBuilt P failed = Unit
OfBuilt P no_fuel = Unit
OfBuilt P (built chain) = P chain

abbrev first_or : Certificate → List Certificate → Certificate
first_or c [] = c
first_or c (d ∷ ds) = d

first_eq : (c d : Certificate) (cs ds : List Certificate) → c ∷ cs ≡ d ∷ ds → c ≡ d
first_eq c d cs ds e = ap (first_or c) e

module _ (store : Store) (asked_chain : Chain) (finds : FindsIssuers store)
    (first : Certificate) where
  Next-is_issuer :
      (c next : Certificate) (input rest : List Certificate)
      → Next store (has_lookups (asked_chain.flags)) c input next rest
      → is_issuer c next ≡ true
  unfolding is_issuer content_of
  Next-is_issuer c next input rest (popped issuer e) = issuer
  Next-is_issuer c next input rest (looked_up {issuer} asking found) =
      finds (content_of c) issuer found

  -- The chain with one more certificate, before it is known whether that is an anchor.
  module _ (chain : Chain) (c next : Certificate) (input rest : List Certificate)
      (p : IsUnderWay store asked_chain first chain c) (self : is_issuer c c ≡ false)
      (step : Next store (has_lookups (asked_chain.flags)) c input next rest) where
    longer_lem : (append_certificate next chain).certificates ≡ first ∷ p.others ++ next ∷ []
    longer_lem = ap (λ cs. cs ++ next ∷ []) (p.certificates_lem)

    longer-IsLinked : IsLinked (first ∷ p.others ++ next ∷ [])
    longer-IsLinked =
        IsLinked-append first next (p.others) (p.linked)
          (rw (p.at_end) (Next-is_issuer c next input rest step))

    longer-GoesOn : GoesOn (first ∷ p.others ++ next ∷ [])
    longer-GoesOn = GoesOn-append first next (p.others) (p.goes_on) (rw (p.at_end) self)

    -- What the store said of the chain's purpose, it said of the one asked for.
    longer-IsFound :
        (anchor : Bool)
        → asked
            (has_lookups (asked_chain.flags))
            (store.is_certificate_anchored (content_of next) (chain.purpose))
          ≡ answer anchor
        → IsFound store asked_chain anchor next
    longer-IsFound anchor found = rw (sym (p.purpose_lem)) found

  rounds :
      Rounds store
        (has_lookups (asked_chain.flags))
        (λ fuel chain c input. IsUnderWay store asked_chain first chain c)
        (OfBuilt (IsChain store asked_chain first))
  rounds = record {
    on_fuel = λ p. tt;
    on_failure = tt;
    on_selfsigned = λ {fuel} {chain} {c} {input} p self. record {
      others = p.others;
      certificates_lem = p.certificates_lem;
      linked = p.linked;
      goes_on = p.goes_on;
      says = (rw (p.at_end) self, p.unanchored);
    };
    on_incomplete = λ {fuel} {chain} {c} {input} p self. record {
      others = p.others;
      certificates_lem = p.certificates_lem;
      linked = p.linked;
      goes_on = p.goes_on;
      says = (rw (p.at_end) self, p.unanchored);
    };
    on_anchored = λ {fuel} {chain} {c} {next} {input} {rest} p self step found. record {
      others = p.others ++ next ∷ [];
      certificates_lem = longer_lem chain c next input rest p self step;
      linked = longer-IsLinked chain c next input rest p self step;
      goes_on = longer-GoesOn chain c next input rest p self step;
      says = (
        rw (last-append first next (p.others))
            (longer-IsFound chain c next input rest p self step true found),
        rw (all_but_last-append next (p.others)) (p.unanchored),
      );
    };
    on_next = λ {fuel} {chain} {c} {next} {input} {rest} p self step found. record {
      others = p.others ++ next ∷ [];
      certificates_lem = longer_lem chain c next input rest p self step;
      linked = longer-IsLinked chain c next input rest p self step;
      goes_on = longer-GoesOn chain c next input rest p self step;
      unanchored =
          All-snoc _ next (p.others) (p.unanchored)
            (longer-IsFound chain c next input rest p self step false found);
      at_end = last-append first next (p.others);
      purpose_lem = p.purpose_lem;
    };
  }

started-IsChain :
    (store : Store) (chain : Chain) (c : Certificate)
    → asked (has_lookups (chain.flags)) (pinned_for store chain c (chain.peer)) ≡ answer true
    → OfBuilt (IsChain store chain c) (ended pinned (started c chain))
started-IsChain store chain c found = record {
  others = [];
  certificates_lem = refl;
  linked = tt;
  goes_on = tt;
  says = (found, refl);
}

-- Where an issuer is only found under the name that was searched for: a chain that was built from
-- certificates starts with the first of them, each certificate has the name that the issuer of the one
-- before has, and none before the last is self-signed. With the status anchored the last one is an anchor
-- for the purpose, and none between the first and the last is; with selfsigned and incomplete the last one
-- is self-signed or not, and none behind the first is an anchor; with pinned the chain is the one
-- certificate, which is pinned for the peer. Other statuses do not occur. Where lookups are not allowed,
-- nothing is taken for an anchor or for pinned.
pub perform_build_chain-IsChain :
    (store : Store) (chain result : Chain) (fuel : ℕ) (first : Certificate)
    (others : List Certificate)
    → FindsIssuers store
    → chain.certificates ≡ first ∷ others
    → perform_build_chain fuel store chain ≡ built result
    → IsChain store chain first result
perform_build_chain-IsChain store chain result fuel first others finds given e =
    let from_first : (c : Certificate) (cs : List Certificate) (r : Built)
        → chain.certificates ≡ c ∷ cs
        → OfBuilt (IsChain store chain c) r
        → OfBuilt (IsChain store chain first) r =
      λ c cs r start h.
        subst (λ d. OfBuilt (IsChain store chain d) r)
          (first_eq c first cs others (sym start ∙ given)) h in
    subst (OfBuilt (IsChain store chain first)) e (
      perform_build_chain_ind store fuel chain (OfBuilt (IsChain store chain first))
        (λ none_given. absurd (cons-ne-nil first others (sym given ∙ none_given))) tt
        (λ c cs start found.
          from_first c cs (ended pinned (started c chain)) start
            (started-IsChain store chain c found))
        (λ c cs start.
          from_first c cs
            (build_loop fuel store (has_lookups (chain.flags)) (started c chain) c (fill_hole cs))
            start
            (build_loop_ind store (has_lookups (chain.flags)) _ _ (rounds store chain finds c) fuel
              (started c chain) c (fill_hole cs)
              (record {
                others = [];
                certificates_lem = refl;
                linked = tt;
                goes_on = tt;
                unanchored = tt;
                at_end = refl;
                purpose_lem = refl;
              }))))
