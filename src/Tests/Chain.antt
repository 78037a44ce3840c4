-- ===== src/Tests/Chain.antt =====
-- gcr/gcr-certificate-chain.c on a few certificates.
use mathlib.Core.Option.{none-ne-some}
use gcr.Shared.{ℕ, zero, suc, ◌≡◌, ◌≢◌, refl, true, false, Option, none, some, List, [], ◌∷◌, arith}
use gcr.Gcr.Chain.{
  Content, simple, other, content_of, is_issuer, equal_names, Chain, new_chain, add, selfsigned,
  original, cleanup_chain, prep_chain,
}
use gcr.Gcr.Chain.Build.{
  answer, Store, no_fuel, perform_build_chain, build_loop, next_certificate, pop_certificate,
  pop_where, build, build_async, build_finish,
}
use gcr.Gcr.Chain.Loop.{answer-injective}
use gcr.Gcr.Chain.Termination.{perform_build_chain_ends}
use gcr.Gcr.Chain.Endless.{perform_build_chain_endless}
use gcr.Gcr.Chain.Shape.{IsChain}
use gcr.Gcr.Chain.Links.{perform_build_chain-IsChain}
use gcr.Gcr.Chain.Async.{build_finish-build_async}

-- The certificate of the subject `s` that the issuer `i` issued.
abbrev cert : ℕ → ℕ → Content
cert s i = record { der = s ∷ i ∷ []; subject_dn = some (s ∷ []); issuer_dn = some (i ∷ []) }

abbrev offline : Store
offline = record {
  is_certificate_pinned = λ c purpose peer. answer false;
  is_certificate_anchored = λ c purpose. answer false;
  lookup_issuer = λ c. answer none;
}

nothing_found : (c issuer : Content) → ¬ (offline.lookup_issuer c ≡ answer (some issuer))
nothing_found c issuer found = none-ne-some issuer (answer-injective none (some issuer) found)

-- A leaf, issued by 2, with the certificates of 3 and 2 behind it; 3 is self-signed.
abbrev three : Chain
three = record new_chain {
  certificates = other (cert 1 2) ∷ simple (cert 3 3) ∷ other (cert 2 3) ∷ [];
}

abbrev three_built : Chain
three_built = record new_chain {
  certificates = other (cert 1 2) ∷ other (cert 2 3) ∷ simple (cert 3 3) ∷ [];
  status = selfsigned;
  purpose = some [];
  flags = 1;
}

build-three : build 3 offline three [] none 1 ≡ some (true, three_built)
unfolding build prep_chain perform_build_chain pop_certificate pop_where build_loop next_certificate
    is_issuer content_of cleanup_chain original
build-three = refl

perform_build_chain_ends_example : perform_build_chain 3 offline three ≢ no_fuel
perform_build_chain_ends_example =
    perform_build_chain_ends offline three (λ c. 0) 0 3
      (record {
        bounded = λ c. omega arith;
        descends = λ asking c issuer found. absurd (nothing_found c issuer found);
      })
      (omega arith)

-- 1 issued the certificate of 2, and 2 that of 1.
abbrev crossed : ℕ → Content
crossed zero = cert 1 2
crossed (suc zero) = cert 2 1
crossed (suc (suc n)) = crossed n

abbrev crossed_issuer : Option (List ℕ) → Option Content
crossed_issuer (some (suc zero ∷ [])) = some (cert 1 2)
crossed_issuer (some (suc (suc zero) ∷ [])) = some (cert 2 1)
crossed_issuer _ = none

abbrev crossed_store : Store
crossed_store = record {
  is_certificate_pinned = λ c purpose peer. answer false;
  is_certificate_anchored = λ c purpose. answer false;
  lookup_issuer = λ c. answer (crossed_issuer (c.issuer_dn));
}

crossed_next : (n : ℕ) → crossed_store.lookup_issuer (crossed n) ≡ answer (some (crossed (suc n)))
crossed_next zero = refl
crossed_next (suc zero) = refl
crossed_next (suc (suc n)) = crossed_next n

crossed_other : (n : ℕ) → equal_names ((crossed n).subject_dn) ((crossed n).issuer_dn) ≡ false
crossed_other zero = refl
crossed_other (suc zero) = refl
crossed_other (suc (suc n)) = crossed_other n

abbrev one : Chain
one = record new_chain { certificates = simple (cert 1 2) ∷ []; purpose = some [] }

perform_build_chain_endless_example : perform_build_chain 1000 crossed_store one ≡ no_fuel
unfolding content_of
perform_build_chain_endless_example =
    perform_build_chain_endless crossed_store one (simple (cert 1 2)) crossed 1000
      (record {
        next_issuer = crossed_next;
        not_selfsigned = crossed_other;
        not_anchored = λ n. refl;
      })
      refl refl refl refl

perform_build_chain-IsChain_example :
    IsChain offline three (other (cert 1 2)) (record three_built { purpose = none; flags = 0 })
unfolding perform_build_chain pop_certificate pop_where build_loop next_certificate is_issuer
    content_of
perform_build_chain-IsChain_example =
    perform_build_chain-IsChain offline three (record three_built { purpose = none; flags = 0 }) 3
      (other (cert 1 2)) (simple (cert 3 3) ∷ other (cert 2 3) ∷ [])
      (λ c issuer found. absurd (nothing_found c issuer found)) refl refl

build_finish-build_async_example :
    build_finish 3 offline (build_async three [] none 1) (add (simple (cert 7 7)) three)
    ≡ some (true, three_built)
unfolding build prep_chain perform_build_chain pop_certificate pop_where build_loop next_certificate
    is_issuer content_of cleanup_chain original
build_finish-build_async_example =
    build_finish-build_async offline 3 three (add (simple (cert 7 7)) three) [] none 1
