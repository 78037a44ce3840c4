-- ===== src/Gcr/Chain/Async.antt =====
-- Building a chain in another thread, against building it at once (gcr/gcr-certificate-chain.c).
use mathlib.Core.List.{map-append}
use mathlib.Core.Option
use gcr.Shared.{
  ℕ, zero, suc, ◌≡◌, refl, sym, ap, ◌∙◌, Bool, true, false, Option, none, some, List, [], ◌∷◌, map,
  Bool-cases, Option-cases, inl, inr,
}
use gcr.Gcr.Chain.{
  Certificate, simple, pkcs11, other, safe_copy, content_of, is_issuer, anchored, Chain, safe,
  original, prep_chain, prep_chain_thread_safe, cleanup_chain,
}
use gcr.Gcr.Chain.Build.{
  Lookup, error, answer, Store, Built, failed, no_fuel, built, ended, append_certificate, asked,
  has_lookups, perform_build_chain, pinned_for, started, build, build_async, build_finish,
  build_loop, next_certificate, pop_certificate, issues, finished, pop_where, fill_hole,
}
use gcr.Gcr.Chain.Loop.{List-cases, Lookup-cases}
use gcr.Gcr.Chain.Pop.{fill_hole-map, mapped, pop_where-map}

content_of-safe : (c : Certificate) → content_of (safe c) ≡ content_of c
unfolding content_of safe
content_of-safe (simple c) = refl
content_of-safe (pkcs11 c) = refl
content_of-safe (other c) = refl
content_of-safe (safe_copy c) = refl

is_issuer-safe : (c d : Certificate) → is_issuer (safe c) (safe d) ≡ is_issuer c d
unfolding is_issuer
is_issuer-safe c d = rw (content_of-safe c, content_of-safe d) refl

-- The same chain with copies.
abbrev safe_chain : Chain → Chain
safe_chain chain = record chain { certificates = map safe (chain.certificates) }

abbrev safe_built : Built → Built
safe_built failed = failed
safe_built no_fuel = no_fuel
safe_built (built chain) = built (safe_chain chain)

abbrev safe_next :
    Lookup (Option (Certificate × List Certificate))
    → Lookup (Option (Certificate × List Certificate))
safe_next error = error
safe_next (answer found) = answer (Option.map (mapped safe) found)

next_certificate-safe :
    (store : Store) (lookups : Bool) (c : Certificate) (input : List Certificate)
    → next_certificate store lookups (safe c) (map safe input)
      ≡ safe_next (next_certificate store lookups c input)
unfolding next_certificate pop_certificate safe
next_certificate-safe store lookups c input =
    let popped =
      pop_where-map safe (issues (some c)) (issues (some (safe c))) (is_issuer-safe c) input in
    elim (Option-cases (pop_where (issues (some c)) input)) [
      | inr (taken, here) ↦ rw (next_certificate, pop_certificate, popped, here) refl
      | inl nowhere ↦ elim (Bool-cases lookups) [
        | inr asking ↦ rw (next_certificate, pop_certificate, popped, nowhere, asking) refl
        | inl asking ↦ elim (Lookup-cases (store.lookup_issuer (content_of c))) [
          | inl stop ↦
              rw
                (
                  next_certificate,
                  pop_certificate,
                  popped,
                  nowhere,
                  asking,
                  content_of-safe c,
                  stop,
                )
                refl
          | inr (none, found) ↦
              rw
                (
                  next_certificate,
                  pop_certificate,
                  popped,
                  nowhere,
                  asking,
                  content_of-safe c,
                  found,
                )
                refl
          | inr (some issuer, found) ↦
              rw
                (
                  next_certificate,
                  pop_certificate,
                  popped,
                  nowhere,
                  asking,
                  content_of-safe c,
                  found,
                )
                refl
        ]
      ]
    ]

append_certificate-safe :
    (next : Certificate) (chain : Chain)
    → append_certificate (safe next) (safe_chain chain) ≡ safe_chain (append_certificate next chain)
append_certificate-safe next chain =
    ap (λ certificates. record chain { certificates = certificates })
      (sym (map-append safe (chain.certificates) (next ∷ [])))

build_loop-safe :
    (store : Store) (lookups : Bool) (fuel : ℕ) (chain : Chain) (c : Certificate)
    (input : List Certificate)
    → build_loop fuel store lookups (safe_chain chain) (safe c) (map safe input)
      ≡ safe_built (build_loop fuel store lookups chain c input)
unfolding build_loop
build_loop-safe store lookups zero chain c input = refl
build_loop-safe store lookups (suc fuel) chain c input = elim (Bool-cases (is_issuer c c)) [
  | inl self ↦ rw (build_loop, is_issuer-safe c c, self) refl
  | inr self ↦ elim (Lookup-cases (next_certificate store lookups c input)) [
    | inl stop ↦
        rw (build_loop, is_issuer-safe c c, self, next_certificate-safe store lookups c input, stop)
          refl
    | inr (none, found) ↦
        rw
          (build_loop, is_issuer-safe c c, self, next_certificate-safe store lookups c input, found)
          refl
    | inr (some (next, rest), found) ↦
        elim (Lookup-cases
          (asked lookups (store.is_certificate_anchored (content_of next) (chain.purpose)))) [
            | inl stop ↦
                rw
                  (
                    build_loop,
                    is_issuer-safe c c,
                    self,
                    next_certificate-safe store lookups c input,
                    found,
                    content_of-safe next,
                    stop,
                  )
                  refl
            | inr (true, anchor) ↦
                rw
                  (
                    build_loop,
                    is_issuer-safe c c,
                    self,
                    next_certificate-safe store lookups c input,
                    found,
                    content_of-safe next,
                    anchor,
                  )
                  (ap (ended anchored) (append_certificate-safe next chain))
            | inr (false, anchor) ↦
                rw
                  (
                    build_loop,
                    is_issuer-safe c c,
                    self,
                    next_certificate-safe store lookups c input,
                    found,
                    content_of-safe next,
                    anchor,
                  )
                  (ap (λ chain. build_loop fuel store lookups chain (safe next) (map safe rest))
                      (append_certificate-safe next chain)
                    ∙ build_loop-safe store lookups fuel (append_certificate next chain) next rest)
          ]
  ]
]

pinned_for-safe :
    (store : Store) (chain : Chain) (c : Certificate) (peer : Option (List ℕ))
    → pinned_for store (safe_chain chain) (safe c) peer ≡ pinned_for store chain c peer
pinned_for-safe store chain c none = refl
pinned_for-safe store chain c (some peer) =
    ap (λ c. store.is_certificate_pinned c (chain.purpose) peer) (content_of-safe c)

perform_build_chain-safe :
    (store : Store) (fuel : ℕ) (chain : Chain)
    → perform_build_chain fuel store (safe_chain chain)
      ≡ safe_built (perform_build_chain fuel store chain)
unfolding perform_build_chain pop_certificate pop_where
perform_build_chain-safe store fuel chain = elim (List-cases (chain.certificates)) [
  | inl e ↦ rw (perform_build_chain, pop_certificate, e) refl
  | inr (c, cs, e) ↦
      let lookups = has_lookups (chain.flags) in
      let pin = pinned_for-safe store chain c (chain.peer) in
      elim (Lookup-cases (asked lookups (pinned_for store chain c (chain.peer)))) [
        | inl stop ↦ rw (perform_build_chain, pop_certificate, e, pin, stop) refl
        | inr (true, found) ↦ rw (perform_build_chain, pop_certificate, e, pin, found) refl
        | inr (false, found) ↦
            rw (perform_build_chain, pop_certificate, e, pin, found, fill_hole-map safe cs)
              (build_loop-safe store lookups fuel (started c chain) c (fill_hole cs))
      ]
]

original-safe : (c : Certificate) → original (safe c) ≡ original c
unfolding original safe
original-safe (simple c) = refl
original-safe (pkcs11 c) = refl
original-safe (other c) = refl
original-safe (safe_copy c) = refl

map-original-safe : (cs : List Certificate) → map original (map safe cs) ≡ map original cs
map-original-safe [] = refl
map-original-safe (c ∷ cs) = rw (original-safe c, map-original-safe cs) refl

-- The outcome of a build on a chain that is by then `later`.
abbrev pub outcome_on : Chain → Bool × Chain → Bool × Chain
outcome_on later (true, chain) = (true, chain)
outcome_on later (false, chain) = (false, later)

finished-safe :
    (self later : Chain) (result : Built)
    → finished later (safe_built result) ≡ Option.map (outcome_on later) (finished self result)
unfolding cleanup_chain
finished-safe self later failed = refl
finished-safe self later no_fuel = refl
finished-safe self later (built chain) =
    ap (λ certificates. some (true, record chain { certificates = certificates }))
      (map-original-safe (chain.certificates))

-- A build in another thread ends as the build at once does, with the same certificates in place of their
-- copies: where it succeeds, what became of the chain in the meantime, `later`, is dropped, with any
-- certificates that were added to it; where it fails, the chain stays as it is by then.
pub build_finish-build_async :
    (store : Store) (fuel : ℕ) (self later : Chain) (purpose : List ℕ) (peer : Option (List ℕ))
    (flags : ℕ)
    → build_finish fuel store (build_async self purpose peer flags) later
      ≡ Option.map (outcome_on later) (build fuel store self purpose peer flags)
unfolding build_finish build_async build prep_chain_thread_safe
build_finish-build_async store fuel self later purpose peer flags =
    let chain = prep_chain self purpose peer flags in
    ap (finished later) (perform_build_chain-safe store fuel chain)
    ∙ finished-safe self later (perform_build_chain fuel store chain)
