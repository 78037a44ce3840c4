-- ===== src/Gcr/Chain/Loop.antt =====
-- One round of the loop of `perform_build_chain` (gcr/gcr-certificate-chain.c), and what rounds keep.
use mathlib.Core.Option.{some-injective, none-ne-some}
use mathlib.Core.Path.{subst}
use gcr.Shared.{
  ℕ, zero, suc, ◌≡◌, refl, sym, ap, ◌⊎◌, inl, inr, Bool, true, false, none, some, List, [], ◌∷◌,
  length, Bool-cases, Option-cases,
}
use gcr.Gcr.Chain.{
  Content, Certificate, pkcs11, content_of, is_issuer, unknown, pinned, incomplete, selfsigned,
  anchored, Chain,
}
use gcr.Gcr.Chain.Build.{
  Lookup, error, answer, Store, pop_where, pop_certificate, next_certificate, asked, Built, failed,
  no_fuel, ended, append_certificate, build_loop, issues, perform_build_chain, has_lookups,
  pinned_for, started, fill_hole,
}
use gcr.Gcr.Chain.Pop.{length-pop_where, pop_where_found}

pub List-cases {ℓ} :
    {A : Type ℓ} (xs : List A) → (xs ≡ []) ⊎ ((a : A) × (rest : List A) × (xs ≡ a ∷ rest))
List-cases [] = inl refl
List-cases (a ∷ rest) = inr (a, rest, refl)

pub Lookup-cases {ℓ} : {A : Type ℓ} (l : Lookup A) → (l ≡ error) ⊎ ((a : A) × (l ≡ answer a))
Lookup-cases error = inl refl
Lookup-cases (answer a) = inr (a, refl)

abbrev answer_or {ℓ} : {A : Type ℓ} → A → Lookup A → A
answer_or a error = a
answer_or a (answer b) = b

abbrev IsAnswer {ℓ} : {A : Type ℓ} → Lookup A → Type 0
IsAnswer error = ⊥
IsAnswer (answer a) = Unit

pub answer-injective {ℓ} : {A : Type ℓ} (a b : A) → answer a ≡ answer b → a ≡ b
answer-injective a b e = ap (answer_or a) e

pub error-ne-answer {ℓ} : {A : Type ℓ} (a : A) → ¬ Path (Lookup A) error (answer a)
error-ne-answer a e = subst IsAnswer (sym e) tt

-- Where the next certificate comes from.
pub data Next (store : Store) (lookups : Bool) (issued : Certificate) (input : List Certificate)
    : Certificate → List Certificate → Type 0 where
  popped :
      {next : Certificate} {rest : List Certificate}
      → is_issuer issued next ≡ true
      → length input ≡ suc (length rest)
      → Next store lookups issued input next rest
  looked_up :
      {issuer : Content}
      → lookups ≡ true
      → store.lookup_issuer (content_of issued) ≡ answer (some issuer)
      → Next store lookups issued input (pkcs11 issuer) input

pub next_certificate-Next :
    (store : Store) (lookups : Bool) (issued : Certificate) (input : List Certificate)
    (next : Certificate) (rest : List Certificate)
    → next_certificate store lookups issued input ≡ answer (some (next, rest))
    → Next store lookups issued input next rest
unfolding next_certificate pop_certificate
next_certificate-Next store lookups issued input next rest e =
    elim (Option-cases (pop_where (issues (some issued)) input)) [
      | inr (found, here) ↦
          subst (λ taken. Next store lookups issued input (taken.0) (taken.1))
            (some-injective found (next, rest)
              (answer-injective _ _ (rw (next_certificate, pop_certificate, here) at e)))
            (popped (pop_where_found (issues (some issued)) input (found.0) (found.1) here)
              (length-pop_where (issues (some issued)) input (found.0) (found.1) here))
      | inl nowhere ↦ elim (Bool-cases lookups) [
        | inl asking ↦ elim (Lookup-cases (store.lookup_issuer (content_of issued))) [
          | inl stop ↦ absurd (
              error-ne-answer (some (next, rest))
                (rw (next_certificate, pop_certificate, nowhere, asking, stop) at e))
          | inr (none, found) ↦ absurd (
              none-ne-some (next, rest)
                (answer-injective _ _
                  (rw (next_certificate, pop_certificate, nowhere, asking, found) at e)))
          | inr (some issuer, found) ↦
              subst (λ taken. Next store lookups issued input (taken.0) (taken.1))
                (some-injective (pkcs11 issuer, input) (next, rest)
                  (answer-injective _ _
                    (rw (next_certificate, pop_certificate, nowhere, asking, found) at e)))
                (looked_up asking found)
        ]
        | inr asking ↦ absurd (
            none-ne-some (next, rest)
              (answer-injective _ _ (rw (next_certificate, pop_certificate, nowhere, asking) at e)))
      ]
    ]

-- A round with fuel: what ends the loop, or a longer chain.
module _ (store : Store) (lookups : Bool) where
  abbrev is_anchored : Chain → Certificate → Lookup Bool
  is_anchored chain next =
      asked lookups (store.is_certificate_anchored (content_of next) (chain.purpose))

  -- What holds in every round of the loop, and of every way in which a round ends it, holds of the result.
  pub record Rounds (P : ℕ → Chain → Certificate → List Certificate → Type 0) (Q : Built → Type 0)
      : Type 0 where
    pub on_fuel :
        {chain : Chain} {c : Certificate} {input : List Certificate}
        → P zero chain c input
        → Q no_fuel
    pub on_failure : Q failed
    pub on_selfsigned :
        {fuel : ℕ} {chain : Chain} {c : Certificate} {input : List Certificate}
        → P (suc fuel) chain c input
        → is_issuer c c ≡ true
        → Q (ended selfsigned chain)
    pub on_incomplete :
        {fuel : ℕ} {chain : Chain} {c : Certificate} {input : List Certificate}
        → P (suc fuel) chain c input
        → is_issuer c c ≡ false
        → Q (ended incomplete chain)
    pub on_anchored :
        {fuel : ℕ} {chain : Chain} {c next : Certificate} {input rest : List Certificate}
        → P (suc fuel) chain c input
        → is_issuer c c ≡ false
        → Next store lookups c input next rest
        → is_anchored chain next ≡ answer true
        → Q (ended anchored (append_certificate next chain))
    pub on_next :
        {fuel : ℕ} {chain : Chain} {c next : Certificate} {input rest : List Certificate}
        → P (suc fuel) chain c input
        → is_issuer c c ≡ false
        → Next store lookups c input next rest
        → is_anchored chain next ≡ answer false
        → P fuel (append_certificate next chain) next rest

  pub build_loop_ind :
      (P : ℕ → Chain → Certificate → List Certificate → Type 0) (Q : Built → Type 0)
      → Rounds P Q
      → (fuel : ℕ) (chain : Chain) (c : Certificate) (input : List Certificate)
      → P fuel chain c input
      → Q (build_loop fuel store lookups chain c input)
  unfolding build_loop
  build_loop_ind P Q rounds zero chain c input p = rounds.on_fuel p
  build_loop_ind P Q rounds (suc fuel) chain c input p = elim (Bool-cases (is_issuer c c)) [
    | inl self ↦ rw (build_loop, self) (rounds.on_selfsigned p self)
    | inr self ↦ elim (Lookup-cases (next_certificate store lookups c input)) [
      | inl stop ↦ rw (build_loop, self, stop) (rounds.on_failure)
      | inr (none, found) ↦ rw (build_loop, self, found) (rounds.on_incomplete p self)
      | inr (some (next, rest), found) ↦
          let step = next_certificate-Next store lookups c input next rest found in
          elim (Lookup-cases (is_anchored chain next)) [
            | inl stop ↦ rw (build_loop, self, found, stop) (rounds.on_failure)
            | inr (true, anchor) ↦
                rw (build_loop, self, found, anchor) (rounds.on_anchored p self step anchor)
            | inr (false, anchor) ↦
                rw (build_loop, self, found, anchor)
                  (build_loop_ind P Q rounds fuel (append_certificate next chain) next rest
                    (rounds.on_next p self step anchor))
          ]
    ]
  ]

-- A build: no certificates, a pinned one, or the loop from the first one on.
pub perform_build_chain_ind :
    (store : Store) (fuel : ℕ) (chain : Chain) (Q : Built → Type 0)
    → (chain.certificates ≡ [] → Q (ended unknown chain))
    → Q failed
    → ((c : Certificate) (cs : List Certificate)
        → chain.certificates ≡ c ∷ cs
        → asked (has_lookups (chain.flags)) (pinned_for store chain c (chain.peer)) ≡ answer true
        → Q (ended pinned (started c chain)))
    → ((c : Certificate) (cs : List Certificate)
        → chain.certificates ≡ c ∷ cs
        → Q (build_loop fuel store (has_lookups (chain.flags)) (started c chain) c (fill_hole cs)))
    → Q (perform_build_chain fuel store chain)
unfolding perform_build_chain pop_certificate pop_where
perform_build_chain_ind store fuel chain Q empty failure is_pinned loop =
    elim (List-cases (chain.certificates)) [
      | inl e ↦ rw (perform_build_chain, pop_certificate, e) (empty e)
      | inr (c, cs, e) ↦
          elim (Lookup-cases
            (asked (has_lookups (chain.flags)) (pinned_for store chain c (chain.peer)))) [
              | inl stop ↦ rw (perform_build_chain, pop_certificate, e, stop) failure
              | inr (true, found) ↦
                  rw (perform_build_chain, pop_certificate, e, found) (is_pinned c cs e found)
              | inr (false, found) ↦
                  rw (perform_build_chain, pop_certificate, e, found) (loop c cs e)
            ]
    ]
