-- ===== src/Egg/Decimal/Leading.antt =====
-- That egg/egg-decimal.c leaves no zero byte in front.
use native.Mathlib.Nat.{pow-suc}
use mathlib.Core.Option
use mathlib.Core.Option.{some-injective, none-ne-some}
use mathlib.Core.Path.{subst}
use gcr.Shared.{
  ℕ, zero, suc, ◌+◌, ◌^◌, ◌<◌, ◌≡◌, refl, sym, ap, ◌∙◌, inl, inr, ◌⊎◌, true, some, List, [], ◌∷◌,
  ◌==◌, arith, Bool-cases, Option-cases, ne→==_false,
}
use gcr.Egg.Asn1x.Digits.{be_value}
use gcr.Egg.Decimal.{halve, last_bit, Output, put_bit, rounds, finish}
use gcr.Egg.Decimal.Halving.{IsLed, last_bit-be_value, halve-be_value, IsLed-halve, led_value}

power_positive : (a : ℕ) → 0 < 2 ^ a
power_positive zero = omega arith
power_positive (suc a) = omega (arith, power_positive a, pow-suc 2 a)

put_bit-IsLed : (out next : Output) → put_bit 1 out ≡ some next → IsLed (finish next)
unfolding put_bit
put_bit-IsLed out next e = elim (Bool-cases (out.at_bit == 7)) [
  | inl full ↦ elim (Bool-cases (out.room == 0)) [
    | inl none_left ↦ absurd (none-ne-some next (rw (put_bit, full, none_left) at e))
    | inr some_left ↦
        subst (λ next. IsLed (finish next))
          (some-injective _ next (rw (put_bit, full, some_left) at e))
          (omega (arith, power_positive (out.at_bit)))
  ]
  | inr open_byte ↦
      subst (λ next. IsLed (finish next)) (some-injective _ next (rw (put_bit, open_byte) at e))
        (rw (ne→==_false (out.at_bit + 1) 0 (λ z. omega (arith, z)))
          (omega (arith, power_positive (out.at_bit))))
]

list_cases : (ds : List ℕ) → (ds ≡ []) ⊎ ((d : ℕ) × (rest : List ℕ) × (ds ≡ d ∷ rest))
list_cases [] = inl refl
list_cases (d ∷ rest) = inr (d, rest, refl)

-- The bit of a number that half of is nothing.
last_one : (d : ℕ) (ds : List ℕ) → 0 < d → halve true 0 (d ∷ ds) ≡ [] → last_bit (d ∷ ds) ≡ 1
last_one d ds led e =
    let half = halve-be_value true 0 (d ∷ ds) (λ z. refl) in
    let nothing : be_value 10 0 (halve true 0 (d ∷ ds)) ≡ 0 = ap (be_value 10 0) e in
    omega (arith, half, nothing, last_bit-be_value 0 d ds, led_value d ds led)

rounds-IsLed :
    (fuel d : ℕ) (ds : List ℕ) (out out' : Output)
    → 0 < d
    → rounds fuel (d ∷ ds) out ≡ some out'
    → IsLed (finish out')
unfolding rounds Option.bind
rounds-IsLed zero d ds out out' led e = absurd (none-ne-some out' e)
rounds-IsLed (suc fuel) d ds out out' led e =
    elim (Option-cases (put_bit (last_bit (d ∷ ds)) out)) [
      | inl stop ↦ absurd (none-ne-some out' (rw (rounds, stop) at e))
      | inr (next, put) ↦ elim (list_cases (halve true 0 (d ∷ ds))) [
        | inl gone ↦
            let one = last_one d ds led gone in
            let same = some-injective next out' (rw (rounds, put, gone) at e) in
            subst (λ out. IsLed (finish out)) same
              (put_bit-IsLed out next (sym (ap (λ bit. put_bit bit out) one) ∙ put))
        | inr (d', ds', more) ↦
            rounds-IsLed fuel d' ds' next out' (subst IsLed more (IsLed-halve 0 (d ∷ ds)))
              (rw (rounds, put, more) at e)
      ]
    ]

-- The same for digits of any number, from an output without bytes on.
pub finish-IsLed :
    (fuel : ℕ) (digits : List ℕ) (out out' : Output)
    → IsLed digits
    → finish out ≡ []
    → rounds fuel digits out ≡ some out'
    → IsLed (finish out')
unfolding rounds
finish-IsLed fuel [] out out' led start e =
    subst (λ out. IsLed (finish out)) (some-injective out out' e) (subst IsLed (sym start) tt)
finish-IsLed fuel (d ∷ ds) out out' led start e = rounds-IsLed fuel d ds out out' led e
