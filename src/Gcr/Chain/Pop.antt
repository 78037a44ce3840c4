-- ===== src/Gcr/Chain/Pop.antt =====
-- Taking a certificate out of the input of a build (gcr/gcr-certificate-chain.c).
use mathlib.Core.Option
use mathlib.Core.Option.{some-injective, none-ne-some, some-ne-none}
use mathlib.Core.Path.{subst}
use gcr.Shared.{
  suc, ◌≡◌, refl, sym, ap, inl, inr, Bool, true, false, some, List, [], ◌∷◌, map, length,
  Bool-cases, Option-cases,
}
use gcr.Gcr.Chain.{Certificate, last}
use gcr.Gcr.Chain.Build.{but_last, fill_hole, pop_where}

length-but_last : (c : Certificate) (cs : List Certificate) → length (but_last c cs) ≡ length cs
length-but_last c [] = refl
length-but_last c (d ∷ cs) = ap suc (length-but_last d cs)

pub length-fill_hole : (cs : List Certificate) → length (fill_hole cs) ≡ length cs
length-fill_hole [] = refl
length-fill_hole (c ∷ cs) = ap suc (length-but_last c cs)

-- Any property of what is popped, by the two branches of a round.
pub pop_where_ind :
    (P : List Certificate → Certificate → List Certificate → Type 0)
    → (test : Certificate → Bool)
    → ((c : Certificate) (cs : List Certificate) → test c ≡ true → P (c ∷ cs) c (fill_hole cs))
    → ((c found : Certificate) (cs rest : List Certificate)
        → test c ≡ false
        → P cs found rest
        → P (c ∷ cs) found (c ∷ rest))
    → (cs : List Certificate) (found : Certificate) (rest : List Certificate)
    → pop_where test cs ≡ some (found, rest)
    → P cs found rest
unfolding pop_where
pop_where_ind P test here there [] found rest e = absurd (none-ne-some (found, rest) e)
pop_where_ind P test here there (c ∷ cs) found rest e = elim (Bool-cases (test c)) [
  | inl passed ↦
      subst (λ taken. P (c ∷ cs) (taken.0) (taken.1))
        (some-injective (c, fill_hole cs) (found, rest) (rw passed at e)) (here c cs passed)
  | inr passed ↦ elim (Option-cases (pop_where test cs)) [
    | inl stop ↦ absurd (none-ne-some (found, rest) (rw (passed, stop) at e))
    | inr (taken, later) ↦
        subst (λ next. P (c ∷ cs) (next.0) (next.1))
          (some-injective (taken.0, c ∷ taken.1) (found, rest) (rw (passed, later) at e))
          (there c (taken.0) cs (taken.1) passed
            (pop_where_ind P test here there cs (taken.0) (taken.1) later))
  ]
]

pub length-pop_where :
    (test : Certificate → Bool) (cs : List Certificate) (found : Certificate)
    (rest : List Certificate)
    → pop_where test cs ≡ some (found, rest)
    → length cs ≡ suc (length rest)
length-pop_where test =
    pop_where_ind (λ cs found rest. length cs ≡ suc (length rest)) test
      (λ c cs passed. ap suc (sym (length-fill_hole cs))) (λ c found cs rest passed e. ap suc e)

pub pop_where_found :
    (test : Certificate → Bool) (cs : List Certificate) (found : Certificate)
    (rest : List Certificate)
    → pop_where test cs ≡ some (found, rest)
    → test found ≡ true
pop_where_found test =
    pop_where_ind (λ cs found rest. test found ≡ true) test (λ c cs passed. passed)
      (λ c found cs rest passed e. e)

but_last-map :
    (f : Certificate → Certificate) (c : Certificate) (cs : List Certificate)
    → but_last (f c) (map f cs) ≡ map f (but_last c cs)
but_last-map f c [] = refl
but_last-map f c (d ∷ cs) = ap (λ ds. f c ∷ ds) (but_last-map f d cs)

last-map :
    (f : Certificate → Certificate) (c : Certificate) (cs : List Certificate)
    → last (f c) (map f cs) ≡ f (last c cs)
last-map f c [] = refl
last-map f c (d ∷ cs) = last-map f d cs

pub fill_hole-map :
    (f : Certificate → Certificate) (cs : List Certificate)
    → fill_hole (map f cs) ≡ map f (fill_hole cs)
fill_hole-map f [] = refl
fill_hole-map f (c ∷ cs) = rw (last-map f c cs, but_last-map f c cs) refl

-- What is popped of mapped certificates, by a test that does not tell them apart.
abbrev pub mapped :
    (Certificate → Certificate) → Certificate × List Certificate → Certificate × List Certificate
mapped f found = (f (found.0), map f (found.1))

pub pop_where-map :
    (f : Certificate → Certificate) (test test' : Certificate → Bool)
    → ((c : Certificate) → test' (f c) ≡ test c)
    → (cs : List Certificate)
    → pop_where test' (map f cs) ≡ Option.map (mapped f) (pop_where test cs)
unfolding pop_where
pop_where-map f test test' same [] = refl
pop_where-map f test test' same (c ∷ cs) = elim (Bool-cases (test c)) [
  | inl passed ↦ rw (same c, passed, fill_hole-map f cs) refl
  | inr passed ↦ elim (Option-cases (pop_where test cs)) [
    | inl stop ↦ rw (same c, passed, pop_where-map f test test' same cs, stop) refl
    | inr (taken, later) ↦ rw (same c, passed, pop_where-map f test test' same cs, later) refl
  ]
]
