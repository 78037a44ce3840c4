-- ===== src/Gcr/Chain/Shape.antt =====
-- What the chains are that gcr/gcr-certificate-chain.c builds.
use gcr.Shared.{◌≡◌, refl, ap, Bool, true, false, List, [], ◌∷◌, ◌++◌, All}
use gcr.Gcr.Chain.{
  Certificate, content_of, is_issuer, Chain, Status, last, unknown, incomplete, distrusted,
  selfsigned, pinned, anchored,
}
use gcr.Gcr.Chain.Build.{answer, Store, asked, has_lookups, pinned_for}

-- Each certificate has the name that the issuer of the one before has.
abbrev pub IsLinked : List Certificate → Type 0
IsLinked [] = Unit
IsLinked (c ∷ []) = Unit
IsLinked (c ∷ d ∷ cs) = (is_issuer c d ≡ true) × IsLinked (d ∷ cs)

-- All certificates but the last are not self-signed.
abbrev pub GoesOn : List Certificate → Type 0
GoesOn [] = Unit
GoesOn (c ∷ []) = Unit
GoesOn (c ∷ d ∷ cs) = (is_issuer c c ≡ false) × GoesOn (d ∷ cs)

abbrev pub all_but_last : List Certificate → List Certificate
all_but_last [] = []
all_but_last (c ∷ []) = []
all_but_last (c ∷ d ∷ cs) = c ∷ all_but_last (d ∷ cs)

-- Whether a certificate is found to be an anchor for the purpose that `asked_chain` has. Without lookups none
-- is.
abbrev pub IsFound : Store → Chain → Bool → Certificate → Type 0
IsFound store asked_chain anchor c =
    asked (has_lookups (asked_chain.flags))
      (store.is_certificate_anchored (content_of c) (asked_chain.purpose))
    ≡ answer anchor

-- What the status of a built chain of at least one certificate says of the store, of the first
-- certificate and of the others, for the purpose, the peer and the flags that `asked_chain` has.
abbrev pub Says : Store → Chain → Status → Certificate → List Certificate → Type 0
Says store asked_chain unknown first others = ⊥
Says store asked_chain distrusted first others = ⊥
Says store asked_chain incomplete first others =
    (is_issuer (last first others) (last first others) ≡ false)
    × All (IsFound store asked_chain false) others
Says store asked_chain selfsigned first others =
    (is_issuer (last first others) (last first others) ≡ true)
    × All (IsFound store asked_chain false) others
Says store asked_chain pinned first others =
    (asked (has_lookups (asked_chain.flags)) (pinned_for store asked_chain first (asked_chain.peer))
      ≡ answer true)
    × (others ≡ [])
Says store asked_chain anchored first others =
    IsFound store asked_chain true (last first others)
    × All (IsFound store asked_chain false) (all_but_last others)

-- What a build may give for certificates of which `first` is the first one.
pub record IsChain (store : Store) (asked_chain : Chain) (first : Certificate) (chain : Chain)
    : Type 0 where
  pub others : List Certificate
  pub certificates_lem : chain.certificates ≡ first ∷ others
  pub linked : IsLinked (first ∷ others)
  pub goes_on : GoesOn (first ∷ others)
  pub says : Says store asked_chain (chain.status) first others

pub last-append : (c next : Certificate) (cs : List Certificate) → last c (cs ++ next ∷ []) ≡ next
last-append c next [] = refl
last-append c next (d ∷ cs) = last-append d next cs

pub IsLinked-append :
    (c next : Certificate) (cs : List Certificate)
    → IsLinked (c ∷ cs)
    → is_issuer (last c cs) next ≡ true
    → IsLinked (c ∷ cs ++ next ∷ [])
IsLinked-append c next [] h issuer = (issuer, tt)
IsLinked-append c next (d ∷ cs) h issuer = (h.0, IsLinked-append d next cs (h.1) issuer)

pub GoesOn-append :
    (c next : Certificate) (cs : List Certificate)
    → GoesOn (c ∷ cs)
    → is_issuer (last c cs) (last c cs) ≡ false
    → GoesOn (c ∷ cs ++ next ∷ [])
GoesOn-append c next [] h self = (self, tt)
GoesOn-append c next (d ∷ cs) h self = (h.0, GoesOn-append d next cs (h.1) self)

pub all_but_last-append :
    (next : Certificate) (cs : List Certificate) → all_but_last (cs ++ next ∷ []) ≡ cs
all_but_last-append next [] = refl
all_but_last-append next (c ∷ []) = refl
all_but_last-append next (c ∷ d ∷ cs) = ap (λ l. c ∷ l) (all_but_last-append next (d ∷ cs))

pub All-snoc :
    (P : Certificate → Type 0) (next : Certificate) (cs : List Certificate)
    → All P cs
    → P next
    → All P (cs ++ next ∷ [])
All-snoc P next [] h p = (p, tt)
All-snoc P next (c ∷ cs) h p = (h.0, All-snoc P next cs (h.1) p)
