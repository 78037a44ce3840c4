-- ===== src/Tests/Attributes.antt =====
-- gck/gck-attributes.c on a few attributes.
use gcr.Shared.{
  ℕ, ◌-◌, ◌^◌, List, none, inl, inr, replicate, length-replicate, zero, suc, ◌≡◌, ◌≢◌, refl, ◌≤◌,
  true, false, some, [], ◌∷◌, arith,
}
use gcr.Gck.Attributes.{Cell, refs_at, Attribute, value_new, find_attribute, is_invalid, max_ulong}
use gcr.Gck.Attributes.Builder.{
  Builder, builder_push, push_with, copied_value, set_data, set_all, set_ulong, add_boolean,
  add_data, clear,
}
use gcr.Gck.Attributes.Counts.{holds}
use gcr.Gck.Attributes.Sharing.{IsCounted, set_data-IsCounted, set_all-IsCounted, clear-IsCounted}
use gcr.Gck.Attributes.Finds.{find_ulong, find_boolean, value_to_boolean}
use gcr.Gck.Attributes.Fetch.{blank_len, prepare_in, commit_in, emptied_all}
use gcr.Gck.Attributes.Fetch.Rooms.{AllRoom, commit_in-prepare_in}
use gcr.Gck.Attributes.Finds.RoundTrip.{find_ulong-set_ulong}

abbrev cell : ℕ → Cell
cell x = record { block = record { bytes = x ∷ []; secure = false }; refs = 1 }

-- A label in the first block; the second one belongs to an attribute elsewhere.
abbrev label : Attribute
label = record { attr_type = 3; value = some 0; len = 1 }

abbrev elsewhere : Attribute
elsewhere = record { attr_type = 3; value = some 1; len = 1 }

abbrev labelled : Builder
labelled = record { heap = cell 65 ∷ cell 66 ∷ []; attrs = label ∷ []; secure = false }

abbrev held_elsewhere : ℕ → ℕ
held_elsewhere (suc zero) = 1
held_elsewhere _ = 0

labelled-IsCounted : IsCounted labelled held_elsewhere
labelled-IsCounted zero = refl
labelled-IsCounted (suc zero) = refl
labelled-IsCounted (suc (suc p)) = ground arith

elsewhere_held : (p : ℕ) → holds p (some 1) ≤ held_elsewhere p
elsewhere_held zero = omega arith
elsewhere_held (suc zero) = omega arith
elsewhere_held (suc (suc p)) = ground arith

set_data-IsCounted_example :
    (builder : Builder) × (set_data 3 (some (record { bytes = 67 ∷ []; secure = false })) 1 labelled
      ≡ some builder)
    × IsCounted builder held_elsewhere
set_data-IsCounted_example =
    set_data-IsCounted 3 (some (record { bytes = 67 ∷ []; secure = false })) 1 labelled
      held_elsewhere labelled-IsCounted

clear-IsCounted_example :
    (cleared : Builder) × (clear labelled ≡ some cleared)
    × (cleared.attrs ≡ [])
    × ((p : ℕ) → refs_at (cleared.heap) p ≡ held_elsewhere p)
clear-IsCounted_example = clear-IsCounted labelled held_elsewhere labelled-IsCounted

-- What a module makes of the attributes: a length of 5, and an invalid one.
abbrev told : List Attribute
told =
    record { attr_type = 3; value = none; len = 5 }
    ∷ record { attr_type = 4; value = none; len = max_ulong }
    ∷ []

commit_in-prepare_in_example :
    (prepared : Builder) × (prepare_in labelled ≡ some prepared)
    × (prepared.attrs ≡ emptied_all (labelled.attrs))
    × AllRoom
        ((commit_in (λ n. replicate n 0) (record prepared { attrs = told })).heap)
        ((commit_in (λ n. replicate n 0) (record prepared { attrs = told })).attrs)
    × IsCounted (commit_in (λ n. replicate n 0) (record prepared { attrs = told })) held_elsewhere
commit_in-prepare_in_example =
    commit_in-prepare_in (λ n. replicate n 0) labelled told held_elsewhere
      (λ n. length-replicate n 0) (inr (omega arith), (inl refl, tt)) labelled-IsCounted

-- The memory for 2^64 - 16 bytes and a counter is no memory.
blank_len-wraps : blank_len (2 ^ 64 - 16) ≡ 0
blank_len-wraps = refl

find_ulong-set_ulong_example :
    (result : Builder) × (set_ulong 3 258 labelled ≡ some result)
    × (find_ulong 3 result ≡ some 258)
    × ((other : ℕ) → other ≢ 3 → find_ulong other result ≡ find_ulong other labelled)
find_ulong-set_ulong_example =
    find_ulong-set_ulong 3 258 labelled held_elsewhere labelled-IsCounted (omega arith)

-- The first attribute of a type is the one that is found.
find-first : find_boolean 2 (add_boolean 2 false (add_boolean 2 true labelled)) ≡ some true
unfolding find_boolean find_attribute is_invalid value_to_boolean add_boolean add_data push_with
    builder_push copied_value value_new
find-first = refl

set_all-IsCounted_example :
    (builder : Builder) × (set_all (elsewhere ∷ []) labelled ≡ some builder)
    × IsCounted builder held_elsewhere
set_all-IsCounted_example =
    set_all-IsCounted (elsewhere ∷ []) labelled held_elsewhere (elsewhere_held, tt)
      labelled-IsCounted
