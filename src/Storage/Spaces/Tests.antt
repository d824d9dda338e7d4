-- ===== src/Storage/Spaces/Tests.antt =====
-- Two spaces registered one after the other, and the last id of the identity.
use rag_ai_system.Prelude.{◌≡◌, refl, Option, none, some, [], ◌∷◌, ◌++◌, arith, pos, ok, err}
use rag_ai_system.Text.{Text, codes, is_space, trim_left, trim_right, trim_space, text_eq}
use rag_ai_system.Backoff.{Err, plain}
use rag_ai_system.Embed.{Space, validate}
use rag_ai_system.Storage.Spaces.{
  SpaceRef, Catalog, Statement, create_index, ensure_failed, ensure_space, spaces,
}
use rag_ai_system.Storage.Spaces.Rows.{IsCatalog, ensure_space-IsCatalog}
use rag_ai_system.Storage.Spaces.Again.{quiet, ensure_space_again}
use rag_ai_system.Storage.Spaces.Exhausted.{starts, starts_exhaust_ids}

abbrev name_of : Space → Text
name_of s = s.provider ++ codes "_" ++ s.model

abbrev first : Space
first = record { provider = codes "a"; model = codes "m"; dim = pos 3 }

abbrev other : Space
other = record { provider = codes "b"; model = codes "m"; dim = pos 4 }

abbrev first_ref : SpaceRef
first_ref = record { id = 7; space = first; table = codes "a_m" }

abbrev one_space : Catalog
one_space = record {
  rows = first_ref ∷ [];
  tables = (codes "a_m", pos 3) ∷ [];
  indexes = codes "a_m" ∷ [];
  next_id = 8;
}

one_space-IsCatalog : IsCatalog name_of one_space
one_space-IsCatalog = record {
  created = refl;
  indexed = refl;
  named = (refl, tt);
  drawn = (omega arith, tt);
  apart = (tt, tt);
}

abbrev no_index : Statement → Option Err
no_index create_index = some (plain (codes "out of memory"))
no_index _ = none

ensure_space-IsCatalog_example : IsCatalog name_of (ensure_space name_of no_index other one_space).1
ensure_space-IsCatalog_example =
    ensure_space-IsCatalog name_of no_index other one_space one_space-IsCatalog

abbrev other_ref : SpaceRef
other_ref = record { id = 8; space = other; table = codes "b_m" }

abbrev two_spaces : Catalog
two_spaces = record {
  rows = first_ref ∷ other_ref ∷ [];
  tables = (codes "a_m", pos 3) ∷ (codes "b_m", pos 4) ∷ [];
  indexes = codes "a_m" ∷ codes "b_m" ∷ [];
  next_id = 9;
}

registered : ensure_space name_of quiet other one_space ≡ (ok other_ref, two_spaces)
unfolding ensure_space validate trim_space trim_left trim_right is_space text_eq
registered = refl

ensure_space_again_example :
    ensure_space name_of quiet other two_spaces ≡ (ok other_ref, record two_spaces { next_id = 10 })
ensure_space_again_example =
    ensure_space_again name_of quiet other one_space other_ref two_spaces registered refl

newest : spaces none two_spaces ≡ ok (other_ref ∷ first_ref ∷ [])
unfolding spaces
newest = refl

abbrev at_end : Catalog
at_end = record one_space { next_id = 32767 }

first_valid : validate first ≡ none
unfolding validate trim_space trim_left trim_right is_space
first_valid = refl

starts_exhaust_ids_example : ensure_space name_of quiet first (starts name_of first 1 at_end) ≡ (
  err (ensure_failed (plain (codes "nextval: reached maximum value of sequence"))),
  starts name_of first 1 at_end,
)
starts_exhaust_ids_example = starts_exhaust_ids name_of first 1 at_end first_valid (omega arith)
