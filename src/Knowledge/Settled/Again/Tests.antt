-- ===== src/Knowledge/Settled/Again/Tests.antt =====
-- A vault of one note and of a file that cannot be parsed, indexed into empty tables and once more.
use rag_ai_system.Prelude.{
  ℕ, ◌+◌, ◌≤◌, ◌≡◌, refl, inl, inr, true, false, Option, none, some, List, [], ◌∷◌, map, arith,
  Bool-cases, length, pos, Result, ok,
}
use rag_ai_system.Rag.Unique.{text_eq→eq}
use rag_ai_system.Text.{Text, codes, is_space, trim_left, trim_right, utf8_len, text_eq}
use rag_ai_system.Backoff.{Err}
use rag_ai_system.Chunk.{CutError}
use rag_ai_system.Vault.Scan.{Visit, ScanResult, scan, count, markdown_paths}
use rag_ai_system.Embed.{Provider, batched}
use rag_ai_system.Vault.{yaml_parser, ext}
use rag_ai_system.Knowledge.Index.{save_one}
use rag_ai_system.Storage.{Db, save_note, delete_missing, save_embeddings}
use rag_ai_system.Knowledge.Whole.{Indexed, index}
use rag_ai_system.Knowledge.Settled.{Settled, nothing_new}
use rag_ai_system.Storage.Keys.{IsDb}
use rag_ai_system.Knowledge.Keys.{index-IsDb}
use rag_ai_system.Knowledge.Settled.Again.{index_again}

abbrev by_one : Provider ℕ ℕ
by_one = record {
  embed = λ texts kind s. (ok (map (λ t. length t ∷ []) texts), s + 1);
  space = record { provider = codes "fake"; model = codes "m"; dim = pos 1 };
  max_batch = pos 1;
}

abbrev no_fault : Db ℕ → Option Err
no_fault db = none

abbrev whole : Text → Result CutError (List Text)
whole t = ok (t ∷ [])

abbrev same_code : ℕ → ℕ
same_code c = c

abbrev no_hash : Text → Text
no_hash t = t

abbrev file : Text → Text → Visit
file path content = record {
  path = path;
  walk_fails = false;
  is_dir = false;
  rel_path = some path;
  content = some content;
}

abbrev files : List Visit
files = file (codes "a.md") (codes "x") ∷ file (codes "b.md") (codes "---") ∷ []

abbrev met : ScanResult
met = record {
  notes = record { path = codes "a.md"; hash = codes "x"; text = codes "x"; name = [] } ∷ [];
  skipped = codes "b.md" ∷ [];
}

abbrev empty : Db ℕ
empty = record { notes = []; chunks = []; vectors = []; next_note = 1; next_chunk = 1 }

abbrev filled : Db ℕ
filled = record {
  notes =
      record { id = 1; path = codes "a.md"; name = []; text = codes "x"; hash = codes "x" } ∷ [];
  chunks = record { id = 1; note_id = 1; index = 0; text = codes "x" } ∷ [];
  vectors = (1, 1 ∷ []) ∷ [];
  next_note = 2;
  next_chunk = 2;
}

abbrev first : Indexed ℕ ℕ
first = record {
  res = record {
    notes_written = 1;
    notes_unchanged = 0;
    notes_deleted = 0;
    notes_skipped = 1;
    notes_failed = 0;
    chunks_embedded = 1;
  };
  errs = [];
  db = filled;
  provider = 1;
}

files_scanned : scan same_code no_hash files ≡ ok met
unfolding scan yaml_parser utf8_len trim_left trim_right is_space
files_scanned = refl

first_runs :
    index
      (λ k. none)
      (λ k. none)
      whole
      none
      by_one
      (pos 1)
      no_fault
      no_fault
      (codes "vault")
      (ok met)
      empty
      0
    ≡ some first
unfolding index save_one save_note delete_missing text_eq batched save_embeddings
first_runs = refl

files_paths : markdown_paths same_code no_hash files ≡ codes "a.md" ∷ codes "b.md" ∷ []
unfolding text_eq ext
files_paths = refl

a_first : text_eq (codes "a.md") (codes "a.md") ≡ true
unfolding text_eq
a_first = refl

a_second : text_eq (codes "a.md") (codes "b.md") ≡ false
unfolding text_eq
a_second = refl

no_two : (t : Text) → count same_code no_hash t (markdown_paths same_code no_hash files) ≤ 1
no_two t = rw files_paths (elim (Bool-cases (text_eq t (codes "a.md"))) [
  | inl e ↦ rw (text_eq→eq t (codes "a.md") e, a_first, a_second) (omega arith)
  | inr e ↦ rw e (elim (Bool-cases (text_eq t (codes "b.md"))) [
    | inl k ↦ rw k (omega arith)
    | inr k ↦ rw k (omega arith)
  ])
])

index_again_example :
    Settled met filled
    × (index
          (λ k. none)
          (λ k. none)
          whole
          none
          by_one
          (pos 1)
          (λ d. none)
          no_fault
          (codes "vault")
          (ok met)
          filled
          1
        ≡ some (record {
          res = nothing_new whole by_one (pos 1) no_fault met;
          errs = [];
          db = filled;
          provider = 1;
        }))
index_again_example =
    index_again (λ k. none) (λ k. none) whole none by_one (pos 1) no_fault no_fault met same_code
      no_hash files (codes "vault") empty 0 first no_two files_scanned refl first_runs refl

empty-IsDb : IsDb empty
empty-IsDb = record {
  note_ids = tt;
  notes_apart = tt;
  chunk_ids = tt;
  chunks_apart = tt;
  vectors_apart = tt;
  owned = tt;
  held = tt;
}

index-IsDb_example : IsDb filled
index-IsDb_example =
    index-IsDb (λ k. none) (λ k. none) whole none by_one (pos 1) no_fault no_fault (codes "vault")
      (ok met) empty 0 first empty-IsDb first_runs
