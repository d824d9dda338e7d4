-- ===== src/Knowledge/Index/Tests.antt =====
-- The prune of a pass that skipped a file.
use rag_ai_system.Prelude.{ℕ, ◌≡◌, refl, Option, none, List, [], ◌∷◌, Result, ok}
use rag_ai_system.Text.{Text, codes, text_eq}
use rag_ai_system.Backoff.{Err}
use rag_ai_system.Chunk.{CutError}
use rag_ai_system.Vault.Scan.{ScanResult}
use rag_ai_system.Storage.{find_note, delete_missing}
use rag_ai_system.Knowledge.Index.{nothing_yet, Pass, prune, prune_keeps}

abbrev start : Pass ℕ
start = record {
  db = record { notes = []; chunks = []; vectors = []; next_note = 1; next_chunk = 1 };
  res = nothing_yet;
  note_errs = [];
}

abbrev quiet : ℕ → Option Err
quiet i = none

abbrev whole : Text → Result CutError (List Text)
whole t = ok (t ∷ [])

abbrev seen : ScanResult
seen = record { notes = []; skipped = codes "a.md" ∷ [] }

abbrev stored : Pass ℕ
stored = record start {
  db = record {
    notes =
        record { id = 1; path = codes "a.md"; name = []; text = codes "x"; hash = codes "h" } ∷ [];
    chunks = [];
    vectors = [];
    next_note = 2;
    next_chunk = 1;
  };
}

prune_keeps_example :
    find_note (codes "a.md") stored.db.notes ≡ find_note (codes "a.md") stored.db.notes
unfolding prune delete_missing text_eq
prune_keeps_example = prune_keeps quiet quiet whole seen stored stored (codes "a.md") refl refl
