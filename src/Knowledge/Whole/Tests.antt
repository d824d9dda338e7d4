-- ===== src/Knowledge/Whole/Tests.antt =====
-- A pass over one note.
use rag_ai_system.Prelude.{
  ℕ, ◌+◌, ◌≡◌, Option, none, some, List, [], ◌∷◌, map, length, pos, Result, ok,
}
use rag_ai_system.Text.{Text, codes}
use rag_ai_system.Backoff.{Err}
use rag_ai_system.Chunk.{CutError}
use rag_ai_system.Vault.{VaultError}
use rag_ai_system.Vault.Scan.{ScanResult}
use rag_ai_system.Embed.{Provider}
use rag_ai_system.Storage.{Db}
use rag_ai_system.Knowledge.Whole.{Indexed, index, Complete, index-Complete}

abbrev by_one : Provider ℕ ℕ
by_one = record {
  embed = λ texts kind s. (ok (map (λ t. length t ∷ []) texts), s + 1);
  space = record { provider = codes "fake"; model = codes "m"; dim = pos 1 };
  max_batch = pos 1;
}

abbrev quiet : ℕ → Option Err
quiet i = none

abbrev no_fault : Db ℕ → Option Err
no_fault db = none

abbrev whole : Text → Result CutError (List Text)
whole t = ok (t ∷ [])

abbrev found : Result VaultError ScanResult
found = ok (record {
  notes = record { path = codes "a.md"; hash = codes "h"; text = codes "x"; name = [] } ∷ [];
  skipped = [];
})

abbrev nothing : Db ℕ
nothing = record { notes = []; chunks = []; vectors = []; next_note = 1; next_chunk = 1 }

index-Complete_example :
    (out : Indexed ℕ ℕ) × (index quiet quiet whole none by_one
        (pos 1)
        no_fault
        no_fault
        (codes "vault")
        found
        nothing
        0
      ≡ some out)
    × Complete quiet quiet whole none by_one (pos 1) no_fault no_fault (1, 0) out
index-Complete_example =
    index-Complete quiet quiet whole none by_one (pos 1) no_fault no_fault (codes "vault") found
      nothing 0
