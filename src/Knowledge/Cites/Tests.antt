-- ===== src/Knowledge/Cites/Tests.antt =====
-- A question over two notes, answered from the nearer one.
use rag_ai_system.Prelude.{
  ℕ, ◌+◌, ◌-◌, ◌≡◌, refl, true, Option, none, some, List, [], ◌∷◌, map, leb, All, length, pos, ok,
}
use rag_ai_system.Text.{Text, codes}
use rag_ai_system.Backoff.{Err}
use rag_ai_system.Embed.{Provider}
use rag_ai_system.Llm.{Generator}
use rag_ai_system.Rag.{seen_in}
use rag_ai_system.Storage.{NoteRow, ChunkRow, Db}
use rag_ai_system.Knowledge.Ask.{Answer, store_search, ask}
use rag_ai_system.Knowledge.Cites.{nearest, Shows, Cited, ask_cites}

abbrev first_of : List ℕ → ℕ
first_of [] = 0
first_of (x ∷ xs) = x

abbrev apart_by : List ℕ → List ℕ → ℕ
apart_by v w = (first_of v - first_of w) + (first_of w - first_of v)

abbrev note : ℕ → Text → NoteRow
note i path = record { id = i; path = path; name = []; text = codes "x"; hash = codes "h" }

abbrev chunk : ℕ → Text → ChunkRow
chunk i text = record { id = i; note_id = i; index = 0; text = text }

abbrev db : Db ℕ
db = record {
  notes = note 1 (codes "a.md") ∷ note 2 (codes "b.md") ∷ [];
  chunks = chunk 1 (codes "far") ∷ chunk 2 (codes "near") ∷ [];
  vectors = (1, 9 ∷ []) ∷ (2, 2 ∷ []) ∷ [];
  next_note = 3;
  next_chunk = 3;
}

abbrev tables : ℕ → Db ℕ
tables s = db

abbrev no_fault : ℕ → Option Err
no_fault s = none

abbrev score : ℕ → ℕ
score d = 10 - d

abbrev embedder : Provider ℕ ℕ
embedder = record {
  embed = λ texts kind s. (ok (map (λ t. length t ∷ []) texts), s + 1);
  space = record { provider = codes "fake"; model = codes "m"; dim = pos 1 };
  max_batch = pos 8;
}

abbrev generator : Generator ℕ
generator = record { generate = λ system user s. (ok (codes "it is x"), s + 1); model = codes "m" }

abbrev answer : Answer ℕ
answer = record {
  text = codes "it is x";
  model = codes "m";
  hits =
      record { source = codes "b.md"; title = []; index = pos 0; text = codes "near"; score = 9 }
      ∷ [];
  sources = codes "b.md" ∷ [];
  top_score = 9;
}

answered :
    ask
      (nearest apart_by leb score tables no_fault)
      (pos 1)
      embedder
      (codes "s")
      0
      (some generator)
      (codes "q")
      (pos 1)
      0
    ≡ (ok answer, 2)
unfolding ask nearest store_search
answered = refl

ask_cites_example :
    All (Shows db) answer.hits
    × ((source : Text)
        → seen_in source answer.sources ≡ true
        → Cited apart_by leb score tables no_fault db source)
ask_cites_example =
    ask_cites apart_by leb score tables no_fault (pos 1) embedder (codes "s") 0 generator
      (codes "q") (pos 1) 0 2 answer answered
