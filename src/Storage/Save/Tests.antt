-- ===== src/Storage/Save/Tests.antt =====
-- A note is saved.
use rag_ai_system.Prelude.{ℕ, ◌≡◌, refl, true, none, some, List, [], ◌∷◌, arith, get_elem?, ok}
use rag_ai_system.Text.{Text, codes}
use rag_ai_system.Vault.Scan.{Note}
use rag_ai_system.Storage.{Db, upsert_note, save_note}
use rag_ai_system.Storage.Save.{of_note, save_note_written}

abbrev empty : Db ℕ
empty = record { notes = []; chunks = []; vectors = []; next_note = 1; next_chunk = 1 }

abbrev note : Note
note = record { path = codes "a.md"; hash = codes "h"; text = codes "x"; name = [] }

abbrev parts : List Text
parts = codes "x" ∷ codes "y" ∷ []

save_note_written_example :
    let id = (upsert_note note empty).1.0 in
    let (result, db') = save_note none note (ok parts) empty in
    (result ≡ ok (id, true))
    × (get_elem? (of_note id db'.chunks) 1
        ≡ some (record { id = 2; note_id = id; index = 1; text = codes "y" }))
    × (of_note 2 db'.chunks ≡ of_note 2 empty.chunks)
unfolding upsert_note
save_note_written_example = save_note_written note parts empty 1 2 refl (omega arith)
