-- ===== src/Knowledge/Settled/Settles.antt =====
-- Index of knowledge/knowledge.go from any tables: what a pass without an error leaves.
use rag_ai_system.Prelude.{
  ℕ, ◌+◌, ◌≡◌, refl, ap, ◌∙◌, subst, ◌≢◌, inl, inr, Bool, true, false, Option, List, [], ◌∷◌, ◌++◌,
  Option-cases, All, Result, ok, err, ok-injective,
}
use rag_ai_system.Text.{Text, text_eq}
use rag_ai_system.Backoff.{Err}
use rag_ai_system.Chunk.{CutError}
use rag_ai_system.Vault.Scan.{Note}
use rag_ai_system.Storage.{Db, SaveError, save_note}
use rag_ai_system.Storage.Save.Keeps.{Stored, save_note-Stored, save_note_other}
use rag_ai_system.Knowledge.Index.{Pass, count_saved, save_one, save_all}
use rag_ai_system.Knowledge.Settled.Files.{Distinct}

nil-append {ℓ} : {A : Type ℓ} (xs : List A) (x : A) → (xs ++ x ∷ []) ≢ []
nil-append [] x h = cc
nil-append (y ∷ xs) x h = cc

module _ {F : Type 0} (ctx_err : ℕ → Option Err) (fault : ℕ → Option Err)
    (chunker : Text → Result CutError (List Text)) where
  -- What one turn of the loop did: what it says of the row of its note, and of the others.
  record Turn (n : Note) (st next : Pass F) : Type 0 where
    others :
        (m : Note) → text_eq n.path m.path ≡ false → Stored st.db.notes m → Stored next.db.notes m
    clean : next.note_errs ≡ [] → (st.note_errs ≡ []) × Stored next.db.notes n

  count_saved-Turn :
      (n : Note) (st : Pass F) (r : Result SaveError (ℕ × Bool) × Db F)
      → ((m : Note) → text_eq n.path m.path ≡ false → Stored st.db.notes m → Stored r.1.notes m)
      → ((x : ℕ × Bool) → r.0 ≡ ok x → Stored r.1.notes n)
      → Turn n st (count_saved ctx_err fault chunker st r)
  count_saved-Turn n st (err e, db) o s = record {
    others = o;
    clean = λ h. absurd (nil-append st.note_errs e h);
  }
  count_saved-Turn n st (ok (id, true), db) o s = record {
    others = o;
    clean = λ h. (h, s (id, true) refl);
  }
  count_saved-Turn n st (ok (id, false), db) o s = record {
    others = o;
    clean = λ h. (h, s (id, false) refl);
  }

  save_one-Turn :
      (i : ℕ) (n : Note) (st : Pass F) → Turn n st (save_one ctx_err fault chunker i n st)
  unfolding save_one
  save_one-Turn i n st =
      count_saved-Turn n st (save_note (fault i) n (chunker n.text) st.db)
        (λ m apart (r, f, same).
          (r, save_note_other (fault i) n (chunker n.text) m.path st.db apart ∙ f, same))
        (save_note-Stored (fault i) n (chunker n.text) st.db)

  save_all-keeps :
      (i : ℕ) (ns : List Note) (st out : Pass F) (m : Note)
      → save_all ctx_err fault chunker i ns st ≡ ok out
      → All (λ (n : Note). text_eq n.path m.path ≡ false) ns
      → Stored st.db.notes m
      → Stored out.db.notes m
  unfolding save_all
  save_all-keeps i [] st out m ran apart h =
      subst (λ (p : Pass F). Stored p.db.notes m) (ok-injective ran) h
  save_all-keeps i (n ∷ ns) st out m ran (a, apart) h = elim (Option-cases (ctx_err i)) [
    | inr (e, ended) ↦ cc (rw (ended, save_all) at ran)
    | inl open_ctx ↦
        save_all-keeps (i + 1) ns (save_one ctx_err fault chunker i n st) out m
          (rw (open_ctx, save_all) at ran) apart ((save_one-Turn i n st).others m a h)
  ]

  save_all-clean :
      (i : ℕ) (ns : List Note) (st out : Pass F)
      → save_all ctx_err fault chunker i ns st ≡ ok out
      → out.note_errs ≡ []
      → st.note_errs ≡ []
  unfolding save_all
  save_all-clean i [] st out ran h = ap (λ (p : Pass F). p.note_errs) (ok-injective ran) ∙ h
  save_all-clean i (n ∷ ns) st out ran h = elim (Option-cases (ctx_err i)) [
    | inr (e, ended) ↦ cc (rw (ended, save_all) at ran)
    | inl open_ctx ↦
        ((save_one-Turn i n st).clean (
          save_all-clean (i + 1) ns (save_one ctx_err fault chunker i n st) out
            (rw (open_ctx, save_all) at ran) h)).0
  ]

  -- A loop that ends without a failed note leaves a row for each note, with the hash of its file.
  pub save_all-Stored :
      (i : ℕ) (ns : List Note) (st out : Pass F)
      → save_all ctx_err fault chunker i ns st ≡ ok out
      → out.note_errs ≡ []
      → Distinct ns
      → All (Stored out.db.notes) ns
  unfolding save_all
  save_all-Stored i [] st out ran h d = tt
  save_all-Stored i (n ∷ ns) st out ran h (apart, d) = elim (Option-cases (ctx_err i)) [
    | inr (e, ended) ↦ cc (rw (ended, save_all) at ran)
    | inl open_ctx ↦
        let next = save_one ctx_err fault chunker i n st in
        let rest : save_all ctx_err fault chunker (i + 1) ns next ≡ ok out =
          rw (open_ctx, save_all) at ran in
        (
          save_all-keeps (i + 1) ns next out n rest apart
              ((save_one-Turn i n st).clean (save_all-clean (i + 1) ns next out rest h)).1,
          save_all-Stored (i + 1) ns next out rest h d,
        )
  ]
