-- ===== src/Knowledge/Settled/Files.antt =====
-- The paths of internal/vault/vault.go: Scan meets each file once, and Index keeps what it met.
use rag_ai_system.Prelude.{
  ℕ, ◌≤◌, ◌≡◌, refl, ◌∙◌, inl, inr, true, false, List, [], ◌∷◌, map, arith, Bool-cases, All, ok,
}
use rag_ai_system.Text.{Text, text_eq}
use rag_ai_system.Vault.Scan.{
  Note, Visit, ScanResult, scan, count, note_paths, markdown_paths, scan_counts,
}
use rag_ai_system.Rag.Unique.{text_eq_refl, text_eq_sym}
use rag_ai_system.Storage.{in_list}
use rag_ai_system.Knowledge.Index.{in_list-append}
use rag_ai_system.Storage.Tables.{All-implies}
use rag_ai_system.Knowledge.Settled.{found_paths}

-- No two notes of the list have one path.
abbrev pub Distinct : List Note → Type 0
Distinct [] = Unit
Distinct (n ∷ ns) = All (λ (m : Note). text_eq m.path n.path ≡ false) ns × Distinct ns

module _ (to_lower : ℕ → ℕ) (sha256 : Text → Text) where
  uncounted :
      (s : Text) (ns : List Note)
      → count to_lower sha256 s (note_paths to_lower sha256 ns) ≤ 0
      → All (λ (m : Note). text_eq m.path s ≡ false) ns
  uncounted s [] h = tt
  uncounted s (n ∷ ns) h = elim (Bool-cases (text_eq s n.path)) [
    | inl e ↦ absurd (ground arith)
    | inr e ↦ (text_eq_sym n.path s ∙ e, uncounted s ns (ground arith))
  ]

  counted-Distinct :
      (ns : List Note)
      → ((s : Text) → count to_lower sha256 s (note_paths to_lower sha256 ns) ≤ 1)
      → Distinct ns
  counted-Distinct [] h = tt
  counted-Distinct (n ∷ ns) h = (
    uncounted n.path ns (ground (arith, h n.path, text_eq_refl n.path)),
    counted-Distinct ns (λ s. ground (arith, h s)),
  )

  -- A walk that meets no file twice gives notes of different paths.
  pub scan-Distinct :
      (visits : List Visit) (found : ScanResult)
      → ((s : Text) → count to_lower sha256 s (markdown_paths to_lower sha256 visits) ≤ 1)
      → scan to_lower sha256 visits ≡ ok found
      → Distinct found.notes
  scan-Distinct visits found once ran =
      counted-Distinct found.notes
        (λ s. omega (arith, scan_counts to_lower sha256 visits found s ran, once s))

paths_listed :
    (ns : List Note) → All (λ (n : Note). in_list n.path (map (λ m. m.path) ns) ≡ true) ns
paths_listed [] = tt
paths_listed (n ∷ ns) =
    (rw (text_eq_refl n.path) refl, All-implies _ _ ns (λ m h. ground (arith, h)) (paths_listed ns))

pub notes_listed :
    (found : ScanResult) → All (λ (n : Note). in_list n.path (found_paths found) ≡ true) found.notes
notes_listed found =
    All-implies _ _ found.notes
      (λ n h.
        ground (arith, in_list-append n.path found.skipped (map (λ m. m.path) found.notes), h))
      (paths_listed found.notes)
