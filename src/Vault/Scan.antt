-- ===== src/Vault/Scan.antt =====
-- internal/vault/vault.go: Scan accounts for every markdown file.
use rag_ai_system.Prelude.{
  ℕ, ◌+◌, ◌≡◌, refl, ap, ◌∙◌, inl, inr, Bool, true, not, ◌&&◌, Option, none, some, List, [], ◌∷◌,
  ◌++◌, map, arith, if◌then◌else◌, Bool-cases, Option-cases, Result, ok, err, ok-injective,
  Result-cases,
}
use rag_ai_system.Text.{Text, codes, text_eq}
use rag_ai_system.Vault.{
  YamlInfo, VaultError, unclosed_frontmatter, scanner_error, walk_error, rel_error, read_error,
  yaml_parser, ext,
}

pub record Note : Type 0 where
  pub path : Text
  pub hash : Text
  pub text : Text
  pub name : Text

-- What filepath.WalkDir shows of one entry, and what filepath.Rel and os.ReadFile say of it.
pub record Visit : Type 0 where
  pub path : Text
  pub walk_fails : Bool
  pub is_dir : Bool
  pub rel_path : Option Text
  pub content : Option Text

pub record ScanResult : Type 0 where
  pub notes : List Note
  pub skipped : List Text

module _ (to_lower : ℕ → ℕ) (sha256 : Text → Text) where
  abbrev pub is_markdown : Visit → Bool
  is_markdown v = not v.is_dir && text_eq (map to_lower (ext to_lower v.path)) (codes ".md")

  -- The end of the visit of a file that was read.
  abbrev pub add_parsed :
      ScanResult → Text → Text → Result VaultError YamlInfo → Result VaultError ScanResult
  add_parsed res rel content (ok yaml) = ok (record res {
    notes =
        res.notes
        ++ record { path = rel; hash = sha256 content; text = yaml.body; name = yaml.title } ∷ [];
  })
  add_parsed res rel content (err unclosed_frontmatter) =
      ok (record res { skipped = res.skipped ++ rel ∷ [] })
  add_parsed res rel content (err other) = err other

  abbrev pub read_file : ScanResult → Option Text → Option Text → Result VaultError ScanResult
  read_file res none content = err rel_error
  read_file res (some rel) none = err read_error
  read_file res (some rel) (some content) =
      add_parsed res rel content (yaml_parser to_lower content)

  -- The function that Scan hands to WalkDir.
  unfoldable pub visit : ScanResult → Visit → Result VaultError ScanResult
  unfolding text_eq ext
  visit res v =
      if v.walk_fails
      then err walk_error
      else if is_markdown v
      then read_file res v.rel_path v.content
      else ok res

  -- The walk; an error stops it. That Skipped is not empty is what the warning error says.
  unfoldable pub scan_from : ScanResult → List Visit → Result VaultError ScanResult
  unfolding visit
  scan_from res [] = ok res
  scan_from res (v ∷ vs) = elim (visit res v) [ err e ↦ err e | ok res' ↦ scan_from res' vs ]

  unfoldable pub scan : List Visit → Result VaultError ScanResult
  unfolding scan_from
  scan visits = scan_from (record { notes = []; skipped = [] }) visits

  abbrev pub count : Text → List Text → ℕ
  count s [] = 0
  count s (t ∷ ts) = (if text_eq s t then 1 else 0) + count s ts

  abbrev pub note_paths : List Note → List Text
  note_paths [] = []
  note_paths (n ∷ ns) = n.path ∷ note_paths ns

  -- The vault-relative paths of the markdown files.
  abbrev pub markdown_paths : List Visit → List Text
  markdown_paths [] = []
  markdown_paths (v ∷ vs) =
      if is_markdown v
      then elim v.rel_path [ none ↦ markdown_paths vs | some rel ↦ rel ∷ markdown_paths vs ]
      else markdown_paths vs

  count-append : (s : Text) (xs ys : List Text) → count s (xs ++ ys) ≡ count s xs + count s ys
  count-append s [] ys = omega arith
  count-append s (x ∷ xs) ys = omega (arith, count-append s xs ys)

  note_paths-append : (xs ys : List Note) → note_paths (xs ++ ys) ≡ note_paths xs ++ note_paths ys
  note_paths-append [] ys = refl
  note_paths-append (x ∷ xs) ys = rw (note_paths-append xs ys)

  -- How often a path is accounted for.
  abbrev pub accounted : Text → ScanResult → ℕ
  accounted s res = count s (note_paths res.notes) + count s res.skipped

  parsed_counts :
      (s : Text) (res : ScanResult) (rel content : Text) (r : Result VaultError YamlInfo)
      (out : ScanResult)
      → add_parsed res rel content r ≡ ok out
      → accounted s out ≡ accounted s res + count s (rel ∷ [])
  parsed_counts s res rel content (ok yaml) out h = rw (← ok-injective h) (
      let n : Note = record {
        path = rel;
        hash = sha256 content;
        text = yaml.body;
        name = yaml.title;
      } in
      omega (
        arith,
        ap (count s) (note_paths-append res.notes (n ∷ [])),
        count-append s (note_paths res.notes) (rel ∷ []),
      ))
  parsed_counts s res rel content (err unclosed_frontmatter) out h =
      rw (← ok-injective h) (omega (arith, count-append s res.skipped (rel ∷ [])))
  parsed_counts s res rel content (err scanner_error) out h = cc
  parsed_counts s res rel content (err walk_error) out h = cc
  parsed_counts s res rel content (err rel_error) out h = cc
  parsed_counts s res rel content (err read_error) out h = cc

  read_counts :
      (s : Text) (res : ScanResult) (rel content : Option Text) (out : ScanResult)
      → read_file res rel content ≡ ok out
      → accounted s out ≡ accounted s res + count s (elim rel [ none ↦ [] | some r ↦ r ∷ [] ])
  read_counts s res none content out h = cc
  read_counts s res (some rel) none out h = cc
  read_counts s res (some rel) (some content) out h =
      parsed_counts s res rel content (yaml_parser to_lower content) out h

  markdown_cons :
      (s : Text) (v : Visit) (vs : List Visit)
      → is_markdown v ≡ true
      → count s (markdown_paths (v ∷ vs))
        ≡ count s (elim v.rel_path [ none ↦ [] | some r ↦ r ∷ [] ]) + count s (markdown_paths vs)
  markdown_cons s v vs md = rw md (elim (Option-cases v.rel_path) [
    | inl e ↦ rw e (omega arith)
    | inr (r, e) ↦ rw e (omega arith)
  ])

  visit_counts :
      (s : Text) (res : ScanResult) (v : Visit) (vs : List Visit) (out : ScanResult)
      → visit res v ≡ ok out
      → accounted s out + count s (markdown_paths vs)
        ≡ accounted s res + count s (markdown_paths (v ∷ vs))
  unfolding visit
  visit_counts s res v vs out h = elim (Bool-cases v.walk_fails) [
    | inl e ↦ cc (rw e at h)
    | inr e ↦ elim (Bool-cases (is_markdown v)) [
      | inl md ↦ omega (
        arith,
        read_counts s res v.rel_path v.content out (rw (e, md) at h),
        markdown_cons s v vs md,
      )
      | inr other ↦ rw other (rw (← ok-injective (rw (e, other) at h)) refl)
    ]
  ]

  scan_from_counts :
      (s : Text) (res : ScanResult) (vs : List Visit) (out : ScanResult)
      → scan_from res vs ≡ ok out
      → accounted s out ≡ accounted s res + count s (markdown_paths vs)
  unfolding scan_from
  scan_from_counts s res [] out h = rw (← ok-injective h) (omega arith)
  scan_from_counts s res (v ∷ vs) out h = elim (Result-cases (visit res v)) [
    | inl (e, seen) ↦ cc (rw (seen, scan_from) at h)
    | inr (res', seen) ↦ omega (
      arith,
      scan_from_counts s res' vs out (rw (seen, scan_from) at h),
      visit_counts s res v vs res' seen,
    )
  ]

  -- A pass that is not stopped accounts for every markdown file, once for each time that it is met,
  -- and for nothing else: its path is among the notes or among the skipped.
  pub scan_counts :
      (visits : List Visit) (out : ScanResult) (s : Text)
      → scan visits ≡ ok out
      → accounted s out ≡ count s (markdown_paths visits)
  unfolding scan
  scan_counts visits out s h =
      scan_from_counts s (record { notes = []; skipped = [] }) visits out h ∙ omega arith
