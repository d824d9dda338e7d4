-- ===== src/Vault/Frontmatter.antt =====
-- What yamlParser makes of the lines of a file.
use rag_ai_system.Prelude.{
  ℕ, ◌≡◌, refl, ap, ◌∙◌, inl, inr, Bool, true, false, Option, none, some, List, [], ◌∷◌, ◌++◌, map,
  append-nil, append_assoc, if◌then◌else◌, Bool-cases, Option-cases, All, Result, ok, err,
}
use rag_ai_system.Text.{Text, codes, trim_space, text_eq, newline, scan_lines}
use rag_ai_system.Vault.{
  max_buff_size, YamlInfo, VaultError, unclosed_frontmatter, cut_colon, trim_quotes_left,
  trim_quotes_right, Parser, fence, read_key, read_line, read_lines, without_bom, yaml_parser,
}

module _ (to_lower : ℕ → ℕ) where
  abbrev pub IsFence : Text → Type 0
  IsFence l = text_eq (trim_space l) fence ≡ true

  abbrev pub NoFence : Text → Type 0
  NoFence l = text_eq (trim_space l) fence ≡ false

  -- The title that a line between the fences gives: what stands behind the first colon of a line whose
  -- key is "title" in any case, without the quotes around it.
  abbrev pub title_in : Text → Option Text
  title_in l = elim (cut_colon (trim_space l)) [
    | none ↦ none
    | some (key, val) ↦
        if text_eq (map to_lower (trim_space key)) (codes "title")
        then some (trim_quotes_left (trim_quotes_right (trim_space val)))
        else none
  ]

  -- The last title that the lines give.
  abbrev pub last_title : List Text → Option Text
  last_title [] = none
  last_title (l ∷ ls) =
      let later = last_title ls in elim later [ some t ↦ some t | none ↦ title_in l ]

  abbrev pub or_title : Text → Option Text → Text
  or_title title none = title
  or_title title (some t) = t

  read_key-title_in :
      (title l : Text) → read_key to_lower title (trim_space l) ≡ or_title title (title_in l)
  unfolding read_key
  read_key-title_in title l = elim (Option-cases (cut_colon (trim_space l))) [
    | inl e ↦ rw (e, read_key, title_in) refl
    | inr ((key, val), e) ↦
        rw (e, read_key, title_in)
          (elim (Bool-cases (text_eq (map to_lower (trim_space key)) (codes "title"))) [
            | inl k ↦ rw k refl
            | inr k ↦ rw k refl
          ])
  ]

  last_title_step :
      (title : Text) (l : Text) (later : Option Text)
      → or_title (or_title title (title_in l)) later
        ≡ or_title title (elim later [ some t ↦ some t | none ↦ title_in l ])
  last_title_step title l none = refl
  last_title_step title l (some t) = refl

  abbrev pub unlines : List Text → Text
  unlines [] = []
  unlines (l ∷ ls) = (l ++ newline ∷ []) ++ unlines ls

  abbrev inside : Text → Parser
  inside title = record {
    title = title;
    body = [];
    found_start = true;
    in_frontmatter = true;
    body_started = false;
  }

  abbrev below : Text → Text → Parser
  below title body = record {
    title = title;
    body = body;
    found_start = true;
    in_frontmatter = false;
    body_started = true;
  }

  read_body :
      (text title body : Text) (ls : List Text)
      → read_lines to_lower text false (below title body) ls
        ≡ ok (record { title = title; body = trim_space (body ++ unlines ls) })
  unfolding read_lines read_line
  read_body text title body [] = rw (append-nil body)
  read_body text title body (l ∷ ls) =
      read_body text title (body ++ l ++ newline ∷ []) ls
      ∙ rw (append_assoc body l (newline ∷ []), append_assoc body (l ++ newline ∷ []) (unlines ls))
          refl

  read_front :
      (text title : Text) (meta : List Text) (closing : Text) (bodies : List Text)
      → All NoFence meta
      → IsFence closing
      → read_lines to_lower text false (inside title) (meta ++ closing ∷ bodies)
        ≡ ok (record {
          title = or_title title (last_title meta);
          body = trim_space (unlines bodies);
        })
  unfolding read_lines read_line
  read_front text title [] closing bodies n c =
      rw (c, read_lines, read_line) (read_body text title [] bodies)
  read_front text title (l ∷ meta) closing bodies n c =
      let parsed : Text → Result VaultError YamlInfo =
        λ t. ok (record { title = t; body = trim_space (unlines bodies) }) in
      rw (n.0, read_lines, read_line)
        (read_front text (read_key to_lower title (trim_space l)) meta closing bodies n.1 c
          ∙ ap parsed (
              ap (λ t. or_title t (last_title meta)) (read_key-title_in title l)
              ∙ last_title_step title l (last_title meta)))

  read_unclosed :
      (text title : Text) (meta : List Text)
      → All NoFence meta
      → read_lines to_lower text false (inside title) meta ≡ err unclosed_frontmatter
  unfolding read_lines read_line
  read_unclosed text title [] n = refl
  read_unclosed text title (l ∷ meta) n =
      rw (n.0, read_lines, read_line)
        (read_unclosed text (read_key to_lower title (trim_space l)) meta n.1)

  -- A file whose first line is a fence, with a later one that closes it, and with no line that is too
  -- long for the scanner: the title is the last that the lines between them give, or empty where none
  -- gives one, and the body is all below, trimmed.
  pub yaml_parser_front :
      (file opening : Text) (meta : List Text) (closing : Text) (bodies : List Text)
      → scan_lines max_buff_size (without_bom to_lower file)
        ≡ (opening ∷ meta ++ closing ∷ bodies, false)
      → IsFence opening
      → All NoFence meta
      → IsFence closing
      → yaml_parser to_lower file
        ≡ ok (record { title = or_title [] (last_title meta); body = trim_space (unlines bodies) })
  unfolding yaml_parser read_lines read_line
  yaml_parser_front file opening meta closing bodies lines o n c =
      rw (lines, yaml_parser)
        (rw (o, read_lines, read_line)
          (read_front (without_bom to_lower file) [] meta closing bodies n c))

  -- A file whose first line is the only fence is refused as unclosed.
  pub yaml_parser_unclosed :
      (file opening : Text) (meta : List Text)
      → scan_lines max_buff_size (without_bom to_lower file) ≡ (opening ∷ meta, false)
      → IsFence opening
      → All NoFence meta
      → yaml_parser to_lower file ≡ err unclosed_frontmatter
  unfolding yaml_parser read_lines read_line
  yaml_parser_unclosed file opening meta lines o n =
      rw (lines, yaml_parser)
        (rw (o, read_lines, read_line) (read_unclosed (without_bom to_lower file) [] meta n))

  -- A file whose first line is no fence is all body, also where a fence stands further down or a
  -- later line is too long for the scanner.
  pub yaml_parser_plain :
      (file first : Text) (rest : List Text) (failed : Bool)
      → scan_lines max_buff_size (without_bom to_lower file) ≡ (first ∷ rest, failed)
      → NoFence first
      → yaml_parser to_lower file
        ≡ ok (record { title = []; body = trim_space (without_bom to_lower file) })
  unfolding yaml_parser read_lines read_line
  yaml_parser_plain file first rest failed lines n =
      rw (lines, yaml_parser) (rw (n, read_lines, read_line) refl)
