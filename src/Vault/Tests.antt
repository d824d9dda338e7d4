-- ===== src/Vault/Tests.antt =====
-- Two small files, and a pass over them.
use rag_ai_system.Prelude.{ℕ, ◌≡◌, refl, false, some, List, [], ◌∷◌, ok}
use rag_ai_system.Text.{
  Text, codes, is_space, trim_left, trim_right, trim_space, utf8_len, text_eq, scan_lines,
  after_prefix,
}
use rag_ai_system.Vault.{yaml_parser}
use rag_ai_system.Vault.Frontmatter.{last_title, or_title, unlines, yaml_parser_front}
use rag_ai_system.Vault.Scan.{Visit, visit, scan, count, markdown_paths, accounted, scan_counts}

abbrev same : ℕ → ℕ
same c = c

abbrev titled : Text
titled = codes "---\ntitle: A\n---\nbody"

abbrev open_file : Text
open_file = codes "---\ntitle: A"

yaml_parser_front_example :
    yaml_parser same titled
    ≡ ok (record {
      title = or_title same [] (last_title same (codes "title: A" ∷ []));
      body = trim_space (unlines same (codes "body" ∷ []));
    })
unfolding scan_lines utf8_len after_prefix trim_space trim_left trim_right is_space text_eq
yaml_parser_front_example =
    yaml_parser_front same titled (codes "---") (codes "title: A" ∷ []) (codes "---")
      (codes "body" ∷ []) refl refl (refl, tt) refl

abbrev visits : List Visit
visits =
    record {
      path = codes "v/a.md";
      walk_fails = false;
      is_dir = false;
      rel_path = some (codes "a.md");
      content = some open_file;
    }
    ∷ record {
      path = codes "v/b.txt";
      walk_fails = false;
      is_dir = false;
      rel_path = some (codes "b.txt");
      content = some [];
    }
    ∷ []

scan_counts_example :
    accounted same (λ s. s) (codes "a.md") (record { notes = []; skipped = codes "a.md" ∷ [] })
    ≡ count same (λ s. s) (codes "a.md") (markdown_paths same (λ s. s) visits)
unfolding scan visit yaml_parser scan_lines utf8_len after_prefix trim_space trim_left trim_right
    is_space
scan_counts_example =
    scan_counts same (λ s. s) visits (record { notes = []; skipped = codes "a.md" ∷ [] })
      (codes "a.md") refl
