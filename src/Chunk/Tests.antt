-- ===== src/Chunk/Tests.antt =====
-- Cut at concrete texts.
use rag_ai_system.Prelude.{◌≡◌, refl, some, List, [], ◌∷◌, pos, ok}
use rag_ai_system.Text.{
  Text, codes, is_space, trim_left, trim_right, trim_space, utf8_len, scan_lines,
}
use rag_ai_system.Chunk.{extract_paragraphs, build, cut_trimmed, cut}
use rag_ai_system.Chunk.Cut.{IsCut, Scannable, cut-IsCut}

abbrev sample : Text
sample = codes "ab cd\n\nefg\n \nh"

sample_scans : Scannable sample
unfolding scan_lines trim_space trim_left trim_right is_space utf8_len
sample_scans = refl

cut-sample : cut sample (pos 6) ≡ some (ok (codes "ab cd" ∷ codes "efg\n\nh" ∷ []))
unfolding cut cut_trimmed extract_paragraphs build scan_lines trim_space trim_left trim_right
    is_space utf8_len
cut-sample = refl

cut-IsCut_example :
    (chunks : List Text) × (cut sample (pos 6) ≡ some (ok chunks)) × IsCut 6 sample chunks
cut-IsCut_example = cut-IsCut sample 5 sample_scans
