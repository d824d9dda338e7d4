-- ===== src/Config/Tests.antt =====
-- A variable that does not parse, and a blank one.
use rag_ai_system.Prelude.{ℕ, ◌≡◌, refl, Option, none, [], if◌then◌else◌, ok, err}
use rag_ai_system.Text.{Text, codes, is_space, trim_left, trim_right, trim_space, text_eq}
use rag_ai_system.Config.{parsed_setting}

abbrev env : Text → Text
env key = if text_eq key (codes "CHUNK_SIZE") then codes " x " else []

abbrev no_number : Text → Option ℕ
no_number s = none

bad_size :
    parsed_setting env no_number (codes "CHUNK_SIZE") 800 ≡ err (codes "CHUNK_SIZE", codes "x")
unfolding parsed_setting text_eq trim_space trim_left trim_right is_space
bad_size = refl

blank_size : parsed_setting env no_number (codes "EMBED_DIM") 768 ≡ ok 768
unfolding parsed_setting text_eq trim_space trim_left trim_right is_space
blank_size = refl
