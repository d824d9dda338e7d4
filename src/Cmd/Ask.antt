-- ===== src/Cmd/Ask.antt =====
-- cmd/ask/main.go: run and what it prints.
use rag_ai_system.Prelude.{
  ℕ, ◌+◌, Bool, true, false, none, List, [], ◌∷◌, ◌++◌, leb, if◌then◌else◌, length, take, ℤ, Result,
  ok, err,
}
use rag_ai_system.Text.{Text, codes, is_space, is_nil, trim_space}
use rag_ai_system.Backoff.{Err}
use rag_ai_system.Embed.Fake.{fields_func}
use rag_ai_system.Knowledge.Ask.{Hit, Answer, AskError}
use rag_ai_system.Knowledge.Open.{OpenConfig, Knowledge, Site, Calls, open_knowledge, SettingsError}
use rag_ai_system.Cmd.{
  Methods, no_question, bad_settings, not_opened, stopped, unanswered, Line, nothing_found,
  shown_hit, shown_answer, Ended, gave_up, and_close,
}

-- strings.Join(words, " ")
abbrev pub join_words : List Text → Text
join_words [] = []
join_words (w ∷ []) = w
join_words (w ∷ v ∷ ws) = w ++ (b' ' ∷ join_words (v ∷ ws))

unfoldable pub preview : Text → ℕ → Text
unfolding fields_func is_space
preview s limit =
    let line = join_words (fields_func is_space s) in
    if leb (length line) limit then line else take limit line ++ codes "…"

module _ {F P R Score S : Type 0} (o : Calls F P R) (kb : Methods Score S) where
  abbrev pub shown : ℕ → List (Hit Score) → List (Line Score)
  shown i [] = []
  shown i (h ∷ hs) = shown_hit (i + 1) h (preview h.text 240) ∷ shown (i + 1) hs

  abbrev pub print_search : Site → Result Err (List (Hit Score)) × S → Ended Score S
  print_search site (err e, s) = gave_up (stopped e) site s
  print_search site (ok [], s) = record {
    error = none;
    printed = nothing_found ∷ [];
    site = site;
    state = s;
  }
  print_search site (ok (h ∷ hs), s) = record {
    error = none;
    printed = shown 0 (h ∷ hs);
    site = site;
    state = s;
  }

  abbrev pub print_answer : Site → Result AskError (Answer Score) × S → Ended Score S
  print_answer site (err e, s) = gave_up (unanswered e) site s
  print_answer site (ok a, s) = record {
    error = none;
    printed = shown_answer a ∷ [];
    site = site;
    state = s;
  }

  abbrev pub ask_opened : Bool → Text → ℤ → S → Result Err (Knowledge F P R) × Site → Ended Score S
  ask_opened search_only question top_k s (err e, site) = gave_up (not_opened e) site s
  ask_opened true question top_k s (ok k, site) =
      and_close k (print_search site (kb.search question top_k s))
  ask_opened false question top_k s (ok k, site) =
      and_close k (print_answer site (kb.ask question top_k s))

  abbrev pub without_generator : Bool → OpenConfig R → OpenConfig R
  without_generator search_only cfg = if search_only then record cfg { generator = none } else cfg

  abbrev pub asked :
      Bool → Text → ℤ → Result SettingsError (OpenConfig R) → Site → S → Ended Score S
  asked search_only question top_k (err e) site s = gave_up (bad_settings e) site s
  asked search_only question top_k (ok cfg) site s =
      ask_opened search_only question top_k s
        (open_knowledge o (without_generator search_only cfg) site)

  -- run, on the flags, the arguments joined by spaces, and what ConfigFromEnv gave.
  unfoldable pub run_ask :
      Bool → Text → ℤ → Result SettingsError (OpenConfig R) → Site → S → Ended Score S
  unfolding open_knowledge preview trim_space
  run_ask search_only args top_k settings site s =
      if is_nil (trim_space args)
      then gave_up no_question site s
      else asked search_only (trim_space args) top_k settings site s
