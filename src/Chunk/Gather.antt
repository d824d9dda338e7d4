-- ===== src/Chunk/Gather.antt =====
-- extractParagraphs gathers all that is visible, into paragraphs that are not empty.
use rag_ai_system.Prelude.{
  ℕ, ◌<◌, ◌≡◌, refl, sym, ap, ◌∙◌, ◌≢◌, ◌⊎◌, inl, inr, false, List, [], ◌∷◌, ◌++◌, append-nil,
  append_assoc, arith, ltb, if◌then◌else◌, Bool-cases, length, All, All-append, concat,
  concat-append, ok,
}
use rag_ai_system.Text.{
  Text, is_space, is_nil, trim_space, byte_len, newline, raw_lines, fitting, scan_lines, visible,
}
use rag_ai_system.Text.Trim.{
  is_nil→eq_nil, visible-append, visible-trim_space, trim_space-eq-nil, visible-eq-nil-trim_space,
}
use rag_ai_system.Text.Lines.{visible-raw_lines, visible-drop_cr}
use rag_ai_system.Chunk.{max_buff_size, Paragraphs, flush, add_line, add_lines, extract_paragraphs}

-- All that the loop has read, in order.
abbrev pub read : Paragraphs → Text
read st = concat st.paragraphs ++ st.cur_para

abbrev NotEmpty : Text → Type 0
NotEmpty p = 0 < length p

-- The paragraph in the making is empty or shows something.
record IsGathering (st : Paragraphs) : Type 0 where
  pub full : All NotEmpty st.paragraphs
  pub shows : (st.cur_para ≡ []) ⊎ (visible st.cur_para ≢ [])

trim_space_full : (s : Text) → visible s ≢ [] → NotEmpty (trim_space s)
trim_space_full s h =
    elim (trim_space s) as (λ t. trim_space s ≡ t → NotEmpty t) [
      | [] ↦ λ e. absurd (h (trim_space-eq-nil s e))
      | c ∷ t ↦ λ e. omega arith
    ]
      refl

nil_not : (s : Text) → s ≡ [] → is_nil s ≡ false → ⊥
nil_not s p e = cc (ap is_nil p)

append_not_nil : (s t : Text) → t ≢ [] → s ++ t ≢ []
append_not_nil [] t h e = h e
append_not_nil (c ∷ s) t h e = cc

visible_not_nil : (s : Text) → trim_space s ≢ [] → visible s ≢ []
visible_not_nil s h e = h (visible-eq-nil-trim_space s e)

shows_if :
    {st : Paragraphs} → IsGathering st → is_nil st.cur_para ≡ false → visible st.cur_para ≢ []
shows_if {st} h e = elim h.shows [ inl p ↦ absurd (nil_not st.cur_para p e) | inr v ↦ v ]

longer_shows :
    (st : Paragraphs) (line : Text)
    → is_nil (trim_space line) ≡ false
    → visible ((if is_nil st.cur_para then [] else st.cur_para ++ newline ∷ []) ++ line) ≢ []
longer_shows st line e v =
    append_not_nil (visible (if is_nil st.cur_para then [] else st.cur_para ++ newline ∷ []))
      (visible line) (visible_not_nil line (λ t. nil_not (trim_space line) t e))
      (sym (visible-append _ line) ∙ v)

pub flush-read : (st : Paragraphs) → visible (read (flush st)) ≡ visible (read st)
unfolding flush
flush-read st = elim (Bool-cases (is_nil st.cur_para)) [
  | inl e ↦ rw e
  | inr e ↦ rw e (simp (append-nil, concat-append, visible-append, visible-trim_space))
]

visible-newline : (s : Text) → visible (newline ∷ s) ≡ visible s
unfolding visible is_space
visible-newline s = refl

pub add_line-read :
    (st : Paragraphs) (line : Text)
    → visible (read (add_line st line)) ≡ visible (read st) ++ visible line
unfolding add_line visible
add_line-read st line = elim (Bool-cases (is_nil (trim_space line))) [
  | inl blank ↦
      rw (blank, trim_space-eq-nil line (is_nil→eq_nil _ blank), append-nil) (flush-read st)
  | inr some_text ↦ rw some_text (elim (Bool-cases (is_nil st.cur_para)) [
    | inl e ↦ rw (e, is_nil→eq_nil st.cur_para e) (simp (append-nil, visible-append))
    | inr e ↦ rw e (simp (visible-append, append_assoc, visible-newline))
  ])
]

flush-IsGathering : (st : Paragraphs) → IsGathering st → IsGathering (flush st)
unfolding flush
flush-IsGathering st h = elim (Bool-cases (is_nil st.cur_para)) [
  | inl e ↦ rw e h
  | inr e ↦ rw e (record {
    full =
        All-append NotEmpty st.paragraphs _ h.full (trim_space_full st.cur_para (shows_if h e), tt);
    shows = inl refl;
  })
]

add_line-IsGathering :
    (st : Paragraphs) (line : Text) → IsGathering st → IsGathering (add_line st line)
unfolding add_line
add_line-IsGathering st line h = elim (Bool-cases (is_nil (trim_space line))) [
  | inl blank ↦ rw blank (flush-IsGathering st h)
  | inr some_text ↦
      rw some_text (record { full = h.full; shows = inr (longer_shows st line some_text) })
]

add_lines-IsGathering :
    (st : Paragraphs) (lines : List Text) → IsGathering st → IsGathering (add_lines st lines)
unfolding add_lines
add_lines-IsGathering st [] h = h
add_lines-IsGathering st (line ∷ lines) h =
    add_lines-IsGathering (add_line st line) lines (add_line-IsGathering st line h)

add_lines-read :
    (st : Paragraphs) (lines : List Text)
    → visible (read (add_lines st lines)) ≡ visible (read st) ++ visible (concat lines)
unfolding add_lines visible
add_lines-read st [] = sym (append-nil (visible (read st)))
add_lines-read st (line ∷ lines) =
    rw (add_lines-read (add_line st line) lines)
      (simp (add_line-read st line, visible-append, append_assoc))

visible-fitting :
    (limit : ℕ) (ls : List Text)
    → (fitting limit ls).1 ≡ false
    → visible (concat (fitting limit ls).0) ≡ visible (concat ls)
unfolding fitting
visible-fitting limit [] h = refl
visible-fitting limit (l ∷ ls) h = elim (Bool-cases (ltb (byte_len l) limit)) [
  | inl e ↦ rw e (simp (visible-append, visible-drop_cr, visible-fitting limit ls (rw e at h)))
  | inr e ↦ cc (rw e at h)
]

flush_cur_para : (st : Paragraphs) → (flush st).cur_para ≡ []
unfolding flush
flush_cur_para st = elim (Bool-cases (is_nil st.cur_para)) [
  | inl e ↦ rw e (is_nil→eq_nil st.cur_para e)
  | inr e ↦ rw e
]

flushed : (st : Paragraphs) → visible (concat (flush st).paragraphs) ≡ visible (read st)
flushed st =
    ap visible (
      sym (append-nil (concat (flush st).paragraphs))
      ∙ ap (λ t. concat (flush st).paragraphs ++ t) (sym (flush_cur_para st)))
    ∙ flush-read st

-- Unless a line does not fit the scanner's buffer, the paragraphs are not empty, and they show what
-- the text shows.
pub extract_paragraphs_lem :
    (text : Text)
    → (scan_lines max_buff_size text).1 ≡ false
    → (ps : List Text) × (extract_paragraphs text ≡ ok ps)
      × All (λ p. 0 < length p) ps
      × (visible (concat ps) ≡ visible text)
unfolding extract_paragraphs scan_lines visible
extract_paragraphs_lem text h =
    let start : Paragraphs = record { paragraphs = []; cur_para = [] } in
    let lines = (scan_lines max_buff_size text).0 in
    let st = flush (add_lines start lines) in
    (
      st.paragraphs,
      rw h,
      (flush-IsGathering (add_lines start lines)
          (add_lines-IsGathering start lines (record { full = tt; shows = inl refl }))).full,
      flushed (add_lines start lines)
          ∙ add_lines-read start lines
          ∙ visible-fitting max_buff_size (raw_lines text) h
          ∙ visible-raw_lines text,
    )
