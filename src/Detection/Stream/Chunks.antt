-- ===== src/Detection/Stream/Chunks.antt =====
-- Where the stream is cut into chunks does not matter.
use traceroot.Prelude.{
  false, ap, ◌∙◌, sym, not, append_assoc, [], ◌∷◌, true, inl, ◌≡◌, ◌++◌, all, append_nil, refl,
  List, arith, Bool-cases, ◌==◌, Bool, ◌&&◌, inr, ℕ,
}
use traceroot.Detection.Run.{Text}
use traceroot.Detection.Stream.{
  finish, start_reader, on_chunk, read_chunks, read_session, cut, Reader, Parser, on_line, on_lines,
}

-- the text of a sequence of chunks
abbrev pub concat : List Text → Text
concat [] = []
concat (chunk ∷ chunks) = chunk ++ concat chunks

abbrev no_newline : Text → Bool
no_newline s = all (λ (c : ℕ). not (c == 10)) s

abbrev set_remainder : Text → Reader → Reader
set_remainder text r = record r { remainder = text }

abbrev then_cut : List Text × Text → Text → List Text × Text
then_cut front s = (front.0 ++ (cut s front.1).0, (cut s front.1).1)

cut_newline :
    (c : ℕ) (s cur : Text) → (c == 10) ≡ true → cut (c ∷ s) cur ≡ (cur ∷ (cut s []).0, (cut s []).1)
cut_newline c s cur e = rw (cut, e) refl

cut_other : (c : ℕ) (s cur : Text) → (c == 10) ≡ false → cut (c ∷ s) cur ≡ cut s (cur ++ c ∷ [])
cut_other c s cur e = rw (cut, e) refl

cut-append : (a b cur : Text) → cut (a ++ b) cur ≡ then_cut (cut a cur) b
cut-append [] b cur = refl
cut-append (c ∷ a) b cur = elim (Bool-cases (c == 10)) [
  | inl e ↦ rw (cut_newline c (a ++ b) cur e, cut_newline c a cur e, cut-append a b []) refl
  | inr e ↦ rw (cut_other c (a ++ b) cur e, cut_other c a cur e) (cut-append a b (cur ++ c ∷ []))
]

all-append {ℓ} :
    {A : Type ℓ} (p : A → Bool) (xs ys : List A) → all p (xs ++ ys) ≡ (all p xs && all p ys)
all-append p [] ys = refl
all-append p (x ∷ xs) ys = ground (arith, all-append p xs ys)

cut_open : (s cur : Text) → no_newline s ≡ true → cut s cur ≡ ([], cur ++ s)
cut_open [] cur h = ap (λ (t : Text). ([], t)) (sym (append_nil cur))
cut_open (c ∷ s) cur h =
    cut_other c s cur (ground arith)
    ∙ cut_open s (cur ++ c ∷ []) (ground arith)
    ∙ ap (λ (t : Text). ([], t)) (append_assoc cur (c ∷ []) s)

cut_rest : (s cur : Text) → no_newline cur ≡ true → no_newline (cut s cur).1 ≡ true
cut_rest [] cur h = h
cut_rest (c ∷ s) cur h = elim (Bool-cases (c == 10)) [
  | inl e ↦ rw (cut_newline c s cur e) (cut_rest s [] refl)
  | inr e ↦ rw (cut_other c s cur e) (
      cut_rest s (cur ++ c ∷ [])
        (ground (arith, all-append (λ (a : ℕ). not (a == 10)) cur (c ∷ []))))
]

on_lines-append :
    (p : Parser) (xs ys : List Text) (r : Reader)
    → on_lines p (xs ++ ys) r ≡ on_lines p ys (on_lines p xs r)
on_lines-append p [] ys r = refl
on_lines-append p (x ∷ xs) ys r = on_lines-append p xs ys (on_line p x r)

on_line_remainder :
    (p : Parser) (line t : Text) (r : Reader)
    → on_line p line (set_remainder t r) ≡ set_remainder t (on_line p line r)
unfolding on_line
on_line_remainder p line t r = ground arith

on_lines_remainder :
    (p : Parser) (lines : List Text) (t : Text) (r : Reader)
    → on_lines p lines (set_remainder t r) ≡ set_remainder t (on_lines p lines r)
on_lines_remainder p [] t r = refl
on_lines_remainder p (line ∷ lines) t r =
    rw (on_line_remainder p line t r) (on_lines_remainder p lines t (on_line p line r))

on_chunk-remainder :
    (p : Parser) (r : Reader) (a : Text)
    → no_newline r.remainder ≡ true
    → no_newline (on_chunk p r a).remainder ≡ true
unfolding on_chunk
on_chunk-remainder p r a h = cut_rest (r.remainder ++ a) [] refl

cut_resume : (s b : Text) → no_newline s ≡ true → cut (s ++ b) [] ≡ cut b s
cut_resume s b h = cut-append s b [] ∙ ap (λ (c : List Text × Text). then_cut c b) (cut_open s [] h)

on_chunk-append :
    (p : Parser) (r : Reader) (a b : Text) → on_chunk p (on_chunk p r a) b ≡ on_chunk p r (a ++ b)
unfolding on_chunk
on_chunk-append p r a b =
    let c : List Text × Text = cut (r.remainder ++ a) [] in
    let e : cut (c.1 ++ b) [] ≡ cut b c.1 =
      cut_resume c.1 b (cut_rest (r.remainder ++ a) [] refl) in
    let f : cut (r.remainder ++ (a ++ b)) [] ≡ then_cut c b =
      ap (λ (t : Text). cut t []) (sym (append_assoc r.remainder a b))
      ∙ cut-append (r.remainder ++ a) b [] in
    rw
      (
        e,
        f,
        on_lines_remainder p (cut b c.1).0 c.1 (on_lines p c.0 r),
        on_lines-append p c.0 (cut b c.1).0 r,
      )
      refl

on_chunk_nil : (p : Parser) (r : Reader) → no_newline r.remainder ≡ true → on_chunk p r [] ≡ r
unfolding on_chunk
on_chunk_nil p r h = rw (append_nil r.remainder, cut_open r.remainder [] h) refl

pub read_chunks-concat :
    (p : Parser) (r : Reader) (chunks : List Text)
    → no_newline r.remainder ≡ true
    → read_chunks p r chunks ≡ on_chunk p r (concat chunks)
unfolding read_chunks
read_chunks-concat p r [] h = sym (on_chunk_nil p r h)
read_chunks-concat p r (chunk ∷ chunks) h =
    read_chunks-concat p (on_chunk p r chunk) chunks (on_chunk-remainder p r chunk h)
    ∙ on_chunk-append p r chunk (concat chunks)

-- However the network cuts the agent's reply into chunks, in the middle of a line or of a prefix
-- included, the session ends as if the whole text had come in one chunk.
pub chunking :
    (p : Parser) (chunks : List Text) → read_session p chunks ≡ read_session p (concat chunks ∷ [])
unfolding read_session read_chunks
chunking p chunks = ap finish (read_chunks-concat p start_reader chunks refl)
