-- ===== src/Lint/Clean.antt =====
-- What `preprocess_line` of tools/ownedc_lint.c leaves of a line that is written in pieces: code,
-- string literals and comments. It knows no character constants: the quotation mark in '"' starts a
-- literal.
use owned_c.Base.{
  ℕ, ◌≡◌, refl, ap, ◌∙◌, Bool, true, false, not, ◌&&◌, List, [], ◌∷◌, ◌++◌, arith, ◌==◌,
}
use owned_c.Lint.Text.{Bytes, keep, strip, preprocess_line}

-- Neither a quotation mark nor a slash.
abbrev pub is_plain : ℕ → Bool
is_plain c = not (c == b'"') && not (c == b'/')

-- A character between quotation marks: an escape takes the byte behind it along.
pub data LiteralChar : Type 0 where
  plain : (c : ℕ) → (c == b'"') ≡ false → (c == b'\\') ≡ false → LiteralChar
  escape : ℕ → LiteralChar

-- The characters and the closing quotation mark, in front of the rest.
abbrev pub closed : List LiteralChar → Bytes → Bytes
closed [] rest = b'"' ∷ rest
closed (plain c _ _ ∷ cs) rest = c ∷ closed cs rest
closed (escape c ∷ cs) rest = b'\\' ∷ c ∷ closed cs rest

-- The characters of a literal that the line does not close.
abbrev pub characters : List LiteralChar → Bytes
characters [] = []
characters (plain c _ _ ∷ cs) = c ∷ characters cs
characters (escape c ∷ cs) = b'\\' ∷ c ∷ characters cs

-- The bytes of a comment: no star is followed by a slash. `first` is whether a slash may come first.
abbrev pub InComment : (after_star : Bool) → Bytes → Type 0
InComment after_star [] = Unit
InComment after_star (c ∷ cs) = ((after_star && c == b'/') ≡ false) × InComment (c == b'*') cs

-- A code byte is no quotation mark, and a slash is code in front of a byte that is no quotation mark,
-- slash or star.
pub data Piece : Type 0 where
  code : (c : ℕ) → is_plain c ≡ true → Piece
  division : (d : ℕ) → is_plain d ≡ true → (d == b'*') ≡ false → Piece
  literal : List LiteralChar → Piece
  comment : (cs : Bytes) → InComment false cs → Piece

-- How a piece is written in front of the rest, and what is left of it.
abbrev pub write : Piece → Bytes → Bytes
write (code c _) rest = c ∷ rest
write (division d _ _) rest = b'/' ∷ d ∷ rest
write (literal cs) rest = b'"' ∷ closed cs rest
write (comment cs _) rest = b'/' ∷ b'*' ∷ cs ++ b'*' ∷ b'/' ∷ rest

abbrev pub leave : Piece → Bytes → Bytes
leave (code c _) rest = c ∷ rest
leave (division d _ _) rest = b'/' ∷ d ∷ rest
leave (literal cs) rest = b'"' ∷ b'"' ∷ rest
leave (comment cs _) rest = rest

-- A line ends, or the rest of it is a comment, or a literal or a comment that it does not close.
pub data Ending : Type 0 where
  at_end : Ending
  line_comment : Bytes → Ending
  open_literal : List LiteralChar → Ending
  open_comment : (cs : Bytes) → InComment false cs → Ending

abbrev pub write_end : Ending → Bytes
write_end at_end = []
write_end (line_comment cs) = b'/' ∷ b'/' ∷ cs
write_end (open_literal cs) = b'"' ∷ characters cs
write_end (open_comment cs _) = b'/' ∷ b'*' ∷ cs

abbrev pub leave_end : Ending → Bytes
leave_end (open_literal cs) = b'"' ∷ []
leave_end _ = []

-- Whether the next line starts in a comment.
abbrev pub opens_comment : Ending → Bool
opens_comment (open_comment _ _) = true
opens_comment _ = false

abbrev pub written : List Piece → Ending → Bytes
written [] e = write_end e
written (p ∷ ps) e = write p (written ps e)

abbrev pub left : List Piece → Ending → Bytes
left [] e = leave_end e
left (p ∷ ps) e = leave p (left ps e)

strip_code :
    (c : ℕ) (rest : Bytes)
    → is_plain c ≡ true
    → strip false false (c ∷ rest) ≡ keep c (strip false false rest)
unfolding strip
strip_code c [] h = ground arith
strip_code c (d ∷ rest) h = ground arith

strip_literal :
    (cs : List LiteralChar) (rest : Bytes)
    → strip false true (closed cs rest) ≡ keep b'"' (strip false false rest)
unfolding strip
strip_literal [] [] = refl
strip_literal [] (d ∷ rest) = refl
strip_literal (plain c q e ∷ []) rest = ground (arith, strip_literal [] rest)
strip_literal (plain c q e ∷ plain d q' e' ∷ cs) rest =
    ground (arith, strip_literal (plain d q' e' ∷ cs) rest)
strip_literal (plain c q e ∷ escape d ∷ cs) rest =
    ground (arith, strip_literal (escape d ∷ cs) rest)
strip_literal (escape c ∷ cs) rest = strip_literal cs rest

strip_comment :
    (cs rest : Bytes)
    → InComment false cs
    → strip true false (cs ++ b'*' ∷ b'/' ∷ rest) ≡ strip false false rest
unfolding strip
strip_comment [] rest h = refl
strip_comment (c ∷ []) rest h = ground (arith, strip_comment [] rest tt)
strip_comment (c ∷ d ∷ cs) rest h = ground (arith, h.1.0, strip_comment (d ∷ cs) rest (refl, h.1.1))

strip_open_literal : (cs : List LiteralChar) → strip false true (characters cs) ≡ ([], false)
unfolding strip
strip_open_literal [] = refl
strip_open_literal (plain c q e ∷ []) = ground arith
strip_open_literal (plain c q e ∷ plain d q' e' ∷ cs) =
    ground (arith, strip_open_literal (plain d q' e' ∷ cs))
strip_open_literal (plain c q e ∷ escape d ∷ cs) =
    ground (arith, strip_open_literal (escape d ∷ cs))
strip_open_literal (escape c ∷ cs) = strip_open_literal cs

strip_open_comment : (cs : Bytes) → InComment false cs → strip true false cs ≡ ([], true)
unfolding strip
strip_open_comment [] h = refl
strip_open_comment (c ∷ []) h = refl
strip_open_comment (c ∷ d ∷ cs) h = ground (arith, h.1.0, strip_open_comment (d ∷ cs) (refl, h.1.1))

strip_division :
    (d : ℕ) (rest : Bytes)
    → is_plain d ≡ true
    → (d == b'*') ≡ false
    → strip false false (b'/' ∷ d ∷ rest) ≡ keep b'/' (keep d (strip false false rest))
unfolding strip
strip_division d rest h e = ground (arith, strip_code d rest h)

strip_end : (e : Ending) → strip false false (write_end e) ≡ (leave_end e, opens_comment e)
unfolding strip
strip_end at_end = refl
strip_end (line_comment cs) = refl
strip_end (open_literal []) = refl
strip_end (open_literal (plain c q e ∷ cs)) = ap (keep b'"') (strip_open_literal (plain c q e ∷ cs))
strip_end (open_literal (escape c ∷ cs)) = ap (keep b'"') (strip_open_literal (escape c ∷ cs))
strip_end (open_comment cs h) = strip_open_comment cs h

strip_pieces :
    (ps : List Piece) (e : Ending) → strip false false (written ps e) ≡ (left ps e, opens_comment e)
unfolding strip
strip_pieces [] e = strip_end e
strip_pieces (code c h ∷ ps) e = strip_code c (written ps e) h ∙ ap (keep c) (strip_pieces ps e)
strip_pieces (division d h g ∷ ps) e =
    strip_division d (written ps e) h g ∙ ap (λ r. keep b'/' (keep d r)) (strip_pieces ps e)
strip_pieces (literal [] ∷ ps) e =
    ap (keep b'"') (strip_literal [] (written ps e) ∙ ap (keep b'"') (strip_pieces ps e))
strip_pieces (literal (plain c q d ∷ cs) ∷ ps) e =
    ap (keep b'"')
      (strip_literal (plain c q d ∷ cs) (written ps e) ∙ ap (keep b'"') (strip_pieces ps e))
strip_pieces (literal (escape c ∷ cs) ∷ ps) e =
    ap (keep b'"')
      (strip_literal (escape c ∷ cs) (written ps e) ∙ ap (keep b'"') (strip_pieces ps e))
strip_pieces (comment cs h ∷ ps) e = strip_comment cs (written ps e) h ∙ strip_pieces ps e

-- A line outside a block comment is written as code bytes other than quotation marks, slashes only as
-- divisions, string literals and comments, at whose end there may be a line comment, or a literal or a
-- comment that the line does not close. It keeps its code and the quotation marks of its literals and
-- loses the rest, which is all that is behind a quotation mark that is not closed, and a block comment
-- is open behind it if and only if the line does not close its last one. The quotation mark of a
-- character constant starts a literal here.
pub preprocess_line-pieces :
    (ps : List Piece) (e : Ending)
    → preprocess_line (written ps e) false ≡ (left ps e, opens_comment e)
unfolding preprocess_line
preprocess_line-pieces ps e = strip_pieces ps e
