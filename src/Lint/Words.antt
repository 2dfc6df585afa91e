-- ===== src/Lint/Words.antt =====
-- `is_raw_alloc_free` of tools/ownedc_lint.c against `is_word`.
use owned_c.Base.{◌≡◌, refl, false, [], ◌∷◌, arith, inl, inr, Bool-cases}
use owned_c.Lint.Text.{Bytes, codes, first_is_ident, starts_with, is_word, is_raw_alloc_free}

-- A word behind an underscore is part of a longer one.
underscore_before :
    (w before : Bytes) → first_is_ident before ≡ false → starts_with (b'_' ∷ w) before ≡ false
underscore_before w [] e = refl
underscore_before w (c ∷ cs) e = ground arith

-- The five tests of prefixes exclude nothing that the test for a whole word has not excluded: the
-- function answers as `is_word`, at every place and for every word.
pub is_raw_alloc_free-eq :
    (before p word : Bytes) → is_raw_alloc_free before p word ≡ is_word before p word
unfolding is_raw_alloc_free is_word
is_raw_alloc_free-eq before p word = elim (Bool-cases (first_is_ident before)) [
  | inl e ↦ ground arith
  | inr e ↦
      rw
        (
          underscore_before (codes "renwo") before e,
          underscore_before (codes "TLUAFED_CDENWO") before e,
          underscore_before (codes "labolg") before e,
          underscore_before (codes "lssnepo") before e,
          underscore_before (codes "NOSJc") before e,
        )
        (ground arith)
]
