-- ===== src/EnvFile/Lines.antt =====
-- src/core/config_loader/env_file.rs: proofs about the parts of one written line.
use vectis.Base.{ℕ, ◌≡◌, refl, false, [], ◌∷◌, ◌++◌, some, none, arith, ◌==◌, Text, any}
use vectis.Error.Result.{ok}
use vectis.Validation.Split.{Lacks}
use vectis.EnvFile.{
  split_inclusive, strip_suffix, is_env_space, trim_start, trim_end, trim_env_whitespace,
  split_once, record_line, quoted_value, unquoted,
}

pub split_inclusive-append :
    (s rest : Text)
    → Lacks 10 s
    → split_inclusive (s ++ 10 ∷ rest) ≡ (s ++ 10 ∷ []) ∷ split_inclusive rest
unfolding split_inclusive
split_inclusive-append [] rest h = refl
split_inclusive-append (c ∷ s) rest h = ground (arith, split_inclusive-append s rest)

strip_suffix-append : (c : ℕ) (s : Text) → strip_suffix c (s ++ c ∷ []) ≡ some s
unfolding strip_suffix
strip_suffix-append c [] = ground arith
strip_suffix-append c (d ∷ []) = ground arith
strip_suffix-append c (d ∷ e ∷ s) = ground (arith, strip_suffix-append c (e ∷ s))

strip_suffix-other : (c d : ℕ) (s : Text) → d == c ≡ false → strip_suffix c (s ++ d ∷ []) ≡ none
unfolding strip_suffix
strip_suffix-other c d [] h = ground (arith, h)
strip_suffix-other c d (e ∷ []) h = ground (arith, h)
strip_suffix-other c d (e ∷ f ∷ s) h = ground (arith, strip_suffix-other c d (f ∷ s) h)

-- The line of a record that ends in a line feed, and not in a carriage return before it.
pub record_line-append :
    (s : Text) (d : ℕ) → d == 13 ≡ false → record_line ((s ++ d ∷ []) ++ 10 ∷ []) ≡ s ++ d ∷ []
unfolding record_line
record_line-append s d h =
    rw (record_line, strip_suffix-append 10 (s ++ d ∷ []), strip_suffix-other 13 d s h) refl

trim_end-append : (s : Text) (d : ℕ) → is_env_space d ≡ false → trim_end (s ++ d ∷ []) ≡ s ++ d ∷ []
unfolding trim_end
trim_end-append [] d h = ground (arith, h)
trim_end-append (c ∷ []) d h = ground (arith, h)
trim_end-append (c ∷ e ∷ s) d h = ground (arith, trim_end-append (e ∷ s) d h)

trim_start-first : (c : ℕ) (s : Text) → is_env_space c ≡ false → trim_start (c ∷ s) ≡ c ∷ s
unfolding trim_start
trim_start-first c s h = ground (arith, h)

-- A text that starts and ends in other characters is not trimmed.
pub trim_env_whitespace-closed :
    (c : ℕ) (s : Text) (d : ℕ)
    → is_env_space c ≡ false
    → is_env_space d ≡ false
    → trim_env_whitespace (c ∷ (s ++ d ∷ [])) ≡ c ∷ (s ++ d ∷ [])
unfolding trim_env_whitespace
trim_env_whitespace-closed c s d hc hd =
    rw (trim_env_whitespace, trim_start-first c (s ++ d ∷ []) hc) (trim_end-append (c ∷ s) d hd)

trim_end-none : (s : Text) → any is_env_space s ≡ false → trim_end s ≡ s
unfolding trim_end
trim_end-none [] h = refl
trim_end-none (c ∷ []) h = ground (arith, h)
trim_end-none (c ∷ d ∷ s) h = ground (arith, trim_end-none (d ∷ s))

-- Nor is a text without white space.
pub trim_env_whitespace-none : (s : Text) → any is_env_space s ≡ false → trim_env_whitespace s ≡ s
unfolding trim_env_whitespace trim_start
trim_env_whitespace-none [] h = unfold trim_end in refl
trim_env_whitespace-none (c ∷ s) h =
    rw (trim_env_whitespace, trim_start-first c s (ground arith)) (trim_end-none (c ∷ s) h)

pub split_once-append :
    (sep : ℕ) (s rest : Text) → Lacks sep s → split_once sep (s ++ sep ∷ rest) ≡ some (s, rest)
unfolding split_once
split_once-append sep [] rest h = ground arith
split_once-append sep (c ∷ s) rest h = ground (arith, split_once-append sep s rest)

-- A quoted value without the quote.
pub unquoted-quoted :
    (value : Text) → Lacks b'\'' value → unquoted (b'\'' ∷ (value ++ b'\'' ∷ [])) ≡ ok value
unfolding unquoted quoted_value trim_env_whitespace trim_start trim_end
unquoted-quoted value h = rw (unquoted, quoted_value, split_once-append b'\'' value [] h) refl
