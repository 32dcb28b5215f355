-- ===== src/Identifiers/Format.antt =====
-- The text of an identifier, and its number.
use saps_case_dockets.Prelude.{
  ℕ, zero, suc, ◌+◌, ◌-◌, ◌*◌, ◌/◌, ◌%◌, ◌<◌, ◌≡◌, refl, ap, sym, ◌∙◌, Bool, true, false, List, [],
  ◌∷◌, ◌++◌, ltb, if◌then◌else◌, arith, length,
}
use saps_case_dockets.Text.{Text}
use saps_case_dockets.Identifiers.{digits, decimal, zeros, padded, format_identifier}

-- the number that a text of digits spells, behind the digits read so far
abbrev pub read : ℕ → Text → ℕ
read n [] = n
read n (c ∷ s) = read (10 * n + (c - b'0')) s

digit_value : (n : ℕ) → 10 * 0 + ((b'0' + n) - b'0') ≡ n
digit_value n = omega arith

quotient_lt : (f n : ℕ) → n < suc f → ltb n 10 ≡ false → n / 10 < f
quotient_lt f n h p = grind arith

last_digit : (n : ℕ) → 10 * (n / 10) + ((b'0' + n % 10) - b'0') ≡ n
last_digit n = omega arith

read-digit :
    (n : ℕ) (acc more : Text) (small : Bool)
    → (small ≡ false → read 0 more ≡ read n acc)
    → read 0 (if small then (b'0' + n) ∷ acc else more) ≡ read n acc
read-digit n acc more true rest = ap (λ k. read k acc) (digit_value n)
read-digit n acc more false rest = rest refl

read-digits : (f n : ℕ) (acc : Text) → n < f → read 0 (digits f n acc) ≡ read n acc
unfolding digits
read-digits zero n acc h = omega arith
read-digits (suc f) n acc h = read-digit n acc _ (ltb n 10) λ large.
    read-digits f (n / 10) ((b'0' + n % 10) ∷ acc) (quotient_lt f n h large)
    ∙ ap (λ k. read k acc) (last_digit n)

read-zeros : (k : ℕ) (s : Text) → read 0 (zeros k s) ≡ read 0 s
unfolding zeros
read-zeros zero s = refl
read-zeros (suc k) s = read-zeros k s

-- Reading a padded number gives the number back.
read-padded : (n : ℕ) → read 0 (padded n) ≡ n
unfolding padded decimal
read-padded n =
    read-zeros (6 - length (digits (suc n) n [])) (digits (suc n) n [])
    ∙ read-digits (suc n) n [] (omega arith)

-- the text without its first characters
abbrev drop : {A : Type 0} → List A → List A → List A
drop [] s = s
drop (x ∷ xs) [] = []
drop (x ∷ xs) (y ∷ ys) = drop xs ys

drop-append : {A : Type 0} (xs ys : List A) → drop xs (xs ++ ys) ≡ ys
drop-append [] ys = refl
drop-append (x ∷ xs) ys = drop-append xs ys

cancel : (xs ys zs : Text) → (xs ++ ys) ≡ (xs ++ zs) → ys ≡ zs
cancel xs ys zs h = sym (drop-append xs ys) ∙ ap (drop xs) h ∙ drop-append xs zs

-- Identifiers of one prefix, station and year that are the same text have the same number.
pub format_identifier-injective :
    (prefix station_code : Text) (year m n : ℕ)
    → format_identifier prefix station_code year m ≡ format_identifier prefix station_code year n
    → m ≡ n
unfolding format_identifier
format_identifier-injective prefix station_code year m n h =
    let tails = cancel (b'-' ∷ []) _ _ (
      cancel (decimal year) _ _ (
        cancel (b'-' ∷ []) _ _
          (cancel station_code _ _ (cancel (b'-' ∷ []) _ _ (cancel prefix _ _ h))))) in
    sym (read-padded m) ∙ ap (read 0) tails ∙ read-padded n
