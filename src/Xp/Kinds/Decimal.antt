-- ===== src/Xp/Kinds/Decimal.antt =====
-- strconv.FormatInt(n, 10) of a number that is not negative; an int64 has at most 19 digits, so the
-- fuel of 20 is enough.
use Prim.Native.Char.{Char, code}
use musecat_backend_core.Prelude.{
  ℕ, zero, suc, ◌/◌, ◌%◌, ◌≡◌, refl, String, false, arith, ◌==◌, if◌then◌else◌,
}
use musecat_backend_core.Prelude.Text.{Lacks}

pub digit : ℕ → Char
digit zero = "0"
digit (suc zero) = "1"
digit (suc (suc zero)) = "2"
digit (suc (suc (suc zero))) = "3"
digit (suc (suc (suc (suc zero)))) = "4"
digit (suc (suc (suc (suc (suc zero))))) = "5"
digit (suc (suc (suc (suc (suc (suc zero)))))) = "6"
digit (suc (suc (suc (suc (suc (suc (suc zero))))))) = "7"
digit (suc (suc (suc (suc (suc (suc (suc (suc zero)))))))) = "8"
digit (suc (suc (suc (suc (suc (suc (suc (suc (suc n))))))))) = "9"

pub digits : ℕ → ℕ → String → String
digits zero n out = out
digits (suc fuel) n out =
    let longer = String.◌∷◌ (digit (n % 10)) out in
    let rest = digits fuel (n / 10) longer in if n / 10 == 0 then longer else rest

unfoldable pub format_int : ℕ → String
unfolding digits digit
format_int n = digits 20 n ""

digit-ne_colon : (n : ℕ) → (code (digit n) == b':') ≡ false
unfolding digit
digit-ne_colon zero = refl
digit-ne_colon (suc zero) = refl
digit-ne_colon (suc (suc zero)) = refl
digit-ne_colon (suc (suc (suc zero))) = refl
digit-ne_colon (suc (suc (suc (suc zero)))) = refl
digit-ne_colon (suc (suc (suc (suc (suc zero))))) = refl
digit-ne_colon (suc (suc (suc (suc (suc (suc zero)))))) = refl
digit-ne_colon (suc (suc (suc (suc (suc (suc (suc zero))))))) = refl
digit-ne_colon (suc (suc (suc (suc (suc (suc (suc (suc zero)))))))) = refl
digit-ne_colon (suc (suc (suc (suc (suc (suc (suc (suc (suc n))))))))) = refl

digits-Lacks_colon : (fuel n : ℕ) (out : String) → Lacks b':' out → Lacks b':' (digits fuel n out)
unfolding digits
digits-Lacks_colon zero n out h = h
digits-Lacks_colon (suc fuel) n out h = ground (
  arith,
  digits-Lacks_colon fuel (n / 10) (String.◌∷◌ (digit (n % 10)) out),
  digit-ne_colon (n % 10),
)

-- A decimal number holds no colon.
pub format_int-Lacks_colon : (n : ℕ) → Lacks b':' (format_int n)
format_int-Lacks_colon n = unfold format_int in digits-Lacks_colon 20 n "" tt

format_int_test : format_int 1234500 ≡ "1234500"
unfolding format_int
format_int_test = refl
